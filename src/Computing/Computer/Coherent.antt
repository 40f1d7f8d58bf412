-- ===== src/Computing/Computer/Coherent.antt =====
-- Edge/computer.cpp: the invariant of a computer. What a processor has lent is what the containers
-- placed on it hold, together.
use serverlessonedge.Prelude.{
  ℕ, ◌-◌, ◌≤◌, ◌<◌, String, some, length, All, if◌then◌else◌, str_eq, ◌≡◌, refl, sym, ap, arith,
}
use mathlib.Core.Path.{subst, ◌∙◌}
use mathlib.Core.Option.{some-injective}
use serverlessonedge.Prelude.Map.{Map, find, str_eq_refl}
use serverlessonedge.Prelude.Map.Sorted.{IsSorted, All-of_find}
use serverlessonedge.Prelude.Map.Sum.{sum, sum-find, sum-part}
use serverlessonedge.Prelude.Word.{word_mod}
use serverlessonedge.Computing.Processor.{Processor, IsSound}
use serverlessonedge.Computing.Container.{Container}
use serverlessonedge.Computing.Container.Order.{total}
use serverlessonedge.Computing.Container.Invariant.{IsValid, CanWait, memory_of}
use serverlessonedge.Computing.Computer.{Placed, Computer}

module _ {W : Type 0} where
  -- A measure of the containers placed on the processor `p`.
  abbrev pub on : String → (Container W → ℕ) → Placed W → ℕ
  on p f e = if str_eq e.processor p then f e.container else 0

  -- The memory and the number of the active tasks, and the number of the workers.
  abbrev pub held : String → Placed W → ℕ
  held p = on p (λ c. memory_of c.active)

  abbrev pub busy : String → Placed W → ℕ
  busy p = on p (λ c. length c.active)

  abbrev pub crew : String → Placed W → ℕ
  crew p = on p (λ c. c.num_workers)

  -- The processor `q`, of the name `p`, has lent what the containers hold.
  pub record Lends (es : Map (Placed W)) (p : String) (q : Processor W) : Type 0 where
    pub sound : IsSound q
    pub memory : q.mem_used ≡ sum (held p) es
    pub running : q.running ≡ sum (busy p) es
    pub room : sum (crew p) es < word_mod

  -- The tasks of a container fit its workers and the memory of its processor.
  pub record Fits (mem_total : ℕ) (c : Container W) : Type 0 where
    pub workers : length c.active ≤ c.num_workers
    pub ops : total c.active < word_mod
    pub waiting : All (CanWait mem_total) c.pending

  -- The processor of a container is there, and its tasks fit.
  abbrev pub IsPlaced : Map (Processor W) → Placed W → Type 0
  IsPlaced ps e = (q : Processor W) × (find e.processor ps ≡ some q) × Fits q.mem_total e.container

  pub record IsCoherent (c : Computer W) : Type 0 where
    pub sorted : IsSorted c.containers
    pub lends :
        (p : String) (q : Processor W) → find p c.processors ≡ some q → Lends c.containers p q
    pub placed :
        (k : String) (e : Placed W) → find k c.containers ≡ some e → IsPlaced c.processors e

  pub on_self : (f : Container W → ℕ) (e : Placed W) → on e.processor f e ≡ f e.container
  on_self f e = rw (str_eq_refl e.processor) refl

  -- No processor runs more tasks than there are workers on it.
  busy-crew :
      (c : Computer W) (p : String) → IsCoherent c → All (λ e. busy p e.1 ≤ crew p e.1) c.containers
  busy-crew c p i =
      All-of_find (λ k e. busy p e ≤ crew p e) c.containers i.sorted
        (λ k e h. let (q, found, fits) = i.placed k e h in ground (arith, fits.workers))

  -- The container `e` of a coherent computer, on its processor, is valid; the other tasks of the
  -- processor are those of the other containers.
  pub host-IsValid :
      (c : Computer W) (k : String) (e : Placed W) (q : Processor W)
      → IsCoherent c
      → find k c.containers ≡ some e
      → find e.processor c.processors ≡ some q
      → IsValid
          (sum (held e.processor) c.containers - memory_of e.container.active)
          (sum (busy e.processor) c.containers - length e.container.active)
          (record { processor = q; container = e.container })
  host-IsValid c k e q i h g =
      let p = e.processor in
      let l = i.lends p q g in
      let (r, found, fits) = i.placed k e h in
      let same : r ≡ q = some-injective r q (sym found ∙ g) in
      let own_memory = on_self (λ x. memory_of x.active) e in
      let own_tasks = on_self (λ x. length x.active) e in
      let own_workers = on_self (λ x. x.num_workers) e in
      record {
        sound = l.sound;
        memory = omega (arith, l.memory, sum-part (held p) k e c.containers h, own_memory);
        running = omega (arith, l.running, sum-part (busy p) k e c.containers h, own_tasks);
        room = omega (
          arith,
          l.room,
          sum-find (busy p) (crew p) k e c.containers (busy-crew c p i) h,
          sum-part (busy p) k e c.containers h,
          own_tasks,
          own_workers,
        );
        workers = fits.workers;
        ops = fits.ops;
        waiting =
            subst (λ m. All (CanWait m) e.container.pending) (ap (λ x. x.mem_total) same)
              fits.waiting;
      }
