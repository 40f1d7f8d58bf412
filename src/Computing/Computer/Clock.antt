-- ===== src/Computing/Computer/Clock.antt =====
-- `pause` and `resume` of Edge/computer.cpp: the virtual clock of the containers.
use serverlessonedge.Prelude.{
  ℕ, ◌+◌, String, some, Bool, true, false, List, [], ◌∷◌, ◌++◌, if◌then◌else◌, Outcome, ok, ◌≡◌,
  refl, sym, ap, arith, Bool-cases, inl, inr,
}
use mathlib.Core.Path.{subst}
use serverlessonedge.Prelude.Map.{find, keys}
use serverlessonedge.Prelude.Map.Sum.{sum}
use serverlessonedge.Prelude.Counting.{count}
use serverlessonedge.Prelude.Float.{Float}
use serverlessonedge.Computing.Processor.{time_to_ops}
use serverlessonedge.Computing.Container.{Task, Container, Host, run_front, advance}
use serverlessonedge.Computing.Container.Invariant.{IsValid}
use serverlessonedge.Computing.Container.Pop.{advance-IsValid}
use serverlessonedge.Computing.Container.Conserve.{ids, all_ids}
use serverlessonedge.Computing.Container.Frame.{advance-Keeps}
use serverlessonedge.Computing.Computer.{
  Placed, Computer, for_each, and_then, pause, resume, some_active,
}
use serverlessonedge.Computing.Computer.Coherent.{IsCoherent}
use serverlessonedge.Computing.Computer.Steps.{keys-Has, Follows-refl, and_then-ok}
use serverlessonedge.Computing.Computer.Loop.{Balances, for_each-Looped, total_of}

-- How often the identifier `i` stands among the tasks of a computer.
abbrev pub occurrences : {W : Type 0} → ℕ → Computer W → ℕ
occurrences i c = sum (λ e. count i (all_ids e.container)) c.containers

ids-run_front : (k : ℕ) (xs : List Task) → ids (run_front k xs) ≡ ids xs
unfolding run_front
ids-run_front k [] = refl
ids-run_front k (x ∷ xs) = ground arith

count-run_front :
    {W : Type 0} (i k : ℕ) (c : Container W)
    → count i (all_ids (record c { active = run_front k c.active })) ≡ count i (all_ids c)
count-run_front i k c = ap (λ xs. count i (xs ++ ids c.pending)) (ids-run_front k c.active)

advance-balance :
    {W : Type 0} (d : Float W) (i : ℕ) (time : W) (h : Host W)
    → count i (all_ids (advance d time h).1.container) + 0 ≡ count i (all_ids h.container)
unfolding advance
advance-balance d i time h = elim (Bool-cases (d.lt time d.nought)) [
  | inl past ↦ rw past (omega arith)
  | inr forth ↦
      rw forth (omega (arith, count-run_front i (time_to_ops d time h.processor) h.container))
]

module _ {W : Type 0} where
  -- A flag of the computer has no part in its invariant.
  pub flags-IsCoherent :
      (c c' : Computer W)
      → IsCoherent c
      → c'.processors ≡ c.processors
      → c'.containers ≡ c.containers
      → IsCoherent c'
  flags-IsCoherent c c' i p e = record {
    sorted = rw e i.sorted;
    lends = rw (p, e) i.lends;
    placed = rw (p, e) i.placed;
  }

  pub resume-IsCoherent : (c : Computer W) → IsCoherent c → IsCoherent (resume c)
  unfolding resume
  resume-IsCoherent c i = elim (Bool-cases (some_active c.containers)) [
    | inl yes' ↦ rw yes' (flags-IsCoherent c (record c { chrono = true }) i refl refl)
    | inr no' ↦ rw no' i
  ]

module _ {W : Type 0} (d : Float W) (elapsed : ℕ → W) (time : W)
    (forth : d.lt time d.nought ≡ false) where
  advance-Balances :
      (i m n : ℕ) (h : Host W)
      → IsValid m n h
      → Balances (λ _. 0) (λ c. count i (all_ids c)) m n h (advance d time h)
  advance-Balances i m n h v =
      let (returned, valid) = rw forth at (advance-IsValid d elapsed m n time h v) in
      record {
        value = tt;
        returned = returned;
        valid = valid;
        keeps = advance-Keeps d elapsed time h;
        balance = advance-balance d i time h;
      }

  -- What `pause` makes of a coherent computer: the chronometer is stopped, the tasks stay.
  pub record Paused (i : ℕ) (c : Computer W) (r : Outcome (Unit {0}) × Computer W) : Type 0 where
    pub returned : r.0 ≡ ok tt
    pub coherent : IsCoherent r.1
    pub next_id : r.1.next_id ≡ c.next_id
    pub stopped : r.1.chrono ≡ false
    pub containers :
        (k : String) (e : Placed W)
        → find k c.containers ≡ some e
        → (f : Placed W) × (find k r.1.containers ≡ some f)
          × (f.processor ≡ e.processor)
          × (f.container.lambda ≡ e.container.lambda)
    pub tasks : occurrences i r.1 ≡ occurrences i c

  no_total : (us : List (Unit {0})) → total_of (λ _. 0) us ≡ 0
  no_total [] = refl
  no_total (u ∷ us) = omega (arith, no_total us)

  pub pause-Paused : (i : ℕ) (c : Computer W) → IsCoherent c → Paused i c (pause d elapsed time c)
  unfolding pause
  pause-Paused i c j =
      let c' : Computer W = record c { chrono = false } in
      let loop = for_each (advance d time) (keys c.containers) c' in
      let branch = λ (b : Bool).
        Paused i c (if b then and_then loop (λ _ c''. (ok tt, c'')) else (ok tt, c)) in
      elim (Bool-cases c.chrono) [
        | inr still ↦ subst branch (sym still) (record {
          returned = refl;
          coherent = j;
          next_id = refl;
          stopped = still;
          containers = (Follows-refl c).containers;
          tasks = refl;
        })
        | inl runs ↦
            let l =
              for_each-Looped (advance d time) (λ _. 0) (λ k. count i (all_ids k))
                (advance-Balances i) (keys c.containers) c' (flags-IsCoherent c c' j refl refl)
                (keys-Has c) in
            subst branch (sym runs) (
              rw (and_then-ok l.values loop _ l.returned) (record {
                returned = refl;
                coherent = l.coherent;
                next_id = l.follows.next_id;
                stopped = l.follows.chrono;
                containers = l.follows.containers;
                tasks = omega (arith, l.balance, no_total l.values);
              }))
      ]
