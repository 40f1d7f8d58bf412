-- ===== src/Computing/Computer/Dispatching.antt =====
-- The dispatcher of Edge/computer.cpp on a coherent computer.
use serverlessonedge.Prelude.{
  ℕ, ◌+◌, false, not, ◌&&◌, List, [], Outcome, ok, ◌≡◌, refl, arith, Bool-cases, inl, inr, ◌∙◌,
}
use serverlessonedge.Prelude.Map.{keys}
use serverlessonedge.Prelude.Counting.{count, count-append, Perm-count}
use serverlessonedge.Prelude.Float.{Float}
use serverlessonedge.Computing.Container.{Task, Host}
use serverlessonedge.Computing.Container.Invariant.{IsValid}
use serverlessonedge.Computing.Container.Conserve.{ids, all_ids}
use serverlessonedge.Computing.Computer.{Computer, pause, resume, some_active, for_each}
use serverlessonedge.Computing.Computer.Dispatch.{drain_all, dispatch_completed_tasks, dispatcher}
use serverlessonedge.Computing.Computer.Drain.{drain_all-Drained}
use serverlessonedge.Computing.Computer.Coherent.{IsCoherent}
use serverlessonedge.Computing.Computer.Steps.{keys-Has, and_then-ok}
use serverlessonedge.Computing.Computer.Loop.{Balances, for_each-Looped, total_of}
use serverlessonedge.Computing.Computer.Clock.{
  occurrences, flags-IsCoherent, resume-IsCoherent, pause-Paused,
}

-- How often the identifier stands among the tasks answered.
abbrev pub answers : ℕ → List (List Task) → ℕ
answers i = total_of (λ ts. count i (ids ts))

-- The clock runs only while some task is active.
abbrev pub IsTicking : {W : Type 0} → Computer W → Type 0
IsTicking c = (c.chrono && not (some_active c.containers)) ≡ false

pub resume_lem :
    {W : Type 0} (i : ℕ) (c : Computer W)
    → c.chrono ≡ false
    → ((resume c).chrono ≡ some_active c.containers)
      × ((resume c).containers ≡ c.containers)
      × ((resume c).next_id ≡ c.next_id)
unfolding resume
resume_lem i c s = ground (arith, s)

module _ {W : Type 0} where
  -- What the dispatcher makes of a computer.
  pub record Dispatched (i : ℕ) (c : Computer W) (r : Outcome (List (List Task)) × Computer W)
      : Type 0 where
    pub answered : List (List Task)
    pub returned : r.0 ≡ ok answered
    pub coherent : IsCoherent r.1
    pub next_id : r.1.next_id ≡ c.next_id
    pub tasks : occurrences i r.1 + answers i answered ≡ occurrences i c
    pub clock : r.1.chrono ≡ some_active r.1.containers

module _ {W : Type 0} (d : Float W) (elapsed : ℕ → W) where
  drain_all-Balances :
      (i m n : ℕ) (h : Host W)
      → IsValid m n h
      → Balances (λ ts. count i (ids ts)) (λ c. count i (all_ids c)) m n h (drain_all d elapsed h)
  drain_all-Balances i m n h v =
      let r = drain_all-Drained d elapsed m n h v in
      record {
        value = r.tasks;
        returned = r.returned;
        valid = r.valid;
        keeps = r.keeps;
        balance = omega (
          arith,
          Perm-count i _ _ r.conserved,
          count-append i (ids r.tasks) (all_ids (drain_all d elapsed h).1.container),
        );
      }

  -- When it wakes, the dispatcher of a coherent computer returns, and the computer stays coherent.
  -- Each identifier stands as often among the tasks answered and the tasks left as it did among the
  -- tasks before, and the clock runs afterwards if and only if some task is active.
  pub dispatcher-Dispatched :
      (i : ℕ) (time : W) (c : Computer W)
      → IsCoherent c
      → IsTicking c
      → d.lt time d.nought ≡ false
      → Dispatched i c (dispatcher d elapsed time c)
  unfolding dispatcher dispatch_completed_tasks
  dispatcher-Dispatched i time c j ticks forth =
      let woken : Computer W = record c { new_task = false } in
      let coherent = flags-IsCoherent c woken j refl refl in
      elim (Bool-cases (some_active c.containers)) [
        | inr idle ↦ rw idle (record {
          answered = [];
          returned = refl;
          coherent = coherent;
          next_id = refl;
          tasks = omega arith;
          clock = ground (arith, ticks, idle);
        })
        | inl busy ↦
            let p = pause-Paused d elapsed time forth i woken coherent in
            let paused = (pause d elapsed time woken).1 in
            let l =
              for_each-Looped (drain_all d elapsed) (λ ts. count i (ids ts))
                (λ k. count i (all_ids k)) (drain_all-Balances i) (keys paused.containers) paused
                p.coherent (keys-Has paused) in
            let loop = for_each (drain_all d elapsed) (keys paused.containers) paused in
            let stopped = l.follows.chrono ∙ p.stopped in
            let (clock, same, next) = resume_lem i loop.1 stopped in
            rw
              (
                busy,
                and_then-ok tt (pause d elapsed time woken) _ p.returned,
                and_then-ok l.values loop _ l.returned,
              )
              (record {
                answered = l.values;
                returned = refl;
                coherent = resume-IsCoherent loop.1 l.coherent;
                next_id = next ∙ l.follows.next_id ∙ p.next_id;
                tasks = rw same (omega (arith, l.balance, p.tasks));
                clock = rw same clock;
              })
      ]
