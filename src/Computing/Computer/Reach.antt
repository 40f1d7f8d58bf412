-- ===== src/Computing/Computer/Reach.antt =====
-- Edge/computer.cpp: the computers that the operations reach, in any order, from the empty one.
use serverlessonedge.Prelude.{
  ℕ, ◌+◌, ◌≤◌, ◌<◌, String, false, some, leb, if◌then◌else◌, ◌≡◌, refl, arith, inl, inr,
}
use serverlessonedge.Prelude.Map.{find}
use serverlessonedge.Prelude.Map.Sum.{sum}
use serverlessonedge.Prelude.Word.{word_mod, add64-eq}
use serverlessonedge.Prelude.Float.{Float}
use serverlessonedge.Messages.Request.{LambdaRequest}
use serverlessonedge.Messages.Response.{Loads}
use serverlessonedge.Computing.Lambda.{Lambda}
use serverlessonedge.Computing.Processor.{Processor}
use serverlessonedge.Computing.Computer.{
  Placed, Computer, initial, some_active, add_processor, add_container, add_task,
}
use serverlessonedge.Computing.Computer.Dispatch.{dispatcher}
use serverlessonedge.Computing.Computer.Coherent.{IsCoherent, crew}
use serverlessonedge.Computing.Computer.Config.{add_container-IsCoherent, add_processor-IsCoherent}
use serverlessonedge.Computing.Computer.Clock.{occurrences}
use serverlessonedge.Computing.Computer.Dispatching.{IsTicking, dispatcher-Dispatched}
use serverlessonedge.Computing.Computer.Submission.{add_task-cases}
use serverlessonedge.Computing.Computer.Configures.{
  Configures, add_container-Configures, add_processor-Configures,
}

-- The steps, with what they rely on: sizes and counts are 64-bit words, and time does not run back.
pub data Reaches {W : Type 0} (d : Float W) (elapsed : ℕ → W) : Computer W → Type 0 where
  starts : Reaches d elapsed initial
  adds_processor :
      (name : String) (speed : W) (cores mem : ℕ) (c : Computer W)
      → mem < word_mod
      → Reaches d elapsed c
      → Reaches d elapsed (add_processor d elapsed name speed cores mem c).1
  adds_container :
      (name processor : String) (lambda : Lambda W) (n : ℕ) (c : Computer W)
      → sum (crew processor) c.containers + n < word_mod
      → Reaches d elapsed c
      → Reaches d elapsed (add_container name processor lambda n c).1
  adds_task :
      (req : LambdaRequest) (loads : Loads W) (time : W) (c : Computer W) (e : Placed W)
      → find req.name c.containers ≡ some e
      → ((p : Processor W) → (e.container.lambda.converter p req).operations < word_mod)
      → d.lt time d.nought ≡ false
      → c.next_id + 1 < word_mod
      → Reaches d elapsed c
      → Reaches d elapsed (add_task d elapsed req loads time c).1
  wakes :
      (time : W) (c : Computer W)
      → d.lt time d.nought ≡ false
      → Reaches d elapsed c
      → Reaches d elapsed (dispatcher d elapsed time c).1

-- An identifier stands at most once among the tasks, and not at all if it is still to be given.
abbrev pub IsFresh : {W : Type 0} → Computer W → Type 0
IsFresh c = (i : ℕ) → occurrences i c + (if leb c.next_id i then 1 else 0) ≤ 1

-- What holds of every computer that is reached.
pub record IsRight {W : Type 0} (c : Computer W) : Type 0 where
  pub coherent : IsCoherent c
  pub ticking : IsTicking c
  pub fresh : IsFresh c

module _ {W : Type 0} where
  Configures-IsRight :
      (c c' : Computer W) → IsRight c → IsCoherent c' → Configures c c' → IsRight c'
  Configures-IsRight c c' r coherent s = record {
    coherent = coherent;
    ticking = s.ticking r.ticking;
    fresh = λ i. rw (s.tasks i, s.next_id) (r.fresh i);
  }

module _ {W : Type 0} (d : Float W) (elapsed : ℕ → W) where
  -- A clock that runs exactly if some task is active is right, as is one that stands still.
  clock-IsTicking : (c : Computer W) → c.chrono ≡ some_active c.containers → IsTicking c
  clock-IsTicking c e = ground (arith, e)

  still-IsTicking : (c : Computer W) → c.chrono ≡ false → IsTicking c
  still-IsTicking c e = ground (arith, e)

  add_task-IsRight :
      (req : LambdaRequest) (loads : Loads W) (time : W) (c : Computer W) (e : Placed W)
      → IsRight c
      → find req.name c.containers ≡ some e
      → ((p : Processor W) → (e.container.lambda.converter p req).operations < word_mod)
      → d.lt time d.nought ≡ false
      → c.next_id + 1 < word_mod
      → IsRight (add_task d elapsed req loads time c).1
  add_task-IsRight req loads time c e r at_k small forth room =
      let result =
        λ (i : ℕ). add_task-cases d elapsed i req loads time c e r.coherent at_k small forth in
      let c' = (add_task d elapsed req loads time c).1 in
      record {
        coherent = elim (result 0) [ inl a ↦ a.coherent | inr b ↦ b.coherent ];
        ticking = elim (result 0) [
          | inl a ↦ clock-IsTicking c' a.clock
          | inr b ↦ still-IsTicking c' b.clock
        ];
        fresh = λ i. elim (result i) [
          | inl a ↦ ground (arith, r.fresh i, a.tasks, a.next_id, add64-eq c.next_id 1 room)
          | inr b ↦ ground (arith, r.fresh i, b.tasks, b.next_id, add64-eq c.next_id 1 room)
        ];
      }

  dispatcher-IsRight :
      (time : W) (c : Computer W)
      → IsRight c
      → d.lt time d.nought ≡ false
      → IsRight (dispatcher d elapsed time c).1
  dispatcher-IsRight time c r forth =
      let result = λ (i : ℕ). dispatcher-Dispatched d elapsed i time c r.coherent r.ticking forth in
      record {
        coherent = (result 0).coherent;
        ticking = clock-IsTicking (dispatcher d elapsed time c).1 (result 0).clock;
        fresh = λ i. ground (arith, r.fresh i, (result i).tasks, (result i).next_id);
      }

  initial-IsRight : IsRight (initial {W = W})
  unfolding find
  initial-IsRight = record {
    coherent = record {
      sorted = tt;
      lends = λ p q h. ground (arith, h);
      placed = λ k e h. ground (arith, h);
    };
    ticking = refl;
    fresh = λ i. ground arith;
  }

  -- Whatever the order of the steps, a computer that is reached is coherent: what each processor has
  -- lent is what its containers hold, within what it has. No two tasks have the same identifier,
  -- and the clock never runs without an active task.
  pub Reaches-IsRight : (c : Computer W) → Reaches d elapsed c → IsRight c
  Reaches-IsRight c starts = initial-IsRight
  Reaches-IsRight c (adds_processor name speed cores mem c0 small s) =
      let r = Reaches-IsRight c0 s in
      Configures-IsRight c0 _ r
        (add_processor-IsCoherent d elapsed name speed cores mem c0 r.coherent small)
        (add_processor-Configures d elapsed name speed cores mem c0)
  Reaches-IsRight c (adds_container name processor lambda n c0 room s) =
      let r = Reaches-IsRight c0 s in
      Configures-IsRight c0 _ r
        (add_container-IsCoherent name processor lambda n c0 r.coherent room)
        (add_container-Configures name processor lambda n c0 r.coherent.sorted)
  Reaches-IsRight c (adds_task req loads time c0 e at_k small forth room s) =
      add_task-IsRight req loads time c0 e (Reaches-IsRight c0 s) at_k small forth room
  Reaches-IsRight c (wakes time c0 forth s) =
      dispatcher-IsRight time c0 (Reaches-IsRight c0 s) forth
