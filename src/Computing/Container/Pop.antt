-- ===== src/Computing/Container/Pop.antt =====
-- `pop` of Edge/container.cpp: it returns the earliest task, frees its memory and starts waiting
-- tasks until none is left or the first of them cannot start.
use serverlessonedge.Prelude.{
  ℕ, suc, ◌+◌, List, [], ◌∷◌, if◌then◌else◌, ◌≡◌, refl, sym, arith, ap, Bool-cases, inl, inr,
  length, All, Outcome, ok, throws, undefined, runtime_error,
}
use mathlib.Core.Path.{subst}
use serverlessonedge.Prelude.Float.{Float}
use serverlessonedge.Computing.Processor.{time_to_ops}
use serverlessonedge.Computing.Processor.{Processor, allocate, free, free_lem}
use serverlessonedge.Computing.Container.{
  Task, Container, Host, host, make_active, blocked, activate, pop, finish, run_front, advance,
}
use serverlessonedge.Computing.Container.Order.{total, total-run_front}
use serverlessonedge.Computing.Container.Invariant.{
  memory_of, CanWait, IsValid, IsSettled, start-IsValid,
}

memory_of-run_front : (k : ℕ) (xs : List Task) → memory_of (run_front k xs) ≡ memory_of xs
unfolding run_front
memory_of-run_front k [] = refl
memory_of-run_front k (x ∷ xs) = ground arith

length-run_front : (k : ℕ) (xs : List Task) → length (run_front k xs) ≡ length xs
unfolding run_front
length-run_front k [] = refl
length-run_front k (x ∷ xs) = ground arith

module _ {W : Type 0} (d : Float W) (elapsed : ℕ → W) where
  -- The loop over the pending tasks starts all that it can, in order, and never fails.
  pub activate-IsValid :
      (m n : ℕ) (p : Processor W) (c : Container W) (ts : List Task)
      → IsValid m n (host p c ts)
      → let r = activate d elapsed p c ts in (r.0 ≡ ok tt) × IsValid m n r.1 × IsSettled r.1
  unfolding activate
  activate-IsValid m n p c [] v = (refl, v, tt)
  activate-IsValid m n p c (t ∷ ts) v = elim (Bool-cases (blocked t p c)) [
    | inl held ↦ rw (held, activate) (refl, v, held)
    | inr goes ↦
        let v' : IsValid m n (host p c ts) = record {
          sound = v.sound;
          memory = v.memory;
          running = v.running;
          room = v.room;
          workers = v.workers;
          ops = v.ops;
          waiting = v.waiting.1;
        } in
        let (done, valid) = start-IsValid d elapsed m n t p c ts v' v.waiting.0 goes in
        rw (goes, activate, done)
          (activate-IsValid m n (allocate d elapsed t.memory p).1
            (record c { active = make_active t c.active }) ts valid)
  ]

  -- The processor and the container after the front task is gone.
  pub popped-IsValid :
      (m n : ℕ) (t : Task) (rest : List Task) (h : Host W)
      → IsValid m n h
      → h.container.active ≡ t ∷ rest
      → let r = free d elapsed t.memory h.processor in
        (r.0 ≡ ok tt)
        × IsValid m n (host r.1 (record h.container { active = rest }) h.container.pending)
  popped-IsValid m n t rest h v e =
      let held : memory_of h.container.active ≡ t.memory + memory_of rest = ap memory_of e in
      let many : length h.container.active ≡ suc (length rest) = ap length e in
      let long : total h.container.active ≡ t.residual_ops + total rest = ap total e in
      let (done, used, running, size) =
        free_lem d elapsed t.memory h.processor v.sound (omega (arith, v.running))
          (omega (arith, v.running, v.workers, v.room)) (omega (arith, v.memory)) in
      (
        done,
        record {
          sound = record {
            within = omega (arith, v.sound.within);
            fits = omega (arith, v.sound.fits);
          };
          memory = omega (arith, v.memory);
          running = omega (arith, v.running);
          room = v.room;
          workers = omega (arith, v.workers);
          ops = omega (arith, v.ops);
          waiting = subst (λ k. All (CanWait k) h.container.pending) (sym size) v.waiting;
        },
      )

  finish-ok :
      (t : Task) (c : Container W) (r : Outcome (Unit {0}) × Processor W)
      → r.0 ≡ ok tt
      → (activate d elapsed r.1 c c.pending).0 ≡ ok tt
      → finish d elapsed t c r ≡ (ok t, (activate d elapsed r.1 c c.pending).1)
  finish-ok t c (ok u, p) e h = rw h
  finish-ok t c (throws x, p) e h = cc
  finish-ok t c (undefined, p) e h = cc

  -- With an active task, `pop` returns the first one, never throws, keeps the container valid, and
  -- leaves no task waiting that could start before the ones behind it.
  pub pop-IsValid :
      (m n : ℕ) (t : Task) (rest : List Task) (h : Host W)
      → IsValid m n h
      → h.container.active ≡ t ∷ rest
      → ((pop d elapsed h).0 ≡ ok t)
        × IsValid m n (pop d elapsed h).1
        × IsSettled (pop d elapsed h).1
  unfolding pop
  pop-IsValid m n t rest h v e =
      let c = record h.container { active = rest } in
      let (freed, valid) = popped-IsValid m n t rest h v e in
      let (done, valid', settled) =
        activate-IsValid m n (free d elapsed t.memory h.processor).1 c h.container.pending valid in
      rw (e, pop, finish-ok t c (free d elapsed t.memory h.processor) freed done)
        (refl, valid', settled)

  -- `advance` keeps the container valid, and refuses a negative time.
  pub advance-IsValid :
      (m n : ℕ) (time : W) (h : Host W)
      → IsValid m n h
      → let r = advance d time h in
        if d.lt time d.nought
        then r ≡ (throws runtime_error, h)
        else (r.0 ≡ ok tt) × IsValid m n r.1
  unfolding advance
  advance-IsValid m n time h v = elim (Bool-cases (d.lt time d.nought)) [
    | inl past ↦ rw past refl
    | inr goes ↦
        let k = time_to_ops d time h.processor in
        rw goes (
          refl,
          record {
            sound = v.sound;
            memory = omega (arith, v.memory, memory_of-run_front k h.container.active);
            running = omega (arith, v.running, length-run_front k h.container.active);
            room = v.room;
            workers = omega (arith, v.workers, length-run_front k h.container.active);
            ops = omega (arith, v.ops, total-run_front k h.container.active v.ops);
            waiting = v.waiting;
          },
        )
  ]
