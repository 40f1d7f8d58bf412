-- ===== src/Computing/Container/Invariant.antt =====
-- Edge/container.cpp: the invariant of a container and its processor, and that no operation breaks
-- it or fails while it holds.
use serverlessonedge.Prelude.{
  ℕ, suc, ◌+◌, ◌≤◌, ◌<◌, List, [], ◌∷◌, ◌++◌, ltb, if◌then◌else◌, ◌≡◌, refl, sym, arith, true,
  false, Bool-cases, inl, inr, length, All, All-append, Outcome, ok, throws, undefined,
  runtime_error,
}
use mathlib.Core.Path.{subst}
use serverlessonedge.Prelude.Word.{word_mod, add64}
use serverlessonedge.Prelude.Float.{Float}
use serverlessonedge.Computing.Processor.{
  Processor, allocate, IsSound, allocate_lem, mem_available_lem,
}
use serverlessonedge.Messages.Request.{LambdaRequest}
use serverlessonedge.Messages.Response.{Loads}
use serverlessonedge.Computing.Container.{
  Task, Container, Host, make_active_from, make_active, blocked, submit, push, push_with, start,
  requirements,
}
use serverlessonedge.Computing.Container.Order.{total, total-make_active}

-- The memory that a list of tasks holds.
abbrev pub memory_of : List Task → ℕ
memory_of [] = 0
memory_of (t ∷ ts) = t.memory + memory_of ts

-- A waiting task has word-sized operations and fits the processor when it is empty.
abbrev pub CanWait : ℕ → Task → Type 0
CanWait mem_total t = (t.residual_ops < word_mod) × (t.memory ≤ mem_total)

-- `others_memory` and `others_running` belong to the other containers of the processor.
pub record IsValid {W : Type 0} (others_memory others_running : ℕ) (h : Host W) : Type 0 where
  pub sound : IsSound h.processor
  pub memory : h.processor.mem_used ≡ others_memory + memory_of h.container.active
  pub running : h.processor.running ≡ others_running + length h.container.active
  pub room : others_running + h.container.num_workers < word_mod
  pub workers : length h.container.active ≤ h.container.num_workers
  pub ops : total h.container.active < word_mod
  pub waiting : All (CanWait h.processor.mem_total) h.container.pending

-- The first of the waiting tasks, if there is one, cannot start.
abbrev pub IsHeld : {W : Type 0} → Processor W → Container W → List Task → Type 0
IsHeld p c [] = Unit
IsHeld p c (t ∷ ts) = blocked t p c ≡ true

abbrev pub IsSettled : {W : Type 0} → Host W → Type 0
IsSettled h = IsHeld h.processor h.container h.container.pending

memory_of-make_active_from :
    (sum : ℕ) (t : Task) (xs : List Task)
    → memory_of (make_active_from sum t xs) ≡ t.memory + memory_of xs
unfolding make_active_from
memory_of-make_active_from sum t [] = omega arith
memory_of-make_active_from sum t (x ∷ xs) =
    ground (arith, memory_of-make_active_from (add64 sum x.residual_ops) t xs)

length-make_active_from :
    (sum : ℕ) (t : Task) (xs : List Task) → length (make_active_from sum t xs) ≡ suc (length xs)
unfolding make_active_from
length-make_active_from sum t [] = refl
length-make_active_from sum t (x ∷ xs) =
    ground (arith, length-make_active_from (add64 sum x.residual_ops) t xs)

module _ (t : Task) (xs : List Task) where
  pub memory_of-make_active : memory_of (make_active t xs) ≡ t.memory + memory_of xs
  unfolding make_active
  memory_of-make_active = memory_of-make_active_from 0 t xs

  pub length-make_active : length (make_active t xs) ≡ suc (length xs)
  unfolding make_active
  length-make_active = length-make_active_from 0 t xs

module _ {W : Type 0} where
  start-ok :
      (t : Task) (c : Container W) (r : Outcome (Unit {0}) × Processor W)
      → r.0 ≡ ok tt
      → start t c r ≡ (
        ok tt,
        record { processor = r.1; container = record c { active = make_active t c.active } },
      )
  start-ok t c (ok u, p) e = refl
  start-ok t c (throws x, p) e = cc
  start-ok t c (undefined, p) e = cc

module _ {W : Type 0} (d : Float W) (elapsed : ℕ → W) where
  -- The container after the start of a task that is not blocked.
  abbrev pub started : Task → Processor W → Container W → List Task → Host W
  started t p c ts = record {
    processor = (allocate d elapsed t.memory p).1;
    container = record c { active = make_active t c.active; pending = ts };
  }

  pub start-IsValid :
      (m n : ℕ) (t : Task) (p : Processor W) (c : Container W) (ts : List Task)
      → IsValid m n (record { processor = p; container = record c { pending = ts } })
      → CanWait p.mem_total t
      → blocked t p c ≡ false
      → ((allocate d elapsed t.memory p).0 ≡ ok tt) × IsValid m n (started t p c ts)
  start-IsValid m n t p c ts v w b =
      let (done, used, running, size) =
        allocate_lem d elapsed t.memory p v.sound (ground arith) (ground arith) in
      let free = mem_available_lem d elapsed p v.sound in
      (
        done,
        record {
          sound = record { within = ground arith; fits = omega arith };
          memory = omega (arith, memory_of-make_active t c.active);
          running = omega (arith, length-make_active t c.active);
          room = v.room;
          workers = ground (arith, length-make_active t c.active);
          ops = omega (arith, total-make_active t c.active w.0 v.ops);
          waiting = subst (λ k. All (CanWait k) ts) (sym size) v.waiting;
        },
      )

  -- A task that joins the waiting ones.
  wait-IsValid :
      (m n : ℕ) (t : Task) (h : Host W)
      → IsValid m n h
      → CanWait h.processor.mem_total t
      → IsValid m n (record h {
        container = record h.container { pending = h.container.pending ++ (t ∷ []) };
      })
  wait-IsValid m n t h v w = record {
    sound = v.sound;
    memory = v.memory;
    running = v.running;
    room = v.room;
    workers = v.workers;
    ops = v.ops;
    waiting = All-append _ h.container.pending (t ∷ []) v.waiting (w, tt);
  }

  submit-IsValid :
      (m n : ℕ) (t : Task) (h : Host W)
      → IsValid m n h
      → CanWait h.processor.mem_total t
      → ((submit d elapsed t h).0 ≡ ok tt) × IsValid m n (submit d elapsed t h).1
  submit-IsValid m n t h v w = elim (Bool-cases (blocked t h.processor h.container)) [
    | inl held ↦ rw held (refl, wait-IsValid m n t h v w)
    | inr goes ↦
        let (done, valid) =
          start-IsValid m n t h.processor h.container h.container.pending v w goes in
        rw (goes, start-ok t h.container (allocate d elapsed t.memory h.processor) done)
          (refl, valid)
  ]

  push_with-IsValid :
      (m n : ℕ) (req : LambdaRequest) (id : ℕ) (loads : Loads W) (h : Host W)
      → IsValid m n h
      → let r = h.container.lambda.converter h.processor req in
        r.operations < word_mod
        → r.memory ≤ h.processor.mem_total
        → let a = push_with d elapsed req id loads h (ok r) in (a.0 ≡ ok tt) × IsValid m n a.1
  push_with-IsValid m n req id loads h v o f = submit-IsValid m n _ h v (o, f)

  -- A request that needs more memory than the processor has is refused, and nothing changes; any
  -- other is accepted, and the container stays valid.
  pub push-IsValid :
      (m n : ℕ) (req : LambdaRequest) (id : ℕ) (loads : Loads W) (h : Host W)
      → IsValid m n h
      → (h.container.lambda.converter h.processor req).operations < word_mod
      → let a = push d elapsed req id loads h in
        if ltb h.processor.mem_total (h.container.lambda.converter h.processor req).memory
        then a ≡ (throws runtime_error, h)
        else (a.0 ≡ ok tt) × IsValid m n a.1
  unfolding push requirements
  push-IsValid m n req id loads h v o =
      let r = h.container.lambda.converter h.processor req in
      elim (Bool-cases (ltb h.processor.mem_total r.memory)) [
        | inl large ↦ rw large refl
        | inr fits ↦ rw fits (push_with-IsValid m n req id loads h v o (ground arith))
      ]
