-- ===== src/Computing/Container/Pushed.antt =====
-- `push` of Edge/container.cpp adds one task.
use serverlessonedge.Prelude.{
  ℕ, ◌+◌, List, [], ◌∷◌, ◌++◌, ◌==◌, if◌then◌else◌, ◌≡◌, arith, Bool-cases, inl, inr, Outcome, ok,
  throws, undefined,
}
use serverlessonedge.Prelude.Counting.{count, count-append, Perm-count}
use serverlessonedge.Prelude.Float.{Float}
use serverlessonedge.Messages.Request.{LambdaRequest}
use serverlessonedge.Messages.Response.{Loads}
use serverlessonedge.Computing.Lambda.{LambdaRequirements}
use serverlessonedge.Computing.Processor.{Processor, allocate}
use serverlessonedge.Computing.Container.{
  Task, Container, Host, make_active, start, blocked, submit, push_with, push, requirements,
}
use serverlessonedge.Computing.Container.Conserve.{ids, all_ids, ids-make_active}

-- One for the identifier itself.
abbrev pub one_if : ℕ → ℕ → ℕ
one_if i id = if id == i then 1 else 0

ids-append :
    (i : ℕ) (xs : List Task) (t : Task)
    → count i (ids (xs ++ (t ∷ []))) ≡ count i (ids xs) + one_if i t.id
ids-append i [] t = omega arith
ids-append i (x ∷ xs) t = omega (arith, ids-append i xs t)

module _ {W : Type 0} where
  start-count :
      (i : ℕ) (t : Task) (c : Container W) (r : Outcome (Unit {0}) × Processor W)
      → (start t c r).0 ≡ ok tt
      → count i (all_ids (start t c r).1.container) ≡ count i (all_ids c) + one_if i t.id
  start-count i t c (ok u, p) e = omega (
    arith,
    count-append i (ids c.active) (ids c.pending),
    count-append i (ids (make_active t c.active)) (ids c.pending),
    Perm-count i _ _ (ids-make_active t c.active),
  )
  start-count i t c (throws x, p) e = cc
  start-count i t c (undefined, p) e = cc

module _ {W : Type 0} (d : Float W) (elapsed : ℕ → W) where
  submit-count :
      (i : ℕ) (t : Task) (h : Host W)
      → (submit d elapsed t h).0 ≡ ok tt
      → count i (all_ids (submit d elapsed t h).1.container)
        ≡ count i (all_ids h.container) + one_if i t.id
  submit-count i t h e = elim (Bool-cases (blocked t h.processor h.container)) [
    | inl held ↦ rw held (
        omega (
          arith,
          count-append i (ids h.container.active) (ids h.container.pending),
          count-append i (ids h.container.active) (ids (h.container.pending ++ (t ∷ []))),
          ids-append i h.container.pending t,
        ))
    | inr goes ↦
        rw goes
          (start-count i t h.container (allocate d elapsed t.memory h.processor) (rw goes at e))
  ]

  push_with-count :
      (i : ℕ) (req : LambdaRequest) (id : ℕ) (loads : Loads W) (h : Host W)
      (r : Outcome LambdaRequirements)
      → (push_with d elapsed req id loads h r).0 ≡ ok tt
      → count i (all_ids (push_with d elapsed req id loads h r).1.container)
        ≡ count i (all_ids h.container) + one_if i id
  push_with-count i req id loads h (ok r) e = submit-count i _ h e
  push_with-count i req id loads h (throws x) e = cc
  push_with-count i req id loads h undefined e = cc

  -- A push that returns adds a task with its identifier, and changes no other.
  pub push-count :
      (i : ℕ) (req : LambdaRequest) (id : ℕ) (loads : Loads W) (h : Host W)
      → (push d elapsed req id loads h).0 ≡ ok tt
      → count i (all_ids (push d elapsed req id loads h).1.container)
        ≡ count i (all_ids h.container) + one_if i id
  unfolding push
  push-count i req id loads h e = push_with-count i req id loads h (requirements req h) e
