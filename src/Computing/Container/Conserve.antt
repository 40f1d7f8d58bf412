-- ===== src/Computing/Container/Conserve.antt =====
-- Edge/container.cpp loses no task, makes none up and keeps the order of arrival of those that wait.
use mathlib.Core.List.{Perm, perm_middle}
use mathlib.Core.List.Perm
use serverlessonedge.Prelude.{
  ℕ, List, [], ◌∷◌, ◌++◌, map, ltb, ◌≡◌, refl, ap, Bool-cases, inl, inr, Outcome, ok, throws,
  undefined,
}
use serverlessonedge.Prelude.Word.{add64}
use serverlessonedge.Prelude.Float.{Float}
use serverlessonedge.Computing.Processor.{Processor, allocate, free}
use serverlessonedge.Computing.Container.Invariant.{IsValid}
use serverlessonedge.Computing.Container.Pop.{popped-IsValid}
use serverlessonedge.Computing.Container.{
  Task, Container, Host, make_active_from, make_active, blocked, activate, pop, finish,
  after_allocate,
}

abbrev pub ids : List Task → List ℕ
ids = map λ t. t.id

-- The tasks of a container, active and waiting.
abbrev pub all_ids : {W : Type 0} → Container W → List ℕ
all_ids c = ids c.active ++ ids c.pending

ids-make_active_from :
    (sum : ℕ) (t : Task) (xs : List Task) → Perm (ids (make_active_from sum t xs)) (t.id ∷ ids xs)
unfolding make_active_from
ids-make_active_from sum t [] = Perm.refl _
ids-make_active_from sum t (x ∷ xs) =
    let next = add64 sum x.residual_ops in
    let swapped =
      Perm.trans (Perm.cons x.id (ids-make_active_from next t xs)) (Perm.swap t.id x.id (ids xs)) in
    elim (Bool-cases (ltb t.residual_ops next)) [
      | inl here ↦ rw (here, make_active_from) (Perm.refl _)
      | inr later ↦ rw (later, make_active_from) swapped
    ]

pub ids-make_active : (t : Task) (xs : List Task) → Perm (ids (make_active t xs)) (t.id ∷ ids xs)
unfolding make_active
ids-make_active t xs = ids-make_active_from 0 t xs

module _ {W : Type 0} where
  after_allocate-cases :
      (P : Host W → Type 0) (r : Outcome (Unit {0})) (stopped : Host W)
      (started : Outcome (Unit {0}) × Host W)
      → P stopped
      → P started.1
      → P (after_allocate r stopped started).1
  after_allocate-cases P (ok u) stopped started a b = b
  after_allocate-cases P (throws x) stopped started a b = a
  after_allocate-cases P undefined stopped started a b = a

module _ {W : Type 0} (d : Float W) (elapsed : ℕ → W) where
  activate-perm :
      (p : Processor W) (c : Container W) (ts : List Task)
      → Perm (all_ids (activate d elapsed p c ts).1.container) (ids c.active ++ ids ts)
  unfolding activate
  activate-perm p c [] = Perm.refl _
  activate-perm p c (t ∷ ts) = elim (Bool-cases (blocked t p c)) [
    | inl held ↦ rw (held, activate) (Perm.refl _)
    | inr goes ↦
        let p' = (allocate d elapsed t.memory p).1 in
        let moved = Perm.append (ids-make_active t c.active) (Perm.refl (ids ts)) in
        rw (goes, activate)
          (after_allocate-cases (λ h. Perm (all_ids h.container) (ids c.active ++ ids (t ∷ ts))) _ _
            _ (Perm.refl _)
            (Perm.trans (activate-perm p' (record c { active = make_active t c.active }) ts)
              (Perm.trans moved (Perm.symm (perm_middle (ids c.active) (ids ts))))))
  ]

  -- The tasks that wait after the loop are the last of those that waited before, in their order.
  activate-suffix :
      (p : Processor W) (c : Container W) (ts : List Task)
      → (gone : List Task) × (ts ≡ gone ++ (activate d elapsed p c ts).1.container.pending)
  unfolding activate
  activate-suffix p c [] = ([], refl)
  activate-suffix p c (t ∷ ts) = elim (Bool-cases (blocked t p c)) [
    | inl held ↦ rw (held, activate) ([], refl)
    | inr goes ↦
        let p' = (allocate d elapsed t.memory p).1 in
        let (gone, e) = activate-suffix p' (record c { active = make_active t c.active }) ts in
        rw (goes, activate)
          (after_allocate-cases (λ h. (gone : List Task) × (t ∷ ts ≡ gone ++ h.container.pending)) _
            _ _ ([], refl) (t ∷ gone, ap (◌∷◌ t) e))
  ]

  finish-perm :
      (t : Task) (c : Container W) (r : Outcome (Unit {0}) × Processor W)
      → r.0 ≡ ok tt
      → Perm (all_ids (finish d elapsed t c r).1.container) (all_ids c)
        × ((gone : List Task) × (c.pending ≡ gone ++ (finish d elapsed t c r).1.container.pending))
  finish-perm t c (ok u, p) e = (activate-perm p c c.pending, activate-suffix p c c.pending)
  finish-perm t c (throws x, p) e = cc
  finish-perm t c (undefined, p) e = cc

  -- `pop` takes out the first active task and no other: the tasks left, active and waiting, are
  -- the other ones it had; and those that still wait are the last ones that waited.
  pub pop-perm :
      (m n : ℕ) (t : Task) (rest : List Task) (h : Host W)
      → IsValid m n h
      → h.container.active ≡ t ∷ rest
      → let c = (pop d elapsed h).1.container in
        Perm (t.id ∷ all_ids c) (all_ids h.container)
        × ((gone : List Task) × (h.container.pending ≡ gone ++ c.pending))
  unfolding pop
  pop-perm m n t rest h v e =
      let c = record h.container { active = rest } in
      let r = free d elapsed t.memory h.processor in
      let (done, valid) = popped-IsValid d elapsed m n t rest h v e in
      let (same, suffix) = finish-perm t c r done in rw (e, pop) (Perm.cons t.id same, suffix)
