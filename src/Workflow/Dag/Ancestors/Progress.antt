-- ===== src/Workflow/Dag/Ancestors/Progress.antt =====
-- `callable` of Edge/Model/dag.cpp never leaves a graph without cycles stuck.
use serverlessonedge.Prelude.{
  ℕ, zero, suc, ◌<◌, ◌≤◌, true, false, List, [], ◌∷◌, ◌≡◌, arith, Returns, Returns-ok, Bool-cases,
  inl, inr, length, Returns-mono,
}
use serverlessonedge.Workflow.Dag.{Rows, has, Dag}
use serverlessonedge.Workflow.Dag.Ancestors.{ancestors, all_completed, callable}
use serverlessonedge.Workflow.Dag.Ancestors.Closure.{
  IsAncestor, IsPredecessor, IsRanked, Describes, direct, beyond, ancestors-Describes,
}
use serverlessonedge.Workflow.Dag.Ancestors.Callable.{
  IsCallable, all_completed-has, callable-IsCallable,
}

-- Every predecessor is one of the functions up to `n`.
abbrev pub IsWithin : ℕ → Rows → Type 0
IsWithin n preds = (p i : ℕ) → IsPredecessor preds p i → p ≤ n

IsAncestor-≤ : (n : ℕ) (preds : Rows) (j i : ℕ) → IsWithin n preds → IsAncestor preds j i → j ≤ n
IsAncestor-≤ n preds j i w (direct k h) = w j k h
IsAncestor-≤ n preds j i w (beyond p k h a) = IsAncestor-≤ n preds j p w a

IsAncestor-rank :
    (preds : Rows) (rank : ℕ → ℕ) (j i : ℕ)
    → IsRanked preds rank
    → IsAncestor preds j i
    → rank j < rank i
IsAncestor-rank preds rank j i r (direct k h) = r.grows j k h
IsAncestor-rank preds rank j i r (beyond p k h a) =
    omega (arith, r.grows p k h, IsAncestor-rank preds rank j p r a)

missing :
    (completed above : List ℕ)
    → all_completed completed above ≡ false
    → (j : ℕ) × (has j above ≡ true) × (has j completed ≡ false)
missing completed [] h = absurd (ground arith)
missing completed (x ∷ xs) h = elim (Bool-cases (has x completed)) [
  | inl done ↦ let (j, t, q) = missing completed xs (ground arith) in (j, ground arith, q)
  | inr waits ↦ (x, ground arith, waits)
]

find-IsCallable :
    (preds : Rows) (completed : List ℕ) (rank : ℕ → ℕ) (n bound i : ℕ)
    → IsRanked preds rank
    → IsWithin n preds
    → rank i < bound
    → i ≤ n
    → has i completed ≡ false
    → (k : ℕ) × (k ≤ n) × IsCallable preds completed k
find-IsCallable preds completed rank n zero i r w b l q = absurd (omega arith)
find-IsCallable preds completed rank n (suc bound) i r w b l q =
    let (above, e, d) =
      Returns-ok (Describes (λ j. IsAncestor preds j i)) (ancestors (suc bound) preds i)
        (ancestors-Describes preds rank (suc bound) i r b) in
    elim (Bool-cases (all_completed completed above)) [
      | inl all ↦ (i, l, (q, λ j a. all_completed-has completed above j all ((d j).1 a)))
      | inr some ↦
          let (j, t, u) = missing completed above some in
          let a = (d j).0 t in
          find-IsCallable preds completed rank n bound j r w
            (omega (arith, IsAncestor-rank preds rank j i r a)) (IsAncestor-≤ n preds j i w a) u
    ]

-- In a graph without cycles, with fuel beyond every rank: as long as some function is not
-- completed, `callable` returns some function that is not completed.
pub callable-progress :
    (g : Dag) (completed : List ℕ) (rank : ℕ → ℕ) (fuel i : ℕ)
    → IsRanked g.predecessors rank
    → IsWithin (length g.successors) g.predecessors
    → ((k : ℕ) → k ≤ length g.successors → rank k < fuel)
    → i ≤ length g.successors
    → has i completed ≡ false
    → Returns
        (λ next. (k : ℕ) × (has k next ≡ true) × (has k completed ≡ false))
        (callable fuel g completed)
callable-progress g completed rank fuel i r w f l q =
    let (k, b, c) =
      find-IsCallable g.predecessors completed rank (length g.successors) (suc (rank i)) i r w
        (omega arith) l q in
    let n = length g.successors in
    Returns-mono (Describes (λ i. (i ≤ n) × IsCallable g.predecessors completed i)) _ _
      (λ next d. (k, (d k).1 (b, c), c.0)) (callable-IsCallable g completed rank fuel r f)
