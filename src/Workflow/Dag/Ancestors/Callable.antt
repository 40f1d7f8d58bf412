-- ===== src/Workflow/Dag/Ancestors/Callable.antt =====
-- `callable` of Edge/Model/dag.cpp: the functions that can run next.
use serverlessonedge.Prelude.{
  ℕ, zero, suc, ◌+◌, ◌<◌, ◌≤◌, true, false, List, [], ◌∷◌, ◌==◌, length, ◌≡◌, refl, arith, Returns,
  Returns-mono, Returns-ok, Bool-cases, inl, inr, ◌⊎◌,
}
use mathlib.Core.Path.{subst}
use serverlessonedge.Workflow.Dag.{Rows, has, Dag}
use serverlessonedge.Workflow.Dag.Ancestors.{
  ancestors, all_completed, if_callable, callable_from, callable,
}
use serverlessonedge.Workflow.Dag.Ancestors.Closure.{
  has-add_index, IsAncestor, IsRanked, Describes, ancestors-Describes,
}

-- The function is not completed, and all its ancestors are.
abbrev pub IsCallable : Rows → List ℕ → ℕ → Type 0
IsCallable preds completed i =
    (has i completed ≡ false) × ((j : ℕ) → IsAncestor preds j i → has j completed ≡ true)

pub all_completed-has :
    (completed above : List ℕ) (j : ℕ)
    → all_completed completed above ≡ true
    → has j above ≡ true
    → has j completed ≡ true
all_completed-has completed [] j h q = ground arith
all_completed-has completed (x ∷ xs) j h q = ground (
  arith,
  λ (p : all_completed completed xs ≡ true) (t : has j xs ≡ true).
      all_completed-has completed xs j p t,
)

has-all_completed :
    (completed above : List ℕ)
    → ((j : ℕ) → has j above ≡ true → has j completed ≡ true)
    → all_completed completed above ≡ true
has-all_completed completed [] h = refl
has-all_completed completed (x ∷ xs) h =
    ground (arith, h x, has-all_completed completed xs (λ j q. h j (ground arith)))

same_index : (i j : ℕ) → (i == j) ≡ true → i ≡ j
same_index i j e = ground arith

module _ (preds : Rows) (completed : List ℕ) where
  -- The members of `ret`, and the functions that can be called of the `m` from `i` on.
  abbrev Counted : ℕ → ℕ → List ℕ → ℕ → Type 0
  Counted m i ret j = (has j ret ≡ true) ⊎ ((i ≤ j) × (j < i + m) × IsCallable preds completed j)

  Counted-skip :
      (m i : ℕ) (ret s : List ℕ)
      → has i completed ≡ true
      → Describes (Counted m (suc i) ret) s
      → Describes (Counted (suc m) i ret) s
  Counted-skip m i ret s h d j = (λ q. wider ((d j).0 q), λ c. (d j).1 (narrower c))
    where
      wider : Counted m (suc i) ret j → Counted (suc m) i ret j
      wider (inl q) = inl q
      wider (inr (a, b, c)) = inr (omega arith, omega arith, c)

      narrower : Counted (suc m) i ret j → Counted m (suc i) ret j
      narrower (inl q) = inl q
      narrower (inr (a, b, c)) = elim (Bool-cases (i == j)) [
        | inl same ↦
            absurd
              (ground (arith, c.0, subst (λ k. has k completed ≡ true) (same_index i j same) h))
        | inr other ↦ inr (ground (arith, a), omega arith, c)
      ]

  all_completed-IsCallable :
      (i j : ℕ) (above : List ℕ)
      → has i completed ≡ false
      → Describes (λ k. IsAncestor preds k i) above
      → all_completed completed above ≡ true
      → (i == j) ≡ true
      → IsCallable preds completed j
  all_completed-IsCallable i j above h d q e =
      subst (IsCallable preds completed) (same_index i j e)
        (h, λ k a. all_completed-has completed above k q ((d k).1 a))

  IsCallable-all_completed :
      (i j : ℕ) (above : List ℕ)
      → Describes (λ k. IsAncestor preds k i) above
      → (i == j) ≡ true
      → IsCallable preds completed j
      → all_completed completed above ≡ true
  IsCallable-all_completed i j above d e c =
      has-all_completed completed above
        (λ k q. c.1 k (subst (IsAncestor preds k) (same_index i j e) ((d k).0 q)))

  Counted-visit :
      (m i : ℕ) (ret above s : List ℕ)
      → has i completed ≡ false
      → Describes (λ k. IsAncestor preds k i) above
      → Describes (Counted m (suc i) (if_callable completed i ret above)) s
      → Describes (Counted (suc m) i ret) s
  Counted-visit m i ret above s h d t j = (λ q. wider ((t j).0 q), λ c. (t j).1 (narrower c))
    where
      wider : Counted m (suc i) (if_callable completed i ret above) j → Counted (suc m) i ret j
      wider (inl q) = elim (Bool-cases (has j ret)) [
        | inl there ↦ inl there
        | inr new ↦
            let e : (i == j) ≡ true = ground (arith, has-add_index j i ret) in
            let all : all_completed completed above ≡ true =
              ground (arith, has-add_index j i ret) in
            inr (ground arith, ground arith, all_completed-IsCallable i j above h d all e)
      ]
      wider (inr (a, b, c)) = inr (omega arith, omega arith, c)

      narrower : Counted (suc m) i ret j → Counted m (suc i) (if_callable completed i ret above) j
      narrower (inl q) = inl (ground (arith, has-add_index j i ret))
      narrower (inr (a, b, c)) = elim (Bool-cases (i == j)) [
        | inl same ↦
            inl (ground (arith, has-add_index j i ret, IsCallable-all_completed i j above d same c))
        | inr other ↦ inr (ground (arith, a), omega arith, c)
      ]

-- With a graph without cycles, and fuel beyond every rank, `callable` returns exactly the functions
-- that are not completed and whose ancestors all are.
callable_from-Describes :
    (preds : Rows) (completed : List ℕ) (rank : ℕ → ℕ) (fuel m i : ℕ) (ret : List ℕ)
    → IsRanked preds rank
    → ((k : ℕ) → k < i + m → rank k < fuel)
    → Returns
        (Describes (Counted preds completed m i ret))
        (callable_from fuel preds completed m i ret)
unfolding callable_from
callable_from-Describes preds completed rank fuel zero i ret r f =
    λ j. (λ q. inl q, λ c. nothing_more j c)
  where
    nothing_more : (j : ℕ) → Counted preds completed 0 i ret j → has j ret ≡ true
    nothing_more j (inl q) = q
    nothing_more j (inr (a, b, c)) = ground arith
callable_from-Describes preds completed rank fuel (suc m) i ret r f =
    elim (Bool-cases (has i completed)) [
      | inl done ↦ rw done (
          Returns-mono (Describes (Counted preds completed m (suc i) ret)) _ _
            (λ s d. Counted-skip preds completed m i ret s done d)
            (callable_from-Describes preds completed rank fuel m (suc i) ret r
              (λ k h. f k (omega arith))))
      | inr waits ↦
          let (above, q, d) =
            Returns-ok (Describes (λ j. IsAncestor preds j i)) (ancestors fuel preds i)
              (ancestors-Describes preds rank fuel i r (f i (omega arith))) in
          let next = if_callable completed i ret above in
          rw (waits, q)
            (Returns-mono (Describes (Counted preds completed m (suc i) next)) _ _
              (λ s t. Counted-visit preds completed m i ret above s waits d t)
              (callable_from-Describes preds completed rank fuel m (suc i) next r
                (λ k h. f k (omega arith))))
    ]

-- In a graph without cycles, with fuel beyond every rank, `callable` ends and returns exactly the
-- functions that are not completed and whose ancestors all are.
pub callable-IsCallable :
    (g : Dag) (completed : List ℕ) (rank : ℕ → ℕ) (fuel : ℕ)
    → IsRanked g.predecessors rank
    → ((k : ℕ) → k ≤ length g.successors → rank k < fuel)
    → Returns
        (Describes (λ i. (i ≤ length g.successors) × IsCallable g.predecessors completed i))
        (callable fuel g completed)
unfolding callable
callable-IsCallable g completed rank fuel r f =
    let n = length g.successors in
    Returns-mono (Describes (Counted g.predecessors completed (suc n) 0 [])) _ _
      (λ s d i. (λ q. ours i ((d i).0 q), λ c. (d i).1 (inr (omega arith, omega arith, c.1))))
      (callable_from-Describes g.predecessors completed rank fuel (suc n) 0 [] r
        (λ k h. f k (omega arith)))
  where
    ours :
        (i : ℕ)
        → Counted g.predecessors completed (suc (length g.successors)) 0 [] i
        → (i ≤ length g.successors) × IsCallable g.predecessors completed i
    ours i (inl q) = ground arith
    ours i (inr (a, b, c)) = (omega arith, c)
