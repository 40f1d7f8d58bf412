-- ===== src/Workflow/Dag/Ancestors/Closure.antt =====
-- `ancestors` of Edge/Model/dag.cpp computes the transitive closure of the predecessors.
use serverlessonedge.Prelude.{
  ℕ, zero, suc, ◌-◌, ◌<◌, true, ◌||◌, List, [], ◌∷◌, Outcome, ◌==◌, ◌≡◌, refl, arith, Returns,
  Returns-mono, Returns-ok, Bool-cases, inl, inr, ◌⊎◌, sym,
}
use mathlib.Core.Path.{subst}
use serverlessonedge.Workflow.Dag.{Rows, row, has}
use serverlessonedge.Workflow.Dag.Ancestors.{add_index, add_all, gather, ancestors}

pub has-add_index : (j x : ℕ) (s : List ℕ) → has j (add_index x s) ≡ (has j s || x == j)
unfolding add_index
has-add_index j x [] = ground arith
has-add_index j x (y ∷ ys) = ground (arith, has-add_index j x ys)

has-add_all : (j : ℕ) (xs s : List ℕ) → has j (add_all xs s) ≡ (has j s || has j xs)
unfolding add_all
has-add_all j [] s = ground arith
has-add_all j (x ∷ xs) s = ground (arith, has-add_all j xs (add_index x s), has-add_index j x s)

-- `p` is a predecessor of function `i`; function 0 has none.
abbrev pub IsPredecessor : Rows → ℕ → ℕ → Type 0
IsPredecessor preds p i = (0 < i) × (has p (row (i - 1) preds) ≡ true)

pub data IsAncestor (preds : Rows) (j : ℕ) : ℕ → Type 0 where
  direct : (i : ℕ) → IsPredecessor preds j i → IsAncestor preds j i
  beyond : (p i : ℕ) → IsPredecessor preds p i → IsAncestor preds j p → IsAncestor preds j i

-- A rank that grows along the edges: there is no cycle.
pub record IsRanked (preds : Rows) (rank : ℕ → ℕ) : Type 0 where
  pub grows : (p i : ℕ) → IsPredecessor preds p i → rank p < rank i

-- The set `s` has the members of the type `A`, and no others.
abbrev pub Describes : (ℕ → Type 0) → List ℕ → Type 0
Describes A s = (j : ℕ) → (has j s ≡ true → A j) × (A j → has j s ≡ true)

-- What the loop over the predecessors `ps` collects.
abbrev Gathered : Rows → List ℕ → List ℕ → ℕ → Type 0
Gathered preds ps ret j =
    (has j ret ≡ true) ⊎ ((p : ℕ) × (has p ps ≡ true) × ((p ≡ j) ⊎ IsAncestor preds j p))

Gathered-nil : (preds : Rows) (ret : List ℕ) (j : ℕ) → Gathered preds [] ret j → has j ret ≡ true
Gathered-nil preds ret j (inl q) = q
Gathered-nil preds ret j (inr (p, q, r)) = ground arith

module _ (preds : Rows) (p : ℕ) (ps ret more : List ℕ)
    (m : Describes (λ j. IsAncestor preds j p) more) where
  has-next :
      (j : ℕ) → has j (add_all more (add_index p ret)) ≡ ((has j ret || p == j) || has j more)
  has-next j = ground (arith, has-add_all j more (add_index p ret), has-add_index j p ret)

  Gathered-more :
      (j : ℕ) → Gathered preds ps (add_all more (add_index p ret)) j → Gathered preds (p ∷ ps) ret j
  Gathered-more j (inl q) = elim (Bool-cases (has j more)) [
    | inl above ↦ inr (p, ground arith, inr ((m j).0 above))
    | inr not_above ↦ elim (Bool-cases (p == j)) [
      | inl here ↦ inr (p, ground arith, inl (ground arith))
      | inr other ↦ inl (ground (arith, has-next j))
    ]
  ]
  Gathered-more j (inr (k, t, a)) = inr (k, ground arith, a)

  Gathered-less :
      (j : ℕ) → Gathered preds (p ∷ ps) ret j → Gathered preds ps (add_all more (add_index p ret)) j
  Gathered-less j (inl q) = inl (ground (arith, has-next j))
  Gathered-less j (inr (k, t, a)) = elim (Bool-cases (p == k)) [
    | inl here ↦ inl (member (ground arith) a)
    | inr other ↦ inr (k, ground arith, a)
  ]
    where
      member :
          p ≡ k → (k ≡ j) ⊎ IsAncestor preds j k → has j (add_all more (add_index p ret)) ≡ true
      member e (inl f) = ground (arith, has-next j)
      member e (inr a) =
          ground (arith, has-next j, (m j).1 (subst (λ x. IsAncestor preds j x) (sym e) a))

gather-Describes :
    (preds : Rows) (self : ℕ → Outcome (List ℕ)) (ps ret : List ℕ)
    → ((p : ℕ) → has p ps ≡ true → Returns (Describes (λ j. IsAncestor preds j p)) (self p))
    → Returns (Describes (Gathered preds ps ret)) (gather self ps ret)
unfolding gather
gather-Describes preds self [] ret h = λ j. (λ q. inl q, Gathered-nil preds ret j)
gather-Describes preds self (p ∷ ps) ret h =
    let (more, q, m) =
      Returns-ok (Describes (λ j. IsAncestor preds j p)) (self p) (h p (ground arith)) in
    let next = add_all more (add_index p ret) in
    rw q (
      Returns-mono (Describes (Gathered preds ps next)) (Describes (Gathered preds (p ∷ ps) ret)) _
        (λ s d j. (
          λ k. Gathered-more preds p ps ret more m j ((d j).0 k),
          λ k. (d j).1 (Gathered-less preds p ps ret more m j k),
        ))
        (gather-Describes preds self ps next (λ k t. h k (ground arith))))

none_above : (preds : Rows) (j : ℕ) → IsAncestor preds j 0 → ⊥
none_above preds j a = below 0 refl a
  where
    below : (i : ℕ) → i ≡ 0 → IsAncestor preds j i → ⊥
    below i e (direct k (h, q)) = ground arith
    below i e (beyond p k (h, q) a) = ground arith

Gathered-IsAncestor :
    (preds : Rows) (i j : ℕ)
    → 0 < i
    → Gathered preds (row (i - 1) preds) [] j
    → IsAncestor preds j i
Gathered-IsAncestor preds i j h (inl q) = absurd (ground arith)
Gathered-IsAncestor preds i j h (inr (p, t, inl e)) = direct i (h, ground arith)
Gathered-IsAncestor preds i j h (inr (p, t, inr a)) = beyond p i (h, t) a

IsAncestor-Gathered :
    (preds : Rows) (i j : ℕ) → IsAncestor preds j i → Gathered preds (row (i - 1) preds) [] j
IsAncestor-Gathered preds i j (direct k (h, q)) = inr (j, q, inl refl)
IsAncestor-Gathered preds i j (beyond p k (h, q) a) = inr (p, q, inr a)

ancestors-suc :
    (fuel : ℕ) (preds : Rows) (i : ℕ)
    → ancestors (suc fuel) preds (suc i) ≡ gather (ancestors fuel preds) (row (suc i - 1) preds) []
unfolding ancestors
ancestors-suc fuel preds i = ground arith

-- In a graph without cycles, with fuel beyond the rank of the function, the recursion ends and
-- returns exactly the functions from which it can be reached.
pub ancestors-Describes :
    (preds : Rows) (rank : ℕ → ℕ) (fuel i : ℕ)
    → IsRanked preds rank
    → rank i < fuel
    → Returns (Describes (λ j. IsAncestor preds j i)) (ancestors fuel preds i)
unfolding ancestors
ancestors-Describes preds rank zero i r h = ground arith
ancestors-Describes preds rank (suc fuel) zero r h =
    λ j. (λ q. absurd (ground arith), λ a. absurd (none_above preds j a))
ancestors-Describes preds rank (suc fuel) (suc i) r h = rw (ancestors-suc fuel preds i) (
    Returns-mono (Describes (Gathered preds (row (suc i - 1) preds) []))
      (Describes (λ j. IsAncestor preds j (suc i))) _
      (λ s d j. (
        λ q. Gathered-IsAncestor preds (suc i) j (ground arith) ((d j).0 q),
        λ a. (d j).1 (IsAncestor-Gathered preds (suc i) j a),
      ))
      (gather-Describes preds (ancestors fuel preds) (row (suc i - 1) preds) [] (λ p q.
        ancestors-Describes preds rank fuel p r
          (ground (arith, r.grows p (suc i) (ground arith, q))))))
