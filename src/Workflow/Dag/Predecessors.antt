-- ===== src/Workflow/Dag/Predecessors.antt =====
-- `makePredecessors` of Edge/Model/dag.cpp turns every edge around.
use serverlessonedge.Prelude.{
  ℕ, zero, suc, ◌-◌, ◌<◌, Bool, true, false, ◌&&◌, ◌||◌, List, [], ◌∷◌, ◌++◌, if◌then◌else◌, ok,
  throws, runtime_error, ◌==◌, ltb, leb, length, ◌≡◌, refl, arith, Returns, Bool-cases, inl, inr,
  sym, Returns-mono, Returns-ok,
}
use serverlessonedge.Workflow.Dag.{
  Rows, row, has, empty_rows, push_at, link_row, link_from, make_predecessors,
}

length-push_at : (k i : ℕ) (rs : Rows) → length (push_at k i rs) ≡ length rs
unfolding push_at
length-push_at k i [] = refl
length-push_at zero i (r ∷ rs) = refl
length-push_at (suc k) i (r ∷ rs) = ground (arith, length-push_at k i rs)

has-append : (x i : ℕ) (r : List ℕ) → has x (r ++ (i ∷ [])) ≡ (has x r || i == x)
has-append x i [] = ground arith
has-append x i (y ∷ ys) = ground (arith, has-append x i ys)

has-push_at :
    (k i x j : ℕ) (rs : Rows)
    → k < length rs
    → has x (row j (push_at k i rs)) ≡ (has x (row j rs) || (k == j && i == x))
unfolding push_at
has-push_at k i x j [] h = ground arith
has-push_at zero i x zero (r ∷ rs) h = ground (arith, has-append x i r)
has-push_at zero i x (suc j) (r ∷ rs) h = ground arith
has-push_at (suc k) i x zero (r ∷ rs) h = ground arith
has-push_at (suc k) i x (suc j) (r ∷ rs) h = ground (arith, has-push_at k i x j rs)

-- Every successor is the index of a function other than the first.
abbrev pub in_range : ℕ → List ℕ → Bool
in_range n [] = true
in_range n (j ∷ js) = ltb 0 j && leb j n && in_range n js

abbrev pub all_in_range : ℕ → Rows → Bool
all_in_range n [] = true
all_in_range n (r ∷ rs) = in_range n r && all_in_range n rs

-- What linking the edges from `i` adds to the rows.
abbrev Links : ℕ → List ℕ → Rows → Rows → Type 0
Links i js ret ret' =
    (length ret' ≡ length ret)
    × ((x j : ℕ) → has x (row j ret') ≡ (has x (row j ret) || (has (suc j) js && i == x)))

link_row-cons :
    (i j : ℕ) (js : List ℕ) (ret : Rows)
    → (ltb 0 j && leb j (length ret)) ≡ true
    → link_row i (j ∷ js) ret ≡ link_row i js (push_at (j - 1) i ret)
unfolding link_row
link_row-cons i j js ret h = ground arith

link_row-Links :
    (i : ℕ) (js : List ℕ) (ret : Rows)
    → in_range (length ret) js ≡ true
    → Returns (Links i js ret) (link_row i js ret)
unfolding link_row
link_row-Links i [] ret h = (refl, λ x j. ground arith)
link_row-Links i (j ∷ js) ret h =
    let next = push_at (j - 1) i ret in
    rw (link_row-cons i j js ret (ground arith)) (
      Returns-mono (Links i js next) (Links i (j ∷ js) ret) (link_row i js next)
        (λ ret' l. (
          ground (arith, l.0, length-push_at (j - 1) i ret),
          λ x k. ground (arith, l.1 x k, has-push_at (j - 1) i x k ret),
        ))
        (link_row-Links i js next (ground (arith, length-push_at (j - 1) i ret))))

link_row-throws :
    (i : ℕ) (js : List ℕ) (ret : Rows)
    → in_range (length ret) js ≡ false
    → link_row i js ret ≡ throws runtime_error
unfolding link_row
link_row-throws i [] ret h = ground arith
link_row-throws i (j ∷ js) ret h =
    ground (arith, link_row-throws i js (push_at (j - 1) i ret), length-push_at (j - 1) i ret)

-- What linking all the rows adds; the first of them is that of `i`.
abbrev LinksFrom : ℕ → Rows → Rows → Rows → Type 0
LinksFrom i rs ret ret' =
    (length ret' ≡ length ret)
    × ((x j : ℕ)
        → has x (row j ret') ≡ (has x (row j ret) || (leb i x && has (suc j) (row (x - i) rs))))

row-step :
    (i x j : ℕ) (r : List ℕ) (rs : Rows)
    → (leb i x && has j (row (x - i) (r ∷ rs)))
      ≡ ((has j r && i == x) || (leb (suc i) x && has j (row (x - suc i) rs)))
row-step i x j r rs = elim (Bool-cases (leb i x)) [
  | inl above ↦ row_at (x - i) refl above
  | inr under ↦ ground arith
]
  where
    row_at :
        (k : ℕ)
        → k ≡ x - i
        → leb i x ≡ true
        → (leb i x && has j (row (x - i) (r ∷ rs)))
          ≡ ((has j r && i == x) || (leb (suc i) x && has j (row (x - suc i) rs)))
    row_at zero e h = rw (sym e) (ground arith)
    row_at (suc k) e h = let below : x - suc i ≡ k = omega arith in rw (sym e, below) (ground arith)

link_from-cons :
    (i : ℕ) (r : List ℕ) (rs ret ret' : Rows)
    → link_row i r ret ≡ ok ret'
    → link_from i (r ∷ rs) ret ≡ link_from (suc i) rs ret'
unfolding link_from
link_from-cons i r rs ret ret' h = rw h refl

link_from-LinksFrom :
    (i : ℕ) (rs ret : Rows)
    → all_in_range (length ret) rs ≡ true
    → Returns (LinksFrom i rs ret) (link_from i rs ret)
unfolding link_from
link_from-LinksFrom i [] ret h = (refl, λ x j. ground arith)
link_from-LinksFrom i (r ∷ rs) ret h =
    let (ret', q, l) = Returns-ok (Links i r ret) _ (link_row-Links i r ret (ground arith)) in
    rw (link_from-cons i r rs ret ret' q) (
      Returns-mono (LinksFrom (suc i) rs ret') (LinksFrom i (r ∷ rs) ret) _
        (λ ret'' m. (
          ground (arith, m.0, l.0),
          λ x j. ground (arith, m.1 x j, l.1 x j, row-step i x (suc j) r rs),
        ))
        (link_from-LinksFrom (suc i) rs ret' (ground (arith, l.0))))

link_from-throws :
    (i : ℕ) (rs ret : Rows)
    → all_in_range (length ret) rs ≡ false
    → link_from i rs ret ≡ throws runtime_error
unfolding link_from
link_from-throws i [] ret h = ground arith
link_from-throws i (r ∷ rs) ret h = elim (Bool-cases (in_range (length ret) r)) [
  | inl good ↦
      let (ret', q, l) = Returns-ok (Links i r ret) _ (link_row-Links i r ret good) in
      rw (link_from-cons i r rs ret ret' q) (link_from-throws (suc i) rs ret' (ground (arith, l.0)))
  | inr bad ↦ rw (link_row-throws i r ret bad) refl
]

length-empty_rows : (rs : Rows) → length (empty_rows rs) ≡ length rs
length-empty_rows [] = refl
length-empty_rows (r ∷ rs) = ground (arith, length-empty_rows rs)

has-empty_rows : (x j : ℕ) (rs : Rows) → has x (row j (empty_rows rs)) ≡ false
has-empty_rows x j [] = refl
has-empty_rows x zero (r ∷ rs) = refl
has-empty_rows x (suc j) (r ∷ rs) = has-empty_rows x j rs

-- If every successor is a function other than the first, the predecessors are the edges turned
-- around: `x` is a predecessor of function `j + 1` when `j + 1` is a successor of `x`. Any other
-- graph is refused.
pub make_predecessors_lem :
    (rs : Rows)
    → if all_in_range (length rs) rs
      then Returns
          (λ ps. (length ps ≡ length rs) × ((x j : ℕ) → has x (row j ps) ≡ has (suc j) (row x rs)))
          (make_predecessors rs)
      else make_predecessors rs ≡ throws runtime_error
unfolding make_predecessors
make_predecessors_lem rs = elim (Bool-cases (all_in_range (length rs) rs)) [
  | inl good ↦ rw good (
      Returns-mono (LinksFrom 0 rs (empty_rows rs)) _ _
        (λ ps l. (
          ground (arith, l.0, length-empty_rows rs),
          λ x j. ground (arith, l.1 x j, has-empty_rows x j rs),
        ))
        (link_from-LinksFrom 0 rs (empty_rows rs) (ground (arith, length-empty_rows rs))))
  | inr bad ↦ rw bad (link_from-throws 0 rs (empty_rows rs) (ground (arith, length-empty_rows rs)))
]
