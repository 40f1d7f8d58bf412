-- ===== src/Prelude/Counting.antt =====
-- How often a number stands in a list.
use Prim.Native.Nat.{ℕ, ◌+◌}
use mathlib.Core.Path.{◌≡◌, refl, ap, sym, ◌∙◌}
use mathlib.Core.List.{List, [], ◌∷◌, ◌++◌, Perm}
use mathlib.Core.List
use mathlib.Core.List.Perm
use native.Mathlib.Nat.{ℕ_set}
use native.Mathlib.Omega.{arith}
use serverlessonedge.Prelude.Tests.{◌==◌, if◌then◌else◌}

abbrev pub count : ℕ → List ℕ → ℕ
count i [] = 0
count i (x ∷ xs) = (if x == i then 1 else 0) + count i xs

pub count-append : (i : ℕ) (xs ys : List ℕ) → count i (xs ++ ys) ≡ count i xs + count i ys
count-append i [] ys = omega arith
count-append i (x ∷ xs) ys = omega (arith, count-append i xs ys)

add_one : ℕ → ℕ → ℕ → ℕ
add_one i x n = (if x == i then 1 else 0) + n

count-foldr : (i : ℕ) (xs : List ℕ) → count i xs ≡ List.foldr (add_one i) 0 xs
unfolding add_one
count-foldr i [] = refl
count-foldr i (x ∷ xs) = ap (λ n. (if x == i then 1 else 0) + n) (count-foldr i xs)

pub Perm-count : (i : ℕ) (xs ys : List ℕ) → Perm xs ys → count i xs ≡ count i ys
unfolding add_one
Perm-count i xs ys p =
    count-foldr i xs
    ∙ Perm.foldr-eq ℕ_set (add_one i) (λ a b x. omega arith) p 0
    ∙ sym (count-foldr i ys)
