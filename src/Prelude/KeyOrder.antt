-- ===== src/Prelude/KeyOrder.antt =====
-- The order of texts by which `std::map` sorts its keys is strict and total.
use Prim.Native.Nat.{Ordering}
use Prim.Native.String.{String, [], ◌∷◌, compare}
use Prim.Native.String.compare
use mathlib.Core.Path.{◌≡◌}
use native.Mathlib.Omega.{arith}
use text.Mathlib.TextPositions.{compare_refl}

pub compare_trans :
    (s t u : String)
    → compare s t ≡ Ordering.lt
    → compare t u ≡ Ordering.lt
    → compare s u ≡ Ordering.lt
compare_trans [] [] u p q = ground (arith, compare.nil-nil)
compare_trans [] (d ∷ t) [] p q = ground (arith, compare.cons-nil d t)
compare_trans [] (d ∷ t) (e ∷ u) p q = compare.nil-cons e u
compare_trans (c ∷ s) [] u p q = ground (arith, compare.cons-nil c s)
compare_trans (c ∷ s) (d ∷ t) [] p q = ground (arith, compare.cons-nil d t)
compare_trans (c ∷ s) (d ∷ t) (e ∷ u) p q = ground (
  arith,
  compare.cons-cons c d s t,
  compare.cons-cons d e t u,
  compare.cons-cons c e s u,
  compare_trans s t u,
)

pub compare_swap : (s t : String) → compare s t ≡ Ordering.gt → compare t s ≡ Ordering.lt
compare_swap [] [] p = ground (arith, compare.nil-nil)
compare_swap [] (d ∷ t) p = ground (arith, compare.nil-cons d t)
compare_swap (c ∷ s) [] p = compare.nil-cons c s
compare_swap (c ∷ s) (d ∷ t) p =
    ground (arith, compare.cons-cons c d s t, compare.cons-cons d c t s, compare_swap s t)

pub compare_swap_gt : (s t : String) → compare s t ≡ Ordering.lt → compare t s ≡ Ordering.gt
compare_swap_gt [] [] p = ground (arith, compare.nil-nil)
compare_swap_gt [] (d ∷ t) p = compare.cons-nil d t
compare_swap_gt (c ∷ s) [] p = ground (arith, compare.cons-nil c s)
compare_swap_gt (c ∷ s) (d ∷ t) p =
    ground (arith, compare.cons-cons c d s t, compare.cons-cons d c t s, compare_swap_gt s t)

pub compare_irrefl : (s : String) → compare s s ≡ Ordering.lt → ⊥
compare_irrefl s p = ground (arith, compare_refl s)
