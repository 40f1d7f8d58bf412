-- ===== src/Prelude/Permutations.antt =====
-- Permutations of lists measured by native numbers.
use Prim.Native.Nat.{ℕ, suc}
use mathlib.Core.Nat.{ℕ as Unary}
use mathlib.Core.Nat
use mathlib.Core.Path.{◌≡◌, refl, ap, sym, ◌∙◌}
use mathlib.Core.List.{List, [], ◌∷◌, Perm}
use mathlib.Core.List
use mathlib.Core.List.Perm
use serverlessonedge.Prelude.Lists.{length}

abbrev native : Unary → ℕ
native Nat.zero = 0
native (Nat.suc n) = suc (native n)

module _ {ℓ} {A : Type ℓ} where
  length-native : (xs : List A) → length xs ≡ native (List.length xs)
  length-native [] = refl
  length-native (x ∷ xs) = ap suc (length-native xs)

  pub Perm-length : (xs ys : List A) → Perm xs ys → length xs ≡ length ys
  Perm-length xs ys p = length-native xs ∙ ap native (Perm.length-eq p) ∙ sym (length-native ys)
