-- ===== src/Prelude/Equality.antt =====
-- The tests for equality of the containers of the standard library.
use mathlib.Core.Path.{◌≡◌, refl}
use mathlib.Core.Bool.{Bool, true, false, ◌&&◌}
use mathlib.Core.List.{List, [], ◌∷◌}
use native.Mathlib.Omega.{arith}
use Prim.Native.String.{String}
use text.Mathlib.Text.{◌==◌ as str_eq}
use serverlessonedge.Prelude.Map.{Map, str_eq_refl}

-- `std::vector::operator==`
unfoldable pub same_list {ℓ} : {A : Type ℓ} → (A → A → Bool) → List A → List A → Bool
same_list eq [] [] = true
same_list eq [] (b ∷ bs) = false
same_list eq (a ∷ as') [] = false
same_list eq (a ∷ as') (b ∷ bs) = let rest = same_list eq as' bs in eq a b && rest

-- `std::pair::operator==`, on the entries of a map.
abbrev pub same_entry {ℓ} : {V : Type ℓ} → (V → V → Bool) → String × V → String × V → Bool
same_entry eq (k, v) (j, w) = str_eq k j && eq v w

-- `std::map::operator==`
abbrev pub same_map {ℓ} : {V : Type ℓ} → (V → V → Bool) → Map V → Map V → Bool
same_map eq = same_list (same_entry eq)

-- An equality that holds of each element with itself holds of the container with itself.
pub same_list_refl {ℓ} :
    {A : Type ℓ} (eq : A → A → Bool)
    → ((a : A) → eq a a ≡ true)
    → (xs : List A) → same_list eq xs xs ≡ true
unfolding same_list
same_list_refl eq h [] = refl
same_list_refl eq h (a ∷ as') = ground (arith, h a, same_list_refl eq h as')

pub same_map_refl {ℓ} :
    {V : Type ℓ} (eq : V → V → Bool)
    → ((v : V) → eq v v ≡ true)
    → (m : Map V) → same_map eq m m ≡ true
same_map_refl eq h = same_list_refl (same_entry eq) (λ e. ground (arith, str_eq_refl e.0, h e.1))
