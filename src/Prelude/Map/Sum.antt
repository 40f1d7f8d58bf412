-- ===== src/Prelude/Map/Sum.antt =====
-- Sums of a measure over the values of a map, and what an update makes of them.
use mathlib.Core.Path.{◌≡◌, refl}
use mathlib.Core.Option.{Option, none, some}
use mathlib.Core.List.{[], ◌∷◌}
use mathlib.Core.Logic.{inl, inr}
use Prim.Native.Nat.{ℕ, ◌+◌, ◌≤◌}
use Prim.Native.String.{String}
use native.Mathlib.Omega.{arith}
use text.Mathlib.Text.{◌==◌ as str_eq}
use serverlessonedge.Prelude.Tests.{Bool-cases}
use serverlessonedge.Prelude.Lists.{All}
use serverlessonedge.Prelude.Map.{Map, before, find, insert}
use serverlessonedge.Prelude.Map.Sorted.{IsSorted, find-Above, Above-mono}

module _ {ℓ} {V : Type ℓ} where
  abbrev pub sum : (V → ℕ) → Map V → ℕ
  sum f [] = 0
  sum f ((k, v) ∷ m) = f v + sum f m

  -- The measure of what is found, nothing if there is none.
  abbrev pub weigh : (V → ℕ) → Option V → ℕ
  weigh f none = 0
  weigh f (some v) = f v

  pub sum-insert :
      (f : V → ℕ) (k : String) (v : V) (m : Map V)
      → IsSorted m
      → sum f (insert k v m) + weigh f (find k m) ≡ sum f m + f v
  unfolding insert find
  sum-insert f k v [] s = ground arith
  sum-insert f k v ((j, w) ∷ m) s = elim (Bool-cases (str_eq j k)) [
    | inl same ↦ ground (arith, same, find-Above j m s.0)
    | inr other ↦ elim (Bool-cases (before k j)) [
      | inl first ↦
          let absent = find-Above k m (Above-mono k j m first s.0) in
          ground (arith, other, first, absent)
      | inr later ↦ ground (arith, other, later, sum-insert f k v m s.1)
    ]
  ]

  pub sum_mono : (f g : V → ℕ) (m : Map V) → All (λ e. f e.1 ≤ g e.1) m → sum f m ≤ sum g m
  sum_mono f g [] a = omega arith
  sum_mono f g ((j, w) ∷ m) a = omega (arith, a.0, sum_mono f g m a.1)

  -- One value of a greater measure makes the sum as much greater, at least.
  pub sum-find :
      (f g : V → ℕ) (k : String) (v : V) (m : Map V)
      → All (λ e. f e.1 ≤ g e.1) m
      → find k m ≡ some v
      → sum f m + g v ≤ sum g m + f v
  unfolding find
  sum-find f g k v [] a h = ground arith
  sum-find f g k v ((j, w) ∷ m) a h =
      ground (arith, a.0, sum_mono f g m a.1, λ (t : find k m ≡ some v). sum-find f g k v m a.1 t)

  pub sum-part : (f : V → ℕ) (k : String) (v : V) (m : Map V) → find k m ≡ some v → f v ≤ sum f m
  unfolding find
  sum-part f k v [] h = ground arith
  sum-part f k v ((j, w) ∷ m) h = ground (arith, λ (t : find k m ≡ some v). sum-part f k v m t)

  pub sum-zero : (f : V → ℕ) (m : Map V) → All (λ e. f e.1 ≡ 0) m → sum f m ≡ 0
  sum-zero f [] a = refl
  sum-zero f ((j, w) ∷ m) a = omega (arith, a.0, sum-zero f m a.1)
