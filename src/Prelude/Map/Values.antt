-- ===== src/Prelude/Map/Values.antt =====
-- Loops that change the values of a map in their places.
use mathlib.Core.Path.{◌≡◌, refl}
use mathlib.Core.Option.{map as on_value}
use mathlib.Core.List.{[], ◌∷◌}
use Prim.Native.String.{String}
use native.Mathlib.Omega.{arith}
use serverlessonedge.Prelude.Lists.{All}
use serverlessonedge.Prelude.Map.{Map, find, insert, map_values}
use serverlessonedge.Prelude.Map.Sorted.{IsSorted, Above}

module _ {ℓ κ} {V : Type ℓ} {W : Type κ} (f : V → W) where
  Above-map_values : (k : String) (m : Map V) → Above k m → Above k (map_values f m)
  Above-map_values k [] a = tt
  Above-map_values k ((j, v) ∷ m) a = (a.0, Above-map_values k m a.1)

  pub map_values-IsSorted : (m : Map V) → IsSorted m → IsSorted (map_values f m)
  map_values-IsSorted [] s = tt
  map_values-IsSorted ((j, v) ∷ m) s = (Above-map_values j m s.0, map_values-IsSorted m s.1)

module _ {ℓ} {V : Type ℓ} where
  pub All-insert {κ} :
      (P : V → Type κ) (k : String) (v : V) (m : Map V)
      → P v
      → All (λ e. P e.1) m
      → All (λ e. P e.1) (insert k v m)
  unfolding insert
  All-insert P k v [] p a = (p, tt)
  All-insert P k v ((j, w) ∷ m) p a = ground (arith, All-insert P k v m p a.1)

  -- A measure that the change keeps is the same in every lookup.
  pub find-map_values {κ} :
      {C : Type κ} (c : V → C) (f : V → V)
      → ((v : V) → c (f v) ≡ c v)
      → (k : String) (m : Map V) → on_value c (find k (map_values f m)) ≡ on_value c (find k m)
  unfolding find
  find-map_values c f keeps k [] = refl
  find-map_values c f keeps k ((j, v) ∷ m) = ground (arith, keeps v, find-map_values c f keeps k m)

  pub All-map_values {κ} :
      (P : V → Type κ) (f : V → V)
      → ((v : V) → P v → P (f v))
      → (m : Map V) → All (λ e. P e.1) m
      → All (λ e. P e.1) (map_values f m)
  All-map_values P f keeps [] a = tt
  All-map_values P f keeps ((j, v) ∷ m) a = (keeps v a.0, All-map_values P f keeps m a.1)
