-- ===== src/Prelude/Map.antt =====
-- `std::map` with string keys, and `std::set` of strings: association lists in the order of the
-- keys, which is the order of iteration. The laws determine every lookup after every update.
pub mod Sorted
pub mod Sum
pub mod Values
use Prim.Native.String.{String, compare}
use Prim.Native.Nat.{Ordering}
use mathlib.Core.Path.{◌≡◌, refl}
use mathlib.Core.Bool.{Bool, true, false, ◌||◌}
use mathlib.Core.Option.{Option, none, some}
use mathlib.Core.List.{List, [], ◌∷◌}
use mathlib.Core.List
use native.Mathlib.Omega.{arith}
use text.Mathlib.Text.{◌==◌ as str_eq}
use text.Mathlib.TextEquality.{eq_iff}
use serverlessonedge.Prelude.Tests.{if◌then◌else◌, is_some}

-- `operator<` of `std::string`.
abbrev pub before : String → String → Bool
before s t = elim (compare s t) [ Ordering.lt ↦ true | _ ↦ false ]

abbrev pub Map {ℓ} : Type ℓ → Type ℓ
Map V = List (String × V)

module _ {ℓ} {V : Type ℓ} where
  unfoldable pub find : String → Map V → Option V
  find k [] = none
  find k ((j, v) ∷ m) = if str_eq j k then some v else find k m

  pub find-nil : (k : String) → find k [] ≡ none
  unfolding find
  find-nil k = refl

  -- `m[k] = v`
  unfoldable pub insert : String → V → Map V → Map V
  insert k v [] = (k, v) ∷ []
  insert k v ((j, w) ∷ m) =
      let rest = (j, w) ∷ insert k v m in
      if str_eq j k then (k, v) ∷ m else if before k j then (k, v) ∷ (j, w) ∷ m else rest

  -- `m.erase(k)`
  unfoldable pub erase : String → Map V → Map V
  erase k [] = []
  erase k ((j, v) ∷ m) = let rest = erase k m in if str_eq j k then rest else (j, v) ∷ rest

  -- `m.emplace(k, v)` keeps an entry that is there.
  abbrev pub emplace : String → V → Map V → Map V
  emplace k v m = if is_some (find k m) then m else insert k v m

  abbrev pub keys : Map V → List String
  keys [] = []
  keys ((k, v) ∷ m) = k ∷ keys m

  pub find-insert :
      (k j : String) (v : V) (m : Map V)
      → find j (insert k v m) ≡ (if str_eq k j then some v else find j m)
  unfolding find insert
  find-insert k j v [] = refl
  find-insert k j v ((i, w) ∷ m) =
      ground (arith, eq_iff k j, eq_iff i k, eq_iff i j, find-insert k j v m)

  pub find-erase :
      (k j : String) (m : Map V) → find j (erase k m) ≡ (if str_eq k j then none else find j m)
  unfolding find erase
  find-erase k j [] = ground arith
  find-erase k j ((i, w) ∷ m) = ground (arith, eq_iff k j, eq_iff i k, eq_iff i j, find-erase k j m)

  pub find-emplace :
      (k j : String) (v : V) (m : Map V)
      → find j (emplace k v m)
        ≡ (if str_eq k j then (if is_some (find k m) then find k m else some v) else find j m)
  find-emplace k j v m = ground (arith, eq_iff k j, find-insert k j v m)

pub ruleset map_laws = (find-insert, find-erase)

pub str_eq_refl : (s : String) → str_eq s s ≡ true
str_eq_refl s = (eq_iff s s).1 refl

-- `std::set<std::string>`
abbrev pub StringSet : Type 0
StringSet = Map (Unit {0})

abbrev pub contains : String → StringSet → Bool
contains k s = is_some (find k s)

abbrev pub add : String → StringSet → StringSet
add k s = insert k tt s

-- `std::find` over a sequence of strings.
abbrev pub mem : String → List String → Bool
mem l [] = false
mem l (x ∷ xs) = str_eq x l || mem l xs

-- A loop that changes every value in its place.
abbrev pub map_values {ℓ κ} : {V : Type ℓ} {W : Type κ} → (V → W) → Map V → Map W
map_values f [] = []
map_values f ((k, v) ∷ m) = (k, f v) ∷ map_values f m
