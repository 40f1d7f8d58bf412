-- ===== src/Messages/Wire.antt =====
-- The loops of Edge/edgemessages.{h,cpp} that fill a map from another one.
pub mod Laws
use serverlessonedge.Prelude.{
  String, Bool, true, false, ◌&&◌, Option, none, some, List, [], ◌∷◌, if◌then◌else◌, is_some, ◌≡◌,
  refl, arith, ap₂, str_eq, str_eq_iff,
}
use serverlessonedge.Prelude.Map.{Map, find, emplace, find-nil, find-emplace, str_eq_refl}
use serverlessonedge.Prelude.Map.Sorted.{IsSorted, emplace-IsSorted, find-Above}

-- The loop that puts the values of a map, converted by `f`, where the map has none.
unfoldable pub emplace_all {ℓ κ} : {V : Type ℓ} {W : Type κ} → (V → W) → Map W → Map V → Map W
emplace_all f ret [] = ret
emplace_all f ret ((k, v) ∷ m) = emplace_all f (emplace k (f v) ret) m

-- The map `w` that arrives has the entries of the map `m` that was sent, in any order.
abbrev pub Carries {ℓ} : {V : Type ℓ} → Map V → Map V → Type ℓ
Carries m w = (k : String) → find k w ≡ find k m
