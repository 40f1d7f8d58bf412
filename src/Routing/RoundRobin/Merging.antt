-- ===== src/Routing/RoundRobin/Merging.antt =====
-- `updateList` of Edge/Entries/entryroundrobin.cpp: after the three loops the cache has the
-- destinations of the list, with their weights, and no other.
use mathlib.Core.Option.{map as on_value}
use serverlessonedge.Prelude.{
  String, false, Option, none, some, List, [], ◌∷◌, if◌then◌else◌, str_eq_iff, ◌≡◌, refl, arith,
  All, Option-cases, inl, inr, if-cases,
}
use serverlessonedge.Prelude.Map.{Map, find, insert, map_values, find-insert}
use serverlessonedge.Prelude.Map.Sorted.{IsSorted, Above, find-Above, insert-IsSorted}
use serverlessonedge.Prelude.Map.Values.{map_values-IsSorted}
use serverlessonedge.Prelude.Float.{Float}
use serverlessonedge.Routing.Entry.{Element, find_dest}
use serverlessonedge.Routing.Entry.Laws.{Distinct}
use serverlessonedge.Routing.RoundRobin.{CacheElement, new_element, mark, merge, drop_removed}

-- The weight of an element that is not to vanish.
abbrev pub alive : {W : Type 0} → Option (CacheElement W) → Option W
alive none = none
alive (some e) = if e.removed then none else some e.weight

-- The weight of a destination, or else another answer.
abbrev pub weight_or : {W : Type 0} → Option (Element W) → Option W → Option W
weight_or none other = other
weight_or (some x) other = some x.weight

module _ {W : Type 0} where
  alive-mark : (j : String) (m : Map (CacheElement W)) → alive (find j (map_values mark m)) ≡ none
  unfolding find
  alive-mark j [] = refl
  alive-mark j ((k, e) ∷ m) = ground (arith, alive-mark j m)

  Above-drop_removed :
      (i : String) (m : Map (CacheElement W)) → Above i m → Above i (drop_removed m)
  unfolding drop_removed
  Above-drop_removed i [] a = tt
  Above-drop_removed i ((k, e) ∷ m) a =
      let rest = Above-drop_removed i m a.1 in
      if-cases (Above i) e.removed (drop_removed m) ((k, e) ∷ drop_removed m) (λ _. rest)
        (λ _. (a.0, rest))

  pub drop_removed-IsSorted : (m : Map (CacheElement W)) → IsSorted m → IsSorted (drop_removed m)
  unfolding drop_removed
  drop_removed-IsSorted [] s = tt
  drop_removed-IsSorted ((k, e) ∷ m) s =
      let rest = drop_removed-IsSorted m s.1 in
      if-cases (λ (n : Map (CacheElement W)). IsSorted n) e.removed (drop_removed m)
        ((k, e) ∷ drop_removed m) (λ _. rest) (λ _. (Above-drop_removed k m s.0, rest))

  pub drop_removed-present :
      (m : Map (CacheElement W)) → All (λ e. e.1.removed ≡ false) (drop_removed m)
  unfolding drop_removed
  drop_removed-present [] = tt
  drop_removed-present ((k, e) ∷ m) =
      let rest = drop_removed-present m in
      if-cases (All (λ (x : String × CacheElement W). x.1.removed ≡ false)) e.removed
        (drop_removed m) ((k, e) ∷ drop_removed m) (λ _. rest) (λ stays. (stays, rest))

  find-drop_removed :
      (j : String) (m : Map (CacheElement W))
      → IsSorted m
      → on_value (λ e. e.weight) (find j (drop_removed m)) ≡ alive (find j m)
  unfolding drop_removed find
  find-drop_removed j [] s = refl
  find-drop_removed j ((k, e) ∷ m) s =
      ground (arith, find-drop_removed j m s.1, find-Above k m s.0, str_eq_iff k j)

  merge-IsSorted :
      (d : Float W) (deficit : W) (ds : List (Element W)) (m : Map (CacheElement W))
      → IsSorted m
      → IsSorted (merge d deficit ds m)
  unfolding merge
  merge-IsSorted d deficit [] m s = s
  merge-IsSorted d deficit (x ∷ xs) m s =
      merge-IsSorted d deficit xs _ (insert-IsSorted x.destination _ m s)

  alive-merge :
      (d : Float W) (deficit : W) (j : String) (ds : List (Element W)) (m : Map (CacheElement W))
      → Distinct ds
      → alive (find j (merge d deficit ds m)) ≡ weight_or (find_dest j ds) (alive (find j m))
  unfolding merge find_dest
  alive-merge d deficit j [] m u = refl
  alive-merge d deficit j (x ∷ xs) m u = elim (Option-cases (find x.destination m)) [
    | inl absent ↦ rw absent (
        ground (
          arith,
          alive-merge d deficit j xs (insert x.destination (new_element d x.weight deficit) m) u.1,
          find-insert x.destination j (new_element d x.weight deficit) m,
          str_eq_iff x.destination j,
          u.0,
        ))
    | inr (e, found) ↦
        let e' : CacheElement W = record e { removed = false; weight = x.weight } in
        rw found (
          ground (
            arith,
            alive-merge d deficit j xs (insert x.destination e' m) u.1,
            find-insert x.destination j e' m,
            str_eq_iff x.destination j,
            u.0,
          ))
  ]

  -- The cache after the loops of `updateList`.
  pub merged_lem :
      (d : Float W) (deficit : W) (j : String) (ds : List (Element W)) (m : Map (CacheElement W))
      → IsSorted m
      → Distinct ds
      → on_value (λ e. e.weight) (find j (drop_removed (merge d deficit ds (map_values mark m))))
        ≡ on_value (λ x. x.weight) (find_dest j ds)
  merged_lem d deficit j ds m s u =
      let sorted = merge-IsSorted d deficit ds (map_values mark m) (map_values-IsSorted mark m s) in
      ground (
        arith,
        find-drop_removed j (merge d deficit ds (map_values mark m)) sorted,
        alive-merge d deficit j ds (map_values mark m) u,
        alive-mark j m,
      )

  pub merged-IsSorted :
      (d : Float W) (deficit : W) (ds : List (Element W)) (m : Map (CacheElement W))
      → IsSorted m
      → IsSorted (drop_removed (merge d deficit ds (map_values mark m)))
  merged-IsSorted d deficit ds m s =
      drop_removed-IsSorted _
        (merge-IsSorted d deficit ds (map_values mark m) (map_values-IsSorted mark m s))
