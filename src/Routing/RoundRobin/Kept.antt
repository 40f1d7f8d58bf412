-- ===== src/Routing/RoundRobin/Kept.antt =====
-- What the updates of Edge/Entries/entryroundrobin.cpp keep.
use mathlib.Core.Option.{map as on_value}
use serverlessonedge.Prelude.{
  String, false, List, [], ◌∷◌, is_some, ◌≡◌, ◌≢◌, ◌∙◌, arith, All, Option-cases, inl, inr, ◌⊎◌,
}
use serverlessonedge.Prelude.Map.{Map, find, map_values, str_eq_refl}
use serverlessonedge.Prelude.Map.Sorted.{IsSorted, All-of_find}
use serverlessonedge.Prelude.Map.Values.{map_values-IsSorted, find-map_values, All-map_values}
use serverlessonedge.Prelude.Float.{Float}
use serverlessonedge.Routing.Entry.{Element, find_dest}
use serverlessonedge.Routing.Entry.Invariant.{IsStored-find_dest}
use serverlessonedge.Routing.Entry.Contract.{IsStored}
use serverlessonedge.Routing.RoundRobin.{CacheElement, RoundRobin}
use serverlessonedge.Routing.RoundRobin.ActiveSet.{Cached}

-- The cache has the destinations of the list with their weights, none of them vanishing.
pub record Tracks {W : Type 0} (ds : List (Element W)) (cache : Map (CacheElement W)) : Type 0 where
  pub sorted : IsSorted cache
  pub known :
      (j : String)
      → on_value (λ e. e.weight) (find j cache) ≡ on_value (λ x. x.weight) (find_dest j ds)
  pub present : All (λ e. e.1.removed ≡ false) cache

-- The queue has elements of the cache, and some unless there is no destination.
pub record IsKept {W : Type 0} (ds : List (Element W)) (s : RoundRobin W) : Type 0 where
  pub tracks : Tracks ds s.cache
  pub queued : Cached s.cache s.queue
  pub served : (s.queue ≢ []) ⊎ (ds ≡ [])

module _ {W : Type 0} where
  pub known-some :
      (ds : List (Element W)) (cache : Map (CacheElement W)) (j : String)
      → Tracks ds cache
      → is_some (find j cache) ≡ is_some (find_dest j ds)
  known-some ds cache j t = ground (arith, t.known j)

  -- The weights in the cache are positive, as those of the list are.
  pub cache-positive :
      (d : Float W) (ds : List (Element W)) (cache : Map (CacheElement W))
      → Tracks ds cache
      → All (IsStored d) ds
      → All (λ e. d.le e.1.weight d.nought ≡ false) cache
  cache-positive d ds cache t a =
      All-of_find (λ k e. d.le e.weight d.nought ≡ false) cache t.sorted
        (λ k e h. elim (Option-cases (find_dest k ds)) [
          | inl missing ↦ ground (arith, t.known k, h, missing)
          | inr (x, found) ↦
              ground (arith, t.known k, h, found, (IsStored-find_dest d k x ds a found).0)
        ])

  pub cache-some :
      (x : Element W) (xs : List (Element W)) (cache : Map (CacheElement W))
      → Tracks (x ∷ xs) cache
      → cache ≢ []
  unfolding find_dest find
  cache-some x xs cache t none_left =
      ground (arith, t.known x.destination, none_left, str_eq_refl x.destination)

  -- An update of the values that keeps the weights and the marks keeps the cache right.
  pub map_values-Tracks :
      (ds : List (Element W)) (cache : Map (CacheElement W)) (f : CacheElement W → CacheElement W)
      → ((e : CacheElement W) → (f e).weight ≡ e.weight)
      → ((e : CacheElement W) → (f e).removed ≡ e.removed)
      → Tracks ds cache
      → Tracks ds (map_values f cache)
  map_values-Tracks ds cache f weight removed t = record {
    sorted = map_values-IsSorted f cache t.sorted;
    known = λ j. find-map_values (λ e. e.weight) f weight j cache ∙ t.known j;
    present = All-map_values (λ e. e.removed ≡ false) f (λ e p. removed e ∙ p) cache t.present;
  }
