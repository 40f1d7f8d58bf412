-- ===== src/Routing/RoundRobin/Updates.antt =====
-- The updates of Edge/Entries/entryroundrobin.cpp keep the cache and the queue right.
use serverlessonedge.Prelude.{
  String, true, List, [], ◌∷◌, is_some, Outcome, ok, throws, undefined, ◌>>=◌, ◌≡◌, refl, ◌∙◌,
  arith, All, Option-cases, inl, inr, Returns, Returns-ok,
}
use serverlessonedge.Prelude.Map.{Map, find, map_values}
use serverlessonedge.Prelude.Map.Sorted.{IsSorted}
use serverlessonedge.Prelude.Map.Values.{find-map_values}
use serverlessonedge.Prelude.Float.{Float}
use serverlessonedge.Routing.Entry.{Element, find_dest}
use serverlessonedge.Routing.Entry.Laws.{Distinct}
use serverlessonedge.Routing.Entry.Contract.{IsStored, Keeps}
use serverlessonedge.Routing.RoundRobin.{
  CacheElement, RoundRobin, mark, merge, drop_removed, min_deficit, weights, admit, active,
  update_active_set, update_list, smaller,
}
use serverlessonedge.Routing.RoundRobin.ActiveSet.{
  Cached, Doubles, admit-weight, admit-removed, active-Cached, min_deficit-Returns, active-some,
}
use serverlessonedge.Routing.RoundRobin.Merging.{merged_lem, merged-IsSorted, drop_removed-present}
use serverlessonedge.Routing.RoundRobin.Kept.{
  Tracks, IsKept, known-some, cache-positive, cache-some, map_values-Tracks,
}

module _ {W : Type 0} where
  pub Cached-mono :
      (m n : Map (CacheElement W)) (qs : List String)
      → ((j : String) → is_some (find j m) ≡ true → is_some (find j n) ≡ true)
      → Cached m qs
      → Cached n qs
  Cached-mono m n [] h a = tt
  Cached-mono m n (q ∷ qs) h a = (h q a.0, Cached-mono m n qs h a.1)

  pub is_some-map_values :
      (f : CacheElement W → CacheElement W)
      → ((e : CacheElement W) → (f e).weight ≡ e.weight)
      → (j : String) (m : Map (CacheElement W))
      → is_some (find j (map_values f m)) ≡ is_some (find j m)
  is_some-map_values f keeps j m =
      ground (arith, find-map_values (λ (e : CacheElement W). e.weight) f keeps j m)

  stays-Cached :
      (ds : List (Element W)) (cache : Map (CacheElement W)) (qs : List String)
      → Tracks ds cache
      → All (λ q. is_some (find_dest q ds) ≡ true) qs
      → Cached cache qs
  stays-Cached ds cache [] t a = tt
  stays-Cached ds cache (q ∷ qs) t a =
      (known-some ds cache q t ∙ a.0, stays-Cached ds cache qs t a.1)

module _ {W : Type 0} (d : Float W) (greatest : W) (doubles : Doubles d) where
  -- The computation of the smallest deficit never throws.
  min_deficit-Keeps :
      (best : W) (cache : Map (CacheElement W)) (qs : List String)
      → Keeps (λ _. Unit {0}) (min_deficit d best cache qs)
  unfolding min_deficit
  min_deficit-Keeps best cache [] = tt
  min_deficit-Keeps best cache (q ∷ qs) = elim (Option-cases (find q cache)) [
    | inl missing ↦ rw (missing, min_deficit) tt
    | inr (e, found) ↦
        rw (found, min_deficit) (min_deficit-Keeps (smaller d best e.deficit) cache qs)
  ]

  activated-IsKept :
      (now deficit : W) (x : Element W) (xs : List (Element W)) (s : RoundRobin W)
      → Tracks (x ∷ xs) s.cache
      → All (IsStored d) (x ∷ xs)
      → IsKept (x ∷ xs) (record {
        cache = map_values (λ e. (admit d now deficit (weights s.cache) e).1) s.cache;
        queue = active d now deficit (weights s.cache) s.cache;
      })
  activated-IsKept now deficit x xs s t a =
      let ws = weights s.cache in
      let f = λ (e : CacheElement W). (admit d now deficit ws e).1 in
      record {
        tracks =
            map_values-Tracks (x ∷ xs) s.cache f (admit-weight d now deficit ws)
              (admit-removed d now deficit ws) t;
        queued =
            active-Cached d now deficit ws s.cache (map_values f s.cache)
              (λ j h. is_some-map_values f (admit-weight d now deficit ws) j s.cache ∙ h);
        served = inl (
            active-some d now deficit s.cache doubles t.present
              (cache-positive d (x ∷ xs) s.cache t a) (cache-some x xs s.cache t));
      }

  pub activate-Returns :
      (now : W) (x : Element W) (xs : List (Element W)) (s : RoundRobin W)
      → Tracks (x ∷ xs) s.cache
      → All (IsStored d) (x ∷ xs)
      → Cached s.cache s.queue
      → Returns (IsKept (x ∷ xs)) (update_active_set d greatest now s)
  unfolding update_active_set
  activate-Returns now x xs s t a q =
      let (deficit, done, u) =
        Returns-ok _ (min_deficit d greatest s.cache s.queue)
          (min_deficit-Returns d greatest s.cache s.queue q) in
      rw (done, Returns) (activated-IsKept now deficit x xs s t a)

  Keeps-bind :
      {A B : Type 0} (P : B → Type 0) (m : Outcome A) (k : A → Outcome B)
      → Keeps (λ _. Unit {0}) m
      → ((a : A) → Keeps P (k a))
      → Keeps P (m >>= k)
  Keeps-bind P (ok a) k h f = f a
  Keeps-bind P (throws x) k h f = h
  Keeps-bind P undefined k h f = tt

  activate-Keeps :
      (now : W) (x : Element W) (xs : List (Element W)) (s : RoundRobin W)
      → Tracks (x ∷ xs) s.cache
      → All (IsStored d) (x ∷ xs)
      → Keeps (IsKept (x ∷ xs)) (update_active_set d greatest now s)
  unfolding update_active_set
  activate-Keeps now x xs s t a =
      Keeps-bind (IsKept (x ∷ xs)) (min_deficit d greatest s.cache s.queue) _
        (min_deficit-Keeps greatest s.cache s.queue)
        (λ deficit. activated-IsKept now deficit x xs s t a)

  merged-Tracks :
      (deficit : W) (ds : List (Element W)) (s : RoundRobin W)
      → IsSorted s.cache
      → Distinct ds
      → Tracks ds (drop_removed (merge d deficit ds (map_values mark s.cache)))
  merged-Tracks deficit ds s sorted u = record {
    sorted = merged-IsSorted d deficit ds s.cache sorted;
    known = λ j. merged_lem d deficit j ds s.cache sorted u;
    present = drop_removed-present (merge d deficit ds (map_values mark s.cache));
  }

  nothing-IsKept : IsKept {W = W} [] (record { cache = []; queue = [] })
  unfolding find find_dest
  nothing-IsKept = record {
    tracks = record { sorted = tt; known = λ j. refl; present = tt };
    queued = tt;
    served = inr refl;
  }

  -- `updateList` when every element of the queue stays in the list.
  pub update_list-Returns :
      (now : W) (ds : List (Element W)) (s : RoundRobin W)
      → Distinct ds
      → All (IsStored d) ds
      → IsSorted s.cache
      → Cached s.cache s.queue
      → All (λ q. is_some (find_dest q ds) ≡ true) s.queue
      → Returns (IsKept ds) (update_list d greatest now ds s)
  unfolding update_list
  update_list-Returns now [] s u a sorted q stay = nothing-IsKept
  update_list-Returns now (x ∷ xs) s u a sorted q stay =
      let marked = map_values mark s.cache in
      let q' =
        Cached-mono s.cache marked s.queue
          (λ j h. is_some-map_values mark (λ e. refl) j s.cache ∙ h) q in
      let (deficit, done, unit) =
        Returns-ok _ (min_deficit d greatest marked s.queue)
          (min_deficit-Returns d greatest marked s.queue q') in
      let t = merged-Tracks deficit (x ∷ xs) s sorted u in
      let cache = drop_removed (merge d deficit (x ∷ xs) marked) in
      rw done (
        activate-Returns now x xs (record s { cache = cache }) t a
          (stays-Cached (x ∷ xs) cache s.queue t stay))

  -- `updateList` after a removal: the queue may have the element that is gone.
  pub update_list-Keeps :
      (now : W) (ds : List (Element W)) (s : RoundRobin W)
      → Distinct ds
      → All (IsStored d) ds
      → IsSorted s.cache
      → Keeps (IsKept ds) (update_list d greatest now ds s)
  unfolding update_list
  update_list-Keeps now [] s u a sorted = nothing-IsKept
  update_list-Keeps now (x ∷ xs) s u a sorted =
      let marked = map_values mark s.cache in
      Keeps-bind (IsKept (x ∷ xs)) (min_deficit d greatest marked s.queue) _
        (min_deficit-Keeps greatest marked s.queue)
        (λ deficit.
          activate-Keeps now x xs
            (record s { cache = drop_removed (merge d deficit (x ∷ xs) marked) })
            (merged-Tracks deficit (x ∷ xs) s sorted u) a)
