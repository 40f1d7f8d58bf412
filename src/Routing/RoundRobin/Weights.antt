-- ===== src/Routing/RoundRobin/Weights.antt =====
-- `updateWeight` of Edge/Entries/entryroundrobin.cpp.
use serverlessonedge.Prelude.{
  String, false, some, List, [], ◌∷◌, ◌≡◌, ◌≢◌, refl, ◌∙◌, arith, All, Option-cases, inl, inr,
  Returns, Returns-ok,
}
use serverlessonedge.Prelude.Map.{Map, find, insert, map_values, find-insert, str_eq_refl}
use serverlessonedge.Prelude.Map.Sorted.{insert-IsSorted, All-find}
use serverlessonedge.Prelude.Map.Values.{All-insert}
use serverlessonedge.Prelude.Float.{Float}
use serverlessonedge.Routing.Entry.{Element, find_dest, set_dest}
use serverlessonedge.Routing.Entry.Laws.{find_dest-set_dest}
use serverlessonedge.Routing.Entry.Contract.{IsStored}
use serverlessonedge.Routing.RoundRobin.{
  CacheElement, RoundRobin, relieve, min_deficit, update_active_set, update_weight,
}
use serverlessonedge.Routing.RoundRobin.ActiveSet.{Cached, Doubles, min_deficit-Returns}
use serverlessonedge.Routing.RoundRobin.Kept.{Tracks, IsKept, known-some, map_values-Tracks}
use serverlessonedge.Routing.RoundRobin.Updates.{Cached-mono, is_some-map_values, activate-Returns}

module _ {W : Type 0} where
  -- The cache after the weight of a destination changed.
  insert-Tracks :
      (dest : String) (x : Element W) (f : Element W → Element W) (ds : List (Element W))
      (cache : Map (CacheElement W)) (e : CacheElement W)
      → ((y : Element W) → (f y).destination ≡ y.destination)
      → find_dest dest ds ≡ some x
      → e.weight ≡ (f x).weight
      → e.removed ≡ false
      → Tracks ds cache
      → Tracks (set_dest dest f ds) (insert dest e cache)
  insert-Tracks dest x f ds cache e same h weight stays t = record {
    sorted = insert-IsSorted dest e cache t.sorted;
    known = λ j. ground (
      arith,
      weight,
      t.known j,
      find-insert dest j e cache,
      find_dest-set_dest f same dest j ds x h,
    );
    present = All-insert (λ y. y.removed ≡ false) dest e cache stays t.present;
  }

  set_dest-some :
      (dest : String) (x : Element W) (f : Element W → Element W) (ds : List (Element W))
      → ((y : Element W) → (f y).destination ≡ y.destination)
      → find_dest dest ds ≡ some x
      → set_dest dest f ds ≢ []
  unfolding find_dest
  set_dest-some dest x f ds same h none_left =
      ground (arith, find_dest-set_dest f same dest dest ds x h, none_left, str_eq_refl dest)

module _ {W : Type 0} (d : Float W) (greatest : W) (doubles : Doubles d) where
  activate-some :
      (now : W) (ds : List (Element W)) (s : RoundRobin W)
      → ds ≢ []
      → Tracks ds s.cache
      → All (IsStored d) ds
      → Cached s.cache s.queue
      → Returns (IsKept ds) (update_active_set d greatest now s)
  activate-some now [] s n t a q = absurd (n refl)
  activate-some now (x ∷ xs) s n t a q = activate-Returns d greatest doubles now x xs s t a q

  -- A change of a weight keeps the cache and the queue right.
  pub update_weight-Returns :
      (now : W) (dest : String) (x : Element W) (f : Element W → Element W) (ds : List (Element W))
      (s : RoundRobin W)
      → ((y : Element W) → (f y).destination ≡ y.destination)
      → All (IsStored d) (set_dest dest f ds)
      → find_dest dest ds ≡ some x
      → IsKept ds s
      → Returns (IsKept (set_dest dest f ds)) (update_weight d greatest now dest (f x).weight s)
  unfolding update_weight
  update_weight-Returns now dest x f ds s same a h k = elim (Option-cases (find dest s.cache)) [
    | inl missing ↦ ground (arith, missing, h, known-some ds s.cache dest k.tracks)
    | inr (e, found) ↦
        let stays = All-find (λ _ y. y.removed ≡ false) dest e s.cache k.tracks.present found in
        let e' : CacheElement W = record e { weight = (f x).weight; last_updated = some now } in
        let cache = insert dest e' s.cache in
        let t = insert-Tracks dest x f ds s.cache e' same h refl stays k.tracks in
        let q =
          Cached-mono s.cache cache s.queue
            (λ j p. ground (arith, p, find-insert dest j e' s.cache)) k.queued in
        let (deficit, done, unit) =
          Returns-ok _ (min_deficit d greatest cache s.queue)
            (min_deficit-Returns d greatest cache s.queue q) in
        let relieved = map_values (relieve d deficit) cache in
        rw (found, update_weight, done)
          (activate-some now (set_dest dest f ds) (record s { cache = relieved })
            (set_dest-some dest x f ds same h)
            (map_values-Tracks (set_dest dest f ds) cache (relieve d deficit) (λ y. refl)
              (λ y. refl) t)
            a
            (Cached-mono cache relieved s.queue
              (λ j p. is_some-map_values (relieve d deficit) (λ y. refl) j cache ∙ p) q))
  ]
