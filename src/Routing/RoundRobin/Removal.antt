-- ===== src/Routing/RoundRobin/Removal.antt =====
-- The removal of a destination of the active set in Edge/Entries/entryroundrobin.cpp: the queue
-- still has the element that is erased from the cache, and the smallest deficit is read from it.
use serverlessonedge.Prelude.{
  String, true, none, some, List, [], ◌∷◌, str_eq_iff, undefined, ◌≡◌, ◌≢◌, refl, ◌∙◌, arith,
  Option-cases, inl, inr, Returns-ok,
}
use serverlessonedge.Prelude.Map.{Map, find, mem, map_values, str_eq_refl}
use serverlessonedge.Prelude.Map.Sorted.{IsSorted}
use serverlessonedge.Prelude.Float.{Float}
use serverlessonedge.Routing.Entry.{Element, Entry, find_dest, erase_dest, removed, remove}
use serverlessonedge.Routing.Entry.Laws.{Distinct, find_dest-erase_dest, Distinct-erase_dest}
use serverlessonedge.Routing.Entry.Contract.{IsValid}
use serverlessonedge.Routing.RoundRobin.{
  CacheElement, RoundRobin, smaller, update_list, update_active_set, min_deficit, mark, merge,
  drop_removed, round_robin,
}
use serverlessonedge.Routing.RoundRobin.ActiveSet.{Cached, min_deficit-Returns}
use serverlessonedge.Routing.RoundRobin.Kept.{Tracks, IsKept}
use serverlessonedge.Routing.RoundRobin.Merging.{merged_lem}
use serverlessonedge.Routing.RoundRobin.Updates.{Cached-mono, is_some-map_values}

module _ {W : Type 0} (d : Float W) where
  min_deficit-undefined :
      (best : W) (cache : Map (CacheElement W)) (q : String) (qs : List String)
      → mem q qs ≡ true
      → find q cache ≡ none
      → min_deficit d best cache qs ≡ undefined
  unfolding min_deficit
  min_deficit-undefined best cache q [] m h = ground (arith, m)
  min_deficit-undefined best cache q (x ∷ xs) m h = elim (Option-cases (find x cache)) [
    | inl missing ↦ rw (missing, min_deficit) refl
    | inr (e, found) ↦
        let later : mem q xs ≡ true = ground (arith, m, h, found, str_eq_iff x q) in
        rw (found, min_deficit)
          (min_deficit-undefined (smaller d best e.deficit) cache q xs later h)
  ]

  module _ (greatest : W) where
    emptied :
        (now : W) (dest : String) (ds : List (Element W)) (s : RoundRobin W)
        → IsSorted s.cache
        → Cached s.cache s.queue
        → Distinct ds
        → mem dest s.queue ≡ true
        → ds ≢ []
        → find_dest dest ds ≡ none
        → update_list d greatest now ds s ≡ undefined
    unfolding update_list update_active_set
    emptied now dest [] s sorted q u m n gone = absurd (n refl)
    emptied now dest (x ∷ xs) s sorted q u m n gone =
        let marked = map_values mark s.cache in
        let q' =
          Cached-mono s.cache marked s.queue
            (λ j h. is_some-map_values mark (λ e. refl) j s.cache ∙ h) q in
        let (deficit, done, unit) =
          Returns-ok _ (min_deficit d greatest marked s.queue)
            (min_deficit-Returns d greatest marked s.queue q') in
        let cache = drop_removed (merge d deficit (x ∷ xs) marked) in
        let missing : find dest cache ≡ none =
          ground (arith, merged_lem d deficit dest (x ∷ xs) s.cache sorted u, gone) in
        rw (done, min_deficit-undefined greatest cache dest s.queue m missing) refl

    update_list-undefined :
        (now : W) (dest : String) (ds : List (Element W)) (s : RoundRobin W)
        → Tracks ds s.cache
        → Cached s.cache s.queue
        → Distinct ds
        → mem dest s.queue ≡ true
        → erase_dest dest ds ≢ []
        → update_list d greatest now (erase_dest dest ds) s ≡ undefined
    update_list-undefined now dest ds s t q u m n =
        let gone : find_dest dest (erase_dest dest ds) ≡ none =
          find_dest-erase_dest dest dest ds u ∙ rw (str_eq_refl dest) refl in
        emptied now dest (erase_dest dest ds) s t.sorted q (Distinct-erase_dest dest ds u) m n gone

  -- The removal of an active destination is undefined, unless it is the last one.
  pub remove_active_undefined :
      (top : List (String × W) → String × W) (greatest now : W) (dest : String) (x : Element W)
      (e : Entry W (RoundRobin W))
      → IsValid d IsKept e
      → find_dest dest e.destinations ≡ some x
      → mem dest e.state.queue ≡ true
      → erase_dest dest e.destinations ≢ []
      → (remove d (round_robin d top greatest) now dest e).0 ≡ undefined
  unfolding remove round_robin
  remove_active_undefined top greatest now dest x e v h m n =
      rw
        (
          h,
          remove,
          update_list-undefined greatest now dest e.destinations e.state v.related.tracks
              v.related.queued v.distinct m n,
          removed,
        )
        refl
