-- ===== src/Routing/RoundRobin/Contract.antt =====
-- The class of Edge/Entries/entryroundrobin.cpp keeps the promise of an entry's policy.
use mathlib.Core.Option.{some-injective}
use serverlessonedge.Prelude.{
  String, true, false, some, List, [], ◌∷◌, ◌++◌, is_some, str_eq, str_eq_iff, throws,
  no_destinations, ◌>>=◌, ◌≡◌, ◌≢◌, refl, sym, ap, ◌∙◌, arith, All, Bool-cases, List-cases, inl,
  inr, Returns, All-append,
}
use mathlib.Core.Path.{subst}
use serverlessonedge.Prelude.Map.{Map, find, insert, find-insert}
use serverlessonedge.Prelude.Map.Sorted.{insert-IsSorted, All-find}
use serverlessonedge.Prelude.Map.Values.{All-insert}
use serverlessonedge.Prelude.Float.{Float}
use serverlessonedge.Routing.Entry.{Element, find_dest, set_dest, erase_dest}
use serverlessonedge.Routing.Entry.Laws.{find_dest-append, Distinct-append, Distinct-erase_dest}
use serverlessonedge.Routing.Entry.Contract.{IsPolicy, IsStored, IsPositive}
use serverlessonedge.Routing.Entry.Invariant.{IsStored-erase_dest}
use serverlessonedge.Routing.RoundRobin.{
  CacheElement, RoundRobin, if_empty, deficits, charge, select, round_robin,
}
use serverlessonedge.Routing.RoundRobin.ActiveSet.{Cached, Doubles}
use serverlessonedge.Routing.RoundRobin.Kept.{Tracks, IsKept, known-some}
use serverlessonedge.Routing.RoundRobin.Updates.{
  Cached-mono, update_list-Returns, update_list-Keeps,
}
use serverlessonedge.Routing.RoundRobin.Weights.{update_weight-Returns}
use serverlessonedge.Routing.RoundRobin.Selection.{Picks, select_top}

module _ {W : Type 0} where
  -- A change of an element that keeps its weight.
  insert-Tracks :
      (ds : List (Element W)) (cache : Map (CacheElement W)) (name : String) (e e' : CacheElement W)
      → find name cache ≡ some e
      → e'.weight ≡ e.weight
      → e'.removed ≡ e.removed
      → Tracks ds cache
      → Tracks ds (insert name e' cache)
  insert-Tracks ds cache name e e' found weight removed t = record {
    sorted = insert-IsSorted name e' cache t.sorted;
    known = λ j. ground (
      arith,
      t.known j,
      t.known name,
      weight,
      found,
      find-insert name j e' cache,
      str_eq_iff name j,
    );
    present =
        All-insert (λ y. y.removed ≡ false) name e' cache
          (removed ∙ All-find (λ _ y. y.removed ≡ false) name e cache t.present found) t.present;
  }

  -- The elements of the queue are destinations of the list.
  queue-dests :
      (ds : List (Element W)) (cache : Map (CacheElement W)) (qs : List String)
      → Tracks ds cache
      → Cached cache qs
      → All (λ q. is_some (find_dest q ds) ≡ true) qs
  queue-dests ds cache [] t a = tt
  queue-dests ds cache (q ∷ qs) t a =
      (sym (known-some ds cache q t) ∙ a.0, queue-dests ds cache qs t a.1)

  more-dests :
      (x : Element W) (ds : List (Element W)) (qs : List String)
      → All (λ q. is_some (find_dest q ds) ≡ true) qs
      → All (λ q. is_some (find_dest q (ds ++ (x ∷ []))) ≡ true) qs
  more-dests x ds [] a = tt
  more-dests x ds (q ∷ qs) a =
      (ground (arith, a.0, find_dest-append q ds x), more-dests x ds qs a.1)

  set-IsStored :
      (d : Float W) (dest : String) (x : Element W) (f : Element W → Element W)
      (ds : List (Element W))
      → ((y : Element W) → (f y).destination ≡ y.destination)
      → All (IsStored d) ds
      → find_dest dest ds ≡ some x
      → IsPositive d (f x).weight
      → All (IsStored d) (set_dest dest f ds)
  unfolding find_dest set_dest
  set-IsStored d dest x f [] same a h p = tt
  set-IsStored d dest x f (y ∷ ys) same a h p = elim (Bool-cases (str_eq y.destination dest)) [
    | inl here ↦
        let this : x ≡ y = some-injective x y (sym (rw here at h)) in
        let p' : IsPositive d (f y).weight = subst (λ z. IsPositive d (f z).weight) this p in
        rw here ((p', ap (λ n. str_eq n "") (same y) ∙ a.0.1), a.1)
    | inr other ↦ rw other (a.0, set-IsStored d dest x f ys same a.1 (rw other at h) p)
  ]

module _ {W : Type 0} (d : Float W) (top : List (String × W) → String × W) (greatest : W)
    (picks : Picks d top) (doubles : Doubles d) where
  select-IsKept :
      (now : W) (ds : List (Element W)) (s : RoundRobin W)
      → ds ≢ []
      → IsKept ds s
      → Returns (λ r. (is_some (find_dest r.0 ds) ≡ true) × IsKept ds r.1) (select d top now ds s)
  select-IsKept now ds s n k =
      let (name, e, selected, found, queued, least) = select_top d top picks now ds s k n in
      let e' : CacheElement W = record e { deficit = d.add e.deficit e.weight } in
      rw (selected, Returns)
        (
          ground (arith, known-some ds s.cache name k.tracks, found),
          record {
            tracks = insert-Tracks ds s.cache name e e' found refl refl k.tracks;
            queued =
                Cached-mono s.cache (insert name e' s.cache) s.queue
                  (λ j p. ground (arith, p, find-insert name j e' s.cache)) k.queued;
            served = k.served;
          },
        )

  select-empty :
      (now : W) (s : RoundRobin W) → IsKept [] s → select d top now [] s ≡ throws no_destinations
  unfolding select find_dest
  select-empty now s k = elim (List-cases s.queue) [
    | inl none_left ↦
        ap
          (λ qs.
            if_empty d top qs (throws no_destinations)
              (deficits s.cache s.queue >>= λ es. charge d top s (top es).0))
          none_left
    | inr (q, qs, some_left) ↦
        let a : Cached s.cache (q ∷ qs) = subst (Cached s.cache) some_left k.queued in
        ground (arith, a.0, known-some [] s.cache q k.tracks)
  ]

  -- A round-robin entry keeps exactly its destinations in the cache, with their weights, and keeps
  -- the active set from being empty while there is a destination. No update throws, one that adds a
  -- destination or changes a weight returns, and a call returns one of the destinations. After a
  -- removal the entry is right if the update is defined.
  pub round_robin-IsPolicy : IsPolicy d (round_robin d top greatest) IsKept
  unfolding round_robin find find_dest
  round_robin-IsPolicy = record {
    fresh_keeps = record {
      tracks = record { sorted = tt; known = λ j. refl; present = tt };
      queued = tt;
      served = inr refl;
    };
    weight_keeps = λ env dest x f ds s same u a h pos k.
        update_weight-Returns d greatest doubles env dest x f ds s same
          (set-IsStored d dest x f ds same a h pos) h k;
    add_keeps = λ env x ds s u a h q k.
        update_list-Returns d greatest doubles env (ds ++ (x ∷ [])) s (Distinct-append ds x u h)
          (All-append (IsStored d) ds (x ∷ []) a (q, tt)) k.tracks.sorted k.queued
          (more-dests x ds s.queue (queue-dests ds s.cache s.queue k.tracks k.queued));
    del_keeps = λ env dest x ds s u a h k.
        update_list-Keeps d greatest doubles env (erase_dest dest ds) s
          (Distinct-erase_dest dest ds u) (IsStored-erase_dest d dest ds a) k.tracks.sorted;
    select_empty = λ env s k. select-empty env s k;
    select_keeps = λ env ds s n a k. select-IsKept env ds s n k;
  }
