-- ===== src/Routing/RoundRobin/Selection.antt =====
-- `operator()` of Edge/Entries/entryroundrobin.cpp: the destination with the smallest deficit.
use mathlib.Core.Option.{map as on_value, some-injective}
use mathlib.Core.Path.{subst}
use serverlessonedge.Prelude.{
  String, true, false, some, List, [], ◌∷◌, str_eq_iff, ok, ◌≡◌, ◌≢◌, refl, sym, ap, ◌∙◌, arith,
  All, All-weaken, Option-cases, inl, inr, ◌⊎◌,
}
use serverlessonedge.Prelude.Map.{Map, find, insert, keys, mem}
use serverlessonedge.Prelude.Float.{Float, IsOrdered}
use serverlessonedge.Routing.Entry.{Element}
use serverlessonedge.Routing.RoundRobin.{
  CacheElement, RoundRobin, queue_less, deficits, charge, if_empty, select,
}
use serverlessonedge.Routing.RoundRobin.ActiveSet.{Cached}
use serverlessonedge.Routing.RoundRobin.Kept.{IsKept}

-- The pair is one of those in the list.
abbrev pub Among : {W : Type 0} → String × W → List (String × W) → Type 0
Among x [] = ⊥
Among x (y ∷ ys) = (x ≡ y) ⊎ Among x ys

-- What a priority queue promises: the element on top is one of those given, and less than none of
-- them by their own order.
abbrev pub Picks : {W : Type 0} → Float W → (List (String × W) → String × W) → Type 0
Picks {W} d top =
    (e : String × W) (es : List (String × W))
    → Among (top (e ∷ es)) (e ∷ es) × All (λ x. queue_less d (top (e ∷ es)) x ≡ false) (e ∷ es)

module _ {W : Type 0} where
  -- The names and the deficits read are those of the queue.
  record Reads (cache : Map (CacheElement W)) (qs : List String) : Type 0 where
    entries : List (String × W)
    returned : deficits cache qs ≡ ok entries
    names : keys entries ≡ qs
    values : All (λ x. on_value (λ e. e.deficit) (find x.0 cache) ≡ some x.1) entries

  deficits-Reads :
      (cache : Map (CacheElement W)) (qs : List String) → Cached cache qs → Reads cache qs
  unfolding deficits
  deficits-Reads cache [] a = record { entries = []; returned = refl; names = refl; values = tt }
  deficits-Reads cache (q ∷ qs) a = elim (Option-cases (find q cache)) [
    | inl missing ↦ ground (arith, a.0, missing)
    | inr (e, found) ↦
        let rest = deficits-Reads cache qs a.1 in
        record {
          entries = (q, e.deficit) ∷ rest.entries;
          returned = rw (found, deficits, rest.returned) refl;
          names = ap (◌∷◌ q) rest.names;
          values = (rw found refl, rest.values);
        }
  ]

  Among-mem : (x : String × W) (m : List (String × W)) → Among x m → mem x.0 (keys m) ≡ true
  Among-mem x [] a = absurd a
  Among-mem x (y ∷ m) (inl same) =
      ground (arith, ap (λ (z : String × W). z.0) same, str_eq_iff y.0 x.0)
  Among-mem x (y ∷ m) (inr a) = ground (arith, Among-mem x m a)

  Among-All :
      (P : String × W → Type 0) (x : String × W) (m : List (String × W)) → Among x m → All P m → P x
  Among-All P x [] a h = absurd a
  Among-All P x (y ∷ m) (inl same) h = subst P (sym same) h.0
  Among-All P x (y ∷ m) (inr a) h = Among-All P x m a h.1

  -- What holds of the deficits read holds of the elements of the queue.
  queue-All :
      (P : W → Type 0) (cache : Map (CacheElement W)) (es : List (String × W))
      → All (λ x. on_value (λ e. e.deficit) (find x.0 cache) ≡ some x.1) es
      → All (λ x. P x.1) es
      → All (λ q. (f : CacheElement W) × (find q cache ≡ some f) × P f.deficit) (keys es)
  queue-All P cache [] v a = tt
  queue-All P cache ((q, w) ∷ es) v a = elim (Option-cases (find q cache)) [
    | inl missing ↦ ground (arith, v.0, missing)
    | inr (f, found) ↦
        let this : f.deficit ≡ w = some-injective f.deficit w (rw found at v.0) in
        ((f, found, subst P (sym this) a.0), queue-All P cache es v.1 a.1)
  ]

  module _ (d : Float W) (top : List (String × W) → String × W) (picks : Picks d top) where
    if_empty-some {ℓ} :
        {A : Type ℓ} (qs : List String) (a b : A) → qs ≢ [] → if_empty d top qs a b ≡ b
    if_empty-some [] a b n = absurd (n refl)
    if_empty-some (q ∷ qs) a b n = refl

    picks-some :
        (es : List (String × W))
        → es ≢ []
        → Among (top es) es × All (λ x. queue_less d (top es) x ≡ false) es
    picks-some [] n = absurd (n refl)
    picks-some (e ∷ es) n = picks e es

    -- `operator()` returns an element of the active set than which no other goes before, and charges
    -- its weight to it.
    pub select_top :
        (now : W) (ds : List (Element W)) (s : RoundRobin W)
        → IsKept ds s
        → ds ≢ []
        → (name : String) × (e : CacheElement W) × (select d top now ds s
            ≡ ok (
              name,
              record s {
                cache = insert name (record e { deficit = d.add e.deficit e.weight }) s.cache;
              },
            ))
          × (find name s.cache ≡ some e)
          × (mem name s.queue ≡ true)
          × All
              (λ q.
                (f : CacheElement W) × (find q s.cache ≡ some f)
                × (d.lt f.deficit e.deficit ≡ false))
              s.queue
    unfolding select
    select_top now ds s k n =
        let has_some : s.queue ≢ [] = elim k.served [
          | inl some_left ↦ some_left
          | inr none_left ↦ absurd (n none_left)
        ] in
        let r = deficits-Reads s.cache s.queue k.queued in
        let (at_top, least) = picks-some r.entries (λ e. has_some (sym r.names ∙ ap keys e)) in
        let name = (top r.entries).0 in
        let w = (top r.entries).1 in
        let value =
          Among-All
            (λ (x : String × W).
              on_value (λ (e : CacheElement W). e.deficit) (find x.0 s.cache) ≡ some x.1)
            (top r.entries) r.entries at_top r.values in
        elim (Option-cases (find name s.cache)) [
          | inl missing ↦ ground (arith, value, missing)
          | inr (e, found) ↦
              let this : e.deficit ≡ w = some-injective e.deficit w (rw found at value) in
              let charged : charge d top s name
                  ≡ ok (
                    name,
                    record s {
                      cache = insert name (record e { deficit = d.add e.deficit e.weight }) s.cache;
                    },
                  ) =
                rw (found, charge) refl in
              (
                name,
                e,
                if_empty-some s.queue _ _ has_some ∙ (rw r.returned charged),
                found,
                subst (λ qs. mem name qs ≡ true) r.names
                    (Among-mem (top r.entries) r.entries at_top),
                subst
                    (λ qs.
                      All
                        (λ q.
                          (f : CacheElement W) × (find q s.cache ≡ some f)
                          × (d.lt f.deficit e.deficit ≡ false))
                        qs)
                    r.names
                    (queue-All (λ v. d.lt v e.deficit ≡ false) s.cache r.entries r.values
                      (subst (λ v. All (λ (x : String × W). d.lt x.1 v ≡ false) r.entries)
                        (sym this) least)),
              )
        ]

    -- With a destination, `operator()` returns an element of the active set with the smallest
    -- deficit, and charges its weight to it; the priority queue has on top an element that is
    -- less than none of the others by `operator<`.
    pub select_least :
        IsOrdered d
        → (now : W) (ds : List (Element W)) (s : RoundRobin W) → IsKept ds s
        → ds ≢ []
        → (name : String) × (e : CacheElement W) × (select d top now ds s
            ≡ ok (
              name,
              record s {
                cache = insert name (record e { deficit = d.add e.deficit e.weight }) s.cache;
              },
            ))
          × (find name s.cache ≡ some e)
          × (mem name s.queue ≡ true)
          × All
              (λ q.
                (f : CacheElement W) × (find q s.cache ≡ some f)
                × (d.le e.deficit f.deficit ≡ true))
              s.queue
    select_least order now ds s k n =
        let (name, e, selected, found, queued, least) = select_top now ds s k n in
        (
          name,
          e,
          selected,
          found,
          queued,
          All-weaken
              (λ q.
                (f : CacheElement W) × (find q s.cache ≡ some f)
                × (d.lt f.deficit e.deficit ≡ false))
              (λ q.
                (f : CacheElement W) × (find q s.cache ≡ some f)
                × (d.le e.deficit f.deficit ≡ true))
              (λ q (f, at_q, less).
                (f, at_q, ground (arith, less, order.lt-eq-not-le f.deficit e.deficit)))
              s.queue least,
        )
