-- ===== src/Routing/RoundRobin/ActiveSet.antt =====
-- Edge/Entries/entryroundrobin.cpp: the active set is never empty while there is a destination.
use mathlib.Core.Path.{subst}
use serverlessonedge.Prelude.{
  String, true, false, List, [], ◌∷◌, is_some, ◌≡◌, ◌≢◌, refl, sym, ap, ◌∙◌, arith, All, Bool-cases,
  Option-cases, inl, inr, ◌⊎◌, Returns, if-cases,
}
use serverlessonedge.Prelude.Map.{Map, find, str_eq_refl}
use serverlessonedge.Prelude.Float.{Float}
use serverlessonedge.Routing.RoundRobin.{
  CacheElement, smaller, min_deficit, weights, least_of, least, good, admit, active,
}

-- The names are those of elements of the cache.
abbrev pub Cached : {W : Type 0} → Map (CacheElement W) → List String → Type 0
Cached cache = All (λ q. is_some (find q cache) ≡ true)

module _ {W : Type 0} (d : Float W) where
  -- A positive weight is at most its double.
  abbrev pub Doubles : Type 0
  Doubles = (w : W) → d.le w d.nought ≡ false → d.le w (d.mul w (d.of_nat 2)) ≡ true

  pub admit-weight :
      (now deficit : W) (ws : List W) (e : CacheElement W)
      → (admit d now deficit ws e).1.weight ≡ e.weight
  unfolding admit
  admit-weight now deficit ws e = ground arith

  pub admit-removed :
      (now deficit : W) (ws : List W) (e : CacheElement W)
      → (admit d now deficit ws e).1.removed ≡ e.removed
  unfolding admit
  admit-removed now deficit ws e = ground arith

  pub min_deficit-Returns :
      (best : W) (cache : Map (CacheElement W)) (qs : List String)
      → Cached cache qs
      → Returns (λ _. Unit {0}) (min_deficit d best cache qs)
  unfolding min_deficit
  min_deficit-Returns best cache [] a = tt
  min_deficit-Returns best cache (q ∷ qs) a = elim (Option-cases (find q cache)) [
    | inl missing ↦ ground (arith, a.0, missing)
    | inr (e, found) ↦
        rw (found, min_deficit) (min_deficit-Returns (smaller d best e.deficit) cache qs a.1)
  ]

  -- The elements that the loop finds active are in the cache.
  pub active-Cached :
      (now deficit : W) (ws : List W) (m cache : Map (CacheElement W))
      → ((k : String) → is_some (find k m) ≡ true → is_some (find k cache) ≡ true)
      → Cached cache (active d now deficit ws m)
  unfolding active find
  active-Cached now deficit ws [] cache h = tt
  active-Cached now deficit ws ((k, e) ∷ m) cache h =
      let here = h k (ground (arith, str_eq_refl k)) in
      let rest = active-Cached now deficit ws m cache (λ j f. h j (ground (arith, f))) in
      elim (Bool-cases (admit d now deficit ws e).0) [
        | inl on ↦ rw on (here, rest)
        | inr off ↦ rw off rest
      ]

  -- The smallest of some weights is one of them.
  abbrev HasWeight : W → Map (CacheElement W) → Type 0
  HasWeight w [] = ⊥
  HasWeight w ((k, e) ∷ m) = (e.weight ≡ w) ⊎ HasWeight w m

  least_of-cases :
      (best : W) (m : Map (CacheElement W))
      → let w = least_of d best (weights m) in (w ≡ best) ⊎ HasWeight w m
  unfolding weights
  least_of-cases best [] = inl refl
  least_of-cases best ((k, e) ∷ m) =
      let P =
        λ (ws : List W). let w = least_of d best ws in (w ≡ best) ⊎ HasWeight w ((k, e) ∷ m) in
      if-cases P e.removed (weights m) (e.weight ∷ weights m)
        (λ _. elim (least_of-cases best m) [ inl a ↦ inl a | inr h ↦ inr (inr h) ])
        (λ _.
          if-cases
            (λ (b : W). let w = least_of d b (weights m) in (w ≡ best) ⊎ HasWeight w ((k, e) ∷ m))
            (d.lt e.weight best) e.weight best
            (λ _. elim (least_of-cases e.weight m) [
              | inl a ↦ inr (inl (sym a))
              | inr h ↦ inr (inr h)
            ])
            (λ _. elim (least_of-cases best m) [ inl a ↦ inl a | inr h ↦ inr (inr h) ]))

  least-HasWeight :
      (cache : Map (CacheElement W))
      → All (λ e. e.1.removed ≡ false) cache
      → cache ≢ []
      → HasWeight (least d (weights cache)) cache
  unfolding weights
  least-HasWeight [] a n = absurd (n refl)
  least-HasWeight ((k, e) ∷ m) a n =
      let P = λ (ws : List W). HasWeight (least d ws) ((k, e) ∷ m) in
      if-cases P e.removed (weights m) (e.weight ∷ weights m) (λ gone. ground (arith, gone, a.0))
        (λ _. elim (least_of-cases e.weight m) [ inl x ↦ inl (sym x) | inr h ↦ inr h ])

  HasWeight-All :
      (P : W → Type 0) (w : W) (m : Map (CacheElement W))
      → All (λ e. P e.1.weight) m
      → HasWeight w m
      → P w
  HasWeight-All P w [] a h = absurd h
  HasWeight-All P w ((k, e) ∷ m) a (inl same) = subst P same a.0
  HasWeight-All P w ((k, e) ∷ m) a (inr h) = HasWeight-All P w m a.1 h

  good-admit :
      (now deficit : W) (ws : List W) (e : CacheElement W)
      → good d ws e.weight ≡ true
      → (admit d now deficit ws e).0 ≡ true
  unfolding admit
  good-admit now deficit ws e g = ground (arith, g)

  -- A good weight makes an active element.
  good-active :
      (now deficit : W) (ws : List W) (w : W) (m : Map (CacheElement W))
      → good d ws w ≡ true
      → HasWeight w m
      → active d now deficit ws m ≢ []
  unfolding active
  good-active now deficit ws w [] g h = absurd h
  good-active now deficit ws w ((k, e) ∷ m) g (inl same) =
      let on = good-admit now deficit ws e (ap (good d ws) same ∙ g) in
      λ none_left. ground (arith, rw on at none_left)
  good-active now deficit ws w ((k, e) ∷ m) g (inr h) =
      if-cases (λ (qs : List String). qs ≢ []) (admit d now deficit ws e).0
        (k ∷ active d now deficit ws m) (active d now deficit ws m)
        (λ _ none_left. ground (arith, none_left)) (λ _. good-active now deficit ws w m g h)

  -- Some element is active after the loop, if the cache has any and all weights are positive.
  pub active-some :
      (now deficit : W) (cache : Map (CacheElement W))
      → Doubles
      → All (λ e. e.1.removed ≡ false) cache
      → All (λ e. d.le e.1.weight d.nought ≡ false) cache
      → cache ≢ []
      → active d now deficit (weights cache) cache ≢ []
  unfolding good
  active-some now deficit cache doubles a pos n =
      let h = least-HasWeight cache a n in
      let w = least d (weights cache) in
      let double = doubles w (HasWeight-All (λ x. d.le x d.nought ≡ false) w cache pos h) in
      good-active now deficit (weights cache) w cache (ground (arith, double)) h
