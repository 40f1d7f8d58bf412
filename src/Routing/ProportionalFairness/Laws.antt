-- ===== src/Routing/ProportionalFairness/Laws.antt =====
-- Edge/Entries/entryproportionalfairness.cpp keeps its promise: the statistics stay those of the
-- destinations of the list, so that no search in them fails, and the choice has the greatest
-- coefficient.
use serverlessonedge.Routing.ProportionalFairness.Choice.{
  Covers, coefficient, greatest, Known, choose_start, Known-Covers, greatest-member, greatest-find,
  greatest-le,
}
use serverlessonedge.Prelude.{
  ◌+◌, String, true, some, List, [], ◌∷◌, ok, str_eq_iff, is_some, ◌≡◌, ◌≢◌, refl, arith, Returns,
  All, Option-cases, inl, inr,
}
use serverlessonedge.Prelude.Map.{find, find-insert, find-erase, find-emplace}
use serverlessonedge.Prelude.Float.{Float, IsOrdered}
use serverlessonedge.Routing.Entry.{Element, find_dest, set_dest, erase_dest}
use serverlessonedge.Routing.Entry.Laws.{
  Distinct, find_dest-append, find_dest-set_dest, find_dest-erase_dest, find_dest-name,
}
use serverlessonedge.Routing.Entry.Contract.{IsPolicy, IsStored, IsClean, Keeps-Returns}
use serverlessonedge.Routing.ProportionalFairness.{
  Stats, select, update_weight, update_add_dest, update_del_dest, proportional_fairness,
}

module _ {W : Type 0} (d : Float W) (pow : W → W → W) (alpha beta : W) where
  all_known :
      (ds : List (Element W)) (s : Stats W)
      → Covers ds s
      → All (IsStored d) ds
      → Known d pow alpha beta s ds
  all_known ds s c a = Known-Covers d pow alpha beta ds ds s c (λ j h. h) a

  select-Returns :
      (now : W) (ds : List (Element W)) (s : Stats W)
      → ds ≢ []
      → All (IsStored d) ds
      → Covers ds s
      → Returns
          (λ r. (is_some (find_dest r.0 ds) ≡ true) × Covers ds r.1)
          (select d pow alpha beta now ds s)
  unfolding select
  select-Returns now [] s n a c = absurd (n refl)
  select-Returns now (x ∷ xs) s n a c =
      rw (choose_start d pow alpha beta now s x xs (all_known (x ∷ xs) s c a))
        (greatest-member d pow alpha beta now s x xs, c)

  weight-Covers :
      (now : W) (dest : String) (x : Element W) (f : Element W → Element W) (ds : List (Element W))
      (s : Stats W)
      → ((y : Element W) → (f y).destination ≡ y.destination)
      → find_dest dest ds ≡ some x
      → Covers ds s
      → Returns (Covers (set_dest dest f ds)) (update_weight d pow alpha beta now dest s)
  unfolding update_weight
  weight-Covers now dest x f ds s same h c = elim (Option-cases (find dest s)) [
    | inl missing ↦ absurd (ground (arith, c dest))
    | inr ((served, timestamp), found) ↦
        rw (found, update_weight, Returns)
          (λ j. ground (
            arith,
            c j,
            c dest,
            find_dest-set_dest f same dest j ds x h,
            find-insert dest j (served + 1, now) s,
            str_eq_iff dest j,
          ))
  ]

  del-Covers :
      (now : W) (dest : String) (x : Element W) (ds : List (Element W)) (s : Stats W)
      → Distinct ds
      → find_dest dest ds ≡ some x
      → Covers ds s
      → Returns (Covers (erase_dest dest ds)) (update_del_dest d pow alpha beta now x.destination s)
  unfolding update_del_dest
  del-Covers now dest x ds s u h c = elim (Option-cases (find x.destination s)) [
    | inl missing ↦ absurd (ground (arith, c x.destination, find_dest-name dest x ds h))
    | inr (y, found) ↦
        rw (found, update_del_dest, Returns)
          (λ j. ground (
            arith,
            c j,
            find_dest-name dest x ds h,
            find_dest-erase_dest dest j ds u,
            find-erase x.destination j s,
            str_eq_iff dest j,
          ))
  ]

  module _ (laws : IsOrdered d) where
    -- `operator()` returns a destination with the greatest coefficient d pow alpha beta at that time, and the
    -- search of its statistics never fails.
    pub select_greatest :
        (now : W) (ds : List (Element W)) (s : Stats W)
        → Distinct ds
        → All (IsStored d) ds
        → Covers ds s
        → ds ≢ []
        → (y : Element W) × (select d pow alpha beta now ds s ≡ ok (y.destination, s))
          × (find_dest y.destination ds ≡ some y)
          × All
              (λ x.
                d.le (coefficient d pow alpha beta now s x) (coefficient d pow alpha beta now s y)
                ≡ true)
              ds
    unfolding select
    select_greatest now [] s u a c n = absurd (n refl)
    select_greatest now (x ∷ xs) s u a c n = (
      greatest d pow alpha beta now s x xs,
      rw (choose_start d pow alpha beta now s x xs (all_known (x ∷ xs) s c a)) refl,
      greatest-find d pow alpha beta now s x xs u,
      greatest-le d pow alpha beta laws now s x xs,
    )

module _ {W : Type 0} (d : Float W) (pow : W → W → W) (alpha beta : W) where
  pub proportional_fairness-IsClean : IsClean d (proportional_fairness d pow alpha beta) Covers
  unfolding proportional_fairness
  proportional_fairness-IsClean = record {
    del_returns = λ env dest x ds s u h c. del-Covers d pow alpha beta env dest x ds s u h c;
  }

  -- A proportional-fairness entry keeps the statistics of exactly its destinations: no search in
  -- them fails, no update fails, and a call returns one of the destinations.
  pub proportional_fairness-IsPolicy : IsPolicy d (proportional_fairness d pow alpha beta) Covers
  unfolding proportional_fairness update_add_dest find find_dest select
  proportional_fairness-IsPolicy = record {
    fresh_keeps = λ j. refl;
    weight_keeps = λ env dest x f ds s same u a h pos c.
        weight-Covers d pow alpha beta env dest x f ds s same h c;
    add_keeps = λ env x ds s u a h q c. λ j. ground (
      arith,
      c j,
      find_dest-append j ds x,
      find-emplace x.destination j (1, env) s,
      str_eq_iff x.destination j,
    );
    del_keeps = λ env dest x ds s u a h c.
        Keeps-Returns (Covers (erase_dest dest ds))
          (update_del_dest d pow alpha beta env x.destination s)
          (del-Covers d pow alpha beta env dest x ds s u h c);
    select_empty = λ env s c. refl;
    select_keeps = λ env ds s n a c. select-Returns d pow alpha beta env ds s n a c;
  }
