-- ===== src/Routing/Table/Updates.antt =====
-- Edge/forwardingtable.cpp: the calls on a destination that the table has, and the removals.
use serverlessonedge.Prelude.{
  String, Bool, true, false, ◌&&◌, Option, none, some, List, [], ◌∷◌, str_eq, str_eq_iff,
  if◌then◌else◌, Outcome, ok, throws, undefined, no_destinations, ◌≡◌, refl, arith, is_some,
  Option-cases, ◌⊎◌, inl, inr, Returns,
}
use mathlib.Core.Path.{subst}
use serverlessonedge.Prelude.Map.{find, insert}
use serverlessonedge.Prelude.Float.{Float, IsOrdered}
use serverlessonedge.Routing.Entry.{Element, Entry, Policy, find_dest}
use serverlessonedge.Routing.Entry
use serverlessonedge.Routing.Entry.Laws.{shown, find_dest-nil}
use serverlessonedge.Routing.Entry.Contract.{IsPolicy, IsValid}
use serverlessonedge.Routing.Entry.Invariant.{seen, change_weight-Changed, Removed, remove-Removed}
use serverlessonedge.Routing.Table.{
  Table, change_weight, multiply, remove, after_remove, drop_empty, remove_lambda, select,
  after_select,
}
use serverlessonedge.Routing.Table.Laws.{view, seen_in}
use serverlessonedge.Routing.Table.Refinement.{
  IsTable, Shows, insert-Shows, erase-Shows, not_negative,
}

module _ {W P : Type 0} where
  -- What stands behind a destination that the view has.
  record Found (t : Table W P) (l dest : String) (w : W) (final : Bool) : Type 0 where
    entry : Entry W P
    element : Element W
    at_lambda : find l t ≡ some entry
    at_dest : find_dest dest entry.destinations ≡ some element
    weighs : element.weight ≡ w
    finally : element.final ≡ final

  Found-in :
      (t : Table W P) (l dest : String) (w : W) (final : Bool) (o : Option (Entry W P))
      → find l t ≡ o
      → seen_in dest o ≡ some (w, final)
      → Found t l dest w final
  Found-in t l dest w final none q h = cc
  Found-in t l dest w final (some e) q h = elim (Option-cases (find_dest dest e.destinations)) [
    | inl absent ↦ absurd (ground arith)
    | inr (x, present) ↦ record {
      entry = e;
      element = x;
      at_lambda = q;
      at_dest = present;
      weighs = ground arith;
      finally = ground arith;
    }
  ]

module _ {W E P : Type 0} {d : Float W} (order : IsOrdered d) (p : Policy W E P)
    {I : List (Element W) → P → Type 0} (laws : IsPolicy d p I) where
  reweigh-Shows :
      (env : E) (l dest : String) (v w : W) (final : Bool) (t : Table W P)
      (q : Found t l dest v final)
      → IsTable d I t
      → d.le w d.nought ≡ false
      → let r = Entry.change_weight d p env dest w q.entry in
        (r.0 ≡ ok tt)
        × Shows d I
            (insert l r.1 t)
            (λ k j. if str_eq l k && str_eq dest j then some (w, final) else view t k j)
  reweigh-Shows env l dest v w final t q i h =
      let good = i.entries l q.entry q.at_lambda in
      let (done, valid, shows) =
        change_weight-Changed d p laws env dest w q.entry q.element good q.at_dest h in
      (
        done,
        insert-Shows order p laws l _ t _ i valid
            (λ k j. ground (arith, shows j, str_eq_iff l k, q.at_lambda, q.finally)),
      )

  -- A new positive weight for a destination that the table has keeps its final flag.
  pub change_weight-Shows :
      (env : E) (l dest : String) (v w : W) (final : Bool) (t : Table W P)
      → IsTable d I t
      → view t l dest ≡ some (v, final)
      → str_eq dest "" ≡ false
      → d.le w d.nought ≡ false
      → let r = change_weight d p env l dest w t in
        (r.0 ≡ ok tt)
        × Shows d I r.1 (λ k j. if str_eq l k && str_eq dest j then some (w, final) else view t k j)
  unfolding change_weight
  change_weight-Shows env l dest v w final t i s n h =
      let q = Found-in t l dest v final (find l t) refl s in
      rw (n, not_negative order p laws w h, change_weight, q.at_lambda)
        (reweigh-Shows env l dest v w final t q i h)

  -- `multiply` by a factor that leaves the weight positive multiplies it.
  pub multiply-Shows :
      (env : E) (l dest : String) (w factor : W) (final : Bool) (t : Table W P)
      → IsTable d I t
      → view t l dest ≡ some (w, final)
      → str_eq dest "" ≡ false
      → d.le factor d.nought ≡ false
      → d.le (d.mul w factor) d.nought ≡ false
      → let r = multiply d p env l dest factor t in
        (r.0 ≡ ok tt)
        × Shows d I r.1 (λ k j.
          if str_eq l k && str_eq dest j then some (d.mul w factor, final) else view t k j)
  unfolding multiply Entry.weight
  multiply-Shows env l dest w factor final t i s n h g =
      let q = Found-in t l dest w final (find l t) refl s in
      rw (n, h, multiply, q.at_lambda, n, q.at_dest, q.weighs)
        (reweigh-Shows env l dest w (d.mul w factor) final t q i g)

  -- `remove(lambda)` removes the lambda with all its destinations, and nothing else.
  pub remove_lambda-Shows :
      (l : String) (t : Table W P)
      → IsTable d I t
      → Shows d I (remove_lambda l t) (λ k j. if str_eq l k then none else view t k j)
  unfolding remove_lambda
  remove_lambda-Shows l t i = erase-Shows order p laws l t _ i (λ k j. refl)

  drop_empty-Shows :
      (l : String) (e : Entry W P) (ds : List (Element W)) (t : Table W P)
      (v : String → String → Option (W × Bool))
      → e.destinations ≡ ds
      → IsTable d I t
      → IsValid d I e
      → ((k j : String) → (if str_eq l k then seen j e else view t k j) ≡ v k j)
      → Shows d I (drop_empty l e t) v
  unfolding drop_empty
  drop_empty-Shows l e [] t v q i valid h =
      rw (q, drop_empty)
        (erase-Shows order p laws l t v i
          (λ k j. ground (arith, h k j, find_dest-nil j e.destinations q)))
  drop_empty-Shows l e (x ∷ xs) t v q i valid h =
      rw (q, drop_empty) (insert-Shows order p laws l e t v i valid h)

  remove-answer :
      (l dest : String) (t : Table W P) (r : Outcome Bool) (b : Bool) (e : Entry W P)
      (old : Entry W P)
      → IsTable d I t
      → find l t ≡ some old
      → Removed d p laws b (r, e) (λ j. if str_eq dest j then none else seen j old)
      → let a = after_remove d p l t (r, e) in
        (a.0 ≡ undefined)
        ⊎ ((a.0 ≡ ok tt)
            × Shows d I a.1 (λ k j. if str_eq l k && str_eq dest j then none else view t k j))
  remove-answer l dest t (ok a) b e old i q (inl bad) = cc
  remove-answer l dest t (ok a) b e old i q (inr (done, valid, shows)) = inr (
    refl,
    drop_empty-Shows l e e.destinations t _ refl i valid
        (λ k j. ground (arith, shows j, str_eq_iff l k, q)),
  )
  remove-answer l dest t (throws x) b e old i q (inl bad) = cc
  remove-answer l dest t (throws x) b e old i q (inr (done, valid, shows)) = cc
  remove-answer l dest t undefined b e old i q r = inl refl

  -- `remove(lambda, dest)` removes that destination, and nothing else; unless the policy reads an
  -- erased element.
  pub remove-Shows :
      (env : E) (l dest : String) (t : Table W P)
      → IsTable d I t
      → let r = remove d p env l dest t in
        (r.0 ≡ undefined)
        ⊎ ((r.0 ≡ ok tt)
            × Shows d I r.1 (λ k j. if str_eq l k && str_eq dest j then none else view t k j))
  unfolding remove
  remove-Shows env l dest t i = elim (Option-cases (find l t)) [
    | inl absent ↦
        rw (absent, remove)
          (inr (refl, record { valid = i; shows = λ k j. ground (arith, str_eq_iff l k, absent) }))
    | inr (e, present) ↦
        rw (present, remove)
          (remove-answer l dest t _ _ _ e i present
            (remove-Removed d p laws env dest e (i.entries l e present)))
  ]

  select-answer :
      (l : String) (e : Entry W P) (t : Table W P) (r : Outcome (String × P))
      → IsTable d I t
      → find l t ≡ some e
      → Returns (λ a. (is_some (find_dest a.0 e.destinations) ≡ true) × I e.destinations a.1) r
      → let a = after_select d p l e t r in
        Returns (λ dest. is_some (seen dest e) ≡ true) a.0 × Shows d I a.1 (view t)
  select-answer l e t (ok (dest, s)) i q (there, related) =
      let v = i.entries l e q in
      (
        ground (arith, q),
        insert-Shows order p laws l _ t _ i
            (record { distinct = v.distinct; stored = v.stored; related = related })
            (λ k j. ground (arith, q, str_eq_iff l k)),
      )
  select-answer l e t (throws x) i q h = absurd h
  select-answer l e t undefined i q h = absurd h

  -- Calling the table for a lambda with a destination returns a destination that the lambda has,
  -- and does not change the view.
  pub select-Shows :
      (env : E) (l j : String) (t : Table W P)
      → IsTable d I t
      → is_some (view t l j) ≡ true
      → let r = select d p env l t in
        Returns (λ dest. is_some (view t l dest) ≡ true) r.0 × Shows d I r.1 (view t)
  unfolding select
  select-Shows env l j t i h = elim (Option-cases (find l t)) [
    | inl absent ↦ absurd (ground arith)
    | inr (e, present) ↦
        let v = i.entries l e present in
        rw (present, select)
          (select-answer l e t (p.select env e.destinations e.state) i present (
            laws.select_keeps env e.destinations e.state
              (λ q. ground (arith, find_dest-nil j e.destinations q)) v.stored v.related))
  ]

  nothing_seen : (ds : List (Element W)) → ((j : String) → shown (find_dest j ds) ≡ none) → ds ≡ []
  unfolding find_dest
  nothing_seen [] h = refl
  nothing_seen (x ∷ xs) h = ground (arith, h x.destination, str_eq_iff x.destination x.destination)

  -- Calling the table for a lambda without destinations throws `NoDestinations` and changes nothing.
  pub select_none :
      (env : E) (l : String) (t : Table W P)
      → IsTable d I t
      → ((j : String) → view t l j ≡ none)
      → select d p env l t ≡ (throws no_destinations, t)
  unfolding select
  select_none env l t i h = elim (Option-cases (find l t)) [
    | inl absent ↦ rw (absent, select)
    | inr (e, present) ↦
        let empty = nothing_seen e.destinations (λ j. ground (arith, h j, present)) in
        let v = i.entries l e present in
        rw (
          present,
          select,
          empty,
          laws.select_empty env e.state (subst (λ ds. I ds e.state) empty v.related),
        )
  ]
