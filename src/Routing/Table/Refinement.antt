-- ===== src/Routing/Table/Refinement.antt =====
-- Edge/forwardingtable.cpp: every call that is defined keeps the table valid and acts on the view
-- as its documentation says; a call that throws leaves the view as it was.
use serverlessonedge.Prelude.{
  String, Bool, true, false, ◌||◌, ◌&&◌, Option, none, some, List, str_eq, str_eq_iff,
  if◌then◌else◌, ok, throws, invalid_destination, invalid_weight, ◌≡◌, refl, arith, Bool-cases, inl,
  inr, ◌∙◌, not,
}
use serverlessonedge.Prelude.Map.{find, insert, erase, find-insert, find-erase, contains}
use serverlessonedge.Prelude.Map.Sorted.{IsSorted, insert-IsSorted, erase-IsSorted}
use serverlessonedge.Prelude.Float.{Float, IsOrdered}
use serverlessonedge.Routing.Entry.{Element, Entry, Policy, find_dest}
use serverlessonedge.Routing.Entry
use serverlessonedge.Routing.Entry.Contract.{IsPolicy, IsValid}
use serverlessonedge.Routing.Entry.Invariant.{seen, change-Changed}
use serverlessonedge.Routing.Table.{Table, or_new, entry_of, change, lambdas}
use serverlessonedge.Routing.Table.Laws.{view, seen_in, view-insert, view-erase, contains-lambdas}

module _ {W : Type 0} (d : Float W) {P : Type 0} (I : List (Element W) → P → Type 0) where
  -- The map is sorted by its keys and every entry of it is valid.
  pub record IsTable (t : Table W P) : Type 0 where
    pub sorted : IsSorted t
    pub entries : (l : String) (e : Entry W P) → find l t ≡ some e → IsValid d I e

  -- A valid table that shows `v`.
  pub record Shows (t : Table W P) (v : String → String → Option (W × Bool)) : Type 0 where
    pub valid : IsTable t
    pub shows : (l j : String) → view t l j ≡ v l j

module _ {W E P : Type 0} {d : Float W} (order : IsOrdered d) (p : Policy W E P)
    {I : List (Element W) → P → Type 0} (laws : IsPolicy d p I) where
  pub insert-Shows :
      (l : String) (e : Entry W P) (t : Table W P) (v : String → String → Option (W × Bool))
      → IsTable d I t
      → IsValid d I e
      → ((k j : String) → (if str_eq l k then seen j e else view t k j) ≡ v k j)
      → Shows d I (insert l e t) v
  insert-Shows l e t v i ok_e h = record {
    valid = record {
      sorted = insert-IsSorted l e t i.sorted;
      entries = λ k x q. ground (arith, find-insert l k e t, i.entries k x);
    };
    shows = λ k j. view-insert l k j e t ∙ h k j;
  }

  pub erase-Shows :
      (l : String) (t : Table W P) (v : String → String → Option (W × Bool))
      → IsTable d I t
      → ((k j : String) → (if str_eq l k then none else view t k j) ≡ v k j)
      → Shows d I (erase l t) v
  erase-Shows l t v i h = record {
    valid = record {
      sorted = erase-IsSorted l t i.sorted;
      entries = λ k x q. ground (arith, find-erase l k t, i.entries k x);
    };
    shows = λ k j. view-erase l k j t ∙ h k j;
  }

  pub or_new-IsValid :
      (o : Option (Entry W P))
      → ((e : Entry W P) → o ≡ some e → IsValid d I e)
      → IsValid d I (or_new d p o)
  or_new-IsValid none h = record { distinct = tt; stored = tt; related = laws.fresh_keeps }
  or_new-IsValid (some e) h = h e refl

  pub seen-or_new : (j : String) (o : Option (Entry W P)) → seen j (or_new d p o) ≡ seen_in j o
  unfolding find_dest
  seen-or_new j none = refl
  seen-or_new j (some e) = refl

  pub not_negative : (w : W) → d.le w d.nought ≡ false → d.lt w d.nought ≡ false
  not_negative w h = ground (arith, order.lt-eq-not-le w d.nought, order.le_total w d.nought)

  -- A change with a name and a positive weight sets the destination of that lambda, and no other.
  pub change-Shows :
      (env : E) (l dest : String) (w : W) (final : Bool) (t : Table W P)
      → IsTable d I t
      → (str_eq dest "" || d.le w d.nought) ≡ false
      → let r = change d p env l dest w final t in
        (r.0 ≡ ok tt)
        × Shows d I r.1 (λ k j. if str_eq l k && str_eq dest j then some (w, final) else view t k j)
  unfolding change
  change-Shows env l dest w final t i h =
      let e = entry_of d p l t in
      let good = or_new-IsValid (find l t) (λ e q. i.entries l e q) in
      let (done, valid, shows) = change-Changed d p laws env dest w final e good h in
      rw (not_negative w (ground arith)) (
        done,
        insert-Shows l _ t _ i valid
            (λ k j. ground (arith, shows j, seen-or_new j (find l t), str_eq_iff l k)),
      )

  -- A change without a name, or with a weight that is not positive, throws: the destinations, their
  -- weights and flags stay as they were. `lambdas` has the lambda afterwards, with or without
  -- destinations, unless the weight is negative.
  pub change_refused :
      (env : E) (l dest : String) (w : W) (final : Bool) (t : Table W P)
      → IsTable d I t
      → (str_eq dest "" || d.le w d.nought) ≡ true
      → let r = change d p env l dest w final t in
        (r.0 ≡ throws (if d.lt w d.nought then invalid_weight else invalid_destination))
        × Shows d I r.1 (view t)
        × ((k : String)
            → contains k (lambdas r.1)
              ≡ (contains k (lambdas t) || (not (d.lt w d.nought) && str_eq l k)))
  unfolding change Entry.change
  change_refused env l dest w final t i h = elim (Bool-cases (d.lt w d.nought)) [
    | inl negative ↦
        rw negative (refl, record { valid = i; shows = λ k j. refl }, λ k. ground arith)
    | inr other ↦
        rw (other, h)
          (
            refl,
            insert-Shows l _ t _ i (or_new-IsValid (find l t) (λ e q. i.entries l e q))
                (λ k j. ground (arith, seen-or_new j (find l t), str_eq_iff l k)),
            λ k.
                let e = (Entry.change d p env dest w final (entry_of d p l t)).1 in
                ground (
                  arith,
                  contains-lambdas k (insert l e t),
                  contains-lambdas k t,
                  find-insert l k e t,
                ),
          )
  ]
