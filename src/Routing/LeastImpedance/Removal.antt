-- ===== src/Routing/LeastImpedance/Removal.antt =====
-- Edge/Entries/entryleastimpedance.cpp: what happens when the destination in use goes away.
use serverlessonedge.Prelude.{
  String, Option, none, some, List, [], ◌∷◌, Outcome, ok, throws, undefined, ◌≡◌, refl, arith,
  str_eq_iff, Bool, Option-cases, inl, inr,
}
use mathlib.Core.Path.{subst}
use serverlessonedge.Prelude.Float.{Float, IsOrdered}
use serverlessonedge.Prelude.Map.{find, find-insert, insert, str_eq_refl}
use serverlessonedge.Routing.Entry.{Element, Entry, find_dest, erase_dest}
use serverlessonedge.Routing.Entry
use serverlessonedge.Routing.Entry.Laws.{find_dest-erase_dest, find_dest-name}
use serverlessonedge.Routing.Entry.Contract.{IsValid}
use serverlessonedge.Routing.LeastImpedance.{update_del_dest, select, least_impedance}
use serverlessonedge.Routing.LeastImpedance.Laws.{IsLeast, nothing, lightest, min_weight-gone}
use serverlessonedge.Routing.Table
use serverlessonedge.Routing.Table.{Table}
use serverlessonedge.Routing.Table.Refinement.{IsTable}

module _ {W : Type 0} {d : Float W} where
  -- A call returns the name that `theMinElement` holds, and keeps it.
  select-state :
      (ds : List (Element W)) (m : Option String) (r : String × Option String)
      → IsLeast d ds m
      → select d ds m ≡ ok r
      → (m ≡ some r.0) × (r.1 ≡ some r.0)
  unfolding select
  select-state [] m r l h = cc
  select-state (x ∷ xs) m r (nothing q n) h = cc
  select-state (x ∷ xs) m r (lightest n y q p a) h =
      let named : y.destination ≡ n = find_dest-name n y (x ∷ xs) p in ground arith

module _ {W : Type 0} (d : Float W) where
  removed_undefined :
      (E : Type 0) (l : String) (t : Table W (Option String))
      (r : Outcome Bool × Entry W (Option String))
      → r.0 ≡ undefined
      → (Table.after_remove d (least_impedance d {E = E}) l t r).0 ≡ undefined
  removed_undefined E l t (ok b, e) h = cc
  removed_undefined E l t (throws x, e) h = cc
  removed_undefined E l t (undefined, e) h = refl

module _ {W E : Type 0} {d : Float W} (order : IsOrdered d) where
  -- `updateDelDest` reads the weight through `theMinElement` after the base class has erased the
  -- element, so removing the destination that `theMinElement` points to is undefined.
  entry_remove_undefined :
      (env : E) (dest : String) (e : Entry W (Option String))
      → IsValid d (IsLeast d) e
      → e.state ≡ some dest
      → (Entry.remove d (least_impedance d) env dest e).0 ≡ undefined
  unfolding Entry.remove least_impedance update_del_dest
  entry_remove_undefined env dest e v h = gone v.related
    where
      gone :
          IsLeast d e.destinations e.state
          → (Entry.remove d (least_impedance d) env dest e).0 ≡ undefined
      gone (nothing q n) = cc
      gone (lightest n y q p a) =
          let same : n ≡ dest = ground arith in
          let found : find_dest dest e.destinations ≡ some y = cc in
          rw (
            found,
            Entry.remove,
            min_weight-gone order dest (erase_dest dest e.destinations) e.state h (
                ground (
                  arith,
                  find_dest-erase_dest dest dest e.destinations v.distinct,
                  str_eq_iff dest dest,
                )),
          )

  -- The state of the entry that a call leaves behind.
  selected_state :
      (env : E) (l dest : String) (t : Table W (Option String)) (e : Entry W (Option String))
      → IsValid d (IsLeast d) e
      → find l t ≡ some e
      → (Table.select d (least_impedance d) env l t).0 ≡ ok dest
      → (e.state ≡ some dest)
        × ((Table.select d (least_impedance d) env l t).1
            ≡ insert l (record e { state = some dest }) t)
  unfolding Table.select least_impedance
  selected_state env l dest t e v q h =
      rw (q, Table.select) (go (select d e.destinations e.state) refl (rw (q, Table.select) at h))
    where
      go :
          (r : Outcome (String × Option String))
          → select d e.destinations e.state ≡ r
          → (Table.after_select d (least_impedance d {E = E}) l e t r).0 ≡ ok dest
          → (e.state ≡ some dest)
            × ((Table.after_select d (least_impedance d {E = E}) l e t r).1
                ≡ insert l (record e { state = some dest }) t)
      go (ok r) s g = ground (arith, select-state e.destinations e.state r v.related s)
      go (throws x) s g = cc
      go undefined s g = cc

  select_absent :
      (env : E) (l dest : String) (t : Table W (Option String))
      → find l t ≡ none
      → (Table.select d (least_impedance d) env l t).0 ≡ ok dest
      → ⊥
  unfolding Table.select
  select_absent env l dest t q h = ground arith

  -- In a table of the least-impedance type, removing the destination that a call has just
  -- returned, from the lambda that was called, is undefined behaviour: whatever the table.
  pub remove_selected_undefined :
      (env later : E) (l dest : String) (t : Table W (Option String))
      → IsTable d (IsLeast d) t
      → (Table.select d (least_impedance d) env l t).0 ≡ ok dest
      → (Table.remove d
          (least_impedance d)
          later
          l
          dest
          (Table.select d (least_impedance d) env l t).1).0
        ≡ undefined
  unfolding Table.remove
  remove_selected_undefined env later l dest t i h = elim (Option-cases (find l t)) [
    | inl absent ↦ absurd (select_absent env l dest t absent h)
    | inr (e, present) ↦
        let v = i.entries l e present in
        let (held, left) = selected_state env l dest t e v present h in
        let e' = record e { state = some dest } in
        let v' : IsValid d (IsLeast d) e' = record {
          distinct = v.distinct;
          stored = v.stored;
          related = subst (IsLeast d e.destinations) held v.related;
        } in
        rw (left, Table.remove, find-insert l l e' t, str_eq_refl l)
          (removed_undefined d E l _ _ (entry_remove_undefined later dest e' v' refl))
  ]
