-- ===== src/Routing/Table/Laws.antt =====
-- The view of a forwarding table that its clients have: weight and final flag by lambda and
-- destination. Edge/forwardingtable.cpp refines the operations on that view.
use serverlessonedge.Prelude.{
  String, Bool, ◌&&◌, Option, none, some, [], ◌∷◌, str_eq, str_eq_iff, if◌then◌else◌, ◌≡◌, refl,
  arith, is_some, Option-cases, inl, inr,
}
use serverlessonedge.Prelude.Map.{
  Map, find, insert, erase, find-insert, find-erase, contains, find-nil,
}
use serverlessonedge.Prelude.Map.Sorted.{IsSorted, find-Above}
use serverlessonedge.Routing.Entry.{Entry, destinations as entry_destinations}
use serverlessonedge.Routing.Entry.Laws.{find-destinations, destinations-IsSorted}
use serverlessonedge.Routing.Entry.Invariant.{seen}
use serverlessonedge.Routing.Table.{
  Table, row, put_all, full_from, full_table, lambdas, destinations,
}

module _ {W P : Type 0} where
  abbrev pub seen_in : String → Option (Entry W P) → Option (W × Bool)
  seen_in j none = none
  seen_in j (some e) = seen j e

  -- The weight and the final flag of the destination `j` of the lambda `l`.
  abbrev pub view : Table W P → String → String → Option (W × Bool)
  view t l j = seen_in j (find l t)

  pub view-insert :
      (l k j : String) (e : Entry W P) (t : Table W P)
      → view (insert l e t) k j ≡ (if str_eq l k then seen j e else view t k j)
  view-insert l k j e t = ground (arith, find-insert l k e t)

  pub view-erase :
      (l k j : String) (t : Table W P)
      → view (erase l t) k j ≡ (if str_eq l k then none else view t k j)
  view-erase l k j t = ground (arith, find-erase l k t)

  -- `lambdas()` has the names of the entries.
  pub contains-lambdas : (l : String) (t : Table W P) → contains l (lambdas t) ≡ is_some (find l t)
  unfolding lambdas find
  contains-lambdas l [] = refl
  contains-lambdas l ((k, e) ∷ t) =
      ground (arith, contains-lambdas l t, find-insert k l tt (lambdas t))

  -- `destinations()` shows the view of its lambda.
  pub find-destinations_view :
      (l j : String) (t : Table W P) → find j (destinations l t) ≡ view t l j
  unfolding destinations
  find-destinations_view l j t = elim (Option-cases (find l t)) [
    | inl absent ↦ rw (absent, destinations) (find-nil j)
    | inr (e, present) ↦ rw (present, destinations) (find-destinations j e)
  ]

module _ {W : Type 0} where
  find-row-insert :
      (l k j : String) (r : Map (W × Bool)) (m : Map (Map (W × Bool)))
      → find j (row k (insert l r m)) ≡ (if str_eq l k then find j r else find j (row k m))
  find-row-insert l k j r m = ground (arith, find-insert l k r m)

  find-row-put_all :
      (l k j : String) (ds : Map (W × Bool)) (m : Map (Map (W × Bool)))
      → IsSorted ds
      → find j (row k (put_all l ds m))
        ≡ (if str_eq l k && is_some (find j ds) then find j ds else find j (row k m))
  unfolding put_all find
  find-row-put_all l k j [] m s = ground arith
  find-row-put_all l k j ((dest, v) ∷ ds) m s =
      let m' = insert l (insert dest v (row l m)) m in
      ground (
        arith,
        find-row-put_all l k j ds m' s.1,
        find-row-insert l k j (insert dest v (row l m)) m,
        find-insert dest j v (row l m),
        find-Above dest ds s.0,
        str_eq_iff dest j,
        str_eq_iff l k,
      )

module _ {W P : Type 0} where
  find-row-full_from :
      (l j : String) (m : Map (Map (W × Bool))) (t : Table W P)
      → IsSorted t
      → find j (row l (full_from m t))
        ≡ (if is_some (view t l j) then view t l j else find j (row l m))
  unfolding full_from find
  find-row-full_from l j m [] s = refl
  find-row-full_from l j m ((k, e) ∷ t) s = ground (
    arith,
    find-row-full_from l j (put_all k (entry_destinations e) m) t s.1,
    find-row-put_all k l j (entry_destinations e) m (destinations-IsSorted e),
    find-destinations j e,
    find-Above k t s.0,
    str_eq_iff k l,
  )

  -- `fullTable()` is the view.
  pub full_table_lem :
      (t : Table W P) → IsSorted t → (l j : String) → find j (row l (full_table t)) ≡ view t l j
  unfolding full_table find
  full_table_lem t s l j = ground (arith, find-row-full_from l j [] t s)
