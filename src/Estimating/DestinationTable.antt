-- ===== src/Estimating/DestinationTable.antt =====
-- Edge/destinationtable.h: a table of descriptors by lambda and destination. The function that
-- makes a descriptor and the objective functions are arguments, as in the source; an objective
-- function may change the descriptor that it reads.
use serverlessonedge.Prelude.{
  String, Bool, true, false, not, ◌&&◌, Option, none, some, [], ◌∷◌, if◌then◌else◌, is_some,
  Outcome, ok, throws, invalid_destination, ◌≡◌, refl, arith, str_eq, str_eq_iff,
}
use serverlessonedge.Prelude.Map.{
  Map, find, insert, erase, emplace, find-insert, find-erase, find-emplace,
}

abbrev pub Descriptors : Type 0 → Type 0
Descriptors D = Map (Map D)

module _ {D : Type 0} where
  -- The destinations of a lambda, none if it is unknown.
  abbrev pub row : String → Descriptors D → Map D
  row l t = elim (find l t) [ none ↦ [] | some m ↦ m ]

  -- `find`
  unfoldable pub find_descriptor : String → String → Descriptors D → Outcome D
  find_descriptor l dest t = elim (find dest (row l t)) [
    | none ↦ throws invalid_destination
    | some x ↦ ok x
  ]

  -- `add`
  unfoldable pub add :
      (String → String → D) → String → String → Descriptors D → Bool × Descriptors D
  add make l dest t =
      let t1 = emplace l [] t in
      if is_some (find dest (row l t1))
      then (false, t1)
      else (true, insert l (insert dest (make l dest) (row l t1)) t1)

  abbrev pub is_empty : Map D → Bool
  is_empty [] = true
  is_empty (x ∷ xs) = false

  -- `remove`
  unfoldable pub remove : String → String → Descriptors D → Bool × Descriptors D
  remove l dest t = elim (find l t) [
    | none ↦ (false, t)
    | some m ↦
        let rest = erase dest m in
        if is_some (find dest m)
        then (true, (if is_empty rest then erase l t else insert l rest t))
        else (false, t)
  ]

  -- The descriptor of a lambda at a destination.
  abbrev pub view : Descriptors D → String → String → Option D
  view t l dest = find dest (row l t)

  -- Adding a lambda at a destination makes a descriptor if there is none, and answers whether it
  -- did; every other descriptor stays.
  pub add_lem :
      (make : String → String → D) (l dest : String) (t : Descriptors D)
      → ((add make l dest t).0 ≡ not (is_some (view t l dest)))
        × ((k j : String)
            → view (add make l dest t).1 k j ≡ (
                if str_eq l k && str_eq dest j && not (is_some (view t l dest))
                then some (make l dest)
                else view t k j))
  unfolding add find
  add_lem make l dest t =
      let t1 = emplace l [] t in
      (
        ground (arith, find-emplace l l [] t, str_eq_iff l l),
        λ k j. ground (
          arith,
          find-emplace l l [] t,
          find-emplace l k [] t,
          find-insert l k (insert dest (make l dest) (row l t1)) t1,
          find-insert dest j (make l dest) (row l t1),
          str_eq_iff l k,
          str_eq_iff l l,
          str_eq_iff dest j,
        ),
      )

  find-is_empty : (k : String) (m : Map D) → is_empty m ≡ true → find k m ≡ none
  unfolding find
  find-is_empty k [] h = refl
  find-is_empty k (x ∷ m) h = ground arith

  -- Removing a lambda at a destination removes its descriptor and answers whether there was one;
  -- every other descriptor stays.
  pub remove_lem :
      (l dest : String) (t : Descriptors D)
      → ((remove l dest t).0 ≡ is_some (view t l dest))
        × ((k j : String)
            → view (remove l dest t).1 k j
              ≡ (if str_eq l k && str_eq dest j then none else view t k j))
  unfolding remove find
  remove_lem l dest t =
      let rest = erase dest (row l t) in
      (
        ground arith,
        λ k j. ground (
          arith,
          find-erase l k t,
          find-insert l k rest t,
          find-erase dest j (row l t),
          find-is_empty j rest,
          str_eq_iff l k,
          str_eq_iff dest j,
        ),
      )
