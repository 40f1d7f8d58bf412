-- ===== src/Routing/Tests.antt =====
-- Runs of the forwarding table and the theorems at concrete tables.
use serverlessonedge.Prelude.{
  ℕ, String, true, Option, some, List, [], ◌∷◌, ok, throws, undefined, ◌≡◌, refl, arith, is_some,
  Returns, invalid_destination, str_eq, if◌then◌else◌, ◌&&◌, ◌||◌,
}
use serverlessonedge.Prelude.Float.{whole, whole-IsOrdered}
use serverlessonedge.Prelude.Map.{find, insert, contains}
use serverlessonedge.Routing.Entry.{
  Element, Entry, Policy, change, change_weight, remove, find_dest, set_dest, erase_dest, collect,
  destinations as entry_destinations,
}
use serverlessonedge.Routing.Entry
use serverlessonedge.Routing.Entry.Contract.{IsPolicy}
use serverlessonedge.Routing.LeastImpedance.{
  least_impedance, select, min_weight, update, update_weight, update_add_dest, update_del_dest,
}
use serverlessonedge.Routing.LeastImpedance.Laws.{IsLeast, least_impedance-IsPolicy}
use serverlessonedge.Routing.LeastImpedance.Removal.{remove_selected_undefined}
use serverlessonedge.Routing.LeastImpedance.Runs.{SelectsLightest, run-SelectsLightest}
use serverlessonedge.Routing.Entry.Runs.{
  Op, changes, changes_weight, removes, run, apply, fresh, Leaves,
}
use serverlessonedge.Routing.Table
use serverlessonedge.Routing.Table.{Table, row}
use serverlessonedge.Routing.Table.Laws.{view}
use serverlessonedge.Routing.Table.Refinement.{IsTable, Shows, change-Shows, change_refused}
use serverlessonedge.Routing.Table.Updates.{change_weight-Shows, select-Shows}

abbrev policy : Policy ℕ (Unit {0}) (Option String)
policy = least_impedance whole

laws : IsPolicy whole policy (IsLeast whole)
laws = least_impedance-IsPolicy whole-IsOrdered

abbrev add : String → String → ℕ → Table ℕ (Option String) → Table ℕ (Option String)
add l dest w t = (Table.change whole policy tt l dest w true t).1

abbrev start : Table ℕ (Option String)
start = []

start-IsTable : IsTable whole (IsLeast whole) start
unfolding find
start-IsTable = record { sorted = tt; entries = λ l e h. ground arith }

abbrev table_one : Table ℕ (Option String)
table_one = add "face" "host1:6473" 5 start

abbrev table_two : Table ℕ (Option String)
table_two = add "face" "host2:6473" 3 table_one

table_two_picks : (Table.select whole policy tt "face" table_two).0 ≡ ok "host2:6473"
unfolding Table.change Table.select Entry.change least_impedance find insert find_dest set_dest
    select update_weight update_add_dest
table_two_picks = refl

change-Shows_example :
    let r = Table.change whole policy tt "face" "host1:6473" 5 true start in
    (r.0 ≡ ok tt)
    × Shows whole
        (IsLeast whole)
        r.1
        (λ k j. if str_eq "face" k && str_eq "host1:6473" j then some (5, true) else view start k j)
change-Shows_example =
    change-Shows whole-IsOrdered policy laws tt "face" "host1:6473" 5 true start start-IsTable refl

table_one-IsTable : IsTable whole (IsLeast whole) table_one
table_one-IsTable = change-Shows_example_valid
  where
    change-Shows_example_valid : IsTable whole (IsLeast whole) table_one
    change-Shows_example_valid =
        (change-Shows whole-IsOrdered policy laws tt "face" "host1:6473" 5 true start start-IsTable
          refl).1.valid

table_two-IsTable : IsTable whole (IsLeast whole) table_two
table_two-IsTable =
    (change-Shows whole-IsOrdered policy laws tt "face" "host2:6473" 3 true table_one
      table_one-IsTable refl).1.valid

change_refused_example :
    let r = Table.change whole policy tt "eyes" "" 5 true table_one in
    (r.0 ≡ throws invalid_destination)
    × Shows whole (IsLeast whole) r.1 (view table_one)
    × ((k : String)
        → contains k (Table.lambdas r.1)
          ≡ (contains k (Table.lambdas table_one) || (true && str_eq "eyes" k)))
change_refused_example =
    change_refused whole-IsOrdered policy laws tt "eyes" "" 5 true table_one table_one-IsTable refl

table_one-view : view table_one "face" "host1:6473" ≡ some (5, true)
unfolding Table.change Entry.change least_impedance find insert find_dest update_add_dest
table_one-view = refl

change_weight-Shows_example :
    let r = Table.change_weight whole policy tt "face" "host1:6473" 9 table_one in
    (r.0 ≡ ok tt)
    × Shows whole (IsLeast whole) r.1 (λ k j.
      if str_eq "face" k && str_eq "host1:6473" j then some (9, true) else view table_one k j)
change_weight-Shows_example =
    change_weight-Shows whole-IsOrdered policy laws tt "face" "host1:6473" 5 9 true table_one
      table_one-IsTable table_one-view refl refl

-- The removal of a destination that is not in use is defined.
remove_other : (Table.remove whole policy tt "face" "host1:6473" table_two).0 ≡ ok tt
unfolding Table.change Table.remove Entry.change Entry.remove least_impedance find insert find_dest
    set_dest erase_dest update_del_dest update_add_dest
remove_other = refl

select-Shows_example :
    let r = Table.select whole policy tt "face" table_one in
    Returns (λ dest. is_some (view table_one "face" dest) ≡ true) r.0
    × Shows whole (IsLeast whole) r.1 (view table_one)
select-Shows_example =
    select-Shows whole-IsOrdered policy laws tt "face" "host1:6473" table_one table_one-IsTable seen
  where
    seen : is_some (view table_one "face" "host1:6473") ≡ true
    seen = cc table_one-view

remove_selected_undefined_example :
    (Table.remove whole policy tt "face" "host2:6473"
      (Table.select whole policy tt "face" table_two).1).0
    ≡ undefined
remove_selected_undefined_example =
    remove_selected_undefined whole-IsOrdered tt tt "face" "host2:6473" table_two table_two-IsTable
      table_two_picks

-- A lighter destination is added, becomes heavier, and one is removed.
abbrev ops : List (Op ℕ (Unit {0}))
ops =
    changes tt "host1:6473" 5 true
    ∷ changes tt "host2:6473" 3 true
    ∷ changes tt "" 1 true
    ∷ changes tt "host3:6473" 9 true
    ∷ changes_weight tt "host2:6473" 7
    ∷ removes tt "host3:6473"
    ∷ []

abbrev after_ops : Entry ℕ (Option String)
after_ops = record {
  destinations =
      record { destination = "host1:6473"; weight = 5; final = true }
      ∷ record { destination = "host2:6473"; weight = 7; final = true }
      ∷ [];
  state = some "host1:6473";
}

run-ops : run whole policy ops (fresh whole policy) ≡ some after_ops
unfolding run apply change change_weight remove least_impedance find_dest set_dest erase_dest
    update_weight update_add_dest update_del_dest min_weight update
run-ops = refl

run-SelectsLightest_example :
    Leaves (SelectsLightest whole) true (run whole policy ops (fresh whole policy))
run-SelectsLightest_example = run-SelectsLightest whole-IsOrdered ops
