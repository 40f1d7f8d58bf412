-- ===== src/Routing/PolicyTests.antt =====
-- Runs of the random and the proportional-fairness entries of Edge/Entries.
use serverlessonedge.Prelude.{
  ℕ, true, none, some, [], ◌∷◌, ok, ◌≡◌, refl, arith, str_eq, if◌then◌else◌, ◌&&◌, All, leb, false,
}
use serverlessonedge.Prelude.Float.{whole, whole-IsOrdered}
use serverlessonedge.Prelude.Map.{find}
use serverlessonedge.Routing.Entry.{Element, Policy, find_dest}
use serverlessonedge.Routing.Entry.Contract.{IsPolicy}
use serverlessonedge.Routing.ProportionalFairness.{
  Stats, proportional_fairness, select, compute_weight,
}
use serverlessonedge.Routing.ProportionalFairness.Choice.{Covers, coefficient}
use serverlessonedge.Routing.ProportionalFairness.Laws.{
  proportional_fairness-IsPolicy, proportional_fairness-IsClean, select_greatest,
}
use serverlessonedge.Routing.Table
use serverlessonedge.Routing.Table.{Table}
use serverlessonedge.Routing.Table.Laws.{view}
use serverlessonedge.Routing.Table.Refinement.{IsTable, Shows, change-Shows}
use serverlessonedge.Routing.Table.Removal.{remove_clean-Shows}

-- Whole numbers to the power 1.
abbrev pow : ℕ → ℕ → ℕ
pow x y = x

abbrev near : Element ℕ
near = record { destination = "host1:6473"; weight = 1; final = true }

abbrev far : Element ℕ
far = record { destination = "host2:6473"; weight = 1; final = false }

abbrev stats : Stats ℕ
stats = ("host1:6473", (12, 1)) ∷ ("host2:6473", (2, 1)) ∷ []

stats-Covers : Covers (near ∷ far ∷ []) stats
unfolding find find_dest
stats-Covers j = ground arith

far_is_chosen : select whole pow 1 1 3 (near ∷ far ∷ []) stats ≡ ok ("host2:6473", stats)
unfolding select find compute_weight
far_is_chosen = refl

select_greatest_example :
    (y : Element ℕ) × (select whole pow 1 1 3 (near ∷ far ∷ []) stats ≡ ok (y.destination, stats))
    × (find_dest y.destination (near ∷ far ∷ []) ≡ some y)
    × All
        (λ x.
          leb (coefficient whole pow 1 1 3 stats x) (coefficient whole pow 1 1 3 stats y) ≡ true)
        (near ∷ far ∷ [])
unfolding find_dest
select_greatest_example =
    select_greatest whole pow 1 1 whole-IsOrdered 3 (near ∷ far ∷ []) stats (refl, (refl, tt))
      ((refl, refl), ((refl, refl), tt)) stats-Covers (ground arith)

proportional_fairness-IsPolicy_example : IsPolicy whole (proportional_fairness whole pow 1 1) Covers
proportional_fairness-IsPolicy_example = proportional_fairness-IsPolicy whole pow 1 1

abbrev fair : Policy ℕ ℕ (Stats ℕ)
fair = proportional_fairness whole pow 1 1

abbrev empty_table : Table ℕ (Stats ℕ)
empty_table = []

empty_table-IsTable : IsTable whole Covers empty_table
unfolding find
empty_table-IsTable = record { sorted = tt; entries = λ l e h. ground arith }

abbrev one_row : Table ℕ (Stats ℕ)
one_row = (Table.change whole fair 7 "face" "host1:6473" 1 true empty_table).1

one_row-IsTable : IsTable whole Covers one_row
one_row-IsTable =
    (change-Shows whole-IsOrdered fair (proportional_fairness-IsPolicy whole pow 1 1) 7 "face"
      "host1:6473" 1 true empty_table empty_table-IsTable refl).1.valid

remove_clean-Shows_example :
    let r = Table.remove whole fair 9 "face" "host1:6473" one_row in
    (r.0 ≡ ok tt)
    × Shows whole Covers r.1
        (λ k j. if str_eq "face" k && str_eq "host1:6473" j then none else view one_row k j)
remove_clean-Shows_example =
    remove_clean-Shows whole-IsOrdered fair (proportional_fairness-IsPolicy whole pow 1 1)
      (proportional_fairness-IsClean whole pow 1 1) 9 "face" "host1:6473" one_row one_row-IsTable
