-- ===== src/Estimating/Tests.antt =====
-- Runs of the table of Edge/destinationtable.h.
use serverlessonedge.Estimating.Utilization.{least, Below, IsMet, least_lem}
use serverlessonedge.Prelude.{ℕ, ◌+◌, String, true, [], ◌∷◌, ◌≡◌, refl, ok, All, leb, ◌⊎◌}
use serverlessonedge.Prelude.Map.{Map, find}
use serverlessonedge.Prelude.Float.{whole, whole-IsOrdered}
use serverlessonedge.Estimating.DestinationTable.{Descriptors}
use serverlessonedge.Estimating.Values.{best, Attains, best_lem}

-- A descriptor is a number, and the objective function reads it and counts the read.
abbrev make : String → String → ℕ
make l dest = 1

abbrev reads : ℕ → ℕ × ℕ
reads n = (n, n + 1)

abbrev rows : Map ℕ
rows = ("host1:6473", 5) ∷ ("host2:6473", 8) ∷ []

abbrev table : Descriptors ℕ
table = ("face", rows) ∷ []

best_is_second : (best reads whole 0 "face" table).0 ≡ ok ("host2:6473", 8)
unfolding best find
best_is_second = refl

best_lem_example :
    (r : String × ℕ) × ((best reads whole 0 "face" table).0 ≡ ok r)
    × Attains reads rows ("", 0) r
    × All (λ e. leb (reads e.1).0 r.1 ≡ true) rows
unfolding find
best_lem_example = best_lem reads whole-IsOrdered 0 "face" table rows refl ((refl, tt), (tt, tt))

abbrev near_and_far : Map ℕ
near_and_far = ("host1:6473", 2) ∷ ("host2:6473", 1) ∷ []

least_lem_example :
    let e = least whole 100 rows near_and_far in
    ((e ≡ record { dest = ""; rtt = 0; ptime = 0 }) × Below whole 100 near_and_far rows)
    ⊎ (IsMet e near_and_far rows × Below whole (e.rtt + e.ptime) near_and_far rows)
least_lem_example = least_lem whole-IsOrdered 100 rows near_and_far
