-- ===== src/Routing/ProportionalFairness.antt =====
-- Edge/Entries/entryproportionalfairness.cpp: the destination with the greatest coefficient, which
-- weighs the last latency against the calls served. The time of the chronometer is the environment
-- of a call; `std::pow` is a parameter.
pub mod Choice
pub mod Laws
use serverlessonedge.Prelude.{
  ℕ, ◌+◌, String, Bool, ◌||◌, Option, none, some, List, [], ◌∷◌, if◌then◌else◌, Outcome, ok, throws,
  undefined, no_destinations, str_eq, ◌>>=◌,
}
use serverlessonedge.Prelude.Map.{Map, find, insert, erase, emplace}
use serverlessonedge.Prelude.Float.{Float}
use serverlessonedge.Routing.Entry.{Element, Policy}

-- `thePFstats`: the calls that a destination served and the time of the last one, or of its
-- arrival.
abbrev pub Stats : Type 0 → Type 0
Stats W = Map (ℕ × W)

module _ {W : Type 0} (d : Float W) (pow : W → W → W) (alpha beta : W) where
  unfoldable pub compute_weight : W → ℕ → W → W → W
  compute_weight latency served timestamp now =
      d.div (pow (d.div d.one latency) alpha)
        (pow (d.div (d.of_nat served) (d.sub now timestamp)) beta)

  -- The loop of `operator()`, with `ret` and `myMaxWeight`.
  unfoldable pub choose : W → Stats W → String → W → List (Element W) → Outcome String
  choose now s ret max [] = ok ret
  choose now s ret max (x ∷ xs) = elim (find x.destination s) [
    | none ↦ undefined
    | some (served, timestamp) ↦
        let current = compute_weight x.weight served timestamp now in
        let better = str_eq ret "" || d.lt max current in
        choose now s (if better then x.destination else ret) (if better then current else max) xs
  ]

  abbrev pub keep_stats : Stats W → Outcome String → Outcome (String × Stats W)
  keep_stats s (ok n) = ok (n, s)
  keep_stats s (throws x) = throws x
  keep_stats s undefined = undefined

  -- `operator()`
  unfoldable pub select : W → List (Element W) → Stats W → Outcome (String × Stats W)
  unfolding choose
  select now [] s = throws no_destinations
  select now (x ∷ xs) s = keep_stats s (choose now s "" d.nought (x ∷ xs))

  unfoldable pub update_weight : W → String → Stats W → Outcome (Stats W)
  update_weight now dest s = elim (find dest s) [
    | none ↦ undefined
    | some (served, timestamp) ↦ ok (insert dest (served + 1, now) s)
  ]

  unfoldable pub update_add_dest : W → String → Stats W → Outcome (Stats W)
  update_add_dest now dest s = ok (emplace dest (1, now) s)

  unfoldable pub update_del_dest : W → String → Stats W → Outcome (Stats W)
  update_del_dest now dest s = elim (find dest s) [ none ↦ undefined | some x ↦ ok (erase dest s) ]

  unfoldable pub proportional_fairness : Policy W W (Stats W)
  proportional_fairness = record {
    fresh = [];
    select = λ now ds s. select now ds s;
    update_weight = λ now ds dest old new s. update_weight now dest s;
    update_add_dest = λ now ds dest weight s. update_add_dest now dest s;
    update_del_dest = λ now ds dest weight s. update_del_dest now dest s;
  }
