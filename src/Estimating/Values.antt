-- ===== src/Estimating/Values.antt =====
-- Edge/destinationtable.h: the values of an objective function at the destinations of a lambda.
use serverlessonedge.Prelude.{
  String, Bool, true, false, Option, none, some, [], ◌∷◌, if◌then◌else◌, is_some, Outcome, ok,
  throws, no_destinations, ◌≡◌, refl, arith, str_eq_iff, inl, inr, All, ap, sym, ◌⊎◌,
}
use serverlessonedge.Prelude.Map.{Map, find, insert, emplace, find-emplace}
use serverlessonedge.Prelude.Map.Sorted.{IsSorted, find-Above}
use serverlessonedge.Prelude.Float.{Float, IsOrdered}
use serverlessonedge.Estimating.DestinationTable.{Descriptors}

module _ {D W : Type 0} (objective : D → W × D) where
  -- The loop of `all`: the values, and the descriptors as the objective function leaves them.
  unfoldable pub all_from : Map D → Map W → Map W × Map D
  all_from [] ret = (ret, [])
  all_from ((k, x) ∷ m) ret =
      let (value, x') = objective x in
      let (ret', m') = all_from m (emplace k value ret) in (ret', (k, x') ∷ m')

  -- `all`
  unfoldable pub all : String → Descriptors D → Outcome (Map W) × Descriptors D
  unfolding all_from
  all l t = elim (find l t) [
    | none ↦ (throws no_destinations, t)
    | some m ↦ let (ret, m') = all_from m [] in (ok ret, insert l m' t)
  ]

  -- The loop of `best`, with `myMaxDest` and `myMaxRtt`.
  unfoldable pub best_from : (W → W → Bool) → Map D → String → W → (String × W) × Map D
  best_from less [] dest max = ((dest, max), [])
  best_from less ((k, x) ∷ m) dest max =
      let (value, x') = objective x in
      let better = less max value in
      let (ret, m') =
        best_from less m (if better then k else dest) (if better then value else max) in
      (ret, (k, x') ∷ m')

  -- `best`; `lowest` is the lowest value of a `float`.
  unfoldable pub best : Float W → W → String → Descriptors D → Outcome (String × W) × Descriptors D
  unfolding best_from
  best d lowest l t = elim (find l t) [
    | none ↦ (throws no_destinations, t)
    | some m ↦ let (ret, m') = best_from d.lt m "" lowest in (ok ret, insert l m' t)
  ]

  abbrev pub value_of : Option D → Option W
  value_of none = none
  value_of (some x) = some (objective x).0

  find-all_from :
      (k : String) (m : Map D) (ret : Map W)
      → IsSorted m
      → find k (all_from m ret).0
        ≡ (if is_some (find k ret) then find k ret else value_of (find k m))
  unfolding all_from find
  find-all_from k [] ret o = ground arith
  find-all_from k ((j, x) ∷ m) ret o = ground (
    arith,
    find-all_from k m (emplace j (objective x).0 ret) o.1,
    find-emplace j k (objective x).0 ret,
    find-Above j m o.0,
    str_eq_iff j k,
  )

  -- What `best` returns is at least the value of every destination and the value it starts from.
  best_from-le :
      {d : Float W} (laws : IsOrdered d) (m : Map D) (dest : String) (max : W)
      → let top = (best_from d.lt m dest max).0.1 in
        (d.le max top ≡ true) × All (λ e. d.le (objective e.1).0 top ≡ true) m
  unfolding best_from
  best_from-le laws [] dest max = (laws.le_refl max, tt)
  best_from-le {d = d} laws ((k, x) ∷ m) dest max =
      let value = (objective x).0 in
      let better = d.lt max value in
      let max' : W = if better then value else max in
      let (low, rest) = best_from-le laws m (if better then k else dest) max' in
      (
        laws.le_trans _ _ _
            (ground (arith, laws.lt-eq-not-le max value, laws.le_total max value, laws.le_refl max))
            low,
        (
          laws.le_trans _ _ _ (ground (arith, laws.lt-eq-not-le max value, laws.le_refl value)) low,
          rest,
        ),
      )

  -- What `best` returns is what it starts from, or a destination with its value.
  abbrev pub Attains : Map D → String × W → String × W → Type 0
  Attains m start r = (r ≡ start) ⊎ ((x : D) × (find r.0 m ≡ some x) × ((objective x).0 ≡ r.1))

  Attains-cons :
      (k : String) (x : D) (m : Map D) (better : Bool) (dest : String) (max : W) (r : String × W)
      → IsSorted ((k, x) ∷ m)
      → Attains m ((if better then k else dest), (if better then (objective x).0 else max)) r
      → Attains ((k, x) ∷ m) (dest, max) r
  unfolding find
  Attains-cons k x m true dest max r o (inl e) =
      inr (x, ground (arith, ap (λ p. p.0) e, str_eq_iff k r.0), sym (ap (λ p. p.1) e))
  Attains-cons k x m false dest max r o (inl e) = inl e
  Attains-cons k x m better dest max r o (inr (y, f, v)) =
      inr (y, ground (arith, f, find-Above k m o.0, str_eq_iff k r.0), v)

  best_from-Attains :
      (less : W → W → Bool) (m : Map D) (dest : String) (max : W)
      → IsSorted m
      → Attains m (dest, max) (best_from less m dest max).0
  unfolding best_from
  best_from-Attains less [] dest max o = inl refl
  best_from-Attains less ((k, x) ∷ m) dest max o =
      let better = less max (objective x).0 in
      Attains-cons k x m better dest max _ o (
        best_from-Attains less m (if better then k else dest)
          (if better then (objective x).0 else max) o.1)

  -- For a known lambda, `best` returns a destination with its value, which no destination of the
  -- lambda exceeds; it returns the empty name only if no value exceeds the lowest one.
  pub best_lem :
      {d : Float W} (laws : IsOrdered d) (lowest : W) (l : String) (t : Descriptors D) (m : Map D)
      → find l t ≡ some m
      → IsSorted m
      → (r : String × W) × ((best d lowest l t).0 ≡ ok r)
        × Attains m ("", lowest) r
        × All (λ e. d.le (objective e.1).0 r.1 ≡ true) m
  unfolding best
  best_lem {d = d} laws lowest l t m h o = (
    (best_from d.lt m "" lowest).0,
    rw (h, best) refl,
    best_from-Attains d.lt m "" lowest o,
    (best_from-le laws m "" lowest).1,
  )

  -- For a known lambda, `all` returns the value of each of its destinations, and no others.
  pub all_lem :
      (l : String) (t : Descriptors D) (m : Map D)
      → find l t ≡ some m
      → IsSorted m
      → (ret : Map W) × ((all l t).0 ≡ ok ret) × ((k : String) → find k ret ≡ value_of (find k m))
  unfolding all find
  all_lem l t m h o =
      ((all_from m []).0, rw (h, all) refl, λ k. ground (arith, find-all_from k m [] o))
