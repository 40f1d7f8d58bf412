-- ===== src/Routing/LeastImpedance.antt =====
-- Edge/Entries/entryleastimpedance.cpp: always the destination with the smallest weight. An
-- iterator into `theDestinations` is the name of its element, `none` for `end()`; names are
-- distinct and never change. Reading through the iterator of an erased element is undefined.
pub mod Laws
pub mod Removal
pub mod Runs
use serverlessonedge.Prelude.{
  String, Bool, true, false, ◌||◌, Option, none, some, List, [], ◌∷◌, if◌then◌else◌, Outcome, ok,
  throws, undefined, no_destinations, ◌>>=◌,
}
use serverlessonedge.Prelude.Float.{Float}
use serverlessonedge.Routing.Entry.{Element, Policy, find_dest}

module _ {W : Type 0} (d : Float W) where
  -- The loop of `std::min_element`: the first of the smallest.
  unfoldable pub smallest : Element W → List (Element W) → Element W
  smallest best [] = best
  smallest best (x ∷ xs) = smallest (if d.lt x.weight best.weight then x else best) xs

  -- `update()`
  unfoldable pub update : List (Element W) → Option String
  unfolding smallest
  update [] = none
  update (x ∷ xs) = some (smallest x xs).destination

  -- `theMinElement->theWeight`
  unfoldable pub min_weight : List (Element W) → Option String → Outcome W
  min_weight ds none = undefined
  min_weight ds (some m) = elim (find_dest m ds) [ some x ↦ ok x.weight | none ↦ undefined ]

  -- `operator()`
  unfoldable pub select : List (Element W) → Option String → Outcome (String × Option String)
  select [] m = throws no_destinations
  select (x ∷ xs) none = undefined
  select (x ∷ xs) (some m) = elim (find_dest m (x ∷ xs)) [
    | some y ↦ ok (y.destination, some m)
    | none ↦ undefined
  ]

  unfoldable pub update_weight :
      List (Element W) → String → W → W → Option String → Outcome (Option String)
  unfolding min_weight update
  update_weight ds dest old new m = do
    w ← min_weight ds m
    ok (if d.le new w || d.eq old w then update ds else m)

  unfoldable pub update_add_dest :
      List (Element W) → String → W → Option String → Outcome (Option String)
  unfolding min_weight update
  update_add_dest [] dest weight none = undefined
  update_add_dest (x ∷ xs) dest weight none = ok (some x.destination)
  update_add_dest ds dest weight (some m) = do
    w ← min_weight ds (some m)
    ok (if d.lt weight w then update ds else some m)

  unfoldable pub update_del_dest :
      List (Element W) → String → W → Option String → Outcome (Option String)
  unfolding min_weight update
  update_del_dest ds dest weight m = do
    w ← min_weight ds m
    ok (if d.eq w weight then update ds else m)

  unfoldable pub least_impedance : {E : Type 0} → Policy W E (Option String)
  least_impedance = record {
    fresh = none;
    select = λ env ds m. select ds m;
    update_weight = λ env ds dest old new m. update_weight ds dest old new m;
    update_add_dest = λ env ds dest weight m. update_add_dest ds dest weight m;
    update_del_dest = λ env ds dest weight m. update_del_dest ds dest weight m;
  }
