-- ===== src/Routing/Entry.antt =====
-- Edge/Entries/entry.{h,cpp}: the base class of the entries. Its pure virtual functions are the
-- interface `Policy`; what they read of clocks and random numbers is the argument `env`.
pub mod Laws
pub mod Contract
pub mod Invariant
pub mod Runs
use serverlessonedge.Prelude.{
  String, Bool, true, false, ◌||◌, Option, none, some, List, [], ◌∷◌, ◌++◌, str_eq, if◌then◌else◌,
  Outcome, ok, throws, undefined, no_destinations, invalid_destination,
}
use serverlessonedge.Prelude.Map.{Map, emplace}
use serverlessonedge.Prelude.Float.{Float}

pub record Element (W : Type 0) : Type 0 where
  pub destination : String
  pub weight : W
  pub final : Bool

-- `W` is the type of the weights, `E` that of what a call reads of its environment, `P` that of
-- the state that the derived class adds.
pub record Policy (W E P : Type 0) : Type 0 where
  pub fresh : P
  pub select : E → List (Element W) → P → Outcome (String × P)
  pub update_weight : E → List (Element W) → String → W → W → P → Outcome P
  pub update_add_dest : E → List (Element W) → String → W → P → Outcome P
  pub update_del_dest : E → List (Element W) → String → W → P → Outcome P

pub record Entry (W P : Type 0) : Type 0 where
  pub destinations : List (Element W)
  pub state : P

module _ {W : Type 0} where
  -- `std::find_if` by the name of the destination.
  unfoldable pub find_dest : String → List (Element W) → Option (Element W)
  find_dest d [] = none
  find_dest d (x ∷ xs) = if str_eq x.destination d then some x else find_dest d xs

  -- `*it = …` at the element that `find_if` found.
  unfoldable pub set_dest : String → (Element W → Element W) → List (Element W) → List (Element W)
  set_dest d f [] = []
  set_dest d f (x ∷ xs) =
      let rest = x ∷ set_dest d f xs in if str_eq x.destination d then f x ∷ xs else rest

  -- `erase(it)` at that element.
  unfoldable pub erase_dest : String → List (Element W) → List (Element W)
  erase_dest d [] = []
  erase_dest d (x ∷ xs) =
      let rest = x ∷ erase_dest d xs in if str_eq x.destination d then xs else rest

  unfoldable pub collect : Map (W × Bool) → List (Element W) → Map (W × Bool)
  collect m [] = m
  collect m (x ∷ xs) = collect (emplace x.destination (x.weight, x.final) m) xs

  unfoldable pub destinations : {P : Type 0} → Entry W P → Map (W × Bool)
  destinations e = collect [] e.destinations

module _ {W E P : Type 0} (d : Float W) (p : Policy W E P) where
  -- The elements after the list was changed, and what the virtual call answered.
  abbrev pub settle : List (Element W) → P → Outcome P → Outcome (Unit {0}) × Entry W P
  settle ds s (ok s') = (ok tt, record { destinations = ds; state = s' })
  settle ds s (throws x) = (throws x, record { destinations = ds; state = s })
  settle ds s undefined = (undefined, record { destinations = ds; state = s })

  -- `change(aDest, aWeight, aFinal)`
  unfoldable pub change : E → String → W → Bool → Entry W P → Outcome (Unit {0}) × Entry W P
  change env dest weight final e =
      if str_eq dest "" || d.le weight d.nought
      then (throws invalid_destination, e)
      else (elim (find_dest dest e.destinations) [
        | some old ↦
            let ds =
              set_dest dest (λ x. record x { weight = weight; final = final }) e.destinations in
            settle ds e.state (p.update_weight env ds dest old.weight weight e.state)
        | none ↦
            let ds =
              e.destinations
              ++ (record { destination = dest; weight = weight; final = final } ∷ []) in
            settle ds e.state (p.update_add_dest env ds dest weight e.state)
      ])

  -- `change(aDest, aWeight)`
  unfoldable pub change_weight : E → String → W → Entry W P → Outcome (Unit {0}) × Entry W P
  change_weight env dest weight e =
      if str_eq dest ""
      then (throws no_destinations, e)
      else if d.le weight d.nought
      then (throws invalid_destination, e)
      else (elim (find_dest dest e.destinations) [
        | some old ↦
            let ds = set_dest dest (λ x. record x { weight = weight }) e.destinations in
            settle ds e.state (p.update_weight env ds dest old.weight weight e.state)
        | none ↦ (throws no_destinations, e)
      ])

  unfoldable pub weight : String → Entry W P → Outcome W
  weight dest e =
      if str_eq dest "" then throws no_destinations else (elim (find_dest dest e.destinations) [
        | some x ↦ ok x.weight
        | none ↦ throws no_destinations
      ])

  abbrev pub removed : List (Element W) → P → Outcome P → Outcome Bool × Entry W P
  removed ds s (ok s') = (ok true, record { destinations = ds; state = s' })
  removed ds s (throws x) = (throws x, record { destinations = ds; state = s })
  removed ds s undefined = (undefined, record { destinations = ds; state = s })

  unfoldable pub remove : E → String → Entry W P → Outcome Bool × Entry W P
  remove env dest e = elim (find_dest dest e.destinations) [
    | some x ↦
        let ds = erase_dest dest e.destinations in
        removed ds e.state (p.update_del_dest env ds x.destination x.weight e.state)
    | none ↦ (ok false, e)
  ]
