-- ===== src/Routing/Table.antt =====
-- Edge/forwardingtable.{h,cpp}: the table of the destinations of each lambda function. All the
-- entries of a table have one type, `theType`: it is the policy `p`. The mutex makes each call
-- atomic. A call that throws leaves what it had written, so the table comes back beside the error.
pub mod Laws
pub mod Refinement
pub mod Updates
pub mod Removal
use serverlessonedge.Prelude.{
  String, Bool, true, false, ◌||◌, Option, none, some, List, [], ◌∷◌, str_eq, if◌then◌else◌,
  Outcome, ok, throws, undefined, no_destinations, invalid_destination, invalid_weight,
  invalid_weight_factor, invalid_type, is_some, ◌>>=◌,
}
use serverlessonedge.Prelude.Map.{Map, StringSet, find, insert, erase, keys, add}
use serverlessonedge.Prelude.Float.{Float}
use serverlessonedge.Routing.Entry
use serverlessonedge.Routing.Entry.{Element, Entry, Policy, destinations as entry_destinations}

-- `enum class Type`
pub data TableType : Type 0 where
  random least_impedance round_robin proportional_fairness : TableType

unfoldable pub to_string : TableType → String
to_string random = "random"
to_string least_impedance = "least-impedance"
to_string round_robin = "round-robin"
to_string proportional_fairness = "proportional-fairness"

-- `forwardingTableTypeFromString`, as it is built without assertions: the last branch returns.
unfoldable pub type_from_string : String → Outcome TableType
type_from_string s =
    if str_eq s "random"
    then ok random
    else if str_eq s "least-impedance"
    then ok least_impedance
    else if str_eq s "round-robin"
    then ok round_robin
    else ok proportional_fairness

abbrev pub Table : Type 0 → Type 0 → Type 0
Table W P = Map (Entry W P)

module _ {W : Type 0} where
  -- `myRet[lambda][dest] = …` for one lambda.
  abbrev pub row : String → Map (Map (W × Bool)) → Map (W × Bool)
  row lambda m = elim (find lambda m) [ some r ↦ r | none ↦ [] ]

  unfoldable pub put_all : String → Map (W × Bool) → Map (Map (W × Bool)) → Map (Map (W × Bool))
  put_all lambda [] m = m
  put_all lambda ((dest, v) ∷ ds) m =
      put_all lambda ds (insert lambda (insert dest v (row lambda m)) m)

module _ {W P : Type 0} where
  -- The part of `remove` behind the call of the entry: an entry left empty is erased.
  unfoldable pub drop_empty : String → Entry W P → Table W P → Table W P
  drop_empty lambda e t = elim e.destinations [ [] ↦ erase lambda t | _ ↦ insert lambda e t ]

  unfoldable pub remove_lambda : String → Table W P → Table W P
  remove_lambda lambda t = erase lambda t

  unfoldable pub lambdas : Table W P → StringSet
  lambdas [] = []
  lambdas ((l, e) ∷ t) = add l (lambdas t)

  unfoldable pub destinations : String → Table W P → Map (W × Bool)
  destinations lambda t = elim (find lambda t) [ some e ↦ entry_destinations e | none ↦ [] ]

  unfoldable pub full_from : Map (Map (W × Bool)) → Table W P → Map (Map (W × Bool))
  unfolding put_all
  full_from m [] = m
  full_from m ((lambda, e) ∷ t) = full_from (put_all lambda (entry_destinations e) m) t

  unfoldable pub full_table : Table W P → Map (Map (W × Bool))
  unfolding full_from
  full_table t = full_from [] t

module _ {W E P : Type 0} (d : Float W) (p : Policy W E P) where
  abbrev pub or_new : Option (Entry W P) → Entry W P
  or_new (some e) = e
  or_new none = record { destinations = []; state = p.fresh }

  -- The entry that `emplace` finds or makes.
  abbrev pub entry_of : String → Table W P → Entry W P
  entry_of lambda t = or_new (find lambda t)

  -- `change(aLambda, aDest, aWeight, aFinal)`
  unfoldable pub change :
      E → String → String → W → Bool → Table W P → Outcome (Unit {0}) × Table W P
  change env lambda dest weight final t =
      if d.lt weight d.nought
      then (throws invalid_weight, t)
      else let (r, e) = Entry.change d p env dest weight final (entry_of lambda t) in
        (r, insert lambda e t)

  -- `change(aLambda, aDest, aWeight)`
  unfoldable pub change_weight :
      E → String → String → W → Table W P → Outcome (Unit {0}) × Table W P
  change_weight env lambda dest weight t =
      if str_eq dest ""
      then (throws no_destinations, t)
      else if d.lt weight d.nought
      then (throws invalid_weight, t)
      else (elim (find lambda t) [
        | none ↦ (throws no_destinations, t)
        | some e ↦
            let (r, e') = Entry.change_weight d p env dest weight e in (r, insert lambda e' t)
      ])

  -- The rest of `multiply` behind the read of the old weight.
  abbrev pub scale :
      E → String → String → W → Entry W P → Table W P → Outcome W → Outcome (Unit {0}) × Table W P
  scale env lambda dest factor e t (ok w) =
      let (r, e') = Entry.change_weight d p env dest (d.mul w factor) e in (r, insert lambda e' t)
  scale env lambda dest factor e t (throws x) = (throws x, t)
  scale env lambda dest factor e t undefined = (undefined, t)

  unfoldable pub multiply : E → String → String → W → Table W P → Outcome (Unit {0}) × Table W P
  multiply env lambda dest factor t =
      if str_eq dest ""
      then (throws no_destinations, t)
      else if d.le factor d.nought
      then (throws invalid_weight_factor, t)
      else (elim (find lambda t) [
        | none ↦ (throws no_destinations, t)
        | some e ↦ scale env lambda dest factor e t (Entry.weight d p dest e)
      ])

  abbrev pub after_remove :
      String → Table W P → Outcome Bool × Entry W P → Outcome (Unit {0}) × Table W P
  after_remove lambda t (ok b, e) = (ok tt, drop_empty lambda e t)
  after_remove lambda t (throws x, e) = (throws x, insert lambda e t)
  after_remove lambda t (undefined, e) = (undefined, insert lambda e t)

  -- `remove(aLambda, aDest)`
  unfoldable pub remove : E → String → String → Table W P → Outcome (Unit {0}) × Table W P
  unfolding drop_empty
  remove env lambda dest t = elim (find lambda t) [
    | none ↦ (ok tt, t)
    | some e ↦ after_remove lambda t (Entry.remove d p env dest e)
  ]

  abbrev pub after_select :
      String → Entry W P → Table W P → Outcome (String × P) → Outcome String × Table W P
  after_select lambda e t (ok (dest, s)) = (ok dest, insert lambda (record e { state = s }) t)
  after_select lambda e t (throws x) = (throws x, t)
  after_select lambda e t undefined = (undefined, t)

  -- `operator()(aLambda)`
  unfoldable pub select : E → String → Table W P → Outcome String × Table W P
  select env lambda t = elim (find lambda t) [
    | none ↦ (throws no_destinations, t)
    | some e ↦ after_select lambda e t (p.select env e.destinations e.state)
  ]
