-- ===== src/Routing/Entry/Contract.antt =====
-- The contract between Edge/Entries/entry.cpp and its derived classes: what a policy promises
-- about the list of destinations, and the invariant that the entry keeps by it.
use serverlessonedge.Prelude.{
  String, true, false, none, some, List, [], ◌∷◌, ◌++◌, ◌≡◌, ◌≢◌, str_eq, is_some, Outcome, ok,
  throws, undefined, no_destinations, All, Returns,
}
use serverlessonedge.Prelude.Float.{Float}
use serverlessonedge.Routing.Entry.{Element, Entry, Policy, find_dest, set_dest, erase_dest}
use serverlessonedge.Routing.Entry.Laws.{Distinct}

-- The call does not throw, and where it is defined the new state is good.
abbrev pub Keeps {ℓ} : {P : Type ℓ} → (P → Type 0) → Outcome P → Type 0
Keeps I (ok s) = I s
Keeps I (throws x) = ⊥
Keeps I undefined = Unit

module _ {W : Type 0} (d : Float W) where
  abbrev pub IsPositive : W → Type 0
  IsPositive w = d.le w d.nought ≡ false

  -- An element that the base class stores.
  abbrev pub IsStored : Element W → Type 0
  IsStored x = IsPositive x.weight × (str_eq x.destination "" ≡ false)

  pub record IsValid {P : Type 0} (I : List (Element W) → P → Type 0) (e : Entry W P) : Type 0 where
    pub distinct : Distinct e.destinations
    pub stored : All IsStored e.destinations
    pub related : I e.destinations e.state

module _ {W E P : Type 0} (d : Float W) where
  -- `I` relates the list of destinations to the state of the derived class. Each update is called
  -- after the base class has changed the list.
  pub record IsPolicy (p : Policy W E P) (I : List (Element W) → P → Type 0) : Type 0 where
    pub fresh_keeps : I [] p.fresh
    pub weight_keeps :
        (env : E) (dest : String) (x : Element W) (f : Element W → Element W)
        (ds : List (Element W)) (s : P)
        → ((y : Element W) → (f y).destination ≡ y.destination)
        → Distinct ds
        → All (IsStored d) ds
        → find_dest dest ds ≡ some x
        → IsPositive d (f x).weight
        → I ds s
        → Returns
            (I (set_dest dest f ds))
            (p.update_weight env (set_dest dest f ds) dest x.weight (f x).weight s)
    pub add_keeps :
        (env : E) (x : Element W) (ds : List (Element W)) (s : P)
        → Distinct ds
        → All (IsStored d) ds
        → find_dest x.destination ds ≡ none
        → IsStored d x
        → I ds s
        → Returns
            (I (ds ++ (x ∷ [])))
            (p.update_add_dest env (ds ++ (x ∷ [])) x.destination x.weight s)
    pub del_keeps :
        (env : E) (dest : String) (x : Element W) (ds : List (Element W)) (s : P)
        → Distinct ds
        → All (IsStored d) ds
        → find_dest dest ds ≡ some x
        → I ds s
        → Keeps
            (I (erase_dest dest ds))
            (p.update_del_dest env (erase_dest dest ds) x.destination x.weight s)
    pub select_empty : (env : E) (s : P) → I [] s → p.select env [] s ≡ throws no_destinations
    pub select_keeps :
        (env : E) (ds : List (Element W)) (s : P)
        → ds ≢ []
        → All (IsStored d) ds
        → I ds s
        → Returns (λ r. (is_some (find_dest r.0 ds) ≡ true) × I ds r.1) (p.select env ds s)

  -- A policy whose update after a removal is always defined.
  pub record IsClean (p : Policy W E P) (I : List (Element W) → P → Type 0) : Type 0 where
    pub del_returns :
        (env : E) (dest : String) (x : Element W) (ds : List (Element W)) (s : P)
        → Distinct ds
        → find_dest dest ds ≡ some x
        → I ds s
        → Returns
            (I (erase_dest dest ds))
            (p.update_del_dest env (erase_dest dest ds) x.destination x.weight s)

pub Keeps-Returns {ℓ} : {P : Type ℓ} (I : P → Type 0) (o : Outcome P) → Returns I o → Keeps I o
Keeps-Returns I (ok s) h = h
Keeps-Returns I (throws x) h = h
Keeps-Returns I undefined h = tt
