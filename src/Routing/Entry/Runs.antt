-- ===== src/Routing/Entry/Runs.antt =====
-- Edge/Entries/entry.cpp: sequences of calls that change an entry. A call that throws leaves the
-- entry, and a call whose behaviour is undefined ends the sequence.
use serverlessonedge.Prelude.{
  String, Bool, true, false, ◌||◌, Option, none, some, List, [], ◌∷◌, ◌≡◌, refl, arith, inl, inr,
  str_eq, Outcome, ok, throws, undefined, Option-cases, Bool-cases,
}
use serverlessonedge.Prelude.Float.{Float}
use serverlessonedge.Routing.Entry.{
  Element, Entry, Policy, find_dest, change, change_weight, remove,
}
use serverlessonedge.Routing.Entry.Contract.{IsPolicy, IsValid}
use serverlessonedge.Routing.Entry.Invariant.{change-Changed, change_weight-Changed, remove-Removed}

pub data Op (W E : Type 0) : Type 0 where
  changes : E → String → W → Bool → Op W E
  changes_weight : E → String → W → Op W E
  removes : E → String → Op W E

-- The entry after a call, unless the call is undefined.
abbrev pub left_by : {A B : Type 0} → Outcome A × B → Option B
left_by (ok a, e) = some e
left_by (throws x, e) = some e
left_by (undefined, e) = none

abbrev pub is_removal : {W E : Type 0} → Op W E → Bool
is_removal (changes env dest w final) = false
is_removal (changes_weight env dest w) = false
is_removal (removes env dest) = true

abbrev pub has_removal : {W E : Type 0} → List (Op W E) → Bool
has_removal [] = false
has_removal (op ∷ ops) = is_removal op || has_removal ops

-- The entry that is left has the property; there is none only if something was removed.
abbrev pub Leaves : {A : Type 0} → (A → Type 0) → Bool → Option A → Type 0
Leaves P removal none = removal ≡ true
Leaves P removal (some a) = P a

module _ {W E P : Type 0} (d : Float W) (p : Policy W E P) where
  unfoldable pub apply : Op W E → Entry W P → Option (Entry W P)
  apply (changes env dest w final) e = left_by (change d p env dest w final e)
  apply (changes_weight env dest w) e = left_by (change_weight d p env dest w e)
  apply (removes env dest) e = left_by (remove d p env dest e)

  unfoldable pub run : List (Op W E) → Entry W P → Option (Entry W P)
  unfolding apply
  run [] e = some e
  run (op ∷ ops) e = elim (apply op e) [ none ↦ none | some e' ↦ run ops e' ]

  abbrev pub fresh : Entry W P
  fresh = record { destinations = []; state = p.fresh }

module _ {W E P : Type 0} (d : Float W) (p : Policy W E P) {I : List (Element W) → P → Type 0}
    (laws : IsPolicy d p I) where
  -- A call that returns leaves its entry.
  left_by-ok :
      {A : Type 0} (removal : Bool) (a : A) (r : Outcome A × Entry W P)
      → r.0 ≡ ok a
      → IsValid d I r.1
      → Leaves (IsValid d I) removal (left_by r)
  left_by-ok removal a (ok b, e) h v = v
  left_by-ok removal a (throws x, e) h v = v
  left_by-ok removal a (undefined, e) h v = cc

  left_by-undefined :
      {A : Type 0} (r : Outcome A × Entry W P)
      → r.0 ≡ undefined
      → Leaves (IsValid d I) true (left_by r)
  left_by-undefined (ok a, e) h = cc
  left_by-undefined (throws x, e) h = cc
  left_by-undefined (undefined, e) h = refl

  apply-IsValid :
      (op : Op W E) (e : Entry W P)
      → IsValid d I e
      → Leaves (IsValid d I) (is_removal op) (apply d p op e)
  unfolding apply change change_weight
  apply-IsValid (changes env dest w final) e v =
      elim (Bool-cases (str_eq dest "" || d.le w d.nought)) [
        | inl refused ↦ rw (change, refused) v
        | inr taken ↦
            let (done, valid, shows) = change-Changed d p laws env dest w final e v taken in
            left_by-ok false tt (change d p env dest w final e) done valid
      ]
  apply-IsValid (changes_weight env dest w) e v = elim (Bool-cases (str_eq dest "")) [
    | inl unnamed ↦ rw (change_weight, unnamed) v
    | inr named ↦ elim (Bool-cases (d.le w d.nought)) [
      | inl refused ↦ rw (change_weight, named, refused) v
      | inr taken ↦ elim (Option-cases (find_dest dest e.destinations)) [
        | inl absent ↦ rw (change_weight, named, taken, absent) v
        | inr (x, present) ↦
            let (done, valid, shows) =
              change_weight-Changed d p laws env dest w e x v present taken in
            left_by-ok false tt (change_weight d p env dest w e) done valid
      ]
    ]
  ]
  apply-IsValid (removes env dest) e v = elim (remove-Removed d p laws env dest e v) [
    | inl gone ↦ left_by-undefined (remove d p env dest e) gone
    | inr (done, valid, shows) ↦ left_by-ok true _ (remove d p env dest e) done valid
  ]

  weaken :
      (b c : Bool) (o : Option (Entry W P))
      → Leaves (IsValid d I) c o
      → Leaves (IsValid d I) (b || c) o
  weaken b c none h = ground arith
  weaken b c (some e) v = v

  run-Leaves_from :
      (ops : List (Op W E)) (e : Entry W P)
      → IsValid d I e
      → Leaves (IsValid d I) (has_removal ops) (run d p ops e)
  unfolding run
  run-Leaves_from [] e v = v
  run-Leaves_from (op ∷ ops) e v = elim (Option-cases (apply d p op e)) [
    | inl undef ↦
        let removal : is_removal op ≡ true = rw undef at (apply-IsValid op e v) in
        rw (run, undef) (ground (arith, removal))
    | inr (e', there) ↦
        let valid : IsValid d I e' = rw there at (apply-IsValid op e v) in
        rw (run, there) (weaken (is_removal op) (has_removal ops) _ (run-Leaves_from ops e' valid))
  ]

  -- A new entry is valid after any calls; they are all defined if none removes a destination.
  pub run-Leaves :
      (ops : List (Op W E)) → Leaves (IsValid d I) (has_removal ops) (run d p ops (fresh d p))
  run-Leaves ops =
      run-Leaves_from ops (fresh d p)
        (record { distinct = tt; stored = tt; related = laws.fresh_keeps })
