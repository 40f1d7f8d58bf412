-- ===== src/Routing/Entry/Invariant.antt =====
-- Edge/Entries/entry.cpp: each operation keeps the entry valid and has the effect on the map of
-- destinations that its documentation states.
use serverlessonedge.Prelude.{
  String, Bool, true, false, ◌||◌, Option, none, some, List, [], ◌∷◌, ◌≡◌, refl, arith, inl, inr,
  ◌⊎◌, str_eq, str_eq_iff, if◌then◌else◌, is_some, Outcome, ok, throws, undefined, All, All-append,
  Returns, Option-cases,
}
use serverlessonedge.Prelude.Float.{Float}
use serverlessonedge.Routing.Entry.{
  Element, Entry, Policy, find_dest, set_dest, erase_dest, change, change_weight, remove, settle,
  removed,
}
use serverlessonedge.Routing.Entry.Laws.{
  Distinct, shown, find_dest-name, find_dest-append, Distinct-append, find_dest-set_dest,
  Distinct-set_dest, find_dest-erase_dest, Distinct-erase_dest,
}
use serverlessonedge.Routing.Entry.Contract.{IsPolicy, IsValid, IsStored, Keeps}

module _ {W : Type 0} (d : Float W) where
  IsStored-set_dest :
      (k : String) (f : Element W → Element W) (xs : List (Element W))
      → ((x : Element W) → IsStored d x → IsStored d (f x))
      → All (IsStored d) xs
      → All (IsStored d) (set_dest k f xs)
  unfolding set_dest
  IsStored-set_dest k f [] h a = tt
  IsStored-set_dest k f (x ∷ xs) h a = ground (arith, h x a.0, IsStored-set_dest k f xs h a.1)

  pub IsStored-erase_dest :
      (k : String) (xs : List (Element W))
      → All (IsStored d) xs
      → All (IsStored d) (erase_dest k xs)
  unfolding erase_dest
  IsStored-erase_dest k [] a = tt
  IsStored-erase_dest k (x ∷ xs) a = ground (arith, IsStored-erase_dest k xs a.1)

  pub IsStored-find_dest :
      (k : String) (x : Element W) (xs : List (Element W))
      → All (IsStored d) xs
      → find_dest k xs ≡ some x
      → IsStored d x
  unfolding find_dest
  IsStored-find_dest k x [] a h = ground arith
  IsStored-find_dest k x (y ∷ ys) a h = ground (arith, IsStored-find_dest k x ys a.1)

-- What a lookup of `j` in the entry shows.
abbrev pub seen : {W P : Type 0} → String → Entry W P → Option (W × Bool)
seen j e = shown (find_dest j e.destinations)

module _ {W E P : Type 0} (d : Float W) (p : Policy W E P) {I : List (Element W) → P → Type 0}
    (laws : IsPolicy d p I) where
  -- The entry after a change that returns: valid, with `shows j` for what it showed at `j`.
  abbrev pub Changed : Outcome (Unit {0}) × Entry W P → (String → Option (W × Bool)) → Type 0
  Changed r shows = (r.0 ≡ ok tt) × IsValid d I r.1 × ((j : String) → seen j r.1 ≡ shows j)

  settle-Changed :
      (ds : List (Element W)) (s : P) (r : Outcome P) (shows : String → Option (W × Bool))
      → Distinct ds
      → All (IsStored d) ds
      → Returns (I ds) r
      → ((j : String) → shown (find_dest j ds) ≡ shows j)
      → Changed (settle d p ds s r) shows
  settle-Changed ds s (ok s') shows u a i h =
      (refl, record { distinct = u; stored = a; related = i }, h)
  settle-Changed ds s (throws x) shows u a i h = absurd i
  settle-Changed ds s undefined shows u a i h = absurd i

  -- Overwriting the element of `dest` by `f`, when the derived class agrees.
  overwrite-Changed :
      (env : E) (dest : String) (x : Element W) (f : Element W → Element W) (e : Entry W P)
      → ((y : Element W) → (f y).destination ≡ y.destination)
      → ((y : Element W) → IsStored d y → IsStored d (f y))
      → IsValid d I e
      → find_dest dest e.destinations ≡ some x
      → Changed
          (settle d p (set_dest dest f e.destinations) e.state (
            p.update_weight env
              (set_dest dest f e.destinations)
              dest
              x.weight
              (f x).weight
              e.state))
          (λ j. if str_eq dest j then shown (some (f x)) else seen j e)
  overwrite-Changed env dest x f e same keeps v h =
      settle-Changed _ _ _ _ (Distinct-set_dest f same dest e.destinations v.distinct)
        (IsStored-set_dest d dest f e.destinations keeps v.stored)
        (laws.weight_keeps env dest x f e.destinations e.state same v.distinct v.stored h
          (keeps x (IsStored-find_dest d dest x e.destinations v.stored h)).0 v.related)
        (λ j. ground (arith, find_dest-set_dest f same dest j e.destinations x h))

  -- `change(aDest, aWeight, aFinal)` refuses an empty name or a weight that is not positive and
  -- then changes nothing; otherwise it sets the entry of the name, and no other.
  pub change-Changed :
      (env : E) (dest : String) (w : W) (final : Bool) (e : Entry W P)
      → IsValid d I e
      → (str_eq dest "" || d.le w d.nought) ≡ false
      → Changed
          (change d p env dest w final e)
          (λ j. if str_eq dest j then some (w, final) else seen j e)
  unfolding change
  change-Changed env dest w final e v h = elim (Option-cases (find_dest dest e.destinations)) [
    | inl absent ↦
        let x : Element W = record { destination = dest; weight = w; final = final } in
        let good : IsStored d x = ground arith in
        rw (h, absent)
          (settle-Changed _ _ _ _ (Distinct-append e.destinations x v.distinct absent)
            (All-append (IsStored d) e.destinations (x ∷ []) v.stored (good, tt))
            (laws.add_keeps env x e.destinations e.state v.distinct v.stored absent good v.related)
            (λ j. ground (arith, find_dest-append j e.destinations x, str_eq_iff dest j)))
    | inr (old, present) ↦
        rw (h, present)
          (overwrite-Changed env dest old (λ x. record x { weight = w; final = final }) e
            (λ y. refl) (λ y q. ground arith) v present)
  ]

  -- `change(aDest, aWeight)` of a name that is there sets its weight and keeps its flag.
  pub change_weight-Changed :
      (env : E) (dest : String) (w : W) (e : Entry W P) (x : Element W)
      → IsValid d I e
      → find_dest dest e.destinations ≡ some x
      → d.le w d.nought ≡ false
      → Changed
          (change_weight d p env dest w e)
          (λ j. if str_eq dest j then some (w, x.final) else seen j e)
  unfolding change_weight
  change_weight-Changed env dest w e x v present h =
      let named : str_eq dest "" ≡ false = ground (
        arith,
        IsStored-find_dest d dest x e.destinations v.stored present,
        find_dest-name dest x e.destinations present,
      ) in
      rw (named, h, present)
        (overwrite-Changed env dest x (λ x. record x { weight = w }) e (λ y. refl)
          (λ y q. ground arith) v present)

  -- The answer and the entry of a removal that is defined.
  abbrev pub Removed : Bool → Outcome Bool × Entry W P → (String → Option (W × Bool)) → Type 0
  Removed gone r shows =
      (r.0 ≡ undefined)
      ⊎ ((r.0 ≡ ok gone) × IsValid d I r.1 × ((j : String) → seen j r.1 ≡ shows j))

  removed-Removed :
      (ds : List (Element W)) (s : P) (r : Outcome P) (shows : String → Option (W × Bool))
      → Distinct ds
      → All (IsStored d) ds
      → Keeps (I ds) r
      → ((j : String) → shown (find_dest j ds) ≡ shows j)
      → Removed true (removed d p ds s r) shows
  removed-Removed ds s (ok s') shows u a i h =
      inr (refl, record { distinct = u; stored = a; related = i }, h)
  removed-Removed ds s (throws x) shows u a i h = absurd i
  removed-Removed ds s undefined shows u a i h = inl refl

  -- `remove` removes the destination and no other, and tells whether it was there; unless its
  -- behaviour is undefined.
  pub remove-Removed :
      (env : E) (dest : String) (e : Entry W P)
      → IsValid d I e
      → Removed
          (is_some (find_dest dest e.destinations))
          (remove d p env dest e)
          (λ j. if str_eq dest j then none else seen j e)
  unfolding remove
  remove-Removed env dest e v = elim (Option-cases (find_dest dest e.destinations)) [
    | inl absent ↦
        rw (absent, remove) (inr (refl, v, λ j. ground (arith, absent, str_eq_iff dest j)))
    | inr (x, present) ↦
        rw (present, remove)
          (removed-Removed _ _ _ _ (Distinct-erase_dest dest e.destinations v.distinct)
            (IsStored-erase_dest d dest e.destinations v.stored)
            (laws.del_keeps env dest x e.destinations e.state v.distinct v.stored present v.related)
            (λ j. ground (arith, find_dest-erase_dest dest j e.destinations v.distinct)))
  ]
