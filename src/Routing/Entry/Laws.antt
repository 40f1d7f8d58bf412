-- ===== src/Routing/Entry/Laws.antt =====
-- The list of destinations of Edge/Entries/entry.cpp as a map from names to weights and flags.
use serverlessonedge.Prelude.{
  String, Bool, Option, none, some, List, [], ◌∷◌, ◌++◌, ◌≡◌, refl, arith, str_eq, str_eq_iff,
  if◌then◌else◌, is_some, true, false,
}
use serverlessonedge.Prelude.Map.{Map, find, emplace, find-emplace}
use serverlessonedge.Prelude.Map.Sorted.{IsSorted, emplace-IsSorted}
use serverlessonedge.Routing.Entry.{
  Element, Entry, find_dest, set_dest, erase_dest, collect, destinations,
}

module _ {W : Type 0} where
  -- The weight and the final flag of an element, if there is one.
  abbrev pub shown : Option (Element W) → Option (W × Bool)
  shown none = none
  shown (some x) = some (x.weight, x.final)

  -- No two elements have one name.
  abbrev pub Distinct : List (Element W) → Type 0
  Distinct [] = Unit
  Distinct (x ∷ xs) = (find_dest x.destination xs ≡ none) × Distinct xs

  pub find_dest-name :
      (d : String) (x : Element W) (xs : List (Element W))
      → find_dest d xs ≡ some x
      → x.destination ≡ d
  unfolding find_dest
  find_dest-name d x [] h = ground arith
  find_dest-name d x (y ∷ ys) h = ground (arith, str_eq_iff y.destination d, find_dest-name d x ys)

  pub find_dest-nil : (k : String) (ds : List (Element W)) → ds ≡ [] → find_dest k ds ≡ none
  unfolding find_dest
  find_dest-nil k ds e = rw e

  pub find_dest-append :
      (d : String) (xs : List (Element W)) (x : Element W)
      → find_dest d (xs ++ (x ∷ [])) ≡ (
          if is_some (find_dest d xs)
          then find_dest d xs
          else if str_eq x.destination d
          then some x
          else none)
  unfolding find_dest
  find_dest-append d [] x = refl
  find_dest-append d (y ∷ ys) x = ground (arith, find_dest-append d ys x)

  pub Distinct-append :
      (xs : List (Element W)) (x : Element W)
      → Distinct xs
      → find_dest x.destination xs ≡ none
      → Distinct (xs ++ (x ∷ []))
  unfolding find_dest
  Distinct-append [] x h n = ground arith
  Distinct-append (y ∷ ys) x h n = ground (
    arith,
    Distinct-append ys x h.1,
    find_dest-append y.destination ys x,
    str_eq_iff x.destination y.destination,
    str_eq_iff y.destination x.destination,
  )

  -- One of the first two elements is dropped.
  pub find_dest-one_more :
      (t : Bool) (b x y : Element W) (xs : List (Element W))
      → Distinct (b ∷ x ∷ xs)
      → let c = if t then x else b in
        Distinct (c ∷ xs)
        × (find_dest y.destination (c ∷ xs) ≡ some y
            → find_dest y.destination (b ∷ x ∷ xs) ≡ some y)
  unfolding find_dest
  find_dest-one_more true b x y xs u =
      (u.1, λ h. ground (arith, str_eq_iff b.destination y.destination))
  find_dest-one_more false b x y xs u =
      ((ground arith, u.1.1), λ h. ground (arith, str_eq_iff x.destination y.destination))

  module _ (f : Element W → Element W)
      (keeps : (x : Element W) → (f x).destination ≡ x.destination) where
    pub find_dest-set_dest :
        (k j : String) (xs : List (Element W)) (x : Element W)
        → find_dest k xs ≡ some x
        → find_dest j (set_dest k f xs) ≡ (if str_eq k j then some (f x) else find_dest j xs)
    unfolding find_dest set_dest
    find_dest-set_dest k j [] x h = ground arith
    find_dest-set_dest k j (y ∷ ys) x h = ground (
      arith,
      keeps y,
      str_eq_iff k j,
      str_eq_iff y.destination k,
      str_eq_iff y.destination j,
      find_dest-set_dest k j ys x,
    )

    pub find_dest-set_dest-none :
        (k j : String) (xs : List (Element W))
        → find_dest j xs ≡ none
        → find_dest j (set_dest k f xs) ≡ none
    unfolding find_dest set_dest
    find_dest-set_dest-none k j [] h = refl
    find_dest-set_dest-none k j (y ∷ ys) h = ground (arith, keeps y, find_dest-set_dest-none k j ys)

    pub Distinct-set_dest :
        (k : String) (xs : List (Element W)) → Distinct xs → Distinct (set_dest k f xs)
    unfolding set_dest
    Distinct-set_dest k [] h = tt
    Distinct-set_dest k (y ∷ ys) h =
        ground (
          arith,
          keeps y,
          Distinct-set_dest k ys h.1,
          find_dest-set_dest-none k y.destination ys h.0,
        )

  pub find_dest-erase_dest :
      (k j : String) (xs : List (Element W))
      → Distinct xs
      → find_dest j (erase_dest k xs) ≡ (if str_eq k j then none else find_dest j xs)
  unfolding find_dest erase_dest
  find_dest-erase_dest k j [] h = ground arith
  find_dest-erase_dest k j (y ∷ ys) h = ground (
    arith,
    str_eq_iff k j,
    str_eq_iff y.destination k,
    str_eq_iff y.destination j,
    find_dest-erase_dest k j ys h.1,
  )

  pub Distinct-erase_dest :
      (k : String) (xs : List (Element W)) → Distinct xs → Distinct (erase_dest k xs)
  unfolding erase_dest
  Distinct-erase_dest k [] h = tt
  Distinct-erase_dest k (y ∷ ys) h =
      ground (arith, Distinct-erase_dest k ys h.1, find_dest-erase_dest k y.destination ys h.1)

  find-collect :
      (j : String) (m : Map (W × Bool)) (xs : List (Element W))
      → find j (collect m xs) ≡ (if is_some (find j m) then find j m else shown (find_dest j xs))
  unfolding collect find_dest
  find-collect j m [] = ground arith
  find-collect j m (x ∷ xs) = ground (
    arith,
    find-collect j (emplace x.destination (x.weight, x.final) m) xs,
    find-emplace x.destination j (x.weight, x.final) m,
    str_eq_iff x.destination j,
  )

  -- The map that `destinations()` returns shows what the list holds.
  pub find-destinations :
      {P : Type 0} (j : String) (e : Entry W P)
      → find j (destinations e) ≡ shown (find_dest j e.destinations)
  unfolding destinations find
  find-destinations j e = find-collect j [] e.destinations

  collect-IsSorted :
      (m : Map (W × Bool)) (xs : List (Element W)) → IsSorted m → IsSorted (collect m xs)
  unfolding collect
  collect-IsSorted m [] s = s
  collect-IsSorted m (x ∷ xs) s =
      collect-IsSorted (emplace x.destination (x.weight, x.final) m) xs
        (emplace-IsSorted x.destination (x.weight, x.final) m s)

  pub destinations-IsSorted : {P : Type 0} (e : Entry W P) → IsSorted (destinations e)
  unfolding destinations
  destinations-IsSorted e = collect-IsSorted [] e.destinations tt
