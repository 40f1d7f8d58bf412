-- ===== src/Routing/LeastImpedance/Laws.antt =====
-- Edge/Entries/entryleastimpedance.cpp keeps its promise: `theMinElement` is an element of the
-- list with the smallest weight, as long as that element is not erased.
use serverlessonedge.Prelude.{
  String, Bool, true, false, Option, none, some, List, [], ◌∷◌, ◌++◌, if◌then◌else◌, ok, throws,
  undefined, no_destinations, ◌>>=◌, ◌≡◌, refl, arith, str_eq, str_eq_iff, All, All-append, Returns,
  is_some, Bool-cases, inl, inr, ◌≢◌,
}
use serverlessonedge.Prelude.Float.{Float, IsOrdered}
use serverlessonedge.Routing.Entry.{Element, find_dest, set_dest, erase_dest}
use serverlessonedge.Routing.Entry.Laws.{
  Distinct, find_dest-name, find_dest-append, Distinct-append, find_dest-set_dest,
  Distinct-set_dest, find_dest-one_more, find_dest-erase_dest, Distinct-erase_dest, find_dest-nil,
}
use serverlessonedge.Routing.Entry.Contract.{IsPolicy, Keeps}
use serverlessonedge.Routing.LeastImpedance.{
  smallest, update, min_weight, select, update_weight, update_add_dest, update_del_dest,
  least_impedance,
}

module _ {W : Type 0} (d : Float W) where
  -- No element of the list weighs less than `w`.
  abbrev pub AtMost : W → List (Element W) → Type 0
  AtMost w = All λ x. d.le w x.weight ≡ true

  -- `theMinElement`: `end()` of the empty list, and otherwise the name of a lightest element.
  pub data IsLeast (ds : List (Element W)) (m : Option String) : Type 0 where
    nothing : ds ≡ [] → m ≡ none → IsLeast ds m
    lightest :
        (n : String) (y : Element W)
        → m ≡ some n
        → find_dest n ds ≡ some y
        → AtMost y.weight ds
        → IsLeast ds m

module _ {W : Type 0} {d : Float W} (laws : IsOrdered d) where
  open laws use {le_refl, le_trans, le_total, lt-eq-not-le, eq-eq-le-le}

  lighter-le :
      (x b : Element W)
      → let c = if d.lt x.weight b.weight then x else b in
        (d.le c.weight b.weight ≡ true) × (d.le c.weight x.weight ≡ true)
  lighter-le x b = ground (
    arith,
    lt-eq-not-le x.weight b.weight,
    le_refl x.weight,
    le_refl b.weight,
    le_total x.weight b.weight,
  )

  -- The element that `std::min_element` ends at is below the best one before it and the rest.
  smallest-le :
      (b : Element W) (xs : List (Element W))
      → (d.le (smallest d b xs).weight b.weight ≡ true) × AtMost d (smallest d b xs).weight xs
  unfolding smallest
  smallest-le b [] = (le_refl b.weight, tt)
  smallest-le b (x ∷ xs) =
      let c : Element W = if d.lt x.weight b.weight then x else b in
      let (low, rest) = smallest-le c xs in
      let (under_b, under_x) = lighter-le x b in
      (le_trans _ _ _ low under_b, (le_trans _ _ _ low under_x, rest))

  smallest-find :
      (b : Element W) (xs : List (Element W))
      → Distinct (b ∷ xs)
      → find_dest (smallest d b xs).destination (b ∷ xs) ≡ some (smallest d b xs)
  unfolding smallest find_dest
  smallest-find b [] u = ground (arith, str_eq_iff b.destination b.destination)
  smallest-find b (x ∷ xs) u =
      let c : Element W = if d.lt x.weight b.weight then x else b in
      let (u', more) = find_dest-one_more (d.lt x.weight b.weight) b x (smallest d c xs) xs u in
      more (smallest-find c xs u')

  -- `update()` finds a lightest element.
  pub update-IsLeast : (ds : List (Element W)) → Distinct ds → IsLeast d ds (update d ds)
  unfolding update
  update-IsLeast [] u = nothing refl refl
  update-IsLeast (x ∷ xs) u =
      let (low, rest) = smallest-le x xs in
      lightest (smallest d x xs).destination (smallest d x xs) refl (smallest-find x xs u)
        (low, rest)

  AtMost-mono : (v w : W) (ds : List (Element W)) → d.le v w ≡ true → AtMost d w ds → AtMost d v ds
  AtMost-mono v w [] h a = tt
  AtMost-mono v w (x ∷ xs) h a = (le_trans v w x.weight h a.0, AtMost-mono v w xs h a.1)

  AtMost-set_dest :
      (v : W) (k : String) (f : Element W → Element W) (x : Element W) (ds : List (Element W))
      → find_dest k ds ≡ some x
      → d.le v (f x).weight ≡ true
      → AtMost d v ds
      → AtMost d v (set_dest k f ds)
  unfolding find_dest set_dest
  AtMost-set_dest v k f x [] h l a = tt
  AtMost-set_dest v k f x (y ∷ ys) h l a = ground (arith, AtMost-set_dest v k f x ys)

  AtMost-erase_dest :
      (v : W) (k : String) (ds : List (Element W)) → AtMost d v ds → AtMost d v (erase_dest k ds)
  unfolding erase_dest
  AtMost-erase_dest v k [] a = tt
  AtMost-erase_dest v k (y ∷ ys) a = ground (arith, AtMost-erase_dest v k ys a.1)

  find_dest-AtMost :
      (v : W) (k : String) (x : Element W) (ds : List (Element W))
      → find_dest k ds ≡ some x
      → AtMost d v ds
      → d.le v x.weight ≡ true
  unfolding find_dest
  find_dest-AtMost v k x [] h a = ground arith
  find_dest-AtMost v k x (y ∷ ys) h a = ground (arith, find_dest-AtMost v k x ys)

  min_weight-found :
      (n : String) (y : Element W) (ds : List (Element W)) (m : Option String)
      → m ≡ some n
      → find_dest n ds ≡ some y
      → min_weight d ds m ≡ ok y.weight
  unfolding min_weight
  min_weight-found n y ds m e h = rw (e, min_weight, h)

  pub min_weight-gone :
      (n : String) (ds : List (Element W)) (m : Option String)
      → m ≡ some n
      → find_dest n ds ≡ none
      → min_weight d ds m ≡ undefined
  unfolding min_weight
  min_weight-gone n ds m e h = rw (e, min_weight, h)

  update_add_dest-some :
      (ds : List (Element W)) (dest : String) (w : W) (n : String)
      → update_add_dest d ds dest w (some n)
        ≡ (min_weight d ds (some n) >>= λ v. ok (if d.lt w v then update d ds else some n))
  unfolding update_add_dest
  update_add_dest-some [] dest w n = refl
  update_add_dest-some (x ∷ xs) dest w n = refl

  find_dest-head : (x : Element W) → find_dest x.destination (x ∷ []) ≡ some x
  unfolding find_dest
  find_dest-head x = ground (arith, str_eq_iff x.destination x.destination)

  refresh-IsLeast :
      (t : Bool) (ds : List (Element W)) (m : Option String)
      → Distinct ds
      → (t ≡ false → IsLeast d ds m)
      → IsLeast d ds (if t then update d ds else m)
  refresh-IsLeast true ds m u h = update-IsLeast ds u
  refresh-IsLeast false ds m u h = h refl

  weight-IsLeast :
      (dest : String) (x : Element W) (f : Element W → Element W) (ds : List (Element W))
      (m : Option String)
      → ((y : Element W) → (f y).destination ≡ y.destination)
      → Distinct ds
      → find_dest dest ds ≡ some x
      → IsLeast d ds m
      → Returns
          (IsLeast d (set_dest dest f ds))
          (update_weight d (set_dest dest f ds) dest x.weight (f x).weight m)
  unfolding update_weight
  weight-IsLeast dest x f ds m same u h (nothing e n) =
      absurd (ground (arith, find_dest-nil dest ds e))
  weight-IsLeast dest x f ds m same u h (lightest n y e p a) = elim (Bool-cases (str_eq dest n)) [
    | inl hit ↦
        let there : find_dest n (set_dest dest f ds) ≡ some (f x) =
          ground (arith, find_dest-set_dest f same dest n ds x h) in
        rw (min_weight-found n (f x) _ m e there)
          (refresh-IsLeast _ _ m u' (λ t. absurd (ground (arith, le_refl (f x).weight))))
    | inr miss ↦
        let there : find_dest n (set_dest dest f ds) ≡ some y =
          ground (arith, find_dest-set_dest f same dest n ds x h) in
        rw (min_weight-found n y _ m e there) (
          refresh-IsLeast _ _ m u' (λ t. lightest n y e there (
            AtMost-set_dest y.weight dest f x ds h (ground (arith, le_total y.weight (f x).weight))
              a)))
  ]
    where
      u' : Distinct (set_dest dest f ds)
      u' = Distinct-set_dest f same dest ds u

  add-IsLeast :
      (x : Element W) (ds : List (Element W)) (m : Option String)
      → Distinct ds
      → find_dest x.destination ds ≡ none
      → IsLeast d ds m
      → Returns
          (IsLeast d (ds ++ (x ∷ [])))
          (update_add_dest d (ds ++ (x ∷ [])) x.destination x.weight m)
  unfolding update_add_dest
  add-IsLeast x ds m u h (nothing e n) =
      rw (e, n) (lightest x.destination x refl (find_dest-head x) (le_refl x.weight, tt))
  add-IsLeast x ds m u h (lightest n y e p a) =
      let there : find_dest n (ds ++ (x ∷ [])) ≡ some y = ground (arith, find_dest-append n ds x) in
      rw
        (
          e,
          update_add_dest-some (ds ++ (x ∷ [])) x.destination x.weight n,
          min_weight-found n y _ (some n) refl there,
        )
        (refresh-IsLeast _ _ _ (Distinct-append ds x u h) (λ t.
          lightest n y refl there
            (All-append _ ds (x ∷ []) a (ground (arith, lt-eq-not-le x.weight y.weight), tt))))

  del-IsLeast :
      (dest : String) (x : Element W) (ds : List (Element W)) (m : Option String)
      → Distinct ds
      → find_dest dest ds ≡ some x
      → IsLeast d ds m
      → Keeps
          (IsLeast d (erase_dest dest ds))
          (update_del_dest d (erase_dest dest ds) x.destination x.weight m)
  unfolding update_del_dest
  del-IsLeast dest x ds m u h (nothing e n) = absurd (ground (arith, find_dest-nil dest ds e))
  del-IsLeast dest x ds m u h (lightest n y e p a) = elim (Bool-cases (str_eq dest n)) [
    | inl hit ↦
        rw
          (min_weight-gone n (erase_dest dest ds) m e
            (ground (arith, find_dest-erase_dest dest n ds u)))
          tt
    | inr miss ↦
        let there : find_dest n (erase_dest dest ds) ≡ some y =
          ground (arith, find_dest-erase_dest dest n ds u) in
        rw (min_weight-found n y _ m e there) (
          refresh-IsLeast _ _ m (Distinct-erase_dest dest ds u)
            (λ t. lightest n y e there (AtMost-erase_dest y.weight dest ds a)))
  ]

  select-Returns :
      (ds : List (Element W)) (m : Option String)
      → ds ≢ []
      → IsLeast d ds m
      → Returns (λ r. (is_some (find_dest r.0 ds) ≡ true) × IsLeast d ds r.1) (select d ds m)
  unfolding select
  select-Returns [] m n l = absurd (n refl)
  select-Returns (x ∷ xs) m n (nothing e f) = cc
  select-Returns (x ∷ xs) m n (lightest k y e p a) =
      let named : y.destination ≡ k = find_dest-name k y (x ∷ xs) p in
      rw (e, select, p) (ground (arith, p, named), lightest k y refl p a)

  select_nil : (m : Option String) → select d [] m ≡ throws no_destinations
  unfolding select
  select_nil m = refl

  -- The derived class meets the contract of the base class.
  pub least_impedance-IsPolicy : {E : Type 0} → IsPolicy d (least_impedance d {E = E}) (IsLeast d)
  unfolding least_impedance
  least_impedance-IsPolicy = record {
    fresh_keeps = nothing refl refl;
    weight_keeps = λ env dest x f ds m same u a h pos l. weight-IsLeast dest x f ds m same u h l;
    add_keeps = λ env x ds m u a h q l. add-IsLeast x ds m u h l;
    del_keeps = λ env dest x ds m u a h l. del-IsLeast dest x ds m u h l;
    select_empty = λ env m l. select_nil m;
    select_keeps = λ env ds m n a l. select-Returns ds m n l;
  }

  -- `operator()` returns a destination such that no destination of the list has a smaller weight.
  pub select-AtMost :
      (ds : List (Element W)) (m : Option String)
      → IsLeast d ds m
      → ds ≢ []
      → (y : Element W) × (select d ds m ≡ ok (y.destination, m))
        × (find_dest y.destination ds ≡ some y)
        × AtMost d y.weight ds
  unfolding select
  select-AtMost [] m l n = absurd (n refl)
  select-AtMost (x ∷ xs) m (nothing e f) n = cc
  select-AtMost (x ∷ xs) m (lightest k y e p a) n =
      let named : y.destination ≡ k = find_dest-name k y (x ∷ xs) p in (y, rw (e, select, p), cc, a)
