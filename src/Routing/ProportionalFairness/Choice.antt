-- ===== src/Routing/ProportionalFairness/Choice.antt =====
-- Edge/Entries/entryproportionalfairness.cpp: the loop of `operator()` finds the first
-- destination with the greatest coefficient.
use serverlessonedge.Prelude.{
  String, true, false, ◌||◌, none, some, List, [], ◌∷◌, if◌then◌else◌, ok, str_eq, str_eq_iff,
  is_some, ◌≡◌, refl, arith, All, Bool-cases, inl, inr,
}
use serverlessonedge.Prelude.Map.{find}
use serverlessonedge.Prelude.Float.{Float, IsOrdered}
use serverlessonedge.Routing.Entry.{Element, find_dest}
use serverlessonedge.Routing.Entry.Laws.{Distinct, find_dest-one_more}
use serverlessonedge.Routing.Entry.Contract.{IsStored}
use serverlessonedge.Routing.ProportionalFairness.{Stats, compute_weight, choose}

-- The statistics are of the destinations of the list.
abbrev pub Covers : {W : Type 0} → List (Element W) → Stats W → Type 0
Covers ds s = (j : String) → is_some (find j s) ≡ is_some (find_dest j ds)

module _ {W : Type 0} (d : Float W) (pow : W → W → W) (alpha beta : W) where
  -- The coefficient of a destination at a time, nought without statistics.
  abbrev pub coefficient : W → Stats W → Element W → W
  coefficient now s x = elim (find x.destination s) [
    | none ↦ d.nought
    | some (served, timestamp) ↦ compute_weight d pow alpha beta x.weight served timestamp now
  ]

  -- The first of the elements with the greatest coefficient.
  pub greatest : W → Stats W → Element W → List (Element W) → Element W
  greatest now s b [] = b
  greatest now s b (x ∷ xs) =
      greatest now s (if d.lt (coefficient now s b) (coefficient now s x) then x else b) xs

  abbrev pub Known : Stats W → List (Element W) → Type 0
  Known s = All λ x. (is_some (find x.destination s) ≡ true) × (str_eq x.destination "" ≡ false)

  choose-cons :
      (now : W) (s : Stats W) (ret : String) (max : W) (x : Element W) (xs : List (Element W))
      → is_some (find x.destination s) ≡ true
      → let better = str_eq ret "" || d.lt max (coefficient now s x) in
        choose d pow alpha beta now s ret max (x ∷ xs)
        ≡ choose d pow alpha beta now s
            (if better then x.destination else ret)
            (if better then coefficient now s x else max)
            xs
  unfolding choose
  choose-cons now s ret max x xs h = ground arith

  choose-greatest :
      (now : W) (s : Stats W) (b : Element W) (xs : List (Element W))
      → str_eq b.destination "" ≡ false
      → Known s xs
      → choose d pow alpha beta now s b.destination (coefficient now s b) xs
        ≡ ok (greatest now s b xs).destination
  unfolding choose greatest
  choose-greatest now s b [] n k = refl
  choose-greatest now s b (x ∷ xs) n k =
      rw (choose-cons now s b.destination (coefficient now s b) x xs k.0.0, n)
        (elim (Bool-cases (d.lt (coefficient now s b) (coefficient now s x))) [
          | inl better ↦ rw (better, greatest) (choose-greatest now s x xs k.0.1 k.1)
          | inr worse ↦ rw (worse, greatest) (choose-greatest now s b xs n k.1)
        ])

  -- The loop starts at the first element, since `ret` is empty.
  pub choose_start :
      (now : W) (s : Stats W) (x : Element W) (xs : List (Element W))
      → Known s (x ∷ xs)
      → choose d pow alpha beta now s "" d.nought (x ∷ xs) ≡ ok (greatest now s x xs).destination
  choose_start now s x xs k =
      rw (choose-cons now s "" d.nought x xs k.0.0) (choose-greatest now s x xs k.0.1 k.1)

  pub Known-Covers :
      (all xs : List (Element W)) (s : Stats W)
      → Covers all s
      → ((j : String) → is_some (find_dest j xs) ≡ true → is_some (find_dest j all) ≡ true)
      → All (IsStored d) xs
      → Known s xs
  unfolding find_dest
  Known-Covers all [] s c sub a = tt
  Known-Covers all (x ∷ xs) s c sub a = (
    (
      ground (arith, c x.destination, sub x.destination, str_eq_iff x.destination x.destination),
      a.0.1,
    ),
    Known-Covers all xs s c (λ j h. sub j (ground arith)) a.1,
  )

  pub greatest-member :
      (now : W) (s : Stats W) (b : Element W) (xs : List (Element W))
      → is_some (find_dest (greatest now s b xs).destination (b ∷ xs)) ≡ true
  unfolding greatest find_dest
  greatest-member now s b [] = ground (arith, str_eq_iff b.destination b.destination)
  greatest-member now s b (x ∷ xs) =
      let c : Element W = if d.lt (coefficient now s b) (coefficient now s x) then x else b in
      ground (arith, greatest-member now s c xs)

  pub greatest-find :
      (now : W) (s : Stats W) (b : Element W) (xs : List (Element W))
      → Distinct (b ∷ xs)
      → find_dest (greatest now s b xs).destination (b ∷ xs) ≡ some (greatest now s b xs)
  unfolding greatest find_dest
  greatest-find now s b [] u = ground (arith, str_eq_iff b.destination b.destination)
  greatest-find now s b (x ∷ xs) u =
      let t = d.lt (coefficient now s b) (coefficient now s x) in
      let c : Element W = if t then x else b in
      let (u', more) = find_dest-one_more t b x (greatest now s c xs) xs u in
      more (greatest-find now s c xs u')

  module _ (laws : IsOrdered d) where
    open laws use {le_refl, le_trans, le_total, lt-eq-not-le}

    larger-le :
        (now : W) (s : Stats W) (x b : Element W)
        → let c = if d.lt (coefficient now s b) (coefficient now s x) then x else b in
          (d.le (coefficient now s b) (coefficient now s c) ≡ true)
          × (d.le (coefficient now s x) (coefficient now s c) ≡ true)
    larger-le now s x b = elim (Bool-cases (d.lt (coefficient now s b) (coefficient now s x))) [
      | inl better ↦ rw better (
        ground (
          arith,
          lt-eq-not-le (coefficient now s b) (coefficient now s x),
          le_total (coefficient now s b) (coefficient now s x),
        ),
        le_refl (coefficient now s x),
      )
      | inr worse ↦ rw worse (
        le_refl (coefficient now s b),
        ground (arith, lt-eq-not-le (coefficient now s b) (coefficient now s x)),
      )
    ]

    -- The greatest of the elements is above each of them.
    pub greatest-le :
        (now : W) (s : Stats W) (b : Element W) (xs : List (Element W))
        → let g = coefficient now s (greatest now s b xs) in
          (d.le (coefficient now s b) g ≡ true) × All (λ x. d.le (coefficient now s x) g ≡ true) xs
    unfolding greatest
    greatest-le now s b [] = (le_refl (coefficient now s b), tt)
    greatest-le now s b (x ∷ xs) =
        let c : Element W = if d.lt (coefficient now s b) (coefficient now s x) then x else b in
        let (low, rest) = greatest-le now s c xs in
        let (over_b, over_x) = larger-le now s x b in
        (le_trans _ _ _ over_b low, (le_trans _ _ _ over_x low, rest))
