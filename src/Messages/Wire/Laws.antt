-- ===== src/Messages/Wire/Laws.antt =====
-- What the loops of Edge/edgemessages.{h,cpp} over maps make: a map sent entry by entry and filled
-- again from the entries that arrive, in any order, is the map that was sent.
use mathlib.Core.Path.{ap₂}
use mathlib.Core.Option.{some-injective}
use serverlessonedge.Prelude.KeyOrder.{compare_irrefl}
use mathlib.Core.Logic.{inl, inr}
use serverlessonedge.Prelude.{
  String, true, Option, none, some, [], ◌∷◌, if◌then◌else◌, is_some, ◌≡◌, refl, arith, str_eq,
  str_eq_iff, Bool-cases, sym, ◌∙◌, ap,
}
use serverlessonedge.Prelude.Map.{Map, find, emplace, find-nil, find-emplace, str_eq_refl, before}
use serverlessonedge.Prelude.Map.Sorted.{
  IsSorted, emplace-IsSorted, find-Above, before_total, Above-mono,
}
use serverlessonedge.Messages.Wire.{emplace_all, Carries}

-- What is found, converted.
abbrev pub convert {ℓ κ} : {V : Type ℓ} {W : Type κ} → (V → W) → Option V → Option W
convert f none = none
convert f (some v) = some (f v)

module _ {ℓ κ} {V : Type ℓ} {W : Type κ} (f : V → W) where
  find-emplace_all :
      (k : String) (ret : Map W) (m : Map V)
      → find k (emplace_all f ret m)
        ≡ (if is_some (find k ret) then find k ret else convert f (find k m))
  unfolding emplace_all find
  find-emplace_all k ret [] = ground arith
  find-emplace_all k ret ((j, v) ∷ m) = ground (
    arith,
    find-emplace_all k (emplace j (f v) ret) m,
    find-emplace j k (f v) ret,
    str_eq_iff j k,
  )

  emplace_all-IsSorted : (ret : Map W) (m : Map V) → IsSorted ret → IsSorted (emplace_all f ret m)
  unfolding emplace_all
  emplace_all-IsSorted ret [] s = s
  emplace_all-IsSorted ret ((j, v) ∷ m) s =
      emplace_all-IsSorted (emplace j (f v) ret) m (emplace-IsSorted j (f v) ret s)

  -- The map filled from an empty one has exactly the entries given, converted.
  pub find-fill : (k : String) (m : Map V) → find k (emplace_all f [] m) ≡ convert f (find k m)
  find-fill k m = ground (arith, find-emplace_all k [] m, find-nil {V = W} k)

  pub fill-IsSorted : (m : Map V) → IsSorted (emplace_all f [] m)
  fill-IsSorted m = emplace_all-IsSorted [] m tt

module _ {ℓ} {V : Type ℓ} where
  head-find : (k : String) (v : V) (m : Map V) → find k ((k, v) ∷ m) ≡ some v
  unfolding find
  head-find k v m = ground (arith, str_eq_refl k)

  find-tail :
      (k j : String) (v : V) (m : Map V)
      → find k ((j, v) ∷ m) ≡ (if str_eq j k then some v else find k m)
  unfolding find
  find-tail k j v m = refl

  -- Two maps with the same first key that agree on every lookup agree beyond it.
  tails-Carries :
      (k : String) (v w : V) (m n : Map V)
      → IsSorted ((k, v) ∷ m)
      → IsSorted ((k, w) ∷ n)
      → Carries ((k, v) ∷ m) ((k, w) ∷ n)
      → Carries m n
  tails-Carries k v w m n s t c i = elim (Bool-cases (str_eq k i)) [
    | inl same ↦ ground (arith, str_eq_iff k i, find-Above k m s.0, find-Above k n t.0)
    | inr other ↦ ground (arith, c i, find-tail i k v m, find-tail i k w n)
  ]

  -- The first key of a map is not before the first key of one that agrees with it.
  head-least :
      (k j : String) (v w : V) (m n : Map V)
      → IsSorted ((k, v) ∷ m)
      → Carries ((k, v) ∷ m) ((j, w) ∷ n)
      → before j k ≡ true
      → ⊥
  head-least k j v w m n s c b = ground (
    arith,
    c j,
    head-find j w n,
    find-tail j k v m,
    find-Above j m (Above-mono j k m b s.0),
    str_eq_iff k j,
    compare_irrefl j,
  )

  heads_lem :
      (k j : String) (v w : V) (m n : Map V)
      → IsSorted ((k, v) ∷ m)
      → IsSorted ((j, w) ∷ n)
      → Carries ((k, v) ∷ m) ((j, w) ∷ n)
      → k ≡ j
  heads_lem k j v w m n s t c = elim (Bool-cases (str_eq k j)) [
    | inl same ↦ (str_eq_iff k j).0 same
    | inr other ↦ elim (Bool-cases (before j k)) [
      | inl b ↦ absurd (head-least k j v w m n s c b)
      | inr late ↦ absurd (head-least j k w v n m t (λ i. sym (c i)) (before_total k j other late))
    ]
  ]

  same_head : (k : String) (v w : V) (m n : Map V) → Carries ((k, v) ∷ m) ((k, w) ∷ n) → v ≡ w
  same_head k v w m n c = some-injective v w (sym (head-find k v m) ∙ sym (c k) ∙ head-find k w n)

  -- Two maps that agree on every lookup are equal.
  pub Carries-ext : (m n : Map V) → IsSorted m → IsSorted n → Carries m n → m ≡ n
  Carries-ext [] [] s t c = refl
  Carries-ext [] ((j, w) ∷ n) s t c = ground (arith, c j, head-find j w n, find-nil {V = V} j)
  Carries-ext ((k, v) ∷ m) [] s t c = ground (arith, c k, head-find k v m, find-nil {V = V} k)
  Carries-ext ((k, v) ∷ m) ((j, w) ∷ n) s t c =
      let e = heads_lem k j v w m n s t c in
      let s' : IsSorted ((j, v) ∷ m) = rw e at s in
      let c' : Carries ((j, v) ∷ m) ((j, w) ∷ n) = rw e at c in
      ap₂ ◌∷◌ (ap₂ (λ (a : String) (b : V). (a, b)) e (same_head j v w m n c'))
        (Carries-ext m n s.1 t.1 (tails-Carries j v w m n s' t c'))

convert-back {ℓ κ} :
    {V : Type ℓ} {W : Type κ} (f : V → W) (g : W → V)
    → ((v : V) → g (f v) ≡ v)
    → (o : Option V) → convert g (convert f o) ≡ o
convert-back f g back none = refl
convert-back f g back (some v) = ap some (back v)

-- A sorted map, converted, carried in any order and converted back, is the same map.
pub fill-round {ℓ κ} :
    {V : Type ℓ} {W : Type κ} (f : V → W) (g : W → V)
    → ((v : V) → g (f v) ≡ v)
    → (m : Map V) (w : Map W) → IsSorted m
    → Carries (emplace_all f [] m) w
    → emplace_all g [] w ≡ m
fill-round f g back m w s c = Carries-ext (emplace_all g [] w) m (fill-IsSorted g w) s (λ k.
    sym
      (find-fill g k w ∙ ap (convert g) (c k ∙ find-fill f k m) ∙ convert-back f g back (find k m)))
