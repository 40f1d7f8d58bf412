-- ===== src/Prelude/Map/Sorted.antt =====
-- A map keeps its keys in strict order, so that a key stands in it at most once: an entry met in
-- an iteration is the one that a lookup returns, and the other way round.
use Prim.Native.String.{String}
use mathlib.Core.Path.{◌≡◌, refl, subst₂}
use mathlib.Core.Bool.{true, false}
use mathlib.Core.Option.{none, some}
use mathlib.Core.Logic.{inl, inr}
use mathlib.Core.List.{[], ◌∷◌}
use native.Mathlib.Omega.{arith}
use text.Mathlib.Text.{◌==◌ as str_eq}
use text.Mathlib.TextEquality.{eq_iff}
use serverlessonedge.Prelude.Tests.{Bool-cases}
use serverlessonedge.Prelude.Lists.{All}
use serverlessonedge.Prelude.KeyOrder.{compare_trans, compare_swap, compare_swap_gt, compare_irrefl}
use serverlessonedge.Prelude.Map.{Map, before, find, insert, erase, emplace}

before_trans : (i j k : String) → before i j ≡ true → before j k ≡ true → before i k ≡ true
before_trans i j k p q = ground (arith, compare_trans i j k)

pub before_total : (j k : String) → str_eq j k ≡ false → before k j ≡ false → before j k ≡ true
before_total j k p q = ground (arith, compare_swap j k, compare_swap_gt j k)

module _ {ℓ} {V : Type ℓ} where
  -- Every key comes after `k`.
  abbrev pub Above : String → Map V → Type 0
  Above k [] = Unit
  Above k ((j, v) ∷ m) = (before k j ≡ true) × Above k m

  abbrev pub IsSorted : Map V → Type 0
  IsSorted [] = Unit
  IsSorted ((k, v) ∷ m) = Above k m × IsSorted m

  pub Above-mono : (i k : String) (m : Map V) → before i k ≡ true → Above k m → Above i m
  Above-mono i k [] h a = tt
  Above-mono i k ((j, v) ∷ m) h a = (before_trans i k j h a.0, Above-mono i k m h a.1)

  pub find-Above : (k : String) (m : Map V) → Above k m → find k m ≡ none
  unfolding find
  find-Above k [] a = refl
  find-Above k ((j, v) ∷ m) a = ground (arith, eq_iff j k, compare_irrefl k, find-Above k m a.1)

  Above-insert :
      (i k : String) (v : V) (m : Map V) → before i k ≡ true → Above i m → Above i (insert k v m)
  unfolding insert
  Above-insert i k v [] h a = (h, tt)
  Above-insert i k v ((j, w) ∷ m) h a = ground (arith, Above-insert i k v m h a.1)

  pub insert-IsSorted : (k : String) (v : V) (m : Map V) → IsSorted m → IsSorted (insert k v m)
  unfolding insert
  insert-IsSorted k v [] s = (tt, tt)
  insert-IsSorted k v ((j, w) ∷ m) s = elim (Bool-cases (str_eq j k)) [
    | inl same ↦ rw same (ground (arith, (eq_iff j k).0 same, s))
    | inr other ↦ elim (Bool-cases (before k j)) [
      | inl first ↦ rw (other, first) ((first, Above-mono k j m first s.0), s)
      | inr later ↦
          rw (other, later)
            (Above-insert j k v m (before_total j k other later) s.0, insert-IsSorted k v m s.1)
    ]
  ]

  pub emplace-IsSorted : (k : String) (v : V) (m : Map V) → IsSorted m → IsSorted (emplace k v m)
  emplace-IsSorted k v m s = ground (arith, insert-IsSorted k v m s)

  Above-erase : (i k : String) (m : Map V) → Above i m → Above i (erase k m)
  unfolding erase
  Above-erase i k [] a = tt
  Above-erase i k ((j, w) ∷ m) a = ground (arith, Above-erase i k m a.1)

  pub erase-IsSorted : (k : String) (m : Map V) → IsSorted m → IsSorted (erase k m)
  unfolding erase
  erase-IsSorted k [] s = tt
  erase-IsSorted k ((j, w) ∷ m) s = ground (arith, Above-erase j k m s.0, erase-IsSorted k m s.1)

  -- What holds of every entry holds of what a lookup finds.
  pub All-find {κ} :
      (P : String → V → Type κ) (k : String) (v : V) (m : Map V)
      → All (λ e. P e.0 e.1) m
      → find k m ≡ some v
      → P k v
  unfolding find
  All-find P k v [] a h = ground arith
  All-find P k v ((j, w) ∷ m) a h = elim (Bool-cases (str_eq j k)) [
    | inl same ↦ let e : w ≡ v = ground arith in subst₂ P ((eq_iff j k).0 same) e a.0
    | inr other ↦ All-find P k v m a.1 (rw other at h)
  ]

  find-head : (j : String) (w : V) (m : Map V) → find j ((j, w) ∷ m) ≡ some w
  unfolding find
  find-head j w m = rw (eq_iff j j).1 refl

  find-tail :
      (j : String) (w : V) (k : String) (v : V) (m : Map V)
      → Above j m
      → find k m ≡ some v
      → find k ((j, w) ∷ m) ≡ some v
  unfolding find
  find-tail j w k v m a h = ground (arith, eq_iff j k, find-Above j m a)

  -- What holds of whatever a lookup finds holds of every entry.
  pub All-of_find {κ} :
      (P : String → V → Type κ) (m : Map V)
      → IsSorted m
      → ((k : String) (v : V) → find k m ≡ some v → P k v)
      → All (λ e. P e.0 e.1) m
  All-of_find P [] s h = tt
  All-of_find P ((j, w) ∷ m) s h =
      (h j w (find-head j w m), All-of_find P m s.1 (λ k v e. h k v (find-tail j w k v m s.0 e)))
