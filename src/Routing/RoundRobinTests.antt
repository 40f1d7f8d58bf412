-- ===== src/Routing/RoundRobinTests.antt =====
-- Runs of a round-robin entry of Edge/Entries/entryroundrobin.cpp with whole numbers.
use serverlessonedge.Prelude.{
  ℕ, String, true, some, List, [], ◌∷◌, ok, undefined, ◌+◌, ◌⊎◌, inr, if-cases, ◌≡◌, refl, arith,
  leb, ltb, false, All, if◌then◌else◌, inl,
}
use serverlessonedge.Prelude.Float.{whole, whole-IsOrdered}
use serverlessonedge.Prelude.Map.{find, insert, mem}
use serverlessonedge.Routing.Entry.{Element, find_dest, erase_dest, remove}
use serverlessonedge.Routing.Entry.Contract.{IsPolicy}
use serverlessonedge.Routing.RoundRobin.{CacheElement, RoundRobin, select, new_element, round_robin}
use serverlessonedge.Routing.RoundRobin.ActiveSet.{Doubles}
use serverlessonedge.Routing.RoundRobin.Kept.{IsKept}
use serverlessonedge.Routing.RoundRobin.Selection.{Picks, Among, select_least}
use serverlessonedge.Routing.RoundRobin.Contract.{round_robin-IsPolicy}
use serverlessonedge.Routing.RoundRobin.Removal.{remove_active_undefined}

-- The first of the elements with the smallest value.
abbrev first_of : String × ℕ → List (String × ℕ) → String × ℕ
first_of best [] = best
first_of best (x ∷ xs) = first_of (if leb best.1 x.1 then best else x) xs

abbrev top : List (String × ℕ) → String × ℕ
top [] = ("", 0)
top (x ∷ xs) = first_of x xs

doubles : Doubles whole
doubles w h = ground arith

abbrev near : Element ℕ
near = record { destination = "host1:6473"; weight = 1; final = true }

abbrev far : Element ℕ
far = record { destination = "host2:6473"; weight = 2; final = true }

abbrev state : RoundRobin ℕ
state = record {
  cache =
      ("host1:6473", record (new_element whole 1 0) { deficit = 3 })
      ∷ ("host2:6473", record (new_element whole 2 0) { deficit = 2 })
      ∷ [];
  queue = "host1:6473" ∷ "host2:6473" ∷ [];
}

state-IsKept : IsKept (near ∷ far ∷ []) state
unfolding find find_dest
state-IsKept = record {
  tracks = record {
    sorted = ((refl, tt), (tt, tt));
    known = λ j. ground arith;
    present = (refl, (refl, tt));
  };
  queued = (refl, (refl, tt));
  served = inl (λ e. ground (arith, e));
}

first_of-Among :
    (best : String × ℕ) (xs : List (String × ℕ))
    → (first_of best xs ≡ best) ⊎ Among (first_of best xs) xs
first_of-Among best [] = inl refl
first_of-Among best (x ∷ xs) =
    if-cases
      (λ (b : String × ℕ).
        (first_of b xs ≡ best) ⊎ ((first_of b xs ≡ x) ⊎ Among (first_of b xs) xs))
      (leb best.1 x.1) best x
      (λ _. elim (first_of-Among best xs) [ inl a ↦ inl a | inr h ↦ inr (inr h) ])
      (λ _. elim (first_of-Among x xs) [ inl a ↦ inr (inl a) | inr h ↦ inr (inr h) ])

first_of-le :
    (best : String × ℕ) (xs : List (String × ℕ))
    → (leb (first_of best xs).1 best.1 ≡ true) × All (λ x. leb (first_of best xs).1 x.1 ≡ true) xs
first_of-le best [] = (ground arith, tt)
first_of-le best (x ∷ xs) =
    if-cases
      (λ (b : String × ℕ).
        (leb (first_of b xs).1 best.1 ≡ true)
        × ((leb (first_of b xs).1 x.1 ≡ true) × All (λ y. leb (first_of b xs).1 y.1 ≡ true) xs))
      (leb best.1 x.1) best x
      (λ le. let (a, h) = first_of-le best xs in (a, (ground (arith, a, le), h)))
      (λ gt. let (a, h) = first_of-le x xs in (ground (arith, a, gt), (a, h)))

never_less :
    (x : String × ℕ) (es : List (String × ℕ))
    → All (λ y. leb x.1 y.1 ≡ true) es
    → All (λ y. ltb y.1 x.1 ≡ false) es
never_less x [] a = tt
never_less x (y ∷ es) a = (ground (arith, a.0), never_less x es a.1)

picks : Picks whole top
picks e es = (first_of-Among e es, never_less (top (e ∷ es)) (e ∷ es) (first_of-le e es))

round_robin-IsPolicy_example : IsPolicy whole (round_robin whole top 1000) IsKept
round_robin-IsPolicy_example = round_robin-IsPolicy whole top 1000 picks doubles

select_least_example :
    (name : String) × (e : CacheElement ℕ) × (select whole top 7 (near ∷ far ∷ []) state
      ≡ ok (
        name,
        record state {
          cache = insert name (record e { deficit = e.deficit + e.weight }) state.cache;
        },
      ))
    × (find name state.cache ≡ some e)
    × (mem name state.queue ≡ true)
    × All
        (λ q.
          (f : CacheElement ℕ) × (find q state.cache ≡ some f) × (leb e.deficit f.deficit ≡ true))
        state.queue
select_least_example =
    select_least whole top picks whole-IsOrdered 7 (near ∷ far ∷ []) state state-IsKept
      (λ e. ground (arith, e))

remove_active_undefined_example :
    (remove whole
      (round_robin whole top 1000)
      7
      "host1:6473"
      (record { destinations = near ∷ far ∷ []; state = state })).0
    ≡ undefined
unfolding find_dest erase_dest
remove_active_undefined_example =
    remove_active_undefined whole top 1000 7 "host1:6473" near
      (record { destinations = near ∷ far ∷ []; state = state })
      (record {
        distinct = (refl, (refl, tt));
        stored = ((refl, refl), ((refl, refl), tt));
        related = state-IsKept;
      })
      refl refl (λ e. ground (arith, e))
