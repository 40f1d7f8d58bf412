-- ===== src/Routing/Random.antt =====
-- Edge/Entries/entryrandom.cpp: a destination at random, by the inverse of its weight. The number
-- that `support::random()` answers is the environment of a call.
use serverlessonedge.Prelude.{
  String, true, List, [], ◌∷◌, if◌then◌else◌, Outcome, ok, throws, undefined, no_destinations, ◌≡◌,
  refl, arith, is_some, str_eq_iff, ◌≢◌, Returns, Bool-cases, inl, inr,
}
use serverlessonedge.Prelude.Float.{Float}
use serverlessonedge.Routing.Entry.{Element, Policy, find_dest}
use serverlessonedge.Routing.Entry.Contract.{IsPolicy, IsClean}

module _ {W : Type 0} (d : Float W) where
  -- The loop of `operator()` up to the last element, which it returns if it leaves the loop;
  -- `back()` of an empty list is undefined.
  unfoldable pub pick : W → W → List (Element W) → Outcome String
  pick rand sum [] = undefined
  pick rand sum (x ∷ []) = ok x.destination
  pick rand sum (x ∷ y ∷ ys) =
      let next = d.add sum (d.div d.one x.weight) in
      let rest = pick rand next (y ∷ ys) in if d.le rand next then ok x.destination else rest

  abbrev pub keep_sum : W → Outcome String → Outcome (String × W)
  keep_sum s (ok n) = ok (n, s)
  keep_sum s (throws x) = throws x
  keep_sum s undefined = undefined

  -- `operator()`; the state is `theInvSum`.
  unfoldable pub select : W → List (Element W) → W → Outcome (String × W)
  unfolding pick
  select rand [] s = throws no_destinations
  select rand (x ∷ []) s = ok (x.destination, s)
  select rand (x ∷ y ∷ ys) s = keep_sum s (pick (d.mul rand s) d.nought (x ∷ y ∷ ys))

  unfoldable pub update_weight : W → W → W → Outcome W
  update_weight old new s = ok (d.add s (d.sub (d.div d.one new) (d.div d.one old)))

  unfoldable pub update_add_dest : W → W → Outcome W
  update_add_dest weight s = ok (d.add s (d.div d.one weight))

  unfoldable pub update_del_dest : W → W → Outcome W
  update_del_dest weight s = ok (d.sub s (d.div d.one weight))

  unfoldable pub random : Policy W W W
  random = record {
    fresh = d.nought;
    select = λ env ds s. select env ds s;
    update_weight = λ env ds dest old new s. update_weight old new s;
    update_add_dest = λ env ds dest weight s. update_add_dest weight s;
    update_del_dest = λ env ds dest weight s. update_del_dest weight s;
  }

  abbrev pub Anything : List (Element W) → W → Type 0
  Anything ds s = Unit

  -- An outcome that returns an element of the list by its name.
  abbrev Picks : List (Element W) → Outcome String → Type 0
  Picks ds = Returns λ n. is_some (find_dest n ds) ≡ true

  Picks-more :
      (x : Element W) (ds : List (Element W)) (o : Outcome String) → Picks ds o → Picks (x ∷ ds) o
  unfolding find_dest
  Picks-more x ds (ok n) h = ground arith
  Picks-more x ds (throws e) h = h
  Picks-more x ds undefined h = h

  Picks-pick :
      (rand sum : W) (x : Element W) (xs : List (Element W))
      → Picks (x ∷ xs) (pick rand sum (x ∷ xs))
  unfolding pick find_dest
  Picks-pick rand sum x [] = ground (arith, str_eq_iff x.destination x.destination)
  Picks-pick rand sum x (y ∷ ys) =
      let next = d.add sum (d.div d.one x.weight) in
      elim (Bool-cases (d.le rand next)) [
        | inl here ↦ rw here (ground (arith, str_eq_iff x.destination x.destination))
        | inr on ↦
            rw on (Picks-more x (y ∷ ys) (pick rand next (y ∷ ys)) (Picks-pick rand next y ys))
      ]

  Picks-keep_sum :
      (ds : List (Element W)) (s : W) (o : Outcome String)
      → Picks ds o
      → Returns (λ r. (is_some (find_dest r.0 ds) ≡ true) × Anything ds r.1) (keep_sum s o)
  Picks-keep_sum ds s (ok n) h = (h, tt)
  Picks-keep_sum ds s (throws e) h = h
  Picks-keep_sum ds s undefined h = h

  select-Returns :
      (rand : W) (ds : List (Element W)) (s : W)
      → ds ≢ []
      → Returns (λ r. (is_some (find_dest r.0 ds) ≡ true) × Anything ds r.1) (select rand ds s)
  unfolding select find_dest
  select-Returns rand [] s n = absurd (n refl)
  select-Returns rand (x ∷ []) s n = (ground (arith, str_eq_iff x.destination x.destination), tt)
  select-Returns rand (x ∷ y ∷ ys) s n =
      Picks-keep_sum (x ∷ y ∷ ys) s _ (Picks-pick (d.mul rand s) d.nought x (y ∷ ys))

  -- A random entry, whatever the numbers drawn: it never throws while it has a destination, and it
  -- returns one of its destinations; no update fails.
  pub random-IsPolicy : IsPolicy d random Anything
  unfolding random update_weight update_add_dest update_del_dest select
  random-IsPolicy = record {
    fresh_keeps = tt;
    weight_keeps = λ env dest x f ds s same u a h pos i. tt;
    add_keeps = λ env x ds s u a h q i. tt;
    del_keeps = λ env dest x ds s u a h i. tt;
    select_empty = λ env s i. refl;
    select_keeps = λ env ds s n a i. select-Returns env ds s n;
  }

  pub random-IsClean : IsClean d random Anything
  unfolding random update_del_dest
  random-IsClean = record { del_returns = λ env dest x ds s u h i. tt }
