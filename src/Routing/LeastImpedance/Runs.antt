-- ===== src/Routing/LeastImpedance/Runs.antt =====
-- Edge/Entries/entryleastimpedance.cpp: what `operator()` returns after any calls that change the
-- entry.
use serverlessonedge.Prelude.{
  String, Option, some, Option-cases, inl, inr, List, [], ok, ◌∷◌, ◌≡◌, ◌≢◌, ◌⊎◌, List-cases, sym,
  ◌∙◌,
}
use serverlessonedge.Prelude.Float.{Float, IsOrdered}
use serverlessonedge.Routing.Entry.{Entry, find_dest, Element}
use serverlessonedge.Routing.Entry.Contract.{IsValid}
use serverlessonedge.Routing.Entry.Runs.{Op, run, fresh, Leaves, has_removal, run-Leaves}
use serverlessonedge.Routing.LeastImpedance.{select, least_impedance}
use serverlessonedge.Routing.LeastImpedance.Laws.{
  AtMost, IsLeast, least_impedance-IsPolicy, select-AtMost,
}

-- The entry is empty, or `operator()` returns one of its destinations, and no destination has a
-- smaller weight.
abbrev pub SelectsLightest : {W : Type 0} → Float W → Entry W (Option String) → Type 0
SelectsLightest {W} d e =
    (e.destinations ≡ [])
    ⊎ ((y : Element W) × (select d e.destinations e.state ≡ ok (y.destination, e.state))
        × (find_dest y.destination e.destinations ≡ some y)
        × AtMost d y.weight e.destinations)

not_empty : {A : Type 0} (x : A) (xs : List A) → (x ∷ xs) ≢ []
not_empty x xs e = cc

-- After any sequence of calls on a new entry that change, weigh or remove destinations, `operator()`
-- returns a destination such that no destination has a smaller weight, if there are destinations.
-- Only a removal can make the sequence undefined.
pub run-SelectsLightest :
    {W E : Type 0} {d : Float W} (order : IsOrdered d) (ops : List (Op W E))
    → Leaves
        (SelectsLightest d)
        (has_removal ops)
        (run d (least_impedance d) ops (fresh {E = E} d (least_impedance d)))
run-SelectsLightest {E = E} {d = d} order ops =
    elim (Option-cases (run d (least_impedance d) ops (fresh {E = E} d (least_impedance d)))) [
      | inl undef ↦ rw undef (rw undef at all)
      | inr (e, there) ↦
          let valid : IsValid d (IsLeast d) e = rw there at all in
          rw there (elim (List-cases e.destinations) [
            | inl empty ↦ inl empty
            | inr (x, xs, more) ↦ inr (
                select-AtMost order e.destinations e.state valid.related
                  (λ n. not_empty x xs (sym more ∙ n)))
          ])
    ]
  where
    all :
        Leaves
          (IsValid d (IsLeast d))
          (has_removal ops)
          (run d (least_impedance d) ops (fresh {E = E} d (least_impedance d)))
    all = run-Leaves d (least_impedance d) (least_impedance-IsPolicy order) ops
