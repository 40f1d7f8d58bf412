-- ===== src/Routing/Table/Removal.antt =====
-- `remove(lambda, dest)` of Edge/forwardingtable.cpp with a policy that is always defined.
use serverlessonedge.Prelude.{
  String, Bool, true, false, ◌&&◌, none, List, Outcome, ok, throws, undefined, ◌≡◌, refl, arith,
  str_eq, if◌then◌else◌, Option-cases, inl, inr, Returns,
}
use serverlessonedge.Prelude.Map.{find}
use serverlessonedge.Prelude.Float.{Float, IsOrdered}
use serverlessonedge.Routing.Entry.{Element, Entry, Policy, find_dest, erase_dest, removed}
use serverlessonedge.Routing.Entry as entry
use serverlessonedge.Routing.Entry.Contract.{IsPolicy, IsClean, IsValid}
use serverlessonedge.Routing.Table.{Table, remove, after_remove}
use serverlessonedge.Routing.Table.Laws.{view}
use serverlessonedge.Routing.Table.Refinement.{IsTable, Shows}
use serverlessonedge.Routing.Table.Updates.{remove-Shows}

module _ {W E P : Type 0} (d : Float W) (p : Policy W E P) where
  removed-ok :
      (Q : P → Type 0) (ds : List (Element W)) (s : P) (r : Outcome P)
      → Returns Q r
      → (removed d p ds s r).0 ≡ ok true
  removed-ok Q ds s (ok s') h = refl
  removed-ok Q ds s (throws x) h = absurd h
  removed-ok Q ds s undefined h = absurd h

  after_remove-ok :
      (l : String) (t : Table W P) (b : Bool) (r : Outcome Bool × Entry W P)
      → r.0 ≡ ok b
      → (after_remove d p l t r).0 ≡ ok tt
  after_remove-ok l t b (ok a, e) h = refl
  after_remove-ok l t b (throws x, e) h = cc
  after_remove-ok l t b (undefined, e) h = cc

module _ {W E P : Type 0} {d : Float W} (order : IsOrdered d) (p : Policy W E P)
    {I : List (Element W) → P → Type 0} (laws : IsPolicy d p I) (clean : IsClean d p I) where
  entry_remove-ok :
      (env : E) (dest : String) (e : Entry W P)
      → IsValid d I e
      → (b : Bool) × ((entry.remove d p env dest e).0 ≡ ok b)
  unfolding entry.remove
  entry_remove-ok env dest e v = elim (Option-cases (find_dest dest e.destinations)) [
    | inl absent ↦ (false, ground (arith, absent))
    | inr (x, present) ↦ (
      true,
      rw (present, entry.remove)
          (removed-ok d p _ _ _ _
            (clean.del_returns env dest x e.destinations e.state v.distinct present v.related)),
    )
  ]

  remove-ok :
      (env : E) (l dest : String) (t : Table W P)
      → IsTable d I t
      → (remove d p env l dest t).0 ≡ ok tt
  unfolding remove
  remove-ok env l dest t i = elim (Option-cases (find l t)) [
    | inl absent ↦ ground (arith, absent)
    | inr (e, present) ↦
        let (b, done) = entry_remove-ok env dest e (i.entries l e present) in
        rw (present, remove) (after_remove-ok d p l t b _ done)
  ]

  -- With a policy whose updates are always defined, `remove(lambda, dest)` returns, and removes
  -- that destination and nothing else.
  pub remove_clean-Shows :
      (env : E) (l dest : String) (t : Table W P)
      → IsTable d I t
      → let r = remove d p env l dest t in
        (r.0 ≡ ok tt)
        × Shows d I r.1 (λ k j. if str_eq l k && str_eq dest j then none else view t k j)
  remove_clean-Shows env l dest t i = elim (remove-Shows order p laws env l dest t i) [
    | inl bad ↦ absurd (ground (arith, bad, remove-ok env l dest t i))
    | inr good ↦ good
  ]
