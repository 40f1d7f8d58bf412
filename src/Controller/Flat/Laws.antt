-- ===== src/Controller/Flat/Laws.antt =====
-- The flat controller of Edge/edgecontrollerflat.cpp meets what the base class relies on.
use serverlessonedge.Prelude.{
  String, Bool, true, false, List, [], ◌∷◌, if◌then◌else◌, ◌≡◌, refl, arith, Bool-cases, inl, inr,
  ◌∙◌, none, str_eq, ◌⊎◌,
}
use serverlessonedge.Prelude.Map.{Map, find, find-erase}
use serverlessonedge.Prelude.Float.{Float}
use serverlessonedge.Controller.{
  Controller, Notice, add_lambda, del_lambda, add_computer, del_computer, announce_computer,
  remove_computer, announce_router, remove_router, drop_router, initial,
}
use serverlessonedge.Controller.Serving.{LeavesMaps, IsConsistent}
use serverlessonedge.Controller.Calls.{Call, run, run-initial-IsConsistent, last_announced}
use serverlessonedge.Controller.Flat.{
  Route, tell_all, drop_routers, private_announce_computer, private_announce_router, remove_from,
  flat, container_routes,
}

-- The controller `c'` is `c` without some of its routers.
pub record OnlyDrops (c c' : Controller) : Type 0 where
  pub computers_stay : c'.computers ≡ c.computers
  pub lambdas_stay : c'.lambdas ≡ c.lambdas
  pub routers_drop :
      (k : String) → (find k c'.routers ≡ none) ⊎ (find k c'.routers ≡ find k c.routers)

drops_none : (c : Controller) → OnlyDrops c c
drops_none c = record { computers_stay = refl; lambdas_stay = refl; routers_drop = λ k. inr refl }

drops_one : (k : String) (c : Controller) → OnlyDrops c (drop_router k c)
drops_one k c = record {
  computers_stay = refl;
  lambdas_stay = refl;
  routers_drop = λ j. elim (Bool-cases (str_eq k j)) [
    | inl here ↦ inl (ground (arith, find-erase k j c.routers))
    | inr other ↦ inr (ground (arith, find-erase k j c.routers))
  ];
}

drops_trans : (a b c : Controller) → OnlyDrops a b → OnlyDrops b c → OnlyDrops a c
drops_trans a b c f g = record {
  computers_stay = g.computers_stay ∙ f.computers_stay;
  lambdas_stay = g.lambdas_stay ∙ f.lambdas_stay;
  routers_drop = λ k. elim (g.routers_drop k) [
    | inl gone ↦ inl gone
    | inr same ↦ elim (f.routers_drop k) [
      | inl gone ↦ inl (same ∙ gone)
      | inr still ↦ inr (same ∙ still)
    ]
  ];
}

drops_if : (b : Bool) (k : String) (c : Controller) → OnlyDrops c (if b then c else drop_router k c)
drops_if true k c = drops_none c
drops_if false k c = drops_one k c

drops_unless :
    {R : Type 0} (b done : Bool) (k : String) (c : Controller) (r r1 : R)
    → let s : Controller × R = if b then (c, r) else ((if done then c else drop_router k c), r1) in
      OnlyDrops c s.0
drops_unless true done k c r r1 = drops_none c
drops_unless false done k c r r1 = drops_if done k c

module _ {W R : Type 0} (d : Float W) (change_routes : String → List (Route W) → R → Bool × R)
    (remove_routes : String → String → List String → R → Bool × R) where
  pub drop_routers-OnlyDrops :
      (ks : List String) (c : Controller)
      → OnlyDrops c (drop_routers d change_routes remove_routes ks c)
  unfolding drop_routers
  drop_routers-OnlyDrops [] c = drops_none c
  drop_routers-OnlyDrops (k ∷ ks) c =
      drops_trans _ _ _ (drops_one k c) (drop_routers-OnlyDrops ks (drop_router k c))

  announce_router-OnlyDrops :
      (k q : String) (s : Controller × R)
      → OnlyDrops s.0 (private_announce_router d change_routes remove_routes k q s).0
  unfolding private_announce_router
  announce_router-OnlyDrops k q (c, r) = drops_unless _ _ k c r _

  pub remove_from-OnlyDrops :
      (e : String) (ls : List String) (m : Map String) (s : Controller × R)
      → OnlyDrops s.0 (remove_from d change_routes remove_routes e ls m s).0
  unfolding remove_from
  remove_from-OnlyDrops e ls [] s = drops_none s.0
  remove_from-OnlyDrops e ls ((k, q) ∷ m) (c, r) =
      drops_trans _ _ _ (drops_if (remove_routes q e ls r).0 k c) (remove_from-OnlyDrops e ls m _)

  -- Whatever the routers answer, a virtual call of the flat controller only drops routers: the
  -- computers and the lambdas stay as they are.
  pub flat-OnlyDrops :
      (n : Notice) (s : Controller × R) → OnlyDrops s.0 (flat d change_routes remove_routes n s).0
  unfolding flat private_announce_computer
  flat-OnlyDrops (add_lambda l) s = drops_none s.0
  flat-OnlyDrops (del_lambda l) s = drops_none s.0
  flat-OnlyDrops (add_computer e ls) s = drops_none s.0
  flat-OnlyDrops (del_computer e ls) s = drops_none s.0
  flat-OnlyDrops (announce_computer e cs) (c, r) =
      drop_routers-OnlyDrops
        (tell_all d change_routes remove_routes (container_routes d e cs) c.routers r).0 c
  flat-OnlyDrops (remove_computer e ls) s = remove_from-OnlyDrops e ls s.0.routers s
  flat-OnlyDrops (announce_router k q) s = announce_router-OnlyDrops k q s
  flat-OnlyDrops (remove_router k) s = drops_none s.0

  flat-LeavesMaps : LeavesMaps (flat d change_routes remove_routes)
  flat-LeavesMaps = record {
    same_computers = λ n s. (flat-OnlyDrops n s).computers_stay;
    same_lambdas = λ n s. (flat-OnlyDrops n s).lambdas_stay;
  }

  -- After any sequence of calls on a new flat controller, and whichever remote calls fail, its maps
  -- are consistent and it knows of each computer what that last announced.
  pub run-flat-IsConsistent :
      (calls : List Call) (r : R)
      → let s = run (flat d change_routes remove_routes) calls (initial, r) in
        IsConsistent s.0 × ((e : String) → find e s.0.computers ≡ last_announced e calls none)
  run-flat-IsConsistent calls r =
      run-initial-IsConsistent (flat d change_routes remove_routes) flat-LeavesMaps calls r
