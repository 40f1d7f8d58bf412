-- ===== src/Controller/Flat.antt =====
-- Edge/edgecontrollerflat.cpp: every router learns of every computer. `changeRoutes` and
-- `removeRoutes` are remote calls that may fail, on a state `R` of the routers: they are
-- parameters. `removeRouter` is `drop_router`, since `privateRemoveRouter` does nothing here.
pub mod Laws
pub mod Routers
use serverlessonedge.Prelude.{String, Bool, true, false, List, [], ◌∷◌, map, if◌then◌else◌}
use serverlessonedge.Prelude.Map.{Map}
use serverlessonedge.Prelude.Float.{Float}
use serverlessonedge.Controller.{
  ContainerInfo, ContainerList, Controller, Notice, add_lambda, del_lambda, add_computer,
  del_computer, announce_computer, remove_computer, announce_router, remove_router, drop_router,
  computer_lambdas,
}

-- An element of `Entries`.
pub record Route (W : Type 0) : Type 0 where
  pub lambda : String
  pub destination : String
  pub weight : W
  pub final : Bool

module _ {W : Type 0} (d : Float W) where
  abbrev pub container_routes : String → ContainerList → List (Route W)
  container_routes e =
      map λ c. record { lambda = c.lambda; destination = e; weight = d.one; final = true }

  abbrev pub computer_routes : Map ContainerList → List (Route W)
  computer_routes m =
      map (λ x. record { lambda = x.0; destination = x.1; weight = d.one; final = true })
        (computer_lambdas m)

module _ {W R : Type 0} (d : Float W) (change_routes : String → List (Route W) → R → Bool × R)
    (remove_routes : String → String → List String → R → Bool × R) where
  -- The loop of `privateAnnounceComputer` over the routers; it returns `myRemoveList`.
  unfoldable pub tell_all : List (Route W) → Map String → R → List String × R
  tell_all routes [] r = ([], r)
  tell_all routes ((server, router) ∷ m) r =
      let (done, r1) = change_routes router routes r in
      let (bad, r2) = tell_all routes m r1 in ((if done then bad else server ∷ bad), r2)

  -- The loop that removes the routers of `myRemoveList`.
  unfoldable pub drop_routers : List String → Controller → Controller
  drop_routers [] c = c
  drop_routers (server ∷ servers) c = drop_routers servers (drop_router server c)

  unfoldable pub private_announce_computer :
      String → ContainerList → Controller × R → Controller × R
  unfolding tell_all drop_routers
  private_announce_computer e cs (c, r) =
      let (bad, r1) = tell_all (container_routes d e cs) c.routers r in (drop_routers bad c, r1)

  abbrev pub is_none : List (Route W) → Bool
  is_none [] = true
  is_none (x ∷ xs) = false

  unfoldable pub private_announce_router : String → String → Controller × R → Controller × R
  private_announce_router server router (c, r) =
      let routes = computer_routes d c.computers in
      let (done, r1) = change_routes router routes r in
      if is_none routes then (c, r) else ((if done then c else drop_router server c), r1)

  -- The loop of `privateRemoveComputer` over the copy of the routers.
  unfoldable pub remove_from : String → List String → Map String → Controller × R → Controller × R
  remove_from e ls [] s = s
  remove_from e ls ((server, router) ∷ m) (c, r) =
      let (done, r1) = remove_routes router e ls r in
      remove_from e ls m ((if done then c else drop_router server c), r1)

  -- The virtual functions of the class.
  unfoldable pub flat : Notice → Controller × R → Controller × R
  unfolding private_announce_computer private_announce_router remove_from
  flat (add_lambda l) s = s
  flat (del_lambda l) s = s
  flat (add_computer e ls) s = s
  flat (del_computer e ls) s = s
  flat (announce_computer e cs) s = private_announce_computer e cs s
  flat (remove_computer e ls) s = remove_from e ls s.0.routers s
  flat (announce_router server router) s = private_announce_router server router s
  flat (remove_router server) s = s
