-- ===== src/Controller.antt =====
-- Edge/edgecontroller.{h,cpp}: the controller's knowledge of computers, routers and lambdas. Its
-- derived classes are told of changes by virtual calls: the function `notify` on the state of both.
pub mod Serving
pub mod Leaving
pub mod Announce
pub mod Calls
pub mod Tracking
pub mod Flat
mod Tests
use serverlessonedge.Prelude.{
  ℕ, String, Bool, true, false, ◌&&◌, ◌||◌, Option, none, some, List, [], ◌∷◌, map, str_eq, ◌==◌,
  if◌then◌else◌, is_some,
}
use serverlessonedge.Prelude.Map.{Map, StringSet, find, insert, erase, emplace, add}

-- `ContainerList::Container`
pub record ContainerInfo : Type 0 where
  pub name : String
  pub processor : String
  pub lambda : String
  pub num_workers : ℕ

abbrev pub ContainerList : Type 0
ContainerList = List ContainerInfo

abbrev pub same_container : ContainerInfo → ContainerInfo → Bool
same_container a b =
    str_eq a.name b.name
    && str_eq a.processor b.processor
    && str_eq a.lambda b.lambda
    && a.num_workers == b.num_workers

unfoldable pub same_containers : ContainerList → ContainerList → Bool
same_containers [] [] = true
same_containers [] (b ∷ bs) = false
same_containers (a ∷ as') [] = false
same_containers (a ∷ as') (b ∷ bs) = let rest = same_containers as' bs in same_container a b && rest

-- The base class; the derived class keeps the state `D`.
pub record Controller : Type 0 where
  pub computers : Map ContainerList
  pub routers : Map String
  pub lambdas : Map StringSet

abbrev pub initial : Controller
initial = record { computers = []; routers = []; lambdas = [] }

pub data AddStatus : Type 0 where
  not_present already_present containers_changed : AddStatus

-- The virtual calls, with their arguments.
pub data Notice : Type 0 where
  add_lambda del_lambda : String → Notice
  add_computer del_computer : String → List String → Notice
  announce_computer : String → ContainerList → Notice
  remove_computer : String → List String → Notice
  announce_router : String → String → Notice
  remove_router : String → Notice

abbrev pub lambdas_of : ContainerList → List String
lambdas_of = map λ c. c.lambda

-- `Computers::add`
unfoldable pub add_status : String → ContainerList → Map ContainerList → AddStatus
unfolding same_containers
add_status endpoint cs m = elim (find endpoint m) [
  | none ↦ not_present
  | some old ↦ if same_containers old cs then already_present else containers_changed
]

-- The containers of a computer, none if it is unknown.
abbrev pub containers_of : Option ContainerList → ContainerList
containers_of none = []
containers_of (some cs) = cs

-- The computers of a lambda, none if it is unknown.
abbrev pub computers_of : Option StringSet → StringSet
computers_of none = []
computers_of (some s) = s

-- `Routers::add`, `Routers::remove`, `Routers::forwardingServerEndpoint`
abbrev pub add_router : String → String → Controller → Controller
add_router server router c = record c { routers = insert server router c.routers }

abbrev pub drop_router : String → Controller → Controller
drop_router server c = record c { routers = erase server c.routers }

unfoldable pub forwarding_server_endpoint : String → Controller → String
forwarding_server_endpoint server c = elim (find server c.routers) [ none ↦ "" | some e ↦ e ]

unfoldable pub offered : String → ContainerList → List (String × String) → List (String × String)
offered e [] rest = rest
offered e (c ∷ cs) rest = (c.lambda, e) ∷ offered e cs rest

-- `Computers::lambdas`
unfoldable pub computer_lambdas : Map ContainerList → List (String × String)
unfolding offered
computer_lambdas [] = []
computer_lambdas ((e, cs) ∷ m) = offered e cs (computer_lambdas m)

-- `std::set::empty`
abbrev pub is_empty : StringSet → Bool
is_empty [] = true
is_empty (x ∷ xs) = false

module _ {D : Type 0} (notify : Notice → Controller × D → Controller × D) where
  -- One container of a computer that joins.
  unfoldable pub serve_one : String → ContainerInfo → Controller × D → Controller × D
  serve_one endpoint x (c, d) =
      let c1 = record c { lambdas = emplace x.lambda [] c.lambdas } in
      let fresh = is_empty (computers_of (find x.lambda c1.lambdas)) in
      let (c2, d2) = if fresh then notify (add_lambda x.lambda) (c1, d) else (c1, d) in
      let set = add endpoint (computers_of (find x.lambda c2.lambdas)) in
      (record c2 { lambdas = insert x.lambda set c2.lambdas }, d2)

  -- The loop of `announceComputer` over the containers.
  unfoldable pub serve : String → ContainerList → Controller × D → Controller × D
  serve endpoint [] s = s
  serve endpoint (x ∷ xs) s = serve endpoint xs (serve_one endpoint x s)

  -- One lambda that a computer leaves.
  unfoldable pub leave_one : String → String → Controller × D → Controller × D
  leave_one endpoint l (c, d) = elim (find l c.lambdas) [
    | none ↦ (c, d)
    | some set ↦
        let rest = erase endpoint set in
        if is_empty rest
        then notify (del_lambda l) (record c { lambdas = erase l c.lambdas }, d)
        else (record c { lambdas = insert l rest c.lambdas }, d)
  ]

  -- The loop of `privateRemoveComputer` over the lambdas of the computer.
  unfoldable pub leave : String → List String → Controller × D → Controller × D
  leave endpoint [] s = s
  leave endpoint (l ∷ ls) s = leave endpoint ls (leave_one endpoint l s)

  unfoldable pub private_remove_computer : String → Controller × D → Controller × D
  unfolding leave
  private_remove_computer endpoint (c, d) =
      let ls = lambdas_of (containers_of (find endpoint c.computers)) in
      let left = leave endpoint ls (record c { computers = erase endpoint c.computers }, d) in
      notify (remove_computer endpoint ls) (notify (del_computer endpoint ls) left)

  -- The part of `announceComputer` that a known computer with the same containers does not reach;
  -- `Computers::add` has just inserted the computer.
  unfoldable pub welcome : String → ContainerList → Controller × D → Controller × D
  unfolding serve
  welcome endpoint cs (c, d) =
      let served = serve endpoint cs (record c { computers = insert endpoint cs c.computers }, d) in
      notify (announce_computer endpoint cs) (notify (add_computer endpoint (lambdas_of cs)) served)

  unfoldable pub announce : String → ContainerList → Controller × D → Controller × D
  unfolding add_status welcome private_remove_computer
  announce endpoint cs s = elim (add_status endpoint cs s.0.computers) [
    | already_present ↦ s
    | not_present ↦ welcome endpoint cs s
    | containers_changed ↦ welcome endpoint cs (private_remove_computer endpoint s)
  ]

  unfoldable pub announce_router_at : String → String → Controller × D → Controller × D
  announce_router_at server router (c, d) =
      notify (announce_router server router) (add_router server router c, d)

  unfoldable pub remove_router_at : String → Controller × D → Controller × D
  remove_router_at server (c, d) = notify (remove_router server) (drop_router server c, d)
