-- ===== src/Storing/Server.antt =====
-- Edge/stateserver.{h,cpp}: the handlers of the state server. A handler fills the response that it
-- is given; the mutex makes it one step.
use Prim.Native.String.{◌++◌}
use serverlessonedge.Prelude.{String, if◌then◌else◌, is_some, none, some, ◌≡◌, refl}
use serverlessonedge.Prelude.Map.{Map, find, insert, erase}
use serverlessonedge.Messages.Rpc.{State, StateResponse}

-- `theStateRepo`
abbrev pub StateRepo : Type 0
StateRepo = Map String

-- `StateServerImpl::Get`
unfoldable pub get : State → StateResponse → StateRepo → StateResponse
get s r repo = elim (find s.name repo) [
  | none ↦ record r { retcode = "could not find state: " ++ s.name }
  | some content ↦ record r { state = record r.state { content = content }; retcode = "OK" }
]

-- `StateServerImpl::Put`
unfoldable pub put : State → StateResponse → StateRepo → StateResponse × StateRepo
put s r repo = (record r { retcode = "OK" }, insert s.name s.content repo)

-- `StateServerImpl::Del`
unfoldable pub del : State → StateResponse → StateRepo → StateResponse × StateRepo
del s r repo =
    if is_some (find s.name repo)
    then (record r { retcode = "OK" }, erase s.name repo)
    else (record r { retcode = "state not found: " ++ s.name }, repo)

pub get-found :
    (s : State) (r : StateResponse) (repo : StateRepo) (v : String)
    → find s.name repo ≡ some v
    → get s r repo ≡ record r { state = record r.state { content = v }; retcode = "OK" }
unfolding get
get-found s r repo v e = rw (get, e) refl
