-- ===== src/Messages/Tests.antt =====
-- Requests, responses and lists of containers of Edge/edgemessages.cpp that travel.
use serverlessonedge.Prelude.{
  true, false, none, some, List, [], ◌∷◌, ◌≡◌, refl, ok, arith, str_eq_iff, Bool-cases, inl, inr,
  str_eq, Returns, ◌⊎◌, throws, runtime_error, ◌^◌, ◌-◌,
}
use serverlessonedge.Prelude.Map.{Map, find, insert}
use serverlessonedge.Workflow.Chain.{Chain}
use serverlessonedge.Workflow.Chain
use serverlessonedge.Workflow.Dag.{Dag}
use mathlib.Core.Path.{subst}
use serverlessonedge.Messages.Request.Relay.{relay_lem}
use serverlessonedge.Workflow.Chain.{IsComplete}
use serverlessonedge.Workflow.Dag
use serverlessonedge.Prelude.Word.{sub64-eq}
use serverlessonedge.Prelude.Float.{whole}
use serverlessonedge.Messages.Request.Hops.{Way, travel, travel_lem}
use serverlessonedge.Messages.Request.Refused.{from_protobuf-IsComplete, single_function_dag-lost}
use serverlessonedge.Messages.Response.RoundTrip as ResponseTrip
use serverlessonedge.Messages.Containers.{
  container_list_from_protobuf, container_list_from_protobuf-to_protobuf,
}
use serverlessonedge.Messages.Containers
use serverlessonedge.Messages.Rpc
use serverlessonedge.Messages.Wire.{Carries, emplace_all}
use serverlessonedge.Messages.AppState.{AppState, from_content, from_location}
use serverlessonedge.Messages.AppState
use serverlessonedge.Messages.Request
use serverlessonedge.Messages.Request.{LambdaRequest}
use serverlessonedge.Messages.Response.{LambdaResponse}
use serverlessonedge.Messages.Response
use serverlessonedge.Messages.Request.RoundTrip.{IsSendable}
use serverlessonedge.Messages.Request.RoundTrip

abbrev chain : Chain
chain = record { functions = "f" ∷ "g" ∷ []; states = ("s", "g" ∷ []) ∷ [] }

abbrev request : LambdaRequest
request = record (Request.create "f" "hello" "" "uuid") {
  states = ("s", from_content "content") ∷ ("t", from_location "server:1") ∷ [];
  chain = some chain;
  hops = 2;
}

request-IsSendable : IsSendable request
unfolding Request.create Chain.create find insert
request-IsSendable = record {
  states = ((refl, tt), (tt, tt));
  dependencies = (tt, tt);
  chain = ((λ e. ground (arith, e)), refl, refl);
  dag = tt;
}

-- The states of `request` on the wire, the other way round.
abbrev turned : Map Rpc.State
turned =
    ("t", AppState.to_protobuf (from_location "server:1"))
    ∷ ("s", AppState.to_protobuf (from_content "content"))
    ∷ []

turned-Carries : Carries (Request.to_protobuf request).states turned
unfolding Request.to_protobuf AppState.serialize_states find insert emplace_all from_location
    from_content Request.create
turned-Carries k = elim (Bool-cases (str_eq "s" k)) [
  | inl e ↦
      subst (λ j. find j turned ≡ find j (Request.to_protobuf request).states)
        ((str_eq_iff "s" k).0 e) refl
  | inr n ↦ ground (arith, n)
]

dependencies-Carries : Carries (Request.to_protobuf request).dependencies chain.states
unfolding Request.to_protobuf Request.create find insert emplace_all
dependencies-Carries k = refl

from_protobuf-to_protobuf_example :
    (Request.from_protobuf (RoundTrip.arrived (Request.to_protobuf request) turned chain.states)
      ≡ ok (record request { forward = true }))
    × (Request.same_request request (record request { forward = true }) ≡ true)
from_protobuf-to_protobuf_example =
    RoundTrip.from_protobuf-to_protobuf request turned chain.states request-IsSendable
      turned-Carries dependencies-Carries

-- What the request is when it has arrived, and the message that brings it.
abbrev received : LambdaRequest
received = record request { forward = true }

request-received :
    Request.from_protobuf (RoundTrip.arrived (Request.to_protobuf request) turned chain.states)
    ≡ ok received
request-received =
    (RoundTrip.from_protobuf-to_protobuf request turned chain.states request-IsSendable
      turned-Carries dependencies-Carries).0

relay_lem_example :
    Request.from_protobuf (RoundTrip.arrived (Request.to_protobuf received) turned chain.states)
    ≡ ok received
unfolding Request.to_protobuf
relay_lem_example =
    relay_lem (RoundTrip.arrived (Request.to_protobuf request) turned chain.states) received turned
      chain.states request-received turned-Carries dependencies-Carries

-- Two nodes on the way, and a count of hops that wraps around.
abbrev last_count : LambdaRequest
last_count = record received { hops = 2 ^ 32 - 1 }

abbrev ways : List Way
ways = (turned, chain.states) ∷ (turned, chain.states) ∷ []

last_count-IsSendable : RoundTrip.IsSendable last_count
last_count-IsSendable =
    let s = request-IsSendable in
    record { states = s.states; dependencies = s.dependencies; chain = s.chain; dag = s.dag }

travel_lem_example : travel ways last_count ≡ ok (record last_count { hops = 1 })
unfolding Request.to_protobuf
travel_lem_example =
    travel_lem (RoundTrip.arrived (Request.to_protobuf last_count) turned chain.states) last_count
      ways
      (RoundTrip.from_protobuf-to_protobuf last_count turned chain.states last_count-IsSendable
        turned-Carries dependencies-Carries).0
      (omega arith)
      ((turned-Carries, dependencies-Carries), ((turned-Carries, dependencies-Carries), tt))

-- A message with the chain of `request`.
abbrev message : Rpc.LambdaRequest
message = RoundTrip.arrived (Request.to_protobuf request) turned chain.states

from_protobuf-IsComplete_example :
    (Returns
        (λ r. r.chain ≡ some (record { functions = "f" ∷ "g" ∷ []; states = chain.states }))
        (Request.from_protobuf message)
      × IsComplete ("f" ∷ "g" ∷ []) chain.states)
    ⊎ ((Request.from_protobuf message ≡ throws runtime_error)
        × ¬ IsComplete ("f" ∷ "g" ∷ []) chain.states)
unfolding Request.to_protobuf Request.create
from_protobuf-IsComplete_example =
    from_protobuf-IsComplete message "f" ("g" ∷ []) chain.states refl refl (tt, tt) (λ k. refl)

-- A graph of two functions, and the one of its first function.
abbrev graph : Dag
graph = record {
  successors = (1 ∷ []) ∷ [];
  predecessors = (0 ∷ []) ∷ [];
  function_names = "f" ∷ "g" ∷ [];
  states = ("s", "f" ∷ []) ∷ [];
}

abbrev single : Dag
single = record {
  successors = [];
  predecessors = [];
  function_names = "f" ∷ [];
  states = ("s", "f" ∷ []) ∷ [];
}

single_function_dag-ok : Dag.single_function_dag "f" graph ≡ ok single
unfolding Dag.single_function_dag Dag.create find insert Chain.all_found Chain.unique_functions
single_function_dag-ok = rw (sub64-eq 1 1 (omega arith) (omega arith)) refl

abbrev single_request : LambdaRequest
single_request = record (Request.create "f" "hello" "" "uuid") { dag = some single }

single_function_dag-lost_example :
    Returns
      (λ s. (s.dag ≡ none) × (Request.same_request single_request s ≡ false))
      (Request.from_protobuf
        (RoundTrip.arrived (Request.to_protobuf single_request) [] single.states))
unfolding Request.create
single_function_dag-lost_example =
    single_function_dag-lost "f" graph single single_request [] single.states single_function_dag-ok
      refl refl

abbrev response : LambdaResponse
response = record (Response.create whole "OK" "out") { load10 = 7; states = request.states }

response-IsWellFormed : ResponseTrip.IsWellFormed response
unfolding Request.create
response-IsWellFormed = record {
  states = request-IsSendable.states;
  load1 = omega arith;
  load10 = omega arith;
  load30 = omega arith;
}

from_protobuf_lem_example :
    Response.from_protobuf (ResponseTrip.arrived (Response.to_protobuf response) turned) ≡ response
unfolding Response.to_protobuf Request.to_protobuf
from_protobuf_lem_example =
    ResponseTrip.from_protobuf_lem response turned response-IsWellFormed turned-Carries

container_list_from_protobuf-to_protobuf_example :
    container_list_from_protobuf (
      Containers.to_protobuf "server:1"
        (record { name = "c"; processor = "p"; lambda = "l"; num_workers = 2 } ∷ []))
    ≡ record { name = "c"; processor = "p"; lambda = "l"; num_workers = 2 } ∷ []
container_list_from_protobuf-to_protobuf_example =
    container_list_from_protobuf-to_protobuf "server:1"
      (record { name = "c"; processor = "p"; lambda = "l"; num_workers = 2 } ∷ [])
