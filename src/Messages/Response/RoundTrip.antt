-- ===== src/Messages/Response/RoundTrip.antt =====
-- Edge/edgemessages.cpp: a response that is sent is the response that arrives.
use serverlessonedge.Prelude.{◌%◌, ◌^◌, ◌<◌, String, ◌≡◌, refl, arith}
use serverlessonedge.Prelude.Map.{Map}
use serverlessonedge.Prelude.Map.Sorted.{IsSorted}
use serverlessonedge.Prelude.Float.{Float}
use serverlessonedge.Messages.Rpc
use serverlessonedge.Messages.Wire.{Carries}
use serverlessonedge.Messages.Wire.Laws.{fill-IsSorted}
use serverlessonedge.Messages.AppState.{
  AppState, serialize_states, deserialize_states, deserialize_states_lem,
}
use serverlessonedge.Messages.AppState
use serverlessonedge.Messages.Response.{
  LambdaResponse, Loads, from_protobuf, to_protobuf, create_loaded,
}

-- The loads fit an `unsigned short`, and the states are in the order of their names.
pub record IsWellFormed (r : LambdaResponse) : Type 0 where
  pub states : IsSorted r.states
  pub load1 : r.load1 < 2 ^ 16
  pub load10 : r.load10 < 2 ^ 16
  pub load30 : r.load30 < 2 ^ 16

abbrev pub arrived : Rpc.LambdaResponse → Map Rpc.State → Rpc.LambdaResponse
arrived msg states = record msg { states = states }

-- A well-formed response arrives as it was sent, whatever the order in which its states travel.
pub from_protobuf_lem :
    (r : LambdaResponse) (states : Map Rpc.State)
    → IsWellFormed r
    → Carries (to_protobuf r).states states
    → from_protobuf (arrived (to_protobuf r) states) ≡ r
unfolding from_protobuf to_protobuf
from_protobuf_lem r states w c =
    let a : r.load1 % 2 ^ 16 ≡ r.load1 = omega (arith, w.load1) in
    let b : r.load10 % 2 ^ 16 ≡ r.load10 = omega (arith, w.load10) in
    let e : r.load30 % 2 ^ 16 ≡ r.load30 = omega (arith, w.load30) in
    rw (deserialize_states_lem r.states states w.states c, a, b, e) refl

-- Every response that arrives is well formed: its loads fit.
pub from_protobuf-IsWellFormed : (msg : Rpc.LambdaResponse) → IsWellFormed (from_protobuf msg)
unfolding from_protobuf deserialize_states
from_protobuf-IsWellFormed msg = record {
  states = fill-IsSorted AppState.from_protobuf msg.states;
  load1 = omega arith;
  load10 = omega arith;
  load30 = omega arith;
}

-- So is every response that a lambda function makes, with the states of its request.
pub create-IsWellFormed :
    {W : Type 0} (d : Float W) (ret_code output : String) (loads : Loads W) (states : Map AppState)
    → IsSorted states
    → IsWellFormed (record (create_loaded d ret_code output loads) { states = states })
create-IsWellFormed d ret_code output loads states s = record {
  states = s;
  load1 = omega arith;
  load10 = omega arith;
  load30 = omega arith;
}
