-- ===== src/Messages/Request.antt =====
-- Edge/edgemessages.{h,cpp}: the requests for the execution of a function.
pub mod RoundTrip
pub mod Hops
pub mod Relay
pub mod Refused
use serverlessonedge.Prelude.{
  ℕ, ◌+◌, ◌%◌, ◌^◌, String, Bool, true, false, ◌&&◌, ◌||◌, not, Option, none, some, List, [], ◌∷◌,
  is_some, str_eq, ◌==◌, Outcome, ok, ◌>>=◌,
}
use serverlessonedge.Prelude.Map.{Map}
use serverlessonedge.Prelude.Equality.{same_map}
use serverlessonedge.Workflow.States.{Dependencies}
use serverlessonedge.Workflow.Chain.{Chain, same_chain}
use serverlessonedge.Workflow.Chain
use serverlessonedge.Workflow.Dag.{Dag, same_dag}
use serverlessonedge.Workflow.Dag
use serverlessonedge.Messages.Rpc
use serverlessonedge.Messages.Wire.{emplace_all}
use serverlessonedge.Messages.AppState.{AppState, same_state, deserialize_states, serialize_states}

-- The chain and the graph are absent when their pointers are null.
pub record LambdaRequest : Type 0 where
  pub name : String
  pub input : String
  pub datain : String
  pub forward : Bool
  pub hops : ℕ
  pub states : Map AppState
  pub callback : String
  pub chain : Option Chain
  pub dag : Option Dag
  pub next_function_index : ℕ
  pub uuid : String

-- The private constructor.
abbrev pub request_with : String → String → String → Bool → ℕ → String → LambdaRequest
request_with name input datain forward hops uuid = record {
  name = name;
  input = input;
  datain = datain;
  forward = forward;
  hops = hops;
  states = [];
  callback = "";
  chain = none;
  dag = none;
  next_function_index = 0;
  uuid = uuid;
}

-- The constructors from a name and inputs; `uuid` is what `support::Uuid()` draws.
unfoldable pub create : String → String → String → String → LambdaRequest
create name input datain uuid = request_with name input datain false 0 uuid

-- `getDependencies`
unfoldable pub get_dependencies : Rpc.LambdaRequest → Dependencies
unfolding emplace_all
get_dependencies msg = emplace_all (λ fs. fs) [] msg.dependencies

-- The chain of a message, when it has functions.
abbrev pub chain_from : List String → Dependencies → Outcome (Option Chain)
chain_from [] deps = ok none
chain_from (f ∷ fs) deps = Chain.create (f ∷ fs) deps >>= λ c. ok (some c)

-- The graph of a message, when it has successors.
abbrev pub dag_from : List (List ℕ) → List String → Dependencies → Outcome (Option Dag)
dag_from [] names deps = ok none
dag_from (r ∷ rs) names deps = Dag.create (r ∷ rs) names deps >>= λ g. ok (some g)

-- The constructor from a message.
unfoldable pub from_protobuf : Rpc.LambdaRequest → Outcome LambdaRequest
unfolding get_dependencies
from_protobuf msg = do
  chain ← chain_from msg.chain (get_dependencies msg)
  dag ← dag_from msg.dag.successors msg.dag.names (get_dependencies msg)
  ok (record {
    name = msg.name;
    input = msg.input;
    datain = msg.datain;
    forward = true;
    hops = msg.hops;
    states = deserialize_states msg.states;
    callback = msg.callback;
    chain = chain;
    dag = dag;
    next_function_index = msg.next_function_index;
    uuid = msg.uuid;
  })

abbrev pub chain_functions : Option Chain → List String
chain_functions none = []
chain_functions (some c) = c.functions

abbrev pub dag_to : Option Dag → Rpc.Dag
dag_to none = record { successors = []; names = [] }
dag_to (some g) = record { successors = g.successors; names = g.function_names }

-- `myStates`: those of the graph, if there is one, take the place of those of the chain.
abbrev pub sent_states : Option Chain → Option Dag → Dependencies
sent_states chain (some g) = g.states
sent_states none none = []
sent_states (some c) none = c.states

-- `toProtobuf`
unfoldable pub to_protobuf : LambdaRequest → Rpc.LambdaRequest
unfolding emplace_all
to_protobuf r = record {
  name = r.name;
  input = r.input;
  datain = r.datain;
  dry = false;
  forward = r.forward;
  hops = r.hops;
  states = serialize_states r.states;
  callback = r.callback;
  chain = chain_functions r.chain;
  dag = dag_to r.dag;
  dependencies = emplace_all (λ fs. fs) [] (sent_states r.chain r.dag);
  next_function_index = r.next_function_index;
  uuid = r.uuid;
}

-- Whether two pointers are both null, or both point to objects that are the same.
abbrev pub same_pointer {ℓ} : {A : Type ℓ} → (A → A → Bool) → Option A → Option A → Bool
same_pointer same none none = true
same_pointer same none (some b) = false
same_pointer same (some a) none = false
same_pointer same (some a) (some b) = same a b

-- `operator==`
unfoldable pub same_request : LambdaRequest → LambdaRequest → Bool
same_request r s =
    str_eq r.name s.name
    && str_eq r.input s.input
    && str_eq r.datain s.datain
    && r.hops == s.hops
    && same_map same_state r.states s.states
    && str_eq r.callback s.callback
    && same_pointer same_chain r.chain s.chain
    && same_pointer same_dag r.dag s.dag
    && r.next_function_index == s.next_function_index

-- `copy()`: a new request, with the fields that the private constructor does not set.
unfoldable pub copy : LambdaRequest → LambdaRequest
copy r = record (request_with r.name r.input r.datain r.forward r.hops r.uuid) {
  states = r.states;
  callback = r.callback;
  chain = r.chain;
  dag = r.dag;
  next_function_index = r.next_function_index;
}

-- `makeOneMoreHop`; the count of hops is an `unsigned int`.
unfoldable pub make_one_more_hop : LambdaRequest → LambdaRequest
unfolding copy
make_one_more_hop r = record (copy r) { hops = ((copy r).hops + 1) % 2 ^ 32 }

-- `regenerate`: the new request, and what is left of this one.
unfoldable pub regenerate :
    String → ℕ → Rpc.LambdaResponse → LambdaRequest → LambdaRequest × LambdaRequest
regenerate name index rep r = (
  record (request_with name rep.output rep.dataout false ((r.hops + 1) % 2 ^ 32) r.uuid) {
    states = deserialize_states rep.states;
    callback = r.callback;
    chain = r.chain;
    dag = r.dag;
    next_function_index = index % 2 ^ 32;
  },
  record r { chain = none; dag = none },
)

-- `name()`
unfoldable pub full_name : (List String → String → String) → LambdaRequest → String
full_name join r = elim r.chain [ none ↦ r.name | some c ↦ Chain.name join c ]
