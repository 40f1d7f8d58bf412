-- ===== src/Messages/Request/RoundTrip.antt =====
-- Edge/edgemessages.cpp: a request that is sent is the request that arrives.
use mathlib.Core.Logic.{◌≢◌}
use serverlessonedge.Prelude.{
  ℕ, String, Bool, true, Option, none, some, List, [], ◌∷◌, ok, ◌>>=◌, ◌≡◌, refl, arith, sym,
}
use serverlessonedge.Prelude.Map.{Map, str_eq_refl}
use serverlessonedge.Prelude.Map.Sorted.{IsSorted}
use serverlessonedge.Prelude.Equality.{same_map_refl}
use serverlessonedge.Workflow.States.{Dependencies}
use serverlessonedge.Workflow.Chain.{Chain, same_chain, same_chain_refl}
use serverlessonedge.Workflow.Chain
use serverlessonedge.Workflow.Dag.{Dag, same_dag, same_dag_refl}
use serverlessonedge.Workflow.Dag
use serverlessonedge.Messages.Rpc
use serverlessonedge.Messages.Wire.{Carries}
use serverlessonedge.Messages.Wire.Laws.{fill-round}
use serverlessonedge.Messages.AppState.{same_state, same_state_refl, deserialize_states_lem}
use serverlessonedge.Messages.Request.{
  LambdaRequest, from_protobuf, to_protobuf, same_request, get_dependencies, chain_from, dag_from,
  sent_states, chain_functions, dag_to, same_pointer,
}

-- A chain that the wire keeps: it has functions, and passes its own constructor.
abbrev pub KeepsChain : Option Chain → Dependencies → Type 0
KeepsChain none deps = Unit
KeepsChain (some c) deps =
    (c.functions ≢ []) × (c.states ≡ deps) × (Chain.create c.functions c.states ≡ ok c)

-- A graph that the wire keeps: it has successors, and passes its own constructor.
abbrev pub KeepsDag : Option Dag → Type 0
KeepsDag none = Unit
KeepsDag (some g) = (g.successors ≢ []) × (Dag.create g.successors g.function_names g.states ≡ ok g)

-- A request that the wire keeps; a chain beside a graph has the same states.
pub record IsSendable (r : LambdaRequest) : Type 0 where
  pub states : IsSorted r.states
  pub dependencies : IsSorted (sent_states r.chain r.dag)
  pub chain : KeepsChain r.chain (sent_states r.chain r.dag)
  pub dag : KeepsDag r.dag

-- The message as it arrives, its maps in the order in which they travel.
abbrev pub arrived : Rpc.LambdaRequest → Map Rpc.State → Map (List String) → Rpc.LambdaRequest
arrived msg states deps = record msg { states = states; dependencies = deps }

some_chain :
    (fs : List String) (deps : Dependencies)
    → fs ≢ []
    → chain_from fs deps ≡ (Chain.create fs deps >>= λ c. ok (some c))
some_chain [] deps n = absurd (n refl)
some_chain (f ∷ fs) deps n = refl

chain_from_lem :
    (c : Option Chain) (deps : Dependencies)
    → KeepsChain c deps
    → chain_from (chain_functions c) deps ≡ ok c
chain_from_lem none deps k = refl
chain_from_lem (some c) deps (n, same, passes) =
    rw (some_chain c.functions deps n, sym same, passes) refl

some_dag :
    (rows : List (List ℕ)) (names : List String) (deps : Dependencies)
    → rows ≢ []
    → dag_from rows names deps ≡ (Dag.create rows names deps >>= λ g. ok (some g))
some_dag [] names deps n = absurd (n refl)
some_dag (r ∷ rs) names deps n = refl

dag_from_lem :
    (c : Option Chain) (g : Option Dag)
    → KeepsDag g
    → dag_from (dag_to g).successors (dag_to g).names (sent_states c g) ≡ ok g
dag_from_lem c none k = refl
dag_from_lem c (some g) (n, passes) =
    rw (some_dag g.successors g.function_names g.states n, passes) refl

same_pointer_refl {ℓ} :
    {A : Type ℓ} (same : A → A → Bool)
    → ((a : A) → same a a ≡ true)
    → (o : Option A) → same_pointer same o o ≡ true
same_pointer_refl same h none = refl
same_pointer_refl same h (some a) = h a

-- A request that differs in the forward flag and the identifier alone is the same.
pub same_request_lem :
    (r : LambdaRequest) (forward : Bool) (uuid : String)
    → same_request r (record r { forward = forward; uuid = uuid }) ≡ true
unfolding same_request
same_request_lem r forward uuid = ground (
  arith,
  str_eq_refl r.name,
  str_eq_refl r.input,
  str_eq_refl r.datain,
  str_eq_refl r.callback,
  same_map_refl same_state same_state_refl r.states,
  same_pointer_refl same_chain same_chain_refl r.chain,
  same_pointer_refl same_dag same_dag_refl r.dag,
)

-- A request arrives as it was sent, whatever the order in which its maps travel, but for the
-- forward flag, which the constructor sets: the operator == takes both for the same. The request
-- has no chain or one with functions, no graph or one with successors; each passes its own
-- constructor, and a chain beside a graph has the same states.
pub from_protobuf-to_protobuf :
    (r : LambdaRequest) (states : Map Rpc.State) (deps : Map (List String))
    → IsSendable r
    → Carries (to_protobuf r).states states
    → Carries (to_protobuf r).dependencies deps
    → (from_protobuf (arrived (to_protobuf r) states deps) ≡ ok (record r { forward = true }))
      × (same_request r (record r { forward = true }) ≡ true)
unfolding from_protobuf to_protobuf get_dependencies
from_protobuf-to_protobuf r states deps s c e =
    rw
      (
        deserialize_states_lem r.states states s.states c,
        fill-round (λ (fs : List String). fs) (λ fs. fs) (λ fs. refl) (sent_states r.chain r.dag)
            deps s.dependencies e,
        chain_from_lem r.chain (sent_states r.chain r.dag) s.chain,
        dag_from_lem r.chain r.dag s.dag,
      )
      (refl, same_request_lem r true r.uuid)
