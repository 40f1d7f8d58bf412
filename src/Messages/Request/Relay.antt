-- ===== src/Messages/Request/Relay.antt =====
-- Edge/edgemessages.cpp: a request that arrived can be sent on without a loss.
use serverlessonedge.Prelude.{
  ℕ, String, Bool, true, Option, none, some, List, [], ◌∷◌, ok, ◌≡◌, refl, arith, Bool-cases, inl,
  inr, sym, ap, OnReturn, OnReturn-bind, OnReturn-ok, OnReturn-self, length, ◌==◌, ◌∙◌,
}
use serverlessonedge.Prelude.Map.{Map}
use serverlessonedge.Prelude.Map.Sorted.{IsSorted}
use serverlessonedge.Prelude.Word.{sub64}
use serverlessonedge.Workflow.States.{Dependencies}
use serverlessonedge.Workflow.Chain.{Chain, unique_functions, all_found}
use serverlessonedge.Workflow.Chain
use serverlessonedge.Workflow.Dag.{Dag, make_predecessors, Rows}
use serverlessonedge.Workflow.Dag
use serverlessonedge.Messages.Rpc
use serverlessonedge.Messages.AppState.{deserialize_states}
use serverlessonedge.Messages.AppState
use serverlessonedge.Messages.Wire.{Carries}
use serverlessonedge.Messages.Wire.Laws.{fill-IsSorted}
use serverlessonedge.Messages.Request.{
  LambdaRequest, from_protobuf, to_protobuf, get_dependencies, chain_from, dag_from, sent_states,
}
use serverlessonedge.Messages.Request.RoundTrip.{
  KeepsChain, KeepsDag, IsSendable, arrived, from_protobuf-to_protobuf,
}

-- What the constructor of a chain returns passes the constructor again.
create_chain_lem :
    (fs : List String) (deps : Dependencies)
    → OnReturn
        (λ c. (c.functions ≡ fs) × (c.states ≡ deps) × (Chain.create c.functions c.states ≡ ok c))
        (Chain.create fs deps)
unfolding Chain.create
create_chain_lem fs deps = elim (Bool-cases (all_found (unique_functions fs) deps)) [
  | inl found ↦ rw (found, OnReturn) (refl, refl, rw found refl)
  | inr missing ↦ rw (missing, OnReturn) tt
]

-- A graph that has these parts and passes the constructor.
abbrev pub Remade : List (List ℕ) → List String → Dependencies → Dag → Type 0
Remade rows names deps g =
    (g.successors ≡ rows)
    × (g.states ≡ deps)
    × (Dag.create g.successors g.function_names g.states ≡ ok g)

pub create_dag_lem :
    (rows : List (List ℕ)) (names : List String) (deps : Dependencies)
    → OnReturn (Remade rows names deps) (Dag.create rows names deps)
unfolding Dag.create
create_dag_lem rows names deps =
    OnReturn-bind (λ rs. make_predecessors rows ≡ ok rs) (Remade rows names deps)
      (make_predecessors rows) _ (OnReturn-self (make_predecessors rows))
      (λ rs made. elim (Bool-cases (length rows == sub64 (length names) 1)) [
        | inl size ↦ elim (Bool-cases (all_found (unique_functions names) deps)) [
          | inl found ↦ rw (size, found) (refl, refl, rw (made, size, found) refl)
          | inr missing ↦ rw (size, missing) tt
        ]
        | inr other ↦ rw other tt
      ])

chain_from-KeepsChain :
    (fs : List String) (deps : Dependencies)
    → OnReturn (λ c. KeepsChain c deps) (chain_from fs deps)
chain_from-KeepsChain [] deps = tt
chain_from-KeepsChain (f ∷ fs) deps =
    OnReturn-bind _ (λ c. KeepsChain c deps) (Chain.create (f ∷ fs) deps) (λ c. ok (some c))
      (create_chain_lem (f ∷ fs) deps)
      (λ c (same, states, passes). (λ e. ground (arith, same, e), states, passes))

abbrev HasStates : Option Dag → Dependencies → Type 0
HasStates none deps = Unit
HasStates (some g) deps = g.states ≡ deps

dag_from-KeepsDag :
    (rows : List (List ℕ)) (names : List String) (deps : Dependencies)
    → OnReturn (λ g. KeepsDag g × HasStates g deps) (dag_from rows names deps)
dag_from-KeepsDag [] names deps = (tt, tt)
dag_from-KeepsDag (r ∷ rs) names deps =
    OnReturn-bind (Remade (r ∷ rs) names deps) (λ g. KeepsDag g × HasStates g deps)
      (Dag.create (r ∷ rs) names deps) (λ g. ok (some g)) (create_dag_lem (r ∷ rs) names deps)
      (λ g (same, states, passes). ((λ e. ground (arith, same, e), passes), states))

-- The dependencies sent on are those of the message.
sent_states_lem :
    (c : Option Chain) (g : Option Dag) (deps : Dependencies)
    → IsSorted deps
    → KeepsChain c deps
    → HasStates g deps
    → IsSorted (sent_states c g) × KeepsChain c (sent_states c g)
sent_states_lem none none deps s k h = (tt, tt)
sent_states_lem (some c) none deps s (n, states, passes) h = (rw states s, (n, refl, passes))
sent_states_lem none (some g) deps s k h = (rw h s, tt)
sent_states_lem (some c) (some g) deps s k h = (rw h s, rw h k)

-- Every request that arrives can be sent on.
pub from_protobuf-IsSendable :
    (msg : Rpc.LambdaRequest)
    → OnReturn (λ r. IsSendable r × (r.forward ≡ true)) (from_protobuf msg)
unfolding from_protobuf get_dependencies deserialize_states
from_protobuf-IsSendable msg =
    let deps = get_dependencies msg in
    OnReturn-bind (λ c. KeepsChain c deps) _ (chain_from msg.chain deps) _
      (chain_from-KeepsChain msg.chain deps)
      (λ c k.
        OnReturn-bind (λ g. KeepsDag g × HasStates g deps) _
          (dag_from msg.dag.successors msg.dag.names deps) _
          (dag_from-KeepsDag msg.dag.successors msg.dag.names deps)
          (λ g (keeps, has).
            let sent =
              sent_states_lem c g deps (fill-IsSorted (λ (fs : List String). fs) msg.dependencies) k
                has in
            (
              record {
                states = fill-IsSorted AppState.from_protobuf msg.states;
                dependencies = sent.0;
                chain = sent.1;
                dag = keeps;
              },
              refl,
            )))

-- A request that arrived, sent on by a node that does not change it, arrives again as it was.
pub relay_lem :
    (msg : Rpc.LambdaRequest) (r : LambdaRequest) (states : Map Rpc.State)
    (deps : Map (List String))
    → from_protobuf msg ≡ ok r
    → Carries (to_protobuf r).states states
    → Carries (to_protobuf r).dependencies deps
    → from_protobuf (arrived (to_protobuf r) states deps) ≡ ok r
relay_lem msg r states deps e c d =
    let (s, forwarded) = OnReturn-ok _ (from_protobuf msg) r (from_protobuf-IsSendable msg) e in
    (from_protobuf-to_protobuf r states deps s c d).0
    ∙ ap (λ (b : Bool). ok (record r { forward = b })) (sym forwarded)
