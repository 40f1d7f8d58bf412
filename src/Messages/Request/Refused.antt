-- ===== src/Messages/Request/Refused.antt =====
-- Edge/edgemessages.cpp: the requests that the constructor refuses, and what the wire loses.
use serverlessonedge.Prelude.{
  String, false, none, some, List, [], ◌∷◌, ok, throws, runtime_error, ◌≡◌, refl, arith, ◌⊎◌, inl,
  inr, Returns, OnReturn-ok, Option, sym, ◌∙◌,
}
use serverlessonedge.Prelude.Map.{Map, find}
use serverlessonedge.Prelude.Map.Sorted.{IsSorted}
use serverlessonedge.Messages.Wire.{Carries, emplace_all}
use serverlessonedge.Workflow.Chain.{IsComplete, create-IsComplete}
use serverlessonedge.Workflow.States.{dependencies_of}
use serverlessonedge.Messages.Request.Relay.{Remade, create_dag_lem}
use serverlessonedge.Workflow.Dag.{Dag, single_function_dag}
use serverlessonedge.Workflow.Dag
use serverlessonedge.Messages.Rpc
use serverlessonedge.Messages.Wire.Laws.{fill-IsSorted, Carries-ext, find-fill, convert}
use serverlessonedge.Messages.Request.{
  LambdaRequest, from_protobuf, to_protobuf, same_request, get_dependencies,
}
use serverlessonedge.Messages.Request.RoundTrip.{arrived}

convert_same : (o : Option (List String)) → convert (λ fs. fs) o ≡ o
convert_same none = refl
convert_same (some fs) = refl

-- The dependencies of a message are those that were sent.
get_dependencies_lem :
    (msg : Rpc.LambdaRequest) (sent : Map (List String))
    → IsSorted sent
    → Carries sent msg.dependencies
    → get_dependencies msg ≡ sent
unfolding get_dependencies
get_dependencies_lem msg sent s c =
    Carries-ext (emplace_all (λ fs. fs) [] msg.dependencies) sent
      (fill-IsSorted (λ (fs : List String). fs) msg.dependencies) s
      (λ k.
        sym
          (find-fill (λ fs. fs) k msg.dependencies ∙ convert_same (find k msg.dependencies) ∙ c k))

-- A message with a chain and no graph arrives with this chain, and with the dependencies that were
-- sent, in whatever order they travel, if every function that a state depends on is one of the
-- chain. It is refused otherwise.
pub from_protobuf-IsComplete :
    (msg : Rpc.LambdaRequest) (f : String) (fs : List String) (sent : Map (List String))
    → msg.chain ≡ f ∷ fs
    → msg.dag.successors ≡ []
    → IsSorted sent
    → Carries sent msg.dependencies
    → (Returns
          (λ r. r.chain ≡ some (record { functions = f ∷ fs; states = sent }))
          (from_protobuf msg)
        × IsComplete (f ∷ fs) sent)
      ⊎ ((from_protobuf msg ≡ throws runtime_error) × ¬ IsComplete (f ∷ fs) sent)
unfolding from_protobuf get_dependencies
from_protobuf-IsComplete msg f fs sent e d sorted c =
    let same = get_dependencies_lem msg sent sorted c in
    elim (create-IsComplete (f ∷ fs) sent sorted) [
      | inl (created, complete) ↦ inl (rw (e, d, same, created, Returns) refl, complete)
      | inr (refused, incomplete) ↦ inr (rw (e, same, refused) refl, incomplete)
    ]

single_function_dag-successors :
    (f : String) (g h : Dag) → single_function_dag f g ≡ ok h → h.successors ≡ []
unfolding single_function_dag
single_function_dag-successors f g h e =
    let deps = dependencies_of f g.states in
    (OnReturn-ok (Remade [] (f ∷ []) deps) (Dag.create [] (f ∷ []) deps) h
      (create_dag_lem [] (f ∷ []) deps) e).0

-- A request whose graph has a single function, as `singleFunctionDag` makes it, arrives without a
-- graph: the operator == tells the two apart.
pub single_function_dag-lost :
    (f : String) (g h : Dag) (r : LambdaRequest) (states : Map Rpc.State) (deps : Map (List String))
    → single_function_dag f g ≡ ok h
    → r.chain ≡ none
    → r.dag ≡ some h
    → Returns
        (λ s. (s.dag ≡ none) × (same_request r s ≡ false))
        (from_protobuf (arrived (to_protobuf r) states deps))
unfolding from_protobuf to_protobuf same_request
single_function_dag-lost f g h r states deps e c d =
    rw (c, d, single_function_dag-successors f g h e, Returns) (refl, ground (arith, c, d))
