-- ===== src/Workflow/Tests.antt =====
-- Runs of the chain and the graph that Edge/Model gives as examples.
use serverlessonedge.Workflow.Dag.Ancestors.Progress.{callable-progress}
use serverlessonedge.Prelude.Map.Sorted.{IsSorted}
use serverlessonedge.Prelude.{
  ℕ, zero, suc, ◌≤◌, ◌<◌, true, false, [], ◌∷◌, ◌≡◌, refl, arith, ok, throws, runtime_error,
  Returns, ◌⊎◌, length, ◌-◌,
}
use serverlessonedge.Workflow.States.{Dependencies}
use serverlessonedge.Workflow.Chain.{
  Chain, single_function_chain, IsComplete, create-IsComplete, single_function_chain-ok,
}
use serverlessonedge.Workflow.Chain as chain
use serverlessonedge.Workflow.Dag.{Dag, Rows, row, has, make_predecessors, link_row, push_at}
use serverlessonedge.Workflow.Dag.Predecessors.{make_predecessors_lem}
use serverlessonedge.Workflow.Dag.Ancestors.{ancestors, callable}
use serverlessonedge.Workflow.Dag.Ancestors.Closure.{
  IsRanked, IsAncestor, Describes, ancestors-Describes,
}
use serverlessonedge.Workflow.Dag.Ancestors.Callable.{IsCallable, callable-IsCallable}

-- `exampleChain`
abbrev example_states : Dependencies
example_states = ("s0", "f1" ∷ []) ∷ ("s1", "f1" ∷ "f2" ∷ []) ∷ ("s2", "f2" ∷ []) ∷ ("s3", []) ∷ []

abbrev example_chain : Chain
example_chain = record { functions = "f1" ∷ "f2" ∷ "f1" ∷ []; states = example_states }

-- `exampleDag`
abbrev example_successors : Rows
example_successors = (1 ∷ 2 ∷ []) ∷ (3 ∷ []) ∷ (3 ∷ []) ∷ []

abbrev example_predecessors : Rows
example_predecessors = (0 ∷ []) ∷ (0 ∷ []) ∷ (1 ∷ 2 ∷ []) ∷ []

abbrev example_dag : Dag
example_dag = record {
  successors = example_successors;
  predecessors = example_predecessors;
  function_names = "f0" ∷ "f1" ∷ "f2" ∷ "f2" ∷ [];
  states = ("s0", "f0" ∷ []) ∷ ("s1", "f0" ∷ "f1" ∷ []) ∷ ("s2", "f2" ∷ []) ∷ ("s3", []) ∷ [];
}

example_is_turned : make_predecessors example_successors ≡ ok example_predecessors
unfolding make_predecessors link_row push_at
example_is_turned = refl

next_after_two : callable 4 example_dag (0 ∷ 1 ∷ []) ≡ ok (2 ∷ [])
unfolding callable
next_after_two = refl

abbrev rank : ℕ → ℕ
rank i = i

example-IsSorted : IsSorted example_states
example-IsSorted = ((refl, (refl, (refl, tt))), ((refl, (refl, tt)), ((refl, tt), (tt, tt))))

create-IsComplete_example :
    ((chain.create ("f1" ∷ "f2" ∷ []) example_states
        ≡ ok (record { functions = "f1" ∷ "f2" ∷ []; states = example_states }))
      × IsComplete ("f1" ∷ "f2" ∷ []) example_states)
    ⊎ ((chain.create ("f1" ∷ "f2" ∷ []) example_states ≡ throws runtime_error)
        × ¬ IsComplete ("f1" ∷ "f2" ∷ []) example_states)
create-IsComplete_example = create-IsComplete ("f1" ∷ "f2" ∷ []) example_states example-IsSorted

make_predecessors_lem_example :
    Returns
      (λ ps.
        (length ps ≡ 3) × ((x j : ℕ) → has x (row j ps) ≡ has (suc j) (row x example_successors)))
      (make_predecessors example_successors)
make_predecessors_lem_example = make_predecessors_lem example_successors

below_row : (p k : ℕ) → has p (row k example_predecessors) ≡ true → p < suc k
below_row p zero h = ground arith
below_row p (suc zero) h = ground arith
below_row p (suc (suc zero)) h = ground arith
below_row p (suc (suc (suc k))) h = ground arith

example-IsRanked : IsRanked example_predecessors rank
example-IsRanked = record { grows = λ p i h. omega (arith, below_row p (i - 1) h.1, h.0) }

ancestors-Describes_example :
    Returns
      (Describes (λ j. IsAncestor example_predecessors j 3))
      (ancestors 4 example_predecessors 3)
ancestors-Describes_example =
    ancestors-Describes example_predecessors rank 4 3 example-IsRanked (omega arith)

callable-IsCallable_example :
    Returns
      (Describes (λ i. (i ≤ 3) × IsCallable example_predecessors (0 ∷ 1 ∷ []) i))
      (callable 4 example_dag (0 ∷ 1 ∷ []))
callable-IsCallable_example =
    callable-IsCallable example_dag (0 ∷ 1 ∷ []) rank 4 example-IsRanked (λ k h. omega arith)

within_row : (p k : ℕ) → has p (row k example_predecessors) ≡ true → p ≤ 3
within_row p zero h = ground arith
within_row p (suc zero) h = ground arith
within_row p (suc (suc zero)) h = ground arith
within_row p (suc (suc (suc k))) h = ground arith

callable-progress_example :
    Returns
      (λ next. (k : ℕ) × (has k next ≡ true) × (has k (0 ∷ 1 ∷ []) ≡ false))
      (callable 4 example_dag (0 ∷ 1 ∷ []))
callable-progress_example =
    callable-progress example_dag (0 ∷ 1 ∷ []) rank 4 3 example-IsRanked
      (λ p i h. within_row p (i - 1) h.1) (λ k h. omega arith) (omega arith) refl
