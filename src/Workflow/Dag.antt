-- ===== src/Workflow/Dag.antt =====
-- Edge/Model/dag.cpp: a graph of functions by their indices, with a list of successors for each
-- function but the last.
pub mod Predecessors
pub mod Ancestors
use serverlessonedge.Prelude.{
  ℕ, zero, suc, ◌+◌, ◌-◌, String, Bool, true, false, ◌&&◌, ◌||◌, List, [], ◌∷◌, ◌++◌, if◌then◌else◌,
  Outcome, ok, throws, undefined, runtime_error, ◌>>=◌, ◌==◌, ltb, leb, length, get_elem?, Option,
  none, some, str_eq, ◌≡◌, arith,
}
use serverlessonedge.Prelude.Map.{Map, StringSet, add, str_eq_refl}
use serverlessonedge.Prelude.Equality.{same_list, same_list_refl}
use serverlessonedge.Prelude.Word.{sub64}
use serverlessonedge.Workflow.States.{Dependencies, dependencies_of, same_states, same_states_refl}
use serverlessonedge.Workflow.Chain.{unique_functions, all_found}

-- A vector of vectors of indices; a row outside of it reads as empty.
abbrev pub Rows : Type 0
Rows = List (List ℕ)

abbrev pub row : ℕ → Rows → List ℕ
row i [] = []
row zero (r ∷ rs) = r
row (suc i) (r ∷ rs) = row i rs

abbrev pub has : ℕ → List ℕ → Bool
has j [] = false
has j (x ∷ xs) = x == j || has j xs

-- `Predecessors ret(aSuccessors.size())`
abbrev pub empty_rows : Rows → Rows
empty_rows [] = []
empty_rows (r ∷ rs) = [] ∷ empty_rows rs

-- `ret[k].emplace_back(i)`
unfoldable pub push_at : ℕ → ℕ → Rows → Rows
push_at k i [] = []
push_at zero i (r ∷ rs) = (r ++ (i ∷ [])) ∷ rs
push_at (suc k) i (r ∷ rs) = r ∷ push_at k i rs

-- The inner loop of `makePredecessors`, over the successors of `i`.
unfoldable pub link_row : ℕ → List ℕ → Rows → Outcome Rows
link_row i [] ret = ok ret
link_row i (j ∷ js) ret =
    let rest = link_row i js (push_at (j - 1) i ret) in
    if j == 0 || leb (length ret) (j - 1) then throws runtime_error else rest

-- The outer loop.
unfoldable pub link_from : ℕ → Rows → Rows → Outcome Rows
unfolding link_row
link_from i [] ret = ok ret
link_from i (r ∷ rs) ret = do ret' ← link_row i r ret; link_from (suc i) rs ret'

-- `makePredecessors`
unfoldable pub make_predecessors : Rows → Outcome Rows
unfolding link_from
make_predecessors successors = link_from 0 successors (empty_rows successors)

pub record Dag : Type 0 where
  pub successors : Rows
  pub predecessors : Rows
  pub function_names : List String
  pub states : Dependencies

-- `operator==`, which does not compare the predecessors.
abbrev pub same_dag : Dag → Dag → Bool
same_dag g h =
    same_list (same_list ◌==◌) g.successors h.successors
    && same_list str_eq g.function_names h.function_names
    && same_states g.states h.states

-- `name()`; `join` is the `toString` of the support library.
unfoldable pub name : (List String → String → String) → Dag → String
name join g = join g.function_names "-"

-- The constructor.
unfoldable pub create : Rows → List String → Dependencies → Outcome Dag
unfolding make_predecessors
create successors names states = do
  predecessors ← make_predecessors successors
  if length successors == sub64 (length names) 1
      then (if all_found (unique_functions names) states
          then ok (record {
            successors = successors;
            predecessors = predecessors;
            function_names = names;
            states = states;
          })
          else throws runtime_error)
      else throws runtime_error

-- `toName`
unfoldable pub to_name : Dag → ℕ → String
to_name g i = elim (get_elem? g.function_names i) [ none ↦ "" | some n ↦ n ]

-- `toNames`, into a set
unfoldable pub to_names : Dag → StringSet → List ℕ → StringSet
unfolding to_name
to_names g set [] = set
to_names g set (i ∷ is) = to_names g (add (to_name g i) set) is

unfoldable pub successor_names : Dag → ℕ → Outcome StringSet
unfolding to_names
successor_names g i =
    if ltb (length g.successors) i
    then throws runtime_error
    else if i == length g.successors
    then ok []
    else ok (to_names g [] (row i g.successors))

unfoldable pub predecessor_names : Dag → ℕ → Outcome StringSet
unfolding to_names
predecessor_names g i =
    if ltb (length g.predecessors) i
    then throws runtime_error
    else if i == 0
    then ok []
    else ok (to_names g [] (row (i - 1) g.predecessors))

abbrev pub num_functions : Dag → ℕ
num_functions g = length g.predecessors + 1

abbrev pub entry_function_name : Dag → String
entry_function_name g = to_name g 0

unfoldable pub single_function_dag : String → Dag → Outcome Dag
unfolding create dependencies_of
single_function_dag f g = create [] (f ∷ []) (dependencies_of f g.states)

pub same_dag_refl : (g : Dag) → same_dag g g ≡ true
same_dag_refl g = ground (
  arith,
  same_list_refl (same_list ◌==◌) (same_list_refl ◌==◌ (λ i. ground arith)) g.successors,
  same_list_refl str_eq str_eq_refl g.function_names,
  same_states_refl g.states,
)
