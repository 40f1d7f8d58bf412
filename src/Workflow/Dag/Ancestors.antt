-- ===== src/Workflow/Dag/Ancestors.antt =====
-- `ancestors` and `callable` of Edge/Model/dag.cpp. A set of indices is the list of its elements in
-- order. The recursion of `ancestors` ends only if the graph has no cycle, which the constructor
-- does not check: it is on fuel, and `undefined` stands for a call stack that is exhausted. For a
-- function that the graph does not have, the source reads outside of the predecessors, and the model
-- an empty row.
pub mod Closure
pub mod Callable
pub mod Progress
use serverlessonedge.Prelude.{
  ℕ, zero, suc, ◌+◌, ◌-◌, Bool, true, false, ◌&&◌, List, [], ◌∷◌, if◌then◌else◌, Outcome, ok,
  throws, undefined, ◌>>=◌, ◌==◌, ltb, length,
}
use serverlessonedge.Workflow.Dag.{Rows, row, has, Dag}

-- `std::set<size_t>::emplace`
unfoldable pub add_index : ℕ → List ℕ → List ℕ
add_index x [] = x ∷ []
add_index x (y ∷ ys) =
    let rest = y ∷ add_index x ys in if x == y then y ∷ ys else if ltb x y then x ∷ y ∷ ys else rest

-- The inner loop of `ancestors`.
unfoldable pub add_all : List ℕ → List ℕ → List ℕ
unfolding add_index
add_all [] ret = ret
add_all (x ∷ xs) ret = add_all xs (add_index x ret)

-- The loop of `ancestors` over the predecessors; `self` is its call of itself.
unfoldable pub gather : (ℕ → Outcome (List ℕ)) → List ℕ → List ℕ → Outcome (List ℕ)
unfolding add_all
gather self [] ret = ok ret
gather self (p ∷ ps) ret = do more ← self p; gather self ps (add_all more (add_index p ret))

unfoldable pub ancestors : ℕ → Rows → ℕ → Outcome (List ℕ)
unfolding gather
ancestors zero preds i = undefined
ancestors (suc fuel) preds i =
    if i == 0 then ok [] else gather (ancestors fuel preds) (row (i - 1) preds) []

abbrev pub all_completed : List ℕ → List ℕ → Bool
all_completed completed [] = true
all_completed completed (x ∷ xs) = has x completed && all_completed completed xs

abbrev pub if_callable : List ℕ → ℕ → List ℕ → List ℕ → List ℕ
if_callable completed i ret above = if all_completed completed above then add_index i ret else ret

-- The loop of `callable`, over `m` functions from `i` on.
unfoldable pub callable_from : ℕ → Rows → List ℕ → ℕ → ℕ → List ℕ → Outcome (List ℕ)
unfolding ancestors
callable_from fuel preds completed zero i ret = ok ret
callable_from fuel preds completed (suc m) i ret =
    if has i completed
    then callable_from fuel preds completed m (suc i) ret
    else (ancestors fuel preds i >>= λ above.
        callable_from fuel preds completed m (suc i) (if_callable completed i ret above))

-- `callable`
unfoldable pub callable : ℕ → Dag → List ℕ → Outcome (List ℕ)
unfolding callable_from
callable fuel g completed =
    callable_from fuel g.predecessors completed (suc (length g.successors)) 0 []
