-- ===== src/Workflow/Chain.antt =====
-- Edge/Model/chain.cpp: a chain of functions.
use serverlessonedge.Prelude.{
  String, Bool, true, ◌&&◌, some, List, [], ◌∷◌, if◌then◌else◌, ◌≡◌, refl, arith, str_eq,
  str_eq_iff, Outcome, ok, throws, runtime_error, ◌||◌, Bool-cases, inl, inr, ◌⊎◌,
}
use serverlessonedge.Prelude.Map.{
  StringSet, find, add, contains, mem, find-insert, emplace, str_eq_refl,
}
use serverlessonedge.Prelude.Equality.{same_list, same_list_refl}
use serverlessonedge.Prelude.Map.Sorted.{IsSorted, find-Above, emplace-IsSorted}
use serverlessonedge.Workflow.States.{
  Dependencies, dependencies_of, restrict, find-dependencies_of, same_states, same_states_refl,
}

pub record Chain : Type 0 where
  pub functions : List String
  pub states : Dependencies

-- `operator==`
abbrev pub same_chain : Chain → Chain → Bool
same_chain c e = same_list str_eq c.functions e.functions && same_states c.states e.states

-- `name()`; `join` is the `toString` of the support library.
unfoldable pub name : (List String → String → String) → Chain → String
name join c = join c.functions "-"

-- The loop that fills a set with the names, in the constructor and in `uniqueFunctions`.
unfoldable pub unique_from : StringSet → List String → StringSet
unique_from set [] = set
unique_from set (f ∷ fs) = unique_from (add f set) fs

-- `uniqueFunctions`
unfoldable pub unique_functions : List String → StringSet
unfolding unique_from
unique_functions fs = unique_from [] fs

abbrev pub all_known : StringSet → List String → Bool
all_known set [] = true
all_known set (f ∷ fs) = contains f set && all_known set fs

-- The consistency check of the constructor: whether it finds every function.
unfoldable pub all_found : StringSet → Dependencies → Bool
all_found set [] = true
all_found set ((s, fs) ∷ m) = all_known set fs && all_found set m

-- The constructor.
unfoldable pub create : List String → Dependencies → Outcome Chain
unfolding all_found unique_functions
create functions states =
    if all_found (unique_functions functions) states
    then ok (record { functions = functions; states = states })
    else throws runtime_error

unfoldable pub entry_function_name : Chain → Outcome String
entry_function_name c = elim c.functions [ [] ↦ throws runtime_error | f ∷ fs ↦ ok f ]

unfoldable pub single_function_chain : String → Chain → Outcome Chain
unfolding create dependencies_of
single_function_chain f c = create (f ∷ []) (dependencies_of f c.states)

contains-unique_from :
    (f : String) (set : StringSet) (fs : List String)
    → contains f (unique_from set fs) ≡ (contains f set || mem f fs)
unfolding unique_from
contains-unique_from f set [] = ground arith
contains-unique_from f set (g ∷ fs) =
    ground (arith, contains-unique_from f (add g set) fs, find-insert g f tt set)

-- The set of the functions has exactly the names of the list.
pub contains-unique_functions :
    (f : String) (fs : List String) → contains f (unique_functions fs) ≡ mem f fs
unfolding unique_functions find
contains-unique_functions f fs = ground (arith, contains-unique_from f [] fs)

-- Every function that a state depends on is one of `fs`.
abbrev pub IsComplete : List String → Dependencies → Type 0
IsComplete fs m =
    (s g : String) (gs : List String) → find s m ≡ some gs → mem g gs ≡ true → mem g fs ≡ true

all_known-mem :
    (fs gs : List String)
    → all_known (unique_functions fs) gs ≡ true
    → (g : String) → mem g gs ≡ true
    → mem g fs ≡ true
all_known-mem fs [] h g n = ground arith
all_known-mem fs (x ∷ xs) h g n = ground (
  arith,
  λ (p : all_known (unique_functions fs) xs ≡ true) (q : mem g xs ≡ true).
      all_known-mem fs xs p g q,
  contains-unique_functions x fs,
  str_eq_iff x g,
)

mem-all_known :
    (fs gs : List String)
    → ((g : String) → mem g gs ≡ true → mem g fs ≡ true)
    → all_known (unique_functions fs) gs ≡ true
mem-all_known fs [] h = refl
mem-all_known fs (x ∷ xs) h = ground (
  arith,
  mem-all_known fs xs (λ g n. h g (ground arith)),
  h x,
  contains-unique_functions x fs,
  str_eq_iff x x,
)

all_found-IsComplete :
    (fs : List String) (m : Dependencies)
    → all_found (unique_functions fs) m ≡ true
    → IsComplete fs m
unfolding all_found find
all_found-IsComplete fs [] h s g gs q n = ground arith
all_found-IsComplete fs ((k, xs) ∷ m) h s g gs q n = elim (Bool-cases (str_eq k s)) [
  | inl here ↦ ground (arith, all_known-mem fs gs (ground arith) g n)
  | inr other ↦ all_found-IsComplete fs m (ground arith) s g gs (ground arith) n
]

IsComplete-all_found :
    (fs : List String) (m : Dependencies)
    → IsSorted m
    → IsComplete fs m
    → all_found (unique_functions fs) m ≡ true
unfolding all_found find
IsComplete-all_found fs [] o c = refl
IsComplete-all_found fs ((k, xs) ∷ m) o c = ground (
  arith,
  mem-all_known fs xs (λ g n. c k g xs (ground (arith, str_eq_iff k k)) n),
  IsComplete-all_found fs m o.1
      (λ s g gs q n. c s g gs (ground (arith, find-Above k m o.0, str_eq_iff k s)) n),
)

-- The constructor accepts exactly the dependencies on functions of the chain, and throws otherwise.
pub create-IsComplete :
    (fs : List String) (m : Dependencies)
    → IsSorted m
    → ((create fs m ≡ ok (record { functions = fs; states = m })) × IsComplete fs m)
      ⊎ ((create fs m ≡ throws runtime_error) × ¬ IsComplete fs m)
unfolding create
create-IsComplete fs m o = elim (Bool-cases (all_found (unique_functions fs) m)) [
  | inl found ↦ inl (rw found refl, all_found-IsComplete fs m found)
  | inr missing ↦ inr (rw missing refl, λ c. ground (arith, IsComplete-all_found fs m o c))
]

restrict-IsSorted : (f : String) (ret m : Dependencies) → IsSorted ret → IsSorted (restrict f ret m)
unfolding restrict
restrict-IsSorted f ret [] o = o
restrict-IsSorted f ret ((s, fs) ∷ m) o =
    restrict-IsSorted f (if mem f fs then emplace s (f ∷ []) ret else ret) m
      (ground (arith, emplace-IsSorted s (f ∷ []) ret o))

-- The chain of a single function of a chain always passes the constructor, with the states that
-- this function needs.
pub single_function_chain-ok :
    (f : String) (c : Chain)
    → IsSorted c.states
    → single_function_chain f c
      ≡ ok (record { functions = f ∷ []; states = dependencies_of f c.states })
unfolding single_function_chain create dependencies_of
single_function_chain-ok f c o =
    let complete : IsComplete (f ∷ []) (dependencies_of f c.states) =
      λ s g gs q n. ground (arith, find-dependencies_of f s c.states o) in
    let found =
      IsComplete-all_found (f ∷ []) (dependencies_of f c.states)
        (restrict-IsSorted f [] c.states tt) complete in
    rw found refl

pub same_chain_refl : (c : Chain) → same_chain c c ≡ true
same_chain_refl c =
    ground (arith, same_list_refl str_eq str_eq_refl c.functions, same_states_refl c.states)
