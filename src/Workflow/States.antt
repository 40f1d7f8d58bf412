-- ===== src/Workflow/States.antt =====
-- Edge/Model/states.cpp: which functions depend on which states. The conversion to and from JSON
-- is left to its library.
use serverlessonedge.Prelude.{
  String, Bool, true, false, ◌||◌, not, Option, none, some, List, [], ◌∷◌, if◌then◌else◌, is_some,
  ◌≡◌, arith, str_eq_iff, str_eq,
}
use serverlessonedge.Prelude.Map.{
  Map, StringSet, find, emplace, add, contains, mem, find-insert, find-emplace, str_eq_refl,
}
use serverlessonedge.Prelude.Equality.{same_list, same_map, same_list_refl, same_map_refl}
use serverlessonedge.Prelude.Map.Sorted.{IsSorted, find-Above}

-- `States::Dependencies`: the functions that depend on each state.
abbrev pub Dependencies : Type 0
Dependencies = Map (List String)

-- `operator==`
abbrev pub same_states : Dependencies → Dependencies → Bool
same_states = same_map (same_list str_eq)

-- The loop of `dependencies(aFunction)`.
unfoldable pub restrict : String → Dependencies → Dependencies → Dependencies
restrict f ret [] = ret
restrict f ret ((s, fs) ∷ m) = restrict f (if mem f fs then emplace s (f ∷ []) ret else ret) m

-- `dependencies(aFunction)`
unfoldable pub dependencies_of : String → Dependencies → Dependencies
unfolding restrict
dependencies_of f m = restrict f [] m

abbrev pub is_free : List String → Bool
is_free [] = true
is_free (f ∷ fs) = false

unfoldable pub collect_all : Bool → StringSet → Dependencies → StringSet
collect_all free ret [] = ret
collect_all free ret ((s, fs) ∷ m) =
    collect_all free (if free || not (is_free fs) then add s ret else ret) m

-- `allStates`
unfoldable pub all_states : Bool → Dependencies → StringSet
unfolding collect_all
all_states free m = collect_all free [] m

unfoldable pub collect_states : String → StringSet → Dependencies → StringSet
collect_states f ret [] = ret
collect_states f ret ((s, fs) ∷ m) = collect_states f (if mem f fs then add s ret else ret) m

-- `states(aFunction)`
unfoldable pub states_of : String → Dependencies → StringSet
unfolding collect_states
states_of f m = collect_states f [] m

-- The function is one of those found.
abbrev pub needs : String → Option (List String) → Bool
needs f none = false
needs f (some fs) = mem f fs

-- The state is counted: it has functions, or free states count too.
abbrev pub counts : Bool → Option (List String) → Bool
counts free none = false
counts free (some fs) = free || not (is_free fs)

find-restrict :
    (f s : String) (ret m : Dependencies)
    → IsSorted m
    → find s (restrict f ret m) ≡ (
        if is_some (find s ret)
        then find s ret
        else if needs f (find s m)
        then some (f ∷ [])
        else none)
unfolding restrict find
find-restrict f s ret [] o = ground arith
find-restrict f s ret ((k, fs) ∷ m) o = ground (
  arith,
  find-restrict f s (if mem f fs then emplace k (f ∷ []) ret else ret) m o.1,
  find-emplace k s (f ∷ []) ret,
  find-Above k m o.0,
  str_eq_iff k s,
)

-- The dependencies of a function are the states that it depends on, each on this function alone.
pub find-dependencies_of :
    (f s : String) (m : Dependencies)
    → IsSorted m
    → find s (dependencies_of f m) ≡ (if needs f (find s m) then some (f ∷ []) else none)
unfolding dependencies_of find
find-dependencies_of f s m o = ground (arith, find-restrict f s [] m o)

contains-collect_states :
    (f s : String) (ret : StringSet) (m : Dependencies)
    → IsSorted m
    → contains s (collect_states f ret m) ≡ (contains s ret || needs f (find s m))
unfolding collect_states find
contains-collect_states f s ret [] o = ground arith
contains-collect_states f s ret ((k, fs) ∷ m) o = ground (
  arith,
  contains-collect_states f s (if mem f fs then add k ret else ret) m o.1,
  find-insert k s tt ret,
  find-Above k m o.0,
  str_eq_iff k s,
)

contains-collect_all :
    (free : Bool) (s : String) (ret : StringSet) (m : Dependencies)
    → IsSorted m
    → contains s (collect_all free ret m) ≡ (contains s ret || counts free (find s m))
unfolding collect_all find
contains-collect_all free s ret [] o = ground arith
contains-collect_all free s ret ((k, fs) ∷ m) o = ground (
  arith,
  contains-collect_all free s (if free || not (is_free fs) then add k ret else ret) m o.1,
  find-insert k s tt ret,
  find-Above k m o.0,
  str_eq_iff k s,
)

-- The states of a function are the keys of its dependencies. A state is listed among all states if
-- some function depends on it, or if free states are listed too.
pub states_of-dependencies :
    (f s : String) (free : Bool) (m : Dependencies)
    → IsSorted m
    → (contains s (states_of f m) ≡ is_some (find s (dependencies_of f m)))
      × (contains s (all_states free m) ≡ counts free (find s m))
unfolding states_of all_states find
states_of-dependencies f s free m o =
    let a = contains-collect_states f s [] m o in
    let b = contains-collect_all free s [] m o in
    let c = find-dependencies_of f s m o in (ground (arith, a, c), ground (arith, b))

pub same_states_refl : (m : Dependencies) → same_states m m ≡ true
same_states_refl = same_map_refl (same_list str_eq) (same_list_refl str_eq str_eq_refl)
