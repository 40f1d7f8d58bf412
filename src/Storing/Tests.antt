-- ===== src/Storing/Tests.antt =====
-- Runs of the client and the server of Edge/stateserver.cpp, after Test/teststate.cpp.
use serverlessonedge.Prelude.{true, false, some, List, [], ◌∷◌, ◌≡◌, refl}
use serverlessonedge.Storing.Runs.{
  Call, get, put, del, Answer, got, stored, deleted, run, content_after, replies, run_lem,
}

abbrev calls : List Call
calls =
    put "s0" "content-s0"
    ∷ put "s0" "another-content-s0"
    ∷ get "s0" ""
    ∷ get "sX" "before"
    ∷ del "sX"
    ∷ del "s0"
    ∷ get "s0" "before"
    ∷ del "s0"
    ∷ []

abbrev answers : List Answer
answers =
    stored
    ∷ stored
    ∷ got true "another-content-s0"
    ∷ got false "before"
    ∷ deleted false
    ∷ deleted true
    ∷ got false "before"
    ∷ deleted false
    ∷ []

answers_of_calls : replies [] calls ≡ answers
unfolding replies content_after
answers_of_calls = refl

content_is_last : content_after (get "s0" "" ∷ put "s0" "b" ∷ put "s0" "a" ∷ []) "s0" ≡ some "b"
unfolding content_after
content_is_last = refl

run_lem_example : run calls [] ≡ replies [] calls
run_lem_example = run_lem calls
