-- ===== src/Controller/Tests.antt =====
-- Runs of the controller of Edge/edgecontroller.cpp with a derived class that notes the lambdas it
-- is told of.
use serverlessonedge.Controller.Flat.Routers.{Told, note_change, note_remove, flat-Told}
use serverlessonedge.Controller.Flat.{flat, private_announce_computer, tell_all, drop_routers}
use serverlessonedge.Prelude.Float.{whole}
use serverlessonedge.Prelude.{
  String, Bool, none, List, [], ◌∷◌, ◌≡◌, refl, arith, ℕ, not, str_eq, true, ◌↔◌,
}
use serverlessonedge.Prelude.Map.{
  StringSet, find, erase, insert, add, contains, find-insert, find-erase,
}
use serverlessonedge.Controller.{
  ContainerList, Controller, Notice, add_lambda, del_lambda, add_computer, del_computer,
  announce_computer, remove_computer, announce_router, remove_router, announce, initial, serve_one,
  leave_one,
}
use serverlessonedge.Controller.Serving.{LeavesMaps, offers}
use serverlessonedge.Controller.Announce.{announce-IsConsistent, IsAnnounced}
use serverlessonedge.Controller.Serving.{IsConsistent}
use serverlessonedge.Controller.Calls.{
  Call, announces, removes, announces_router, run, run-initial-IsConsistent, last_announced,
}
use serverlessonedge.Controller.Tracking.{Tracks, told, run-tracks}

abbrev note : Notice → Controller × StringSet → Controller × StringSet
note (add_lambda l) (c, d) = (c, add l d)
note (del_lambda l) (c, d) = (c, erase l d)
note n s = s

abbrev noted : StringSet → String → Bool
noted d k = contains k d

same_computers-note :
    (n : Notice) (s : Controller × StringSet) → (note n s).0.computers ≡ s.0.computers
same_computers-note (add_lambda l) s = refl
same_computers-note (del_lambda l) s = refl
same_computers-note (add_computer e ls) s = refl
same_computers-note (del_computer e ls) s = refl
same_computers-note (announce_computer e cs) s = refl
same_computers-note (remove_computer e ls) s = refl
same_computers-note (announce_router q r) s = refl
same_computers-note (remove_router q) s = refl

same_lambdas-note : (n : Notice) (s : Controller × StringSet) → (note n s).0.lambdas ≡ s.0.lambdas
same_lambdas-note (add_lambda l) s = refl
same_lambdas-note (del_lambda l) s = refl
same_lambdas-note (add_computer e ls) s = refl
same_lambdas-note (del_computer e ls) s = refl
same_lambdas-note (announce_computer e cs) s = refl
same_lambdas-note (remove_computer e ls) s = refl
same_lambdas-note (announce_router q r) s = refl
same_lambdas-note (remove_router q) s = refl

told-note :
    (n : Notice) (s : Controller × StringSet) (k : String)
    → noted (note n s).1 k ≡ told n k (noted s.1 k)
told-note (add_lambda l) s k = ground (arith, find-insert l k tt s.1)
told-note (del_lambda l) s k = ground (arith, find-erase l k s.1)
told-note (add_computer e ls) s k = refl
told-note (del_computer e ls) s k = refl
told-note (announce_computer e cs) s k = refl
told-note (remove_computer e ls) s k = refl
told-note (announce_router q r) s k = refl
told-note (remove_router q) s k = refl

note-LeavesMaps : LeavesMaps note
note-LeavesMaps = record { same_computers = same_computers-note; same_lambdas = same_lambdas-note }

note-Tracks : Tracks note noted
note-Tracks = record { tracks = told-note }

abbrev two_lambdas : ContainerList
two_lambdas =
    record { name = "c0"; processor = "cpu"; lambda = "clambda0"; num_workers = 2 }
    ∷ record { name = "c1"; processor = "cpu"; lambda = "lambda0"; num_workers = 1 }
    ∷ []

abbrev one_lambda : ContainerList
one_lambda = record { name = "c0"; processor = "cpu"; lambda = "lambda0"; num_workers = 4 } ∷ []

abbrev history : List Call
history =
    announces "host1:10000" two_lambdas
    ∷ announces_router "host3:6473" "host3:6474"
    ∷ announces "host2:10000" one_lambda
    ∷ announces "host1:10000" one_lambda
    ∷ removes "host2:10000"
    ∷ []

known_after : (run note history (initial, [])).1 ≡ ("lambda0", tt) ∷ []
unfolding run announce find insert erase serve_one leave_one
known_after = refl

announce-IsConsistent_example :
    IsAnnounced "host1:10000" one_lambda
      (run note history (initial, [])).0
      (announce note "host1:10000" one_lambda (run note history (initial, []))).0
announce-IsConsistent_example =
    announce-IsConsistent note note-LeavesMaps "host1:10000" one_lambda
      (run note history (initial, [])) (run-initial-IsConsistent note note-LeavesMaps history []).0

run-initial-IsConsistent_example :
    IsConsistent (run note history (initial, [])).0
    × ((e : String)
        → find e (run note history (initial, [])).0.computers ≡ last_announced e history none)
run-initial-IsConsistent_example = run-initial-IsConsistent note note-LeavesMaps history []

run-tracks_example :
    let s = run note history (initial, []) in
    (noted s.1 "lambda0" ≡ true) ↔ ((e : String) × (offers s.0 e "lambda0" ≡ true))
unfolding find
run-tracks_example =
    run-tracks note noted note-LeavesMaps note-Tracks history [] (λ k. refl) "lambda0"

-- Two routers, of which one does not answer.
abbrev answers : String → Bool
answers router = not (str_eq router "host9:6474")

abbrev two_routers : Controller
two_routers = record {
  computers = [];
  routers = ("host8:6473", "host8:6474") ∷ ("host9:6473", "host9:6474") ∷ [];
  lambdas = [];
}

abbrev joins : Notice
joins = announce_computer "host1:6473" one_lambda

flat-Told_example :
    Told whole answers joins
      (two_routers, [])
      (flat whole (note_change answers) (note_remove answers) joins (two_routers, []))
flat-Told_example = flat-Told whole answers joins (two_routers, []) ((refl, tt), (tt, tt))

-- The silent router is forgotten.
silent_forgotten :
    (flat whole
      (note_change answers)
      (note_remove {W = ℕ} answers)
      joins
      (two_routers, [])).0.routers
    ≡ ("host8:6473", "host8:6474") ∷ []
unfolding flat private_announce_computer tell_all drop_routers erase
silent_forgotten = refl
