-- ===== src/Controller/Tracking.antt =====
-- Edge/edgecontroller.cpp: what a derived class can tell from the calls of `addLambda` and
-- `delLambda`, as Edge/edgecontrollerhier.cpp and the flat controller do.
use serverlessonedge.Controller.Announce.{
  private_remove_computer-IsConsistent, announce_known, announce_absent, announce_changed,
  announce-IsConsistent,
}
use serverlessonedge.Prelude.{
  String, Bool, false, List, [], ◌∷◌, str_eq, str_eq_iff, ◌≡◌, arith, is_some, ◌||◌, ◌&&◌, not,
  Option-cases, Bool-cases, inl, inr, Option, none, some, true, ◌↔◌, sym, refl, ◌∙◌,
}
use serverlessonedge.Prelude.Map.{
  find, find-erase, insert, erase, emplace, find-insert, find-emplace, add, find-nil, StringSet,
  contains,
}
use serverlessonedge.Controller.{
  ContainerInfo, ContainerList, Controller, Notice, add_lambda, del_lambda, add_computer,
  del_computer, announce_computer, remove_computer, announce_router, serve_one, serve, leave_one,
  leave, welcome, private_remove_computer, announce, announce_router_at, initial, computers_of,
  lambdas_of, containers_of, same_containers,
}
use serverlessonedge.Controller.Serving.{
  IsConsistent, LeavesMaps, HasComputers, served-serve_one, offers, serves,
}
use serverlessonedge.Controller.Calls.{
  Call, call, run, announces, removes, announces_router, initial-IsConsistent,
  announce_router-IsConsistent, run-initial-IsConsistent,
}

-- The lambda is told of by this call, and it is then known or not.
abbrev pub told : Notice → String → Bool → Bool
told (add_lambda l) k b = str_eq l k || b
told (del_lambda l) k b = not (str_eq l k) && b
told n k b = b

-- A derived class that notes in its state which lambdas it was told of.
pub record Tracks {D : Type 0} (notify : Notice → Controller × D → Controller × D)
    (knows : D → String → Bool) : Type 0 where
  pub tracks :
      (n : Notice) (s : Controller × D) (k : String)
      → knows (notify n s).1 k ≡ told n k (knows s.1 k)

-- The set of a lambda that is in the map has a first computer.
first_of :
    (o : Option StringSet)
    → HasComputers o
    → is_some o ≡ true
    → (e : String) × (contains e (computers_of o) ≡ true)
unfolding find
first_of none h t = cc
first_of (some []) h t = cc
first_of (some ((e, u) ∷ s)) h t = (e, ground (arith, str_eq_iff e e))

-- The lambdas of a consistent controller are those that some known computer offers.
known_iff :
    (c : Controller) (k : String)
    → IsConsistent c
    → (is_some (find k c.lambdas) ≡ true) ↔ ((e : String) × (offers c e k ≡ true))
known_iff c k i = (
  λ h.
      let (e, in_set) = first_of (find k c.lambdas) (i.served k) h in
      (e, sym (i.agree k e) ∙ in_set),
  λ (e, o). elim (Option-cases (find k c.lambdas)) [
    | inl absent ↦
        let served : serves c k e ≡ true = i.agree k e ∙ o in
        ground (arith, absent, served, find-nil {V = Unit {0}} e)
    | inr (s, there) ↦ rw there refl
  ],
)

module _ {D : Type 0} (notify : Notice → Controller × D → Controller × D)
    (knows : D → String → Bool) (laws : LeavesMaps notify) (track : Tracks notify knows) where
  open laws use {same_computers, same_lambdas}
  open track use {tracks}

  abbrev Matches : Controller × D → Type 0
  Matches s = (k : String) → knows s.1 k ≡ is_some (find k s.0.lambdas)

  serve_one-Matches :
      (e : String) (x : ContainerInfo) (s : Controller × D)
      → ((k : String) → HasComputers (find k s.0.lambdas))
      → Matches s
      → Matches (serve_one notify e x s)
  unfolding serve_one
  serve_one-Matches e x (c, d) h m k =
      let c1 : Controller = record c { lambdas = emplace x.lambda [] c.lambdas } in
      ground (
        arith,
        h x.lambda,
        m k,
        m x.lambda,
        tracks (add_lambda x.lambda) (c1, d) k,
        same_lambdas (add_lambda x.lambda) (c1, d),
        find-insert x.lambda k (add e (computers_of (find x.lambda c1.lambdas))) c1.lambdas,
        find-emplace x.lambda k [] c.lambdas,
        find-emplace x.lambda x.lambda [] c.lambdas,
        str_eq_iff x.lambda k,
        str_eq_iff x.lambda x.lambda,
      )

  leave_one-Matches :
      (e l : String) (s : Controller × D) → Matches s → Matches (leave_one notify e l s)
  unfolding leave_one
  leave_one-Matches e l (c, d) m k =
      let c1 : Controller = record c { lambdas = erase l c.lambdas } in
      ground (
        arith,
        m k,
        m l,
        tracks (del_lambda l) (c1, d) k,
        same_lambdas (del_lambda l) (c1, d),
        find-insert l k (erase e (computers_of (find l c.lambdas))) c.lambdas,
        find-erase l k c.lambdas,
        str_eq_iff l k,
      )

  serve-Matches :
      (e : String) (cs : ContainerList) (s : Controller × D)
      → ((k : String) → HasComputers (find k s.0.lambdas))
      → Matches s
      → Matches (serve notify e cs s)
  unfolding serve
  serve-Matches e [] s h m = m
  serve-Matches e (x ∷ xs) s h m =
      serve-Matches e xs (serve_one notify e x s) (λ k. served-serve_one notify laws e x s k (h k))
        (serve_one-Matches e x s h m)

  leave-Matches :
      (e : String) (ls : List String) (s : Controller × D)
      → Matches s
      → Matches (leave notify e ls s)
  unfolding leave
  leave-Matches e [] s m = m
  leave-Matches e (l ∷ ls) s m =
      leave-Matches e ls (leave_one notify e l s) (leave_one-Matches e l s m)

  private_remove_computer-Matches :
      (e : String) (s : Controller × D) → Matches s → Matches (private_remove_computer notify e s)
  unfolding private_remove_computer
  private_remove_computer-Matches e (c, d) m k =
      let ls = lambdas_of (containers_of (find e c.computers)) in
      let c' : Controller = record c { computers = erase e c.computers } in
      let left = leave notify e ls (c', d) in
      let t = notify (del_computer e ls) left in
      ground (
        arith,
        tracks (remove_computer e ls) t k,
        same_lambdas (remove_computer e ls) t,
        tracks (del_computer e ls) left k,
        same_lambdas (del_computer e ls) left,
        leave-Matches e ls (c', d) m k,
      )

  welcome-Matches :
      (e : String) (cs : ContainerList) (s : Controller × D)
      → IsConsistent s.0
      → Matches s
      → Matches (welcome notify e cs s)
  unfolding welcome
  welcome-Matches e cs (c, d) i m k =
      let ls = lambdas_of cs in
      let c' : Controller = record c { computers = insert e cs c.computers } in
      let served = serve notify e cs (c', d) in
      let t = notify (add_computer e ls) served in
      ground (
        arith,
        tracks (announce_computer e cs) t k,
        same_lambdas (announce_computer e cs) t,
        tracks (add_computer e ls) served k,
        same_lambdas (add_computer e ls) served,
        serve-Matches e cs (c', d) i.served m k,
      )

  announce-Matches :
      (e : String) (cs : ContainerList) (s : Controller × D)
      → IsConsistent s.0
      → Matches s
      → Matches (announce notify e cs s)
  announce-Matches e cs s i m = elim (Option-cases (find e s.0.computers)) [
    | inl absent ↦ rw (announce_absent notify laws e cs s absent) (welcome-Matches e cs s i m)
    | inr (old, known) ↦ elim (Bool-cases (same_containers old cs)) [
      | inl same ↦ rw (announce_known notify laws e cs old s known same) m
      | inr other ↦ rw (announce_changed notify laws e cs old s known other) (
          welcome-Matches e cs (private_remove_computer notify e s)
            (private_remove_computer-IsConsistent notify laws e s i).0
            (private_remove_computer-Matches e s m))
    ]
  ]

  announce_router-Matches :
      (q r : String) (s : Controller × D) → Matches s → Matches (announce_router_at notify q r s)
  unfolding announce_router_at
  announce_router-Matches q r (c, d) m k =
      let c' : Controller = record c { routers = insert q r c.routers } in
      ground (
        arith,
        m k,
        tracks (announce_router q r) (c', d) k,
        same_lambdas (announce_router q r) (c', d),
      )

  run-Matches :
      (calls : List Call) (s : Controller × D)
      → IsConsistent s.0
      → Matches s
      → Matches (run notify calls s)
  unfolding run call
  run-Matches [] s i m = m
  run-Matches (announces e cs ∷ calls) s i m =
      run-Matches calls (announce notify e cs s) (announce-IsConsistent notify laws e cs s i).0
        (announce-Matches e cs s i m)
  run-Matches (removes e ∷ calls) s i m =
      run-Matches calls (private_remove_computer notify e s)
        (private_remove_computer-IsConsistent notify laws e s i).0
        (private_remove_computer-Matches e s m)
  run-Matches (announces_router q r ∷ calls) s i m =
      run-Matches calls (announce_router_at notify q r s)
        (announce_router-IsConsistent notify laws q r s i).0 (announce_router-Matches q r s m)

  -- A derived class that starts with no lambda, and notes the calls of `addLambda` and `delLambda`,
  -- knows after any sequence of calls exactly the lambdas for which some known computer has a
  -- container.
  pub run-tracks :
      (calls : List Call) (d : D)
      → ((k : String) → knows d k ≡ false)
      → (k : String)
      → let s = run notify calls (initial, d) in
        (knows s.1 k ≡ true) ↔ ((e : String) × (offers s.0 e k ≡ true))
  unfolding find
  run-tracks calls d fresh k =
      let s = run notify calls (initial, d) in
      let same = run-Matches calls (initial, d) initial-IsConsistent fresh k in
      let (to, from) = known_iff s.0 k (run-initial-IsConsistent notify laws calls d).0 in
      (λ h. to (sym same ∙ h), λ o. same ∙ from o)
