-- ===== src/Controller/Announce.antt =====
-- Edge/edgecontroller.cpp: every call of the controller keeps its two maps consistent and has the
-- effect of its name on them.
use serverlessonedge.Prelude.{
  String, none, str_eq_iff, ◌≡◌, arith, ◌∙◌, true, false, if◌then◌else◌, Option-cases, Bool-cases,
  some, refl, [], ◌∷◌, inl, inr, str_eq,
}
use serverlessonedge.Prelude.Map.{find, insert, erase, find-insert, find-erase}
use serverlessonedge.Controller.{
  ContainerList, Controller, Notice, lambdas_of, containers_of, leave, welcome,
  private_remove_computer, announce, same_containers, add_status,
}
use serverlessonedge.Controller.Serving.{
  IsConsistent, LeavesMaps, computers-serve, serves-serve, served-serve,
}
use serverlessonedge.Controller.Leaving.{computers-leave, serves-leave, served-leave}

-- The comparison of container lists decides equality.
same_containers-≡ : (a b : ContainerList) → same_containers a b ≡ true → a ≡ b
unfolding same_containers
same_containers-≡ [] [] h = refl
same_containers-≡ [] (b ∷ bs) h = ground (arith, h)
same_containers-≡ (a ∷ as') [] h = ground (arith, h)
same_containers-≡ (a ∷ as') (b ∷ bs) h = ground (
  arith,
  same_containers-≡ as' bs,
  str_eq_iff a.name b.name,
  str_eq_iff a.processor b.processor,
  str_eq_iff a.lambda b.lambda,
)

-- What an announce promises of the state `t` it leaves.
abbrev pub IsAnnounced : String → ContainerList → Controller → Controller → Type 0
IsAnnounced e cs c c' =
    IsConsistent c'
    × ((k : String) → find k c'.computers ≡ (if str_eq e k then some cs else find k c.computers))

module _ {D : Type 0} (notify : Notice → Controller × D → Controller × D)
    (laws : LeavesMaps notify) where
  open laws use {same_computers, same_lambdas}

  pub notify-IsConsistent :
      (n : Notice) (s : Controller × D) → IsConsistent s.0 → IsConsistent (notify n s).0
  notify-IsConsistent n s i = record {
    agree = λ l e. rw (same_lambdas n s, same_computers n s) (i.agree l e);
    served = λ l. rw (same_lambdas n s) (i.served l);
  }

  computers-private_remove_computer :
      (e : String) (s : Controller × D)
      → (private_remove_computer notify e s).0.computers ≡ erase e s.0.computers
  unfolding private_remove_computer
  computers-private_remove_computer e (c, d) =
      let ls = lambdas_of (containers_of (find e c.computers)) in
      let c' : Controller = record c { computers = erase e c.computers } in
      same_computers _ _ ∙ (same_computers _ _ ∙ computers-leave notify laws e ls (c', d))

  -- Removing a computer takes it out of every lambda, and keeps the maps consistent.
  pub private_remove_computer-IsConsistent :
      (e : String) (s : Controller × D)
      → IsConsistent s.0
      → IsConsistent (private_remove_computer notify e s).0
        × ((private_remove_computer notify e s).0.computers ≡ erase e s.0.computers)
  unfolding private_remove_computer
  private_remove_computer-IsConsistent e (c, d) i =
      let ls = lambdas_of (containers_of (find e c.computers)) in
      let c' : Controller = record c { computers = erase e c.computers } in
      let left = leave notify e ls (c', d) in
      (
        notify-IsConsistent _ _ (
            notify-IsConsistent _ _ (record {
              agree = λ l k. ground (
                arith,
                serves-leave notify laws e ls (c', d) l k,
                computers-leave notify laws e ls (c', d),
                i.agree l k,
                find-erase e k c.computers,
                str_eq_iff e k,
              );
              served = served-leave notify laws e ls (c', d) i.served;
            })),
        computers-private_remove_computer e (c, d),
      )

  welcome-IsConsistent :
      (e : String) (cs : ContainerList) (s : Controller × D)
      → IsConsistent s.0
      → find e s.0.computers ≡ none
      → IsConsistent (welcome notify e cs s).0
        × ((welcome notify e cs s).0.computers ≡ insert e cs s.0.computers)
  unfolding welcome
  welcome-IsConsistent e cs (c, d) i absent =
      let c' : Controller = record c { computers = insert e cs c.computers } in
      (
        notify-IsConsistent _ _ (
            notify-IsConsistent _ _ (record {
              agree = λ l k. ground (
                arith,
                serves-serve notify laws e cs (c', d) l k,
                computers-serve notify laws e cs (c', d),
                i.agree l k,
                find-insert e k cs c.computers,
                str_eq_iff e k,
              );
              served = served-serve notify laws e cs (c', d) i.served;
            })),
        same_computers _ _ ∙ (same_computers _ _ ∙ computers-serve notify laws e cs (c', d)),
      )

  pub announce_absent :
      (e : String) (cs : ContainerList) (s : Controller × D)
      → find e s.0.computers ≡ none
      → announce notify e cs s ≡ welcome notify e cs s
  unfolding announce add_status
  announce_absent e cs s h = ground (arith, h)

  pub announce_known :
      (e : String) (cs old : ContainerList) (s : Controller × D)
      → find e s.0.computers ≡ some old
      → same_containers old cs ≡ true
      → announce notify e cs s ≡ s
  unfolding announce add_status
  announce_known e cs old s h same = ground (arith, h, same)

  pub announce_changed :
      (e : String) (cs old : ContainerList) (s : Controller × D)
      → find e s.0.computers ≡ some old
      → same_containers old cs ≡ false
      → announce notify e cs s ≡ welcome notify e cs (private_remove_computer notify e s)
  unfolding announce add_status
  announce_changed e cs old s h other = ground (arith, h, other)

  -- Announcing a computer makes it known with exactly the announced containers, be it new, known
  -- with other containers or known with the same; no other computer changes, and the two maps of
  -- the controller stay consistent.
  pub announce-IsConsistent :
      (e : String) (cs : ContainerList) (s : Controller × D)
      → IsConsistent s.0
      → IsAnnounced e cs s.0 (announce notify e cs s).0
  announce-IsConsistent e cs s i = elim (Option-cases (find e s.0.computers)) [
    | inl absent ↦
        let w = welcome-IsConsistent e cs s i absent in
        rw (announce_absent e cs s absent)
          (w.0, λ k. ground (arith, w.1, find-insert e k cs s.0.computers))
    | inr (old, known) ↦ elim (Bool-cases (same_containers old cs)) [
      | inl same ↦
          rw (announce_known e cs old s known same)
            (i, λ k. ground (arith, same_containers-≡ old cs same, str_eq_iff e k))
      | inr other ↦
          let p = private_remove_computer-IsConsistent e s i in
          let left = private_remove_computer notify e s in
          let gone : find e left.0.computers ≡ none =
            ground (arith, p.1, find-erase e e s.0.computers, str_eq_iff e e) in
          let w = welcome-IsConsistent e cs left p.0 gone in
          rw (announce_changed e cs old s known other) (
            w.0,
            λ k. ground (
              arith,
              w.1,
              p.1,
              find-insert e k cs left.0.computers,
              find-erase e k s.0.computers,
            ),
          )
    ]
  ]
