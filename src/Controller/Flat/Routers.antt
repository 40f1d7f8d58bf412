-- ===== src/Controller/Flat/Routers.antt =====
-- Edge/edgecontrollerflat.cpp: which routers each virtual call tells of what, and which routers the
-- controller forgets since they do not answer.
use mathlib.Core.List.{append-nil, append_assoc}
use serverlessonedge.Prelude.{
  String, Bool, true, false, Option, none, some, List, [], ◌∷◌, ◌++◌, map, not, if◌then◌else◌,
  str_eq, str_eq_iff, ◌≡◌, refl, sym, ap, ◌∙◌, arith, Bool-cases, List-cases, inl, inr,
}
use serverlessonedge.Prelude.Map.{Map, find, find-erase, mem}
use serverlessonedge.Prelude.Map.Sorted.{IsSorted, find-Above}
use serverlessonedge.Prelude.Float.{Float}
use serverlessonedge.Controller.{
  ContainerList, Controller, Notice, add_lambda, del_lambda, add_computer, del_computer,
  announce_computer, remove_computer, announce_router, remove_router, drop_router, computer_lambdas,
}
use serverlessonedge.Controller.Flat.Laws.{drop_routers-OnlyDrops, remove_from-OnlyDrops}
use serverlessonedge.Controller.Flat.{
  Route, tell_all, drop_routers, private_announce_computer, private_announce_router, remove_from,
  flat, container_routes,
}

-- A remote call: to which router, and what it tells.
pub data Message (W : Type 0) : Type 0 where
  changes : String → List (Route W) → Message W
  removes : String → String → List String → Message W

module _ {W : Type 0} (up : String → Bool) where
  -- The remote calls are noted in their order; the routers that are `up` answer.
  abbrev pub note_change : String → List (Route W) → List (Message W) → Bool × List (Message W)
  note_change router routes log = (up router, log ++ (changes router routes ∷ []))

  abbrev pub note_remove :
      String → String → List String → List (Message W) → Bool × List (Message W)
  note_remove router e ls log = (up router, log ++ (removes router e ls ∷ []))

-- The router, if it answers.
abbrev pub kept : (String → Bool) → Option String → Option String
kept up none = none
kept up (some router) = if up router then some router else none

-- The router is known and does not answer.
abbrev lost : (String → Bool) → Option String → Bool
lost up none = false
lost up (some router) = not (up router)

kept-lost : (up : String → Bool) (o : Option String) → (if lost up o then none else o) ≡ kept up o
kept-lost up none = refl
kept-lost up (some router) = ground arith

module _ {W : Type 0} (d : Float W) where
  -- What a virtual call tells, and to which routers.
  abbrev pub told_of : Notice → Controller → List (Message W)
  told_of (announce_computer e cs) c =
      map
        (λ x. changes x.1 (
          map (λ y. record { lambda = y.lambda; destination = e; weight = d.one; final = true })
            cs))
        c.routers
  told_of (remove_computer e ls) c = map (λ x. removes x.1 e ls) c.routers
  told_of (announce_router server router) c = elim (computer_lambdas c.computers) [
    | [] ↦ []
    | x ∷ xs ↦
        changes router (
          map (λ y. record { lambda = y.0; destination = y.1; weight = d.one; final = true })
            (x ∷ xs))
        ∷ []
  ]
  told_of n c = []

-- The endpoint that is known of a router after a virtual call.
abbrev pub stays : (String → Bool) → Notice → Controller → String → Option String
stays up (announce_computer e cs) c k = kept up (find k c.routers)
stays up (remove_computer e ls) c k = kept up (find k c.routers)
stays up (announce_router server router) c k = elim (computer_lambdas c.computers) [
  | [] ↦ find k c.routers
  | x ∷ xs ↦
      if up router then find k c.routers else if str_eq server k then none else find k c.routers
]
stays up n c k = find k c.routers

module _ {W : Type 0} (d : Float W) (up : String → Bool) where
  abbrev tell : List (Route W) → Map String → List (Message W) → List String × List (Message W)
  tell = tell_all d (note_change up) (note_remove up)

  tell-log :
      (routes : List (Route W)) (m : Map String) (log : List (Message W))
      → (tell routes m log).1 ≡ log ++ map (λ x. changes x.1 routes) m
  unfolding tell_all
  tell-log routes [] log = sym (append-nil log)
  tell-log routes ((server, router) ∷ m) log =
      tell-log routes m (log ++ (changes router routes ∷ []))
      ∙ append_assoc log (changes router routes ∷ []) (map (λ x. changes x.1 routes) m)

  -- The routers to be removed are those that do not answer.
  tell-bad :
      (routes : List (Route W)) (m : Map String) (log : List (Message W)) (k : String)
      → IsSorted m
      → mem k (tell routes m log).0 ≡ lost up (find k m)
  unfolding tell_all find
  tell-bad routes [] log k s = refl
  tell-bad routes ((server, router) ∷ m) log k s = ground (
    arith,
    tell-bad routes m (log ++ (changes router routes ∷ [])) k s.1,
    find-Above server m s.0,
    str_eq_iff server k,
  )

  drop_routers-find :
      (bad : List String) (c : Controller) (k : String)
      → find k (drop_routers d (note_change {W = W} up) (note_remove up) bad c).routers
        ≡ (if mem k bad then none else find k c.routers)
  unfolding drop_routers
  drop_routers-find [] c k = refl
  drop_routers-find (server ∷ bad) c k =
      ground (arith, drop_routers-find bad (drop_router server c) k, find-erase server k c.routers)

  remove_from-log :
      (e : String) (ls : List String) (m : Map String) (c : Controller) (log : List (Message W))
      → (remove_from d (note_change up) (note_remove up) e ls m (c, log)).1
        ≡ log ++ map (λ x. removes x.1 e ls) m
  unfolding remove_from
  remove_from-log e ls [] c log = sym (append-nil log)
  remove_from-log e ls ((server, router) ∷ m) c log =
      remove_from-log e ls m _ (log ++ (removes router e ls ∷ []))
      ∙ append_assoc log (removes router e ls ∷ []) (map (λ x. removes x.1 e ls) m)

  remove_from-find :
      (e : String) (ls : List String) (m : Map String) (c : Controller) (log : List (Message W))
      (k : String)
      → IsSorted m
      → find k (remove_from d (note_change up) (note_remove up) e ls m (c, log)).0.routers
        ≡ (if lost up (find k m) then none else find k c.routers)
  unfolding remove_from find
  remove_from-find e ls [] c log k s = refl
  remove_from-find e ls ((server, router) ∷ m) c log k s =
      let log' = log ++ (removes router e ls ∷ []) in
      ground (
        arith,
        remove_from-find e ls m c log' k s.1,
        remove_from-find e ls m (drop_router server c) log' k s.1,
        find-Above server m s.0,
        str_eq_iff server k,
        find-erase server k c.routers,
      )

  -- What the controller is after a virtual call, and which remote calls were made.
  pub record Told (n : Notice) (s s' : Controller × List (Message W)) : Type 0 where
    pub computers : s'.0.computers ≡ s.0.computers
    pub lambdas : s'.0.lambdas ≡ s.0.lambdas
    pub calls : s'.1 ≡ s.1 ++ told_of d n s.0
    pub routers : (k : String) → find k s'.0.routers ≡ stays up n s.0 k

  Told-nothing :
      (n : Notice) (s : Controller × List (Message W))
      → told_of d n s.0 ≡ []
      → ((k : String) → find k s.0.routers ≡ stays up n s.0 k)
      → Told n s s
  Told-nothing n s e h = record {
    computers = refl;
    lambdas = refl;
    calls = sym (append-nil s.1) ∙ ap (λ l. s.1 ++ l) (sym e);
    routers = h;
  }

  announce_computer-Told :
      (e : String) (cs : ContainerList) (s : Controller × List (Message W))
      → IsSorted s.0.routers
      → Told
          (announce_computer e cs)
          s
          (private_announce_computer d (note_change up) (note_remove up) e cs s)
  unfolding private_announce_computer
  announce_computer-Told e cs (c, log) sorted =
      let routes = container_routes d e cs in
      let bad = (tell routes c.routers log).0 in
      let drops = drop_routers-OnlyDrops d (note_change up) (note_remove up) bad c in
      record {
        computers = drops.computers_stay;
        lambdas = drops.lambdas_stay;
        calls = tell-log routes c.routers log;
        routers = λ k.
            drop_routers-find bad c k
            ∙ ap (λ (b : Bool). if b then none else find k c.routers)
                (tell-bad routes c.routers log k sorted)
            ∙ kept-lost up (find k c.routers);
      }

  remove_computer-Told :
      (e : String) (ls : List String) (s : Controller × List (Message W))
      → IsSorted s.0.routers
      → Told
          (remove_computer e ls)
          s
          (remove_from d (note_change up) (note_remove up) e ls s.0.routers s)
  remove_computer-Told e ls (c, log) sorted =
      let drops =
        remove_from-OnlyDrops d (note_change up) (note_remove up) e ls c.routers (c, log) in
      record {
        computers = drops.computers_stay;
        lambdas = drops.lambdas_stay;
        calls = remove_from-log e ls c.routers c log;
        routers =
            λ k. remove_from-find e ls c.routers c log k sorted ∙ kept-lost up (find k c.routers);
      }

  announce_router-Told :
      (server router : String) (s : Controller × List (Message W))
      → Told
          (announce_router server router)
          s
          (private_announce_router d (note_change up) (note_remove up) server router s)
  unfolding private_announce_router
  announce_router-Told server router (c, log) = elim (List-cases (computer_lambdas c.computers)) [
    | inl none_known ↦ rw none_known (record {
      computers = refl;
      lambdas = refl;
      calls = sym (append-nil log) ∙ ap (λ l. log ++ l) (rw (told_of, none_known) refl);
      routers = λ k. rw (stays, none_known) refl;
    })
    | inr (x, xs, known) ↦ elim (Bool-cases (up router)) [
      | inl answers ↦
          rw (known, answers)
            (record {
              computers = refl;
              lambdas = refl;
              calls = rw (told_of, known) refl;
              routers = λ k. rw (stays, known, answers) refl;
            })
      | inr silent ↦
          rw (known, silent)
            (record {
              computers = refl;
              lambdas = refl;
              calls = rw (told_of, known) refl;
              routers = λ k. rw (stays, known, silent) (find-erase server k c.routers);
            })
    ]
  ]

  -- With routers that always answer or never do: a virtual call of the flat controller tells all
  -- its routers, in their order, of a computer that joins or leaves, and a new router of all
  -- containers that are known, if any. Of the routers told, the controller keeps those that answer
  -- and forgets the others; the other routers, the computers and the lambdas stay as they are.
  pub flat-Told :
      (n : Notice) (s : Controller × List (Message W))
      → IsSorted s.0.routers
      → Told n s (flat d (note_change up) (note_remove up) n s)
  unfolding flat
  flat-Told (add_lambda l) s sorted = Told-nothing (add_lambda l) s refl (λ k. refl)
  flat-Told (del_lambda l) s sorted = Told-nothing (del_lambda l) s refl (λ k. refl)
  flat-Told (add_computer e ls) s sorted = Told-nothing (add_computer e ls) s refl (λ k. refl)
  flat-Told (del_computer e ls) s sorted = Told-nothing (del_computer e ls) s refl (λ k. refl)
  flat-Told (announce_computer e cs) s sorted = announce_computer-Told e cs s sorted
  flat-Told (remove_computer e ls) s sorted = remove_computer-Told e ls s sorted
  flat-Told (announce_router server router) s sorted = announce_router-Told server router s
  flat-Told (remove_router server) s sorted = Told-nothing (remove_router server) s refl (λ k. refl)
