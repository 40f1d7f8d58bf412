-- ===== src/Controller/Calls.antt =====
-- Edge/edgecontroller.h: the calls that the RPC server makes of a controller, in sequence from the
-- empty one.
use serverlessonedge.Prelude.{
  String, Option, none, some, List, [], ◌∷◌, str_eq, if◌then◌else◌, ◌≡◌, refl,
}
use serverlessonedge.Prelude.Map.{find, find-erase}
use serverlessonedge.Controller.{
  ContainerList, Controller, Notice, announce, private_remove_computer, announce_router_at, initial,
}
use serverlessonedge.Controller.Serving.{IsConsistent, LeavesMaps}
use serverlessonedge.Controller.Announce.{
  announce-IsConsistent, private_remove_computer-IsConsistent, notify-IsConsistent,
}

-- `announceComputer`, `removeComputer` and `announceRouter`, with their arguments.
pub data Call : Type 0 where
  announces : String → ContainerList → Call
  removes : String → Call
  announces_router : String → String → Call

-- The containers that `e` announced after its last removal: `last` before these calls.
abbrev pub last_announced : String → List Call → Option ContainerList → Option ContainerList
last_announced e [] last = last
last_announced e (announces k cs ∷ calls) last =
    last_announced e calls (if str_eq k e then some cs else last)
last_announced e (removes k ∷ calls) last =
    last_announced e calls (if str_eq k e then none else last)
last_announced e (announces_router k r ∷ calls) last = last_announced e calls last

pub initial-IsConsistent : IsConsistent initial
unfolding find
initial-IsConsistent = record { agree = λ l e. refl; served = λ l. tt }

module _ {D : Type 0} (notify : Notice → Controller × D → Controller × D) where
  unfoldable pub call : Call → Controller × D → Controller × D
  unfolding announce private_remove_computer announce_router_at
  call (announces e cs) s = announce notify e cs s
  call (removes e) s = private_remove_computer notify e s
  call (announces_router k r) s = announce_router_at notify k r s

  unfoldable pub run : List Call → Controller × D → Controller × D
  unfolding call
  run [] s = s
  run (x ∷ calls) s = run calls (call x s)

  module _ (laws : LeavesMaps notify) where
    pub announce_router-IsConsistent :
        (k r : String) (s : Controller × D)
        → IsConsistent s.0
        → IsConsistent (announce_router_at notify k r s).0
          × ((announce_router_at notify k r s).0.computers ≡ s.0.computers)
    unfolding announce_router_at
    announce_router-IsConsistent k r (c, d) i = (
      notify-IsConsistent notify laws _ _ (record { agree = i.agree; served = i.served }),
      laws.same_computers _ _,
    )

    run-IsConsistent :
        (calls : List Call) (s : Controller × D)
        → IsConsistent s.0
        → IsConsistent (run calls s).0
          × ((e : String)
              → find e (run calls s).0.computers ≡ last_announced e calls (find e s.0.computers))
    unfolding run call
    run-IsConsistent [] s i = (i, λ e. refl)
    run-IsConsistent (announces k cs ∷ calls) s i =
        let a = announce-IsConsistent notify laws k cs s i in
        let r = run-IsConsistent calls (announce notify k cs s) a.0 in
        (r.0, λ e. rw (r.1 e, a.1 e) refl)
    run-IsConsistent (removes k ∷ calls) s i =
        let a = private_remove_computer-IsConsistent notify laws k s i in
        let r = run-IsConsistent calls (private_remove_computer notify k s) a.0 in
        (r.0, λ e. rw (r.1 e, a.1, find-erase k e s.0.computers) refl)
    run-IsConsistent (announces_router k q ∷ calls) s i =
        let a = announce_router-IsConsistent k q s i in
        let r = run-IsConsistent calls (announce_router_at notify k q s) a.0 in
        (r.0, λ e. rw (r.1 e, a.1) refl)

    -- After any sequence of calls on a new controller, the two maps are consistent, and the
    -- containers known of a computer are those of its last announce since its last removal.
    pub run-initial-IsConsistent :
        (calls : List Call) (d : D)
        → IsConsistent (run calls (initial, d)).0
          × ((e : String)
              → find e (run calls (initial, d)).0.computers ≡ last_announced e calls none)
    unfolding find
    run-initial-IsConsistent calls d = run-IsConsistent calls (initial, d) initial-IsConsistent
