-- ===== src/Controller/Leaving.antt =====
-- `privateRemoveComputer` of Edge/edgecontroller.cpp: its loop over the lambdas of the computer.
use serverlessonedge.Prelude.{
  String, true, ◌&&◌, not, none, some, List, [], ◌∷◌, str_eq, str_eq_iff, if◌then◌else◌, is_some,
  ◌≡◌, refl, arith, ◌∙◌,
}
use serverlessonedge.Prelude.Map.{StringSet, find, erase, find-insert, find-erase, find-nil, mem}
use serverlessonedge.Controller.{
  Controller, Notice, del_lambda, computers_of, is_empty, leave, leave_one,
}
use serverlessonedge.Controller.Serving.{serves, HasComputers, LeavesMaps}

find-is_empty : (k : String) (s : StringSet) → is_empty s ≡ true → find k s ≡ none
unfolding find
find-is_empty k [] h = refl
find-is_empty k (x ∷ s) h = cc

module _ {D : Type 0} (notify : Notice → Controller × D → Controller × D)
    (laws : LeavesMaps notify) where
  open laws use {same_computers, same_lambdas}

  computers-leave_one :
      (e l : String) (s : Controller × D) → (leave_one notify e l s).0.computers ≡ s.0.computers
  unfolding leave_one
  computers-leave_one e l (c, d) =
      ground (arith, same_computers (del_lambda l) (record c { lambdas = erase l c.lambdas }, d))

  find-leave_one :
      (e l : String) (s : Controller × D) (k : String)
      → find k (leave_one notify e l s).0.lambdas ≡ (
          if str_eq l k && is_some (find l s.0.lambdas)
          then (if is_empty (erase e (computers_of (find k s.0.lambdas)))
              then none
              else some (erase e (computers_of (find k s.0.lambdas))))
          else find k s.0.lambdas)
  unfolding leave_one
  find-leave_one e l (c, d) k = ground (
    arith,
    same_lambdas (del_lambda l) (record c { lambdas = erase l c.lambdas }, d),
    find-insert l k (erase e (computers_of (find l c.lambdas))) c.lambdas,
    find-erase l k c.lambdas,
    str_eq_iff l k,
  )

  serves-leave_one :
      (e l : String) (s : Controller × D) (k j : String)
      → serves (leave_one notify e l s).0 k j ≡ (serves s.0 k j && not (str_eq l k && str_eq e j))
  serves-leave_one e l s k j =
      let set = computers_of (find k s.0.lambdas) in
      ground (
        arith,
        find-leave_one e l s k,
        find-erase e j set,
        find-is_empty j (erase e set),
        find-nil {0} {V = Unit} j,
        str_eq_iff l k,
      )

  served-leave_one :
      (e l : String) (s : Controller × D) (k : String)
      → HasComputers (find k s.0.lambdas)
      → HasComputers (find k (leave_one notify e l s).0.lambdas)
  served-leave_one e l s k h = ground (arith, find-leave_one e l s k)

  pub computers-leave :
      (e : String) (ls : List String) (s : Controller × D)
      → (leave notify e ls s).0.computers ≡ s.0.computers
  unfolding leave
  computers-leave e [] s = refl
  computers-leave e (l ∷ ls) s =
      computers-leave e ls (leave_one notify e l s) ∙ computers-leave_one e l s

  -- The loop of a removal takes the computer out of the listed lambdas, also if one is listed twice.
  pub serves-leave :
      (e : String) (ls : List String) (s : Controller × D) (k j : String)
      → serves (leave notify e ls s).0 k j ≡ (serves s.0 k j && not (mem k ls && str_eq e j))
  unfolding leave
  serves-leave e [] s k j = ground arith
  serves-leave e (l ∷ ls) s k j =
      ground (arith, serves-leave e ls (leave_one notify e l s) k j, serves-leave_one e l s k j)

  pub served-leave :
      (e : String) (ls : List String) (s : Controller × D)
      → ((k : String) → HasComputers (find k s.0.lambdas))
      → (k : String) → HasComputers (find k (leave notify e ls s).0.lambdas)
  unfolding leave
  served-leave e [] s h k = h k
  served-leave e (l ∷ ls) s h k =
      served-leave e ls (leave_one notify e l s) (λ j. served-leave_one e l s j (h j)) k
