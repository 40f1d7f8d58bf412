-- ===== src/Controller/Serving.antt =====
-- Edge/edgecontroller.cpp: the two maps of the controller, from computers to containers and from
-- lambdas to computers, say the same.
use serverlessonedge.Prelude.{
  String, Bool, false, ◌&&◌, ◌||◌, Option, none, some, [], ◌∷◌, str_eq, str_eq_iff, if◌then◌else◌,
  ◌≡◌, refl, arith, ◌∙◌,
}
use serverlessonedge.Prelude.Map.{
  StringSet, find, insert, emplace, add, contains, find-insert, find-emplace, mem,
}
use serverlessonedge.Controller.{
  ContainerInfo, ContainerList, Controller, Notice, add_lambda, lambdas_of, containers_of,
  computers_of, is_empty, serve, serve_one,
}

-- The computer `e` is known with a container for the lambda `l`.
abbrev pub offers : Controller → String → String → Bool
offers c e l = mem l (lambdas_of (containers_of (find e c.computers)))

-- The computer `e` is in the set of the lambda `l`.
abbrev pub serves : Controller → String → String → Bool
serves c l e = contains e (computers_of (find l c.lambdas))

-- No lambda has an empty set of computers.
abbrev pub HasComputers : Option StringSet → Type 0
HasComputers none = Unit
HasComputers (some s) = is_empty s ≡ false

pub record IsConsistent (c : Controller) : Type 0 where
  pub agree : (l e : String) → serves c l e ≡ offers c e l
  pub served : (l : String) → HasComputers (find l c.lambdas)

-- What the base class relies on of its derived classes: a virtual call does not touch the maps of
-- computers and of lambdas. (It may remove routers.)
pub record LeavesMaps {D : Type 0} (notify : Notice → Controller × D → Controller × D)
    : Type 0 where
  pub same_computers : (n : Notice) (s : Controller × D) → (notify n s).0.computers ≡ s.0.computers
  pub same_lambdas : (n : Notice) (s : Controller × D) → (notify n s).0.lambdas ≡ s.0.lambdas

not_empty-add : (e : String) (s : StringSet) → is_empty (add e s) ≡ false
unfolding insert
not_empty-add e [] = refl
not_empty-add e ((k, u) ∷ s) = ground arith

module _ {D : Type 0} (notify : Notice → Controller × D → Controller × D)
    (laws : LeavesMaps notify) where
  open laws use {same_computers, same_lambdas}

  computers-serve_one :
      (e : String) (x : ContainerInfo) (s : Controller × D)
      → (serve_one notify e x s).0.computers ≡ s.0.computers
  unfolding serve_one
  computers-serve_one e x (c, d) = ground (
    arith,
    same_computers (add_lambda x.lambda) (record c { lambdas = emplace x.lambda [] c.lambdas }, d),
  )

  find-serve_one :
      (e : String) (x : ContainerInfo) (s : Controller × D) (l : String)
      → find l (serve_one notify e x s).0.lambdas ≡ (
          if str_eq x.lambda l
          then some (add e (computers_of (find l s.0.lambdas)))
          else find l s.0.lambdas)
  unfolding serve_one
  find-serve_one e x (c, d) l =
      let c1 : Controller = record c { lambdas = emplace x.lambda [] c.lambdas } in
      let k =
        (if is_empty (computers_of (find x.lambda c1.lambdas))
          then notify (add_lambda x.lambda) (c1, d)
          else (c1, d)).0.lambdas in
      let same : k ≡ c1.lambdas = ground (arith, same_lambdas (add_lambda x.lambda) (c1, d)) in
      rw same (
        ground (
          arith,
          find-insert x.lambda l (add e (computers_of (find x.lambda c1.lambdas))) c1.lambdas,
          find-emplace x.lambda l [] c.lambdas,
          find-emplace x.lambda x.lambda [] c.lambdas,
          str_eq_iff x.lambda l,
          str_eq_iff x.lambda x.lambda,
        ))

  serves-serve_one :
      (e : String) (x : ContainerInfo) (s : Controller × D) (l k : String)
      → serves (serve_one notify e x s).0 l k
        ≡ (serves s.0 l k || (str_eq x.lambda l && str_eq e k))
  serves-serve_one e x s l k =
      ground (arith, find-serve_one e x s l, find-insert e k tt (computers_of (find l s.0.lambdas)))

  pub served-serve_one :
      (e : String) (x : ContainerInfo) (s : Controller × D) (l : String)
      → HasComputers (find l s.0.lambdas)
      → HasComputers (find l (serve_one notify e x s).0.lambdas)
  served-serve_one e x s l h =
      ground (arith, find-serve_one e x s l, not_empty-add e (computers_of (find l s.0.lambdas)))

  pub computers-serve :
      (e : String) (cs : ContainerList) (s : Controller × D)
      → (serve notify e cs s).0.computers ≡ s.0.computers
  unfolding serve
  computers-serve e [] s = refl
  computers-serve e (x ∷ xs) s =
      computers-serve e xs (serve_one notify e x s) ∙ computers-serve_one e x s

  -- The loop of an announce adds the computer to the lambdas of its containers.
  pub serves-serve :
      (e : String) (cs : ContainerList) (s : Controller × D) (l k : String)
      → serves (serve notify e cs s).0 l k
        ≡ (serves s.0 l k || (mem l (lambdas_of cs) && str_eq e k))
  unfolding serve
  serves-serve e [] s l k = ground arith
  serves-serve e (x ∷ xs) s l k =
      ground (arith, serves-serve e xs (serve_one notify e x s) l k, serves-serve_one e x s l k)

  pub served-serve :
      (e : String) (cs : ContainerList) (s : Controller × D)
      → ((l : String) → HasComputers (find l s.0.lambdas))
      → (l : String) → HasComputers (find l (serve notify e cs s).0.lambdas)
  unfolding serve
  served-serve e [] s h l = h l
  served-serve e (x ∷ xs) s h l =
      served-serve e xs (serve_one notify e x s) (λ k. served-serve_one e x s k (h k)) l
