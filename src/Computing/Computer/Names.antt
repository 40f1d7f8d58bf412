-- ===== src/Computing/Computer/Names.antt =====
-- Edge/computer.cpp: the names of containers that `addContainer` takes, over the steps that configure
-- a computer.
use serverlessonedge.Prelude.{
  ℕ, String, true, false, none, List, [], ◌∷◌, is_some, Outcome, ok, throws, undefined,
  runtime_error, dup_container_name, ◌≡◌, refl, arith, if-cases,
}
use serverlessonedge.Prelude.Map.{find, contains, add, find-insert, str_eq_refl}
use serverlessonedge.Prelude.Float.{Float}
use serverlessonedge.Computing.Lambda.{Lambda}
use serverlessonedge.Computing.Processor.{Processor}
use serverlessonedge.Computing.Processor
use serverlessonedge.Computing.Container.{Container}
use serverlessonedge.Computing.Container
use serverlessonedge.Computing.Computer.{
  Computer, add_processor, add_container, put_container, put_processor,
}

pub data Setup (W : Type 0) : Type 0 where
  more_processor : String → W → ℕ → ℕ → Setup W
  more_container : String → String → Lambda W → ℕ → Setup W

module _ {W : Type 0} (d : Float W) (elapsed : ℕ → W) where
  -- The computer after more processors and containers, added or refused.
  unfoldable pub configure : List (Setup W) → Computer W → Computer W
  configure [] c = c
  configure (more_processor name speed cores mem ∷ steps) c =
      configure steps (add_processor d elapsed name speed cores mem c).1
  configure (more_container name on lambda n ∷ steps) c =
      configure steps (add_container name on lambda n c).1

-- The name is taken, and no task was added yet.
abbrev IsTaken : {W : Type 0} → String → Computer W → Type 0
IsTaken name c = (c.is_init_done ≡ false) × (contains name c.container_names ≡ true)

module _ {W : Type 0} (name : String) where
  put_processor-IsTaken :
      (p : String) (c : Computer W) (o : Outcome (Processor W))
      → IsTaken name c
      → IsTaken name (put_processor p c o).1
  put_processor-IsTaken p c (ok q) h = h
  put_processor-IsTaken p c (throws x) h = h
  put_processor-IsTaken p c undefined h = h

  put_container-IsTaken :
      (p : String) (lambda : Lambda W) (c : Computer W) (o : Outcome (Container W))
      → IsTaken name c
      → IsTaken name (put_container p lambda c o).1
  put_container-IsTaken p lambda c (ok k) h = h
  put_container-IsTaken p lambda c (throws x) h = h
  put_container-IsTaken p lambda c undefined h = h

  add_container-IsTaken :
      (other p : String) (lambda : Lambda W) (n : ℕ) (c : Computer W)
      → IsTaken name c
      → IsTaken name (add_container other p lambda n c).1
  unfolding add_container
  add_container-IsTaken other p lambda n c h =
      let P = λ (r : Outcome (Unit {0}) × Computer W). IsTaken name r.1 in
      let named : Computer W = record c { container_names = add other c.container_names } in
      if-cases P c.is_init_done _ _ (λ _. h)
        (λ _.
          if-cases P (contains other c.container_names) _ _ (λ _. h)
            (λ _.
              if-cases P (is_some (find lambda.name c.containers)) _ _ (λ _. h)
                (λ _.
                  if-cases P (is_some (find p c.processors)) _ _
                    (λ _.
                      put_container-IsTaken p lambda named (Container.create other lambda n)
                        (h.0, ground (arith, h.1, find-insert other name tt c.container_names)))
                    (λ _. h))))

  add_processor-IsTaken :
      (d : Float W) (elapsed : ℕ → W) (p : String) (speed : W) (cores mem : ℕ) (c : Computer W)
      → IsTaken name c
      → IsTaken name (add_processor d elapsed p speed cores mem c).1
  unfolding add_processor
  add_processor-IsTaken d elapsed p speed cores mem c h =
      let P = λ (r : Outcome (Unit {0}) × Computer W). IsTaken name r.1 in
      if-cases P c.is_init_done _ _ (λ _. h)
        (λ _.
          if-cases P (is_some (find p c.processors)) _ _ (λ _. h)
            (λ _. put_processor-IsTaken p c (Processor.create d elapsed p speed cores mem) h))

  configure-IsTaken :
      (d : Float W) (elapsed : ℕ → W) (steps : List (Setup W)) (c : Computer W)
      → IsTaken name c
      → IsTaken name (configure d elapsed steps c)
  unfolding configure
  configure-IsTaken d elapsed [] c h = h
  configure-IsTaken d elapsed (more_processor p speed cores mem ∷ steps) c h =
      configure-IsTaken d elapsed steps (add_processor d elapsed p speed cores mem c).1
        (add_processor-IsTaken d elapsed p speed cores mem c h)
  configure-IsTaken d elapsed (more_container other p lambda n ∷ steps) c h =
      configure-IsTaken d elapsed steps (add_container other p lambda n c).1
        (add_container-IsTaken other p lambda n c h)

  taken_refused :
      (p : String) (lambda : Lambda W) (n : ℕ) (c : Computer W)
      → IsTaken name c
      → add_container name p lambda n c ≡ (throws dup_container_name, c)
  unfolding add_container
  taken_refused p lambda n c (config, taken) = rw (config, taken) refl

-- While the computer is configured, a container without workers, with a free name, a free lambda
-- and a processor that is there, is refused, but its name stays taken: whatever processors and
-- containers are added afterwards, a container of this name is refused with any number of workers.
pub add_container-taken :
    {W : Type 0} (d : Float W) (elapsed : ℕ → W) (name processor : String) (lambda : Lambda W)
    (c : Computer W) (steps : List (Setup W)) (processor' : String) (lambda' : Lambda W) (n : ℕ)
    → c.is_init_done ≡ false
    → contains name c.container_names ≡ false
    → find lambda.name c.containers ≡ none
    → is_some (find processor c.processors) ≡ true
    → let r = add_container name processor lambda 0 c in
      let later = configure d elapsed steps r.1 in
      (r.0 ≡ throws runtime_error)
      × (r.1.containers ≡ c.containers)
      × (add_container name processor' lambda' n later ≡ (throws dup_container_name, later))
unfolding add_container Container.create
add_container-taken d elapsed name processor lambda c steps processor' lambda' n config free fresh
      there =
    let r = add_container name processor lambda 0 c in
    let taken : IsTaken name r.1 = ground (
      arith,
      config,
      free,
      fresh,
      there,
      find-insert name name tt c.container_names,
      str_eq_refl name,
    ) in
    let refused =
      taken_refused name processor' lambda' n (configure d elapsed steps r.1)
        (configure-IsTaken name d elapsed steps r.1 taken) in
    (
      ground (arith, config, free, fresh, there),
      ground (arith, config, free, fresh, there),
      refused,
    )
