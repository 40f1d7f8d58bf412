-- ===== src/Computing/Computer/Configures.antt =====
-- Edge/computer.cpp: what the configuration of a computer leaves as it is.
use serverlessonedge.Prelude.{
  ℕ, String, true, none, [], ◌∷◌, is_some, Outcome, ok, throws, undefined, ◌≡◌, refl, arith,
  if-cases, OnReturn,
}
use serverlessonedge.Prelude.Map.{Map, find, insert, contains, add}
use serverlessonedge.Prelude.Map.Sorted.{IsSorted}
use serverlessonedge.Prelude.Map.Sum.{weigh, sum-insert}
use serverlessonedge.Prelude.Counting.{count}
use serverlessonedge.Prelude.Float.{Float}
use serverlessonedge.Computing.Lambda.{Lambda}
use serverlessonedge.Computing.Processor.{Processor}
use serverlessonedge.Computing.Container.{Container}
use serverlessonedge.Computing.Container
use serverlessonedge.Computing.Container.Conserve.{all_ids}
use serverlessonedge.Computing.Computer.{
  Placed, Computer, some_active, put_container, put_processor, add_processor, add_container,
}
use serverlessonedge.Computing.Computer.Config.{create-new}
use serverlessonedge.Computing.Computer.Clock.{occurrences}
use serverlessonedge.Computing.Computer.Dispatching.{IsTicking}

module _ {W : Type 0} where
  -- A configuration step leaves the tasks and the clock as they are.
  pub record Configures (c c' : Computer W) : Type 0 where
    pub tasks : (i : ℕ) → occurrences i c' ≡ occurrences i c
    pub next_id : c'.next_id ≡ c.next_id
    pub ticking : IsTicking c → IsTicking c'

  Configures-same :
      (c c' : Computer W)
      → c'.containers ≡ c.containers
      → c'.next_id ≡ c.next_id
      → c'.chrono ≡ c.chrono
      → Configures c c'
  Configures-same c c' same next clock = record {
    tasks = λ i. rw same refl;
    next_id = next;
    ticking = λ t. rw (same, clock) t;
  }

  some_active-insert :
      (k : String) (e : Placed W) (m : Map (Placed W))
      → find k m ≡ none
      → some_active m ≡ true
      → some_active (insert k e m) ≡ true
  unfolding some_active find insert
  some_active-insert k e [] absent active = ground (arith, active)
  some_active-insert k e ((j, f) ∷ m) absent active = ground (
    arith,
    absent,
    active,
    λ (a : find k m ≡ none) (t : some_active m ≡ true). some_active-insert k e m a t,
  )

  put_container-Configures :
      (processor : String) (lambda : Lambda W) (n : ℕ) (c : Computer W) (o : Outcome (Container W))
      → IsSorted c.containers
      → find lambda.name c.containers ≡ none
      → OnReturn (λ k. (k.active ≡ []) × (k.pending ≡ []) × (k.num_workers ≡ n)) o
      → Configures c (put_container processor lambda c o).1
  put_container-Configures processor lambda n c (ok k) sorted absent (active, pending, size) =
      let e : Placed W = record { processor = processor; container = k } in
      record {
        tasks = λ i.
            let none_before : weigh (λ (x : Placed W). count i (all_ids x.container))
                  (find lambda.name c.containers)
                ≡ 0 =
              rw absent refl in
            let no_task : count i (all_ids k) ≡ 0 = rw (active, pending) refl in
            omega (
              arith,
              none_before,
              no_task,
              sum-insert (λ (x : Placed W). count i (all_ids x.container)) lambda.name e
                  c.containers sorted,
            );
        next_id = refl;
        ticking = λ t. ground (arith, t, some_active-insert lambda.name e c.containers absent);
      }
  put_container-Configures processor lambda n c (throws x) sorted absent new =
      Configures-same c c refl refl refl
  put_container-Configures processor lambda n c undefined sorted absent new =
      Configures-same c c refl refl refl

  pub add_container-Configures :
      (name processor : String) (lambda : Lambda W) (n : ℕ) (c : Computer W)
      → IsSorted c.containers
      → Configures c (add_container name processor lambda n c).1
  unfolding add_container
  add_container-Configures name processor lambda n c sorted =
      let P = λ (r : Outcome (Unit {0}) × Computer W). Configures c r.1 in
      let named : Computer W = record c { container_names = add name c.container_names } in
      let same = Configures-same c c refl refl refl in
      if-cases P c.is_init_done _ _ (λ _. same)
        (λ _.
          if-cases P (contains name c.container_names) _ _ (λ _. same)
            (λ _.
              if-cases P (is_some (find lambda.name c.containers)) _ _ (λ _. same)
                (λ fresh.
                  if-cases P (is_some (find processor c.processors)) _ _
                    (λ there.
                      let put =
                        put_container-Configures processor lambda n named
                          (Container.create name lambda n) sorted (ground (arith, fresh))
                          (create-new name lambda n) in
                      record { tasks = put.tasks; next_id = put.next_id; ticking = put.ticking })
                    (λ _. same))))

  put_processor-Configures :
      (name : String) (c : Computer W) (o : Outcome (Processor W))
      → Configures c (put_processor name c o).1
  put_processor-Configures name c (ok p) = Configures-same c _ refl refl refl
  put_processor-Configures name c (throws x) = Configures-same c c refl refl refl
  put_processor-Configures name c undefined = Configures-same c c refl refl refl

module _ {W : Type 0} (d : Float W) (elapsed : ℕ → W) where
  pub add_processor-Configures :
      (name : String) (speed : W) (cores mem : ℕ) (c : Computer W)
      → Configures c (add_processor d elapsed name speed cores mem c).1
  unfolding add_processor
  add_processor-Configures name speed cores mem c =
      let P = λ (r : Outcome (Unit {0}) × Computer W). Configures c r.1 in
      let same = Configures-same c c refl refl refl in
      if-cases P c.is_init_done _ _ (λ _. same)
        (λ _.
          if-cases P (is_some (find name c.processors)) _ _ (λ _. same)
            (λ fresh. put_processor-Configures name c _))
