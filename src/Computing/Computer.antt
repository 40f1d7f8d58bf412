-- ===== src/Computing/Computer.antt =====
-- Edge/computer.{h,cpp}: a computer hosts containers on shared processors. Its public operations
-- and the body of the dispatcher each run under the lock, so that each is one step here. The
-- threads, the collector of the utilizations and the printing are not modelled.
pub mod Dispatch
pub mod Drain
pub mod Coherent
pub mod Update
pub mod Steps
pub mod Loop
pub mod Clock
pub mod Dispatching
pub mod Submission
pub mod Config
pub mod Configures
pub mod Names
pub mod Reach
use serverlessonedge.Prelude.{
  ℕ, zero, suc, ◌+◌, String, Bool, true, false, ◌&&◌, ◌||◌, Option, none, some, List, [], ◌∷◌,
  length, if◌then◌else◌, is_some, Outcome, ok, throws, undefined, ◌>>=◌, ltb, init_done,
  dup_processor_name, dup_container_name, dup_lambda_name, no_processor_found, no_container_found,
}
use serverlessonedge.Prelude.Map.{Map, StringSet, find, insert, keys, contains, add}
use serverlessonedge.Prelude.Word.{add64}
use serverlessonedge.Prelude.Float.{Float}
use serverlessonedge.Computing.Processor.{Processor}
use serverlessonedge.Computing.Processor
use serverlessonedge.Computing.Lambda.{Lambda}
use serverlessonedge.Computing.Container.{Container, Host, push, advance, simulate}
use serverlessonedge.Computing.Container
use serverlessonedge.Controller.{ContainerInfo, ContainerList}
use serverlessonedge.Messages.Request.{LambdaRequest}
use serverlessonedge.Messages.Response.{Loads}

-- A container, and the name of the processor that it refers to.
pub record Placed (W : Type 0) : Type 0 where
  pub processor : String
  pub container : Container W

-- `chrono` tells whether the chronometer runs; a container stands under the name of its lambda.
pub record Computer (W : Type 0) : Type 0 where
  pub is_init_done : Bool
  pub new_task : Bool
  pub next_id : ℕ
  pub chrono : Bool
  pub processors : Map (Processor W)
  pub container_names : StringSet
  pub containers : Map (Placed W)

module _ {W : Type 0} where
  abbrev pub initial : Computer W
  initial = record {
    is_init_done = false;
    new_task = false;
    next_id = 0;
    chrono = false;
    processors = [];
    container_names = [];
    containers = [];
  }

  -- What follows a call that returned; what it threw leaves the operation.
  abbrev pub and_then :
      {A B : Type 0}
      → Outcome A × Computer W
      → (A → Computer W → Outcome B × Computer W)
      → Outcome B × Computer W
  and_then (ok a, c) k = k a c
  and_then (throws x, c) k = (throws x, c)
  and_then (undefined, c) k = (undefined, c)

  -- The computer after an operation of the container of `lambda`.
  abbrev pub settle : String → Placed W → Host W → Computer W → Computer W
  settle lambda e h c = record c {
    processors = insert e.processor h.processor c.processors;
    containers = insert lambda (record e { container = h.container }) c.containers;
  }

  -- An operation of a container, with the processor that hosts it.
  abbrev pub on_host :
      {A : Type 0}
      → (Host W → Outcome A × Host W)
      → String
      → Option (Placed W)
      → Computer W
      → Outcome A × Computer W
  on_host op lambda none c = (undefined, c)
  on_host op lambda (some e) c = elim (find e.processor c.processors) [
    | none ↦ (undefined, c)
    | some p ↦
        let (o, h) = op (record { processor = p; container = e.container }) in
        (o, settle lambda e h c)
  ]

  unfoldable pub on_container :
      {A : Type 0} → (Host W → Outcome A × Host W) → String → Computer W → Outcome A × Computer W
  on_container op lambda c = on_host op lambda (find lambda c.containers) c

  -- A loop over the containers, in the order of the names of their lambdas.
  unfoldable pub for_each :
      {A : Type 0}
      → (Host W → Outcome A × Host W)
      → List String
      → Computer W
      → Outcome (List A) × Computer W
  for_each op [] c = (ok [], c)
  for_each op (k ∷ ks) c =
      and_then (on_container op k c)
        (λ a c'. let (o, c'') = for_each op ks c' in ((o >>= λ as'. ok (a ∷ as')), c''))

  -- What the constructor of the container made is put under the name of its lambda.
  abbrev pub put_container :
      String → Lambda W → Computer W → Outcome (Container W) → Outcome (Unit {0}) × Computer W
  put_container processor lambda c (ok k) = (
    ok tt,
    record c {
      containers =
          insert lambda.name (record { processor = processor; container = k }) c.containers;
    },
  )
  put_container processor lambda c (throws x) = (throws x, c)
  put_container processor lambda c undefined = (undefined, c)

  -- What the constructor of the processor made is put under its name.
  abbrev pub put_processor :
      String → Computer W → Outcome (Processor W) → Outcome (Unit {0}) × Computer W
  put_processor name c (ok p) = (ok tt, record c { processors = insert name p c.processors })
  put_processor name c (throws x) = (throws x, c)
  put_processor name c undefined = (undefined, c)

  -- `addContainer`; the name is taken before the constructor of the container can throw.
  unfoldable pub add_container :
      String → String → Lambda W → ℕ → Computer W → Outcome (Unit {0}) × Computer W
  add_container name processor lambda num_workers c =
      if c.is_init_done
      then (throws init_done, c)
      else if contains name c.container_names
      then (throws dup_container_name, c)
      else if is_some (find lambda.name c.containers)
      then (throws dup_lambda_name, c)
      else if is_some (find processor c.processors)
      then put_container processor lambda
          (record c { container_names = add name c.container_names })
          (Container.create name lambda num_workers)
      else (throws no_processor_found, c)

  -- `someActive`
  unfoldable pub some_active : Map (Placed W) → Bool
  some_active [] = false
  some_active ((k, e) ∷ m) = ltb 0 (length e.container.active) || some_active m

  -- `resume`
  unfoldable pub resume : Computer W → Computer W
  unfolding some_active
  resume c = if some_active c.containers then record c { chrono = true } else c

  -- `containerList`; the number of workers is left at zero.
  unfoldable pub container_list_from : Map (Processor W) → Map (Placed W) → Outcome ContainerList
  container_list_from ps [] = ok []
  container_list_from ps ((k, e) ∷ m) = elim (find e.processor ps) [
    | none ↦ undefined
    | some p ↦ container_list_from ps m >>= λ rest. ok (
        record {
          name = e.container.name;
          processor = p.name;
          lambda = e.container.lambda.name;
          num_workers = 0;
        }
        ∷ rest)
  ]

  unfoldable pub container_list : Computer W → Outcome ContainerList
  unfolding container_list_from
  container_list c = container_list_from c.processors c.containers

module _ {W : Type 0} (d : Float W) (elapsed : ℕ → W) where
  -- `addProcessor`
  unfoldable pub add_processor : String → W → ℕ → ℕ → Computer W → Outcome (Unit {0}) × Computer W
  add_processor name speed cores mem c =
      if c.is_init_done
      then (throws init_done, c)
      else if is_some (find name c.processors)
      then (throws dup_processor_name, c)
      else put_processor name c (Processor.create d elapsed name speed cores mem)

  -- `pause`; `time` is what the chronometer answers.
  unfoldable pub pause : W → Computer W → Outcome (Unit {0}) × Computer W
  unfolding for_each on_container
  pause time c =
      if c.chrono
      then and_then (for_each (advance d time) (keys c.containers) (record c { chrono = false }))
          (λ _ c'. (ok tt, c'))
      else (ok tt, c)

  -- `addTask`; `loads` is what `lastUtils()` reads.
  unfoldable pub add_task : LambdaRequest → Loads W → W → Computer W → Outcome ℕ × Computer W
  unfolding pause on_container resume
  add_task req loads time c =
      if is_some (find req.name c.containers)
      then and_then (pause time (record c { is_init_done = true; next_id = add64 c.next_id 1 }))
          (λ _ c'.
            and_then (on_container (push d elapsed req c.next_id loads) req.name c')
              (λ _ c''. (ok c.next_id, resume (record c'' { new_task = true }))))
      else (throws no_container_found, c)

  -- `simTask`: the loads of the processor, and the time that the task would take.
  unfoldable pub sim_task : LambdaRequest → Loads W → Computer W → Outcome (Loads W × W)
  sim_task req loads c = elim (find req.name c.containers) [
    | none ↦ throws no_container_found
    | some e ↦ elim (find e.processor c.processors) [
      | none ↦ undefined
      | some p ↦
          simulate d req (record { processor = p; container = e.container }) >>= λ t. ok (loads, t)
    ]
  ]
