-- ===== src/Computing/ComputerTests.antt =====
-- Runs of a computer of Edge/computer.cpp: a processor, a container with two workers, and tasks.
use serverlessonedge.Prelude.{
  ℕ, true, some, List, [], ◌∷◌, throws, runtime_error, dup_container_name, ◌≡◌, refl, arith, ◌⊎◌,
}
use serverlessonedge.Prelude.Map.{find, insert}
use serverlessonedge.Prelude.Float.{whole}
use serverlessonedge.Messages.Request.{LambdaRequest}
use serverlessonedge.Messages.Request
use serverlessonedge.Messages.Response.{Loads}
use serverlessonedge.Computing.Processor.{Processor}
use serverlessonedge.Computing.Processor
use serverlessonedge.Computing.Lambda.{Lambda}
use serverlessonedge.Computing.Container
use serverlessonedge.Computing.Container.{Host}
use serverlessonedge.Computing.Computer.{
  Placed, Computer, initial, add_processor, add_container, add_task,
}
use serverlessonedge.Computing.Computer.Dispatch.{dispatcher}
use serverlessonedge.Computing.Computer.Names.{
  Setup, more_processor, more_container, configure, add_container-taken,
}
use serverlessonedge.Computing.Computer.Reach.{Reaches, IsRight, Reaches-IsRight}
use serverlessonedge.Computing.Computer.Dispatching.{Dispatched, dispatcher-Dispatched}
use serverlessonedge.Computing.Computer.Submission.{
  Accepted, Refused, processors_at, add_task-cases,
}

abbrev ticks : ℕ → ℕ
ticks n = 1

abbrev lambda0 : Lambda ℕ
lambda0 = record {
  name = "lambda0";
  copy_input = true;
  output = "";
  converter = λ p req. record { operations = 40; memory = 300 };
}

abbrev request : LambdaRequest
request = Request.create "lambda0" "hello" "" "uuid"

abbrev loads : Loads ℕ
loads = record { last1 = 0; last10 = 0; last30 = 0 }

-- The computer with its processor, and with the container too.
abbrev equipped : Computer ℕ
equipped = (add_processor whole ticks "cpu" 10 2 1000 initial).1

abbrev ready : Computer ℕ
ready = (add_container "c0" "cpu" lambda0 2 equipped).1

abbrev container0 : Placed ℕ
container0 = record {
  processor = "cpu";
  container = record { name = "c0"; lambda = lambda0; num_workers = 2; active = []; pending = [] };
}

ready_lem : find "lambda0" ready.containers ≡ some container0
unfolding find insert add_processor add_container Processor.create Container.create
ready_lem = refl

ready-Reaches : Reaches whole ticks ready
unfolding find insert add_processor add_container Processor.create Container.create
ready-Reaches =
    Reaches.adds_container "c0" "cpu" lambda0 2 equipped (omega arith)
      (Reaches.adds_processor "cpu" 10 2 1000 initial (omega arith) Reaches.starts)

-- A first task, accepted, and what the dispatcher makes of it later.
abbrev working : Computer ℕ
working = (add_task whole ticks request loads 0 ready).1

working-Reaches : Reaches whole ticks working
unfolding find insert add_processor add_container Processor.create Container.create Request.create
working-Reaches =
    Reaches.adds_task request loads 0 ready container0 ready_lem (λ p. omega arith) refl
      (omega arith) ready-Reaches

working-IsRight : IsRight working
working-IsRight = Reaches-IsRight whole ticks working working-Reaches

Reaches-IsRight_example : IsRight working
Reaches-IsRight_example = Reaches-IsRight whole ticks working working-Reaches

add_task-cases_example :
    Accepted 0 request ready container0
      (processors_at whole ticks 0 ready)
      (add_task whole ticks request loads 0 ready)
    ⊎ Refused 0 request ready container0
        (processors_at whole ticks 0 ready)
        (add_task whole ticks request loads 0 ready)
unfolding Request.create
add_task-cases_example =
    add_task-cases whole ticks 0 request loads 0 ready container0
      (Reaches-IsRight whole ticks ready ready-Reaches).coherent ready_lem (λ p. omega arith) refl

dispatcher-Dispatched_example : Dispatched 0 working (dispatcher whole ticks 4 working)
dispatcher-Dispatched_example =
    dispatcher-Dispatched whole ticks 0 4 working working-IsRight.coherent working-IsRight.ticking
      refl

-- More is added after the refusal: one processor, and another container.
abbrev later_steps : List (Setup ℕ)
later_steps = more_processor "gpu" 10 1 100 ∷ more_container "c1" "cpu" lambda0 3 ∷ []

add_container-taken_example :
    let r = add_container "c0" "cpu" lambda0 0 equipped in
    let later = configure whole ticks later_steps r.1 in
    (r.0 ≡ throws runtime_error)
    × (r.1.containers ≡ [])
    × (add_container "c0" "cpu" lambda0 2 later ≡ (throws dup_container_name, later))
unfolding find add_processor Processor.create insert
add_container-taken_example =
    add_container-taken whole ticks "c0" "cpu" lambda0 equipped later_steps "cpu" lambda0 2 refl
      refl refl refl
