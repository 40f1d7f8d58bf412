-- ===== src/Computing/Tests.antt =====
-- Runs of the container and the processor of Edge/container.cpp and Edge/processor.cpp.
use mathlib.Core.List.{Perm}
use serverlessonedge.Prelude.{ℕ, List, [], ◌∷◌, ◌++◌, ◌≡◌, refl, arith, ok, true}
use serverlessonedge.Prelude.Float.{whole}
use serverlessonedge.Computing.Processor.{Processor}
use serverlessonedge.Computing.Lambda.{Lambda}
use serverlessonedge.Messages.Request.{LambdaRequest}
use serverlessonedge.Messages.Request
use serverlessonedge.Messages.Response
use serverlessonedge.Messages.Response.{LambdaResponse, Loads}
use serverlessonedge.Computing.Container.{Task, Host, push, pop, advance, make_active}
use serverlessonedge.Computing.Container.Order.{timeline, insert_by, timeline-make_active}
use serverlessonedge.Computing.Computer.Dispatch.{drain_all}
use serverlessonedge.Computing.Computer.Drain.{Drained, drain_all-Drained}
use serverlessonedge.Computing.Container.Invariant.{IsValid, IsSettled, push-IsValid}
use serverlessonedge.Computing.Container.Pop.{pop-IsValid, advance-IsValid}
use serverlessonedge.Computing.Container.Conserve.{all_ids, pop-perm}

abbrev elapsed : ℕ → ℕ
elapsed n = 1

abbrev cpu : Processor ℕ
cpu = record {
  name = "cpu";
  speed = 10;
  cores = 2;
  mem_total = 1000;
  mem_used = 0;
  running = 0;
  restarts = 0;
  busy_time = 0;
}

abbrev lambda0 : Lambda ℕ
lambda0 = record {
  name = "lambda0";
  copy_input = true;
  output = "";
  converter = λ p req. record { operations = 40; memory = 300 };
}

abbrev idle : Host ℕ
idle = record {
  processor = cpu;
  container = record { name = "c0"; lambda = lambda0; num_workers = 2; active = []; pending = [] };
}

abbrev request : LambdaRequest
request = Request.create "lambda0" "hello" "" "uuid"

abbrev loads : Loads ℕ
loads = record { last1 = 0; last10 = 0; last30 = 0 }

abbrev response : LambdaResponse
response = Response.create whole "OK" "hello"

abbrev task : ℕ → ℕ → Task
task id ops = record { id = id; memory = 300; residual_ops = ops; response = response }

-- Two tasks run and two wait.
abbrev busy : Host ℕ
busy = record {
  processor = record cpu { mem_used = 600; running = 2; restarts = 2 };
  container = record idle.container {
    active = task 1 40 ∷ task 2 10 ∷ [];
    pending = task 3 40 ∷ task 4 5 ∷ [];
  };
}

idle-IsValid : IsValid 0 0 idle
idle-IsValid = record {
  sound = record { within = omega arith; fits = omega arith };
  memory = refl;
  running = refl;
  room = omega arith;
  workers = omega arith;
  ops = omega arith;
  waiting = tt;
}

busy-IsValid : IsValid 0 0 busy
busy-IsValid = record {
  sound = record { within = omega arith; fits = omega arith };
  memory = refl;
  running = refl;
  room = omega arith;
  workers = omega arith;
  ops = omega arith;
  waiting = ((omega arith, omega arith), ((omega arith, omega arith), tt));
}

timeline-make_active_example :
    timeline 0 (make_active (task 5 45) (task 1 40 ∷ task 2 10 ∷ []))
    ≡ insert_by (5, 45) ((1, 40) ∷ (2, 50) ∷ [])
timeline-make_active_example =
    timeline-make_active (task 5 45) (task 1 40 ∷ task 2 10 ∷ []) (omega arith) (omega arith)

push-IsValid_example :
    ((push whole elapsed request 7 loads idle).0 ≡ ok tt)
    × IsValid 0 0 (push whole elapsed request 7 loads idle).1
push-IsValid_example =
    push-IsValid whole elapsed 0 0 request 7 loads idle idle-IsValid (omega arith)

pop-IsValid_example :
    ((pop whole elapsed busy).0 ≡ ok (task 1 40))
    × IsValid 0 0 (pop whole elapsed busy).1
    × IsSettled (pop whole elapsed busy).1
pop-IsValid_example =
    pop-IsValid whole elapsed 0 0 (task 1 40) (task 2 10 ∷ []) busy busy-IsValid refl

advance-IsValid_example : ((advance whole 1 busy).0 ≡ ok tt) × IsValid 0 0 (advance whole 1 busy).1
advance-IsValid_example = advance-IsValid whole elapsed 0 0 1 busy busy-IsValid

pop-perm_example :
    Perm (1 ∷ all_ids (pop whole elapsed busy).1.container) (all_ids busy.container)
    × ((gone : List Task) × (busy.container.pending
          ≡ gone ++ (pop whole elapsed busy).1.container.pending))
pop-perm_example = pop-perm whole elapsed 0 0 (task 1 40) (task 2 10 ∷ []) busy busy-IsValid refl

drain_all-Drained_example : Drained whole elapsed 0 0 busy (drain_all whole elapsed busy)
drain_all-Drained_example = drain_all-Drained whole elapsed 0 0 busy busy-IsValid
