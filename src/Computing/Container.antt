-- ===== src/Computing/Container.antt =====
-- Edge/container.{h,cpp}: a container runs tasks on a shared processor, at most one per worker;
-- the others wait. `theActive` keeps for each task the operations it needs beyond those of the
-- tasks before it. An operation takes and returns the processor beside the container.
pub mod Order
pub mod Invariant
pub mod Pop
pub mod Conserve
pub mod Frame
pub mod Pushed
use serverlessonedge.Prelude.{
  ℕ, zero, suc, ◌+◌, min, String, Bool, true, false, ◌||◌, List, [], ◌∷◌, ◌++◌, Outcome, ok, throws,
  undefined, runtime_error, ltb, ◌==◌, if◌then◌else◌, length, ◌>>=◌,
}
use serverlessonedge.Prelude.Word.{add64, sub64}
use serverlessonedge.Prelude.Float.{Float}
use serverlessonedge.Computing.Processor.{
  Processor, mem_available, allocate, free, ops_to_time, ops_to_time_plus_one, time_to_ops,
}
use serverlessonedge.Computing.Lambda.{Lambda, LambdaRequirements, execute}
use serverlessonedge.Messages.Request.{LambdaRequest}
use serverlessonedge.Messages.Response.{LambdaResponse, Loads}

pub record Task : Type 0 where
  pub id : ℕ
  pub memory : ℕ
  pub residual_ops : ℕ
  pub response : LambdaResponse

pub record Container (W : Type 0) : Type 0 where
  pub name : String
  pub lambda : Lambda W
  pub num_workers : ℕ
  pub active : List Task
  pub pending : List Task

-- A container with the processor that hosts it.
pub record Host (W : Type 0) : Type 0 where
  pub processor : Processor W
  pub container : Container W

-- The loop of `makeActive`: `sum` is `mySum`, the operations of the tasks passed.
unfoldable pub make_active_from : ℕ → Task → List Task → List Task
make_active_from sum t [] = record t { residual_ops = sub64 t.residual_ops sum } ∷ []
make_active_from sum t (x ∷ xs) =
    let next = add64 sum x.residual_ops in
    let rest = x ∷ make_active_from next t xs in
    let own = sub64 t.residual_ops sum in
    if ltb t.residual_ops next
    then record t { residual_ops = own } ∷ record x { residual_ops = sub64 x.residual_ops own } ∷ xs
    else rest

unfoldable pub make_active : Task → List Task → List Task
unfolding make_active_from
make_active t active = make_active_from 0 t active

-- The front task of the list after `n` of its operations.
unfoldable pub run_front : ℕ → List Task → List Task
run_front n [] = []
run_front n (t ∷ rest) =
    let actual = min t.residual_ops n in
    if actual == 0 then t ∷ rest else record t { residual_ops = sub64 t.residual_ops actual } ∷ rest

module _ {W : Type 0} where
  unfoldable pub create : String → Lambda W → ℕ → Outcome (Container W)
  create name lambda num_workers =
      if num_workers == 0
      then throws runtime_error
      else ok (record {
        name = name;
        lambda = lambda;
        num_workers = num_workers;
        active = [];
        pending = [];
      })

  unfoldable pub requirements : LambdaRequest → Host W → Outcome LambdaRequirements
  requirements req h =
      let r = h.container.lambda.converter h.processor req in
      if ltb h.processor.mem_total r.memory then throws runtime_error else ok r

  -- Puts the task in execution, when its memory could be allocated.
  abbrev pub start :
      Task → Container W → Outcome (Unit {0}) × Processor W → Outcome (Unit {0}) × Host W
  start t c (ok u, p) =
      (ok tt, record { processor = p; container = record c { active = make_active t c.active } })
  start t c (throws x, p) = (throws x, record { processor = p; container = c })
  start t c (undefined, p) = (undefined, record { processor = p; container = c })

  abbrev pub host : Processor W → Container W → List Task → Host W
  host p c ts = record { processor = p; container = record c { pending = ts } }

  -- What `allocate` throws leaves the loop.
  abbrev pub after_allocate :
      Outcome (Unit {0}) → Host W → Outcome (Unit {0}) × Host W → Outcome (Unit {0}) × Host W
  after_allocate (ok u) stopped started = started
  after_allocate (throws x) stopped started = (throws x, stopped)
  after_allocate undefined stopped started = (undefined, stopped)

  -- A task cannot start: every worker is busy, or the processor lacks the memory.
  abbrev pub blocked : Task → Processor W → Container W → Bool
  blocked t p c = length c.active == c.num_workers || ltb (mem_available p) t.memory

module _ {W : Type 0} (d : Float W) (elapsed : ℕ → W) where
  abbrev pub submit : Task → Host W → Outcome (Unit {0}) × Host W
  submit t h =
      if blocked t h.processor h.container
      then (
        ok tt,
        record h { container = record h.container { pending = h.container.pending ++ (t ∷ []) } },
      )
      else start t h.container (allocate d elapsed t.memory h.processor)

  abbrev pub push_with :
      LambdaRequest
      → ℕ
      → Loads W
      → Host W
      → Outcome LambdaRequirements
      → Outcome (Unit {0}) × Host W
  push_with req id loads h (ok r) =
      submit
        (record {
          id = id;
          memory = r.memory;
          residual_ops = r.operations;
          response = execute d h.container.lambda req loads;
        })
        h
  push_with req id loads h (throws x) = (throws x, h)
  push_with req id loads h undefined = (undefined, h)

  -- `push`; `loads` is what `lastUtils()` reads from the moving averages of the processor.
  unfoldable pub push : LambdaRequest → ℕ → Loads W → Host W → Outcome (Unit {0}) × Host W
  push req id loads h = push_with req id loads h (requirements req h)

  -- The loop of `pop` over the pending tasks: it stops at the first that cannot start.
  unfoldable pub activate : Processor W → Container W → List Task → Outcome (Unit {0}) × Host W
  activate p c [] = (ok tt, host p c [])
  activate p c (t ∷ ts) =
      let (r, p') = allocate d elapsed t.memory p in
      let started = activate p' (record c { active = make_active t c.active }) ts in
      if blocked t p c
      then (ok tt, host p c (t ∷ ts))
      else after_allocate r (host p' c (t ∷ ts)) started

  abbrev pub finish : Task → Container W → Outcome (Unit {0}) × Processor W → Outcome Task × Host W
  finish t c (ok u, p) = let (r, h) = activate p c c.pending in ((r >>= λ _. ok t), h)
  finish t c (throws x, p) = (throws x, record { processor = p; container = c })
  finish t c (undefined, p) = (undefined, record { processor = p; container = c })

  unfoldable pub pop : Host W → Outcome Task × Host W
  unfolding activate
  pop h = elim h.container.active [
    | [] ↦ (throws runtime_error, h)
    | t ∷ rest ↦
        finish t (record h.container { active = rest }) (free d elapsed t.memory h.processor)
  ]

module _ {W : Type 0} (d : Float W) where
  -- `nearest`
  unfoldable pub nearest : Host W → Outcome W
  nearest h = elim h.container.active [
    | [] ↦ throws runtime_error
    | t ∷ rest ↦ ok (ops_to_time d t.residual_ops h.processor)
  ]

  unfoldable pub advance : W → Host W → Outcome (Unit {0}) × Host W
  unfolding run_front
  advance time h = if d.lt time d.nought then (throws runtime_error, h) else (
    ok tt,
    record h {
      container = record h.container {
        active = run_front (time_to_ops d time h.processor) h.container.active;
      };
    },
  )

  unfoldable pub pending_time : Processor W → W → List Task → W
  pending_time p sum [] = sum
  pending_time p sum (t ∷ ts) = pending_time p (d.add sum (ops_to_time d t.residual_ops p)) ts

  -- The time of the worker that is free first, when all of them are busy.
  abbrev pub front_time : Processor W → W → List Task → W
  front_time p sum [] = sum
  front_time p sum (t ∷ ts) = d.add sum (ops_to_time d t.residual_ops p)

  unfoldable pub simulate : LambdaRequest → Host W → Outcome W
  unfolding pending_time
  simulate req h = do
    r ← requirements req h
    let waited = pending_time h.processor d.nought h.container.pending
    if ltb (length h.container.active) h.container.num_workers
        then ok (d.add waited (ops_to_time_plus_one d r.operations h.processor))
        else ok (
            d.add
              (if length h.container.active == h.container.num_workers
                then front_time h.processor waited h.container.active
                else waited)
              (ops_to_time d r.operations h.processor))
