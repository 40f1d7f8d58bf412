-- ===== src/Computing/Computer/Dispatch.antt =====
-- The dispatcher of Edge/computer.cpp: it answers the tasks that are complete.
use serverlessonedge.Prelude.{
  ℕ, zero, suc, ◌+◌, min, Bool, true, false, List, [], ◌∷◌, length, if◌then◌else◌, Outcome, ok,
  throws, undefined, ◌>>=◌, none, some,
}
use serverlessonedge.Prelude.Map.{Map, find, keys}
use serverlessonedge.Prelude.Float.{Float}
use serverlessonedge.Computing.Processor.{Processor}
use serverlessonedge.Computing.Container.{Task, Container, Host, nearest, pop}
use serverlessonedge.Computing.Computer.{
  Placed, Computer, and_then, for_each, on_container, some_active, pause, resume,
}

abbrev pub num_tasks : {W : Type 0} → Container W → ℕ
num_tasks c = length c.active + length c.pending

module _ {W : Type 0} (d : Float W) where
  -- The container has an active task, and the nearest one is due now.
  unfoldable pub is_ready : Host W → Bool
  is_ready h = elim (nearest d h) [ ok t ↦ d.eq t d.nought | _ ↦ false ]

  -- The smallest time to a completion, in nanoseconds, at most one second; `nanoseconds` rounds.
  unfoldable pub sleep_time : (W → ℕ) → Map (Processor W) → ℕ → Map (Placed W) → ℕ
  sleep_time nanoseconds ps best [] = best
  sleep_time nanoseconds ps best ((k, e) ∷ m) =
      sleep_time nanoseconds ps
        (elim (find e.processor ps) [
          | none ↦ best
          | some p ↦ elim (nearest d (record { processor = p; container = e.container })) [
            | ok t ↦ min best (nanoseconds t)
            | _ ↦ best
          ]
        ])
        m

  -- `someReady`
  unfoldable pub some_ready : Map (Processor W) → Map (Placed W) → Bool
  unfolding is_ready
  some_ready ps [] = false
  some_ready ps ((k, e) ∷ m) =
      let rest = some_ready ps m in
      elim (find e.processor ps) [
        | none ↦ rest
        | some p ↦
            if is_ready (record { processor = p; container = e.container }) then true else rest
      ]

module _ {W : Type 0} (d : Float W) (elapsed : ℕ → W) where
  -- The loop over the completed tasks of a container, which calls back with each, on fuel.
  unfoldable pub drain : ℕ → Host W → Outcome (List Task) × Host W
  unfolding is_ready
  drain zero h = if is_ready d h then (undefined, h) else (ok [], h)
  drain (suc n) h =
      let (o, h') = pop d elapsed h in
      let (os, h'') = drain n h' in
      if is_ready d h
      then elim o [
        | ok t ↦ ((os >>= λ ts. ok (t ∷ ts)), h'')
        | throws x ↦ (throws x, h')
        | undefined ↦ (undefined, h')
      ]
      else (ok [], h)

  -- The body of the loop of `dispatchCompletedTasks`; each round takes a task out.
  unfoldable pub drain_all : Host W → Outcome (List Task) × Host W
  unfolding drain
  drain_all h = drain (num_tasks h.container) h

  -- `dispatchCompletedTasks`: the tasks with which it calls back, for each container.
  unfoldable pub dispatch_completed_tasks : Computer W → Outcome (List (List Task)) × Computer W
  unfolding drain_all for_each on_container
  dispatch_completed_tasks c = for_each drain_all (keys c.containers) c

  -- The body of `dispatcher` after the wait, when the computer is not terminating.
  unfoldable pub dispatcher : W → Computer W → Outcome (List (List Task)) × Computer W
  unfolding dispatch_completed_tasks pause resume some_active
  dispatcher time c =
      let woken = record c { new_task = false } in
      if some_active c.containers
      then and_then (pause d elapsed time woken)
          (λ _ c'. and_then (dispatch_completed_tasks c') (λ ts c''. (ok ts, resume c'')))
      else (ok [], woken)
