-- ===== src/Computing/Computer/Submission.antt =====
-- `addTask` of Edge/computer.cpp on a coherent computer.
use serverlessonedge.Computing.Lambda.{Lambda}
use serverlessonedge.Prelude.{
  ℕ, ◌+◌, ◌<◌, ◌≤◌, true, false, some, ltb, is_some, Outcome, ok, throws, runtime_error, ◌≡◌, refl,
  ap, ◌∙◌, arith, Bool-cases, inl, inr, ◌⊎◌,
}
use mathlib.Core.Path.{subst}
use serverlessonedge.Prelude.Map.{Map, find}
use serverlessonedge.Prelude.Map.Sum.{weigh, sum-insert}
use serverlessonedge.Prelude.Word.{word_mod, add64}
use serverlessonedge.Prelude.Counting.{count}
use serverlessonedge.Prelude.Float.{Float}
use serverlessonedge.Messages.Request.{LambdaRequest}
use serverlessonedge.Messages.Response.{Loads}
use serverlessonedge.Computing.Processor.{Processor}
use serverlessonedge.Computing.Container.{Host, push}
use serverlessonedge.Computing.Container.Invariant.{push-IsValid}
use serverlessonedge.Computing.Container.Conserve.{all_ids}
use serverlessonedge.Computing.Container.Frame.{Keeps-refl, push-Keeps}
use serverlessonedge.Computing.Container.Pushed.{one_if, push-count}
use serverlessonedge.Computing.Computer.{
  Placed, Computer, settle, on_container, pause, some_active, add_task,
}
use serverlessonedge.Computing.Computer.Coherent.{IsCoherent, host-IsValid}
use serverlessonedge.Computing.Computer.Update.{settle-IsCoherent}
use serverlessonedge.Computing.Computer.Steps.{on_container_lem, and_then-ok, and_then-throws}
use serverlessonedge.Computing.Computer.Clock.{
  occurrences, flags-IsCoherent, resume-IsCoherent, pause-Paused,
}
use serverlessonedge.Computing.Computer.Dispatching.{resume_lem}

module _ {W : Type 0} where
  -- The task is accepted under the next identifier: it needs no more memory than the processor of
  -- its container has, among the processors `ps`. The clock runs if some task is active.
  pub record Accepted (i : ℕ) (req : LambdaRequest) (c : Computer W) (e : Placed W)
      (ps : Map (Processor W)) (r : Outcome ℕ × Computer W) : Type 0 where
    pub returned : r.0 ≡ ok c.next_id
    pub coherent : IsCoherent r.1
    pub next_id : r.1.next_id ≡ add64 c.next_id 1
    pub tasks : occurrences i r.1 ≡ occurrences i c + one_if i c.next_id
    pub clock : r.1.chrono ≡ some_active r.1.containers
    pub processor : Processor W
    pub its_own : find e.processor ps ≡ some processor
    pub within : (e.container.lambda.converter processor req).memory ≤ processor.mem_total

  -- The task needs more memory than the processor of its container has, among the processors `ps`.
  -- Its identifier is used up, the tasks stay as they were, and the clock stands still.
  pub record Refused (i : ℕ) (req : LambdaRequest) (c : Computer W) (e : Placed W)
      (ps : Map (Processor W)) (r : Outcome ℕ × Computer W) : Type 0 where
    pub returned : r.0 ≡ throws runtime_error
    pub coherent : IsCoherent r.1
    pub next_id : r.1.next_id ≡ add64 c.next_id 1
    pub tasks : occurrences i r.1 ≡ occurrences i c
    pub clock : r.1.chrono ≡ false
    pub processor : Processor W
    pub its_own : find e.processor ps ≡ some processor
    pub large : processor.mem_total < (e.container.lambda.converter processor req).memory

  -- The computer when the clock is stopped, and the container of the request in it.
  abbrev pub opened : ℕ → Computer W → Computer W
  opened next c = record c { is_init_done = true; next_id = next }

module _ {W : Type 0} (d : Float W) (elapsed : ℕ → W) where
  -- The processors when the clock is stopped, before the task is pushed.
  abbrev pub processors_at : W → Computer W → Map (Processor W)
  processors_at time c = (pause d elapsed time (opened (add64 c.next_id 1) c)).1.processors

  module _ (i : ℕ) (req : LambdaRequest) (loads : Loads W) (id : ℕ) (c : Computer W) (e : Placed W)
      (q : Processor W) (j : IsCoherent c) (at_k : find req.name c.containers ≡ some e)
      (at_p : find e.processor c.processors ≡ some q) where
    abbrev asked : Host W
    asked = record { processor = q; container = e.container }

    abbrev pushed : Outcome (Unit {0}) × Computer W
    pushed = on_container (push d elapsed req id loads) req.name c

    -- The tasks after an operation that adds `n` of them.
    settled-tasks :
        (n : ℕ) (h : Host W)
        → count i (all_ids h.container) ≡ count i (all_ids e.container) + n
        → occurrences i (settle req.name e h c) ≡ occurrences i c + n
    settled-tasks n h more =
        let own : weigh (λ (x : Placed W). count i (all_ids x.container))
              (find req.name c.containers)
            ≡ count i (all_ids e.container) =
          rw at_k refl in
        omega (
          arith,
          own,
          more,
          sum-insert (λ (x : Placed W). count i (all_ids x.container)) req.name
              (record e { container = h.container }) c.containers j.sorted,
        )

    -- The push of a task to this container: it adds the task, or refuses it and changes nothing.
    push-cases :
        (e.container.lambda.converter q req).operations < word_mod
        → ((pushed.0 ≡ ok tt)
            × IsCoherent pushed.1
            × (occurrences i pushed.1 ≡ occurrences i c + one_if i id)
            × (pushed.1.next_id ≡ c.next_id)
            × (pushed.1.chrono ≡ c.chrono)
            × ((e.container.lambda.converter q req).memory ≤ q.mem_total))
          ⊎ ((pushed.0 ≡ throws runtime_error)
              × IsCoherent pushed.1
              × (occurrences i pushed.1 ≡ occurrences i c)
              × (pushed.1.next_id ≡ c.next_id)
              × (pushed.1.chrono ≡ c.chrono)
              × (q.mem_total < (e.container.lambda.converter q req).memory))
    push-cases small =
        let op = push d elapsed req id loads in
        let valid = host-IsValid c req.name e q j at_k at_p in
        let known = on_container_lem op req.name c e q at_k at_p in
        let outcome = push-IsValid d elapsed _ _ req id loads asked valid small in
        elim (Bool-cases (ltb q.mem_total (e.container.lambda.converter q req).memory)) [
          | inl large ↦
              let refused = rw large at outcome in
              rw (known, refused)
                (inr (
                  refl,
                  settle-IsCoherent c req.name e q asked j at_k at_p (Keeps-refl asked) valid,
                  omega (arith, settled-tasks 0 asked (omega arith)),
                  refl,
                  refl,
                  ground arith,
                ))
          | inr fits ↦
              let (done, valid') = rw fits at outcome in
              rw known (
                inl (
                  done,
                  settle-IsCoherent c req.name e q (op asked).1 j at_k at_p
                      (push-Keeps d elapsed req id loads asked) valid',
                  settled-tasks (one_if i id) (op asked).1
                      (push-count d elapsed i req id loads asked done),
                  refl,
                  refl,
                  ground (arith, fits),
                ))
        ]

  -- A task for a lambda of a coherent computer is accepted under the next identifier, and is one
  -- more among the tasks, if it needs no more memory than the processor of the container has; if it
  -- needs more, an exception leaves with the identifier used up and the clock stopped, and the
  -- tasks are as before. The computer stays coherent. The operations of the task are a 64-bit
  -- count, and time does not run back.
  pub add_task-cases :
      (i : ℕ) (req : LambdaRequest) (loads : Loads W) (time : W) (c : Computer W) (e : Placed W)
      → IsCoherent c
      → find req.name c.containers ≡ some e
      → ((p : Processor W) → (e.container.lambda.converter p req).operations < word_mod)
      → d.lt time d.nought ≡ false
      → Accepted i req c e (processors_at time c) (add_task d elapsed req loads time c)
        ⊎ Refused i req c e (processors_at time c) (add_task d elapsed req loads time c)
  unfolding add_task
  add_task-cases i req loads time c e j at_k small forth =
      let c1 = opened (add64 c.next_id 1) c in
      let p = pause-Paused d elapsed time forth i c1 (flags-IsCoherent c c1 j refl refl) in
      let c2 = (pause d elapsed time c1).1 in
      let (f, at_f, processor_same, lambda) = p.containers req.name e at_k in
      let (q, at_q, fits) = p.coherent.placed req.name f at_f in
      let its_own : find e.processor c2.processors ≡ some q =
        subst (λ n. find n c2.processors ≡ some q) processor_same at_q in
      let op = push d elapsed req c.next_id loads in
      let same : (f.container.lambda.converter q req) ≡ (e.container.lambda.converter q req) =
        ap (λ (l : Lambda W). l.converter q req) lambda in
      let few : (f.container.lambda.converter q req).operations < word_mod = rw same (small q) in
      let found : is_some (find req.name c.containers) ≡ true = rw at_k refl in
      elim (push-cases i req loads c.next_id c2 f q p.coherent at_f at_q few) [
        | inl (done, coherent, tasks, next, chrono, within) ↦
            let c3 = (on_container op req.name c2).1 in
            let c4 : Computer W = record c3 { new_task = true } in
            let (clock, kept, next') = resume_lem i c4 (chrono ∙ p.stopped) in
            rw
              (
                found,
                and_then-ok tt (pause d elapsed time c1) _ p.returned,
                and_then-ok tt (on_container op req.name c2) _ done,
              )
              (inl (record {
                returned = refl;
                coherent = resume-IsCoherent c4 (flags-IsCoherent c3 c4 coherent refl refl);
                next_id = next' ∙ next ∙ p.next_id;
                tasks = rw kept (omega (arith, tasks, p.tasks));
                clock = rw kept clock;
                processor = q;
                its_own = its_own;
                within = subst (λ r. r.memory ≤ q.mem_total) same within;
              }))
        | inr (failed, coherent, tasks, next, chrono, large) ↦
            rw
              (
                found,
                and_then-ok tt (pause d elapsed time c1) _ p.returned,
                and_then-throws runtime_error (on_container op req.name c2) _ failed,
              )
              (inr (record {
                returned = refl;
                coherent = coherent;
                next_id = next ∙ p.next_id;
                tasks = tasks ∙ p.tasks;
                clock = chrono ∙ p.stopped;
                processor = q;
                its_own = its_own;
                large = subst (λ r. q.mem_total < r.memory) same large;
              }))
      ]
