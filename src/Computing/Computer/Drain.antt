-- ===== src/Computing/Computer/Drain.antt =====
-- The loop of `dispatchCompletedTasks` of Edge/computer.cpp over the completed tasks of a
-- container: it ends, never throws, answers each task once and leaves none that is due.
use mathlib.Core.List.{Perm}
use mathlib.Core.List.Perm
use serverlessonedge.Prelude.{
  ℕ, zero, suc, ◌≤◌, true, false, List, [], ◌∷◌, ◌++◌, length, Outcome, ok, ◌≡◌, refl, arith,
  Bool-cases, List-cases, inl, inr, length-append, length-map,
}
use serverlessonedge.Prelude.Permutations.{Perm-length}
use serverlessonedge.Prelude.Float.{Float}
use serverlessonedge.Computing.Container.{Task, Container, Host, nearest, pop}
use serverlessonedge.Computing.Container.Invariant.{IsValid}
use serverlessonedge.Computing.Container.Pop.{pop-IsValid}
use serverlessonedge.Computing.Container.Conserve.{ids, all_ids, pop-perm}
use serverlessonedge.Computing.Container.Frame.{Keeps, Keeps-refl, Keeps-trans, pop-Keeps}
use serverlessonedge.Computing.Computer.Dispatch.{is_ready, drain, drain_all, num_tasks}

-- A container that is ready has an active task.
is_ready-active :
    {W : Type 0} (d : Float W) (h : Host W)
    → is_ready d h ≡ true
    → (t : Task) × (rest : List Task) × (h.container.active ≡ t ∷ rest)
unfolding is_ready nearest
is_ready-active d h e = elim (List-cases h.container.active) [
  | inl none_active ↦ ground (arith, e, none_active)
  | inr some_active ↦ some_active
]

num_tasks-all_ids : {W : Type 0} (c : Container W) → num_tasks c ≡ length (all_ids c)
num_tasks-all_ids c = ground (
  arith,
  length-append (ids c.active) (ids c.pending),
  length-map (λ (t : Task). t.id) c.active,
  length-map (λ (t : Task). t.id) c.pending,
)

module _ {W : Type 0} (d : Float W) (elapsed : ℕ → W) where
  -- What the loop is to make of a container.
  pub record Drained (m n : ℕ) (h : Host W) (r : Outcome (List Task) × Host W) : Type 0 where
    pub tasks : List Task
    pub returned : r.0 ≡ ok tasks
    pub conserved : Perm (ids tasks ++ all_ids r.1.container) (all_ids h.container)
    pub valid : IsValid m n r.1
    pub rest : is_ready d r.1 ≡ false
    pub keeps : Keeps h r.1

  idle-Drained :
      (m n : ℕ) (h : Host W) → IsValid m n h → is_ready d h ≡ false → Drained m n h (ok [], h)
  idle-Drained m n h v idle = record {
    tasks = [];
    returned = refl;
    conserved = Perm.refl _;
    valid = v;
    rest = idle;
    keeps = Keeps-refl h;
  }

  drain-Drained :
      (m n fuel : ℕ) (h : Host W)
      → IsValid m n h
      → num_tasks h.container ≤ fuel
      → Drained m n h (drain d elapsed fuel h)
  unfolding drain
  drain-Drained m n zero h v f = elim (Bool-cases (is_ready d h)) [
    | inr idle ↦ rw idle (idle-Drained m n h v idle)
    | inl ready ↦
        let (t, rest, e) = is_ready-active d h ready in
        let some_task : length h.container.active ≡ suc (length rest) = ground (arith, e) in
        absurd (omega (arith, some_task, f))
  ]
  drain-Drained m n (suc k) h v f = elim (Bool-cases (is_ready d h)) [
    | inr idle ↦ rw idle (idle-Drained m n h v idle)
    | inl ready ↦
        let (t, rest, e) = is_ready-active d h ready in
        let (popped, valid, settled) = pop-IsValid d elapsed m n t rest h v e in
        let (same, order) = pop-perm d elapsed m n t rest h v e in
        let h' = (pop d elapsed h).1 in
        let fewer : num_tasks h'.container ≤ k = omega (
          arith,
          f,
          Perm-length _ _ same,
          num_tasks-all_ids h'.container,
          num_tasks-all_ids h.container,
        ) in
        let after = drain-Drained m n k h' valid fewer in
        rw (ready, popped, after.returned, drain)
          (record {
            tasks = t ∷ after.tasks;
            returned = refl;
            conserved = Perm.trans (Perm.cons t.id after.conserved) same;
            valid = after.valid;
            rest = after.rest;
            keeps = Keeps-trans h h' _ (pop-Keeps d elapsed t rest h e) after.keeps;
          })
  ]

  -- The loop over the completed tasks of a valid container ends and never throws. The tasks that it
  -- answers and those that are left are the tasks that there were, the container stays valid, and
  -- none of its tasks is due when the loop ends.
  pub drain_all-Drained :
      (m n : ℕ) (h : Host W) → IsValid m n h → Drained m n h (drain_all d elapsed h)
  unfolding drain_all
  drain_all-Drained m n h v = drain-Drained m n (num_tasks h.container) h v (omega arith)
