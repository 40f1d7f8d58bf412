-- ===== src/Computing/Container/Order.antt =====
-- `makeActive` of Edge/container.cpp: the list of differences stands for the list of absolute
-- residual operations, and adding a task inserts it in order.
use serverlessonedge.Prelude.{
  ℕ, ◌+◌, ◌-◌, ◌≤◌, ◌<◌, max, List, [], ◌∷◌, ltb, if◌then◌else◌, ◌≡◌, refl, arith, min, map,
}
use serverlessonedge.Prelude.Word.{word_mod, add64-eq, sub64-eq}
use serverlessonedge.Computing.Container.{Task, make_active_from, make_active, run_front}

-- The identifiers of the active tasks with the operations after which each is complete.
abbrev pub timeline : ℕ → List Task → List (ℕ × ℕ)
timeline sum [] = []
timeline sum (x ∷ xs) = (x.id, sum + x.residual_ops) ∷ timeline (sum + x.residual_ops) xs

-- The operations until the last active task is complete.
abbrev pub total : List Task → ℕ
total [] = 0
total (x ∷ xs) = x.residual_ops + total xs

-- Insertion behind every entry that completes no later.
pub insert_by : ℕ × ℕ → List (ℕ × ℕ) → List (ℕ × ℕ)
insert_by e [] = e ∷ []
insert_by e (x ∷ xs) = let rest = x ∷ insert_by e xs in if ltb e.1 x.1 then e ∷ x ∷ xs else rest

timeline-make_active_from :
    (sum : ℕ) (t : Task) (xs : List Task)
    → sum ≤ t.residual_ops
    → t.residual_ops < word_mod
    → sum + total xs < word_mod
    → timeline sum (make_active_from sum t xs) ≡ insert_by (t.id, t.residual_ops) (timeline sum xs)
unfolding make_active_from insert_by
timeline-make_active_from sum t [] h f g = ground (arith, sub64-eq t.residual_ops sum)
timeline-make_active_from sum t (x ∷ xs) h f g = ground (
  arith,
  add64-eq sum x.residual_ops,
  sub64-eq t.residual_ops sum,
  sub64-eq x.residual_ops (t.residual_ops - sum),
  timeline-make_active_from (sum + x.residual_ops) t xs,
)

total-make_active_from :
    (sum : ℕ) (t : Task) (xs : List Task)
    → sum ≤ t.residual_ops
    → t.residual_ops < word_mod
    → sum + total xs < word_mod
    → sum + total (make_active_from sum t xs) ≡ max (sum + total xs) t.residual_ops
unfolding make_active_from
total-make_active_from sum t [] h f g = ground (arith, sub64-eq t.residual_ops sum)
total-make_active_from sum t (x ∷ xs) h f g = ground (
  arith,
  add64-eq sum x.residual_ops,
  sub64-eq t.residual_ops sum,
  sub64-eq x.residual_ops (t.residual_ops - sum),
  total-make_active_from (sum + x.residual_ops) t xs,
)

module _ (t : Task) (xs : List Task) (f : t.residual_ops < word_mod) (g : total xs < word_mod) where
  -- A new task is inserted by the operations that it needs, behind those that need no more; the
  -- others complete when they did before. No sum wraps around.
  pub timeline-make_active :
      timeline 0 (make_active t xs) ≡ insert_by (t.id, t.residual_ops) (timeline 0 xs)
  unfolding make_active
  timeline-make_active = timeline-make_active_from 0 t xs (omega arith) f (omega arith)

  pub total-make_active : total (make_active t xs) ≡ max (total xs) t.residual_ops
  unfolding make_active
  total-make_active = omega (arith, total-make_active_from 0 t xs (omega arith) f (omega arith))

-- The operations that the front task still needs.
abbrev pub front_ops : List Task → ℕ
front_ops [] = 0
front_ops (x ∷ xs) = x.residual_ops

-- Every completion `k` operations earlier.
abbrev pub earlier : ℕ → List (ℕ × ℕ) → List (ℕ × ℕ)
earlier k = map λ e. (e.0, e.1 - k)

timeline-earlier :
    (s k : ℕ) (xs : List Task) → k ≤ s → timeline (s - k) xs ≡ earlier k (timeline s xs)
timeline-earlier s k [] h = refl
timeline-earlier s k (x ∷ xs) h = ground (arith, timeline-earlier (s + x.residual_ops) k xs)

-- Running `n` operations, or those that the front task needs if these are fewer, brings every
-- active task that much nearer to its completion.
pub timeline-run_front :
    (n : ℕ) (xs : List Task)
    → total xs < word_mod
    → timeline 0 (run_front n xs) ≡ earlier (min (front_ops xs) n) (timeline 0 xs)
unfolding run_front
timeline-run_front n [] g = refl
timeline-run_front n (x ∷ xs) g = ground (
  arith,
  sub64-eq x.residual_ops (min x.residual_ops n),
  timeline-earlier x.residual_ops (min x.residual_ops n) xs,
  timeline-earlier x.residual_ops 0 xs,
)

pub total-run_front :
    (n : ℕ) (xs : List Task)
    → total xs < word_mod
    → total (run_front n xs) ≡ total xs - min (front_ops xs) n
unfolding run_front
total-run_front n [] g = omega arith
total-run_front n (x ∷ xs) g = ground (arith, sub64-eq x.residual_ops (min x.residual_ops n))
