-- ===== src/Computing/Container/Frame.antt =====
-- What the operations of Edge/container.cpp leave as it is: the identity of the container and of
-- the processor, and their sizes.
use serverlessonedge.Prelude.{
  ℕ, List, [], ◌∷◌, ◌++◌, ◌≡◌, refl, ◌∙◌, arith, Bool-cases, inl, inr, Outcome, ok, throws,
  undefined,
}
use serverlessonedge.Prelude.Float.{Float}
use serverlessonedge.Computing.Processor.{Processor, allocate, free}
use serverlessonedge.Computing.Lambda.{LambdaRequirements}
use serverlessonedge.Messages.Request.{LambdaRequest}
use serverlessonedge.Messages.Response.{Loads}
use serverlessonedge.Computing.Container.{
  Task, Container, Host, host, start, make_active, blocked, submit, push_with, push, requirements,
  activate, after_allocate, finish, pop, advance,
}

-- The host `k` is the host `h` with other tasks.
pub record Keeps {W : Type 0} (h k : Host W) : Type 0 where
  pub processor_name : k.processor.name ≡ h.processor.name
  pub memory : k.processor.mem_total ≡ h.processor.mem_total
  pub name : k.container.name ≡ h.container.name
  pub lambda : k.container.lambda ≡ h.container.lambda
  pub workers : k.container.num_workers ≡ h.container.num_workers

module _ {W : Type 0} where
  pub Keeps-refl : (h : Host W) → Keeps h h
  Keeps-refl h = record {
    processor_name = refl;
    memory = refl;
    name = refl;
    lambda = refl;
    workers = refl;
  }

  pub Keeps-trans : (h k l : Host W) → Keeps h k → Keeps k l → Keeps h l
  Keeps-trans h k l a b = record {
    processor_name = b.processor_name ∙ a.processor_name;
    memory = b.memory ∙ a.memory;
    name = b.name ∙ a.name;
    lambda = b.lambda ∙ a.lambda;
    workers = b.workers ∙ a.workers;
  }

  -- Another processor of the same name and size.
  abbrev pub SameProcessor : Processor W → Processor W → Type 0
  SameProcessor p q = (q.name ≡ p.name) × (q.mem_total ≡ p.mem_total)

  swap-Keeps :
      (p q : Processor W) (c : Container W) (xs ys : List Task)
      → SameProcessor p q
      → Keeps
          (record { processor = p; container = c })
          (record { processor = q; container = record c { active = xs; pending = ys } })
  swap-Keeps p q c xs ys s = record {
    processor_name = s.0;
    memory = s.1;
    name = refl;
    lambda = refl;
    workers = refl;
  }

module _ {W : Type 0} (d : Float W) (elapsed : ℕ → W) where
  allocate-SameProcessor :
      (size : ℕ) (p : Processor W) → SameProcessor p (allocate d elapsed size p).1
  unfolding allocate
  allocate-SameProcessor size p = ground arith

  free-SameProcessor : (size : ℕ) (p : Processor W) → SameProcessor p (free d elapsed size p).1
  unfolding free
  free-SameProcessor size p = ground arith

  start-Keeps :
      (t : Task) (p : Processor W) (c : Container W) (r : Outcome (Unit {0}) × Processor W)
      → SameProcessor p r.1
      → Keeps (record { processor = p; container = c }) (start t c r).1
  start-Keeps t p c (ok u, q) s = swap-Keeps p q c (make_active t c.active) c.pending s
  start-Keeps t p c (throws x, q) s = swap-Keeps p q c c.active c.pending s
  start-Keeps t p c (undefined, q) s = swap-Keeps p q c c.active c.pending s

  submit-Keeps : (t : Task) (h : Host W) → Keeps h (submit d elapsed t h).1
  submit-Keeps t h = elim (Bool-cases (blocked t h.processor h.container)) [
    | inl held ↦ rw held (
        swap-Keeps h.processor h.processor h.container h.container.active
          (h.container.pending ++ (t ∷ [])) (refl, refl))
    | inr goes ↦ rw goes (
        start-Keeps t h.processor h.container (allocate d elapsed t.memory h.processor)
          (allocate-SameProcessor t.memory h.processor))
  ]

  push_with-Keeps :
      (req : LambdaRequest) (id : ℕ) (loads : Loads W) (h : Host W) (r : Outcome LambdaRequirements)
      → Keeps h (push_with d elapsed req id loads h r).1
  push_with-Keeps req id loads h (ok r) = submit-Keeps _ h
  push_with-Keeps req id loads h (throws x) = Keeps-refl h
  push_with-Keeps req id loads h undefined = Keeps-refl h

  pub push-Keeps :
      (req : LambdaRequest) (id : ℕ) (loads : Loads W) (h : Host W)
      → Keeps h (push d elapsed req id loads h).1
  unfolding push
  push-Keeps req id loads h = push_with-Keeps req id loads h (requirements req h)

  after_allocate-Keeps :
      (h stopped : Host W) (r : Outcome (Unit {0})) (started : Outcome (Unit {0}) × Host W)
      → Keeps h stopped
      → Keeps h started.1
      → Keeps h (after_allocate r stopped started).1
  after_allocate-Keeps h stopped (ok u) started a b = b
  after_allocate-Keeps h stopped (throws x) started a b = a
  after_allocate-Keeps h stopped undefined started a b = a

  activate-Keeps :
      (p : Processor W) (c : Container W) (ts : List Task)
      → Keeps (record { processor = p; container = c }) (activate d elapsed p c ts).1
  unfolding activate
  activate-Keeps p c [] = swap-Keeps p p c c.active [] (refl, refl)
  activate-Keeps p c (t ∷ ts) = elim (Bool-cases (blocked t p c)) [
    | inl held ↦ rw (held, activate) (swap-Keeps p p c c.active (t ∷ ts) (refl, refl))
    | inr goes ↦
        let (r, p') = allocate d elapsed t.memory p in
        let same = allocate-SameProcessor t.memory p in
        let c' = record c { active = make_active t c.active } in
        rw (goes, activate)
          (after_allocate-Keeps (record { processor = p; container = c }) (host p' c (t ∷ ts)) r _
            (swap-Keeps p p' c c.active (t ∷ ts) same)
            (Keeps-trans _ _ _ (swap-Keeps p p' c (make_active t c.active) c.pending same)
              (activate-Keeps p' c' ts)))
  ]

  finish-Keeps :
      (t : Task) (p : Processor W) (c : Container W) (r : Outcome (Unit {0}) × Processor W)
      → SameProcessor p r.1
      → Keeps (record { processor = p; container = c }) (finish d elapsed t c r).1
  finish-Keeps t p c (ok u, q) s =
      Keeps-trans _ _ _ (swap-Keeps p q c c.active c.pending s) (activate-Keeps q c c.pending)
  finish-Keeps t p c (throws x, q) s = swap-Keeps p q c c.active c.pending s
  finish-Keeps t p c (undefined, q) s = swap-Keeps p q c c.active c.pending s

  pub pop-Keeps :
      (t : Task) (rest : List Task) (h : Host W)
      → h.container.active ≡ t ∷ rest
      → Keeps h (pop d elapsed h).1
  unfolding pop
  pop-Keeps t rest h e =
      rw (e, pop)
        (Keeps-trans _ _ _
          (swap-Keeps h.processor h.processor (record h.container { active = t ∷ rest }) rest
            h.container.pending (refl, refl))
          (finish-Keeps t h.processor (record h.container { active = rest })
            (free d elapsed t.memory h.processor) (free-SameProcessor t.memory h.processor)))

  pub advance-Keeps : (time : W) (h : Host W) → Keeps h (advance d time h).1
  unfolding advance
  advance-Keeps time h = elim (Bool-cases (d.lt time d.nought)) [
    | inl past ↦ rw past (Keeps-refl h)
    | inr goes ↦
        rw goes (swap-Keeps h.processor h.processor h.container _ h.container.pending (refl, refl))
  ]
