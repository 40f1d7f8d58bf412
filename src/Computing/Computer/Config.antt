-- ===== src/Computing/Computer/Config.antt =====
-- `addProcessor` and `addContainer` of Edge/computer.cpp.
use serverlessonedge.Prelude.{
  ℕ, ◌+◌, ◌<◌, String, true, none, some, [], length, is_some, str_eq, str_eq_iff, Outcome, ok,
  throws, undefined, ◌≡◌, refl, arith, Bool-cases, Option-cases, inl, inr, OnReturn, if-cases,
  if-cases,
}
use mathlib.Core.Path.{subst}
use mathlib.Core.Option.{some-injective}
use serverlessonedge.Prelude.Map.{find, insert, contains, add, find-insert, str_eq_refl}
use serverlessonedge.Prelude.Map.Sorted.{insert-IsSorted, All-of_find}
use serverlessonedge.Prelude.Map.Sum.{sum, weigh, sum-insert, sum-zero}
use serverlessonedge.Prelude.Word.{word_mod}
use serverlessonedge.Prelude.Float.{Float}
use serverlessonedge.Computing.Lambda.{Lambda}
use serverlessonedge.Computing.Processor.{Processor, IsSound}
use serverlessonedge.Computing.Processor
use serverlessonedge.Computing.Container.{Container, Host}
use serverlessonedge.Computing.Container
use serverlessonedge.Computing.Container.Invariant.{memory_of}
use serverlessonedge.Computing.Computer.{
  Placed, Computer, add_processor, add_container, put_container, put_processor,
}
use serverlessonedge.Computing.Computer.Clock.{flags-IsCoherent}
use serverlessonedge.Computing.Computer.Coherent.{
  on, held, busy, crew, Lends, Fits, IsPlaced, IsCoherent,
}

-- A processor that is new has lent nothing.
abbrev pub IsNew : {W : Type 0} → String → ℕ → Processor W → Type 0
IsNew name mem p = (p.name ≡ name) × (p.mem_total ≡ mem) × (p.mem_used ≡ 0) × (p.running ≡ 0)

module _ {W : Type 0} where
  -- No container refers to a processor that is not there.
  unused :
      (c : Computer W) (name : String) (f : Container W → ℕ)
      → IsCoherent c
      → find name c.processors ≡ none
      → sum (on name f) c.containers ≡ 0
  unused c name f i absent = sum-zero (on name f) c.containers (
      All-of_find (λ k e. on name f e ≡ 0) c.containers i.sorted
        (λ k e h.
          let (q, found, fits) = i.placed k e h in
          ground (arith, absent, found, str_eq_iff e.processor name)))

  -- A new processor keeps the computer coherent.
  new-IsCoherent :
      (c : Computer W) (name : String) (mem : ℕ) (p : Processor W)
      → IsCoherent c
      → find name c.processors ≡ none
      → mem < word_mod
      → IsNew name mem p
      → IsCoherent (record c { processors = insert name p c.processors })
  new-IsCoherent c name mem p i absent small (called, size, used, idle) = record {
    sorted = i.sorted;
    lends = λ k q h. elim (Bool-cases (str_eq name k)) [
      | inl same ↦
          let this : p ≡ q =
            some-injective p q (ground (arith, find-insert name k p c.processors, h, same)) in
          subst (λ r. Lends c.containers k r) this
            (subst (λ n. Lends c.containers n p) ((str_eq_iff name k).0 same)
              (record {
                sound = record { within = omega arith; fits = omega arith };
                memory = omega (arith, unused c name (λ x. memory_of x.active) i absent);
                running = omega (arith, unused c name (λ x. length x.active) i absent);
                room = omega (arith, unused c name (λ x. x.num_workers) i absent);
              }))
      | inr other ↦ i.lends k q (ground (arith, find-insert name k p c.processors, h, other))
    ];
    placed = λ k e h.
        let (q, found, fits) = i.placed k e h in
        (
          q,
          ground (
            arith,
            find-insert name e.processor p c.processors,
            found,
            absent,
            str_eq_iff name e.processor,
          ),
          fits,
        );
  }

  -- What an empty container adds to the sums.
  module _ (c : Computer W) (k : String) (e : Placed W) (i : IsCoherent c)
      (absent : find k c.containers ≡ none) (active : e.container.active ≡ []) where
    added : (f : Placed W → ℕ) → sum f (insert k e c.containers) ≡ sum f c.containers + f e
    added f =
        let none_before : weigh f (find k c.containers) ≡ 0 = rw absent refl in
        omega (arith, none_before, sum-insert f k e c.containers i.sorted)

    added-Lends :
        (p : String) (q : Processor W)
        → Lends c.containers p q
        → sum (crew p) c.containers + crew p e < word_mod
        → Lends (insert k e c.containers) p q
    added-Lends p q l room =
        let nothing : held p e ≡ 0 = ground (arith, active) in
        let none_busy : busy p e ≡ 0 = ground (arith, active) in
        record {
          sound = l.sound;
          memory = omega (arith, l.memory, added (held p), nothing);
          running = omega (arith, l.running, added (busy p), none_busy);
          room = omega (arith, room, added (crew p));
        }

    -- An empty container keeps the computer coherent, if its workers can be counted.
    empty-IsCoherent :
        (q : Processor W)
        → find e.processor c.processors ≡ some q
        → e.container.pending ≡ []
        → sum (crew e.processor) c.containers + e.container.num_workers < word_mod
        → IsCoherent (record c { containers = insert k e c.containers })
    empty-IsCoherent q at_p pending room = record {
      sorted = insert-IsSorted k e c.containers i.sorted;
      lends = λ p r h. added-Lends p r (i.lends p r h) (elim (Bool-cases (str_eq e.processor p)) [
        | inl same ↦
            subst (λ n. sum (crew n) c.containers + crew n e < word_mod)
              ((str_eq_iff e.processor p).0 same) (rw (str_eq_refl e.processor) room)
        | inr other ↦ let l = i.lends p r h in ground (arith, other, l.room)
      ]);
      placed = λ j f h. elim (Bool-cases (str_eq k j)) [
        | inl same ↦
            let this : e ≡ f =
              some-injective e f (ground (arith, find-insert k j e c.containers, h, same)) in
            let fits : Fits q.mem_total e.container = record {
              workers = ground (arith, active);
              ops = ground (arith, active);
              waiting = rw pending tt;
            } in
            subst (IsPlaced c.processors) this (q, at_p, fits)
        | inr other ↦ i.placed j f (ground (arith, find-insert k j e c.containers, h, other))
      ];
    }

  pub create-new :
      (name : String) (lambda : Lambda W) (n : ℕ)
      → OnReturn
          (λ k. (k.active ≡ []) × (k.pending ≡ []) × (k.num_workers ≡ n))
          (Container.create name lambda n)
  unfolding Container.create
  create-new name lambda n = ground arith

  put_container-IsCoherent :
      (processor : String) (lambda : Lambda W) (n : ℕ) (c : Computer W) (o : Outcome (Container W))
      → IsCoherent c
      → find lambda.name c.containers ≡ none
      → is_some (find processor c.processors) ≡ true
      → sum (crew processor) c.containers + n < word_mod
      → OnReturn (λ k. (k.active ≡ []) × (k.pending ≡ []) × (k.num_workers ≡ n)) o
      → IsCoherent (put_container processor lambda c o).1
  put_container-IsCoherent processor lambda n c (ok k) i absent there room (active, pending, size) =
      let e : Placed W = record { processor = processor; container = k } in
      elim (Option-cases (find processor c.processors)) [
        | inl missing ↦ ground (arith, there, missing)
        | inr (q, at_p) ↦
            empty-IsCoherent c lambda.name e i absent active q at_p pending (rw size room)
      ]
  put_container-IsCoherent processor lambda n c (throws x) i absent there room new = i
  put_container-IsCoherent processor lambda n c undefined i absent there room new = i

  -- `addContainer` keeps the computer coherent, if the workers on the processor can be counted.
  pub add_container-IsCoherent :
      (name processor : String) (lambda : Lambda W) (n : ℕ) (c : Computer W)
      → IsCoherent c
      → sum (crew processor) c.containers + n < word_mod
      → IsCoherent (add_container name processor lambda n c).1
  unfolding add_container
  add_container-IsCoherent name processor lambda n c i room =
      let P = λ (r : Outcome (Unit {0}) × Computer W). IsCoherent r.1 in
      let named : Computer W = record c { container_names = add name c.container_names } in
      if-cases P c.is_init_done _ _ (λ _. i)
        (λ _.
          if-cases P (contains name c.container_names) _ _ (λ _. i)
            (λ _.
              if-cases P (is_some (find lambda.name c.containers)) _ _ (λ _. i)
                (λ fresh.
                  if-cases P (is_some (find processor c.processors)) _ _
                    (λ there.
                      put_container-IsCoherent processor lambda n named
                        (Container.create name lambda n) (flags-IsCoherent c named i refl refl)
                        (ground (arith, fresh)) there room (create-new name lambda n))
                    (λ _. i))))

  put_processor-IsCoherent :
      (name : String) (mem : ℕ) (c : Computer W) (o : Outcome (Processor W))
      → IsCoherent c
      → find name c.processors ≡ none
      → mem < word_mod
      → OnReturn (IsNew name mem) o
      → IsCoherent (put_processor name c o).1
  put_processor-IsCoherent name mem c (ok p) i absent small new =
      new-IsCoherent c name mem p i absent small new
  put_processor-IsCoherent name mem c (throws x) i absent small new = i
  put_processor-IsCoherent name mem c undefined i absent small new = i

module _ {W : Type 0} (d : Float W) (elapsed : ℕ → W) where
  create-IsNew :
      (name : String) (speed : W) (cores mem : ℕ)
      → OnReturn (IsNew name mem) (Processor.create d elapsed name speed cores mem)
  unfolding Processor.create
  create-IsNew name speed cores mem = ground arith

  -- `addProcessor` keeps the computer coherent.
  pub add_processor-IsCoherent :
      (name : String) (speed : W) (cores mem : ℕ) (c : Computer W)
      → IsCoherent c
      → mem < word_mod
      → IsCoherent (add_processor d elapsed name speed cores mem c).1
  unfolding add_processor
  add_processor-IsCoherent name speed cores mem c i small =
      let P = λ (r : Outcome (Unit {0}) × Computer W). IsCoherent r.1 in
      if-cases P c.is_init_done _ _ (λ _. i)
        (λ _.
          if-cases P (is_some (find name c.processors)) _ _ (λ _. i)
            (λ fresh.
              put_processor-IsCoherent name mem c _ i (ground (arith, fresh)) small
                (create-IsNew name speed cores mem)))
