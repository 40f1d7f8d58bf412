-- ===== src/Computing/Computer/Update.antt =====
-- Edge/computer.cpp: an operation of one container keeps the whole computer coherent.
use serverlessonedge.Prelude.{
  ℕ, ◌+◌, ◌-◌, String, false, some, length, All, str_eq, str_eq_iff, ◌≡◌, sym, ap, arith,
  Bool-cases, inl, inr,
}
use mathlib.Core.Path.{subst, ◌∙◌}
use mathlib.Core.Option.{some-injective}
use serverlessonedge.Prelude.Map.{find, find-insert, str_eq_refl}
use serverlessonedge.Prelude.Map.Sorted.{insert-IsSorted}
use serverlessonedge.Prelude.Map.Sum.{sum, sum-insert, sum-part}
use serverlessonedge.Computing.Processor.{Processor}
use serverlessonedge.Computing.Container.{Container, Host}
use serverlessonedge.Computing.Container.Invariant.{IsValid, CanWait, memory_of}
use serverlessonedge.Computing.Container.Frame.{Keeps}
use serverlessonedge.Computing.Computer.{Placed, Computer, settle}
use serverlessonedge.Computing.Computer.Coherent.{
  on, held, busy, crew, Lends, IsPlaced, IsCoherent, on_self,
}

module _ {W : Type 0} (c : Computer W) (k : String) (e : Placed W) (q : Processor W) (h : Host W)
    (i : IsCoherent c) (at_k : find k c.containers ≡ some e)
    (at_p : find e.processor c.processors ≡ some q)
    (keeps : Keeps (record { processor = q; container = e.container }) h)
    (valid : IsValid
      (sum (held e.processor) c.containers - memory_of e.container.active)
      (sum (busy e.processor) c.containers - length e.container.active)
      h) where
  abbrev e' : Placed W
  e' = record e { container = h.container }

  -- The sums after the update, for any measure.
  sum-settle :
      (f : Placed W → ℕ) → sum f (settle k e h c).containers + f e ≡ sum f c.containers + f e'
  sum-settle f = ground (arith, sum-insert f k e' c.containers i.sorted, at_k)

  -- The sums over another processor stay.
  sum-other :
      (p : String) (f : Container W → ℕ)
      → str_eq e.processor p ≡ false
      → sum (on p f) (settle k e h c).containers ≡ sum (on p f) c.containers
  sum-other p f other = ground (arith, sum-settle (on p f), other)

  own-Lends : Lends (settle k e h c).containers e.processor h.processor
  own-Lends =
      let p = e.processor in
      let l = i.lends p q at_p in
      let memory = λ (x : Container W). memory_of x.active in
      let tasks = λ (x : Container W). length x.active in
      let workers = λ (x : Container W). x.num_workers in
      record {
        sound = valid.sound;
        memory = omega (
          arith,
          valid.memory,
          sum-settle (held p),
          on_self memory e,
          on_self memory e',
          sum-part (held p) k e c.containers at_k,
        );
        running = omega (
          arith,
          valid.running,
          sum-settle (busy p),
          on_self tasks e,
          on_self tasks e',
          sum-part (busy p) k e c.containers at_k,
        );
        room = omega (
          arith,
          l.room,
          sum-settle (crew p),
          on_self workers e,
          on_self workers e',
          keeps.workers,
        );
      }

  settle-Lends :
      (p : String) (r : Processor W)
      → find p (settle k e h c).processors ≡ some r
      → Lends (settle k e h c).containers p r
  settle-Lends p r g = elim (Bool-cases (str_eq e.processor p)) [
    | inl same ↦
        let name = (str_eq_iff e.processor p).0 same in
        let this : h.processor ≡ r =
          some-injective h.processor r
            (ground (arith, find-insert e.processor p h.processor c.processors, g, same)) in
        subst (λ s. Lends (settle k e h c).containers p s) this
          (subst (λ s. Lends (settle k e h c).containers s h.processor) name own-Lends)
    | inr other ↦
        let l =
          i.lends p r
            (ground (arith, find-insert e.processor p h.processor c.processors, g, other)) in
        record {
          sound = l.sound;
          memory = l.memory ∙ sym (sum-other p (λ x. memory_of x.active) other);
          running = l.running ∙ sym (sum-other p (λ x. length x.active) other);
          room = omega (arith, l.room, sum-other p (λ x. x.num_workers) other);
        }
  ]

  -- The container that was updated.
  own-IsPlaced : IsPlaced (settle k e h c).processors e'
  own-IsPlaced = (
    h.processor,
    ground (
      arith,
      find-insert e.processor e.processor h.processor c.processors,
      str_eq_refl e.processor,
    ),
    record { workers = valid.workers; ops = valid.ops; waiting = valid.waiting },
  )

  -- Another container, of this processor or another.
  other-IsPlaced : (f : Placed W) → IsPlaced c.processors f → IsPlaced (settle k e h c).processors f
  other-IsPlaced f (r, found, fits) = elim (Bool-cases (str_eq e.processor f.processor)) [
    | inl same ↦
        let name = (str_eq_iff e.processor f.processor).0 same in
        let this : q ≡ r =
          some-injective q r (sym at_p ∙ (ap (λ n. find n c.processors) name ∙ found)) in
        let size : r.mem_total ≡ h.processor.mem_total =
          sym (keeps.memory ∙ ap (λ (x : Processor W). x.mem_total) this) in
        (
          h.processor,
          ground (arith, find-insert e.processor f.processor h.processor c.processors, same),
          record {
            workers = fits.workers;
            ops = fits.ops;
            waiting = subst (λ m. All (CanWait m) f.container.pending) size fits.waiting;
          },
        )
    | inr other ↦ (
      r,
      ground (arith, find-insert e.processor f.processor h.processor c.processors, other, found),
      fits,
    )
  ]

  settle-placed :
      (j : String) (f : Placed W)
      → find j (settle k e h c).containers ≡ some f
      → IsPlaced (settle k e h c).processors f
  settle-placed j f g = elim (Bool-cases (str_eq k j)) [
    | inl same ↦
        let this : e' ≡ f =
          some-injective e' f (ground (arith, find-insert k j e' c.containers, g, same)) in
        subst (IsPlaced (settle k e h c).processors) this own-IsPlaced
    | inr other ↦
        other-IsPlaced f (i.placed j f (ground (arith, find-insert k j e' c.containers, g, other)))
  ]

  pub settle-IsCoherent : IsCoherent (settle k e h c)
  settle-IsCoherent = record {
    sorted = insert-IsSorted k e' c.containers i.sorted;
    lends = settle-Lends;
    placed = settle-placed;
  }
