-- ===== src/Computing/Computer/Steps.antt =====
-- Edge/computer.cpp: the operations of one container and the loops over all of them.
use serverlessonedge.Prelude.{
  ℕ, String, true, some, List, [], ◌∷◌, All, is_some, str_eq, str_eq_iff, Outcome, ok, throws, ◌≡◌,
  refl, sym, ap, arith, Bool-cases, Option-cases, inl, inr, Exception,
}
use mathlib.Core.Path.{◌∙◌}
use mathlib.Core.Option.{some-injective}
use serverlessonedge.Prelude.Map.{Map, find, keys, find-insert, str_eq_refl}
use serverlessonedge.Computing.Processor.{Processor}
use serverlessonedge.Computing.Container.{Host}
use serverlessonedge.Computing.Container.Invariant.{IsValid}
use serverlessonedge.Computing.Container.Frame.{Keeps}
use serverlessonedge.Computing.Computer.{Placed, Computer, settle, and_then, on_host, on_container}
use serverlessonedge.Computing.Computer.Coherent.{IsCoherent, host-IsValid}
use serverlessonedge.Computing.Computer.Update.{settle-IsCoherent}

-- An operation that keeps a valid container valid, whatever the others on its processor hold.
abbrev pub Preserves : {W A : Type 0} → (Host W → Outcome A × Host W) → Host W → Type 0
Preserves {W} op h = (m n : ℕ) → IsValid m n h → IsValid m n (op h).1 × Keeps h (op h).1

module _ {W A : Type 0} (op : Host W → Outcome A × Host W) where
  pub on_container_lem :
      (k : String) (c : Computer W) (e : Placed W) (q : Processor W)
      → find k c.containers ≡ some e
      → find e.processor c.processors ≡ some q
      → let r = op (record { processor = q; container = e.container }) in
        on_container op k c ≡ (r.0, settle k e r.1 c)
  unfolding on_container
  on_container_lem k c e q f g = rw (f, on_host, g) refl

  pub on_container-IsCoherent :
      (k : String) (c : Computer W) (e : Placed W) (q : Processor W)
      → IsCoherent c
      → find k c.containers ≡ some e
      → find e.processor c.processors ≡ some q
      → Preserves op (record { processor = q; container = e.container })
      → IsCoherent (on_container op k c).1
  on_container-IsCoherent k c e q i f g p =
      let h : Host W = record { processor = q; container = e.container } in
      let (valid, keeps) = p _ _ (host-IsValid c k e q i f g) in
      rw (on_container_lem k c e q f g) (settle-IsCoherent c k e q (op h).1 i f g keeps valid)

pub and_then-ok :
    {W A B : Type 0} (a : A) (r : Outcome A × Computer W)
    (k : A → Computer W → Outcome B × Computer W)
    → r.0 ≡ ok a
    → and_then r k ≡ k a r.1
and_then-ok a r k e = rw (and_then, e) refl

pub and_then-throws :
    {W A B : Type 0} (x : Exception) (r : Outcome A × Computer W)
    (k : A → Computer W → Outcome B × Computer W)
    → r.0 ≡ throws x
    → and_then r k ≡ (throws x, r.1)
and_then-throws x r k e = rw (and_then, e) refl

-- The containers of these names are there.
abbrev pub Has : {W : Type 0} → Computer W → List String → Type 0
Has c = All (λ k. is_some (find k c.containers) ≡ true)

keys-Has-from :
    {W : Type 0} (c : Computer W) (es : Map (Placed W))
    → ((k : String) → is_some (find k es) ≡ true → is_some (find k c.containers) ≡ true)
    → Has c (keys es)
unfolding find
keys-Has-from c [] h = tt
keys-Has-from c ((k, e) ∷ es) h =
    (h k (ground (arith, str_eq_refl k)), keys-Has-from c es (λ j f. h j (ground (arith, f))))

pub keys-Has : {W : Type 0} (c : Computer W) → Has c (keys c.containers)
keys-Has c = keys-Has-from c c.containers (λ k h. h)

-- The computer `c'` is `c` with other tasks in its containers.
pub record Follows {W : Type 0} (c c' : Computer W) : Type 0 where
  pub next_id : c'.next_id ≡ c.next_id
  pub chrono : c'.chrono ≡ c.chrono
  pub containers :
      (k : String) (e : Placed W)
      → find k c.containers ≡ some e
      → (f : Placed W) × (find k c'.containers ≡ some f)
        × (f.processor ≡ e.processor)
        × (f.container.lambda ≡ e.container.lambda)

module _ {W : Type 0} where
  pub Follows-refl : (c : Computer W) → Follows c c
  Follows-refl c = record {
    next_id = refl;
    chrono = refl;
    containers = λ k e h. (e, h, refl, refl);
  }

  pub Follows-trans : (a b c : Computer W) → Follows a b → Follows b c → Follows a c
  Follows-trans a b c f g = record {
    next_id = g.next_id ∙ f.next_id;
    chrono = g.chrono ∙ f.chrono;
    containers = λ k e h.
        let (e1, h1, p1, l1) = f.containers k e h in
        let (e2, h2, p2, l2) = g.containers k e1 h1 in (e2, h2, p2 ∙ p1, l2 ∙ l1);
  }

  pub Follows-Has : (c c' : Computer W) (ks : List String) → Follows c c' → Has c ks → Has c' ks
  Follows-Has c c' [] f a = tt
  Follows-Has c c' (k ∷ ks) f a =
      let there : is_some (find k c'.containers) ≡ true =
        elim (Option-cases (find k c.containers)) [
          | inl missing ↦ ground (arith, missing, a.0)
          | inr (e, found) ↦ ground (arith, (f.containers k e found).1)
        ] in
      (there, Follows-Has c c' ks f a.1)

  pub settle-Follows :
      (c : Computer W) (k : String) (e : Placed W) (q : Processor W) (h : Host W)
      → find k c.containers ≡ some e
      → Keeps (record { processor = q; container = e.container }) h
      → Follows c (settle k e h c)
  settle-Follows c k e q h at_k keeps = record {
    next_id = refl;
    chrono = refl;
    containers = λ j f g. elim (Bool-cases (str_eq k j)) [
      | inl same ↦
          let this : e ≡ f =
            some-injective e f
              (sym at_k ∙ (ap (λ n. find n c.containers) ((str_eq_iff k j).0 same) ∙ g)) in
          (
            record e { container = h.container },
            ground
                (arith, find-insert k j (record e { container = h.container }) c.containers, same),
            ap (λ (x : Placed W). x.processor) this,
            keeps.lambda ∙ ap (λ (x : Placed W). x.container.lambda) this,
          )
      | inr other ↦ (
        f,
        ground
            (arith, find-insert k j (record e { container = h.container }) c.containers, other, g),
        refl,
        refl,
      )
    ];
  }
