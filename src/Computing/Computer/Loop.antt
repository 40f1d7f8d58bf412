-- ===== src/Computing/Computer/Loop.antt =====
-- Edge/computer.cpp: a loop of an operation that never fails over the containers of a computer.
use serverlessonedge.Prelude.{
  ℕ, ◌+◌, String, List, [], ◌∷◌, Outcome, ok, ◌≡◌, refl, arith, Option-cases, inl, inr,
}
use serverlessonedge.Prelude.Map.{find}
use serverlessonedge.Prelude.Map.Sum.{sum, weigh, sum-insert}
use serverlessonedge.Computing.Container.{Container, Host}
use serverlessonedge.Computing.Container.Invariant.{IsValid}
use serverlessonedge.Computing.Container.Frame.{Keeps}
use serverlessonedge.Computing.Computer.{Placed, Computer, settle, for_each}
use serverlessonedge.Computing.Computer.Coherent.{IsCoherent, host-IsValid}
use serverlessonedge.Computing.Computer.Update.{settle-IsCoherent}
use serverlessonedge.Computing.Computer.Steps.{
  on_container_lem, Has, Follows, Follows-refl, Follows-trans, Follows-Has, settle-Follows,
}

-- The operation returns, keeps the container valid, and what it gives out by the measure `f` the
-- container loses by the measure `g`.
pub record Balances {W A : Type 0} (f : A → ℕ) (g : Container W → ℕ) (m n : ℕ) (h : Host W)
    (r : Outcome A × Host W) : Type 0 where
  pub value : A
  pub returned : r.0 ≡ ok value
  pub valid : IsValid m n r.1
  pub keeps : Keeps h r.1
  pub balance : g r.1.container + f value ≡ g h.container

abbrev pub total_of : {A : Type 0} → (A → ℕ) → List A → ℕ
total_of f [] = 0
total_of f (a ∷ as') = f a + total_of f as'

module _ {W A : Type 0} (op : Host W → Outcome A × Host W) (f : A → ℕ) (g : Container W → ℕ)
    (balances : (m n : ℕ) (h : Host W) → IsValid m n h → Balances f g m n h (op h)) where
  -- What the loop makes of a coherent computer.
  pub record Looped (c : Computer W) (r : Outcome (List A) × Computer W) : Type 0 where
    pub values : List A
    pub returned : r.0 ≡ ok values
    pub coherent : IsCoherent r.1
    pub follows : Follows c r.1
    pub balance :
        sum (λ e. g e.container) r.1.containers + total_of f values
        ≡ sum (λ e. g e.container) c.containers

  pub for_each-Looped :
      (ks : List String) (c : Computer W) → IsCoherent c → Has c ks → Looped c (for_each op ks c)
  unfolding for_each
  for_each-Looped [] c i a = record {
    values = [];
    returned = refl;
    coherent = i;
    follows = Follows-refl c;
    balance = omega arith;
  }
  for_each-Looped (k ∷ ks) c i a = elim (Option-cases (find k c.containers)) [
    | inl missing ↦ ground (arith, a.0, missing)
    | inr (e, found) ↦
        let (q, at_p, fits) = i.placed k e found in
        let h : Host W = record { processor = q; container = e.container } in
        let b = balances _ _ h (host-IsValid c k e q i found at_p) in
        let c' = settle k e (op h).1 c in
        let coherent = settle-IsCoherent c k e q (op h).1 i found at_p b.keeps b.valid in
        let follows = settle-Follows c k e q (op h).1 found b.keeps in
        let rest = for_each-Looped ks c' coherent (Follows-Has c c' ks follows a.1) in
        let own : weigh (λ (x : Placed W). g x.container) (find k c.containers) ≡ g e.container =
          rw found refl in
        rw (on_container_lem op k c e q found at_p, b.returned, for_each, rest.returned)
          (record {
            values = b.value ∷ rest.values;
            returned = refl;
            coherent = rest.coherent;
            follows = Follows-trans c c' _ follows rest.follows;
            balance = omega (
              arith,
              rest.balance,
              b.balance,
              sum-insert (λ (x : Placed W). g x.container) k
                  (record e { container = (op h).1.container }) c.containers i.sorted,
              own,
            );
          })
  ]
