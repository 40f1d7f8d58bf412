-- ===== src/Estimating/Utilization.antt =====
-- Edge/utilestimator.cpp: the last load of a computer, and the destination with the least estimate
-- of the response time. The time of the chronometer is an argument.
use mathlib.Core.Path.{subst}
use serverlessonedge.Prelude.{
  ℕ, min, String, true, [], ◌∷◌, if◌then◌else◌, ◌≡◌, refl, sym, arith, ◌⊎◌, inl, inr, Bool-cases,
  ap,
}
use serverlessonedge.Prelude.Map.{Map}
use serverlessonedge.Prelude.Float.{Float, IsOrdered}

-- The fields of a `ComputerDescriptor` that change.
pub record ComputerLoad (W : Type 0) : Type 0 where
  pub last_meas : W
  pub last_load1 : ℕ

-- What `best` returns: `BT_DEST`, `BT_RTT` and `BT_PTIME`.
pub record Estimate (W : Type 0) : Type 0 where
  pub dest : String
  pub rtt : W
  pub ptime : W

module _ {W : Type 0} (d : Float W) where
  -- `lastLoad`: a load that is too old counts as 0, from now on.
  unfoldable pub last_load : W → W → ComputerLoad W → (ℕ × W) × ComputerLoad W
  last_load timeout now c =
      let c1 : ComputerLoad W =
        if d.le timeout (d.sub now c.last_meas)
        then record { last_meas = now; last_load1 = 0 }
        else c in
      ((c1.last_load1, d.sub now c1.last_meas), c1)

  -- `ComputerDescriptor::add`
  unfoldable pub add_load : W → ℕ → ComputerLoad W → ComputerLoad W
  add_load now load1 c = record { last_meas = now; last_load1 = min 99 load1 }

  -- The loop of `best` over both maps at once, with `ret` and `myMinTime`.
  unfoldable pub least_from : Map W → Map W → Estimate W → W → Estimate W × W
  least_from [] ptimes ret least = (ret, least)
  least_from (x ∷ rtts) [] ret least = (ret, least)
  least_from ((k, rtt) ∷ rtts) ((j, ptime) ∷ ptimes) ret least =
      let current = d.add rtt ptime in
      let better = d.lt current least in
      least_from rtts ptimes (if better then record { dest = k; rtt = rtt; ptime = ptime } else ret)
        (if better then current else least)

  -- `best`, from the processing times that the table answers; `largest` is the largest `float`.
  unfoldable pub least : W → Map W → Map W → Estimate W
  unfolding least_from
  least largest ptimes rtts =
      (least_from rtts ptimes (record { dest = ""; rtt = d.nought; ptime = d.nought }) largest).0

  -- Nothing that the loop meets is less than `w`.
  abbrev pub Below : W → Map W → Map W → Type 0
  Below w [] ptimes = Unit
  Below w (x ∷ rtts) [] = Unit
  Below w ((k, rtt) ∷ rtts) ((j, ptime) ∷ ptimes) =
      (d.le w (d.add rtt ptime) ≡ true) × Below w rtts ptimes

-- The estimate is one of a destination that the loop meets, with its two times.
abbrev pub IsMet : {W : Type 0} → Estimate W → Map W → Map W → Type 0
IsMet e [] ptimes = ⊥
IsMet e (x ∷ rtts) [] = ⊥
IsMet e ((k, rtt) ∷ rtts) ((j, ptime) ∷ ptimes) =
    ((e.dest ≡ k) × (e.rtt ≡ rtt) × (e.ptime ≡ ptime)) ⊎ IsMet e rtts ptimes

module _ {W : Type 0} {d : Float W} (laws : IsOrdered d) where
  least_from-Below :
      (rtts ptimes : Map W) (ret : Estimate W) (top : W)
      → let m = (least_from d rtts ptimes ret top).1 in (d.le m top ≡ true) × Below d m rtts ptimes
  unfolding least_from
  least_from-Below [] ptimes ret top = (laws.le_refl top, tt)
  least_from-Below (x ∷ rtts) [] ret top = (laws.le_refl top, tt)
  least_from-Below ((k, rtt) ∷ rtts) ((j, ptime) ∷ ptimes) ret top =
      let current = d.add rtt ptime in
      let better = d.lt current top in
      let top' : W = if better then current else top in
      let ret' : Estimate W =
        if better then record { dest = k; rtt = rtt; ptime = ptime } else ret in
      let (low, rest) = least_from-Below rtts ptimes ret' top' in
      (
        laws.le_trans _ _ _ low (
            ground
              (arith, laws.lt-eq-not-le current top, laws.le_total current top, laws.le_refl top)),
        (
          laws.le_trans _ _ _ low
              (ground (arith, laws.lt-eq-not-le current top, laws.le_refl current)),
          rest,
        ),
      )

  least_from-total :
      (rtts ptimes : Map W) (ret : Estimate W) (top : W)
      → let r = least_from d rtts ptimes ret top in
        (r ≡ (ret, top)) ⊎ ((r.1 ≡ d.add r.0.rtt r.0.ptime) × IsMet r.0 rtts ptimes)
  unfolding least_from
  least_from-total [] ptimes ret top = inl refl
  least_from-total (x ∷ rtts) [] ret top = inl refl
  least_from-total ((k, rtt) ∷ rtts) ((j, ptime) ∷ ptimes) ret top =
      let current = d.add rtt ptime in
      let here : Estimate W = record { dest = k; rtt = rtt; ptime = ptime } in
      let P : Estimate W × W → Type 0 = λ r.
        (r ≡ (ret, top))
        ⊎ ((r.1 ≡ d.add r.0.rtt r.0.ptime) × IsMet r.0 ((k, rtt) ∷ rtts) ((j, ptime) ∷ ptimes)) in
      elim (Bool-cases (d.lt current top)) [
        | inl better ↦
            let step : least_from d ((k, rtt) ∷ rtts) ((j, ptime) ∷ ptimes) ret top
                ≡ least_from d rtts ptimes here current =
              rw (better, least_from) refl in
            subst P (sym step) (elim (least_from-total rtts ptimes here current) [
              | inl e ↦ subst P (sym e) (inr (refl, inl (refl, refl, refl)))
              | inr (t, met) ↦ inr (t, inr met)
            ])
        | inr worse ↦
            let step : least_from d ((k, rtt) ∷ rtts) ((j, ptime) ∷ ptimes) ret top
                ≡ least_from d rtts ptimes ret top =
              rw (worse, least_from) refl in
            subst P (sym step) (elim (least_from-total rtts ptimes ret top) [
              | inl e ↦ inl e
              | inr (t, met) ↦ inr (t, inr met)
            ])
      ]

  -- `best` returns a destination that its loop over both maps meets, with its round-trip and
  -- processing times, for which their sum is the least of all; it returns no destination only if no
  -- sum is below the largest number.
  pub least_lem :
      (largest : W) (ptimes rtts : Map W)
      → let e = least d largest ptimes rtts in
        ((e ≡ record { dest = ""; rtt = d.nought; ptime = d.nought }) × Below d largest rtts ptimes)
        ⊎ (IsMet e rtts ptimes × Below d (d.add e.rtt e.ptime) rtts ptimes)
  unfolding least
  least_lem largest ptimes rtts =
      let none_yet : Estimate W = record { dest = ""; rtt = d.nought; ptime = d.nought } in
      let below = (least_from-Below rtts ptimes none_yet largest).1 in
      elim (least_from-total rtts ptimes none_yet largest) [
        | inl e ↦ inl (ap (λ r. r.0) e, subst (λ w. Below d w rtts ptimes) (ap (λ r. r.1) e) below)
        | inr (t, met) ↦ inr (met, subst (λ w. Below d w rtts ptimes) t below)
      ]
