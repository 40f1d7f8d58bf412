-- ===== src/Computing/Processor.antt =====
-- Edge/processor.{h,cpp}: memory and running tasks of a processor, and the conversions between
-- operations and time. The moving averages and the utilization are not modelled.
use serverlessonedge.Prelude.{
  ℕ, ◌+◌, ◌-◌, ◌≤◌, ◌<◌, min, String, Outcome, ok, throws, runtime_error, ltb, ◌==◌, if◌then◌else◌,
  str_eq, ◌||◌, ◌≡◌, arith,
}
use serverlessonedge.Prelude.Word.{word_mod, add64, sub64, add64-eq, sub64-eq}
use serverlessonedge.Prelude.Float.{Float}

-- `restarts` counts the calls of `theBusyChrono.restart()`.
pub record Processor (W : Type 0) : Type 0 where
  pub name : String
  pub speed : W
  pub cores : ℕ
  pub mem_total : ℕ
  pub mem_used : ℕ
  pub running : ℕ
  pub restarts : ℕ
  pub busy_time : W

abbrev pub mem_available : {W : Type 0} → Processor W → ℕ
mem_available p = sub64 p.mem_total p.mem_used

-- The chronometer is foreign code: `elapsed n` is what its `n`-th restart answers.
module _ {W : Type 0} (d : Float W) (elapsed : ℕ → W) where
  -- The constructor, with its checks.
  unfoldable pub create : String → W → ℕ → ℕ → Outcome (Processor W)
  create name speed cores mem =
      if str_eq name "" || d.le speed d.nought || cores == 0 || mem == 0
      then throws runtime_error
      else ok (record {
        name = name;
        speed = speed;
        cores = cores;
        mem_total = mem;
        mem_used = 0;
        running = 0;
        restarts = 0;
        busy_time = d.nought;
      })

  abbrev pub busier : Processor W → W
  busier p = d.add p.busy_time (d.mul (elapsed p.restarts) (d.of_nat p.running))

  unfoldable pub allocate : ℕ → Processor W → Outcome (Unit {0}) × Processor W
  allocate size p = if ltb (mem_available p) size then (throws runtime_error, p) else (
    ok tt,
    record p {
      busy_time = busier p;
      restarts = p.restarts + 1;
      mem_used = add64 p.mem_used size;
      running = add64 p.running 1;
    },
  )

  unfoldable pub free : ℕ → Processor W → Outcome (Unit {0}) × Processor W
  free size p = if ltb p.mem_used size then (throws runtime_error, p) else (
    ok tt,
    record p {
      busy_time = busier p;
      restarts = p.restarts + 1;
      mem_used = sub64 p.mem_used size;
      running = sub64 p.running 1;
    },
  )

module _ {W : Type 0} (d : Float W) where
  -- Operations per second for one task; the caller checks that some task runs.
  abbrev pub equivalent_speed : Processor W → W
  equivalent_speed p = d.div (d.mul (d.of_nat (min p.cores p.running)) p.speed) (d.of_nat p.running)

  unfoldable pub ops_to_time : ℕ → Processor W → W
  ops_to_time ops p = if p.running == 0 then d.nought else d.div (d.of_nat ops) (equivalent_speed p)

  unfoldable pub ops_to_time_plus_one : ℕ → Processor W → W
  ops_to_time_plus_one ops p =
      let running = add64 p.running 1 in
      d.div (d.of_nat ops)
        (d.div (d.mul (d.of_nat (min p.cores running)) p.speed) (d.of_nat running))

  unfoldable pub time_to_ops : W → Processor W → ℕ
  time_to_ops time p =
      if p.running == 0 then 0 else d.truncate (d.add d.half (d.mul time (equivalent_speed p)))

-- The counters of a processor are words, and it never lends more than it has.
pub record IsSound {W : Type 0} (p : Processor W) : Type 0 where
  pub within : p.mem_used ≤ p.mem_total
  pub fits : p.mem_total < word_mod

module _ {W : Type 0} (d : Float W) (elapsed : ℕ → W) where
  pub mem_available_lem : (p : Processor W) → IsSound p → p.mem_used + mem_available p ≡ p.mem_total
  mem_available_lem p s = omega (arith, sub64-eq p.mem_total p.mem_used)

  -- `allocate` of what is available takes exactly that much, and one more task runs.
  pub allocate_lem :
      (size : ℕ) (p : Processor W)
      → IsSound p
      → p.running + 1 < word_mod
      → size ≤ mem_available p
      → let r = allocate d elapsed size p in
        (r.0 ≡ ok tt)
        × (r.1.mem_used ≡ p.mem_used + size)
        × (r.1.running ≡ p.running + 1)
        × (r.1.mem_total ≡ p.mem_total)
  unfolding allocate
  allocate_lem size p s n h =
      ground (arith, mem_available_lem p s, add64-eq p.mem_used size, add64-eq p.running 1)

  -- `free` of what is used gives exactly that much back.
  pub free_lem :
      (size : ℕ) (p : Processor W)
      → IsSound p
      → 0 < p.running
      → p.running < word_mod
      → size ≤ p.mem_used
      → let r = free d elapsed size p in
        (r.0 ≡ ok tt)
        × (r.1.mem_used ≡ p.mem_used - size)
        × (r.1.running ≡ p.running - 1)
        × (r.1.mem_total ≡ p.mem_total)
  unfolding free
  free_lem size p s n m h = ground (arith, sub64-eq p.mem_used size, sub64-eq p.running 1)
