-- ===== src/Prelude/Word.antt =====
-- `uint64_t`: sums and differences with their wrap-around.
use Prim.Native.Nat.{ℕ, ◌+◌, ◌-◌, ◌%◌, ◌^◌, ◌<◌, ◌≤◌}
use mathlib.Core.Path.{◌≡◌}
use native.Mathlib.Omega.{arith}

abbrev pub word_mod : ℕ
word_mod = 2 ^ 64

pub add64 : ℕ → ℕ → ℕ
add64 a b = (a + b) % word_mod

pub sub64 : ℕ → ℕ → ℕ
sub64 a b = (a + word_mod - b) % word_mod

-- A sum that fits does not wrap.
pub add64-eq : (a b : ℕ) → a + b < word_mod → add64 a b ≡ a + b
unfolding add64
add64-eq a b h = omega arith

-- Nor does the difference of a word and a smaller one.
pub sub64-eq : (a b : ℕ) → b ≤ a → a < word_mod → sub64 a b ≡ a - b
unfolding sub64
sub64-eq a b h k = omega arith
