-- ===== src/Prelude/Words.antt =====
-- Machine words: unsigned integers that wrap, written out on the native numbers.
use Prim.Native.Nat.{ℕ, ◌+◌, ◌-◌, ◌%◌, ◌^◌}

-- The number of values of a `uint32_t` (`Count`, `Id`, `Ticks`, `Seconds`).
abbrev pub u32 : ℕ
u32 = 2 ^ 32

-- `a + b`, `a - b`, `a + 1` and `a - 1` on `uint32_t`.
abbrev pub add32 : ℕ → ℕ → ℕ
add32 a b = (a + b) % u32

abbrev pub sub32 : ℕ → ℕ → ℕ
sub32 a b = (a + u32 - b) % u32

abbrev pub inc32 : ℕ → ℕ
inc32 a = add32 a 1

abbrev pub dec32 : ℕ → ℕ
dec32 a = sub32 a 1
