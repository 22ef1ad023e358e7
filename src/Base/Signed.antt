-- ===== src/Base/Signed.antt =====
-- An `i32` as its 32-bit pattern: the comparisons, the wrapping sums and the casts.
use Prim.Native.Nat.{ℕ, ◌+◌, ◌-◌, ◌%◌, ◌^◌}
use mathlib.Core.Bool.{Bool, not, ◌&&◌}
use qore_os.Base.Tests.{ltb, if◌then◌else◌}

-- `a < b`
abbrev pub slt : ℕ → ℕ → Bool
slt a b = ltb ((a + 2 ^ 31) % 2 ^ 32) ((b + 2 ^ 31) % 2 ^ 32)

-- `a <= b`
abbrev pub sle : ℕ → ℕ → Bool
sle a b = not (slt b a)

abbrev pub add32 : ℕ → ℕ → ℕ
add32 a b = (a + b) % 2 ^ 32

abbrev pub sub32 : ℕ → ℕ → ℕ
sub32 a b = (a + 2 ^ 32 - b) % 2 ^ 32

-- `n as i32` of a `usize`
abbrev pub as_i32 : ℕ → ℕ
as_i32 n = n % 2 ^ 32

-- `v as usize`, which extends the sign
abbrev pub as_usize : ℕ → ℕ
as_usize v = if ltb v (2 ^ 31) then v else v + (2 ^ 64 - 2 ^ 32)

-- `a >= low && a <= high`
abbrev pub is_within : ℕ → ℕ → ℕ → Bool
is_within low high a = sle low a && sle a high
