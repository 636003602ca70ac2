-- ===== src/Prelude/Words.antt =====
-- Machine words as bit patterns, numbers below 2 ^ 32 or 2 ^ 64, for an LP64 target.
use Prim.Native.Nat.{ℕ, ◌+◌, ◌-◌, ◌/◌, ◌%◌, ◌^◌, ◌<◌, ◌*◌}
use mathlib.Core.Bool.{Bool}
use native.Mathlib.Omega.{arith}
use evlog.Prelude.Tests.{ltb, if◌then◌else◌}

abbrev pub u32_mod : ℕ
u32_mod = 2 ^ 32

abbrev pub u64_mod : ℕ
u64_mod = 2 ^ 64

-- `(long) w` for an `int` whose pattern is `w`.
abbrev pub sign_extend : ℕ → ℕ
sign_extend w = if ltb w (2 ^ 31) then w else w + (u64_mod - u32_mod)

-- Adding half the range turns the signed order of patterns into the order of numbers.
abbrev pub flip_sign : ℕ → ℕ
flip_sign w = (w + 2 ^ 63) % u64_mod

-- `a < b` for two `long`s.
abbrev pub signed_ltb : ℕ → ℕ → Bool
signed_ltb a b = ltb (flip_sign a) (flip_sign b)

-- `a * k` and `a - b` for an `unsigned long`.
abbrev pub mul64 : ℕ → ℕ → ℕ
mul64 a k = (a * k) % u64_mod

abbrev pub sub64 : ℕ → ℕ → ℕ
sub64 a b = (a + u64_mod - b) % u64_mod

-- `(unsigned long) (w >> 16)` for an `int` whose pattern is `w`: an arithmetic shift.
abbrev pub shift_right16 : ℕ → ℕ
shift_right16 w = if ltb w (2 ^ 31) then w / 2 ^ 16 else w / 2 ^ 16 + (u64_mod - 2 ^ 16)

pub sign_extend-lt : (w : ℕ) → w < u32_mod → sign_extend w < u64_mod
sign_extend-lt w h = ground arith
