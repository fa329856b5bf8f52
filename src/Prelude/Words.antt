-- ===== src/Prelude/Words.antt =====
-- `size_t` and `uint64_t` arithmetic, which wraps at 2 ^ 64, and the conversions to and from
-- `int32_t`.
use mathlib.Core.Path.{◌≡◌}
use native.Mathlib.Omega.{arith}
use Prim.Native.Nat.{◌<◌, ℕ, ◌+◌, ◌-◌, ◌*◌, ◌/◌, ◌%◌, ◌^◌}
use comm_network.Prelude.Tests.{ltb, ◌==◌, if◌then◌else◌, Bool-cases}
use mathlib.Core.Logic.{inl, inr}
use comm_network.Prelude.Faults.{Result, ok, abort, divide_by_zero, Ends, ended, stopped, Any}
use comm_network.Prelude.Int.{ℤ, pos, negsuc}

abbrev pub add64 : ℕ → ℕ → ℕ
add64 a b = (a + b) % 2 ^ 64

abbrev pub sub64 : ℕ → ℕ → ℕ
sub64 a b = (a + 2 ^ 64 - b) % 2 ^ 64

abbrev pub mul64 : ℕ → ℕ → ℕ
mul64 a b = a * b % 2 ^ 64

unfoldable pub div64 : ℕ → ℕ → Result ℕ
div64 a b = if b == 0 then abort divide_by_zero else ok (a / b)

pub div64-pos : (a b : ℕ) → 0 < b → div64 a b ≡ ok (a / b)
unfolding div64
div64-pos a b h = ground arith

pub Ends-div64 : (a b : ℕ) → Ends Any (div64 a b)
unfolding div64
Ends-div64 a b = elim (Bool-cases (b == 0)) [
  | inl e ↦ rw e (stopped (λ q. cc))
  | inr e ↦ rw e (ended tt)
]

-- A 32-bit pattern read as an `int32_t`.
abbrev pub signed32 : ℕ → ℤ
signed32 w = if ltb w (2 ^ 31) then pos w else negsuc (2 ^ 32 - 1 - w)

-- A `size_t` stored in an `int32_t`.
abbrev pub to_int32 : ℕ → ℤ
to_int32 n = signed32 (n % 2 ^ 32)

-- A signed number converted to `size_t`.
abbrev pub to_size : ℤ → ℕ
to_size (pos n) = n % 2 ^ 64
to_size (negsuc n) = (2 ^ 64 - 1 - n % 2 ^ 64) % 2 ^ 64

-- A sum in `int32_t`, which wraps.
abbrev pub wrap_int32 : ℤ → ℤ
wrap_int32 (pos n) = signed32 (n % 2 ^ 32)
wrap_int32 (negsuc n) = signed32 (2 ^ 32 - 1 - n % 2 ^ 32)

-- The same in `int64_t`.
abbrev pub wrap_int64 : ℤ → ℤ
wrap_int64 (pos n) = let w = n % 2 ^ 64 in if ltb w (2 ^ 63) then pos w else negsuc (2 ^ 64 - 1 - w)
wrap_int64 (negsuc n) =
    let w = 2 ^ 64 - 1 - n % 2 ^ 64 in if ltb w (2 ^ 63) then pos w else negsuc (2 ^ 64 - 1 - w)

-- The numbers of an `int32_t`.
abbrev pub IsInt32 : ℤ → Type 0
IsInt32 (pos n) = n < 2 ^ 31
IsInt32 (negsuc n) = n < 2 ^ 31

abbrev pub int_max : ℕ
int_max = 2 ^ 31 - 1
