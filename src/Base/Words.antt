-- ===== src/Base/Words.antt =====
-- Casts to the fixed widths of Rust's unsigned integers, and shifts.
use Prim.Native.Nat.{ℕ, ◌+◌, ◌-◌, ◌*◌, ◌/◌, ◌%◌, ◌^◌, ◌<◌}

abbrev pub u8 : ℕ → ℕ
u8 n = n % 2 ^ 8

abbrev pub u16 : ℕ → ℕ
u16 n = n % 2 ^ 16

abbrev pub u32 : ℕ → ℕ
u32 n = n % 2 ^ 32

abbrev pub u64 : ℕ → ℕ
u64 n = n % 2 ^ 64

-- `a.wrapping_sub(b)` on u64: `-` on ℕ stops at 0, so the modulus is added first.
abbrev pub wrapping_sub : ℕ → ℕ → ℕ
wrapping_sub a b = u64 (a + 2 ^ 64 - b)

infixl 75 ◌<<<◌ ◌>>>◌
abbrev pub ◌<<<◌ : ℕ → ℕ → ℕ
x <<< k = x * 2 ^ k

abbrev pub ◌>>>◌ : ℕ → ℕ → ℕ
x >>> k = x / 2 ^ k

abbrev pub IsByte : ℕ → Type 0
IsByte b = b < 256
