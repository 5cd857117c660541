-- ===== src/SipHash/Key.antt =====
-- The key of src/awdl/siphash.rs holds its two halves.
use cosmicdrop.Base.{ℕ, ◌+◌, ◌*◌, ◌/◌, ◌%◌, ◌^◌, ◌<◌, ◌≡◌, arith}
use cosmicdrop.SipHash.{from_le64_at, to_le64, sipkey}

-- Eight digits to the base 256 make up a word of 64 bits.
digits_of :
    (x : ℕ)
    → x < 2 ^ 64
    → x % 256
        + x / 2 ^ 8 % 256 * 2 ^ 8
        + x / 2 ^ 16 % 256 * 2 ^ 16
        + x / 2 ^ 24 % 256 * 2 ^ 24
        + x / 2 ^ 32 % 256 * 2 ^ 32
        + x / 2 ^ 40 % 256 * 2 ^ 40
        + x / 2 ^ 48 % 256 * 2 ^ 48
        + x / 2 ^ 56 % 256 * 2 ^ 56
      ≡ x
digits_of x h = omega arith

-- For 64-bit numbers, the two words that SipHash reads from the key of `sipkey a b` are `a` and `b`.
pub from_le64_at-sipkey :
    (a b : ℕ)
    → a < 2 ^ 64
    → b < 2 ^ 64
    → (from_le64_at (sipkey a b) 0 ≡ a) × (from_le64_at (sipkey a b) 8 ≡ b)
unfolding from_le64_at sipkey to_le64
from_le64_at-sipkey a b ha hb = (digits_of a ha, digits_of b hb)
