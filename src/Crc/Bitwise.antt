-- ===== src/Crc/Bitwise.antt =====
-- The table is the polynomial 0xedb88320 worked out for each byte, so the loop of
-- src/awdl/crc32.rs is the bit-by-bit CRC-32.
use native.Mathlib.Nat.{pow-suc}
use cosmicdrop.Base.{
  ℕ, zero, suc, ◌*◌, ◌/◌, ◌%◌, ◌^◌, ◌<◌, ◌≡◌, refl, arith, true, List, [], ◌∷◌, get_or, bit_xor, ap,
  sym, ◌∙◌, ◌==◌, ==_iff, if◌then◌else◌, All, IsByte,
}
use cosmicdrop.Base.Bits.{all_below, all_below_sound}
use cosmicdrop.Base.Bits.And.{bit_and_255}
use cosmicdrop.Base.Bits.Xor.{
  bit_xor_assoc, bit_xor_comm, bit_xor_self, bit_xor_exchange, bit_xor-zero, bit_xor_fields,
  bit_xor-div, half-bit_xor, parity-bit_xor, zero-bit_xor,
}
use cosmicdrop.Crc.{crc32_tab, crc32_round, crc32_loop, crc32, all_ones}

-- Division by the reflected polynomial, one bit.
unfoldable pub divide_bit : ℕ → ℕ
divide_bit c = if c % 2 == 1 then bit_xor 0xedb88320 (c / 2) else c / 2

unfoldable pub divide_bits : ℕ → ℕ → ℕ
unfolding divide_bit
divide_bits zero c = c
divide_bits (suc n) c = divide_bits n (divide_bit c)

-- The bit-by-bit CRC-32 of a byte string.
unfoldable pub bitwise_loop : ℕ → List ℕ → ℕ
unfolding divide_bits
bitwise_loop crc [] = crc
bitwise_loop crc (byte ∷ buf) = bitwise_loop (divide_bits 8 (bit_xor crc byte)) buf

unfoldable pub bitwise_crc32 : List ℕ → ℕ
unfolding bitwise_loop
bitwise_crc32 buf = bit_xor (bitwise_loop all_ones buf) all_ones

table_checked : all_below 256 (λ i. get_or crc32_tab i 0 == divide_bits 8 i) ≡ true
unfolding all_below crc32_tab divide_bits
table_checked = refl

table_lem : (i : ℕ) → i < 256 → get_or crc32_tab i 0 ≡ divide_bits 8 i
table_lem i h =
    (==_iff _ _).0
      (all_below_sound 256 (λ i. get_or crc32_tab i 0 == divide_bits 8 i) i table_checked h)

-- One bit of division is linear.
linear_bit : (a b : ℕ) → divide_bit (bit_xor a b) ≡ bit_xor (divide_bit a) (divide_bit b)
unfolding divide_bit
linear_bit a b =
    let p : ℕ = 0xedb88320 in
    let a' = a / 2 in
    let b' = b / 2 in
    ground (
      arith,
      half-bit_xor a b,
      parity-bit_xor a b,
      bit_xor_exchange p a' p b',
      bit_xor_self p,
      zero-bit_xor (bit_xor a' b'),
      bit_xor_assoc p a' b',
      bit_xor_assoc a' p b',
      bit_xor_assoc p a' b',
      bit_xor_comm a' p,
    )

linear_bits :
    (n a b : ℕ) → divide_bits n (bit_xor a b) ≡ bit_xor (divide_bits n a) (divide_bits n b)
unfolding divide_bits
linear_bits zero a b = refl
linear_bits (suc n) a b = rw (linear_bit a b) (linear_bits n (divide_bit a) (divide_bit b))

-- Zero bits are only shifted out.
divide_bit-double : (h : ℕ) → divide_bit (h * 2) ≡ h
unfolding divide_bit
divide_bit-double h =
    let e : h * 2 / 2 ≡ h = omega arith in let z : h * 2 % 2 ≡ 0 = omega arith in ground arith

divide_bits_shift : (n h : ℕ) → divide_bits n (h * 2 ^ n) ≡ h
unfolding divide_bits
divide_bits_shift zero h = omega arith
divide_bits_shift (suc n) h =
    let e : h * 2 ^ suc n ≡ h * 2 ^ n * 2 = omega (arith, ap (λ (t : ℕ). h * t) (pow-suc 2 n)) in
    rw (e, divide_bit-double (h * 2 ^ n)) (divide_bits_shift n h)

-- A table round is eight bits of division.
pub divide_bits_table : (x : ℕ) → divide_bits 8 x ≡ bit_xor (get_or crc32_tab (x % 256) 0) (x / 256)
divide_bits_table x =
    let split : bit_xor (x / 256 * 2 ^ 8) (x % 256) ≡ x =
      omega (arith, bit_xor_fields 8 (x / 256) (x % 256) (omega arith)) in
    let lin : divide_bits 8 (bit_xor (x / 256 * 2 ^ 8) (x % 256))
        ≡ bit_xor (x / 256) (divide_bits 8 (x % 256)) =
      linear_bits 8 (x / 256 * 2 ^ 8) (x % 256)
      ∙ ap (λ (t : ℕ). bit_xor t (divide_bits 8 (x % 256))) (divide_bits_shift 8 (x / 256)) in
    ap (divide_bits 8) (sym split)
    ∙ lin
    ∙ rw (table_lem (x % 256) (omega arith)) (bit_xor_comm (x / 256) (divide_bits 8 (x % 256)))

round_lem : (crc byte : ℕ) → IsByte byte → crc32_round crc byte ≡ divide_bits 8 (bit_xor crc byte)
unfolding crc32_round
round_lem crc byte h =
    let e : bit_xor crc byte / 256 ≡ crc / 256 =
      bit_xor-div 8 crc byte
      ∙ rw (let z : byte / 256 ≡ 0 = omega arith in z) (bit_xor-zero (crc / 256)) in
    rw (bit_and_255 (bit_xor crc byte), ← e) (sym (divide_bits_table (bit_xor crc byte)))

loop_lem : (crc : ℕ) (buf : List ℕ) → All IsByte buf → crc32_loop crc buf ≡ bitwise_loop crc buf
unfolding crc32_loop bitwise_loop
loop_lem crc [] h = refl
loop_lem crc (byte ∷ buf) h =
    rw (round_lem crc byte h.0) (loop_lem (divide_bits 8 (bit_xor crc byte)) buf h.1)

-- On every byte string, the table-driven checksum is the one computed bit by bit with the
-- polynomial 0xedb88320: start from all ones, for each byte fold it in and shift eight bits out,
-- and invert the result.
pub crc32-bitwise_crc32 : (buf : List ℕ) → All IsByte buf → crc32 buf ≡ bitwise_crc32 buf
unfolding crc32 bitwise_crc32
crc32-bitwise_crc32 buf h = ap (λ (t : ℕ). bit_xor t all_ones) (loop_lem all_ones buf h)
