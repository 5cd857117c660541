-- ===== src/Base/Bits/And.antt =====
-- Masks of low bits as remainders.
use cosmicdrop.Base.{
  ℕ, zero, suc, ◌+◌, ◌*◌, ◌/◌, ◌%◌, ◌^◌, ◌<◌, ◌≡◌, refl, sym, ◌∙◌, arith, bit_and,
}
use native.Mathlib.Nat.{mod-eq_of_lt}
use cosmicdrop.Base.Bits.{bit_and_step}

bit_and-zero_bounded : (n a : ℕ) → a < n → bit_and a 0 ≡ 0
bit_and-zero_bounded zero a h = elim h [ ]
bit_and-zero_bounded (suc n) zero h = refl
bit_and-zero_bounded (suc n) (suc a) h =
    omega (arith, bit_and_step (suc a) 0, bit_and-zero_bounded n (suc a / 2) (omega arith))

pub bit_and-zero : (a : ℕ) → bit_and a 0 ≡ 0
bit_and-zero a = bit_and-zero_bounded (suc a) a (omega arith)

bit_and_one : (a : ℕ) → bit_and a 1 ≡ a % 2
bit_and_one a = omega (arith, bit_and_step a 1, bit_and-zero (a / 2))

bit_and_three : (a : ℕ) → bit_and a 3 ≡ a % 4
bit_and_three a = omega (arith, bit_and_step a 3, bit_and_one (a / 2))

pub bit_and_seven : (a : ℕ) → bit_and a 7 ≡ a % 8
bit_and_seven a = omega (arith, bit_and_step a 7, bit_and_three (a / 2))

bit_and_15 : (a : ℕ) → bit_and a 0xf ≡ a % 16
bit_and_15 a = omega (arith, bit_and_step a 0xf, bit_and_seven (a / 2))

-- Four more bits of the mask.
nibble :
    (m k a : ℕ)
    → bit_and (a / 16) m ≡ a / 16 % k
    → bit_and a (16 * m + 15) ≡ a / 16 % k * 16 + a % 16
nibble m k a h =
    let e : (16 * m + 15) / 2 ≡ 8 * m + 7 = omega arith in
    let e' : (8 * m + 7) / 2 ≡ 4 * m + 3 = omega arith in
    let e'' : (4 * m + 3) / 2 ≡ 2 * m + 1 = omega arith in
    let e''' : (2 * m + 1) / 2 ≡ m = omega arith in
    let q : a / 2 / 2 / 2 / 2 ≡ a / 16 = omega arith in
    let s0 : bit_and a (16 * m + 15) ≡ bit_and (a / 2) (8 * m + 7) * 2 + a % 2 =
      omega (arith, (rw e at (bit_and_step a (16 * m + 15)))) in
    let s1 : bit_and (a / 2) (8 * m + 7) ≡ bit_and (a / 2 / 2) (4 * m + 3) * 2 + a / 2 % 2 =
      omega (arith, (rw e' at (bit_and_step (a / 2) (8 * m + 7)))) in
    let s2 : bit_and (a / 2 / 2) (4 * m + 3)
        ≡ bit_and (a / 2 / 2 / 2) (2 * m + 1) * 2 + a / 2 / 2 % 2 =
      omega (arith, (rw e'' at (bit_and_step (a / 2 / 2) (4 * m + 3)))) in
    let s3 : bit_and (a / 2 / 2 / 2) (2 * m + 1) ≡ bit_and (a / 16) m * 2 + a / 2 / 2 / 2 % 2 =
      omega (arith, (rw (e''', q) at (bit_and_step (a / 2 / 2 / 2) (2 * m + 1)))) in
    omega (arith, s0, s1, s2, s3)

pub bit_and_255 : (a : ℕ) → bit_and a 0xff ≡ a % 256
bit_and_255 a = omega (arith, nibble 0xf 16 a (bit_and_15 (a / 16)))

pub bit_and_4095 : (a : ℕ) → bit_and a 0xfff ≡ a % 4096
bit_and_4095 a = omega (arith, nibble 0xff 256 a (bit_and_255 (a / 16)))

-- 0xfffc drops the two lowest bits of a 16-bit word.
pub bit_and_fffc : (a : ℕ) → bit_and a 0xfffc ≡ a / 4 % 16384 * 4
bit_and_fffc a = omega (
  arith,
  bit_and_step a 0xfffc,
  bit_and_step (a / 2) 0x7ffe,
  bit_and_step (a / 2 / 2) 0x3fff,
  bit_and_step (a / 2 / 2 / 2) 0x1fff,
  bit_and_4095 (a / 2 / 2 / 2 / 2),
)

-- 3, 63, 1023 and so on, and one more.
masks : ℕ → ℕ
masks zero = 3
masks (suc j) = 16 * masks j + 15

powers : ℕ → ℕ
powers zero = 4
powers (suc j) = 16 * powers j

bit_and-masks : (j a : ℕ) → a < powers j → bit_and a (masks j) ≡ a
unfolding masks powers
bit_and-masks zero a h = omega (arith, bit_and_three a)
bit_and-masks (suc j) a h =
    let q : a / 16 < powers j = omega arith in
    let r : a / 16 % powers j ≡ a / 16 = mod-eq_of_lt q in
    omega (arith, nibble (masks j) (powers j) a (bit_and-masks j (a / 16) q ∙ sym r), r)

bit_and_62 : (a : ℕ) → a < 2 ^ 62 → bit_and a 0x3fffffffffffffff ≡ a
unfolding masks powers
bit_and_62 a h = bit_and-masks 15 a h

-- The complement of 3 drops the two lowest bits of a 64-bit word.
pub bit_and_not_three : (a : ℕ) → a < 2 ^ 64 → bit_and a 0xfffffffffffffffc ≡ a / 4 * 4
bit_and_not_three a h = omega (
  arith,
  bit_and_step a 0xfffffffffffffffc,
  bit_and_step (a / 2) 0x7ffffffffffffffe,
  bit_and_62 (a / 2 / 2) (omega arith),
)
