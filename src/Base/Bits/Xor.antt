-- ===== src/Base/Bits/Xor.antt =====
-- Exclusive or: an abelian group of exponent two, that commutes with shifts.

use cosmicdrop.Base.{ℕ, zero, suc, ◌+◌, ◌*◌, ◌/◌, ◌%◌, ◌^◌, ◌<◌, ◌≡◌, refl, ap, arith, bit_xor}
use native.Mathlib.Nat.{pow-suc, mul_comm, div-div-eq-div-mul}
use cosmicdrop.Base.Bits.{bit_xor_step}

-- Induction on a bound for all the arguments.
bounded_comm : (n a b : ℕ) → a + b < n → bit_xor a b ≡ bit_xor b a
bounded_comm zero a b h = elim h [ ]
bounded_comm (suc n) zero zero h = refl
bounded_comm (suc n) zero (suc b) h = omega (
  arith,
  bit_xor_step zero (suc b),
  bit_xor_step (suc b) zero,
  bounded_comm n (zero / 2) (suc b / 2) (omega arith),
)
bounded_comm (suc n) (suc a) b h = omega (
  arith,
  bit_xor_step (suc a) b,
  bit_xor_step b (suc a),
  bounded_comm n (suc a / 2) (b / 2) (omega arith),
)

pub bit_xor_comm : (a b : ℕ) → bit_xor a b ≡ bit_xor b a
bit_xor_comm a b = bounded_comm (suc (a + b)) a b (omega arith)

pub half-bit_xor : (a b : ℕ) → bit_xor a b / 2 ≡ bit_xor (a / 2) (b / 2)
half-bit_xor a b = omega (arith, bit_xor_step a b)

pub parity-bit_xor : (a b : ℕ) → bit_xor a b % 2 ≡ (a + b) % 2
parity-bit_xor a b = omega (arith, bit_xor_step a b)

-- One digit of the law, from the law at the halves.
assoc_step :
    (a b c : ℕ)
    → bit_xor (bit_xor (a / 2) (b / 2)) (c / 2) ≡ bit_xor (a / 2) (bit_xor (b / 2) (c / 2))
    → bit_xor (bit_xor a b) c ≡ bit_xor a (bit_xor b c)
assoc_step a b c ih =
    let left : bit_xor (bit_xor a b) c
        ≡ bit_xor (bit_xor (a / 2) (b / 2)) (c / 2) * 2 + (bit_xor a b + c) % 2 =
      rw (← half-bit_xor a b) (bit_xor_step (bit_xor a b) c) in
    let right : bit_xor a (bit_xor b c)
        ≡ bit_xor (a / 2) (bit_xor (b / 2) (c / 2)) * 2 + (a + bit_xor b c) % 2 =
      rw (← half-bit_xor b c) (bit_xor_step a (bit_xor b c)) in
    omega (arith, ih, left, right, parity-bit_xor a b, parity-bit_xor b c)

bounded_assoc : (n a b c : ℕ) → a + b + c < n → bit_xor (bit_xor a b) c ≡ bit_xor a (bit_xor b c)
bounded_assoc zero a b c h = elim h [ ]
bounded_assoc (suc n) zero zero zero h = refl
bounded_assoc (suc n) zero zero (suc c) h =
    assoc_step zero zero (suc c) (bounded_assoc n (zero / 2) (zero / 2) (suc c / 2) (omega arith))
bounded_assoc (suc n) zero (suc b) c h =
    assoc_step zero (suc b) c (bounded_assoc n (zero / 2) (suc b / 2) (c / 2) (omega arith))
bounded_assoc (suc n) (suc a) b c h =
    assoc_step (suc a) b c (bounded_assoc n (suc a / 2) (b / 2) (c / 2) (omega arith))

pub bit_xor_assoc : (a b c : ℕ) → bit_xor (bit_xor a b) c ≡ bit_xor a (bit_xor b c)
bit_xor_assoc a b c = bounded_assoc (suc (a + b + c)) a b c (omega arith)

bounded_self : (n a : ℕ) → a < n → bit_xor a a ≡ 0
bounded_self zero a h = elim h [ ]
bounded_self (suc n) zero h = refl
bounded_self (suc n) (suc a) h =
    omega (arith, bit_xor_step (suc a) (suc a), bounded_self n (suc a / 2) (omega arith))

pub bit_xor_self : (a : ℕ) → bit_xor a a ≡ 0
bit_xor_self a = bounded_self (suc a) a (omega arith)

pub zero-bit_xor : (a : ℕ) → bit_xor 0 a ≡ a
zero-bit_xor a = bounded (suc a) a (omega arith)
  where
    bounded : (n b : ℕ) → b < n → bit_xor 0 b ≡ b
    bounded zero b h = elim h [ ]
    bounded (suc n) zero h = refl
    bounded (suc n) (suc b) h =
        omega (arith, bit_xor_step 0 (suc b), bounded n (suc b / 2) (omega arith))

pub bit_xor-zero : (a : ℕ) → bit_xor a 0 ≡ a
bit_xor-zero a = rw (bit_xor_comm a 0) (zero-bit_xor a)

-- Applied twice, a mask is gone.
pub bit_xor_cancel : (a b : ℕ) → bit_xor (bit_xor a b) b ≡ a
bit_xor_cancel a b = rw (bit_xor_assoc a b b, bit_xor_self b) (bit_xor-zero a)

-- (a ^ b) ^ (c ^ d) regrouped.
pub bit_xor_exchange :
    (a b c d : ℕ) → bit_xor (bit_xor a b) (bit_xor c d) ≡ bit_xor (bit_xor a c) (bit_xor b d)
bit_xor_exchange a b c d = rw (
  bit_xor_assoc a b (bit_xor c d),
  ← bit_xor_assoc b c d,
  bit_xor_comm b c,
  bit_xor_assoc c b d,
  bit_xor_assoc a c (bit_xor b d),
)

half_first : (k n : ℕ) → n / 2 ^ suc k ≡ n / 2 / 2 ^ k
half_first k n = rw (pow-suc 2 k, mul_comm (2 ^ k) 2, div-div-eq-div-mul n 2 (2 ^ k))

-- Shifting right commutes with exclusive or, and the words of `k` bits are closed under it.
pub bit_xor-div : (k a b : ℕ) → bit_xor a b / 2 ^ k ≡ bit_xor (a / 2 ^ k) (b / 2 ^ k)
bit_xor-div zero a b =
    let div-one : (n : ℕ) → n / 1 ≡ n = λ n. omega arith in
    ground (arith, div-one (bit_xor a b), div-one a, div-one b)
bit_xor-div (suc k) a b = ground (
  arith,
  half_first k (bit_xor a b),
  half_first k a,
  half_first k b,
  half-bit_xor a b,
  bit_xor-div k (a / 2) (b / 2),
)

pub bit_xor-lt : (k a b : ℕ) → a < 2 ^ k → b < 2 ^ k → bit_xor a b < 2 ^ k
bit_xor-lt zero a b ha hb =
    let ea : a ≡ 0 = omega arith in let eb : b ≡ 0 = omega arith in rw (ea, eb) (omega arith)
bit_xor-lt (suc k) a b ha hb = omega (
  arith,
  pow-suc 2 k,
  bit_xor_step a b,
  bit_xor-lt k (a / 2) (b / 2) (omega (arith, pow-suc 2 k)) (omega (arith, pow-suc 2 k)),
)

-- A word over a shifted word: the two do not overlap.
pub bit_xor_fields : (k h l : ℕ) → l < 2 ^ k → bit_xor (h * 2 ^ k) l ≡ h * 2 ^ k + l
bit_xor_fields zero h l hl =
    let e : h * 2 ^ 0 ≡ h = omega arith in
    let e' : l ≡ 0 = omega arith in rw (e, e', bit_xor-zero h) (omega arith)
bit_xor_fields (suc k) h l hl =
    let twice : h * 2 ^ suc k ≡ 2 * (h * 2 ^ k) =
      omega (arith, ap (λ (t : ℕ). h * t) (pow-suc 2 k)) in
    let e : h * 2 ^ suc k / 2 ≡ h * 2 ^ k = omega (arith, twice) in
    let step : bit_xor (h * 2 ^ suc k) l
        ≡ bit_xor (h * 2 ^ k) (l / 2) * 2 + (h * 2 ^ suc k + l) % 2 =
      rw (← e) (bit_xor_step (h * 2 ^ suc k) l) in
    omega (arith, step, twice, bit_xor_fields k h (l / 2) (omega (arith, pow-suc 2 k)))
