-- ===== src/Base/Bits.antt =====
-- The native bit operations by their lowest digit, and the laws that the protocol code rests on.
use Prim.Native.Nat.{
  min, max, differ, digits, bitwise, bit_and-bitwise, bit_or-bitwise, bit_xor-bitwise,
}
use mathlib.Core.WellFounded.{Acc, WellFounded}
use native.Mathlib.Nat.{le_refl, pow-suc, one-le-pow}
pub mod Xor
pub mod And
pub mod Or
use cosmicdrop.Base.{ℕ, zero, suc, ◌+◌, ◌-◌, ◌*◌, ◌/◌, ◌%◌, ◌^◌, ◌≤◌, ◌<◌, ◌≡◌, refl, ap, arith}
use cosmicdrop.Base.{Bool, true, ◌&&◌, bit_xor, bit_and, bit_or}

-- Over a small range, check every value by evaluation.
unfoldable pub all_below : ℕ → (ℕ → Bool) → Bool
all_below zero p = true
all_below (suc n) p = p n && all_below n p

pub all_below_sound : (n : ℕ) (p : ℕ → Bool) (x : ℕ) → all_below n p ≡ true → x < n → p x ≡ true
unfolding all_below
all_below_sound zero p x h lt = elim lt [ ]
all_below_sound (suc n) p x h lt = ground (arith, all_below_sound n p x)

Acc-below : (k n : ℕ) → n < k → Acc ◌<◌ n
Acc-below zero n h = elim h [ ]
Acc-below (suc k) n h = Acc.intro n (λ m hm. Acc-below k m (omega arith))

pub lt_wf : WellFounded ◌<◌
lt_wf = record { apply = λ n. Acc-below (suc n) n (omega arith) }

-- A native operation on digits: `last` is applied when the first number has none left.
module _ (last : ℕ → ℕ) (digit : ℕ → ℕ → ℕ) where
  -- More fuel than the first number changes nothing.
  surplus :
      (bound fuel x y : ℕ)
      → x ≤ bound
      → x ≤ fuel
      → digits last digit fuel x y ≡ bitwise last digit x y
  surplus bound zero zero y hb hf = refl
  surplus bound (suc fuel) zero y hb hf = refl
  surplus zero fuel (suc x) y hb hf = elim hb [ ]
  surplus (suc bound) zero (suc x) y hb hf = elim hf [ ]
  surplus (suc bound) (suc fuel) (suc x) y hb hf =
      let half = suc x / 2 in
      let left = surplus bound fuel half (y / 2) (omega arith) (omega arith) in
      let right = surplus bound x half (y / 2) (omega arith) (omega arith) in
      omega (arith, left, right)

  lowest_digit :
      ((y : ℕ) → last y ≡ last (y / 2) * 2 + digit 0 (y % 2))
      → (x y : ℕ)
      → bitwise last digit x y ≡ bitwise last digit (x / 2) (y / 2) * 2 + digit (x % 2) (y % 2)
  lowest_digit h zero y = h y
  lowest_digit h (suc x) y =
      let e = surplus x x (suc x / 2) (y / 2) (omega arith) (omega arith) in omega (arith, e)

module _ (a b : ℕ) where
  pub bit_or_step : bit_or a b ≡ bit_or (a / 2) (b / 2) * 2 + max (a % 2) (b % 2)
  bit_or_step = simp bit_or-bitwise (lowest_digit (λ y. y) max (λ y. omega arith) a b)

  pub bit_and_step : bit_and a b ≡ bit_and (a / 2) (b / 2) * 2 + min (a % 2) (b % 2)
  bit_and_step = simp bit_and-bitwise (lowest_digit (λ y. 0) min (λ y. omega arith) a b)

  bit_xor_step_differ : bit_xor a b ≡ bit_xor (a / 2) (b / 2) * 2 + differ (a % 2) (b % 2)
  bit_xor_step_differ = simp bit_xor-bitwise (lowest_digit (λ y. y) differ parity a b)
    where
      parity : (y : ℕ) → y ≡ y / 2 * 2 + differ 0 (y % 2)
      parity y = omega arith

differ_lem : (x y : ℕ) → x < 2 → y < 2 → differ x y ≡ (x + y) % 2
differ_lem zero y hx hy = omega arith
differ_lem (suc zero) zero hx hy = refl
differ_lem (suc zero) (suc zero) hx hy = refl
differ_lem (suc zero) (suc (suc y)) hx hy = absurd (omega arith)
differ_lem (suc (suc x)) y hx hy = absurd (omega arith)

pub bit_xor_step : (a b : ℕ) → bit_xor a b ≡ bit_xor (a / 2) (b / 2) * 2 + (a + b) % 2
bit_xor_step a b =
    omega (arith, bit_xor_step_differ a b, differ_lem (a % 2) (b % 2) (omega arith) (omega arith))
