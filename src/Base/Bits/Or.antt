-- ===== src/Base/Bits/Or.antt =====
-- The bitwise or of numbers without a common bit is their sum.
use Prim.Native.Nat.{max}
use native.Mathlib.Nat.{pow-suc}
use cosmicdrop.Base.{ℕ, zero, suc, ◌+◌, ◌*◌, ◌/◌, ◌%◌, ◌^◌, ◌≤◌, ◌<◌, ◌≡◌, refl, ◌∙◌, arith, bit_or}
use cosmicdrop.Base.Bits.{bit_or_step}

or_zero_up_to : (bound x : ℕ) → x ≤ bound → bit_or x 0 ≡ x
or_zero_up_to zero zero h = refl
or_zero_up_to zero (suc x) h = elim h [ ]
or_zero_up_to (suc bound) zero h = refl
or_zero_up_to (suc bound) (suc x) h =
    omega (arith, bit_or_step (suc x) 0, or_zero_up_to bound (suc x / 2) (omega arith))

doubled : (u k : ℕ) → u * 2 ^ suc k ≡ u * 2 ^ k * 2
doubled u k = rw (pow-suc 2 k) (omega arith)

halves :
    (x y x' y' d : ℕ)
    → x / 2 ≡ x'
    → y / 2 ≡ y'
    → max (x % 2) (y % 2) ≡ d
    → bit_or x y ≡ bit_or x' y' * 2 + d
halves x y x' y' d hx hy hd = rw (← hx, ← hy, ← hd) (bit_or_step x y)

-- The second number has bits below `k` only, the first one has none.
bit_or_below : (k u b : ℕ) → b < 2 ^ k → bit_or (u * 2 ^ k) b ≡ u * 2 ^ k + b
bit_or_below zero u zero h = omega (arith, or_zero_up_to (u * 1) (u * 1) (omega arith))
bit_or_below zero u (suc b) h = absurd (omega arith)
bit_or_below (suc k) u b h =
    let small : b / 2 < 2 ^ k = omega (arith, pow-suc 2 k) in
    let d = doubled u k in
    let rest = bit_or_below k u (b / 2) small in
    halves (u * 2 ^ suc k) b (u * 2 ^ k) (b / 2) (b % 2) (omega (arith, d)) refl (omega (arith, d))
    ∙ omega (arith, d, rest)

-- The second number has no bits below `k`.
bit_or_above :
    (k u lo v : ℕ) → lo < 2 ^ k → bit_or (u * 2 ^ k + lo) (v * 2 ^ k) ≡ bit_or u v * 2 ^ k + lo
bit_or_above zero u zero v h =
    let left : u * 2 ^ 0 + 0 ≡ u = omega arith in
    let right : v * 2 ^ 0 ≡ v = omega arith in rw (left, right) (omega arith)
bit_or_above zero u (suc lo) v h = absurd (omega arith)
bit_or_above (suc k) u lo v h =
    let small : lo / 2 < 2 ^ k = omega (arith, pow-suc 2 k) in
    let d = doubled u k in
    let e = doubled v k in
    let f = doubled (bit_or u v) k in
    let rest = bit_or_above k u (lo / 2) v small in
    halves (u * 2 ^ suc k + lo) (v * 2 ^ suc k) (u * 2 ^ k + lo / 2) (v * 2 ^ k) (lo % 2)
      (omega (arith, d)) (omega (arith, e)) (omega (arith, d, e))
    ∙ omega (arith, f, rest)

-- A byte `b` is put in at the place `k`, above which there are multiples of 256 only.
pub bit_or-byte :
    (k u lo b : ℕ)
    → lo < 2 ^ k
    → b < 256
    → bit_or (u * 256 * 2 ^ k + lo) (b * 2 ^ k) ≡ (u * 256 + b) * 2 ^ k + lo
bit_or-byte k u lo b hl hb =
    bit_or_above k (u * 256) lo b hl ∙ rw (bit_or_below 8 u b (omega arith)) refl
