-- ===== src/Sync/Timing.antt =====
-- What the timing functions of src/awdl/sync.rs compute.
use cosmicdrop.Base.{
  ℕ, ◌+◌, ◌-◌, ◌*◌, ◌/◌, ◌%◌, ◌^◌, ◌≤◌, ◌<◌, ◌≡◌, ◌≢◌, arith, none, some, u16, wrapping_sub, ap,
  sym, ◌∙◌,
}
use native.Mathlib.Nat.{mod-add-div, mod-lt, mul_assoc, mul_comm, add-mul-div_right, mul-mod_right}
use cosmicdrop.Sync.{
  AwdlSyncState, ieee80211_usec_to_tu, div, rem, awdl_sync_next_aw_tu, awdl_sync_current_aw,
  awdl_sync_current_eaw, awdl_sync_error_tu,
}

-- The period of the extended availability windows, in TU.
abbrev pub eaw_period : AwdlSyncState → ℕ
eaw_period s = s.presence_mode * s.aw_period

-- The periods are positive, and an extended window fits the u16 that is sent.
pub record IsTimed (s : AwdlSyncState) : Type 0 where
  pub mode_pos : 0 < s.presence_mode
  pub period_pos : 0 < s.aw_period
  pub fits : eaw_period s < 2 ^ 16

-- The whole TU since the last update.
abbrev pub elapsed_tu : ℕ → AwdlSyncState → ℕ
elapsed_tu now s = wrapping_sub now s.last_update / 1024

pub eaw_pos : (s : AwdlSyncState) → IsTimed s → 0 < eaw_period s
eaw_pos s h = grind arith

pub rem_lem : (a b : ℕ) → 0 < b → rem a b ≡ some (a % b)
unfolding rem
rem_lem a b h = ground arith

pub div_lem : (a b : ℕ) → 0 < b → div a b ≡ some (a / b)
unfolding div
div_lem a b h = ground arith

pub next_aw_tu_value :
    (now : ℕ) (s : AwdlSyncState)
    → IsTimed s
    → awdl_sync_next_aw_tu now s ≡ some (eaw_period s - elapsed_tu now s % eaw_period s)
unfolding awdl_sync_next_aw_tu ieee80211_usec_to_tu
next_aw_tu_value now s h =
    let p = eaw_pos s h in
    let e : u16 (eaw_period s - elapsed_tu now s % eaw_period s)
        ≡ eaw_period s - elapsed_tu now s % eaw_period s =
      omega (arith, h.fits) in
    rw (rem_lem (elapsed_tu now s) (eaw_period s) p) (ap some e)

-- (t % (m * a)) / a + m * (t / (m * a)) is t / a.
windows : (t m a : ℕ) → 0 < a → t % (m * a) / a + m * (t / (m * a)) ≡ t / a
windows t m a ha =
    let r = t % (m * a) in
    let q = t / (m * a) in
    let whole : r + m * q * a ≡ t =
      omega (arith, mod-add-div t (m * a), mul_assoc m a q, mul_comm a q, mul_assoc m q a) in
    sym (add-mul-div_right r (m * q) ha) ∙ ap (λ (x : ℕ). x / a) whole

-- The counter of windows is the one of the last update plus the whole periods that have passed
-- since, as a u16.
pub current_aw_value :
    (now : ℕ) (s : AwdlSyncState)
    → IsTimed s
    → awdl_sync_current_aw now s ≡ some (u16 (s.aw_counter + elapsed_tu now s / s.aw_period))
unfolding awdl_sync_current_aw ieee80211_usec_to_tu
current_aw_value now s h =
    let p = eaw_pos s h in
    let t = elapsed_tu now s in
    let sum : s.aw_counter + t % eaw_period s / s.aw_period + s.presence_mode * (t / eaw_period s)
        ≡ s.aw_counter + t / s.aw_period =
      omega (arith, windows t s.presence_mode s.aw_period h.period_pos) in
    rw
      (
        rem_lem t (eaw_period s) p,
        div_lem (t % eaw_period s) s.aw_period h.period_pos,
        div_lem t (eaw_period s) p,
      )
      (ap (λ (x : ℕ). some (u16 x)) sum)

-- With positive periods whose product fits a u16, `awdl_sync_next_aw_tu` and
-- `awdl_sync_current_aw` do not panic. The first gives a number of TU between 1 and one extended
-- window, after which the time since the last update is a multiple of the extended window. The
-- second gives the counter of the last update plus the periods that have passed since, modulo 2^16.
pub next_aw_and_current_aw :
    (now : ℕ) (s : AwdlSyncState)
    → IsTimed s
    → (n : ℕ) × (awdl_sync_next_aw_tu now s ≡ some n)
      × (1 ≤ n)
      × (n ≤ eaw_period s)
      × ((elapsed_tu now s + n) % eaw_period s ≡ 0)
      × (awdl_sync_current_aw now s ≡ some (u16 (s.aw_counter + elapsed_tu now s / s.aw_period)))
next_aw_and_current_aw now s h =
    let p = eaw_pos s h in
    let t = elapsed_tu now s in
    (
      eaw_period s - t % eaw_period s,
      next_aw_tu_value now s h,
      omega (arith, mod-lt t p),
      omega arith,
      boundary t (eaw_period s) p,
      current_aw_value now s h,
    )
  where
    boundary : (t p : ℕ) → 0 < p → (t + (p - t % p)) % p ≡ 0
    boundary t p hp =
        let q = t / p in
        let whole : t + (p - t % p) ≡ p * (q + 1) = omega (arith, mod-add-div t p, mod-lt t hp) in
        rw whole (mul-mod_right p (q + 1))

-- With positive periods the error of a beacon is computed without a panic.
pub error_tu_total :
    (now td counter : ℕ) (s : AwdlSyncState)
    → IsTimed s
    → awdl_sync_error_tu now td counter s ≢ none
unfolding awdl_sync_error_tu awdl_sync_current_eaw
error_tu_total now td counter s h =
    rw
      (
        div_lem counter s.presence_mode h.mode_pos,
        current_aw_value now s h,
        div_lem (u16 (s.aw_counter + elapsed_tu now s / s.aw_period)) s.presence_mode h.mode_pos,
        next_aw_tu_value now s h,
      )
      (λ e. cc)
