-- ===== src/Sync/Update.antt =====
-- A beacon of the sync master, taken in by `awdl_sync_update_last` of src/awdl/sync.rs.
use cosmicdrop.Base.{ℕ, ◌+◌, ◌-◌, ◌*◌, ◌/◌, ◌^◌, ◌≤◌, ◌<◌, ◌≡◌, arith, some, ap, ◌∙◌}
use cosmicdrop.Base.Int.{pos, ◌-ℤ◌, ◌*ℤ◌}
use cosmicdrop.Base.Bits.And.{bit_and_fffc}
use native.Mathlib.Nat.{mod-eq_of_lt, div-lt_iff_lt-mul}
use cosmicdrop.Sync.{
  AwdlSyncState, ieee80211_tu_to_usec, awdl_sync_next_aw_tu, awdl_sync_current_aw,
  awdl_sync_current_eaw, awdl_sync_error_tu, awdl_sync_update_last,
}
use cosmicdrop.Sync.Timing.{
  IsTimed, eaw_period, elapsed_tu, next_aw_tu_value, current_aw_value, div_lem,
}

-- The error of a beacon that agrees with the prediction.
difference : (n : ℕ) → pos n -ℤ pos n ≡ pos 0
unfolding ◌-ℤ◌
difference n = ground arith

nothing : (n : ℕ) → pos 0 *ℤ pos n ≡ pos 0
unfolding ◌*ℤ◌
nothing n = ground arith

zero_error :
    (q k p td : ℕ) → k < 4 → (pos q -ℤ pos ((q * 4 + k) / 4)) *ℤ pos p -ℤ (pos td -ℤ pos td) ≡ pos 0
zero_error q k p td h =
    let e : (q * 4 + k) / 4 ≡ q = omega arith in
    rw (e, difference q, difference td, nothing p) (difference 0)

module _ (now td counter : ℕ) (s : AwdlSyncState) (h : IsTimed s) (hn : now < 2 ^ 64) (lo : 1 ≤ td)
    (hi : td ≤ eaw_period s) where
  abbrev updated : AwdlSyncState
  unfolding awdl_sync_update_last
  updated = awdl_sync_update_last now td counter s

  updated-IsTimed : IsTimed updated
  unfolding awdl_sync_update_last
  updated-IsTimed = record { mode_pos = h.mode_pos; period_pos = h.period_pos; fits = h.fits }

  updated_elapsed : elapsed_tu now updated ≡ eaw_period s - td
  unfolding awdl_sync_update_last ieee80211_tu_to_usec
  updated_elapsed = omega (arith, h.fits)

  -- The next window is announced when the beacon said.
  updated-next_aw_tu : awdl_sync_next_aw_tu now updated ≡ some td
  unfolding awdl_sync_update_last
  updated-next_aw_tu =
      next_aw_tu_value now updated updated-IsTimed
      ∙ ap some (
          rw
            (updated_elapsed, mod-eq_of_lt {n = eaw_period s - td} {m = eaw_period s} (omega arith))
            (omega arith))

  updated_aw :
      counter < 2 ^ 16
      → s.presence_mode ≡ 4
      → (k : ℕ) × (awdl_sync_current_aw now updated ≡ some (counter / 4 * 4 + k)) × (k < 4)
  unfolding awdl_sync_update_last
  updated_aw hc hm =
      let k = (eaw_period s - td) / s.aw_period in
      let four : eaw_period s ≡ 4 * s.aw_period = ap (λ (m : ℕ). m * s.aw_period) hm in
      let small : k < 4 = (div-lt_iff_lt-mul h.period_pos).1 (omega (arith, four)) in
      (
        k,
        current_aw_value now updated updated-IsTimed
            ∙ ap some (rw (updated_elapsed, bit_and_fffc counter) (omega (arith, small))),
        small,
      )

  updated-error :
      counter < 2 ^ 16
      → s.presence_mode ≡ 4
      → awdl_sync_error_tu now td counter updated ≡ some (pos 0)
  unfolding awdl_sync_error_tu awdl_sync_current_eaw awdl_sync_update_last
  updated-error hc hm =
      let (k, aw, small) = updated_aw hc hm in
      let mode : 0 < s.presence_mode = h.mode_pos in
      rw
        (
          div_lem counter s.presence_mode mode,
          aw,
          div_lem (counter / 4 * 4 + k) s.presence_mode mode,
          updated-next_aw_tu,
          hm,
        )
        (ap some (zero_error (counter / 4) k (4 * s.aw_period) td small))

-- In presence mode 4, for a beacon that announces the next window in `td` TU, 1 to one extended
-- window, with a counter: once it is taken in at time `now`, the next window is predicted in `td` TU,
-- and the same beacon, checked against the new state at the same time, has error 0.
pub update_last-error :
    (now td counter : ℕ) (s : AwdlSyncState)
    → IsTimed s
    → now < 2 ^ 64
    → 1 ≤ td
    → td ≤ eaw_period s
    → counter < 2 ^ 16
    → s.presence_mode ≡ 4
    → (awdl_sync_next_aw_tu now (awdl_sync_update_last now td counter s) ≡ some td)
      × (awdl_sync_error_tu now td counter (awdl_sync_update_last now td counter s) ≡ some (pos 0))
unfolding awdl_sync_update_last
update_last-error now td counter s h hn lo hi hc hm = (
  updated-next_aw_tu now td counter s h hn lo hi,
  updated-error now td counter s h hn lo hi hc hm,
)
