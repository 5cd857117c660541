-- ===== src/Sync/Tests.antt =====
-- The tests of src/awdl/sync.rs, and the theorems of its component at one state.
use cosmicdrop.Base.{ℕ, ◌+◌, ◌%◌, ◌≡◌, ◌≤◌, refl, arith, some, none, u16, ◌/◌}
use cosmicdrop.Base.Int.{pos}
use cosmicdrop.Sync.{
  AwdlSyncState, new, awdl_sync_next_aw_tu, awdl_sync_current_aw, awdl_sync_error_tu,
  awdl_sync_update_last,
}
use cosmicdrop.Sync.Timing.{IsTimed, eaw_period, elapsed_tu, next_aw_and_current_aw}
use cosmicdrop.Sync.Update.{update_last-error}

abbrev start : AwdlSyncState
start = new 0

next_aw_at_start : awdl_sync_next_aw_tu 0 start ≡ some 64
unfolding awdl_sync_next_aw_tu
next_aw_at_start = refl

current_aw_later :
    (awdl_sync_current_aw 0 start ≡ some 0) × (awdl_sync_current_aw 16384 start ≡ some 1)
unfolding awdl_sync_current_aw
current_aw_later = (refl, refl)

-- A period of zero is a division by zero.
no_period : awdl_sync_next_aw_tu 0 (record start { aw_period = 0 }) ≡ none
unfolding awdl_sync_next_aw_tu
no_period = refl

start-IsTimed : IsTimed start
start-IsTimed = record { mode_pos = omega arith; period_pos = omega arith; fits = omega arith }

next_aw_and_current_aw_example :
    (n : ℕ) × (awdl_sync_next_aw_tu 70000 start ≡ some n)
    × (1 ≤ n)
    × (n ≤ eaw_period start)
    × ((elapsed_tu 70000 start + n) % eaw_period start ≡ 0)
    × (awdl_sync_current_aw 70000 start ≡ some (u16 (0 + elapsed_tu 70000 start / 16)))
next_aw_and_current_aw_example = next_aw_and_current_aw 70000 start start-IsTimed

update_last-error_example :
    (awdl_sync_next_aw_tu 70000 (awdl_sync_update_last 70000 20 1234 start) ≡ some 20)
    × (awdl_sync_error_tu 70000 20 1234 (awdl_sync_update_last 70000 20 1234 start) ≡ some (pos 0))
update_last-error_example =
    update_last-error 70000 20 1234 start start-IsTimed (omega arith) (omega arith) (omega arith)
      (omega arith) refl
