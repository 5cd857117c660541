-- ===== src/Sync.antt =====
-- src/awdl/sync.rs: timing of the availability windows, with the unit conversions of
-- src/awdl/state.rs. Times are u64 microseconds, periods are in TU of 1024 microseconds.
-- `none` is a panic: a division by zero.
pub mod Timing
pub mod Update
mod Tests
use cosmicdrop.Base.{
  ℕ, ◌+◌, ◌-◌, ◌*◌, ◌/◌, ◌%◌, ◌^◌, ◌<◌, ◌==◌, if◌then◌else◌, Option, none, some, bit_and, u16, u64,
  wrapping_sub,
}
use cosmicdrop.Base.Int.{ℤ, pos, ◌-ℤ◌, ◌*ℤ◌}

infixl 5 ◌>>=◌
abbrev pub ◌>>=◌ {ℓ κ} : {A : Type ℓ} {B : Type κ} → Option A → (A → Option B) → Option B
none >>= f = none
some a >>= f = f a

pub record AwdlSyncState : Type 0 where
  pub aw_counter : ℕ
  pub last_update : ℕ
  pub aw_period : ℕ
  pub presence_mode : ℕ
  pub meas_err : ℕ
  pub meas_total : ℕ

-- `AwdlSyncState::new`.
abbrev pub new : ℕ → AwdlSyncState
new now = record {
  aw_counter = 0;
  last_update = now;
  aw_period = 16;
  presence_mode = 4;
  meas_err = 0;
  meas_total = 0;
}

unfoldable pub awdl_sync_state_init : AwdlSyncState → ℕ → AwdlSyncState
awdl_sync_state_init state now = record state {
  last_update = now;
  aw_counter = 0;
  aw_period = 16;
  presence_mode = 4;
  meas_err = 0;
  meas_total = 0;
}

-- u64 multiplication wraps in a release build.
unfoldable pub ieee80211_tu_to_usec : ℕ → ℕ
ieee80211_tu_to_usec tu = u64 (1024 * tu)

unfoldable pub ieee80211_usec_to_tu : ℕ → ℕ
ieee80211_usec_to_tu usec = usec / 1024

-- `a / b` and `a % b`.
unfoldable pub div : ℕ → ℕ → Option ℕ
div a b = if b == 0 then none else some (a / b)

unfoldable pub rem : ℕ → ℕ → Option ℕ
rem a b = if b == 0 then none else some (a % b)

unfoldable pub awdl_sync_next_aw_tu : ℕ → AwdlSyncState → Option ℕ
unfolding rem ieee80211_usec_to_tu
awdl_sync_next_aw_tu now_usec state = do
  let eaw_period = state.presence_mode * state.aw_period
  let time_since = ieee80211_usec_to_tu (wrapping_sub now_usec state.last_update)
  r ← rem time_since eaw_period
  some (u16 (eaw_period - r))

unfoldable pub awdl_sync_next_aw_us : ℕ → AwdlSyncState → Option ℕ
unfolding rem ieee80211_tu_to_usec
awdl_sync_next_aw_us now_usec state = do
  let eaw_period = ieee80211_tu_to_usec (state.presence_mode * state.aw_period)
  let time_since = wrapping_sub now_usec state.last_update
  r ← rem time_since eaw_period
  some (eaw_period - r)

unfoldable pub awdl_sync_current_aw : ℕ → AwdlSyncState → Option ℕ
unfolding div rem ieee80211_usec_to_tu
awdl_sync_current_aw now_usec state = do
  let eaw_period = state.presence_mode * state.aw_period
  let time_since = ieee80211_usec_to_tu (wrapping_sub now_usec state.last_update)
  r ← rem time_since eaw_period
  aws ← div r state.aw_period
  eaws ← div time_since eaw_period
  some (u16 (state.aw_counter + aws + state.presence_mode * eaws))

unfoldable pub awdl_sync_current_eaw : ℕ → AwdlSyncState → Option ℕ
awdl_sync_current_eaw now_usec state = do
  aw ← awdl_sync_current_aw now_usec state
  div aw state.presence_mode

unfoldable pub awdl_sync_error_tu : ℕ → ℕ → ℕ → AwdlSyncState → Option ℤ
awdl_sync_error_tu now_usec time_to_next_aw aw_counter state = do
  remote_eaw ← div aw_counter state.presence_mode
  local_eaw ← awdl_sync_current_eaw now_usec state
  let eaw_period = state.presence_mode * state.aw_period
  let eaw_diff = (pos remote_eaw -ℤ pos local_eaw) *ℤ pos eaw_period
  next_aw ← awdl_sync_next_aw_tu now_usec state
  let aw_diff = pos time_to_next_aw -ℤ pos next_aw
  some (eaw_diff -ℤ aw_diff)

-- The subtraction `eaw_period - time_to_next_aw` wraps in a release build.
unfoldable pub awdl_sync_update_last : ℕ → ℕ → ℕ → AwdlSyncState → AwdlSyncState
unfolding ieee80211_tu_to_usec
awdl_sync_update_last now_usec time_to_next_aw aw_counter state =
    let eaw_period = state.presence_mode * state.aw_period in
    record state {
      last_update =
          wrapping_sub now_usec (ieee80211_tu_to_usec (wrapping_sub eaw_period time_to_next_aw));
      aw_counter = bit_and aw_counter 0xfffc;
    }
