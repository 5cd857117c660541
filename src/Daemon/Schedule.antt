-- ===== src/Daemon/Schedule.antt =====
-- The timers of the daemon loop in src/awdl/mod.rs. An `Instant` and a `Duration` are numbers of
-- nanoseconds.
use cosmicdrop.Base.{ℕ, ◌+◌, ◌-◌, ◌*◌, min, max}
use cosmicdrop.State.{psf_interval_master_tu}
use cosmicdrop.Sync.{ieee80211_tu_to_usec}

-- `Duration::from_micros`, `from_millis` and `from_secs`.
abbrev pub from_micros : ℕ → ℕ
from_micros us = 1000 * us

abbrev pub from_millis : ℕ → ℕ
from_millis ms = 1_000_000 * ms

abbrev pub from_secs : ℕ → ℕ
from_secs s = 1_000_000_000 * s

pub record Scheduler : Type 0 where
  pub next_psf : ℕ
  pub next_mif : ℕ
  pub next_chan : ℕ
  pub next_peer : ℕ
  pub next_election : ℕ
  pub next_tx : ℕ

-- `Scheduler::new`.
unfoldable pub new : ℕ → Scheduler
unfolding ieee80211_tu_to_usec
new now =
    let psf_interval = from_micros (ieee80211_tu_to_usec psf_interval_master_tu) in
    record {
      next_psf = now + psf_interval;
      next_mif = now;
      next_chan = now + from_millis 10;
      next_peer = now + from_micros 1_000_000;
      next_election = now + from_millis 500;
      next_tx = now + from_millis 5;
    }

-- `saturating_duration_since` stops at 0.
unfoldable pub sleep_until : Scheduler → ℕ → ℕ
sleep_until sched now =
    let next0 = sched.next_psf in
    let next1 = min next0 sched.next_mif in
    let next2 = min next1 sched.next_chan in
    let next3 = min next2 sched.next_peer in
    let next4 = min next3 sched.next_election in
    let next5 = min next4 sched.next_tx in max (next5 - now) (from_millis 1)
