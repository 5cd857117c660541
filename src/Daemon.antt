-- ===== src/Daemon.antt =====
-- src/awdl/mod.rs: the daemon, which owns the state of a node, keeps its timers, sends its action
-- frames and receives. What it asks of the system is the list of its effects; what the system
-- answers (the clocks, the frames that arrive) is an input. The lock of the daemon's data is always
-- granted: nobody else takes it. `fault` is a panic of the daemon's thread.
pub mod Schedule
pub mod Tasks
pub mod Loop
pub mod Invariant
pub mod Health
pub mod Stages
pub mod Sending
pub mod Whole
pub mod Reachable
pub mod Tables
pub mod Meeting
mod Tests
use cosmicdrop.Base.{
  ℕ, zero, suc, ◌+◌, ◌-◌, ◌*◌, ◌/◌, ◌%◌, ◌≤◌, ◌≡◌, min, max, ltb, leb, ◌==◌, ◌&&◌, not,
  if◌then◌else◌, Option, none, some, List, [], ◌∷◌, ◌++◌, map, replicate, get_elem?, u64,
}
use cosmicdrop.Base.Int.{pos, ltb_ℤ}
use cosmicdrop.Channel.{
  AwdlChan, awdl_chan_num, awdl_chanseq_length, chan_opclass_6, chan_opclass_44, chan_opclass_149,
}
use cosmicdrop.Daemon.Schedule
use cosmicdrop.Daemon.Schedule.{Scheduler, from_micros, from_millis}
use cosmicdrop.Election.{EtherAddr, AwdlElectionState, awdl_election_run}
use cosmicdrop.Frame.{AwdlActionType}
use cosmicdrop.Peers.{peers_remove_before, peers_iter}
use cosmicdrop.Rx.{Run, done, fault, stuck, RxResult, discriminant, match_read, ◌>>=◌}
use cosmicdrop.Rx.Entry.{awdl_rx_frame}
use cosmicdrop.State
use cosmicdrop.State.{AwdlState, Ieee80211State, new_ieee80211}
use cosmicdrop.Sync.{ieee80211_tu_to_usec, awdl_sync_current_eaw, awdl_sync_next_aw_us}
use cosmicdrop.Tx.Frames.{awdl_init_full_action_frame}
use cosmicdrop.Wire.{slice}

pub record AwdlStatsSnapshot : Type 0 where
  pub tx_action : ℕ
  pub tx_data : ℕ
  pub rx_action : ℕ
  pub rx_data : ℕ
  pub rx_unknown : ℕ

-- `AwdlStatsSnapshot::default`.
abbrev pub no_stats : AwdlStatsSnapshot
no_stats = record { tx_action = 0; tx_data = 0; rx_action = 0; rx_data = 0; rx_unknown = 0 }

-- `none` is the error for an unsupported channel.
unfoldable pub channel_from_num : ℕ → Option AwdlChan
channel_from_num chan =
    if chan == 6
    then some chan_opclass_6
    else (if chan == 44
        then some chan_opclass_44
        else (if chan == 149 then some chan_opclass_149 else none))

-- Of the packet I/O only the interface index is kept here.
pub record DaemonContext : Type 0 where
  pub ifindex : ℕ
  pub awdl : AwdlState
  pub ieee80211 : Ieee80211State
  pub tap_fd : Option ℕ

-- What the daemon asks of the system: another channel, a frame on the air, a frame on the virtual
-- interface.
pub data Effect : Type 0 where
  set_channel : ℕ → ℕ → Effect
  wlan_send : List ℕ → Effect
  tap_write : ℕ → List ℕ → Effect

-- The data of the daemon's loop.
pub record Daemon : Type 0 where
  pub ctx : DaemonContext
  pub sched : Scheduler
  pub stats : AwdlStatsSnapshot

-- What a part of the loop returns.
abbrev pub Outcome : Type 0
Outcome = Run (Daemon × List Effect)

-- One part of the loop after another.
abbrev pub then_do : Outcome → (Daemon → Outcome) → Outcome
then_do first next = do (d1, e1) ← first; (d2, e2) ← next d1; done (d2, e1 ++ e2)

-- `get_hostname().unwrap_or_else(|_| "awdl".to_string())`.
unfoldable pub host_name : Option (List ℕ) → List ℕ
host_name none = b'a' ∷ b'w' ∷ b'd' ∷ b'l' ∷ []
host_name (some name) = name

-- The daemon that `start` builds, with the timers of its loop.
unfoldable pub new_daemon : AwdlChan → EtherAddr → ℕ → Option (List ℕ) → Option ℕ → ℕ → ℕ → Daemon
unfolding host_name State.new Schedule.new
new_daemon chan mac ifindex hostname tap_fd now_us now = record {
  ctx = record {
    ifindex = ifindex;
    awdl = State.new (host_name hostname) mac chan now_us;
    ieee80211 = new_ieee80211;
    tap_fd = tap_fd;
  };
  sched = Schedule.new now;
  stats = no_stats;
}

-- `start`, from the answers of the system: the address and the index of the interface, the name of
-- the host, the file of the virtual interface if there is one, and the clocks.
unfoldable pub start :
    ℕ → EtherAddr → ℕ → Option (List ℕ) → Option ℕ → ℕ → ℕ → Option (Daemon × List Effect)
unfolding channel_from_num new_daemon
start channel mac ifindex hostname tap_fd now_us now = elim (channel_from_num channel) [
  | none ↦ none
  | some chan ↦
      some
        (new_daemon chan mac ifindex hostname tap_fd now_us now, set_channel ifindex channel ∷ [])
]
