-- ===== src/Daemon/Tests.antt =====
-- The daemon of src/awdl/mod.rs at its start.
use cosmicdrop.Base.{
  ℕ, ◌+◌, ◌≤◌, ◌≡◌, ◌≢◌, refl, arith, none, some, List, [], ◌∷◌, length, replicate, bytes_eq,
  bytes_eq_iff, get_elem?, ◌%◌, bytes_eq_iff, get_elem?, ◌%◌,
}
use cosmicdrop.Channel
use cosmicdrop.Channel.{
  awdl_chanseq_init_static, init_from, chan_opclass_6, awdl_chan_num, chan_num_for_enc,
  chan_num_opclass,
}
use cosmicdrop.Daemon.{Daemon, Effect, start, new_daemon, channel_from_num, host_name, set_channel}
use cosmicdrop.Daemon.Invariant.{IsRunning, Progress, sends, IsWhole}
use cosmicdrop.Base.{◌<◌, ◌⊎◌, All}
use cosmicdrop.Daemon.Loop.{Turn, WlanRecv, run_turn, Runs, started, sleep_for}
use cosmicdrop.Daemon.Schedule
use cosmicdrop.Daemon.Schedule.{from_millis, from_secs, sleep_until}
use cosmicdrop.Daemon.Reachable.{start-IsStarted, start-Runs, next_tx_keeps_awake}
use cosmicdrop.Daemon.Whole.{run_turn-Progress, IsScheduled}
use cosmicdrop.Daemon.Meeting.{switch_channel_meets, channel_number, tuned}
use cosmicdrop.Daemon.Tables.{run_election_tables}
use cosmicdrop.Daemon.Tasks.{run_election, switch_channel}
use cosmicdrop.Election.{EtherAddr}
use cosmicdrop.Frame.{AwdlActionType}
use cosmicdrop.Peers.{AwdlPeerState, new_peer, peer_get}
use cosmicdrop.Peers.Keys.{IsWellKeyed, new_peer-IsAt}
use cosmicdrop.State
use cosmicdrop.State.{AwdlState, new_ieee80211}
use cosmicdrop.Sync.{awdl_sync_current_eaw, awdl_sync_current_aw, div, rem, ieee80211_usec_to_tu}
use cosmicdrop.Table
use cosmicdrop.Tx.Frames.{awdl_init_full_action_frame}
use cosmicdrop.Tx.Size.Frame.{action_frame-Fits, action_frame_size, mif_size, fcs_size}
use cosmicdrop.Tx.Size.Tlv.{chan_bytes}
use cosmicdrop.Tx.Tlv.{awdl_chan_encoding_length_enc}
use cosmicdrop.Wire.{ok}
use cosmicdrop.Rx.{done}
use cosmicdrop.Sync.{ieee80211_tu_to_usec}

abbrev mac : EtherAddr
mac = 2 ∷ 0 ∷ 0 ∷ 0 ∷ 0 ∷ 1 ∷ []

fresh : Daemon
fresh = new_daemon chan_opclass_6 mac 3 none (some 9) 0 0

fresh_starts : start 6 mac 3 none (some 9) 0 0 ≡ some (fresh, set_channel 3 6 ∷ [])
unfolding start channel_from_num fresh
fresh_starts = refl

fresh-IsRunning : IsRunning fresh
fresh-IsRunning =
    (start-IsStarted 6 mac 3 none (some 9) 0 0 fresh (set_channel 3 6 ∷ []) refl tt
      fresh_starts).running

-- A turn in which frames of two bytes arrive.
abbrev first_turn : Turn
first_turn = record {
  now = 5_000_000;
  chan_us = 5_000;
  peer_us = 5_000;
  psf_us = 5_000;
  psf_later = 5_001;
  sync_us = 5_002;
  mif_us = 5_003;
  mif_later = 5_004;
  recv = λ i. WlanRecv.frame (0 ∷ 1 ∷ []) 5_005;
}

first_sleep : 0 + sleep_for fresh.sched 0 ≤ 5_000_000
unfolding sleep_for sleep_until fresh new_daemon Schedule.new ieee80211_tu_to_usec
first_sleep = omega arith

run_turn-Progress_example :
    (d' : Daemon) × (es : List Effect) × (run_turn (λ bytes. bytes) first_turn fresh
      ≡ done (d', es))
    × Progress 5_000_000 fresh d' es
    × IsScheduled 5_000_000 d'.sched
run_turn-Progress_example = run_turn-Progress (λ bytes. bytes) first_turn fresh fresh-IsRunning

start-Runs_example :
    (d' : Daemon) × (es : List Effect) × (run_turn (λ bytes. bytes) first_turn fresh
      ≡ done (d', es))
    × Runs (λ bytes. bytes) 0 fresh 5_000_000 d'
    × ((5_000_000 < fresh.sched.next_psf) ⊎ (0 < sends es))
    × All IsWhole es
    × IsScheduled 5_000_000 d'.sched
    × (sleep_for fresh.sched 0 ≤ from_secs 1)
start-Runs_example =
    start-Runs (λ bytes. bytes) 6 mac 3 none (some 9) 0 0 fresh (set_channel 3 6 ∷ []) refl tt
      fresh_starts 0 fresh started 0 first_turn (omega arith) first_sleep

next_tx_keeps_awake_example : sleep_for fresh.sched 4_000_000 ≡ from_millis 1
next_tx_keeps_awake_example =
    next_tx_keeps_awake (λ bytes. bytes) 6 mac 3 none (some 9) 0 0 fresh (set_channel 3 6 ∷ []) refl
      tt fresh_starts 0 fresh started 4_000_000 (omega arith)

abbrev some_bytes : List ℕ
some_bytes = replicate 300 0

fresh_frame : action_frame_size fresh.ctx.awdl new_ieee80211 AwdlActionType.mif ≤ length some_bytes
unfolding action_frame_size mif_size fcs_size chan_bytes awdl_chan_encoding_length_enc fresh
    new_daemon State.new host_name Channel.new
fresh_frame = omega arith

action_frame-Fits_example :
    (buf' : List ℕ) × ((awdl_init_full_action_frame 7 8 some_bytes fresh.ctx.awdl new_ieee80211
        AwdlActionType.mif).1
      ≡ ok (buf', action_frame_size fresh.ctx.awdl new_ieee80211 AwdlActionType.mif))
    × (length buf' ≡ length some_bytes)
action_frame-Fits_example =
    action_frame-Fits 7 8 some_bytes fresh.ctx.awdl new_ieee80211 AwdlActionType.mif
      fresh-IsRunning.healthy.framed fresh_frame

abbrev other : EtherAddr
other = 2 ∷ 0 ∷ 0 ∷ 0 ∷ 0 ∷ 2 ∷ []

-- The same two peers in both orders.
one_way : AwdlPeerState
one_way = record {
  peers = (mac, new_peer mac) ∷ (other, new_peer other) ∷ [];
  timeout = 5;
  clean_interval = 5;
}

other_way : AwdlPeerState
other_way = record {
  peers = (other, new_peer other) ∷ (mac, new_peer mac) ∷ [];
  timeout = 5;
  clean_interval = 5;
}

one_way-IsWellKeyed : IsWellKeyed one_way
unfolding one_way Table.contains_key bytes_eq
one_way-IsWellKeyed = record {
  once = (refl, (refl, tt));
  home = (new_peer-IsAt mac refl, (new_peer-IsAt other refl, tt));
}

other_way-IsWellKeyed : IsWellKeyed other_way
unfolding other_way Table.contains_key bytes_eq
other_way-IsWellKeyed = record {
  once = (refl, (refl, tt));
  home = (new_peer-IsAt other refl, (new_peer-IsAt mac refl, tt));
}

same_peers : (j : EtherAddr) → peer_get one_way j ≡ peer_get other_way j
unfolding one_way other_way peer_get Table.get
same_peers j = ground (arith, bytes_eq_iff mac j, bytes_eq_iff other j, apart)
  where
    apart : mac ≢ other
    apart e = cc

with_peers : AwdlPeerState → AwdlState
with_peers p = record (fresh.ctx.awdl) { peers = p }

run_election_tables_example :
    (run_election (with_peers one_way)).election ≡ (run_election (with_peers other_way)).election
unfolding with_peers
run_election_tables_example =
    run_election_tables (with_peers one_way) (with_peers other_way) refl
      fresh-IsRunning.healthy.elects one_way-IsWellKeyed other_way-IsWellKeyed same_peers

-- Two daemons one window after the start.
fresh_due : fresh.sched.next_chan ≤ 10_000_000
unfolding fresh new_daemon Schedule.new
fresh_due = omega arith

window_at_70 : awdl_sync_current_eaw 70_000 fresh.ctx.awdl.sync ≡ some 1
unfolding awdl_sync_current_eaw awdl_sync_current_aw ieee80211_usec_to_tu div rem fresh new_daemon
    State.new
window_at_70 = refl

window_at_71 : awdl_sync_current_eaw 71_000 fresh.ctx.awdl.sync ≡ some 1
unfolding awdl_sync_current_eaw awdl_sync_current_aw ieee80211_usec_to_tu div rem fresh new_daemon
    State.new
window_at_71 = refl

fresh_slot : get_elem? fresh.ctx.awdl.channel.sequence (1 % 16) ≡ some chan_opclass_6
unfolding fresh new_daemon State.new Channel.new awdl_chanseq_init_static init_from
fresh_slot = refl

fresh_used : awdl_chan_num chan_opclass_6 fresh.ctx.awdl.channel.enc ≢ 0
unfolding fresh new_daemon State.new Channel.new awdl_chan_num chan_num_for_enc chan_num_opclass
fresh_used = λ e. omega arith

switch_channel_meets_example :
    (d1' d2' : Daemon) × (es1 es2 : List Effect) × (switch_channel 10_000_000 70_000 fresh
      ≡ done (d1', es1))
    × (switch_channel 10_000_000 71_000 fresh ≡ done (d2', es2))
    × (channel_number d1' ≡ awdl_chan_num chan_opclass_6 fresh.ctx.awdl.channel.enc)
    × (channel_number d2' ≡ awdl_chan_num chan_opclass_6 fresh.ctx.awdl.channel.enc)
    × (tuned fresh.ctx.ifindex (channel_number fresh) es1
        ≡ awdl_chan_num chan_opclass_6 fresh.ctx.awdl.channel.enc)
    × (tuned fresh.ctx.ifindex (channel_number fresh) es2
        ≡ awdl_chan_num chan_opclass_6 fresh.ctx.awdl.channel.enc)
switch_channel_meets_example =
    switch_channel_meets 10_000_000 70_000 10_000_000 71_000 1 fresh fresh chan_opclass_6 fresh_due
      fresh_due window_at_70 window_at_71 refl refl fresh_slot fresh_used
