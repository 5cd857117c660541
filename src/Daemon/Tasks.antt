-- ===== src/Daemon/Tasks.antt =====
-- The periodic tasks of `run_daemon_loop` in src/awdl/mod.rs: each is due by its timer, sets it
-- anew, and works on the state of the node.
use cosmicdrop.Base.{
  ℕ, ◌+◌, ◌-◌, ◌*◌, ◌/◌, ◌%◌, max, ltb, leb, ◌==◌, ◌&&◌, not, if◌then◌else◌, Option, none, some,
  List, [], ◌∷◌, get_elem?, u64,
}
use cosmicdrop.Channel.{AwdlChan, awdl_chan_num, awdl_chanseq_length}
use cosmicdrop.Daemon.Schedule.{from_micros, from_millis}
use cosmicdrop.Election.{awdl_election_run}
use cosmicdrop.Frame.{AwdlActionType}
use cosmicdrop.Peers.{peers_remove_before, peers_iter}
use cosmicdrop.Rx.{Run, done, fault, match_read, ◌>>=◌}
use cosmicdrop.State.{AwdlState}
use cosmicdrop.Sync.{ieee80211_tu_to_usec, awdl_sync_current_eaw, awdl_sync_next_aw_us}
use cosmicdrop.Tx.Frames.{awdl_init_full_action_frame}
use cosmicdrop.Wire.{zeroed, slice}
use cosmicdrop.Daemon.{
  AwdlStatsSnapshot, DaemonContext, Effect, set_channel, wlan_send, Daemon, Outcome,
}

unfoldable pub set_current : AwdlChan → DaemonContext → DaemonContext
set_current chan ctx = record ctx {
  awdl = record (ctx.awdl) { channel = record (ctx.awdl.channel) { current = chan } };
}

-- Channel switching: the slot of the extended window at the time `now_us`.
unfoldable pub switch_channel : ℕ → ℕ → Daemon → Outcome
unfolding set_current
switch_channel now now_us d =
    if leb d.sched.next_chan now
    then (let sched = record (d.sched) { next_chan = now + from_millis 10 } in
        let channel = d.ctx.awdl.channel in
        elim (awdl_sync_current_eaw now_us d.ctx.awdl.sync) [
          | none ↦ fault
          | some eaw ↦ elim (get_elem? channel.sequence (eaw % awdl_chanseq_length)) [
            | none ↦ fault
            | some chan ↦
                let chan_new_num = awdl_chan_num chan channel.enc in
                let chan_old_num = awdl_chan_num channel.current channel.enc in
                if not (chan_new_num == 0) && not (chan_new_num == chan_old_num)
                then done (
                  record d { sched = sched; ctx = set_current chan d.ctx },
                  set_channel d.ctx.ifindex chan_new_num ∷ [],
                )
                else done (record d { sched = sched }, [])
          ]
        ])
    else done (d, [])

-- The election among the peers of the table.
unfoldable pub run_election : AwdlState → AwdlState
run_election awdl = record awdl {
  election = awdl_election_run awdl.election (peers_iter awdl.peers);
}

unfoldable pub remove_stale : ℕ → AwdlState → AwdlState
remove_stale now_us awdl =
    let cutoff = now_us - awdl.peers.timeout in
    record awdl { peers = (peers_remove_before awdl.peers cutoff).0 }

-- Peer table cleanup and election.
unfoldable pub clean_peers : ℕ → ℕ → Daemon → Outcome
unfolding run_election remove_stale
clean_peers now now_us d =
    if leb d.sched.next_peer now
    then (let sched = record (d.sched) {
      next_peer = now + from_micros d.ctx.awdl.peers.clean_interval;
    } in
        done (
          record d {
            sched = sched;
            ctx = record (d.ctx) { awdl = run_election (remove_stale now_us d.ctx.awdl) };
          },
          [],
        ))
    else done (d, [])

-- The election timer.
unfoldable pub hold_election : ℕ → Daemon → Outcome
unfolding run_election
hold_election now d =
    if leb d.sched.next_election now
    then done (
      record d {
        sched = record (d.sched) { next_election = now + from_millis 500 };
        ctx = record (d.ctx) { awdl = run_election d.ctx.awdl };
      },
      [],
    )
    else done (d, [])

pub data AwdlActionTypeUnit : Type 0 where
  psf mif : AwdlActionTypeUnit

unfoldable pub action_type_of : AwdlActionTypeUnit → AwdlActionType
action_type_of psf = AwdlActionType.psf
action_type_of mif = AwdlActionType.mif

-- `later` is the second reading of the clock.
unfoldable pub send_action :
    ℕ → ℕ → AwdlActionTypeUnit → DaemonContext → Run (DaemonContext × List Effect)
unfolding action_type_of zeroed
send_action now_us later action_type ctx =
    let (ieee80211', built) =
      awdl_init_full_action_frame now_us later (zeroed 65535) ctx.awdl ctx.ieee80211
        (action_type_of action_type) in
    let ctx' = record ctx { ieee80211 = ieee80211' } in
    match_read built fault λ (frame, len).
      if len == 0
      then done (ctx', [])
      else match_read (slice frame 0 len) fault λ sent. done (ctx', wlan_send sent ∷ [])

unfoldable pub count_tx_action : AwdlStatsSnapshot → AwdlStatsSnapshot
count_tx_action stats = record stats { tx_action = u64 (stats.tx_action + 1) }

unfoldable pub send_psf : ℕ → ℕ → ℕ → Daemon → Outcome
unfolding ieee80211_tu_to_usec count_tx_action
send_psf now now_us later d =
    if leb d.sched.next_psf now
    then (let psf_interval = ieee80211_tu_to_usec d.ctx.awdl.psf_interval in
        let sched = record (d.sched) { next_psf = now + from_micros psf_interval } in
        do
          (ctx, sent) ← send_action now_us later psf d.ctx
          done (record { ctx = ctx; sched = sched; stats = count_tx_action d.stats }, sent))
    else done (d, [])

-- The sum wraps in a release build. `sync_us` is the reading of the clock for the schedule.
unfoldable pub mif_delay : ℕ → AwdlState → Option ℕ
unfolding ieee80211_tu_to_usec
mif_delay sync_us awdl = elim (awdl_sync_next_aw_us sync_us awdl.sync) [
  | none ↦ none
  | some next_aw ↦
      let eaw_len = awdl.sync.presence_mode * awdl.sync.aw_period in
      some (u64 (next_aw + ieee80211_tu_to_usec (eaw_len / 2)))
]

-- A MIF goes out only on a channel.
unfoldable pub send_mif : ℕ → ℕ → ℕ → ℕ → Daemon → Outcome
unfolding count_tx_action mif_delay
send_mif now sync_us now_us later d =
    if leb d.sched.next_mif now
    then elim (mif_delay sync_us d.ctx.awdl) [
      | none ↦ fault
      | some in_us ↦
          let sched = record (d.sched) { next_mif = now + from_micros (max in_us 1) } in
          let current_chan = awdl_chan_num d.ctx.awdl.channel.current d.ctx.awdl.channel.enc in
          if ltb 0 current_chan
          then (do
            (ctx, sent) ← send_action now_us later mif d.ctx
            done (record { ctx = ctx; sched = sched; stats = count_tx_action d.stats }, sent))
          else done (record d { sched = sched }, [])
    ]
    else done (d, [])
