-- ===== src/Daemon/Whole.antt =====
-- A turn of the loop in src/awdl/mod.rs returns, and the daemon runs on.
use cosmicdrop.Base.{
  ℕ, zero, suc, ◌+◌, ◌^◌, ◌<◌, ◌≡◌, inl, refl, arith, Bool, true, false, List, [], All, Option,
  none, some, u64, if◌then◌else◌,
}
use cosmicdrop.Base.Int.{pos, ltb_ℤ}
use cosmicdrop.Daemon.Schedule.{Scheduler}
use cosmicdrop.Daemon.{AwdlStatsSnapshot, Daemon, Effect, then_do}
use cosmicdrop.Daemon.Loop.{
  WlanRecv, failed, nothing, frame, count_rx, forward, receive, read_frames, read_wlan_frames, Turn,
  run_turn,
}
use cosmicdrop.Daemon.Stages.{idle, switch_channel-Fires, clean_peers-Fires, hold_election-Fires}
use cosmicdrop.Daemon.Sending.{send_psf-Fires, send_mif-Fires}
use cosmicdrop.Daemon.Health.{next-IsHealthy}
use cosmicdrop.Daemon.Invariant.{
  IsRunning, sends, writes, IsWhole, KeepsTimers-refl, Progress, Goes, Kept_future, Progress-trans,
  then_do-Goes,
}
use cosmicdrop.Rx.{done, RxResult, discriminant}
use cosmicdrop.Rx.Safety.Whole.{awdl_rx_frame-IsSafe}

-- What the counters of reception do.
record Counts (stats stats' : AwdlStatsSnapshot) (eth : Option (List ℕ)) : Type 0 where
  same_tx : stats'.tx_action ≡ stats.tx_action
  bound : stats'.rx_data < 2 ^ 64
  in_step : (fd : ℕ) → stats'.rx_data ≡ u64 (stats.rx_data + writes (forward (some fd) eth))

count_rx-Counts :
    (result : RxResult) (eth : Option (List ℕ)) (stats : AwdlStatsSnapshot)
    → stats.rx_data < 2 ^ 64
    → Counts stats (count_rx result eth stats) eth
unfolding count_rx forward writes
count_rx-Counts result none stats h = either (ltb_ℤ (discriminant result) (pos 0))
  where
    either :
        (b : Bool)
        → Counts stats
            (if b then record stats { rx_unknown = u64 (stats.rx_unknown + 1) } else stats)
            none
    either true = record { same_tx = refl; bound = h; in_step = λ fd. omega arith }
    either false = record { same_tx = refl; bound = h; in_step = λ fd. omega arith }
count_rx-Counts result (some f) stats h = either (ltb_ℤ (discriminant result) (pos 0))
  where
    stats1 : AwdlStatsSnapshot
    stats1 = record stats { rx_data = u64 (stats.rx_data + 1) }

    either :
        (b : Bool)
        → Counts stats
            (if b then record stats1 { rx_unknown = u64 (stats1.rx_unknown + 1) } else stats1)
            (some f)
    either true = record { same_tx = refl; bound = omega arith; in_step = λ fd. omega arith }
    either false = record { same_tx = refl; bound = omega arith; in_step = λ fd. omega arith }

sends-forward : (tap_fd : Option ℕ) (eth : Option (List ℕ)) → sends (forward tap_fd eth) ≡ 0
unfolding sends forward
sends-forward tap_fd none = refl
sends-forward none (some f) = refl
sends-forward (some fd) (some f) = refl

forward-IsWhole : (tap_fd : Option ℕ) (eth : Option (List ℕ)) → All IsWhole (forward tap_fd eth)
unfolding IsWhole forward
forward-IsWhole tap_fd none = tt
forward-IsWhole none (some f) = tt
forward-IsWhole (some fd) (some f) = (tt, tt)

module _ (from_utf8_lossy : List ℕ → List ℕ) (now : ℕ) where
  receive-Goes :
      (bytes : List ℕ) (tsft : ℕ) (d : Daemon)
      → IsRunning d
      → Goes now d (receive from_utf8_lossy bytes tsft d)
  unfolding receive
  receive-Goes bytes tsft d r =
      let ((result, eth), awdl, e, n) =
        awdl_rx_frame-IsSafe from_utf8_lossy tsft bytes d.ctx.awdl r.healthy.valid in
      let counts = count_rx-Counts result eth d.stats r.rx_counts in
      rw e (record {
        after = _;
        effects = _;
        returns = refl;
        progress = record {
          running = record {
            healthy = next-IsHealthy n r.healthy;
            tx_counts = omega (arith, counts.same_tx, r.tx_counts);
            rx_counts = counts.bound;
          };
          timers = KeepsTimers-refl;
          counted = omega (arith, counts.same_tx, r.tx_counts, sends-forward d.ctx.tap_fd eth);
          forwarded = λ fd known. rw known (counts.in_step fd);
          whole = forward-IsWhole d.ctx.tap_fd eth;
          same_tap = refl;
          beacon = inl refl;
        };
      })

  read_frames-Goes :
      (n i : ℕ) (recv : ℕ → WlanRecv) (d : Daemon)
      → IsRunning d
      → Goes now d (read_frames from_utf8_lossy n i recv d)
  unfolding read_frames
  read_frames-Goes zero i recv d r = idle r
  read_frames-Goes (suc n) i recv d r = answer (recv i) (read_frames-Goes n (i + 1) recv)
    where
      answer :
          (x : WlanRecv)
          → ((d' : Daemon)
              → IsRunning d'
              → Goes now d' (read_frames from_utf8_lossy n (i + 1) recv d'))
          → Goes now d (elim x [
            | failed ↦ done (d, [])
            | nothing ↦ done (d, [])
            | frame bytes tsft ↦
                then_do
                  (receive from_utf8_lossy bytes tsft d)
                  (read_frames from_utf8_lossy n (i + 1) recv)
          ])
      answer failed rest = idle r
      answer nothing rest = idle r
      answer (frame bytes tsft) rest =
          let first = receive-Goes bytes tsft d r in
          then_do-Goes _ _ first (rest first.after first.progress.running)

  read_wlan_frames-Goes :
      (recv : ℕ → WlanRecv) (d : Daemon)
      → IsRunning d
      → Goes now d (read_wlan_frames from_utf8_lossy recv d)
  unfolding read_wlan_frames
  read_wlan_frames-Goes recv d r = read_frames-Goes 64 0 recv d r

-- The timers of the loop, but for `next_tx`, lie in the future.
pub record IsScheduled (now : ℕ) (s : Scheduler) : Type 0 where
  pub psf : now < s.next_psf
  pub mif : now < s.next_mif
  pub chan : now < s.next_chan
  pub peer : now < s.next_peer
  pub election : now < s.next_election

-- A turn of the loop of a daemon that runs always returns, whatever the clocks say and whatever
-- arrives: no part of it panics or loops. The daemon that it leaves runs again. Every timer but
-- `next_tx` lies in the future then, and `next_tx` is as it was. The counter of sent action frames
-- has gone up by the frames sent in this turn, and, with a virtual interface, the counter of
-- received data by the frames written to it, modulo 2^64. Every frame sent is between 207 and 1293
-- bytes long.
pub run_turn-Progress :
    (from_utf8_lossy : List ℕ → List ℕ) (t : Turn) (d : Daemon)
    → IsRunning d
    → (d' : Daemon) × (es : List Effect) × (run_turn from_utf8_lossy t d ≡ done (d', es))
      × Progress t.now d d' es
      × IsScheduled t.now d'.sched
unfolding run_turn
run_turn-Progress from_utf8_lossy t d r =
    let s1 = switch_channel-Fires t.now r t.chan_us in
    let g1 = s1.goes in
    let s2 = clean_peers-Fires t.now g1.progress.running t.peer_us in
    let g2 = s2.goes in
    let s3 = hold_election-Fires t.now g2.progress.running in
    let g3 = s3.goes in
    let s4 = send_psf-Fires t.now g3.progress.running t.psf_us t.psf_later in
    let g4 = s4.goes in
    let s5 = send_mif-Fires t.now g4.progress.running t.sync_us t.mif_us t.mif_later in
    let g5 = s5.goes in
    let g6 = read_wlan_frames-Goes from_utf8_lossy t.now t.recv g5.after g5.progress.running in
    let progress = Progress-trans g1.progress (
      Progress-trans g2.progress (
        Progress-trans g3.progress
          (Progress-trans g4.progress (Progress-trans g5.progress g6.progress)))) in
    (
      g6.after,
      _,
      rw (g1.returns, g2.returns, g3.returns, g4.returns, g5.returns, g6.returns) refl,
      progress,
      record {
        psf = Kept_future (Kept_future s4.future g5.progress.timers.psf) g6.progress.timers.psf;
        mif = Kept_future s5.future g6.progress.timers.mif;
        chan =
            Kept_future
              (Kept_future
                (Kept_future
                  (Kept_future (Kept_future s1.future g2.progress.timers.chan)
                    g3.progress.timers.chan)
                  g4.progress.timers.chan)
                g5.progress.timers.chan)
              g6.progress.timers.chan;
        peer =
            Kept_future
              (Kept_future
                (Kept_future (Kept_future s2.future g3.progress.timers.peer)
                  g4.progress.timers.peer)
                g5.progress.timers.peer)
              g6.progress.timers.peer;
        election =
            Kept_future
              (Kept_future (Kept_future s3.future g4.progress.timers.election)
                g5.progress.timers.election)
              g6.progress.timers.election;
      },
    )
