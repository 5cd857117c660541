-- ===== src/Daemon/Sending.antt =====
-- The daemon of src/awdl/mod.rs sends whole action frames, when they are due.
use cosmicdrop.Base.{
  ℕ, ◌+◌, ◌-◌, ◌/◌, ◌%◌, ◌^◌, ◌≤◌, ◌<◌, max, ◌==◌, ◌≡◌, inl, inr, refl, arith, Bool, true, false,
  Bool-cases, List, [], ◌∷◌, length, ltb, leb, some, u64, wrapping_sub, take, length-take,
}
use cosmicdrop.Channel.{awdl_chan_num}
use cosmicdrop.Daemon.{DaemonContext, Daemon, Effect, wlan_send}
use cosmicdrop.Daemon.Schedule.{Scheduler, from_micros}
use cosmicdrop.Daemon.Tasks.{
  send_action, send_psf, send_mif, mif_delay, AwdlActionTypeUnit, psf, mif, action_type_of,
  count_tx_action,
}
use cosmicdrop.Daemon.Stages.{not_due, if-Fires}
use cosmicdrop.Daemon.Invariant.{
  IsHealthy, IsRunning, sends, writes, IsWhole, KeepsTimers, Progress, Fires, quiet,
}
use cosmicdrop.Frame.{AwdlActionType}
use cosmicdrop.Rx.{Run, done, ◌>>=◌}
use cosmicdrop.State.{AwdlState, Ieee80211State}
use cosmicdrop.Sync.{AwdlSyncState, awdl_sync_next_aw_us, ieee80211_tu_to_usec}
use cosmicdrop.Sync.Timing.{IsTimed, eaw_period, eaw_pos, rem_lem}
use cosmicdrop.Tx.Frames.{awdl_init_full_action_frame}
use cosmicdrop.Tx.Size.Frame.{action_frame-Fits, action_frame_size, mif_size, fcs_size}
use cosmicdrop.Tx.Size.Tlv.{chan_bytes, length_enc_small}
use cosmicdrop.Wire.RoundTrip.{length-zeroed, slice_front}
use cosmicdrop.Wire.{zeroed}

mif_size_le : (t : AwdlActionType) (s : AwdlState) → length s.name ≤ 1000 → mif_size t s ≤ 1018
unfolding mif_size
mif_size_le AwdlActionType.psf s h = omega arith
mif_size_le AwdlActionType.mif s h = omega arith

fcs_size_le : (b : Bool) → fcs_size b ≤ 4
unfolding fcs_size
fcs_size_le true = omega arith
fcs_size_le false = omega arith

-- An action frame is never empty, and fits one Ethernet frame.
size_bounds :
    (s : AwdlState) (ieee : Ieee80211State) (t : AwdlActionType)
    → IsHealthy s
    → (207 ≤ action_frame_size s ieee t) × (action_frame_size s ieee t ≤ 1293)
unfolding action_frame_size chan_bytes
size_bounds s ieee t h =
    let small = length_enc_small s.channel.enc in
    let more = mif_size_le t s h.named in
    let sum = fcs_size_le ieee.fcs in (omega arith, omega arith)

-- What a call of `send_action` returns: it sends one whole frame, and of the context only the
-- sequence number of the header changes.
pub record Sends (ctx : DaemonContext) (t : AwdlActionType)
    (run : Run (DaemonContext × List Effect)) : Type 0 where
  pub sent : List ℕ
  pub ieee : Ieee80211State
  pub returns : run ≡ done (record ctx { ieee80211 = ieee }, wlan_send sent ∷ [])
  pub size : length sent ≡ action_frame_size ctx.awdl ctx.ieee80211 t

pub send_action-Sends :
    (now_us later : ℕ) (t : AwdlActionTypeUnit) (ctx : DaemonContext)
    → IsHealthy ctx.awdl
    → Sends ctx (action_type_of t) (send_action now_us later t ctx)
unfolding send_action
send_action-Sends now_us later t ctx h =
    let (low, high) = size_bounds ctx.awdl ctx.ieee80211 (action_type_of t) h in
    let n = action_frame_size ctx.awdl ctx.ieee80211 (action_type_of t) in
    let zeros = length-zeroed 65535 in
    let (frame, built, same) =
      action_frame-Fits now_us later (zeroed 65535) ctx.awdl ctx.ieee80211 (action_type_of t)
        h.framed (omega arith) in
    let some_bytes : (n == 0) ≡ false = ground arith in
    let front = slice_front frame n (omega arith) in
    record {
      sent = take n frame;
      ieee =
          (awdl_init_full_action_frame now_us later (zeroed 65535) ctx.awdl ctx.ieee80211
            (action_type_of t)).0;
      returns = rw (built, some_bytes, front) refl;
      size = omega (arith, length-take n frame);
    }

-- The progress of a part that has sent one frame, under a schedule with a later timer.
sent-Progress :
    {now : ℕ} {d : Daemon} {t : AwdlActionType} {run : Run (DaemonContext × List Effect)}
    (sched : Scheduler) (x : Sends d.ctx t run)
    → IsRunning d
    → KeepsTimers now d.sched sched
    → Progress now d
        (record {
          ctx = record (d.ctx) { ieee80211 = x.ieee };
          sched = sched;
          stats = count_tx_action d.stats;
        })
        (wlan_send x.sent ∷ [])
unfolding sends writes IsWhole count_tx_action
sent-Progress {now} {d} {t} {run} sched x r k =
    let (low, high) = size_bounds d.ctx.awdl d.ctx.ieee80211 t r.healthy in
    record {
      running = record { healthy = r.healthy; tx_counts = omega arith; rx_counts = r.rx_counts };
      timers = k;
      counted = omega arith;
      forwarded = λ fd e. omega (arith, r.rx_counts);
      whole = ((omega (arith, x.size), omega (arith, x.size)), tt);
      same_tap = refl;
      beacon = inr (omega arith);
    }

-- A positive number of TU that fits 53 bits is a positive number of microseconds.
tu_to_usec_pos : (tu : ℕ) → 0 < tu → tu < 2 ^ 16 → 0 < ieee80211_tu_to_usec tu
unfolding ieee80211_tu_to_usec
tu_to_usec_pos tu h k = omega arith

next_aw_us_total :
    (now_us : ℕ) (s : AwdlSyncState)
    → IsTimed s
    → (us : ℕ) × (awdl_sync_next_aw_us now_us s ≡ some us)
unfolding awdl_sync_next_aw_us
next_aw_us_total now_us s h =
    let p = eaw_pos s h in
    let period = ieee80211_tu_to_usec (eaw_period s) in
    let q = tu_to_usec_pos (eaw_period s) p h.fits in
    (
      period - wrapping_sub now_us s.last_update % period,
      rw (rem_lem (wrapping_sub now_us s.last_update) period q) refl,
    )

mif_delay_total :
    (sync_us : ℕ) (s : AwdlState) → IsTimed s.sync → (us : ℕ) × (mif_delay sync_us s ≡ some us)
unfolding mif_delay
mif_delay_total sync_us s h =
    let (next_aw, e) = next_aw_us_total sync_us s.sync h in
    (u64 (next_aw + ieee80211_tu_to_usec (eaw_period s.sync / 2)), rw (e, mif_delay) refl)

module _ {d : Daemon} (now : ℕ) (r : IsRunning d) where
  pub send_psf-Fires :
      (now_us later : ℕ) → Fires now d (λ s. s.next_psf) (send_psf now now_us later d)
  unfolding send_psf
  send_psf-Fires now_us later = elim (Bool-cases (leb d.sched.next_psf now)) [
    | inr idle_now ↦ rw (idle_now, send_psf) (not_due r idle_now)
    | inl due ↦
        let x = send_action-Sends now_us later psf d.ctx r.healthy in
        let wait = tu_to_usec_pos d.ctx.awdl.psf_interval r.healthy.psf_pos r.healthy.psf_fits in
        rw (due, send_psf, x.returns)
          (record {
            goes = record {
              after = _;
              effects = _;
              returns = refl;
              progress = sent-Progress _ x r (record {
                psf = inr (omega arith);
                mif = inl refl;
                chan = inl refl;
                peer = inl refl;
                election = inl refl;
                tx = refl;
              });
            };
            future = omega arith;
          })
  ]

  pub send_mif-Fires :
      (sync_us now_us later : ℕ)
      → Fires now d (λ s. s.next_mif) (send_mif now sync_us now_us later d)
  unfolding send_mif
  send_mif-Fires sync_us now_us later = elim (Bool-cases (leb d.sched.next_mif now)) [
    | inr idle_now ↦ rw (idle_now, send_mif) (not_due r idle_now)
    | inl due ↦
        let (in_us, e) = mif_delay_total sync_us d.ctx.awdl r.healthy.framed.timed in
        let x = send_action-Sends now_us later mif d.ctx r.healthy in
        let future : KeepsTimers now d.sched
            (record (d.sched) { next_mif = now + from_micros (max in_us 1) }) =
          record {
            psf = inl refl;
            mif = inr (omega arith);
            chan = inl refl;
            peer = inl refl;
            election = inl refl;
            tx = refl;
          } in
        rw (due, send_mif, e)
          (if-Fires (ltb 0 (awdl_chan_num d.ctx.awdl.channel.current d.ctx.awdl.channel.enc))
            {x = do
              (ctx, sent) ← send_action now_us later mif d.ctx
              done (
                record {
                  ctx = ctx;
                  sched = record (d.sched) { next_mif = now + from_micros (max in_us 1) };
                  stats = count_tx_action d.stats;
                },
                sent,
              )}
            (rw x.returns (record {
              goes = record {
                after = _;
                effects = _;
                returns = refl;
                progress = sent-Progress _ x r future;
              };
              future = omega arith;
            }))
            (record {
              goes = record {
                after = _;
                effects = [];
                returns = refl;
                progress = quiet d.ctx.awdl _ r r.healthy future refl;
              };
              future = omega arith;
            }))
  ]
