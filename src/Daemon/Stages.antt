-- ===== src/Daemon/Stages.antt =====
-- Each part of the loop in src/awdl/mod.rs returns, keeps the daemon running, and sets its timer to
-- a time in the future.
use cosmicdrop.Base.{
  ℕ, ◌+◌, ◌/◌, ◌%◌, ◌≡◌, inl, inr, refl, arith, Bool, true, false, Bool-cases, [], ◌∷◌, leb, some,
  get_or, get_elem?-eq-get_or, u16, if◌then◌else◌,
}
use cosmicdrop.Channel.{awdl_chan_num, chan_null}
use cosmicdrop.Daemon.{Daemon, set_channel, Outcome}
use cosmicdrop.Daemon.Schedule.{Scheduler, from_millis}
use cosmicdrop.Daemon.Tasks.{switch_channel, set_current, clean_peers, hold_election}
use cosmicdrop.Daemon.Health.{run_election-IsHealthy, remove_stale-IsHealthy, current-IsHealthy}
use cosmicdrop.Daemon.Invariant.{
  IsRunning, sends, writes, IsWhole, KeepsTimers, KeepsTimers-refl, Goes, Fires, quiet,
}
use cosmicdrop.Rx.{done}
use cosmicdrop.State.{AwdlState}
use cosmicdrop.Sync.{awdl_sync_current_eaw}
use cosmicdrop.Sync.Timing.{IsTimed, current_aw_value, div_lem, elapsed_tu}

-- A part that is not due.
pub idle : {now : ℕ} {d : Daemon} → IsRunning d → Goes now d (done (d, []))
unfolding sends
idle {now} {d} r = record {
  after = d;
  effects = [];
  returns = refl;
  progress = record {
    running = r;
    timers = KeepsTimers-refl;
    counted = omega (arith, r.tx_counts);
    forwarded = λ fd e. unfold writes in omega (arith, r.rx_counts);
    whole = tt;
    same_tap = refl;
    beacon = inl refl;
  };
}

pub not_due :
    {now : ℕ} {d : Daemon} {timer : Scheduler → ℕ}
    → IsRunning d
    → leb (timer d.sched) now ≡ false
    → Fires now d timer (done (d, []))
not_due r h = record { goes = idle r; future = ground arith }

pub if-Fires :
    {now : ℕ} {d : Daemon} {timer : Scheduler → ℕ} (b : Bool) {x y : Outcome}
    → Fires now d timer x
    → Fires now d timer y
    → Fires now d timer (if b then x else y)
if-Fires true hx hy = hx
if-Fires false hx hy = hy

eaw_total :
    (now_us : ℕ) (s : AwdlState)
    → IsTimed s.sync
    → (eaw : ℕ) × (awdl_sync_current_eaw now_us s.sync ≡ some eaw)
unfolding awdl_sync_current_eaw
eaw_total now_us s h = (
  u16 (s.sync.aw_counter + elapsed_tu now_us s.sync / s.sync.aw_period) / s.sync.presence_mode,
  rw (current_aw_value now_us s.sync h) (
      div_lem (u16 (s.sync.aw_counter + elapsed_tu now_us s.sync / s.sync.aw_period))
        s.sync.presence_mode h.mode_pos),
)

module _ {d : Daemon} (now : ℕ) (r : IsRunning d) where
  future_chan : KeepsTimers now d.sched (record (d.sched) { next_chan = now + from_millis 10 })
  future_chan = record {
    psf = inl refl;
    mif = inl refl;
    chan = inr (omega arith);
    peer = inl refl;
    election = inl refl;
    tx = refl;
  }

  pub switch_channel-Fires :
      (now_us : ℕ) → Fires now d (λ s. s.next_chan) (switch_channel now now_us d)
  unfolding switch_channel set_current
  switch_channel-Fires now_us = elim (Bool-cases (leb d.sched.next_chan now)) [
    | inr idle_now ↦ rw (idle_now, switch_channel) (not_due r idle_now)
    | inl due ↦
        let (eaw, e) = eaw_total now_us d.ctx.awdl r.healthy.framed.timed in
        let slot =
          get_elem?-eq-get_or d.ctx.awdl.channel.sequence (eaw % 16) chan_null
            (omega (arith, r.healthy.framed.channels)) in
        let chan = get_or d.ctx.awdl.channel.sequence (eaw % 16) chan_null in
        rw (due, switch_channel, e, slot)
          (if-Fires _
            (record {
              goes = record {
                after = _;
                effects =
                    set_channel d.ctx.ifindex (awdl_chan_num chan d.ctx.awdl.channel.enc) ∷ [];
                returns = refl;
                progress = record {
                  running = record {
                    healthy = current-IsHealthy chan _ r.healthy;
                    tx_counts = r.tx_counts;
                    rx_counts = r.rx_counts;
                  };
                  timers = future_chan;
                  counted = unfold sends in omega (arith, r.tx_counts);
                  forwarded = λ fd e. unfold writes in omega (arith, r.rx_counts);
                  whole = unfold IsWhole in (tt, tt);
                  same_tap = refl;
                  beacon = inl refl;
                };
              };
              future = omega arith;
            })
            (record {
              goes = record {
                after = _;
                effects = [];
                returns = refl;
                progress = quiet d.ctx.awdl _ r r.healthy future_chan refl;
              };
              future = omega arith;
            }))
  ]

  pub clean_peers-Fires : (now_us : ℕ) → Fires now d (λ s. s.next_peer) (clean_peers now now_us d)
  unfolding clean_peers
  clean_peers-Fires now_us = elim (Bool-cases (leb d.sched.next_peer now)) [
    | inr idle_now ↦ rw (idle_now, clean_peers) (not_due r idle_now)
    | inl due ↦
        rw (due, clean_peers)
          (record {
            goes = record {
              after = _;
              effects = [];
              returns = refl;
              progress =
                  quiet _ _ r (run_election-IsHealthy _ (remove_stale-IsHealthy now_us _ r.healthy))
                    (record {
                      psf = inl refl;
                      mif = inl refl;
                      chan = inl refl;
                      peer = inr (omega (arith, r.healthy.clean_pos));
                      election = inl refl;
                      tx = refl;
                    })
                    refl;
            };
            future = omega (arith, r.healthy.clean_pos);
          })
  ]

  pub hold_election-Fires : Fires now d (λ s. s.next_election) (hold_election now d)
  unfolding hold_election
  hold_election-Fires = elim (Bool-cases (leb d.sched.next_election now)) [
    | inr idle_now ↦ rw (idle_now, hold_election) (not_due r idle_now)
    | inl due ↦
        rw (due, hold_election)
          (record {
            goes = record {
              after = _;
              effects = [];
              returns = refl;
              progress =
                  quiet _ _ r (run_election-IsHealthy _ r.healthy)
                    (record {
                      psf = inl refl;
                      mif = inl refl;
                      chan = inl refl;
                      peer = inl refl;
                      election = inr (omega arith);
                      tx = refl;
                    })
                    refl;
            };
            future = omega (arith, r.healthy.clean_pos);
          })
  ]
