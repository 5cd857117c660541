-- ===== src/Daemon/Loop.antt =====
-- Reception and the loop of `run_daemon_loop` in src/awdl/mod.rs.
use cosmicdrop.Base.{
  ℕ, zero, suc, ◌+◌, ◌≤◌, ◌≡◌, min, if◌then◌else◌, Option, none, some, List, [], ◌∷◌, u64,
}
use cosmicdrop.Base.Int.{pos, ltb_ℤ}
use cosmicdrop.Daemon.Schedule
use cosmicdrop.Daemon.Schedule.{Scheduler, from_micros, from_millis}
use cosmicdrop.Rx.{done, RxResult, discriminant, ◌>>=◌}
use cosmicdrop.Rx.Entry.{awdl_rx_frame}
use cosmicdrop.Daemon.{AwdlStatsSnapshot, Effect, tap_write, Daemon, Outcome, then_do}
use cosmicdrop.Daemon.Tasks.{switch_channel, clean_peers, hold_election, send_psf, send_mif}

-- The answers of `wlan_recv`: an error, nothing there, or a frame and the time when it is handled.
pub data WlanRecv : Type 0 where
  failed nothing : WlanRecv
  frame : List ℕ → ℕ → WlanRecv

-- The counters after a frame with this result, and whether it became an Ethernet frame.
unfoldable pub count_rx : RxResult → Option (List ℕ) → AwdlStatsSnapshot → AwdlStatsSnapshot
unfolding discriminant
count_rx result eth stats =
    let stats1 : AwdlStatsSnapshot = elim eth [
      | none ↦ stats
      | some eth_frame ↦ record stats { rx_data = u64 (stats.rx_data + 1) }
    ] in
    if ltb_ℤ (discriminant result) (pos 0)
    then record stats1 { rx_unknown = u64 (stats1.rx_unknown + 1) }
    else stats1

-- What is written to the virtual interface, if there is one.
unfoldable pub forward : Option ℕ → Option (List ℕ) → List Effect
forward tap_fd none = []
forward none (some eth_frame) = []
forward (some fd) (some eth_frame) = tap_write fd eth_frame ∷ []

module _ (from_utf8_lossy : List ℕ → List ℕ) where
  -- One received frame.
  unfoldable pub receive : List ℕ → ℕ → Daemon → Outcome
  unfolding count_rx forward
  receive bytes tsft d = do
    ((result, eth), awdl) ← awdl_rx_frame from_utf8_lossy tsft bytes d.ctx.awdl
    done (
      record d { ctx = record (d.ctx) { awdl = awdl }; stats = count_rx result eth d.stats },
      forward d.ctx.tap_fd eth,
    )

  -- At most `n` frames; `recv` answers call after call, from the call number `i` on.
  unfoldable pub read_frames : ℕ → ℕ → (ℕ → WlanRecv) → Daemon → Outcome
  unfolding receive
  read_frames zero i recv d = done (d, [])
  read_frames (suc n) i recv d = elim (recv i) [
    | failed ↦ done (d, [])
    | nothing ↦ done (d, [])
    | frame bytes tsft ↦ then_do (receive bytes tsft d) (read_frames n (i + 1) recv)
  ]

  unfoldable pub read_wlan_frames : (ℕ → WlanRecv) → Daemon → Outcome
  unfolding read_frames
  read_wlan_frames recv d = read_frames 64 0 recv d

-- The answers of the system in one turn of the loop: `now` is the time after the sleep, the others
-- are the readings of the wall clock in the order in which they are taken.
pub record Turn : Type 0 where
  pub now : ℕ
  pub chan_us : ℕ
  pub peer_us : ℕ
  pub psf_us : ℕ
  pub psf_later : ℕ
  pub sync_us : ℕ
  pub mif_us : ℕ
  pub mif_later : ℕ
  pub recv : ℕ → WlanRecv

-- The body of the loop behind the sleep.
unfoldable pub run_turn : (List ℕ → List ℕ) → Turn → Daemon → Outcome
run_turn from_utf8_lossy t d = then_do (switch_channel t.now t.chan_us d) λ d1.
    then_do (clean_peers t.now t.peer_us d1) λ d2. then_do (hold_election t.now d2) λ d3.
      then_do (send_psf t.now t.psf_us t.psf_later d3) λ d4.
        then_do (send_mif t.now t.sync_us t.mif_us t.mif_later d4)
          (read_wlan_frames from_utf8_lossy t.recv)

-- `thread::sleep` of a turn.
unfoldable pub sleep_for : Scheduler → ℕ → ℕ
unfolding Schedule.sleep_until
sleep_for sched now = min (Schedule.sleep_until sched now) (Schedule.from_secs 1)

-- The loop from its start with the daemon `d0` at the time `begun`, as long as the stop flag is not
-- set: each turn begins at a time `asleep` and goes on when the thread has slept, not before the
-- sleep is over.
pub data Runs (from_utf8_lossy : List ℕ → List ℕ) (begun : ℕ) (d0 : Daemon)
    : ℕ → Daemon → Type 0 where
  started : Runs from_utf8_lossy begun d0 begun d0
  turn :
      {time : ℕ} {d d' : Daemon} (asleep : ℕ) (t : Turn) (effects : List Effect)
      → Runs from_utf8_lossy begun d0 time d
      → time ≤ asleep
      → asleep + sleep_for d.sched asleep ≤ t.now
      → run_turn from_utf8_lossy t d ≡ done (d', effects)
      → Runs from_utf8_lossy begun d0 t.now d'
