-- ===== src/Daemon/Reachable.antt =====
-- The daemon of src/awdl/mod.rs from its start on.
use cosmicdrop.Base.{
  ℕ, ◌+◌, ◌≤◌, ◌<◌, ◌≡◌, ◌⊎◌, All, Option-cases, inl, inr, refl, ap, sym, ◌∙◌, arith, List, [], ◌∷◌,
  length, Option, none, some,
}
use cosmicdrop.Channel.{
  AwdlChan, chan_opclass_6, chan_opclass_44, chan_opclass_149, awdl_chanseq_init_static, init_from,
}
use cosmicdrop.Channel
use cosmicdrop.Daemon.{
  Daemon, Effect, Outcome, start, new_daemon, host_name, channel_from_num, set_channel,
}
use cosmicdrop.Rx.{done}
use cosmicdrop.Daemon.Invariant.{IsHealthy, IsRunning, sends, IsWhole, Progress}
use cosmicdrop.Daemon.Loop.{Turn, Runs, started, turn, sleep_for, run_turn}
use cosmicdrop.Daemon.Schedule.{Scheduler, from_micros, from_millis, from_secs, sleep_until}
use cosmicdrop.Daemon.Schedule
use cosmicdrop.Daemon.Whole.{run_turn-Progress, IsScheduled}
use cosmicdrop.Election
use cosmicdrop.Election.{EtherAddr, reset_self, reset_metric, awdl_election_state_init}
use cosmicdrop.Peers.Keys.{new-IsWellKeyed}
use cosmicdrop.State
use cosmicdrop.State.{AwdlState}
use cosmicdrop.Sync.Timing.{IsTimed}

new-IsHealthy :
    (hostname : List ℕ) (mac : EtherAddr) (chan : AwdlChan) (now_us : ℕ)
    → length mac ≡ 6
    → length hostname ≤ 1000
    → IsHealthy (State.new hostname mac chan now_us)
unfolding State.new Election.new awdl_election_state_init reset_self reset_metric Channel.new
    awdl_chanseq_init_static init_from
new-IsHealthy hostname mac chan now_us h named =
    let timed : IsTimed (State.new hostname mac chan now_us).sync = record {
      mode_pos = omega arith;
      period_pos = omega arith;
      fits = omega arith;
    } in
    record {
      valid = record { timed = timed; keyed = new-IsWellKeyed };
      framed = record {
        timed = timed;
        channels = refl;
        self_size = h;
        dst_size = refl;
        master_size = h;
        sync_size = h;
      };
      elects = h;
      named = named;
      psf_pos = omega arith;
      psf_fits = omega arith;
      clean_pos = omega arith;
    }

-- A daemon at its start, at the time `now`.
pub record IsStarted (now : ℕ) (d : Daemon) : Type 0 where
  pub running : IsRunning d
  pub scheduled : d.sched ≡ Schedule.new now

-- The longest name that the system may give.
abbrev pub IsShort : Option (List ℕ) → Type 0
IsShort none = Unit
IsShort (some name) = length name ≤ 1000

host_name-IsShort :
    (hostname : Option (List ℕ)) → IsShort hostname → length (host_name hostname) ≤ 1000
unfolding host_name
host_name-IsShort none h = omega arith
host_name-IsShort (some name) h = h

-- What `start` answers.
begin :
    (channel : ℕ) (mac : EtherAddr) (ifindex : ℕ) (hostname : Option (List ℕ)) (tap_fd : Option ℕ)
    (now_us now : ℕ)
    → length mac ≡ 6
    → IsShort hostname
    → (start channel mac ifindex hostname tap_fd now_us now ≡ none)
      ⊎ ((d : Daemon) × (es : List Effect) × (start channel mac ifindex hostname tap_fd now_us now
            ≡ some (d, es))
          × IsStarted now d)
unfolding start new_daemon
begin channel mac ifindex hostname tap_fd now_us now h short =
    elim (Option-cases (channel_from_num channel)) [
      | inl e ↦ inl (rw (e, start) refl)
      | inr (chan, e) ↦ inr (
        new_daemon chan mac ifindex hostname tap_fd now_us now,
        set_channel ifindex channel ∷ [],
        rw (e, start) refl,
        record {
          running = record {
            healthy = new-IsHealthy _ mac chan now_us h (host_name-IsShort hostname short);
            tx_counts = omega arith;
            rx_counts = omega arith;
          };
          scheduled = refl;
        },
      )
    ]

pub start-IsStarted :
    (channel : ℕ) (mac : EtherAddr) (ifindex : ℕ) (hostname : Option (List ℕ)) (tap_fd : Option ℕ)
    (now_us now : ℕ) (d0 : Daemon) (effects : List Effect)
    → length mac ≡ 6
    → IsShort hostname
    → start channel mac ifindex hostname tap_fd now_us now ≡ some (d0, effects)
    → IsStarted now d0
start-IsStarted channel mac ifindex hostname tap_fd now_us now d0 effects h short e =
    elim (begin channel mac ifindex hostname tap_fd now_us now h short) [
      | inl f ↦ absurd (none_ne_some (sym f ∙ e))
      | inr (d, es, f, x) ↦ rw (sym (same (sym f ∙ e))) x
    ]
  where
    none_ne_some :
        {a : Daemon × List Effect} → ◌≡◌ {A = Option (Daemon × List Effect)} none (some a) → ⊥
    none_ne_some e = cc

    same :
        {d d' : Daemon} {es es' : List Effect}
        → ◌≡◌ {A = Option (Daemon × List Effect)} (some (d, es)) (some (d', es'))
        → d ≡ d'
    same e = cc

-- A run returns one thing.
returned_once :
    {d d' : Daemon} {es es' : List Effect}
    → ◌≡◌ {A = Outcome} (done (d, es)) (done (d', es'))
    → (d ≡ d') × (es ≡ es')
returned_once e = (cc, cc)

-- The daemons that are reached from a started one are running, and the timer `next_tx` is the one
-- of the start.
reached :
    (from_utf8_lossy : List ℕ → List ℕ) {begun : ℕ} {d0 : Daemon} {time : ℕ} {d : Daemon}
    → IsRunning d0
    → Runs from_utf8_lossy begun d0 time d
    → IsRunning d × (d.sched.next_tx ≡ d0.sched.next_tx)
reached from_utf8_lossy r started = (r, refl)
reached from_utf8_lossy r (turn {time} {d} {d'} asleep t effects before late slept e) =
    let (running, same) = reached from_utf8_lossy r before in
    let (d2, es, e2, progress, timers) = run_turn-Progress from_utf8_lossy t d running in
    let (same_d, same_es) = returned_once (sym e ∙ e2) in
    (rw same_d progress.running, rw same_d (progress.timers.tx ∙ same))

-- The bounds of every sleep: a thousandth of a second, and a second.
sleep_bounds :
    (s : Scheduler) (now : ℕ) → (from_millis 1 ≤ sleep_for s now) × (sleep_for s now ≤ from_secs 1)
unfolding sleep_for sleep_until
sleep_bounds s now = (omega arith, omega arith)

-- A turn in which the PSF is due moves its timer, and so sends.
due_sends :
    {now : ℕ} {d d' : Daemon} {es : List Effect}
    → Progress now d d' es
    → IsScheduled now d'.sched
    → (now < d.sched.next_psf) ⊎ (0 < sends es)
due_sends progress scheduled = elim progress.beacon [
  | inl e ↦ inl (rw (← e) scheduled.psf)
  | inr h ↦ inr h
]

-- A daemon is started on a supported channel, with a six-byte address and a host name of at most 1000
-- bytes. In every state that it reaches and at every time, the next turn, whatever the clocks and the
-- network answer in it, returns with a daemon and its effects; so the loop reaches a further state.
-- If the timer for the PSF has run out, the turn sends a frame. The frames that are sent have 207 to
-- 1293 bytes, and all timers but `next_tx` then lie in the future. The sleep before the turn is at
-- most a second long.
pub start-Runs :
    (from_utf8_lossy : List ℕ → List ℕ) (channel : ℕ) (mac : EtherAddr) (ifindex : ℕ)
    (hostname : Option (List ℕ)) (tap_fd : Option ℕ) (now_us now : ℕ) (d0 : Daemon)
    (effects : List Effect)
    → length mac ≡ 6
    → IsShort hostname
    → start channel mac ifindex hostname tap_fd now_us now ≡ some (d0, effects)
    → (time : ℕ) (d : Daemon) → Runs from_utf8_lossy now d0 time d
    → (asleep : ℕ) (t : Turn) → time ≤ asleep
    → asleep + sleep_for d.sched asleep ≤ t.now
    → (d' : Daemon) × (es : List Effect) × (run_turn from_utf8_lossy t d ≡ done (d', es))
      × Runs from_utf8_lossy now d0 t.now d'
      × ((t.now < d.sched.next_psf) ⊎ (0 < sends es))
      × All IsWhole es
      × IsScheduled t.now d'.sched
      × (sleep_for d.sched asleep ≤ from_secs 1)
start-Runs from_utf8_lossy channel mac ifindex hostname tap_fd now_us now d0 effects h short e time
      d runs asleep t late slept =
    let s = start-IsStarted channel mac ifindex hostname tap_fd now_us now d0 effects h short e in
    let (running, same) = reached from_utf8_lossy s.running runs in
    let (d', es, returned, progress, scheduled) = run_turn-Progress from_utf8_lossy t d running in
    (
      d',
      es,
      returned,
      turn asleep t es runs late slept returned,
      due_sends progress scheduled,
      progress.whole,
      scheduled,
      (sleep_bounds d.sched asleep).1,
    )

-- The timer `next_tx` is never set anew: from four thousandths of a second after the start on, every
-- sleep of a daemon in any state that it reaches is a thousandth of a second long, whatever the
-- other timers are.
pub next_tx_keeps_awake :
    (from_utf8_lossy : List ℕ → List ℕ) (channel : ℕ) (mac : EtherAddr) (ifindex : ℕ)
    (hostname : Option (List ℕ)) (tap_fd : Option ℕ) (now_us now : ℕ) (d0 : Daemon)
    (effects : List Effect)
    → length mac ≡ 6
    → IsShort hostname
    → start channel mac ifindex hostname tap_fd now_us now ≡ some (d0, effects)
    → (time : ℕ) (d : Daemon) → Runs from_utf8_lossy now d0 time d
    → (asleep : ℕ) → now + from_millis 4 ≤ asleep
    → sleep_for d.sched asleep ≡ from_millis 1
unfolding sleep_for sleep_until Schedule.new
next_tx_keeps_awake from_utf8_lossy channel mac ifindex hostname tap_fd now_us now d0 effects h
      short e time d runs asleep late =
    let s = start-IsStarted channel mac ifindex hostname tap_fd now_us now d0 effects h short e in
    let (running, same) = reached from_utf8_lossy s.running runs in
    let timer : d0.sched.next_tx ≡ now + from_millis 5 = ap (λ x. x.next_tx) s.scheduled in
    omega (arith, same, timer)
