-- ===== src/Daemon/Invariant.antt =====
-- The invariant of the daemon of src/awdl/mod.rs, and what a part of its loop leaves behind.
use cosmicdrop.Base.{
  ℕ, ◌+◌, ◌^◌, ◌≤◌, ◌<◌, ◌≡◌, ◌⊎◌, inl, inr, refl, ◌∙◌, arith, List, [], ◌∷◌, ◌++◌, length, All,
  u64, some,
}
use cosmicdrop.Daemon.{Daemon, Effect, set_channel, wlan_send, tap_write, Outcome, then_do}
use cosmicdrop.Daemon.Schedule.{Scheduler}
use cosmicdrop.Rx.{done}
use cosmicdrop.Rx.Safety.{IsValid}
use cosmicdrop.State.{AwdlState}
use cosmicdrop.Tx.Size.Tlv.{IsFramed}

-- A node that the daemon can run: it can build its frames, receive and elect, its name is at most
-- 1000 bytes long, and its intervals are positive.
pub record IsHealthy (s : AwdlState) : Type 0 where
  pub valid : IsValid s
  pub framed : IsFramed s
  pub elects : length s.election.self_addr ≡ 6
  pub named : length s.name ≤ 1000
  pub psf_pos : 0 < s.psf_interval
  pub psf_fits : s.psf_interval < 2 ^ 16
  pub clean_pos : 0 < s.peers.clean_interval

pub record IsRunning (d : Daemon) : Type 0 where
  pub healthy : IsHealthy d.ctx.awdl
  pub tx_counts : d.stats.tx_action < 2 ^ 64
  pub rx_counts : d.stats.rx_data < 2 ^ 64

-- How many frames are sent on the air.
unfoldable pub sends : List Effect → ℕ
sends [] = 0
sends (set_channel i c ∷ es) = sends es
sends (wlan_send f ∷ es) = 1 + sends es
sends (tap_write fd f ∷ es) = sends es

pub sends-append : (es fs : List Effect) → sends (es ++ fs) ≡ sends es + sends fs
unfolding sends
sends-append [] fs = omega arith
sends-append (set_channel i c ∷ es) fs = sends-append es fs
sends-append (wlan_send f ∷ es) fs = omega (arith, sends-append es fs)
sends-append (tap_write fd f ∷ es) fs = sends-append es fs

-- How many frames are written to the virtual interface.
unfoldable pub writes : List Effect → ℕ
writes [] = 0
writes (set_channel i c ∷ es) = writes es
writes (wlan_send f ∷ es) = writes es
writes (tap_write fd f ∷ es) = 1 + writes es

pub writes-append : (es fs : List Effect) → writes (es ++ fs) ≡ writes es + writes fs
unfolding writes
writes-append [] fs = omega arith
writes-append (set_channel i c ∷ es) fs = writes-append es fs
writes-append (wlan_send f ∷ es) fs = writes-append es fs
writes-append (tap_write fd f ∷ es) fs = omega (arith, writes-append es fs)

-- A frame on the air is a whole action frame.
unfoldable pub IsWhole : Effect → Type 0
IsWhole (set_channel i c) = Unit
IsWhole (wlan_send f) = (207 ≤ length f) × (length f ≤ 1293)
IsWhole (tap_write fd f) = Unit

pub All-append {ℓ κ} :
    {A : Type ℓ} (P : A → Type κ) (xs ys : List A) → All P xs → All P ys → All P (xs ++ ys)
All-append P [] ys hx hy = hy
All-append P (x ∷ xs) ys (h, hx) hy = (h, All-append P xs ys hx hy)

-- A timer that is as it was, or in the future.
abbrev pub Kept : ℕ → ℕ → ℕ → Type 0
Kept now a b = (b ≡ a) ⊎ (now < b)

pub Kept-trans : {now a b c : ℕ} → Kept now a b → Kept now b c → Kept now a c
Kept-trans h (inr k) = inr k
Kept-trans (inl h) (inl k) = inl (k ∙ h)
Kept-trans (inr h) (inl k) = inr (rw k h)

pub Kept_future : {now a b : ℕ} → now < a → Kept now a b → now < b
Kept_future h (inl e) = rw e h
Kept_future h (inr k) = k

pub record KeepsTimers (now : ℕ) (s s' : Scheduler) : Type 0 where
  pub psf : Kept now s.next_psf s'.next_psf
  pub mif : Kept now s.next_mif s'.next_mif
  pub chan : Kept now s.next_chan s'.next_chan
  pub peer : Kept now s.next_peer s'.next_peer
  pub election : Kept now s.next_election s'.next_election
  pub tx : s'.next_tx ≡ s.next_tx

-- What a part of the loop leaves behind at the time `now`.
pub record Progress (now : ℕ) (d d' : Daemon) (es : List Effect) : Type 0 where
  pub running : IsRunning d'
  pub timers : KeepsTimers now d.sched d'.sched
  pub counted : d'.stats.tx_action ≡ u64 (d.stats.tx_action + sends es)
  pub forwarded :
      (fd : ℕ) → d.ctx.tap_fd ≡ some fd → d'.stats.rx_data ≡ u64 (d.stats.rx_data + writes es)
  pub whole : All IsWhole es
  pub same_tap : d'.ctx.tap_fd ≡ d.ctx.tap_fd
  pub beacon : (d'.sched.next_psf ≡ d.sched.next_psf) ⊎ (0 < sends es)

-- A part of the loop that returns.
pub record Goes (now : ℕ) (d : Daemon) (o : Outcome) : Type 0 where
  pub after : Daemon
  pub effects : List Effect
  pub returns : o ≡ done (after, effects)
  pub progress : Progress now d after effects

-- A part of the loop that returns, with its timer in the future.
pub record Fires (now : ℕ) (d : Daemon) (timer : Scheduler → ℕ) (o : Outcome) : Type 0 where
  pub goes : Goes now d o
  pub future : now < timer goes.after.sched

pub KeepsTimers-refl : {now : ℕ} {s : Scheduler} → KeepsTimers now s s
KeepsTimers-refl = record {
  psf = inl refl;
  mif = inl refl;
  chan = inl refl;
  peer = inl refl;
  election = inl refl;
  tx = refl;
}

KeepsTimers-trans :
    {now : ℕ} {a b c : Scheduler} → KeepsTimers now a b → KeepsTimers now b c → KeepsTimers now a c
KeepsTimers-trans f g = record {
  psf = Kept-trans f.psf g.psf;
  mif = Kept-trans f.mif g.mif;
  chan = Kept-trans f.chan g.chan;
  peer = Kept-trans f.peer g.peer;
  election = Kept-trans f.election g.election;
  tx = g.tx ∙ f.tx;
}

pub Progress-trans :
    {now : ℕ} {a b c : Daemon} {es fs : List Effect}
    → Progress now a b es
    → Progress now b c fs
    → Progress now a c (es ++ fs)
Progress-trans {now} {a} {b} {c} {es} {fs} f g = record {
  running = g.running;
  timers = KeepsTimers-trans f.timers g.timers;
  counted = omega (arith, f.counted, g.counted, sends-append es fs);
  forwarded =
      λ fd e. omega (arith, f.forwarded fd e, g.forwarded fd (f.same_tap ∙ e), writes-append es fs);
  whole = All-append IsWhole es fs f.whole g.whole;
  same_tap = g.same_tap ∙ f.same_tap;
  beacon = elim f.beacon [
    | inl e ↦ elim g.beacon [
      | inl e' ↦ inl (e' ∙ e)
      | inr h ↦ inr (omega (arith, sends-append es fs))
    ]
    | inr h ↦ inr (omega (arith, sends-append es fs))
  ];
}

pub then_do-Goes :
    {now : ℕ} {d : Daemon} (o : Outcome) (k : Daemon → Outcome)
    → (f : Goes now d o) → (g : Goes now f.after (k f.after)) → Goes now d (then_do o k)
then_do-Goes o k f g = record {
  after = g.after;
  effects = f.effects ++ g.effects;
  returns = rw (f.returns, g.returns) refl;
  progress = Progress-trans f.progress g.progress;
}

-- A part that only moves timers, but not that of the PSF, and keeps the node healthy.
pub quiet :
    {now : ℕ} {d : Daemon} (s : AwdlState) (sched : Scheduler)
    → IsRunning d
    → IsHealthy s
    → KeepsTimers now d.sched sched
    → sched.next_psf ≡ d.sched.next_psf
    → Progress now d (record d { ctx = record (d.ctx) { awdl = s }; sched = sched }) []
unfolding sends writes
quiet s sched r h k same = record {
  running = record { healthy = h; tx_counts = r.tx_counts; rx_counts = r.rx_counts };
  timers = k;
  counted = omega (arith, r.tx_counts);
  forwarded = λ fd e. omega (arith, r.rx_counts);
  whole = tt;
  same_tap = refl;
  beacon = inl same;
}
