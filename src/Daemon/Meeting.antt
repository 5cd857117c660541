-- ===== src/Daemon/Meeting.antt =====
-- Where the channel switching of src/awdl/mod.rs brings two nodes together.
use cosmicdrop.Base.{
  ℕ, ◌+◌, [], ◌∷◌, ◌%◌, ◌≡◌, ◌≢◌, ◌==◌, refl, ap, ◌∙◌, arith, true, false, Bool-cases, inl, inr,
  leb, ◌≤◌, if◌then◌else◌, List, get_elem?, some,
}
use cosmicdrop.Channel.{AwdlChan, awdl_chan_num}
use cosmicdrop.Daemon.{Daemon, Effect, set_channel, wlan_send, tap_write}
use cosmicdrop.Daemon.Schedule.{from_millis}
use cosmicdrop.Daemon.Tasks.{switch_channel, set_current}
use cosmicdrop.Rx.{done}
use cosmicdrop.Sync.{awdl_sync_current_eaw}

-- The number of the channel that a daemon is on.
abbrev pub channel_number : Daemon → ℕ
channel_number d = awdl_chan_num d.ctx.awdl.channel.current d.ctx.awdl.channel.enc

-- The channel that an interface is on behind the effects of a turn, if the system does what it is
-- asked for.
unfoldable pub tuned : ℕ → ℕ → List Effect → ℕ
tuned ifindex channel [] = channel
tuned ifindex channel (set_channel i number ∷ es) =
    tuned ifindex (if i == ifindex then number else channel) es
tuned ifindex channel (wlan_send frame ∷ es) = tuned ifindex channel es
tuned ifindex channel (tap_write fd frame ∷ es) = tuned ifindex channel es

record SwitchesTo (now now_us : ℕ) (d : Daemon) (number : ℕ) : Type 0 where
  after : Daemon
  effects : List Effect
  returns : switch_channel now now_us d ≡ done (after, effects)
  on_it : channel_number after ≡ number
  tunes : tuned d.ctx.ifindex (channel_number d) effects ≡ number

switch_channel-SwitchesTo :
    (now now_us eaw : ℕ) (d : Daemon) (chan : AwdlChan)
    → d.sched.next_chan ≤ now
    → awdl_sync_current_eaw now_us d.ctx.awdl.sync ≡ some eaw
    → get_elem? d.ctx.awdl.channel.sequence (eaw % 16) ≡ some chan
    → awdl_chan_num chan d.ctx.awdl.channel.enc ≢ 0
    → SwitchesTo now now_us d (awdl_chan_num chan d.ctx.awdl.channel.enc)
unfolding switch_channel set_current tuned
switch_channel-SwitchesTo now now_us eaw d chan due e slot used =
    let now_due : leb d.sched.next_chan now ≡ true = ground arith in
    let number = awdl_chan_num chan d.ctx.awdl.channel.enc in
    let nonzero : (number == 0) ≡ false = ground arith in
    elim (Bool-cases (number == channel_number d)) [
      | inl stays ↦ record {
        after = record d { sched = record (d.sched) { next_chan = now + from_millis 10 } };
        effects = [];
        returns = rw (now_due, e, slot, nonzero, stays) refl;
        on_it = ground arith;
        tunes = ground arith;
      }
      | inr moves ↦ record {
        after = record d {
          sched = record (d.sched) { next_chan = now + from_millis 10 };
          ctx = set_current chan d.ctx;
        };
        effects = set_channel d.ctx.ifindex number ∷ [];
        returns = rw (now_due, e, slot, nonzero, moves) refl;
        on_it = refl;
        tunes = ground arith;
      }
    ]

-- Two daemons whose switch is due, with the same sequence of channels and encoding, and in the same
-- extended window by their own clocks, return from the switch with the number of the window's channel
-- as their recorded channel, if the sequence has one for this window. Where an interface was on the
-- recorded channel, what the switch asks of the system brings it to this channel too, or leaves it
-- there; the recorded channel does not depend on whether the system does it.
pub switch_channel_meets :
    (now1 us1 now2 us2 eaw : ℕ) (d1 d2 : Daemon) (chan : AwdlChan)
    → d1.sched.next_chan ≤ now1
    → d2.sched.next_chan ≤ now2
    → awdl_sync_current_eaw us1 d1.ctx.awdl.sync ≡ some eaw
    → awdl_sync_current_eaw us2 d2.ctx.awdl.sync ≡ some eaw
    → d2.ctx.awdl.channel.sequence ≡ d1.ctx.awdl.channel.sequence
    → d2.ctx.awdl.channel.enc ≡ d1.ctx.awdl.channel.enc
    → get_elem? d1.ctx.awdl.channel.sequence (eaw % 16) ≡ some chan
    → awdl_chan_num chan d1.ctx.awdl.channel.enc ≢ 0
    → (d1' d2' : Daemon) × (es1 es2 : List Effect) × (switch_channel now1 us1 d1 ≡ done (d1', es1))
      × (switch_channel now2 us2 d2 ≡ done (d2', es2))
      × (channel_number d1' ≡ awdl_chan_num chan d1.ctx.awdl.channel.enc)
      × (channel_number d2' ≡ awdl_chan_num chan d1.ctx.awdl.channel.enc)
      × (tuned d1.ctx.ifindex (channel_number d1) es1 ≡ awdl_chan_num chan d1.ctx.awdl.channel.enc)
      × (tuned d2.ctx.ifindex (channel_number d2) es2 ≡ awdl_chan_num chan d1.ctx.awdl.channel.enc)
switch_channel_meets now1 us1 now2 us2 eaw d1 d2 chan due1 due2 e1 e2 same enc slot used =
    let first = switch_channel-SwitchesTo now1 us1 eaw d1 chan due1 e1 slot used in
    let second =
      switch_channel-SwitchesTo now2 us2 eaw d2 chan due2 e2 (rw same slot) (rw enc used) in
    (
      first.after,
      second.after,
      first.effects,
      second.effects,
      first.returns,
      second.returns,
      first.on_it,
      second.on_it ∙ ap (awdl_chan_num chan) enc,
      first.tunes,
      second.tunes ∙ ap (awdl_chan_num chan) enc,
    )
