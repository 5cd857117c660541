-- ===== src/Daemon/Health.antt =====
-- What the daemon of src/awdl/mod.rs does to a node keeps it healthy.
use cosmicdrop.Base.{
  ℕ, ◌-◌, ◌≡◌, refl, ap, ◌∙◌, Bool, true, false, List, [], ◌∷◌, length, All, Option, none, some,
  map, if◌then◌else◌,
}
use cosmicdrop.Channel.{AwdlChan}
use cosmicdrop.Daemon.Tasks.{run_election, remove_stale}
use cosmicdrop.Daemon.Invariant.{IsHealthy}
use cosmicdrop.Election.{
  EtherAddr, AwdlElectionState, awdl_election_run, reset_self, adopt, best_peer, best_state_of,
  is_candidate, accepts,
}
use cosmicdrop.Peers.{AwdlPeer, peers_iter, peers_remove_before}
use cosmicdrop.Peers.Keys.{IsAt, peers-IsWellKeyed}
use cosmicdrop.Rx.Safety.{IsNext}
use cosmicdrop.State.{AwdlState}
use cosmicdrop.Table
use cosmicdrop.Table.Laws.{Entries}
use cosmicdrop.Tx.Size.Tlv.{IsFramed}

-- An election state whose own address and master's address have six bytes.
abbrev HasAddrs : AwdlElectionState → Type 0
HasAddrs e = (length e.self_addr ≡ 6) × (length e.master_addr ≡ 6)

abbrev MaybeHasAddrs : Option AwdlElectionState → Type 0
MaybeHasAddrs none = Unit
MaybeHasAddrs (some e) = HasAddrs e

iter-HasAddrs :
    (m : List (EtherAddr × AwdlPeer))
    → Entries IsAt m
    → All
        (λ (p : AwdlElectionState × Bool). HasAddrs p.0)
        (map (λ p. (p.election, p.is_valid)) (Table.values m))
unfolding Table.values
iter-HasAddrs [] h = tt
iter-HasAddrs ((k, p) ∷ m) ((a, e, l, master), h) = ((ap length e ∙ l, master), iter-HasAddrs m h)

best_peer-HasAddrs :
    (state : AwdlElectionState) (peers : List (AwdlElectionState × Bool))
    (best : Option AwdlElectionState)
    → MaybeHasAddrs best
    → All (λ (p : AwdlElectionState × Bool). HasAddrs p.0) peers
    → MaybeHasAddrs (best_peer state best peers)
unfolding best_peer
best_peer-HasAddrs state [] best hb hp = hb
best_peer-HasAddrs state (p ∷ peers) best hb (h, hp) =
    best_peer-HasAddrs state peers _
      (either (is_candidate state p) _ _
        (either (accepts (best_state_of state best) (p.0)) _ _ h hb) hb)
      hp
  where
    either :
        (b : Bool) (x y : Option AwdlElectionState)
        → MaybeHasAddrs x
        → MaybeHasAddrs y
        → MaybeHasAddrs (if b then x else y)
    either true x y hx hy = hx
    either false x y hx hy = hy

-- The election leaves the node's own address, and takes over addresses of six bytes.
record Elects (e e' : AwdlElectionState) : Type 0 where
  same_self : e'.self_addr ≡ e.self_addr
  master_size : length e'.master_addr ≡ 6
  sync_size : length e'.sync_addr ≡ 6

adopt-Elects :
    (e : AwdlElectionState) (best : Option AwdlElectionState)
    → length e.self_addr ≡ 6
    → MaybeHasAddrs best
    → Elects e (adopt (reset_self e) best)
unfolding adopt reset_self
adopt-Elects e none h tt = record { same_self = refl; master_size = h; sync_size = h }
adopt-Elects e (some p) h (own, master) = record {
  same_self = refl;
  master_size = master;
  sync_size = own;
}

run-Elects :
    (s : AwdlState)
    → IsHealthy s
    → Elects s.election (awdl_election_run s.election (peers_iter s.peers))
unfolding awdl_election_run peers_iter
run-Elects s h =
    adopt-Elects s.election _ h.elects
      (best_peer-HasAddrs _ _ none tt (iter-HasAddrs s.peers.peers h.valid.keyed.home))

pub run_election-IsHealthy : (s : AwdlState) → IsHealthy s → IsHealthy (run_election s)
unfolding run_election
run_election-IsHealthy s h =
    let run = run-Elects s h in
    record {
      valid = record { timed = h.valid.timed; keyed = h.valid.keyed };
      framed = record {
        timed = h.framed.timed;
        channels = h.framed.channels;
        self_size = h.framed.self_size;
        dst_size = h.framed.dst_size;
        master_size = run.master_size;
        sync_size = run.sync_size;
      };
      elects = ap length run.same_self ∙ h.elects;
      named = h.named;
      psf_pos = h.psf_pos;
      psf_fits = h.psf_fits;
      clean_pos = h.clean_pos;
    }

pub remove_stale-IsHealthy :
    (now_us : ℕ) (s : AwdlState) → IsHealthy s → IsHealthy (remove_stale now_us s)
unfolding remove_stale
remove_stale-IsHealthy now_us s h =
    let (added, removed, kept) =
      peers-IsWellKeyed s.peers s.self_address 0 (now_us - s.peers.timeout) h.framed.self_size
        h.valid.keyed in
    record {
      valid = record { timed = h.valid.timed; keyed = kept };
      framed = framed_again;
      elects = h.elects;
      named = h.named;
      psf_pos = h.psf_pos;
      psf_fits = h.psf_fits;
      clean_pos = unfold peers_remove_before in h.clean_pos;
    }
  where
    framed_again : IsFramed (remove_stale now_us s)
    framed_again = record {
      timed = h.framed.timed;
      channels = h.framed.channels;
      self_size = h.framed.self_size;
      dst_size = h.framed.dst_size;
      master_size = h.framed.master_size;
      sync_size = h.framed.sync_size;
    }

-- Another current channel.
pub current-IsHealthy :
    (chan : AwdlChan) (s : AwdlState)
    → IsHealthy s
    → IsHealthy (record s { channel = record (s.channel) { current = chan } })
current-IsHealthy chan s h = record {
  valid = record { timed = h.valid.timed; keyed = h.valid.keyed };
  framed = record {
    timed = h.framed.timed;
    channels = h.framed.channels;
    self_size = h.framed.self_size;
    dst_size = h.framed.dst_size;
    master_size = h.framed.master_size;
    sync_size = h.framed.sync_size;
  };
  elects = h.elects;
  named = h.named;
  psf_pos = h.psf_pos;
  psf_fits = h.psf_fits;
  clean_pos = h.clean_pos;
}

-- A received frame.
pub next-IsHealthy : {s s' : AwdlState} → IsNext s s' → IsHealthy s → IsHealthy s'
next-IsHealthy n h = record {
  valid = n.valid;
  framed = record {
    timed = n.valid.timed;
    channels = rw n.same_channel h.framed.channels;
    self_size = rw n.same_address h.framed.self_size;
    dst_size = rw (ap (λ x. x.1) n.same_identity) h.framed.dst_size;
    master_size = rw n.same_election h.framed.master_size;
    sync_size = rw n.same_election h.framed.sync_size;
  };
  elects = rw n.same_election h.elects;
  named = rw (ap (λ x. x.0) n.same_identity) h.named;
  psf_pos = rw (ap (λ x. x.2) n.same_identity) h.psf_pos;
  psf_fits = rw (ap (λ x. x.2) n.same_identity) h.psf_fits;
  clean_pos = rw (ap (λ x. x.3) n.same_identity) h.clean_pos;
}
