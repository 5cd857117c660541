-- ===== src/Peers.antt =====
-- src/awdl/peers.rs: the table of known peers.
pub mod Keys
pub mod Update
pub mod Refinement
mod Tests
use cosmicdrop.Base.{
  ℕ, ◌+◌, ltb, ◌==◌, if◌then◌else◌, Bool, true, false, ◌&&◌, not, Option, none, some, List, [], ◌∷◌,
  map, length, replicate,
}
use cosmicdrop.Channel.{AwdlChan, null_sequence, chan_null, awdl_chanseq_init_static}
use cosmicdrop.Election
use cosmicdrop.Election.{EtherAddr, AwdlElectionState, awdl_election_state_init}
use cosmicdrop.Table
use mathlib.Core.Option

abbrev pub host_name_length_max : ℕ
host_name_length_max = 64

abbrev pub peers_default_timeout : ℕ
peers_default_timeout = 2_000_000

abbrev pub peers_default_clean_interval : ℕ
peers_default_clean_interval = 1_000_000

pub data PeersStatus : Type 0 where
  update ok missing internal : PeersStatus

-- A `String` is the list of its bytes.
pub record AwdlPeer : Type 0 where
  pub addr : EtherAddr
  pub last_update : ℕ
  pub election : AwdlElectionState
  pub sequence : List AwdlChan
  pub sync_offset : ℕ
  pub name : List ℕ
  pub country_code : List ℕ
  pub infra_addr : EtherAddr
  pub version : ℕ
  pub devclass : ℕ
  pub supports_v2 : Bool
  pub sent_mif : Bool
  pub is_valid : Bool

-- `AwdlPeer::new`.
unfoldable pub new_peer : EtherAddr → AwdlPeer
unfolding Election.new awdl_election_state_init awdl_chanseq_init_static
new_peer addr = record {
  addr = addr;
  last_update = 0;
  election = awdl_election_state_init (Election.new addr) addr;
  sequence = awdl_chanseq_init_static null_sequence chan_null;
  sync_offset = 0;
  name = [];
  country_code = b'N' ∷ b'A' ∷ [];
  infra_addr = replicate 6 0;
  version = 0;
  devclass = 0;
  supports_v2 = false;
  sent_mif = false;
  is_valid = false;
}

unfoldable pub check_valid : AwdlPeer → Bool
check_valid peer = peer.sent_mif && not (peer.devclass == 0) && not (peer.version == 0)

pub record AwdlPeerState : Type 0 where
  pub peers : List (EtherAddr × AwdlPeer)
  pub timeout : ℕ
  pub clean_interval : ℕ

-- `AwdlPeerState::new`.
abbrev pub new : AwdlPeerState
new = record {
  peers = [];
  timeout = peers_default_timeout;
  clean_interval = peers_default_clean_interval;
}

unfoldable pub len : AwdlPeerState → ℕ
len state = length state.peers

unfoldable pub is_empty : AwdlPeerState → Bool
is_empty state = length state.peers == 0

unfoldable pub peer_get : AwdlPeerState → EtherAddr → Option AwdlPeer
peer_get state addr = Table.get addr state.peers

-- `peer_get_mut` and what is written through the reference.
unfoldable pub peer_get_mut : AwdlPeerState → EtherAddr → (AwdlPeer → AwdlPeer) → AwdlPeerState
peer_get_mut state addr f = record state { peers = Table.modify addr f state.peers }

-- What `peer_add` does to the entry, and whether the peer just became valid.
unfoldable pub touch : ℕ → AwdlPeer → AwdlPeer
unfolding check_valid
touch now peer = record peer { last_update = now; is_valid = check_valid peer }

unfoldable pub just_became_valid : AwdlPeer → Bool
unfolding check_valid
just_became_valid peer = not peer.is_valid && check_valid peer

unfoldable pub peer_add : AwdlPeerState → EtherAddr → ℕ → AwdlPeerState × (PeersStatus × Bool)
peer_add state addr now =
    let existed = Table.contains_key addr state.peers in
    let entered = Table.or_insert addr (new_peer addr) state.peers in
    let became_valid : Bool = elim (Table.get addr entered) [
      | none ↦ false
      | some peer ↦ just_became_valid peer
    ] in
    (
      record state { peers = Table.modify addr (touch now) entered },
      (if existed then update else ok, became_valid),
    )

unfoldable pub peer_remove : AwdlPeerState → EtherAddr → AwdlPeerState × Option AwdlPeer
peer_remove state addr =
    (record state { peers = Table.remove addr state.peers }, Table.get addr state.peers)

-- The peers that `retain`'s closure pushes onto `removed`.
unfoldable pub stale : ℕ → List (EtherAddr × AwdlPeer) → List AwdlPeer
stale before [] = []
stale before ((addr, peer) ∷ peers) =
    if ltb peer.last_update before then peer ∷ stale before peers else stale before peers

unfoldable pub peers_remove_before : AwdlPeerState → ℕ → AwdlPeerState × List AwdlPeer
unfolding stale
peers_remove_before state before = (
  record state { peers = Table.retain (λ peer. not (ltb peer.last_update before)) state.peers },
  stale before state.peers,
)

unfoldable pub peers_iter : AwdlPeerState → List (AwdlElectionState × Bool)
peers_iter state = map (λ p. (p.election, p.is_valid)) (Table.values state.peers)
