-- ===== src/State.antt =====
-- src/awdl/state.rs: the state of a node, and its sequence numbers.
pub mod Sequence
mod Tests
use cosmicdrop.Base.{
  ℕ, ◌+◌, ◌*◌, ◌/◌, ◌%◌, ◌^◌, List, [], ◌∷◌, replicate, Bool, true, false, u16, bit_and,
}
use cosmicdrop.Base.Int.{ℤ, negsuc}
use cosmicdrop.Channel
use cosmicdrop.Channel.{AwdlChan, AwdlChannelState}
use cosmicdrop.Election
use cosmicdrop.Election.{EtherAddr, AwdlElectionState, awdl_election_state_init}
use cosmicdrop.Peers
use cosmicdrop.Peers.{AwdlPeerState}
use cosmicdrop.Sync
use cosmicdrop.Sync.{AwdlSyncState}

abbrev pub rssi_threshold_default : ℤ
rssi_threshold_default = negsuc 64

abbrev pub rssi_grace_default : ℤ
rssi_grace_default = negsuc 4

abbrev pub psf_interval_master_tu : ℕ
psf_interval_master_tu = 110

abbrev pub ether_broadcast : EtherAddr
ether_broadcast = replicate 6 0xff

abbrev pub awdl_version_3_4 : ℕ
awdl_version_3_4 = 0x34

abbrev pub awdl_devclass_macos : ℕ
awdl_devclass_macos = 1

pub record AwdlStats : Type 0 where
  pub tx_action : ℕ
  pub tx_data : ℕ
  pub tx_data_unicast : ℕ
  pub tx_data_multicast : ℕ
  pub rx_action : ℕ
  pub rx_data : ℕ
  pub rx_unknown : ℕ

-- `AwdlStats::default`.
abbrev pub no_stats : AwdlStats
no_stats = record {
  tx_action = 0;
  tx_data = 0;
  tx_data_unicast = 0;
  tx_data_multicast = 0;
  rx_action = 0;
  rx_data = 0;
  rx_unknown = 0;
}

pub record AwdlState : Type 0 where
  pub self_address : EtherAddr
  pub name : List ℕ
  pub version : ℕ
  pub dev_class : ℕ
  pub sequence_number : ℕ
  pub psf_interval : ℕ
  pub dst : EtherAddr
  pub filter_rssi : Bool
  pub rssi_threshold : ℤ
  pub rssi_grace : ℤ
  pub election : AwdlElectionState
  pub sync : AwdlSyncState
  pub channel : AwdlChannelState
  pub peers : AwdlPeerState
  pub stats : AwdlStats

-- `AwdlState::new`.
unfoldable pub new : List ℕ → EtherAddr → AwdlChan → ℕ → AwdlState
unfolding Election.new awdl_election_state_init Channel.new
new hostname self_addr chan now = record {
  self_address = self_addr;
  name = hostname;
  version = awdl_version_3_4;
  dev_class = awdl_devclass_macos;
  sequence_number = 0;
  psf_interval = psf_interval_master_tu;
  dst = ether_broadcast;
  filter_rssi = true;
  rssi_threshold = rssi_threshold_default;
  rssi_grace = rssi_grace_default;
  election = awdl_election_state_init (Election.new self_addr) self_addr;
  sync = Sync.new now;
  channel = Channel.new chan;
  peers = Peers.new;
  stats = no_stats;
}

unfoldable pub next_sequence_number : AwdlState → AwdlState × ℕ
next_sequence_number state =
    (record state { sequence_number = u16 (state.sequence_number + 1) }, state.sequence_number)

pub record Ieee80211State : Type 0 where
  pub sequence_number : ℕ
  pub fcs : Bool

-- `Ieee80211State::new`.
abbrev pub new_ieee80211 : Ieee80211State
new_ieee80211 = record { sequence_number = 0; fcs = false }

unfoldable pub next_sequence_number_12 : Ieee80211State → Ieee80211State × ℕ
next_sequence_number_12 state = (
  record state { sequence_number = bit_and (u16 (state.sequence_number + 1)) 0x0fff },
  state.sequence_number,
)
