-- ===== src/Tx/Tests.antt =====
-- Sending of src/awdl/tx.rs at a fresh node.
use cosmicdrop.Base.{ℕ, ◌≡◌, refl, arith, none, some, List, [], ◌∷◌, replicate}
use cosmicdrop.Channel.{chan_opclass_6}
use cosmicdrop.Election.{EtherAddr, reset_self}
use cosmicdrop.Frame.{awdl_election_parameters_v2_tlv}
use cosmicdrop.Peers.{AwdlPeer, new_peer, peer_get}
use cosmicdrop.Rx.{rx_ok, done}
use cosmicdrop.Rx.Ethernet.{awdl_rx_data}
use cosmicdrop.Rx.Forwarding.{counted}
use cosmicdrop.Rx.Tlv.{awdl_handle_election_params_v2_tlv}
use cosmicdrop.State.{AwdlState, new}
use cosmicdrop.Table
use cosmicdrop.Base.{bytes_eq}
use cosmicdrop.Tx.Election.{IsSendable, informed, election_v2_round_trip}
use cosmicdrop.Tx.Tlv.{awdl_init_election_params_v2_tlv}
use cosmicdrop.Tx.Frames.{llc_init_awdl_hdr}
use cosmicdrop.Tx.Version.{version_round_trip}
use cosmicdrop.Tx.Tlv.{awdl_init_version_tlv}
use cosmicdrop.Rx.Tlv.{awdl_handle_version_tlv}
use cosmicdrop.Frame.{awdl_version_tlv}
use cosmicdrop.Tx.Data.{llc_init_awdl_hdr-rejected}
use cosmicdrop.Wire.{ok, read_tlv}

abbrev self : EtherAddr
self = 2 ∷ 0 ∷ 0 ∷ 0 ∷ 0 ∷ 1 ∷ []

abbrev other : EtherAddr
other = 2 ∷ 0 ∷ 0 ∷ 0 ∷ 0 ∷ 2 ∷ []

sender : AwdlState
unfolding new
sender = new [] other chan_opclass_6 0

known : AwdlPeer
unfolding new_peer
known = new_peer other

-- A node that knows the sender.
receiver : AwdlState
unfolding new
receiver =
    let start = new [] self chan_opclass_6 0 in
    record start { peers = record (start.peers) { peers = (other, known) ∷ [] } }

sender-IsSendable : IsSendable sender.election
unfolding sender new reset_self
sender-IsSendable = record {
  master_size = refl;
  sync_size = refl;
  counter_fits = omega arith;
  height_fits = omega arith;
  metric_fits = omega arith;
  self_metric_fits = omega arith;
  self_counter_fits = omega arith;
}

election_v2_round_trip_example :
    (buf' v : List ℕ) × (receiver' : AwdlState) × (awdl_init_election_params_v2_tlv
        (replicate 50 0)
        sender
      ≡ ok (buf', 43))
    × (read_tlv buf' 0 ≡ ok (awdl_election_parameters_v2_tlv, 40, v, 43))
    × (awdl_handle_election_params_v2_tlv other v receiver ≡ done (rx_ok, receiver'))
    × (peer_get receiver'.peers other ≡ some (informed sender.election known))
unfolding receiver peer_get Table.get bytes_eq
election_v2_round_trip_example =
    election_v2_round_trip sender receiver other known (replicate 50 0) sender-IsSendable
      (omega arith) refl

llc_init_awdl_hdr-rejected_example :
    (buf' : List ℕ) × (llc_init_awdl_hdr (replicate 20 0) ≡ ok (buf', 8))
    × (awdl_rx_data buf' other self receiver ≡ done (none, counted receiver))
llc_init_awdl_hdr-rejected_example =
    llc_init_awdl_hdr-rejected (replicate 20 0) other self receiver (omega arith)

version_round_trip_example :
    (buf' v : List ℕ) × (receiver' : AwdlState) × (awdl_init_version_tlv (replicate 9 0) sender
      ≡ ok (buf', 5))
    × (read_tlv buf' 0 ≡ ok (awdl_version_tlv, 2, v, 5))
    × (awdl_handle_version_tlv other v receiver ≡ done (rx_ok, receiver'))
    × (peer_get receiver'.peers other
        ≡ some (record known { version = sender.version; devclass = sender.dev_class }))
unfolding receiver peer_get Table.get bytes_eq
version_round_trip_example =
    version_round_trip sender receiver other known (replicate 9 0) (omega arith) refl
