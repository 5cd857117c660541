-- ===== src/Tx/Election.antt =====
-- What src/awdl/tx.rs sends of the election, src/awdl/rx.rs takes over.
use cosmicdrop.Base.{
  ℕ, ◌+◌, ◌/◌, ◌%◌, ◌^◌, ◌≤◌, ◌<◌, ◌≡◌, refl, arith, true, some, List, [], ◌∷◌, ◌++◌, length,
  length-append, sym, ap, ◌∙◌, drop, bytes_eq_refl,
}
use cosmicdrop.Election.{EtherAddr, AwdlElectionState}
use cosmicdrop.Frame.{awdl_election_parameters_v2_tlv}
use cosmicdrop.Peers.{AwdlPeer, AwdlPeerState, peer_get, peer_get_mut}
use cosmicdrop.Rx.{rx_ok, done}
use cosmicdrop.Rx.Tlv.{awdl_handle_election_params_v2_tlv, write_election, write_peer}
use cosmicdrop.State.{AwdlState}
use cosmicdrop.Table.Laws.{get-modify}
use cosmicdrop.Tx.{packed_lem}
use cosmicdrop.Tx.Tlv.{awdl_init_election_params_v2_tlv, election_v2_value}
use cosmicdrop.Wire.{ok, from_le32, to_le32, to_le16, read_le32, read_ether_addr, read_tlv}
use cosmicdrop.Wire.Reads.{at, read_le32_lem, read_ether_addr_lem, window, le32_at}
use cosmicdrop.Wire.RoundTrip.{encode_tlv, read_tlv-encode_tlv, at_after, window_after}

-- An election state that fits its fields.
pub record IsSendable (e : AwdlElectionState) : Type 0 where
  pub master_size : length e.master_addr ≡ 6
  pub sync_size : length e.sync_addr ≡ 6
  pub counter_fits : e.master_counter < 2 ^ 32
  pub height_fits : e.height < 2 ^ 32
  pub metric_fits : e.master_metric < 2 ^ 32
  pub self_metric_fits : e.self_metric < 2 ^ 32
  pub self_counter_fits : e.self_counter < 2 ^ 32

module _ (a b r : List ℕ) (ha : length a ≡ 6) (hb : length b ≡ 6) where
  at_behind : (k : ℕ) → at (a ++ (b ++ r)) (12 + k) ≡ at r k
  at_behind k =
      let e : 12 + k ≡ length a + (length b + k) = omega arith in
      rw (e, at_after a (b ++ r) (length b + k)) (at_after b r k)

  length_all : length (a ++ (b ++ r)) ≡ 12 + length r
  length_all = omega (arith, length-append a (b ++ r), length-append b r)

  read_le32_behind :
      (k : ℕ) → k + 4 ≤ length r → read_le32 (a ++ (b ++ r)) (12 + k) ≡ ok (le32_at r k)
  read_le32_behind k h =
      let e1 : 12 + k + 1 ≡ 12 + (k + 1) = omega arith in
      let e2 : 12 + k + 2 ≡ 12 + (k + 2) = omega arith in
      let e3 : 12 + k + 3 ≡ 12 + (k + 3) = omega arith in
      ground (
        arith,
        read_le32_lem (a ++ (b ++ r)) (12 + k),
        length_all,
        at_behind k,
        at_behind (k + 1),
        at_behind (k + 2),
        at_behind (k + 3),
        e1,
        e2,
        e3,
      )

  read_first : read_ether_addr (a ++ (b ++ r)) 0 ≡ ok a
  read_first =
      let e : window (a ++ (b ++ r)) 0 6 ≡ a = rw (sym ha) (window_after [] a (b ++ r) 0 refl) in
      ground (arith, read_ether_addr_lem (a ++ (b ++ r)) 0, length_all, e)

  read_second : read_ether_addr (a ++ (b ++ r)) 6 ≡ ok b
  read_second =
      let e : window (a ++ (b ++ r)) 6 6 ≡ b =
        ap (λ (n : ℕ). window (a ++ (b ++ r)) 6 n) (sym hb) ∙ window_after a b r 6 (sym ha) in
      ground (arith, read_ether_addr_lem (a ++ (b ++ r)) 6, length_all, e)

from-to_le32 :
    (v : ℕ)
    → v < 2 ^ 32
    → from_le32 (v % 256) (v / 256 % 256) (v / 65536 % 256) (v / 16777216 % 256) ≡ v
from-to_le32 v h = omega arith

-- A write to a known peer.
pub get_mut :
    (s : AwdlPeerState) (src : EtherAddr) (f : AwdlPeer → AwdlPeer) {p : AwdlPeer}
    → peer_get s src ≡ some p
    → peer_get (peer_get_mut s src f) src ≡ some (f p)
unfolding peer_get peer_get_mut
get_mut s src f e = ground (arith, get-modify src src f s.peers, bytes_eq_refl src)

-- The peer `src` after it has sent its election state.
abbrev pub informed : AwdlElectionState → AwdlPeer → AwdlPeer
informed e peer = record peer {
  election = record e { self_addr = peer.election.self_addr };
  supports_v2 = true;
}

module _ (sender : AwdlElectionState) (src : EtherAddr) (receiver : AwdlState)
    (peer : AwdlPeer) where
  written : AwdlState
  written =
      write_peer src (λ p. record p { supports_v2 = true })
        (write_election src (λ e. record e { self_counter = sender.self_counter })
          (write_election src (λ e. record e { self_metric = sender.self_metric })
            (write_election src (λ e. record e { master_metric = sender.master_metric })
              (write_election src (λ e. record e { height = sender.height })
                (write_election src (λ e. record e { master_counter = sender.master_counter })
                  (write_election src
                    (λ e. record e {
                      master_addr = sender.master_addr;
                      sync_addr = sender.sync_addr;
                    })
                    receiver))))))

  get_written :
      peer_get receiver.peers src ≡ some peer
      → peer_get (written).peers src ≡ some (informed sender peer)
  unfolding written write_election write_peer
  get_written known = get_mut _ src _ (
      get_mut _ src _ (
        get_mut _ src _
          (get_mut _ src _ (get_mut _ src _ (get_mut _ src _ (get_mut _ src _ known))))))

module _ (sender : AwdlState) (h : IsSendable sender.election) where
  received :
      (src : EtherAddr) (receiver : AwdlState) (peer : AwdlPeer)
      → peer_get receiver.peers src ≡ some peer
      → awdl_handle_election_params_v2_tlv src (election_v2_value sender) receiver
        ≡ done (rx_ok, written sender.election src receiver peer)
  unfolding awdl_handle_election_params_v2_tlv election_v2_value written
  received src receiver peer known =
      let e = sender.election in
      let a = e.master_addr in
      let b = e.sync_addr in
      let tail : List ℕ =
        to_le32 e.master_counter
        ++ (to_le32 e.height
            ++ (to_le32 e.master_metric
                ++ (to_le32 e.self_metric
                    ++ (to_le32 0 ++ (to_le32 0 ++ to_le32 e.self_counter))))) in
      rw
        (
          awdl_handle_election_params_v2_tlv,
          known,
          read_first a b tail h.master_size h.sync_size,
          read_second a b tail h.master_size h.sync_size,
          read_le32_behind a b tail h.master_size h.sync_size 0 (omega arith),
          from-to_le32 e.master_counter h.counter_fits,
          read_le32_behind a b tail h.master_size h.sync_size 4 (omega arith),
          from-to_le32 e.height h.height_fits,
          read_le32_behind a b tail h.master_size h.sync_size 8 (omega arith),
          from-to_le32 e.master_metric h.metric_fits,
          read_le32_behind a b tail h.master_size h.sync_size 12 (omega arith),
          from-to_le32 e.self_metric h.self_metric_fits,
          read_le32_behind a b tail h.master_size h.sync_size 24 (omega arith),
          from-to_le32 e.self_counter h.self_counter_fits,
        )
        refl

  length_value : length (election_v2_value sender) ≡ 40
  unfolding election_v2_value
  length_value =
      let e = sender.election in
      let tail : List ℕ =
        to_le32 e.master_counter
        ++ (to_le32 e.height
            ++ (to_le32 e.master_metric
                ++ (to_le32 e.self_metric
                    ++ (to_le32 0 ++ (to_le32 0 ++ to_le32 e.self_counter))))) in
      length_all e.master_addr e.sync_addr tail h.master_size h.sync_size

  -- The buffer behind the TLV is as it was.
  built :
      (buf : List ℕ)
      → 43 ≤ length buf
      → awdl_init_election_params_v2_tlv buf sender
        ≡ ok (
          encode_tlv awdl_election_parameters_v2_tlv (election_v2_value sender) ++ drop 43 buf,
          43,
        )
  unfolding awdl_init_election_params_v2_tlv
  built buf enough =
      let v = election_v2_value sender in
      let bytes : List ℕ = awdl_election_parameters_v2_tlv ∷ (to_le16 40 ++ v) in
      let size : length bytes ≡ 43 = omega (arith, length_value) in
      let same : encode_tlv awdl_election_parameters_v2_tlv v ≡ bytes =
        ap (λ (n : ℕ). awdl_election_parameters_v2_tlv ∷ (to_le16 n ++ v)) length_value in
      packed_lem buf bytes 43 size enough
      ∙ ap (λ (written : List ℕ). ok (written ++ drop 43 buf, 43)) (sym same)

-- For an election state with six-byte addresses and 32-bit numbers, and a buffer of 43 bytes or
-- more, the builder of the second election TLV writes 43 bytes. `read_tlv` finds in them a TLV of
-- that type with 40 bytes. A node that knows the peer and handles this TLV answers `Ok`, and then
-- holds the sender's election state for the peer, under the peer's own address, and knows that the
-- peer supports this TLV.
pub election_v2_round_trip :
    (sender receiver : AwdlState) (src : EtherAddr) (peer : AwdlPeer) (buf : List ℕ)
    → IsSendable sender.election
    → 43 ≤ length buf
    → peer_get receiver.peers src ≡ some peer
    → (buf' v : List ℕ) × (receiver' : AwdlState) × (awdl_init_election_params_v2_tlv buf sender
        ≡ ok (buf', 43))
      × (read_tlv buf' 0 ≡ ok (awdl_election_parameters_v2_tlv, 40, v, 43))
      × (awdl_handle_election_params_v2_tlv src v receiver ≡ done (rx_ok, receiver'))
      × (peer_get receiver'.peers src ≡ some (informed sender.election peer))
election_v2_round_trip sender receiver src peer buf h enough known =
    let v = election_v2_value sender in
    let e = length_value sender h in
    let read : read_tlv (encode_tlv awdl_election_parameters_v2_tlv v ++ drop 43 buf) 0
        ≡ ok (awdl_election_parameters_v2_tlv, 40, v, 43) =
      read_tlv-encode_tlv [] awdl_election_parameters_v2_tlv v (drop 43 buf) (omega (arith, e))
      ∙ ap (λ (n : ℕ). ok (awdl_election_parameters_v2_tlv, n, v, 3 + n)) e in
    (
      encode_tlv awdl_election_parameters_v2_tlv v ++ drop 43 buf,
      v,
      written sender.election src receiver peer,
      built sender h buf enough,
      read,
      received sender h src receiver peer known,
      get_written sender.election src receiver peer known,
    )
