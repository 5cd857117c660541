-- ===== src/Tx/Version.antt =====
-- The version TLV that src/awdl/tx.rs sends, taken over by src/awdl/rx.rs.
use cosmicdrop.Base.{ℕ, ◌≤◌, ◌≡◌, refl, arith, some, List, [], ◌∷◌, ◌++◌, length, drop}
use cosmicdrop.Election.{EtherAddr}
use cosmicdrop.Frame.{awdl_version_tlv}
use cosmicdrop.Peers.{AwdlPeer, peer_get}
use cosmicdrop.Rx.{rx_ok, done}
use cosmicdrop.Rx.Tlv.{awdl_handle_version_tlv, write_peer}
use cosmicdrop.State.{AwdlState}
use cosmicdrop.Tx.{packed_lem}
use cosmicdrop.Tx.Election.{get_mut}
use cosmicdrop.Tx.Tlv.{awdl_init_version_tlv}
use cosmicdrop.Wire.{ok, read_tlv}
use cosmicdrop.Wire.Reads.{read_u8_lem}
use cosmicdrop.Wire.RoundTrip.{encode_tlv, read_tlv-encode_tlv}

-- In a buffer of five bytes or more, the builder of the version TLV writes five bytes, in which
-- `read_tlv` finds a TLV of that type with two bytes. A node that knows the peer and handles this
-- TLV answers `Ok`, and then holds the version and the device class of the sender for the peer; the
-- rest of what it holds for the peer is as before.
pub version_round_trip :
    (sender receiver : AwdlState) (src : EtherAddr) (peer : AwdlPeer) (buf : List ℕ)
    → 5 ≤ length buf
    → peer_get receiver.peers src ≡ some peer
    → (buf' v : List ℕ) × (receiver' : AwdlState) × (awdl_init_version_tlv buf sender
        ≡ ok (buf', 5))
      × (read_tlv buf' 0 ≡ ok (awdl_version_tlv, 2, v, 5))
      × (awdl_handle_version_tlv src v receiver ≡ done (rx_ok, receiver'))
      × (peer_get receiver'.peers src
          ≡ some (record peer { version = sender.version; devclass = sender.dev_class }))
unfolding awdl_init_version_tlv awdl_handle_version_tlv write_peer
version_round_trip sender receiver src peer buf enough known =
    let v : List ℕ = sender.version ∷ sender.dev_class ∷ [] in
    let write : AwdlPeer → AwdlPeer =
      λ p. record p { version = sender.version; devclass = sender.dev_class } in
    (
      encode_tlv awdl_version_tlv v ++ drop 5 buf,
      v,
      write_peer src write receiver,
      packed_lem buf (encode_tlv awdl_version_tlv v) 5 refl enough,
      read_tlv-encode_tlv [] awdl_version_tlv v (drop 5 buf) (omega arith),
      rw (read_u8_lem v 0, read_u8_lem v 1) refl,
      get_mut receiver.peers src write known,
    )
