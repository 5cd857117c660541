-- ===== src/Tx/Data.antt =====
-- The LLC header that src/awdl/tx.rs puts before data, read by src/awdl/rx.rs.
use cosmicdrop.Base.{
  ℕ, ◌≤◌, ◌≡◌, ◌∙◌, refl, arith, false, Option-cases, inl, inr, none, List, [], ◌∷◌, ◌++◌, length,
  drop,
}
use cosmicdrop.Election.{EtherAddr}
use cosmicdrop.Peers.{peer_get}
use cosmicdrop.Rx.{done}
use cosmicdrop.Rx.Ethernet.{awdl_rx_data}
use cosmicdrop.Rx.Forwarding.{counted, has_llc, awdl_rx_data-Ethernet}
use cosmicdrop.State.{AwdlState}
use cosmicdrop.Tx.{packed_lem}
use cosmicdrop.Tx.Frames.{llc_init_awdl_hdr}
use cosmicdrop.Wire.{ok}

abbrev llc_bytes : List ℕ
llc_bytes = 0xaa ∷ 0xaa ∷ 0x03 ∷ 0x00 ∷ 0x17 ∷ 0xf2 ∷ 0x00 ∷ 0x08 ∷ []

no_llc : (rest : List ℕ) → has_llc (llc_bytes ++ rest) ≡ false
no_llc rest = ground arith

rejects :
    (frame : List ℕ) (src dst : EtherAddr) (state : AwdlState)
    → has_llc frame ≡ false
    → awdl_rx_data frame src dst state ≡ done (none, counted state)
rejects frame src dst state h =
    awdl_rx_data-Ethernet frame src dst state ∙ elim (Option-cases (peer_get state.peers src)) [
      | inl e ↦ rw e refl
      | inr (peer, e) ↦ rw (e, h) refl
    ]

-- In a buffer of eight bytes or more, `llc_init_awdl_hdr` writes an eight-byte header. A node that
-- receives what the buffer then holds, from whichever peer, hands nothing to the host: it reads the
-- protocol id big-endian, and the builder stores it little-endian.
pub llc_init_awdl_hdr-rejected :
    (buf : List ℕ) (src dst : EtherAddr) (state : AwdlState)
    → 8 ≤ length buf
    → (buf' : List ℕ) × (llc_init_awdl_hdr buf ≡ ok (buf', 8))
      × (awdl_rx_data buf' src dst state ≡ done (none, counted state))
unfolding llc_init_awdl_hdr
llc_init_awdl_hdr-rejected buf src dst state enough = (
  llc_bytes ++ drop 8 buf,
  packed_lem buf llc_bytes 8 refl enough,
  rejects (llc_bytes ++ drop 8 buf) src dst state (no_llc (drop 8 buf)),
)
