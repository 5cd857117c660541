-- ===== src/Rx/Tests.antt =====
-- Reception at small frames.
use cosmicdrop.Base.{
  ℕ, ◌≡◌, refl, arith, Option, none, some, List, [], ◌∷◌, ◌++◌, length, drop, replicate, leb, ◌&&◌,
  if◌then◌else◌,
}
use cosmicdrop.Channel.{chan_opclass_6}
use cosmicdrop.Election.{EtherAddr}
use cosmicdrop.Peers.{peer_add, peer_get}
use cosmicdrop.Peers.Keys.{new-IsWellKeyed, peer_add-IsWellKeyed}
use cosmicdrop.Rx.{RxResult, done}
use cosmicdrop.Rx.Entry.{awdl_rx_frame}
use cosmicdrop.Rx.Ethernet.{awdl_rx_data}
use cosmicdrop.Rx.Forwarding.{counted, has_llc, awdl_rx_data-Ethernet}
use cosmicdrop.Rx.Safety.{IsValid, IsNext}
use cosmicdrop.Rx.Safety.Whole.{awdl_rx_frame-IsSafe}
use cosmicdrop.State.{AwdlState, new}

abbrev self : EtherAddr
self = 2 ∷ 0 ∷ 0 ∷ 0 ∷ 0 ∷ 1 ∷ []

abbrev peer : EtherAddr
peer = 2 ∷ 0 ∷ 0 ∷ 0 ∷ 0 ∷ 2 ∷ []

start : AwdlState
unfolding new
start = new [] self chan_opclass_6 0

-- A node that knows one peer.
node : AwdlState
unfolding start
node = record start { peers = (peer_add start.peers peer 10).0 }

node-IsValid : IsValid node
unfolding node start new
node-IsValid = record {
  timed = record { mode_pos = omega arith; period_pos = omega arith; fits = omega arith };
  keyed = peer_add-IsWellKeyed start.peers peer 10 refl new-IsWellKeyed;
}

-- A radiotap header of eight bytes and an action frame from the peer: the action header of a PSF, and
-- a version TLV.
abbrev psf_frame : List ℕ
psf_frame =
    (0 ∷ 0 ∷ 8 ∷ 0 ∷ 0 ∷ 0 ∷ 0 ∷ 0 ∷ [])
    ++ ((0xd0 ∷ 0 ∷ 0 ∷ 0 ∷ [])
        ++ (replicate 6 0xff
            ++ (peer
                ++ (replicate 6 0
                    ++ ((0 ∷ 0 ∷ [])
                        ++ ((127 ∷ 0 ∷ 0x17 ∷ 0xf2 ∷ 8 ∷ 0x10 ∷ 0 ∷ 0 ∷ [])
                            ++ (replicate 8 0 ++ (21 ∷ 2 ∷ 0 ∷ 0x34 ∷ 1 ∷ []))))))))

awdl_rx_frame-IsSafe_example :
    (r : RxResult × Option (List ℕ)) × (s' : AwdlState) × (awdl_rx_frame
        (λ bytes. bytes)
        50
        psf_frame
        node
      ≡ done (r, s'))
    × IsNext node s'
awdl_rx_frame-IsSafe_example = awdl_rx_frame-IsSafe (λ bytes. bytes) 50 psf_frame node node-IsValid

-- The LLC header, the AWDL data header and two bytes of payload.
abbrev data_body : List ℕ
data_body =
    (0xaa ∷ 0xaa ∷ 3 ∷ 0 ∷ 0x17 ∷ 0xf2 ∷ 8 ∷ 0 ∷ [])
    ++ ((3 ∷ 4 ∷ 0 ∷ 0 ∷ 0 ∷ 0 ∷ 0x86 ∷ 0xdd ∷ []) ++ (0x60 ∷ 0x61 ∷ []))

awdl_rx_data-Ethernet_example :
    awdl_rx_data data_body peer self node
    ≡ done (
      elim (peer_get node.peers peer) [
        | none ↦ none
        | some p ↦
            if has_llc data_body && leb 16 (length data_body)
            then some (self ++ (peer ++ (0x08 ∷ 0x00 ∷ drop 16 data_body)))
            else none
      ],
      counted node,
    )
awdl_rx_data-Ethernet_example = awdl_rx_data-Ethernet data_body peer self node
