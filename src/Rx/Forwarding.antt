-- ===== src/Rx/Forwarding.antt =====
-- What src/awdl/rx.rs hands to the host for a data frame.
use cosmicdrop.Base.{
  ℕ, zero, suc, ◌∙◌, ◌+◌, ◌-◌, ◌≤◌, ◌≡◌, refl, arith, Bool, false, Bool-cases, Option-cases, ltb,
  leb, ◌==◌, ◌&&◌, none, some, inl, inr, List, [], ◌∷◌, ◌++◌, length, length-drop, take,
  take-length, drop, replicate, if◌then◌else◌, u64,
}
use cosmicdrop.Election.{EtherAddr}
use cosmicdrop.Peers.{peer_get}
use cosmicdrop.Rx.{done}
use cosmicdrop.Rx.Ethernet.{awdl_rx_data, to_ethernet}
use cosmicdrop.Rx.Llc.{llc_parse, awdl_valid_llc_header}
use cosmicdrop.Rx.Safety.{drain_lem}
use cosmicdrop.Rx.Safety.Data.{tail_slice}
use cosmicdrop.State.{AwdlState}
use cosmicdrop.Wire.{ok, read_be16, from_le16}
use cosmicdrop.Wire.Reads.{at, read_u8_lem, read_be16_lem, read_bytes_copy_lem}

-- The bytes AA AA 03, any vendor, and the protocol 0800, as big-endian.
abbrev pub has_llc : List ℕ → Bool
has_llc frame =
    leb 8 (length frame)
    && ((at frame 0 == 0xaa)
        && ((at frame 1 == 0xaa)
            && ((at frame 2 == 0x03) && (from_le16 (at frame 7) (at frame 6) == 0x0800))))

valid_llc_lem : (frame : List ℕ) → awdl_valid_llc_header frame ≡ done (has_llc frame)
unfolding awdl_valid_llc_header llc_parse
valid_llc_lem frame = ground (
  arith,
  read_u8_lem frame 0,
  read_u8_lem frame 1,
  read_u8_lem frame 2,
  read_bytes_copy_lem frame 3 (replicate 3 0),
  read_be16_lem frame 6,
)

drop_nil : (n : ℕ) → drop {A = ℕ} n [] ≡ []
drop_nil zero = refl
drop_nil (suc n) = refl

drop-drop : (xs : List ℕ) (n m : ℕ) → drop n (drop m xs) ≡ drop (m + n) xs
drop-drop [] n m = ground (arith, drop_nil n, drop_nil m, drop_nil (m + n))
drop-drop (x ∷ xs) n zero = let e : 0 + n ≡ n = omega arith in rw e refl
drop-drop (x ∷ xs) n (suc m) =
    let e : suc m + n ≡ suc (m + n) = omega arith in rw e (drop-drop xs n m)

-- The rest of the frame behind both headers.
payload :
    (frame : List ℕ) → take (length (drop 8 frame) - 8) (drop 8 (drop 8 frame)) ≡ drop 16 frame
payload frame =
    take-length (drop 8 (drop 8 frame)) (length (drop 8 frame) - 8)
      (omega (arith, length-drop 8 (drop 8 frame)))
    ∙ drop-drop frame 8 8

to_ethernet_lem :
    (frame : List ℕ) (src dst : EtherAddr) (state : AwdlState)
    → 8 ≤ length frame
    → to_ethernet (drop 8 frame) src dst 0x0800 state
      ≡ done (
        if leb 16 (length frame)
            then some (dst ++ (src ++ (0x08 ∷ 0x00 ∷ drop 16 frame)))
            else none,
        state,
      )
unfolding to_ethernet
to_ethernet_lem frame src dst state h =
    ground (arith, tail_slice (drop 8 frame) 8, payload frame, length-drop 8 frame)

-- The counters of the node after a data frame.
abbrev pub counted : AwdlState → AwdlState
counted state = record state {
  stats = record (state.stats) { rx_data = u64 (state.stats.rx_data + 1) };
}

-- For every frame body, `awdl_rx_data` returns and only counts the frame in the state. It hands on
-- an Ethernet frame exactly if the sender is a known peer, the LLC header is AWDL's and there are 16
-- bytes or more. That frame is the destination, the source, the type 0800 and all that follows the
-- first 16 bytes.
pub awdl_rx_data-Ethernet :
    (frame : List ℕ) (src dst : EtherAddr) (state : AwdlState)
    → awdl_rx_data frame src dst state
      ≡ done (
        elim (peer_get state.peers src) [
          | none ↦ none
          | some peer ↦
              if has_llc frame && leb 16 (length frame)
              then some (dst ++ (src ++ (0x08 ∷ 0x00 ∷ drop 16 frame)))
              else none
        ],
        counted state,
      )
unfolding awdl_rx_data
awdl_rx_data-Ethernet frame src dst state = elim (Option-cases (peer_get state.peers src)) [
  | inl e ↦ rw (e, awdl_rx_data) refl
  | inr (peer, e) ↦
      rw (e, awdl_rx_data, valid_llc_lem frame)
        (elim (Bool-cases (has_llc frame)) [
          | inl llc ↦
              let fits : 8 ≤ length frame = ground arith in
              let be : read_be16 frame 6 ≡ ok 0x0800 = ground (arith, read_be16_lem frame 6) in
              let long : ltb (length frame) 8 ≡ false = ground arith in
              rw (llc, be, long, drain_lem 8 frame fits)
                (to_ethernet_lem frame src dst (counted state) fits)
          | inr foreign ↦ rw foreign refl
        ])
]
