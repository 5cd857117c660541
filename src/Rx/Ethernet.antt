-- ===== src/Rx/Ethernet.antt =====
-- Data frames in src/awdl/rx.rs: the conversion to Ethernet and A-MSDUs.
use cosmicdrop.Base.{
  ℕ, zero, suc, ◌+◌, ◌-◌, ◌%◌, min, ltb, if◌then◌else◌, true, false, not, Option, none, some, List,
  ◌++◌, length, take, drop, u64,
}
use cosmicdrop.Election.{EtherAddr}
use cosmicdrop.Frame.{llc_hdr_size, awdl_data_size}
use cosmicdrop.Peers.{peer_get}
use cosmicdrop.Rx.{Run, done, fault, stuck, ◌>>=◌, match_read, drain}
use cosmicdrop.Rx.Llc.{awdl_valid_llc_header}
use cosmicdrop.State.{AwdlState}
use cosmicdrop.Wire.{read_be16, read_ether_addr, slice, to_be16}

abbrev pub Converted : Type 0
Converted = Run (Option (List ℕ) × AwdlState)

-- Behind the LLC header: the Ethernet frame, with the type that was read before.
unfoldable pub to_ethernet : List ℕ → EtherAddr → EtherAddr → ℕ → AwdlState → Converted
to_ethernet frame src dst ether_type state =
    if ltb (length frame) awdl_data_size
    then done (none, state)
    else match_read (slice frame awdl_data_size (length frame)) fault
        λ payload. done (some (dst ++ (src ++ (to_be16 ether_type ++ payload))), state)

unfoldable pub awdl_rx_data : List ℕ → EtherAddr → EtherAddr → AwdlState → Converted
unfolding to_ethernet
awdl_rx_data frame src dst state =
    let counted = record state {
      stats = record (state.stats) { rx_data = u64 (state.stats.rx_data + 1) };
    } in
    elim (peer_get counted.peers src) [
      | none ↦ done (none, counted)
      | some peer ↦ awdl_valid_llc_header frame >>= λ valid.
          if not valid
          then done (none, counted)
          else match_read (read_be16 frame 6) (done (none, counted)) λ ether_type.
            if ltb (length frame) llc_hdr_size
            then done (none, counted)
            else match_read (drain llc_hdr_size frame) fault
                λ frame'. to_ethernet frame' src dst ether_type counted
    ]

-- The padding that is taken off behind a subframe.
unfoldable pub skip_padding : ℕ → List ℕ → List ℕ
skip_padding len_a frame =
    if ltb 0 (length frame)
    then drop (min ((4 - (14 + len_a) % 4) % 4) (length frame)) frame
    else frame

-- The last frame that was converted.
unfoldable pub later : Option (List ℕ) → Option (List ℕ) → Option (List ℕ)
later none result = result
later (some eth) result = some eth

-- The loop over the subframes. Each takes 14 bytes at least.
unfoldable pub amsdu_loop : ℕ → List ℕ → Option (List ℕ) → AwdlState → Converted
unfolding skip_padding later
amsdu_loop zero frame result state = if ltb (length frame) 14 then done (result, state) else stuck
amsdu_loop (suc fuel) frame result state = elim (ltb (length frame) 14) [
  | true ↦ done (result, state)
  | false ↦ match_read (read_ether_addr frame 0) (done (none, state)) λ dst_a.
      match_read (read_ether_addr frame 6) (done (none, state)) λ src_a.
        match_read (read_be16 frame 12) (done (none, state)) λ len_a.
          match_read (drain 14 frame) fault λ frame1. elim (ltb (length frame1) len_a) [
            | true ↦ done (result, state)
            | false ↦ do
              (eth, state') ← awdl_rx_data (take len_a frame1) src_a dst_a state
              match_read (drain len_a frame1) fault
                  λ frame2. amsdu_loop fuel (skip_padding len_a frame2) (later eth result) state'
          ]
]

unfoldable pub awdl_rx_data_amsdu : List ℕ → AwdlState → Converted
awdl_rx_data_amsdu frame state = amsdu_loop (length frame) frame none state
