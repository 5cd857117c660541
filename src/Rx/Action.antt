-- ===== src/Rx/Action.antt =====
-- Action frames in src/awdl/rx.rs: the header, the RSSI filter and the loop over the TLVs.
use cosmicdrop.Base.{
  ℕ, zero, suc, ◌+◌, ltb, leb, ◌==◌, if◌then◌else◌, Bool, true, false, ◌&&◌, ◌||◌, not, Option,
  none, some, List, length, take, bytes_eq, u64,
}
use cosmicdrop.Base.Int.{ℤ, ltb_ℤ, add_i8}
use cosmicdrop.Election.{EtherAddr}
use cosmicdrop.Frame.{
  AwdlActionType, psf, mif, read_packed, to_awdl_action, awdl_action_size,
  ieee80211_vendor_specific, awdl_oui, awdl_type, awdl_version_compat,
}
use cosmicdrop.Peers.{AwdlPeer, PeersStatus, peer_get, peer_add}
use cosmicdrop.Rx.{
  RxResult, ignore, ignore_rssi, rx_ok, unexpected_format, discriminant, Run, done, fault, stuck,
  ◌>>=◌, match_read, drain,
}
use cosmicdrop.Rx.Tlv.{Handled, awdl_handle_tlv, write_peer}
use cosmicdrop.State.{AwdlState}
use cosmicdrop.Wire.{read_tlv}

unfoldable pub awdl_parse_action_hdr : List ℕ → Option AwdlActionType
unfolding read_packed to_awdl_action
awdl_parse_action_hdr frame = elim (read_packed awdl_action_size frame 0) [
  | none ↦ none
  | some bytes ↦
      let af = to_awdl_action bytes in
      if (af.category == ieee80211_vendor_specific)
        && (bytes_eq af.oui awdl_oui
            && ((af.type_ == awdl_type) && (af.version == awdl_version_compat)))
      then (if af.subtype == 0 then some psf else (if af.subtype == 3 then some mif else none))
      else none
]

-- `result < RxResult::Ok`.
unfoldable pub is_error : RxResult → Bool
unfolding discriminant
is_error result = ltb_ℤ (discriminant result) (discriminant rx_ok)

unfoldable pub is_mif : AwdlActionType → Bool
is_mif psf = false
is_mif mif = true

unfoldable pub is_known : Option AwdlPeer → Bool
is_known none = false
is_known (some p) = true

-- Whether the RSSI filter drops the frame.
unfoldable pub rssi_too_low : EtherAddr → ℤ → AwdlState → Bool
unfolding is_known
rssi_too_low src rssi state =
    let known = is_known (peer_get state.peers src) in
    state.filter_rssi
    && ((known && ltb_ℤ rssi (add_i8 state.rssi_threshold state.rssi_grace))
        || (not known && ltb_ℤ rssi state.rssi_threshold))

unfoldable pub is_internal : PeersStatus → Bool
is_internal PeersStatus.internal = true
is_internal _ = false

module _ (from_utf8_lossy : List ℕ → List ℕ) (src : EtherAddr) (tsft : ℕ) where
  -- The loop at `tlv_offset`. `returned` is the early return of the function, `finished` the break.
  unfoldable pub tlv_loop : ℕ → List ℕ → ℕ → AwdlState → Run (Option RxResult × AwdlState)
  unfolding is_error
  tlv_loop zero frame tlv_offset state =
      if leb (length frame) tlv_offset then done (none, state) else stuck
  tlv_loop (suc fuel) frame tlv_offset state = elim (leb (length frame) tlv_offset) [
    | true ↦ done (none, state)
    | false ↦ match_read (read_tlv frame tlv_offset) (done (some unexpected_format, state)) λ tlv.
        let copy = take (tlv.1) (tlv.2) in
        do
          (result, state') ← awdl_handle_tlv from_utf8_lossy src (tlv.0) copy state tsft
          elim (is_error result) [
            | true ↦ done (some unexpected_format, state')
            | false ↦ tlv_loop fuel frame (tlv_offset + tlv.3) state'
          ]
  ]

  -- What follows the loop.
  unfoldable pub finish_action : AwdlActionType → AwdlState → AwdlState
  unfolding write_peer is_mif
  finish_action subtype state =
      let state' =
        if is_mif subtype
        then write_peer src (λ p. record p { sent_mif = true }) state
        else state in
      record state' { peers = (peer_add state'.peers src tsft).0 }

  -- The TLVs of the frame behind the action header. The fuel is the length of the frame: each TLV
  -- takes three bytes at least.
  unfoldable pub handle_tlvs : AwdlActionType → List ℕ → AwdlState → Handled
  unfolding finish_action
  handle_tlvs subtype frame state = do
    (returned, state') ← tlv_loop (length frame) frame 0 state
    elim returned [
      | some result ↦ done (result, state')
      | none ↦ done (rx_ok, finish_action subtype state')
    ]

  -- The frame behind the RSSI filter.
  unfoldable pub accept_action : AwdlActionType → List ℕ → AwdlState → Handled
  unfolding handle_tlvs is_internal
  accept_action subtype frame state =
      let counted = record state {
        stats = record (state.stats) { rx_action = u64 (state.stats.rx_action + 1) };
      } in
      let added = peer_add counted.peers src tsft in
      let state1 = record counted { peers = added.0 } in
      if is_internal (added.1.0) then done (ignore, state1) else handle_tlvs subtype frame state1

  unfoldable pub awdl_rx_action : List ℕ → ℤ → AwdlState → Handled
  unfolding awdl_parse_action_hdr rssi_too_low accept_action
  awdl_rx_action frame rssi state = elim (awdl_parse_action_hdr frame) [
    | none ↦ done (ignore, state)
    | some subtype ↦
        if ltb (length frame) awdl_action_size
        then done (unexpected_format, state)
        else match_read (drain awdl_action_size frame) fault λ frame'.
          if rssi_too_low src rssi state
          then done (ignore_rssi, state)
          else accept_action subtype frame' state
  ]
