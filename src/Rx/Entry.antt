-- ===== src/Rx/Entry.antt =====
-- `awdl_rx` of src/awdl/rx.rs: a received radiotap frame, from its first byte to its handler.
use cosmicdrop.Base.{
  ℕ, ◌+◌, ltb, ◌==◌, if◌then◌else◌, ◌&&◌, not, Option, none, some, List, length, bytes_eq, bit_and,
}
use cosmicdrop.Base.Int.{ℤ, pos}
use cosmicdrop.Election.{EtherAddr}
use cosmicdrop.Frame.{
  read_packed, to_ieee80211_hdr, ieee80211_hdr_size, ieee80211_fctl_ftype, ieee80211_fctl_stype,
  ieee80211_ftype_mgmt, ieee80211_ftype_data, ieee80211_stype_action, ieee80211_stype_data,
  ieee80211_stype_qos_data, ieee80211_qos_ctl_len, ieee80211_qos_ctl_a_msdu_present,
}
use cosmicdrop.Rx.{
  RxResult, rx_ok, unexpected_format, unexpected_type, ignore_failed_crc, ignore_from_self, Run,
  done, fault, stuck, match_read, drain,
}
use cosmicdrop.Rx.Radiotap.{radiotap_parse, check_fcs}
use cosmicdrop.Rx.Action.{awdl_rx_action}
use cosmicdrop.Rx.Ethernet.{Converted, awdl_rx_data, awdl_rx_data_amsdu}
use cosmicdrop.State.{AwdlState}
use cosmicdrop.Wire.{WireResult, ok, ◌>>=◌, index, from_le16}

-- `(RxResult, Option<Vec<u8>>)` and the state.
abbrev pub Received : Type 0
Received = Run ((RxResult × Option (List ℕ)) × AwdlState)

-- A converted data frame is received with `Ok`.
abbrev pub with_ok : Converted → Received
with_ok (done (eth, state)) = done ((rx_ok, eth), state)
with_ok fault = fault
with_ok stuck = stuck

abbrev pub without_frame : Run (RxResult × AwdlState) → Received
without_frame (done (result, state)) = done ((result, none), state)
without_frame fault = fault
without_frame stuck = stuck

abbrev pub le16_from : List ℕ → ℕ → WireResult ℕ
le16_from frame i = do a ← index frame i; b ← index frame (i + 1); ok (from_le16 a b)

-- A QoS data frame, behind the 802.11 header.
unfoldable pub awdl_rx_qos : List ℕ → EtherAddr → EtherAddr → AwdlState → Received
awdl_rx_qos frame from to state =
    if ltb (length frame) ieee80211_qos_ctl_len
    then done ((unexpected_format, none), state)
    else match_read (le16_from frame 0) fault λ qosc.
      match_read (drain ieee80211_qos_ctl_len frame) fault λ frame'.
        if bit_and qosc ieee80211_qos_ctl_a_msdu_present == 0
        then with_ok (awdl_rx_data frame' from to state)
        else with_ok (awdl_rx_data_amsdu frame' state)

-- The match on the type and subtype of the frame; `tsft` is the clock.
module _ (from_utf8_lossy : List ℕ → List ℕ) (tsft : ℕ) where
  unfoldable pub dispatch : ℕ → List ℕ → EtherAddr → EtherAddr → ℤ → AwdlState → Received
  unfolding awdl_rx_qos
  dispatch fc frame from to rssi state =
      let ftype = bit_and fc ieee80211_fctl_ftype in
      let stype = bit_and fc ieee80211_fctl_stype in
      if (ftype == ieee80211_ftype_mgmt) && (stype == ieee80211_stype_action)
      then without_frame (awdl_rx_action from_utf8_lossy from tsft frame rssi state)
      else (if (ftype == ieee80211_ftype_data) && (stype == ieee80211_stype_data)
          then with_ok (awdl_rx_data frame from to state)
          else (if (ftype == ieee80211_ftype_data) && (stype == ieee80211_stype_qos_data)
              then awdl_rx_qos frame from to state
              else done ((unexpected_type, none), state)))

  -- Behind the radiotap header.
  unfoldable pub awdl_rx_80211 : List ℕ → ℤ → AwdlState → Received
  unfolding dispatch
  awdl_rx_80211 frame rssi state =
      if ltb (length frame) ieee80211_hdr_size
      then done ((unexpected_format, none), state)
      else elim (read_packed ieee80211_hdr_size frame 0) [
        | none ↦ fault
        | some bytes ↦
            let hdr = to_ieee80211_hdr bytes in
            match_read (le16_from frame 0) fault λ fc.
              if bytes_eq hdr.addr2 state.self_address
              then done ((ignore_from_self, none), state)
              else match_read (drain ieee80211_hdr_size frame) fault
                  λ frame'. dispatch fc frame' hdr.addr2 hdr.addr1 rssi state
      ]

  unfoldable pub awdl_rx : List ℕ → AwdlState → Received
  unfolding awdl_rx_80211
  awdl_rx frame state = match_read (radiotap_parse frame (pos 0) 0) fault λ parsed.
      if not (parsed.0)
      then done ((unexpected_format, none), state)
      else (if ltb (length frame) 8
          then done ((unexpected_format, none), state)
          else match_read (le16_from frame 2) fault λ it_len.
            if ltb (length frame) it_len
            then done ((unexpected_format, none), state)
            else match_read (drain it_len frame) fault λ frame1.
              let checked = check_fcs frame1 (parsed.2) in
              if not (checked.0)
              then done ((ignore_failed_crc, none), state)
              else awdl_rx_80211 (checked.1) (parsed.1) state)

  unfoldable pub awdl_rx_frame : List ℕ → AwdlState → Received
  unfolding awdl_rx
  awdl_rx_frame frame state = awdl_rx frame state
