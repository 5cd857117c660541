-- ===== src/Rx/Tlv.antt =====
-- The handlers of src/awdl/rx.rs for the TLVs of an action frame. Each returns its result and the
-- state, and keeps what was written before an error.
use cosmicdrop.Base.{
  ℕ, zero, suc, ◌+◌, ◌*◌, ltb, ◌==◌, if◌then◌else◌, true, ◌||◌, not, Option, none, some, List, [],
  ◌∷◌, get_or, take, replicate, bit_and, u8, u64,
}
use cosmicdrop.Base.Int.{ℤ, pos, negsuc, ltb_ℤ}
use cosmicdrop.Channel.{
  AwdlChan, AwdlChanEncoding, simple, legacy, opclass, awdl_chanseq_length, awdl_chan_encoding_size,
}
use cosmicdrop.Election.{EtherAddr, AwdlElectionState, awdl_election_is_sync_master}
use cosmicdrop.Frame.{
  awdl_synchronizaton_parameters_tlv, awdl_election_parameters_tlv, awdl_data_path_state_tlv,
  awdl_arpa_tlv, awdl_chan_seq_tlv, awdl_version_tlv, awdl_election_parameters_v2_tlv,
  awdl_data_path_flag_country_code, awdl_data_path_flag_social_channel_map,
  awdl_data_path_flag_infra_info, awdl_data_path_flag_infra_address,
  awdl_data_path_flag_awdl_address,
}
use cosmicdrop.Peers.{AwdlPeer, peer_get, peer_get_mut, host_name_length_max}
use cosmicdrop.Rx.{
  RxResult, ignore, rx_ok, unexpected_format, unexpected_value, Run, done, fault, match_read,
}
use cosmicdrop.State.{AwdlState}
use cosmicdrop.Sync.{awdl_sync_error_tu, awdl_sync_update_last}
use cosmicdrop.Wire.{
  WireResult, ok, ◌>>=◌, read_u8, read_le16, read_le32, read_bytes, read_bytes_copy,
  read_ether_addr, read_int_string,
}

abbrev pub awdl_sync_threshold : ℤ
awdl_sync_threshold = pos 3

-- A write to the peer `src`, if it is known.
unfoldable pub write_peer : EtherAddr → (AwdlPeer → AwdlPeer) → AwdlState → AwdlState
write_peer src f state = record state { peers = peer_get_mut state.peers src f }

unfoldable pub write_election :
    EtherAddr → (AwdlElectionState → AwdlElectionState) → AwdlState → AwdlState
unfolding write_peer
write_election src f = write_peer src (λ p. record p { election = f p.election })

abbrev pub Handled : Type 0
Handled = Run (RxResult × AwdlState)

-- `return RxResult::UnexpectedFormat` in the given state.
abbrev pub malformed : AwdlState → Handled
malformed state = done (unexpected_format, state)

unfoldable pub awdl_handle_sync_params_tlv : EtherAddr → List ℕ → AwdlState → ℕ → Handled
awdl_handle_sync_params_tlv src val state now =
    if not (awdl_election_is_sync_master state.election src)
    then done (ignore, state)
    else match_read (read_le16 val 1) (malformed state) λ tx_down.
      match_read (read_le16 val 29) (malformed state) λ aw_counter.
        let counted = record (state.sync) { meas_total = u64 (state.sync.meas_total + 1) } in
        elim (awdl_sync_error_tu now tx_down aw_counter counted) [
          | none ↦ fault
          | some sync_err ↦
              let checked =
                if ltb_ℤ awdl_sync_threshold sync_err || ltb_ℤ sync_err (negsuc 2)
                then record counted { meas_err = u64 (counted.meas_err + 1) }
                else counted in
              done (
                rx_ok,
                record state { sync = awdl_sync_update_last now tx_down aw_counter checked },
              )
        ]

-- The encoding of a chanseq, `none` for an unknown one.
unfoldable pub encoding_of : ℕ → Option AwdlChanEncoding
encoding_of encoding =
    if encoding == 1
    then some legacy
    else (if encoding == 3 then some opclass else (if encoding == 0 then some simple else none))

-- The loop over the channels from slot `i` on, with `left` slots to go.
unfoldable pub read_channels : List ℕ → ℕ → ℕ → ℕ → WireResult (List AwdlChan)
read_channels val size zero i = ok []
read_channels val size (suc left) i = do
  bytes ← read_bytes val (6 + i * size) size
  list ← read_channels val size left (i + 1)
  ok (record { val0 = get_or bytes 0 0; val1 = get_or bytes 1 0 } ∷ list)

-- An equal sequence is written anew here; the source skips that.
unfoldable pub awdl_handle_chanseq_tlv : EtherAddr → List ℕ → AwdlState → Handled
unfolding encoding_of write_peer
awdl_handle_chanseq_tlv src val state = match_read (read_u8 val 0) (malformed state) λ count.
    if not (count + 1 == awdl_chanseq_length)
    then done (unexpected_value, state)
    else match_read (read_u8 val 2) (malformed state) λ duplicate_count.
      if ltb 0 duplicate_count
      then done (unexpected_value, state)
      else match_read (read_u8 val 3) (malformed state) λ step_count.
        if not (u8 (step_count + 1) == state.sync.presence_mode)
        then done (unexpected_value, state)
        else match_read (read_le16 val 4) (malformed state) λ fill_channel.
          if not (fill_channel == 0xffff)
          then done (unexpected_value, state)
          else match_read (read_u8 val 1) (malformed state) λ encoding.
            elim (encoding_of encoding) [
              | none ↦ done (unexpected_value, state)
              | some enc ↦
                  match_read (read_channels val (awdl_chan_encoding_size enc) awdl_chanseq_length 0)
                    (malformed state)
                    λ list. done (rx_ok, write_peer src (λ p. record p { sequence = list }) state)
            ]

unfoldable pub awdl_handle_election_params_tlv : EtherAddr → List ℕ → AwdlState → Handled
unfolding write_election
awdl_handle_election_params_tlv src val state = elim (peer_get state.peers src) [
  | none ↦ done (ignore, state)
  | some peer ↦
      if peer.supports_v2
      then done (rx_ok, state)
      else match_read (read_u8 val 3) (malformed state) λ distance.
        let state1 = write_election src (λ e. record e { height = distance }) state in
        match_read (read_ether_addr val 5) (malformed state1) λ master_addr.
          let state2 = write_election src (λ e. record e { master_addr = master_addr }) state1 in
          match_read (read_le32 val 11) (malformed state2) λ master_metric.
            let state3 =
              write_election src (λ e. record e { master_metric = master_metric }) state2 in
            match_read (read_le32 val 15) (malformed state3) λ self_metric.
              done (rx_ok, write_election src (λ e. record e { self_metric = self_metric }) state3)
]

unfoldable pub awdl_handle_election_params_v2_tlv : EtherAddr → List ℕ → AwdlState → Handled
unfolding write_election
awdl_handle_election_params_v2_tlv src val state = elim (peer_get state.peers src) [
  | none ↦ done (ignore, state)
  | some peer ↦ match_read (read_ether_addr val 0) (malformed state) λ master_addr.
      match_read (read_ether_addr val 6) (malformed state) λ sync_addr.
        let state1 =
          write_election src (λ e. record e { master_addr = master_addr; sync_addr = sync_addr })
            state in
        match_read (read_le32 val 12) (malformed state1) λ master_counter.
          let state2 =
            write_election src (λ e. record e { master_counter = master_counter }) state1 in
          match_read (read_le32 val 16) (malformed state2) λ height.
            let state3 = write_election src (λ e. record e { height = height }) state2 in
            match_read (read_le32 val 20) (malformed state3) λ master_metric.
              let state4 =
                write_election src (λ e. record e { master_metric = master_metric }) state3 in
              match_read (read_le32 val 24) (malformed state4) λ self_metric.
                let state5 =
                  write_election src (λ e. record e { self_metric = self_metric }) state4 in
                match_read (read_le32 val 36) (malformed state5) λ self_counter.
                  let state6 =
                    write_election src (λ e. record e { self_counter = self_counter }) state5 in
                  done (rx_ok, write_peer src (λ p. record p { supports_v2 = true }) state6)
]

-- The optional fields of a data path state, written where they are present.
unfoldable pub set_data_path : Option (List ℕ) → Option (List ℕ) → AwdlPeer → AwdlPeer
set_data_path country_code infra_addr p = record p {
  country_code = elim country_code [ none ↦ p.country_code | some cc ↦ cc ];
  infra_addr = elim infra_addr [ none ↦ p.infra_addr | some ia ↦ ia ];
}

-- The optional fields of a data path state from `offset` on: each is read if its flag is set, and
-- answers the offset behind it.
unfoldable pub social_field : List ℕ → ℕ → ℕ → WireResult ℕ
social_field val flags offset =
    if bit_and flags awdl_data_path_flag_social_channel_map == 0
    then ok offset
    else do _ ← read_le16 val offset; ok (offset + 2)

unfoldable pub infra_info_field : List ℕ → ℕ → ℕ → WireResult ℕ
infra_info_field val flags offset =
    if bit_and flags awdl_data_path_flag_infra_info == 0
    then ok offset
    else do _ ← read_ether_addr val offset; _ ← read_le16 val (offset + 6); ok (offset + 6 + 2)

unfoldable pub infra_addr_field : List ℕ → ℕ → ℕ → WireResult (ℕ × Option (List ℕ))
infra_addr_field val flags offset =
    if bit_and flags awdl_data_path_flag_infra_address == 0
    then ok (offset, none)
    else do a ← read_ether_addr val offset; ok (offset + 6, some a)

unfoldable pub awdl_addr_field : List ℕ → ℕ → ℕ → WireResult ℕ
awdl_addr_field val flags offset =
    if bit_and flags awdl_data_path_flag_awdl_address == 0
    then ok offset
    else do _ ← read_ether_addr val offset; ok (offset + 6)

unfoldable pub awdl_handle_version_tlv : EtherAddr → List ℕ → AwdlState → Handled
unfolding write_peer
awdl_handle_version_tlv src val state = match_read (read_u8 val 0) (malformed state) λ version.
    match_read (read_u8 val 1) (malformed state) λ devclass.
      done (rx_ok, write_peer src (λ p. record p { version = version; devclass = devclass }) state)

-- `from_utf8_lossy` is the library's conversion of bytes to the contents of a `String`.
module _ (from_utf8_lossy : List ℕ → List ℕ) where
  unfoldable pub awdl_handle_arpa_tlv : EtherAddr → List ℕ → AwdlState → Handled
  unfolding write_peer
  awdl_handle_arpa_tlv src val state =
      match_read (read_int_string from_utf8_lossy val 1 host_name_length_max) (malformed state)
        λ name. done (rx_ok, write_peer src (λ p. record p { name = name }) state)

  -- The country code, if present, and the offset behind it.
  unfoldable pub country_field : List ℕ → ℕ → WireResult (ℕ × Option (List ℕ))
  country_field val flags =
      if bit_and flags awdl_data_path_flag_country_code == 0 then ok (2, none) else do
        _ ← read_bytes_copy val 2 (replicate 3 0)
        cc ← read_bytes val 2 3
        ok (2 + 3, some (from_utf8_lossy (take 2 cc)))

  -- The parse of the optional fields: the country code and the infra address, if present.
  unfoldable pub data_path_fields : List ℕ → ℕ → WireResult (Option (List ℕ) × Option (List ℕ))
  data_path_fields val flags = do
    (offset1, country_code) ← country_field val flags
    offset2 ← social_field val flags offset1
    offset3 ← infra_info_field val flags offset2
    (offset4, infra_addr) ← infra_addr_field val flags offset3
    _ ← awdl_addr_field val flags offset4
    ok (country_code, infra_addr)

  unfoldable pub awdl_handle_data_path_state_tlv : EtherAddr → List ℕ → AwdlState → Handled
  unfolding data_path_fields write_peer
  awdl_handle_data_path_state_tlv src val state =
      match_read (read_le16 val 0) (malformed state) λ flags.
        match_read (data_path_fields val flags) (malformed state)
          λ fields. done (rx_ok, write_peer src (set_data_path (fields.0) (fields.1)) state)

  -- The log line of the last case is left out.
  unfoldable pub awdl_handle_tlv : EtherAddr → ℕ → List ℕ → AwdlState → ℕ → Handled
  awdl_handle_tlv src tlv_type val state tsft =
      if tlv_type == awdl_synchronizaton_parameters_tlv
      then awdl_handle_sync_params_tlv src val state tsft
      else (if tlv_type == awdl_chan_seq_tlv
          then awdl_handle_chanseq_tlv src val state
          else (if tlv_type == awdl_election_parameters_tlv
              then awdl_handle_election_params_tlv src val state
              else (if tlv_type == awdl_election_parameters_v2_tlv
                  then awdl_handle_election_params_v2_tlv src val state
                  else (if tlv_type == awdl_arpa_tlv
                      then awdl_handle_arpa_tlv src val state
                      else (if tlv_type == awdl_data_path_state_tlv
                          then awdl_handle_data_path_state_tlv src val state
                          else (if tlv_type == awdl_version_tlv
                              then awdl_handle_version_tlv src val state
                              else done (ignore, state)))))))
