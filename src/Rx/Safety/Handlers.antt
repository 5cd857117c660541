-- ===== src/Rx/Safety/Handlers.antt =====
-- Each TLV handler of src/awdl/rx.rs returns, on any value, and keeps the state valid.
use cosmicdrop.Base.{
  ℕ, zero, suc, ◌+◌, ◌*◌, ◌≡◌, ◌≢◌, refl, arith, Bool, true, false, Option-cases, not, ◌||◌, Option,
  none, some, List, inl, inr, length, drop, length-take, length-drop, if◌then◌else◌, replicate, u64,
}
use cosmicdrop.Base.Int.{pos, negsuc, ltb_ℤ}
use cosmicdrop.Channel.{AwdlChanEncoding, awdl_chan_encoding_size, awdl_chanseq_length}
use cosmicdrop.Election.{EtherAddr, AwdlElectionState, awdl_election_is_sync_master}
use cosmicdrop.Peers.{peer_get}
use cosmicdrop.Rx.{RxResult, rx_ok, unexpected_value, done, match_read}
use cosmicdrop.Rx.Safety.{
  IsValid, IsNext, IsNext-refl, IsNext-trans, IsSafe, safe, match_read-IsSafe, if-IsSafe,
  bind_ne_panic, ok_ne_panic, write_peer-IsNext, write_election-IsNext, KeepsElection,
  match_read_eq-IsSafe,
}
use cosmicdrop.Rx.Tlv.{
  malformed, awdl_handle_sync_params_tlv, awdl_handle_chanseq_tlv, encoding_of, read_channels,
  awdl_handle_election_params_tlv, awdl_handle_election_params_v2_tlv, awdl_handle_arpa_tlv,
  data_path_fields, country_field, social_field, infra_info_field, infra_addr_field,
  awdl_addr_field, set_data_path, awdl_handle_data_path_state_tlv, awdl_handle_version_tlv,
  awdl_handle_tlv, write_peer, write_election,
}
use cosmicdrop.State.{AwdlState}
use cosmicdrop.Sync.{awdl_sync_error_tu, awdl_sync_update_last, AwdlSyncState}
use cosmicdrop.Sync.Timing.{IsTimed, error_tu_total}
use cosmicdrop.Wire.{panic, ok, read_ether_addr, slice}
use cosmicdrop.Wire.Panics.{
  read_u8_ne_panic, read_le16_ne_panic, read_le32_ne_panic, read_bytes_ne_panic,
  read_bytes_copy_ne_panic, read_ether_addr_ne_panic,
}
use cosmicdrop.Wire.Reads.{read_int_string_ne_panic}

read_ether_addr-length :
    (bytes : List ℕ) (i : ℕ) (addr : List ℕ) → read_ether_addr bytes i ≡ ok addr → length addr ≡ 6
unfolding read_ether_addr slice
read_ether_addr-length bytes i addr e =
    ground (arith, length-take 6 (drop i bytes), length-drop i bytes)

module _ (src : EtherAddr) (val : List ℕ) (s : AwdlState) (v : IsValid s) where
  -- A malformed value, with the state as it was.
  here : {r : RxResult} → IsSafe s (done (r, s))
  here = safe (IsNext-refl v)

  version-IsSafe : IsSafe s (awdl_handle_version_tlv src val s)
  unfolding awdl_handle_version_tlv
  version-IsSafe = match_read-IsSafe _ (read_u8_ne_panic val 0) here λ version.
      match_read-IsSafe _ (read_u8_ne_panic val 1) here
        λ devclass. safe (write_peer-IsNext src _ (λ p. (refl, refl, λ h. h)) v)

  and_election :
      {t : AwdlState} (f : AwdlElectionState → AwdlElectionState)
      → KeepsElection f
      → IsNext s t
      → IsNext s (write_election src f t)
  and_election f same n = IsNext-trans n (write_election-IsNext src f same n.valid)

  set_sync-IsNext : (y : AwdlSyncState) → IsTimed y → IsNext s (record s { sync = y })
  set_sync-IsNext y h = record {
    valid = record { timed = h; keyed = v.keyed };
    same_address = refl;
    same_election = refl;
    same_channel = refl;
    same_sequence = refl;
    same_identity = refl;
  }

  sync_params-IsSafe : (now : ℕ) → IsSafe s (awdl_handle_sync_params_tlv src val s now)
  unfolding awdl_handle_sync_params_tlv awdl_sync_update_last
  sync_params-IsSafe now = if-IsSafe (not (awdl_election_is_sync_master s.election src)) here (
      match_read-IsSafe _ (read_le16_ne_panic val 1) here λ tx_down.
        match_read-IsSafe _ (read_le16_ne_panic val 29) here λ aw_counter.
          let counted = record (s.sync) { meas_total = u64 (s.sync.meas_total + 1) } in
          let timed : IsTimed counted = record {
            mode_pos = v.timed.mode_pos;
            period_pos = v.timed.period_pos;
            fits = v.timed.fits;
          } in
          elim (Option-cases (awdl_sync_error_tu now tx_down aw_counter counted)) [
            | inl e ↦ absurd (error_tu_total now tx_down aw_counter counted timed e)
            | inr (sync_err, e) ↦ rw e (
                safe (
                  set_sync-IsNext _ (
                    updated tx_down aw_counter _ (
                      checked (ltb_ℤ (pos 3) sync_err || ltb_ℤ sync_err (negsuc 2)) counted
                        timed))))
          ])
    where
      checked :
          (b : Bool) (y : AwdlSyncState)
          → IsTimed y
          → IsTimed (if b then record y { meas_err = u64 (y.meas_err + 1) } else y)
      checked true y h = record { mode_pos = h.mode_pos; period_pos = h.period_pos; fits = h.fits }
      checked false y h = h

      updated :
          (tx_down aw_counter : ℕ) (y : AwdlSyncState)
          → IsTimed y
          → IsTimed (awdl_sync_update_last now tx_down aw_counter y)
      updated tx_down aw_counter y h = record {
        mode_pos = h.mode_pos;
        period_pos = h.period_pos;
        fits = h.fits;
      }

  read_channels_ne_panic : (size left i : ℕ) → read_channels val size left i ≢ panic
  unfolding read_channels
  read_channels_ne_panic size zero i = λ e. cc
  read_channels_ne_panic size (suc left) i =
      bind_ne_panic _ (read_bytes_ne_panic val (6 + i * size) size)
        λ bytes. bind_ne_panic _ (read_channels_ne_panic size left (i + 1)) λ list. ok_ne_panic _

  chanseq-IsSafe : IsSafe s (awdl_handle_chanseq_tlv src val s)
  unfolding awdl_handle_chanseq_tlv
  chanseq-IsSafe = match_read-IsSafe _ (read_u8_ne_panic val 0) here λ count. if-IsSafe _ here (
      match_read-IsSafe _ (read_u8_ne_panic val 2) here λ duplicate_count. if-IsSafe _ here (
        match_read-IsSafe _ (read_u8_ne_panic val 3) here λ step_count. if-IsSafe _ here (
          match_read-IsSafe _ (read_le16_ne_panic val 4) here λ fill_channel. if-IsSafe _ here (
            match_read-IsSafe _ (read_u8_ne_panic val 1) here
              λ encoding. channels (encoding_of encoding)))))
    where
      channels :
          (enc : Option AwdlChanEncoding)
          → IsSafe s (elim enc [
            | none ↦ done (unexpected_value, s)
            | some enc ↦
                match_read
                  (read_channels val (awdl_chan_encoding_size enc) awdl_chanseq_length 0)
                  (malformed s)
                  λ list. done (rx_ok, write_peer src (λ p. record p { sequence = list }) s)
          ])
      channels none = here
      channels (some enc) =
          match_read-IsSafe _ (read_channels_ne_panic (awdl_chan_encoding_size enc) 16 0) here
            λ list. safe (write_peer-IsNext src _ (λ p. (refl, refl, λ h. h)) v)

  election_params-IsSafe : IsSafe s (awdl_handle_election_params_tlv src val s)
  unfolding awdl_handle_election_params_tlv
  election_params-IsSafe = elim (Option-cases (peer_get s.peers src)) [
    | inl e ↦ rw (e, awdl_handle_election_params_tlv) here
    | inr (peer, e) ↦
        rw (e, awdl_handle_election_params_tlv)
          (if-IsSafe peer.supports_v2 here (
            match_read-IsSafe _ (read_u8_ne_panic val 3) here λ distance.
              let n1 =
                and_election (λ e. record e { height = distance }) (λ e. (refl, λ h. h))
                  (IsNext-refl v) in
              match_read_eq-IsSafe _ (read_ether_addr_ne_panic val 5) (safe n1) λ addr read.
                let n2 =
                  and_election (λ e. record e { master_addr = addr })
                    (λ e. (refl, λ h. read_ether_addr-length val 5 addr read)) n1 in
                match_read-IsSafe _ (read_le32_ne_panic val 11) (safe n2) λ metric.
                  let n3 =
                    and_election (λ e. record e { master_metric = metric }) (λ e. (refl, λ h. h))
                      n2 in
                  match_read-IsSafe _ (read_le32_ne_panic val 15) (safe n3) λ own.
                    safe (
                      and_election (λ e. record e { self_metric = own }) (λ e. (refl, λ h. h)) n3)))
  ]

  election_params_v2-IsSafe : IsSafe s (awdl_handle_election_params_v2_tlv src val s)
  unfolding awdl_handle_election_params_v2_tlv
  election_params_v2-IsSafe = elim (Option-cases (peer_get s.peers src)) [
    | inl e ↦ rw (e, awdl_handle_election_params_v2_tlv) here
    | inr (peer, e) ↦
        rw (e, awdl_handle_election_params_v2_tlv)
          (match_read_eq-IsSafe _ (read_ether_addr_ne_panic val 0) here λ addr read.
            match_read-IsSafe _ (read_ether_addr_ne_panic val 6) here λ sync.
              let n1 =
                and_election (λ e. record e { master_addr = addr; sync_addr = sync })
                  (λ e. (refl, λ h. read_ether_addr-length val 0 addr read)) (IsNext-refl v) in
              match_read-IsSafe _ (read_le32_ne_panic val 12) (safe n1) λ counter.
                let n2 =
                  and_election (λ e. record e { master_counter = counter }) (λ e. (refl, λ h. h))
                    n1 in
                match_read-IsSafe _ (read_le32_ne_panic val 16) (safe n2) λ height.
                  let n3 =
                    and_election (λ e. record e { height = height }) (λ e. (refl, λ h. h)) n2 in
                  match_read-IsSafe _ (read_le32_ne_panic val 20) (safe n3) λ metric.
                    let n4 =
                      and_election (λ e. record e { master_metric = metric }) (λ e. (refl, λ h. h))
                        n3 in
                    match_read-IsSafe _ (read_le32_ne_panic val 24) (safe n4) λ own.
                      let n5 =
                        and_election (λ e. record e { self_metric = own }) (λ e. (refl, λ h. h))
                          n4 in
                      match_read-IsSafe _ (read_le32_ne_panic val 36) (safe n5) λ self_counter.
                        let n6 =
                          and_election (λ e. record e { self_counter = self_counter })
                            (λ e. (refl, λ h. h)) n5 in
                        safe (
                          IsNext-trans n6
                            (write_peer-IsNext src _ (λ p. (refl, refl, λ h. h)) n6.valid)))
  ]

module _ (val : List ℕ) (flags offset : ℕ) where
  social_field_ne_panic : social_field val flags offset ≢ panic
  unfolding social_field
  social_field_ne_panic = ground (arith, read_le16_ne_panic val offset)

  infra_info_field_ne_panic : infra_info_field val flags offset ≢ panic
  unfolding infra_info_field
  infra_info_field_ne_panic =
      ground (arith, read_ether_addr_ne_panic val offset, read_le16_ne_panic val (offset + 6))

  infra_addr_field_ne_panic : infra_addr_field val flags offset ≢ panic
  unfolding infra_addr_field
  infra_addr_field_ne_panic = ground (arith, read_ether_addr_ne_panic val offset)

  awdl_addr_field_ne_panic : awdl_addr_field val flags offset ≢ panic
  unfolding awdl_addr_field
  awdl_addr_field_ne_panic = ground (arith, read_ether_addr_ne_panic val offset)

module _ (from_utf8_lossy : List ℕ → List ℕ) (src : EtherAddr) (val : List ℕ) where
  country_field_ne_panic : (flags : ℕ) → country_field from_utf8_lossy val flags ≢ panic
  unfolding country_field
  country_field_ne_panic flags =
      ground (arith, read_bytes_copy_ne_panic val 2 (replicate 3 0), read_bytes_ne_panic val 2 3)

  data_path_fields_ne_panic : (flags : ℕ) → data_path_fields from_utf8_lossy val flags ≢ panic
  unfolding data_path_fields
  data_path_fields_ne_panic flags =
      bind_ne_panic (country_field from_utf8_lossy val flags) (country_field_ne_panic flags)
        λ (first : ℕ × Option (List ℕ)).
          bind_ne_panic (social_field val flags (first.0))
            (social_field_ne_panic val flags (first.0))
            λ offset2.
              bind_ne_panic (infra_info_field val flags offset2)
                (infra_info_field_ne_panic val flags offset2)
                λ offset3.
                  bind_ne_panic (infra_addr_field val flags offset3)
                    (infra_addr_field_ne_panic val flags offset3)
                    λ (fourth : ℕ × Option (List ℕ)).
                      bind_ne_panic (awdl_addr_field val flags (fourth.0))
                        (awdl_addr_field_ne_panic val flags (fourth.0))
                        λ offset5. ok_ne_panic (first.1, fourth.1)

  module _ (s : AwdlState) (v : IsValid s) where
    arpa-IsSafe : IsSafe s (awdl_handle_arpa_tlv from_utf8_lossy src val s)
    unfolding awdl_handle_arpa_tlv
    arpa-IsSafe =
        match_read-IsSafe _ (read_int_string_ne_panic from_utf8_lossy val 1 64)
          (safe (IsNext-refl v))
          λ name. safe (write_peer-IsNext src _ (λ p. (refl, refl, λ h. h)) v)

    data_path-IsSafe : IsSafe s (awdl_handle_data_path_state_tlv from_utf8_lossy src val s)
    unfolding awdl_handle_data_path_state_tlv set_data_path
    data_path-IsSafe =
        match_read-IsSafe _ (read_le16_ne_panic val 0) (safe (IsNext-refl v)) λ flags.
          match_read-IsSafe _ (data_path_fields_ne_panic flags) (safe (IsNext-refl v))
            λ fields. safe (write_peer-IsNext src _ (λ p. (refl, refl, λ h. h)) v)

    -- The handler of any TLV type, on any value.
    pub tlv-IsSafe :
        (tlv_type now : ℕ) → IsSafe s (awdl_handle_tlv from_utf8_lossy src tlv_type val s now)
    unfolding awdl_handle_tlv
    tlv-IsSafe tlv_type now = if-IsSafe _ (sync_params-IsSafe src val s v now) (
        if-IsSafe _ (chanseq-IsSafe src val s v) (
          if-IsSafe _ (election_params-IsSafe src val s v) (
            if-IsSafe _ (election_params_v2-IsSafe src val s v) (
              if-IsSafe _ arpa-IsSafe (
                if-IsSafe _ data_path-IsSafe
                  (if-IsSafe _ (version-IsSafe src val s v) (safe (IsNext-refl v))))))))
