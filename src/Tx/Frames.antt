-- ===== src/Tx/Frames.antt =====
-- The headers that src/awdl/tx.rs writes, and the whole frames.
use cosmicdrop.Base.{
  ℕ, ◌+◌, ◌<<<◌, leb, if◌then◌else◌, ◌&&◌, List, [], ◌∷◌, ◌++◌, length, take, drop, u16, u32,
  bit_or,
}
use cosmicdrop.Crc.{crc32}
use cosmicdrop.Election.{EtherAddr}
use cosmicdrop.Frame.{
  AwdlActionType, psf, mif, ieee80211_vendor_specific, awdl_oui, awdl_type, awdl_version_compat,
  awdl_bssid, awdl_llc_protocol_id, ieee80211_ftype_mgmt, ieee80211_stype_action,
  ieee80211_ftype_data, ieee80211_stype_data,
}
use cosmicdrop.Rx.Action.{is_mif}
use cosmicdrop.State.{AwdlState, Ieee80211State, next_sequence_number, next_sequence_number_12}
use cosmicdrop.Tx.{Built, packed, append}
use cosmicdrop.Tx.Tlv.{
  awdl_init_sync_params_tlv, awdl_init_election_params_tlv, awdl_init_chanseq_tlv,
  awdl_init_election_params_v2_tlv, awdl_init_service_params_tlv, awdl_init_ht_capabilities_tlv,
  awdl_init_arpa_tlv, awdl_init_data_path_state_tlv, awdl_init_version_tlv, fields,
}
use cosmicdrop.Wire.{ok, panic, ◌>>=◌, to_le16, to_le32, copy_into}

-- `action_type as u8`.
unfoldable pub action_code : AwdlActionType → ℕ
action_code psf = 0
action_code mif = 3

unfoldable pub awdl_init_action : ℕ → List ℕ → AwdlActionType → Built
unfolding action_code
awdl_init_action now buf action_type =
    let steady_time = u32 now in
    packed buf (
      ieee80211_vendor_specific
      ∷ (awdl_oui
          ++ (awdl_type
              ∷ awdl_version_compat
              ∷ action_code action_type
              ∷ 0
              ∷ (to_le32 steady_time ++ to_le32 steady_time))))

-- Nine writes by index: a buffer that is shorter panics.
unfoldable pub ieee80211_init_radiotap_header : List ℕ → Built
ieee80211_init_radiotap_header buf =
    if leb 9 (length buf) then ok (0 ∷ 0 ∷ 9 ∷ 0 ∷ 4 ∷ 0 ∷ 0 ∷ 0 ∷ 24 ∷ drop 9 buf, 9) else panic

-- The header, for the sequence number of the frame.
unfoldable pub header_bytes : EtherAddr → EtherAddr → ℕ → ℕ → List ℕ
unfolding fields
header_bytes src dst sequence_number ftype_stype = fields (
    to_le16 ftype_stype
    ∷ to_le16 0
    ∷ dst
    ∷ src
    ∷ awdl_bssid
    ∷ to_le16 (u16 (sequence_number <<< 4))
    ∷ [])

unfoldable pub ieee80211_init_awdl_hdr :
    List ℕ → EtherAddr → EtherAddr → Ieee80211State → ℕ → Ieee80211State × Built
unfolding header_bytes
ieee80211_init_awdl_hdr buf src dst ieee_state ftype_stype =
    let (ieee_state', sequence_number) = next_sequence_number_12 ieee_state in
    (ieee_state', packed buf (header_bytes src dst sequence_number ftype_stype))

unfoldable pub ieee80211_init_awdl_action_hdr :
    List ℕ → EtherAddr → EtherAddr → Ieee80211State → Ieee80211State × Built
ieee80211_init_awdl_action_hdr buf src dst ieee_state =
    ieee80211_init_awdl_hdr buf src dst ieee_state
      (bit_or ieee80211_ftype_mgmt ieee80211_stype_action)

unfoldable pub ieee80211_init_awdl_data_hdr :
    List ℕ → EtherAddr → EtherAddr → Ieee80211State → Ieee80211State × Built
ieee80211_init_awdl_data_hdr buf src dst ieee_state =
    ieee80211_init_awdl_hdr buf src dst ieee_state
      (bit_or ieee80211_ftype_data ieee80211_stype_data)

-- The protocol id is a field of a packed struct, so it is written little-endian.
unfoldable pub llc_init_awdl_hdr : List ℕ → Built
llc_init_awdl_hdr buf = packed buf (0xaa ∷ 0xaa ∷ 0x03 ∷ (awdl_oui ++ to_le16 awdl_llc_protocol_id))

unfoldable pub awdl_init_data : List ℕ → AwdlState → AwdlState × Built
awdl_init_data buf state =
    let (state', sequence_number) = next_sequence_number state in
    (
      state',
      packed buf
          (to_le16 0x0403 ++ (to_le16 sequence_number ++ (to_le16 0x0000 ++ to_le16 0x86dd))),
    )

-- `end` must have the four bytes of the checksum.
unfoldable pub ieee80211_add_fcs : List ℕ → List ℕ → Built
ieee80211_add_fcs start end =
    let bytes = to_le32 (crc32 start) in
    if leb 4 (length end) && leb (length end) 4 then ok (bytes, 4) else panic

-- The checksum of `data` behind it, if the interface wants one.
unfoldable pub with_fcs : Ieee80211State → List ℕ × ℕ → Built
with_fcs ieee_state (buf, ptr) =
    if ieee_state.fcs
    then (do buf' ← copy_into buf ptr (to_le32 (crc32 (take ptr buf))); ok (buf', ptr + 4))
    else ok (buf, ptr)

-- The TLVs that a MIF has and a PSF has not.
unfoldable pub mif_tlvs : AwdlActionType → AwdlState → List ℕ × ℕ → Built
mif_tlvs action_type state built =
    if is_mif action_type
    then (do
      b1 ← append (λ rest. awdl_init_ht_capabilities_tlv rest state) built
      append (λ rest. awdl_init_arpa_tlv rest state) b1)
    else ok built

-- `now` and `later` are the two readings of the clock. The header counts the sequence number even if
-- a later step panics.
unfoldable pub awdl_init_full_action_frame :
    ℕ → ℕ → List ℕ → AwdlState → Ieee80211State → AwdlActionType → Ieee80211State × Built
unfolding mif_tlvs with_fcs ieee80211_init_awdl_action_hdr
awdl_init_full_action_frame now later buf state ieee_state action_type =
    let ieee_state' = (next_sequence_number_12 ieee_state).0 in
    (
      ieee_state',
      (do
        b1 ← append ieee80211_init_radiotap_header (buf, 0)
        b2 ←
            append
              (λ rest.
                (ieee80211_init_awdl_action_hdr rest state.self_address state.dst ieee_state).1)
              b1
        b3 ← append (λ rest. awdl_init_action now rest action_type) b2
        b4 ← append (λ rest. awdl_init_sync_params_tlv later rest state) b3
        b5 ← append (λ rest. awdl_init_election_params_tlv rest state) b4
        b6 ← append (λ rest. awdl_init_chanseq_tlv rest state) b5
        b7 ← append (λ rest. awdl_init_election_params_v2_tlv rest state) b6
        b8 ← append (λ rest. awdl_init_service_params_tlv rest state) b7
        b9 ← mif_tlvs action_type state b8
        b10 ← append (λ rest. awdl_init_data_path_state_tlv rest state) b9
        b11 ← append (λ rest. awdl_init_version_tlv rest state) b10
        with_fcs ieee_state' b11),
    )

-- The payload, if it fits.
unfoldable pub with_payload : List ℕ → List ℕ × ℕ → Built
with_payload payload (buf, ptr) =
    if leb (ptr + length payload) (length buf)
    then (do buf' ← copy_into buf ptr payload; ok (buf', ptr + length payload))
    else ok (buf, ptr)

unfoldable pub awdl_init_full_data_frame :
    List ℕ
    → EtherAddr
    → EtherAddr
    → List ℕ
    → AwdlState
    → Ieee80211State
    → AwdlState × Ieee80211State × Built
unfolding with_payload with_fcs ieee80211_init_awdl_data_hdr
awdl_init_full_data_frame buf src dst payload state ieee_state =
    let ieee_state' = (next_sequence_number_12 ieee_state).0 in
    (
      (next_sequence_number state).0,
      ieee_state',
      (do
        b1 ← append ieee80211_init_radiotap_header (buf, 0)
        b2 ← append (λ rest. (ieee80211_init_awdl_data_hdr rest src dst ieee_state).1) b1
        b3 ← append llc_init_awdl_hdr b2
        b4 ← append (λ rest. (awdl_init_data rest state).1) b3
        b5 ← with_payload payload b4
        with_fcs ieee_state' b5),
    )
