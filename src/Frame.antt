-- ===== src/Frame.antt =====
-- src/awdl/frame.rs: constants of the wire format, and the packed structs that are read from a
-- frame. The fields of a packed struct stand in order, little-endian.
pub mod Names
use cosmicdrop.Base.{
  ℕ, ◌+◌, ltb, if◌then◌else◌, List, [], ◌∷◌, length, get_or, take, drop, Option, none, some, ◌++◌,
  Bool, true, false,
}
use cosmicdrop.Wire.{from_le16}

abbrev pub ieee80211_fctl_ftype : ℕ
ieee80211_fctl_ftype = 0x000c

abbrev pub ieee80211_fctl_stype : ℕ
ieee80211_fctl_stype = 0x00f0

abbrev pub ieee80211_ftype_mgmt : ℕ
ieee80211_ftype_mgmt = 0x0000

abbrev pub ieee80211_ftype_data : ℕ
ieee80211_ftype_data = 0x0008

abbrev pub ieee80211_stype_action : ℕ
ieee80211_stype_action = 0x00d0

abbrev pub ieee80211_stype_data : ℕ
ieee80211_stype_data = 0x0000

abbrev pub ieee80211_stype_qos_data : ℕ
ieee80211_stype_qos_data = 0x0080

abbrev pub ieee80211_qos_ctl_len : ℕ
ieee80211_qos_ctl_len = 2

abbrev pub ieee80211_qos_ctl_a_msdu_present : ℕ
ieee80211_qos_ctl_a_msdu_present = 0x0080

abbrev pub awdl_llc_protocol_id : ℕ
awdl_llc_protocol_id = 0x0800

abbrev pub awdl_oui : List ℕ
awdl_oui = 0x00 ∷ 0x17 ∷ 0xf2 ∷ []

abbrev pub awdl_bssid : List ℕ
awdl_bssid = 0x00 ∷ 0x25 ∷ 0x00 ∷ 0xff ∷ 0x94 ∷ 0x73 ∷ []

abbrev pub ieee80211_vendor_specific : ℕ
ieee80211_vendor_specific = 127

abbrev pub awdl_version_compat : ℕ
awdl_version_compat = 0x10

abbrev pub awdl_type : ℕ
awdl_type = 8

pub data AwdlActionType : Type 0 where
  psf mif : AwdlActionType

abbrev pub awdl_synchronizaton_parameters_tlv : ℕ
awdl_synchronizaton_parameters_tlv = 4

abbrev pub awdl_election_parameters_tlv : ℕ
awdl_election_parameters_tlv = 5

abbrev pub awdl_service_parameters_tlv : ℕ
awdl_service_parameters_tlv = 6

abbrev pub awdl_enhanced_data_rate_capabilities_tlv : ℕ
awdl_enhanced_data_rate_capabilities_tlv = 7

abbrev pub awdl_data_path_state_tlv : ℕ
awdl_data_path_state_tlv = 12

abbrev pub awdl_arpa_tlv : ℕ
awdl_arpa_tlv = 16

abbrev pub awdl_chan_seq_tlv : ℕ
awdl_chan_seq_tlv = 18

abbrev pub awdl_version_tlv : ℕ
awdl_version_tlv = 21

abbrev pub awdl_election_parameters_v2_tlv : ℕ
awdl_election_parameters_v2_tlv = 24

abbrev pub awdl_data_path_flag_country_code : ℕ
awdl_data_path_flag_country_code = 0x0100

abbrev pub awdl_data_path_flag_social_channel_map : ℕ
awdl_data_path_flag_social_channel_map = 0x0200

abbrev pub awdl_data_path_flag_infra_info : ℕ
awdl_data_path_flag_infra_info = 0x0001

abbrev pub awdl_data_path_flag_infra_address : ℕ
awdl_data_path_flag_infra_address = 0x0002

abbrev pub awdl_data_path_flag_awdl_address : ℕ
awdl_data_path_flag_awdl_address = 0x0004

-- `read_packed` for a struct of `size` bytes: the bytes that are copied into it.
unfoldable pub read_packed : ℕ → List ℕ → ℕ → Option (List ℕ)
read_packed size bytes offset =
    if ltb (length bytes) (offset + size) then none else some (take size (drop offset bytes))

-- The header of an 802.11 frame, from its 24 bytes.
pub record Ieee80211Hdr : Type 0 where
  pub frame_control : ℕ
  pub duration_id : ℕ
  pub addr1 : List ℕ
  pub addr2 : List ℕ
  pub addr3 : List ℕ
  pub seq_ctrl : ℕ

abbrev pub ieee80211_hdr_size : ℕ
ieee80211_hdr_size = 24

unfoldable pub to_ieee80211_hdr : List ℕ → Ieee80211Hdr
to_ieee80211_hdr b = record {
  frame_control = from_le16 (get_or b 0 0) (get_or b 1 0);
  duration_id = from_le16 (get_or b 2 0) (get_or b 3 0);
  addr1 = take 6 (drop 4 b);
  addr2 = take 6 (drop 10 b);
  addr3 = take 6 (drop 16 b);
  seq_ctrl = from_le16 (get_or b 22 0) (get_or b 23 0);
}

-- The header of an action frame, from its 16 bytes; the two times are not read.
pub record AwdlAction : Type 0 where
  pub category : ℕ
  pub oui : List ℕ
  pub type_ : ℕ
  pub version : ℕ
  pub subtype : ℕ

abbrev pub awdl_action_size : ℕ
awdl_action_size = 16

unfoldable pub to_awdl_action : List ℕ → AwdlAction
to_awdl_action b = record {
  category = get_or b 0 0;
  oui = take 3 (drop 1 b);
  type_ = get_or b 4 0;
  version = get_or b 5 0;
  subtype = get_or b 6 0;
}

pub record LlcHdr : Type 0 where
  pub dsap : ℕ
  pub ssap : ℕ
  pub control : ℕ
  pub oui : List ℕ
  pub pid : ℕ

abbrev pub llc_hdr_size : ℕ
llc_hdr_size = 8

abbrev pub awdl_data_size : ℕ
awdl_data_size = 8

-- `write_packed` at the start of a buffer: the buffer and whether the bytes of the struct fit.
unfoldable pub write_packed : List ℕ → List ℕ → List ℕ × Bool
write_packed buf bytes =
    if ltb (length buf) (length bytes)
    then (buf, false)
    else (bytes ++ drop (length bytes) buf, true)
