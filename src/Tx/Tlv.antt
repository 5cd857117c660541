-- ===== src/Tx/Tlv.antt =====
-- The TLVs that src/awdl/tx.rs builds.
use cosmicdrop.Base.{
  ℕ, ◌+◌, ◌-◌, ◌*◌, ltb, leb, ◌==◌, if◌then◌else◌, none, some, List, [], ◌∷◌, ◌++◌, length, take,
  drop, replicate, u8, u16,
}
use cosmicdrop.Base.Int.{pos, ◌-ℤ◌, ltb_ℤ, i16_bits}
use cosmicdrop.Channel.{AwdlChan, AwdlChanEncoding, simple, legacy, opclass, awdl_chan_num}
use cosmicdrop.Frame.{
  awdl_synchronizaton_parameters_tlv, awdl_election_parameters_tlv, awdl_service_parameters_tlv,
  awdl_enhanced_data_rate_capabilities_tlv, awdl_data_path_state_tlv, awdl_arpa_tlv,
  awdl_chan_seq_tlv, awdl_version_tlv, awdl_election_parameters_v2_tlv,
}
use cosmicdrop.State.{AwdlState}
use cosmicdrop.Sync.{awdl_sync_next_aw_tu, awdl_sync_current_aw}
use cosmicdrop.Tx.{Built, packed, append}
use cosmicdrop.Wire.{
  ok, err, panic, ◌>>=◌, to_le16, to_le32, to_be16, assign, splice, copy_into, write_le16,
}

unfoldable pub awdl_chan_encoding_length_enc : AwdlChanEncoding → ℕ
awdl_chan_encoding_length_enc simple = 1
awdl_chan_encoding_length_enc legacy = 2
awdl_chan_encoding_length_enc opclass = 2

-- `enc as u8`.
unfoldable pub encoding_code : AwdlChanEncoding → ℕ
encoding_code simple = 0
encoding_code legacy = 1
encoding_code opclass = 3

-- The loop over the channels: the buffer from `offset` on holds what is left.
unfoldable pub write_channels : ℕ → List AwdlChan → List ℕ × ℕ → Built
write_channels enc_len [] (buf, offset) = ok (buf, offset)
write_channels enc_len (chan ∷ sequence) (buf, offset) =
    if ltb (length buf) (offset + enc_len) then ok (buf, offset) else (do
      buf' ← copy_into buf offset (take enc_len (chan.val0 ∷ chan.val1 ∷ []))
      write_channels enc_len sequence (buf', offset + enc_len))

unfoldable pub awdl_init_chanseq : List ℕ → AwdlState → Built
unfolding encoding_code awdl_chan_encoding_length_enc
awdl_init_chanseq buf state = do
  let header = 15 ∷ encoding_code state.channel.enc ∷ 0 ∷ 3 ∷ to_le16 0xffff
  (written, size) ← packed buf header
  if size == 0
      then ok (written, 0)
      else write_channels (awdl_chan_encoding_length_enc state.channel.enc) state.channel.sequence
          (written, 6)

-- `buf[len..len + n]` set to zero if it fits.
unfoldable pub pad : ℕ → List ℕ × ℕ → List ℕ × ℕ
pad n (buf, len) =
    if leb (len + n) (length buf) then (splice buf len (replicate n 0), len + n) else (buf, len)

-- `let _ = write_le16(&mut buf[1..], 0, (len - 3) as u16)`.
unfoldable pub set_length : List ℕ × ℕ → Built
set_length (buf, len) =
    if leb 1 (length buf)
    then elim (write_le16 (drop 1 buf) 0 (u16 (len - 3))) [
      | ok rest ↦ ok (take 1 buf ++ rest, len)
      | err ↦ ok (buf, len)
      | panic ↦ panic
    ]
    else panic

-- The remaining length of the window, in the signed arithmetic of the source.
unfoldable pub remaining_aw_length : ℕ → ℕ → ℕ → ℕ
remaining_aw_length aw_period presence_mode next_aw =
    let guard = pos (aw_period * presence_mode) -ℤ pos next_aw in
    if ltb_ℤ (pos aw_period) guard then 0 else i16_bits (pos aw_period -ℤ guard)

-- The bytes of a packed struct from those of its fields.
unfoldable pub fields : List (List ℕ) → List ℕ
fields [] = []
fields (field ∷ rest) = field ++ fields rest

-- The fixed fields, for the timing at the time of the call.
unfoldable pub sync_params_fields : AwdlState → ℕ → ℕ → List ℕ
unfolding remaining_aw_length fields
sync_params_fields state next_aw next_aw_seq =
    let aw_period = state.sync.aw_period in
    let presence_mode = state.sync.presence_mode in
    let ext = u8 (presence_mode + 255) in
    fields (
      (awdl_synchronizaton_parameters_tlv ∷ [])
      ∷ to_le16 0
      ∷ (awdl_chan_num state.channel.current state.channel.enc ∷ [])
      ∷ to_le16 next_aw
      ∷ (awdl_chan_num state.channel.master state.channel.enc ∷ 0 ∷ [])
      ∷ to_le16 aw_period
      ∷ to_le16 state.psf_interval
      ∷ to_le16 0x1800
      ∷ to_le16 aw_period
      ∷ to_le16 aw_period
      ∷ to_le16 (remaining_aw_length aw_period presence_mode next_aw)
      ∷ (ext ∷ ext ∷ ext ∷ ext ∷ [])
      ∷ state.election.master_addr
      ∷ (presence_mode ∷ 0 ∷ [])
      ∷ to_le16 next_aw_seq
      ∷ to_le16 next_aw_seq
      ∷ [])

-- A time that divides by zero panics.
unfoldable pub awdl_init_sync_params_tlv : ℕ → List ℕ → AwdlState → Built
unfolding pad set_length sync_params_fields
awdl_init_sync_params_tlv now buf state = elim (awdl_sync_next_aw_tu now state.sync) [
  | none ↦ panic
  | some next_aw ↦ elim (awdl_sync_current_aw now state.sync) [
    | none ↦ panic
    | some next_aw_seq ↦ do
      (written, size) ← packed buf (sync_params_fields state next_aw next_aw_seq)
      if size == 0
          then ok (written, 0)
          else (append (λ rest. awdl_init_chanseq rest state) (written, 36) >>= λ extended.
              set_length (pad 2 extended))
  ]
]

unfoldable pub awdl_init_chanseq_tlv : List ℕ → AwdlState → Built
unfolding pad set_length
awdl_init_chanseq_tlv buf state = do
  typed ← assign buf 0 awdl_chan_seq_tlv
  extended ← append (λ rest. awdl_init_chanseq rest state) (typed, 3)
  set_length (pad 3 extended)

unfoldable pub awdl_init_election_params_tlv : List ℕ → AwdlState → Built
awdl_init_election_params_tlv buf state =
    let e = state.election in
    packed buf (
      awdl_election_parameters_tlv
      ∷ (to_le16 21
          ++ (0
              ∷ (to_le16 0
                  ++ (u8 e.height
                      ∷ 0
                      ∷ (e.master_addr
                          ++ (to_le32 e.master_metric
                              ++ (to_le32 e.self_metric ++ replicate 2 0))))))))

-- The value of the TLV.
unfoldable pub election_v2_value : AwdlState → List ℕ
election_v2_value state =
    let e = state.election in
    e.master_addr
    ++ (e.sync_addr
        ++ (to_le32 e.master_counter
            ++ (to_le32 e.height
                ++ (to_le32 e.master_metric
                    ++ (to_le32 e.self_metric
                        ++ (to_le32 0 ++ (to_le32 0 ++ to_le32 e.self_counter)))))))

unfoldable pub awdl_init_election_params_v2_tlv : List ℕ → AwdlState → Built
awdl_init_election_params_v2_tlv buf state =
    packed buf (awdl_election_parameters_v2_tlv ∷ (to_le16 40 ++ election_v2_value state))

unfoldable pub awdl_init_service_params_tlv : List ℕ → AwdlState → Built
awdl_init_service_params_tlv buf state =
    packed buf
      (awdl_service_parameters_tlv ∷ (to_le16 9 ++ (replicate 3 0 ++ (to_le16 0 ++ to_le32 0))))

unfoldable pub awdl_init_ht_capabilities_tlv : List ℕ → AwdlState → Built
awdl_init_ht_capabilities_tlv buf state = packed buf (
    awdl_enhanced_data_rate_capabilities_tlv
    ∷ (to_le16 8 ++ (to_le16 0 ++ (to_le16 0x11ce ++ (0x1b ∷ 0xff ∷ to_le16 0)))))

unfoldable pub social_channels : ℕ → ℕ
social_channels master_chan =
    if master_chan == 6 then 0x0001 else (if master_chan == 44 then 0x0002 else 0x0004)

unfoldable pub awdl_init_data_path_state_tlv : List ℕ → AwdlState → Built
unfolding social_channels
awdl_init_data_path_state_tlv buf state = packed buf (
    awdl_data_path_state_tlv
    ∷ (to_le16 15
        ++ (to_le16 0x8f24
            ++ (b'X'
                ∷ b'0'
                ∷ 0
                ∷ (to_le16 (social_channels (awdl_chan_num state.channel.master opclass))
                    ++ (state.self_address ++ to_le16 0))))))

unfoldable pub awdl_init_arpa_tlv : List ℕ → AwdlState → Built
awdl_init_arpa_tlv buf state = do
  let name_len = length state.name
  let total_len = 5 - 3 + name_len + 2
  (written, size) ← packed buf (awdl_arpa_tlv ∷ (to_le16 (u16 total_len) ++ (3 ∷ u8 name_len ∷ [])))
  if size == 0
      then ok (written, 0)
      else (if leb (5 + name_len + 2) (length written)
          then (do
            named ← copy_into written 5 state.name
            ended ← copy_into named (5 + name_len) (to_be16 0xc00c)
            ok (ended, 3 + total_len))
          else ok (written, 3 + total_len))

unfoldable pub awdl_init_version_tlv : List ℕ → AwdlState → Built
awdl_init_version_tlv buf state =
    packed buf (awdl_version_tlv ∷ (to_le16 2 ++ (state.version ∷ state.dev_class ∷ [])))
