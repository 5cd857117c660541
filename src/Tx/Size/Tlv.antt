-- ===== src/Tx/Size/Tlv.antt =====
-- The sizes of the TLVs that src/awdl/tx.rs builds.
use cosmicdrop.Base.{
  ℕ, ◌+◌, ◌-◌, ◌*◌, ◌/◌, ◌%◌, ◌≤◌, ◌≡◌, refl, ap, ◌∙◌, arith, leb, ltb, true, false, List, [], ◌∷◌,
  ◌++◌, length, take, drop, replicate, length-append, length-take, length-drop, u16,
  length-replicate, length-set, set,
}
use cosmicdrop.Channel.{simple, legacy, opclass, AwdlChan, AwdlChanEncoding}
use cosmicdrop.State.{AwdlState}
use cosmicdrop.Sync.Timing.{eaw_period, elapsed_tu, IsTimed, next_aw_tu_value, current_aw_value}
use cosmicdrop.Tx.{packed}
use cosmicdrop.Tx.Size.{Fits, Writes, packed-Writes, copy_into_lem, append-Fits, bind-Fits}
use cosmicdrop.Tx.Tlv.{
  awdl_chan_encoding_length_enc, write_channels, awdl_init_chanseq, pad, set_length,
  sync_params_fields, fields, awdl_init_sync_params_tlv, awdl_init_chanseq_tlv,
  awdl_init_election_params_tlv, awdl_init_election_params_v2_tlv, awdl_init_service_params_tlv,
  awdl_init_ht_capabilities_tlv, awdl_init_data_path_state_tlv, awdl_init_arpa_tlv,
  awdl_init_version_tlv, election_v2_value,
}
use cosmicdrop.Wire.{ok, assign, splice, to_be16}
use cosmicdrop.Wire.RoundTrip.{length-splice, write_le16-read}

-- The state of a node whose frames can be built: six-byte addresses, sixteen channels, positive
-- periods and an extended window that fits 16 bits.
pub record IsFramed (s : AwdlState) : Type 0 where
  pub timed : IsTimed s.sync
  pub channels : length s.channel.sequence ≡ 16
  pub self_size : length s.self_address ≡ 6
  pub dst_size : length s.dst ≡ 6
  pub master_size : length s.election.master_addr ≡ 6
  pub sync_size : length s.election.sync_addr ≡ 6

-- The bytes of the channels, `enc_len` each.
width : ℕ → List AwdlChan → ℕ
width enc_len [] = 0
width enc_len (c ∷ cs) = enc_len + width enc_len cs

length-encoded :
    (enc_len : ℕ) (c : AwdlChan)
    → enc_len ≤ 2
    → length (take enc_len (c.val0 ∷ c.val1 ∷ [])) ≡ enc_len
length-encoded enc_len c h = omega (arith, length-take enc_len (c.val0 ∷ c.val1 ∷ []))

write_channels-Fits :
    (enc_len : ℕ) (sequence : List AwdlChan) (buf : List ℕ) (offset : ℕ)
    → enc_len ≤ 2
    → offset + width enc_len sequence ≤ length buf
    → Fits
        (length buf)
        (offset + width enc_len sequence)
        (write_channels enc_len sequence (buf, offset))
unfolding write_channels width
write_channels-Fits enc_len [] buf offset small h = record {
  out = buf;
  answers = ap (λ (n : ℕ). ok (buf, n)) (omega arith);
  same_size = refl;
}
write_channels-Fits enc_len (c ∷ cs) buf offset small h =
    let bytes = take enc_len (c.val0 ∷ c.val1 ∷ []) in
    let size = length-encoded enc_len c small in
    let fits : offset + length bytes ≤ length buf = omega arith in
    let room : ltb (length buf) (offset + enc_len) ≡ false = ground arith in
    let kept = length-splice buf offset bytes fits in
    let rest =
      write_channels-Fits enc_len cs (splice buf offset bytes) (offset + enc_len) small
        (omega (arith, kept)) in
    record {
      out = rest.out;
      answers =
          rw (room, copy_into_lem buf offset bytes fits)
            (rest.answers ∙ ap (λ (n : ℕ). ok (rest.out, n)) (omega arith));
      same_size = omega (arith, rest.same_size, kept);
    }

-- The bytes of the channels of a node.
unfoldable pub chan_bytes : AwdlState → ℕ
chan_bytes s = awdl_chan_encoding_length_enc s.channel.enc * 16

pub length_enc_small : (e : AwdlChanEncoding) → awdl_chan_encoding_length_enc e ≤ 2
unfolding awdl_chan_encoding_length_enc
length_enc_small simple = omega arith
length_enc_small legacy = omega arith
length_enc_small opclass = omega arith

width_lem :
    (enc_len : ℕ) (sequence : List AwdlChan) → width enc_len sequence ≡ enc_len * length sequence
unfolding width
width_lem enc_len [] = omega arith
width_lem enc_len (c ∷ cs) = grind (arith, width_lem enc_len cs)

module _ (s : AwdlState) (h : IsFramed s) where
  chan_width : width (awdl_chan_encoding_length_enc s.channel.enc) s.channel.sequence ≡ chan_bytes s
  unfolding chan_bytes
  chan_width =
      width_lem _ s.channel.sequence
      ∙ ap (λ (n : ℕ). awdl_chan_encoding_length_enc s.channel.enc * n) h.channels

  chanseq-Writes : Writes (λ buf. awdl_init_chanseq buf s) (6 + chan_bytes s)
  unfolding awdl_init_chanseq
  chanseq-Writes buf room =
      bind-Fits (packed buf _) _ (packed-Writes _ 6 refl buf (omega arith)) λ written e.
        let enc_len = awdl_chan_encoding_length_enc s.channel.enc in
        let rest =
          write_channels-Fits enc_len s.channel.sequence written 6 (length_enc_small s.channel.enc)
            (omega (arith, e, chan_width)) in
        record {
          out = rest.out;
          answers = rest.answers ∙ ap (λ (n : ℕ). ok (rest.out, 6 + n)) chan_width;
          same_size = rest.same_size ∙ e;
        }

set_length-Fits :
    (buf : List ℕ) (len : ℕ) → 3 ≤ length buf → Fits (length buf) len (set_length (buf, len))
unfolding set_length
set_length-Fits buf len h =
    let stored =
      write_le16-read (drop 1 buf) 0 (u16 (len - 3)) (omega arith)
        (omega (arith, length-drop 1 buf)) in
    let inside : leb 1 (length buf) ≡ true = ground arith in
    record {
      out = take 1 buf ++ stored.out;
      answers = rw (inside, stored.written) refl;
      same_size = omega (
        arith,
        stored.same_length,
        length-append (take 1 buf) stored.out,
        length-take 1 buf,
        length-drop 1 buf,
      );
    }

padded-Fits :
    (n : ℕ) (buf : List ℕ) (len : ℕ)
    → 3 ≤ len
    → len + n ≤ length buf
    → Fits (length buf) (len + n) (set_length (pad n (buf, len)))
unfolding pad
padded-Fits n buf len h room =
    let zeros = length-replicate {A = ℕ} n 0 in
    let inside : leb (len + n) (length buf) ≡ true = ground arith in
    let kept = length-splice buf len (replicate n 0) (omega (arith, zeros)) in
    let r = set_length-Fits (splice buf len (replicate n 0)) (len + n) (omega (arith, kept)) in
    record { out = r.out; answers = rw inside r.answers; same_size = r.same_size ∙ kept }

module _ (s : AwdlState) (h : IsFramed s) where
  -- The fixed part of the synchronization parameters.
  length-sync_params_fields :
      (next_aw next_aw_seq : ℕ) → length (sync_params_fields s next_aw next_aw_seq) ≡ 36
  unfolding sync_params_fields fields
  length-sync_params_fields next_aw next_aw_seq =
      omega (arith, h.master_size, length-append s.election.master_addr _)

  pub sync_params-Writes :
      (now : ℕ) → Writes (λ buf. awdl_init_sync_params_tlv now buf s) (44 + chan_bytes s)
  unfolding awdl_init_sync_params_tlv
  sync_params-Writes now buf room =
      rw
        (
          next_aw_tu_value now s.sync h.timed,
          current_aw_value now s.sync h.timed,
          awdl_init_sync_params_tlv,
        )
        (bind-Fits (packed buf _) _
          (packed-Writes _ 36
            (length-sync_params_fields
              (eaw_period s.sync - elapsed_tu now s.sync % eaw_period s.sync)
              (u16 (s.sync.aw_counter + elapsed_tu now s.sync / s.sync.aw_period)))
            buf (omega arith))
          λ written e.
            let extended =
              append-Fits (λ rest. awdl_init_chanseq rest s) (6 + chan_bytes s) written 36
                (chanseq-Writes s h) (omega (arith, e)) in
            let padded =
              padded-Fits 2 extended.out (36 + (6 + chan_bytes s)) (omega arith)
                (omega (arith, e, extended.same_size)) in
            record {
              out = padded.out;
              answers =
                  rw extended.answers
                    (padded.answers ∙ ap (λ (n : ℕ). ok (padded.out, n)) (omega arith));
              same_size = padded.same_size ∙ extended.same_size ∙ e;
            })

  pub chanseq_tlv-Writes : Writes (λ buf. awdl_init_chanseq_tlv buf s) (12 + chan_bytes s)
  unfolding awdl_init_chanseq_tlv assign
  chanseq_tlv-Writes buf room =
      let inside : ltb 0 (length buf) ≡ true = ground arith in
      let typed = set buf 0 18 in
      let e = length-set buf 0 18 in
      let extended =
        append-Fits (λ rest. awdl_init_chanseq rest s) (6 + chan_bytes s) typed 3
          (chanseq-Writes s h) (omega (arith, e)) in
      let padded =
        padded-Fits 3 extended.out (3 + (6 + chan_bytes s)) (omega arith)
          (omega (arith, e, extended.same_size)) in
      record {
        out = padded.out;
        answers =
            rw (inside, extended.answers)
              (padded.answers ∙ ap (λ (n : ℕ). ok (padded.out, n)) (omega arith));
        same_size = padded.same_size ∙ extended.same_size ∙ e;
      }

  pub election_params-Writes : Writes (λ buf. awdl_init_election_params_tlv buf s) 24
  unfolding awdl_init_election_params_tlv
  election_params-Writes =
      packed-Writes _ 24 (omega (arith, h.master_size, length-append s.election.master_addr _))

  pub election_params_v2-Writes : Writes (λ buf. awdl_init_election_params_v2_tlv buf s) 43
  unfolding awdl_init_election_params_v2_tlv election_v2_value
  election_params_v2-Writes = packed-Writes _ 43 (
      omega (
        arith,
        h.master_size,
        h.sync_size,
        length-append s.election.master_addr _,
        length-append s.election.sync_addr _,
      ))

  pub data_path_state-Writes : Writes (λ buf. awdl_init_data_path_state_tlv buf s) 18
  unfolding awdl_init_data_path_state_tlv
  data_path_state-Writes =
      packed-Writes _ 18 (omega (arith, h.self_size, length-append s.self_address _))

  pub service_params-Writes : Writes (λ buf. awdl_init_service_params_tlv buf s) 12
  unfolding awdl_init_service_params_tlv
  service_params-Writes = packed-Writes _ 12 refl

  pub ht_capabilities-Writes : Writes (λ buf. awdl_init_ht_capabilities_tlv buf s) 11
  unfolding awdl_init_ht_capabilities_tlv
  ht_capabilities-Writes = packed-Writes _ 11 refl

  pub version-Writes : Writes (λ buf. awdl_init_version_tlv buf s) 5
  unfolding awdl_init_version_tlv
  version-Writes = packed-Writes _ 5 refl

  pub arpa-Writes : Writes (λ buf. awdl_init_arpa_tlv buf s) (7 + length s.name)
  unfolding awdl_init_arpa_tlv
  arpa-Writes buf room =
      bind-Fits (packed buf _) _ (packed-Writes _ 5 refl buf (omega arith)) λ written e.
        let inside : leb (5 + length s.name + 2) (length written) ≡ true = ground arith in
        let named = splice written 5 s.name in
        let first : 5 + length s.name ≤ length written = omega (arith, e) in
        let kept = length-splice written 5 s.name first in
        let second : 5 + length s.name + 2 ≤ length named = omega (arith, kept, e) in
        record {
          out = splice named (5 + length s.name) (to_be16 0xc00c);
          answers =
              rw
                (
                  inside,
                  copy_into_lem written 5 s.name first,
                  copy_into_lem named (5 + length s.name) (to_be16 0xc00c) second,
                )
                (ap (λ (n : ℕ). ok (splice named (5 + length s.name) (to_be16 0xc00c), n))
                  (omega arith));
          same_size = length-splice named (5 + length s.name) (to_be16 0xc00c) second ∙ kept ∙ e;
        }
