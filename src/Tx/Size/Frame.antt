-- ===== src/Tx/Size/Frame.antt =====
-- The size of the whole action frames that src/awdl/tx.rs builds.
use cosmicdrop.Base.{
  ℕ, ◌+◌, ◌*◌, ◌≤◌, ◌≡◌, refl, ap, ◌∙◌, arith, leb, Bool, true, false, Bool-cases, List, ◌∷◌,
  length, take, drop, length-append, length-drop, inl, inr,
}
use cosmicdrop.Crc.{crc32}
use cosmicdrop.Frame.{AwdlActionType, psf, mif}
use cosmicdrop.Rx.Action.{is_mif}
use cosmicdrop.State.{AwdlState, Ieee80211State, next_sequence_number_12}
use cosmicdrop.Tx.{Built, append}
use cosmicdrop.Tx.Frames.{
  awdl_init_full_action_frame, awdl_init_action, action_code, ieee80211_init_radiotap_header,
  header_bytes, ieee80211_init_awdl_hdr, ieee80211_init_awdl_action_hdr, with_fcs, mif_tlvs,
}
use cosmicdrop.Tx.Size.{Fits, Writes, packed-Writes, copy_into_lem, append-Fits, bind-Fits}
use cosmicdrop.Tx.Size.Tlv.{
  IsFramed, chan_bytes, sync_params-Writes, chanseq_tlv-Writes, election_params-Writes,
  election_params_v2-Writes, data_path_state-Writes, service_params-Writes, ht_capabilities-Writes,
  version-Writes, arpa-Writes,
}
use cosmicdrop.Tx.Tlv.{
  awdl_init_election_params_tlv, awdl_init_chanseq_tlv, awdl_init_election_params_v2_tlv,
  awdl_init_service_params_tlv, awdl_init_ht_capabilities_tlv, awdl_init_arpa_tlv,
  awdl_init_data_path_state_tlv, awdl_init_version_tlv, fields,
}
use cosmicdrop.Wire.{ok, ◌>>=◌, to_le32, splice}
use cosmicdrop.Wire.RoundTrip.{length-splice}

radiotap-Writes : Writes ieee80211_init_radiotap_header 9
unfolding ieee80211_init_radiotap_header
radiotap-Writes buf room =
    let inside : leb 9 (length buf) ≡ true = ground arith in
    record {
      out = 0 ∷ 0 ∷ 9 ∷ 0 ∷ 4 ∷ 0 ∷ 0 ∷ 0 ∷ 24 ∷ drop 9 buf;
      answers = rw inside refl;
      same_size = omega (arith, length-drop 9 buf);
    }

action-Writes : (now : ℕ) (t : AwdlActionType) → Writes (λ buf. awdl_init_action now buf t) 16
unfolding awdl_init_action action_code
action-Writes now t = packed-Writes _ 16 refl

with_total : {size n m : ℕ} {b : Built} → n ≡ m → Fits size n b → Fits size m b
with_total e r = record {
  out = r.out;
  answers = r.answers ∙ ap (λ (k : ℕ). ok (r.out, k)) e;
  same_size = r.same_size;
}

-- A builder at `ptr`, and what comes behind it at `next`.
step :
    {size total : ℕ} (f : List ℕ → Built) (n ptr next : ℕ) (buf : List ℕ) (k : List ℕ × ℕ → Built)
    → length buf ≡ size
    → Writes f n
    → ptr + n ≡ next
    → next ≤ size
    → ((buf' : List ℕ) → length buf' ≡ size → Fits size total (k (buf', next)))
    → Fits size total (append f (buf, ptr) >>= k)
step f n ptr next buf k e w sum room rest =
    let first = with_total sum (append-Fits f n buf ptr w (omega (arith, e))) in
    let second = rest first.out (first.same_size ∙ e) in
    record {
      out = second.out;
      answers = rw first.answers second.answers;
      same_size = second.same_size;
    }

at_end :
    {size total : ℕ} (f : List ℕ → Built) (n ptr : ℕ) (buf : List ℕ)
    → length buf ≡ size
    → Writes f n
    → ptr + n ≤ size
    → ptr + n ≡ total
    → Fits size total (append f (buf, ptr))
at_end f n ptr buf e w room sum =
    let r = append-Fits f n buf ptr w (omega (arith, e)) in
    record {
      out = r.out;
      answers = r.answers ∙ ap (λ (k : ℕ). ok (r.out, k)) sum;
      same_size = r.same_size ∙ e;
    }

-- The bytes that a MIF has more than a PSF.
unfoldable pub mif_size : AwdlActionType → AwdlState → ℕ
mif_size psf s = 0
mif_size mif s = 18 + length s.name

unfoldable pub fcs_size : Bool → ℕ
fcs_size true = 4
fcs_size false = 0

-- The size of an action frame.
unfoldable pub action_frame_size : AwdlState → Ieee80211State → AwdlActionType → ℕ
action_frame_size s ieee t = 207 + 2 * chan_bytes s + mif_size t s + fcs_size ieee.fcs

module _ (s : AwdlState) (h : IsFramed s) where
  header-Writes :
      (ieee : Ieee80211State)
      → Writes (λ buf. (ieee80211_init_awdl_action_hdr buf s.self_address s.dst ieee).1) 24
  unfolding ieee80211_init_awdl_action_hdr ieee80211_init_awdl_hdr header_bytes fields
      next_sequence_number_12
  header-Writes ieee = packed-Writes _ 24 (
      omega (arith, h.self_size, h.dst_size, length-append s.dst _, length-append s.self_address _))

  mif-Fits :
      (t : AwdlActionType) (size n : ℕ) (buf : List ℕ)
      → length buf ≡ size
      → n + mif_size t s ≤ size
      → Fits size (n + mif_size t s) (mif_tlvs t s (buf, n))
  unfolding mif_tlvs mif_size is_mif
  mif-Fits psf size n buf e room = record {
    out = buf;
    answers = ap (λ (k : ℕ). ok (buf, k)) (omega arith);
    same_size = e;
  }
  mif-Fits mif size n buf e room =
      step (λ rest. awdl_init_ht_capabilities_tlv rest s) 11 n (n + 11) buf
        (append (λ rest. awdl_init_arpa_tlv rest s)) e (ht_capabilities-Writes s h) refl
        (omega arith)
        λ buf' e'.
          at_end (λ rest. awdl_init_arpa_tlv rest s) (7 + length s.name) (n + 11) buf' e'
            (arpa-Writes s h) (omega arith) (omega arith)

fcs-Fits :
    (ieee : Ieee80211State) (size n : ℕ) (buf : List ℕ)
    → length buf ≡ size
    → n + fcs_size ieee.fcs ≤ size
    → Fits size (n + fcs_size ieee.fcs) (with_fcs ieee (buf, n))
unfolding with_fcs fcs_size
fcs-Fits ieee size n buf e room = elim (Bool-cases ieee.fcs) [
  | inl b ↦
      rw (b, with_fcs, fcs_size)
        (let fits : n + 4 ≤ length buf = ground arith in
          record {
            out = splice buf n (to_le32 (crc32 (take n buf)));
            answers = rw (copy_into_lem buf n (to_le32 (crc32 (take n buf))) fits) refl;
            same_size = length-splice buf n (to_le32 (crc32 (take n buf))) fits ∙ e;
          })
  | inr b ↦
      rw (b, with_fcs, fcs_size)
        (record { out = buf; answers = ap (λ (k : ℕ). ok (buf, k)) (omega arith); same_size = e })
]

-- The frame behind the synchronization parameters.
abbrev tail_of : AwdlState → Ieee80211State → AwdlActionType → List ℕ × ℕ → Built
tail_of s ieee t b4 = do
  b5 ← append (λ rest. awdl_init_election_params_tlv rest s) b4
  b6 ← append (λ rest. awdl_init_chanseq_tlv rest s) b5
  b7 ← append (λ rest. awdl_init_election_params_v2_tlv rest s) b6
  b8 ← append (λ rest. awdl_init_service_params_tlv rest s) b7
  b9 ← mif_tlvs t s b8
  b10 ← append (λ rest. awdl_init_data_path_state_tlv rest s) b9
  b11 ← append (λ rest. awdl_init_version_tlv rest s) b10
  with_fcs ieee b11

module _ {size : ℕ} (s : AwdlState) (ieee : Ieee80211State) (t : AwdlActionType) (h : IsFramed s)
    (room : action_frame_size s ieee t ≤ size) where
  -- The frame from the second TLV on.
  tail_lem :
      (buf : List ℕ)
      → length buf ≡ size
      → Fits size (action_frame_size s ieee t) (tail_of s ieee t (buf, 93 + chan_bytes s))
  unfolding action_frame_size
  tail_lem buf e =
      let chan = chan_bytes s in
      let more = mif_size t s in
      step _ 24 (93 + chan) (117 + chan) buf _ e (election_params-Writes s h) (omega arith)
        (omega arith)
        λ c5 e5.
          step _ (12 + chan) (117 + chan) (129 + 2 * chan) c5 _ e5 (chanseq_tlv-Writes s h)
            (omega arith) (omega arith)
            λ c6 e6.
              step _ 43 (129 + 2 * chan) (172 + 2 * chan) c6 _ e6 (election_params_v2-Writes s h)
                (omega arith) (omega arith)
                λ c7 e7.
                  step _ 12 (172 + 2 * chan) (184 + 2 * chan) c7 _ e7 (service_params-Writes s h)
                    (omega arith) (omega arith)
                    λ c8 e8.
                      bind-Fits (mif_tlvs t s (c8, 184 + 2 * chan)) _
                        (mif-Fits s h t size (184 + 2 * chan) c8 e8 (omega arith))
                        λ c9 e9.
                          step _ 18 (184 + 2 * chan + more) (202 + 2 * chan + more) c9 _ e9
                            (data_path_state-Writes s h) (omega arith) (omega arith)
                            λ c10 e10.
                              step _ 5 (202 + 2 * chan + more) (207 + 2 * chan + more) c10 _ e10
                                (version-Writes s h) (omega arith) (omega arith)
                                λ c11 e11.
                                  fcs-Fits ieee size (207 + 2 * chan + more) c11 e11 (omega arith)

action_frame_lem :
    (now later : ℕ) (buf : List ℕ) (s : AwdlState) (ieee : Ieee80211State) (t : AwdlActionType)
    → IsFramed s
    → action_frame_size s ieee t ≤ length buf
    → Fits
        (length buf)
        (action_frame_size s ieee t)
        (awdl_init_full_action_frame now later buf s ieee t).1
unfolding awdl_init_full_action_frame action_frame_size next_sequence_number_12
action_frame_lem now later buf s ieee t h room =
    let chan = chan_bytes s in
    let more = mif_size t s in
    step _ 9 0 9 buf _ refl radiotap-Writes refl (omega arith) λ c1 e1.
      step _ 24 9 33 c1 _ e1 (header-Writes s h ieee) refl (omega arith) λ c2 e2.
        step _ 16 33 49 c2 _ e2 (action-Writes now t) refl (omega arith) λ c3 e3.
          step _ (44 + chan) 49 (93 + chan) c3 _ e3 (sync_params-Writes s h later) (omega arith)
            (omega arith) λ c4 e4. tail_lem s (next_sequence_number_12 ieee).0 t h room c4 e4

-- In a buffer of that many bytes or more, a node with six-byte addresses, sixteen channels and
-- positive periods, with an extended window below 2^16 TU, builds an action frame at any two readings of the clock, without a panic: it
-- returns 207 bytes, the channels twice, for a MIF 18 bytes and the name, and 4 bytes if a checksum
-- is wanted. The buffer keeps its length.
pub action_frame-Fits :
    (now later : ℕ) (buf : List ℕ) (s : AwdlState) (ieee : Ieee80211State) (t : AwdlActionType)
    → IsFramed s
    → action_frame_size s ieee t ≤ length buf
    → (buf' : List ℕ) × ((awdl_init_full_action_frame now later buf s ieee t).1
        ≡ ok (buf', action_frame_size s ieee t))
      × (length buf' ≡ length buf)
unfolding awdl_init_full_action_frame action_frame_size
action_frame-Fits now later buf s ieee t h room =
    let whole = action_frame_lem now later buf s ieee t h room in
    (whole.out, whole.answers, whole.same_size)
