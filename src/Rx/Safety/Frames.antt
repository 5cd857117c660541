-- ===== src/Rx/Safety/Frames.antt =====
-- The handlers of whole frames in src/awdl/rx.rs return on any bytes, and keep the state valid. The
-- fuel of their loops is enough.
use cosmicdrop.Base.{
  ℕ, zero, suc, ◌+◌, ◌≤◌, ◌≡◌, refl, arith, true, Bool-cases, Option-cases, ltb, leb, Option, none,
  some, List, inl, inr, length, take, drop,
}
use cosmicdrop.Base.Int.{ℤ}
use cosmicdrop.Election.{EtherAddr}
use cosmicdrop.Frame.{AwdlActionType, awdl_action_size}
use cosmicdrop.Peers.{peer_add}
use cosmicdrop.Peers.Keys.{peer_add-IsWellKeyed}
use cosmicdrop.Rx.{RxResult, rx_ok, done}
use cosmicdrop.Rx.Action.{
  tlv_loop, is_error, finish_action, awdl_rx_action, handle_tlvs, accept_action,
  awdl_parse_action_hdr, rssi_too_low,
}
use cosmicdrop.Rx.Safety.{
  IsValid, IsNext, IsNext-refl, IsNext-trans, IsSafe, safe, match_read_eq-IsSafe, if-IsSafe,
  check-IsSafe, bind-IsSafe, after, drain_lem, write_peer-IsNext,
}
use cosmicdrop.Rx.Safety.Handlers.{tlv-IsSafe}
use cosmicdrop.Rx.Tlv.{awdl_handle_tlv}
use cosmicdrop.State.{AwdlState, AwdlStats}
use cosmicdrop.Wire.{read_tlv}
use cosmicdrop.Wire.Panics.{read_tlv_ne_panic}
use cosmicdrop.Wire.Reads.{read_tlv_bounds}

-- A statistic, or the peers, are set.
pub set_stats-IsNext :
    {s : AwdlState} (x : AwdlStats) → IsValid s → IsNext s (record s { stats = x })
set_stats-IsNext x v = record {
  valid = record { timed = v.timed; keyed = v.keyed };
  same_address = refl;
  same_election = refl;
  same_channel = refl;
  same_sequence = refl;
  same_identity = refl;
}

add-IsNext :
    {s : AwdlState} (src : EtherAddr) (now : ℕ)
    → length src ≡ 6
    → IsValid s
    → IsNext s (record s { peers = (peer_add s.peers src now).0 })
unfolding peer_add
add-IsNext {s} src now len v = record {
  valid = record { timed = v.timed; keyed = peer_add-IsWellKeyed s.peers src now len v.keyed };
  same_address = refl;
  same_election = refl;
  same_channel = refl;
  same_sequence = refl;
  same_identity = refl;
}

module _ (from_utf8_lossy : List ℕ → List ℕ) (src : EtherAddr) (tsft : ℕ) where
  tlv_loop-IsSafe :
      (fuel : ℕ) (frame : List ℕ) (tlv_offset : ℕ) (s : AwdlState)
      → length frame ≤ fuel + tlv_offset
      → IsValid s
      → IsSafe s (tlv_loop from_utf8_lossy src tsft fuel frame tlv_offset s)
  unfolding tlv_loop
  tlv_loop-IsSafe zero frame tlv_offset s h v =
      let e : leb (length frame) tlv_offset ≡ true = ground arith in rw e (safe (IsNext-refl v))
  tlv_loop-IsSafe (suc fuel) frame tlv_offset s h v =
      elim (Bool-cases (leb (length frame) tlv_offset)) [
        | inl e ↦ rw (e, tlv_loop) (safe (IsNext-refl v))
        | inr e ↦
            rw (e, tlv_loop)
              (match_read_eq-IsSafe (read_tlv frame tlv_offset) (read_tlv_ne_panic frame tlv_offset)
                (safe (IsNext-refl v))
                λ tlv read.
                  bind-IsSafe
                    (awdl_handle_tlv from_utf8_lossy src (tlv.0) (take (tlv.1) (tlv.2)) s tsft) _
                    (tlv-IsSafe from_utf8_lossy src (take (tlv.1) (tlv.2)) s v (tlv.0) tsft)
                    λ result s' n. elim (Bool-cases (is_error result)) [
                      | inl bad ↦ rw bad (safe (IsNext-refl n.valid))
                      | inr good ↦ rw good (
                          tlv_loop-IsSafe fuel frame (tlv_offset + tlv.3) s'
                            (advances tlv (
                              read_tlv_bounds frame tlv_offset (tlv.0) (tlv.1) (tlv.2) (tlv.3)
                                read))
                            n.valid)
                    ])
      ]
    where
      advances :
          (tlv : ℕ × ℕ × List ℕ × ℕ)
          → (tlv.3 ≡ 3 + tlv.1) × (tlv_offset + tlv.3 ≤ length frame) × (length (tlv.2) ≡ tlv.1)
          → length frame ≤ fuel + (tlv_offset + tlv.3)
      advances tlv b = omega arith

  finish_action-IsNext :
      (subtype : AwdlActionType) (s : AwdlState)
      → length src ≡ 6
      → IsValid s
      → IsNext s (finish_action from_utf8_lossy src tsft subtype s)
  unfolding finish_action
  finish_action-IsNext AwdlActionType.psf s len v = add-IsNext src tsft len v
  finish_action-IsNext AwdlActionType.mif s len v =
      let n = write_peer-IsNext src _ (λ p. (refl, refl, λ h. h)) v in
      IsNext-trans n (add-IsNext src tsft len n.valid)

  handle_tlvs-IsSafe :
      (subtype : AwdlActionType) (frame : List ℕ) (s : AwdlState)
      → length src ≡ 6
      → IsValid s
      → IsSafe s (handle_tlvs from_utf8_lossy src tsft subtype frame s)
  unfolding handle_tlvs
  handle_tlvs-IsSafe subtype frame s len v =
      bind-IsSafe (tlv_loop from_utf8_lossy src tsft (length frame) frame 0 s) _
        (tlv_loop-IsSafe (length frame) frame 0 s (omega arith) v) finished
    where
      finished :
          (returned : Option RxResult) (s' : AwdlState)
          → IsNext s s'
          → IsSafe s' (elim returned [
            | some result ↦ done (result, s')
            | none ↦ done (rx_ok, finish_action from_utf8_lossy src tsft subtype s')
          ])
      finished (some result) s' n = safe (IsNext-refl n.valid)
      finished none s' n = safe (finish_action-IsNext subtype s' len n.valid)

  accept_action-IsSafe :
      (subtype : AwdlActionType) (frame : List ℕ) (s : AwdlState)
      → length src ≡ 6
      → IsValid s
      → IsSafe s (accept_action from_utf8_lossy src tsft subtype frame s)
  unfolding accept_action
  accept_action-IsSafe subtype frame s len v =
      let n =
        IsNext-trans (set_stats-IsNext _ v)
          (add-IsNext src tsft len (set_stats-IsNext _ v).valid) in
      if-IsSafe _ (safe n) (after n (handle_tlvs-IsSafe subtype frame _ len n.valid))

  pub action-IsSafe :
      (frame : List ℕ) (rssi : ℤ) (s : AwdlState)
      → length src ≡ 6
      → IsValid s
      → IsSafe s (awdl_rx_action from_utf8_lossy src tsft frame rssi s)
  unfolding awdl_rx_action
  action-IsSafe frame rssi s len v = elim (Option-cases (awdl_parse_action_hdr frame)) [
    | inl e ↦ rw (e, awdl_rx_action) (safe (IsNext-refl v))
    | inr (subtype, e) ↦
        rw (e, awdl_rx_action)
          (check-IsSafe (ltb (length frame) awdl_action_size) (λ short. safe (IsNext-refl v))
            λ long.
              let fits : awdl_action_size ≤ length frame = ground arith in
              rw (drain_lem awdl_action_size frame fits) (
                if-IsSafe (rssi_too_low src rssi s) (safe (IsNext-refl v))
                  (accept_action-IsSafe subtype (drop awdl_action_size frame) s len v)))
  ]
