-- ===== src/Rx/Safety/Whole.antt =====
-- Reception as a whole in src/awdl/rx.rs: whatever bytes arrive, it returns and keeps the invariant.
use cosmicdrop.Base.{
  ℕ, ◌+◌, ◌≤◌, ◌≡◌, arith, not, ltb, Option, some, List, length, length-drop, length-take, take,
  drop, bytes_eq,
}
use cosmicdrop.Base.Int.{ℤ, pos}
use cosmicdrop.Election.{EtherAddr}
use cosmicdrop.Frame.{read_packed, to_ieee80211_hdr, ieee80211_hdr_size, ieee80211_qos_ctl_len}
use cosmicdrop.Rx.{Run, done, fault, stuck, RxResult}
use cosmicdrop.Rx.Radiotap.{check_fcs}
use cosmicdrop.Rx.Safety.Radio.{it_len, radiotap_parse-Returns}
use cosmicdrop.Rx.Entry.{
  with_ok, without_frame, le16_from, awdl_rx_qos, dispatch, awdl_rx_80211, awdl_rx, awdl_rx_frame,
}
use cosmicdrop.Rx.Safety.{
  IsValid, IsNext, IsNext-refl, IsSafe, safe, if-IsSafe, check-IsSafe, returned, drain_lem,
}
use cosmicdrop.Rx.Safety.Frames.{action-IsSafe}
use cosmicdrop.Rx.Safety.Data.{data-IsSafe, amsdu-IsSafe}
use cosmicdrop.State.{AwdlState}
use cosmicdrop.Wire.{ok, from_le16}
use cosmicdrop.Wire.Reads.{index_lem, at}

le16_from_lem :
    (frame : List ℕ) (i : ℕ)
    → i + 2 ≤ length frame
    → le16_from frame i ≡ ok (from_le16 (at frame i) (at frame (i + 1)))
le16_from_lem frame i h = ground (arith, index_lem frame i, index_lem frame (i + 1))

read_packed_lem :
    (size : ℕ) (frame : List ℕ)
    → size ≤ length frame
    → read_packed size frame 0 ≡ some (take size frame)
unfolding read_packed
read_packed_lem size frame h = ground arith

with_ok-IsSafe :
    {s : AwdlState} (c : Run (Option (List ℕ) × AwdlState)) → IsSafe s c → IsSafe s (with_ok c)
with_ok-IsSafe (done (r, s')) (safe n) = safe n
with_ok-IsSafe fault e = elim e [ ]
with_ok-IsSafe stuck e = elim e [ ]

without_frame-IsSafe :
    {s : AwdlState} (c : Run (RxResult × AwdlState)) → IsSafe s c → IsSafe s (without_frame c)
without_frame-IsSafe (done (r, s')) (safe n) = safe n
without_frame-IsSafe fault e = elim e [ ]
without_frame-IsSafe stuck e = elim e [ ]

qos-IsSafe :
    (frame : List ℕ) (src dst : EtherAddr) (s : AwdlState)
    → IsValid s
    → IsSafe s (awdl_rx_qos frame src dst s)
unfolding awdl_rx_qos
qos-IsSafe frame src dst s v =
    check-IsSafe (ltb (length frame) ieee80211_qos_ctl_len) (λ short. safe (IsNext-refl v))
      λ long.
        let fits : 2 ≤ length frame = ground arith in
        rw (le16_from_lem frame 0 fits, drain_lem ieee80211_qos_ctl_len frame fits)
          (if-IsSafe _ (with_ok-IsSafe _ (data-IsSafe (drop 2 frame) src dst s v))
            (with_ok-IsSafe _ (amsdu-IsSafe (drop 2 frame) s v)))

module _ (from_utf8_lossy : List ℕ → List ℕ) (tsft : ℕ) where
  dispatch-IsSafe :
      (fc : ℕ) (frame : List ℕ) (src dst : EtherAddr) (rssi : ℤ) (s : AwdlState)
      → length src ≡ 6
      → IsValid s
      → IsSafe s (dispatch from_utf8_lossy tsft fc frame src dst rssi s)
  unfolding dispatch
  dispatch-IsSafe fc frame src dst rssi s len v =
      if-IsSafe _
        (without_frame-IsSafe _ (action-IsSafe from_utf8_lossy src tsft frame rssi s len v))
        (if-IsSafe _ (with_ok-IsSafe _ (data-IsSafe frame src dst s v))
          (if-IsSafe _ (qos-IsSafe frame src dst s v) (safe (IsNext-refl v))))

  rx_80211-IsSafe :
      (frame : List ℕ) (rssi : ℤ) (s : AwdlState)
      → IsValid s
      → IsSafe s (awdl_rx_80211 from_utf8_lossy tsft frame rssi s)
  unfolding awdl_rx_80211 to_ieee80211_hdr
  rx_80211-IsSafe frame rssi s v =
      check-IsSafe (ltb (length frame) ieee80211_hdr_size) (λ short. safe (IsNext-refl v))
        λ long.
          let fits : 24 ≤ length frame = ground arith in
          let two : 2 ≤ length frame = omega arith in
          rw (read_packed_lem 24 frame fits, le16_from_lem frame 0 two, drain_lem 24 frame fits)
            (if-IsSafe (bytes_eq (to_ieee80211_hdr (take 24 frame)).addr2 s.self_address)
              (safe (IsNext-refl v))
              (dispatch-IsSafe (from_le16 (at frame 0) (at frame 1)) (drop 24 frame) _
                (to_ieee80211_hdr (take 24 frame)).addr1 rssi s (addr2_length fits) v))
    where
      addr2_length : 24 ≤ length frame → length (to_ieee80211_hdr (take 24 frame)).addr2 ≡ 6
      addr2_length h = omega (
        arith,
        length-take 6 (drop 10 (take 24 frame)),
        length-drop 10 (take 24 frame),
        length-take 24 frame,
      )

  rx-IsSafe :
      (frame : List ℕ) (s : AwdlState) → IsValid s → IsSafe s (awdl_rx from_utf8_lossy tsft frame s)
  unfolding awdl_rx
  rx-IsSafe frame s v =
      let (parsed, e) = radiotap_parse-Returns frame (pos 0) 0 in
      rw e (
        if-IsSafe _ (safe (IsNext-refl v)) (
          check-IsSafe (ltb (length frame) 8) (λ short. safe (IsNext-refl v))
            λ long.
              let eight : 2 + 2 ≤ length frame = ground arith in
              rw (le16_from_lem frame 2 eight) (
                check-IsSafe (ltb (length frame) (it_len frame)) (λ short. safe (IsNext-refl v))
                  λ long'.
                    let fits : it_len frame ≤ length frame = ground arith in
                    rw (drain_lem (it_len frame) frame fits) (
                      let checked = check_fcs (drop (it_len frame) frame) (parsed.2) in
                      if-IsSafe (not (checked.0)) (safe (IsNext-refl v))
                        (rx_80211-IsSafe (checked.1) (parsed.1) s v)))))

-- Whatever bytes arrive, at whatever time, and however the library converts text: if the state is
-- valid, `awdl_rx_frame` returns. It neither panics nor runs out of the fuel of its loops. The state
-- that it leaves is valid, and has the same
-- address, name, destination, intervals, election state, channels and sequence number.
pub awdl_rx_frame-IsSafe :
    (from_utf8_lossy : List ℕ → List ℕ) (tsft : ℕ) (frame : List ℕ) (s : AwdlState)
    → IsValid s
    → (r : RxResult × Option (List ℕ)) × (s' : AwdlState) × (awdl_rx_frame from_utf8_lossy tsft
          frame s
        ≡ done (r, s'))
      × IsNext s s'
unfolding awdl_rx_frame
awdl_rx_frame-IsSafe from_utf8_lossy tsft frame s v =
    returned _ (rx-IsSafe from_utf8_lossy tsft frame s v)
