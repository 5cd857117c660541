-- ===== src/Rx/Safety/Data.antt =====
-- The handlers of data frames in src/awdl/rx.rs return on any bytes, and keep the state valid.
use cosmicdrop.Base.{
  ℕ, zero, suc, ◌+◌, ◌-◌, ◌%◌, ◌≤◌, ◌≡◌, ◌≢◌, refl, arith, Bool, true, false, Bool-cases,
  Option-cases, not, ltb, min, Option, none, List, inl, inr, length, length-drop, take, drop,
  replicate, u64, if◌then◌else◌,
}
use cosmicdrop.Election.{EtherAddr}
use cosmicdrop.Frame.{llc_hdr_size, awdl_data_size}
use cosmicdrop.Peers.{peer_get}
use cosmicdrop.Rx.{Run, done, fault, match_read, drain, ◌>>=◌}
use cosmicdrop.Rx.Llc.{llc_parse, awdl_valid_llc_header}
use cosmicdrop.Rx.Ethernet.{
  to_ethernet, awdl_rx_data, skip_padding, later, amsdu_loop, awdl_rx_data_amsdu,
}
use cosmicdrop.Rx.Safety.{
  IsValid, IsNext, IsNext-refl, IsSafe, safe, match_read-IsSafe, if-IsSafe, check-IsSafe,
  bind-IsSafe, after, drain_lem, bind_ne_panic, ok_ne_panic,
}
use cosmicdrop.Rx.Safety.Frames.{set_stats-IsNext}
use cosmicdrop.State.{AwdlState}
use cosmicdrop.Wire.{WireResult, ok, err, panic, read_u8, read_be16, read_bytes_copy, slice}
use cosmicdrop.Wire.Panics.{
  read_u8_ne_panic, read_be16_ne_panic, read_bytes_copy_ne_panic, read_ether_addr_ne_panic,
}

llc_parse_ne_panic : (frame : List ℕ) → llc_parse frame ≢ panic
unfolding llc_parse
llc_parse_ne_panic frame = bind_ne_panic (read_u8 frame 0) (read_u8_ne_panic frame 0) λ dsap.
    bind_ne_panic (read_u8 frame 1) (read_u8_ne_panic frame 1) λ ssap.
      bind_ne_panic (read_u8 frame 2) (read_u8_ne_panic frame 2) λ control.
        bind_ne_panic (read_bytes_copy frame 3 (replicate 3 0))
          (read_bytes_copy_ne_panic frame 3 (replicate 3 0))
          λ oui. bind_ne_panic (read_be16 frame 6) (read_be16_ne_panic frame 6) λ pid. ok_ne_panic _

match_read-done {ℓ} :
    {A : Type ℓ} {B : Type 0} (r : WireResult A) (b : B) (f : A → Run B)
    → r ≢ panic
    → ((v : A) → (c : B) × (f v ≡ done c))
    → (c : B) × (match_read r (done b) f ≡ done c)
match_read-done (ok v) b f n h = h v
match_read-done err b f n h = (b, refl)
match_read-done panic b f n h = absurd (n refl)

if-done : (b : Bool) → (c : Bool) × ((if b then done false else done true) ≡ done c)
if-done true = (false, refl)
if-done false = (true, refl)

-- The check of the LLC header returns.
awdl_valid_llc_header-done : (frame : List ℕ) → (b : Bool) × (awdl_valid_llc_header frame ≡ done b)
unfolding awdl_valid_llc_header
awdl_valid_llc_header-done frame =
    match_read-done (llc_parse frame) false _ (llc_parse_ne_panic frame) λ llc. if-done _

pub tail_slice :
    (bytes : List ℕ) (n : ℕ)
    → n ≤ length bytes
    → slice bytes n (length bytes) ≡ ok (take (length bytes - n) (drop n bytes))
unfolding slice
tail_slice bytes n h = ground arith

to_ethernet-IsSafe :
    (frame : List ℕ) (src dst : EtherAddr) (ether_type : ℕ) (s : AwdlState)
    → IsValid s
    → IsSafe s (to_ethernet frame src dst ether_type s)
unfolding to_ethernet
to_ethernet-IsSafe frame src dst ether_type s v =
    check-IsSafe (ltb (length frame) awdl_data_size) (λ short. safe (IsNext-refl v))
      λ long.
        let fits : awdl_data_size ≤ length frame = ground arith in
        rw (tail_slice frame awdl_data_size fits) (safe (IsNext-refl v))

pub data-IsSafe :
    (frame : List ℕ) (src dst : EtherAddr) (s : AwdlState)
    → IsValid s
    → IsSafe s (awdl_rx_data frame src dst s)
unfolding awdl_rx_data
data-IsSafe frame src dst s v = elim (Option-cases (peer_get s.peers src)) [
  | inl e ↦ rw (e, awdl_rx_data) (safe n)
  | inr (peer, e) ↦ rw (e, awdl_rx_data) (known (awdl_valid_llc_header-done frame))
]
  where
    t : AwdlState
    t = record s { stats = record (s.stats) { rx_data = u64 (s.stats.rx_data + 1) } }

    n : IsNext s t
    n = set_stats-IsNext _ v

    known :
        (b : Bool) × (awdl_valid_llc_header frame ≡ done b)
        → IsSafe {R = Option (List ℕ)} s (
            awdl_valid_llc_header frame >>= λ valid.
            if not valid
            then done (none, t)
            else match_read (read_be16 frame 6) (done (none, t)) λ ether_type.
              if ltb (length frame) llc_hdr_size
              then done (none, t)
              else match_read
                  (drain llc_hdr_size frame)
                  fault
                  λ frame'. to_ethernet frame' src dst ether_type t)
    known (b, e) = rw e (
        if-IsSafe (not b) (safe n) (
          match_read-IsSafe (read_be16 frame 6) (read_be16_ne_panic frame 6) (safe n) λ ether_type.
            check-IsSafe (ltb (length frame) llc_hdr_size) (λ short. safe n)
              λ long.
                let fits : llc_hdr_size ≤ length frame = ground arith in
                rw (drain_lem llc_hdr_size frame fits) (
                  after n
                    (to_ethernet-IsSafe (drop llc_hdr_size frame) src dst ether_type t n.valid))))

-- The padding is never longer than what it is taken from.
length-skip_padding :
    (len_a : ℕ) (frame : List ℕ) → length (skip_padding len_a frame) ≤ length frame
unfolding skip_padding
length-skip_padding len_a frame =
    ground (arith, length-drop (min ((4 - (14 + len_a) % 4) % 4) (length frame)) frame)

amsdu_loop-IsSafe :
    (fuel : ℕ) (frame : List ℕ) (result : Option (List ℕ)) (s : AwdlState)
    → length frame ≤ fuel
    → IsValid s
    → IsSafe s (amsdu_loop fuel frame result s)
unfolding amsdu_loop
amsdu_loop-IsSafe zero frame result s h v =
    let e : ltb (length frame) 14 ≡ true = ground arith in rw e (safe (IsNext-refl v))
amsdu_loop-IsSafe (suc fuel) frame result s h v = elim (Bool-cases (ltb (length frame) 14)) [
  | inl e ↦ rw (e, amsdu_loop) (safe (IsNext-refl v))
  | inr e ↦
      rw (e, amsdu_loop)
        (match_read-IsSafe _ (read_ether_addr_ne_panic frame 0) (safe (IsNext-refl v)) λ dst_a.
          match_read-IsSafe _ (read_ether_addr_ne_panic frame 6) (safe (IsNext-refl v)) λ src_a.
            match_read-IsSafe _ (read_be16_ne_panic frame 12) (safe (IsNext-refl v)) λ len_a.
              let fits : 14 ≤ length frame = ground arith in
              rw (drain_lem 14 frame fits)
                (subframe (λ f r t. amsdu_loop-IsSafe fuel f r t) dst_a src_a len_a fits))
]
  where
    frame1 : List ℕ
    frame1 = drop 14 frame

    subframe :
        ((f : List ℕ) (r : Option (List ℕ)) (t : AwdlState)
          → length f ≤ fuel
          → IsValid t
          → IsSafe t (amsdu_loop fuel f r t))
        → (dst_a src_a : List ℕ) (len_a : ℕ) → 14 ≤ length frame
        → IsSafe {R = Option (List ℕ)} s (elim (ltb (length frame1) len_a) [
          | true ↦ done (result, s)
          | false ↦ awdl_rx_data (take len_a frame1) src_a dst_a s >>= λ x.
              match_read
                (drain len_a frame1)
                fault
                λ frame2. amsdu_loop fuel (skip_padding len_a frame2) (later (x.0) result) (x.1)
        ])
    subframe rest dst_a src_a len_a fits = elim (Bool-cases (ltb (length frame1) len_a)) [
      | inl e ↦ rw e (safe (IsNext-refl v))
      | inr e ↦ rw e (
          bind-IsSafe (awdl_rx_data (take len_a frame1) src_a dst_a s) _
            (data-IsSafe (take len_a frame1) src_a dst_a s v)
            λ eth s' n.
              let inside : len_a ≤ length frame1 = ground arith in
              rw (drain_lem len_a frame1 inside) (
                rest (skip_padding len_a (drop len_a frame1)) (later eth result) s'
                  (omega (
                    arith,
                    length-skip_padding len_a (drop len_a frame1),
                    length-drop len_a frame1,
                    length-drop 14 frame,
                  ))
                  n.valid))
    ]

pub amsdu-IsSafe :
    (frame : List ℕ) (s : AwdlState) → IsValid s → IsSafe s (awdl_rx_data_amsdu frame s)
unfolding awdl_rx_data_amsdu
amsdu-IsSafe frame s v = amsdu_loop-IsSafe (length frame) frame none s (omega arith) v
