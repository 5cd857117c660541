-- ===== src/Rx/Radiotap.antt =====
-- The radiotap header and the frame check sequence, as src/awdl/rx.rs reads them.
use cosmicdrop.Base.{
  ℕ, ◌+◌, ◌-◌, ltb, leb, ◌==◌, if◌then◌else◌, Bool, true, false, ◌||◌, not, List, length, take,
  bit_and,
}
use cosmicdrop.Base.Int.{ℤ, as_i8}
use cosmicdrop.Wire.{WireResult, ok, ◌>>=◌, index, from_le16, from_le32}

abbrev pub ieee80211_radiotap_f_fcs : ℕ
ieee80211_radiotap_f_fcs = 0x10

abbrev pub ieee80211_radiotap_f_badfcs : ℕ
ieee80211_radiotap_f_badfcs = 0x40

-- Whether bit `n` of the mask `present` is set, given `1 << n`.
abbrev pub has : ℕ → ℕ → Bool
has present bit = not (bit_and present bit == 0)

-- `if offset + 1 <= it_len { *field = frame[offset]; }`.
unfoldable pub read_field : List ℕ → ℕ → ℕ → ℕ → WireResult ℕ
read_field frame it_len offset old = if leb (offset + 1) it_len then index frame offset else ok old

unfoldable pub read_rssi : List ℕ → ℕ → ℕ → ℤ → WireResult ℤ
read_rssi frame it_len offset old =
    if leb (offset + 1) it_len then (do b ← index frame offset; ok (as_i8 b)) else ok old

-- The fields behind the fixed header. The rate is skipped.
unfoldable pub radiotap_fields : List ℕ → ℕ → ℕ → ℤ → ℕ → WireResult (Bool × ℤ × ℕ)
radiotap_fields frame it_len present rssi flags = do
  let offset0 = if has present 0x1 then 8 + 8 else 8
  flags' ← if has present 0x2 then read_field frame it_len offset0 flags else ok flags
  let offset1 = if has present 0x2 then offset0 + 1 else offset0
  let offset2 = if has present 0x4 then offset1 + 1 else offset1
  rssi' ← if has present 0x20 then read_rssi frame it_len offset2 rssi else ok rssi
  ok (true, rssi', flags')

-- The success of the parse, and `*rssi` and `*flags` after it. The calls of `extend_generic` do
-- nothing.
unfoldable pub radiotap_parse : List ℕ → ℤ → ℕ → WireResult (Bool × ℤ × ℕ)
radiotap_parse frame rssi flags = if ltb (length frame) 8 then ok (false, rssi, flags) else do
  it_version ← index frame 0
  len0 ← index frame 2
  len1 ← index frame 3
  let it_len = from_le16 len0 len1
  if not (it_version == 0) || ltb (length frame) it_len then ok (false, rssi, flags) else do
    p0 ← index frame 4
    p1 ← index frame 5
    p2 ← index frame 6
    p3 ← index frame 7
    radiotap_fields frame it_len (from_le32 p0 p1 p2 p3) rssi flags

-- Whether the frame check sequence is not marked bad, and the frame without it.
unfoldable pub check_fcs : List ℕ → ℕ → Bool × List ℕ
check_fcs frame radiotap_flags =
    if has radiotap_flags ieee80211_radiotap_f_badfcs
    then (false, frame)
    else (if has radiotap_flags ieee80211_radiotap_f_fcs
        then (true, if leb 4 (length frame) then take (length frame - 4) frame else frame)
        else (true, frame))
