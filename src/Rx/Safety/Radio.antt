-- ===== src/Rx/Safety/Radio.antt =====
-- The parse of the radiotap header in src/awdl/rx.rs returns on any bytes.
use cosmicdrop.Base.{
  ℕ, ◌+◌, ◌≤◌, ◌<◌, ◌≡◌, refl, arith, Bool, true, false, Bool-cases, not, ltb, leb, ◌==◌, ◌||◌,
  if◌then◌else◌, List, length, inl, inr,
}
use cosmicdrop.Base.Int.{ℤ}
use cosmicdrop.Rx.Radiotap.{radiotap_parse, radiotap_fields, read_field, read_rssi, has}
use cosmicdrop.Wire.{WireResult, ok, ◌>>=◌, from_le16}
use cosmicdrop.Wire.Reads.{index_lem, at}

abbrev Returns : {A : Type 0} → WireResult A → Type 0
Returns {A} r = (a : A) × (r ≡ ok a)

bind-Returns :
    {A : Type 0} {B : Type 0} (r : WireResult A) (f : A → WireResult B)
    → Returns r
    → ((a : A) → Returns (f a))
    → Returns (r >>= f)
bind-Returns r f (a, e) h = rw e (h a)

if-Returns :
    {A : Type 0} (b : Bool) {x y : WireResult A}
    → Returns x
    → Returns y
    → Returns (if b then x else y)
if-Returns true hx hy = hx
if-Returns false hx hy = hy

-- The length field of the header.
abbrev pub it_len : List ℕ → ℕ
it_len frame = from_le16 (at frame 2) (at frame 3)

module _ (frame : List ℕ) (bound : ℕ) (h : bound ≤ length frame) where
  read_field-Returns : (offset old : ℕ) → Returns (read_field frame bound offset old)
  unfolding read_field
  read_field-Returns offset old = elim (Bool-cases (leb (offset + 1) bound)) [
    | inl e ↦
        let inside : offset < length frame = ground arith in
        rw (e, index_lem frame offset inside) (_, refl)
    | inr e ↦ rw e (old, refl)
  ]

  read_rssi-Returns : (offset : ℕ) (old : ℤ) → Returns (read_rssi frame bound offset old)
  unfolding read_rssi
  read_rssi-Returns offset old = elim (Bool-cases (leb (offset + 1) bound)) [
    | inl e ↦
        let inside : offset < length frame = ground arith in
        rw (e, index_lem frame offset inside) (_, refl)
    | inr e ↦ rw e (old, refl)
  ]

  radiotap_fields-Returns :
      (present : ℕ) (rssi : ℤ) (flags : ℕ)
      → Returns (radiotap_fields frame bound present rssi flags)
  unfolding radiotap_fields
  radiotap_fields-Returns present rssi flags =
      let offset0 : ℕ = if has present 0x1 then 8 + 8 else 8 in
      let offset1 : ℕ = if has present 0x2 then offset0 + 1 else offset0 in
      let offset2 : ℕ = if has present 0x4 then offset1 + 1 else offset1 in
      bind-Returns (if has present 0x2 then read_field frame bound offset0 flags else ok flags) _
        (if-Returns (has present 0x2) (read_field-Returns offset0 flags) (flags, refl))
        λ flags'.
          bind-Returns (if has present 0x20 then read_rssi frame bound offset2 rssi else ok rssi) _
            (if-Returns (has present 0x20) (read_rssi-Returns offset2 rssi) (rssi, refl))
            λ rssi'. ((true, rssi', flags'), refl)

pub radiotap_parse-Returns :
    (frame : List ℕ) (rssi : ℤ) (flags : ℕ) → Returns (radiotap_parse frame rssi flags)
unfolding radiotap_parse
radiotap_parse-Returns frame rssi flags = elim (Bool-cases (ltb (length frame) 8)) [
  | inl e ↦ rw e ((false, rssi, flags), refl)
  | inr e ↦
      let long : 8 ≤ length frame = ground arith in
      rw
        (
          e,
          index_lem frame 0 (omega arith),
          index_lem frame 2 (omega arith),
          index_lem frame 3 (omega arith),
        )
        (elim (Bool-cases (not (at frame 0 == 0) || ltb (length frame) (it_len frame))) [
          | inl bad ↦ rw bad ((false, rssi, flags), refl)
          | inr good ↦
              let fits : it_len frame ≤ length frame = ground arith in
              rw
                (
                  good,
                  index_lem frame 4 (omega arith),
                  index_lem frame 5 (omega arith),
                  index_lem frame 6 (omega arith),
                  index_lem frame 7 (omega arith),
                )
                (radiotap_fields-Returns frame (it_len frame) fits _ rssi flags)
        ])
]
