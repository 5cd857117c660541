-- ===== src/Wire/RoundTrip.antt =====
-- What is written by src/awdl/wire.rs is read back, and the rest of the buffer stays.
use cosmicdrop.Base.{
  true, length-replicate, leb, ℕ, zero, suc, ◌+◌, ◌-◌, ◌≤◌, ◌<◌, ◌^◌, ◌%◌, ◌/◌, ◌≡◌, ◌⊎◌, inl, inr,
  refl, arith, List, [], ◌∷◌, ◌++◌, length, take, drop, length-append, length-take, length-drop,
  ◌∙◌, ap,
}
use mathlib.Core.List.{append_assoc}
use cosmicdrop.Wire.{
  zeroed, slice, WireResult, ok, copy_into, splice, to_le16, to_le32, to_be16, to_be32, read_le16,
  read_be16, read_le32, read_be32, read_tlv, write_le16, write_be16, write_le32, write_be32,
}
use cosmicdrop.Wire.Reads.{
  at, window, read_le16_lem, read_be16_lem, read_le32_lem, read_be32_lem, read_tlv_lem, tlv_length,
}

pub at-append_left : (xs ys : List ℕ) (j : ℕ) → j < length xs → at (xs ++ ys) j ≡ at xs j
at-append_left [] ys j h = elim h [ ]
at-append_left (x ∷ xs) ys zero h = refl
at-append_left (x ∷ xs) ys (suc j) h = at-append_left xs ys j (omega arith)

pub at-append_right :
    (xs ys : List ℕ) (j : ℕ) → length xs ≤ j → at (xs ++ ys) j ≡ at ys (j - length xs)
at-append_right [] ys j h = let e : j - 0 ≡ j = omega arith in ground (arith, e)
at-append_right (x ∷ xs) ys zero h = absurd (omega arith)
at-append_right (x ∷ xs) ys (suc j) h =
    let e : suc j - suc (length xs) ≡ j - length xs = omega arith in
    ground (arith, e, at-append_right xs ys j (omega arith))

pub at-take : (n : ℕ) (xs : List ℕ) (j : ℕ) → j < n → at (take n xs) j ≡ at xs j
at-take zero xs j h = elim h [ ]
at-take (suc n) [] j h = refl
at-take (suc n) (x ∷ xs) zero h = refl
at-take (suc n) (x ∷ xs) (suc j) h = at-take n xs j (omega arith)

pub at-drop : (n : ℕ) (xs : List ℕ) (j : ℕ) → at (drop n xs) j ≡ at xs (n + j)
at-drop zero xs j = let e : 0 + j ≡ j = omega arith in ground (arith, e)
at-drop (suc n) [] j = refl
at-drop (suc n) (x ∷ xs) j =
    let e : suc n + j ≡ suc (n + j) = omega arith in ground (arith, e, at-drop n xs j)

module _ (buf : List ℕ) (offset : ℕ) (src : List ℕ) (fits : offset + length src ≤ length buf) where
  pub length-splice : length (splice buf offset src) ≡ length buf
  length-splice = omega (
    arith,
    length-append (take offset buf) (src ++ drop (offset + length src) buf),
    length-append src (drop (offset + length src) buf),
    length-take offset buf,
    length-drop (offset + length src) buf,
  )

  pub at-splice_inside :
      (j : ℕ) → j < length src → at (splice buf offset src) (offset + j) ≡ at src j
  at-splice_inside j h =
      let e : offset + j - length (take offset buf) ≡ j = omega (arith, length-take offset buf) in
      ground (
        arith,
        at-append_right (take offset buf) (src ++ drop (offset + length src) buf) (offset + j)
            (omega (arith, length-take offset buf)),
        e,
        at-append_left src (drop (offset + length src) buf) j h,
      )

  pub at-splice_outside :
      (j : ℕ) → (j < offset) ⊎ (offset + length src ≤ j) → at (splice buf offset src) j ≡ at buf j
  at-splice_outside j (inl h) =
      at-append_left (take offset buf) (src ++ drop (offset + length src) buf) j
        (omega (arith, length-take offset buf))
      ∙ at-take offset buf j h
  at-splice_outside j (inr h) =
      let k = j - offset in
      let e : j - length (take offset buf) ≡ k = omega (arith, length-take offset buf) in
      let e' : offset + length src + (k - length src) ≡ j = omega arith in
      ground (
        arith,
        at-append_right (take offset buf) (src ++ drop (offset + length src) buf) j
            (omega (arith, length-take offset buf)),
        e,
        at-append_right src (drop (offset + length src) buf) k (omega arith),
        at-drop (offset + length src) buf (k - length src),
        e',
      )

-- `write` succeeds; reading the buffer that it leaves gives `v`; the `n` bytes from `offset` are
-- the only ones that may differ from `buf`.
pub record IsStored {A : Type 0} (buf : List ℕ) (offset n : ℕ) (write : WireResult (List ℕ))
    (read : List ℕ → WireResult A) (v : A) : Type 0 where
  pub out : List ℕ
  pub written : write ≡ ok out
  pub reads_back : read out ≡ ok v
  pub same_length : length out ≡ length buf
  pub outside : (j : ℕ) → (j < offset) ⊎ (offset + n ≤ j) → at out j ≡ at buf j

module _ (buf : List ℕ) (offset : ℕ) where
  -- The cells of a splice, for sources of two and four bytes.
  cell :
      (src : List ℕ)
      → offset + length src ≤ length buf
      → (j : ℕ) → j < length src
      → at (splice buf offset src) (offset + j) ≡ at src j
  cell src fits j h = at-splice_inside buf offset src fits j h

  first :
      (src : List ℕ)
      → offset + length src ≤ length buf
      → 0 < length src
      → at (splice buf offset src) offset ≡ at src 0
  first src fits h =
      let e : offset + 0 ≡ offset = omega arith in ground (arith, e, cell src fits 0 h)

  pub write_le16-read :
      (v : ℕ)
      → v < 2 ^ 16
      → offset + 2 ≤ length buf
      → IsStored buf offset 2 (write_le16 buf offset v) (λ out. read_le16 out offset) v
  write_le16-read v hv fits = record {
    out = splice buf offset (to_le16 v);
    written = unfold write_le16 copy_into in ground arith;
    reads_back = ground (
      arith,
      read_le16_lem (splice buf offset (to_le16 v)) offset,
      length-splice buf offset (to_le16 v) fits,
      first (to_le16 v) fits (omega arith),
      cell (to_le16 v) fits 1 (omega arith),
    );
    same_length = length-splice buf offset (to_le16 v) fits;
    outside = at-splice_outside buf offset (to_le16 v) fits;
  }

  pub write_be16-read :
      (v : ℕ)
      → v < 2 ^ 16
      → offset + 2 ≤ length buf
      → IsStored buf offset 2 (write_be16 buf offset v) (λ out. read_be16 out offset) v
  write_be16-read v hv fits = record {
    out = splice buf offset (to_be16 v);
    written = unfold write_be16 copy_into in ground arith;
    reads_back = ground (
      arith,
      read_be16_lem (splice buf offset (to_be16 v)) offset,
      length-splice buf offset (to_be16 v) fits,
      first (to_be16 v) fits (omega arith),
      cell (to_be16 v) fits 1 (omega arith),
    );
    same_length = length-splice buf offset (to_be16 v) fits;
    outside = at-splice_outside buf offset (to_be16 v) fits;
  }

  pub write_le32-read :
      (v : ℕ)
      → v < 2 ^ 32
      → offset + 4 ≤ length buf
      → IsStored buf offset 4 (write_le32 buf offset v) (λ out. read_le32 out offset) v
  write_le32-read v hv fits = record {
    out = splice buf offset (to_le32 v);
    written = unfold write_le32 copy_into in ground arith;
    reads_back = ground (
      arith,
      read_le32_lem (splice buf offset (to_le32 v)) offset,
      length-splice buf offset (to_le32 v) fits,
      first (to_le32 v) fits (omega arith),
      cell (to_le32 v) fits 1 (omega arith),
      cell (to_le32 v) fits 2 (omega arith),
      cell (to_le32 v) fits 3 (omega arith),
    );
    same_length = length-splice buf offset (to_le32 v) fits;
    outside = at-splice_outside buf offset (to_le32 v) fits;
  }

  pub write_be32-read :
      (v : ℕ)
      → v < 2 ^ 32
      → offset + 4 ≤ length buf
      → IsStored buf offset 4 (write_be32 buf offset v) (λ out. read_be32 out offset) v
  write_be32-read v hv fits = record {
    out = splice buf offset (to_be32 v);
    written = unfold write_be32 copy_into in ground arith;
    reads_back = ground (
      arith,
      read_be32_lem (splice buf offset (to_be32 v)) offset,
      length-splice buf offset (to_be32 v) fits,
      first (to_be32 v) fits (omega arith),
      cell (to_be32 v) fits 1 (omega arith),
      cell (to_be32 v) fits 2 (omega arith),
      cell (to_be32 v) fits 3 (omega arith),
    );
    same_length = length-splice buf offset (to_be32 v) fits;
    outside = at-splice_outside buf offset (to_be32 v) fits;
  }

-- For a value that fits the width and a window inside the buffer, each of the four integer writes
-- succeeds, the read of the same name at the same offset gives the value back, the buffer keeps
-- its length, and every byte outside the window is unchanged.
pub write-read :
    (buf : List ℕ) (offset v w : ℕ)
    → v < 2 ^ 16
    → w < 2 ^ 32
    → offset + 4 ≤ length buf
    → IsStored buf offset 2 (write_le16 buf offset v) (λ out. read_le16 out offset) v
      × IsStored buf offset 2 (write_be16 buf offset v) (λ out. read_be16 out offset) v
      × IsStored buf offset 4 (write_le32 buf offset w) (λ out. read_le32 out offset) w
      × IsStored buf offset 4 (write_be32 buf offset w) (λ out. read_be32 out offset) w
write-read buf offset v w hv hw fits = (
  write_le16-read buf offset v hv (omega arith),
  write_be16-read buf offset v hv (omega arith),
  write_le32-read buf offset w hw fits,
  write_be32-read buf offset w hw fits,
)

-- A fresh buffer, and the front of a buffer.
pub length-zeroed : (n : ℕ) → length (zeroed n) ≡ n
unfolding zeroed
length-zeroed n = length-replicate n 0

pub slice_front : (bytes : List ℕ) (n : ℕ) → n ≤ length bytes → slice bytes 0 n ≡ ok (take n bytes)
unfolding slice
slice_front bytes n h =
    let e : n - 0 ≡ n = omega arith in
    let inside : leb n (length bytes) ≡ true = ground arith in
    let from : leb 0 n ≡ true = ground arith in rw (e, inside, from) refl

-- Reads behind a prefix.
pub at_after : (before s : List ℕ) (k : ℕ) → at (before ++ s) (length before + k) ≡ at s k
at_after before s k =
    let e : length before + k - length before ≡ k = omega arith in
    ground (arith, e, at-append_right before s (length before + k))

pub drop_after : (before s : List ℕ) (k : ℕ) → drop (length before + k) (before ++ s) ≡ drop k s
drop_after [] s k = let e : 0 + k ≡ k = omega arith in rw e
drop_after (x ∷ xs) s k =
    let e : suc (length xs) + k ≡ suc (length xs + k) = omega arith in rw e (drop_after xs s k)

pub take_all : (v rest : List ℕ) → take (length v) (v ++ rest) ≡ v
take_all [] rest = refl
take_all (x ∷ v) rest = ap (λ t. x ∷ t) (take_all v rest)

pub window_after :
    (before v rest : List ℕ) (n : ℕ)
    → n ≡ length before
    → window (before ++ (v ++ rest)) n (length v) ≡ v
unfolding window
window_after before v rest n e =
    let e' : n ≡ length before + 0 = omega arith in
    rw (e', drop_after before (v ++ rest) 0) (take_all v rest)

-- A TLV laid out as type, little-endian length and value.
abbrev pub encode_tlv : ℕ → List ℕ → List ℕ
encode_tlv t v = t ∷ (to_le16 (length v) ++ v)

-- Wherever a TLV with a value shorter than 2^16 bytes stands in a frame, `read_tlv` at its offset
-- answers its type, its length, its value and its size, whatever precedes and follows it.
pub read_tlv-encode_tlv :
    (before : List ℕ) (t : ℕ) (v after : List ℕ)
    → length v < 2 ^ 16
    → read_tlv (before ++ (encode_tlv t v ++ after)) (length before)
      ≡ ok (t, length v, v, 3 + length v)
read_tlv-encode_tlv before t v after h =
    let n = length before in
    let tail = encode_tlv t v ++ after in
    let all = before ++ tail in
    let head : List ℕ = t ∷ to_le16 (length v) in
    let e0 : at all n ≡ t =
      let e : n ≡ n + 0 = omega arith in ground (arith, e, at_after before tail 0) in
    let e1 : at all (n + 1) ≡ length v % 256 = at_after before tail 1 in
    let e2 : at all (n + 1 + 1) ≡ length v / 256 % 256 =
      let e : n + 1 + 1 ≡ n + 2 = omega arith in ground (arith, e, at_after before tail 2) in
    let e3 : tlv_length all n ≡ length v = omega (arith, e1, e2) in
    let e4 : length all ≡ n + (3 + (length v + length after)) =
      omega (arith, length-append before tail, length-append v after) in
    let e5 : window all (n + 3) (length v) ≡ v =
      rw (← append_assoc before head (v ++ after)) (
        window_after (before ++ head) v after (n + 3) (omega (arith, length-append before head))) in
    ground (arith, read_tlv_lem all n, e0, e3, e4, e5)
