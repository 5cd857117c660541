-- ===== src/Wire/Usize.antt =====
-- The reads of src/awdl/wire.rs with their sums in `usize`, which wrap in a release build, and where
-- they agree with the reads of the model, whose sums do not wrap.
use mathlib.Core.Path.{fun_ext}
use cosmicdrop.Base.{
  ℕ, zero, suc, ◌+◌, ◌-◌, ◌^◌, ◌<◌, ◌≡◌, ◌≢◌, refl, ap, sym, ◌∙◌, arith, Bool, List, [], ◌∷◌,
  length, ltb, min, u64, if◌then◌else◌, All,
}
use cosmicdrop.Wire.{
  WireResult, ok, err, panic, ◌>>=◌, from_le16, from_le32, index, slice, read_u8, read_le16,
  read_be16, read_le32, read_be32, read_bytes, read_bytes_copy, read_ether_addr, read_int_string,
}
use cosmicdrop.Wire.Reads.{
  at, window, in_range, tlv_length, read_u8_lem, read_le16_lem, read_bytes_lem,
}
use cosmicdrop.Wire.Panics

-- `offset + n > data.len()`.
abbrev pub is_short : List ℕ → ℕ → ℕ → Bool
is_short bytes offset n = ltb (length bytes) (u64 (offset + n))

unfoldable pub usize_read_u8 : List ℕ → ℕ → WireResult ℕ
usize_read_u8 bytes offset = if is_short bytes offset 1 then err else index bytes offset

unfoldable pub usize_read_le16 : List ℕ → ℕ → WireResult ℕ
usize_read_le16 bytes offset =
    if is_short bytes offset 2
    then err
    else do a ← index bytes offset; b ← index bytes (u64 (offset + 1)); ok (from_le16 a b)

unfoldable pub usize_read_be16 : List ℕ → ℕ → WireResult ℕ
usize_read_be16 bytes offset =
    if is_short bytes offset 2
    then err
    else do a ← index bytes offset; b ← index bytes (u64 (offset + 1)); ok (from_le16 b a)

unfoldable pub usize_read_le32 : List ℕ → ℕ → WireResult ℕ
usize_read_le32 bytes offset = if is_short bytes offset 4 then err else do
  a ← index bytes offset
  b ← index bytes (u64 (offset + 1))
  c ← index bytes (u64 (offset + 2))
  d ← index bytes (u64 (offset + 3))
  ok (from_le32 a b c d)

unfoldable pub usize_read_be32 : List ℕ → ℕ → WireResult ℕ
usize_read_be32 bytes offset = if is_short bytes offset 4 then err else do
  a ← index bytes offset
  b ← index bytes (u64 (offset + 1))
  c ← index bytes (u64 (offset + 2))
  d ← index bytes (u64 (offset + 3))
  ok (from_le32 d c b a)

unfoldable pub usize_read_bytes : List ℕ → ℕ → ℕ → WireResult (List ℕ)
usize_read_bytes bytes offset len =
    if is_short bytes offset len then err else slice bytes offset (u64 (offset + len))

unfoldable pub usize_read_bytes_copy : List ℕ → ℕ → List ℕ → WireResult (List ℕ)
usize_read_bytes_copy bytes offset dst =
    if is_short bytes offset (length dst)
    then err
    else slice bytes offset (u64 (offset + length dst))

unfoldable pub usize_read_ether_addr : List ℕ → ℕ → WireResult (List ℕ)
usize_read_ether_addr bytes offset =
    if is_short bytes offset 6 then err else slice bytes offset (u64 (offset + 6))

unfoldable pub usize_read_int_string : (List ℕ → List ℕ) → List ℕ → ℕ → ℕ → WireResult (List ℕ)
usize_read_int_string from_utf8_lossy bytes offset max_len = do
  slen ← usize_read_u8 bytes offset
  taken ← usize_read_bytes bytes (u64 (offset + 1)) (min slen max_len)
  ok (from_utf8_lossy taken)

unfoldable pub usize_read_tlv : List ℕ → ℕ → WireResult (ℕ × ℕ × List ℕ × ℕ)
usize_read_tlv bytes offset = do
  t ← usize_read_u8 bytes offset
  l ← usize_read_le16 bytes (u64 (offset + 1))
  v ← usize_read_bytes bytes (u64 (offset + 3)) l
  ok (t, l, v, u64 (3 + l))

fits : (n : ℕ) → n < 2 ^ 64 → u64 n ≡ n
fits n h = omega arith

-- Where the end of the range fits a `usize`, the sums do not wrap.
module _ (bytes : List ℕ) (i : ℕ) where
  usize_read_u8_lem : i + 1 < 2 ^ 64 → usize_read_u8 bytes i ≡ read_u8 bytes i
  unfolding usize_read_u8 read_u8
  usize_read_u8_lem h = rw (fits (i + 1) h) refl

  usize_read_le16_lem : i + 2 < 2 ^ 64 → usize_read_le16 bytes i ≡ read_le16 bytes i
  unfolding usize_read_le16 read_le16
  usize_read_le16_lem h = rw (fits (i + 2) h, fits (i + 1) (omega arith)) refl

  usize_read_be16_lem : i + 2 < 2 ^ 64 → usize_read_be16 bytes i ≡ read_be16 bytes i
  unfolding usize_read_be16 read_be16
  usize_read_be16_lem h = rw (fits (i + 2) h, fits (i + 1) (omega arith)) refl

  usize_read_le32_lem : i + 4 < 2 ^ 64 → usize_read_le32 bytes i ≡ read_le32 bytes i
  unfolding usize_read_le32 read_le32
  usize_read_le32_lem h =
      rw
        (
          fits (i + 4) h,
          fits (i + 1) (omega arith),
          fits (i + 2) (omega arith),
          fits (i + 3) (omega arith),
        )
        refl

  usize_read_be32_lem : i + 4 < 2 ^ 64 → usize_read_be32 bytes i ≡ read_be32 bytes i
  unfolding usize_read_be32 read_be32
  usize_read_be32_lem h =
      rw
        (
          fits (i + 4) h,
          fits (i + 1) (omega arith),
          fits (i + 2) (omega arith),
          fits (i + 3) (omega arith),
        )
        refl

  usize_read_bytes_lem :
      (len : ℕ) → i + len < 2 ^ 64 → usize_read_bytes bytes i len ≡ read_bytes bytes i len
  unfolding usize_read_bytes read_bytes
  usize_read_bytes_lem len h = rw (fits (i + len) h) refl

  usize_read_bytes_copy_lem :
      (dst : List ℕ)
      → i + length dst < 2 ^ 64
      → usize_read_bytes_copy bytes i dst ≡ read_bytes_copy bytes i dst
  unfolding usize_read_bytes_copy read_bytes_copy
  usize_read_bytes_copy_lem dst h = rw (fits (i + length dst) h) refl

  usize_read_ether_addr_lem :
      i + 6 < 2 ^ 64 → usize_read_ether_addr bytes i ≡ read_ether_addr bytes i
  unfolding usize_read_ether_addr read_ether_addr
  usize_read_ether_addr_lem h = rw (fits (i + 6) h) refl

usize_read_int_string_lem :
    (from_utf8_lossy : List ℕ → List ℕ) (bytes : List ℕ) (i max_len : ℕ)
    → i + 1 + max_len < 2 ^ 64
    → usize_read_int_string from_utf8_lossy bytes i max_len
      ≡ read_int_string from_utf8_lossy bytes i max_len
unfolding usize_read_int_string read_int_string
usize_read_int_string_lem lossy bytes i max_len h =
    rw (fits (i + 1) (omega arith), usize_read_u8_lem bytes i (omega arith))
      (ap (λ k. read_u8 bytes i >>= k)
        (fun_ext λ slen.
          ap (λ r. r >>= (λ taken. ok (lossy taken)))
            (usize_read_bytes_lem bytes (i + 1) (min slen max_len) (omega arith))))

at_small : (bytes : List ℕ) (i : ℕ) → All (λ b. b < 256) bytes → at bytes i < 256
at_small [] i h = omega arith
at_small (b ∷ bytes) zero h = h.0
at_small (b ∷ bytes) (suc i) h = at_small bytes i h.1

-- For every byte string and every offset that is at least 65538 below the largest `usize`, `read_tlv`
-- answers the error when the three bytes of the header or the value that the header announces go past
-- the end of the input, and otherwise the type byte, the length field, the value bytes and 3 more than
-- the length.
pub usize_read_tlv_lem :
    (bytes : List ℕ) (i : ℕ)
    → All (λ b. b < 256) bytes
    → i + 65538 < 2 ^ 64
    → usize_read_tlv bytes i ≡ (
        if ltb (length bytes) (i + 3)
        then err
        else in_range bytes (i + 3 + tlv_length bytes i) (
          at bytes i,
          tlv_length bytes i,
          window bytes (i + 3) (tlv_length bytes i),
          3 + tlv_length bytes i,
        ))
unfolding usize_read_tlv
usize_read_tlv_lem bytes i all h =
    let low = at_small bytes (i + 1) all in
    let high = at_small bytes (i + 1 + 1) all in
    rw (fits (i + 1) (omega arith), fits (i + 3) (omega arith))
      (ground (
        arith,
        usize_read_u8_lem bytes i (omega arith) ∙ read_u8_lem bytes i,
        usize_read_le16_lem bytes (i + 1) (omega arith) ∙ read_le16_lem bytes (i + 1),
        usize_read_bytes_lem bytes (i + 3) (tlv_length bytes i) (omega arith)
            ∙ read_bytes_lem bytes (i + 3) (tlv_length bytes i),
        fits (3 + tlv_length bytes i) (omega arith),
      ))

past_the_end : (bytes : List ℕ) (i : ℕ) → length bytes < i + 1 → index bytes i ≡ panic
unfolding index
past_the_end [] i h = refl
past_the_end (b ∷ bytes) zero h = absurd (omega arith)
past_the_end (b ∷ bytes) (suc i) h = past_the_end bytes i (omega arith)

last_panics : (bytes : List ℕ) → length bytes < 2 ^ 64 → usize_read_u8 bytes (2 ^ 64 - 1) ≡ panic
unfolding usize_read_u8
last_panics bytes small = ground (arith, past_the_end bytes (2 ^ 64 - 1) (omega arith))

-- At an offset of a byte string which, with any length that is asked for, is at least 65538 below the
-- largest `usize`, in range or not, no read of the module indexes or slices out of bounds. At the
-- largest `usize` as the offset the check of `read_u8` wraps to 0, and it panics.
pub usize_reads_ne_panic :
    (from_utf8_lossy : List ℕ → List ℕ) (bytes : List ℕ) (i len : ℕ) (dst : List ℕ)
    → All (λ b. b < 256) bytes
    → length bytes < 2 ^ 64
    → i + len + 65538 < 2 ^ 64
    → i + length dst < 2 ^ 64
    → (usize_read_u8 bytes i ≢ panic)
      × (usize_read_le16 bytes i ≢ panic)
      × (usize_read_be16 bytes i ≢ panic)
      × (usize_read_le32 bytes i ≢ panic)
      × (usize_read_be32 bytes i ≢ panic)
      × (usize_read_bytes bytes i len ≢ panic)
      × (usize_read_bytes_copy bytes i dst ≢ panic)
      × (usize_read_ether_addr bytes i ≢ panic)
      × (usize_read_int_string from_utf8_lossy bytes i len ≢ panic)
      × (usize_read_tlv bytes i ≢ panic)
      × (usize_read_u8 bytes (2 ^ 64 - 1) ≡ panic)
usize_reads_ne_panic lossy bytes i len dst all small h k = (
  λ e. Panics.read_u8_ne_panic bytes i (sym (usize_read_u8_lem bytes i (omega arith)) ∙ e),
  λ e. Panics.read_le16_ne_panic bytes i (sym (usize_read_le16_lem bytes i (omega arith)) ∙ e),
  λ e. Panics.read_be16_ne_panic bytes i (sym (usize_read_be16_lem bytes i (omega arith)) ∙ e),
  λ e. Panics.read_le32_ne_panic bytes i (sym (usize_read_le32_lem bytes i (omega arith)) ∙ e),
  λ e. Panics.read_be32_ne_panic bytes i (sym (usize_read_be32_lem bytes i (omega arith)) ∙ e),
  λ e.
      Panics.read_bytes_ne_panic bytes i len
        (sym (usize_read_bytes_lem bytes i len (omega arith)) ∙ e),
  λ e.
      Panics.read_bytes_copy_ne_panic bytes i dst
        (sym (usize_read_bytes_copy_lem bytes i dst k) ∙ e),
  λ e.
      Panics.read_ether_addr_ne_panic bytes i
        (sym (usize_read_ether_addr_lem bytes i (omega arith)) ∙ e),
  λ e.
      Panics.read_int_string_ne_panic bytes i lossy len
        (sym (usize_read_int_string_lem lossy bytes i len (omega arith)) ∙ e),
  λ e. ground (arith, usize_read_tlv_lem bytes i all (omega arith)),
  last_panics bytes small,
)
