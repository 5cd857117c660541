-- ===== src/Wire/Reads.antt =====
-- What each read of src/awdl/wire.rs answers, by the range that it touches.
use cosmicdrop.Base.{
  ℕ, ◌+◌, ◌-◌, ◌≤◌, ◌<◌, ◌≡◌, ◌≢◌, arith, List, length, get_or, take, drop, ltb, min, if◌then◌else◌,
  get_elem?-eq-get_or, length-take, length-drop,
}
use cosmicdrop.Wire.{
  WireResult, ok, err, panic, from_le16, from_le32, read_u8, read_le16, read_be16, read_le32,
  read_be32, read_bytes, read_bytes_copy, read_ether_addr, read_int_string, read_tlv, index, slice,
}

-- The byte at a place that is known to be in range.
abbrev pub at : List ℕ → ℕ → ℕ
at bytes i = get_or bytes i 0

unfoldable pub window : List ℕ → ℕ → ℕ → List ℕ
window bytes offset len = take len (drop offset bytes)

pub length-window :
    (bytes : List ℕ) (offset len : ℕ)
    → offset + len ≤ length bytes
    → length (window bytes offset len) ≡ len
unfolding window
length-window bytes offset len h =
    omega (arith, length-take len (drop offset bytes), length-drop offset bytes)

pub index_lem : (bytes : List ℕ) (i : ℕ) → i < length bytes → index bytes i ≡ ok (at bytes i)
unfolding index
index_lem bytes i h = ground (arith, get_elem?-eq-get_or bytes i 0 h)

pub slice_lem :
    (bytes : List ℕ) (offset len : ℕ)
    → offset + len ≤ length bytes
    → slice bytes offset (offset + len) ≡ ok (window bytes offset len)
unfolding slice window
slice_lem bytes offset len h =
    let e : offset + len - offset ≡ len = omega arith in ground (arith, e)

-- An optional answer: in range, or the error.
abbrev pub in_range {ℓ} : {A : Type ℓ} → List ℕ → ℕ → A → WireResult A
in_range bytes end a = if ltb (length bytes) end then err else ok a

pub read_u8_lem : (bytes : List ℕ) (i : ℕ) → read_u8 bytes i ≡ in_range bytes (i + 1) (at bytes i)
unfolding read_u8
read_u8_lem bytes i = ground (arith, index_lem bytes i)

pub read_le16_lem :
    (bytes : List ℕ) (i : ℕ)
    → read_le16 bytes i ≡ in_range bytes (i + 2) (from_le16 (at bytes i) (at bytes (i + 1)))
unfolding read_le16
read_le16_lem bytes i = ground (arith, index_lem bytes i, index_lem bytes (i + 1))

pub read_be16_lem :
    (bytes : List ℕ) (i : ℕ)
    → read_be16 bytes i ≡ in_range bytes (i + 2) (from_le16 (at bytes (i + 1)) (at bytes i))
unfolding read_be16
read_be16_lem bytes i = ground (arith, index_lem bytes i, index_lem bytes (i + 1))

abbrev pub le32_at : List ℕ → ℕ → ℕ
le32_at bytes i = from_le32 (at bytes i) (at bytes (i + 1)) (at bytes (i + 2)) (at bytes (i + 3))

abbrev pub be32_at : List ℕ → ℕ → ℕ
be32_at bytes i = from_le32 (at bytes (i + 3)) (at bytes (i + 2)) (at bytes (i + 1)) (at bytes i)

pub read_le32_lem :
    (bytes : List ℕ) (i : ℕ) → read_le32 bytes i ≡ in_range bytes (i + 4) (le32_at bytes i)
unfolding read_le32
read_le32_lem bytes i = ground (
  arith,
  index_lem bytes i,
  index_lem bytes (i + 1),
  index_lem bytes (i + 2),
  index_lem bytes (i + 3),
)

pub read_be32_lem :
    (bytes : List ℕ) (i : ℕ) → read_be32 bytes i ≡ in_range bytes (i + 4) (be32_at bytes i)
unfolding read_be32
read_be32_lem bytes i = ground (
  arith,
  index_lem bytes i,
  index_lem bytes (i + 1),
  index_lem bytes (i + 2),
  index_lem bytes (i + 3),
)

pub read_bytes_lem :
    (bytes : List ℕ) (i len : ℕ)
    → read_bytes bytes i len ≡ in_range bytes (i + len) (window bytes i len)
unfolding read_bytes
read_bytes_lem bytes i len = ground (arith, slice_lem bytes i len)

pub read_bytes_copy_lem :
    (bytes : List ℕ) (i : ℕ) (dst : List ℕ)
    → read_bytes_copy bytes i dst ≡ in_range bytes (i + length dst) (window bytes i (length dst))
unfolding read_bytes_copy
read_bytes_copy_lem bytes i dst = ground (arith, slice_lem bytes i (length dst))

pub read_ether_addr_lem :
    (bytes : List ℕ) (i : ℕ) → read_ether_addr bytes i ≡ in_range bytes (i + 6) (window bytes i 6)
unfolding read_ether_addr
read_ether_addr_lem bytes i = ground (arith, slice_lem bytes i 6)

pub read_int_string_ne_panic :
    (from_utf8_lossy : List ℕ → List ℕ) (bytes : List ℕ) (i max_len : ℕ)
    → read_int_string from_utf8_lossy bytes i max_len ≢ panic
unfolding read_int_string
read_int_string_ne_panic lossy bytes i max_len =
    ground (arith, read_u8_lem bytes i, read_bytes_lem bytes (i + 1) (min (at bytes i) max_len))

-- The length field of the TLV that starts at `i`.
abbrev pub tlv_length : List ℕ → ℕ → ℕ
tlv_length bytes i = from_le16 (at bytes (i + 1)) (at bytes (i + 1 + 1))

-- What `read_tlv` answers, with sums that do not wrap.
pub read_tlv_lem :
    (bytes : List ℕ) (i : ℕ)
    → read_tlv bytes i ≡ (
        if ltb (length bytes) (i + 3)
        then err
        else in_range bytes (i + 3 + tlv_length bytes i) (
          at bytes i,
          tlv_length bytes i,
          window bytes (i + 3) (tlv_length bytes i),
          3 + tlv_length bytes i,
        ))
unfolding read_tlv
read_tlv_lem bytes i = ground (
  arith,
  read_u8_lem bytes i,
  read_le16_lem bytes (i + 1),
  read_bytes_lem bytes (i + 3) (tlv_length bytes i),
)

-- A TLV that is read takes at least three bytes and ends inside the input, and its value has the
-- announced length.
pub read_tlv_bounds :
    (bytes : List ℕ) (i t l : ℕ) (v : List ℕ) (total : ℕ)
    → read_tlv bytes i ≡ ok (t, l, v, total)
    → (total ≡ 3 + l) × (i + total ≤ length bytes) × (length v ≡ l)
read_tlv_bounds bytes i t l v total e =
    ground (arith, read_tlv_lem bytes i, length-window bytes (i + 3) (tlv_length bytes i))
