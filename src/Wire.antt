-- ===== src/Wire.antt =====
-- src/awdl/wire.rs: bounds-checked reads from a frame and writes into a buffer. A byte slice is a
-- list of numbers. Every index and slice of the source is a step that may answer `panic`. The sums of
-- offsets and lengths do not wrap here, as in the source below the largest `usize`; Wire/Usize has the
-- reads with sums that wrap.
pub mod Reads
pub mod Panics
pub mod RoundTrip
pub mod Usize
mod Tests
use cosmicdrop.Base.{
  replicate, ℕ, ◌+◌, ◌-◌, ◌*◌, ◌/◌, ◌%◌, ◌<<<◌, ◌>>>◌, ltb, leb, min, Bool, ◌&&◌, if◌then◌else◌,
  none, some, List, [], ◌∷◌, ◌++◌, length, get_elem?, set, take, drop, u8,
}

-- `Result<T, WireError>`; `panic` is no Rust value but the end of the thread.
pub data WireResult {ℓ} (A : Type ℓ) : Type ℓ where
  ok : A → WireResult A
  err : WireResult A
  panic : WireResult A

-- The `?` operator.
infixl 5 ◌>>=◌
abbrev pub ◌>>=◌ {ℓ κ} :
    {A : Type ℓ} {B : Type κ} → WireResult A → (A → WireResult B) → WireResult B
ok a >>= f = f a
err >>= f = err
panic >>= f = panic

-- `data[i]`, `&data[from..to]`.
unfoldable pub index : List ℕ → ℕ → WireResult ℕ
index bytes i = elim (get_elem? bytes i) [ none ↦ panic | some b ↦ ok b ]

unfoldable pub slice : List ℕ → ℕ → ℕ → WireResult (List ℕ)
slice bytes from to =
    if leb from to && leb to (length bytes) then ok (take (to - from) (drop from bytes)) else panic

-- `data[i] = v` and `data[at..at + src.len()].copy_from_slice(src)`.
unfoldable pub assign : List ℕ → ℕ → ℕ → WireResult (List ℕ)
assign bytes i v = if ltb i (length bytes) then ok (set bytes i v) else panic

abbrev pub splice : List ℕ → ℕ → List ℕ → List ℕ
splice bytes at src = take at bytes ++ (src ++ drop (at + length src) bytes)

unfoldable pub copy_into : List ℕ → ℕ → List ℕ → WireResult (List ℕ)
copy_into bytes at src =
    if leb (at + length src) (length bytes) then ok (splice bytes at src) else panic

-- `vec![0u8; n]`.
unfoldable pub zeroed : ℕ → List ℕ
zeroed n = replicate n 0

-- `from_le_bytes`, `to_le_bytes`.
abbrev pub from_le16 : ℕ → ℕ → ℕ
from_le16 a b = a + b * 256

abbrev pub from_le32 : ℕ → ℕ → ℕ → ℕ → ℕ
from_le32 a b c d = a + b * 256 + c * 65536 + d * 16777216

abbrev pub to_le16 : ℕ → List ℕ
to_le16 v = v % 256 ∷ (v / 256 % 256) ∷ []

abbrev pub to_le32 : ℕ → List ℕ
to_le32 v = v % 256 ∷ (v / 256 % 256) ∷ (v / 65536 % 256) ∷ (v / 16777216 % 256) ∷ []

abbrev pub to_be16 : ℕ → List ℕ
to_be16 v = (v / 256 % 256) ∷ v % 256 ∷ []

abbrev pub to_be32 : ℕ → List ℕ
to_be32 v = (v / 16777216 % 256) ∷ (v / 65536 % 256) ∷ (v / 256 % 256) ∷ v % 256 ∷ []

unfoldable pub read_u8 : List ℕ → ℕ → WireResult ℕ
unfolding index
read_u8 bytes offset = if ltb (length bytes) (offset + 1) then err else index bytes offset

unfoldable pub read_le16 : List ℕ → ℕ → WireResult ℕ
unfolding index
read_le16 bytes offset =
    if ltb (length bytes) (offset + 2)
    then err
    else do a ← index bytes offset; b ← index bytes (offset + 1); ok (from_le16 a b)

unfoldable pub read_be16 : List ℕ → ℕ → WireResult ℕ
unfolding index
read_be16 bytes offset =
    if ltb (length bytes) (offset + 2)
    then err
    else do a ← index bytes offset; b ← index bytes (offset + 1); ok (from_le16 b a)

unfoldable pub read_le32 : List ℕ → ℕ → WireResult ℕ
unfolding index
read_le32 bytes offset = if ltb (length bytes) (offset + 4) then err else do
  a ← index bytes offset
  b ← index bytes (offset + 1)
  c ← index bytes (offset + 2)
  d ← index bytes (offset + 3)
  ok (from_le32 a b c d)

unfoldable pub read_be32 : List ℕ → ℕ → WireResult ℕ
unfolding index
read_be32 bytes offset = if ltb (length bytes) (offset + 4) then err else do
  a ← index bytes offset
  b ← index bytes (offset + 1)
  c ← index bytes (offset + 2)
  d ← index bytes (offset + 3)
  ok (from_le32 d c b a)

unfoldable pub read_bytes : List ℕ → ℕ → ℕ → WireResult (List ℕ)
unfolding slice
read_bytes bytes offset len =
    if ltb (length bytes) (offset + len) then err else slice bytes offset (offset + len)

-- `dst` is the buffer before the call; the result is the buffer after it.
unfoldable pub read_bytes_copy : List ℕ → ℕ → List ℕ → WireResult (List ℕ)
unfolding slice
read_bytes_copy bytes offset dst =
    if ltb (length bytes) (offset + length dst)
    then err
    else slice bytes offset (offset + length dst)

unfoldable pub read_ether_addr : List ℕ → ℕ → WireResult (List ℕ)
unfolding slice
read_ether_addr bytes offset =
    if ltb (length bytes) (offset + 6) then err else slice bytes offset (offset + 6)

-- `from_utf8_lossy` turns bytes into the contents of a `String`.
unfoldable pub read_int_string : (List ℕ → List ℕ) → List ℕ → ℕ → ℕ → WireResult (List ℕ)
unfolding read_u8 read_bytes
read_int_string from_utf8_lossy bytes offset max_len = do
  slen ← read_u8 bytes offset
  let actual = min slen max_len
  taken ← read_bytes bytes (offset + 1) actual
  ok (from_utf8_lossy taken)

-- (type, length, value, total consumed).
unfoldable pub read_tlv : List ℕ → ℕ → WireResult (ℕ × ℕ × List ℕ × ℕ)
unfolding read_u8 read_le16 read_bytes
read_tlv bytes offset = do
  t ← read_u8 bytes offset
  l ← read_le16 bytes (offset + 1)
  v ← read_bytes bytes (offset + 3) l
  let total = 3 + l
  ok (t, l, v, total)

unfoldable pub write_u8 : List ℕ → ℕ → ℕ → WireResult (List ℕ)
unfolding assign
write_u8 buf offset value = if ltb (length buf) (offset + 1) then err else assign buf offset value

unfoldable pub write_le16 : List ℕ → ℕ → ℕ → WireResult (List ℕ)
unfolding copy_into
write_le16 buf offset value =
    if ltb (length buf) (offset + 2) then err else copy_into buf offset (to_le16 value)

unfoldable pub write_be16 : List ℕ → ℕ → ℕ → WireResult (List ℕ)
unfolding copy_into
write_be16 buf offset value =
    if ltb (length buf) (offset + 2) then err else copy_into buf offset (to_be16 value)

unfoldable pub write_le32 : List ℕ → ℕ → ℕ → WireResult (List ℕ)
unfolding copy_into
write_le32 buf offset value =
    if ltb (length buf) (offset + 4) then err else copy_into buf offset (to_le32 value)

unfoldable pub write_be32 : List ℕ → ℕ → ℕ → WireResult (List ℕ)
unfolding copy_into
write_be32 buf offset value =
    if ltb (length buf) (offset + 4) then err else copy_into buf offset (to_be32 value)

unfoldable pub write_ether_addr : List ℕ → ℕ → List ℕ → WireResult (List ℕ)
unfolding copy_into
write_ether_addr buf offset addr =
    if ltb (length buf) (offset + 6) then err else copy_into buf offset addr

unfoldable pub write_bytes : List ℕ → ℕ → List ℕ → WireResult (List ℕ)
unfolding copy_into
write_bytes buf offset src =
    if ltb (length buf) (offset + length src) then err else copy_into buf offset src
