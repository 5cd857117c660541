-- ===== src/Wire/Tests.antt =====
-- Reads and writes of src/awdl/wire.rs at small inputs.
use cosmicdrop.Base.{ℕ, ◌+◌, ◌≡◌, ◌≢◌, refl, arith, List, [], ◌∷◌, ◌++◌, length, ltb, if◌then◌else◌}
use cosmicdrop.Wire.{
  ok, err, panic, read_u8, read_le16, read_be16, read_le32, read_be32, read_bytes, read_tlv,
  write_le16, write_be16, write_le32, write_be32,
}
use cosmicdrop.Wire.Usize.{
  usize_read_u8, usize_read_le16, usize_read_be16, usize_read_le32, usize_read_be32,
  usize_read_bytes, usize_read_bytes_copy, usize_read_ether_addr, usize_read_int_string,
  usize_read_tlv, usize_read_tlv_lem, usize_reads_ne_panic,
}
use cosmicdrop.Base.{All, ◌-◌, ◌^◌, ◌<◌}
use cosmicdrop.Wire.Reads.{at, window, in_range, tlv_length}
use cosmicdrop.Wire.RoundTrip.{IsStored, encode_tlv, read_tlv-encode_tlv, write-read}

-- A TLV of type 2 with the value 7 8 9, and a byte behind it.
abbrev tlv : List ℕ
tlv = 2 ∷ 3 ∷ 0 ∷ 7 ∷ 8 ∷ 9 ∷ 1 ∷ []

tlv_bytes : All (λ b. b < 256) tlv
tlv_bytes = (
  omega arith,
  (omega arith, (omega arith, (omega arith, (omega arith, (omega arith, (omega arith, tt)))))),
)

reads_tlv : read_tlv tlv 0 ≡ ok (2, 3, 7 ∷ 8 ∷ 9 ∷ [], 6)
unfolding read_tlv read_u8 read_le16 read_bytes
reads_tlv = refl

reads_short : read_le32 tlv 4 ≡ err
unfolding read_le32
reads_short = refl

usize_read_tlv_lem_example : usize_read_tlv tlv 1 ≡ (
    if ltb (length tlv) (1 + 3)
    then err
    else in_range tlv
        (1 + 3 + tlv_length tlv 1)
        (at tlv 1, tlv_length tlv 1, window tlv (1 + 3) (tlv_length tlv 1), 3 + tlv_length tlv 1))
usize_read_tlv_lem_example = usize_read_tlv_lem tlv 1 tlv_bytes (omega arith)

read_tlv-encode_tlv_example :
    read_tlv ((5 ∷ []) ++ (encode_tlv 2 (7 ∷ 8 ∷ 9 ∷ []) ++ (1 ∷ []))) 1
    ≡ ok (2, 3, 7 ∷ 8 ∷ 9 ∷ [], 6)
read_tlv-encode_tlv_example = read_tlv-encode_tlv (5 ∷ []) 2 (7 ∷ 8 ∷ 9 ∷ []) (1 ∷ []) (omega arith)

write-read_example :
    IsStored tlv 1 2 (write_le16 tlv 1 700) (λ out. read_le16 out 1) 700
    × IsStored tlv 1 2 (write_be16 tlv 1 700) (λ out. read_be16 out 1) 700
    × IsStored tlv 1 4 (write_le32 tlv 1 70000) (λ out. read_le32 out 1) 70000
    × IsStored tlv 1 4 (write_be32 tlv 1 70000) (λ out. read_be32 out 1) 70000
write-read_example = write-read tlv 1 700 70000 (omega arith) (omega arith) (omega arith)

-- At an offset behind the end.
usize_reads_ne_panic_example :
    (usize_read_u8 tlv 9 ≢ panic)
    × (usize_read_le16 tlv 9 ≢ panic)
    × (usize_read_be16 tlv 9 ≢ panic)
    × (usize_read_le32 tlv 9 ≢ panic)
    × (usize_read_be32 tlv 9 ≢ panic)
    × (usize_read_bytes tlv 9 4 ≢ panic)
    × (usize_read_bytes_copy tlv 9 (0 ∷ []) ≢ panic)
    × (usize_read_ether_addr tlv 9 ≢ panic)
    × (usize_read_int_string (λ bytes. bytes) tlv 9 4 ≢ panic)
    × (usize_read_tlv tlv 9 ≢ panic)
    × (usize_read_u8 tlv (2 ^ 64 - 1) ≡ panic)
usize_reads_ne_panic_example =
    usize_reads_ne_panic (λ bytes. bytes) tlv 9 4 (0 ∷ []) tlv_bytes (omega arith) (omega arith)
      (omega arith)
