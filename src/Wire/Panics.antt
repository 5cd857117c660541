-- ===== src/Wire/Panics.antt =====
-- No read of src/awdl/wire.rs panics where its sums do not wrap.
use cosmicdrop.Base.{ℕ, ◌≢◌, arith, List}
use cosmicdrop.Wire.{
  panic, read_u8, read_le16, read_be16, read_le32, read_be32, read_bytes, read_bytes_copy,
  read_ether_addr, read_int_string, read_tlv,
}
use cosmicdrop.Wire.Reads
use cosmicdrop.Wire.Reads.{
  read_u8_lem, read_le16_lem, read_be16_lem, read_le32_lem, read_be32_lem, read_bytes_lem,
  read_bytes_copy_lem, read_ether_addr_lem, read_tlv_lem,
}

module _ (bytes : List ℕ) (i : ℕ) where
  pub read_u8_ne_panic : read_u8 bytes i ≢ panic
  read_u8_ne_panic = ground (arith, read_u8_lem bytes i)

  pub read_le16_ne_panic : read_le16 bytes i ≢ panic
  read_le16_ne_panic = ground (arith, read_le16_lem bytes i)

  pub read_be16_ne_panic : read_be16 bytes i ≢ panic
  read_be16_ne_panic = ground (arith, read_be16_lem bytes i)

  pub read_le32_ne_panic : read_le32 bytes i ≢ panic
  read_le32_ne_panic = ground (arith, read_le32_lem bytes i)

  pub read_be32_ne_panic : read_be32 bytes i ≢ panic
  read_be32_ne_panic = ground (arith, read_be32_lem bytes i)

  pub read_bytes_ne_panic : (len : ℕ) → read_bytes bytes i len ≢ panic
  read_bytes_ne_panic len = ground (arith, read_bytes_lem bytes i len)

  pub read_bytes_copy_ne_panic : (dst : List ℕ) → read_bytes_copy bytes i dst ≢ panic
  read_bytes_copy_ne_panic dst = ground (arith, read_bytes_copy_lem bytes i dst)

  pub read_ether_addr_ne_panic : read_ether_addr bytes i ≢ panic
  read_ether_addr_ne_panic = ground (arith, read_ether_addr_lem bytes i)

  pub read_tlv_ne_panic : read_tlv bytes i ≢ panic
  read_tlv_ne_panic = ground (arith, read_tlv_lem bytes i)

  pub read_int_string_ne_panic :
      (from_utf8_lossy : List ℕ → List ℕ) (max_len : ℕ)
      → read_int_string from_utf8_lossy bytes i max_len ≢ panic
  read_int_string_ne_panic lossy max_len = Reads.read_int_string_ne_panic lossy bytes i max_len
