-- ===== src/SipHash/Tests.antt =====
-- The tests of src/awdl/siphash.rs.
use cosmicdrop.Base.{ℕ, ◌<◌, ◌≡◌, refl, [], ◌∷◌, replicate, All, bit_xor, arith}
use cosmicdrop.SipHash.Padding.{padded_message, siphash24-sipkey}
use cosmicdrop.SipHash.{to_le64, finalize, sipround, siphash24, absorb, sipkey, siphash_truncate}

siphash24_empty :
    siphash24 [] (replicate 16 0) ≡ 0xd7 ∷ 0x00 ∷ 0x77 ∷ 0x73 ∷ 0x9d ∷ 0x4b ∷ 0x92 ∷ 0x1e ∷ []
unfolding siphash24 absorb sipround
siphash24_empty = refl

siphash24_single_byte :
    siphash24 (0 ∷ []) (replicate 16 0) ≡ 0x8d ∷ 0xc5 ∷ 0xfb ∷ 0x49 ∷ 0xaa ∷ 0x0b ∷ 0x5a ∷ 0x8b ∷ []
unfolding siphash24 absorb sipround
siphash24_single_byte = refl

key_and_truncation : (sipkey 0 0 ≡ replicate 16 0) × (siphash_truncate (0x34 ∷ 0x12 ∷ []) ≡ 0x1234)
unfolding sipkey siphash_truncate
key_and_truncation = (refl, refl)

-- A message of nine bytes.
siphash24-sipkey_example :
    siphash24 (replicate 9 5) (sipkey 0x0123_4567_89ab_cdef 7)
    ≡ to_le64 (
        finalize (
          absorb 2 (padded_message (replicate 9 5)) 0 (record {
            v0 = bit_xor 0x736f6d6570736575 0x0123_4567_89ab_cdef;
            v1 = bit_xor 0x646f72616e646f6d 7;
            v2 = bit_xor 0x6c7967656e657261 0x0123_4567_89ab_cdef;
            v3 = bit_xor 0x7465646279746573 7;
          })))
siphash24-sipkey_example =
    siphash24-sipkey (replicate 9 5) 0x0123_4567_89ab_cdef 7 five_bytes (omega arith) (omega arith)
  where
    five : 5 < 256
    five = omega arith

    five_bytes : All (λ x. x < 256) (replicate {A = ℕ} 9 5)
    five_bytes = (five, (five, (five, (five, (five, (five, (five, (five, (five, tt)))))))))
