-- ===== src/Crc/Tests.antt =====
-- The checksum on known strings, and the theorem of its component at one of them.
use cosmicdrop.Base.{ℕ, ◌≡◌, refl, arith, List, [], ◌∷◌}
use cosmicdrop.Crc.{crc32}
use cosmicdrop.Crc.Bitwise.{bitwise_crc32, crc32-bitwise_crc32}

-- b"123456789"
abbrev digits : List ℕ
digits = 0x31 ∷ 0x32 ∷ 0x33 ∷ 0x34 ∷ 0x35 ∷ 0x36 ∷ 0x37 ∷ 0x38 ∷ 0x39 ∷ []

crc32_empty : crc32 [] ≡ 0
unfolding crc32
crc32_empty = refl

crc32_known : crc32 digits ≡ 0xcbf4_3926
unfolding crc32
crc32_known = refl

crc32-bitwise_crc32_example : crc32 digits ≡ bitwise_crc32 digits
crc32-bitwise_crc32_example = crc32-bitwise_crc32 digits (omega arith)
