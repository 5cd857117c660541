-- ===== src/SipHash.antt =====
-- src/awdl/siphash.rs: SipHash-2-4 on 64-bit words, which are numbers below 2^64.
pub mod Key
pub mod Padding
mod Tests
use cosmicdrop.Base.{
  ℕ, zero, suc, ◌+◌, ◌-◌, ◌*◌, ◌/◌, ◌%◌, ◌^◌, ◌<<<◌, ◌>>>◌, leb, if◌then◌else◌, List, [], ◌∷◌, ◌++◌,
  length, get_or, drop, bit_and, bit_or, bit_xor, u64,
}

-- The words `v0`, `v1`, `v2` and `v3`.
pub record SipState : Type 0 where
  pub v0 : ℕ
  pub v1 : ℕ
  pub v2 : ℕ
  pub v3 : ℕ

-- `u64::from_le_bytes` on the eight bytes from `i`, `u64::to_le_bytes`.
unfoldable pub from_le64_at : List ℕ → ℕ → ℕ
from_le64_at bytes i =
    get_or bytes i 0
    + get_or bytes (i + 1) 0 * 2 ^ 8
    + get_or bytes (i + 2) 0 * 2 ^ 16
    + get_or bytes (i + 3) 0 * 2 ^ 24
    + get_or bytes (i + 4) 0 * 2 ^ 32
    + get_or bytes (i + 5) 0 * 2 ^ 40
    + get_or bytes (i + 6) 0 * 2 ^ 48
    + get_or bytes (i + 7) 0 * 2 ^ 56

unfoldable pub to_le64 : ℕ → List ℕ
to_le64 x =
    x % 256
    ∷ (x / 2 ^ 8 % 256)
    ∷ (x / 2 ^ 16 % 256)
    ∷ (x / 2 ^ 24 % 256)
    ∷ (x / 2 ^ 32 % 256)
    ∷ (x / 2 ^ 40 % 256)
    ∷ (x / 2 ^ 48 % 256)
    ∷ (x / 2 ^ 56 % 256)
    ∷ []

unfoldable pub rotl64 : ℕ → ℕ → ℕ
rotl64 x b = bit_or (u64 (x <<< b)) (x >>> (64 - b))

unfoldable pub sipround : SipState → SipState
unfolding rotl64
sipround s =
    let a0 = u64 (s.v0 + s.v1) in
    let a1 = bit_xor (rotl64 s.v1 13) a0 in
    let b0 = rotl64 a0 32 in
    let a2 = u64 (s.v2 + s.v3) in
    let a3 = bit_xor (rotl64 s.v3 16) a2 in
    let c0 = u64 (b0 + a3) in
    let b3 = bit_xor (rotl64 a3 21) c0 in
    let b2 = u64 (a2 + a1) in
    let b1 = bit_xor (rotl64 a1 17) b2 in
    let c2 = rotl64 b2 32 in record { v0 = c0; v1 = b1; v2 = c2; v3 = b3 }

-- One block `m`: two rounds between the two exclusive ors.
unfoldable pub compress : ℕ → SipState → SipState
compress m s =
    let t = sipround (sipround (record s { v3 = bit_xor s.v3 m })) in
    record t { v0 = bit_xor t.v0 m }

-- The loop over the whole blocks: `blocks` of them from `i` on.
unfoldable pub absorb : ℕ → List ℕ → ℕ → SipState → SipState
unfolding compress from_le64_at
absorb zero input i s = s
absorb (suc blocks) input i s = absorb blocks input (i + 8) (compress (from_le64_at input i) s)

-- The trailing block: the length in the top byte and the `left` bytes from `end` on.
unfoldable pub trailing_block : List ℕ → ℕ
trailing_block input =
    let inlen = length input in
    let end = inlen - inlen % 8 in
    let left = bit_and inlen 7 in
    let b0 = u64 (inlen <<< 56) in
    let b1 = if leb 1 left then bit_or b0 (get_or input end 0) else b0 in
    let b2 = if leb 2 left then bit_or b1 (get_or input (end + 1) 0 <<< 8) else b1 in
    let b3 = if leb 3 left then bit_or b2 (get_or input (end + 2) 0 <<< 16) else b2 in
    let b4 = if leb 4 left then bit_or b3 (get_or input (end + 3) 0 <<< 24) else b3 in
    let b5 = if leb 5 left then bit_or b4 (get_or input (end + 4) 0 <<< 32) else b4 in
    let b6 = if leb 6 left then bit_or b5 (get_or input (end + 5) 0 <<< 40) else b5 in
    if leb 7 left then bit_or b6 (get_or input (end + 6) 0 <<< 48) else b6

-- The words before the first block, for the key halves.
unfoldable pub initial : ℕ → ℕ → SipState
initial k0 k1 = record {
  v0 = bit_xor 0x736f6d6570736575 k0;
  v1 = bit_xor 0x646f72616e646f6d k1;
  v2 = bit_xor 0x6c7967656e657261 k0;
  v3 = bit_xor 0x7465646279746573 k1;
}

unfoldable pub finalize : SipState → ℕ
finalize s =
    let t = sipround (sipround (sipround (sipround (record s { v2 = bit_xor s.v2 0xff })))) in
    bit_xor (bit_xor (bit_xor t.v0 t.v1) t.v2) t.v3

unfoldable pub siphash24 : List ℕ → List ℕ → List ℕ
unfolding from_le64_at initial trailing_block finalize to_le64 compress
siphash24 input key =
    let s = absorb (length input / 8) input 0 (initial (from_le64_at key 0) (from_le64_at key 8)) in
    to_le64 (finalize (compress (trailing_block input) s))

unfoldable pub sipkey : ℕ → ℕ → List ℕ
unfolding to_le64
sipkey a b = to_le64 a ++ to_le64 b

unfoldable pub siphash_truncate : List ℕ → ℕ
siphash_truncate hash = get_or hash 0 0 + get_or hash 1 0 * 256
