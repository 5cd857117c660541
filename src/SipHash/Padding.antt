-- ===== src/SipHash/Padding.antt =====
-- The hash of src/awdl/siphash.rs is that of the padded message: its bytes, zeros, and its length in
-- the last byte of the last word.
use cosmicdrop.Base.{
  ℕ, zero, suc, ◌+◌, ◌-◌, ◌*◌, ◌/◌, ◌%◌, ◌^◌, ◌≤◌, ◌<◌, ◌≡◌, refl, ap, sym, ◌∙◌, arith, Bool, true,
  false, Bool-cases, inl, inr, leb, if◌then◌else◌, List, [], ◌∷◌, ◌++◌, length, get_or, All,
  replicate, bit_and, bit_or, bit_xor, u64, length-replicate, ◌<<<◌,
}
use cosmicdrop.Base.Bits.And.{bit_and_seven}
use cosmicdrop.Base.Bits.Or.{bit_or-byte}
use cosmicdrop.SipHash.{
  SipState, from_le64_at, to_le64, compress, absorb, trailing_block, initial, finalize, siphash24,
  sipkey,
}
use cosmicdrop.SipHash.Key.{from_le64_at-sipkey}

-- What fills up a message to whole words.
abbrev pub padding : ℕ → List ℕ
padding n = replicate (7 - n % 8) 0 ++ (n % 256 ∷ [])

abbrev pub padded_message : List ℕ → List ℕ
padded_message input = input ++ padding (length input)

get_or-front : (xs ys : List ℕ) (i : ℕ) → i < length xs → get_or (xs ++ ys) i 0 ≡ get_or xs i 0
get_or-front [] ys i h = elim h [ ]
get_or-front (x ∷ xs) ys zero h = refl
get_or-front (x ∷ xs) ys (suc i) h = get_or-front xs ys i (omega arith)

get_or-back : (xs ys : List ℕ) (i : ℕ) → get_or (xs ++ ys) (length xs + i) 0 ≡ get_or ys i 0
get_or-back [] ys i = let e : 0 + i ≡ i = omega arith in ap (λ k. get_or ys k 0) e
get_or-back (x ∷ xs) ys i =
    let e : length (x ∷ xs) + i ≡ suc (length xs + i) = omega arith in
    ap (λ k. get_or (x ∷ (xs ++ ys)) k 0) e ∙ get_or-back xs ys i

get_or-beyond : (xs : List ℕ) (i : ℕ) → length xs ≤ i → get_or xs i 0 ≡ 0
get_or-beyond [] i h = refl
get_or-beyond (x ∷ xs) zero h = absurd (omega arith)
get_or-beyond (x ∷ xs) (suc i) h = get_or-beyond xs i (omega arith)

get_or-zeros : (n i : ℕ) → get_or (replicate {A = ℕ} n 0) i 0 ≡ 0
get_or-zeros zero i = refl
get_or-zeros (suc n) zero = refl
get_or-zeros (suc n) (suc i) = get_or-zeros n i

get_or-zeros_then : (n m i : ℕ) → i < n → get_or (replicate n 0 ++ (m ∷ [])) i 0 ≡ 0
get_or-zeros_then n m i h =
    get_or-front (replicate n 0) (m ∷ []) i (omega (arith, length-replicate {A = ℕ} n 0))
    ∙ get_or-zeros n i

get_or-small : (xs : List ℕ) (i : ℕ) → All (λ b. b < 256) xs → get_or xs i 0 < 256
get_or-small [] i h = omega arith
get_or-small (x ∷ xs) zero h = h.0
get_or-small (x ∷ xs) (suc i) h = get_or-small xs i h.1

-- Below the last byte of the last word, the padded message is the message and zeros.
padded_low :
    (input : List ℕ) (i : ℕ)
    → i < length input - length input % 8 + 7
    → get_or (padded_message input) i 0 ≡ get_or input i 0
padded_low input i h = elim (Bool-cases (leb (length input) i)) [
  | inr inside ↦ get_or-front input (padding (length input)) i (ground arith)
  | inl beyond ↦
      let past : length input ≤ i = ground arith in
      let e : length input + (i - length input) ≡ i = omega arith in
      ap (λ k. get_or (padded_message input) k 0) (sym e)
      ∙ get_or-back input (padding (length input)) (i - length input)
      ∙ get_or-zeros_then (7 - length input % 8) (length input % 256) (i - length input)
          (omega arith)
      ∙ sym (get_or-beyond input i past)
]

padded_last :
    (input : List ℕ)
    → get_or (padded_message input) (length input - length input % 8 + 7) 0 ≡ length input % 256
padded_last input =
    let zeros = 7 - length input % 8 in
    let e : length input + (zeros + 0) ≡ length input - length input % 8 + 7 = omega arith in
    let f : length (replicate {A = ℕ} zeros 0) + 0 ≡ zeros + 0 =
      omega (arith, length-replicate {A = ℕ} zeros 0) in
    ap (λ k. get_or (padded_message input) k 0) (sym e)
    ∙ get_or-back input (padding (length input)) (zeros + 0)
    ∙ ap (λ k. get_or (padding (length input)) k 0) (sym f)
    ∙ get_or-back (replicate zeros 0) (length input % 256 ∷ []) 0

-- One step of the trailing block: a byte that is there is put in, and one that is not is 0.
put :
    (there : Bool) (k u lo c v acc : ℕ)
    → v ≡ c * 2 ^ k
    → acc ≡ u * 256 * 2 ^ k + lo
    → lo < 2 ^ k
    → c < 256
    → (there ≡ false → c ≡ 0)
    → (if there then bit_or acc v else acc) ≡ acc + v
put true k u lo c v acc ev e hl hc none_there =
    rw (ev, e) (bit_or-byte k u lo c hl hc ∙ omega arith)
put false k u lo c v acc ev e hl hc none_there =
    let z : v ≡ 0 = rw (none_there refl) at ev ∙ omega arith in omega (arith, z)

-- The trailing block is the last word of the padded message.
trailing_block-padded :
    (input : List ℕ)
    → All (λ b. b < 256) input
    → trailing_block input ≡ from_le64_at (padded_message input) (length input - length input % 8)
unfolding trailing_block from_le64_at
trailing_block-padded input all =
    let n = length input in
    let end = n - n % 8 in
    let m = n % 256 in
    let left = bit_and n 7 in
    let seven = bit_and_seven n in
    let b0 = u64 (n <<< 56) in
    let e0 : b0 ≡ m * 2 ^ 56 = omega arith in
    let c0 = get_or input end 0 in
    let s0 = get_or-small input end all in
    let b1 = if leb 1 left then bit_or b0 c0 else b0 in
    let e1 : b1 ≡ b0 + c0 =
      put (leb 1 left) 0 (m * 2 ^ 48) (0) c0 c0 b0 (omega arith) (omega (arith, e0)) (omega (arith))
        s0 (λ h. get_or-beyond input end (ground (arith, seven))) in
    let c1 = get_or input (end + 1) 0 in
    let s1 = get_or-small input (end + 1) all in
    let b2 = if leb 2 left then bit_or b1 (c1 <<< 8) else b1 in
    let e2 : b2 ≡ b1 + (c1 <<< 8) =
      put (leb 2 left) 8 (m * 2 ^ 40) (c0) c1 (c1 <<< 8) b1 (omega arith) (omega (arith, e0, e1))
        (omega (arith, s0)) s1 (λ h. get_or-beyond input (end + 1) (ground (arith, seven))) in
    let c2 = get_or input (end + 2) 0 in
    let s2 = get_or-small input (end + 2) all in
    let b3 = if leb 3 left then bit_or b2 (c2 <<< 16) else b2 in
    let e3 : b3 ≡ b2 + (c2 <<< 16) =
      put (leb 3 left) 16 (m * 2 ^ 32) (c0 + c1 * 2 ^ 8) c2 (c2 <<< 16) b2 (omega arith)
        (omega (arith, e0, e1, e2)) (omega (arith, s0, s1)) s2
        (λ h. get_or-beyond input (end + 2) (ground (arith, seven))) in
    let c3 = get_or input (end + 3) 0 in
    let s3 = get_or-small input (end + 3) all in
    let b4 = if leb 4 left then bit_or b3 (c3 <<< 24) else b3 in
    let e4 : b4 ≡ b3 + (c3 <<< 24) =
      put (leb 4 left) 24 (m * 2 ^ 24) (c0 + c1 * 2 ^ 8 + c2 * 2 ^ 16) c3 (c3 <<< 24) b3
        (omega arith) (omega (arith, e0, e1, e2, e3)) (omega (arith, s0, s1, s2)) s3
        (λ h. get_or-beyond input (end + 3) (ground (arith, seven))) in
    let c4 = get_or input (end + 4) 0 in
    let s4 = get_or-small input (end + 4) all in
    let b5 = if leb 5 left then bit_or b4 (c4 <<< 32) else b4 in
    let e5 : b5 ≡ b4 + (c4 <<< 32) =
      put (leb 5 left) 32 (m * 2 ^ 16) (c0 + c1 * 2 ^ 8 + c2 * 2 ^ 16 + c3 * 2 ^ 24) c4 (c4 <<< 32)
        b4 (omega arith) (omega (arith, e0, e1, e2, e3, e4)) (omega (arith, s0, s1, s2, s3)) s4
        (λ h. get_or-beyond input (end + 4) (ground (arith, seven))) in
    let c5 = get_or input (end + 5) 0 in
    let s5 = get_or-small input (end + 5) all in
    let b6 = if leb 6 left then bit_or b5 (c5 <<< 40) else b5 in
    let e6 : b6 ≡ b5 + (c5 <<< 40) =
      put (leb 6 left) 40 (m * 2 ^ 8) (c0 + c1 * 2 ^ 8 + c2 * 2 ^ 16 + c3 * 2 ^ 24 + c4 * 2 ^ 32) c5
        (c5 <<< 40) b5 (omega arith) (omega (arith, e0, e1, e2, e3, e4, e5))
        (omega (arith, s0, s1, s2, s3, s4)) s5
        (λ h. get_or-beyond input (end + 5) (ground (arith, seven))) in
    let c6 = get_or input (end + 6) 0 in
    let s6 = get_or-small input (end + 6) all in
    let b7 = if leb 7 left then bit_or b6 (c6 <<< 48) else b6 in
    let e7 : b7 ≡ b6 + (c6 <<< 48) =
      put (leb 7 left) 48 (m * 2 ^ 0)
        (c0 + c1 * 2 ^ 8 + c2 * 2 ^ 16 + c3 * 2 ^ 24 + c4 * 2 ^ 32 + c5 * 2 ^ 40) c6 (c6 <<< 48) b6
        (omega arith) (omega (arith, e0, e1, e2, e3, e4, e5, e6))
        (omega (arith, s0, s1, s2, s3, s4, s5)) s6
        (λ h. get_or-beyond input (end + 6) (ground (arith, seven))) in
    omega (
      arith,
      e0,
      e1,
      e2,
      e3,
      e4,
      e5,
      e6,
      e7,
      padded_low input end (omega arith),
      padded_low input (end + 1) (omega arith),
      padded_low input (end + 2) (omega arith),
      padded_low input (end + 3) (omega arith),
      padded_low input (end + 4) (omega arith),
      padded_low input (end + 5) (omega arith),
      padded_low input (end + 6) (omega arith),
      padded_last input,
    )

-- The whole blocks of the message are the first ones of the padded message.
absorb-front :
    (blocks i : ℕ) (input more : List ℕ) (s : SipState)
    → i + blocks * 8 ≤ length input
    → absorb blocks input i s ≡ absorb blocks (input ++ more) i s
unfolding absorb from_le64_at
absorb-front zero i input more s h = refl
absorb-front (suc blocks) i input more s h =
    let same = λ (j : ℕ) (k : i + j < length input). sym (get_or-front input more (i + j) k) in
    let first = sym (get_or-front input more i (omega arith)) in
    let word : from_le64_at input i ≡ from_le64_at (input ++ more) i = omega (
      arith,
      first,
      same 1 (omega arith),
      same 2 (omega arith),
      same 3 (omega arith),
      same 4 (omega arith),
      same 5 (omega arith),
      same 6 (omega arith),
      same 7 (omega arith),
    ) in
    ap (λ w. absorb blocks input (i + 8) (compress w s)) word
    ∙ absorb-front blocks (i + 8) input more (compress (from_le64_at (input ++ more) i) s)
        (omega arith)

-- One block more is absorbed last.
absorb-last :
    (blocks i : ℕ) (input : List ℕ) (s : SipState)
    → absorb (suc blocks) input i s
      ≡ compress (from_le64_at input (i + blocks * 8)) (absorb blocks input i s)
unfolding absorb
absorb-last zero i input s =
    let e : i ≡ i + 0 * 8 = omega arith in ap (λ k. compress (from_le64_at input k) s) e
absorb-last (suc blocks) i input s =
    let e : i + 8 + blocks * 8 ≡ i + suc blocks * 8 = omega arith in
    absorb-last blocks (i + 8) input (compress (from_le64_at input i) s)
    ∙ ap
        (λ k.
          compress (from_le64_at input k)
            (absorb blocks input (i + 8) (compress (from_le64_at input i) s)))
        e

-- The hash of a byte string under the key that is derived from two 64-bit numbers starts from four
-- constants, the first number being combined with the first and the third by exclusive or, and the
-- second number with the other two. It absorbs the words of the padded message, which is the string,
-- zeros up to one byte below a multiple of eight, and the length modulo 256; the trailing block is
-- no case of its own.
pub siphash24-sipkey :
    (input : List ℕ) (a b : ℕ)
    → All (λ x. x < 256) input
    → a < 2 ^ 64
    → b < 2 ^ 64
    → siphash24 input (sipkey a b)
      ≡ to_le64 (
          finalize (
            absorb (length input / 8 + 1) (padded_message input) 0 (record {
              v0 = bit_xor 0x736f6d6570736575 a;
              v1 = bit_xor 0x646f72616e646f6d b;
              v2 = bit_xor 0x6c7967656e657261 a;
              v3 = bit_xor 0x7465646279746573 b;
            })))
unfolding siphash24 initial
siphash24-sipkey input a b all ha hb =
    let n = length input in
    let start = initial a b in
    let (low, high) = from_le64_at-sipkey a b ha hb in
    let one : n / 8 + 1 ≡ suc (n / 8) = omega arith in
    let place : n - n % 8 ≡ 0 + n / 8 * 8 = omega arith in
    rw (low, high)
      (ap (λ s. to_le64 (finalize s))
        (ap (λ w. compress w (absorb (n / 8) input 0 start))
            (trailing_block-padded input all ∙ ap (from_le64_at (padded_message input)) place)
          ∙ ap (compress (from_le64_at (padded_message input) (0 + n / 8 * 8)))
              (absorb-front (n / 8) 0 input (padding n) start (omega arith))
          ∙ sym (absorb-last (n / 8) 0 (padded_message input) start)
          ∙ ap (λ k. absorb k (padded_message input) 0 start) (sym one)))
