-- ===== src/Netlink/Family.antt =====
-- What src/awdl/netlink.rs finds in a reply that is laid out as the kernel does.
use cosmicdrop.Base.{
  ℕ, zero, suc, ◌+◌, ◌-◌, ◌/◌, ◌%◌, ◌^◌, ◌≤◌, ◌<◌, ◌≡◌, ◌≢◌, refl, ap, sym, ◌∙◌, arith, true, false,
  some, List, [], ◌∷◌, ◌++◌, length, get_or, leb, ◌==◌, ◌&&◌, length-append, length-replicate,
  replicate, bit_xor,
}
use cosmicdrop.Base.Bits.Xor.{bit_xor_cancel}
use cosmicdrop.Election.{EtherAddr}
use cosmicdrop.Netlink.{nlmsg_align, rfc4291_addr}
use cosmicdrop.Netlink.Ends.Attributes.{nlmsg_align_lem}
use cosmicdrop.Netlink.Layout.{attribute, append_assoc}
use cosmicdrop.Netlink.Replies.{le16_in, find_family_id}
use cosmicdrop.Rx.{done, fault, match_read}
use cosmicdrop.Wire.{ok, from_le16, to_le16}
use cosmicdrop.Wire.Reads.{at, index_lem}
use cosmicdrop.Wire.RoundTrip.{at_after}

first_byte : (x y : ℕ) → bit_xor x 2 ≡ bit_xor y 2 → x ≡ y
first_byte x y e = sym (bit_xor_cancel x 2) ∙ ap (λ z. bit_xor z 2) e ∙ bit_xor_cancel y 2

-- The bytes of a list one by one.
firsts : ℕ → ℕ → List ℕ → List ℕ
firsts zero i a = []
firsts (suc n) i a = get_or a i 0 ∷ firsts n (suc i) a

firsts_shift : (n i x : ℕ) (a : List ℕ) → firsts n (suc i) (x ∷ a) ≡ firsts n i a
unfolding firsts
firsts_shift zero i x a = refl
firsts_shift (suc n) i x a = ap (λ t. get_or a i 0 ∷ t) (firsts_shift n (suc i) x a)

firsts_all : (n : ℕ) (a : List ℕ) → length a ≡ n → firsts n 0 a ≡ a
unfolding firsts
firsts_all zero [] h = refl
firsts_all zero (x ∷ a) h = let never : ⊥ = omega arith in absurd never
firsts_all (suc n) [] h = let never : ⊥ = omega arith in absurd never
firsts_all (suc n) (x ∷ a) h = ap (λ t. x ∷ t) (firsts_shift n 0 x a ∙ firsts_all n a (omega arith))

-- Different six-byte addresses have different link-local addresses.
pub rfc4291_addr_injective :
    (a b : EtherAddr) → length a ≡ 6 → length b ≡ 6 → rfc4291_addr a ≡ rfc4291_addr b → a ≡ b
unfolding rfc4291_addr firsts
rfc4291_addr_injective a b h k e =
    let first = first_byte (get_or a 0 0) (get_or b 0 0) (ap (λ l. get_or l 8 0) e) in
    let same : firsts 6 0 a ≡ firsts 6 0 b = cc in sym (firsts_all 6 a h) ∙ same ∙ firsts_all 6 b k

-- The bytes that fill up a length to a multiple of four, as the kernel lays attributes out.
abbrev pub filler : ℕ → List ℕ
filler len = replicate ((4 - len % 4) % 4) 0

unfoldable pub padded : ℕ → List ℕ → List ℕ
unfolding attribute
padded attr_type payload = attribute attr_type payload ++ filler (4 + length payload)

-- Attributes of other types.
unfoldable pub others : List (ℕ × List ℕ) → List ℕ
others [] = []
others ((attr_type, payload) ∷ attrs) = padded attr_type payload ++ others attrs

abbrev pub AreOthers : List (ℕ × List ℕ) → Type 0
AreOthers [] = Unit
AreOthers ((attr_type, payload) ∷ attrs) =
    (attr_type ≢ 1) × (attr_type < 2 ^ 16) × (length payload < 60000) × AreOthers attrs

le16_in_after :
    (before s : List ℕ) (k : ℕ)
    → k + 2 ≤ length s
    → le16_in (before ++ s) (length before + k) ≡ ok (from_le16 (at s k) (at s (k + 1)))
unfolding le16_in
le16_in_after before s k h =
    let e : length before + k + 1 ≡ length before + (k + 1) = omega arith in
    rw
      (
        index_lem (before ++ s) (length before + k) (omega (arith, length-append before s)),
        index_lem (before ++ s) (length before + k + 1) (omega (arith, length-append before s)),
        e,
        at_after before s k,
        at_after before s (k + 1),
      )
      refl

le16_lem : (v : ℕ) → v < 2 ^ 16 → from_le16 (v % 256) (v / 256 % 256) ≡ v
le16_lem v h = omega arith

length-padded :
    (attr_type : ℕ) (payload : List ℕ)
    → length payload < 60000
    → length (padded attr_type payload) ≡ nlmsg_align (4 + length payload)
unfolding padded attribute
length-padded attr_type payload h =
    let aligned = nlmsg_align_lem (4 + length payload) (omega arith) in
    omega (
      arith,
      length-append payload (filler (4 + length payload)),
      length-replicate {A = ℕ} ((4 - (4 + length payload) % 4) % 4) 0,
      aligned,
    )

-- One turn of the loop at an attribute that fits.
find_step :
    (fuel end a_len a_type : ℕ) (before tail : List ℕ)
    → a_len < 2 ^ 16
    → a_type < 2 ^ 16
    → 4 ≤ a_len
    → length before + nlmsg_align a_len ≤ end
    → find_family_id
        (suc fuel)
        (before ++ (to_le16 a_len ++ (to_le16 a_type ++ tail)))
        (length before)
        end
      ≡ elim ((a_type == 1) && leb 6 a_len) [
        | true ↦
            match_read
              (le16_in (before ++ (to_le16 a_len ++ (to_le16 a_type ++ tail))) (length before + 4))
              fault
              λ id. done (some id)
        | false ↦
            find_family_id fuel
              (before ++ (to_le16 a_len ++ (to_le16 a_type ++ tail)))
              (length before + nlmsg_align a_len)
              end
      ]
unfolding find_family_id
find_step fuel end a_len a_type before tail hl ht four room =
    let s = to_le16 a_len ++ (to_le16 a_type ++ tail) in
    let origin : length before + 0 ≡ length before = omega arith in
    let len : le16_in (before ++ s) (length before) ≡ ok a_len =
      ap (le16_in (before ++ s)) (sym origin)
      ∙ le16_in_after before s 0 (omega arith)
      ∙ ap ok (le16_lem a_len hl) in
    let type_ : le16_in (before ++ s) (length before + 2) ≡ ok a_type =
      le16_in_after before s 2 (omega arith) ∙ ap ok (le16_lem a_type ht) in
    let aligned = nlmsg_align_lem a_len (omega arith) in
    let inside : leb (length before + 4) end ≡ true = ground arith in
    let long : leb 4 a_len ≡ true = ground arith in
    let fits : leb (nlmsg_align a_len + length before) end ≡ true = ground arith in
    rw (inside, find_family_id, len, type_, long, fits) refl

-- Among the attributes of a message, each filled up to a multiple of four bytes, `find_family_id`
-- passes from the place `length before` on over those of other types and finds the family id, whatever
-- stands before the attributes and behind them, if it has fuel for one attribute more than those.
pub find_family_id_lem :
    (attrs : List (ℕ × List ℕ)) (id fuel end : ℕ) (before rest : List ℕ)
    → AreOthers attrs
    → id < 2 ^ 16
    → length attrs < fuel
    → length before + length (others attrs) + 8 ≤ end
    → find_family_id fuel
        (before ++ (others attrs ++ (padded 1 (to_le16 id) ++ rest)))
        (length before)
        end
      ≡ done (some id)
unfolding others padded attribute
find_family_id_lem attrs id zero end before rest a b f h = elim f [ ]
find_family_id_lem [] id (suc fuel) end before rest a b f h =
    let aligned = nlmsg_align_lem 6 (omega arith) in
    let pad = filler 6 in
    let value = le16_in_after before (padded 1 (to_le16 id) ++ rest) 4 (omega arith) in
    find_step fuel end 6 1 before (to_le16 id ++ (pad ++ rest)) (omega arith) (omega arith)
      (omega arith) (omega (arith, aligned))
    ∙ rw value (ap (λ v. done (some v)) (le16_lem id b))
find_family_id_lem ((attr_type, payload) ∷ attrs) id (suc fuel) end before rest
      (other, small, short, a) b f h =
    let target = padded 1 (to_le16 id) ++ rest in
    let one = padded attr_type payload in
    let size = length-padded attr_type payload short in
    let aligned = nlmsg_align_lem (4 + length payload) (omega arith) in
    let pad = filler (4 + length payload) in
    let sum = length-append one (others attrs) in
    let same : before ++ ((one ++ others attrs) ++ target)
        ≡ (before ++ one) ++ (others attrs ++ target) =
      ap (λ t. before ++ t) (append_assoc one (others attrs) target)
      ∙ sym (append_assoc before one (others attrs ++ target)) in
    let place : length before + nlmsg_align (4 + length payload) ≡ length (before ++ one) =
      omega (arith, size, length-append before one) in
    let not_id : (attr_type == 1) ≡ false = ground arith in
    find_step fuel end (4 + length payload) attr_type before
      (((payload ++ pad) ++ others attrs) ++ target) (omega arith) small (omega arith)
      (omega (arith, size, sum))
    ∙ rw (not_id, same, place)
        (find_family_id_lem attrs id fuel end (before ++ one) rest a b (omega arith)
          (omega (arith, sum, length-append before one)))
