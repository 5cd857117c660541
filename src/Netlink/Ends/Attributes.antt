-- ===== src/Netlink/Ends/Attributes.antt =====
-- The loop of src/awdl/netlink.rs over the attributes of a message ends.
use cosmicdrop.Base.{
  ℕ, zero, suc, ◌+◌, ◌-◌, ◌*◌, ◌/◌, ◌^◌, ◌≤◌, ◌<◌, ◌≡◌, ◌≢◌, inl, inr, refl, arith, Bool, true,
  false, Bool-cases, Option, none, List, [], ◌∷◌, length, leb, ◌==◌, ◌&&◌, All, u64,
}
use cosmicdrop.Base.Bits.And.{bit_and_not_three}
use cosmicdrop.Netlink.{nlmsg_align}
use cosmicdrop.Netlink.Replies.{le16_in, find_family_id}
use cosmicdrop.Rx.{Run, done, fault, stuck, match_read}
use cosmicdrop.Wire
use cosmicdrop.Wire.{from_le16, WireResult, ok, err, panic, index}

-- The length rounded up to a multiple of four.
pub nlmsg_align_lem : (len : ℕ) → len < 2 ^ 63 → nlmsg_align len ≡ (len + 3) / 4 * 4
unfolding nlmsg_align
nlmsg_align_lem len h = omega (arith, bit_and_not_three (u64 (len + 4 - 1)) (omega arith))

index_room :
    (bytes : List ℕ) (i v : ℕ)
    → All (λ b. b < 256) bytes
    → index bytes i ≡ ok v
    → (i < length bytes) × (v < 256)
unfolding index
index_room [] i v all e = cc
index_room (x ∷ bytes) zero v all e = ground (arith, all.0)
index_room (x ∷ bytes) (suc i) v all e =
    let (room, bound) = index_room bytes i v all.1 e in (omega arith, bound)

module _ {ℓ κ} {A : Type ℓ} {B : Type κ} where
  bind_ok :
      (m : WireResult A) (k : A → WireResult B) (v : B)
      → Wire.◌>>=◌ m k ≡ ok v
      → (a : A) × (m ≡ ok a) × (k a ≡ ok v)
  bind_ok (ok a) k v e = (a, refl, e)
  bind_ok err k v e = cc
  bind_ok panic k v e = cc

  pub match_read_ne_stuck :
      (r : WireResult A) (k : A → Run B)
      → ((v : A) → r ≡ ok v → k v ≢ stuck)
      → match_read r fault k ≢ stuck
  match_read_ne_stuck (ok v) k h = h v refl
  match_read_ne_stuck err k h = λ e. cc
  match_read_ne_stuck panic k h = λ e. cc

-- A read of two bytes that succeeds lies within the buffer.
le16_in_room :
    (resp : List ℕ) (i v : ℕ)
    → All (λ b. b < 256) resp
    → le16_in resp i ≡ ok v
    → (i + 2 ≤ length resp) × (v < 2 ^ 16)
unfolding le16_in
le16_in_room resp i v all e =
    let (a, ea, rest) = bind_ok (index resp i) _ v e in
    let (b, eb, last) = bind_ok (index resp (i + 1)) _ v rest in
    let (room, bound) = index_room resp (i + 1) b all eb in
    let (room', bound') = index_room resp i a all ea in
    let same : from_le16 a b ≡ v = cc in (omega arith, omega (arith, same))

pub find_family_id_ne_stuck :
    (fuel : ℕ) (resp : List ℕ) (attr_off end : ℕ)
    → All (λ b. b < 256) resp
    → 0 < fuel
    → length resp ≤ fuel + attr_off
    → find_family_id fuel resp attr_off end ≢ stuck
unfolding find_family_id
find_family_id_ne_stuck zero resp attr_off end all pos h = elim pos [ ]
find_family_id_ne_stuck (suc fuel) resp attr_off end all pos h =
    elim (Bool-cases (leb (attr_off + 4) end)) [
      | inr out ↦ rw (out, find_family_id) (λ e. cc)
      | inl inside ↦
          rw (inside, find_family_id)
            (match_read_ne_stuck (le16_in resp attr_off) _ λ a_len e1.
              match_read_ne_stuck (le16_in resp (attr_off + 2)) _ λ a_type e2.
                let (room1, bound1) = le16_in_room resp attr_off a_len all e1 in
                let (room2, bound2) = le16_in_room resp (attr_off + 2) a_type all e2 in
                let aligned = nlmsg_align_lem a_len (omega arith) in
                either (leb 4 a_len && leb (nlmsg_align a_len + attr_off) end)
                  ((a_type == 1) && leb 6 a_len)
                  (match_read_ne_stuck (le16_in resp (attr_off + 4)) _ λ id e3 e. cc)
                  (λ long.
                    let four : 4 ≤ a_len = ground arith in
                    find_family_id_ne_stuck fuel resp (attr_off + nlmsg_align a_len) end all
                      (omega arith) (omega arith)))
    ]
  where
    either :
        (b c : Bool) {x y : Run (Option ℕ)}
        → x ≢ stuck
        → (b ≡ true → y ≢ stuck)
        → elim b [ false ↦ done none | true ↦ elim c [ true ↦ x | false ↦ y ] ] ≢ stuck
    either false c hx hy = λ e. cc
    either true true hx hy = hx
    either true false hx hy = hy refl
