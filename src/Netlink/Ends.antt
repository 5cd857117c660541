-- ===== src/Netlink/Ends.antt =====
-- The loops of src/awdl/netlink.rs over a reply end, whatever the bytes of the reply are.
pub mod Attributes
use cosmicdrop.Base.{
  ℕ, zero, suc, ◌+◌, ◌-◌, ◌*◌, ◌/◌, ◌%◌, ◌^◌, ◌≤◌, ◌<◌, ◌≡◌, ◌≢◌, inl, inr, refl, ap, sym, ◌∙◌,
  arith, Bool, true, false, Bool-cases, Option, none, some, List, [], ◌∷◌, ◌++◌, length, drop, leb,
  ◌==◌, ◌&&◌, if◌then◌else◌, length-append, length-drop, get_elem?, All, u64,
}
use cosmicdrop.Base.Bits.And.{bit_and_not_three}
use cosmicdrop.Netlink.{nlmsg_align, to_nlmsghdr, Nlmsghdr}
use cosmicdrop.Netlink.Replies.{
  le16_in, or_further, acknowledged, refused, no_answer, succeeded, send_failed, unanswered,
  find_family_id, read_reply, receive_into, genl_resolve_family, Resolved, Resolution, resolved,
  nlmsg_error_seen, family_not_found, keep_reading, family, failed, waiting, read_ack, nl_send_recv,
  Acknowledged, Sent, le32_in,
}
use cosmicdrop.Rx.{Run, done, fault, stuck, match_read}
use cosmicdrop.Wire
use cosmicdrop.Wire.{from_le16, WireResult, ok, err, panic, index}
use cosmicdrop.Wire.Reads.{at, index_lem}
use cosmicdrop.Netlink.Ends.Attributes.{find_family_id_ne_stuck, match_read_ne_stuck}

IsBytes-drop :
    (n : ℕ) (bytes : List ℕ) → All (λ b. b < 256) bytes → All (λ b. b < 256) (drop n bytes)
IsBytes-drop zero bytes all = all
IsBytes-drop (suc n) [] all = tt
IsBytes-drop (suc n) (b ∷ bytes) all = IsBytes-drop n bytes all.1

or_further_ne_stuck :
    (r : Run (Option ℕ)) (further : Run Resolved)
    → r ≢ stuck
    → further ≢ stuck
    → or_further r further ≢ stuck
or_further_ne_stuck (done (some id)) further h k = λ e. cc
or_further_ne_stuck (done none) further h k = k
or_further_ne_stuck fault further h k = λ e. cc
or_further_ne_stuck stuck further h k = absurd (h refl)

if_ne_stuck {ℓ} :
    {A : Type ℓ} (b : Bool) {x y : Run A} → x ≢ stuck → y ≢ stuck → (if b then x else y) ≢ stuck
if_ne_stuck true hx hy = hx
if_ne_stuck false hx hy = hy

done_ne_stuck {ℓ} : {A : Type ℓ} (a : A) → done a ≢ stuck
done_ne_stuck a e = cc

-- The next message, unless the length of this one is 0.
advance {ℓ} :
    {A : Type ℓ} (n : ℕ) {x y : Run A}
    → x ≢ stuck
    → (0 < n → y ≢ stuck)
    → elim (n == 0) [ true ↦ x | false ↦ y ] ≢ stuck
advance n hx hy = elim (Bool-cases (n == 0)) [ inl e ↦ rw e hx | inr e ↦ rw e (hy (ground arith)) ]

read_reply_ne_stuck :
    (fuel : ℕ) (resp : List ℕ) (byte_len off : ℕ)
    → All (λ b. b < 256) resp
    → 0 < length resp
    → byte_len ≤ fuel + off
    → read_reply fuel resp byte_len off ≢ stuck
unfolding read_reply
read_reply_ne_stuck zero resp byte_len off all room h =
    let out : leb (off + 16) byte_len ≡ false = ground arith in rw out (done_ne_stuck _)
read_reply_ne_stuck (suc fuel) resp byte_len off all room h =
    let nl = to_nlmsghdr (drop off resp) in
    elim (Bool-cases (leb (off + 16) byte_len)) [
      | inr out ↦ rw (out, read_reply) (done_ne_stuck _)
      | inl inside ↦
          rw (inside, read_reply)
            (if_ne_stuck (nl.nlmsg_type == 2) (done_ne_stuck _) (
              if_ne_stuck (nl.nlmsg_type == 3) (done_ne_stuck _) (
                or_further_ne_stuck _ _
                  (if_ne_stuck (nl.nlmsg_type == 16)
                    (find_family_id_ne_stuck (length resp) resp _ _ all room (omega arith))
                    (done_ne_stuck _))
                  (advance (nlmsg_align nl.nlmsg_len) (done_ne_stuck _) λ ahead.
                    read_reply_ne_stuck fuel resp byte_len (off + nlmsg_align nl.nlmsg_len) all room
                      (omega arith)))))
    ]

read_ack_ne_stuck :
    (fuel : ℕ) (resp : List ℕ) (byte_len off : ℕ)
    → byte_len ≤ fuel + off
    → read_ack fuel resp byte_len off ≢ stuck
unfolding read_ack
read_ack_ne_stuck zero resp byte_len off h =
    let out : leb (off + 16) byte_len ≡ false = ground arith in rw out (done_ne_stuck _)
read_ack_ne_stuck (suc fuel) resp byte_len off h =
    let nl = to_nlmsghdr (drop off resp) in
    elim (Bool-cases (leb (off + 16) byte_len)) [
      | inr out ↦ rw (out, read_ack) (done_ne_stuck _)
      | inl inside ↦
          rw (inside, read_ack)
            (if_ne_stuck (nl.nlmsg_type == 2)
              (if_ne_stuck (leb 20 nl.nlmsg_len)
                (match_read_ne_stuck (le32_in resp (off + 16)) _
                  λ code e. if_ne_stuck (code == 0) (done_ne_stuck _) (done_ne_stuck _))
                (done_ne_stuck _))
              (if_ne_stuck (nl.nlmsg_type == 3) (done_ne_stuck _) (
                advance (nlmsg_align nl.nlmsg_len) (done_ne_stuck _) λ ahead.
                  read_ack_ne_stuck fuel resp byte_len (off + nlmsg_align nl.nlmsg_len)
                    (omega arith))))
    ]

-- A list of bytes.
abbrev pub IsBytes : List ℕ → Type 0
IsBytes bytes = All (λ b. b < 256) bytes

-- Every reply that arrives is a list of bytes.
abbrev pub AreReplies : List (Option (List ℕ)) → Type 0
AreReplies [] = Unit
AreReplies (none ∷ replies) = AreReplies replies
AreReplies (some reply ∷ replies) = IsBytes reply × AreReplies replies

IsBytes-append : (xs ys : List ℕ) → IsBytes xs → IsBytes ys → IsBytes (xs ++ ys)
IsBytes-append [] ys hx hy = hy
IsBytes-append (x ∷ xs) ys (h, hx) hy = (h, IsBytes-append xs ys hx hy)

received-IsBytes :
    (resp reply : List ℕ) → IsBytes resp → IsBytes reply → IsBytes (receive_into resp reply)
unfolding receive_into
received-IsBytes resp reply h k = IsBytes-append reply _ k (IsBytes-drop (length reply) resp h)

received_room : (resp reply : List ℕ) → 0 < length resp → 0 < length (receive_into resp reply)
unfolding receive_into
received_room resp reply h =
    omega (arith, length-append reply (drop (length reply) resp), length-drop (length reply) resp)

resolve_ne_stuck :
    (replies : List (Option (List ℕ))) (resp : List ℕ)
    → AreReplies replies
    → IsBytes resp
    → 0 < length resp
    → genl_resolve_family replies resp ≢ stuck
unfolding genl_resolve_family
resolve_ne_stuck [] resp a b h = done_ne_stuck _
resolve_ne_stuck (none ∷ replies) resp a b h = done_ne_stuck _
resolve_ne_stuck (some reply ∷ replies) resp (r, a) b h =
    let bytes = received-IsBytes resp reply b r in
    let room = received_room resp reply h in
    further (read_reply (length reply) (receive_into resp reply) (length reply) 0)
      (read_reply_ne_stuck (length reply) (receive_into resp reply) (length reply) 0 bytes room
        (omega arith))
      (resolve_ne_stuck replies (receive_into resp reply) a bytes room)
  where
    further :
        (r : Run Resolved)
        → r ≢ stuck
        → genl_resolve_family replies (receive_into resp reply) ≢ stuck
        → elim r [
          | done x ↦ elim x [
            | resolved id ↦ done (family id)
            | nlmsg_error_seen ↦ done failed
            | family_not_found ↦ done failed
            | keep_reading ↦ genl_resolve_family replies (receive_into resp reply)
          ]
          | fault ↦ fault
          | stuck ↦ stuck
        ]
          ≢ stuck
    further (done (resolved id)) h k = done_ne_stuck _
    further (done nlmsg_error_seen) h k = done_ne_stuck _
    further (done family_not_found) h k = done_ne_stuck _
    further (done keep_reading) h k = k
    further fault h k = λ e. cc
    further stuck h k = absurd (h refl)

send_recv_ne_stuck :
    (replies : List (Option (List ℕ))) (resp : List ℕ) → nl_send_recv replies resp ≢ stuck
unfolding nl_send_recv
send_recv_ne_stuck [] resp = done_ne_stuck _
send_recv_ne_stuck (none ∷ replies) resp = done_ne_stuck _
send_recv_ne_stuck (some reply ∷ replies) resp =
    further (read_ack (length reply) (receive_into resp reply) (length reply) 0)
      (read_ack_ne_stuck (length reply) (receive_into resp reply) (length reply) 0 (omega arith))
      (send_recv_ne_stuck replies (receive_into resp reply))
  where
    further :
        (r : Run Acknowledged)
        → r ≢ stuck
        → nl_send_recv replies (receive_into resp reply) ≢ stuck
        → elim r [
          | done x ↦ elim x [
            | acknowledged ↦ done succeeded
            | refused code ↦ done send_failed
            | no_answer ↦ nl_send_recv replies (receive_into resp reply)
          ]
          | fault ↦ fault
          | stuck ↦ stuck
        ]
          ≢ stuck
    further (done acknowledged) h k = done_ne_stuck _
    further (done (refused code)) h k = done_ne_stuck _
    further (done no_answer) h k = k
    further fault h k = λ e. cc
    further stuck h k = absurd (h refl)

-- Whatever bytes the kernel replies, and whatever a buffer that is not empty holds, the loops of
-- `genl_resolve_family` and `nl_send_recv` over the messages of a reply and over the attributes of a
-- message end: the model never runs out of the fuel that it gives them, the length of the reply and
-- that of the buffer.
pub replies_ne_stuck :
    (replies : List (Option (List ℕ))) (resp : List ℕ)
    → AreReplies replies
    → IsBytes resp
    → 0 < length resp
    → (genl_resolve_family replies resp ≢ stuck) × (nl_send_recv replies resp ≢ stuck)
replies_ne_stuck replies resp a b h =
    (resolve_ne_stuck replies resp a b h, send_recv_ne_stuck replies resp)
