-- ===== src/Netlink/Replies.antt =====
-- How src/awdl/netlink.rs reads the replies of the kernel. `resp` is the buffer of 8192 bytes, of
-- which a reply fills the first `byte_len`.
use cosmicdrop.Base.{
  true, false, ℕ, zero, suc, ◌+◌, ◌*◌, leb, ◌==◌, ◌&&◌, if◌then◌else◌, Option, none, some, List, [],
  ◌∷◌, ◌++◌, length, drop,
}
use cosmicdrop.Netlink.{
  to_nlmsghdr, nlmsg_align, nlmsg_error, nlmsg_done, genl_id_ctrl, nlmsghdr_size, genlmsghdr_size,
}
use cosmicdrop.Rx.{Run, done, fault, stuck, match_read}
use cosmicdrop.Wire
use cosmicdrop.Wire.{WireResult, ok, index, from_le16, from_le32}

-- `u16::from_le_bytes([resp[i], resp[i + 1]])`.
unfoldable pub le16_in : List ℕ → ℕ → WireResult ℕ
le16_in resp i =
    Wire.◌>>=◌ (index resp i) λ a. Wire.◌>>=◌ (index resp (i + 1)) λ b. ok (from_le16 a b)

-- The inner loop of `genl_resolve_family`: the family id among the attributes, if it is there.
unfoldable pub find_family_id : ℕ → List ℕ → ℕ → ℕ → Run (Option ℕ)
unfolding le16_in
find_family_id zero resp attr_off end = if leb (attr_off + 4) end then stuck else done none
find_family_id (suc fuel) resp attr_off end = elim (leb (attr_off + 4) end) [
  | false ↦ done none
  | true ↦ match_read (le16_in resp attr_off) fault λ a_len.
      match_read (le16_in resp (attr_off + 2)) fault λ a_type.
        elim (leb 4 a_len && leb (nlmsg_align a_len + attr_off) end) [
          | false ↦ done none
          | true ↦ elim ((a_type == 1) && leb 6 a_len) [
            | true ↦ match_read (le16_in resp (attr_off + 4)) fault λ id. done (some id)
            | false ↦ find_family_id fuel resp (attr_off + nlmsg_align a_len) end
          ]
        ]
]

-- What a reply says: the id of the family, one of the two errors, or nothing yet.
pub data Resolved : Type 0 where
  resolved : ℕ → Resolved
  nlmsg_error_seen : Resolved
  family_not_found : Resolved
  keep_reading : Resolved

abbrev pub or_further : Run (Option ℕ) → Run Resolved → Run Resolved
or_further (done (some id)) further = done (resolved id)
or_further (done none) further = further
or_further fault further = fault
or_further stuck further = stuck

-- The outer loop of `genl_resolve_family`, over the messages of one reply.
unfoldable pub read_reply : ℕ → List ℕ → ℕ → ℕ → Run Resolved
unfolding find_family_id to_nlmsghdr
read_reply zero resp byte_len off =
    if leb (off + nlmsghdr_size) byte_len then stuck else done keep_reading
read_reply (suc fuel) resp byte_len off = elim (leb (off + nlmsghdr_size) byte_len) [
  | false ↦ done keep_reading
  | true ↦
      let nl = to_nlmsghdr (drop off resp) in
      if nl.nlmsg_type == nlmsg_error
      then done nlmsg_error_seen
      else (if nl.nlmsg_type == nlmsg_done
          then done family_not_found
          else or_further
              (if nl.nlmsg_type == genl_id_ctrl
                then find_family_id (length resp) resp
                    (off + nlmsg_align nlmsghdr_size + genlmsghdr_size) (off + nl.nlmsg_len)
                else done none)
              (elim (nlmsg_align nl.nlmsg_len == 0) [
                | true ↦ done keep_reading
                | false ↦ read_reply fuel resp byte_len (off + nlmsg_align nl.nlmsg_len)
              ]))
]

-- `recv` fills the front of the buffer, which keeps the rest of what was there.
unfoldable pub receive_into : List ℕ → List ℕ → List ℕ
receive_into resp reply = reply ++ drop (length reply) resp

-- The loop of `genl_resolve_family` over the answers of `recv`, `none` an error of the call. When
-- they run out, the call still waits.
pub data Resolution : Type 0 where
  family : ℕ → Resolution
  failed : Resolution
  waiting : Resolution

unfoldable pub genl_resolve_family : List (Option (List ℕ)) → List ℕ → Run Resolution
unfolding read_reply receive_into
genl_resolve_family [] resp = done waiting
genl_resolve_family (none ∷ replies) resp = done failed
genl_resolve_family (some reply ∷ replies) resp =
    let resp' = receive_into resp reply in
    elim (read_reply (length reply) resp' (length reply) 0) [
      | done r ↦ elim r [
        | resolved id ↦ done (family id)
        | nlmsg_error_seen ↦ done failed
        | family_not_found ↦ done failed
        | keep_reading ↦ genl_resolve_family replies resp'
      ]
      | fault ↦ fault
      | stuck ↦ stuck
    ]

unfoldable pub le32_in : List ℕ → ℕ → WireResult ℕ
unfolding le16_in
le32_in resp i =
    Wire.◌>>=◌ (le16_in resp i)
      λ low. Wire.◌>>=◌ (le16_in resp (i + 2)) λ high. ok (low + high * 65536)

-- What a reply says of a request: it is acknowledged, it has failed with an error number, or
-- nothing yet.
pub data Acknowledged : Type 0 where
  acknowledged : Acknowledged
  refused : ℕ → Acknowledged
  no_answer : Acknowledged

-- The loop of `nl_send_recv` over the messages of one reply. The error number is read as a u32; a
-- read behind the end of the buffer is counted as a panic.
unfoldable pub read_ack : ℕ → List ℕ → ℕ → ℕ → Run Acknowledged
unfolding le32_in to_nlmsghdr
read_ack zero resp byte_len off =
    if leb (off + nlmsghdr_size) byte_len then stuck else done no_answer
read_ack (suc fuel) resp byte_len off = elim (leb (off + nlmsghdr_size) byte_len) [
  | false ↦ done no_answer
  | true ↦
      let nl = to_nlmsghdr (drop off resp) in
      if nl.nlmsg_type == nlmsg_error
      then (if leb (nlmsghdr_size + 4) nl.nlmsg_len
          then (match_read (le32_in resp (off + nlmsghdr_size)) fault
              λ err. if err == 0 then done acknowledged else done (refused err))
          else done acknowledged)
      else (if nl.nlmsg_type == nlmsg_done
          then done acknowledged
          else elim (nlmsg_align nl.nlmsg_len == 0) [
            | true ↦ done no_answer
            | false ↦ read_ack fuel resp byte_len (off + nlmsg_align nl.nlmsg_len)
          ])
]

-- The outcome of a request, over the answers of `recv`.
pub data Sent : Type 0 where
  succeeded : Sent
  send_failed : Sent
  unanswered : Sent

unfoldable pub nl_send_recv : List (Option (List ℕ)) → List ℕ → Run Sent
unfolding read_ack receive_into
nl_send_recv [] resp = done unanswered
nl_send_recv (none ∷ replies) resp = done send_failed
nl_send_recv (some reply ∷ replies) resp =
    let resp' = receive_into resp reply in
    elim (read_ack (length reply) resp' (length reply) 0) [
      | done r ↦ elim r [
        | acknowledged ↦ done succeeded
        | refused err ↦ done send_failed
        | no_answer ↦ nl_send_recv replies resp'
      ]
      | fault ↦ fault
      | stuck ↦ stuck
    ]
