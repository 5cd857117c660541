-- ===== src/Netlink/Messages.antt =====
-- The messages that src/awdl/netlink.rs builds.
use cosmicdrop.Base.{
  ℕ, ◌+◌, ◌-◌, leb, if◌then◌else◌, Option, none, some, List, [], ◌∷◌, ◌++◌, length, u32, bit_or,
}
use cosmicdrop.Base.Int.{ℤ, pos, negsuc, eq_ℤ}
use cosmicdrop.Channel.{ieee80211_channel_to_frequency}
use cosmicdrop.Election.{EtherAddr}
use cosmicdrop.Netlink.{
  genlmsghdr_bytes, build_nlmsghdr, rfc4291_addr, nlm_f_request, nlm_f_ack, genl_id_ctrl,
  genlmsghdr_size,
}
use cosmicdrop.Wire.{zeroed, WireResult, ok, ◌>>=◌, to_le16, to_le32, slice, splice, copy_into}

-- A buffer and the bytes of it that are written.
abbrev pub Message : Type 0
Message = WireResult (List ℕ × ℕ)

-- The unaligned write of a generic header behind the first one.
unfoldable pub put_genlmsghdr : ℕ → List ℕ × ℕ → List ℕ × ℕ
unfolding genlmsghdr_bytes
put_genlmsghdr cmd (msg, len) = (
  splice msg len (genlmsghdr_bytes (record { cmd = cmd; version = 1; reserved = 0 })),
  len + genlmsghdr_size,
)

-- Four bytes of the length and the type of an attribute, and its payload.
unfoldable pub put_attr : ℕ → List ℕ → List ℕ × ℕ → Message
put_attr attr_type payload (msg, len) = do
  let attr_len = 4 + length payload
  head ← copy_into msg len (to_le16 attr_len ++ to_le16 attr_type)
  whole ← copy_into head (len + 4) payload
  ok (whole, len + 4 + length payload)

-- The length of the message in its header, and the bytes `&msg[..len]` that are sent.
unfoldable pub set_nlmsg_len : List ℕ × ℕ → WireResult (List ℕ)
set_nlmsg_len (msg, len) = slice (splice msg 0 (to_le32 len)) 0 len

-- `vec![0u8; 4096]` with both headers.
unfoldable pub begin_message : ℕ → ℕ → ℕ → ℕ → List ℕ × ℕ
unfolding build_nlmsghdr put_genlmsghdr
begin_message msg_type flags seq cmd =
    put_genlmsghdr cmd (build_nlmsghdr (zeroed 4096) msg_type flags seq)

-- An attribute is left out if it does not fit.
unfoldable pub family_request : List ℕ → WireResult (List ℕ)
unfolding begin_message put_attr set_nlmsg_len
family_request name =
    let (msg, len) = begin_message genl_id_ctrl nlm_f_request 1 3 in
    if leb (len + (4 + length name) + 4) (length msg)
    then put_attr 2 name (msg, len) >>= set_nlmsg_len
    else set_nlmsg_len (msg, len)

-- `ifindex` is given as a u32.
unfoldable pub set_monitor_mode_message : ℕ → ℕ → WireResult (List ℕ)
unfolding begin_message put_attr set_nlmsg_len
set_monitor_mode_message id ifindex = do
  m1 ← put_attr 3 (to_le32 ifindex) (begin_message id (bit_or nlm_f_request nlm_f_ack) 2 18)
  m2 ← put_attr 10 (to_le32 6) m1
  set_nlmsg_len m2

-- `freq as u32` for a frequency that is positive.
unfoldable pub as_u32 : ℤ → ℕ
as_u32 (pos n) = u32 n
as_u32 (negsuc n) = 0xffffffff - u32 n

-- `none` is the error for a channel without a frequency.
unfoldable pub set_channel_message : ℕ → ℕ → ℤ → Option (WireResult (List ℕ))
unfolding begin_message put_attr set_nlmsg_len as_u32
set_channel_message id ifindex channel =
    let freq = ieee80211_channel_to_frequency channel in
    if eq_ℤ freq (pos 0)
    then none
    else some (do
      m1 ← put_attr 3 (to_le32 ifindex) (begin_message id (bit_or nlm_f_request nlm_f_ack) 3 32)
      m2 ← put_attr 38 (to_le32 (as_u32 freq)) m1
      m3 ← put_attr 39 (to_le32 2) m2
      set_nlmsg_len m3)

-- The fixed fields of the neighbour message behind its header: family, index, state.
unfoldable pub neighbor_fields : ℕ → List ℕ
neighbor_fields ifindex = 10 ∷ 0 ∷ 0 ∷ 0 ∷ (to_le32 ifindex ++ (to_le16 0x80 ++ (0 ∷ 0 ∷ [])))

unfoldable pub neighbor_add_message : ℕ → EtherAddr → List ℕ → WireResult (List ℕ)
unfolding build_nlmsghdr put_attr set_nlmsg_len neighbor_fields
neighbor_add_message ifindex eth in6 = do
  let (msg, len) =
      build_nlmsghdr (zeroed 4096) 28 (bit_or (bit_or nlm_f_request nlm_f_ack) 0x0400) 4
  fixed ← copy_into msg len (neighbor_fields ifindex)
  m1 ← put_attr 1 in6 (fixed, len + 12)
  m2 ← put_attr 2 eth m1
  set_nlmsg_len m2

unfoldable pub neighbor_add_rfc4291_message : ℕ → EtherAddr → WireResult (List ℕ)
unfolding neighbor_add_message rfc4291_addr
neighbor_add_rfc4291_message ifindex eth = neighbor_add_message ifindex eth (rfc4291_addr eth)
