-- ===== src/Netlink.antt =====
-- src/awdl/netlink.rs: the messages that go to the kernel, and the reading of its replies. The
-- sockets are the system's: a reply is an input. Numbers in a message are little-endian, as on the
-- supported machines.
pub mod Devices
pub mod Descriptors
pub mod Replies
pub mod Messages
pub mod Ends
pub mod Layout
pub mod Family
mod Tests
use cosmicdrop.Base.{ℕ, ◌+◌, ◌-◌, List, [], ◌∷◌, ◌++◌, length, get_or, drop, bit_and, bit_xor, u64}
use cosmicdrop.Election.{EtherAddr}
use cosmicdrop.Wire.{to_le16, to_le32, from_le16, from_le32, splice}

-- `in6` is the 16 bytes of the address.
unfoldable pub rfc4291_addr : EtherAddr → List ℕ
rfc4291_addr eth =
    0xfe
    ∷ 0x80
    ∷ 0
    ∷ 0
    ∷ 0
    ∷ 0
    ∷ 0
    ∷ 0
    ∷ bit_xor (get_or eth 0 0) 0x02
    ∷ get_or eth 1 0
    ∷ get_or eth 2 0
    ∷ 0xff
    ∷ 0xfe
    ∷ get_or eth 3 0
    ∷ get_or eth 4 0
    ∷ get_or eth 5 0
    ∷ []

pub record Nlmsghdr : Type 0 where
  pub nlmsg_len : ℕ
  pub nlmsg_type : ℕ
  pub nlmsg_flags : ℕ
  pub nlmsg_seq : ℕ
  pub nlmsg_pid : ℕ

pub record Genlmsghdr : Type 0 where
  pub cmd : ℕ
  pub version : ℕ
  pub reserved : ℕ

abbrev pub nlmsg_error : ℕ
nlmsg_error = 2

abbrev pub nlmsg_done : ℕ
nlmsg_done = 3

abbrev pub genl_id_ctrl : ℕ
genl_id_ctrl = 0x10

abbrev pub nlm_f_request : ℕ
nlm_f_request = 0x01

abbrev pub nlm_f_ack : ℕ
nlm_f_ack = 0x04

abbrev pub nlmsg_alignto : ℕ
nlmsg_alignto = 4

abbrev pub nlmsghdr_size : ℕ
nlmsghdr_size = 16

abbrev pub genlmsghdr_size : ℕ
genlmsghdr_size = 4

-- `!(NLMSG_ALIGNTO as usize - 1)` is the complement of 3.
unfoldable pub nlmsg_align : ℕ → ℕ
nlmsg_align len = bit_and (u64 (len + nlmsg_alignto - 1)) 0xfffffffffffffffc

-- The bytes of a header.
unfoldable pub nlmsghdr_bytes : Nlmsghdr → List ℕ
nlmsghdr_bytes nl =
    to_le32 nl.nlmsg_len
    ++ (to_le16 nl.nlmsg_type
        ++ (to_le16 nl.nlmsg_flags ++ (to_le32 nl.nlmsg_seq ++ to_le32 nl.nlmsg_pid)))

unfoldable pub genlmsghdr_bytes : Genlmsghdr → List ℕ
genlmsghdr_bytes genl = genl.cmd ∷ genl.version ∷ to_le16 genl.reserved

-- The fields that the program reads of a header at an offset of a buffer.
unfoldable pub to_nlmsghdr : List ℕ → Nlmsghdr
to_nlmsghdr b = record {
  nlmsg_len = from_le32 (get_or b 0 0) (get_or b 1 0) (get_or b 2 0) (get_or b 3 0);
  nlmsg_type = from_le16 (get_or b 4 0) (get_or b 5 0);
  nlmsg_flags = from_le16 (get_or b 6 0) (get_or b 7 0);
  nlmsg_seq = from_le32 (get_or b 8 0) (get_or b 9 0) (get_or b 10 0) (get_or b 11 0);
  nlmsg_pid = from_le32 (get_or b 12 0) (get_or b 13 0) (get_or b 14 0) (get_or b 15 0);
}

-- The unaligned write of the header, for a buffer that has room for it.
unfoldable pub build_nlmsghdr : List ℕ → ℕ → ℕ → ℕ → List ℕ × ℕ
unfolding nlmsghdr_bytes
build_nlmsghdr hdr msg_type flags seq =
    let nl : Nlmsghdr = record {
      nlmsg_len = nlmsghdr_size + genlmsghdr_size;
      nlmsg_type = msg_type;
      nlmsg_flags = flags;
      nlmsg_seq = seq;
      nlmsg_pid = 0;
    } in
    (splice hdr 0 (nlmsghdr_bytes nl), nlmsghdr_size)
