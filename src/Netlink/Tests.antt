-- ===== src/Netlink/Tests.antt =====
-- Messages and replies of src/awdl/netlink.rs at small inputs.
use cosmicdrop.Base.{
  true, false, ℕ, zero, suc, ◌+◌, ◌<◌, ◌≤◌, ◌≡◌, ◌≢◌, refl, arith, none, some, List, [], ◌∷◌, ◌++◌,
  length, replicate, if◌then◌else◌, ◌==◌, u32,
}
use cosmicdrop.Base.Int.{pos}
use cosmicdrop.Channel.{ieee80211_channel_to_frequency}
use cosmicdrop.Election.{EtherAddr}
use cosmicdrop.Netlink.{nlmsg_align, rfc4291_addr}
use cosmicdrop.Io.{value, has_zero}
use cosmicdrop.Netlink.Descriptors.{descriptors_lem, left_open, only, unresolved, if_frequency}
use cosmicdrop.Netlink.Devices.{
  NlSystem, TunSystem, open_tun, neighbor_add_rfc4291, set_monitor_mode, set_channel,
}
use cosmicdrop.Netlink.Ends.{IsBytes, replies_ne_stuck}
use cosmicdrop.Netlink.Family.{rfc4291_addr_injective, find_family_id_lem, padded, others}
use cosmicdrop.Netlink.Layout.{messages_lem, headers, attribute}
use cosmicdrop.Netlink.Messages.{set_channel_message, set_monitor_mode_message}
use cosmicdrop.Netlink.Replies.{find_family_id, genl_resolve_family, nl_send_recv}
use cosmicdrop.Rx.{done, stuck}
use cosmicdrop.Wire.{ok, err, to_le16, to_le32}

abbrev mac : EtherAddr
mac = 2 ∷ 0 ∷ 0 ∷ 0 ∷ 0 ∷ 1 ∷ []

local_address :
    rfc4291_addr mac
    ≡ 0xfe ∷ 0x80 ∷ 0 ∷ 0 ∷ 0 ∷ 0 ∷ 0 ∷ 0 ∷ 0 ∷ 0 ∷ 0 ∷ 0xff ∷ 0xfe ∷ 0 ∷ 0 ∷ 1 ∷ []
unfolding rfc4291_addr
local_address = refl

rfc4291_addr_injective_example : mac ≡ mac
rfc4291_addr_injective_example = rfc4291_addr_injective mac mac refl refl refl

channel_6 : ieee80211_channel_to_frequency (pos 6) ≡ pos 2437
unfolding ieee80211_channel_to_frequency cosmicdrop.Base.Int.◌+ℤ◌ cosmicdrop.Base.Int.◌*ℤ◌
channel_6 = refl

messages_lem_example :
    (set_monitor_mode_message 28 3
      ≡ ok (headers 36 28 5 2 18 ++ (attribute 3 (to_le32 3) ++ attribute 10 (to_le32 6))))
    × (set_channel_message 28 3 (pos 6) ≡ (
        if 2437 == 0
        then none
        else some (
            ok (
              headers 44 28 5 3 32
              ++ (attribute 3 (to_le32 3)
                  ++ (attribute 38 (to_le32 (u32 2437)) ++ attribute 39 (to_le32 2)))))))
messages_lem_example = messages_lem 28 3 (pos 6) 2437 channel_6

-- The name of the family and an attribute of three bytes before its id.
abbrev before_id : List (ℕ × List ℕ)
before_id = (2, b'n' ∷ b'l' ∷ 0 ∷ []) ∷ (3, 1 ∷ 0 ∷ 0 ∷ 0 ∷ []) ∷ []

abbrev front : List ℕ
front = replicate 20 0

enough_room : length front + length (others before_id) + 8 ≤ 44
unfolding others padded attribute nlmsg_align
enough_room = omega arith

find_family_id_lem_example :
    find_family_id 40 (front ++ (others before_id ++ (padded 1 (to_le16 28) ++ []))) 20 44
    ≡ done (some 28)
find_family_id_lem_example =
    find_family_id_lem before_id 28 40 44 front []
      (
        (λ e. omega arith),
        omega arith,
        omega arith,
        ((λ e. omega arith), omega arith, omega arith, tt),
      )
      (omega arith) (omega arith) enough_room

abbrev buffer : List ℕ
buffer = replicate 64 0

zeros-IsBytes : (n : ℕ) → IsBytes (replicate n 0)
zeros-IsBytes zero = tt
zeros-IsBytes (suc n) = (omega arith, zeros-IsBytes n)

replies_ne_stuck_example :
    (genl_resolve_family (some (1 ∷ 2 ∷ []) ∷ none ∷ []) buffer ≢ stuck)
    × (nl_send_recv (some (1 ∷ 2 ∷ []) ∷ none ∷ []) buffer ≢ stuck)
replies_ne_stuck_example =
    replies_ne_stuck (some (1 ∷ 2 ∷ []) ∷ none ∷ []) buffer ((omega arith, (omega arith, tt)), tt)
      (zeros-IsBytes 64) (omega arith)

-- The family is not resolved: the socket 7 stays open.
abbrev no_family : NlSystem
no_family = record { socket = value 7; bind_ok = true; family = err; send_recv = λ msg. ok tt }

abbrev no_mtu : TunSystem
no_mtu = record {
  tun = value 3;
  set_iff = some (b'a' ∷ b'w' ∷ 0 ∷ []);
  nonblocking_ok = true;
  control = value 4;
  address_ok = true;
  flags_before = 0;
  flags_ok = true;
  mtu_ok = false;
}

socket_left : unresolved no_family ≡ 7 ∷ []
socket_left = refl

descriptors_lem_example :
    (left_open [] (open_tun no_mtu (b'a' ∷ b'w' ∷ []) mac).1
      ≡ only (open_tun no_mtu (b'a' ∷ b'w' ∷ []) mac).0)
    × (left_open [] (neighbor_add_rfc4291 no_family 28 mac).1 ≡ [])
    × (left_open [] (set_monitor_mode no_family 28).1 ≡ unresolved no_family)
    × (left_open [] (set_channel no_family 28 (pos 6)).1
        ≡ if_frequency (set_channel_message 0 28 (pos 6)) (unresolved no_family))
unfolding has_zero
descriptors_lem_example = descriptors_lem no_mtu (b'a' ∷ b'w' ∷ []) mac no_family 28 (pos 6) refl
