-- ===== src/Netlink/Devices.antt =====
-- The descriptors of src/awdl/netlink.rs: the virtual interface, the sockets of the netlink requests
-- and the flags of an interface. What the system calls answer is an argument; what is opened, closed
-- and changed is a list of effects.
use cosmicdrop.Base.{
  ℕ, Bool, true, false, if◌then◌else◌, ◌==◌, List, [], ◌∷◌, ◌++◌, Option, none, some, bit_or,
  bit_and,
}
use cosmicdrop.Base.Int.{ℤ}
use cosmicdrop.Election.{EtherAddr}
use cosmicdrop.Io.{Answer, value, failing, has_zero}
use cosmicdrop.Netlink.Messages.{
  set_monitor_mode_message, set_channel_message, neighbor_add_rfc4291_message,
}
use cosmicdrop.Wire.{WireResult, ok, err, panic}

pub data FdEffect : Type 0 where
  opened : ℕ → FdEffect
  closed : ℕ → FdEffect
  set_address : List ℕ → EtherAddr → FdEffect
  set_flags : List ℕ → ℕ → FdEffect
  set_mtu : List ℕ → ℕ → FdEffect

-- The answers to the calls of `open_tun`: descriptors, the name that the kernel gives, and which of
-- the later calls succeed.
pub record TunSystem : Type 0 where
  pub tun : Answer
  pub set_iff : Option (List ℕ)
  pub nonblocking_ok : Bool
  pub control : Answer
  pub address_ok : Bool
  pub flags_before : ℕ
  pub flags_ok : Bool
  pub mtu_ok : Bool

abbrev pub Opening : Type 0
Opening = WireResult ℕ × List FdEffect

abbrev pub tun_mtu : ℕ
tun_mtu = 1450

-- The bytes of the name before the first zero.
unfoldable pub until_zero : List ℕ → List ℕ
until_zero [] = []
until_zero (c ∷ cs) = let rest = until_zero cs in if c == 0 then [] else c ∷ rest

-- `IFF_UP | IFF_RUNNING`.
abbrev pub up_and_running : ℕ
up_and_running = 0x41

unfoldable pub with_control : TunSystem → List ℕ → EtherAddr → ℕ → Answer → Opening
with_control sys name self_addr fd (failing b) = (err, opened fd ∷ closed fd ∷ [])
with_control sys name self_addr fd (value ctl) =
    let address = set_address name self_addr in
    let flags = set_flags name (bit_or sys.flags_before up_and_running) in
    if sys.address_ok
    then (if sys.flags_ok
        then (if sys.mtu_ok
            then (
              ok fd,
              opened fd
                  ∷ opened ctl
                  ∷ address
                  ∷ flags
                  ∷ set_mtu (until_zero name) tun_mtu
                  ∷ closed ctl
                  ∷ [],
            )
            else (err, opened fd ∷ opened ctl ∷ address ∷ flags ∷ closed ctl ∷ closed fd ∷ []))
        else (err, opened fd ∷ opened ctl ∷ address ∷ closed ctl ∷ closed fd ∷ []))
    else (err, opened fd ∷ opened ctl ∷ closed ctl ∷ closed fd ∷ [])

unfoldable pub with_name : TunSystem → EtherAddr → ℕ → Option (List ℕ) → Opening
unfolding with_control
with_name sys self_addr fd none = (err, opened fd ∷ closed fd ∷ [])
with_name sys self_addr fd (some name) =
    if sys.nonblocking_ok
    then with_control sys name self_addr fd sys.control
    else (err, opened fd ∷ closed fd ∷ [])

-- A name with a zero byte returns with the descriptor open.
unfoldable pub with_tun : TunSystem → List ℕ → EtherAddr → Answer → Opening
unfolding with_name
with_tun sys dev self_addr (failing b) = (err, [])
with_tun sys dev self_addr (value fd) =
    if has_zero dev then (err, opened fd ∷ []) else with_name sys self_addr fd sys.set_iff

unfoldable pub open_tun : TunSystem → List ℕ → EtherAddr → Opening
unfolding with_tun
open_tun sys dev self_addr = with_tun sys dev self_addr sys.tun

-- The answers to the calls of a netlink request: the socket, whether it is bound, the id of the
-- family, and the result of sending a message.
pub record NlSystem : Type 0 where
  pub socket : Answer
  pub bind_ok : Bool
  pub family : WireResult ℕ
  pub send_recv : List ℕ → WireResult (Unit {0})

-- `nl_socket`, with its effects.
unfoldable pub nl_socket : NlSystem → Answer → Opening
nl_socket sys (failing b) = (err, [])
nl_socket sys (value fd) =
    if sys.bind_ok then (ok fd, opened fd ∷ []) else (err, opened fd ∷ closed fd ∷ [])

abbrev pub Request : Type 0
Request = WireResult (Unit {0}) × List FdEffect

abbrev pub send_message : NlSystem → WireResult (List ℕ) → WireResult (Unit {0})
send_message sys (ok msg) = sys.send_recv msg
send_message sys err = err
send_message sys panic = panic

-- From the id of the family on: without it the socket stays open.
abbrev pub with_family : NlSystem → (ℕ → WireResult (List ℕ)) → ℕ → WireResult ℕ → Request
with_family sys message fd (ok id) = (send_message sys (message id), closed fd ∷ [])
with_family sys message fd err = (err, [])
with_family sys message fd panic = (panic, [])

abbrev pub with_socket : NlSystem → (ℕ → WireResult (List ℕ)) → Opening → Request
with_socket sys message (ok fd, effects) = (
  (with_family sys message fd sys.family).0,
  effects ++ (with_family sys message fd sys.family).1,
)
with_socket sys message (_, effects) = (err, effects)

unfoldable pub set_monitor_mode : NlSystem → ℕ → Request
unfolding nl_socket
set_monitor_mode sys ifindex =
    with_socket sys (λ id. set_monitor_mode_message id ifindex) (nl_socket sys sys.socket)

abbrev pub message_or_err : Option (WireResult (List ℕ)) → WireResult (List ℕ)
message_or_err none = err
message_or_err (some message) = message

abbrev pub if_message : Option (WireResult (List ℕ)) → Request → Request
if_message none request = (err, [])
if_message (some message) request = request

-- The frequency is tested first; it does not depend on the id.
unfoldable pub set_channel : NlSystem → ℕ → ℤ → Request
unfolding nl_socket
set_channel sys ifindex channel = if_message (set_channel_message 0 ifindex channel) (
    with_socket sys (λ id. message_or_err (set_channel_message id ifindex channel))
      (nl_socket sys sys.socket))

-- The request of a neighbour resolves no family.
abbrev pub with_route : NlSystem → WireResult (List ℕ) → Opening → Request
with_route sys message (ok fd, effects) = (send_message sys message, effects ++ (closed fd ∷ []))
with_route sys message (_, effects) = (err, effects)

unfoldable pub neighbor_add_rfc4291 : NlSystem → ℕ → EtherAddr → Request
unfolding nl_socket
neighbor_add_rfc4291 sys ifindex eth =
    with_route sys (neighbor_add_rfc4291_message ifindex eth) (nl_socket sys sys.socket)

-- The answers to the calls of `link_updown`; `name` is the buffer that `if_indextoname` fills.
pub record LinkSystem : Type 0 where
  pub socket : Answer
  pub name : Option (List ℕ)
  pub flags_before : ℕ
  pub set_ok : Bool

-- `flags & !IFF_UP` on 16 bits.
abbrev pub new_flags : Bool → ℕ → ℕ
new_flags true flags = bit_or flags 1
new_flags false flags = bit_and flags 0xfffe

-- Without a name the socket stays open.
abbrev pub with_link : LinkSystem → Bool → ℕ → Option (List ℕ) → Request
with_link sys up ctl none = (err, opened ctl ∷ [])
with_link sys up ctl (some buf) =
    if sys.set_ok
    then (
      ok tt,
      opened ctl ∷ set_flags (until_zero buf) (new_flags up sys.flags_before) ∷ closed ctl ∷ [],
    )
    else (err, opened ctl ∷ closed ctl ∷ [])

abbrev pub on_control : LinkSystem → Bool → Answer → Request
on_control sys up (failing b) = (err, [])
on_control sys up (value ctl) = with_link sys up ctl sys.name

unfoldable pub link_updown : LinkSystem → Bool → Request
link_updown sys up = on_control sys up sys.socket
