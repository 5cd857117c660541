-- ===== src/Io.antt =====
-- src/awdl/io.rs: raw frames on a packet socket. What the system calls answer is the record
-- `IoSystem`; what the program does to descriptors is a list of effects.
use cosmicdrop.Base.{
  ℕ, ltb, ◌==◌, Bool, false, ◌||◌, if◌then◌else◌, List, [], ◌∷◌, Option, none, some, length, take,
  ◌++◌, bit_or,
}
use cosmicdrop.Wire.{WireResult, ok, err}

-- What a system call answers: a value, or an error, by whether it says that the call would block.
pub data Answer : Type 0 where
  value : ℕ → Answer
  failing : Bool → Answer

pub record IoState : Type 0 where
  pub sock : ℕ
  pub ifindex : ℕ
  pub ifname : List ℕ
  pub if_ether_addr : List ℕ

pub record IoSystem : Type 0 where
  pub packet_socket : Answer
  pub inet_socket : Answer
  pub get_flags : Answer
  pub set_flags : ℕ → Answer
  pub if_nametoindex : List ℕ → ℕ
  pub hardware_address : List ℕ → Option (List ℕ)

pub data IoEffect : Type 0 where
  set_nonblocking : ℕ → ℕ → IoEffect
  closed : ℕ → IoEffect

-- `CString::new`: no text with a zero byte.
unfoldable pub has_zero : List ℕ → Bool
has_zero [] = false
has_zero (c ∷ cs) = c == 0 || has_zero cs

unfoldable pub get_ifindex : IoSystem → List ℕ → WireResult ℕ
get_ifindex sys ifname =
    if has_zero ifname
    then err
    else (if sys.if_nametoindex ifname == 0 then err else ok (sys.if_nametoindex ifname))

abbrev pub address_of : Option (List ℕ) → WireResult (List ℕ)
address_of none = err
address_of (some sa_data) = ok (take 6 sa_data)

-- A name with a zero byte returns before the descriptor is closed.
abbrev pub ether_addr_with : IoSystem → List ℕ → Answer → WireResult (List ℕ) × List IoEffect
ether_addr_with sys ifname (failing b) = (err, [])
ether_addr_with sys ifname (value fd) =
    if has_zero ifname
    then (err, [])
    else (address_of (sys.hardware_address ifname), closed fd ∷ [])

unfoldable pub get_ether_addr : IoSystem → List ℕ → WireResult (List ℕ) × List IoEffect
get_ether_addr sys ifname = ether_addr_with sys ifname sys.inet_socket

-- `flags | O_NONBLOCK`.
abbrev pub o_nonblock : ℕ
o_nonblock = 2048

abbrev pub nonblocking : ℕ → Answer → List IoEffect
nonblocking fd (failing b) = []
nonblocking fd (value flags) = set_nonblocking fd (bit_or flags o_nonblock) ∷ []

abbrev pub opened : IoSystem → List ℕ → ℕ → List ℕ → Answer → WireResult IoState × List IoEffect
opened sys ifname ifindex addr (failing b) = (err, [])
opened sys ifname ifindex addr (value fd) = (
  ok (record { sock = fd; ifindex = ifindex; ifname = ifname; if_ether_addr = addr }),
  nonblocking fd sys.get_flags,
)

abbrev pub open_with :
    IoSystem → List ℕ → ℕ → WireResult (List ℕ) → WireResult IoState × List IoEffect
open_with sys ifname ifindex (ok addr) = opened sys ifname ifindex addr sys.packet_socket
open_with sys ifname ifindex _ = (err, [])

-- `IoState::open`; the effects are those of both helpers, in their order.
abbrev pub open_at : IoSystem → List ℕ → WireResult ℕ → WireResult IoState × List IoEffect
open_at sys ifname (ok ifindex) =
    let addr = get_ether_addr sys ifname in
    let state = open_with sys ifname ifindex addr.0 in (state.0, addr.1 ++ state.1)
open_at sys ifname _ = (err, [])

unfoldable pub open_io : IoSystem → List ℕ → WireResult IoState × List IoEffect
open_io sys ifname = open_at sys ifname (get_ifindex sys ifname)

-- `wlan_send`, from the answer of `sendto`: an error, also for a short write.
unfoldable pub wlan_send : List ℕ → Answer → WireResult (Unit {0})
wlan_send buf (failing would_block) = err
wlan_send buf (value n) = if ltb n (length buf) then err else ok tt

-- `wlan_recv`, from the answer of `recvfrom` and what it leaves in the buffer of 65536 bytes.
unfoldable pub wlan_recv : List ℕ → Answer → WireResult (Option (List ℕ))
wlan_recv buf (failing would_block) = if would_block then ok none else err
wlan_recv buf (value n) = ok (some (take n buf))

-- `fd_nonblocking`.
abbrev pub set_answer : Answer → WireResult (Unit {0})
set_answer (failing b) = err
set_answer (value n) = ok tt

unfoldable pub fd_nonblocking : IoSystem → Answer → WireResult (Unit {0})
fd_nonblocking sys (failing b) = err
fd_nonblocking sys (value flags) = set_answer (sys.set_flags (bit_or flags o_nonblock))

-- `Drop`.
unfoldable pub drop_io : IoState → List IoEffect
drop_io self = closed self.sock ∷ []
