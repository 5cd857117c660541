-- ===== src/Netlink/Descriptors.antt =====
-- The descriptors that the functions of src/awdl/netlink.rs leave open.
use cosmicdrop.Base.{
  ℕ, ◌==◌, Bool, false, if◌then◌else◌, List, [], ◌∷◌, ◌++◌, Option, none, some, ◌≡◌, refl, arith,
}
use cosmicdrop.Base.Int.{ℤ}
use cosmicdrop.Election.{EtherAddr}
use cosmicdrop.Io.{Answer, value, failing, has_zero}
use cosmicdrop.Netlink.Devices.{
  FdEffect, opened, closed, set_address, set_flags, set_mtu, TunSystem, open_tun, with_tun,
  with_name, with_control, NlSystem, nl_socket, set_monitor_mode, set_channel, if_message,
  with_socket, neighbor_add_rfc4291, Request, with_route, message_or_err,
}
use cosmicdrop.Netlink.Messages.{
  set_monitor_mode_message, set_channel_message, neighbor_add_rfc4291_message,
}
use cosmicdrop.Wire.{WireResult, ok, err, panic}

-- The open descriptors after an effect; closing removes the first with the number.
unfoldable pub close : ℕ → List ℕ → List ℕ
close fd [] = []
close fd (d ∷ fds) = let rest = close fd fds in if d == fd then fds else d ∷ rest

unfoldable pub left_open : List ℕ → List FdEffect → List ℕ
left_open fds [] = fds
left_open fds (opened fd ∷ effects) = left_open (fds ++ (fd ∷ [])) effects
left_open fds (closed fd ∷ effects) = left_open (close fd fds) effects
left_open fds (set_address name addr ∷ effects) = left_open fds effects
left_open fds (set_flags name flags ∷ effects) = left_open fds effects
left_open fds (set_mtu name mtu ∷ effects) = left_open fds effects

-- The result alone stays open.
abbrev pub only : WireResult ℕ → List ℕ
only (ok fd) = fd ∷ []
only err = []
only panic = []

with_control-only :
    (sys : TunSystem) (name : List ℕ) (self_addr : EtherAddr) (fd : ℕ) (a : Answer)
    → left_open [] (with_control sys name self_addr fd a).1
      ≡ only (with_control sys name self_addr fd a).0
unfolding left_open close with_control
with_control-only sys name self_addr fd (failing b) = ground arith
with_control-only sys name self_addr fd (value ctl) = ground arith

with_name-only :
    (sys : TunSystem) (self_addr : EtherAddr) (fd : ℕ) (name : Option (List ℕ))
    → left_open [] (with_name sys self_addr fd name).1 ≡ only (with_name sys self_addr fd name).0
unfolding left_open close with_name
with_name-only sys self_addr fd none = ground arith
with_name-only sys self_addr fd (some name) =
    ground (arith, with_control-only sys name self_addr fd sys.control)

with_tun-only :
    (sys : TunSystem) (dev : List ℕ) (self_addr : EtherAddr) (a : Answer)
    → has_zero dev ≡ false
    → left_open [] (with_tun sys dev self_addr a).1 ≡ only (with_tun sys dev self_addr a).0
unfolding left_open with_tun
with_tun-only sys dev self_addr (failing b) h = refl
with_tun-only sys dev self_addr (value fd) h =
    ground (arith, with_name-only sys self_addr fd sys.set_iff)

-- The socket of a request whose family is not resolved.
abbrev unresolved_by : Bool → WireResult ℕ → Answer → List ℕ
unresolved_by bound (ok id) a = []
unresolved_by bound family (failing b) = []
unresolved_by bound family (value fd) = if bound then fd ∷ [] else []

abbrev pub unresolved : NlSystem → List ℕ
unresolved sys = unresolved_by sys.bind_ok sys.family sys.socket

with_socket-unresolved :
    (sys : NlSystem) (message : ℕ → WireResult (List ℕ))
    → left_open [] (with_socket sys message (nl_socket sys sys.socket)).1 ≡ unresolved sys
unfolding left_open close nl_socket
with_socket-unresolved sys message = ground arith

with_route-nil :
    (sys : NlSystem) (message : WireResult (List ℕ))
    → left_open [] (with_route sys message (nl_socket sys sys.socket)).1 ≡ []
unfolding left_open close nl_socket
with_route-nil sys message = ground arith

abbrev pub if_frequency : Option (WireResult (List ℕ)) → List ℕ → List ℕ
if_frequency none fds = []
if_frequency (some message) fds = fds

if_message-left :
    (m : Option (WireResult (List ℕ))) (r : Request) (fds : List ℕ)
    → left_open [] r.1 ≡ fds
    → left_open [] (if_message m r).1 ≡ if_frequency m fds
unfolding left_open
if_message-left none r fds h = refl
if_message-left (some message) r fds h = h

-- Whatever the system calls answer: `open_tun` leaves open the descriptor that it returns, and none on
-- an error, if the name of the device has no zero byte. Adding a neighbour leaves none open, and so
-- do setting monitor mode and a channel where the family is resolved; where it is not, the bound
-- socket stays open. A channel without a frequency opens none.
pub descriptors_lem :
    (tun : TunSystem) (dev : List ℕ) (addr : EtherAddr) (sys : NlSystem) (ifindex : ℕ) (channel : ℤ)
    → has_zero dev ≡ false
    → (left_open [] (open_tun tun dev addr).1 ≡ only (open_tun tun dev addr).0)
      × (left_open [] (neighbor_add_rfc4291 sys ifindex addr).1 ≡ [])
      × (left_open [] (set_monitor_mode sys ifindex).1 ≡ unresolved sys)
      × (left_open [] (set_channel sys ifindex channel).1
          ≡ if_frequency (set_channel_message 0 ifindex channel) (unresolved sys))
unfolding open_tun neighbor_add_rfc4291 set_monitor_mode set_channel
descriptors_lem tun dev addr sys ifindex channel h = (
  with_tun-only tun dev addr tun.tun h,
  with_route-nil sys (neighbor_add_rfc4291_message ifindex addr),
  with_socket-unresolved sys (λ id. set_monitor_mode_message id ifindex),
  if_message-left (set_channel_message 0 ifindex channel)
      (with_socket sys (λ id. message_or_err (set_channel_message id ifindex channel))
        (nl_socket sys sys.socket))
      (unresolved sys)
      (with_socket-unresolved sys (λ id. message_or_err (set_channel_message id ifindex channel))),
)
