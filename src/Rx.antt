-- ===== src/Rx.antt =====
-- src/awdl/rx.rs: results of reception, and the steps that every part of the receiver is made of.
pub mod Radiotap
pub mod Tlv
pub mod Action
pub mod Llc
pub mod Ethernet
pub mod Entry
pub mod Safety
pub mod Forwarding
mod Tests
use cosmicdrop.Base.{ℕ, ◌+◌, leb, if◌then◌else◌, Bool, List, length, drop}
use cosmicdrop.Base.Int.{ℤ, pos, negsuc}
use cosmicdrop.State.{AwdlState}
use cosmicdrop.Wire.{WireResult, ok, err, panic}

pub data RxResult : Type 0 where
  ignore_peer ignore_rssi ignore_failed_crc ignore_no_promisc ignore_from_self ignore : RxResult
  rx_ok unexpected_format unexpected_type unexpected_value : RxResult

-- The discriminants, by which the derived order compares.
unfoldable pub discriminant : RxResult → ℤ
discriminant RxResult.ignore_peer = pos 6
discriminant RxResult.ignore_rssi = pos 5
discriminant RxResult.ignore_failed_crc = pos 4
discriminant RxResult.ignore_no_promisc = pos 3
discriminant RxResult.ignore_from_self = pos 2
discriminant RxResult.ignore = pos 1
discriminant RxResult.rx_ok = pos 0
discriminant RxResult.unexpected_format = negsuc 0
discriminant RxResult.unexpected_type = negsuc 1
discriminant RxResult.unexpected_value = negsuc 2

-- A run of a function: it returns, it panics, or a loop of the model has used up its fuel.
pub data Run {ℓ} (A : Type ℓ) : Type ℓ where
  done : A → Run A
  fault : Run A
  stuck : Run A

infixl 5 ◌>>=◌
abbrev pub ◌>>=◌ {ℓ κ} : {A : Type ℓ} {B : Type κ} → Run A → (A → Run B) → Run B
done a >>= f = f a
fault >>= f = fault
stuck >>= f = stuck

-- `match read { Ok(v) => ..v.., Err(_) => on_err }`.
abbrev pub match_read {ℓ κ} : {A : Type ℓ} {B : Type κ} → WireResult A → Run B → (A → Run B) → Run B
match_read (WireResult.ok v) on_err f = f v
match_read WireResult.err on_err f = on_err
match_read WireResult.panic on_err f = fault

-- `frame.drain(..n)`.
unfoldable pub drain : ℕ → List ℕ → WireResult (List ℕ)
drain n frame = if leb n (length frame) then ok (drop n frame) else panic
