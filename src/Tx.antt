-- ===== src/Tx.antt =====
-- src/awdl/tx.rs: what a node writes into a buffer. A builder takes the rest of the buffer from the
-- place where it writes, and answers that rest afterwards and the number that it returns.
pub mod Tlv
pub mod Frames
pub mod Election
pub mod Data
pub mod Version
pub mod Size
mod Tests
use cosmicdrop.Base.{
  ℕ, ◌+◌, ◌-◌, ◌≤◌, ◌≡◌, arith, leb, if◌then◌else◌, Bool, List, ◌++◌, length, take, drop,
}
use cosmicdrop.Frame.{write_packed}
use cosmicdrop.Wire.{WireResult, ok, panic, ◌>>=◌}

abbrev pub Built : Type 0
Built = WireResult (List ℕ × ℕ)

-- `if !write_packed(buf, 0, &v) { return 0; }` and the size of `v`, of which `bytes` are the bytes.
unfoldable pub packed : List ℕ → List ℕ → Built
unfolding write_packed
packed buf bytes =
    let written = write_packed buf bytes in ok (written.0, if written.1 then length bytes else 0)

-- `ptr += f(&mut buf[ptr..])`: the buffer and the new `ptr`.
unfoldable pub append : (List ℕ → Built) → List ℕ × ℕ → Built
append f (buf, ptr) =
    if leb ptr (length buf)
    then (do (rest, n) ← f (drop ptr buf); ok (take ptr buf ++ rest, ptr + n))
    else panic

pub packed_lem :
    (buf bytes : List ℕ) (n : ℕ)
    → length bytes ≡ n
    → n ≤ length buf
    → packed buf bytes ≡ ok (bytes ++ drop n buf, n)
unfolding packed write_packed
packed_lem buf bytes n e h = ground arith
