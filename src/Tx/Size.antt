-- ===== src/Tx/Size.antt =====
-- How many bytes the builders of src/awdl/tx.rs write, and that a buffer of that size is enough.
pub mod Tlv
pub mod Frame
use cosmicdrop.Base.{
  ℕ, ◌+◌, ◌-◌, ◌≤◌, ◌≡◌, refl, arith, leb, ltb, if◌then◌else◌, Bool, true, false, Bool-cases, List,
  ◌++◌, length, take, drop, length-append, length-take, length-drop, inl, inr,
}
use cosmicdrop.Tx.{Built, packed, packed_lem, append}
use cosmicdrop.Wire.{WireResult, ok, err, panic, ◌>>=◌, copy_into, splice}
use cosmicdrop.Wire.RoundTrip.{length-splice}

-- A run that leaves a buffer of `size` bytes and answers `n`.
pub record Fits (size n : ℕ) (b : Built) : Type 0 where
  pub out : List ℕ
  pub answers : b ≡ ok (out, n)
  pub same_size : length out ≡ size

-- A builder that writes `n` bytes into any buffer that has room for them.
abbrev pub Writes : (List ℕ → Built) → ℕ → Type 0
Writes f n = (buf : List ℕ) → n ≤ length buf → Fits (length buf) n (f buf)

pub packed-Writes : (bytes : List ℕ) (n : ℕ) → length bytes ≡ n → Writes (λ buf. packed buf bytes) n
packed-Writes bytes n e buf h = record {
  out = bytes ++ drop n buf;
  answers = packed_lem buf bytes n e h;
  same_size = omega (arith, length-append bytes (drop n buf), length-drop n buf);
}

pub copy_into_lem :
    (buf : List ℕ) (at : ℕ) (src : List ℕ)
    → at + length src ≤ length buf
    → copy_into buf at src ≡ ok (splice buf at src)
unfolding copy_into
copy_into_lem buf at src h = ground arith

-- Writing behind what is written already.
pub append-Fits :
    (f : List ℕ → Built) (n : ℕ) (buf : List ℕ) (ptr : ℕ)
    → Writes f n
    → ptr + n ≤ length buf
    → Fits (length buf) (ptr + n) (append f (buf, ptr))
unfolding append
append-Fits f n buf ptr w h =
    let inner = w (drop ptr buf) (omega (arith, length-drop ptr buf)) in
    let inside : leb ptr (length buf) ≡ true = ground arith in
    record {
      out = take ptr buf ++ inner.out;
      answers = rw (inside, inner.answers) refl;
      same_size = omega (
        arith,
        inner.same_size,
        length-append (take ptr buf) inner.out,
        length-take ptr buf,
        length-drop ptr buf,
      );
    }

pub bind-Fits :
    {size n m : ℕ} (b : Built) (k : List ℕ × ℕ → Built)
    → Fits size n b
    → ((buf : List ℕ) → length buf ≡ size → Fits size m (k (buf, n)))
    → Fits size m (b >>= k)
bind-Fits b k first rest =
    let second = rest first.out first.same_size in
    record {
      out = second.out;
      answers = rw first.answers second.answers;
      same_size = second.same_size;
    }

-- One more builder at the end, in a buffer of a known size.
pub then-Fits :
    {size n m : ℕ} (b : Built) (f : List ℕ → Built)
    → Fits size n b
    → Writes f m
    → n + m ≤ size
    → Fits size (n + m) (b >>= append f)
then-Fits {size} {n} {m} b f first w room = bind-Fits b (append f) first λ buf e.
    let r = append-Fits f m buf n w (omega arith) in
    record { out = r.out; answers = r.answers; same_size = omega (arith, r.same_size) }
