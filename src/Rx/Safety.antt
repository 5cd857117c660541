-- ===== src/Rx/Safety.antt =====
-- Reception in src/awdl/rx.rs never panics, and keeps the state well-formed: the invariant, and
-- rules for the steps that the handlers are made of.
pub mod Handlers
pub mod Frames
pub mod Data
pub mod Radio
pub mod Whole
use cosmicdrop.Base.{
  ℕ, ◌≡◌, ◌≢◌, refl, ◌∙◌, sym, arith, Bool, true, false, List, [], ◌∷◌, Option, none, some,
  if◌then◌else◌, length, drop, ◌≤◌,
}
use cosmicdrop.Election.{EtherAddr, AwdlElectionState}
use cosmicdrop.Peers.{AwdlPeer, peer_get_mut}
use cosmicdrop.Peers.Keys.{IsWellKeyed, KeepsAddrs, peer_get_mut-IsWellKeyed}
use cosmicdrop.Rx.{Run, done, fault, stuck, match_read, drain, ◌>>=◌}
use cosmicdrop.Rx.Tlv.{write_peer, write_election}
use cosmicdrop.State.{AwdlState}
use cosmicdrop.Sync.Timing.{IsTimed}
use cosmicdrop.Wire
use cosmicdrop.Wire.{WireResult, ok, err, panic}

-- The invariant of a node: its timing has positive periods, and its peer table is keyed.
pub record IsValid (s : AwdlState) : Type 0 where
  pub timed : IsTimed s.sync
  pub keyed : IsWellKeyed s.peers

-- The name of a node, where its frames go, and its two intervals.
abbrev pub identity : AwdlState → List ℕ × EtherAddr × ℕ × ℕ
identity s = (s.name, s.dst, s.psf_interval, s.peers.clean_interval)

-- A later state: valid, and with the same address, election state, channels, sequence number and
-- identity.
pub record IsNext (s s' : AwdlState) : Type 0 where
  pub valid : IsValid s'
  pub same_address : s'.self_address ≡ s.self_address
  pub same_election : s'.election ≡ s.election
  pub same_channel : s'.channel ≡ s.channel
  pub same_sequence : s'.sequence_number ≡ s.sequence_number
  pub same_identity : identity s' ≡ identity s

pub IsNext-refl : {s : AwdlState} → IsValid s → IsNext s s
IsNext-refl v = record {
  valid = v;
  same_address = refl;
  same_election = refl;
  same_channel = refl;
  same_sequence = refl;
  same_identity = refl;
}

pub IsNext-trans : {s t u : AwdlState} → IsNext s t → IsNext t u → IsNext s u
IsNext-trans a b = record {
  valid = b.valid;
  same_address = b.same_address ∙ a.same_address;
  same_election = b.same_election ∙ a.same_election;
  same_channel = b.same_channel ∙ a.same_channel;
  same_sequence = b.same_sequence ∙ a.same_sequence;
  same_identity = b.same_identity ∙ a.same_identity;
}

-- A run that returns, in a later state.
pub data IsSafe {R : Type 0} (s : AwdlState) : Run (R × AwdlState) → Type 0 where
  safe : {r : R} {s' : AwdlState} → IsNext s s' → IsSafe s (done (r, s'))

module _ {R : Type 0} {s : AwdlState} where
  pub match_read-IsSafe {ℓ} :
      {A : Type ℓ} (r : WireResult A) {e : Run (R × AwdlState)} {k : A → Run (R × AwdlState)}
      → r ≢ panic
      → IsSafe s e
      → ((v : A) → IsSafe s (k v))
      → IsSafe s (match_read r e k)
  match_read-IsSafe (ok v) n he hk = hk v
  match_read-IsSafe err n he hk = he
  match_read-IsSafe panic n he hk = absurd (n refl)

  pub if-IsSafe :
      (b : Bool) {x y : Run (R × AwdlState)}
      → IsSafe s x
      → IsSafe s y
      → IsSafe s (if b then x else y)
  if-IsSafe true hx hy = hx
  if-IsSafe false hx hy = hy

pub bind_ne_panic {ℓ κ} :
    {A : Type ℓ} {B : Type κ} (m : WireResult A) {f : A → WireResult B}
    → m ≢ panic
    → ((a : A) → f a ≢ panic)
    → (Wire.◌>>=◌ m f) ≢ panic
bind_ne_panic (ok a) n h = h a
bind_ne_panic err n h = λ e. cc
bind_ne_panic panic n h = absurd (n refl)

pub if_ne_panic {ℓ} :
    {A : Type ℓ} (b : Bool) {x y : WireResult A}
    → x ≢ panic
    → y ≢ panic
    → (if b then x else y) ≢ panic
if_ne_panic true hx hy = hx
if_ne_panic false hx hy = hy

pub ok_ne_panic {ℓ} : {A : Type ℓ} (a : A) → ok a ≢ panic
ok_ne_panic a e = cc

pub write_peer-IsNext :
    {s : AwdlState} (src : EtherAddr) (f : AwdlPeer → AwdlPeer)
    → KeepsAddrs f
    → IsValid s
    → IsNext s (write_peer src f s)
unfolding write_peer peer_get_mut
write_peer-IsNext {s} src f same v = record {
  valid = record { timed = v.timed; keyed = peer_get_mut-IsWellKeyed s.peers src f same v.keyed };
  same_address = refl;
  same_election = refl;
  same_channel = refl;
  same_sequence = refl;
  same_identity = refl;
}

-- A write to an election state that leaves its own address alone, and its master an address.
abbrev pub KeepsElection : (AwdlElectionState → AwdlElectionState) → Type 0
KeepsElection f =
    (e : AwdlElectionState)
    → ((f e).self_addr ≡ e.self_addr) × (length e.master_addr ≡ 6 → length (f e).master_addr ≡ 6)

pub write_election-IsNext :
    {s : AwdlState} (src : EtherAddr) (f : AwdlElectionState → AwdlElectionState)
    → KeepsElection f
    → IsValid s
    → IsNext s (write_election src f s)
unfolding write_election
write_election-IsNext src f same v =
    write_peer-IsNext src (λ p. record p { election = f p.election })
      (λ p. let (same_self, keeps) = same p.election in (refl, same_self, keeps)) v

pub after :
    {R : Type 0} {s t : AwdlState} {run : Run (R × AwdlState)}
    → IsNext s t
    → IsSafe t run
    → IsSafe s run
after n (safe m) = safe (IsNext-trans n m)

pub bind-IsSafe :
    {R T : Type 0} {s : AwdlState} (m : Run (R × AwdlState))
    (k : R × AwdlState → Run (T × AwdlState))
    → IsSafe s m
    → ((r : R) (s' : AwdlState) → IsNext s s' → IsSafe s' (k (r, s')))
    → IsSafe s (m >>= k)
bind-IsSafe (done (r, s')) k (safe n) h = after n (h r s' n)
bind-IsSafe fault k e h = elim e [ ]
bind-IsSafe stuck k e h = elim e [ ]

-- A match on a read, where the branch may use what was read.
pub match_read_eq-IsSafe {ℓ} :
    {R : Type 0} {s : AwdlState} {A : Type ℓ} (r : WireResult A) {e : Run (R × AwdlState)}
    {k : A → Run (R × AwdlState)}
    → r ≢ panic
    → IsSafe s e
    → ((v : A) → r ≡ ok v → IsSafe s (k v))
    → IsSafe s (match_read r e k)
match_read_eq-IsSafe (ok v) n he hk = hk v refl
match_read_eq-IsSafe err n he hk = he
match_read_eq-IsSafe panic n he hk = absurd (n refl)

pub drain_lem : (n : ℕ) (frame : List ℕ) → n ≤ length frame → drain n frame ≡ ok (drop n frame)
unfolding drain
drain_lem n frame h = ground arith

pub check-IsSafe :
    {R : Type 0} {s : AwdlState} (b : Bool) {x y : Run (R × AwdlState)}
    → (b ≡ true → IsSafe s x)
    → (b ≡ false → IsSafe s y)
    → IsSafe s (if b then x else y)
check-IsSafe true hx hy = hx refl
check-IsSafe false hx hy = hy refl

-- What a safe run returns.
pub returned :
    {R : Type 0} {s : AwdlState} (run : Run (R × AwdlState))
    → IsSafe s run
    → (r : R) × (s' : AwdlState) × (run ≡ done (r, s')) × IsNext s s'
returned (done (r, s')) (safe n) = (r, s', refl, n)
returned fault e = elim e [ ]
returned stuck e = elim e [ ]
