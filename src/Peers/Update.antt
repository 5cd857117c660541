-- ===== src/Peers/Update.antt =====
-- What the operations of src/awdl/peers.rs do to the peers, seen as a map from addresses.
use cosmicdrop.Base.{
  ℕ, ◌+◌, ◌≡◌, refl, ap, ◌∙◌, arith, Bool, false, not, ◌&&◌, ◌==◌, ltb, List, [], ◌∷◌, Option, none,
  some, length, if◌then◌else◌, bytes_eq, bytes_eq_iff, bytes_eq_refl,
}
use mathlib.Core.Option
use cosmicdrop.Election.{EtherAddr}
use cosmicdrop.Table
use cosmicdrop.Table.Laws.{
  HasKeysOnce, Entries, get-modify, get-or_insert, get-remove, get-retain, contains_key-get,
}
use cosmicdrop.Peers.{
  AwdlPeer, AwdlPeerState, PeersStatus, new_peer, touch, just_became_valid, peer_get, peer_add,
  peer_remove, peers_remove_before, stale, check_valid,
}
use cosmicdrop.Peers.Keys.{IsAt, IsWellKeyed}

-- The two tests that make a peer valid: a MIF has come from it, and its device class and version are
-- known.
abbrev pub has_reported : AwdlPeer → Bool
has_reported p = p.sent_mif && (not (p.devclass == 0) && not (p.version == 0))

-- A peer that was heard at the time `now`.
abbrev pub heard : ℕ → AwdlPeer → AwdlPeer
heard now p = record p { last_update = now; is_valid = has_reported p }

touch_lem : (now : ℕ) (p : AwdlPeer) → touch now p ≡ heard now p
unfolding touch check_valid
touch_lem now p = ground arith

became_lem : (p : AwdlPeer) → just_became_valid p ≡ (not p.is_valid && has_reported p)
unfolding just_became_valid check_valid
became_lem p = ground arith

fresh_lem :
    (addr : EtherAddr) (now : ℕ)
    → touch now (new_peer addr) ≡ record (new_peer addr) { last_update = now; is_valid = false }
unfolding touch check_valid new_peer
fresh_lem addr now = refl

add_entry :
    (s : AwdlPeerState) (addr j : EtherAddr) (now : ℕ)
    → (peer_get (peer_add s addr now).0 j ≡ (
        if bytes_eq addr j
        then some (touch now (Option.get_or (peer_get s addr) (new_peer addr)))
        else peer_get s j))
unfolding peer_add peer_get
add_entry s addr j now =
    let entered = Table.or_insert addr (new_peer addr) s.peers in
    ground (
      arith,
      get-modify addr j (touch now) entered,
      get-or_insert addr addr (new_peer addr) s.peers,
      get-or_insert addr j (new_peer addr) s.peers,
      bytes_eq_refl addr,
    )

add_answer :
    (s : AwdlPeerState) (addr : EtherAddr) (now : ℕ)
    → (peer_add s addr now).1 ≡ elim (peer_get s addr) [
      | none ↦ (PeersStatus.ok, false)
      | some peer ↦ (PeersStatus.update, just_became_valid peer)
    ]
unfolding peer_add peer_get
add_answer s addr now = ground (
  arith,
  get-or_insert addr addr (new_peer addr) s.peers,
  bytes_eq_refl addr,
  contains_key-get addr s.peers,
  fresh,
)
  where
    fresh : just_became_valid (new_peer addr) ≡ false
    fresh = unfold just_became_valid new_peer in refl

-- What `peer_add` leaves under its address, for what was there.
abbrev pub added_to : EtherAddr → ℕ → Option AwdlPeer → AwdlPeer
added_to addr now none = record (new_peer addr) { last_update = now; is_valid = false }
added_to addr now (some p) = heard now p

-- What it answers.
abbrev pub status_for : Option AwdlPeer → PeersStatus × Bool
status_for none = (PeersStatus.ok, false)
status_for (some p) = (PeersStatus.update, not p.is_valid && has_reported p)

-- For every table, address and time, `peer_add` leaves every other address alone. Under its own
-- address stands the peer that was there, with the last update set to the time and valid exactly if
-- a MIF has come from it and its device class and version are not 0, or a new peer with this last
-- update that is not valid. It answers `update` for a known address, with true exactly if the peer
-- was not valid before and now is, and `ok` and false for a new one.
pub peer_add_lem :
    (s : AwdlPeerState) (addr j : EtherAddr) (now : ℕ)
    → (peer_get (peer_add s addr now).0 j
        ≡ (if bytes_eq addr j then some (added_to addr now (peer_get s addr)) else peer_get s j))
      × ((peer_add s addr now).1 ≡ status_for (peer_get s addr))
peer_add_lem s addr j now = (
  add_entry s addr j now
      ∙ ap (λ p. if bytes_eq addr j then some p else peer_get s j) (entry (peer_get s addr)),
  add_answer s addr now ∙ answer (peer_get s addr),
)
  where
    entry :
        (o : Option AwdlPeer) → touch now (Option.get_or o (new_peer addr)) ≡ added_to addr now o
    entry none = fresh_lem addr now
    entry (some p) = touch_lem now p

    answer :
        (o : Option AwdlPeer)
        → ◌≡◌ {A = PeersStatus × Bool}
            (elim o [
              | none ↦ (PeersStatus.ok, false)
              | some peer ↦ (PeersStatus.update, just_became_valid peer)
            ])
            (status_for o)
    answer none = refl
    answer (some p) = ap (λ b. (PeersStatus.update, b)) (became_lem p)

-- The first peer of a list with an address.
unfoldable pub with_addr : EtherAddr → List AwdlPeer → Option AwdlPeer
with_addr addr [] = none
with_addr addr (p ∷ ps) = if bytes_eq p.addr addr then some p else with_addr addr ps

-- A peer that is older than a limit.
abbrev pub if_stale : ℕ → Option AwdlPeer → Option AwdlPeer
if_stale before none = none
if_stale before (some p) = if ltb p.last_update before then some p else none

abbrev pub if_recent : ℕ → Option AwdlPeer → Option AwdlPeer
if_recent before none = none
if_recent before (some p) = if ltb p.last_update before then none else some p

with_addr-stale :
    (before : ℕ) (j : EtherAddr) (m : List (EtherAddr × AwdlPeer))
    → HasKeysOnce m
    → Entries IsAt m
    → with_addr j (stale before m) ≡ if_stale before (Table.get j m)
unfolding with_addr stale Table.get
with_addr-stale before j [] once home = refl
with_addr-stale before j ((k, p) ∷ m) (once, onces) ((at_k, at_self, len, master), home) = ground (
  arith,
  ap (λ a. bytes_eq a j) at_k,
  bytes_eq_iff k j,
  with_addr-stale before j m onces home,
  contains_key-get k m,
)

length-stale :
    (before : ℕ) (m : List (EtherAddr × AwdlPeer))
    → length (stale before m) + length (Table.retain (λ p. not (ltb p.last_update before)) m)
      ≡ length m
unfolding stale Table.retain
length-stale before [] = omega arith
length-stale before ((k, p) ∷ m) = ground (arith, length-stale before m)

-- In a keyed table, `peers_remove_before` keeps exactly the peers whose last update is not older
-- than the limit, each under its address, and returns exactly the others: the peer with an address
-- in the returned list is the one that stood under this address, if it is older than the limit. The
-- kept and the returned ones together are as many as there were.
pub peers_remove_before_lem :
    (s : AwdlPeerState) (before : ℕ) (j : EtherAddr)
    → IsWellKeyed s
    → (peer_get (peers_remove_before s before).0 j ≡ if_recent before (peer_get s j))
      × (with_addr j (peers_remove_before s before).1 ≡ if_stale before (peer_get s j))
      × (length (peers_remove_before s before).1 + length (peers_remove_before s before).0.peers
          ≡ length s.peers)
unfolding peers_remove_before peer_get
peers_remove_before_lem s before j h = (
  ground (arith, get-retain (λ p. not (ltb p.last_update before)) j s.peers h.once),
  with_addr-stale before j s.peers h.once h.home,
  length-stale before s.peers,
)

-- In a keyed table, `peer_remove` answers the peer under the address and removes that one alone.
pub peer_remove_lem :
    (s : AwdlPeerState) (addr j : EtherAddr)
    → IsWellKeyed s
    → (peer_get (peer_remove s addr).0 j ≡ (if bytes_eq addr j then none else peer_get s j))
      × ((peer_remove s addr).1 ≡ peer_get s addr)
unfolding peer_remove peer_get
peer_remove_lem s addr j h = (get-remove addr j s.peers h.once, refl)
