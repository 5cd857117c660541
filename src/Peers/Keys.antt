-- ===== src/Peers/Keys.antt =====
-- The invariant of the peer table of src/awdl/peers.rs: a peer stands under its own address.
use cosmicdrop.Base.{ℕ, ◌≡◌, refl, ◌∙◌, not, ltb, length}
use cosmicdrop.Election.{EtherAddr, reset_self, reset_metric}
use cosmicdrop.Table
use cosmicdrop.Table.Laws.{
  Entries, HasKeysOnce, modify-HasKeysOnce, or_insert-HasKeysOnce, remove-HasKeysOnce,
  retain-HasKeysOnce, modify-Entries, or_insert-Entries, remove-Entries, retain-Entries,
}
use cosmicdrop.Peers.{
  AwdlPeer, AwdlPeerState, new_peer, new, touch, peer_add, peer_remove, peers_remove_before,
  peer_get_mut,
}

-- A peer at home under a key.
abbrev pub IsAt : EtherAddr → AwdlPeer → Type 0
IsAt k p =
    (p.addr ≡ k) × (p.election.self_addr ≡ k) × (length k ≡ 6) × (length p.election.master_addr ≡ 6)

-- A write to a peer that leaves its addresses alone, and its master an address.
abbrev pub KeepsAddrs : (AwdlPeer → AwdlPeer) → Type 0
KeepsAddrs f =
    (p : AwdlPeer)
    → ((f p).addr ≡ p.addr)
      × ((f p).election.self_addr ≡ p.election.self_addr)
      × (length p.election.master_addr ≡ 6 → length (f p).election.master_addr ≡ 6)

-- No address has two entries, and every peer's address and election address is its key, which has
-- six bytes, as the address of its master has.
pub record IsWellKeyed (s : AwdlPeerState) : Type 0 where
  pub once : HasKeysOnce s.peers
  pub home : Entries IsAt s.peers

pub new-IsWellKeyed : IsWellKeyed new
new-IsWellKeyed = record { once = tt; home = tt }

pub new_peer-IsAt : (addr : EtherAddr) → length addr ≡ 6 → IsAt addr (new_peer addr)
unfolding new_peer reset_self reset_metric
new_peer-IsAt addr h = (refl, refl, h, h)

-- A write through `peer_get_mut` that leaves the addresses alone keeps the invariant.
pub peer_get_mut-IsWellKeyed :
    (s : AwdlPeerState) (addr : EtherAddr) (f : AwdlPeer → AwdlPeer)
    → KeepsAddrs f
    → IsWellKeyed s
    → IsWellKeyed (peer_get_mut s addr f)
unfolding peer_get_mut
peer_get_mut-IsWellKeyed s addr f same h = record {
  once = modify-HasKeysOnce addr f s.peers h.once;
  home =
      modify-Entries IsAt addr f s.peers
        (λ k p (at_addr, at_self, len, master).
          let (same_addr, same_self, keeps) = same p in
          (same_addr ∙ at_addr, same_self ∙ at_self, len, keeps master))
        h.home;
}

pub peer_add-IsWellKeyed :
    (s : AwdlPeerState) (addr : EtherAddr) (now : ℕ)
    → length addr ≡ 6
    → IsWellKeyed s
    → IsWellKeyed (peer_add s addr now).0
unfolding peer_add touch
peer_add-IsWellKeyed s addr now len h =
    let entered = Table.or_insert addr (new_peer addr) s.peers in
    record {
      once =
          modify-HasKeysOnce addr (touch now) entered
            (or_insert-HasKeysOnce addr (new_peer addr) s.peers h.once);
      home =
          modify-Entries IsAt addr (touch now) entered (λ k p a. a)
            (or_insert-Entries IsAt addr (new_peer addr) s.peers (new_peer-IsAt addr len) h.home);
    }

-- Adding a peer under a six-byte address, removing one and removing the stale ones keep the table
-- keyed: no address twice, every peer under its own address, and its master's address of six bytes.
pub peers-IsWellKeyed :
    (s : AwdlPeerState) (addr : EtherAddr) (now before : ℕ)
    → length addr ≡ 6
    → IsWellKeyed s
    → IsWellKeyed (peer_add s addr now).0
      × IsWellKeyed (peer_remove s addr).0
      × IsWellKeyed (peers_remove_before s before).0
unfolding peer_remove peers_remove_before
peers-IsWellKeyed s addr now before len h = (
  peer_add-IsWellKeyed s addr now len h,
  record {
    once = remove-HasKeysOnce addr s.peers h.once;
    home = remove-Entries IsAt addr s.peers h.home;
  },
  record {
    once = retain-HasKeysOnce (λ p. not (ltb p.last_update before)) s.peers h.once;
    home = retain-Entries IsAt (λ p. not (ltb p.last_update before)) s.peers h.home;
  },
)
