-- ===== src/Daemon/Tables.antt =====
-- The election of the daemon in src/awdl/mod.rs depends on what its peer table holds, and not on the
-- order in which the table of src/awdl/peers.rs lists it.
use cosmicdrop.Base.{
  ◌≡◌, inl, inr, refl, ap, sym, ◌∙◌, arith, Bool, true, false, Bool-cases, Option, some, List, [],
  ◌∷◌, map, length, bytes_eq, bytes_eq_iff, bytes_eq_refl,
}
use cosmicdrop.Daemon.Tasks.{run_election}
use cosmicdrop.Election.{EtherAddr, AwdlElectionState, is_candidate, reset_self}
use cosmicdrop.Election.Outcome.{IsCandidateIn, HasAddr, AllHaveAddr}
use cosmicdrop.Election.Independence.{Includes, IsKeyed, awdl_election_run_order}
use cosmicdrop.Peers.{AwdlPeer, AwdlPeerState, peer_get, peers_iter}
use cosmicdrop.Peers.Keys.{IsAt, IsWellKeyed}
use cosmicdrop.State.{AwdlState}
use cosmicdrop.Table
use cosmicdrop.Table.Laws.{Entries, HasKeysOnce, contains_key-get}

-- What the election sees of the peers.
abbrev seen : List (EtherAddr × AwdlPeer) → List (AwdlElectionState × Bool)
seen m = map (λ p. (p.election, p.is_valid)) (Table.values m)

seen-AllHaveAddr : (m : List (EtherAddr × AwdlPeer)) → Entries IsAt m → AllHaveAddr (seen m)
unfolding Table.values
seen-AllHaveAddr [] h = tt
seen-AllHaveAddr ((k, p) ∷ m) ((a, e, l, master), h) = (ap length e ∙ l, seen-AllHaveAddr m h)

-- A candidate stands in the table under its own address.
record StandsIn (state p : AwdlElectionState) (m : List (EtherAddr × AwdlPeer)) : Type 0 where
  peer : AwdlPeer
  found : Table.get p.self_addr m ≡ some peer
  same : peer.election ≡ p
  candidate : is_candidate state (peer.election, peer.is_valid) ≡ true

another_key :
    (k j : EtherAddr) (m : List (EtherAddr × AwdlPeer)) (q : AwdlPeer)
    → Table.contains_key k m ≡ false
    → Table.get j m ≡ some q
    → bytes_eq k j ≡ false
another_key k j m q h e = ground (arith, bytes_eq_iff k j, contains_key-get k m)

stands :
    (state p : AwdlElectionState) (m : List (EtherAddr × AwdlPeer))
    → HasKeysOnce m
    → Entries IsAt m
    → IsCandidateIn state p (seen m)
    → StandsIn state p m
unfolding Table.get Table.values
stands state p [] once h i = elim i [ ]
stands state p ((k, v) ∷ m) (once, onces) ((a, e, l, master), h) (inl (same, c)) = record {
  peer = v;
  found =
      let key : k ≡ p.self_addr = sym e ∙ ap (λ x. x.self_addr) same in
      rw (sym key, bytes_eq_refl k) refl;
  same = same;
  candidate = c;
}
stands state p ((k, v) ∷ m) (once, onces) (at_k, h) (inr i) =
    let rest = stands state p m onces h i in
    record {
      peer = rest.peer;
      found = rw (another_key k p.self_addr m rest.peer once rest.found) rest.found;
      same = rest.same;
      candidate = rest.candidate;
    }

listed :
    (state : AwdlElectionState) (j : EtherAddr) (m : List (EtherAddr × AwdlPeer)) (q : AwdlPeer)
    → Table.get j m ≡ some q
    → is_candidate state (q.election, q.is_valid) ≡ true
    → IsCandidateIn state q.election (seen m)
unfolding Table.get Table.values
listed state j [] q e c = cc
listed state j ((k, v) ∷ m) q e c = elim (Bool-cases (bytes_eq k j)) [
  | inl here ↦ let same : v ≡ q = ground arith in inl (ap (λ x. x.election) same, rw same c)
  | inr there ↦ inr (listed state j m q (ground arith) c)
]

module _ (a b : AwdlPeerState) (state : AwdlElectionState) (ka : IsWellKeyed a)
    (same : (j : EtherAddr) → peer_get a j ≡ peer_get b j) where
  seen-Includes : Includes state (seen a.peers) (seen b.peers)
  unfolding peer_get
  seen-Includes p i =
      let x = stands (reset_self state) p a.peers ka.once ka.home i in
      rw (sym x.same) (
        listed (reset_self state) p.self_addr b.peers x.peer (sym (same p.self_addr) ∙ x.found)
          x.candidate)

  seen-IsKeyed : IsKeyed state (seen a.peers)
  seen-IsKeyed p q i j e =
      let x = stands (reset_self state) p a.peers ka.once ka.home i in
      let y = stands (reset_self state) q a.peers ka.once ka.home j in
      let one : x.peer ≡ y.peer = same_peer x.found (rw e y.found) in
      sym x.same ∙ ap (λ r. r.election) one ∙ y.same
    where
      same_peer : {o : Option AwdlPeer} {r s : AwdlPeer} → o ≡ some r → o ≡ some s → r ≡ s
      same_peer f g = cc

-- Two nodes with the same election state, and with peer tables that hold the same peer under every
-- address, elect alike, in whatever order the tables list their peers.
pub run_election_tables :
    (s t : AwdlState)
    → s.election ≡ t.election
    → HasAddr s.election
    → IsWellKeyed s.peers
    → IsWellKeyed t.peers
    → ((j : EtherAddr) → peer_get s.peers j ≡ peer_get t.peers j)
    → (run_election s).election ≡ (run_election t).election
unfolding run_election peers_iter
run_election_tables s t e h ks kt same = rw (sym e) (
    awdl_election_run_order s.election (seen s.peers.peers) (seen t.peers.peers) h
      (seen-AllHaveAddr s.peers.peers ks.home) (seen-AllHaveAddr t.peers.peers kt.home)
      (seen-Includes s.peers t.peers s.election ks same)
      (seen-Includes t.peers s.peers s.election kt (λ j. sym (same j)))
      (seen-IsKeyed s.peers t.peers s.election ks same))
