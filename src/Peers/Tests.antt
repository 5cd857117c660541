-- ===== src/Peers/Tests.antt =====
-- The peer table of src/awdl/peers.rs at small inputs.
use cosmicdrop.Base.{◌+◌, ◌≡◌, refl, none, some, List, [], ◌∷◌, length, if◌then◌else◌, bytes_eq}
use cosmicdrop.Election.{EtherAddr}
use cosmicdrop.Peers.{AwdlPeerState, new, peer_add, peer_get, peer_remove, peers_remove_before}
use cosmicdrop.Peers.Keys.{IsWellKeyed, new-IsWellKeyed, peer_add-IsWellKeyed, peers-IsWellKeyed}
use cosmicdrop.Peers.Refinement.{
  Call, calls, calls_map, Represents, AreProper, IsProper, calls-Represents,
}
use cosmicdrop.Table
use cosmicdrop.Peers.Update.{
  added_to, status_for, if_recent, if_stale, with_addr, peer_add_lem, peers_remove_before_lem,
}

abbrev first : EtherAddr
first = 2 ∷ 0 ∷ 0 ∷ 0 ∷ 0 ∷ 1 ∷ []

abbrev second : EtherAddr
second = 2 ∷ 0 ∷ 0 ∷ 0 ∷ 0 ∷ 2 ∷ []

-- The first peer at time 10, and then the second at 20.
one : AwdlPeerState
one = (peer_add new first 10).0

two : AwdlPeerState
two = (peer_add one second 20).0

one-IsWellKeyed : IsWellKeyed one
unfolding one
one-IsWellKeyed = peer_add-IsWellKeyed new first 10 refl new-IsWellKeyed

two-IsWellKeyed : IsWellKeyed two
unfolding two
two-IsWellKeyed = peer_add-IsWellKeyed one second 20 refl one-IsWellKeyed

peers-IsWellKeyed_example :
    IsWellKeyed (peer_add two first 30).0
    × IsWellKeyed (peer_remove two first).0
    × IsWellKeyed (peers_remove_before two 15).0
peers-IsWellKeyed_example = peers-IsWellKeyed two first 30 15 refl two-IsWellKeyed

peer_add_lem_example :
    (peer_get (peer_add two first 30).0 second ≡ (
      if bytes_eq first second
      then some (added_to first 30 (peer_get two first))
      else peer_get two second))
    × ((peer_add two first 30).1 ≡ status_for (peer_get two first))
peer_add_lem_example = peer_add_lem two first second 30

peers_remove_before_lem_example :
    (peer_get (peers_remove_before two 15).0 first ≡ if_recent 15 (peer_get two first))
    × (with_addr first (peers_remove_before two 15).1 ≡ if_stale 15 (peer_get two first))
    × (length (peers_remove_before two 15).1 + length (peers_remove_before two 15).0.peers
        ≡ length two.peers)
peers_remove_before_lem_example = peers_remove_before_lem two 15 first two-IsWellKeyed

abbrev some_calls : List Call
some_calls =
    Call.add first 10
    ∷ Call.add second 20
    ∷ Call.add first 30
    ∷ Call.remove_before 25
    ∷ Call.look_up first
    ∷ Call.remove second
    ∷ []

calls-Represents_example :
    ((calls some_calls new).1 ≡ (calls_map some_calls λ j. none).1)
    × IsWellKeyed (calls some_calls new).0
    × Represents (calls some_calls new).0 (calls_map some_calls λ j. none).0
unfolding AreProper IsProper peer_get Table.get
calls-Represents_example =
    calls-Represents some_calls new (λ j. none) (refl, (refl, (refl, (tt, (tt, (refl, tt))))))
      new-IsWellKeyed (λ j. refl)
