-- ===== src/Peers/Refinement.antt =====
-- The table of src/awdl/peers.rs is a map from addresses to peers: a specification, and a proof that
-- every sequence of the table's operations behaves as it says.
use cosmicdrop.Base.{
  ℕ, ◌≡◌, refl, ap, ap₂, sym, ◌∙◌, Bool, Option, none, some, List, [], ◌∷◌, if◌then◌else◌, length,
  bytes_eq, replicate,
}
use mathlib.Core.Option
use mathlib.Core.Path.{fun_ext}
use cosmicdrop.Election.{EtherAddr}
use cosmicdrop.Peers.{
  AwdlPeer, AwdlPeerState, PeersStatus, peer_get, peer_get_mut, peer_add, peer_remove,
  peers_remove_before,
}
use cosmicdrop.Peers.Keys.{IsWellKeyed, KeepsAddrs, peer_get_mut-IsWellKeyed, peers-IsWellKeyed}
use cosmicdrop.Peers.Update.{
  added_to, status_for, if_recent, if_stale, with_addr, peer_add_lem, peers_remove_before_lem,
  peer_remove_lem,
}
use cosmicdrop.Table.Laws.{get-modify}

-- The specification: what stands under each address. It knows no order.
abbrev pub PeerMap : Type 0
PeerMap = EtherAddr → Option AwdlPeer

-- The calls of the table.
pub data Call : Type 0 where
  add : EtherAddr → ℕ → Call
  remove : EtherAddr → Call
  remove_before : ℕ → Call
  write : EtherAddr → (AwdlPeer → AwdlPeer) → Call
  look_up : EtherAddr → Call

-- What a call answers. Of a list of removed peers, what counts is which peer it has for an address.
pub data Answer : Type 0 where
  added : PeersStatus × Bool → Answer
  found : Option AwdlPeer → Answer
  removed : (EtherAddr → Option AwdlPeer) → Answer
  nothing : Answer

-- A call of the detailed table.
unfoldable pub call : Call → AwdlPeerState → AwdlPeerState × Answer
call (add addr now) s = let (s', status) = peer_add s addr now in (s', added status)
call (remove addr) s = let (s', peer) = peer_remove s addr in (s', found peer)
call (remove_before limit) s =
    let (s', peers) = peers_remove_before s limit in (s', removed (λ j. with_addr j peers))
call (write addr f) s = (peer_get_mut s addr f, nothing)
call (look_up addr) s = (s, found (peer_get s addr))

-- A call of the specification.
unfoldable pub call_map : Call → PeerMap → PeerMap × Answer
call_map (add addr now) m = (
  (λ j. if bytes_eq addr j then some (added_to addr now (m addr)) else m j),
  added (status_for (m addr)),
)
call_map (remove addr) m = ((λ j. if bytes_eq addr j then none else m j), found (m addr))
call_map (remove_before limit) m =
    ((λ j. if_recent limit (m j)), removed (λ j. if_stale limit (m j)))
call_map (write addr f) m = ((λ j. if bytes_eq addr j then Option.map f (m addr) else m j), nothing)
call_map (look_up addr) m = (m, found (m addr))

-- The calls that the program makes: six-byte addresses, and writes that leave addresses alone.
unfoldable pub IsProper : Call → Type 0
IsProper (add addr now) = length addr ≡ 6
IsProper (remove addr) = length addr ≡ 6
IsProper (remove_before limit) = Unit
IsProper (write addr f) = KeepsAddrs f
IsProper (look_up addr) = Unit

-- A sequence of calls, and its answers.
unfoldable pub calls : List Call → AwdlPeerState → AwdlPeerState × List Answer
unfolding call
calls [] s = (s, [])
calls (c ∷ cs) s =
    let (s', answer) = call c s in let (s'', answers) = calls cs s' in (s'', answer ∷ answers)

unfoldable pub calls_map : List Call → PeerMap → PeerMap × List Answer
unfolding call_map
calls_map [] m = (m, [])
calls_map (c ∷ cs) m =
    let (m', answer) = call_map c m in
    let (m'', answers) = calls_map cs m' in (m'', answer ∷ answers)

-- The table holds what the map says.
abbrev pub Represents : AwdlPeerState → PeerMap → Type 0
Represents s m = (j : EtherAddr) → peer_get s j ≡ m j

record Simulates (s : AwdlPeerState × Answer) (m : PeerMap × Answer) : Type 0 where
  keyed : IsWellKeyed s.0
  same_map : Represents (s.0) (m.0)
  same_answer : s.1 ≡ m.1

call-Simulates :
    (c : Call) (s : AwdlPeerState) (m : PeerMap)
    → IsProper c
    → IsWellKeyed s
    → Represents s m
    → Simulates (call c s) (call_map c m)
unfolding call call_map IsProper
call-Simulates (add addr now) s m h k r = record {
  keyed = (peers-IsWellKeyed s addr now 0 h k).0;
  same_map = λ j. rw (sym (r addr), sym (r j)) (peer_add_lem s addr j now).0;
  same_answer = ap added (rw (sym (r addr)) (peer_add_lem s addr addr now).1);
}
call-Simulates (remove addr) s m h k r = record {
  keyed = (peers-IsWellKeyed s addr 0 0 h k).1;
  same_map = λ j. rw (sym (r j)) (peer_remove_lem s addr j k).0;
  same_answer = ap found ((peer_remove_lem s addr addr k).1 ∙ r addr);
}
call-Simulates (remove_before limit) s m h k r = record {
  keyed = (peers-IsWellKeyed s (replicate 6 0) 0 limit refl k).2;
  same_map = λ j. rw (sym (r j)) (peers_remove_before_lem s limit j k).0;
  same_answer =
      ap removed (fun_ext λ j. (peers_remove_before_lem s limit j k).1 ∙ ap (if_stale limit) (r j));
}
call-Simulates (write addr f) s m h k r = record {
  keyed = peer_get_mut-IsWellKeyed s addr f h k;
  same_map = λ j.
      rw (sym (r addr), sym (r j)) (unfold peer_get peer_get_mut in get-modify addr j f s.peers);
  same_answer = refl;
}
call-Simulates (look_up addr) s m h k r = record {
  keyed = k;
  same_map = r;
  same_answer = ap found (r addr);
}

-- Every call of a proper sequence is proper.
unfoldable pub AreProper : List Call → Type 0
AreProper [] = Unit
AreProper (c ∷ cs) = IsProper c × AreProper cs

-- If a keyed table holds what a map says, then every sequence of proper calls gets the answers from
-- the table that it gets from the map, and leaves a keyed table that holds what the map then says.
pub calls-Represents :
    (cs : List Call) (s : AwdlPeerState) (m : PeerMap)
    → AreProper cs
    → IsWellKeyed s
    → Represents s m
    → ((calls cs s).1 ≡ (calls_map cs m).1)
      × IsWellKeyed (calls cs s).0
      × Represents (calls cs s).0 (calls_map cs m).0
unfolding calls calls_map AreProper
calls-Represents [] s m h k r = (refl, k, r)
calls-Represents (c ∷ cs) s m (h, hs) k r =
    let first = call-Simulates c s m h k r in
    let (answers, keyed, same) =
      calls-Represents cs (call c s).0 (call_map c m).0 hs first.keyed first.same_map in
    (ap₂ (λ a rest. a ∷ rest) first.same_answer answers, keyed, same)
