-- ===== src/Election.antt =====
-- src/awdl/election.rs: the master election. An address is the list of its six bytes.
pub mod Order
pub mod Outcome
pub mod Independence
pub mod Adoption
mod Tests
use cosmicdrop.Base.{
  ℕ, ◌+◌, ◌%◌, ◌^◌, ltb, ◌==◌, if◌then◌else◌, Bool, true, false, ◌||◌, not, Option, none, some,
  List, [], ◌∷◌, u32, bytes_eq,
}
use cosmicdrop.Base.Int.{ℤ, pos, negsuc, ltb_ℤ, leb_ℤ, eq_ℤ}

abbrev pub EtherAddr : Type 0
EtherAddr = List ℕ

abbrev pub awdl_election_tree_max_height : ℕ
awdl_election_tree_max_height = 10

abbrev pub awdl_election_metric_init : ℕ
awdl_election_metric_init = 60

abbrev pub awdl_election_counter_init : ℕ
awdl_election_counter_init = 0

pub record AwdlElectionState : Type 0 where
  pub master_addr : EtherAddr
  pub sync_addr : EtherAddr
  pub self_addr : EtherAddr
  pub height : ℕ
  pub master_metric : ℕ
  pub self_metric : ℕ
  pub master_counter : ℕ
  pub self_counter : ℕ

unfoldable pub reset_metric : AwdlElectionState → AwdlElectionState
reset_metric state = record state {
  self_counter = awdl_election_counter_init;
  self_metric = awdl_election_metric_init;
}

unfoldable pub reset_self : AwdlElectionState → AwdlElectionState
reset_self state = record state {
  height = 0;
  master_addr = state.self_addr;
  sync_addr = state.self_addr;
  master_metric = state.self_metric;
  master_counter = state.self_counter;
}

-- `AwdlElectionState::new`.
unfoldable pub new : EtherAddr → AwdlElectionState
unfolding reset_self
new self_addr = reset_self (record {
  master_addr = self_addr;
  sync_addr = self_addr;
  self_addr = self_addr;
  height = 0;
  master_metric = awdl_election_metric_init;
  self_metric = awdl_election_metric_init;
  master_counter = awdl_election_counter_init;
  self_counter = awdl_election_counter_init;
})

unfoldable pub awdl_election_state_init : AwdlElectionState → EtherAddr → AwdlElectionState
unfolding reset_metric reset_self
awdl_election_state_init state addr =
    reset_self
      (reset_metric (record state { master_addr = addr; sync_addr = addr; self_addr = addr }))

unfoldable pub awdl_election_is_sync_master : AwdlElectionState → EtherAddr → Bool
awdl_election_is_sync_master state addr = bytes_eq state.sync_addr addr

-- The loop over the six indices, as a recursion on the bytes that are left.
unfoldable pub compare_ether_addr : EtherAddr → EtherAddr → ℤ
compare_ether_addr [] b = pos 0
compare_ether_addr (x ∷ a) [] = pos 0
compare_ether_addr (x ∷ a) (y ∷ b) =
    if ltb x y then negsuc 0 else (if ltb y x then pos 1 else compare_ether_addr a b)

unfoldable pub compare_u32 : ℕ → ℕ → ℤ
compare_u32 a b = if ltb a b then negsuc 0 else (if ltb b a then pos 1 else pos 0)

unfoldable pub awdl_election_compare_master : AwdlElectionState → AwdlElectionState → ℤ
unfolding compare_u32
awdl_election_compare_master a b =
    let result = compare_u32 a.master_counter b.master_counter in
    if eq_ℤ result (pos 0) then compare_u32 a.master_metric b.master_metric else result

-- The first three `continue`s of the loop, read positively. `height + 1` wraps in a release build.
unfoldable pub is_candidate : AwdlElectionState → AwdlElectionState × Bool → Bool
unfolding awdl_election_is_sync_master
is_candidate state (peer_state, is_valid) =
    if not is_valid
    then false
    else (if ltb awdl_election_tree_max_height (u32 (peer_state.height + 1))
        then false
        else not (awdl_election_is_sync_master peer_state state.self_addr))

-- The comparison with the best so far: `false` is one of the three later `continue`s.
unfoldable pub accepts : AwdlElectionState → AwdlElectionState → Bool
unfolding awdl_election_compare_master compare_ether_addr
accepts best_state peer_state =
    let cmp = awdl_election_compare_master peer_state best_state in
    if ltb_ℤ cmp (pos 0)
    then false
    else (if eq_ℤ cmp (pos 0)
        then (if ltb best_state.height peer_state.height
            then false
            else (if peer_state.height == best_state.height
                then not
                    (leb_ℤ (compare_ether_addr peer_state.self_addr best_state.self_addr) (pos 0))
                else true))
        else true)

-- `best` holds the peer itself in place of its index; `none` is the node itself.
unfoldable pub best_state_of : AwdlElectionState → Option AwdlElectionState → AwdlElectionState
best_state_of state none = state
best_state_of state (some peer) = peer

unfoldable pub best_peer :
    AwdlElectionState
    → Option AwdlElectionState
    → List (AwdlElectionState × Bool)
    → Option AwdlElectionState
best_peer state best [] = best
best_peer state best (peer ∷ peers) =
    best_peer state
      (if is_candidate state peer
        then (if accepts (best_state_of state best) (peer.0) then some (peer.0) else best)
        else best)
      peers

unfoldable pub adopt : AwdlElectionState → Option AwdlElectionState → AwdlElectionState
adopt state none = state
adopt state (some peer) = record state {
  master_addr = peer.master_addr;
  sync_addr = peer.self_addr;
  master_metric = peer.master_metric;
  master_counter = peer.master_counter;
  height = u32 (peer.height + 1);
}

-- The log line about a changed master is left out.
unfoldable pub awdl_election_run :
    AwdlElectionState → List (AwdlElectionState × Bool) → AwdlElectionState
awdl_election_run state peers =
    let state' = reset_self state in adopt state' (best_peer state' none peers)
