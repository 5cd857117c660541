-- ===== src/Election/Adoption.antt =====
-- What a node takes over in the election of src/awdl/election.rs, and from whom.
use cosmicdrop.Base.{
  ◌+◌, ◌≤◌, ◌<◌, ◌^◌, ◌≡◌, ◌≢◌, ◌⊎◌, ◌↔◌, inl, inr, refl, ap, ◌∙◌, arith, Bool, true, none, some,
  List, [], ◌∷◌, u32, bytes_eq_iff,
}
use cosmicdrop.Election.{
  AwdlElectionState, reset_self, is_candidate, best_state_of, adopt, awdl_election_run,
  awdl_election_is_sync_master,
}
use cosmicdrop.Election.Order.{Beats}
use cosmicdrop.Election.Outcome.{HasAddr, AllHaveAddr, IsCandidateIn, awdl_election_run-HasWinner}

-- A node that is its own master.
abbrev pub own : AwdlElectionState → AwdlElectionState
own state = record state {
  height = 0;
  master_addr = state.self_addr;
  sync_addr = state.self_addr;
  master_metric = state.self_metric;
  master_counter = state.self_counter;
}

-- A node that syncs to a peer: it has the peer's master, and a height that is one more, in 32 bits.
abbrev pub follower : AwdlElectionState → AwdlElectionState → AwdlElectionState
follower state p = record state {
  height = u32 (p.height + 1);
  master_addr = p.master_addr;
  sync_addr = p.self_addr;
  master_metric = p.master_metric;
  master_counter = p.master_counter;
}

-- `p` stands in the list as a valid peer that does not sync to the node, and one step behind it the
-- height is at most 10.
abbrev pub IsEligibleIn :
    AwdlElectionState → AwdlElectionState → List (AwdlElectionState × Bool) → Type 0
IsEligibleIn state p [] = ⊥
IsEligibleIn state p (x ∷ xs) =
    ((x.0 ≡ p) × (x.1 ≡ true) × (u32 (p.height + 1) ≤ 10) × (p.sync_addr ≢ state.self_addr))
    ⊎ IsEligibleIn state p xs

-- The three filters of the source are these three conditions.
filters_lem :
    (state p : AwdlElectionState) (v : Bool)
    → (is_candidate (reset_self state) (p, v) ≡ true)
      ↔ ((v ≡ true) × (u32 (p.height + 1) ≤ 10) × (p.sync_addr ≢ state.self_addr))
unfolding is_candidate awdl_election_is_sync_master reset_self
filters_lem state p v = (
  ground (arith, bytes_eq_iff p.sync_addr state.self_addr),
  ground (arith, bytes_eq_iff p.sync_addr state.self_addr),
)

to_eligible :
    (state p : AwdlElectionState) (peers : List (AwdlElectionState × Bool))
    → IsCandidateIn (reset_self state) p peers
    → IsEligibleIn state p peers
to_eligible state p [] i = elim i [ ]
to_eligible state p ((q, v) ∷ peers) (inl (e, go)) =
    let (valid, low, other) = (filters_lem state p v).0 (rw e at go) in inl (e, valid, low, other)
to_eligible state p ((q, v) ∷ peers) (inr i) = inr (to_eligible state p peers i)

to_candidate :
    (state p : AwdlElectionState) (peers : List (AwdlElectionState × Bool))
    → IsEligibleIn state p peers
    → IsCandidateIn (reset_self state) p peers
to_candidate state p [] i = elim i [ ]
to_candidate state p ((q, v) ∷ peers) (inl (e, valid, low, other)) =
    inl (e, rw e ((filters_lem state p v).1 (valid, low, other)))
to_candidate state p ((q, v) ∷ peers) (inr i) = inr (to_candidate state p peers i)

-- What a run of the election does.
pub data Elected (state : AwdlElectionState) (peers : List (AwdlElectionState × Bool))
    (result : AwdlElectionState) : Type 0 where
  stays :
      result ≡ own state
      → ((c : AwdlElectionState) → IsEligibleIn state c peers → ¬ Beats c (own state))
      → Elected state peers result
  follows :
      (p : AwdlElectionState)
      → result ≡ follower state p
      → IsEligibleIn state p peers
      → Beats p (own state)
      → ((c : AwdlElectionState) → IsEligibleIn state c peers → ¬ Beats c p)
      → Elected state peers result

own_lem : (state : AwdlElectionState) → adopt (reset_self state) none ≡ own state
unfolding adopt reset_self
own_lem state = refl

follower_lem : (state p : AwdlElectionState) → adopt (reset_self state) (some p) ≡ follower state p
unfolding adopt reset_self
follower_lem state p = refl

-- The node either becomes its own master, at height 0 with its own metric and counter, and then no
-- eligible peer beats it; or it follows an eligible peer that beats it and that no eligible peer
-- beats: it takes over this peer's master with the metric and the counter, syncs to the peer, and
-- its height is the peer's and 1, in 32 bits. Its own address, metric and counter stay. Eligible is
-- a valid peer that does not sync to the node, and whose height and 1, in 32 bits, is at most 10. The
-- order compares the master counter, then the master metric, then the shorter path, then the higher
-- address. The addresses of the node and the peers have six bytes.
pub awdl_election_run-Elected :
    (state : AwdlElectionState) (peers : List (AwdlElectionState × Bool))
    → HasAddr state
    → AllHaveAddr peers
    → Elected state peers (awdl_election_run state peers)
unfolding best_state_of reset_self
awdl_election_run-Elected state peers h hs =
    let w = awdl_election_run-HasWinner state peers h hs in
    elim w.candidate [
      | inl e ↦
          Elected.stays (w.adopted ∙ ap (adopt (reset_self state)) e ∙ own_lem state)
            λ c i k. w.unbeaten c (to_candidate state c peers i) (rw e k)
      | inr (p, e, i, beats) ↦
          Elected.follows p (w.adopted ∙ ap (adopt (reset_self state)) e ∙ follower_lem state p)
            (to_eligible state p peers i) beats
            λ c j k. w.unbeaten c (to_candidate state c peers j) (rw e k)
    ]

-- The heights that the peers announce are 32-bit numbers.
abbrev pub HaveHeights : List (AwdlElectionState × Bool) → Type 0
HaveHeights [] = Unit
HaveHeights (x ∷ xs) = (x.0.height < 2 ^ 32) × HaveHeights xs

-- The place of a node in the tree after a run.
pub record IsTree (state : AwdlElectionState) (peers : List (AwdlElectionState × Bool))
    (after : AwdlElectionState) : Type 0 where
  pub height_le : after.height ≤ 10
  pub master :
      (after.height ≡ 0)
        × (after.master_addr ≡ state.self_addr)
        × (after.sync_addr ≡ state.self_addr)
      ⊎ ((p : AwdlElectionState) × IsEligibleIn state p peers
          × (after.sync_addr ≡ p.self_addr)
          × (after.master_addr ≡ p.master_addr)
          × ((after.height ≡ p.height + 1) ⊎ (p.height ≡ 0xffffffff) × (after.height ≡ 0)))

eligible_height :
    (state p : AwdlElectionState) (peers : List (AwdlElectionState × Bool))
    → HaveHeights peers
    → IsEligibleIn state p peers
    → (p.height < 2 ^ 32) × (u32 (p.height + 1) ≤ 10)
eligible_height state p [] h i = elim i [ ]
eligible_height state p (x ∷ peers) h (inl (e, v, low, other)) = (rw e at (h.0), low)
eligible_height state p (x ∷ peers) h (inr i) = eligible_height state p peers h.1 i

-- After a run, for peers with 32-bit heights, the height that the node records is at most 10. The
-- node is its own master at height 0, or it syncs to an eligible peer and has this peer's master.
-- Then its height is one more than the peer's, except for a peer that announces the height
-- 0xffffffff: below it the node takes the height 0.
pub awdl_election_run-IsTree :
    (state : AwdlElectionState) (peers : List (AwdlElectionState × Bool))
    → HasAddr state
    → AllHaveAddr peers
    → HaveHeights peers
    → IsTree state peers (awdl_election_run state peers)
awdl_election_run-IsTree state peers h hs heights =
    elim (awdl_election_run-Elected state peers h hs) [
      | Elected.stays e unbeaten ↦
          rw e (record { height_le = omega arith; master = inl (refl, refl, refl) })
      | Elected.follows p e i beats unbeaten ↦
          let (small, low) = eligible_height state p peers heights i in
          rw e (record { height_le = low; master = inr (p, i, refl, refl, one_more p small) })
    ]
  where
    one_more :
        (p : AwdlElectionState)
        → p.height < 2 ^ 32
        → (u32 (p.height + 1) ≡ p.height + 1) ⊎ (p.height ≡ 0xffffffff) × (u32 (p.height + 1) ≡ 0)
    one_more p small = ground arith
