-- ===== src/Election/Outcome.antt =====
-- Which peer the election of src/awdl/election.rs adopts.
use cosmicdrop.Base.{
  ◌≡◌, ◌⊎◌, inl, inr, refl, arith, Bool, true, false, Bool-cases, Option, none, some, List, [], ◌∷◌,
  length,
}
use cosmicdrop.Election.{
  AwdlElectionState, reset_self, is_candidate, accepts, best_state_of, best_peer, adopt,
  awdl_election_run,
}
use cosmicdrop.Election.Order.{Beats, accepts_iff, Beats-trans, compare_ether_addr_refl}

-- `p` stands in the list as a peer that the filters let through.
abbrev pub IsCandidateIn :
    AwdlElectionState → AwdlElectionState → List (AwdlElectionState × Bool) → Type 0
IsCandidateIn state p [] = ⊥
IsCandidateIn state p (x ∷ xs) =
    ((x.0 ≡ p) × (is_candidate state x ≡ true)) ⊎ IsCandidateIn state p xs

abbrev pub HasAddr : AwdlElectionState → Type 0
HasAddr p = length p.self_addr ≡ 6

abbrev pub AllHaveAddr : List (AwdlElectionState × Bool) → Type 0
AllHaveAddr [] = Unit
AllHaveAddr (x ∷ xs) = HasAddr (x.0) × AllHaveAddr xs

Beats-irrefl : (p : AwdlElectionState) → ¬ Beats p p
Beats-irrefl p h = ground (arith, compare_ether_addr_refl p.self_addr)

-- What the loop over the peers leaves, from any best so far.
pub record IsBest (state : AwdlElectionState) (best : Option AwdlElectionState)
    (peers : List (AwdlElectionState × Bool)) (b : Option AwdlElectionState) : Type 0 where
  pub has_addr : HasAddr (best_state_of state b)
  pub from : (b ≡ best) ⊎ ((p : AwdlElectionState) × (b ≡ some p) × IsCandidateIn state p peers)
  pub improves : (b ≡ best) ⊎ Beats (best_state_of state b) (best_state_of state best)
  pub unbeaten :
      (c : AwdlElectionState) → IsCandidateIn state c peers → ¬ Beats c (best_state_of state b)

module _ (state : AwdlElectionState) (x : AwdlElectionState) (v : Bool)
    (peers : List (AwdlElectionState × Bool)) (b : Option AwdlElectionState) where
  -- A peer that the filters stop changes nothing.
  filtered :
      {best : Option AwdlElectionState}
      → is_candidate state (x, v) ≡ false
      → IsBest state best peers b
      → IsBest state best ((x, v) ∷ peers) b
  filtered stop r = record {
    has_addr = r.has_addr;
    from = elim r.from [ inl e ↦ inl e | inr (p, e, i) ↦ inr (p, e, inr i) ];
    improves = r.improves;
    unbeaten = λ c i. elim i [ inl (e, go) ↦ λ k. cc | inr j ↦ r.unbeaten c j ];
  }

  -- A candidate that does not beat the best so far does not beat the final one.
  rejected :
      {best : Option AwdlElectionState}
      → HasAddr x
      → HasAddr (best_state_of state best)
      → accepts (best_state_of state best) x ≡ false
      → IsBest state best peers b
      → IsBest state best ((x, v) ∷ peers) b
  rejected {best} hx hb stop r = record {
    has_addr = r.has_addr;
    from = elim r.from [ inl e ↦ inl e | inr (p, e, i) ↦ inr (p, e, inr i) ];
    improves = r.improves;
    unbeaten =
        λ c i. elim i [ inl (e, go) ↦ λ k. not_first (rw (← e) at k) | inr j ↦ r.unbeaten c j ];
  }
    where
      not_first : ¬ Beats x (best_state_of state b)
      not_first k = elim r.improves [
        | inl e ↦ cc ((accepts_iff (best_state_of state best) x).1 (rw e at k))
        | inr l ↦ cc (
            (accepts_iff (best_state_of state best) x).1 (
              Beats-trans x (best_state_of state b) (best_state_of state best)
                (omega (arith, r.has_addr)) (omega (arith, r.has_addr)) k l))
      ]

  -- A candidate that beats the best so far takes its place.
  accepted :
      {best : Option AwdlElectionState}
      → HasAddr x
      → HasAddr (best_state_of state best)
      → is_candidate state (x, v) ≡ true
      → accepts (best_state_of state best) x ≡ true
      → IsBest state (some x) peers b
      → IsBest state best ((x, v) ∷ peers) b
  unfolding best_state_of
  accepted {best} hx hb go take r = record {
    has_addr = r.has_addr;
    from = elim r.from [ inl e ↦ inr (x, e, inl (refl, go)) | inr (p, e, i) ↦ inr (p, e, inr i) ];
    improves = inr (elim r.improves [
      | inl e ↦ rw e wins
      | inr l ↦
          Beats-trans (best_state_of state b) x (best_state_of state best)
            (omega (arith, r.has_addr)) (omega arith) l wins
    ]);
    unbeaten =
        λ c i. elim i [ inl (e, go') ↦ λ k. not_first (rw (← e) at k) | inr j ↦ r.unbeaten c j ];
  }
    where
      wins : Beats x (best_state_of state best)
      wins = (accepts_iff (best_state_of state best) x).0 take

      not_first : ¬ Beats x (best_state_of state b)
      not_first k = elim r.improves [
        | inl e ↦ Beats-irrefl x (rw e at k)
        | inr l ↦ Beats-irrefl x (
            Beats-trans x (best_state_of state b) x (omega (arith, r.has_addr))
              (omega (arith, r.has_addr)) k l)
      ]

best_peer-IsBest :
    (state : AwdlElectionState) (best : Option AwdlElectionState)
    (peers : List (AwdlElectionState × Bool))
    → HasAddr (best_state_of state best)
    → AllHaveAddr peers
    → IsBest state best peers (best_peer state best peers)
unfolding best_peer
best_peer-IsBest state best [] h hs = record {
  has_addr = h;
  from = inl refl;
  improves = inl refl;
  unbeaten = λ c i. elim i [ ];
}
best_peer-IsBest state best ((x, v) ∷ peers) h hs = elim (Bool-cases (is_candidate state (x, v))) [
  | inr stop ↦ rw stop (filtered state x v peers _ stop (best_peer-IsBest state best peers h hs.1))
  | inl go ↦ elim (Bool-cases (accepts (best_state_of state best) x)) [
    | inl take ↦
        rw (go, take)
          (accepted state x v peers _ hs.0 h go take
            (best_peer-IsBest state (some x) peers (unfold best_state_of in hs.0) hs.1))
    | inr stop ↦
        rw (go, stop)
          (rejected state x v peers _ hs.0 h stop (best_peer-IsBest state best peers h hs.1))
  ]
]

pub candidate-HasAddr :
    (state p : AwdlElectionState) (peers : List (AwdlElectionState × Bool))
    → AllHaveAddr peers
    → IsCandidateIn state p peers
    → HasAddr p
candidate-HasAddr state p [] h i = elim i [ ]
candidate-HasAddr state p (x ∷ peers) h (inl (e, go)) = rw e at (h.0)
candidate-HasAddr state p (x ∷ peers) h (inr i) = candidate-HasAddr state p peers h.1 i

-- The winner of a run, by the tests of the source.
pub record HasWinner (state : AwdlElectionState) (peers : List (AwdlElectionState × Bool))
    (result : AwdlElectionState) : Type 0 where
  pub winner : Option AwdlElectionState
  pub adopted : result ≡ adopt (reset_self state) winner
  pub candidate :
      (winner ≡ none)
      ⊎ ((p : AwdlElectionState) × (winner ≡ some p)
          × IsCandidateIn (reset_self state) p peers
          × Beats p (reset_self state))
  pub unbeaten :
      (c : AwdlElectionState)
      → IsCandidateIn (reset_self state) c peers
      → ¬ Beats c (best_state_of (reset_self state) winner)

winner-Beats :
    (state : AwdlElectionState) (peers : List (AwdlElectionState × Bool))
    {b : Option AwdlElectionState}
    → IsBest state none peers b
    → (b ≡ none)
      ⊎ ((p : AwdlElectionState) × (b ≡ some p) × IsCandidateIn state p peers × Beats p state)
unfolding best_state_of
winner-Beats state peers {b} r = elim r.from [
  | inl e ↦ inl e
  | inr (p, e, i) ↦ elim r.improves [ inl e' ↦ inl e' | inr l ↦ inr (p, e, i, rw e at l) ]
]

-- A run adopts the winner of the loop over the peers.
pub awdl_election_run-HasWinner :
    (state : AwdlElectionState) (peers : List (AwdlElectionState × Bool))
    → HasAddr state
    → AllHaveAddr peers
    → HasWinner state peers (awdl_election_run state peers)
unfolding awdl_election_run
awdl_election_run-HasWinner state peers h hs =
    let r =
      best_peer-IsBest (reset_self state) none peers (unfold best_state_of reset_self in h) hs in
    record {
      winner = best_peer (reset_self state) none peers;
      adopted = refl;
      candidate = winner-Beats (reset_self state) peers r;
      unbeaten = r.unbeaten;
    }
