-- ===== src/Election/Independence.antt =====
-- The peers come from a HashMap, whose iteration order is not defined: the outcome of the election
-- of src/awdl/election.rs does not depend on it.
use cosmicdrop.Base.{◌≡◌, inl, inr, sym, ap, ◌∙◌, arith, Bool, some, List}
use cosmicdrop.Election.{AwdlElectionState, reset_self, best_state_of, adopt, awdl_election_run}
use cosmicdrop.Election.Order.{
  Beats, compare_ether_addr-eq, compare_ether_addr_cases, compare_ether_addr_flip,
}
use cosmicdrop.Election.Outcome.{
  HasAddr, AllHaveAddr, IsCandidateIn, HasWinner, awdl_election_run-HasWinner, candidate-HasAddr,
}

-- Two states of which neither beats the other have the same address.
same_addr :
    (p q : AwdlElectionState)
    → HasAddr p
    → HasAddr q
    → ¬ Beats p q
    → ¬ Beats q p
    → p.self_addr ≡ q.self_addr
same_addr p q hp hq n m = compare_ether_addr-eq p.self_addr q.self_addr (omega arith) (
    grind (
      arith,
      compare_ether_addr_cases p.self_addr q.self_addr,
      compare_ether_addr_flip q.self_addr p.self_addr,
    ))

-- The candidates of one list are candidates of the other.
abbrev pub Includes :
    AwdlElectionState → List (AwdlElectionState × Bool) → List (AwdlElectionState × Bool) → Type 0
Includes state ps qs =
    (p : AwdlElectionState)
    → IsCandidateIn (reset_self state) p ps
    → IsCandidateIn (reset_self state) p qs

-- Candidates with the same address are the same.
abbrev pub IsKeyed : AwdlElectionState → List (AwdlElectionState × Bool) → Type 0
IsKeyed state ps =
    (p q : AwdlElectionState)
    → IsCandidateIn (reset_self state) p ps
    → IsCandidateIn (reset_self state) q ps
    → p.self_addr ≡ q.self_addr
    → p ≡ q

winners_agree :
    (state : AwdlElectionState) (ps qs : List (AwdlElectionState × Bool)) {r t : AwdlElectionState}
    → HasWinner state ps r
    → HasWinner state qs t
    → AllHaveAddr ps
    → Includes state ps qs
    → Includes state qs ps
    → IsKeyed state ps
    → r ≡ t
unfolding best_state_of
winners_agree state ps qs e f hp there back keyed = elim e.candidate [
  | inl en ↦ elim f.candidate [
    | inl fn ↦ e.adopted ∙ ap (adopt (reset_self state)) (en ∙ sym fn) ∙ sym f.adopted
    | inr (q, fq, iq, bq) ↦ absurd (e.unbeaten q (back q iq) (rw en bq))
  ]
  | inr (p, ep, ip, bp) ↦ elim f.candidate [
    | inl fn ↦ absurd (f.unbeaten p (there p ip) (rw fn bp))
    | inr (q, fq, iq, bq) ↦
        e.adopted
        ∙ ap (adopt (reset_self state)) (
            ep
            ∙ ap some (
                keyed p q ip (back q iq) (
                  same_addr p q (candidate-HasAddr _ p ps hp ip)
                    (candidate-HasAddr _ q ps hp (back q iq))
                    (λ b. f.unbeaten p (there p ip) (rw fq b))
                    (λ b. e.unbeaten q (back q iq) (rw ep b))))
            ∙ sym fq)
        ∙ sym f.adopted
  ]
]

-- Two lists with the same candidates, in any order and number, elect alike, if candidates with the
-- same address are the same (in the peer table the address is the key).
pub awdl_election_run_order :
    (state : AwdlElectionState) (ps qs : List (AwdlElectionState × Bool))
    → HasAddr state
    → AllHaveAddr ps
    → AllHaveAddr qs
    → Includes state ps qs
    → Includes state qs ps
    → IsKeyed state ps
    → awdl_election_run state ps ≡ awdl_election_run state qs
awdl_election_run_order state ps qs h hp hq =
    winners_agree state ps qs (awdl_election_run-HasWinner state ps h hp)
      (awdl_election_run-HasWinner state qs h hq) hp
