-- ===== src/Election/Tests.antt =====
-- Runs of the election, and the theorems of its component at small inputs.
use cosmicdrop.Base.{
  ℕ, ◌≡◌, refl, arith, true, false, List, [], ◌∷◌, inl, inr, ap, sym, bytes_eq, get_or, ◌∙◌,
}
use cosmicdrop.Base.Int.{pos, negsuc}
use cosmicdrop.Election.{
  EtherAddr, AwdlElectionState, new, reset_self, awdl_election_run, compare_ether_addr,
  is_candidate, best_peer, adopt, best_state_of, accepts,
}
use cosmicdrop.Election.Adoption.{
  Elected, IsTree, awdl_election_run-Elected, awdl_election_run-IsTree,
}
use cosmicdrop.Election.Independence.{Includes, IsKeyed, awdl_election_run_order}

abbrev addr : ℕ → EtherAddr
addr n = 0 ∷ 0 ∷ 0 ∷ 0 ∷ 0 ∷ n ∷ []

abbrev node : AwdlElectionState
unfolding new
node = new (addr 6)

-- A peer with counter 10, and one that is further from the same master.
abbrev near : AwdlElectionState
unfolding new
near = record (new (addr 2)) { master_counter = 10; self_counter = 10 }

abbrev far : AwdlElectionState
unfolding new
far = record (new (addr 9)) { master_addr = addr 2; master_counter = 10; height = 1 }

-- As in the test of the source: the higher counter wins.
chooses_higher_counter :
    ((awdl_election_run node ((near, true) ∷ [])).sync_addr ≡ addr 2)
    × ((awdl_election_run node ((near, true) ∷ [])).height ≡ 1)
unfolding awdl_election_run best_peer adopt reset_self is_candidate accepts best_state_of new
    bytes_eq
chooses_higher_counter = (refl, refl)

ignores_invalid : awdl_election_run node ((near, false) ∷ []) ≡ node
unfolding awdl_election_run best_peer adopt reset_self is_candidate accepts best_state_of new
ignores_invalid = refl

compares :
    (compare_ether_addr (addr 1) (addr 2) ≡ negsuc 0)
    × (compare_ether_addr (addr 2) (addr 1) ≡ pos 1)
unfolding compare_ether_addr
compares = (refl, refl)

awdl_election_run-Elected_example :
    Elected node
      ((far, true) ∷ (near, true) ∷ [])
      (awdl_election_run node ((far, true) ∷ (near, true) ∷ []))
unfolding new
awdl_election_run-Elected_example =
    awdl_election_run-Elected node ((far, true) ∷ (near, true) ∷ []) refl (refl, (refl, tt))

awdl_election_run-IsTree_example :
    IsTree node
      ((far, true) ∷ (near, true) ∷ [])
      (awdl_election_run node ((far, true) ∷ (near, true) ∷ []))
unfolding new
awdl_election_run-IsTree_example =
    awdl_election_run-IsTree node ((far, true) ∷ (near, true) ∷ []) refl (refl, (refl, tt))
      (omega arith, (omega arith, tt))

flip : Includes node ((far, true) ∷ (near, true) ∷ []) ((near, true) ∷ (far, true) ∷ [])
flip p (inl e) = inr (inl e)
flip p (inr (inl e)) = inl e
flip p (inr (inr i)) = elim i [ ]

flop : Includes node ((near, true) ∷ (far, true) ∷ []) ((far, true) ∷ (near, true) ∷ [])
flop p (inl e) = inr (inl e)
flop p (inr (inl e)) = inl e
flop p (inr (inr i)) = elim i [ ]

nine_ne_two : ¬ (addr 9 ≡ addr 2)
nine_ne_two e = absurd (omega (arith, ap (λ (a : List ℕ). get_or a 5 0) e))

self_of : AwdlElectionState → EtherAddr
self_of p = p.self_addr

keyed : IsKeyed node ((far, true) ∷ (near, true) ∷ [])
unfolding new self_of
keyed p q (inl (e, g)) (inl (f, k)) a = cc
keyed p q (inl (e, g)) (inr (inl (f, k))) a =
    absurd (nine_ne_two (ap self_of e ∙ a ∙ sym (ap self_of f)))
keyed p q (inl (e, g)) (inr (inr i)) a = elim i [ ]
keyed p q (inr (inl (e, g))) (inl (f, k)) a =
    absurd (nine_ne_two (ap self_of f ∙ sym a ∙ sym (ap self_of e)))
keyed p q (inr (inl (e, g))) (inr (inl (f, k))) a = cc
keyed p q (inr (inl (e, g))) (inr (inr i)) a = elim i [ ]
keyed p q (inr (inr i)) j a = elim i [ ]

awdl_election_run_order_example :
    awdl_election_run node ((far, true) ∷ (near, true) ∷ [])
    ≡ awdl_election_run node ((near, true) ∷ (far, true) ∷ [])
unfolding new
awdl_election_run_order_example =
    awdl_election_run_order node ((far, true) ∷ (near, true) ∷ []) ((near, true) ∷ (far, true) ∷ [])
      refl (refl, (refl, tt)) (refl, (refl, tt)) flip flop keyed
