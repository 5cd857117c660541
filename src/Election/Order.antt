-- ===== src/Election/Order.antt =====
-- The strict order in which src/awdl/election.rs prefers one election state to another.
use cosmicdrop.Base.{◌<◌, ◌≡◌, ◌⊎◌, ◌↔◌, inl, refl, arith, true, [], ◌∷◌, length}
use cosmicdrop.Base.Int.{pos, negsuc}
use cosmicdrop.Election.{
  EtherAddr, AwdlElectionState, compare_ether_addr, compare_u32, awdl_election_compare_master,
  accepts,
}

-- Two addresses of the same length compare as equal only if they are.
pub compare_ether_addr-eq :
    (a b : EtherAddr) → length a ≡ length b → compare_ether_addr a b ≡ pos 0 → a ≡ b
unfolding compare_ether_addr
compare_ether_addr-eq [] [] l h = refl
compare_ether_addr-eq [] (y ∷ b) l h = absurd (omega arith)
compare_ether_addr-eq (x ∷ a) [] l h = absurd (omega arith)
compare_ether_addr-eq (x ∷ a) (y ∷ b) l h = ground (arith, compare_ether_addr-eq a b (omega arith))

pub compare_ether_addr_refl : (a : EtherAddr) → compare_ether_addr a a ≡ pos 0
unfolding compare_ether_addr
compare_ether_addr_refl [] = refl
compare_ether_addr_refl (x ∷ a) = ground (arith, compare_ether_addr_refl a)

pub compare_ether_addr_flip :
    (a b : EtherAddr) → (compare_ether_addr a b ≡ pos 1) ↔ (compare_ether_addr b a ≡ negsuc 0)
unfolding compare_ether_addr
compare_ether_addr_flip [] [] = (λ e. cc, λ e. cc)
compare_ether_addr_flip [] (y ∷ b) = (λ e. cc, λ e. cc)
compare_ether_addr_flip (x ∷ a) [] = (λ e. cc, λ e. cc)
compare_ether_addr_flip (x ∷ a) (y ∷ b) = ground (arith, compare_ether_addr_flip a b)

pub compare_ether_addr_trans :
    (a b c : EtherAddr)
    → length a ≡ length b
    → length b ≡ length c
    → compare_ether_addr a b ≡ pos 1
    → compare_ether_addr b c ≡ pos 1
    → compare_ether_addr a c ≡ pos 1
unfolding compare_ether_addr
compare_ether_addr_trans [] [] [] l m h k = cc
compare_ether_addr_trans [] [] (z ∷ c) l m h k = cc
compare_ether_addr_trans [] (y ∷ b) c l m h k = cc
compare_ether_addr_trans (x ∷ a) [] c l m h k = cc
compare_ether_addr_trans (x ∷ a) (y ∷ b) [] l m h k = cc
compare_ether_addr_trans (x ∷ a) (y ∷ b) (z ∷ c) l m h k =
    ground (arith, compare_ether_addr_trans a b c)

-- Its three answers.
pub compare_ether_addr_cases :
    (a b : EtherAddr)
    → (compare_ether_addr a b ≡ pos 0)
      ⊎ ((compare_ether_addr a b ≡ pos 1) ⊎ (compare_ether_addr a b ≡ negsuc 0))
unfolding compare_ether_addr
compare_ether_addr_cases [] b = inl refl
compare_ether_addr_cases (x ∷ a) [] = inl refl
compare_ether_addr_cases (x ∷ a) (y ∷ b) = ground (arith, compare_ether_addr_cases a b)

-- `p` is strictly preferred to `q`: a higher counter, then a higher metric, then a shorter path
-- to the master, then a higher address.
abbrev pub Beats : AwdlElectionState → AwdlElectionState → Type 0
Beats p q =
    (q.master_counter < p.master_counter)
    ⊎ (q.master_counter ≡ p.master_counter)
      × ((q.master_metric < p.master_metric)
          ⊎ (q.master_metric ≡ p.master_metric)
            × ((p.height < q.height)
                ⊎ (p.height ≡ q.height) × (compare_ether_addr p.self_addr q.self_addr ≡ pos 1)))

-- The loop replaces its best state by a peer exactly when the peer beats it.
pub accepts_iff : (q p : AwdlElectionState) → (accepts q p ≡ true) ↔ Beats p q
unfolding accepts awdl_election_compare_master compare_u32
accepts_iff q p = (
  ground (arith, compare_ether_addr_cases p.self_addr q.self_addr),
  ground (arith, compare_ether_addr_cases p.self_addr q.self_addr),
)

pub Beats-trans :
    (p q r : AwdlElectionState)
    → length p.self_addr ≡ length q.self_addr
    → length q.self_addr ≡ length r.self_addr
    → Beats p q
    → Beats q r
    → Beats p r
Beats-trans p q r l m h k =
    ground (arith, compare_ether_addr_trans p.self_addr q.self_addr r.self_addr)
