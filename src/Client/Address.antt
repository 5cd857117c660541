-- ===== src/Client/Address.antt =====
-- The choice of `select_airdrop_address` in src/client.rs.
use cosmicdrop.Base.{
  ℕ, ◌<◌, ◌≤◌, ◌==◌, Bool, true, false, if◌then◌else◌, List, [], ◌∷◌, Option, none, some, ◌≡◌, ◌⊎◌,
  inl, inr, refl, ap, ◌∙◌, sym, All, arith, max, bytes_eq, Bool-cases,
}
use cosmicdrop.Client.{select_from, select_airdrop_address}
use cosmicdrop.Config.{
  IpAddr, v6, is_ipv6, is_loopback, is_link_local, keep_first, loopback_segments,
}

abbrev pub loopback : IpAddr
loopback = v6 0 loopback_segments

-- How good an address is: link-local, any IPv6, IPv4, and of no use.
abbrev pub rank : IpAddr → ℕ
rank a = if is_loopback a then 0 else (if is_ipv6 a then (if is_link_local a then 3 else 2) else 1)

abbrev pub best_rank : List IpAddr → ℕ
best_rank [] = 0
best_rank (a ∷ addrs) = max (rank a) (best_rank addrs)

abbrev pub IsAmong : IpAddr → List IpAddr → Type 0
IsAmong a [] = ⊥
IsAmong a (b ∷ addrs) = (a ≡ b) ⊎ IsAmong a addrs

-- The variables of the loop hold an address of their rank.
abbrev HasRank : ℕ → Option IpAddr → Type 0
HasRank n none = Unit {0}
HasRank n (some a) = rank a ≡ n

abbrev rank_of : Option IpAddr → ℕ
rank_of none = 0
rank_of (some a) = rank a

rank-le : (a : IpAddr) → rank a ≤ 3
rank-le a = ground arith

best_rank-le : (addrs : List IpAddr) → best_rank addrs ≤ 3
best_rank-le [] = omega arith
best_rank-le (a ∷ addrs) = omega (arith, rank-le a, best_rank-le addrs)

rank-loopback : rank loopback ≡ 0
unfolding is_loopback bytes_eq
rank-loopback = refl

select_from-rank :
    (ipv6 ipv4 : Option IpAddr) (addrs : List IpAddr)
    → HasRank 2 ipv6
    → HasRank 1 ipv4
    → rank (select_from ipv6 ipv4 addrs) ≡ max (max (rank_of ipv6) (rank_of ipv4)) (best_rank addrs)
unfolding select_from
select_from-rank none none [] h k = rank-loopback
select_from-rank none (some b) [] h k = omega arith
select_from-rank (some a) none [] h k = omega arith
select_from-rank (some a) (some b) [] h k = omega arith
select_from-rank ipv6 ipv4 (a ∷ addrs) h k =
    let unchanged = select_from-rank ipv6 ipv4 addrs h k in
    elim (Bool-cases (is_loopback a)) [
      | inl l ↦ ground (arith, unchanged)
      | inr l ↦ elim (Bool-cases (is_ipv6 a)) [
        | inl v ↦ elim (Bool-cases (is_link_local a)) [
          | inl n ↦ ground (arith, best_rank-le addrs)
          | inr n ↦
              ground (arith, select_from-rank (keep_first ipv6 a) ipv4 addrs, best_rank-le addrs)
        ]
        | inr v ↦
            ground (arith, select_from-rank ipv6 (keep_first ipv4 a) addrs, best_rank-le addrs)
      ]
    ]

abbrev Holds : (IpAddr → Type 0) → Option IpAddr → Type 0
Holds P none = Unit {0}
Holds P (some a) = P a

keep_first-Holds :
    (P : IpAddr → Type 0) (o : Option IpAddr) (a : IpAddr)
    → Holds P o
    → P a
    → Holds P (keep_first o a)
keep_first-Holds P none a h k = k
keep_first-Holds P (some b) a h k = h

if-Holds : (P : IpAddr → Type 0) (b : Bool) (x y : IpAddr) → P x → P y → P (if b then x else y)
if-Holds P true x y h k = h
if-Holds P false x y h k = k

select_from-All :
    (P : IpAddr → Type 0) (ipv6 ipv4 : Option IpAddr) (addrs : List IpAddr)
    → P loopback
    → Holds P ipv6
    → Holds P ipv4
    → All P addrs
    → P (select_from ipv6 ipv4 addrs)
unfolding select_from
select_from-All P none none [] l h k all = l
select_from-All P none (some b) [] l h k all = k
select_from-All P (some a) ipv4 [] l h k all = h
select_from-All P ipv6 ipv4 (a ∷ addrs) l h k all =
    let unchanged = select_from-All P ipv6 ipv4 addrs l h k all.1 in
    if-Holds P (is_ipv6 a) _ _
      (if-Holds P (is_loopback a) _ _ unchanged (
        if-Holds P (is_link_local a) _ _ all.0 (
          select_from-All P (keep_first ipv6 a) ipv4 addrs l (keep_first-Holds P ipv6 a h all.0) k
            all.1)))
      (if-Holds P (is_loopback a) _ _ unchanged (
        select_from-All P ipv6 (keep_first ipv4 a) addrs l h (keep_first-Holds P ipv4 a k all.0)
          all.1))

-- Without a usable address the answer is the loopback address.
select_from_useless :
    (addrs : List IpAddr) → best_rank addrs ≡ 0 → select_from none none addrs ≡ loopback
unfolding select_from
select_from_useless [] h = refl
select_from_useless (a ∷ addrs) h = ground (arith, select_from_useless addrs)

All-among :
    (P : IpAddr → Type 0) (addrs : List IpAddr)
    → ((a : IpAddr) → IsAmong a addrs → P a)
    → All P addrs
All-among P [] f = tt
All-among P (a ∷ addrs) f = (f a (inl refl), All-among P addrs (λ b h. f b (inr h)))

-- Whatever the order of the addresses, the selected one is as good as the best of them: link-local
-- before any other IPv6 address before an IPv4 address, and no loopback address. It is one of the
-- addresses if one of them is of use, and the loopback address ::1 if none is.
pub select_airdrop_address-best :
    (addrs : List IpAddr)
    → (rank (select_airdrop_address addrs) ≡ best_rank addrs)
      × ((IsAmong (select_airdrop_address addrs) addrs × (0 < best_rank addrs))
          ⊎ ((select_airdrop_address addrs ≡ loopback) × (best_rank addrs ≡ 0)))
unfolding select_airdrop_address
select_airdrop_address-best addrs =
    let among = λ (a : IpAddr). IsAmong a addrs ⊎ (a ≡ loopback) in
    let ranked : rank (select_from none none addrs) ≡ best_rank addrs =
      select_from-rank none none addrs tt tt ∙ ground arith in
    let chosen : IsAmong (select_from none none addrs) addrs
        ⊎ (select_from none none addrs ≡ loopback) =
      select_from-All among none none addrs (inr refl) tt tt
        (All-among among addrs (λ a h. inl h)) in
    (
      ranked,
      elim (Bool-cases (best_rank addrs == 0)) [
        | inl z ↦
            let none_useful : best_rank addrs ≡ 0 = ground (arith, z) in
            inr (select_from_useless addrs none_useful, none_useful)
        | inr u ↦ elim chosen [
          | inl h ↦ inl (h, ground (arith, u))
          | inr e ↦
              let zero_rank : best_rank addrs ≡ 0 = sym ranked ∙ ap rank e ∙ rank-loopback in
              absurd (ground (arith, zero_rank, u))
        ]
      ],
    )
