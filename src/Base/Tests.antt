-- ===== src/Base/Tests.antt =====
-- Boolean tests on the native numbers and on byte strings, and the conditional.
use Prim.Native.Nat.{ℕ, ◌<◌, compare, Ordering}
use mathlib.Core.Path.{◌≡◌, refl}
use mathlib.Core.Logic.{◌↔◌, ◌⊎◌, inl, inr}
use mathlib.Core.Bool.{Bool, true, false, ◌&&◌}
use mathlib.Core.List.{List, [], ◌∷◌}
use mathlib.Core.Option.{Option, none, some}
use native.Mathlib.Omega.{arith}

abbrev pub ltb : ℕ → ℕ → Bool
ltb a b = elim (compare a b) [ Ordering.lt ↦ true | _ ↦ false ]

abbrev pub leb : ℕ → ℕ → Bool
leb a b = elim (compare a b) [ Ordering.gt ↦ false | _ ↦ true ]

infix 50 ◌==◌
abbrev pub ◌==◌ : ℕ → ℕ → Bool
a == b = elim (compare a b) [ Ordering.eq ↦ true | _ ↦ false ]

infix 1 if◌then◌else◌
abbrev pub if◌then◌else◌ {ℓ} : {A : Type ℓ} → Bool → A → A → A
if true then x else y = x
if false then x else y = y

pub ltb→lt : (a b : ℕ) → ltb a b ≡ true → a < b
ltb→lt a b h = ground arith

pub lt→ltb : (a b : ℕ) → a < b → ltb a b ≡ true
lt→ltb a b h = ground arith

pub ==_iff : (a b : ℕ) → ((a == b) ≡ true) ↔ (a ≡ b)
==_iff a b = ground arith

pub Bool-cases : (b : Bool) → (b ≡ true) ⊎ (b ≡ false)
Bool-cases true = inl refl
Bool-cases false = inr refl

pub Option-cases {ℓ} : {A : Type ℓ} (o : Option A) → (o ≡ none) ⊎ ((a : A) × (o ≡ some a))
Option-cases none = inl refl
Option-cases (some a) = inr (a, refl)

-- `==` on arrays and slices of numbers.
unfoldable pub bytes_eq : List ℕ → List ℕ → Bool
bytes_eq [] [] = true
bytes_eq [] (b ∷ bs) = false
bytes_eq (a ∷ as') [] = false
bytes_eq (a ∷ as') (b ∷ bs) = (a == b) && bytes_eq as' bs

pub bytes_eq→eq : (a b : List ℕ) → bytes_eq a b ≡ true → a ≡ b
unfolding bytes_eq
bytes_eq→eq [] [] h = refl
bytes_eq→eq [] (b ∷ bs) h = cc
bytes_eq→eq (a ∷ as') [] h = cc
bytes_eq→eq (a ∷ as') (b ∷ bs) h = ground (arith, bytes_eq→eq as' bs)

pub bytes_eq_refl : (a : List ℕ) → bytes_eq a a ≡ true
unfolding bytes_eq
bytes_eq_refl [] = refl
bytes_eq_refl (a ∷ as') = ground (arith, bytes_eq_refl as')

pub bytes_eq_iff : (a b : List ℕ) → (bytes_eq a b ≡ true) ↔ (a ≡ b)
bytes_eq_iff a b = (bytes_eq→eq a b, λ e. ground (arith, bytes_eq_refl a))
