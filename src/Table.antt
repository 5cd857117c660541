-- ===== src/Table.antt =====
-- `std::collections::HashMap<[u8; 6], V>` as src/awdl/peers.rs uses it: an association list in
-- iteration order. The order is not defined by the library; new keys are put last here.
pub mod Laws
use cosmicdrop.Base.{
  Bool, true, false, List, [], ◌∷◌, Option, none, some, if◌then◌else◌, bytes_eq, ℕ,
}

module _ {ℓ} {V : Type ℓ} where
  unfoldable pub get : List ℕ → List (List ℕ × V) → Option V
  get k [] = none
  get k ((j, v) ∷ m) = if bytes_eq j k then some v else get k m

  unfoldable pub contains_key : List ℕ → List (List ℕ × V) → Bool
  contains_key k [] = false
  contains_key k ((j, v) ∷ m) = if bytes_eq j k then true else contains_key k m

  -- `get_mut` followed by a write through the reference; no effect on a missing key.
  unfoldable pub modify : List ℕ → (V → V) → List (List ℕ × V) → List (List ℕ × V)
  modify k f [] = []
  modify k f ((j, v) ∷ m) = if bytes_eq j k then (j, f v) ∷ m else (j, v) ∷ modify k f m

  -- `entry(k).or_insert_with(|| v)`, without the reference.
  unfoldable pub or_insert : List ℕ → V → List (List ℕ × V) → List (List ℕ × V)
  or_insert k v [] = (k, v) ∷ []
  or_insert k v ((j, w) ∷ m) = if bytes_eq j k then (j, w) ∷ m else (j, w) ∷ or_insert k v m

  unfoldable pub remove : List ℕ → List (List ℕ × V) → List (List ℕ × V)
  remove k [] = []
  remove k ((j, v) ∷ m) = if bytes_eq j k then m else (j, v) ∷ remove k m

  unfoldable pub retain : (V → Bool) → List (List ℕ × V) → List (List ℕ × V)
  retain keep [] = []
  retain keep ((j, v) ∷ m) = if keep v then (j, v) ∷ retain keep m else retain keep m

  unfoldable pub values : List (List ℕ × V) → List V
  values [] = []
  values ((j, v) ∷ m) = v ∷ values m
