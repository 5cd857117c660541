-- ===== src/Table/Laws.antt =====
-- Laws of the table, in the form `get k (operation)`.
use cosmicdrop.Base.{
  ℕ, ◌≡◌, refl, arith, Bool, true, false, Bool-cases, List, [], ◌∷◌, none, some, if◌then◌else◌,
  bytes_eq, bytes_eq_iff, inl, inr,
}
use mathlib.Core.Option
use cosmicdrop.Table.{get, contains_key, modify, or_insert, remove, retain}

module _ {ℓ} {V : Type ℓ} where
  -- A predicate on every key and value.
  abbrev pub Entries {κ} : (List ℕ → V → Type κ) → List (List ℕ × V) → Type κ
  Entries P [] = Unit {κ}
  Entries P ((j, v) ∷ m) = P j v × Entries P m

  -- No key stands twice.
  abbrev pub HasKeysOnce : List (List ℕ × V) → Type 0
  HasKeysOnce [] = Unit
  HasKeysOnce ((j, v) ∷ m) = (contains_key j m ≡ false) × HasKeysOnce m

  pub get-modify :
      (k j : List ℕ) (f : V → V) (m : List (List ℕ × V))
      → get j (modify k f m) ≡ (if bytes_eq k j then Option.map f (get k m) else get j m)
  unfolding get modify
  get-modify k j f [] = ground arith
  get-modify k j f ((i, v) ∷ m) =
      ground (arith, bytes_eq_iff k j, bytes_eq_iff i k, bytes_eq_iff i j, get-modify k j f m)

  pub get-or_insert :
      (k j : List ℕ) (v : V) (m : List (List ℕ × V))
      → get j (or_insert k v m)
        ≡ (if bytes_eq k j then some (Option.get_or (get k m) v) else get j m)
  unfolding get or_insert
  get-or_insert k j v [] = ground (arith, bytes_eq_iff k j)
  get-or_insert k j v ((i, w) ∷ m) =
      ground (arith, bytes_eq_iff k j, bytes_eq_iff i k, bytes_eq_iff i j, get-or_insert k j v m)

  pub contains_key-or_insert :
      (k j : List ℕ) (v : V) (m : List (List ℕ × V))
      → contains_key j (or_insert k v m) ≡ (if bytes_eq k j then true else contains_key j m)
  unfolding contains_key or_insert
  contains_key-or_insert k j v [] = ground (arith, bytes_eq_iff k j)
  contains_key-or_insert k j v ((i, w) ∷ m) =
      ground (
        arith,
        bytes_eq_iff k j,
        bytes_eq_iff i k,
        bytes_eq_iff i j,
        contains_key-or_insert k j v m,
      )

  pub contains_key-modify :
      (k j : List ℕ) (f : V → V) (m : List (List ℕ × V))
      → contains_key j (modify k f m) ≡ contains_key j m
  unfolding contains_key modify
  contains_key-modify k j f [] = refl
  contains_key-modify k j f ((i, v) ∷ m) = ground (arith, contains_key-modify k j f m)

  contains_key-remove :
      (k j : List ℕ) (m : List (List ℕ × V))
      → contains_key j m ≡ false
      → contains_key j (remove k m) ≡ false
  unfolding contains_key remove
  contains_key-remove k j [] h = refl
  contains_key-remove k j ((i, v) ∷ m) h = ground (arith, contains_key-remove k j m)

  contains_key-retain :
      (keep : V → Bool) (j : List ℕ) (m : List (List ℕ × V))
      → contains_key j m ≡ false
      → contains_key j (retain keep m) ≡ false
  unfolding contains_key retain
  contains_key-retain keep j [] h = refl
  contains_key-retain keep j ((i, v) ∷ m) h = ground (arith, contains_key-retain keep j m)

  pub get-none : (j : List ℕ) (m : List (List ℕ × V)) → contains_key j m ≡ false → get j m ≡ none
  unfolding get contains_key
  get-none j [] h = refl
  get-none j ((i, v) ∷ m) h = ground (arith, get-none j m)

  pub get-some :
      (j : List ℕ) (m : List (List ℕ × V)) (v : V) → get j m ≡ some v → contains_key j m ≡ true
  unfolding get contains_key
  get-some j [] v h = cc
  get-some j ((i, w) ∷ m) v h = ground (arith, get-some j m v)

  pub contains_key-get :
      (j : List ℕ) (m : List (List ℕ × V))
      → contains_key j m ≡ elim (get j m) [ none ↦ false | some v ↦ true ]
  unfolding get contains_key
  contains_key-get j [] = refl
  contains_key-get j ((i, w) ∷ m) = ground (arith, contains_key-get j m)

  pub get-remove :
      (k j : List ℕ) (m : List (List ℕ × V))
      → HasKeysOnce m
      → get j (remove k m) ≡ (if bytes_eq k j then none else get j m)
  unfolding get remove
  get-remove k j [] h = ground arith
  get-remove k j ((i, v) ∷ m) h =
      ground (
        arith,
        bytes_eq_iff k j,
        bytes_eq_iff i k,
        bytes_eq_iff i j,
        get-remove k j m,
        get-none i m,
      )

  pub get-retain :
      (keep : V → Bool) (j : List ℕ) (m : List (List ℕ × V))
      → HasKeysOnce m
      → get j (retain keep m)
        ≡ elim (get j m) [ none ↦ none | some v ↦ if keep v then some v else none ]
  unfolding get retain
  get-retain keep j [] h = refl
  get-retain keep j ((i, v) ∷ m) h = ground (
    arith,
    bytes_eq_iff i j,
    get-retain keep j m,
    get-none i m,
    get-none i (retain keep m),
    contains_key-retain keep i m,
  )

  pub modify-HasKeysOnce :
      (k : List ℕ) (f : V → V) (m : List (List ℕ × V)) → HasKeysOnce m → HasKeysOnce (modify k f m)
  unfolding modify
  modify-HasKeysOnce k f [] h = tt
  modify-HasKeysOnce k f ((i, v) ∷ m) h =
      ground (arith, modify-HasKeysOnce k f m, contains_key-modify k i f m)

  pub or_insert-HasKeysOnce :
      (k : List ℕ) (v : V) (m : List (List ℕ × V)) → HasKeysOnce m → HasKeysOnce (or_insert k v m)
  unfolding or_insert contains_key
  or_insert-HasKeysOnce k v [] h = (refl, tt)
  or_insert-HasKeysOnce k v ((i, w) ∷ m) h = ground (
    arith,
    or_insert-HasKeysOnce k v m,
    contains_key-or_insert k i v m,
    bytes_eq_iff i k,
    bytes_eq_iff k i,
  )

  pub remove-HasKeysOnce :
      (k : List ℕ) (m : List (List ℕ × V)) → HasKeysOnce m → HasKeysOnce (remove k m)
  unfolding remove
  remove-HasKeysOnce k [] h = tt
  remove-HasKeysOnce k ((i, v) ∷ m) h =
      ground (arith, remove-HasKeysOnce k m, contains_key-remove k i m)

  pub retain-HasKeysOnce :
      (keep : V → Bool) (m : List (List ℕ × V)) → HasKeysOnce m → HasKeysOnce (retain keep m)
  unfolding retain
  retain-HasKeysOnce keep [] h = tt
  retain-HasKeysOnce keep ((i, v) ∷ m) h =
      ground (arith, retain-HasKeysOnce keep m, contains_key-retain keep i m)

  pub modify-Entries {κ} :
      (P : List ℕ → V → Type κ) (k : List ℕ) (f : V → V) (m : List (List ℕ × V))
      → ((j : List ℕ) (v : V) → P j v → P j (f v))
      → Entries P m
      → Entries P (modify k f m)
  unfolding modify
  modify-Entries P k f [] keep h = tt
  modify-Entries P k f ((i, v) ∷ m) keep h = elim (Bool-cases (bytes_eq i k)) [
    | inl e ↦ rw e (keep i v h.0, h.1)
    | inr n ↦ rw n (h.0, modify-Entries P k f m keep h.1)
  ]

  pub or_insert-Entries {κ} :
      (P : List ℕ → V → Type κ) (k : List ℕ) (v : V) (m : List (List ℕ × V))
      → P k v
      → Entries P m
      → Entries P (or_insert k v m)
  unfolding or_insert
  or_insert-Entries P k v [] hv h = (hv, tt)
  or_insert-Entries P k v ((i, w) ∷ m) hv h = elim (Bool-cases (bytes_eq i k)) [
    | inl e ↦ rw e h
    | inr n ↦ rw n (h.0, or_insert-Entries P k v m hv h.1)
  ]

  pub remove-Entries {κ} :
      (P : List ℕ → V → Type κ) (k : List ℕ) (m : List (List ℕ × V))
      → Entries P m
      → Entries P (remove k m)
  unfolding remove
  remove-Entries P k [] h = tt
  remove-Entries P k ((i, w) ∷ m) h = elim (Bool-cases (bytes_eq i k)) [
    | inl e ↦ rw e h.1
    | inr n ↦ rw n (h.0, remove-Entries P k m h.1)
  ]

  pub retain-Entries {κ} :
      (P : List ℕ → V → Type κ) (keep : V → Bool) (m : List (List ℕ × V))
      → Entries P m
      → Entries P (retain keep m)
  unfolding retain
  retain-Entries P keep [] h = tt
  retain-Entries P keep ((i, w) ∷ m) h = elim (Bool-cases (keep w)) [
    | inl e ↦ rw e (h.0, retain-Entries P keep m h.1)
    | inr n ↦ rw n (retain-Entries P keep m h.1)
  ]
