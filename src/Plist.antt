-- ===== src/Plist.antt =====
-- The property lists that src/client.rs and src/server.rs build and read: the constructors and the
-- dictionary calls of the plist library that they name. Its binary format is a parameter.
use cosmicdrop.Base.{ℕ, Bool, if◌then◌else◌, List, Option, none, some, bytes_eq}

mutual
  pub data Value : Type 0 where
    dictionary : Dictionary → Value
    array : Values → Value
    string : List ℕ → Value
    data_bytes : List ℕ → Value
    boolean : Bool → Value
    integer : ℕ → Value
    other : ℕ → Value

  pub data Dictionary : Type 0 where
    empty : Dictionary
    entry : List ℕ → Value → Dictionary → Dictionary

  pub data Values : Type 0 where
    nil : Values
    cons : Value → Values → Values

-- `dictionary.insert(key, value)` keeps the place of a key that is there.
unfoldable pub insert : Dictionary → List ℕ → Value → Dictionary
insert empty key value = entry key value empty
insert (entry k v d) key value =
    let later = insert d key value in if bytes_eq k key then entry k value d else entry k v later

-- `dictionary.get(key)`.
unfoldable pub get : Dictionary → List ℕ → Option Value
get empty key = none
get (entry k v d) key = let later = get d key in if bytes_eq k key then some v else later

abbrev pub as_dictionary : Value → Option Dictionary
as_dictionary (dictionary d) = some d
as_dictionary _ = none

abbrev pub as_string : Value → Option (List ℕ)
as_string (string s) = some s
as_string _ = none

-- The first element of an array.
abbrev pub first_of : Value → Option Value
first_of (array (cons v vs)) = some v
first_of _ = none

-- `Option::and_then`.
abbrev pub and_then {ℓ κ} : {A : Type ℓ} {B : Type κ} → Option A → (A → Option B) → Option B
and_then none f = none
and_then (some a) f = f a

-- The binary format: `to_writer_binary` and `from_reader`.
pub record PlistLib : Type 0 where
  pub to_binary : Value → Option (List ℕ)
  pub from_reader : List ℕ → Option Value
