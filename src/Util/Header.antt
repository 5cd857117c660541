-- ===== src/Util/Header.antt =====
-- What get_uti_type of src/util.rs sees of a file that src/client.rs sends.
use cosmicdrop.Base.{
  ℕ, zero, suc, ◌<◌, leb, ◌==◌, true, ◌&&◌, if◌then◌else◌, ◌≡◌, ◌≢◌, refl, sym, ap, ◌∙◌, arith,
  List, [], ◌∷◌, length, take, length-take, take-length,
}
use cosmicdrop.Util.{get_uti_type, is_tar, header, jpeg, png, gif, bmp, zip, gzip, ustar, pdf}
use cosmicdrop.Text.{starts_with}
use cosmicdrop.Wire.{ok, panic, slice}

starts_with-take :
    (n : ℕ) (bytes prefix : List ℕ)
    → leb (length prefix) n ≡ true
    → starts_with (take n bytes) prefix ≡ starts_with bytes prefix
unfolding starts_with
starts_with-take n bytes [] fits = refl
starts_with-take zero [] (p ∷ prefix) fits = refl
starts_with-take zero (b ∷ bytes) (p ∷ prefix) fits = ground arith
starts_with-take (suc n) [] (p ∷ prefix) fits = refl
starts_with-take (suc n) (b ∷ bytes) (p ∷ prefix) fits =
    ap (λ t. (b == p) && t) (starts_with-take n bytes prefix (ground arith))

-- `get(0..n).unwrap_or(..)`.
get_or_all :
    (n : ℕ) (bytes : List ℕ) → (if leb n (length bytes) then take n bytes else bytes) ≡ take n bytes
get_or_all n bytes = ground (arith, take-length bytes n)

header-take : (bytes : List ℕ) → header bytes ≡ take 128 bytes
unfolding header
header-take bytes = get_or_all 128 bytes

is_tar_short : (bytes : List ℕ) → length bytes < 262 → is_tar bytes ≡ ok (starts_with bytes ustar)
unfolding is_tar
is_tar_short bytes short = ground arith

is_tar_ne_panic : (bytes : List ℕ) → is_tar bytes ≢ panic
unfolding is_tar slice
is_tar_ne_panic bytes = λ p. ground arith

get_uti_type_ne_panic : (bytes : List ℕ) → get_uti_type bytes ≢ panic
unfolding get_uti_type
get_uti_type_ne_panic bytes = λ p. ground (arith, is_tar_ne_panic bytes)

-- Two short files that start alike have one type.
get_uti_type_short :
    (xs ys : List ℕ)
    → length xs < 262
    → length ys < 262
    → ((prefix : List ℕ)
        → leb (length prefix) 8 ≡ true
        → starts_with xs prefix ≡ starts_with ys prefix)
    → get_uti_type xs ≡ get_uti_type ys
unfolding get_uti_type
get_uti_type_short xs ys short_xs short_ys alike =
    rw
      (
        is_tar_short xs short_xs,
        is_tar_short ys short_ys,
        alike jpeg refl,
        alike png refl,
        alike gif refl,
        alike bmp refl,
        alike zip refl,
        alike gzip refl,
        alike ustar refl,
        alike pdf refl,
      )
      refl

-- The type that a client states for a file, from its first 128 bytes, is the type of its first
-- eight bytes alone. No bytes at all make `get_uti_type` panic.
pub get_uti_type-header :
    (bytes others : List ℕ)
    → (get_uti_type (header bytes) ≡ get_uti_type (take 8 bytes)) × (get_uti_type others ≢ panic)
get_uti_type-header bytes others = (
  ap get_uti_type (header-take bytes)
      ∙ get_uti_type_short (take 128 bytes) (take 8 bytes) (omega (arith, length-take 128 bytes))
          (omega (arith, length-take 8 bytes))
          (λ prefix fits.
            starts_with-take 128 bytes prefix (ground arith)
            ∙ sym (starts_with-take 8 bytes prefix fits)),
  get_uti_type_ne_panic others,
)
