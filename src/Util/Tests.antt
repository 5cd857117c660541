-- ===== src/Util/Tests.antt =====
-- The type of files by src/util.rs at small inputs.
use cosmicdrop.Base.{ℕ, ◌≡◌, ◌≢◌, refl, List, [], ◌∷◌, ◌++◌, replicate, take}
use cosmicdrop.Util.{get_uti_type, header, png, ustar, public_png, public_data, public_content}
use cosmicdrop.Util.Header.{get_uti_type-header}
use cosmicdrop.Wire.{ok, panic}

abbrev tar : List ℕ
tar = replicate 257 0 ++ (ustar ++ replicate 250 0)

archive : get_uti_type tar ≡ ok public_data
unfolding get_uti_type cosmicdrop.Util.is_tar cosmicdrop.Text.starts_with cosmicdrop.Wire.slice
archive = refl

-- A client that sends the archive states another type.
sent_archive : get_uti_type (header tar) ≡ ok public_content
unfolding get_uti_type header cosmicdrop.Util.is_tar cosmicdrop.Text.starts_with
sent_archive = refl

picture : get_uti_type (png ++ (1 ∷ 2 ∷ [])) ≡ ok public_png
unfolding get_uti_type cosmicdrop.Text.starts_with
picture = refl

get_uti_type-header_example :
    (get_uti_type (header tar) ≡ get_uti_type (take 8 tar)) × (get_uti_type [] ≢ panic)
get_uti_type-header_example = get_uti_type-header tar []
