-- ===== src/Util.antt =====
-- src/util.rs: get_uti_type, the type identifier that a file has by its first bytes, and the slice
-- of a file that src/client.rs hands to it. An index out of range is the answer `panic`.
pub mod Header
mod Tests
use cosmicdrop.Base.{
  ℕ, ltb, leb, ◌==◌, Bool, true, false, ◌&&◌, if◌then◌else◌, List, [], ◌∷◌, length, take,
}
use cosmicdrop.Text.{starts_with}
use cosmicdrop.Wire.{WireResult, ok, slice, ◌>>=◌}

-- The identifiers, one constructor per string.
pub data UtiType : Type 0 where
  public_jpeg : UtiType
  public_png : UtiType
  com_compuserve_gif : UtiType
  public_image : UtiType
  public_zip_archive : UtiType
  org_gnu_gnu_zip_archive : UtiType
  public_data : UtiType
  com_adobe_pdf : UtiType
  public_content : UtiType

abbrev pub jpeg : List ℕ
jpeg = 0xff ∷ 0xd8 ∷ 0xff ∷ []

abbrev pub png : List ℕ
png = 0x89 ∷ 0x50 ∷ 0x4e ∷ 0x47 ∷ 0x0d ∷ 0x0a ∷ 0x1a ∷ 0x0a ∷ []

abbrev pub gif : List ℕ
gif = b'G' ∷ b'I' ∷ b'F' ∷ b'8' ∷ []

abbrev pub bmp : List ℕ
bmp = b'B' ∷ b'M' ∷ []

abbrev pub zip : List ℕ
zip = b'P' ∷ b'K' ∷ []

abbrev pub gzip : List ℕ
gzip = 0x1f ∷ 0x8b ∷ []

abbrev pub ustar : List ℕ
ustar = b'u' ∷ b's' ∷ b't' ∷ b'a' ∷ b'r' ∷ []

abbrev pub pdf : List ℕ
pdf = b'%' ∷ b'P' ∷ b'D' ∷ b'F' ∷ []

-- The test of a TAR archive; the second operand of each operator is evaluated only when needed.
unfoldable pub is_tar : List ℕ → WireResult Bool
is_tar bytes =
    if starts_with bytes ustar
    then ok true
    else (if leb 262 (length bytes)
        then slice bytes 257 262 >>= (λ name. ok (starts_with name ustar))
        else ok false)

unfoldable pub get_uti_type : List ℕ → WireResult UtiType
get_uti_type bytes =
    if starts_with bytes jpeg
    then ok public_jpeg
    else (if starts_with bytes png
        then ok public_png
        else (if starts_with bytes gif
            then ok com_compuserve_gif
            else (if starts_with bytes bmp
                then ok public_image
                else (if starts_with bytes zip
                    then ok public_zip_archive
                    else (if starts_with bytes gzip
                        then ok org_gnu_gnu_zip_archive
                        else is_tar bytes >>= (λ tar.
                          if tar
                          then ok public_data
                          else (if starts_with bytes pdf
                              then ok com_adobe_pdf
                              else ok public_content)))))))

-- `bytes.get(0..128).unwrap_or(&bytes[..]).to_vec()` of `ask`.
unfoldable pub header : List ℕ → List ℕ
header bytes = if leb 128 (length bytes) then take 128 bytes else bytes
