-- ===== src/Client/Requests.antt =====
-- The requests of src/client.rs: their bodies, and what the client makes of the answers. The binary
-- format of property lists, the archive of a file and its icon come from libraries.
use cosmicdrop.Base.{ℕ, Bool, false, if◌then◌else◌, List, [], ◌++◌, Option, none, some}
use cosmicdrop.Client.{upload_headers}
use cosmicdrop.Config.{AirDropConfig, or_else}
use cosmicdrop.Plist.{
  Value, Dictionary, PlistLib, dictionary, array, string, data_bytes, boolean, integer, empty, nil,
  cons, insert, get, as_dictionary, as_string, and_then,
}
use cosmicdrop.Text.{codes}
use cosmicdrop.Util.{
  UtiType, public_jpeg, public_png, com_compuserve_gif, public_image, public_zip_archive,
  org_gnu_gnu_zip_archive, public_data, com_adobe_pdf, public_content, get_uti_type, header,
}
use cosmicdrop.Wire.{WireResult, ok, ◌>>=◌}

abbrev pub insert_data : Dictionary → List ℕ → Option (List ℕ) → Dictionary
insert_data d key none = d
insert_data d key (some bytes) = insert d key (data_bytes bytes)

unfoldable pub discover_request : AirDropConfig → Value
discover_request config =
    dictionary (insert_data empty (codes "SenderRecordData") config.record_data)

-- The name in the answer to a discover request; the success of the request does not matter.
unfoldable pub discover_name : PlistLib → Option (Bool × List ℕ) → Option (List ℕ)
discover_name plists none = none
discover_name plists (some (success, resp)) =
    and_then
      (and_then (and_then (plists.from_reader resp) as_dictionary)
        (λ dict. get dict (codes "ReceiverComputerName")))
      as_string

unfoldable pub uti_text : UtiType → List ℕ
uti_text public_jpeg = codes "public.jpeg"
uti_text public_png = codes "public.png"
uti_text com_compuserve_gif = codes "com.compuserve.gif"
uti_text public_image = codes "public.image"
uti_text public_zip_archive = codes "public.zip-archive"
uti_text org_gnu_gnu_zip_archive = codes "org.gnu.gnu-zip-archive"
uti_text public_data = codes "public.data"
uti_text com_adobe_pdf = codes "com.adobe.pdf"
uti_text public_content = codes "public.content"

-- A file as the client finds it: the last part of its path, whether it is a directory, its contents
-- and its icon.
pub record SentFile : Type 0 where
  pub file_name : Option (List ℕ)
  pub is_dir : Bool
  pub contents : Option (List ℕ)
  pub icon : Option (List ℕ)

abbrev pub name_of : SentFile → List ℕ
name_of f = or_else f.file_name (codes "file")

unfoldable pub file_type_of : SentFile → WireResult (List ℕ)
file_type_of f =
    if f.is_dir
    then ok (codes "public.folder")
    else (do uti ← get_uti_type (header (or_else f.contents [])); ok (uti_text uti))

abbrev pub icon_of : SentFile → Option (List ℕ)
icon_of f = if f.is_dir then none else f.icon

unfoldable pub file_entry : SentFile → List ℕ → Value
file_entry f file_type = dictionary (
    insert
      (insert
        (insert
          (insert (insert empty (codes "FileName") (string (name_of f))) (codes "FileType")
            (string file_type))
          (codes "FileBomPath") (string (codes "./" ++ name_of f)))
        (codes "FileIsDirectory") (boolean f.is_dir))
      (codes "ConvertMediaFormats") (integer 0))

-- The dictionary of an ask request, for the record data and the icon that there may be.
unfoldable pub ask_dictionary :
    AirDropConfig → SentFile → List ℕ → Option (List ℕ) → Option (List ℕ) → Dictionary
unfolding file_entry
ask_dictionary config f file_type record_data icon =
    let ask =
      insert
        (insert
          (insert
            (insert (insert empty (codes "SenderComputerName") (string config.computer_name))
              (codes "BundleID") (string (codes "com.apple.finder")))
            (codes "SenderModelName") (string config.computer_model))
          (codes "SenderID") (string config.service_id))
        (codes "ConvertMediaFormats") (boolean false) in
    insert_data
      (insert (insert_data ask (codes "SenderRecordData") record_data) (codes "Files")
        (array (cons (file_entry f file_type) nil)))
      (codes "FileIcon") icon

unfoldable pub ask_request : AirDropConfig → SentFile → List ℕ → Value
ask_request config f file_type =
    dictionary (ask_dictionary config f file_type config.record_data (icon_of f))

-- What `send_ask_async` and `send_upload_async` answer for the answer of `send_post`.
abbrev pub success_of : Option (Bool × List ℕ) → Option Bool
success_of none = none
success_of (some (success, resp)) = some success

-- A post to a receiver: path, body and added headers, and what the connection answers.
abbrev pub Post : Type 0
Post = List ℕ → List ℕ → List (List ℕ × List ℕ) → Option (Bool × List ℕ)

abbrev pub post_body : Post → List ℕ → Option (List ℕ) → Option (Bool × List ℕ)
post_body post url none = none
post_body post url (some body) = post url body []

unfoldable pub send_discover : Post → PlistLib → AirDropConfig → Option (List ℕ)
unfolding discover_request discover_name
send_discover post plists config =
    discover_name plists
      (post_body post (codes "/Discover") (plists.to_binary (discover_request config)))

unfoldable pub send_ask : Post → PlistLib → AirDropConfig → SentFile → WireResult (Option Bool)
unfolding ask_request file_type_of
send_ask post plists config f = do
  file_type ← file_type_of f
  ok (
      success_of
        (post_body post (codes "/Ask") (plists.to_binary (ask_request config f file_type))))

abbrev pub post_archive : Post → Option (List ℕ) → Option (Bool × List ℕ)
post_archive post none = none
post_archive post (some archive) = post (codes "/Upload") archive upload_headers

-- The archive of the file comes from the archive library.
unfoldable pub send_upload : Post → (SentFile → Option (List ℕ)) → SentFile → Option Bool
send_upload post create_archive f = success_of (post_archive post (create_archive f))
