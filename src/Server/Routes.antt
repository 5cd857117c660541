-- ===== src/Server/Routes.antt =====
-- The routes and the responses of `handle_connection` in src/server.rs.
use cosmicdrop.Base.{
  ℕ, ◌==◌, Bool, true, false, if◌then◌else◌, List, [], ◌∷◌, ◌++◌, Option, none, some, length,
  bytes_eq,
}
use cosmicdrop.Client.{Read}
use cosmicdrop.Config.{AirDropConfig, FileEffect, write_debug, or_else}
use cosmicdrop.Plist.{
  Value, Dictionary, PlistLib, dictionary, string, data_bytes, empty, insert, get, as_dictionary,
  as_string, first_of, and_then,
}
use cosmicdrop.Text.{StrLib, codes, starts_with, decimal}
use cosmicdrop.Wire.{WireResult, ok, ◌>>=◌}
use cosmicdrop.Server.{
  HttpRequest, ServerEvent, accepted, ask, error, read_request, receive_progress, received,
}

abbrev pub reason_of : ℕ → List ℕ
reason_of status =
    if status == 200
    then codes "OK"
    else (if status == 400
        then codes "Bad Request"
        else (if status == 406 then codes "Not Acceptable" else codes "Unknown"))

-- What `write_response` writes.
unfoldable pub response_header : ℕ → List ℕ → List ℕ
response_header status body =
    codes "HTTP/1.1 "
    ++ (decimal status
        ++ (codes " "
            ++ (reason_of status
                ++ (codes "\r\nContent-Length: "
                    ++ (decimal (length body) ++ codes "\r\nConnection: close\r\n\r\n")))))

unfoldable pub response : ℕ → List ℕ → List ℕ
response status body = response_header status body ++ body

-- An entry of an archive: not readable, or its file name and whether it can be unpacked.
pub data ArchiveEntry : Type 0 where
  unreadable : List ℕ → ArchiveEntry
  readable : Option (List ℕ) → Option (List ℕ) → ArchiveEntry

-- The names, or the text of the error.
pub data Extracted : Type 0 where
  extracted : List (List ℕ) → Extracted
  failure : List ℕ → Extracted

pub record ArchiveLib : Type 0 where
  pub gunzip : List ℕ → List ℕ
  pub entries : List ℕ → List ArchiveEntry

abbrev pub push_name : List (List ℕ) → Option (List ℕ) → List (List ℕ)
push_name names none = names
push_name names (some name) = names ++ (name ∷ [])

-- The loop over the entries; a second `some` in `readable` is the error of `unpack_in`.
unfoldable pub unpack : List (List ℕ) → List ArchiveEntry → Extracted
unpack names [] = extracted names
unpack names (unreadable e ∷ entries) = failure e
unpack names (readable name (some e) ∷ entries) = failure e
unpack names (readable name none ∷ entries) = unpack (push_name names name) entries

unfoldable pub extract_upload : ArchiveLib → List ℕ → Extracted
extract_upload archives bytes = unpack [] (
    archives.entries
      (if starts_with bytes (0x1f ∷ 0x8b ∷ []) then archives.gunzip bytes else bytes))

-- What a connection does: the bytes that it writes, its events and debug files, and whether it
-- returns `Ok`.
pub record Handled : Type 0 where
  pub written : List ℕ
  pub events : List ServerEvent
  pub files : List FileEffect
  pub is_ok : Bool

unfoldable pub discover_answer : AirDropConfig → Value
discover_answer config =
    let answer =
      insert
        (insert (insert empty (codes "ReceiverComputerName") (string config.computer_name))
          (codes "ReceiverModelName") (string config.computer_model))
        (codes "ReceiverMediaCapabilities") (string (codes "{\"Version\":1}")) in
    dictionary (elim config.record_data [
      | none ↦ answer
      | some data_record ↦ insert answer (codes "ReceiverRecordData") (data_bytes data_record)
    ])

unfoldable pub ask_response : AirDropConfig → Value
ask_response config = dictionary (
    insert (insert empty (codes "ReceiverModelName") (string config.computer_model))
      (codes "ReceiverComputerName") (string config.computer_name))

unfoldable pub ask_event : Option Dictionary → ServerEvent
ask_event parsed =
    let sender_name =
      or_else (and_then (and_then parsed (λ d. get d (codes "SenderComputerName"))) as_string)
        (codes "Unknown") in
    let file_name =
      or_else
        (and_then
          (and_then
            (and_then (and_then (and_then parsed (λ d. get d (codes "Files"))) first_of)
              as_dictionary)
            (λ d. get d (codes "FileName")))
          as_string)
        (codes "file") in
    ask sender_name file_name 0

-- A response with a property list: without a binary form the connection ends with an error.
abbrev pub answer_binary :
    AirDropConfig → List ServerEvent → List FileEffect → List ℕ → Option (List ℕ) → Handled
answer_binary config events files name none = record {
  written = [];
  events = events;
  files = files;
  is_ok = false;
}
answer_binary config events files name (some binary) = record {
  written = response 200 binary;
  events = events;
  files = files ++ write_debug config binary name;
  is_ok = true;
}

unfoldable pub received_events : List (List ℕ) → List ServerEvent
received_events [] = []
received_events (name ∷ names) = received name ∷ received_events names

unfoldable pub upload_events : ArchiveLib → List ℕ → List ServerEvent
unfolding received_events extract_upload
upload_events archives body =
    accepted
    ∷ receive_progress (codes "incoming") (length body) (length body)
    ∷ elim (extract_upload archives body) [
      | extracted names ↦ received_events names
      | failure e ↦ error (codes "Failed to extract upload: " ++ e) ∷ []
    ]

abbrev pub answer_plain : ℕ → List ℕ → List ServerEvent → Handled
answer_plain status body events = record {
  written = response status body;
  events = events;
  files = [];
  is_ok = true;
}

-- The routes of `handle_connection`.
unfoldable pub answer : PlistLib → ArchiveLib → AirDropConfig → HttpRequest → Handled
answer plists archives config request =
    if bytes_eq request.method (codes "POST")
    then (if bytes_eq request.path (codes "/Discover")
        then answer_binary config []
            (write_debug config request.body (codes "receive_discover_request.plist"))
            (codes "receive_discover_response.plist") (plists.to_binary (discover_answer config))
        else (if bytes_eq request.path (codes "/Ask")
            then answer_binary config
                (ask_event (and_then (plists.from_reader request.body) as_dictionary) ∷ [])
                (write_debug config request.body (codes "receive_ask_request.plist"))
                (codes "receive_ask_response.plist") (plists.to_binary (ask_response config))
            else (if bytes_eq request.path (codes "/Upload")
                then answer_plain 200 [] (upload_events archives request.body)
                else answer_plain 400 [] [])))
    else answer_plain 200 (10 ∷ []) []

-- `handle_connection` once the connection stands.
unfoldable pub handle_connection :
    StrLib → PlistLib → ArchiveLib → AirDropConfig → List Read → WireResult Handled
handle_connection lib plists archives config reads =
    read_request lib reads >>= (λ request. ok (answer plists archives config request))
