-- ===== src/Server/Tests.antt =====
-- The server and the client together at small inputs.
use cosmicdrop.Base.{
  ℕ, true, false, not, List, [], ◌∷◌, none, some, ◌≡◌, refl, arith, inl, take, drop, ◌==◌,
}
use cosmicdrop.Client.{Read, failed, chunk, send_post, request, request_header}
use cosmicdrop.Client.Requests.{SentFile, send_ask, file_type_of, ask_request, name_of, success_of}
use cosmicdrop.Config.Samples.{sample_config}
use cosmicdrop.Plist.{PlistLib}
use cosmicdrop.Server.{HttpRequest, ServerEvent, ask, read_request, bind_with_retry}
use cosmicdrop.Server.Routes.{
  Handled, ArchiveLib, response, handle_connection, unpack, readable, extracted, failure,
}
use cosmicdrop.Server.Answers.{send_post-response}
use cosmicdrop.Server.Errors.{handle_connection-IsAnswerTo, Outcome}
use cosmicdrop.Server.Exchange.{IsDelivery, served, connect, ask_exchange}
use cosmicdrop.Client.Response.{arrived, HasBytes}
use cosmicdrop.Base.{ap, All}
use cosmicdrop.Server.Request.{read_request-request}
use cosmicdrop.Server.Lines.{added}
use cosmicdrop.Text.{codes}
use cosmicdrop.Text.Ascii.{ascii_lib}
use cosmicdrop.Wire.{ok}

-- Bytes that arrive in two pieces.
abbrev pieces : List ℕ → List Read
pieces bytes = chunk (take 20 bytes) ∷ chunk (drop 20 bytes) ∷ []

send_post-response_example :
    send_post ascii_lib (pieces (response 200 (7 ∷ 8 ∷ []))) ≡ some (200 == 200, 7 ∷ 8 ∷ [])
unfolding response cosmicdrop.Server.Routes.response_header cosmicdrop.Text.decimal
    cosmicdrop.Text.digits
send_post-response_example =
    send_post-response ascii_lib 200 (7 ∷ 8 ∷ []) (pieces (response 200 (7 ∷ 8 ∷ []))) (inl refl)
      (omega arith) (tt, (tt, tt)) refl

abbrev host : List ℕ
host = codes "fe80::1"

abbrev upload : List ℕ
upload = request (codes "/Upload") host 8771 (5 ∷ 6 ∷ 7 ∷ []) (added true)

read_request-request_example :
    (content_type : List ℕ) × (read_request ascii_lib (pieces upload)
      ≡ ok (record {
        method = codes "POST";
        path = codes "/Upload";
        content_type = content_type;
        body = 5 ∷ 6 ∷ 7 ∷ [];
      }))
unfolding request request_header cosmicdrop.Client.push_headers cosmicdrop.Text.decimal
    cosmicdrop.Text.digits
read_request-request_example =
    read_request-request ascii_lib (codes "/Upload") host 8771 (5 ∷ 6 ∷ 7 ∷ []) true (pieces upload)
      (omega arith) refl (omega arith) (omega arith) (omega arith) (tt, (tt, tt)) refl

abbrev photo : SentFile
photo = record {
  file_name = some (codes "a.jpg");
  is_dir = false;
  contents = some (0xff ∷ 0xd8 ∷ 0xff ∷ 1 ∷ []);
  icon = none;
}

-- A binary format for the one request and the answers of this test.
abbrev sample_plists : PlistLib
sample_plists = record {
  to_binary = λ v. some (1 ∷ 2 ∷ 3 ∷ []);
  from_reader = λ bytes. some (ask_request sample_config photo (codes "public.jpeg"));
}

abbrev no_archives : ArchiveLib
no_archives = record { gunzip = λ bytes. bytes; entries = λ bytes. [] }

abbrev replied : List ℕ
replied = response 200 (1 ∷ 2 ∷ 3 ∷ [])

photo_type : file_type_of photo ≡ ok (codes "public.jpeg")
unfolding file_type_of cosmicdrop.Util.get_uti_type cosmicdrop.Util.header
    cosmicdrop.Text.starts_with cosmicdrop.Client.Requests.uti_text
photo_type = refl

-- A way on which bytes arrive one by one.
unfoldable byte_by_byte : List ℕ → List Read
byte_by_byte [] = []
byte_by_byte (b ∷ bytes) = chunk (b ∷ []) ∷ byte_by_byte bytes

arrived-byte_by_byte : (bytes : List ℕ) → arrived (byte_by_byte bytes) ≡ bytes
unfolding byte_by_byte
arrived-byte_by_byte [] = refl
arrived-byte_by_byte (b ∷ bytes) = ap (λ t. b ∷ t) (arrived-byte_by_byte bytes)

byte_by_byte-HasBytes : (bytes : List ℕ) → All HasBytes (byte_by_byte bytes)
unfolding byte_by_byte
byte_by_byte-HasBytes [] = tt
byte_by_byte-HasBytes (b ∷ bytes) = (tt, byte_by_byte-HasBytes bytes)

byte_by_byte-IsDelivery : IsDelivery byte_by_byte
byte_by_byte-IsDelivery = record { whole = arrived-byte_by_byte; pieces = byte_by_byte-HasBytes }

ask_exchange_example :
    (send_ask (λ url body headers. none) sample_plists sample_config photo ≡ ok (success_of none))
    × (h : Handled) × (served ascii_lib sample_plists no_archives sample_config host 8771
          byte_by_byte byte_by_byte
          (codes "/Ask")
          (1 ∷ 2 ∷ 3 ∷ [])
          []
        ≡ ok h)
    × (h.events ≡ ask sample_config.computer_name (name_of photo) 0 ∷ [])
    × (h.written ≡ replied)
    × (send_ask
          (connect ascii_lib sample_plists no_archives sample_config host 8771 byte_by_byte
            byte_by_byte)
          sample_plists
          sample_config
          photo
        ≡ ok (some true))
unfolding request request_header cosmicdrop.Client.push_headers response
    cosmicdrop.Server.Routes.response_header cosmicdrop.Text.decimal cosmicdrop.Text.digits
ask_exchange_example =
    ask_exchange ascii_lib sample_plists no_archives sample_config sample_config photo
      (codes "public.jpeg") host (1 ∷ 2 ∷ 3 ∷ []) (1 ∷ 2 ∷ 3 ∷ []) 8771 byte_by_byte byte_by_byte
      (λ url body headers. none) photo_type refl refl refl (omega arith) (omega arith) (omega arith)
      (omega arith) byte_by_byte-IsDelivery byte_by_byte-IsDelivery

abbrev garbage : List Read
garbage = chunk (codes "GET / HTTP/1.1\r\n\r\n") ∷ failed ∷ []

handle_connection-IsAnswerTo_example :
    Outcome garbage
      (read_request ascii_lib garbage)
      (handle_connection ascii_lib sample_plists no_archives sample_config garbage)
handle_connection-IsAnswerTo_example =
    handle_connection-IsAnswerTo ascii_lib sample_plists no_archives sample_config garbage

-- An archive whose second entry cannot be unpacked.
half_unpacked :
    unpack []
      (readable (some (codes "a")) none ∷ readable (some (codes "b")) (some (codes "denied")) ∷ [])
    ≡ failure (codes "denied")
unfolding unpack
half_unpacked = refl

both_unpacked :
    unpack [] (readable (some (codes "a")) none ∷ readable none none ∷ [])
    ≡ extracted (codes "a" ∷ [])
unfolding unpack
both_unpacked = refl

-- A port in use makes the server listen on the next one.
next_port : bind_with_retry (λ port. not (port == 8771)) 8771 ≡ some 8772
unfolding bind_with_retry
next_port = refl
