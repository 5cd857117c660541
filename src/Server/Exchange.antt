-- ===== src/Server/Exchange.antt =====
-- An ask request from src/client.rs through src/server.rs and back.
use cosmicdrop.Base.{
  ℕ, ◌<◌, ◌≤◌, Bool, true, false, List, [], ◌∷◌, Option, none, some, ◌≡◌, refl, ap, ◌∙◌, All, arith,
  length, bytes_eq, inl,
}
use cosmicdrop.Client.{Read, request, request_header, send_post}
use cosmicdrop.Client.Requests.{
  SentFile, Post, name_of, icon_of, file_type_of, ask_dictionary, ask_request, send_ask, success_of,
  post_body,
}
use cosmicdrop.Client.Response.{arrived, HasBytes}
use cosmicdrop.Config.{AirDropConfig, write_debug}
use cosmicdrop.Plist.{PlistLib, insert, get, as_dictionary, and_then}
use cosmicdrop.Server.{HttpRequest, ask}
use cosmicdrop.Server.Routes.{
  Handled, ArchiveLib, ask_event, ask_response, response, handle_connection, answer, answer_binary,
}
use cosmicdrop.Server.Answers.{send_post-response}
use cosmicdrop.Server.Lines.{IsPrintable}
use cosmicdrop.Server.Request.{read_request-request}
use cosmicdrop.Text.{StrLib, codes, usize_limit}
use cosmicdrop.Wire.{WireResult, ok, err, panic, ◌>>=◌}

-- The server finds the sender and the file in the dictionary, with or without the optional entries.
ask_event-ask_dictionary :
    (config : AirDropConfig) (f : SentFile) (file_type : List ℕ)
    (record_data icon : Option (List ℕ))
    → ask_event (some (ask_dictionary config f file_type record_data icon))
      ≡ ask config.computer_name (name_of f) 0
unfolding ask_event ask_dictionary insert get bytes_eq
ask_event-ask_dictionary config f file_type none none = refl
ask_event-ask_dictionary config f file_type none (some icon) = refl
ask_event-ask_dictionary config f file_type (some bytes) none = refl
ask_event-ask_dictionary config f file_type (some bytes) (some icon) = refl

-- The route of an ask request.
answer_ask :
    (plists : PlistLib) (archives : ArchiveLib) (config : AirDropConfig)
    (content_type body : List ℕ)
    → answer plists archives config (record {
      method = codes "POST";
      path = codes "/Ask";
      content_type = content_type;
      body = body;
    })
      ≡ answer_binary config
          (ask_event (and_then (plists.from_reader body) as_dictionary) ∷ [])
          (write_debug config body (codes "receive_ask_request.plist"))
          (codes "receive_ask_response.plist")
          (plists.to_binary (ask_response config))
unfolding answer bytes_eq
answer_ask plists archives config content_type body = refl

-- A way on which bytes arrive whole, in pieces.
pub record IsDelivery (way : List ℕ → List Read) : Type 0 where
  pub whole : (bytes : List ℕ) → arrived (way bytes) ≡ bytes
  pub pieces : (bytes : List ℕ) → All HasBytes (way bytes)

module _ (lib : StrLib) (plists : PlistLib) (archives : ArchiveLib) (server : AirDropConfig)
    (host : List ℕ) (port : ℕ) (up down : List ℕ → List Read) where
  -- What the server makes of a post: the client's request arrives on the way up.
  abbrev pub served : List ℕ → List ℕ → List (List ℕ × List ℕ) → WireResult Handled
  served url body headers =
      handle_connection lib plists archives server (up (request url host port body headers))

  -- What the client makes of the server's answer, which arrives on the way down; without an answer
  -- there is none.
  abbrev pub answered : WireResult Handled → Option (Bool × List ℕ)
  answered (ok h) = send_post lib (down h.written)
  answered err = none
  answered panic = none

  -- A post of the client to this server.
  abbrev pub connect : Post
  connect url body headers = answered (served url body headers)

-- The one post of an ask request.
send_ask-post :
    (post : Post) (plists : PlistLib) (client : AirDropConfig) (f : SentFile)
    (file_type body : List ℕ)
    → file_type_of f ≡ ok file_type
    → plists.to_binary (ask_request client f file_type) ≡ some body
    → send_ask post plists client f ≡ ok (success_of (post (codes "/Ask") body []))
unfolding send_ask ask_request
send_ask-post post plists client f file_type body typed sent =
    ap
      (λ r. r >>= (λ t.
        ok
          (success_of (post_body post (codes "/Ask") (plists.to_binary (ask_request client f t))))))
      typed
    ∙ ap (λ o. ok (success_of (post_body post (codes "/Ask") o))) sent

-- A client asks a server to take a file. The binary form of the request is read back, and the answer
-- has a binary form; the printed address is printable without blanks, and header, request and
-- response keep to the limits of reading. Whatever a post does, the client makes one, to /Ask, of the
-- binary form without added headers, and answers whether it was a success. Posted to the server, in
-- whatever pieces the request and the response arrive, it makes the server show the names of the
-- sender's computer and of the file and answer once, and the client learns of the success.
pub ask_exchange :
    (lib : StrLib) (plists : PlistLib) (archives : ArchiveLib) (client server : AirDropConfig)
    (f : SentFile) (file_type host body reply : List ℕ) (port : ℕ) (up down : List ℕ → List Read)
    (post : Post)
    → file_type_of f ≡ ok file_type
    → plists.to_binary (ask_request client f file_type) ≡ some body
    → plists.from_reader body ≡ some (ask_request client f file_type)
    → plists.to_binary (ask_response server) ≡ some reply
    → IsPrintable host
    → length (request_header (codes "/Ask") host port body []) ≤ 65537
    → length (request (codes "/Ask") host port body []) < usize_limit
    → length (response 200 reply) < usize_limit
    → IsDelivery up
    → IsDelivery down
    → (send_ask post plists client f ≡ ok (success_of (post (codes "/Ask") body [])))
      × (h : Handled) × (served lib plists archives server host port up down (codes "/Ask") body []
          ≡ ok h)
      × (h.events ≡ ask client.computer_name (name_of f) 0 ∷ [])
      × (h.written ≡ response 200 reply)
      × (send_ask (connect lib plists archives server host port up down) plists client f
          ≡ ok (some true))
unfolding handle_connection ask_request
ask_exchange lib plists archives client server f file_type host body reply port up down post typed
      sent read_back replied printable capped short short_reply up_way down_way =
    let asked = request (codes "/Ask") host port body [] in
    let (content_type, received) =
      read_request-request lib (codes "/Ask") host port body false (up asked) (omega arith) refl
        printable capped short (up_way.pieces asked) (up_way.whole asked) in
    let handle = λ (r : HttpRequest). ok (answer plists archives server r) in
    let event : ask_event (and_then (plists.from_reader body) as_dictionary)
        ≡ ask client.computer_name (name_of f) 0 =
      ap (λ o. ask_event (and_then o as_dictionary)) read_back
      ∙ ask_event-ask_dictionary client f file_type client.record_data (icon_of f) in
    let back =
      send_post-response lib 200 reply (down (response 200 reply)) (inl refl) short_reply
        (down_way.pieces (response 200 reply)) (down_way.whole (response 200 reply)) in
    let h =
      answer_binary server (ask_event (and_then (plists.from_reader body) as_dictionary) ∷ [])
        (write_debug server body (codes "receive_ask_request.plist"))
        (codes "receive_ask_response.plist") (some reply) in
    let handled : served lib plists archives server host port up down (codes "/Ask") body []
        ≡ ok h =
      ap (λ r. r >>= handle) received
      ∙ ap ok (
          answer_ask plists archives server content_type body
          ∙ ap
              (answer_binary server
                (ask_event (and_then (plists.from_reader body) as_dictionary) ∷ [])
                (write_debug server body (codes "receive_ask_request.plist"))
                (codes "receive_ask_response.plist"))
              replied) in
    (
      send_ask-post post plists client f file_type body typed sent,
      h,
      handled,
      ap (λ e. e ∷ []) event,
      refl,
      send_ask-post (connect lib plists archives server host port up down) plists client f file_type
            body typed sent
          ∙ ap (λ r. ok (success_of (answered lib plists archives server host port up down r)))
              handled
          ∙ ap (λ o. ok (success_of o)) back,
    )
