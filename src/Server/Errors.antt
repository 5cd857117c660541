-- ===== src/Server/Errors.antt =====
-- What `handle_connection` of src/server.rs does on any bytes and with any failures of a connection.
use mathlib.Core.Path.{subst}
use cosmicdrop.Server.Failures.{
  has_failure, read_body-le, read_body-none, read_head-left, read_head-none, read_head-prefix,
}
use cosmicdrop.Base.{
  ℕ, ◌+◌, ◌-◌, ◌≤◌, Bool, true, false, not, ◌&&◌, ◌||◌, if◌then◌else◌, List, [], ◌∷◌, Option, none,
  some, ◌≡◌, ◌⊎◌, refl, ap, ◌∙◌, sym, arith, length, Option-cases, inl, inr, bytes_eq, u64, min,
  take, drop,
}
use cosmicdrop.Client.{Read}
use cosmicdrop.Client.Response.{arrived}
use cosmicdrop.Config.{AirDropConfig, FileEffect, write_debug}
use cosmicdrop.Plist.{PlistLib, and_then, as_dictionary}
use cosmicdrop.Server.{
  HttpRequest, Headers, ServerEvent, read_head, read_body, read_request, after_head, read_rest,
  request_of, content_length_of, content_type_of, read_headers, head_of, tail_of_lines,
}
use cosmicdrop.Server.Routes.{
  Handled, ArchiveLib, handle_connection, answer, answer_binary, answer_plain, discover_answer,
  ask_response, response, ask_event, upload_events,
}
use cosmicdrop.Text.{StrLib, codes, position, lines}
use cosmicdrop.Text.Blocks.{end_mark, position-append, position-le}
use cosmicdrop.Wire.{WireResult, ok, err, slice, ◌>>=◌}

-- Which tests of the routes hold: the method POST, and the three paths.
module _ (post discover ask_path upload : Bool) where
  -- The requests with a property list as their answer.
  abbrev pub has_plist : Bool
  has_plist = post && (discover || ask_path)

  -- 400 for a POST to an unknown path, else 200.
  abbrev pub status_for : ℕ
  status_for = if post && not (discover || (ask_path || upload)) then 400 else 200

  -- One response with the status of the request, or, only where a property list has no binary form,
  -- none and an error.
  abbrev pub IsAnswer : Handled → Type 0
  IsAnswer h =
      ((h.is_ok ≡ true) × (body : List ℕ) × (h.written ≡ response status_for body))
      ⊎ ((h.is_ok ≡ false) × (has_plist ≡ true) × (h.written ≡ []))

abbrev IsPlistAnswer : Handled → Type 0
IsPlistAnswer h =
    ((h.is_ok ≡ true) × (body : List ℕ) × (h.written ≡ response 200 body))
    ⊎ ((h.is_ok ≡ false) × (h.written ≡ []))

answer_binary-IsPlistAnswer :
    (config : AirDropConfig) (events : List ServerEvent) (files : List FileEffect) (name : List ℕ)
    (binary : Option (List ℕ))
    → IsPlistAnswer (answer_binary config events files name binary)
answer_binary-IsPlistAnswer config events files name none = inr (refl, refl)
answer_binary-IsPlistAnswer config events files name (some b) = inl (refl, b, refl)

routes-IsAnswer :
    (post discover ask_path upload : Bool) (d a : Handled) (events : List ServerEvent)
    → IsPlistAnswer d
    → IsPlistAnswer a
    → IsAnswer post discover ask_path upload (
        if post
        then (if discover
            then d
            else (if ask_path
                then a
                else (if upload then answer_plain 200 [] events else answer_plain 400 [] [])))
        else answer_plain 200 (10 ∷ []) [])
routes-IsAnswer false discover ask_path upload d a events hd ha = inl (refl, 10 ∷ [], refl)
routes-IsAnswer true true ask_path upload d a events hd ha = elim hd [
  | inl h ↦ inl h
  | inr h ↦ inr (h.0, refl, h.1)
]
routes-IsAnswer true false true upload d a events hd ha = elim ha [
  | inl h ↦ inl h
  | inr h ↦ inr (h.0, refl, h.1)
]
routes-IsAnswer true false false true d a events hd ha = inl (refl, [], refl)
routes-IsAnswer true false false false d a events hd ha = inl (refl, [], refl)

abbrev pub IsAnswerTo : HttpRequest → Handled → Type 0
IsAnswerTo request h =
    IsAnswer (bytes_eq request.method (codes "POST")) (bytes_eq request.path (codes "/Discover"))
      (bytes_eq request.path (codes "/Ask")) (bytes_eq request.path (codes "/Upload")) h

answer-IsAnswerTo :
    (plists : PlistLib) (archives : ArchiveLib) (config : AirDropConfig) (request : HttpRequest)
    → IsAnswerTo request (answer plists archives config request)
unfolding answer
answer-IsAnswerTo plists archives config request =
    routes-IsAnswer (bytes_eq request.method (codes "POST"))
      (bytes_eq request.path (codes "/Discover")) (bytes_eq request.path (codes "/Ask"))
      (bytes_eq request.path (codes "/Upload"))
      (answer_binary config []
        (write_debug config request.body (codes "receive_discover_request.plist"))
        (codes "receive_discover_response.plist") (plists.to_binary (discover_answer config)))
      (answer_binary config
        (ask_event (and_then (plists.from_reader request.body) as_dictionary) ∷ [])
        (write_debug config request.body (codes "receive_ask_request.plist"))
        (codes "receive_ask_response.plist") (plists.to_binary (ask_response config)))
      (upload_events archives request.body)
      (answer_binary-IsPlistAnswer config [] _ _ (plists.to_binary (discover_answer config)))
      (answer_binary-IsPlistAnswer config _ _ _ (plists.to_binary (ask_response config)))

-- Why there is no request: a read fails, or what is read for the headers has no end mark.
abbrev pub IsRefused : List Read → Type 0
IsRefused reads =
    (has_failure reads ≡ true)
    ⊎ ((buffer : List ℕ) × (left : List Read) × (read_head [] reads ≡ some (buffer, left))
        × (position end_mark buffer ≡ none))

slice_ok :
    (bytes : List ℕ) (from to : ℕ)
    → from ≤ to
    → to ≤ length bytes
    → (part : List ℕ) × (slice bytes from to ≡ ok part)
unfolding slice
slice_ok bytes from to h k = (take (to - from) (drop from bytes), ground arith)

module _ (lib : StrLib) where
  -- A request whose end mark has arrived, or a reason to refuse.
  abbrev Decided : List Read → WireResult HttpRequest → Type 0
  Decided reads r =
      ((r ≡ err) × IsRefused reads)
      ⊎ ((request : HttpRequest) × (p : ℕ) × (r ≡ ok request)
          × (position end_mark (arrived reads) ≡ some p))

  request_of-cases :
      (parts : List (List ℕ)) (headers : Headers) (start : ℕ) (whole : Option (List ℕ))
      → ((bytes : List ℕ) → whole ≡ some bytes → start ≤ length bytes)
      → ((request_of lib parts headers start whole ≡ err) × (whole ≡ none))
        ⊎ ((request : HttpRequest) × (request_of lib parts headers start whole ≡ ok request))
  request_of-cases parts headers start none h = inl (refl, refl)
  request_of-cases parts headers start (some bytes) h =
      let (part, e) =
        slice_ok bytes start (start + min (content_length_of lib headers) (length bytes - start))
          (omega arith) (omega (arith, h bytes refl)) in
      inr (
        _,
        ap
            (λ r. r >>= (λ b. ok (record {
              method = lib.to_uppercase (head_of parts);
              path = head_of (tail_of_lines parts);
              content_type = content_type_of lib headers;
              body = b;
            })))
            e,
      )

  read_rest-Decided :
      (reads : List Read) (buffer : List ℕ) (left : List Read) (p : ℕ)
      → read_head [] reads ≡ some (buffer, left)
      → position end_mark buffer ≡ some p
      → Decided reads (read_rest lib buffer left (some p))
  read_rest-Decided reads buffer left p e q =
      let text = lines (lib.from_utf8_lossy (take p buffer)) in
      let headers = read_headers lib [] (tail_of_lines text) in
      let needed = u64 ((p + 4) + content_length_of lib headers) in
      let (rest, whole) = read_head-prefix [] reads buffer left e in
      let marked : position end_mark (arrived reads) ≡ some p =
        ap (position end_mark) (sym whole) ∙ position-append end_mark buffer rest p q in
      elim (request_of-cases (lib.split_whitespace (head_of text)) headers (p + 4)
        (read_body needed buffer left)
        (λ bytes r.
          omega
            (arith, position-le end_mark buffer p q, read_body-le needed buffer left bytes r))) [
              | inl (refused, gone) ↦ inl (
                refused,
                inl (
                    read_head-left [] reads buffer left e (read_body-none needed buffer left gone)),
              )
              | inr (request, r) ↦ inr (request, p, r, marked)
            ]

  read_request-Decided : (reads : List Read) → Decided reads (read_request lib reads)
  unfolding read_request
  read_request-Decided reads = elim (Option-cases (read_head [] reads)) [
    | inl e ↦ inl (ap (after_head lib) e, inl (read_head-none [] reads e))
    | inr ((buffer, left), e) ↦ elim (Option-cases (position end_mark buffer)) [
      | inl n ↦
          inl (ap (after_head lib) e ∙ ap (read_rest lib buffer left) n, inr (buffer, left, e, n))
      | inr (p, q) ↦
          subst (Decided reads) (sym (ap (after_head lib) e ∙ ap (read_rest lib buffer left) q))
            (read_rest-Decided reads buffer left p e q)
    ]
  ]

-- An error for a reason, or a request whose end mark has arrived and what is done for it.
abbrev pub Outcome : List Read → WireResult HttpRequest → WireResult Handled → Type 0
Outcome reads requested handled =
    ((handled ≡ err) × IsRefused reads)
    ⊎ ((request : HttpRequest) × (h : Handled) × (p : ℕ) × (requested ≡ ok request)
        × (position end_mark (arrived reads) ≡ some p)
        × (handled ≡ ok h)
        × IsAnswerTo request h)

-- On any reads, failures and empty ones among them, `handle_connection` does not panic. It ends with
-- an error only if a read fails or if what is read for the headers has no end mark, or it handles a
-- request whose end mark has arrived. Then it writes one response, 400 to a POST for an unknown path
-- and 200 to all else, or it writes nothing and ends with an error; that only where a POST for
-- /Discover or /Ask has an answer without a binary form.
pub handle_connection-IsAnswerTo :
    (lib : StrLib) (plists : PlistLib) (archives : ArchiveLib) (config : AirDropConfig)
    (reads : List Read)
    → Outcome reads (read_request lib reads) (handle_connection lib plists archives config reads)
unfolding handle_connection
handle_connection-IsAnswerTo lib plists archives config reads =
    let handle = λ (request : HttpRequest). ok (answer plists archives config request) in
    elim (read_request-Decided lib reads) [
      | inl (e, refused) ↦ inl (ap (λ r. r >>= handle) e, refused)
      | inr (request, p, e, marked) ↦ inr (
        request,
        answer plists archives config request,
        p,
        e,
        marked,
        ap (λ r. r >>= handle) e,
        answer-IsAnswerTo plists archives config request,
      )
    ]
