-- ===== src/Server.antt =====
-- src/server.rs: one connection of the AirDrop server, from the bytes that it reads to the response
-- and the events. A connection is the list of what its reads give; what is written to it is taken
-- to arrive. The property list and archive libraries are parameters.
pub mod Routes
pub mod Reading
pub mod Lines
pub mod Failures
pub mod Request
pub mod Answers
pub mod Errors
pub mod Exchange
mod Tests
use cosmicdrop.Base.{
  ℕ, ◌+◌, ◌-◌, ltb, leb, ◌==◌, Bool, true, false, not, ◌&&◌, ◌||◌, if◌then◌else◌, List, [], ◌∷◌,
  ◌++◌, Option, none, some, take, drop, length, bytes_eq, u16, u64, min,
}
use cosmicdrop.Client.{Read, failed, chunk}
use cosmicdrop.Config.{AirDropConfig, FileEffect, write_debug, or_else}
use cosmicdrop.Plist.{
  Value, Dictionary, PlistLib, dictionary, string, data_bytes, empty, insert, get, as_dictionary,
  as_string, first_of, and_then,
}
use cosmicdrop.Text.{
  StrLib, codes, crlf, starts_with, position, split_once, lines, parse, decimal, usize_limit,
}
use cosmicdrop.Wire.{WireResult, ok, err, panic, slice, ◌>>=◌}

pub data ServerEvent : Type 0 where
  start : ServerEvent
  ask : List ℕ → List ℕ → ℕ → ServerEvent
  accepted : ServerEvent
  receive_progress : List ℕ → ℕ → ℕ → ServerEvent
  received : List ℕ → ServerEvent
  error : List ℕ → ServerEvent

abbrev pub is_found : Option ℕ → Bool
is_found none = false
is_found (some i) = true

-- `bind_with_retry`, by which ports can be bound: the port that is bound, if any.
unfoldable pub bind_with_retry : (ℕ → Bool) → ℕ → Option ℕ
bind_with_retry bind port =
    if bind port then some port else (if bind (u16 (port + 1)) then some (u16 (port + 1)) else none)

-- The loop that reads the headers: the buffer and the reads that are left.
unfoldable pub read_head : List ℕ → List Read → Option (List ℕ × List Read)
read_head buffer [] = some (buffer, [])
read_head buffer (failed ∷ reads) = none
read_head buffer (chunk [] ∷ reads) = some (buffer, reads)
read_head buffer (chunk (b ∷ bs) ∷ reads) =
    let further = read_head (buffer ++ (b ∷ bs)) reads in
    if is_found (position (crlf ++ crlf) (buffer ++ (b ∷ bs)))
      || ltb 65536 (length (buffer ++ (b ∷ bs)))
    then some (buffer ++ (b ∷ bs), reads)
    else further

-- The loop that reads the body, up to `needed` bytes in the buffer.
unfoldable pub read_body : ℕ → List ℕ → List Read → Option (List ℕ)
read_body needed buffer [] = some buffer
read_body needed buffer (failed ∷ reads) = if ltb (length buffer) needed then none else some buffer
read_body needed buffer (chunk [] ∷ reads) = some buffer
read_body needed buffer (chunk (b ∷ bs) ∷ reads) =
    let further = read_body needed (buffer ++ (b ∷ bs)) reads in
    if ltb (length buffer) needed then further else some buffer

-- The headers as an association list, the last one inserted first.
abbrev pub Headers : Type 0
Headers = List (List ℕ × List ℕ)

unfoldable pub get_header : Headers → List ℕ → Option (List ℕ)
get_header [] key = none
get_header ((k, v) ∷ headers) key =
    let later = get_header headers key in if bytes_eq k key then some v else later

pub record HttpRequest : Type 0 where
  pub method : List ℕ
  pub path : List ℕ
  pub content_type : List ℕ
  pub body : List ℕ

abbrev pub head_of : List (List ℕ) → List ℕ
head_of [] = []
head_of (l ∷ ls) = l

abbrev pub tail_of_lines : List (List ℕ) → List (List ℕ)
tail_of_lines [] = []
tail_of_lines (l ∷ ls) = ls

module _ (lib : StrLib) where
  open lib use {from_utf8_lossy, to_lowercase, to_uppercase, trim, split_whitespace}

  abbrev pub insert_header : Headers → Option (List ℕ × List ℕ) → Headers
  insert_header headers none = headers
  insert_header headers (some (k, v)) = (to_lowercase (trim k), trim v) ∷ headers

  unfoldable pub read_headers : Headers → List (List ℕ) → Headers
  read_headers headers [] = headers
  read_headers headers (line ∷ rest) =
      read_headers (insert_header headers (split_once b':' line)) rest

  unfoldable pub content_length_of : Headers → ℕ
  content_length_of headers =
      or_else (and_then (get_header headers (codes "content-length")) (parse usize_limit)) 0

  unfoldable pub content_type_of : Headers → List ℕ
  content_type_of headers = elim (get_header headers (codes "content-type")) [
    | none ↦ []
    | some s ↦ to_lowercase s
  ]

  -- The request, from the buffer with its body.
  abbrev pub request_of : List (List ℕ) → Headers → ℕ → Option (List ℕ) → WireResult HttpRequest
  request_of parts headers body_start none = err
  request_of parts headers body_start (some whole) = do
    body ←
        slice whole body_start
          (body_start + min (content_length_of headers) (length whole - body_start))
    ok (record {
      method = to_uppercase (head_of parts);
      path = head_of (tail_of_lines parts);
      content_type = content_type_of headers;
      body = body;
    })

  -- From the lines of the headers on.
  abbrev pub read_lines : List ℕ → List Read → ℕ → List (List ℕ) → WireResult HttpRequest
  read_lines buffer reads head_end text =
      request_of (split_whitespace (head_of text)) (read_headers [] (tail_of_lines text))
        (head_end + 4)
        (read_body (u64 ((head_end + 4) + content_length_of (read_headers [] (tail_of_lines text))))
          buffer reads)

  -- From the position of the end of the headers on; without it, the request is malformed.
  abbrev pub read_rest : List ℕ → List Read → Option ℕ → WireResult HttpRequest
  read_rest buffer reads none = err
  read_rest buffer reads (some head_end) =
      read_lines buffer reads head_end (lines (from_utf8_lossy (take head_end buffer)))

  abbrev pub after_head : Option (List ℕ × List Read) → WireResult HttpRequest
  after_head none = err
  after_head (some (buffer, reads)) = read_rest buffer reads (position (crlf ++ crlf) buffer)

  -- The request of a connection: `err` if a read fails or if there is no end of the headers.
  unfoldable pub read_request : List Read → WireResult HttpRequest
  read_request reads = after_head (read_head [] reads)
