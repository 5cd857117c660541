-- ===== src/Client.antt =====
-- src/client.rs: the choice of a receiver's address, the requests of the client and the reading of
-- their responses. A TLS connection is the list of what its reads give; the library of property
-- lists and the archive builders are parameters.
pub mod Address
pub mod Response
pub mod Requests
pub mod Browser
mod Tests
use cosmicdrop.Base.{
  ℕ, ◌+◌, ltb, leb, ◌==◌, Bool, true, false, not, ◌&&◌, if◌then◌else◌, List, [], ◌∷◌, ◌++◌, Option,
  none, some, take, drop, length, u64,
}
use cosmicdrop.Config.{
  IpAddr, v4, v6, is_ipv6, is_loopback, is_link_local, AirDropConfig, or_else, keep_first,
  loopback_segments,
}
use cosmicdrop.Text.{
  StrLib, codes, crlf, starts_with, position, split, lines, parse, decimal, usize_limit,
}
use cosmicdrop.Util.{UtiType, get_uti_type, header}
use cosmicdrop.Wire.{WireResult, ok, err, panic, ◌>>=◌}

pub record Receiver : Type 0 where
  pub id : List ℕ
  pub name : Option (List ℕ)
  pub address : IpAddr
  pub port : ℕ
  pub hostname : List ℕ
  pub flags : ℕ
  pub discoverable : Bool

-- The loop of `select_airdrop_address` over the addresses in the order of the hash set, with its
-- variables `ipv6` and `ipv4`.
unfoldable pub select_from : Option IpAddr → Option IpAddr → List IpAddr → IpAddr
select_from ipv6 ipv4 [] = or_else ipv6 (or_else ipv4 (v6 0 loopback_segments))
select_from ipv6 ipv4 (a ∷ addrs) =
    let unchanged = select_from ipv6 ipv4 addrs in
    let with_v6 = select_from (keep_first ipv6 a) ipv4 addrs in
    let with_v4 = select_from ipv6 (keep_first ipv4 a) addrs in
    if is_ipv6 a
    then (if is_loopback a then unchanged else (if is_link_local a then a else with_v6))
    else (if is_loopback a then unchanged else with_v4)

unfoldable pub select_airdrop_address : List IpAddr → IpAddr
select_airdrop_address addrs = select_from none none addrs

-- What one read of a connection gives: an error, or bytes; no bytes are its end.
pub data Read : Type 0 where
  failed : Read
  chunk : List ℕ → Read

-- `.map(|i| i + 4)`.
abbrev pub behind : Option ℕ → Option ℕ
behind none = none
behind (some i) = some (i + 4)

unfoldable pub find_header_end : List ℕ → Option ℕ
find_header_end response = behind (position (crlf ++ crlf) response)

abbrev pub or_later : Option ℕ → Option ℕ → Option ℕ
or_later none later = later
or_later (some n) later = some n

module _ (lib : StrLib) where
  open lib use {from_utf8_lossy, to_lowercase, trim}

  abbrev pub second_part : List (List ℕ) → Option ℕ
  second_part [] = none
  second_part (part ∷ []) = none
  second_part (part ∷ second ∷ parts) = parse usize_limit (trim second)

  -- The closure of `find_map`.
  unfoldable pub line_length : List ℕ → Option ℕ
  line_length line =
      if starts_with (to_lowercase line) (codes "content-length:")
      then second_part (split (λ c. c == b':') line)
      else none

  unfoldable pub find_length : List (List ℕ) → Option ℕ
  find_length [] = none
  find_length (line ∷ rest) = let later = find_length rest in or_later (line_length line) later

  unfoldable pub content_length : List ℕ → ℕ
  content_length header_text = or_else (find_length (lines header_text)) 0

  -- Whether the loop returns with these bytes, by the end of the headers in them.
  abbrev pub has_body : List ℕ → Option ℕ → Bool
  has_body buf none = false
  has_body buf (some headers_end) =
      leb (u64 (headers_end + content_length (from_utf8_lossy (take headers_end buf)))) (length buf)

  unfoldable pub is_complete : List ℕ → Bool
  is_complete buf = has_body buf (find_header_end buf)

  -- The loop of `read_http_response` over the reads; the connection ends behind the last one.
  unfoldable pub read_http_response : List ℕ → List Read → Option (List ℕ)
  read_http_response buf [] = some buf
  read_http_response buf (failed ∷ reads) = none
  read_http_response buf (chunk [] ∷ reads) = some buf
  read_http_response buf (chunk (b ∷ bytes) ∷ reads) =
      let further = read_http_response (buf ++ (b ∷ bytes)) reads in
      if is_complete (buf ++ (b ∷ bytes)) then some (buf ++ (b ∷ bytes)) else further

-- The text before the body of a request; `host` is the printed address.
unfoldable pub push_headers : List (List ℕ × List ℕ) → List ℕ
push_headers [] = crlf
push_headers ((key, val) ∷ headers) = key ++ (codes ": " ++ (val ++ (crlf ++ push_headers headers)))

unfoldable pub request_header : List ℕ → List ℕ → ℕ → List ℕ → List (List ℕ × List ℕ) → List ℕ
request_header url host port body additional_headers =
    codes "POST "
    ++ (url
        ++ (codes " HTTP/1.1\r\nHost: "
            ++ (host
                ++ (codes ":"
                    ++ (decimal port
                        ++ (codes
                              "\r\nContent-Type: application/octet-stream\r\nConnection: keep-alive\r\nAccept: */*\r\nUser-Agent: AirDrop/1.0\r\nAccept-Language: en-us\r\nAccept-Encoding: br, gzip, deflate\r\nContent-Length: "
                            ++ (decimal (length body)
                                ++ (crlf ++ push_headers additional_headers))))))))

-- What `send_post` writes to the connection.
unfoldable pub request : List ℕ → List ℕ → ℕ → List ℕ → List (List ℕ × List ℕ) → List ℕ
request url host port body additional_headers =
    request_header url host port body additional_headers ++ body

-- The body of the response, by the end of its headers.
abbrev pub body_behind : List ℕ → Option ℕ → List ℕ
body_behind response none = []
body_behind response (some idx) = drop idx response

-- What `send_post` answers for the response.
unfoldable pub read_answer : List ℕ → Bool × List ℕ
read_answer response =
    (starts_with response (codes "HTTP/1.1 200"), body_behind response (find_header_end response))

abbrev pub answer_of : (List ℕ → Bool × List ℕ) → Option (List ℕ) → Option (Bool × List ℕ)
answer_of f none = none
answer_of f (some response) = some (f response)

-- `send_post` once the connection stands; the reads of its response are an argument.
unfoldable pub send_post : StrLib → List Read → Option (Bool × List ℕ)
send_post lib reads = answer_of read_answer (read_http_response lib [] reads)

-- The headers that `send_upload_async` adds.
abbrev pub upload_headers : List (List ℕ × List ℕ)
upload_headers = (codes "Content-Type", codes "application/x-cpio") ∷ []
