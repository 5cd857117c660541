-- ===== src/Server/Request.antt =====
-- The server reads what the client writes: `send_post` of src/client.rs and `handle_connection` of
-- src/server.rs together.
use mathlib.Core.List.{append_assoc}
use cosmicdrop.Server.Lines.{
  IsPrintable, added, added_lines, first_lines, request_header-block, request_line,
  request_line-IsAscii, request_line-IsLine, request_lines, request_lines-IsAscii,
  request_lines-IsLineList, split_whitespace-request_line,
}
use cosmicdrop.Base.{
  ℕ, ◌+◌, ◌-◌, ◌<◌, ◌≤◌, leb, Bool, true, false, ◌&&◌, List, [], ◌∷◌, ◌++◌, some, ◌≡◌, refl, ap,
  ap₂, ◌∙◌, sym, All, arith, length, length-append, take, drop, drop-length-append,
  take-length-append, take-length, bytes_eq, u64, min,
}
use cosmicdrop.Client.{Read, request, request_header}
use cosmicdrop.Client.Response.{arrived, HasBytes, take-append}
use cosmicdrop.Config.{or_else}
use cosmicdrop.Plist.{and_then}
use cosmicdrop.Server.{
  Headers, read_request, after_head, read_rest, read_lines, request_of, read_headers, insert_header,
  get_header, content_length_of, content_type_of, head_of, tail_of_lines, read_body,
}
use cosmicdrop.Server.Answers.{length_line}
use cosmicdrop.Server.Reading.{read_head-Headed, read_body-arrived}
use cosmicdrop.Text.{
  StrLib, codes, is_empty, split_once, lines, position, usize_limit, parse, decimal, trim_start,
  trim_end,
}
use cosmicdrop.Text.Blocks.{
  block, block-IsAscii, end_mark, position-block, position-le, lines-block,
}
use cosmicdrop.Text.Decimal.{parse-decimal}
use cosmicdrop.Text.Laws.{split_once-append}
use cosmicdrop.Text.Numbers.{trim-decimal}
use cosmicdrop.Wire.{ok, slice, ◌>>=◌}

get_header-stored :
    (value : List ℕ) (headers : Headers)
    → get_header ((codes "content-length", value) ∷ headers) (codes "content-length") ≡ some value
unfolding get_header bytes_eq
get_header-stored value headers = refl

-- Headers that are read after others stand before them.
module _ (lib : StrLib) where
  read_headers-append :
      (headers : Headers) (xs ys : List (List ℕ))
      → read_headers lib headers (xs ++ ys) ≡ read_headers lib (read_headers lib headers xs) ys
  unfolding read_headers
  read_headers-append headers [] ys = refl
  read_headers-append headers (x ∷ xs) ys =
      read_headers-append (insert_header lib headers (split_once b':' x)) xs ys

  -- The header of the length, as it is stored.
  insert-length_line :
      (headers : Headers) (n : ℕ)
      → insert_header lib headers (split_once b':' (length_line n))
        ≡ (codes "content-length", decimal n) ∷ headers
  unfolding trim_start trim_end
  insert-length_line headers n =
      rw
        (
          split_once-append b':' (codes "Content-Length") (b' ' ∷ decimal n) (ground arith),
          lib.trim_ascii (codes "Content-Length") (omega arith),
          lib.to_lowercase_ascii (codes "Content-Length") (omega arith),
          trim-decimal lib n,
        )
        refl

  -- The header that an upload adds has another name.
  get-added :
      (headers : Headers) (upload : Bool)
      → get_header (read_headers lib headers (added_lines upload)) (codes "content-length")
        ≡ get_header headers (codes "content-length")
  unfolding read_headers get_header trim_start trim_end bytes_eq
  get-added headers false = refl
  get-added headers true =
      rw
        (
          split_once-append b':' (codes "Content-Type") (codes " application/x-cpio")
              (ground arith),
          lib.trim_ascii (codes "Content-Type") (omega arith),
          lib.to_lowercase_ascii (codes "Content-Type") (omega arith),
        )
        refl

  content_length_of-request :
      (host : List ℕ) (port n : ℕ) (upload : Bool)
      → n < usize_limit
      → content_length_of lib (read_headers lib [] (request_lines host port n upload)) ≡ n
  unfolding content_length_of read_headers
  content_length_of-request host port n upload h =
      let before = read_headers lib [] (first_lines host port) in
      let stored = (codes "content-length", decimal n) ∷ before in
      let read : read_headers lib [] (request_lines host port n upload)
          ≡ read_headers lib stored (added_lines upload) =
        read_headers-append [] (first_lines host port) (length_line n ∷ added_lines upload)
        ∙ ap (λ t. read_headers lib t (added_lines upload)) (insert-length_line before n) in
      ap (λ t. or_else (and_then (get_header t (codes "content-length")) (parse usize_limit)) 0)
        read
      ∙ ap (λ t. or_else (and_then t (parse usize_limit)) 0)
          (get-added stored upload ∙ get_header-stored (decimal n) before)
      ∙ ap (λ t. or_else t 0) (parse-decimal usize_limit n h)

slice_tail :
    (head body : List ℕ) → slice (head ++ body) (length head) (length head + length body) ≡ ok body
unfolding slice
slice_tail head body =
    let sizes : length (head ++ body) ≡ length head + length body = length-append head body in
    let fits : (leb (length head) (length head + length body)
          && leb (length head + length body) (length (head ++ body)))
        ≡ true =
      ground (arith, sizes) in
    let tail : take ((length head + length body) - length head) (drop (length head) (head ++ body))
        ≡ body =
      ap (take ((length head + length body) - length head)) (drop-length-append head body)
      ∙ take-length body ((length head + length body) - length head) (omega arith) in
    rw fits (ap ok tail)

request_of-whole :
    (lib : StrLib) (parts : List (List ℕ)) (headers : Headers) (head body : List ℕ)
    → content_length_of lib headers ≡ length body
    → request_of lib parts headers (length head) (some (head ++ body))
      ≡ ok (record {
        method = lib.to_uppercase (head_of parts);
        path = head_of (tail_of_lines parts);
        content_type = content_type_of lib headers;
        body = body;
      })
request_of-whole lib parts headers head body counted =
    let end_of_body : length head
          + min (content_length_of lib headers) (length (head ++ body) - length head)
        ≡ length head + length body =
      omega (arith, counted, length-append {0} head body) in
    ap
      (λ k. slice (head ++ body) (length head) k >>= (λ b. ok (record {
        method = lib.to_uppercase (head_of parts);
        path = head_of (tail_of_lines parts);
        content_type = content_type_of lib headers;
        body = b;
      })))
      end_of_body
    ∙ ap
        (λ r. r >>= (λ b. ok (record {
          method = lib.to_uppercase (head_of parts);
          path = head_of (tail_of_lines parts);
          content_type = content_type_of lib headers;
          body = b;
        })))
        (slice_tail head body)

lines-request :
    (lib : StrLib) (url host : List ℕ) (port n : ℕ) (upload : Bool)
    → IsPrintable url
    → IsPrintable host
    → lines (lib.from_utf8_lossy (block (request_line url) (request_lines host port n upload)))
      ≡ request_line url ∷ request_lines host port n upload
lines-request lib url host port n upload pu ph =
    ap lines (
      lib.from_utf8_lossy_ascii (block (request_line url) (request_lines host port n upload)) (
        block-IsAscii (request_line url) (request_lines host port n upload)
          (request_line-IsAscii url pu) (request_lines-IsAscii host port ph n upload)))
    ∙ lines-block b'P' (codes "OST " ++ (url ++ codes " HTTP/1.1"))
        (request_lines host port n upload) (request_line-IsLine url pu)
        (request_lines-IsLineList host port ph n upload)

-- However a request of the client is cut into pieces on its way, the server reads the method POST,
-- the path and the whole body, if the path and the printed address are printable without blanks,
-- the path is not empty, the header does not go beyond the server's cap, and the length of the
-- request fits a machine word. The content type may be any.
pub read_request-request :
    (lib : StrLib) (url host : List ℕ) (port : ℕ) (body : List ℕ) (upload : Bool)
    (reads : List Read)
    → IsPrintable url
    → is_empty url ≡ false
    → IsPrintable host
    → length (request_header url host port body (added upload)) ≤ 65537
    → length (request url host port body (added upload)) < usize_limit
    → All HasBytes reads
    → arrived reads ≡ request url host port body (added upload)
    → (content_type : List ℕ) × (read_request lib reads
        ≡ ok (record {
          method = codes "POST";
          path = url;
          content_type = content_type;
          body = body;
        }))
unfolding read_request request
read_request-request lib url host port body upload reads pu nu ph capped short pieces e =
    let n = length body in
    let ls = request_lines host port n upload in
    let head = block (request_line url) ls in
    let lines_of_ls = request_lines-IsLineList host port ph n upload in
    let header = request_header-block url host port body upload in
    let whole : request url host port body (added upload) ≡ (head ++ end_mark) ++ body =
      ap (λ t. t ++ body) header in
    let found : position end_mark ((head ++ end_mark) ++ body) ≡ some (length head) =
      ap (position end_mark) (append_assoc head end_mark body)
      ∙ position-block (request_line url) ls body (request_line-IsLine url pu) lines_of_ls in
    let sizes : length (request url host port body (added upload)) ≡ length (head ++ end_mark) + n =
      ap length whole ∙ length-append (head ++ end_mark) body in
    let ends : length head + 4 ≡ length (head ++ end_mark) = sym (length-append head end_mark) in
    let h =
      read_head-Headed ((head ++ end_mark) ++ body) (length head) found
        (omega (arith, ap length header, ends)) [] reads pieces (e ∙ whole) in
    let heads : take (length head) h.buffer ≡ head =
      sym (
        take-append (length head) h.buffer (arrived h.reads)
          (omega (arith, position-le end_mark h.buffer (length head) h.ends)))
      ∙ ap (take (length head)) (h.split ∙ append_assoc head end_mark body)
      ∙ take-length-append head (end_mark ++ body) in
    let text = lines-request lib url host port n upload pu ph in
    let parts = lib.split_whitespace (request_line url) in
    let headers = read_headers lib [] ls in
    let counted : content_length_of lib headers ≡ n =
      content_length_of-request lib host port n upload (omega (arith, sizes)) in
    let needed : u64 ((length head + 4) + content_length_of lib headers)
        ≡ length ((head ++ end_mark) ++ body) =
      omega (arith, counted, sizes, ap length whole, ends, length-append (head ++ end_mark) body) in
    (
      content_type_of lib headers,
      ap (after_head lib) h.read
          ∙ ap (read_rest lib h.buffer h.reads) h.ends
          ∙ ap (λ t. read_lines lib h.buffer h.reads (length head) (lines (lib.from_utf8_lossy t)))
              heads
          ∙ ap (read_lines lib h.buffer h.reads (length head)) text
          ∙ ap (request_of lib parts headers (length head + 4)) (
              ap (λ k. read_body k h.buffer h.reads) needed
              ∙ read_body-arrived ((head ++ end_mark) ++ body) h.buffer h.reads h.pieces h.split)
          ∙ ap (λ k. request_of lib parts headers k (some ((head ++ end_mark) ++ body))) ends
          ∙ request_of-whole lib parts headers (head ++ end_mark) body counted
          ∙ ap₂
              (λ m q. ok (record {
                method = m;
                path = q;
                content_type = content_type_of lib headers;
                body = body;
              }))
              (ap (λ t. lib.to_uppercase (head_of t)) (split_whitespace-request_line url pu lib nu)
                ∙ lib.to_uppercase_ascii (codes "POST") (omega arith))
              (ap (λ t. head_of (tail_of_lines t)) (split_whitespace-request_line url pu lib nu)),
    )
