-- ===== src/Server/Answers.antt =====
-- The client reads what the server answers: `write_response` of src/server.rs and `send_post` of
-- src/client.rs together.
use mathlib.Core.List.{append_assoc}
use cosmicdrop.Base.{
  ℕ, ◌+◌, ◌<◌, ◌==◌, Bool, false, List, [], ◌∷◌, ◌++◌, none, some, ◌≡◌, ◌⊎◌, refl, ap, ap₂, ◌∙◌,
  sym, All, arith, length, length-append, inl, inr, drop, drop-length-append,
}
use cosmicdrop.Client.{
  Read, behind, body_behind, find_header_end, content_length, line_length, find_length,
  read_http_response, read_answer, answer_of, send_post,
}
use cosmicdrop.Client.Response.{arrived, HasBytes, read_http_response-arrived}
use cosmicdrop.Server.Routes.{response, response_header, reason_of}
use cosmicdrop.Text.{
  StrLib, codes, IsAscii, starts_with, split, position, usize_limit, decimal, digits,
}
use cosmicdrop.Text.Blocks.{
  block, block-IsAscii, end_mark, position-block, lines-block_end, IsLineList,
}
use cosmicdrop.Text.Decimal.{parse-decimal}
use cosmicdrop.Text.Laws.{IsLine, All-append, is_break, split-append, split-Lacks}
use cosmicdrop.Text.Numbers.{IsAscii-decimal, IsLine-decimal, Lacks-decimal, trim-decimal}

-- The statuses that `handle_connection` answers.
abbrev pub IsAnswered : ℕ → Type 0
IsAnswered status = (status ≡ 200) ⊎ (status ≡ 400)

abbrev status_line : ℕ → List ℕ
status_line status = codes "HTTP/1.1 " ++ (decimal status ++ (codes " " ++ reason_of status))

abbrev pub length_line : ℕ → List ℕ
length_line n = codes "Content-Length: " ++ decimal n

abbrev response_lines : ℕ → List (List ℕ)
response_lines n = length_line n ∷ codes "Connection: close" ∷ []

pub length_line-IsLine : (n : ℕ) → IsLine (length_line n)
length_line-IsLine n =
    All-append (λ c. is_break c ≡ false) (codes "Content-Length: ") (decimal n) (ground arith)
      (IsLine-decimal n)

pub length_line-IsAscii : (n : ℕ) → IsAscii (length_line n)
length_line-IsAscii n =
    All-append (λ c. c < 128) (codes "Content-Length: ") (decimal n) (omega arith)
      (IsAscii-decimal n)

pub line_length-length_line :
    (lib : StrLib) (n : ℕ) → n < usize_limit → line_length lib (length_line n) ≡ some n
unfolding line_length starts_with
line_length-length_line lib n h =
    let parts : split (λ c. c == b':') (length_line n)
        ≡ codes "Content-Length" ∷ (b' ' ∷ decimal n) ∷ [] =
      split-append (λ c. c == b':') (codes "Content-Length") b':' (b' ' ∷ decimal n) (ground arith)
        refl
      ∙ ap (λ t. codes "Content-Length" ∷ t)
          (split-Lacks (λ c. c == b':') (b' ' ∷ decimal n) (refl, Lacks-decimal n)) in
    rw (lib.to_lowercase_ascii (length_line n) (length_line-IsAscii n), parts, trim-decimal lib n)
      (parse-decimal usize_limit n h)

status_line-IsLine : (status : ℕ) → IsAnswered status → IsLine (status_line status)
unfolding decimal digits
status_line-IsLine status (inl e) = rw e (ground arith)
status_line-IsLine status (inr e) = rw e (ground arith)

status_line-IsAscii : (status : ℕ) → IsAnswered status → IsAscii (status_line status)
unfolding decimal digits
status_line-IsAscii status (inl e) = rw e (omega arith)
status_line-IsAscii status (inr e) = rw e (omega arith)

response_lines-IsLineList : (n : ℕ) → IsLineList (response_lines n)
response_lines-IsLineList n = ((length_line-IsLine n, refl), ((ground arith, refl), tt))

-- The header is a block of three lines.
abbrev response_block : ℕ → ℕ → List ℕ
response_block status n = block (status_line status) (response_lines n)

response_header-block :
    (status : ℕ) (body : List ℕ)
    → response_header status body ≡ response_block status (length body) ++ end_mark
unfolding response_header block
response_header-block status body = simp append_assoc

response_block-IsAscii :
    (status n : ℕ) → IsAnswered status → IsAscii (response_block status n ++ end_mark)
response_block-IsAscii status n h =
    All-append (λ c. c < 128) (response_block status n) end_mark
      (block-IsAscii (status_line status) (response_lines n) (status_line-IsAscii status h)
        (length_line-IsAscii n, (omega arith, tt)))
      (omega arith)

-- The status line states no length.
line_length-status_line :
    (lib : StrLib) (status : ℕ) → IsAnswered status → line_length lib (status_line status) ≡ none
unfolding line_length starts_with
line_length-status_line lib status h =
    rw (lib.to_lowercase_ascii (status_line status) (status_line-IsAscii status h)) refl

content_length-response :
    (lib : StrLib) (status n : ℕ)
    → IsAnswered status
    → n < usize_limit
    → content_length lib (lib.from_utf8_lossy (response_block status n ++ end_mark)) ≡ n
unfolding content_length find_length
content_length-response lib status n h small =
    rw
      (
        lib.from_utf8_lossy_ascii (response_block status n ++ end_mark)
            (response_block-IsAscii status n h),
        lines-block_end (status_line status) (response_lines n) (status_line-IsLine status h)
            (response_lines-IsLineList n),
        line_length-status_line lib status h,
        line_length-length_line lib n small,
      )
      refl

starts_with_common :
    (common text prefix : List ℕ)
    → starts_with (common ++ text) (common ++ prefix) ≡ starts_with text prefix
unfolding starts_with
starts_with_common [] text prefix = refl
starts_with_common (c ∷ common) text prefix = ground (arith, starts_with_common common text prefix)

starts_with-status :
    (status : ℕ) (text : List ℕ)
    → IsAnswered status
    → starts_with (decimal status ++ text) (codes "200") ≡ (status == 200)
unfolding decimal digits starts_with
starts_with-status status text (inl e) = rw e refl
starts_with-status status text (inr e) = rw e refl

abbrev response_rest : ℕ → List ℕ → List ℕ
response_rest status body =
    codes " "
    ++ (reason_of status
        ++ (codes "\r\nContent-Length: "
            ++ (decimal (length body) ++ codes "\r\nConnection: close\r\n\r\n")))

response_tail :
    (status : ℕ) (body : List ℕ)
    → (tail : List ℕ) × (response status body ≡ codes "HTTP/1.1 " ++ (decimal status ++ tail))
unfolding response response_header
response_tail status body = (
  response_rest status body ++ body,
  append_assoc (codes "HTTP/1.1 ") (decimal status ++ response_rest status body) body
      ∙ ap (λ t. codes "HTTP/1.1 " ++ t)
          (append_assoc (decimal status) (response_rest status body) body),
)

response_ok :
    (status : ℕ) (body : List ℕ)
    → IsAnswered status
    → starts_with (response status body) (codes "HTTP/1.1 200") ≡ (status == 200)
response_ok status body h =
    let (tail, e) = response_tail status body in
    ap (λ t. starts_with t (codes "HTTP/1.1 200")) e
    ∙ starts_with_common (codes "HTTP/1.1 ") (decimal status ++ tail) (codes "200")
    ∙ starts_with-status status tail h

-- What the client makes of a whole response.
read_answer-response :
    (status : ℕ) (body : List ℕ)
    → IsAnswered status
    → read_answer (response status body) ≡ (status == 200, body)
unfolding read_answer find_header_end response
read_answer-response status body h =
    let head = response_block status (length body) in
    let whole : response status body ≡ (head ++ end_mark) ++ body =
      ap (λ t. t ++ body) (response_header-block status body) in
    let found : position end_mark (response status body) ≡ some (length head) =
      ap (position end_mark) (whole ∙ append_assoc head end_mark body)
      ∙ position-block (status_line status) (response_lines (length body)) body
          (status_line-IsLine status h) (response_lines-IsLineList (length body)) in
    let rest : drop (length head + 4) (response status body) ≡ body =
      ap (drop (length head + 4)) whole
      ∙ ap (λ n. drop n ((head ++ end_mark) ++ body)) (sym (length-append head end_mark))
      ∙ drop-length-append (head ++ end_mark) body in
    ap₂ (λ (a : Bool) (b : List ℕ). (a, b)) (response_ok status body h)
      (ap (λ o. body_behind (response status body) (behind o)) found ∙ rest)

-- However a response of the server is cut into pieces on its way, the client reads it whole, takes
-- it for a success exactly if its status is 200, and finds its body.
pub send_post-response :
    (lib : StrLib) (status : ℕ) (body : List ℕ) (reads : List Read)
    → IsAnswered status
    → length (response status body) < usize_limit
    → All HasBytes reads
    → arrived reads ≡ response status body
    → send_post lib reads ≡ some (status == 200, body)
unfolding send_post response
send_post-response lib status body reads h short pieces e =
    let head = response_block status (length body) in
    let whole : response status body ≡ (head ++ end_mark) ++ body =
      ap (λ t. t ++ body) (response_header-block status body) in
    let sizes : length (response status body) ≡ length (head ++ end_mark) + length body =
      ap length whole ∙ length-append (head ++ end_mark) body in
    let read : read_http_response lib [] reads ≡ some ((head ++ end_mark) ++ body) =
      read_http_response-arrived lib (head ++ end_mark) body (length head)
        (ap (position end_mark) (append_assoc head end_mark body)
          ∙ position-block (status_line status) (response_lines (length body)) body
              (status_line-IsLine status h) (response_lines-IsLineList (length body)))
        (sym (length-append head end_mark))
        (content_length-response lib status (length body) h (omega (arith, sizes)))
        (omega (arith, sizes)) reads [] pieces (e ∙ whole) in
    ap (answer_of read_answer) (read ∙ ap some (sym whole))
    ∙ ap some (read_answer-response status body h)
