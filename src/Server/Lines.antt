-- ===== src/Server/Lines.antt =====
-- The lines of a request of src/client.rs.
use mathlib.Core.List.{append_assoc}
use cosmicdrop.Base.{
  ℕ, ◌<◌, Bool, true, false, List, [], ◌∷◌, ◌++◌, ◌≡◌, refl, ap, ◌∙◌, All, arith, length,
}
use cosmicdrop.Client.{request_header, push_headers, upload_headers}
use cosmicdrop.Server.Answers.{length_line, length_line-IsLine, length_line-IsAscii}
use cosmicdrop.Text.{StrLib, codes, IsAscii, words, non_empty, is_empty, is_space, split, decimal}
use cosmicdrop.Text.Blocks.{block, end_mark, IsLineList}
use cosmicdrop.Text.Laws.{IsLine, Lacks, All-append, is_break, split-append, split-Lacks}
use cosmicdrop.Text.Numbers.{IsAscii-decimal, IsLine-decimal, All-map}

abbrev pub IsFull : List ℕ → Type 0
IsFull line = IsLine line × (is_empty line ≡ false)

-- A printable text without blanks.
abbrev pub IsPrintable : List ℕ → Type 0
IsPrintable text = All (λ c. (32 < c) × (c < 127)) text

pub printable-IsLine : (text : List ℕ) → IsPrintable text → IsLine text
printable-IsLine text =
    All-map (λ c. (32 < c) × (c < 127)) (λ c. is_break c ≡ false) text (λ c h. ground arith)

pub printable-IsAscii : (text : List ℕ) → IsPrintable text → IsAscii text
printable-IsAscii text =
    All-map (λ c. (32 < c) × (c < 127)) (λ c. c < 128) text (λ c h. omega arith)

pub printable-Lacks : (text : List ℕ) → IsPrintable text → Lacks is_space text
printable-Lacks text =
    All-map (λ c. (32 < c) × (c < 127)) (λ c. is_space c ≡ false) text (λ c h. ground arith)

-- The headers that the client adds: none, or those of an upload.
abbrev pub added : Bool → List (List ℕ × List ℕ)
added true = upload_headers
added false = []

abbrev pub added_lines : Bool → List (List ℕ)
added_lines true = codes "Content-Type: application/x-cpio" ∷ []
added_lines false = []

abbrev pub request_line : List ℕ → List ℕ
request_line url = codes "POST " ++ (url ++ codes " HTTP/1.1")

abbrev pub host_line : List ℕ → ℕ → List ℕ
host_line host port = codes "Host: " ++ (host ++ (codes ":" ++ decimal port))

abbrev pub fixed_lines : List (List ℕ)
fixed_lines =
    codes "Content-Type: application/octet-stream"
    ∷ codes "Connection: keep-alive"
    ∷ codes "Accept: */*"
    ∷ codes "User-Agent: AirDrop/1.0"
    ∷ codes "Accept-Language: en-us"
    ∷ codes "Accept-Encoding: br, gzip, deflate"
    ∷ []

-- The lines before the length, and all lines behind the first.
abbrev pub first_lines : List ℕ → ℕ → List (List ℕ)
first_lines host port = host_line host port ∷ fixed_lines

abbrev pub request_lines : List ℕ → ℕ → ℕ → Bool → List (List ℕ)
request_lines host port n upload = first_lines host port ++ (length_line n ∷ added_lines upload)

pub request_header-block :
    (url host : List ℕ) (port : ℕ) (body : List ℕ) (upload : Bool)
    → request_header url host port body (added upload)
      ≡ block (request_line url) (request_lines host port (length body) upload) ++ end_mark
unfolding request_header block push_headers
request_header-block url host port body true = simp append_assoc
request_header-block url host port body false = simp append_assoc

module _ (url : List ℕ) (printable : IsPrintable url) where
  pub request_line-IsLine : IsLine (request_line url)
  request_line-IsLine =
      All-append (λ c. is_break c ≡ false) (codes "POST ") (url ++ codes " HTTP/1.1") (ground arith)
        (All-append (λ c. is_break c ≡ false) url (codes " HTTP/1.1")
          (printable-IsLine url printable) (ground arith))

  pub request_line-IsAscii : IsAscii (request_line url)
  request_line-IsAscii =
      All-append (λ c. c < 128) (codes "POST ") (url ++ codes " HTTP/1.1") (omega arith)
        (All-append (λ c. c < 128) url (codes " HTTP/1.1") (printable-IsAscii url printable)
          (omega arith))

  pub split-request_line :
      split is_space (request_line url) ≡ codes "POST" ∷ url ∷ codes "HTTP/1.1" ∷ []
  split-request_line =
      split-append is_space (codes "POST") b' ' (url ++ codes " HTTP/1.1") (ground arith) refl
      ∙ ap (λ t. codes "POST" ∷ t)
          (split-append is_space url b' ' (codes "HTTP/1.1") (printable-Lacks url printable) refl
            ∙ ap (λ t. url ∷ t) (split-Lacks is_space (codes "HTTP/1.1") (ground arith)))

  pub split_whitespace-request_line :
      (lib : StrLib)
      → is_empty url ≡ false
      → lib.split_whitespace (request_line url) ≡ codes "POST" ∷ url ∷ codes "HTTP/1.1" ∷ []
  unfolding words non_empty
  split_whitespace-request_line lib h =
      lib.split_whitespace_ascii (request_line url) request_line-IsAscii
      ∙ ap non_empty split-request_line
      ∙ rw h refl

pub fixed_lines-IsFull : All IsFull fixed_lines
fixed_lines-IsFull = ground arith

pub added_lines-IsFull : (upload : Bool) → All IsFull (added_lines upload)
added_lines-IsFull true = ground arith
added_lines-IsFull false = tt

pub fixed_lines-IsAscii : All IsAscii fixed_lines
fixed_lines-IsAscii = omega arith

pub added_lines-IsAscii : (upload : Bool) → All IsAscii (added_lines upload)
added_lines-IsAscii true = omega arith
added_lines-IsAscii false = tt

module _ (host : List ℕ) (port : ℕ) (printable : IsPrintable host) where
  pub host_line-IsLine : IsLine (host_line host port)
  host_line-IsLine =
      All-append (λ c. is_break c ≡ false) (codes "Host: ") (host ++ (codes ":" ++ decimal port))
        (ground arith)
        (All-append (λ c. is_break c ≡ false) host (codes ":" ++ decimal port)
          (printable-IsLine host printable) (refl, IsLine-decimal port))

  pub host_line-IsAscii : IsAscii (host_line host port)
  host_line-IsAscii =
      All-append (λ c. c < 128) (codes "Host: ") (host ++ (codes ":" ++ decimal port)) (omega arith)
        (All-append (λ c. c < 128) host (codes ":" ++ decimal port)
          (printable-IsAscii host printable) (omega arith, IsAscii-decimal port))

  pub request_lines-IsLineList :
      (n : ℕ) (upload : Bool) → IsLineList (request_lines host port n upload)
  request_lines-IsLineList n upload =
      All-append IsFull (first_lines host port) (length_line n ∷ added_lines upload)
        ((host_line-IsLine, refl), fixed_lines-IsFull)
        ((length_line-IsLine n, refl), added_lines-IsFull upload)

  pub request_lines-IsAscii :
      (n : ℕ) (upload : Bool) → All IsAscii (request_lines host port n upload)
  request_lines-IsAscii n upload =
      All-append IsAscii (first_lines host port) (length_line n ∷ added_lines upload)
        (host_line-IsAscii, fixed_lines-IsAscii) (length_line-IsAscii n, added_lines-IsAscii upload)
