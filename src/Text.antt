-- ===== src/Text.antt =====
-- What src/client.rs and src/server.rs use of the standard library's text: a text is the list of its
-- bytes in UTF-8. What depends on Unicode beyond ASCII is the record `StrLib`.
pub mod Decimal
pub mod Laws
pub mod Numbers
pub mod Ascii
pub mod Blocks
mod Tests
use Prim.Native.Char.{code}
use Prim.Native.String.{String}
use cosmicdrop.Base.{
  ℕ, ◌+◌, ◌-◌, ◌*◌, ◌/◌, ◌%◌, ◌<◌, ltb, leb, ◌==◌, Bool, true, false, not, ◌&&◌, ◌||◌,
  if◌then◌else◌, List, [], ◌∷◌, ◌++◌, map, Option, none, some, ◌≡◌, All, zero, suc,
}

-- The bytes of a text literal.
abbrev pub codes : String → List ℕ
codes String.[] = []
codes (String.◌∷◌ c s) = code c ∷ codes s

abbrev pub crlf : List ℕ
crlf = 13 ∷ 10 ∷ []

abbrev pub is_empty : List ℕ → Bool
is_empty [] = true
is_empty (c ∷ cs) = false

-- `slice.starts_with(prefix)`, `str.starts_with(prefix)`.
unfoldable pub starts_with : List ℕ → List ℕ → Bool
starts_with bytes [] = true
starts_with [] (p ∷ prefix) = false
starts_with (b ∷ bytes) (p ∷ prefix) = (b == p) && starts_with bytes prefix

-- `bytes.windows(pattern.len()).position(|w| w == pattern)`, for a pattern that is not empty.
unfoldable pub position : List ℕ → List ℕ → Option ℕ
position pattern [] = none
position pattern (b ∷ bytes) =
    let later = position pattern bytes in
    if starts_with (b ∷ bytes) pattern
    then some 0
    else elim later [ none ↦ none | some i ↦ some (i + 1) ]

abbrev pub ends_with_slash : List ℕ → Bool
ends_with_slash [] = false
ends_with_slash (c ∷ []) = c == b'/'
ends_with_slash (c ∷ d ∷ cs) = ends_with_slash (d ∷ cs)

-- `path.join(name)` for a relative name.
unfoldable pub join : List ℕ → List ℕ → List ℕ
join path name =
    if is_empty path || ends_with_slash path then path ++ name else path ++ (b'/' ∷ name)

abbrev pub cons_head : ℕ → List (List ℕ) → List (List ℕ)
cons_head c [] = (c ∷ []) ∷ []
cons_head c (part ∷ parts) = (c ∷ part) ∷ parts

-- `text.split(p)`: the parts between the bytes that fit.
unfoldable pub split : (ℕ → Bool) → List ℕ → List (List ℕ)
split p [] = [] ∷ []
split p (c ∷ cs) = let parts = split p cs in if p c then [] ∷ parts else cons_head c parts

-- `text.split_once(delimiter)`.
unfoldable pub split_once : ℕ → List ℕ → Option (List ℕ × List ℕ)
split_once delimiter [] = none
split_once delimiter (c ∷ cs) =
    let later = split_once delimiter cs in
    if c == delimiter
    then some ([], cs)
    else elim later [ none ↦ none | some kv ↦ some (c ∷ kv.0, kv.1) ]

-- `text.lines()`: the parts between line feeds, less one carriage return each, and no empty last one.
unfoldable pub strip_cr : List ℕ → List ℕ
strip_cr [] = []
strip_cr (c ∷ []) = if c == 13 then [] else c ∷ []
strip_cr (c ∷ d ∷ cs) = c ∷ strip_cr (d ∷ cs)

unfoldable pub end_lines : List (List ℕ) → List (List ℕ)
end_lines [] = []
end_lines (part ∷ []) = if is_empty part then [] else part ∷ []
end_lines (part ∷ next ∷ parts) = strip_cr part ∷ end_lines (next ∷ parts)

unfoldable pub lines : List ℕ → List (List ℕ)
lines text = end_lines (split (λ c. c == 10) text)

-- On ASCII: case, white space, `trim` and `split_whitespace`.
abbrev pub lower : ℕ → ℕ
lower c = if leb b'A' c && leb c b'Z' then c + 32 else c

abbrev pub upper : ℕ → ℕ
upper c = if leb b'a' c && leb c b'z' then c - 32 else c

abbrev pub is_space : ℕ → Bool
is_space c = c == 32 || (leb 9 c && leb c 13)

unfoldable pub trim_start : List ℕ → List ℕ
trim_start [] = []
trim_start (c ∷ cs) = if is_space c then trim_start cs else c ∷ cs

unfoldable pub trim_end : List ℕ → List ℕ
trim_end [] = []
trim_end (c ∷ cs) = let rest = trim_end cs in if is_space c && is_empty rest then [] else c ∷ rest

unfoldable pub non_empty : List (List ℕ) → List (List ℕ)
non_empty [] = []
non_empty (part ∷ parts) = let rest = non_empty parts in if is_empty part then rest else part ∷ rest

unfoldable pub words : List ℕ → List (List ℕ)
words text = non_empty (split is_space text)

abbrev pub IsAscii : List ℕ → Type 0
IsAscii text = All (λ c. c < 128) text

-- The operations that read Unicode tables, with what is documented for ASCII text.
pub record StrLib : Type 0 where
  pub from_utf8_lossy : List ℕ → List ℕ
  pub to_lowercase : List ℕ → List ℕ
  pub to_uppercase : List ℕ → List ℕ
  pub trim : List ℕ → List ℕ
  pub split_whitespace : List ℕ → List (List ℕ)
  pub from_utf8_lossy_ascii : (text : List ℕ) → IsAscii text → from_utf8_lossy text ≡ text
  pub to_lowercase_ascii : (text : List ℕ) → IsAscii text → to_lowercase text ≡ map lower text
  pub to_uppercase_ascii : (text : List ℕ) → IsAscii text → to_uppercase text ≡ map upper text
  pub trim_ascii : (text : List ℕ) → IsAscii text → trim text ≡ trim_end (trim_start text)
  pub split_whitespace_ascii : (text : List ℕ) → IsAscii text → split_whitespace text ≡ words text

-- `n.to_string()`: the digits of `n` before those that are there; each round writes one.
unfoldable pub digits : ℕ → ℕ → List ℕ → List ℕ
digits zero n tail = tail
digits (suc fuel) n tail =
    let rest = digits fuel (n / 10) ((b'0' + n % 10) ∷ tail) in
    if ltb n 10 then (b'0' + n) ∷ tail else rest

unfoldable pub decimal : ℕ → List ℕ
decimal n = digits (suc n) n []

-- `format!("{n:0width$x}")` for a number below `16 ^ width`.
unfoldable pub hex : ℕ → ℕ → List ℕ
hex zero n = []
hex (suc width) n =
    let digit = n % 16 in
    hex width (n / 16) ++ ((if ltb digit 10 then b'0' + digit else b'a' + (digit - 10)) ∷ [])

-- `text.parse()` into an unsigned integer below `limit`: an optional plus, then digits.
abbrev pub usize_limit : ℕ
usize_limit = 18446744073709551616

unfoldable pub read_digits : ℕ → ℕ → List ℕ → Option ℕ
read_digits limit value [] = some value
read_digits limit value (c ∷ cs) =
    let next = value * 10 + (c - b'0') in
    if (leb b'0' c && leb c b'9') && ltb next limit then read_digits limit next cs else none

unfoldable pub parse_digits : ℕ → List ℕ → Option ℕ
parse_digits limit [] = none
parse_digits limit (c ∷ cs) = read_digits limit 0 (c ∷ cs)

unfoldable pub parse : ℕ → List ℕ → Option ℕ
parse limit [] = none
parse limit (c ∷ cs) = if c == b'+' then parse_digits limit cs else parse_digits limit (c ∷ cs)
