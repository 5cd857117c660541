-- ===== src/Text/Blocks.antt =====
-- Header blocks: lines, each with a carriage return and a line feed behind it, up to an empty line.
use cosmicdrop.Base.{
  ℕ, ◌+◌, ◌-◌, ◌<◌, ◌≤◌, ◌==◌, true, false, ◌&&◌, List, [], ◌∷◌, ◌++◌, some, ◌≡◌, ◌≢◌, refl, ap,
  ◌∙◌, All, arith, length, length-append, Bool-cases, inl, inr, Option-cases,
}
use mathlib.Core.List.{append_assoc}
use cosmicdrop.Text.{
  split, end_lines, strip_cr, lines, crlf, starts_with, position, IsAscii, is_empty,
}
use cosmicdrop.Text.Laws.{All-append, is_break, IsLine, lines-append, lines-line}

lines_crlf : lines crlf ≡ [] ∷ []
unfolding lines split end_lines strip_cr
lines_crlf = refl

-- The end of a block.
abbrev pub end_mark : List ℕ
end_mark = crlf ++ crlf

unfoldable pub block : List ℕ → List (List ℕ) → List ℕ
block line [] = line
block line (next ∷ rest) = line ++ (crlf ++ block next rest)

abbrev pub IsLineList : List (List ℕ) → Type 0
IsLineList ls = All (λ line. IsLine line × (is_empty line ≡ false)) ls

-- Beyond a line, the search goes on.
position-line :
    (line rest : List ℕ) (i : ℕ)
    → IsLine line
    → position end_mark rest ≡ some i
    → position end_mark (line ++ rest) ≡ some (length line + i)
unfolding position starts_with
position-line [] rest i h e = ground arith
position-line (c ∷ line) rest i h e = ground (arith, h.0, position-line line rest i h.1)

-- After a line end, with no line end behind it.
position-crlf :
    (c : ℕ) (rest : List ℕ) (i : ℕ)
    → is_break c ≡ false
    → position end_mark (c ∷ rest) ≡ some i
    → position end_mark (crlf ++ (c ∷ rest)) ≡ some (2 + i)
unfolding position starts_with
position-crlf c rest i h e = ground (arith, h)

position-end : (rest : List ℕ) → position end_mark (end_mark ++ rest) ≡ some 0
unfolding position starts_with
position-end rest = refl

block-cons :
    (c : ℕ) (cs : List ℕ) (ls : List (List ℕ)) → (rest : List ℕ) × (block (c ∷ cs) ls ≡ c ∷ rest)
unfolding block
block-cons c cs [] = (cs, refl)
block-cons c cs (next ∷ ls) = (cs ++ (crlf ++ block next ls), refl)

block_append :
    (line next : List ℕ) (ls : List (List ℕ)) (rest : List ℕ)
    → block line (next ∷ ls) ++ rest ≡ line ++ (crlf ++ (block next ls ++ rest))
unfolding block
block_append line next ls rest = append_assoc line (crlf ++ block next ls) rest

pub position-block :
    (line : List ℕ) (ls : List (List ℕ)) (rest : List ℕ)
    → IsLine line
    → IsLineList ls
    → position end_mark (block line ls ++ (end_mark ++ rest)) ≡ some (length (block line ls))
unfolding block
position-block line [] rest h k =
    position-line line (end_mark ++ rest) 0 h (position-end rest) ∙ ap some (omega arith)
position-block line ([] ∷ ls) rest h k = cc
position-block line ((c ∷ cs) ∷ ls) rest h k =
    let (r, e) = block-cons c cs ls in
    let X = end_mark ++ rest in
    let found = position-block (c ∷ cs) ls rest k.0.0 k.1 in
    let after_crlf : position end_mark (crlf ++ (block (c ∷ cs) ls ++ X))
        ≡ some (2 + length (block (c ∷ cs) ls)) =
      rw e (position-crlf c (r ++ X) (length (c ∷ r)) k.0.0.0 (rw e at found)) in
    ap (position end_mark) (block_append line (c ∷ cs) ls X)
    ∙ position-line line (crlf ++ (block (c ∷ cs) ls ++ X)) (2 + length (block (c ∷ cs) ls)) h
        after_crlf
    ∙ ap some (omega (arith, length-append {0} line (crlf ++ block (c ∷ cs) ls)))

pub lines-block :
    (c : ℕ) (line : List ℕ) (ls : List (List ℕ))
    → IsLine (c ∷ line)
    → IsLineList ls
    → lines (block (c ∷ line) ls) ≡ (c ∷ line) ∷ ls
unfolding block
lines-block c line [] h k = lines-line c line h
lines-block c line ([] ∷ ls) h k = cc
lines-block c line ((d ∷ ds) ∷ ls) h k =
    lines-append (c ∷ line) (block (d ∷ ds) ls) h
    ∙ ap (λ t. (c ∷ line) ∷ t) (lines-block d ds ls k.0.0 k.1)

-- With the end of the block, there is an empty line behind it.
pub lines-block_end :
    (line : List ℕ) (ls : List (List ℕ))
    → IsLine line
    → IsLineList ls
    → lines (block line ls ++ end_mark) ≡ line ∷ (ls ++ ([] ∷ []))
unfolding block
lines-block_end line [] h k = lines-append line crlf h ∙ ap (λ t. line ∷ t) lines_crlf
lines-block_end line (next ∷ ls) h k =
    ap lines (block_append line next ls end_mark)
    ∙ lines-append line (block next ls ++ end_mark) h
    ∙ ap (λ t. line ∷ t) (lines-block_end next ls k.0.0 k.1)

starts_with-long :
    (pattern bytes rest : List ℕ)
    → length pattern ≤ length bytes
    → starts_with (bytes ++ rest) pattern ≡ starts_with bytes pattern
unfolding starts_with
starts_with-long [] bytes rest h = refl
starts_with-long (p ∷ pattern) [] rest h = absurd (omega arith)
starts_with-long (p ∷ pattern) (b ∷ bytes) rest h =
    ap (λ t. (b == p) && t) (starts_with-long pattern bytes rest (omega arith))

starts_with-le :
    (pattern bytes : List ℕ) → starts_with bytes pattern ≡ true → length pattern ≤ length bytes
unfolding starts_with
starts_with-le [] bytes h = omega arith
starts_with-le (p ∷ pattern) [] h = cc
starts_with-le (p ∷ pattern) (b ∷ bytes) h = ground (arith, starts_with-le pattern bytes)

pub position-le :
    (pattern bytes : List ℕ) (i : ℕ)
    → position pattern bytes ≡ some i
    → i + length pattern ≤ length bytes
unfolding position
position-le pattern [] i h = cc
position-le pattern (b ∷ bytes) i h =
    ground (arith, starts_with-le pattern (b ∷ bytes), position-le pattern bytes (i - 1))

-- What is found in the bytes that have arrived is found in all of them.
pub position-append :
    (pattern bytes rest : List ℕ) (i : ℕ)
    → position pattern bytes ≡ some i
    → position pattern (bytes ++ rest) ≡ some i
unfolding position
position-append pattern [] rest i h = cc
position-append pattern (b ∷ bytes) rest i h = elim (Bool-cases (starts_with (b ∷ bytes) pattern)) [
  | inl e ↦
      let long = starts_with-long pattern (b ∷ bytes) rest (starts_with-le pattern (b ∷ bytes) e) in
      rw (long ∙ e) (rw e at h)
  | inr e ↦ elim (Option-cases (position pattern bytes)) [
    | inl n ↦ ground (arith, n)
    | inr (j, q) ↦
        let found = position-append pattern bytes rest j q in
        let within = position-le pattern bytes j q in
        let long = starts_with-long pattern (b ∷ bytes) rest in ground (arith, long, found, q)
  ]
]

-- What is found in all of the bytes is found as soon as enough of them have arrived.
pub position-prefix :
    (pattern bytes rest : List ℕ) (i : ℕ)
    → position pattern (bytes ++ rest) ≡ some i
    → i + length pattern ≤ length bytes
    → length pattern ≢ 0
    → position pattern bytes ≡ some i
unfolding position
position-prefix pattern [] rest i h le ne = absurd (omega arith)
position-prefix pattern (b ∷ bytes) rest i h le ne =
    let long = starts_with-long pattern (b ∷ bytes) rest (omega arith) in
    elim (Option-cases (position pattern (bytes ++ rest))) [
      | inl n ↦ ground (arith, n, long)
      | inr (j, q) ↦ ground (arith, q, long, position-prefix pattern bytes rest j q)
    ]

pub block-IsAscii :
    (line : List ℕ) (ls : List (List ℕ)) → IsAscii line → All IsAscii ls → IsAscii (block line ls)
unfolding block
block-IsAscii line [] h k = h
block-IsAscii line (next ∷ ls) h k =
    All-append (λ c. c < 128) line (crlf ++ block next ls) h
      (omega arith, (omega arith, block-IsAscii next ls k.0 k.1))
