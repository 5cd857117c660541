-- ===== src/Text/Tests.antt =====
-- Texts at small inputs.
use cosmicdrop.Base.{[], ◌∷◌, none, some, ◌≡◌, refl}
use cosmicdrop.Text.{
  codes, split, lines, strip_cr, end_lines, trim_start, trim_end, words, non_empty, decimal, digits,
  parse, parse_digits, read_digits, position, starts_with, join, hex, usize_limit,
}

two_lines : lines (codes "a\r\nb\n") ≡ codes "a" ∷ codes "b" ∷ []
unfolding lines end_lines split strip_cr
two_lines = refl

trimmed : trim_end (trim_start (codes " a b\t")) ≡ codes "a b"
unfolding trim_start trim_end
trimmed = refl

three_words : words (codes "GET  /x HTTP/1.1") ≡ codes "GET" ∷ codes "/x" ∷ codes "HTTP/1.1" ∷ []
unfolding words non_empty split
three_words = refl

printed : decimal 8771 ≡ codes "8771"
unfolding decimal digits
printed = refl

plus_sign : parse usize_limit (codes "+17") ≡ some 17
unfolding parse parse_digits read_digits
plus_sign = refl

not_a_number : parse usize_limit (codes "1x") ≡ none
unfolding parse parse_digits read_digits
not_a_number = refl

too_large : parse usize_limit (codes "18446744073709551616") ≡ none
unfolding parse parse_digits read_digits
too_large = refl

at_three : position (codes "\r\n\r\n") (codes "abc\r\n\r\nd") ≡ some 3
unfolding position starts_with
at_three = refl

joined : join (codes "/home") (codes "keys") ≡ codes "/home/keys"
unfolding join
joined = refl

padded_hex : hex 4 255 ≡ codes "00ff"
unfolding hex
padded_hex = refl
