-- ===== src/Text/Decimal.antt =====
-- A printed number is read back.
use cosmicdrop.Base.{
  ℕ, ◌+◌, ◌/◌, ◌%◌, ◌<◌, ◌≤◌, ltb, List, [], ◌∷◌, some, ◌≡◌, refl, All, zero, suc, arith,
  Bool-cases, inl, inr, ◌∙◌, sym, ap,
}
use cosmicdrop.Text.{digits, decimal, read_digits, parse_digits, parse}

abbrev pub IsDigit : ℕ → Type 0
IsDigit c = (b'0' ≤ c) × (c ≤ b'9')

read_digits-digits :
    (limit fuel n : ℕ) (tail : List ℕ)
    → n < suc fuel
    → n < limit
    → read_digits limit 0 (digits (suc fuel) n tail) ≡ read_digits limit n tail
unfolding digits read_digits
read_digits-digits limit zero n tail h small = ground arith
read_digits-digits limit (suc fuel) n tail h small =
    ground (arith, read_digits-digits limit fuel (n / 10) ((b'0' + n % 10) ∷ tail))

digits-IsDigit : (fuel n : ℕ) (tail : List ℕ) → All IsDigit tail → All IsDigit (digits fuel n tail)
unfolding digits
digits-IsDigit zero n tail h = h
digits-IsDigit (suc fuel) n tail h =
    ground (arith, digits-IsDigit fuel (n / 10) ((b'0' + n % 10) ∷ tail))

pub decimal-IsDigit : (n : ℕ) → All IsDigit (decimal n)
unfolding decimal
decimal-IsDigit n = digits-IsDigit (suc n) n [] tt

digits-cons :
    (fuel n d : ℕ) (tail : List ℕ) → (c : ℕ) × (cs : List ℕ) × (digits fuel n (d ∷ tail) ≡ c ∷ cs)
unfolding digits
digits-cons zero n d tail = (d, tail, refl)
digits-cons (suc fuel) n d tail = elim (Bool-cases (ltb n 10)) [
  | inl e ↦ (b'0' + n, d ∷ tail, rw e)
  | inr e ↦ rw e (digits-cons fuel (n / 10) (b'0' + n % 10) (d ∷ tail))
]

pub decimal-cons : (n : ℕ) → (c : ℕ) × (cs : List ℕ) × (decimal n ≡ c ∷ cs)
unfolding decimal digits
decimal-cons n = elim (Bool-cases (ltb n 10)) [
  | inl e ↦ (b'0' + n, [], rw e)
  | inr e ↦ rw e (digits-cons n (n / 10) (b'0' + n % 10) [])
]

-- A list of digits that is not empty has no sign.
parse-IsDigit :
    (limit c : ℕ) (cs : List ℕ) → IsDigit c → parse limit (c ∷ cs) ≡ read_digits limit 0 (c ∷ cs)
unfolding parse parse_digits
parse-IsDigit limit c cs h = ground arith

read_decimal : (limit n : ℕ) → n < limit → read_digits limit 0 (decimal n) ≡ some n
unfolding decimal read_digits
read_decimal limit n h = read_digits-digits limit n n [] (omega arith) h

pub parse-decimal : (limit n : ℕ) → n < limit → parse limit (decimal n) ≡ some n
parse-decimal limit n h =
    let (c, cs, e) = decimal-cons n in
    let d : IsDigit c × All IsDigit cs = rw e at (decimal-IsDigit n) in
    ap (parse limit) e
    ∙ parse-IsDigit limit c cs d.0
    ∙ ap (read_digits limit 0) (sym e)
    ∙ read_decimal limit n h
