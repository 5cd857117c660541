-- ===== src/Text/Numbers.antt =====
-- Printed numbers inside of headers.
use cosmicdrop.Base.{ℕ, ◌<◌, ◌==◌, false, List, [], ◌∷◌, ◌≡◌, refl, ap, ◌∙◌, All, arith}
use cosmicdrop.Text.{StrLib, IsAscii, decimal, trim_start, trim_end}
use cosmicdrop.Text.Decimal.{IsDigit, decimal-IsDigit}
use cosmicdrop.Text.Laws.{IsLine, is_break, Lacks}

pub All-map {ℓ κ μ} :
    {A : Type ℓ} (P : A → Type κ) (Q : A → Type μ) (xs : List A)
    → ((a : A) → P a → Q a)
    → All P xs
    → All Q xs
All-map P Q [] f h = tt
All-map P Q (x ∷ xs) f h = (f x h.0, All-map P Q xs f h.1)

pub IsAscii-decimal : (n : ℕ) → IsAscii (decimal n)
IsAscii-decimal n =
    All-map IsDigit (λ c. c < 128) (decimal n) (λ c h. omega arith) (decimal-IsDigit n)

pub IsLine-decimal : (n : ℕ) → IsLine (decimal n)
IsLine-decimal n =
    All-map IsDigit (λ c. is_break c ≡ false) (decimal n) (λ c h. ground arith) (decimal-IsDigit n)

pub Lacks-decimal : (n : ℕ) → Lacks (λ c. c == b':') (decimal n)
Lacks-decimal n =
    All-map IsDigit (λ c. (c == b':') ≡ false) (decimal n) (λ c h. ground arith) (decimal-IsDigit n)

trim_end-digits : (cs : List ℕ) → All IsDigit cs → trim_end cs ≡ cs
unfolding trim_end
trim_end-digits [] h = refl
trim_end-digits (c ∷ cs) h = ground (arith, trim_end-digits cs h.1)

trim_start-digits : (cs : List ℕ) → All IsDigit cs → trim_start cs ≡ cs
unfolding trim_start
trim_start-digits [] h = refl
trim_start-digits (c ∷ cs) h = ground arith

pub trim-decimal : (lib : StrLib) (n : ℕ) → lib.trim (b' ' ∷ decimal n) ≡ decimal n
unfolding trim_start
trim-decimal lib n =
    lib.trim_ascii (b' ' ∷ decimal n) (omega arith, IsAscii-decimal n)
    ∙ ap trim_end (trim_start-digits (decimal n) (decimal-IsDigit n))
    ∙ trim_end-digits (decimal n) (decimal-IsDigit n)
