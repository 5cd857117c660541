-- ===== src/Text/Laws.antt =====
-- Splitting a text where its parts are joined.
use cosmicdrop.Base.{
  ℕ, ◌==◌, Bool, true, false, ◌||◌, List, [], ◌∷◌, ◌++◌, some, ◌≡◌, ◌≢◌, refl, ap, ◌∙◌, All, arith,
}
use cosmicdrop.Text.{split, split_once, strip_cr, end_lines, lines, crlf, cons_head, starts_with}

pub All-append {ℓ κ} :
    {A : Type ℓ} (P : A → Type κ) (xs ys : List A) → All P xs → All P ys → All P (xs ++ ys)
All-append P [] ys h k = k
All-append P (x ∷ xs) ys h k = (h.0, All-append P xs ys h.1 k)

-- No byte of the text fits.
abbrev pub Lacks : (ℕ → Bool) → List ℕ → Type 0
Lacks p text = All (λ c. p c ≡ false) text

pub split-append :
    (p : ℕ → Bool) (part : List ℕ) (d : ℕ) (rest : List ℕ)
    → Lacks p part
    → p d ≡ true
    → split p (part ++ (d ∷ rest)) ≡ part ∷ split p rest
unfolding split
split-append p [] d rest h e = rw e
split-append p (c ∷ part) d rest h e = rw h.0 (ap (cons_head c) (split-append p part d rest h.1 e))

pub split-Lacks : (p : ℕ → Bool) (part : List ℕ) → Lacks p part → split p part ≡ part ∷ []
unfolding split
split-Lacks p [] h = refl
split-Lacks p (c ∷ part) h = rw h.0 (ap (cons_head c) (split-Lacks p part h.1))

pub split_once-append :
    (d : ℕ) (key value : List ℕ)
    → Lacks (λ c. c == d) key
    → split_once d (key ++ (d ∷ value)) ≡ some (key, value)
unfolding split_once
split_once-append d [] value h = ground arith
split_once-append d (c ∷ key) value h = rw (h.0, split_once-append d key value h.1)

-- A line: no line feed and no carriage return.
abbrev pub is_break : ℕ → Bool
is_break c = c == 10 || c == 13

abbrev pub IsLine : List ℕ → Type 0
IsLine text = Lacks is_break text

Lacks-line : (line : List ℕ) → IsLine line → Lacks (λ c. c == 10) line
Lacks-line [] h = tt
Lacks-line (c ∷ cs) h = (ground (arith, h.0), Lacks-line cs h.1)

Lacks-line_cr : (line : List ℕ) → IsLine line → Lacks (λ c. c == 10) (line ++ (13 ∷ []))
Lacks-line_cr line h =
    All-append (λ c. (c == 10) ≡ false) line (13 ∷ []) (Lacks-line line h) (refl, tt)

strip_cr-append : (line : List ℕ) → strip_cr (line ++ (13 ∷ [])) ≡ line
unfolding strip_cr
strip_cr-append [] = refl
strip_cr-append (c ∷ []) = refl
strip_cr-append (c ∷ d ∷ cs) = ap (λ t. c ∷ t) (strip_cr-append (d ∷ cs))

split-ne-nil : (p : ℕ → Bool) (text : List ℕ) → split p text ≢ []
unfolding split
split-ne-nil p [] = λ e. cc
split-ne-nil p (c ∷ cs) = λ e. ground (arith, split-ne-nil p cs)

end_lines-cons :
    (part : List ℕ) (parts : List (List ℕ))
    → parts ≢ []
    → end_lines (part ∷ parts) ≡ strip_cr part ∷ end_lines parts
unfolding end_lines
end_lines-cons part [] h = absurd (h refl)
end_lines-cons part (next ∷ parts) h = refl

append_cr : (line rest : List ℕ) → line ++ (crlf ++ rest) ≡ (line ++ (13 ∷ [])) ++ (10 ∷ rest)
append_cr [] rest = refl
append_cr (c ∷ line) rest = ap (λ t. c ∷ t) (append_cr line rest)

pub lines-append :
    (line rest : List ℕ) → IsLine line → lines (line ++ (crlf ++ rest)) ≡ line ∷ lines rest
unfolding lines
lines-append line rest h =
    ap (λ t. end_lines (split (λ c. c == 10) t)) (append_cr line rest)
    ∙ ap end_lines
        (split-append (λ c. c == 10) (line ++ (13 ∷ [])) 10 rest (Lacks-line_cr line h) refl)
    ∙ end_lines-cons (line ++ (13 ∷ [])) (split (λ c. c == 10) rest)
        (split-ne-nil (λ c. c == 10) rest)
    ∙ ap (λ t. t ∷ end_lines (split (λ c. c == 10) rest)) (strip_cr-append line)

pub lines-line : (c : ℕ) (line : List ℕ) → IsLine (c ∷ line) → lines (c ∷ line) ≡ (c ∷ line) ∷ []
unfolding lines end_lines
lines-line c line h = ap end_lines (split-Lacks (λ b. b == 10) (c ∷ line) (Lacks-line (c ∷ line) h))

pub starts_with-append : (prefix text : List ℕ) → starts_with (prefix ++ text) prefix ≡ true
unfolding starts_with
starts_with-append [] text = refl
starts_with-append (p ∷ prefix) text = ground (arith, starts_with-append prefix text)
