-- ===== src/Server/Failures.antt =====
-- The loops of `handle_connection` in src/server.rs on a connection that may fail.
use mathlib.Core.List.{append_assoc}
use cosmicdrop.Base.{
  ℕ, ◌≤◌, ltb, Bool, true, false, ◌||◌, List, [], ◌∷◌, ◌++◌, Option, none, some, ◌≡◌, refl, ap, ◌∙◌,
  arith, length, length-append, Bool-cases, inl, inr,
}
use cosmicdrop.Client.{Read, failed, chunk}
use cosmicdrop.Client.Response.{arrived}
use cosmicdrop.Server.{read_head, read_body, is_found}
use cosmicdrop.Text.{position}
use cosmicdrop.Text.Blocks.{end_mark}

pub first_eq :
    (a b : List ℕ) (x y : List Read)
    → ◌≡◌ {A = Option (List ℕ × List Read)} (some (b, y)) (some (a, x))
    → a ≡ b
first_eq a b x y e = cc

-- Reading keeps what was read and adds to it.
pub read_head-prefix :
    (buf : List ℕ) (reads : List Read) (found : List ℕ) (left : List Read)
    → read_head buf reads ≡ some (found, left)
    → (rest : List ℕ) × (found ++ rest ≡ buf ++ arrived reads)
unfolding read_head
read_head-prefix buf [] found left e = ([], ap (λ t. t ++ []) (first_eq found buf left [] e))
read_head-prefix buf (failed ∷ reads) found left e = cc
read_head-prefix buf (chunk [] ∷ reads) found left e =
    (arrived reads, ap (λ t. t ++ arrived reads) (first_eq found buf left reads e))
read_head-prefix buf (chunk (b ∷ bs) ∷ reads) found left e =
    elim (Bool-cases
      (is_found (position end_mark (buf ++ (b ∷ bs))) || ltb 65536 (length (buf ++ (b ∷ bs))))) [
        | inl stop ↦ (
          arrived reads,
          ap (λ t. t ++ arrived reads) (first_eq found (buf ++ (b ∷ bs)) left reads (rw stop at e))
              ∙ append_assoc buf (b ∷ bs) (arrived reads),
        )
        | inr go ↦
            let (rest, q) = read_head-prefix (buf ++ (b ∷ bs)) reads found left (rw go at e) in
            (rest, q ∙ append_assoc buf (b ∷ bs) (arrived reads))
      ]

pub read_body-le :
    (needed : ℕ) (buf : List ℕ) (reads : List Read) (whole : List ℕ)
    → read_body needed buf reads ≡ some whole
    → length buf ≤ length whole
unfolding read_body
read_body-le needed buf [] whole e = ground arith
read_body-le needed buf (failed ∷ reads) whole e = ground arith
read_body-le needed buf (chunk [] ∷ reads) whole e = ground arith
read_body-le needed buf (chunk (b ∷ bs) ∷ reads) whole e =
    ground (arith, length-append buf (b ∷ bs), read_body-le needed (buf ++ (b ∷ bs)) reads whole)

abbrev pub has_failure : List Read → Bool
has_failure [] = false
has_failure (failed ∷ reads) = true
has_failure (chunk bytes ∷ reads) = has_failure reads

pub read_head-none :
    (buf : List ℕ) (reads : List Read) → read_head buf reads ≡ none → has_failure reads ≡ true
unfolding read_head
read_head-none buf [] e = cc
read_head-none buf (failed ∷ reads) e = refl
read_head-none buf (chunk [] ∷ reads) e = cc
read_head-none buf (chunk (b ∷ bs) ∷ reads) e =
    ground (arith, read_head-none (buf ++ (b ∷ bs)) reads)

pub read_head-left :
    (buf : List ℕ) (reads : List Read) (found : List ℕ) (left : List Read)
    → read_head buf reads ≡ some (found, left)
    → has_failure left ≡ true
    → has_failure reads ≡ true
unfolding read_head
read_head-left buf [] found left e h = ground arith
read_head-left buf (failed ∷ reads) found left e h = refl
read_head-left buf (chunk [] ∷ reads) found left e h = ground arith
read_head-left buf (chunk (b ∷ bs) ∷ reads) found left e h =
    ground (arith, read_head-left (buf ++ (b ∷ bs)) reads found left)

pub read_body-none :
    (needed : ℕ) (buf : List ℕ) (reads : List Read)
    → read_body needed buf reads ≡ none
    → has_failure reads ≡ true
unfolding read_body
read_body-none needed buf [] e = cc
read_body-none needed buf (failed ∷ reads) e = refl
read_body-none needed buf (chunk [] ∷ reads) e = cc
read_body-none needed buf (chunk (b ∷ bs) ∷ reads) e =
    ground (arith, read_body-none needed (buf ++ (b ∷ bs)) reads)
