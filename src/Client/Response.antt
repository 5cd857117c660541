-- ===== src/Client/Response.antt =====
-- `read_http_response` of src/client.rs on a message that arrives in pieces.
use mathlib.Core.List.{append_assoc, append-nil}
use cosmicdrop.Base.{
  ℕ, ◌+◌, ◌<◌, ◌≤◌, leb, true, false, List, [], ◌∷◌, ◌++◌, some, ◌≡◌, refl, ap, ◌∙◌, sym, All,
  arith, length, length-append, Bool-cases, inl, inr, Option-cases, take, take-length-append, u64,
  zero, suc,
}
use cosmicdrop.Client.{
  Read, failed, chunk, has_body, behind, is_complete, find_header_end, content_length,
  read_http_response,
}
use cosmicdrop.Text.{StrLib, position, usize_limit}
use cosmicdrop.Text.Blocks.{end_mark, position-append, position-le}

-- What arrives, and that every read gives bytes.
abbrev pub arrived : List Read → List ℕ
arrived [] = []
arrived (failed ∷ reads) = arrived reads
arrived (chunk bytes ∷ reads) = bytes ++ arrived reads

abbrev pub HasBytes : Read → Type 0
HasBytes failed = ⊥
HasBytes (chunk []) = ⊥
HasBytes (chunk (b ∷ bytes)) = Unit {0}

pub take-append : (n : ℕ) (xs ys : List ℕ) → n ≤ length xs → take n (xs ++ ys) ≡ take n xs
take-append zero xs ys h = refl
take-append (suc n) [] ys h = absurd (omega arith)
take-append (suc n) (x ∷ xs) ys h = ap (λ t. x ∷ t) (take-append n xs ys (omega arith))

nil_of_length : (xs : List ℕ) → length xs ≡ 0 → xs ≡ []
nil_of_length [] h = refl
nil_of_length (x ∷ xs) h = absurd (omega arith)

pub some_injective : (i j : ℕ) → some i ≡ some j → i ≡ j
some_injective i j h = cc

-- A message: a head that ends with the first end mark, and a body of the length that it states.
module _ (lib : StrLib) (head body : List ℕ) (p : ℕ)
    (found : position end_mark (head ++ body) ≡ some p) (ends : p + 4 ≡ length head)
    (stated : content_length lib (lib.from_utf8_lossy head) ≡ length body)
    (short : length head + length body < usize_limit) where
  all_there :
      (buf rest : List ℕ)
      → buf ++ rest ≡ head ++ body
      → (i : ℕ) → position end_mark buf ≡ some i
      → is_complete lib buf ≡ true
      → rest ≡ []
  unfolding is_complete find_header_end
  all_there buf rest e i q complete =
      let same : i ≡ p =
        some_injective i p
          (sym (position-append end_mark buf rest i q) ∙ ap (position end_mark) e ∙ found) in
      let within = position-le end_mark buf i q in
      let heads : take (i + 4) buf ≡ head =
        sym (take-append (i + 4) buf rest within)
        ∙ ap (take (i + 4)) e
        ∙ ap (λ n. take n (head ++ body)) (omega arith)
        ∙ take-length-append head body in
      let done' : leb (u64 ((i + 4) + length body)) (length buf) ≡ true =
        rw (heads, stated) at (sym (ap (λ o. has_body lib buf (behind o)) q) ∙ complete) in
      let sizes : length buf + length rest ≡ length head + length body =
        sym (length-append buf rest) ∙ ap length e ∙ length-append head body in
      nil_of_length rest (ground (arith, done', sizes))

  complete-nil :
      (buf rest : List ℕ) → buf ++ rest ≡ head ++ body → is_complete lib buf ≡ true → rest ≡ []
  unfolding is_complete find_header_end
  complete-nil buf rest e complete = elim (Option-cases (position end_mark buf)) [
    | inl n ↦
        let never : false ≡ true = sym (ap (λ o. has_body lib buf (behind o)) n) ∙ complete in cc
    | inr (i, q) ↦ all_there buf rest e i q complete
  ]

  -- However the message is cut, the loop returns it whole.
  pub read_http_response-arrived :
      (reads : List Read) (buf : List ℕ)
      → All HasBytes reads
      → buf ++ arrived reads ≡ head ++ body
      → read_http_response lib buf reads ≡ some (head ++ body)
  unfolding read_http_response
  read_http_response-arrived [] buf h e = ap some (sym (append-nil buf) ∙ e)
  read_http_response-arrived (failed ∷ reads) buf h e = absurd h.0
  read_http_response-arrived (chunk [] ∷ reads) buf h e = absurd h.0
  read_http_response-arrived (chunk (b ∷ bytes) ∷ reads) buf h e =
      let e' : (buf ++ (b ∷ bytes)) ++ arrived reads ≡ head ++ body =
        append_assoc buf (b ∷ bytes) (arrived reads) ∙ e in
      elim (Bool-cases (is_complete lib (buf ++ (b ∷ bytes)))) [
        | inl c ↦
            let last = complete-nil (buf ++ (b ∷ bytes)) (arrived reads) e' c in
            rw c (
              ap some (
                sym (append-nil (buf ++ (b ∷ bytes)))
                ∙ ap (λ t. (buf ++ (b ∷ bytes)) ++ t) (sym last)
                ∙ e'))
        | inr c ↦ rw c (read_http_response-arrived reads (buf ++ (b ∷ bytes)) h.1 e')
      ]
