-- ===== src/Server/Reading.antt =====
-- The two loops of `handle_connection` of src/server.rs on a request that arrives in pieces.
use mathlib.Core.List.{append_assoc, append-nil}
use cosmicdrop.Base.{
  ℕ, ◌+◌, ◌≤◌, ltb, true, ◌||◌, List, [], ◌∷◌, ◌++◌, Option, some, ◌≡◌, refl, ap, ◌∙◌, sym, All,
  arith, length, length-append, Bool-cases, Option-cases, inl, inr,
}
use cosmicdrop.Client.{Read, failed, chunk}
use cosmicdrop.Client.Response.{arrived, HasBytes}
use cosmicdrop.Server.{read_head, read_body, is_found}
use cosmicdrop.Text.{position}
use cosmicdrop.Text.Blocks.{end_mark, position-append, position-prefix}

nil_of_full : (xs ys zs : List ℕ) → xs ++ ys ≡ zs → length zs ≤ length xs → xs ≡ zs
nil_of_full xs [] zs e h = sym (append-nil xs) ∙ e
nil_of_full xs (y ∷ ys) zs e h = absurd (omega (arith, ap length e, length-append xs (y ∷ ys)))

module _ (message : List ℕ) (p : ℕ) (found : position end_mark message ≡ some p)
    (capped : p + 4 ≤ 65537) where
  -- What the first loop leaves: the bytes so far, the end of the headers among them.
  pub record Headed (result : Option (List ℕ × List Read)) : Type 0 where
    pub buffer : List ℕ
    pub reads : List Read
    pub read : result ≡ some (buffer, reads)
    pub pieces : All HasBytes reads
    pub split : buffer ++ arrived reads ≡ message
    pub ends : position end_mark buffer ≡ some p

  ends_at :
      (buf rest : List ℕ)
      → buf ++ rest ≡ message
      → (is_found (position end_mark buf) || ltb 65536 (length buf)) ≡ true
      → position end_mark buf ≡ some p
  ends_at buf rest e stop = elim (Option-cases (position end_mark buf)) [
    | inl n ↦
        let long : ltb 65536 (length buf) ≡ true =
          sym (ap (λ o. is_found o || ltb 65536 (length buf)) n) ∙ stop in
        position-prefix end_mark buf rest p (ap (position end_mark) e ∙ found)
          (ground (arith, long)) (λ z. omega arith)
    | inr (i, q) ↦
        q ∙ sym (position-append end_mark buf rest i q) ∙ ap (position end_mark) e ∙ found
  ]

  pub read_head-Headed :
      (buf : List ℕ) (reads : List Read)
      → All HasBytes reads
      → buf ++ arrived reads ≡ message
      → Headed (read_head buf reads)
  unfolding read_head
  read_head-Headed buf [] h e = record {
    buffer = buf;
    reads = [];
    read = refl;
    pieces = tt;
    split = e;
    ends = ap (position end_mark) (sym (append-nil buf) ∙ e) ∙ found;
  }
  read_head-Headed buf (failed ∷ reads) h e = absurd h.0
  read_head-Headed buf (chunk [] ∷ reads) h e = absurd h.0
  read_head-Headed buf (chunk (b ∷ bs) ∷ reads) h e =
      let e' : (buf ++ (b ∷ bs)) ++ arrived reads ≡ message =
        append_assoc buf (b ∷ bs) (arrived reads) ∙ e in
      elim (Bool-cases
        (is_found (position end_mark (buf ++ (b ∷ bs))) || ltb 65536 (length (buf ++ (b ∷ bs))))) [
          | inl stop ↦ record {
            buffer = buf ++ (b ∷ bs);
            reads = reads;
            read = rw stop refl;
            pieces = h.1;
            split = e';
            ends = ends_at (buf ++ (b ∷ bs)) (arrived reads) e' stop;
          }
          | inr go ↦ rw go (read_head-Headed (buf ++ (b ∷ bs)) reads h.1 e')
        ]

-- The second loop goes on to the last byte of the message.
pub read_body-arrived :
    (message buf : List ℕ) (reads : List Read)
    → All HasBytes reads
    → buf ++ arrived reads ≡ message
    → read_body (length message) buf reads ≡ some message
unfolding read_body
read_body-arrived message buf [] h e = ap some (sym (append-nil buf) ∙ e)
read_body-arrived message buf (failed ∷ reads) h e = absurd h.0
read_body-arrived message buf (chunk [] ∷ reads) h e = absurd h.0
read_body-arrived message buf (chunk (b ∷ bs) ∷ reads) h e =
    elim (Bool-cases (ltb (length buf) (length message))) [
      | inl more ↦ rw more (
          read_body-arrived message (buf ++ (b ∷ bs)) reads h.1
            (append_assoc buf (b ∷ bs) (arrived reads) ∙ e))
      | inr full ↦ rw full (
          ap some
            (nil_of_full buf (arrived (chunk (b ∷ bs) ∷ reads)) message e (ground (arith, full))))
    ]
