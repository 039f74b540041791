-- ===== src/Exec/LineBuffer/Chunks.antt =====
-- The lines of a stream that is cut into chunks between two characters.
use coherence_operator.Prelude.{
  ℕ, zero, suc, ◌<◌, ◌≡◌, refl, sym, ap, ◌∙◌, List, [], ◌∷◌, ◌++◌, append_assoc, none, some, Text,
  length, Option-cases, inl, inr, arith,
}
use coherence_operator.Exec.LineBuffer.{Bytes, cut, lines_from, process_line_buffer}
use coherence_operator.Exec.LineBuffer.Cut.{cut-length, cut-spells, cut-append}

-- The lines of a whole text, and what is left behind the last.
lines : Text → Text → List Text × Text
lines eol s = lines_from (suc (length s)) eol s

lines_from-none : (fuel : ℕ) (eol s : Text) → cut eol s ≡ none → lines_from fuel eol s ≡ ([], s)
unfolding lines_from
lines_from-none zero eol s h = refl
lines_from-none (suc fuel) eol s h = rw (h, lines_from)

lines_from-some :
    (fuel : ℕ) (eol s line rest : Text)
    → cut eol s ≡ some (line, rest)
    → lines_from (suc fuel) eol s
      ≡ (line ∷ (lines_from fuel eol rest).0, (lines_from fuel eol rest).1)
unfolding lines_from
lines_from-some fuel eol s line rest h = rw (h, lines_from)

module _ (d : ℕ) (eol : Text) where
  -- Fuel beyond the length of the text changes nothing.
  lines_from_enough :
      (f g : ℕ) (s : Text)
      → length s < f
      → length s < g
      → lines_from f (d ∷ eol) s ≡ lines_from g (d ∷ eol) s
  lines_from_enough zero g s h k = absurd (omega arith)
  lines_from_enough (suc f) zero s h k = absurd (omega arith)
  lines_from_enough (suc f) (suc g) s h k = elim (Option-cases (cut (d ∷ eol) s)) [
    | inl e ↦ lines_from-none (suc f) (d ∷ eol) s e ∙ sym (lines_from-none (suc g) (d ∷ eol) s e)
    | inr ((line, rest), e) ↦
        let less = (cut-length d eol s e).0 in
        lines_from-some f (d ∷ eol) s line rest e
        ∙ ap (λ (r : List Text × Text). (line ∷ r.0, r.1))
            (lines_from_enough f g rest (omega arith) (omega arith))
        ∙ sym (lines_from-some g (d ∷ eol) s line rest e)
  ]

  lines-none : (s : Text) → cut (d ∷ eol) s ≡ none → lines (d ∷ eol) s ≡ ([], s)
  unfolding lines
  lines-none s h = lines_from-none (suc (length s)) (d ∷ eol) s h

  lines-some :
      (s line rest : Text)
      → cut (d ∷ eol) s ≡ some (line, rest)
      → lines (d ∷ eol) s ≡ (line ∷ (lines (d ∷ eol) rest).0, (lines (d ∷ eol) rest).1)
  unfolding lines
  lines-some s line rest h =
      let less = (cut-length d eol s h).0 in
      lines_from-some (length s) (d ∷ eol) s line rest h
      ∙ ap (λ (r : List Text × Text). (line ∷ r.0, r.1))
          (lines_from_enough (length s) (suc (length rest)) rest less (omega arith))

  lines-append :
      (n : ℕ) (s t : Text)
      → length s < n
      → lines (d ∷ eol) (s ++ t) ≡ (
        (lines (d ∷ eol) s).0 ++ (lines (d ∷ eol) ((lines (d ∷ eol) s).1 ++ t)).0,
        (lines (d ∷ eol) ((lines (d ∷ eol) s).1 ++ t)).1,
      )
  lines-append zero s t h = absurd (omega arith)
  lines-append (suc n) s t h = elim (Option-cases (cut (d ∷ eol) s)) [
    | inl e ↦ rw (lines-none s e)
    | inr ((line, rest), e) ↦
        let less = (cut-length d eol s e).0 in
        lines-some (s ++ t) line (rest ++ t) (cut-append d eol s t e)
        ∙ rw (lines-some s line rest e)
            (ap (λ (r : List Text × Text). (line ∷ r.0, r.1)) (lines-append n rest t (omega arith)))
  ]

  -- Lines with the ends put back.
  abbrev pub spell : List Text → Text → Text
  spell [] r = r
  spell (line ∷ ls) r = line ++ (d ∷ eol) ++ spell ls r

  lines-spell :
      (n : ℕ) (s : Text)
      → length s < n
      → (spell (lines (d ∷ eol) s).0 (lines (d ∷ eol) s).1 ≡ s)
        × (cut (d ∷ eol) (lines (d ∷ eol) s).1 ≡ none)
  lines-spell zero s h = absurd (omega arith)
  lines-spell (suc n) s h = elim (Option-cases (cut (d ∷ eol) s)) [
    | inl e ↦ rw (lines-none s e) (refl, e)
    | inr ((line, rest), e) ↦
        let less = (cut-length d eol s e).0 in
        let (spelt, last) = lines-spell n rest (omega arith) in
        rw (lines-some s line rest e)
          (ap (λ x. line ++ (d ∷ eol) ++ x) spelt ∙ sym (cut-spells d eol s e), last)
  ]

  module _ (to_text : Bytes → Text) where
    -- Where the bytes of two chunks decode to what they decode to as one chunk, as they do unless a
    -- character is cut, the two chunks give the same lines and the same buffer as the one chunk that
    -- they make up: an end of line that is split over the chunks is found too.
    pub process_line_buffer-append :
        (a b : Bytes) (buffer : Text)
        → to_text (a ++ b) ≡ to_text a ++ to_text b
        → process_line_buffer to_text (d ∷ eol) (a ++ b) buffer ≡ (
          (process_line_buffer to_text (d ∷ eol) a buffer).0
              ++ (process_line_buffer to_text
                  (d ∷ eol)
                  b
                  (process_line_buffer to_text (d ∷ eol) a buffer).1).0,
          (process_line_buffer to_text
              (d ∷ eol)
              b
              (process_line_buffer to_text (d ∷ eol) a buffer).1).1,
        )
    process_line_buffer-append a b buffer whole =
        unfold process_line_buffer lines in
        ap (λ t. lines (d ∷ eol) (buffer ++ t)) whole
        ∙ ap (lines (d ∷ eol)) (sym (append_assoc buffer (to_text a) (to_text b)))
        ∙ lines-append (suc (length (buffer ++ to_text a))) (buffer ++ to_text a) (to_text b)
            (omega arith)

    -- The lines with their ends and the new buffer spell the old buffer with the chunk, and the new
    -- buffer holds no end of line.
    pub process_line_buffer-spell :
        (chunk : Bytes) (buffer : Text)
        → (spell
              (process_line_buffer to_text (d ∷ eol) chunk buffer).0
              (process_line_buffer to_text (d ∷ eol) chunk buffer).1
            ≡ buffer ++ to_text chunk)
          × (cut (d ∷ eol) (process_line_buffer to_text (d ∷ eol) chunk buffer).1 ≡ none)
    process_line_buffer-spell chunk buffer =
        unfold process_line_buffer lines in
        lines-spell (suc (length (buffer ++ to_text chunk))) (buffer ++ to_text chunk) (omega arith)
