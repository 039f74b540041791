-- ===== src/Exec/Quote/RoundTrip.antt =====
-- A quoted argument is read back as it was.
use mathlib.Core.List.{reverse-append, reverse-cons}
use coherence_operator.Prelude.{
  ℕ, suc, ◌*◌, ◌≡◌, ◌≢◌, refl, sym, ap, ap₂, ◌∙◌, [], ◌∷◌, ◌++◌, append_assoc, append-nil, some,
  Bool, true, false, Text, reverse, reverse-reverse, arith, drop,
}
use native.Mathlib.Decide.{ℕ_discrete}
use coherence_operator.Exec.ArgString.{quote, backslash}
use coherence_operator.Exec.Quote.{marks, next_hit, quote_loop, quoted}
use coherence_operator.Exec.Quote.Reading.{
  backslashes, with_prefix, unquote, unquote-backslash, unquote_close, unquote_hidden,
  unquote_plain, backslashes-suc,
}

-- The loops, read from the first character to the last: `quoteHit` before a text, and what the text becomes.
hit : Text → Bool
hit [] = true
hit (c ∷ s) = next_hit (hit s) c

body : ℕ → Text → Text
body mark [] = []
body mark (c ∷ s) = marks mark (hit s) c ++ c ∷ body mark s

marks_short : (mark : ℕ) (h : Bool) (c : ℕ) → reverse (marks mark h c) ≡ marks mark h c
unfolding marks
marks_short mark h c = ground arith

marks-quote : (h : Bool) → marks backslash h quote ≡ backslash ∷ []
unfolding marks
marks-quote true = refl
marks-quote false = refl

marks_plain : (h : Bool) (c : ℕ) → c ≢ backslash → c ≢ quote → marks backslash h c ≡ []
unfolding marks
marks_plain h c ne ne' = ground arith

next_hit-quote : (h : Bool) → next_hit h quote ≡ true
unfolding next_hit
next_hit-quote true = refl
next_hit-quote false = refl

next_hit_plain : (h : Bool) (c : ℕ) → c ≢ backslash → c ≢ quote → next_hit h c ≡ false
unfolding next_hit
next_hit_plain h c ne ne' = ground arith

reversed_body :
    (mark : ℕ) (s : Text) (c : ℕ)
    → reverse (body mark s ++ quote ∷ []) ++ c ∷ marks mark (hit s) c
      ≡ reverse (body mark (c ∷ s) ++ quote ∷ [])
unfolding body
reversed_body mark s c =
    let m = marks mark (hit s) c in
    let t = body mark s ++ quote ∷ [] in
    sym (
      ap reverse (append_assoc m (c ∷ body mark s) (quote ∷ []))
      ∙ reverse-append m (c ∷ t)
      ∙ ap₂ (λ a b. a ++ b) (reverse-cons c t) (marks_short mark (hit s) c)
      ∙ append_assoc (reverse t) (c ∷ []) m)

quote_loop-cons :
    (mark c : ℕ) (ys text : Text) (h : Bool)
    → quote_loop mark (c ∷ ys) text h
      ≡ quote_loop mark ys (text ++ c ∷ marks mark h c) (next_hit h c)
unfolding quote_loop
quote_loop-cons mark c ys text h = refl

quote_loop-body :
    (mark : ℕ) (s ys : Text)
    → quote_loop mark (reverse s ++ ys) (quote ∷ []) true
      ≡ quote_loop mark ys (reverse (body mark s ++ quote ∷ [])) (hit s)
unfolding hit
quote_loop-body mark [] ys = unfold body in refl
quote_loop-body mark (c ∷ s) ys =
    ap (λ t. quote_loop mark t (quote ∷ []) true)
      (ap (λ t. t ++ ys) (reverse-cons c s) ∙ append_assoc (reverse s) (c ∷ []) ys)
    ∙ quote_loop-body mark s (c ∷ ys)
    ∙ quote_loop-cons mark c ys _ (hit s)
    ∙ ap (λ t. quote_loop mark ys t (next_hit (hit s) c)) (reversed_body mark s c)

quote_loop-nil : (mark : ℕ) (text : Text) (h : Bool) → quote_loop mark [] text h ≡ text
unfolding quote_loop
quote_loop-nil mark text h = refl

quoted-body : (mark : ℕ) (s : Text) → quoted mark s ≡ quote ∷ (body mark s ++ quote ∷ [])
unfolding quoted
quoted-body mark s =
    let t = body mark s ++ quote ∷ [] in
    let looped : quote_loop mark (reverse s) (quote ∷ []) true ≡ reverse t =
      ap (λ x. quote_loop mark x (quote ∷ []) true) (sym (append-nil (reverse s)))
      ∙ quote_loop-body mark s []
      ∙ quote_loop-nil mark (reverse t) (hit s) in
    ap (λ x. reverse (x ++ quote ∷ [])) looped
    ∙ reverse-append (reverse t) (quote ∷ [])
    ∙ ap (λ x. quote ∷ x) (reverse-reverse t)

-- What is read behind backslashes: where `quoteHit` holds they were written twice.
abbrev Read : Text → Text → Bool → Type 0
Read rest s true =
    (k : ℕ) → unquote (2 * k) (body backslash s ++ quote ∷ rest) ≡ some (backslashes k ++ s, rest)
Read rest s false =
    (k : ℕ) → unquote k (body backslash s ++ quote ∷ rest) ≡ some (backslashes k ++ s, rest)

-- With no backslash in front the two cases agree.
Read-bare :
    (rest s : Text) (h : Bool)
    → Read rest s h
    → unquote 0 (body backslash s ++ quote ∷ rest) ≡ some (s, rest)
Read-bare rest s true r = r 0
Read-bare rest s false r = r 0

module _ (rest s : Text) where
  doubled_backslash : hit s ≡ true → Read rest s true → Read rest (backslash ∷ s) true
  unfolding body marks
  doubled_backslash e r k =
      let tail = body backslash s ++ quote ∷ rest in
      rw e (
        unquote-backslash (2 * k) (backslash ∷ tail)
        ∙ unquote-backslash (suc (2 * k)) tail
        ∙ ap (λ n. unquote n tail) (omega arith)
        ∙ r (suc k)
        ∙ ap (λ t. some (t, rest)) (backslashes-suc k s))

  single_backslash : hit s ≡ false → Read rest s false → Read rest (backslash ∷ s) false
  unfolding body marks
  single_backslash e r k =
      let tail = body backslash s ++ quote ∷ rest in
      rw e (unquote-backslash k tail ∙ r (suc k) ∙ ap (λ t. some (t, rest)) (backslashes-suc k s))

  hidden_quote : (h : Bool) → Read rest s h → Read rest (quote ∷ s) true
  unfolding body
  hidden_quote h r k =
      let tail = body backslash s ++ quote ∷ rest in
      rw (marks-quote (hit s)) (
        unquote-backslash (2 * k) (quote ∷ tail)
        ∙ unquote_hidden k tail
        ∙ ap (with_prefix (backslashes k ++ quote ∷ [])) (Read-bare rest s h r)
        ∙ ap (λ t. some (t, rest)) (append_assoc (backslashes k) (quote ∷ []) s))

  plain_char :
      (c : ℕ) (h : Bool) → c ≢ backslash → c ≢ quote → Read rest s h → Read rest (c ∷ s) false
  unfolding body
  plain_char c h ne ne' r k =
      let tail = body backslash s ++ quote ∷ rest in
      rw (marks_plain (hit s) c ne ne') (
        unquote_plain k c tail ne ne'
        ∙ ap (with_prefix (backslashes k ++ c ∷ [])) (Read-bare rest s h r)
        ∙ ap (λ t. some (t, rest)) (append_assoc (backslashes k) (c ∷ []) s))

Read-cons :
    (rest : Text) (c : ℕ) (s : Text) (h : Bool)
    → hit s ≡ h
    → Read rest s h
    → Read rest (c ∷ s) (next_hit h c)
Read-cons rest c s h e r = elim (ℕ_discrete c backslash) [
  | yes at ↦ rw at (after_backslash h e r)
  | no other ↦ elim (ℕ_discrete c quote) [
    | yes at ↦ rw (at, next_hit-quote h) (hidden_quote rest s h r)
    | no ne ↦ rw (next_hit_plain h c other ne) (plain_char rest s c h other ne r)
  ]
]
  where
    after_backslash :
        (b : Bool) → hit s ≡ b → Read rest s b → Read rest (backslash ∷ s) (next_hit b backslash)
    after_backslash true p q = unfold next_hit in doubled_backslash rest s p q
    after_backslash false p q = unfold next_hit in single_backslash rest s p q

unquote_closed :
    (k : ℕ) (rest : Text) → unquote (2 * k) (quote ∷ rest) ≡ some (backslashes k ++ [], rest)
unquote_closed k rest =
    unquote_close k rest ∙ ap (λ t. some (t, rest)) (sym (append-nil (backslashes k)))

Read-hit : (rest s : Text) → Read rest s (hit s)
unfolding hit body
Read-hit rest [] =
    λ k. unquote_close k rest ∙ ap (λ t. some (t, rest)) (sym (append-nil (backslashes k)))
Read-hit rest (c ∷ s) = Read-cons rest c s (hit s) refl (Read-hit rest s)

-- The text that the loop makes is read back, whatever characters it holds.
pub unquote-quoted :
    (s rest : Text) (t : Text)
    → quoted backslash s ++ rest ≡ quote ∷ t
    → unquote 0 t ≡ some (s, rest)
unquote-quoted s rest t e =
    let tail : t ≡ body backslash s ++ quote ∷ rest =
      ap (drop 1) (sym e ∙ ap (λ x. x ++ rest) (quoted-body backslash s))
      ∙ append_assoc (body backslash s) (quote ∷ []) rest in
    rw tail (Read-bare rest s (hit s) (Read-hit rest s))

pub quoted_opens : (s : Text) → (t : Text) × (quoted backslash s ≡ quote ∷ t)
quoted_opens s = (body backslash s ++ quote ∷ [], quoted-body backslash s)
