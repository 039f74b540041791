-- ===== src/Exec/Quote/Argument.antt =====
-- An argument put on a Windows command line by `_uvQuoteCmdArg` is read back as it was.
use coherence_operator.Prelude.{
  ℕ, ◌≡◌, ◌≢◌, refl, ap, ◌∙◌, [], ◌∷◌, ◌++◌, append_assoc, some, false, not, ◌&&◌, Text, includes,
  arith, Bool-cases, inl, inr, ◌⊎◌, Lacks,
}
use coherence_operator.Exec.ArgString.{quote, backslash}
use coherence_operator.Exec.Quote.{quoted, uv_quote_cmd_arg}
use coherence_operator.Exec.Quote.Reading.{
  unquote, read_word, read_arg, unquote_plain, unquote_close, with_prefix,
}
use coherence_operator.Exec.Quote.RoundTrip.{unquote-quoted, quoted_opens}

includes-Lacks : (s : Text) (d : ℕ) → includes s d ≡ false → Lacks d s
unfolding includes
includes-Lacks [] d h = tt
includes-Lacks (c ∷ s) d h = (ground arith, includes-Lacks s d (ground arith))

read_word_plain :
    (w rest : Text) → Lacks b' ' w → Lacks 9 w → read_word (w ++ b' ' ∷ rest) ≡ (w, b' ' ∷ rest)
unfolding read_word
read_word_plain [] rest h k = refl
read_word_plain (c ∷ w) rest (h, hs) (k, ks) = ground (arith, read_word_plain w rest hs ks)

unquote_clean :
    (w rest : Text)
    → Lacks quote w
    → Lacks backslash w
    → unquote 0 (w ++ quote ∷ rest) ≡ some (w, rest)
unquote_clean [] rest h k = unquote_close 0 rest
unquote_clean (c ∷ w) rest (h, hs) (k, ks) =
    unquote_plain 0 c (w ++ quote ∷ rest) k h
    ∙ ap (with_prefix (c ∷ [])) (unquote_clean w rest hs ks)

read_arg-quote : (t : Text) → read_arg (quote ∷ t) ≡ unquote 0 t
unfolding read_arg
read_arg-quote t = refl

read_arg_word : (c : ℕ) (t : Text) → c ≢ quote → read_arg (c ∷ t) ≡ some (read_word (c ∷ t))
unfolding read_arg
read_arg_word c t h = ground arith

read_arg-quoted : (s rest : Text) → read_arg (quoted backslash s ++ rest) ≡ some (s, rest)
read_arg-quoted s rest =
    let (t, e) = quoted_opens s in
    rw e (read_arg-quote (t ++ rest) ∙ unquote-quoted s rest (t ++ rest) (ap (λ x. x ++ rest) e))

-- The ways in which an argument that is not empty is put.
abbrev IsPut : Text → Text → Type 0
IsPut a put =
    Lacks b' ' a × Lacks 9 a × Lacks quote a × (put ≡ a)
    ⊎ Lacks quote a × Lacks backslash a × (put ≡ quote ∷ (a ++ quote ∷ []))
    ⊎ (put ≡ quoted backslash a)

uv_quote_cmd_arg-IsPut : (c : ℕ) (s : Text) → IsPut (c ∷ s) (uv_quote_cmd_arg (c ∷ s))
unfolding uv_quote_cmd_arg
uv_quote_cmd_arg-IsPut c s =
    let a : Text = c ∷ s in
    elim (Bool-cases (not (includes a b' ') && not (includes a 9) && not (includes a quote))) [
      | inl bare ↦ inl (
        includes-Lacks a b' ' (ground arith),
        includes-Lacks a 9 (ground arith),
        includes-Lacks a quote (ground arith),
        rw bare,
      )
      | inr odd ↦ elim (Bool-cases (not (includes a quote) && not (includes a backslash))) [
        | inl clean ↦ inr (
            inl (
              includes-Lacks a quote (ground arith),
              includes-Lacks a backslash (ground arith),
              rw (odd, clean),
            ))
        | inr dirty ↦ inr (inr (rw (odd, dirty)))
      ]
    ]

read_arg-nil : (rest : Text) → read_arg (quote ∷ quote ∷ rest) ≡ some ([], rest)
read_arg-nil rest = read_arg-quote (quote ∷ rest) ∙ unquote_close 0 rest

read_arg-IsPut :
    (c : ℕ) (s put rest : Text)
    → IsPut (c ∷ s) put
    → read_arg (put ++ b' ' ∷ rest) ≡ some (c ∷ s, b' ' ∷ rest)
read_arg-IsPut c s put rest (inl (blank, tab, bare, e)) =
    rw e
      (read_arg_word c (s ++ b' ' ∷ rest) bare.0 ∙ ap some (read_word_plain (c ∷ s) rest blank tab))
read_arg-IsPut c s put rest (inr (inl (h, k, e))) = rw e (
    read_arg-quote _
    ∙ ap (unquote 0) (append_assoc (c ∷ s) (quote ∷ []) (b' ' ∷ rest))
    ∙ unquote_clean (c ∷ s) (b' ' ∷ rest) h k)
read_arg-IsPut c s put rest (inr (inr e)) = rw e (read_arg-quoted (c ∷ s) (b' ' ∷ rest))

-- The argument that a program reads from its command line is the one that was quoted, whatever
-- blanks, tabs, quotes and backslashes it holds, and the reading stops at the blank behind it.
pub read_arg-uv_quote_cmd_arg :
    (arg rest : Text) → read_arg (uv_quote_cmd_arg arg ++ b' ' ∷ rest) ≡ some (arg, b' ' ∷ rest)
read_arg-uv_quote_cmd_arg [] rest = unfold uv_quote_cmd_arg in read_arg-nil (b' ' ∷ rest)
read_arg-uv_quote_cmd_arg (c ∷ s) rest =
    read_arg-IsPut c s (uv_quote_cmd_arg (c ∷ s)) rest (uv_quote_cmd_arg-IsPut c s)
