-- ===== src/Exec/ArgString/Join.antt =====
-- Plain words come back from the command line that they are joined to.
use coherence_operator.Prelude.{
  ℕ, List, [], ◌∷◌, ◌++◌, false, Text, trim, trim_start, is_space, reverse, reverse-reverse, ◌≡◌,
  ◌≢◌, refl, sym, ap, ◌∙◌, append_assoc, append-nil, All, All-reverse_aux, arith,
}
use coherence_operator.Exec.ArgString.{quote, Scan, step, scan, finish, arg_string_to_array}

-- Words joined by single spaces.
pub join_words : List Text → Text
join_words [] = []
join_words (w ∷ []) = w
join_words (w ∷ v ∷ ws) = w ++ b' ' ∷ join_words (v ∷ ws)

abbrev pub IsPlain : Text → Type 0
IsPlain = All (λ c. (c ≢ quote) × (is_space c ≡ false))

abbrev pub IsWord : Text → Type 0
IsWord w = (w ≢ []) × IsPlain w

abbrev outside : Text → List Text → Scan
outside arg args = record { in_quotes = false; escaped = false; arg = arg; args = args }

is_space-ne_blank : (c : ℕ) → is_space c ≡ false → c ≢ b' '
unfolding is_space
is_space-ne_blank c k = ground arith

step_plain :
    (c : ℕ) (arg : Text) (args : List Text)
    → c ≢ quote
    → is_space c ≡ false
    → step c (outside arg args) ≡ outside (arg ++ c ∷ []) args
unfolding step
step_plain c arg args h k = let blank = is_space-ne_blank c k in ground (arith, blank)

scan_plain :
    (w arg r : Text) (args : List Text)
    → IsPlain w
    → scan (w ++ r) (outside arg args) ≡ scan r (outside (arg ++ w) args)
unfolding scan
scan_plain [] arg r args h = rw append-nil
scan_plain (c ∷ w) arg r args ((h, k), hs) =
    ap (scan (w ++ r)) (step_plain c arg args h k)
    ∙ scan_plain w (arg ++ c ∷ []) r args hs
    ∙ ap (λ t. scan r (outside t args)) (append_assoc arg (c ∷ []) w)

scan_space :
    (w r : Text) (args : List Text)
    → w ≢ []
    → scan (b' ' ∷ r) (outside w args) ≡ scan r (outside [] (args ++ w ∷ []))
unfolding scan step
scan_space [] r args h = absurd (h refl)
scan_space (c ∷ w) r args h = refl

trim_start_plain : (w : Text) → IsPlain w → trim_start w ≡ w
unfolding trim_start
trim_start_plain [] h = refl
trim_start_plain (c ∷ w) ((h, k), hs) = rw (k, trim_start)

trim_plain : (w : Text) → IsPlain w → trim w ≡ w
unfolding trim
trim_plain w h =
    ap (λ t. reverse (trim_start (reverse t))) (trim_start_plain w h)
    ∙ ap reverse (trim_start_plain (reverse w) (All-reverse_aux _ w [] h tt))
    ∙ reverse-reverse w

finish_word : (w : Text) (args : List Text) → IsWord w → finish (outside w args) ≡ args ++ w ∷ []
unfolding finish
finish_word [] args (h, k) = absurd (h refl)
finish_word (c ∷ w) args (h, k) = rw (trim_plain (c ∷ w) k)

scan-join_words :
    (w : Text) (ws args : List Text)
    → IsWord w
    → All IsWord ws
    → finish (scan (join_words (w ∷ ws)) (outside [] args)) ≡ args ++ w ∷ ws
unfolding join_words
scan-join_words w [] args h _ =
    ap (λ t. finish (scan t (outside [] args))) (sym (append-nil w))
    ∙ ap finish (scan_plain w [] [] args h.1)
    ∙ unfold scan in finish_word w args h
scan-join_words w (v ∷ ws) args h (k, ks) =
    ap finish (scan_plain w [] (b' ' ∷ join_words (v ∷ ws)) args h.1 ∙ scan_space w _ args h.0)
    ∙ scan-join_words v ws (args ++ w ∷ []) k ks
    ∙ append_assoc args (w ∷ []) (v ∷ ws)

-- Words without quotes and white space, joined by single spaces, come back as they are.
pub arg_string_to_array-join_words :
    (ws : List Text) → All IsWord ws → arg_string_to_array (join_words ws) ≡ ws
unfolding arg_string_to_array
arg_string_to_array-join_words [] h = unfold join_words in refl
arg_string_to_array-join_words (w ∷ ws) (h, hs) = scan-join_words w ws [] h hs
