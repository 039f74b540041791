-- ===== src/Exec/Quote/Reading.antt =====
-- How a Windows program reads its command line (the documented rules of CommandLineToArgvW), as the
-- description that the quoting is measured against.
use coherence_operator.Prelude.{
  ℕ, zero, suc, ◌*◌, ◌/◌, ◌%◌, ◌≡◌, ◌≢◌, refl, [], ◌∷◌, ◌++◌, Option, none, some, true, false, Text,
  ◌==◌, ◌||◌, if◌then◌else◌, arith, ap,
}
use coherence_operator.Exec.ArgString.{quote, backslash}

abbrev pub backslashes : ℕ → Text
backslashes zero = []
backslashes (suc k) = backslash ∷ backslashes k

abbrev pub with_prefix : Text → Option (Text × Text) → Option (Text × Text)
with_prefix p none = none
with_prefix p (some (s, rest)) = some (p ++ s, rest)

-- Inside quotes, behind `k` backslashes: before a quote two backslashes stand for one, and an odd
-- one hides the quote; elsewhere backslashes stand for themselves. The result is the text up to the closing
-- quote and what follows it.
unfoldable pub unquote : ℕ → Text → Option (Text × Text)
unquote k [] = none
unquote k (c ∷ s) = elim (c == backslash) [
  | true ↦ unquote (suc k) s
  | false ↦ elim (c == quote) [
    | false ↦ with_prefix (backslashes k ++ c ∷ []) (unquote 0 s)
    | true ↦ elim (k % 2 == 0) [
      | true ↦ some (backslashes (k / 2), s)
      | false ↦ with_prefix (backslashes (k / 2) ++ quote ∷ []) (unquote 0 s)
    ]
  ]
]

-- Outside quotes an argument ends at a blank or a tab.
unfoldable pub read_word : Text → Text × Text
read_word [] = ([], [])
read_word (c ∷ s) =
    let (word, rest) = read_word s in if c == b' ' || c == 9 then ([], c ∷ s) else (c ∷ word, rest)

unfoldable pub read_arg : Text → Option (Text × Text)
unfolding unquote read_word
read_arg [] = none
read_arg (c ∷ s) = if c == quote then unquote 0 s else some (read_word (c ∷ s))

pub unquote-backslash : (k : ℕ) (s : Text) → unquote k (backslash ∷ s) ≡ unquote (suc k) s
unfolding unquote
unquote-backslash k s = refl

pub unquote_close : (k : ℕ) (s : Text) → unquote (2 * k) (quote ∷ s) ≡ some (backslashes k, s)
unfolding unquote
unquote_close k s =
    let even : 2 * k % 2 ≡ 0 = omega arith in
    let half : 2 * k / 2 ≡ k = omega arith in rw (even, half, unquote)

pub unquote_hidden :
    (k : ℕ) (s : Text)
    → unquote (suc (2 * k)) (quote ∷ s) ≡ with_prefix (backslashes k ++ quote ∷ []) (unquote 0 s)
unfolding unquote
unquote_hidden k s =
    let odd : suc (2 * k) % 2 ≡ 1 = omega arith in
    let half : suc (2 * k) / 2 ≡ k = omega arith in rw (odd, half, unquote)

pub unquote_plain :
    (k c : ℕ) (s : Text)
    → c ≢ backslash
    → c ≢ quote
    → unquote k (c ∷ s) ≡ with_prefix (backslashes k ++ c ∷ []) (unquote 0 s)
unfolding unquote
unquote_plain k c s h h' = ground arith

pub backslashes-suc : (k : ℕ) (s : Text) → backslashes (suc k) ++ s ≡ backslashes k ++ backslash ∷ s
backslashes-suc zero s = refl
backslashes-suc (suc k) s = ap (λ t. backslash ∷ t) (backslashes-suc k s)
