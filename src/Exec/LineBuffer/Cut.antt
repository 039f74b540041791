-- ===== src/Exec/LineBuffer/Cut.antt =====
-- The first end of line of a text.
use coherence_operator.Prelude.{
  ℕ, zero, suc, ◌≤◌, ◌<◌, ◌≡◌, ◌≢◌, refl, ap, ◌∙◌, [], ◌∷◌, ◌++◌, Option, none, some, true, false,
  Text, starts_with, drop, length, Bool-cases, inl, inr, ◌⊎◌, arith,
}
use coherence_operator.Exec.LineBuffer.{cut, cons_before}

starts_with-length : (s e : Text) → starts_with s e ≡ true → length e ≤ length s
unfolding starts_with
starts_with-length s [] h = omega arith
starts_with-length [] (d ∷ e) h = cc
starts_with-length (c ∷ s) (d ∷ e) h = ground (arith, starts_with-length s e)

-- Text behind does not matter where there is enough in front.
starts_with-append : (s t e : Text) → length e ≤ length s → starts_with (s ++ t) e ≡ starts_with s e
unfolding starts_with
starts_with-append [] t [] h = ground arith
starts_with-append (c ∷ s) t [] h = refl
starts_with-append [] t (d ∷ e) h = absurd (omega arith)
starts_with-append (c ∷ s) t (d ∷ e) h = ground (arith, starts_with-append s t e)

drop-append : (n : ℕ) (s t : Text) → n ≤ length s → drop n (s ++ t) ≡ drop n s ++ t
drop-append zero s t h = refl
drop-append (suc n) [] t h = absurd (omega arith)
drop-append (suc n) (c ∷ s) t h = drop-append n s t (omega arith)

starts_with-spells : (s e : Text) → starts_with s e ≡ true → s ≡ e ++ drop (length e) s
unfolding starts_with
starts_with-spells s [] h = refl
starts_with-spells [] (d ∷ e) h = cc
starts_with-spells (c ∷ s) (d ∷ e) h = ground (arith, starts_with-spells s e)

length-drop_lt : (n : ℕ) (s : Text) → s ≢ [] → length (drop (suc n) s) < length s
length-drop_lt n [] h = absurd (h refl)
length-drop_lt zero (c ∷ s) h = omega arith
length-drop_lt (suc n) (c ∷ []) h = omega arith
length-drop_lt (suc n) (c ∷ d ∷ s) h = omega (arith, length-drop_lt n (d ∷ s) (λ e. cc))

cons_before-some :
    (c : ℕ) (o : Option (Text × Text)) {line rest : Text}
    → cons_before c o ≡ some (line, rest)
    → (shorter : Text) × (o ≡ some (shorter, rest)) × (line ≡ c ∷ shorter)
cons_before-some c none h = cc
cons_before-some c (some (shorter, rest)) h = (shorter, ground arith, ground arith)

module _ (d : ℕ) (eol : Text) where
  -- Where the first end of line may be.
  cut_cases :
      (c : ℕ) (s : Text) {line rest : Text}
      → cut (d ∷ eol) (c ∷ s) ≡ some (line, rest)
      → ((starts_with (c ∷ s) (d ∷ eol) ≡ true)
          × (line ≡ [])
          × (rest ≡ drop (length (d ∷ eol)) (c ∷ s)))
        ⊎ ((starts_with (c ∷ s) (d ∷ eol) ≡ false)
            × ((shorter : Text) × (cut (d ∷ eol) s ≡ some (shorter, rest)) × (line ≡ c ∷ shorter)))
  unfolding cut
  cut_cases c s h = elim (Bool-cases (starts_with (c ∷ s) (d ∷ eol))) [
    | inl here ↦ inl (here, ground (arith, here, h), ground (arith, here, h))
    | inr later ↦ inr (later, cons_before-some c (cut (d ∷ eol) s) (ground (arith, later, h)))
  ]

  cut-nil : {line rest : Text} → cut (d ∷ eol) [] ≢ some (line, rest)
  unfolding cut starts_with
  cut-nil h = cc

  -- A line and its end leave a shorter text, and there was room for the end.
  pub cut-length :
      (s : Text) {line rest : Text}
      → cut (d ∷ eol) s ≡ some (line, rest)
      → (length rest < length s) × (length (d ∷ eol) ≤ length s)
  cut-length [] h = absurd (cut-nil h)
  cut-length (c ∷ s) {line} {rest} h = elim (cut_cases c s h) [
    | inl (here, l, r) ↦ (
      rw r (length-drop_lt (length eol) (c ∷ s) (λ e. cc)),
      starts_with-length (c ∷ s) (d ∷ eol) here,
    )
    | inr (later, (shorter, found, l)) ↦
        let (less, room) = cut-length s found in (omega arith, omega arith)
  ]

  -- The text is the line, the end of line, and the rest.
  pub cut-spells :
      (s : Text) {line rest : Text}
      → cut (d ∷ eol) s ≡ some (line, rest)
      → s ≡ line ++ (d ∷ eol) ++ rest
  cut-spells [] h = absurd (cut-nil h)
  cut-spells (c ∷ s) {line} {rest} h = elim (cut_cases c s h) [
    | inl (here, l, r) ↦ rw (l, r) (starts_with-spells (c ∷ s) (d ∷ eol) here)
    | inr (later, (shorter, found, l)) ↦ rw l (ap (λ t. c ∷ t) (cut-spells s found))
  ]

  cut_here :
      (c : ℕ) (s : Text)
      → starts_with (c ∷ s) (d ∷ eol) ≡ true
      → cut (d ∷ eol) (c ∷ s) ≡ some ([], drop (length (d ∷ eol)) (c ∷ s))
  unfolding cut
  cut_here c s h = rw h

  cut_later :
      (c : ℕ) (s : Text)
      → starts_with (c ∷ s) (d ∷ eol) ≡ false
      → cut (d ∷ eol) (c ∷ s) ≡ cons_before c (cut (d ∷ eol) s)
  unfolding cut
  cut_later c s h = rw h

  -- A line that is complete stays the first line when more text arrives.
  pub cut-append :
      (s t : Text) {line rest : Text}
      → cut (d ∷ eol) s ≡ some (line, rest)
      → cut (d ∷ eol) (s ++ t) ≡ some (line, rest ++ t)
  cut-append [] t h = absurd (cut-nil h)
  cut-append (c ∷ s) t {line} {rest} h =
      let room = (cut-length (c ∷ s) h).1 in
      let same = starts_with-append (c ∷ s) t (d ∷ eol) room in
      elim (cut_cases c s h) [
        | inl (here, l, r) ↦
            cut_here c (s ++ t) (same ∙ here)
            ∙ rw (l, r) (ap (λ x. some ([], x)) (drop-append (length (d ∷ eol)) (c ∷ s) t room))
        | inr (later, (shorter, found, l)) ↦
            cut_later c (s ++ t) (same ∙ later) ∙ rw l (ap (cons_before c) (cut-append s t found))
      ]
