-- ===== src/Exec/ArgString/Words.antt =====
-- The words that a quoted path and a list of plain words come back as.
use coherence_operator.Prelude.{
  ℕ, [], ◌∷◌, ◌++◌, true, false, Text, trim, if◌then◌else◌, ◌≡◌, ◌≢◌, refl, ap, ◌∙◌, append_assoc,
  append-nil, Lacks, arith,
}
use coherence_operator.Exec.ArgString.{
  quote, backslash, Scan, start, step, scan, finish, arg_string_to_array,
}

-- What has been read of the current word, with a backslash that still waits.
shown : Scan → Text
shown s = if s.escaped then s.arg ++ backslash ∷ [] else s.arg

-- Inside quotes.
record IsInside (text : Text) (s : Scan) : Type 0 where
  quoted : s.in_quotes ≡ true
  so_far : shown s ≡ text
  first : s.args ≡ []

step-IsInside :
    (c : ℕ) (text : Text) (s : Scan)
    → c ≢ quote
    → IsInside text s
    → IsInside (text ++ c ∷ []) (step c s)
unfolding step shown
step-IsInside c text s h i = ground (arith, append_assoc s.arg (backslash ∷ []) (c ∷ []))

scan-IsInside :
    (p text : Text) (s : Scan) → Lacks quote p → IsInside text s → IsInside (text ++ p) (scan p s)
unfolding scan
scan-IsInside [] text s h i = rw append-nil i
scan-IsInside (c ∷ p) text s (h, hs) i =
    rw (← append_assoc text (c ∷ []) p)
      (scan-IsInside p (text ++ c ∷ []) (step c s) hs (step-IsInside c text s h i))

scan-append : (p r : Text) (s : Scan) → scan (p ++ r) s ≡ scan r (scan p s)
unfolding scan
scan-append [] r s = refl
scan-append (c ∷ p) r s = scan-append p r (step c s)

-- Only a backslash leaves an escape open.
step_closed :
    (c : ℕ) (text : Text) (s : Scan)
    → c ≢ quote
    → c ≢ backslash
    → IsInside text s
    → (step c s).escaped ≡ false
unfolding step
step_closed c text s h k i = ground arith

finish-step :
    (text : Text) (s : Scan)
    → text ≢ []
    → s.escaped ≡ false
    → IsInside text s
    → finish (step quote s) ≡ trim text ∷ []
unfolding finish step shown
finish-step [] s h e i = absurd (h refl)
finish-step (d ∷ text) s h e i = let read : s.arg ≡ d ∷ text = ground arith in ground (arith, read)

abbrev opened : Scan
opened = record start { in_quotes = true }

arg_string_to_array-opened : (t : Text) → arg_string_to_array (quote ∷ t) ≡ finish (scan t opened)
unfolding arg_string_to_array
arg_string_to_array-opened t = refl

scan_pair : (c d : ℕ) (s : Scan) → scan (c ∷ d ∷ []) s ≡ step d (step c s)
unfolding scan
scan_pair c d s = refl

scan_triple : (c d e : ℕ) (s : Scan) → scan (c ∷ d ∷ e ∷ []) s ≡ step e (step d (step c s))
unfolding scan
scan_triple c d e s = refl

opened-IsInside : IsInside [] opened
unfolding shown
opened-IsInside = ground arith

Lacks-append : (d : ℕ) (p r : Text) → Lacks d (p ++ r) → Lacks d p × Lacks d r
Lacks-append d [] r h = (tt, h)
Lacks-append d (c ∷ p) r (h, hs) = let (a, b) = Lacks-append d p r hs in ((h, a), b)

concat-ne-nil : (q : Text) (c : ℕ) → q ++ c ∷ [] ≢ []
concat-ne-nil [] c e = cc
concat-ne-nil (d ∷ q) c e = cc

-- A command line that is one quoted path comes back as one word, the path with white space removed at
-- its ends: spaces and backslashes inside stay, if the path has no quote and its last character is no
-- backslash.
pub arg_string_to_array-quoted :
    (q : Text) (c : ℕ)
    → Lacks quote (q ++ c ∷ [])
    → c ≢ backslash
    → arg_string_to_array (quote ∷ (q ++ c ∷ quote ∷ [])) ≡ trim (q ++ c ∷ []) ∷ []
arg_string_to_array-quoted q c h k =
    let (hq, hc) = Lacks-append quote q (c ∷ []) h in
    let inside = scan-IsInside q [] opened hq opened-IsInside in
    let after_q = scan q opened in
    arg_string_to_array-opened (q ++ c ∷ quote ∷ [])
    ∙ ap finish (scan-append q (c ∷ quote ∷ []) opened ∙ scan_pair c quote after_q)
    ∙ finish-step (q ++ c ∷ []) (step c after_q) (concat-ne-nil q c)
        (step_closed c q after_q hc.0 k inside) (step-IsInside c q after_q hc.0 inside)

step-backslash :
    (text : Text) (s : Scan) → s.escaped ≡ false → IsInside text s → (step backslash s).arg ≡ text
unfolding step shown
step-backslash text s e i = ground arith

finish-step_escaped :
    (text : Text) (s : Scan)
    → s.escaped ≡ true
    → s.arg ≡ text
    → s.args ≡ []
    → finish (step quote s) ≡ trim (text ++ quote ∷ []) ∷ []
unfolding finish step
finish-step_escaped [] s e a n = ground arith
finish-step_escaped (d ∷ text) s e a n = ground arith

step-backslash_escaped :
    (text : Text) (s : Scan)
    → s.escaped ≡ false
    → IsInside text s
    → (step backslash s).escaped ≡ true
unfolding step
step-backslash_escaped text s e i = ground arith

-- A quoted path whose last character is a single backslash takes the closing quote for a part of
-- itself, in the place of the backslash.
pub arg_string_to_array-open_end :
    (q : Text) (c : ℕ)
    → Lacks quote (q ++ c ∷ [])
    → c ≢ backslash
    → arg_string_to_array (quote ∷ (q ++ c ∷ backslash ∷ quote ∷ []))
      ≡ trim ((q ++ c ∷ []) ++ quote ∷ []) ∷ []
arg_string_to_array-open_end q c h k =
    let (hq, hc) = Lacks-append quote q (c ∷ []) h in
    let after_q = scan q opened in
    let inside = step-IsInside c q after_q hc.0 (scan-IsInside q [] opened hq opened-IsInside) in
    let closed = step_closed c q after_q hc.0 k (scan-IsInside q [] opened hq opened-IsInside) in
    let after_c = step c after_q in
    arg_string_to_array-opened (q ++ c ∷ backslash ∷ quote ∷ [])
    ∙ ap finish
        (scan-append q (c ∷ backslash ∷ quote ∷ []) opened ∙ scan_triple c backslash quote after_q)
    ∙ finish-step_escaped (q ++ c ∷ []) (step backslash after_c)
        (step-backslash_escaped _ after_c closed inside) (step-backslash _ after_c closed inside)
        (step-IsInside backslash _ after_c (λ e. absurd (omega arith)) inside).first
