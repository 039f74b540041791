-- ===== src/Command/Escape.antt =====
-- The escapes of a command's message and properties.
use coherence_operator.Prelude.{
  ℕ, ◌+◌, ◌≡◌, refl, ◌≢◌, [], ◌∷◌, ◌++◌, append_assoc, true, false, Text, codes, replace_all, All,
  All-append, ◌==◌, if◌then◌else◌, arith, leb, ◌-◌, ◌*◌, ◌∙◌, ap,
}
use coherence_operator.Command.{Value, to_command_value, escape_data, escape_property}

-- What one character becomes.
escape_char : ℕ → Text
escape_char c =
    if c == b'%'
    then codes "%25"
    else if c == 13
    then codes "%0D"
    else if c == 10
    then codes "%0A"
    else c ∷ []

escape_property_char : ℕ → Text
escape_property_char c =
    if c == b':' then codes "%3A" else if c == b',' then codes "%2C" else escape_char c

replace_all-append :
    (c : ℕ) (t s r : Text) → replace_all c t (s ++ r) ≡ replace_all c t s ++ replace_all c t r
unfolding replace_all
replace_all-append c t [] r = refl
replace_all-append c t (d ∷ s) r = simp (replace_all-append c t s r, append_assoc)

replaced : Text → Text
replaced s =
    replace_all 10 (codes "%0A") (replace_all 13 (codes "%0D") (replace_all b'%' (codes "%25") s))

replaced_property : Text → Text
replaced_property s = replace_all b',' (codes "%2C") (replace_all b':' (codes "%3A") (replaced s))

replaced_char : (c : ℕ) → replaced (c ∷ []) ≡ escape_char c
unfolding replaced replace_all escape_char
replaced_char c = ground arith

replaced-append : (s r : Text) → replaced (s ++ r) ≡ replaced s ++ replaced r
unfolding replaced
replaced-append s r = simp replace_all-append

replaced-cons : (c : ℕ) (s : Text) → replaced (c ∷ s) ≡ escape_char c ++ replaced s
replaced-cons c s = replaced-append (c ∷ []) s ∙ ap (λ t. t ++ replaced s) (replaced_char c)

replaced_property-append :
    (s r : Text) → replaced_property (s ++ r) ≡ replaced_property s ++ replaced_property r
unfolding replaced_property
replaced_property-append s r = simp (replaced-append, replace_all-append)

replaced_property_char : (c : ℕ) → replaced_property (c ∷ []) ≡ escape_property_char c
unfolding replaced_property replaced replace_all escape_char escape_property_char
replaced_property_char c = ground arith

replaced_property-cons :
    (c : ℕ) (s : Text) → replaced_property (c ∷ s) ≡ escape_property_char c ++ replaced_property s
replaced_property-cons c s =
    replaced_property-append (c ∷ []) s
    ∙ ap (λ t. t ++ replaced_property s) (replaced_property_char c)

-- Percent decoding: `%` begins the code of a character, in two upper-case hexadecimal digits.
abbrev hex_value : ℕ → ℕ
hex_value c = if leb b'A' c then c - 55 else c - 48

unfoldable pub unescape : Text → Text
unescape [] = []
unescape (c ∷ []) = c ∷ []
unescape (c ∷ d ∷ []) = c ∷ d ∷ []
unescape (c ∷ d ∷ e ∷ s) = elim (c == b'%') [
  | true ↦ (hex_value d * 16 + hex_value e) ∷ unescape s
  | false ↦ c ∷ unescape (d ∷ e ∷ s)
]

unescape_plain : (c : ℕ) (s : Text) → c ≢ b'%' → unescape (c ∷ s) ≡ c ∷ unescape s
unfolding unescape
unescape_plain c [] h = refl
unescape_plain c (d ∷ []) h = refl
unescape_plain c (d ∷ e ∷ s) h = ground arith

unescape_coded :
    (d e : ℕ) (s : Text)
    → unescape (b'%' ∷ d ∷ e ∷ s) ≡ (hex_value d * 16 + hex_value e) ∷ unescape s
unfolding unescape
unescape_coded d e s = refl

unescape-escape_char : (c : ℕ) (s : Text) → unescape (escape_char c ++ s) ≡ c ∷ unescape s
unfolding escape_char
unescape-escape_char c s = ground (
  arith,
  unescape_plain c s,
  unescape_coded b'2' b'5' s,
  unescape_coded b'0' b'D' s,
  unescape_coded b'0' b'A' s,
)

unescape-escape_property_char :
    (c : ℕ) (s : Text) → unescape (escape_property_char c ++ s) ≡ c ∷ unescape s
unfolding escape_property_char
unescape-escape_property_char c s =
    ground (arith, unescape-escape_char c s, unescape_coded b'3' b'A' s, unescape_coded b'2' b'C' s)

unescape-replaced : (s : Text) → unescape (replaced s) ≡ s
unescape-replaced [] = unfold unescape replaced replace_all in refl
unescape-replaced (c ∷ s) =
    rw (replaced-cons, unescape-escape_char) (ap (λ t. c ∷ t) (unescape-replaced s))

unescape-replaced_property : (s : Text) → unescape (replaced_property s) ≡ s
unescape-replaced_property [] = unfold unescape replaced_property replaced replace_all in refl
unescape-replaced_property (c ∷ s) =
    rw (replaced_property-cons, unescape-escape_property_char)
      (ap (λ t. c ∷ t) (unescape-replaced_property s))

-- Percent decoding gives back the text of every message and of every property value, so that two
-- values of different text are never written alike.
pub unescape-escape :
    (v : Value)
    → (unescape (escape_data v) ≡ to_command_value v)
      × (unescape (escape_property v) ≡ to_command_value v)
unfolding escape_data escape_property replaced replaced_property
unescape-escape v =
    (unescape-replaced (to_command_value v), unescape-replaced_property (to_command_value v))

-- A text on one line.
abbrev pub IsOneLine : Text → Type 0
IsOneLine = All (λ c. (c ≢ 10) × (c ≢ 13))

escape_char-IsOneLine : (c : ℕ) → IsOneLine (escape_char c)
unfolding escape_char
escape_char-IsOneLine c = ground arith

replaced-IsOneLine : (s : Text) → IsOneLine (replaced s)
replaced-IsOneLine [] = unfold replaced replace_all in tt
replaced-IsOneLine (c ∷ s) =
    rw replaced-cons
      (All-append _ (escape_char c) _ (escape_char-IsOneLine c) (replaced-IsOneLine s))

pub escape_data-IsOneLine : (v : Value) → IsOneLine (escape_data v)
unfolding escape_data replaced
escape_data-IsOneLine v = replaced-IsOneLine (to_command_value v)

-- What a property's value may not hold: the ends of the value, of the properties and of the line.
abbrev pub IsPropertySafe : Text → Type 0
IsPropertySafe = All (λ c. (c ≢ 10) × (c ≢ 13) × (c ≢ b':') × (c ≢ b','))

escape_property_char-IsPropertySafe : (c : ℕ) → IsPropertySafe (escape_property_char c)
unfolding escape_property_char escape_char
escape_property_char-IsPropertySafe c = ground arith

replaced_property-IsPropertySafe : (s : Text) → IsPropertySafe (replaced_property s)
replaced_property-IsPropertySafe [] = unfold replaced_property replaced replace_all in tt
replaced_property-IsPropertySafe (c ∷ s) = rw replaced_property-cons (
    All-append _ (escape_property_char c) _ (escape_property_char-IsPropertySafe c)
      (replaced_property-IsPropertySafe s))

pub escape_property-IsPropertySafe : (v : Value) → IsPropertySafe (escape_property v)
unfolding escape_property escape_data replaced_property replaced
escape_property-IsPropertySafe v = replaced_property-IsPropertySafe (to_command_value v)
