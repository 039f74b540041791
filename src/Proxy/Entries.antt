-- ===== src/Proxy/Entries.antt =====
-- An entry of a list with commas, as `split` and `trim` find it.
use coherence_operator.Prelude.{
  ℕ, ◌≡◌, ◌≢◌, refl, ◌∙◌, ap, sym, List, [], ◌∷◌, ◌++◌, append_assoc, append-nil, reverse,
  reverse-append, reverse-reverse, Option, none, some, Bool, true, false, any, filter, map, All,
  All-append, All-reverse_aux, Lacks, Text, is_space, starts_with, ends_with, split_from, split,
  trim_start, trim, is_empty, ◌==◌, Bool-cases, inl, inr, arith,
}

abbrev pub IsSpaces : Text → Type 0
IsSpaces = All (λ c. is_space c ≡ true)

-- No white space.
abbrev pub IsBare : Text → Type 0
IsBare = All (λ c. is_space c ≡ false)

-- The entry with the rest of the list on its left, if any, and on its right, if any.
abbrev pub before_entry : Option Text → Text → Text
before_entry none s = s
before_entry (some left) s = left ++ b',' ∷ s

abbrev pub after_entry : Option Text → Text
after_entry none = []
after_entry (some right) = b',' ∷ right

-- The entry of a domain, with white space around it.
abbrev pub padded : Text → Text → Text → Text
padded pad domain pad' = pad ++ (domain ++ pad')

space-ne-comma : (c : ℕ) → is_space c ≡ true → c ≢ b','
unfolding is_space
space-ne-comma c h = ground arith

IsSpaces-Lacks : (s : Text) → IsSpaces s → Lacks b',' s
IsSpaces-Lacks [] h = tt
IsSpaces-Lacks (c ∷ s) (space, h) = (space-ne-comma c space, IsSpaces-Lacks s h)

pub padded-Lacks :
    (pad domain pad' : Text)
    → IsSpaces pad
    → IsSpaces pad'
    → Lacks b',' domain
    → Lacks b',' (padded pad domain pad')
padded-Lacks pad domain pad' spaces spaces' plain =
    All-append (λ c. c ≢ b',') pad (domain ++ pad') (IsSpaces-Lacks pad spaces)
      (All-append (λ c. c ≢ b',') domain pad' plain (IsSpaces-Lacks pad' spaces'))

split_from-append :
    (sep : ℕ) (cur s t : Text)
    → split_from sep cur (s ++ sep ∷ t) ≡ split_from sep cur s ++ split_from sep [] t
unfolding split_from
split_from-append sep cur [] t = ground arith
split_from-append sep cur (c ∷ s) t = elim (Bool-cases (c == sep)) [
  | inl hit ↦ rw (hit, split_from) (ap (λ x. cur ∷ x) (split_from-append sep [] s t))
  | inr miss ↦ rw (miss, split_from) (split_from-append sep (cur ++ c ∷ []) s t)
]

split_from-Lacks : (sep : ℕ) (cur s : Text) → Lacks sep s → split_from sep cur s ≡ (cur ++ s) ∷ []
unfolding split_from
split_from-Lacks sep cur [] h = ap (λ x. x ∷ []) (sym (append-nil cur))
split_from-Lacks sep cur (c ∷ s) (other, h) =
    let miss : (c == sep) ≡ false = ground arith in
    rw (miss, split_from)
      (split_from-Lacks sep (cur ++ c ∷ []) s h ∙ ap (λ x. x ∷ []) (append_assoc cur (c ∷ []) s))

split_from-after :
    (entry : Text) (right : Option Text)
    → Lacks b',' entry
    → (rest : List Text) × (split_from b',' [] (entry ++ after_entry right) ≡ entry ∷ rest)
split_from-after entry none plain =
    ([], ap (split_from b',' []) (append-nil entry) ∙ split_from-Lacks b',' [] entry plain)
split_from-after entry (some right) plain = (
  split_from b',' [] right,
  split_from-append b',' [] entry right
      ∙ ap (λ x. x ++ split_from b',' [] right) (split_from-Lacks b',' [] entry plain),
)

-- An entry without a comma is one of the parts.
pub split-entry :
    (left right : Option Text) (entry : Text)
    → Lacks b',' entry
    → (before after : List Text) × (split b',' (before_entry left (entry ++ after_entry right))
        ≡ before ++ entry ∷ after)
unfolding split
split-entry none right entry plain =
    let (rest, parts) = split_from-after entry right plain in ([], rest, parts)
split-entry (some left) right entry plain =
    let (rest, parts) = split_from-after entry right plain in
    (
      split_from b',' [] left,
      rest,
      split_from-append b',' [] left (entry ++ after_entry right)
          ∙ ap (λ x. split_from b',' [] left ++ x) parts,
    )

All-reverse : (P : ℕ → Type 0) (s : Text) → All P s → All P (reverse s)
All-reverse P s h = All-reverse_aux P s [] h tt

trim_start-spaces : (pad s : Text) → IsSpaces pad → trim_start (pad ++ s) ≡ trim_start s
unfolding trim_start
trim_start-spaces [] s h = refl
trim_start-spaces (c ∷ pad) s (space, h) = rw (space, trim_start) (trim_start-spaces pad s h)

trim_start-IsBare : (s t : Text) → s ≢ [] → IsBare s → trim_start (s ++ t) ≡ s ++ t
unfolding trim_start
trim_start-IsBare [] t some_text h = absurd (some_text refl)
trim_start-IsBare (c ∷ s) t some_text (bare, h) = rw (bare, trim_start) refl

reverse-ne-nil : (s : Text) → s ≢ [] → reverse s ≢ []
reverse-ne-nil s some_text e = some_text (sym (reverse-reverse s) ∙ ap reverse e)

-- White space around a text without any is removed.
pub trim-padded :
    (pad pad' s : Text)
    → IsSpaces pad
    → IsSpaces pad'
    → IsBare s
    → s ≢ []
    → trim (padded pad s pad') ≡ s
unfolding trim
trim-padded pad pad' s spaces spaces' bare some_text =
    let front =
      trim_start-spaces pad (s ++ pad') spaces ∙ trim_start-IsBare s pad' some_text bare in
    let back : trim_start (reverse pad' ++ reverse s) ≡ reverse s =
      trim_start-spaces (reverse pad') (reverse s) (All-reverse _ pad' spaces')
      ∙ ap trim_start (sym (append-nil (reverse s)))
      ∙ trim_start-IsBare (reverse s) [] (reverse-ne-nil s some_text) (All-reverse _ s bare)
      ∙ append-nil (reverse s) in
    ap (λ x. reverse (trim_start (reverse x))) front
    ∙ ap (λ x. reverse (trim_start x)) (reverse-append s pad')
    ∙ ap reverse back
    ∙ reverse-reverse s

-- A part that passes two tests behind a function is found behind them.
pub any-filter-map :
    (test keep : Text → Bool) (f : Text → Text) (before after : List Text) (x : Text)
    → keep (f x) ≡ true
    → test (f x) ≡ true
    → any test (filter keep (map f (before ++ x ∷ after))) ≡ true
any-filter-map test keep f [] after x kept hit = ground (arith, kept, hit)
any-filter-map test keep f (y ∷ before) after x kept hit =
    ground (arith, any-filter-map test keep f before after x kept hit)

starts_with_self : (s t : Text) → starts_with (s ++ t) s ≡ true
unfolding starts_with
starts_with_self [] t = ground arith
starts_with_self (c ∷ s) t = ground (arith, starts_with_self s t)

pub ends_with-append : (s t : Text) → ends_with (s ++ t) t ≡ true
unfolding ends_with
ends_with-append s t =
    ap (λ x. starts_with x (reverse t)) (reverse-append s t)
    ∙ starts_with_self (reverse t) (reverse s)

pub is_empty-ne : (s : Text) → s ≢ [] → is_empty s ≡ false
is_empty-ne [] ne = absurd (ne refl)
is_empty-ne (c ∷ s) ne = refl

pub append-ne-nil_right : (s t : Text) → t ≢ [] → (s ++ t) ≢ []
append-ne-nil_right [] t some_text e = some_text e
append-ne-nil_right (c ∷ s) t some_text e = cc

append-ne-nil_left : (s t : Text) → s ≢ [] → (s ++ t) ≢ []
append-ne-nil_left [] t some_text e = some_text refl
append-ne-nil_left (c ∷ s) t some_text e = cc

pub entry-ne-nil :
    (left right : Option Text) (pad domain pad' : Text)
    → domain ≢ []
    → before_entry left (padded pad domain pad' ++ after_entry right) ≢ []
entry-ne-nil none right pad domain pad' named =
    append-ne-nil_left (padded pad domain pad') (after_entry right)
      (append-ne-nil_right pad (domain ++ pad') (append-ne-nil_left domain pad' named))
entry-ne-nil (some left) right pad domain pad' named =
    append-ne-nil_right left (b',' ∷ padded pad domain pad' ++ after_entry right) λ e. cc
