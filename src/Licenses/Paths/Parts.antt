-- ===== src/Licenses/Paths/Parts.antt =====
-- The parts between the slashes of a path, put together again.
use coherence_operator.Prelude.{
  ◌≡◌, ◌≢◌, refl, ap, sym, ◌∙◌, inl, inr, List, [], ◌∷◌, ◌++◌, false, ◌==◌, All, All-append, Lacks,
  Text, is_empty, split_from, append_assoc, append-nil, arith, Bool-cases,
}
use coherence_operator.Licenses.Paths.{slash}

-- The parts with slashes between them.
abbrev pub join_parts : List Text → Text
join_parts [] = []
join_parts (part ∷ []) = part
join_parts (part ∷ next ∷ parts) = part ++ (slash ++ join_parts (next ∷ parts))

pub join_parts-cons :
    (part t : Text) (parts : List Text)
    → is_empty parts ≡ false
    → join_parts parts ≡ t
    → join_parts (part ∷ parts) ≡ part ++ (slash ++ t)
join_parts-cons part t [] some_part joined = cc
join_parts-cons part t (next ∷ parts) some_part joined = ap (λ u. part ++ (slash ++ u)) joined

split_from-is_empty : (cur s : Text) → is_empty (split_from b'/' cur s) ≡ false
unfolding split_from
split_from-is_empty cur [] = refl
split_from-is_empty cur (c ∷ s) = elim (Bool-cases (c == b'/')) [
  | inl end ↦ rw (end, split_from) refl
  | inr inside ↦ rw (inside, split_from) (split_from-is_empty (cur ++ c ∷ []) s)
]

pub join_parts-split_from : (cur s : Text) → join_parts (split_from b'/' cur s) ≡ cur ++ s
unfolding split_from
join_parts-split_from cur [] = sym (append-nil cur)
join_parts-split_from cur (c ∷ s) = elim (Bool-cases (c == b'/')) [
  | inl end ↦
      let same : c ≡ b'/' = ground (arith, end) in
      rw (end, split_from, same)
        (join_parts-cons cur s (split_from b'/' [] s) (split_from-is_empty [] s)
          (join_parts-split_from [] s))
  | inr inside ↦
      rw (inside, split_from)
        (join_parts-split_from (cur ++ c ∷ []) s ∙ append_assoc cur (c ∷ []) s)
]

pub split_from-Lacks : (cur s : Text) → Lacks b'/' cur → All (Lacks b'/') (split_from b'/' cur s)
unfolding split_from
split_from-Lacks cur [] none_yet = (none_yet, tt)
split_from-Lacks cur (c ∷ s) none_yet = elim (Bool-cases (c == b'/')) [
  | inl end ↦ rw (end, split_from) (none_yet, split_from-Lacks [] s tt)
  | inr inside ↦
      let other : c ≢ b'/' = λ e. ground (arith, inside, e) in
      rw (inside, split_from)
        (split_from-Lacks (cur ++ c ∷ []) s
          (All-append (λ d. d ≢ b'/') cur (c ∷ []) none_yet (other, tt)))
]
