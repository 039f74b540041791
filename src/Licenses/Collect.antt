-- ===== src/Licenses/Collect.antt =====
-- What the licence collector writes.
use mathlib.Core.List.{Forall₂}
use coherence_operator.Prelude.{
  map, ◌≡◌, refl, ap, sym, ◌∙◌, ◌⊎◌, inl, inr, List, [], ◌∷◌, ◌++◌, Option, none, some, true, false,
  All, Text, codes, Option-cases, arith,
}
use coherence_operator.Runtime.{World, ok, throws, ◌>>=◌}
use coherence_operator.Runtime.Laws.{>>=-eq-ok, ok-inj}
use coherence_operator.Updater.{settled}
use coherence_operator.Updater.Sort.{sort}
use coherence_operator.Updater.Sort.Laws.{IsSorted, sort-IsSorted}
use coherence_operator.Updater.Filters.{All-of}
use coherence_operator.Licenses.{
  Sources, text_after, as_text, comes_after, trim_end, license_files, or_default, read_text,
  read_license, collect_entry, collect_entries,
}

-- The text of a licence: what stands in the first candidate that exists, without white space at the
-- end, and nothing where none exists.
abbrev pub IsText : (Text → Option Text) → List Text → Text → Type 0
IsText files paths text =
    ((before behind : List Text) × (path content : Text) × (paths ≡ before ++ path ∷ behind)
      × All (λ p. files p ≡ none) before
      × (files path ≡ some content)
      × (text ≡ trim_end content))
    ⊎ (All (λ p. files p ≡ none) paths × (text ≡ []))

text_after-asym : (s t : Text) → text_after s t ≡ true → text_after t s ≡ false
unfolding text_after
text_after-asym [] t h = cc
text_after-asym (c ∷ s) [] h = refl
text_after-asym (c ∷ s) (d ∷ t) h = ground (arith, h, text_after-asym s t)

text_after-cotrans :
    (s t u : Text) → text_after s t ≡ false → text_after t u ≡ false → text_after s u ≡ false
unfolding text_after
text_after-cotrans [] t u h k = refl
text_after-cotrans (c ∷ s) [] u h k = cc
text_after-cotrans (c ∷ s) (d ∷ t) [] h k = cc
text_after-cotrans (c ∷ s) (d ∷ t) (e ∷ u) h k = ground (arith, h, k, text_after-cotrans s t u)

pub sort-IsSorted-comes_after :
    (paths : List (Text × Text)) → IsSorted comes_after (sort comes_after paths)
unfolding comes_after
sort-IsSorted-comes_after paths =
    sort-IsSorted comes_after (λ p. Unit {0}) (λ p q _ _. text_after-asym (as_text p) (as_text q))
      (λ p q r _ _ _. text_after-cotrans (as_text p) (as_text q) (as_text r)) paths
      (All-of (λ p. Unit {0}) (λ p. tt) paths)

module _ (src : Sources) where
  -- The entry of a package: its name, the licence that its package.json names, and the text.
  abbrev pub IsEntry : (Text → Option Text) → Text × Text → Text → Type 0
  IsEntry files (name, dir) entry =
      (raw : Text) × (license : Option Text) × (text : Text) × (files
          (src.join dir (codes "package.json"))
        ≡ some raw)
      × (src.parse_package raw ≡ ok license)
      × IsText files (map (src.join dir) license_files) text
      × (entry
          ≡ name ++ (codes "\n" ++ (or_default (codes "UNKNOWN") license ++ (codes "\n" ++ text))))

  further :
      (files : Text → Option Text) (path text : Text) (paths : List Text)
      → files path ≡ none
      → IsText files paths text
      → IsText files (path ∷ paths) text
  further files path text paths absent
        (inl (before, behind, p, content, split, none_before, there, rest)) =
      inl (
        path ∷ before,
        behind,
        p,
        content,
        ap (λ ps. path ∷ ps) split,
        (absent, none_before),
        there,
        rest,
      )
  further files path text paths absent (inr (none_there, empty)) = inr ((absent, none_there), empty)

  read_license-IsText :
      (dir text : Text) (candidates : List Text) (w v : World)
      → read_license src dir candidates w ≡ (ok text, v)
      → IsText w.files (map (src.join dir) candidates) text × (w ≡ v)
  unfolding read_license
  read_license-IsText dir text [] w v h =
      let (same, kept) = ok-inj [] text w v h in (inr (tt, sym same), kept)
  read_license-IsText dir text (c ∷ candidates) w v h =
      elim (Option-cases (w.files (src.join dir c))) [
        | inl absent ↦
            let skipped : read_license src dir (c ∷ candidates) w
                ≡ read_license src dir candidates w =
              rw (absent, read_license) refl in
            let (found, kept) = read_license-IsText dir text candidates w v (sym skipped ∙ h) in
            (
              further w.files (src.join dir c) text (map (src.join dir) candidates) absent found,
              kept,
            )
        | inr (content, there) ↦
            let taken : read_license src dir (c ∷ candidates) w ≡ (ok (trim_end content), w) =
              rw (there, read_license) refl in
            let (same, kept) = ok-inj (trim_end content) text w v (sym taken ∙ h) in
            (
              inl (
                [],
                map (src.join dir) candidates,
                src.join dir c,
                content,
                refl,
                tt,
                there,
                sym same,
              ),
              kept,
            )
      ]

  pub read_text-eq :
      (path content : Text) (w v : World)
      → read_text src path w ≡ (ok content, v)
      → (w.files path ≡ some content) × (w ≡ v)
  unfolding read_text
  read_text-eq path content w v h = elim (Option-cases (w.files path)) [
    | inl absent ↦
        let missed : read_text src path w ≡ (throws (src.read_error path), w) =
          rw (absent, read_text) refl in
        let bad = ap (λ p. p.0) (sym missed ∙ h) in cc
    | inr (found, there) ↦
        let taken : read_text src path w ≡ (ok found, w) = rw (there, read_text) refl in
        let (same, kept) = ok-inj found content w v (sym taken ∙ h) in (there ∙ ap some same, kept)
  ]

  collect_entry-IsEntry :
      (p : Text × Text) (entry : Text) (w v : World)
      → collect_entry src p w ≡ (ok entry, v)
      → IsEntry w.files p entry × (w ≡ v)
  unfolding collect_entry
  collect_entry-IsEntry (name, dir) entry w v h =
      let shown = λ (license : Option Text) (text : Text).
        name ++ (codes "\n" ++ (or_default (codes "UNKNOWN") license ++ (codes "\n" ++ text))) in
      let (raw, w1, was_read, h1) =
        >>=-eq-ok
          (λ raw. settled (src.parse_package raw) >>= λ license.
            read_license src dir license_files >>= λ text. settled (ok (shown license text)))
          (read_text src (src.join dir (codes "package.json"))) w h in
      let (license, w2, parsed, h2) =
        >>=-eq-ok
          (λ license.
            read_license src dir license_files >>= λ text. settled (ok (shown license text)))
          (settled (src.parse_package raw)) w1 h1 in
      let (text, w3, found, h3) =
        >>=-eq-ok (λ text. settled (ok (shown license text))) (read_license src dir license_files)
          w2 h2 in
      let (there, same1) = read_text-eq (src.join dir (codes "package.json")) raw w w1 was_read in
      let same2 = same1 ∙ ap (λ p. p.1) parsed in
      let (is_text, same3) = read_license-IsText dir text license_files w2 w3 found in
      let (result, same4) = ok-inj (shown license text) entry w3 v h3 in
      (
        (raw, license, text, there, ap (λ p. p.0) parsed, (rw same2 is_text), sym result),
        same2 ∙ (same3 ∙ same4),
      )

  pub collect_entries-IsEntry :
      (paths : List (Text × Text)) (entries : List Text) (w v : World)
      → collect_entries src paths w ≡ (ok entries, v)
      → Forall₂ (IsEntry w.files) paths entries × (w ≡ v)
  unfolding collect_entries
  collect_entries-IsEntry [] entries w v h =
      let (same, kept) = ok-inj [] entries w v h in (rw (← same) Forall₂.nil, kept)
  collect_entries-IsEntry (p ∷ paths) entries w v h =
      let (entry, w1, first, h1) =
        >>=-eq-ok (λ entry. collect_entries src paths >>= λ others. settled (ok (entry ∷ others)))
          (collect_entry src p) w h in
      let (others, w2, more, h2) =
        >>=-eq-ok (λ others. settled (ok (entry ∷ others))) (collect_entries src paths) w1 h1 in
      let (is_entry, same1) = collect_entry-IsEntry p entry w w1 first in
      let (are_entries, same2) = collect_entries-IsEntry paths others w1 w2 more in
      let (result, same3) = ok-inj (entry ∷ others) entries w2 v h2 in
      (rw (← result) (Forall₂.cons is_entry (rw same1 are_entries)), same1 ∙ (same2 ∙ same3))
