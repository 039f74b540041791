-- ===== src/Updater/Checksums/Lookup.antt =====
-- What the loop of `parseChecksums` leaves for a platform and an architecture: the last line that names
-- them.
use coherence_operator.Prelude.{
  ◌≡◌, refl, ◌∙◌, ap, sym, inl, inr, [], ◌∷◌, List, Option, none, some, Bool, true, false, Text,
  if◌then◌else◌, arith, Option-cases, Bool-cases, is_empty, split,
}
use coherence_operator.Runtime.{ok}
use coherence_operator.Release.Defs.{Download, Platforms, property}
use coherence_operator.Updater.Checksums.{
  Asset, asset_of_line, add_asset, add_line, add_lines, parse_checksums,
}
use coherence_operator.Updater.Checksums.Objects.{find_asset, is_for, find_asset-add_asset}

-- What a line says of a platform and an architecture.
unfoldable pub said : Text → Text → Text → Text → Option Download
said version platform arch raw_line = elim (asset_of_line version raw_line) [
  | none ↦ none
  | some asset ↦ if is_for platform arch asset then some asset.download else none
]

abbrev pub or_else : Option Download → Option Download → Option Download
or_else none d = d
or_else (some d) e = some d

-- The last line that says something.
unfoldable pub last_said : Text → Text → Text → List Text → Option Download
last_said version platform arch [] = none
last_said version platform arch (raw_line ∷ lines) =
    or_else (last_said version platform arch lines) (said version platform arch raw_line)

module _ (version platform arch : Text) where
  add_line-some :
      (raw_line : Text) (entry : Platforms) (asset : Asset)
      → asset_of_line version raw_line ≡ some asset
      → (add_line version raw_line entry ≡ add_asset asset entry)
        × (said version platform arch raw_line
            ≡ (if is_for platform arch asset then some asset.download else none))
  unfolding add_line said
  add_line-some raw_line entry asset found = (rw (found, add_line), rw (found, said))

  add_line-none :
      (raw_line : Text) (entry : Platforms)
      → asset_of_line version raw_line ≡ none
      → (add_line version raw_line entry ≡ entry) × (said version platform arch raw_line ≡ none)
  unfolding add_line said
  add_line-none raw_line entry nothing = (rw (nothing, add_line), rw (nothing, said))

  or_else-if :
      (b : Bool) (d : Download) (o : Option Download)
      → (if b then some d else o) ≡ or_else (if b then some d else none) o
  or_else-if true d o = refl
  or_else-if false d o = refl

  find_asset-add_line :
      (raw_line : Text) (entry : Platforms)
      → find_asset platform arch (add_line version raw_line entry)
        ≡ or_else (said version platform arch raw_line) (find_asset platform arch entry)
  find_asset-add_line raw_line entry = elim (Option-cases (asset_of_line version raw_line)) [
    | inl nothing ↦
        let (kept, silent) = add_line-none raw_line entry nothing in rw (kept, silent) refl
    | inr (asset, found) ↦
        let (added, says) = add_line-some raw_line entry asset found in
        rw (added, says)
          (find_asset-add_asset platform arch asset entry
            ∙ or_else-if (is_for platform arch asset) asset.download
                (find_asset platform arch entry))
  ]

  or_else_assoc : (a b c : Option Download) → or_else a (or_else b c) ≡ or_else (or_else a b) c
  or_else_assoc none b c = refl
  or_else_assoc (some a) b c = refl

  find_asset-add_lines :
      (lines : List Text) (entry : Platforms)
      → find_asset platform arch (add_lines version lines entry)
        ≡ or_else (last_said version platform arch lines) (find_asset platform arch entry)
  unfolding add_lines last_said
  find_asset-add_lines [] entry = refl
  find_asset-add_lines (raw_line ∷ lines) entry =
      find_asset-add_lines lines (add_line version raw_line entry)
      ∙ (ap (or_else (last_said version platform arch lines)) (find_asset-add_line raw_line entry)
          ∙ or_else_assoc (last_said version platform arch lines)
              (said version platform arch raw_line) (find_asset platform arch entry))

  or_else-none : (o : Option Download) → or_else o none ≡ o
  or_else-none none = refl
  or_else-none (some d) = refl

  parsed :
      (text : Text) (entry : Platforms)
      → parse_checksums text version ≡ ok entry
      → add_lines version (split 10 text) [] ≡ entry
  unfolding parse_checksums
  parsed text entry h = elim (Bool-cases (is_empty (add_lines version (split 10 text) []))) [
    | inl empty ↦ ground (arith, empty, h)
    | inr filled ↦ ground (arith, filled, h)
  ]

  -- If the checksums file is accepted, the entry has for each platform and architecture what the last line
  -- of the file says that names both in a well-formed archive name of the version, and nothing where no
  -- line does; names that are no own properties (platforms that every object inherits, the
  -- architecture `__proto__`) are left out.
  pub parse_checksums-last_said :
      (text : Text) (entry : Platforms)
      → parse_checksums text version ≡ ok entry
      → find_asset platform arch entry ≡ last_said version platform arch (split 10 text)
  unfolding find_asset property
  parse_checksums-last_said text entry h =
      ap (find_asset platform arch) (sym (parsed text entry h))
      ∙ (find_asset-add_lines (split 10 text) []
          ∙ or_else-none (last_said version platform arch (split 10 text)))
