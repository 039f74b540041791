-- ===== src/Updater/Checksums/Urls.antt =====
-- Every download that `parseChecksums` returns has the URL of the archive of its own version, platform
-- and architecture.
use coherence_operator.Prelude.{
  ◌≡◌, ◌∙◌, ap, sym, List, [], ◌∷◌, some, true, Text, text_eq_iff, arith, Option-cases, Bool-cases,
  inl, inr, split,
}
use coherence_operator.Runtime.{ok}
use coherence_operator.Release.Defs.{Download, Platforms}
use coherence_operator.Updater.Checksums.{Asset, asset_of_line, asset_url, parse_checksums}
use coherence_operator.Updater.Checksums.Objects.{find_asset, is_for}
use coherence_operator.Updater.Checksums.Lookup.{said, last_said, parse_checksums-last_said}
use coherence_operator.Updater.Checksums.Names.{
  asset_filename, IsArchive, asset_of_line-IsReleaseAsset,
}

-- The URL is the one of the release's archive for the platform and the architecture.
abbrev pub IsReleaseUrl : Text → Text → Text → Text → Type 0
IsReleaseUrl version platform arch url =
    (ext : Text) × IsArchive ext
    × (url
        ≡ asset_url version
            (asset_filename version (record { platform = platform; arch = arch; ext = ext })))

is_for_sound :
    (platform arch : Text)
    → (asset : Asset) → is_for platform arch asset ≡ true
    → (asset.platform ≡ platform) × (asset.arch ≡ arch)
unfolding is_for
is_for_sound platform arch asset h = (
  ground (arith, h, text_eq_iff asset.platform platform),
  ground (arith, h, text_eq_iff asset.arch arch),
)

module _ (version platform arch : Text) (d : Download) where
  said-IsReleaseUrl :
      (raw_line : Text)
      → said version platform arch raw_line ≡ some d
      → IsReleaseUrl version platform arch d.url
  unfolding said
  said-IsReleaseUrl raw_line h = elim (Option-cases (asset_of_line version raw_line)) [
    | inl nothing ↦ ground (arith, nothing, h)
    | inr (asset, found) ↦ elim (Bool-cases (is_for platform arch asset)) [
      | inl meant ↦
          let (ext, archive, url) = asset_of_line-IsReleaseAsset version raw_line asset found in
          let (p, a) = is_for_sound platform arch asset meant in
          let same : asset.download ≡ d = ground (arith, found, meant, h) in
          (
            ext,
            archive,
            ap (λ x. x.url) (sym same)
                ∙ (url ∙ λ i.
                    asset_url version
                      (asset_filename version (record { platform = p i; arch = a i; ext = ext }))),
          )
      | inr other ↦ ground (arith, found, other, h)
    ]
  ]

  last_said-IsReleaseUrl :
      (lines : List Text)
      → last_said version platform arch lines ≡ some d
      → IsReleaseUrl version platform arch d.url
  unfolding last_said
  last_said-IsReleaseUrl [] h = cc
  last_said-IsReleaseUrl (raw_line ∷ lines) h =
      elim (Option-cases (last_said version platform arch lines)) [
        | inl nothing ↦ said-IsReleaseUrl raw_line (ground (arith, nothing, h))
        | inr (e, found) ↦ last_said-IsReleaseUrl lines (ground (arith, found, h))
      ]

  -- If the checksums file is accepted and the entry has a download for a platform and an architecture, its
  -- URL is the release page's URL of the file oras_<version>_<platform>_<arch>.tar.gz or .zip of
  -- that version.
  pub parse_checksums-IsReleaseUrl :
      (text : Text) (entry : Platforms)
      → parse_checksums text version ≡ ok entry
      → find_asset platform arch entry ≡ some d
      → IsReleaseUrl version platform arch d.url
  parse_checksums-IsReleaseUrl text entry h found =
      last_said-IsReleaseUrl (split 10 text)
        (sym (parse_checksums-last_said version platform arch text entry h) ∙ found)
