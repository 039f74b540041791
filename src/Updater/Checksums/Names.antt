-- ===== src/Updater/Checksums/Names.antt =====
-- The downloads that `parseChecksums` returns carry the URL of their own file.
use coherence_operator.Prelude.{
  ℕ, ◌≡◌, ◌∙◌, ap, ap₂, sym, trim, ◌⊎◌, inl, inr, [], ◌∷◌, ◌++◌, List, some, false, Text, codes,
  arith, Option-cases, Bool-cases, is_empty, text_eq_iff, ◌==◌,
}
use coherence_operator.Updater.Checksums.{
  cut_at, without_prefix, AssetName, match_arch, match_platform, match_filename, asset_url, Asset,
  asset_of_fields, asset_of_line, fields_from,
}

cut_at-spells :
    (c : ℕ)
    → (s before behind : Text) → cut_at c s ≡ some (before, behind)
    → s ≡ before ++ c ∷ behind
unfolding cut_at
cut_at-spells c [] before behind h = cc
cut_at-spells c (d ∷ s) before behind h = elim (Bool-cases (d == c)) [
  | inl here ↦ ground (arith, here, h)
  | inr later ↦ elim (Option-cases (cut_at c s)) [
    | inl absent ↦ ground (arith, later, absent, h)
    | inr ((b, r), found) ↦ ground (arith, later, found, h, cut_at-spells c s b r found)
  ]
]

without_prefix-spells : (p s rest : Text) → without_prefix p s ≡ some rest → s ≡ p ++ rest
unfolding without_prefix
without_prefix-spells [] s rest h = cc
without_prefix-spells (c ∷ p) [] rest h = cc
without_prefix-spells (c ∷ p) (d ∷ s) rest h = ground (arith, h, without_prefix-spells p s rest)

-- The file name of a release's archive.
abbrev pub asset_filename : Text → AssetName → Text
asset_filename version name =
    (codes "oras_" ++ (version ++ codes "_"))
    ++ (name.platform ++ b'_' ∷ (name.arch ++ b'.' ∷ name.ext))

abbrev pub IsArchive : Text → Type 0
IsArchive ext = (ext ≡ codes "tar.gz") ⊎ (ext ≡ codes "zip")

match_arch-spells :
    (platform s : Text)
    → (name : AssetName) → match_arch platform s ≡ some name
    → (s ≡ name.arch ++ b'.' ∷ name.ext) × (name.platform ≡ platform) × IsArchive name.ext
unfolding match_arch
match_arch-spells platform s name h = elim (Option-cases (cut_at b'.' s)) [
  | inl absent ↦ ground (arith, absent, h)
  | inr ((arch, ext), found) ↦ (
    ground (arith, found, h, cut_at-spells b'.' s arch ext found),
    ground (arith, found, h),
    ground (arith, found, h, text_eq_iff ext (codes "tar.gz"), text_eq_iff ext (codes "zip")),
  )
]

match_platform-spells :
    (s : Text)
    → (name : AssetName) → match_platform s ≡ some name
    → (s ≡ name.platform ++ b'_' ∷ (name.arch ++ b'.' ∷ name.ext)) × IsArchive name.ext
unfolding match_platform
match_platform-spells s name h = elim (Option-cases (cut_at b'_' s)) [
  | inl absent ↦ ground (arith, absent, h)
  | inr ((platform, rest), found) ↦
      let (arch, same, archive) = match_arch-spells platform rest name (ground (arith, found, h)) in
      (
        cut_at-spells b'_' s platform rest found
            ∙ ap₂ (λ (p r : Text). p ++ b'_' ∷ r) (sym same) arch,
        archive,
      )
]

match_filename-spells :
    (version filename : Text)
    → (name : AssetName) → match_filename version filename ≡ some name
    → (filename ≡ asset_filename version name) × IsArchive name.ext
unfolding match_filename
match_filename-spells version filename name h =
    elim (Option-cases (without_prefix (codes "oras_" ++ (version ++ codes "_")) filename)) [
      | inl absent ↦ ground (arith, absent, h)
      | inr (rest, found) ↦
          let (spelt, archive) = match_platform-spells rest name (ground (arith, found, h)) in
          (
            without_prefix-spells (codes "oras_" ++ (version ++ codes "_")) filename rest found
                ∙ ap (λ r. (codes "oras_" ++ (version ++ codes "_")) ++ r) spelt,
            archive,
          )
    ]

-- What a download of a version for a platform and an architecture looks like.
abbrev pub IsReleaseAsset : Text → Asset → Type 0
IsReleaseAsset version asset =
    (ext : Text) × IsArchive ext
    × (asset.download.url
        ≡ asset_url version (
            asset_filename version
              (record { platform = asset.platform; arch = asset.arch; ext = ext })))

asset_of_fields-IsReleaseAsset :
    (version : Text)
    → (fields : List Text) → (asset : Asset) → asset_of_fields version fields ≡ some asset
    → IsReleaseAsset version asset
unfolding asset_of_fields
asset_of_fields-IsReleaseAsset version [] asset h = cc
asset_of_fields-IsReleaseAsset version (checksum ∷ []) asset h = cc
asset_of_fields-IsReleaseAsset version (checksum ∷ filename ∷ rest) asset h =
    elim (Option-cases (match_filename version filename)) [
      | inl absent ↦ ground (arith, absent, h)
      | inr (name, found) ↦
          let (spelt, archive) = match_filename-spells version filename name found in
          (name.ext, archive, ground (arith, found, h, spelt))
    ]

pub asset_of_line-IsReleaseAsset :
    (version raw_line : Text)
    → (asset : Asset) → asset_of_line version raw_line ≡ some asset
    → IsReleaseAsset version asset
unfolding asset_of_line
asset_of_line-IsReleaseAsset version raw_line asset h =
    elim (Bool-cases (is_empty (trim raw_line))) [
      | inl blank ↦ ground (arith, blank, h)
      | inr full ↦
          asset_of_fields-IsReleaseAsset version (fields_from false [] (trim raw_line)) asset
            (ground (arith, full, h))
    ]
