-- ===== src/Updater/Checksums.antt =====
-- `parseChecksums`: the downloads that the checksums file of a release names. The dots of the version
-- are the only characters that the script escapes in its regular expression; the model takes the
-- version literally, as it is for a version without other special characters.
pub mod Objects
pub mod Lookup
pub mod Names
pub mod Urls
mod Tests
use coherence_operator.Prelude.{
  ℕ, List, [], ◌∷◌, ◌++◌, Option, none, some, Bool, true, false, not, ◌&&◌, ◌||◌, Text, codes,
  text_eq, is_empty, starts_with, trim, is_space, split, ◌==◌, if◌then◌else◌,
}
use coherence_operator.Runtime.{Result, ok, throws, pending, plain_error}
use coherence_operator.Release.Defs.{Download, Arches, Platforms, property}
use coherence_operator.Release.{is_inherited}

-- `line.split(/\s+/)`; the flag says whether the last character was white space.
unfoldable pub fields_from : Bool → Text → Text → List Text
fields_from gap field [] = field ∷ []
fields_from gap field (c ∷ s) = elim (is_space c) [
  | true ↦ elim gap [ true ↦ fields_from true field s | false ↦ field ∷ fields_from true [] s ]
  | false ↦ fields_from false (field ++ c ∷ []) s
]

-- The text before and behind the first of a character.
unfoldable pub cut_at : ℕ → Text → Option (Text × Text)
cut_at c [] = none
cut_at c (d ∷ s) = elim (d == c) [
  | true ↦ some ([], s)
  | false ↦ elim (cut_at c s) [ none ↦ none | some (before, behind) ↦ some (d ∷ before, behind) ]
]

unfoldable pub without_prefix : Text → Text → Option Text
without_prefix [] s = some s
without_prefix (c ∷ p) [] = none
without_prefix (c ∷ p) (d ∷ s) = if c == d then without_prefix p s else none

-- The groups of the regular expression: platform, architecture and extension.
pub record AssetName : Type 0 where
  pub platform : Text
  pub arch : Text
  pub ext : Text

abbrev pub is_ext : Text → Bool
is_ext ext = text_eq ext (codes "tar.gz") || text_eq ext (codes "zip")

-- `([^.]+)\.(tar\.gz|zip)$`, behind the platform.
unfoldable pub match_arch : Text → Text → Option AssetName
unfolding cut_at
match_arch platform s = elim (cut_at b'.' s) [
  | none ↦ none
  | some (arch, ext) ↦
      if not (is_empty arch) && is_ext ext
      then some (record { platform = platform; arch = arch; ext = ext })
      else none
]

-- `([^_]+)_`, and what follows it.
unfoldable pub match_platform : Text → Option AssetName
unfolding match_arch
match_platform s = elim (cut_at b'_' s) [
  | none ↦ none
  | some (platform, rest) ↦ if not (is_empty platform) then match_arch platform rest else none
]

unfoldable pub match_filename : Text → Text → Option AssetName
unfolding match_platform without_prefix
match_filename version filename =
    elim (without_prefix (codes "oras_" ++ (version ++ codes "_")) filename) [
      | none ↦ none
      | some rest ↦ match_platform rest
    ]

unfoldable pub asset_url : Text → Text → Text
asset_url version filename =
    codes "https://github.com/oras-project/oras/releases/download/v"
    ++ (version ++ (codes "/" ++ filename))

-- What a line stands for: platform, architecture and download.
pub record Asset : Type 0 where
  pub platform : Text
  pub arch : Text
  pub download : Download

unfoldable pub asset_of_fields : Text → List Text → Option Asset
unfolding match_filename asset_url
asset_of_fields version [] = none
asset_of_fields version (checksum ∷ []) = none
asset_of_fields version (checksum ∷ filename ∷ rest) = elim (match_filename version filename) [
  | none ↦ none
  | some name ↦ some (record {
    platform = name.platform;
    arch = name.arch;
    download = record { checksum = checksum; url = asset_url version filename };
  })
]

unfoldable pub asset_of_line : Text → Text → Option Asset
unfolding asset_of_fields fields_from
asset_of_line version raw_line =
    let line = trim raw_line in
    if is_empty line then none else asset_of_fields version (fields_from false [] line)

-- `object[key] = value`: an old key keeps its place. The key `__proto__` makes no property.
unfoldable pub set_property : {V : Type 0} → Text → V → List (Text × V) → List (Text × V)
set_property key v [] = (key, v) ∷ []
set_property key v ((k, u) ∷ rest) =
    if text_eq k key then (k, v) ∷ rest else (k, u) ∷ set_property key v rest

unfoldable pub arches_of : Text → Platforms → Arches
arches_of platform entry = elim (property platform entry) [ none ↦ [] | some arches ↦ arches ]

unfoldable pub set_arch : Text → Download → Arches → Arches
unfolding set_property
set_arch arch d arches =
    if text_eq arch (codes "__proto__") then arches else set_property arch d arches

-- `entry[platform] ??= {}` and the assignment behind it. Where the platform is a name that every object
-- inherits, both go to what is inherited, and the entry stays.
unfoldable pub add_asset : Asset → Platforms → Platforms
unfolding set_arch arches_of set_property
add_asset asset entry =
    if is_inherited asset.platform
    then entry
    else set_property asset.platform
        (set_arch asset.arch asset.download (arches_of asset.platform entry)) entry

-- One round of the loop, and the loop.
unfoldable pub add_line : Text → Text → Platforms → Platforms
unfolding add_asset asset_of_line
add_line version raw_line entry = elim (asset_of_line version raw_line) [
  | none ↦ entry
  | some asset ↦ add_asset asset entry
]

unfoldable pub add_lines : Text → List Text → Platforms → Platforms
unfolding add_line
add_lines version [] entry = entry
add_lines version (raw_line ∷ lines) entry =
    add_lines version lines (add_line version raw_line entry)

unfoldable pub no_artifacts : Text → Text
no_artifacts version = codes "No release artifacts parsed from checksums file for v" ++ version

unfoldable pub parse_checksums : Text → Text → Result Platforms
unfolding add_lines
parse_checksums text version =
    let entry = add_lines version (split 10 text) [] in
    if is_empty entry then throws (plain_error (no_artifacts version)) else ok entry
