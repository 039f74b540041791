-- ===== src/Updater/Checksums/Tests.antt =====
-- A checksums file, and the theorems about its parser at it.
use coherence_operator.Prelude.{
  ◌≡◌, refl, [], ◌∷◌, ◌++◌, Text, codes, split, trim, is_space, text_eq,
}
use coherence_operator.Runtime.{ok}
use coherence_operator.Release.{is_inherited, inherited_names}
use coherence_operator.Release.Defs.{Download, Platforms, property}
use coherence_operator.Updater.Checksums.{
  parse_checksums, add_lines, add_line, add_asset, asset_of_line, asset_of_fields, fields_from,
  match_filename, match_platform, match_arch, without_prefix, cut_at, set_property, set_arch,
  arches_of, asset_url,
}
use coherence_operator.Updater.Checksums.Objects.{find_asset}
use coherence_operator.Updater.Checksums.Lookup.{last_said, parse_checksums-last_said}
use coherence_operator.Updater.Checksums.Urls.{IsReleaseUrl, parse_checksums-IsReleaseUrl}

abbrev sums : Text
sums =
    codes "aa  oras_1.3.1_linux_amd64.tar.gz\r\n"
    ++ (codes "bb *oras_1.3.1_windows_amd64.zip\n"
        ++ (codes "cc  oras_1.3.1_linux_amd64.zip\n" ++ codes "dd  oras_1.3.0_linux_arm64.zip\n"))

abbrev url : Text
url =
    codes "https://github.com/oras-project/oras/releases/download/v1.3.1/oras_1.3.1_linux_amd64.zip"

abbrev zipped : Download
zipped = record { checksum = codes "cc"; url = url }

abbrev parsed_entry : Platforms
parsed_entry = (codes "linux", (codes "amd64", zipped) ∷ []) ∷ []

-- The line with the star before its name is not taken.
parsed : parse_checksums sums (codes "1.3.1") ≡ ok parsed_entry
unfolding parse_checksums add_lines add_line add_asset asset_of_line asset_of_fields fields_from
    match_filename match_platform match_arch without_prefix cut_at set_property set_arch arches_of
    asset_url split trim is_space text_eq is_inherited inherited_names property
parsed = refl

parse_checksums-last_said_example :
    find_asset (codes "linux") (codes "amd64") parsed_entry
    ≡ last_said (codes "1.3.1") (codes "linux") (codes "amd64") (split 10 sums)
parse_checksums-last_said_example =
    parse_checksums-last_said (codes "1.3.1") (codes "linux") (codes "amd64") sums parsed_entry
      parsed

parse_checksums-IsReleaseUrl_example :
    IsReleaseUrl (codes "1.3.1") (codes "linux") (codes "amd64") url
unfolding find_asset property text_eq
parse_checksums-IsReleaseUrl_example =
    parse_checksums-IsReleaseUrl (codes "1.3.1") (codes "linux") (codes "amd64") zipped sums
      parsed_entry parsed refl
