-- ===== src/Updater/Tests.antt =====
-- Runs of the script, and the theorems about it at concrete inputs.
use coherence_operator.Prelude.{
  ◌≡◌, refl, List, [], ◌∷◌, none, some, true, false, Text, codes, text_eq, split, trim, starts_with,
  is_space, if◌then◌else◌, arith, text_eq_iff, ◌-ℤ◌, All,
}
use coherence_operator.Runtime.{
  World, ok, throws, Thrown, answered, complete, plain_error, update, log, wrote_to_stderr,
}
use coherence_operator.Release.Defs.{download, Platforms, Releases, property}
use coherence_operator.Release.{is_inherited, inherited_names}
use coherence_operator.Updater.{
  Upstream, GhRelease, main, update_releases, ask, read_reply, body_text, fetch_text,
  fetch_version_entry, versions_of, list_upstream_versions, is_in, keys, newer_than,
  missing_versions, add_versions, pick_all, sorted, join_texts, read_file, overwrite_file,
  tell_runner, publish, add_missing, checksums_url, listing_url,
}
use coherence_operator.Updater.Checksums.{
  parse_checksums, no_artifacts, add_lines, add_line, add_asset, asset_of_line, asset_of_fields,
  fields_from, match_filename, match_platform, match_arch, without_prefix, cut_at, set_property,
  set_arch, arches_of, asset_url,
}
use coherence_operator.Updater.Versions.{
  compare_semver, is_newer, is_release_tag, is_release, is_number, without_v, to_part,
  compare_parts, differs, minus, decimal_value,
}
use coherence_operator.Updater.Sort.{sort, insert, last}
use coherence_operator.Updater.Atomic.{kept, IsStopped, update_releases-throws}
use coherence_operator.Updater.Outcome.{IsRun, main-IsRun}
use coherence_operator.Updater.Files.{IsApart}
use coherence_operator.Updater.Wanted.{IsWanted}
use coherence_operator.Updater.Newer.{IsNewest, missing_versions-IsNewest}

abbrev one_platform : Platforms
one_platform = (codes "linux", (codes "amd64", download "aa" "url") ∷ []) ∷ []

abbrev old_releases : Releases
old_releases = (codes "1.3.1", one_platform) ∷ []

abbrev listing : List GhRelease
listing =
    record { draft = false; prerelease = false; tag_name = codes "v1.3.2" }
    ∷ record { draft = false; prerelease = true; tag_name = codes "v1.4.0" }
    ∷ record { draft = false; prerelease = false; tag_name = codes "v1.3.1" }
    ∷ record { draft = false; prerelease = false; tag_name = codes "v1.3.0" }
    ∷ []

abbrev bad_json : Thrown
bad_json = plain_error (codes "bad JSON")

-- Each request for a checksums file gets the given text.
abbrev upstream : Text → Upstream
upstream sums = record {
  other_number = λ s. none;
  fetch = λ w url.
      answered 200 (codes "OK") (complete (if text_eq url listing_url then codes "list" else sums));
  parse_releases = λ raw. if text_eq raw (codes "old") then ok old_releases else throws bad_json;
  stringify = λ releases. join_texts (codes "+") (keys releases);
  parse_listing = λ text. if text_eq text (codes "list") then ok listing else throws bad_json;
  releases_json = codes "releases.json";
  read_error = λ path. plain_error (codes "ENOENT");
  write_error = λ w path. none;
  stack = λ e. codes "Error";
}

abbrev good : Upstream
good = upstream (codes "aa  oras_1.3.2_linux_amd64.tar.gz\n")

abbrev empty : Upstream
empty = upstream (codes "nothing\n")

abbrev start : World
start = record {
  env = update (λ _. none) (codes "GITHUB_OUTPUT") (some (codes "out"));
  files = update (λ _. none) (codes "releases.json") (some (codes "old"));
  exit_code = none;
  trace = [];
}

added :
    ((main good [] start).0 ≡ ok tt)
    × ((main good [] start).1.files (codes "releases.json") ≡ some (codes "1.3.1+1.3.2\n"))
    × ((main good [] start).1.files (codes "out") ≡ some (codes "ADDED_VERSIONS=1.3.2\n"))
unfolding main ask read_reply body_text fetch_text fetch_version_entry versions_of
    list_upstream_versions is_in keys newer_than missing_versions add_versions pick_all sorted
    join_texts read_file overwrite_file tell_runner publish add_missing checksums_url listing_url
    parse_checksums add_lines add_line add_asset asset_of_line asset_of_fields fields_from
    match_filename match_platform match_arch without_prefix cut_at set_property set_arch arches_of
    asset_url compare_semver is_newer is_release_tag is_release is_number without_v to_part
    compare_parts differs minus decimal_value sort insert last log property text_eq split trim
    starts_with is_space is_inherited inherited_names ◌-ℤ◌
added = (refl, refl, refl)

apart : IsApart good start
unfolding text_eq
apart e =
    let bad : false ≡ true = (text_eq_iff (codes "out") (codes "releases.json")).1 e in
    ground (arith, bad)

main-IsRun_example :
    (raw : Text) × (old : Releases) × (missing : List Text) × (start.files (codes "releases.json")
      ≡ some raw)
    × (good.parse_releases raw ≡ ok old)
    × IsWanted good [] old start missing
    × IsRun good missing raw old (main good [] start).1
main-IsRun_example =
    main-IsRun good [] start (main good [] start).1 apart (λ i. (added.0 i, (main good [] start).1))

found : (missing_versions good [] old_releases start).0 ≡ ok (codes "1.3.2" ∷ [])
unfolding main ask read_reply body_text fetch_text fetch_version_entry versions_of
    list_upstream_versions is_in keys newer_than missing_versions add_versions pick_all sorted
    join_texts read_file overwrite_file tell_runner publish add_missing checksums_url listing_url
    parse_checksums add_lines add_line add_asset asset_of_line asset_of_fields fields_from
    match_filename match_platform match_arch without_prefix cut_at set_property set_arch arches_of
    asset_url compare_semver is_newer is_release_tag is_release is_number without_v to_part
    compare_parts differs minus decimal_value sort insert last log property text_eq split trim
    starts_with is_space is_inherited inherited_names ◌-ℤ◌
found = refl

missing_versions-IsNewest_example : All (IsNewest good old_releases) (codes "1.3.2" ∷ [])
unfolding is_release is_number split keys
missing_versions-IsNewest_example =
    missing_versions-IsNewest good old_releases (codes "1.3.2" ∷ []) start
      (missing_versions good [] old_releases start).1 (refl, tt)
      (λ i. (found i, (missing_versions good [] old_releases start).1))

abbrev rejected : Thrown
rejected = plain_error (codes "No release artifacts parsed from checksums file for v1.3.2")

-- The checksums file that the second upstream gives names no download.
nothing_parsed : (main empty [] start).0 ≡ throws rejected
unfolding main ask read_reply body_text fetch_text fetch_version_entry versions_of
    list_upstream_versions is_in keys newer_than missing_versions add_versions pick_all sorted
    join_texts read_file overwrite_file tell_runner publish add_missing checksums_url listing_url
    parse_checksums no_artifacts add_lines add_line add_asset asset_of_line asset_of_fields
    fields_from match_filename match_platform match_arch without_prefix cut_at set_property set_arch
    arches_of asset_url compare_semver is_newer is_release_tag is_release is_number without_v
    to_part compare_parts differs minus decimal_value sort insert last log property text_eq split
    trim starts_with is_space is_inherited inherited_names ◌-ℤ◌
nothing_parsed = refl

update_releases-throws_example :
    (update_releases empty [] start ≡ (
      ok tt,
      record (main empty [] start).1 {
        exit_code = some 1;
        trace = wrote_to_stderr (codes "Error\n") ∷ (main empty [] start).1.trace;
      },
    ))
    × IsStopped empty (kept start) (main empty [] start).1 rejected
update_releases-throws_example =
    update_releases-throws empty [] start (main empty [] start).1 rejected
      (λ i. (nothing_parsed i, (main empty [] start).1))
