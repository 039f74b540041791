-- ===== src/Licenses/Tests.antt =====
-- Runs of the licence collector, and the theorems about it at concrete inputs.
use mathlib.Core.List.{Forall₂}
use coherence_operator.Prelude.{
  ◌≡◌, refl, List, [], ◌∷◌, ◌++◌, none, some, Text, codes, text_eq, split, starts_with, is_space,
}
use coherence_operator.Runtime.{World, ok, update, log, plain_error, throws}
use coherence_operator.Release.{is_inherited, inherited_names}
use coherence_operator.Release.Defs.{property}
use coherence_operator.Updater.{join_texts}
use coherence_operator.Updater.Sort.{sort, insert}
use coherence_operator.Updater.Sort.Laws.{IsSorted}
use coherence_operator.Licenses.{
  Sources, add_package, gather, text_after, comes_after, trim_end, license_files, or_default,
  read_text, read_license, collect_entry, collect_entries, write_entries, generate_licenses,
}
use coherence_operator.Licenses.Paths.{
  Package, package_of, find_package, package_here, name_at, scoped,
}
use coherence_operator.Licenses.Collect.{IsEntry}
use coherence_operator.Licenses.Atomic.{generate_licenses-throws}
use coherence_operator.Licenses.Outcome.{packages, meta_path, out_path, generate_licenses-IsEntry}

abbrev nested : Text
nested = codes "node_modules/a/node_modules/@b/c/index.js"

abbrev inner : Package
inner = record { name = codes "@b/c"; dir = codes "node_modules/a/node_modules/@b/c" }

nested_package :
    (package_of nested ≡ some inner)
    × (package_of (codes "src/setup.ts") ≡ none)
    × (package_of (codes "my_node_modules/a/b.js") ≡ none)
unfolding package_of find_package package_here name_at scoped split text_eq starts_with
nested_package = (refl, refl, refl)

abbrev files_in : List Text
files_in =
    codes "src/setup.ts"
    ∷ codes "node_modules/semver/index.js"
    ∷ nested
    ∷ codes "node_modules/a/node_modules/semver/index.js"
    ∷ []

abbrev sources : Sources
sources = record {
  join = λ dir name. dir ++ (codes "/" ++ name);
  parse_meta = λ raw. ok files_in;
  parse_package = λ raw. ok (some raw);
  read_error = λ path. plain_error (codes "ENOENT");
}

abbrev start : World
start = record {
  env = λ _. none;
  files =
      update
        (update
          (update (update (λ _. none) (codes "dist/meta.json") (some (codes "{}")))
            (codes "node_modules/semver/package.json") (some (codes "ISC")))
          (codes "node_modules/semver/LICENSE") (some (codes "text \n")))
        (codes "node_modules/a/node_modules/@b/c/package.json") (some []);
  exit_code = none;
  trace = [];
}

written :
    ((generate_licenses sources none none start).0 ≡ ok tt)
    × ((generate_licenses sources none none start).1.files (codes "dist/licenses.txt")
        ≡ some (codes "@b/c\nUNKNOWN\n\n\nsemver\nISC\ntext\n"))
unfolding add_package gather text_after comes_after trim_end license_files or_default read_text
    read_license collect_entry collect_entries write_entries generate_licenses package_of
    find_package package_here name_at scoped split text_eq starts_with is_inherited inherited_names
    property join_texts sort insert log is_space
written = (refl, refl)

generate_licenses-IsEntry_example :
    (raw : Text) × (inputs entries : List Text) × (start.files (meta_path none) ≡ some raw)
    × (sources.parse_meta raw ≡ ok inputs)
    × IsSorted comes_after (packages inputs)
    × Forall₂ (IsEntry sources start.files) (packages inputs) entries
    × ((generate_licenses sources none none start).1.files
        ≡ update start.files
            (out_path none)
            (some (join_texts (codes "\n\n") entries ++ codes "\n")))
generate_licenses-IsEntry_example =
    generate_licenses-IsEntry sources none none start (generate_licenses sources none none start).1
      (λ i. (written.0 i, (generate_licenses sources none none start).1))

-- A world without any file: the metafile cannot be read.
abbrev nothing_there : World
nothing_there = record start { files = λ _. none }

unreadable :
    (generate_licenses sources none none nothing_there).0 ≡ throws (plain_error (codes "ENOENT"))
unfolding generate_licenses read_text
unreadable = refl

generate_licenses-throws_example :
    (generate_licenses sources none none nothing_there).1.files ≡ nothing_there.files
generate_licenses-throws_example =
    generate_licenses-throws sources none none nothing_there
      (generate_licenses sources none none nothing_there).1 (plain_error (codes "ENOENT"))
      (λ i. (unreadable i, (generate_licenses sources none none nothing_there).1))
