-- ===== src/Licenses.antt =====
-- scripts/generate-licenses.js of .github/actions/setup-oras-2.0.1: the script that collects the
-- licences of the packages in the bundle. A candidate for the text of a licence is a file, if it exists, and a write
-- does not fail.
pub mod Paths
pub mod Gather
pub mod Collect
pub mod Outcome
pub mod Atomic
mod Tests
use coherence_operator.Prelude.{
  ℕ, List, [], ◌∷◌, ◌++◌, Option, none, some, Bool, true, false, ◌&&◌, ◌||◌, Text, codes, is_empty,
  is_space, length, ltb, ◌==◌, if◌then◌else◌,
}
use coherence_operator.Runtime.{
  World, Thrown, Result, ok, throws, M, ◌>>=◌, ◌>>◌, pure, log, update, decimal,
}
use coherence_operator.Release.Defs.{property}
use coherence_operator.Release.{is_inherited}
use coherence_operator.Updater.{settled, join_texts}
use coherence_operator.Updater.Sort.{sort}
use coherence_operator.Licenses.Paths.{Package, package_of}

-- Node.js: `parse_meta` gives the keys of `inputs` in the metafile, `parse_package` the licence that a
-- package.json names as a text, none if there is none.
pub record Sources : Type 0 where
  pub join : Text → Text → Text
  pub parse_meta : Text → Result (List Text)
  pub parse_package : Text → Result (Option Text)
  pub read_error : Text → Thrown

-- `if (!pkgPaths[pkgName]) pkgPaths[pkgName] = pkgDir`: a folder is never the empty text, and what
-- every object inherits is not empty either.
unfoldable pub add_package : Package → List (Text × Text) → List (Text × Text)
add_package pkg paths = if is_inherited pkg.name then paths else elim (property pkg.name paths) [
  | none ↦ paths ++ (pkg.name, pkg.dir) ∷ []
  | some dir ↦ paths
]

-- The loop over the inputs.
unfoldable pub gather : List Text → List (Text × Text) → List (Text × Text)
unfolding add_package
gather [] paths = paths
gather (input_file ∷ rest) paths = elim (package_of input_file) [
  | none ↦ gather rest paths
  | some pkg ↦ gather rest (add_package pkg paths)
]

-- The default order of `sort`, in which an array of two texts is the text with a comma between them.
unfoldable pub text_after : Text → Text → Bool
text_after [] t = false
text_after (c ∷ s) [] = true
text_after (c ∷ s) (d ∷ t) = ltb d c || (c == d && text_after s t)

abbrev pub as_text : Text × Text → Text
as_text p = p.0 ++ (codes "," ++ p.1)

unfoldable pub comes_after : Text × Text → Text × Text → Bool
unfolding text_after
comes_after p q = text_after (as_text p) (as_text q)

unfoldable pub trim_end : Text → Text
trim_end [] = []
trim_end (c ∷ s) = let rest = trim_end s in if is_empty rest && is_space c then [] else c ∷ rest

unfoldable pub license_files : List Text
license_files =
    codes "LICENSE"
    ∷ codes "LICENSE.md"
    ∷ codes "LICENSE.txt"
    ∷ codes "LICENCE"
    ∷ codes "license"
    ∷ codes "license.md"
    ∷ []

-- `value || fallback`.
unfoldable pub or_default : Text → Option Text → Text
or_default fallback none = fallback
or_default fallback (some value) = if is_empty value then fallback else value

module _ (src : Sources) where
  unfoldable pub read_text : Text → M Text
  read_text path w = elim (w.files path) [
    | none ↦ (throws (src.read_error path), w)
    | some content ↦ (ok content, w)
  ]

  -- The loop over the candidates.
  unfoldable pub read_license : Text → List Text → M Text
  unfolding trim_end
  read_license dir [] w = (ok [], w)
  read_license dir (candidate ∷ rest) w = elim (w.files (src.join dir candidate)) [
    | none ↦ read_license dir rest w
    | some content ↦ (ok (trim_end content), w)
  ]

  unfoldable pub collect_entry : Text × Text → M Text
  unfolding read_text read_license
  collect_entry (name, dir) = do
    raw ← read_text (src.join dir (codes "package.json"))
    license ← settled (src.parse_package raw)
    text ← read_license dir license_files
    pure (name ++ (codes "\n" ++ (or_default (codes "UNKNOWN") license ++ (codes "\n" ++ text))))

  unfoldable pub collect_entries : List (Text × Text) → M (List Text)
  unfolding collect_entry
  collect_entries [] = pure []
  collect_entries (pkg ∷ rest) = do
    entry ← collect_entry pkg
    entries ← collect_entries rest
    pure (entry ∷ entries)

  unfoldable pub write_entries : Text → List Text → M (Unit {0})
  write_entries out_path entries w = (
    ok tt,
    record w {
      files = update w.files out_path (some (join_texts (codes "\n\n") entries ++ codes "\n"));
    },
  )

  -- The whole script; the arguments are `process.argv[2]` and `process.argv[3]`.
  unfoldable pub generate_licenses : Option Text → Option Text → M (Unit {0})
  generate_licenses meta_arg out_arg = do
    raw ← read_text (or_default (codes "dist/meta.json") meta_arg)
    inputs ← settled (src.parse_meta raw)
    entries ← collect_entries (sort comes_after (gather inputs []))
    write_entries (or_default (codes "dist/licenses.txt") out_arg) entries
    log (
        codes "wrote "
        ++ (or_default (codes "dist/licenses.txt") out_arg
            ++ (codes " with " ++ (decimal (length entries) ++ codes " package licenses"))))
