-- ===== src/Licenses/Outcome.antt =====
-- A whole run of the licence collector.
use mathlib.Core.List.{Forall₂}
use coherence_operator.Prelude.{
  ◌≡◌, ap, sym, ◌∙◌, List, [], ◌++◌, Option, some, Text, codes, length,
}
use coherence_operator.Runtime.{World, ok, ◌>>=◌, log, update, decimal}
use coherence_operator.Runtime.Laws.{>>=-eq-ok}
use coherence_operator.Updater.{settled, join_texts}
use coherence_operator.Updater.Sort.{sort}
use coherence_operator.Updater.Sort.Laws.{IsSorted}
use coherence_operator.Licenses.{
  Sources, gather, comes_after, or_default, read_text, collect_entries, write_entries,
  generate_licenses,
}
use coherence_operator.Licenses.Collect.{
  IsEntry, sort-IsSorted-comes_after, read_text-eq, collect_entries-IsEntry,
}

abbrev pub meta_path : Option Text → Text
meta_path = or_default (codes "dist/meta.json")

abbrev pub out_path : Option Text → Text
out_path = or_default (codes "dist/licenses.txt")

abbrev pub packages : List Text → List (Text × Text)
packages inputs = sort comes_after (gather inputs [])

module _ (src : Sources) (out : Text) where
  write_and_tell-files :
      (entries : List Text) (message : Text) (w v : World)
      → (write_entries src out entries >>= λ _. log message) w ≡ (ok tt, v)
      → v.files ≡ update w.files out (some (join_texts (codes "\n\n") entries ++ codes "\n"))
  unfolding write_entries log
  write_and_tell-files entries message w v h = ap (λ p. p.1.files) (sym h)

-- A run that returns has read the metafile, and has written one entry for each package that its inputs
-- lie in, in the order of the packages: the name, the licence of its package.json or UNKNOWN, and
-- the text of the first licence file that exists. No other file has changed.
pub generate_licenses-IsEntry :
    (src : Sources) (meta_arg out_arg : Option Text) (w v : World)
    → generate_licenses src meta_arg out_arg w ≡ (ok tt, v)
    → (raw : Text) × (inputs entries : List Text) × (w.files (meta_path meta_arg) ≡ some raw)
      × (src.parse_meta raw ≡ ok inputs)
      × IsSorted comes_after (packages inputs)
      × Forall₂ (IsEntry src w.files) (packages inputs) entries
      × (v.files
          ≡ update w.files
              (out_path out_arg)
              (some (join_texts (codes "\n\n") entries ++ codes "\n")))
unfolding generate_licenses
generate_licenses-IsEntry src meta_arg out_arg w v h =
    let out = out_path out_arg in
    let finish = λ (entries : List Text). write_entries src out entries >>= λ _. log (
      codes "wrote "
      ++ (out ++ (codes " with " ++ (decimal (length entries) ++ codes " package licenses")))) in
    let (raw, w1, was_read, h1) =
      >>=-eq-ok
        (λ raw. settled (src.parse_meta raw) >>= λ inputs.
          collect_entries src (packages inputs) >>= finish)
        (read_text src (meta_path meta_arg)) w h in
    let (inputs, w2, parsed, h2) =
      >>=-eq-ok (λ inputs. collect_entries src (packages inputs) >>= finish)
        (settled (src.parse_meta raw)) w1 h1 in
    let (entries, w3, collected, h3) =
      >>=-eq-ok finish (collect_entries src (packages inputs)) w2 h2 in
    let (there, same1) = read_text-eq src (meta_path meta_arg) raw w w1 was_read in
    let same2 = same1 ∙ ap (λ p. p.1) parsed in
    let (are_entries, same3) =
      collect_entries-IsEntry src (packages inputs) entries w2 w3 collected in
    (
      raw,
      inputs,
      entries,
      there,
      ap (λ p. p.0) parsed,
      sort-IsSorted-comes_after (gather inputs []),
      rw same2 are_entries,
      write_and_tell-files src out entries _ w3 v h3
          ∙ ap (λ u. update u.files out (some (join_texts (codes "\n\n") entries ++ codes "\n")))
              (sym (same2 ∙ same3)),
    )
