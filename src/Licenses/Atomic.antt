-- ===== src/Licenses/Atomic.antt =====
-- What the licence collector has written when it fails: nothing.
use coherence_operator.Prelude.{
  ◌≡◌, refl, ap, List, [], ◌∷◌, ◌++◌, Text, codes, length, Option, Option-cases, inl, inr,
}
use coherence_operator.Runtime.{World, Thrown, ok, throws, log, decimal, ◌>>=◌}
use coherence_operator.Runtime.Obey.{>>=-Obeys}
use coherence_operator.Runtime.Frame.{Frames, IsAtomic, settled-Frames, >>=-IsAtomic, keeping_law}
use coherence_operator.Updater.Sort.{sort}
use coherence_operator.Licenses.{
  Sources, gather, comes_after, or_default, license_files, read_text, read_license, collect_entry,
  collect_entries, write_entries, generate_licenses,
}

abbrev contents : World → Text → Option Text
contents w = w.files

module _ (src : Sources) where
  read_text-Frames : (path : Text) → Frames contents (read_text src path)
  unfolding read_text
  read_text-Frames path = record {
    obeys = λ w. elim (Option-cases (w.files path)) [
      | inl e ↦ rw (e, read_text) refl
      | inr (content, e) ↦ rw (e, read_text) refl
    ];
  }

  read_license-same :
      (dir : Text) (candidates : List Text) (w : World) → (read_license src dir candidates w).1 ≡ w
  unfolding read_license
  read_license-same dir [] w = refl
  read_license-same dir (c ∷ candidates) w = elim (Option-cases (w.files (src.join dir c))) [
    | inl e ↦ rw (e, read_license) (read_license-same dir candidates w)
    | inr (content, e) ↦ rw (e, read_license) refl
  ]

  collect_entry-Frames : (p : Text × Text) → Frames contents (collect_entry src p)
  unfolding collect_entry
  collect_entry-Frames (name, dir) = >>=-Obeys (read_text-Frames _) λ raw.
      >>=-Obeys (settled-Frames contents λ w. src.parse_package raw) λ license.
        >>=-Obeys {m = read_license src dir license_files}
          (record { obeys = λ w. ap contents (read_license-same dir license_files w) })
          λ text. settled-Frames contents λ w.
            ok (
              name
              ++ (codes "\n" ++ (or_default (codes "UNKNOWN") license ++ (codes "\n" ++ text))))

  collect_entries-Frames : (ps : List (Text × Text)) → Frames contents (collect_entries src ps)
  unfolding collect_entries
  collect_entries-Frames [] = settled-Frames contents λ w. ok []
  collect_entries-Frames (p ∷ ps) = >>=-Obeys (collect_entry-Frames p) λ entry.
      >>=-Obeys (collect_entries-Frames ps)
        λ entries. settled-Frames contents λ w. ok (entry ∷ entries)

  finish-IsAtomic :
      (out : Text)
      → (entries : List Text) → (message : Text)
      → IsAtomic contents (write_entries src out entries >>= λ _. log message)
  unfolding write_entries log
  finish-IsAtomic out entries message = record {
    atomic = λ e w v h. let bad = ap (λ p. p.0) h in cc;
  }

  -- If the licence collector throws (for want of the metafile or of a package.json, or because one
  -- cannot be parsed), no file has changed: it writes no incomplete list.
  pub generate_licenses-throws :
      (meta_arg out_arg : Option Text) (w v : World) (e : Thrown)
      → generate_licenses src meta_arg out_arg w ≡ (throws e, v)
      → v.files ≡ w.files
  unfolding generate_licenses
  generate_licenses-throws meta_arg out_arg w v e h =
      let all =
        >>=-IsAtomic contents (read_text-Frames (or_default (codes "dist/meta.json") meta_arg))
          λ raw. >>=-IsAtomic contents (settled-Frames contents λ w. src.parse_meta raw) λ inputs.
            >>=-IsAtomic contents (collect_entries-Frames (sort comes_after (gather inputs [])))
              λ entries. finish-IsAtomic (or_default (codes "dist/licenses.txt") out_arg) entries (
                codes "wrote "
                ++ (or_default (codes "dist/licenses.txt") out_arg
                    ++ (codes " with "
                        ++ (decimal (length entries) ++ codes " package licenses")))) in
      all.atomic e w v h
