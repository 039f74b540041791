-- ===== src/Updater/Files.antt =====
-- What the script does to the file of the releases and to the runner's output file.
use coherence_operator.Prelude.{
  ◌≡◌, ◌≢◌, refl, ◌∙◌, ap, sym, List, ◌++◌, Option, none, some, Text, codes, Bool-cases,
  Option-cases, inl, inr, arith, is_empty,
}
use coherence_operator.Runtime.{World, update, Result, ok, throws, M, log, or_empty}
use coherence_operator.Runtime.Laws.{>>=-eq-ok, ok-inj}
use coherence_operator.Command.Effects.{update_lem}
use coherence_operator.Runtime.Frame.{Frames}
use coherence_operator.Release.Defs.{Releases}
use coherence_operator.Updater.{Upstream, sorted, publish, read_file, tell_runner, overwrite_file}
use coherence_operator.Updater.Atomic.{kept, report_added, publish_lem}

-- Where the runner's output file is, if anywhere, it is not the file of the releases.
abbrev pub IsApart : Upstream → World → Type 0
IsApart up w = or_empty (w.env (codes "GITHUB_OUTPUT")) ≢ up.releases_json

overwrite_file-elsewhere :
    (up : Upstream) (path content other : Text) (w : World)
    → other ≢ path
    → (overwrite_file up path content w).1.files other ≡ w.files other
unfolding overwrite_file
overwrite_file-elsewhere up path content other w apart =
    elim (Option-cases (up.write_error w path)) [
      | inl fine ↦ rw (overwrite_file, fine) ((update_lem w.files path other _).1 apart)
      | inr ((err, left), failing) ↦
          rw (overwrite_file, failing) ((update_lem w.files path other _).1 apart)
    ]

overwrite_file-eq-ok :
    (up : Upstream) (path content : Text) (w v : World)
    → overwrite_file up path content w ≡ (ok tt, v)
    → v ≡ record w { files = update w.files path (some content) }
unfolding overwrite_file
overwrite_file-eq-ok up path content w v h = elim (Option-cases (up.write_error w path)) [
  | inl fine ↦
      let done : overwrite_file up path content w
          ≡ (ok tt, record w { files = update w.files path (some content) }) =
        rw (overwrite_file, fine) refl in
      ap (λ p. p.1) (sym h ∙ done)
  | inr ((err, left), failing) ↦ absurd (ground (arith, failing, h))
]

pub tell_runner-files :
    (up : Upstream) (line : Text) (w : World)
    → IsApart up w
    → (tell_runner up line w).1.files up.releases_json ≡ w.files up.releases_json
unfolding tell_runner
tell_runner-files up line w apart =
    let path = or_empty (w.env (codes "GITHUB_OUTPUT")) in
    elim (Bool-cases (is_empty path)) [
      | inl unset ↦ rw (unset, tell_runner) refl
      | inr given ↦
          rw (given, tell_runner)
            (overwrite_file-elsewhere up path _ up.releases_json w λ e. apart (sym e))
    ]

pub publish-files :
    (up : Upstream) (added : List Text) (releases : Releases) (w v : World)
    → IsApart up w
    → publish up added releases w ≡ (ok tt, v)
    → v.files up.releases_json ≡ some (up.stringify (sorted up releases) ++ codes "\n")
unfolding log
publish-files up added releases w v apart h =
    let table = up.stringify (sorted up releases) ++ codes "\n" in
    let (t, x, wrote_table, told) =
      >>=-eq-ok (λ _. report_added up added) (overwrite_file up up.releases_json table) w
        (sym (publish_lem up added releases w) ∙ h) in
    let end = overwrite_file-eq-ok up up.releases_json table w x wrote_table in
    let apart_x : IsApart up x = rw end apart in
    ap (λ p. p.1.files up.releases_json) (sym told)
    ∙ tell_runner-files up _ _ apart_x
    ∙ ap (λ u. u.files up.releases_json) end
    ∙ (update_lem w.files up.releases_json up.releases_json _).0

pub kept_after :
    {A : Type 0} {m : M A}
    → Frames kept m
    → (w v : World) (r : Result A) → m w ≡ (r, v)
    → kept v ≡ kept w
kept_after m-Frames w v r h = ap (λ p. kept p.1) (sym h) ∙ m-Frames.obeys w

module _ (up : Upstream) (w v : World) (same : kept v ≡ kept w) where
  pub still-IsApart : IsApart up w → IsApart up v
  still-IsApart apart e = apart (ap (λ k. or_empty (k.1 (codes "GITHUB_OUTPUT"))) (sym same) ∙ e)

  pub same_file : v.files up.releases_json ≡ w.files up.releases_json
  same_file = ap (λ k. k.0 up.releases_json) same

content_of :
    (up : Upstream) (path raw : Text) (w v : World) (o : Option Text)
    → (elim o as (λ _. Result Text × World) [
      | none ↦ (throws (up.read_error path), w)
      | some content ↦ (ok content, w)
    ])
      ≡ (ok raw, v)
    → (o ≡ some raw) × (v ≡ w)
content_of up path raw w v none h = let bad = ap (λ p. p.0) h in cc
content_of up path raw w v (some content) h =
    let (same, end) = ok-inj content raw w v h in (ap some same, sym end)

-- A file that was read holds what was read, and nothing has changed.
pub read_file-eq :
    (up : Upstream) (path raw : Text) (w v : World)
    → read_file up path w ≡ (ok raw, v)
    → (w.files path ≡ some raw) × (v ≡ w)
unfolding read_file
read_file-eq up path raw w v h = content_of up path raw w v (w.files path) h
