-- ===== src/Updater/Atomic.antt =====
-- What the script has written when it fails.
use coherence_operator.Prelude.{
  ◌≡◌, refl, ◌∙◌, ap, sym, ◌⊎◌, arith, List, [], ◌∷◌, ◌++◌, Option, none, some, Text, codes,
  Option-cases, Bool-cases, inl, inr, is_empty, subst, length,
}
use coherence_operator.Runtime.{
  World, update, pending, ◌>>=◌, Thrown, Reply, failed, answered, no_reply, Body, complete, broken,
  Result, ok, throws, M, log, decimal, wrote_to_stderr, catch, or_empty, ◌>>◌,
}
use coherence_operator.Runtime.Laws.{>>=-ok, >>=-throws}
use coherence_operator.Runtime.Obey.{throw-Obeys, if-Obeys, >>=-Obeys, >>-Obeys}
use coherence_operator.Runtime.Frame.{Frames, settled-Frames, keeping_law}
use coherence_operator.Release.Defs.{Releases}
use coherence_operator.Updater.Checksums.{parse_checksums}
use coherence_operator.Updater.{
  Upstream, body_text, read_reply, ask, fetch_text, fetch_version_entry, list_upstream_versions,
  newer_than, missing_versions, add_versions, read_file, overwrite_file, tell_runner, publish,
  sorted, settled, join_texts, add_missing, main, fail, update_releases, versions_of, no_maximum,
}

abbrev pub kept : World → (Text → Option Text) × (Text → Option Text)
kept w = (w.files, w.env)

pub log-Frames : (message : Text) → Frames kept (log message)
unfolding log
log-Frames message = record { obeys = λ w. refl }

body_text-Frames : (body : Body) → Frames kept (body_text body)
unfolding body_text
body_text-Frames (complete content) = settled-Frames kept (λ w. ok content)
body_text-Frames (broken part err) = throw-Obeys err

read_reply-Frames : (url : Text) → (reply : Reply) → Frames kept (read_reply url reply)
unfolding read_reply
read_reply-Frames url no_reply = record { obeys = λ w. refl }
read_reply-Frames url (failed err) = throw-Obeys err
read_reply-Frames url (answered status status_text body) =
    if-Obeys _ (body_text-Frames body) (throw-Obeys _)

fetch_text-Frames : (up : Upstream) → (url : Text) → Frames kept (fetch_text up url)
unfolding fetch_text ask
fetch_text-Frames up url =
    >>=-Obeys {m = ask up url} (record { obeys = λ w. refl }) (read_reply-Frames url)

fetch_version_entry-Frames :
    (up : Upstream) → (version : Text) → Frames kept (fetch_version_entry up version)
unfolding fetch_version_entry
fetch_version_entry-Frames up version =
    >>=-Obeys (fetch_text-Frames up _) λ text. settled-Frames kept λ w. parse_checksums text version

pub add_versions-Frames :
    (up : Upstream)
    → (missing : List Text) → (releases : Releases) → Frames kept (add_versions up missing releases)
unfolding add_versions
add_versions-Frames up [] releases = settled-Frames kept λ w. ok releases
add_versions-Frames up (version ∷ rest) releases =
    >>-Obeys (log-Frames _)
      (>>=-Obeys (fetch_version_entry-Frames up version) λ entry. add_versions-Frames up rest _)

newer_than-Frames :
    (up : Upstream)
    → (current_max : Option Text) → (vs : List Text) → Frames kept (newer_than up current_max vs)
unfolding newer_than
newer_than-Frames up none [] = settled-Frames kept λ w. ok []
newer_than-Frames up none (v ∷ vs) = throw-Obeys no_maximum
newer_than-Frames up (some current_max) vs = settled-Frames kept λ w. _

pub missing_versions-Frames :
    (up : Upstream)
    → (cli : List Text) → (releases : Releases) → Frames kept (missing_versions up cli releases)
unfolding missing_versions list_upstream_versions
missing_versions-Frames up [] releases =
    >>=-Obeys
      (>>=-Obeys (fetch_text-Frames up _) λ text.
        >>=-Obeys (settled-Frames kept λ w. up.parse_listing text)
          λ listing. settled-Frames kept λ w. ok (versions_of listing))
      λ candidates. newer_than-Frames up _ _
missing_versions-Frames up (v ∷ cli) releases = settled-Frames kept λ w. _

pub read_file-Frames : (up : Upstream) → (path : Text) → Frames kept (read_file up path)
unfolding read_file
read_file-Frames up path = record {
  obeys = λ w. elim (Option-cases (w.files path)) [
    | inl e ↦ rw (e, read_file) refl
    | inr (content, e) ↦ rw (e, read_file) refl
  ];
}

-- Where the script stopped, by what the files are then: before it wrote, at the write of the table, or at
-- the line for the runner, behind a new table or without one.
pub data IsStopped (up : Upstream) (before : (Text → Option Text) × (Text → Option Text))
    (v : World) (e : Thrown) : Type 0 where
  before_writing : v.files ≡ before.0 → IsStopped up before v e
  writing_table :
      {x : World} {left : Option Text}
      → up.write_error x up.releases_json ≡ some (e, left)
      → v.files ≡ update before.0 up.releases_json left
      → IsStopped up before v e
  telling_runner :
      {x : World} {left : Option Text}
      → up.write_error x (or_empty (before.1 (codes "GITHUB_OUTPUT"))) ≡ some (e, left)
      → (x.files ≡ before.0)
        ⊎ ((new : Releases) × (x.files
              ≡ update before.0 up.releases_json (some (up.stringify new ++ codes "\n"))))
      → v.files ≡ update x.files (or_empty (before.1 (codes "GITHUB_OUTPUT"))) left
      → IsStopped up before v e

record Stops (up : Upstream) {A : Type 0} (m : M A) : Type 0 where
  stops : (e : Thrown) (w v : World) → m w ≡ (throws e, v) → IsStopped up (kept w) v e

module _ (up : Upstream) {A B : Type 0} (f : A → M B) (f-Stops : (a : A) → Stops up (f a)) where
  stopped :
      (r : Result A) (u : World) (e : Thrown) (v : World)
      → ◌>>=◌ (λ _. (r, u)) f u ≡ (throws e, v)
      → IsStopped up (kept u) v e
  stopped (ok a) u e v h = (f-Stops a).stops e u v h
  stopped (throws e') u e v h = before_writing (ap (λ p. p.1.files) (sym h))
  stopped pending u e v h = before_writing (ap (λ p. p.1.files) (sym h))

  -- What changes no file comes before the rest.
  >>=-Stops : {m : M A} → Frames kept m → Stops up (m >>= f)
  >>=-Stops {m} m-Frames = record {
    stops = λ e w v h.
        subst (λ k. IsStopped up k v e) (m-Frames.obeys w) (stopped (m w).0 (m w).1 e v h);
  }

overwrite_file-throws :
    (up : Upstream) (path content : Text) (w v : World) (e : Thrown)
    → overwrite_file up path content w ≡ (throws e, v)
    → (left : Option Text) × (up.write_error w path ≡ some (e, left))
      × (v.files ≡ update w.files path left)
unfolding overwrite_file
overwrite_file-throws up path content w v e h = elim (Option-cases (up.write_error w path)) [
  | inl fine ↦ absurd (ground (arith, fine, h))
  | inr ((err, left), failing) ↦
      let thrown : ◌≡◌ {A = Result (Unit {0}) × World}
          (throws err, record w { files = update w.files path left }) (throws e, v) =
        rw (sym h, overwrite_file, failing) refl in
      let same : err ≡ e = let r = ap (λ p. p.0) thrown in cc in
      (left, failing ∙ ap (λ x. some (x, left)) same, ap (λ p. p.1.files) (sym thrown))
]

tell_runner-throws :
    (up : Upstream) (line : Text) (w v : World) (e : Thrown)
    → tell_runner up line w ≡ (throws e, v)
    → (left : Option Text) × (up.write_error w (or_empty (w.env (codes "GITHUB_OUTPUT")))
        ≡ some (e, left))
      × (v.files ≡ update w.files (or_empty (w.env (codes "GITHUB_OUTPUT"))) left)
unfolding tell_runner
tell_runner-throws up line w v e h =
    let path = or_empty (w.env (codes "GITHUB_OUTPUT")) in
    elim (Bool-cases (is_empty path)) [
      | inl unset ↦ absurd (ground (arith, unset, h))
      | inr given ↦
          overwrite_file-throws up path (or_empty (w.files path) ++ line) w v e
            (rw (sym h, tell_runner, given) refl)
    ]

-- What `publish` does behind the write of the table.
abbrev pub report_added : Upstream → List Text → M (Unit {0})
report_added up added =
    log (
      codes "Added "
      ++ (decimal (length added) ++ (codes " version(s): " ++ join_texts (codes ", ") added)))
    >> tell_runner up (codes "ADDED_VERSIONS=" ++ (join_texts (codes ",") added ++ codes "\n"))

pub publish_lem :
    (up : Upstream) (added : List Text) (releases : Releases) (w : World)
    → publish up added releases w
      ≡ (overwrite_file up up.releases_json (up.stringify (sorted up releases) ++ codes "\n")
            >> report_added up added)
          w
unfolding publish
publish_lem up added releases w = refl

publish-Stops :
    (up : Upstream) (added : List Text) (releases : Releases) → Stops up (publish up added releases)
unfolding overwrite_file log
publish-Stops up added releases = record {
  stops = λ e w v h.
      let table = up.stringify (sorted up releases) ++ codes "\n" in
      let m = overwrite_file up up.releases_json table in
      let run = sym (publish_lem up added releases w) ∙ h in
      elim (Option-cases (up.write_error w up.releases_json)) [
        | inl fine ↦
            let x : World = record w { files = update w.files up.releases_json (some table) } in
            let done : m w ≡ (ok tt, x) = rw (overwrite_file, fine) refl in
            let (left, failing, files) =
              tell_runner-throws up _ _ v e
                (sym (>>=-ok m (λ _. report_added up added) w done) ∙ run) in
            telling_runner failing (inr (sorted up releases, refl)) files
        | inr ((err, left), failing) ↦
            let broken_off : m w
                ≡ (throws err, record w { files = update w.files up.releases_json left }) =
              rw (overwrite_file, failing) refl in
            let thrown = sym (>>=-throws m (λ _. report_added up added) w broken_off) ∙ run in
            let same : err ≡ e = let r = ap (λ p. p.0) thrown in cc in
            writing_table (failing ∙ ap (λ y. some (y, left)) same)
              (ap (λ p. p.1.files) (sym thrown))
      ];
}

tell_runner-Stops : (up : Upstream) (line : Text) → Stops up (tell_runner up line)
tell_runner-Stops up line = record {
  stops = λ e w v h.
      let (left, failing, files) = tell_runner-throws up line w v e h in
      telling_runner failing (inl refl) files;
}

add_missing-Stops :
    (up : Upstream) (missing : List Text) (releases : Releases)
    → Stops up (add_missing up missing releases)
unfolding add_missing
add_missing-Stops up [] releases =
    >>=-Stops up (λ _. tell_runner up (codes "ADDED_VERSIONS=\n"))
      (λ _. tell_runner-Stops up (codes "ADDED_VERSIONS=\n"))
      (log-Frames (codes "No new versions to add."))
add_missing-Stops up (v ∷ vs) releases =
    >>=-Stops up (publish up (v ∷ vs)) (publish-Stops up (v ∷ vs))
      (add_versions-Frames up (v ∷ vs) releases)

main-Stops : (up : Upstream) (cli : List Text) → Stops up (main up cli)
unfolding main
main-Stops up cli =
    >>=-Stops up
      (λ raw. settled (up.parse_releases raw) >>= λ releases.
        missing_versions up cli releases >>= λ missing. add_missing up missing releases)
      (λ raw.
        >>=-Stops up
          (λ releases.
            missing_versions up cli releases >>= λ missing. add_missing up missing releases)
          (λ releases.
            >>=-Stops up (λ missing. add_missing up missing releases)
              (λ missing. add_missing-Stops up missing releases)
              (missing_versions-Frames up cli releases))
          (settled-Frames kept λ w. up.parse_releases raw))
      (read_file-Frames up _)

-- If anything throws, the script ends with the exit code 1 and the error on standard error. No file has
-- changed if it stopped before it wrote, so that the versions that were fetched before the error are not
-- written either. Else the error is that of the write of the file of the releases, which holds what that
-- write left, or that of the line for the runner: then the runner's file holds what that write left, and
-- the file of the releases is as it was or holds a whole new table.
pub update_releases-throws :
    (up : Upstream) (cli_versions : List Text) (w v : World) (e : Thrown)
    → main up cli_versions w ≡ (throws e, v)
    → (update_releases up cli_versions w ≡ (
      ok tt,
      record v { exit_code = some 1; trace = wrote_to_stderr (up.stack e ++ codes "\n") ∷ v.trace },
    ))
      × IsStopped up (kept w) v e
unfolding update_releases
update_releases-throws up cli_versions w v e h = (
  ap (λ (p : Result (Unit {0}) × World). catch (λ (x : World). p) (fail up) w) h,
  (main-Stops up cli_versions).stops e w v h,
)
