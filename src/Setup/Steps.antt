-- ===== src/Setup/Steps.antt =====
-- The steps of src/setup.ts up to the test of the checksum, one by one.
use coherence_operator.Prelude.{
  ◌≡◌, refl, ◌∙◌, none, some, false, Text, codes, text_eq, ◌++◌, text_eq_iff, text_eq_refl, ◌≢◌,
  ◌∷◌, arith, not,
}
use coherence_operator.Runtime.{log, World, Host, ok, throws, M, ◌>>◌, wrote, plain_error, throw_if}
use coherence_operator.Runtime.Laws.{>>=-ok, >>=-throws}
use coherence_operator.Runtime.Obey.{pure-Obeys, >>=-Obeys, >>-Obeys}
use coherence_operator.Runtime.Quiet.{IsTame, tame_law, spawns, perform-IsTame, Keeps}
use coherence_operator.Command.Tame.{get_input-IsTame}
use coherence_operator.Release.Tame.{get_release_info-IsTame}
use coherence_operator.ToolCache.Download.Tame.{IsAnswered, download_tool-IsTame}
use coherence_operator.Setup.{hash, choose, fetch, checksum_mismatch, verify}

log-IsTame : {P : Type 0} → (message : Text) → IsTame P (log message)
unfolding spawns log
log-IsTame message = perform-IsTame _ λ es. refl

-- The download starts no process, changes neither the environment nor the exit code, and comes to an
-- end if each request is answered or fails.
pub fetch-IsTame : (h : Host) → (url : Text) → IsTame (IsAnswered h) (fetch h url)
unfolding fetch
fetch-IsTame h url = >>-Obeys (log-IsTame _) (
    >>=-Obeys (download_tool-IsTame h url _)
      λ path. >>-Obeys (log-IsTame (codes "downloading ORAS CLI completed")) (pure-Obeys path))

-- The choice of the release starts no process, changes neither the environment nor the exit code, and
-- comes to an end.
pub choose-IsTame : {P : Type 0} → (h : Host) → IsTame P (choose h)
unfolding choose
choose-IsTame h = >>=-Obeys (get_input-IsTame h (codes "version")) λ version.
    >>=-Obeys (get_input-IsTame h (codes "url")) λ url.
      >>=-Obeys (get_input-IsTame h (codes "checksum"))
        λ checksum. get_release_info-IsTame h version url (h.to_lower checksum)

pub fetch-Keeps : (h : Host) → (url : Text) → (w : World) → Keeps w (fetch h url w).1
fetch-Keeps h url w = ((fetch-IsTame h url).obeys w).0

pub choose-Keeps : (h : Host) → (w : World) → Keeps w (choose h w).1
choose-Keeps h w = ((choose-IsTame {P = Unit {0}} h).obeys w).0

-- The state with the message of success written to standard output.
abbrev pub confirmed : World → World
confirmed w = record w {
  trace = wrote (codes "successfully verified downloaded release checksum" ++ codes "\n") ∷ w.trace;
}

-- What `verify` does with the sum.
abbrev compare : Text → Text → M (Unit {0})
compare expected actual =
    throw_if (not (text_eq actual expected)) (plain_error (checksum_mismatch actual expected))
    >> log (codes "successfully verified downloaded release checksum")

hash-eq-ok :
    (h : Host)
    → (path content : Text) → (w : World) → w.files path ≡ some content
    → hash h path w ≡ (ok (h.sha256 content), w)
unfolding hash
hash-eq-ok h path content w there = rw (there, hash) refl

hash-missing :
    (h : Host)
    → (path : Text) → (w : World) → w.files path ≡ none
    → hash h path w ≡ (throws (h.read_error path), w)
unfolding hash
hash-missing h path w absent = rw (absent, hash) refl

module _ (h : Host) (path expected content : Text) (w : World)
    (there : w.files path ≡ some content) where
  hashed : verify h path expected w ≡ compare expected (h.sha256 content) w
  unfolding verify
  hashed = >>=-ok (hash h path) (compare expected) w (hash-eq-ok h path content w there)

  -- A file with the expected sum passes: one line is written, and nothing else changes.
  pub verify-matching :
      h.sha256 content ≡ expected → verify h path expected w ≡ (ok tt, confirmed w)
  unfolding log
  verify-matching same = hashed ∙ rw (same, text_eq_refl) refl

  -- A file with another sum is an error, and the process is as it was.
  pub verify-mismatch :
      h.sha256 content ≢ expected
      → verify h path expected w
        ≡ (throws (plain_error (checksum_mismatch (h.sha256 content) expected)), w)
  verify-mismatch differ =
      let unequal : text_eq (h.sha256 content) expected ≡ false =
        ground (arith, text_eq_iff (h.sha256 content) expected, differ) in
      hashed ∙ rw unequal refl

-- A file that cannot be read is an error.
pub verify-missing :
    (h : Host)
    → (path expected : Text) → (w : World) → w.files path ≡ none
    → verify h path expected w ≡ (throws (h.read_error path), w)
unfolding verify
verify-missing h path expected w absent =
    >>=-throws (hash h path) (compare expected) w (hash-missing h path w absent)
