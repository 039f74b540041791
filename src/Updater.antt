-- ===== src/Updater.antt =====
-- .github/scripts/update-releases.mjs of .github/actions/setup-oras-2.0.1: the script that adds new
-- releases to src/lib/data/releases.json. The headers of its requests are left out.
pub mod Versions
pub mod Sort
pub mod Checksums
pub mod Filters
pub mod Merge
pub mod Atomic
pub mod Files
pub mod Wanted
pub mod Outcome
pub mod Newer
mod Tests
use coherence_operator.Prelude.{
  ℕ, List, [], ◌∷◌, ◌++◌, map, filter, length, Option, none, some, Bool, true, false, not, ◌&&◌,
  Text, codes, is_empty, leb, if◌then◌else◌, ℤ,
}
use coherence_operator.Runtime.{
  World, Thrown, Event, Reply, failed, answered, no_reply, Body, complete, broken, Result, ok,
  throws, pending, M, ◌>>=◌, ◌>>◌, pure, throw, throw_if, catch, perform, log, get_env,
  wrote_to_stderr, requested, plain_error, type_error, or_empty, update, decimal,
}
use coherence_operator.Release.Defs.{Platforms, Releases, property}
use coherence_operator.Release.{is_inherited}
use coherence_operator.Updater.Versions.{is_release_tag, without_v, is_newer}
use coherence_operator.Updater.Sort.{sort, last}
use coherence_operator.Updater.Checksums.{parse_checksums, set_property}

-- A release in the answer of the GitHub API.
pub record GhRelease : Type 0 where
  pub draft : Bool
  pub prerelease : Bool
  pub tag_name : Text

-- Node.js and the network. `parse_releases` and `stringify` are `JSON.parse` and `JSON.stringify` on
-- the file of the releases, `parse_listing` is `res.json()` on the API's answer, `stack` is
-- `err.stack || err.message`. `write_error` says whether `writeFile` or `appendFile` fails, with the error
-- and what it leaves in the file.
pub record Upstream : Type 0 where
  pub other_number : Text → Option ℤ
  pub fetch : World → Text → Reply
  pub parse_releases : Text → Result Releases
  pub stringify : Releases → Text
  pub parse_listing : Text → Result (List GhRelease)
  pub releases_json : Text
  pub read_error : Text → Thrown
  pub write_error : World → Text → Option (Thrown × Option Text)
  pub stack : Thrown → Text

unfoldable pub get_failed : Text → ℕ → Text → Text
get_failed url status status_text =
    codes "GET " ++ (url ++ (codes " -> " ++ (decimal status ++ (codes " " ++ status_text))))

-- `res.text()`.
unfoldable pub body_text : Body → M Text
body_text (complete content) = pure content
body_text (broken part err) = throw err

-- `res.ok` is for the statuses from 200 to 299.
unfoldable pub read_reply : Text → Reply → M Text
unfolding body_text
read_reply url no_reply = λ w. (pending, w)
read_reply url (failed err) = throw err
read_reply url (answered status status_text body) =
    if leb 200 status && leb status 299
    then body_text body
    else throw (plain_error (get_failed url status status_text))

unfoldable pub ask : Upstream → Text → M Reply
ask up url w = (ok (up.fetch w url), record w { trace = requested url ∷ w.trace })

unfoldable pub fetch_text : Upstream → Text → M Text
unfolding ask read_reply
fetch_text up url = ask up url >>= read_reply url

-- A computation that may throw.
abbrev pub settled : {A : Type 0} → Result A → M A
settled r w = (r, w)

unfoldable pub checksums_url : Text → Text
checksums_url version =
    codes "https://github.com/oras-project/oras/releases/download/v"
    ++ (version ++ (codes "/oras_" ++ (version ++ codes "_checksums.txt")))

unfoldable pub fetch_version_entry : Upstream → Text → M Platforms
fetch_version_entry up version =
    fetch_text up (checksums_url version) >>= λ text. settled (parse_checksums text version)

unfoldable pub listing_url : Text
listing_url = codes "https://api.github.com/repos/oras-project/oras/releases?per_page=100"

unfoldable pub versions_of : List GhRelease → List Text
versions_of releases = map without_v (
    filter is_release_tag
      (map (λ r. r.tag_name) (filter (λ r. not r.draft && not r.prerelease) releases)))

unfoldable pub list_upstream_versions : Upstream → M (List Text)
list_upstream_versions up = do
  text ← fetch_text up listing_url
  releases ← settled (up.parse_listing text)
  pure (versions_of releases)

-- `v in releases`.
unfoldable pub is_in : Text → Releases → Bool
is_in v releases = elim (property v releases) [ none ↦ is_inherited v | some entry ↦ true ]

unfoldable pub keys : Releases → List Text
keys releases = map (λ r. r.0) releases

unfoldable pub no_maximum : Thrown
no_maximum = type_error (codes "Cannot read properties of undefined (reading 'split')")

-- The filter by the newest release that is known, which is undefined where none is.
unfoldable pub newer_than : Upstream → Option Text → List Text → M (List Text)
newer_than up none [] = pure []
newer_than up none (v ∷ vs) = throw no_maximum
newer_than up (some current_max) vs = pure (filter (λ v. is_newer up.other_number v current_max) vs)

unfoldable pub missing_versions : Upstream → List Text → Releases → M (List Text)
unfolding newer_than
missing_versions up [] releases = do
  candidates ← list_upstream_versions up
  newer_than up (last (sort (is_newer up.other_number) (keys releases)))
      (filter (λ v. not (is_in v releases)) candidates)
missing_versions up (v ∷ cli) releases =
    pure (filter (λ v. not (is_in v releases)) (map without_v (v ∷ cli)))

-- The loop over the missing versions.
unfoldable pub add_versions : Upstream → List Text → Releases → M Releases
add_versions up [] releases = pure releases
add_versions up (version ∷ rest) releases = do
  log (codes "Adding v" ++ (version ++ codes "..."))
  entry ← fetch_version_entry up version
  add_versions up rest (set_property version entry releases)

-- `keys.map(k => [k, releases[k]])` as an object.
unfoldable pub pick_all : List Text → Releases → Releases
pick_all [] releases = []
pick_all (k ∷ ks) releases = elim (property k releases) [
  | none ↦ pick_all ks releases
  | some entry ↦ (k, entry) ∷ pick_all ks releases
]

unfoldable pub sorted : Upstream → Releases → Releases
unfolding pick_all
sorted up releases = pick_all (sort (is_newer up.other_number) (keys releases)) releases

unfoldable pub join_texts : Text → List Text → Text
join_texts sep [] = []
join_texts sep (v ∷ []) = v
join_texts sep (v ∷ u ∷ vs) = v ++ (sep ++ join_texts sep (u ∷ vs))

unfoldable pub read_file : Upstream → Text → M Text
read_file up path w = elim (w.files path) [
  | none ↦ (throws (up.read_error path), w)
  | some content ↦ (ok content, w)
]

unfoldable pub written : Text → Text → Option (Thrown × Option Text) → M (Unit {0})
written path content none w = (ok tt, record w { files = update w.files path (some content) })
written path content (some (err, left)) w =
    (throws err, record w { files = update w.files path left })

unfoldable pub overwrite_file : Upstream → Text → Text → M (Unit {0})
unfolding written
overwrite_file up path content w = written path content (up.write_error w path) w

-- `if (process.env.GITHUB_OUTPUT) await appendFile(…)`.
unfoldable pub tell_runner : Upstream → Text → M (Unit {0})
unfolding overwrite_file
tell_runner up line w =
    let path = or_empty (w.env (codes "GITHUB_OUTPUT")) in
    (if is_empty path then pure tt else overwrite_file up path (or_empty (w.files path) ++ line)) w

unfoldable pub publish : Upstream → List Text → Releases → M (Unit {0})
publish up added releases = do
  overwrite_file up up.releases_json (up.stringify (sorted up releases) ++ codes "\n")
  log (
      codes "Added "
      ++ (decimal (length added) ++ (codes " version(s): " ++ join_texts (codes ", ") added)))
  tell_runner up (codes "ADDED_VERSIONS=" ++ (join_texts (codes ",") added ++ codes "\n"))

-- The part of `main` behind the choice of the versions.
unfoldable pub add_missing : Upstream → List Text → Releases → M (Unit {0})
unfolding tell_runner
add_missing up [] releases = do
  log (codes "No new versions to add.")
  tell_runner up (codes "ADDED_VERSIONS=\n")
add_missing up (v ∷ vs) releases = add_versions up (v ∷ vs) releases >>= publish up (v ∷ vs)

unfoldable pub main : Upstream → List Text → M (Unit {0})
main up cli_versions = do
  raw ← read_file up up.releases_json
  releases ← settled (up.parse_releases raw)
  missing ← missing_versions up cli_versions releases
  add_missing up missing releases

-- `main().catch(…)`, with `process.exit(1)`.
unfoldable pub fail : Upstream → Thrown → M (Unit {0})
fail up err w = (
  ok tt,
  record w { exit_code = some 1; trace = wrote_to_stderr (up.stack err ++ codes "\n") ∷ w.trace },
)

unfoldable pub update_releases : Upstream → List Text → M (Unit {0})
unfolding fail
update_releases up cli_versions = catch (main up cli_versions) (fail up)
