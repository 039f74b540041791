-- ===== src/Setup.antt =====
-- src/setup.ts and src/lib/checksum.ts of .github/actions/setup-oras-2.0.1, as they stand in
-- dist/index.js: the action itself.
pub mod Steps
pub mod Guard
pub mod Ends
pub mod Verified
pub mod Refused
pub mod Terminates
mod Tests
use coherence_operator.Prelude.{
  Option, none, some, Bool, true, false, not, Text, codes, ◌++◌, [], ◌∷◌, text_eq, ends_with,
  if◌then◌else◌,
}
use coherence_operator.Runtime.{
  log, World, Host, Thrown, not_an_error, M, ◌>>=◌, ◌>>◌, ok, throws, pending, pure, throw,
  throw_if, catch, perform, wrote, plain_error, to_string,
}
use coherence_operator.Command.{get_input, no_options, add_path, set_failed}
use coherence_operator.Release.Defs.{Download}
use coherence_operator.Release.{get_release_info}
use coherence_operator.ToolCache.Download.{download_tool}
use coherence_operator.ToolCache.Extract.{extract_tar, extract_zip}

-- `hash`: the SHA256 sum of a file, in hexadecimal digits.
unfoldable pub hash : Host → Text → M Text
hash h path w = elim (w.files path) [
  | none ↦ (throws (h.read_error path), w)
  | some content ↦ (ok (h.sha256 content), w)
]

-- The inputs and the choice of the release.
unfoldable pub choose : Host → M Download
choose h = do
  version ← get_input h (codes "version") no_options
  url ← get_input h (codes "url") no_options
  checksum ← get_input h (codes "checksum") no_options
  get_release_info h version url (h.to_lower checksum)

unfoldable pub fetch : Host → Text → M Text
fetch h download_url = do
  log (codes "downloading ORAS CLI from " ++ download_url)
  path_to_tarball ← download_tool h download_url []
  log (codes "downloading ORAS CLI completed")
  pure path_to_tarball

unfoldable pub checksum_mismatch : Text → Text → Text
checksum_mismatch actual expected =
    codes "checksum of downloaded ORAS CLI "
    ++ (actual ++ (codes " does not match expected checksum " ++ expected))

unfoldable pub verify : Host → Text → Text → M (Unit {0})
unfolding hash
verify h path_to_tarball expected = do
  actual_checksum ← hash h path_to_tarball
  throw_if (not (text_eq actual_checksum expected))
      (plain_error (checksum_mismatch actual_checksum expected))
  log (codes "successfully verified downloaded release checksum")

-- The extraction, by the end of the URL, and the search path.
unfoldable pub install : Host → Text → Text → M (Unit {0})
install h download_url path_to_tarball = do
  path_to_cli ←
      if ends_with download_url (codes ".zip")
      then extract_zip h path_to_tarball []
      else extract_tar h path_to_tarball [] (codes "xz")
  add_path h path_to_cli

-- The body of the `try`.
unfoldable pub run : Host → M (Unit {0})
run h = do
  info ← choose h
  path_to_tarball ← fetch h info.url
  verify h path_to_tarball info.checksum
  install h info.url path_to_tarball

unfoldable pub report : Host → Thrown → M (Unit {0})
report h not_an_error = set_failed h (codes "unknown error during ORAS setup")
report h e = set_failed h (to_string e)

unfoldable pub setup : Host → M (Unit {0})
setup h = catch (run h) (report h)
