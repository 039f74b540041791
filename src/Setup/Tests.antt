-- ===== src/Setup/Tests.antt =====
-- Runs of the action, and the theorems about it at concrete inputs.
use coherence_operator.Prelude.{◌≡◌, refl, none, some, codes, arith, ◌⊎◌}
use coherence_operator.Runtime.{log, World, Host, ok, plain_error}
use coherence_operator.Runtime.Sample.{sample_host, sample_world}
use coherence_operator.Command.{issue_command, add_path, get_input, debug}
use coherence_operator.Io.{
  is_windows, normalize_separators, is_rooted, is_unix_executable, try_stat,
  try_get_executable_path, which, mkdir_p,
}
use coherence_operator.Exec.ArgString.{arg_string_to_array}
use coherence_operator.Exec.State.{is_success, handle_all, handle, verdict}
use coherence_operator.Exec.Runner.{exec}
use coherence_operator.ToolCache.Retry.{new_retry_helper, execute}
use coherence_operator.ToolCache.Download.{download_tool}
use coherence_operator.ToolCache.Extract.{extract_tar}
use coherence_operator.Release.{platform_name, arch_name, pick, official, get_release_info}
use coherence_operator.Release.Defs.{property}
use coherence_operator.Release.Table.{releases_default}
use coherence_operator.Setup.{choose, fetch, verify, install, run, setup, checksum_mismatch}
use coherence_operator.Prelude.{text_eq, ends_with, includes, is_space, trim, split, replace_all}
use coherence_operator.Release.Defs.{Download, download}
use coherence_operator.Setup.Guard.{IsVerified}
use coherence_operator.Setup.Ends.{IsReported, failed_with, failure, setup-IsReported}
use coherence_operator.Setup.Verified.{IsComplete, setup-eq-ok}
use coherence_operator.Setup.Terminates.{setup_returns}
use coherence_operator.Exec.Settle.{IsResponsive}
use coherence_operator.Setup.Refused.{IsUntouched, setup-IsVerified, setup-mismatch}

installed :
    ((setup sample_host sample_world).0 ≡ ok tt)
    × ((setup sample_host sample_world).1.exit_code ≡ none)
unfolding issue_command add_path get_input debug is_windows normalize_separators is_rooted
    is_unix_executable try_stat try_get_executable_path which mkdir_p arg_string_to_array is_success
    handle_all handle verdict exec new_retry_helper execute download_tool extract_tar platform_name
    arch_name pick official get_release_info property releases_default log choose fetch verify
    install run setup text_eq ends_with includes is_space trim split replace_all
installed = (refl, refl)

setup-eq-ok_example : IsComplete sample_host sample_world (setup sample_host sample_world).1
setup-eq-ok_example =
    setup-eq-ok sample_host sample_world (setup sample_host sample_world).1
      (λ i. (installed.0 i, (setup sample_host sample_world).1))
      (λ e. ground (arith, installed.1, e))

setup-IsVerified_example :
    IsVerified sample_host sample_world
    ⊎ IsUntouched sample_world (setup sample_host sample_world).1
setup-IsVerified_example = setup-IsVerified sample_host sample_world

setup-IsReported_example :
    IsReported sample_host (run sample_host sample_world) (setup sample_host sample_world)
setup-IsReported_example = setup-IsReported sample_host sample_world

-- A host on which every file has another sum.
abbrev other_host : Host
other_host = record sample_host { sha256 = λ content. codes "00" }

abbrev expected : Download
expected =
    download "d52c4af76ce6a3ceb8579e51fb751a43ac051cca67f965f973a0b0e897a2bb86"
      "https://github.com/oras-project/oras/releases/download/v1.3.1/oras_1.3.1_linux_amd64.tar.gz"

chosen : choose other_host sample_world ≡ (ok expected, sample_world)
unfolding get_input platform_name arch_name pick official get_release_info property releases_default
    choose text_eq is_space trim replace_all
chosen = refl

abbrev fetched_world : World
fetched_world = (fetch other_host expected.url sample_world).1

fetched :
    ((fetch other_host expected.url sample_world).0 ≡ ok (codes "/tmp/id"))
    × (fetched_world.files (codes "/tmp/id") ≡ some (codes "tarball"))
unfolding issue_command debug mkdir_p new_retry_helper execute download_tool log fetch text_eq
fetched = (refl, refl)

setup-mismatch_example :
    (setup other_host sample_world ≡ (
      ok tt,
      failed_with other_host
          (failure (plain_error (checksum_mismatch (codes "00") expected.checksum)))
          fetched_world,
    ))
    × IsUntouched sample_world fetched_world
setup-mismatch_example =
    setup-mismatch other_host sample_world expected (codes "/tmp/id") (codes "tarball") sample_world
      fetched_world chosen (λ i. (fetched.0 i, fetched_world)) fetched.1 (λ e. ground (arith, e))

sample_host-IsResponsive : IsResponsive sample_host
sample_host-IsResponsive = record {
  ends = λ w file args cwd. refl;
  answers = λ w url never. cc;
  reads = λ w path e never. cc;
}

setup_returns_example : (setup sample_host sample_world).0 ≡ ok tt
setup_returns_example = setup_returns sample_host sample_world sample_host-IsResponsive
