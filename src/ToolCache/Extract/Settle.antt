-- ===== src/ToolCache/Extract/Settle.antt =====
-- The archives are unpacked, or an error says why not, if the programs that unpack them come to an end.
use coherence_operator.Exec.Runner.{default_options}
use coherence_operator.Prelude.{true, false, contains, some, Text, codes, [], is_empty, trim, not}
use coherence_operator.Runtime.{Host}
use coherence_operator.Runtime.Obey.{pure-Obeys, if-Obeys, throw_if-Obeys, >>=-Obeys, >>-Obeys}
use coherence_operator.Runtime.Settle.{Settles, returns-Settles, settling_law}
use coherence_operator.Command.{is_debug}
use coherence_operator.Io.{is_windows}
use coherence_operator.Io.Settle.{which-Settles}
use coherence_operator.Exec.Settle.{IsResponsive, exec-Settles}
use coherence_operator.Runtime.Quiet.{IsTame-Settles}
use coherence_operator.Command.Tame.{debug-IsTame}
use coherence_operator.ToolCache.Download.Tame.{mkdir_p-IsTame, destination-IsTame}
use coherence_operator.ToolCache.Extract.{
  create_extract_folder, extract_tar, unzip_args, in_quotes, version_options, tar_args, run_pwsh,
  run_powershell, extract_zip_win, extract_zip_nix, extract_zip,
}

create_extract_folder-Settles : (h : Host) → (dest : Text) → Settles (create_extract_folder h dest)
unfolding create_extract_folder
create_extract_folder-Settles h dest =
    >>=-Obeys (IsTame-Settles {P = Unit {0}} tt (destination-IsTame h dest)) λ folder.
      >>-Obeys (IsTame-Settles {P = Unit {0}} tt (mkdir_p-IsTame h folder)) (pure-Obeys folder)

module _ (h : Host) (responsive : IsResponsive h) where
  run_pwsh-Settles : (pwsh file dest : Text) → Settles (run_pwsh h pwsh file dest)
  unfolding run_pwsh
  run_pwsh-Settles pwsh file dest =
      >>-Obeys (IsTame-Settles {P = Unit {0}} tt (debug-IsTame h _))
        (exec-Settles h responsive _ _ default_options)

  run_powershell-Settles : (file dest : Text) → Settles (run_powershell h file dest)
  unfolding run_powershell
  run_powershell-Settles file dest = >>=-Obeys (which-Settles h (codes "powershell") true) λ path.
      >>-Obeys (IsTame-Settles {P = Unit {0}} tt (debug-IsTame h _))
        (exec-Settles h responsive _ _ default_options)

  extract_zip_win-Settles : (file dest : Text) → Settles (extract_zip_win h file dest)
  unfolding extract_zip_win
  extract_zip_win-Settles file dest = >>=-Obeys (which-Settles h (codes "pwsh") false) λ path.
      if-Obeys (not (is_empty path)) (run_pwsh-Settles path _ _) (run_powershell-Settles _ _)

  extract_zip_nix-Settles : (file dest : Text) → Settles (extract_zip_nix h file dest)
  unfolding extract_zip_nix
  extract_zip_nix-Settles file dest = >>=-Obeys (which-Settles h (codes "unzip") true) λ path.
      >>=-Obeys (returns-Settles (λ w. unzip_args (is_debug w) file) (λ w. w)) λ args.
        exec-Settles h responsive (in_quotes path) args (record default_options { cwd = some dest })

  pub extract_zip-Settles : (file dest : Text) → Settles (extract_zip h file dest)
  unfolding extract_zip
  extract_zip-Settles file dest = >>-Obeys (throw_if-Obeys _ _) (
      >>=-Obeys (create_extract_folder-Settles h dest) λ folder.
        >>=-Obeys
          (if-Obeys (is_windows h) (extract_zip_win-Settles file folder)
            (extract_zip_nix-Settles file folder))
          λ output. pure-Obeys folder)

  pub extract_tar-Settles : (file dest flags : Text) → Settles (extract_tar h file dest flags)
  unfolding extract_tar
  extract_tar-Settles file dest flags = >>-Obeys (throw_if-Obeys _ _) (
      >>=-Obeys (create_extract_folder-Settles h dest) λ folder.
        >>-Obeys
          (IsTame-Settles {P = Unit {0}} tt (debug-IsTame h (codes "Checking tar --version")))
          (>>=-Obeys (exec-Settles h responsive (codes "tar --version") [] version_options)
            λ version.
              >>-Obeys (IsTame-Settles {P = Unit {0}} tt (debug-IsTame h (trim version.text))) (
                >>=-Obeys
                  (returns-Settles
                    (λ w.
                      tar_args h (is_debug w) (contains (h.to_upper version.text) (codes "GNU TAR"))
                        flags file folder)
                    (λ w. w))
                  λ args.
                    >>=-Obeys (exec-Settles h responsive (codes "tar") args default_options)
                      λ output. pure-Obeys folder)))
