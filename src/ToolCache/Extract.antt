-- ===== src/ToolCache/Extract.antt =====
-- `extractTar` and `extractZip` (lib/tool-cache.js).
pub mod Settle
use coherence_operator.Prelude.{
  some, Bool, true, false, not, ◌&&◌, ◌||◌, Text, List, codes, ◌++◌, [], ◌∷◌, is_empty, includes,
  contains, filter, trim, replace_all, ◌==◌, if◌then◌else◌,
}
use coherence_operator.Runtime.{Host, M, ◌>>=◌, ◌>>◌, ok, pure, throw_if, plain_error}
use coherence_operator.Command.{debug, is_debug}
use coherence_operator.Io.{is_windows, mkdir_p, which}
use coherence_operator.Exec.Runner.{exec, default_options, Options, Output}
use coherence_operator.ToolCache.Download.{destination}

-- `_createExtractFolder`.
unfoldable pub create_extract_folder : Host → Text → M Text
create_extract_folder h dest = do folder ← destination h dest; mkdir_p h folder; pure folder

abbrev pub version_options : Options
version_options = record default_options { silent = true; ignore_return_code = true }

-- `s.replace(/\\/g, "/")`.
unfoldable pub with_slashes : Text → Text
with_slashes = replace_all b'\\' (codes "/")

-- The arguments of tar, for flags that are one text.
unfoldable pub tar_args : Host → Bool → Bool → Text → Text → Text → List Text
unfolding with_slashes
tar_args h debugging is_gnu_tar flags file dest =
    let windows_gnu = is_windows h && is_gnu_tar in
    (flags ∷ [])
    ++ ((if debugging && not (includes flags b'v') then codes "-v" ∷ [] else [])
        ++ ((if windows_gnu then codes "--force-local" ∷ [] else [])
            ++ ((if is_gnu_tar
                  then codes "--warning=no-unknown-keyword" ∷ codes "--overwrite" ∷ []
                  else [])
                ++ (codes "-C"
                    ∷ (if windows_gnu then with_slashes dest else dest)
                    ∷ codes "-f"
                    ∷ (if windows_gnu then with_slashes file else file)
                    ∷ []))))

unfoldable pub extract_tar : Host → Text → Text → Text → M Text
unfolding create_extract_folder
extract_tar h file dest flags = do
  throw_if (is_empty file) (plain_error (codes "parameter 'file' is required"))
  folder ← create_extract_folder h dest
  debug h (codes "Checking tar --version")
  version ← exec h (codes "tar --version") [] version_options
  debug h (trim version.text)
  let is_gnu_tar = contains (h.to_upper version.text) (codes "GNU TAR")
  args ← λ w. (ok (tar_args h (is_debug w) is_gnu_tar flags file folder), w)
  _ ← exec h (codes "tar") args default_options
  pure folder

-- `"${path}"`.
unfoldable pub in_quotes : Text → Text
in_quotes path = b'"' ∷ (path ++ codes "\"")

-- A text for a quoted word of PowerShell: quotes doubled, and the characters `"`, `\n` and `\r` removed.
unfoldable pub for_powershell : Text → Text
for_powershell path =
    filter (λ c. not (c == b'"' || c == 10 || c == 13)) (replace_all b'\'' (codes "''") path)

unfoldable pub pwsh_command : Text → Text → Text
pwsh_command file dest =
    codes
      "$ErrorActionPreference = 'Stop' ; try { Add-Type -AssemblyName System.IO.Compression.ZipFile } catch { } ; try { [System.IO.Compression.ZipFile]::ExtractToDirectory('"
    ++ (file
        ++ (codes "', '"
            ++ (dest
                ++ (codes
                      "', $true) } catch { if (($_.Exception.GetType().FullName -eq 'System.Management.Automation.MethodException') -or ($_.Exception.GetType().FullName -eq 'System.Management.Automation.RuntimeException') ){ Expand-Archive -LiteralPath '"
                    ++ (file
                        ++ (codes "' -DestinationPath '"
                            ++ (dest ++ codes "' -Force } else { throw $_ } } ;")))))))

unfoldable pub powershell_command : Text → Text → Text
powershell_command file dest =
    codes
      "$ErrorActionPreference = 'Stop' ; try { Add-Type -AssemblyName System.IO.Compression.FileSystem } catch { } ; if ((Get-Command -Name Expand-Archive -Module Microsoft.PowerShell.Archive -ErrorAction Ignore)) { Expand-Archive -LiteralPath '"
    ++ (file
        ++ (codes "' -DestinationPath '"
            ++ (dest
                ++ (codes "' -Force } else {[System.IO.Compression.ZipFile]::ExtractToDirectory('"
                    ++ (file ++ (codes "', '" ++ (dest ++ codes "', $true) }")))))))

unfoldable pub pwsh_args : Text → List Text
pwsh_args command =
    codes "-NoLogo"
    ∷ codes "-NoProfile"
    ∷ codes "-NonInteractive"
    ∷ codes "-ExecutionPolicy"
    ∷ codes "Unrestricted"
    ∷ codes "-Command"
    ∷ command
    ∷ []

unfoldable pub powershell_args : Text → List Text
powershell_args command =
    codes "-NoLogo"
    ∷ codes "-Sta"
    ∷ codes "-NoProfile"
    ∷ codes "-NonInteractive"
    ∷ codes "-ExecutionPolicy"
    ∷ codes "Unrestricted"
    ∷ codes "-Command"
    ∷ command
    ∷ []

unfoldable pub run_pwsh : Host → Text → Text → Text → M Output
unfolding pwsh_command pwsh_args in_quotes
run_pwsh h pwsh_path file dest = do
  debug h (codes "Using pwsh at path: " ++ pwsh_path)
  exec h (in_quotes pwsh_path) (pwsh_args (pwsh_command file dest)) default_options

unfoldable pub run_powershell : Host → Text → Text → M Output
unfolding powershell_command powershell_args in_quotes
run_powershell h file dest = do
  powershell_path ← which h (codes "powershell") true
  debug h (codes "Using powershell at path: " ++ powershell_path)
  exec h (in_quotes powershell_path) (powershell_args (powershell_command file dest))
      default_options

unfoldable pub extract_zip_win : Host → Text → Text → M Output
unfolding for_powershell run_pwsh run_powershell
extract_zip_win h file dest = do
  pwsh_path ← which h (codes "pwsh") false
  if not (is_empty pwsh_path)
      then run_pwsh h pwsh_path (for_powershell file) (for_powershell dest)
      else run_powershell h (for_powershell file) (for_powershell dest)

unfoldable pub unzip_args : Bool → Text → List Text
unzip_args debugging file =
    codes "-o" ∷ (if not debugging then codes "-q" ∷ file ∷ [] else file ∷ [])

unfoldable pub extract_zip_nix : Host → Text → Text → M Output
unfolding unzip_args in_quotes
extract_zip_nix h file dest = do
  unzip_path ← which h (codes "unzip") true
  args ← λ w. (ok (unzip_args (is_debug w) file), w)
  exec h (in_quotes unzip_path) args (record default_options { cwd = some dest })

unfoldable pub extract_zip : Host → Text → Text → M Text
unfolding create_extract_folder extract_zip_win extract_zip_nix
extract_zip h file dest = do
  throw_if (is_empty file) (plain_error (codes "parameter 'file' is required"))
  folder ← create_extract_folder h dest
  _ ← if is_windows h then extract_zip_win h file folder else extract_zip_nix h file folder
  pure folder
