-- ===== src/Io.antt =====
-- @actions/io in dist/index.js of .github/actions/setup-oras-2.0.1 (lib/io.js and lib/io-util.js):
-- finding a command, making and removing directories. `process.platform` is the host's platform.
pub mod Find
pub mod Settle
mod Tests
use coherence_operator.Prelude.{
  ℕ, ◌/◌, ◌%◌, List, [], ◌∷◌, ◌++◌, Option, none, some, Bool, true, false, not, ◌&&◌, ◌||◌, any,
  filter, Text, codes, text_eq, is_empty, includes, starts_with, replace_all, split, leb, ◌==◌,
  if◌then◌else◌,
}
use coherence_operator.Runtime.{
  Host, Thrown, M, ◌>>=◌, ◌>>◌, ok, throws, pure, throw, throw_if, get_env, wrote, made_dir,
  removed, plain_error, assertion_error, or_empty, update, to_string, Stats, found, missing,
  unreadable,
}

unfoldable pub is_windows : Host → Bool
is_windows h = text_eq h.platform (codes "win32")

-- Two or more of a character in a row become one.
unfoldable pub squeeze : ℕ → Text → Text
squeeze sep [] = []
squeeze sep (c ∷ []) = c ∷ []
squeeze sep (c ∷ d ∷ s) =
    if c == sep && d == sep then squeeze sep (d ∷ s) else c ∷ squeeze sep (d ∷ s)

unfoldable pub normalize_separators : Host → Text → Text
unfolding squeeze
normalize_separators h p =
    if is_windows h then squeeze b'\\' (replace_all b'/' (codes "\\") p) else squeeze b'/' p

abbrev pub is_letter : ℕ → Bool
is_letter c = leb b'A' c && leb c b'Z' || leb b'a' c && leb c b'z'

-- `/^[A-Z]:/i.test(p)`.
unfoldable pub has_drive : Text → Bool
has_drive [] = false
has_drive (c ∷ []) = false
has_drive (c ∷ d ∷ p) = is_letter c && d == b':'

unfoldable pub is_rooted_at : Host → Text → Bool
unfolding has_drive
is_rooted_at h p =
    if is_windows h then starts_with p (codes "\\") || has_drive p else starts_with p (codes "/")

unfoldable pub is_rooted : Host → Text → M Bool
unfolding is_rooted_at
is_rooted h p =
    let q = normalize_separators h p in
    if is_empty q
    then throw (plain_error (codes "isRooted() parameter \"p\" cannot be empty"))
    else pure (is_rooted_at h q)

-- `stats.gid === process.getgid()`.
abbrev pub is_id : ℕ → Option ℕ → Bool
is_id id none = false
is_id id (some mine) = id == mine

-- The bits 1, 8 and 64 of the mode.
unfoldable pub is_unix_executable : Host → Stats → Bool
is_unix_executable h stats =
    stats.mode % 2 == 1
    || stats.mode / 8 % 2 == 1 && is_id stats.gid h.getgid
    || stats.mode / 64 % 2 == 1 && is_id stats.uid h.getuid

unfoldable pub stat_failed : Text → Thrown → Text
stat_failed path err =
    codes "Unexpected error attempting to determine if executable file exists '"
    ++ (path ++ (codes "': " ++ (to_string err ++ codes "\n")))

-- `stat` under its `try`: any error but ENOENT is logged.
unfoldable pub try_stat : Host → Text → M (Option Stats)
try_stat h path w = elim (h.stat w path) [
  | found stats ↦ (ok (some stats), w)
  | missing ↦ (ok none, w)
  | unreadable err ↦ (ok none, record w { trace = wrote (stat_failed path err) ∷ w.trace })
]

abbrev pub is_file : Option Stats → Bool
is_file none = false
is_file (some stats) = stats.is_file

abbrev pub runs : Host → Option Stats → Bool
runs h none = false
runs h (some stats) = is_unix_executable h stats

unfoldable pub case_failed : Text → Text
case_failed path =
    codes "Unexpected error attempting to determine the actual case of the file '" ++ path

-- The first name of the directory that is the wanted one up to case.
unfoldable pub actual_name : Host → Text → List Text → Option Text
actual_name h upper_name [] = none
actual_name h upper_name (actual ∷ names) =
    if text_eq upper_name (h.to_upper actual) then some actual else actual_name h upper_name names

unfoldable pub with_case : Host → Text → M Text
unfolding actual_name
with_case h path w = elim (h.readdir w (h.dirname path)) [
  | none ↦ (ok path, record w { trace = wrote (case_failed path) ∷ w.trace })
  | some names ↦ elim (actual_name h (h.to_upper (h.basename path)) names) [
    | none ↦ (ok path, w)
    | some actual ↦ (ok (h.join (h.dirname path) actual), w)
  ]
]

-- The loop over the extensions.
unfoldable pub try_extensions : Host → Text → List Text → M Text
try_extensions h original [] = pure []
try_extensions h original (extension ∷ rest) = do
  stats ← try_stat h (original ++ extension)
  let more = try_extensions h original rest
  if is_file stats
      then if is_windows h
        then with_case h (original ++ extension)
        else if runs h stats
        then pure (original ++ extension)
        else more
      else more

-- The executable file of a path, with one of the extensions put to it, or an empty text.
unfoldable pub try_get_executable_path : Host → Text → List Text → M Text
unfolding try_extensions
try_get_executable_path h path extensions = do
  stats ← try_stat h path
  let more = try_extensions h path extensions
  if is_file stats
      then if is_windows h
        then if any (λ valid. text_eq (h.to_upper valid) (h.to_upper (h.extname path))) extensions
          then pure path
          else more
        else if runs h stats
        then pure path
        else more
      else more

-- The parts of a variable like PATH that are not empty.
unfoldable pub parts_of : Host → Option Text → List Text
parts_of h value =
    if is_empty (or_empty value)
    then []
    else filter (λ p. not (is_empty p)) (split h.delimiter (or_empty value))

-- The loop over the directories.
unfoldable pub search_directories : Host → Text → List Text → List Text → M (List Text)
search_directories h tool extensions [] = pure []
search_directories h tool extensions (directory ∷ rest) = do
  path ← try_get_executable_path h (h.join directory tool) extensions
  matches ← search_directories h tool extensions rest
  pure (if is_empty path then matches else path ∷ matches)

unfoldable pub find_rooted : Host → Text → List Text → M (List Text)
find_rooted h tool extensions = do
  path ← try_get_executable_path h tool extensions
  pure (if is_empty path then [] else path ∷ [])

unfoldable pub find_in_path : Host → Text → M (List Text)
unfolding parts_of search_directories find_rooted
find_in_path h tool = do
  throw_if (is_empty tool) (plain_error (codes "parameter 'tool' is required"))
  pathext ← get_env (codes "PATHEXT")
  let extensions = if is_windows h then parts_of h pathext else []
  rooted ← is_rooted h tool
  path ← get_env (codes "PATH")
  if rooted
      then find_rooted h tool extensions
      else if includes tool h.sep
      then pure []
      else search_directories h tool extensions (parts_of h path)

unfoldable pub not_located : Host → Text → Text
not_located h tool =
    codes "Unable to locate executable file: "
    ++ (tool
        ++ (codes
              ". Please verify either the file path exists or the file can be found within a directory specified by the PATH environment variable. "
            ++ (if is_windows h
                then codes "Also verify the file has a valid extension for an executable file."
                else codes "Also check the file mode to verify the file is executable.")))

abbrev pub first_match : List Text → Text
first_match [] = []
first_match (path ∷ rest) = path

unfoldable pub which : Host → Text → Bool → M Text
unfolding find_in_path
which h tool check = do
  throw_if (is_empty tool) (plain_error (codes "parameter 'tool' is required"))
  matches ← find_in_path h tool
  if check && is_empty (first_match matches)
      then throw (plain_error (not_located h tool))
      else pure (first_match matches)

-- `fs.promises.mkdir` with `recursive`.
unfoldable pub make_directory : Host → Text → M (Unit {0})
make_directory h path w = elim (h.mkdir w path) [
  | some err ↦ (throws err, w)
  | none ↦ (ok tt, record w { trace = made_dir path ∷ w.trace })
]

unfoldable pub mkdir_p : Host → Text → M (Unit {0})
unfolding make_directory
mkdir_p h path = do
  throw_if (is_empty path) (assertion_error (codes "a path argument must be provided"))
  make_directory h path

-- `fs.promises.rm` with `force` and `recursive`, under its `try`.
unfoldable pub remove : Host → Text → M (Unit {0})
remove h path w = elim (h.rm w path) [
  | some err ↦ (throws (plain_error (codes "File was unable to be removed " ++ to_string err)), w)
  | none ↦ (ok tt, record w { files = update w.files path none; trace = removed path ∷ w.trace })
]

unfoldable pub rm_rf : Host → Text → M (Unit {0})
unfolding remove
rm_rf h path = do
  throw_if (is_windows h && any (λ c. includes path c) (codes "*\"<>|"))
      (plain_error (codes "File path must not contain `*`, `\"`, `<`, `>` or `|` on Windows"))
  remove h path

-- `exists`: any error of `stat` but ENOENT is passed on.
unfoldable pub exists : Host → Text → M Bool
exists h path w = elim (h.stat w path) [
  | found stats ↦ (ok true, w)
  | missing ↦ (ok false, w)
  | unreadable err ↦ (throws err, w)
]
