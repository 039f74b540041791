-- ===== src/Runtime/Sample.antt =====
-- A concrete Linux host and process state, for runs of the models.
use coherence_operator.Prelude.{
  ℕ, [], ◌∷◌, ◌++◌, Option, none, some, true, Text, codes, leb, ◌&&◌, if◌then◌else◌, map, ◌+◌, ◌-◌,
}
use coherence_operator.Runtime.{
  World, Host, answered, complete, plain_error, found, exited, closed, update,
}

abbrev pub upper_char : ℕ → ℕ
upper_char c = if leb b'a' c && leb c b'z' then c - 32 else c

abbrev pub lower_char : ℕ → ℕ
lower_char c = if leb b'A' c && leb c b'Z' then c + 32 else c

abbrev pub sample_env : Text → Option Text
sample_env =
    update
      (update (update (λ _. none) (codes "RUNNER_TEMP") (some (codes "/tmp"))) (codes "PATH")
        (some (codes "/bin")))
      (codes "INPUT_VERSION") (some (codes " 1.3.1 "))

abbrev pub sample_world : World
sample_world = record { env = sample_env; files = λ _. none; exit_code = none; trace = [] }

-- A host on which every call succeeds; the SHA256 sum of each file is the one of the tarball of
-- release 1.3.1 for Linux on amd64.
abbrev pub sample_host : Host
sample_host = record {
  platform = codes "linux";
  arch = codes "x64";
  eol = codes "\n";
  delimiter = b':';
  sep = b'/';
  to_lower = map lower_char;
  to_upper = map upper_char;
  join = λ a b. a ++ b'/' ∷ b;
  dirname = λ a. codes "/tmp";
  basename = λ a. a;
  extname = λ a. [];
  resolve = λ a b c. c;
  cwd = codes "/";
  sha256 = λ content. codes "d52c4af76ce6a3ceb8579e51fb751a43ac051cca67f965f973a0b0e897a2bb86";
  uuid = λ w. codes "id";
  random_below = λ w n. 0;
  getuid = some 0;
  getgid = some 0;
  read_error = λ path. plain_error (codes "ENOENT");
  http_get = λ w url. answered 200 (codes "OK") (complete (codes "tarball"));
  mkdir = λ w path. none;
  rm = λ w path. none;
  stat = λ w path. found (record { is_file = true; mode = 0o755; uid = 0; gid = 0 });
  readdir = λ w path. some [];
  spawn = λ w file args cwd. record {
    events = exited (some 0) ∷ closed (some 0) ∷ [];
    files = w.files;
  };
}

abbrev pub freebsd_host : Host
freebsd_host = record sample_host { platform = codes "freebsd" }
