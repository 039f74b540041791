-- ===== src/Io/Settle.antt =====
-- `which` comes to an end.
use coherence_operator.Prelude.{
  List, [], ◌∷◌, ◌≡◌, ◌⊎◌, refl, any, text_eq, codes, includes, if◌then◌else◌, Bool, Text,
  Option-cases, inl, inr,
}
use coherence_operator.Runtime.{Host, Thrown, Stats, StatResult, found, missing, unreadable}
use coherence_operator.Runtime.Obey.{
  pure-Obeys, throw-Obeys, if-Obeys, throw_if-Obeys, >>=-Obeys, >>-Obeys,
}
use coherence_operator.Runtime.Settle.{Settles, get_env-Settles, settling_law}
use coherence_operator.Io.{
  is_windows, is_rooted, try_stat, with_case, actual_name, try_extensions, try_get_executable_path,
  search_directories, find_rooted, find_in_path, which, is_file, runs, parts_of,
}

pub is_rooted-Settles : (h : Host) → (p : Text) → Settles (is_rooted h p)
unfolding is_rooted
is_rooted-Settles h p = if-Obeys _ (throw-Obeys _) (pure-Obeys _)

pub StatResult-cases :
    (r : StatResult)
    → ((stats : Stats) × (r ≡ found stats)) ⊎ ((r ≡ missing) ⊎ ((e : Thrown) × (r ≡ unreadable e)))
StatResult-cases (found stats) = inl (stats, refl)
StatResult-cases missing = inr (inl refl)
StatResult-cases (unreadable e) = inr (inr (e, refl))

try_stat-Settles : (h : Host) → (path : Text) → Settles (try_stat h path)
unfolding try_stat
try_stat-Settles h path = record {
  obeys = λ w. elim (StatResult-cases (h.stat w path)) [
    | inl (stats, e) ↦ rw (e, try_stat) tt
    | inr (inl e) ↦ rw (e, try_stat) tt
    | inr (inr (err, e)) ↦ rw (e, try_stat) tt
  ];
}

with_case-Settles : (h : Host) → (path : Text) → Settles (with_case h path)
unfolding with_case
with_case-Settles h path = record {
  obeys = λ w. elim (Option-cases (h.readdir w (h.dirname path))) [
    | inl e ↦ rw (e, with_case) tt
    | inr (names, e) ↦ elim (Option-cases (actual_name h (h.to_upper (h.basename path)) names)) [
      | inl absent ↦ rw (e, absent, with_case) tt
      | inr (actual, there) ↦ rw (e, there, with_case) tt
    ]
  ];
}

try_extensions-Settles :
    (h : Host)
    → (original : Text) → (extensions : List Text) → Settles (try_extensions h original extensions)
unfolding try_extensions
try_extensions-Settles h original [] = pure-Obeys []
try_extensions-Settles h original (extension ∷ rest) =
    let more = try_extensions-Settles h original rest in
    >>=-Obeys (try_stat-Settles h _)
      λ stats. if-Obeys _ (if-Obeys _ (with_case-Settles h _) (if-Obeys _ (pure-Obeys _) more)) more

try_get_executable_path-Settles :
    (h : Host)
    → (path : Text) → (extensions : List Text) → Settles (try_get_executable_path h path extensions)
unfolding try_get_executable_path
try_get_executable_path-Settles h path extensions =
    let more = try_extensions-Settles h path extensions in
    >>=-Obeys (try_stat-Settles h path) λ stats.
      if-Obeys (is_file stats)
        (if-Obeys (is_windows h)
          (if-Obeys
            (any (λ valid. text_eq (h.to_upper valid) (h.to_upper (h.extname path))) extensions)
            (pure-Obeys path) more)
          (if-Obeys (runs h stats) (pure-Obeys path) more))
        more

search_directories-Settles :
    (h : Host)
    → (tool : Text) → (extensions directories : List Text)
    → Settles (search_directories h tool extensions directories)
unfolding search_directories
search_directories-Settles h tool extensions [] = pure-Obeys []
search_directories-Settles h tool extensions (directory ∷ rest) =
    >>=-Obeys (try_get_executable_path-Settles h _ extensions)
      λ path. >>=-Obeys (search_directories-Settles h tool extensions rest) λ matches. pure-Obeys _

find_rooted-Settles :
    (h : Host) → (tool : Text) → (extensions : List Text) → Settles (find_rooted h tool extensions)
unfolding find_rooted
find_rooted-Settles h tool extensions =
    >>=-Obeys (try_get_executable_path-Settles h tool extensions) λ path. pure-Obeys _

find_in_path-Settles : (h : Host) → (tool : Text) → Settles (find_in_path h tool)
unfolding find_in_path
find_in_path-Settles h tool = >>-Obeys (throw_if-Obeys _ _) (
    >>=-Obeys (get_env-Settles (codes "PATHEXT")) λ pathext.
      let extensions = if is_windows h then parts_of h pathext else [] in
      >>=-Obeys (is_rooted-Settles h tool) λ rooted.
        >>=-Obeys (get_env-Settles (codes "PATH")) λ path.
          if-Obeys rooted (find_rooted-Settles h tool extensions) (
            if-Obeys (includes tool h.sep) (pure-Obeys [])
              (search_directories-Settles h tool extensions (parts_of h path))))

-- `which` comes to an end on every host.
pub which-Settles : (h : Host) → (tool : Text) → (check : Bool) → Settles (which h tool check)
unfolding which
which-Settles h tool check =
    >>-Obeys (throw_if-Obeys _ _)
      (>>=-Obeys (find_in_path-Settles h tool) λ matches. if-Obeys _ (throw-Obeys _) (pure-Obeys _))
