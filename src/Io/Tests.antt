-- ===== src/Io/Tests.antt =====
-- The theorem about `which` at a concrete input.
use coherence_operator.Prelude.{
  ◌≡◌, ◌≢◌, ◌∷◌, [], refl, true, codes, List, Text, text_eq, starts_with, includes, split,
}
use coherence_operator.Runtime.{ok}
use coherence_operator.Runtime.Sample.{sample_host, sample_world}
use coherence_operator.Io.{
  which, find_in_path, is_windows, normalize_separators, is_rooted, parts_of, search_directories,
  try_get_executable_path, try_stat, is_unix_executable,
}
use coherence_operator.Io.Find.{which-eq-ok}

tar_found :
    which sample_host (codes "tar") true sample_world ≡ (ok (codes "/bin/tar"), sample_world)
unfolding which is_windows normalize_separators is_rooted parts_of search_directories
    try_get_executable_path try_stat is_unix_executable text_eq starts_with includes split
tar_found = refl

which-eq-ok_example :
    (codes "tar" ≢ [])
    × (codes "/bin/tar" ≢ [])
    × ((rest : List Text) × (find_in_path sample_host (codes "tar") sample_world
          ≡ (ok (codes "/bin/tar" ∷ rest), sample_world)))
which-eq-ok_example =
    which-eq-ok sample_host (codes "tar") (codes "/bin/tar") sample_world sample_world tar_found
