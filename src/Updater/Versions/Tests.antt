-- ===== src/Updater/Versions/Tests.antt =====
-- Comparisons of versions, and the theorem about them at two releases.
use coherence_operator.Prelude.{
  ◌≡◌, refl, ◌↔◌, some, none, true, false, codes, split, pos, starts_with,
}
use coherence_operator.Updater.Versions.{
  compare_semver, is_newer, is_release, is_release_tag, is_number,
}
use coherence_operator.Updater.Versions.Order.{Precedes, key, compare_semver-Precedes}

tags :
    (is_release_tag (codes "v1.3.0") ≡ true)
    × (is_release_tag (codes "1.3.0") ≡ false)
    × (is_release_tag (codes "v1.3.0-rc.1") ≡ false)
    × (is_release_tag (codes "v1..0") ≡ false)
unfolding is_release_tag is_release is_number split starts_with
tags = (refl, refl, refl, refl)

compare_semver-Precedes_example :
    ((is_newer (λ s. none) (codes "1.10.0") (codes "1.9.3") ≡ true)
      ↔ Precedes (key (codes "1.9.3")) (key (codes "1.10.0")))
    × ((compare_semver (λ s. none) (codes "1.10.0") (codes "1.9.3") ≡ some (pos 0))
        ↔ (key (codes "1.10.0") ≡ key (codes "1.9.3")))
unfolding is_release is_number split
compare_semver-Precedes_example =
    compare_semver-Precedes (λ s. none) (codes "1.10.0") (codes "1.9.3") refl refl
