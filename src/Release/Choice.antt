-- ===== src/Release/Choice.antt =====
-- What `getReleaseInfo` returns and throws, on every branch.
use coherence_operator.Prelude.{
  ◌≡◌, ◌≢◌, ◌↔◌, ◌⊎◌, inl, inr, [], ◌∷◌, Option, none, some, Text, Option-cases, arith,
}
use coherence_operator.Runtime.{World, Host, ok}
use coherence_operator.Release.Defs.{Download, Platforms, property}
use coherence_operator.Release.Table.{releases_default}
use coherence_operator.Release.Official.{entry}
use coherence_operator.Release.{platform_name, arch_name, pick, official, get_release_info}

-- The table's entry for a version, on the runner's platform and architecture.
unfoldable pub listed : Host → Text → Option Download
listed h version = elim (platform_name h.platform) [
  | none ↦ none
  | some platform ↦ elim (arch_name h.arch) [
    | none ↦ none
    | some arch ↦ entry version platform arch
  ]
]

-- The download that the inputs and the runner stand for: the user's own, or the table's entry for
-- the runner's platform and architecture.
abbrev pub IsChoice : Host → Text → Text → Text → Download → Type 0
IsChoice h version url checksum found =
    (url ≢ []) × (checksum ≢ []) × (found ≡ record { checksum = checksum; url = url })
    ⊎ (url ≡ []) × (checksum ≡ []) × (listed h version ≡ some found)

pick-eq-ok_iff :
    (h : Host) (version : Text) (platforms : Platforms) (w : World) (found : Download)
    → property version releases_default ≡ some platforms
    → (pick h version platforms w ≡ (ok found, w)) ↔ (listed h version ≡ some found)
unfolding pick listed entry
pick-eq-ok_iff h version platforms w found hv = ground (arith, hv)

pick-nil :
    (h : Host) (version : Text) (w : World) (found : Download) → (pick h version [] w).0 ≢ ok found
unfolding pick property
pick-nil h version w found e = ground arith

official-eq-ok_iff :
    (h : Host) (version : Text) (w : World) (found : Download)
    → (official h version w ≡ (ok found, w)) ↔ (listed h version ≡ some found)
unfolding official
official-eq-ok_iff h version w found = elim (Option-cases (property version releases_default)) [
  | inl absent ↦ (
    λ e. ground (arith, absent, e, pick-nil h version w found),
    λ e. unfold listed entry in ground (arith, absent, e),
  )
  | inr (platforms, hv) ↦ (
    λ e. (pick-eq-ok_iff h version platforms w found hv).0 (ground (arith, hv, e)),
    λ e. ground (arith, hv, (pick-eq-ok_iff h version platforms w found hv).1 e),
  )
]

-- `getReleaseInfo` returns a download and leaves the process as it was exactly if the download is the
-- choice that the inputs and the runner stand for: with both a URL and a checksum given, these two,
-- whatever the version; with neither, the entry of the version for the runner's platform and
-- architecture.
pub get_release_info-eq-ok_iff :
    (h : Host) (version url checksum : Text) (w : World) (found : Download)
    → (get_release_info h version url checksum w ≡ (ok found, w))
      ↔ IsChoice h version url checksum found
unfolding get_release_info
get_release_info-eq-ok_iff h version [] [] w found =
    ground (arith, official-eq-ok_iff h version w found)
get_release_info-eq-ok_iff h version [] (c ∷ checksum) w found = ground arith
get_release_info-eq-ok_iff h version (u ∷ url) [] w found = ground arith
get_release_info-eq-ok_iff h version (u ∷ url) (c ∷ checksum) w found = ground arith
