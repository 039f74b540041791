-- ===== src/Release/Tame.antt =====
-- The choice of a release starts no process, leaves the environment and the exit code alone, and comes
-- to an end.
use coherence_operator.Prelude.{
  refl, Option, none, some, Text, [], Option-cases, inl, inr, is_empty, ◌&&◌, not,
}
use coherence_operator.Runtime.{Host, M, throw, pure, plain_error, type_error}
use coherence_operator.Runtime.Obey.{pure-Obeys, throw-Obeys, if-Obeys, >>=-Obeys, >>-Obeys}
use coherence_operator.Runtime.Quiet.{IsTame, tame_law, spawns, perform-IsTame}
use coherence_operator.Release.Defs.{Download, Arches, Platforms, property}
use coherence_operator.Release.Table.{releases_default}
use coherence_operator.Release.{
  map_platform, map_arch, platform_name, arch_name, pick, official, get_release_info, is_inherited,
  cannot_read, no_download, no_checksum, no_url,
}

map_platform-IsTame : {P : Type 0} → (h : Host) → IsTame P (map_platform h)
unfolding map_platform
map_platform-IsTame h = elim (Option-cases (platform_name h.platform)) [
  | inl absent ↦ rw (absent, map_platform) (throw-Obeys _)
  | inr (name, there) ↦ rw (there, map_platform) (pure-Obeys name)
]

map_arch-IsTame : {P : Type 0} → (h : Host) → IsTame P (map_arch h)
unfolding map_arch
map_arch-IsTame h = elim (Option-cases (arch_name h.arch)) [
  | inl absent ↦ rw (absent, map_arch) (throw-Obeys _)
  | inr (name, there) ↦ rw (there, map_arch) (pure-Obeys name)
]

entry-IsTame :
    {P : Type 0}
    → (message : Text) → (o : Option Download)
    → IsTame P (elim o as (λ _. M Download) [
      | none ↦ throw (plain_error message)
      | some found ↦ pure found
    ])
entry-IsTame message none = throw-Obeys _
entry-IsTame message (some found) = pure-Obeys found

download-IsTame :
    {P : Type 0}
    → (version platform arch : Text) → (o : Option Arches)
    → IsTame P (elim o as (λ _. M Download) [
      | none ↦ throw (type_error (cannot_read arch))
      | some arches ↦ elim (property arch arches) as (λ _. M Download) [
        | none ↦ throw (plain_error (no_download version platform arch))
        | some found ↦ pure found
      ]
    ])
download-IsTame version platform arch none = throw-Obeys _
download-IsTame version platform arch (some arches) =
    entry-IsTame (no_download version platform arch) (property arch arches)

pick-IsTame :
    {P : Type 0}
    → (h : Host) → (version : Text) → (platforms : Platforms) → IsTame P (pick h version platforms)
unfolding pick
pick-IsTame h version platforms = >>=-Obeys (map_platform-IsTame h) λ platform.
    >>=-Obeys (map_arch-IsTame h)
      λ arch. download-IsTame version platform arch (property platform platforms)

official-IsTame : {P : Type 0} → (h : Host) → (version : Text) → IsTame P (official h version)
unfolding spawns official
official-IsTame h version = elim (Option-cases (property version releases_default)) [
  | inl absent ↦
      rw (absent, official)
        (if-Obeys (is_inherited version) (pick-IsTame h version [])
          (>>-Obeys (perform-IsTame _ λ es. refl) (throw-Obeys _)))
  | inr (platforms, there) ↦ rw (there, official) (pick-IsTame h version platforms)
]

pub get_release_info-IsTame :
    {P : Type 0}
    → (h : Host) → (version url checksum : Text)
    → IsTame P (get_release_info h version url checksum)
unfolding get_release_info
get_release_info-IsTame h version url checksum =
    if-Obeys (not (is_empty url) && not (is_empty checksum)) (pure-Obeys _) (
      if-Obeys (not (is_empty url) && is_empty checksum) (throw-Obeys (plain_error no_checksum)) (
        if-Obeys (is_empty url && not (is_empty checksum)) (throw-Obeys (plain_error no_url))
          (official-IsTame h version)))
