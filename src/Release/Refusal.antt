-- ===== src/Release/Refusal.antt =====
-- What `getReleaseInfo` throws, and when.
use coherence_operator.Prelude.{
  ◌≡◌, refl, ap, ◌∙◌, ◌≢◌, ◌⊎◌, inl, inr, [], ◌∷◌, none, some, true, false, Text, codes, Bool-cases,
  Option-cases, text_eq, arith,
}
use coherence_operator.Runtime.{World, Host, throws, Thrown, plain_error, type_error}
use coherence_operator.Release.Defs.{Arches, Platforms, property}
use coherence_operator.Release.Table.{releases_default}
use coherence_operator.Release.{
  platform_name, arch_name, pick, official, get_release_info, no_checksum, no_url, cannot_read,
  is_inherited, unknown_version, unsupported_platform, unsupported_architecture, no_download,
}

-- The errors below the sanity checks, for the platforms that `releases[version]` has.
pub data IsUnavailable (h : Host) (version : Text) (platforms : Platforms) (e : Thrown)
    : Type 0 where
  other_platform :
      platform_name h.platform ≡ none
      → e ≡ plain_error (unsupported_platform h.platform)
      → IsUnavailable h version platforms e
  other_arch :
      arch_name h.arch ≡ none
      → e ≡ plain_error (unsupported_architecture h.arch)
      → IsUnavailable h version platforms e
  lacks_platform :
      {platform arch : Text}
      → platform_name h.platform ≡ some platform
      → arch_name h.arch ≡ some arch
      → property platform platforms ≡ none
      → e ≡ type_error (cannot_read arch)
      → IsUnavailable h version platforms e
  lacks_arch :
      {platform arch : Text} {arches : Arches}
      → platform_name h.platform ≡ some platform
      → arch_name h.arch ≡ some arch
      → property platform platforms ≡ some arches
      → property arch arches ≡ none
      → e ≡ plain_error (no_download version platform arch)
      → IsUnavailable h version platforms e

pick-IsUnavailable :
    (h : Host) (version : Text) (platforms : Platforms) (w w' : World) (e : Thrown)
    → pick h version platforms w ≡ (throws e, w')
    → IsUnavailable h version platforms e
unfolding pick
pick-IsUnavailable h version platforms w w' e t = elim (Option-cases (platform_name h.platform)) [
  | inl p ↦ other_platform p (ground (arith, p, t))
  | inr (platform, p) ↦ elim (Option-cases (arch_name h.arch)) [
    | inl a ↦ other_arch a (ground (arith, p, a, t))
    | inr (arch, a) ↦ elim (Option-cases (property platform platforms)) [
      | inl missing ↦ lacks_platform p a missing (ground (arith, p, a, missing, t))
      | inr (arches, q) ↦ elim (Option-cases (property arch arches)) [
        | inl lacking ↦ lacks_arch p a q lacking (ground (arith, p, a, q, lacking, t))
        | inr (found, there) ↦ absurd (ground (arith, p, a, q, there, t))
      ]
    ]
  ]
]

pub data IsRefused (h : Host) (version url checksum : Text) (e : Thrown) : Type 0 where
  lacks_checksum :
      url ≢ [] → checksum ≡ [] → e ≡ plain_error no_checksum → IsRefused h version url checksum e
  lacks_url : url ≡ [] → checksum ≢ [] → e ≡ plain_error no_url → IsRefused h version url checksum e
  lacks_version :
      url ≡ []
      → checksum ≡ []
      → property version releases_default ≡ none
      → is_inherited version ≡ false
      → e ≡ plain_error (unknown_version version)
      → IsRefused h version url checksum e
  unavailable :
      {platforms : Platforms}
      → url ≡ []
      → checksum ≡ []
      → property version releases_default ≡ some platforms
      → IsUnavailable h version platforms e
      → IsRefused h version url checksum e
  inherited :
      url ≡ []
      → checksum ≡ []
      → is_inherited version ≡ true
      → IsUnavailable h version [] e
      → IsRefused h version url checksum e

official-IsRefused :
    (h : Host) (version : Text) (w w' : World) (e : Thrown)
    → official h version w ≡ (throws e, w')
    → IsRefused h version [] [] e
unfolding official
official-IsRefused h version w w' e t = elim (Option-cases (property version releases_default)) [
  | inl absent ↦ elim (Bool-cases (is_inherited version)) [
    | inl old ↦
        inherited refl refl old
          (pick-IsUnavailable h version [] w w' e (ground (arith, absent, old, t)))
    | inr new ↦ lacks_version refl refl absent new (ground (arith, absent, new, t))
  ]
  | inr (platforms, hv) ↦
      unavailable refl refl hv
        (pick-IsUnavailable h version platforms w w' e (ground (arith, hv, t)))
]

-- Whatever `getReleaseInfo` throws is one of the errors of `IsRefused`, in the case that it is for: one
-- of URL and checksum without the other, a version that is neither in the table nor a name inherited
-- from `Object.prototype`, a platform or architecture that is not supported, a version without the
-- architecture, or, as a TypeError, a version without the platform.
pub get_release_info-IsRefused :
    (h : Host) (version url checksum : Text) (w w' : World) (e : Thrown)
    → get_release_info h version url checksum w ≡ (throws e, w')
    → IsRefused h version url checksum e
unfolding get_release_info
get_release_info-IsRefused h version [] [] w w' e t = official-IsRefused h version w w' e t
get_release_info-IsRefused h version [] (c ∷ checksum) w w' e t =
    lacks_url refl (ground arith) (ground arith)
get_release_info-IsRefused h version (u ∷ url) [] w w' e t =
    lacks_checksum (ground arith) refl (ground arith)
get_release_info-IsRefused h version (u ∷ url) (c ∷ checksum) w w' e t = cc

pick-lacks_platform :
    (h : Host) (version platform arch : Text) (platforms : Platforms) (w : World)
    → platform_name h.platform ≡ some platform
    → arch_name h.arch ≡ some arch
    → property platform platforms ≡ none
    → pick h version platforms w ≡ (throws (type_error (cannot_read arch)), w)
unfolding pick
pick-lacks_platform h version platform arch platforms w p a missing = ground arith

freebsd_name : platform_name (codes "freebsd") ≡ some (codes "freebsd")
unfolding platform_name text_eq
freebsd_name = refl

-- The releases without a build for FreeBSD.
abbrev pub IsEarly : Text → Type 0
IsEarly version = (version ≡ codes "1.0.0") ⊎ (version ≡ codes "1.0.1") ⊎ (version ≡ codes "1.1.0")

-- On FreeBSD, with a supported architecture, each of the releases 1.0.0, 1.0.1 and 1.1.0 makes
-- `getReleaseInfo` throw a TypeError in place of the error that says what is not supported.
pub freebsd-type_error :
    (h : Host) (version arch : Text) (w : World)
    → IsEarly version
    → h.platform ≡ codes "freebsd"
    → arch_name h.arch ≡ some arch
    → get_release_info h version [] [] w ≡ (throws (type_error (cannot_read arch)), w)
unfolding get_release_info official property releases_default text_eq
freebsd-type_error h version arch w early p a =
    let named = ap platform_name p ∙ freebsd_name in
    let refused = λ (ps : Platforms) (q : property (codes "freebsd") ps ≡ none).
      pick-lacks_platform h version (codes "freebsd") arch ps w named a q in
    elim early [
      | inl e ↦ rw e (refused _ refl)
      | inr (inl e) ↦ rw e (refused _ refl)
      | inr (inr e) ↦ rw e (refused _ refl)
    ]
