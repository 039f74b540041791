-- ===== src/Release/Official.antt =====
-- What holds of every entry of the table of official releases.
use coherence_operator.Prelude.{
  ℕ, ◌≤◌, ◌≡◌, refl, ◌⊎◌, inl, inr, List, [], ◌∷◌, ◌++◌, Option, none, some, Bool, true, ◌&&◌, ◌||◌,
  all, All, Text, codes, text_eq, text_eq_sound, Bool-cases, Option-cases, length, leb, ◌==◌,
  if◌then◌else◌, arith,
}
use coherence_operator.Release.Defs.{Download, Arches, Platforms, Releases, property}
use coherence_operator.Release.Table.{releases_default}

-- A key that is found has a value for which a test of all items passed.
property-all :
    {V : Type 0} (test : Text → V → Bool) (key : Text) (items : List (Text × V)) {v : V}
    → all (λ item. test item.0 item.1) items ≡ true
    → property key items ≡ some v
    → test key v ≡ true
unfolding property
property-all test key [] checked found = cc
property-all test key ((k, v) ∷ items) checked found = elim (Bool-cases (text_eq k key)) [
  | inl same ↦ ground (arith, text_eq_sound k key same)
  | inr other ↦ property-all test key items (ground arith) (ground arith)
]

-- A lower-case hexadecimal digit, as `hash.digest("hex")` prints it.
abbrev pub IsHexDigit : ℕ → Type 0
IsHexDigit c = (b'0' ≤ c) × (c ≤ b'9') ⊎ (b'a' ≤ c) × (c ≤ b'f')

abbrev pub IsSha256 : Text → Type 0
IsSha256 s = (length s ≡ 64) × All IsHexDigit s

is_hex_digit : ℕ → Bool
is_hex_digit c = (leb b'0' c && leb c b'9') || (leb b'a' c && leb c b'f')

is_hex_digit_sound : (c : ℕ) → is_hex_digit c ≡ true → IsHexDigit c
unfolding is_hex_digit
is_hex_digit_sound c h = ground arith

all_hex_sound : (s : Text) → all is_hex_digit s ≡ true → All IsHexDigit s
all_hex_sound [] h = tt
all_hex_sound (c ∷ s) h = (is_hex_digit_sound c (ground arith), all_hex_sound s (ground arith))

-- Where the release of a version for a platform lies: a .zip for Windows, else a .tar.gz.
abbrev pub extension : Text → Text
extension platform = if text_eq platform (codes "windows") then codes ".zip" else codes ".tar.gz"

unfoldable pub official_url : Text → Text → Text → Text
official_url version platform arch =
    codes "https://github.com/oras-project/oras/releases/download/v"
    ++ (version
        ++ (codes "/oras_"
            ++ (version ++ (b'_' ∷ (platform ++ (b'_' ∷ (arch ++ extension platform)))))))

is_official : Text → Text → Text → Download → Bool
is_official version platform arch found =
    length found.checksum == 64
    && all is_hex_digit found.checksum
    && text_eq found.url (official_url version platform arch)

all_official : Releases → Bool
unfolding is_official is_hex_digit
all_official = all (λ v. all (λ p. all (λ a. is_official v.0 p.0 a.0 a.1) p.1) v.1)

releases_default-all_official : all_official releases_default ≡ true
unfolding all_official releases_default text_eq official_url
releases_default-all_official = refl

found-IsOfficial :
    (version platform arch : Text) (platforms : Platforms) (arches : Arches) (found : Download)
    → property version releases_default ≡ some platforms
    → property platform platforms ≡ some arches
    → property arch arches ≡ some found
    → IsSha256 found.checksum × (found.url ≡ official_url version platform arch)
unfolding all_official is_official
found-IsOfficial version platform arch platforms arches found hv hp ha =
    let of_version =
      property-all (λ v. all (λ p. all (λ a. is_official v p.0 a.0 a.1) p.1)) version
        releases_default releases_default-all_official hv in
    let of_platform =
      property-all (λ p. all (λ a. is_official version p a.0 a.1)) platform platforms of_version
        hp in
    let checked = property-all (is_official version platform) arch arches of_platform ha in
    (
      (ground (arith, checked), all_hex_sound found.checksum (ground (arith, checked))),
      text_eq_sound found.url (official_url version platform arch) (ground (arith, checked)),
    )

-- `releases[version][platform][arch]`, where all three are there.
unfoldable pub entry : Text → Text → Text → Option Download
entry version platform arch = elim (property version releases_default) [
  | none ↦ none
  | some platforms ↦ elim (property platform platforms) [
    | none ↦ none
    | some arches ↦ property arch arches
  ]
]

-- Each entry of the table of releases has the 64 lower-case hexadecimal digits of a SHA256 sum as
-- its checksum, and the release page's URL of its own version, platform and architecture, which ends
-- in .zip for Windows and in .tar.gz for every other platform.
pub entry-IsOfficial :
    (version platform arch : Text) (found : Download)
    → entry version platform arch ≡ some found
    → IsSha256 found.checksum × (found.url ≡ official_url version platform arch)
unfolding entry
entry-IsOfficial version platform arch found e =
    elim (Option-cases (property version releases_default)) [
      | inl absent ↦ ground (arith, absent)
      | inr (platforms, hv) ↦ elim (Option-cases (property platform platforms)) [
        | inl absent ↦ ground (arith, hv, absent)
        | inr (arches, hp) ↦
            found-IsOfficial version platform arch platforms arches found hv hp
              (ground (arith, hv, hp, e))
      ]
    ]
