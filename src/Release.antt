-- ===== src/Release.antt =====
-- src/lib/release.ts of .github/actions/setup-oras-2.0.1, as it stands in dist/index.js: the
-- choice of the download and its expected checksum.
pub mod Defs
pub mod Table
pub mod Official
pub mod Choice
pub mod Refusal
pub mod Tame
mod Tests
use coherence_operator.Prelude.{
  List, [], ◌∷◌, ◌++◌, Option, none, some, Bool, true, false, not, ◌&&◌, ◌||◌, any, Text, codes,
  text_eq, is_empty, if◌then◌else◌,
}
use coherence_operator.Runtime.{
  World, Host, M, ◌>>=◌, ◌>>◌, pure, throw, perform, wrote, plain_error, type_error,
}
use coherence_operator.Release.Defs.{Download, Platforms, property}
use coherence_operator.Release.Table.{releases_default}

unfoldable pub unsupported_platform : Text → Text
unsupported_platform platform = codes "unsupported platform: " ++ platform

unfoldable pub unsupported_architecture : Text → Text
unsupported_architecture architecture = codes "unsupported architecture: " ++ architecture

unfoldable pub unknown_version : Text → Text
unknown_version version = codes "official ORAS CLI releases does not contain version " ++ version

unfoldable pub no_download : Text → Text → Text → Text
unfolding unknown_version
no_download version platform arch =
    unknown_version version
    ++ (codes ", platform "
        ++ (platform ++ (codes ", arch " ++ (arch ++ codes " is not supported"))))

unfoldable pub no_checksum : Text
no_checksum = codes "user provided url of customized ORAS CLI release but without SHA256 checksum"

unfoldable pub no_url : Text
no_url = codes "user provided SHA256 checksum but without url"

-- The message of V8 for `undefined[key]`.
unfoldable pub cannot_read : Text → Text
cannot_read key = codes "Cannot read properties of undefined (reading '" ++ (key ++ codes "')")

-- The cases of `mapPlatform`.
unfoldable pub platform_name : Text → Option Text
platform_name platform =
    if text_eq platform (codes "linux")
    then some (codes "linux")
    else if text_eq platform (codes "darwin")
    then some (codes "darwin")
    else if text_eq platform (codes "win32")
    then some (codes "windows")
    else if text_eq platform (codes "freebsd")
    then some (codes "freebsd")
    else none

unfoldable pub map_platform : Host → M Text
map_platform h = elim (platform_name h.platform) [
  | some name ↦ pure name
  | none ↦ throw (plain_error (unsupported_platform h.platform))
]

-- The cases of `mapArch`. The source lists "arm64" twice; the second case is never reached.
unfoldable pub arch_name : Text → Option Text
arch_name architecture =
    if text_eq architecture (codes "x64")
    then some (codes "amd64")
    else if text_eq architecture (codes "arm64")
    then some (codes "arm64")
    else if text_eq architecture (codes "ppc64")
    then some (codes "ppc64le")
    else if text_eq architecture (codes "riscv64")
    then some (codes "riscv64")
    else if text_eq architecture (codes "s390x")
    then some (codes "s390x")
    else if text_eq architecture (codes "arm")
    then some (codes "armv7")
    else none

unfoldable pub map_arch : Host → M Text
map_arch h = elim (arch_name h.arch) [
  | some name ↦ pure name
  | none ↦ throw (plain_error (unsupported_architecture h.arch))
]

-- `.exe` on Windows; it throws with `map_platform`.
unfoldable pub get_binary_extension : Host → M Text
get_binary_extension h = do
  platform ← map_platform h
  pure (if text_eq platform (codes "windows") then codes ".exe" else [])

-- The names that an object literal inherits from `Object.prototype`, so that `name in object`.
unfoldable pub inherited_names : List Text
inherited_names =
    codes "constructor"
    ∷ codes "__defineGetter__"
    ∷ codes "__defineSetter__"
    ∷ codes "hasOwnProperty"
    ∷ codes "__lookupGetter__"
    ∷ codes "__lookupSetter__"
    ∷ codes "isPrototypeOf"
    ∷ codes "propertyIsEnumerable"
    ∷ codes "toString"
    ∷ codes "valueOf"
    ∷ codes "__proto__"
    ∷ codes "toLocaleString"
    ∷ []

unfoldable pub is_inherited : Text → Bool
is_inherited name = any (text_eq name) inherited_names

-- `releases[version][platform][arch]` for a version that is `in` the releases.
unfoldable pub pick : Host → Text → Platforms → M Download
unfolding map_platform map_arch
pick h version platforms = do
  platform ← map_platform h
  arch ← map_arch h
  elim (property platform platforms) [
    | none ↦ throw (type_error (cannot_read arch))
    | some arches ↦ elim (property arch arches) [
      | none ↦ throw (plain_error (no_download version platform arch))
      | some found ↦ pure found
    ]
  ]

-- The part below the sanity checks. What a version inherited from `Object.prototype` leads to has
-- no property named like a platform.
unfoldable pub official : Host → Text → M Download
official h version = elim (property version releases_default) [
  | some platforms ↦ pick h version platforms
  | none ↦ if is_inherited version then pick h version [] else do
    perform (wrote (unknown_version version ++ codes "\n"))
    throw (plain_error (unknown_version version))
]

unfoldable pub get_release_info : Host → Text → Text → Text → M Download
get_release_info h version url checksum =
    if not (is_empty url) && not (is_empty checksum)
    then pure (record { checksum = checksum; url = url })
    else if not (is_empty url) && is_empty checksum
    then throw (plain_error no_checksum)
    else if is_empty url && not (is_empty checksum)
    then throw (plain_error no_url)
    else official h version
