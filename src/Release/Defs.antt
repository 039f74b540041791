-- ===== src/Release/Defs.antt =====
-- The shape of `releases_default` and a property access on it, `object[key]`.
use Prim.Native.String.{String}
use coherence_operator.Prelude.{
  List, [], ◌∷◌, Option, none, some, Text, codes, text_eq, if◌then◌else◌,
}

pub record Download : Type 0 where
  pub checksum : Text
  pub url : Text

abbrev pub download : String → String → Download
download checksum url = record { checksum = codes checksum; url = codes url }

abbrev pub Arches : Type 0
Arches = List (Text × Download)

abbrev pub Platforms : Type 0
Platforms = List (Text × Arches)

abbrev pub Releases : Type 0
Releases = List (Text × Platforms)

unfoldable pub property : {V : Type 0} → Text → List (Text × V) → Option V
property key [] = none
property key ((k, v) ∷ rest) = if text_eq k key then some v else property key rest
