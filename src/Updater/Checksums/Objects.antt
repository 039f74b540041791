-- ===== src/Updater/Checksums/Objects.antt =====
-- Objects with text keys: a read of a property behind a write.
use coherence_operator.Prelude.{
  ◌≡◌, refl, ◌∙◌, [], ◌∷◌, List, Option, none, some, Bool, true, false, ◌&&◌, not, Text, codes,
  text_eq, text_eq_iff, if◌then◌else◌, arith, Option-cases, Bool-cases, inl, inr, ap,
}
use coherence_operator.Release.Defs.{Download, Arches, Platforms, property}
use coherence_operator.Release.{is_inherited}
use coherence_operator.Updater.Checksums.{Asset, set_property, set_arch, arches_of, add_asset}

pub property-set_property :
    {V : Type 0}
    → (key k : Text) → (v : V) → (m : List (Text × V))
    → property key (set_property k v m) ≡ (if text_eq k key then some v else property key m)
unfolding property set_property
property-set_property key k v [] = refl
property-set_property key k v ((j, u) ∷ m) =
    ground (
      arith,
      text_eq_iff k key,
      text_eq_iff j k,
      text_eq_iff j key,
      property-set_property key k v m,
    )

abbrev read_arch : Text → Option Arches → Option Download
read_arch arch none = none
read_arch arch (some arches) = property arch arches

-- `entry[platform][arch]`.
unfoldable pub find_asset : Text → Text → Platforms → Option Download
find_asset platform arch entry = read_arch arch (property platform entry)

-- The asset is one for the platform and the architecture, and these are names of properties.
unfoldable pub is_for : Text → Text → Asset → Bool
is_for platform arch asset =
    text_eq asset.platform platform
    && text_eq asset.arch arch
    && not (is_inherited asset.platform)
    && not (text_eq asset.arch (codes "__proto__"))

property-set_arch :
    (arch b : Text)
    → (d : Download) → (m : Arches)
    → property arch (set_arch b d m)
      ≡ (if text_eq b arch && not (text_eq b (codes "__proto__")) then some d else property arch m)
unfolding set_arch
property-set_arch arch b d m = ground (arith, property-set_property arch b d m)

find_asset-set_property :
    (platform arch q : Text)
    → (arches : Arches) → (entry : Platforms)
    → find_asset platform arch (set_property q arches entry)
      ≡ (if text_eq q platform then property arch arches else find_asset platform arch entry)
unfolding find_asset
find_asset-set_property platform arch q arches entry =
    ap (read_arch arch) (property-set_property platform q arches entry)
    ∙ read_if (text_eq q platform)
  where
    read_if :
        (b : Bool)
        → read_arch arch (if b then some arches else property platform entry)
          ≡ (if b then property arch arches else read_arch arch (property platform entry))
    read_if true = refl
    read_if false = refl

property-arches_of :
    (platform arch : Text)
    → (entry : Platforms)
    → property arch (arches_of platform entry) ≡ find_asset platform arch entry
unfolding find_asset arches_of property
property-arches_of platform arch entry = elim (Option-cases (property platform entry)) [
  | inl absent ↦ ground (arith, absent)
  | inr (arches, there) ↦ ground (arith, there)
]

add_asset_lem :
    (asset : Asset)
    → (entry : Platforms) → is_inherited asset.platform ≡ false
    → add_asset asset entry
      ≡ set_property asset.platform
          (set_arch asset.arch asset.download (arches_of asset.platform entry))
          entry
unfolding add_asset
add_asset_lem asset entry h = rw h

kept :
    (asset : Asset)
    → (entry : Platforms) → is_inherited asset.platform ≡ true
    → add_asset asset entry ≡ entry
unfolding add_asset
kept asset entry h = rw h

-- A read behind the addition of an asset.
pub find_asset-add_asset :
    (platform arch : Text)
    → (asset : Asset) → (entry : Platforms)
    → find_asset platform arch (add_asset asset entry)
      ≡ (if is_for platform arch asset then some asset.download else find_asset platform arch entry)
unfolding is_for
find_asset-add_asset platform arch asset entry = elim (Bool-cases (is_inherited asset.platform)) [
  | inl inherited ↦ rw (kept asset entry inherited) (ground (arith, inherited))
  | inr own ↦
      ap (find_asset platform arch) (add_asset_lem asset entry own)
      ∙ (find_asset-set_property platform arch asset.platform
            (set_arch asset.arch asset.download (arches_of asset.platform entry)) entry
          ∙ ground (
            arith,
            own,
            text_eq_iff asset.platform platform,
            property-set_arch arch asset.arch asset.download (arches_of asset.platform entry),
            property-arches_of asset.platform arch entry,
            property-arches_of platform arch entry,
          ))
]
