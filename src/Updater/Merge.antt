-- ===== src/Updater/Merge.antt =====
-- What the script makes of the object of the releases.
use coherence_operator.Prelude.{
  ◌≡◌, refl, ◌∙◌, ap, List, [], ◌∷◌, ◌++◌, none, some, Bool, true, false, ◌||◌, any, All, Text,
  codes, text_eq, text_eq_iff, text_eq_refl, if◌then◌else◌, arith, Option-cases, Bool-cases, inl,
  inr,
}
use coherence_operator.Runtime.{World, ok, log, ◌>>=◌}
use coherence_operator.Runtime.Laws.{>>=-eq-ok}
use coherence_operator.Release.Defs.{Platforms, Releases, property}
use coherence_operator.Updater.Sort.{insert, sort}
use coherence_operator.Updater.Checksums.{set_property, parse_checksums}
use coherence_operator.Updater.Checksums.Objects.{property-set_property}
use coherence_operator.Updater.{
  Upstream, keys, pick_all, sorted, fetch_text, fetch_version_entry, add_versions, checksums_url,
  settled,
}
use coherence_operator.Updater.Versions.{is_newer}

abbrev pub has : Text → List Text → Bool
has k ks = any (λ j. text_eq j k) ks

property-pick_all :
    (k : Text) (ks : List Text) (releases : Releases)
    → property k (pick_all ks releases) ≡ (if has k ks then property k releases else none)
unfolding pick_all property
property-pick_all k [] releases = refl
property-pick_all k (j ∷ ks) releases = elim (Option-cases (property j releases)) [
  | inl absent ↦ ground (arith, absent, text_eq_iff j k, property-pick_all k ks releases)
  | inr (entry, there) ↦ ground (arith, there, text_eq_iff j k, property-pick_all k ks releases)
]

any-insert :
    {A : Type 0} (after : A → A → Bool) (p : A → Bool) (x : A) (ys : List A)
    → any p (insert after x ys) ≡ (p x || any p ys)
unfolding insert
any-insert after p x [] = refl
any-insert after p x (y ∷ ys) = ground (arith, any-insert after p x ys)

any-sort :
    {A : Type 0} (after : A → A → Bool) (p : A → Bool) (xs : List A)
    → any p (sort after xs) ≡ any p xs
unfolding sort
any-sort after p [] = refl
any-sort after p (x ∷ xs) =
    any-insert after p x (sort after xs) ∙ ap (λ b. p x || b) (any-sort after p xs)

has-keys :
    (k : Text) (releases : Releases) → has k (keys releases) ≡ false → property k releases ≡ none
unfolding keys property
has-keys k [] h = refl
has-keys k ((j, entry) ∷ releases) h = ground (arith, h, has-keys k releases)

-- The sorted object has the same properties.
pub property-sorted :
    (up : Upstream) (k : Text) (releases : Releases)
    → property k (sorted up releases) ≡ property k releases
unfolding sorted
property-sorted up k releases =
    property-pick_all k (sort (is_newer up.other_number) (keys releases)) releases
    ∙ (ap (λ b. if b then property k releases else none)
          (any-sort (is_newer up.other_number) (λ j. text_eq j k) (keys releases))
        ∙ ground (arith, has-keys k releases))

-- The version has the entry that its checksums file gives, which a request for it was answered with.
abbrev pub IsAdded : Upstream → Releases → Text → Type 0
IsAdded up new version =
    (entry : Platforms) × (text : Text) × (x y : World) × (property version new ≡ some entry)
    × (fetch_text up (checksums_url version) x ≡ (ok text, y))
    × (parse_checksums text version ≡ ok entry)

has-All : (P : Text → Type 0) (k : Text) (ks : List Text) → has k ks ≡ true → All P ks → P k
has-All P k [] h ps = cc
has-All P k (j ∷ ks) h (p, ps) = elim (Bool-cases (text_eq j k)) [
  | inl same ↦ rw (← (text_eq_iff j k).0 same) p
  | inr other ↦ has-All P k ks (ground (arith, other, h)) ps
]

-- What the loop leaves: every missing version is added, and every other property is as it was.
abbrev pub IsMerge : Upstream → List Text → Releases → Releases → Type 0
IsMerge up missing old new =
    ((k : Text) → has k missing ≡ false → property k new ≡ property k old)
    × All (IsAdded up new) missing

fetched :
    (up : Upstream) (version : Text) (w w' : World) (entry : Platforms)
    → fetch_version_entry up version w ≡ (ok entry, w')
    → (text : Text) × (u : World) × (fetch_text up (checksums_url version) w ≡ (ok text, u))
      × (parse_checksums text version ≡ ok entry)
unfolding fetch_version_entry
fetched up version w w' entry h =
    let (text, u, got, parsed) =
      >>=-eq-ok (λ t. settled (parse_checksums t version)) (fetch_text up (checksums_url version)) w
        h in
    (text, u, got, ap (λ p. p.0) parsed)

pub add_versions-IsMerge :
    (up : Upstream) (missing : List Text) (old new : Releases) (w w' : World)
    → add_versions up missing old w ≡ (ok new, w')
    → IsMerge up missing old new
unfolding add_versions
add_versions-IsMerge up [] old new w w' h = (λ k absent. ground (arith, h), tt)
add_versions-IsMerge up (version ∷ rest) old new w w' h =
    let (t, u, logged, more) =
      >>=-eq-ok
        (λ _. fetch_version_entry up version >>= λ entry.
          add_versions up rest (set_property version entry old))
        (log (codes "Adding v" ++ (version ++ codes "..."))) w h in
    let (entry, v, got, last) =
      >>=-eq-ok (λ entry. add_versions up rest (set_property version entry old))
        (fetch_version_entry up version) u more in
    let (kept, added) =
      add_versions-IsMerge up rest (set_property version entry old) new v w' last in
    let (text, y, asked, parsed) = fetched up version u v entry got in
    (
      λ k absent.
          kept k (ground (arith, absent))
          ∙ (property-set_property k version entry old ∙ ground (arith, absent)),
      (
        elim (Bool-cases (has version rest)) [
          | inl again ↦ has-All (IsAdded up new) version rest again added
          | inr once ↦ (
            entry,
            text,
            u,
            y,
            kept version once
                ∙ (property-set_property version version entry old ∙ rw text_eq_refl refl),
            asked,
            parsed,
          )
        ],
        added,
      ),
    )
