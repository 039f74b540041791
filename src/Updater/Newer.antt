-- ===== src/Updater/Newer.antt =====
-- The order of the versions in the file, and which versions a run without arguments takes.
use coherence_operator.Prelude.{
  ◌≡◌, refl, ap, List, [], ◌∷◌, Option, none, some, true, false, not, All, filter, map, Text,
  text_eq, text_eq_refl, ◌&&◌, arith, Bool-cases, inl, inr,
}
use coherence_operator.Runtime.{World, ok, ◌>>=◌}
use coherence_operator.Runtime.Laws.{>>=-eq-ok, ok-inj}
use coherence_operator.Release.Defs.{Platforms, Releases, property}
use coherence_operator.Updater.{
  Upstream, GhRelease, is_in, keys, pick_all, sorted, missing_versions, newer_than, versions_of,
  list_upstream_versions, fetch_text, listing_url, settled,
}
use coherence_operator.Updater.Versions.{is_newer, is_release, is_release_tag, without_v}
use coherence_operator.Updater.Versions.Order.{is_newer-asym, is_newer-cotrans}
use coherence_operator.Updater.Sort.{sort, last}
use coherence_operator.Updater.Sort.Laws.{IsSorted, sort-All, sort-IsSorted}
use coherence_operator.Updater.Sort.Last.{last-All, last-bound, sort-All-of}
use coherence_operator.Updater.Filters.{filter-All, filter-keeps-All, All-map, map-All, All-both}

abbrev pub AreReleases : List Text → Type 0
AreReleases = All (λ v. is_release v ≡ true)

abbrev IsKey : Releases → Text → Type 0
IsKey releases k = (entry : Platforms) × (property k releases ≡ some entry)

more_keys :
    (j k : Text) (entry : Platforms) (releases : Releases)
    → IsKey releases k
    → IsKey ((j, entry) ∷ releases) k
unfolding property
more_keys j k entry releases (found, there) = elim (Bool-cases (text_eq j k)) [
  | inl same ↦ (entry, rw (same, property) refl)
  | inr other ↦ (found, rw (other, property) there)
]

keys-IsKey : (releases : Releases) → All (IsKey releases) (keys releases)
unfolding keys property
keys-IsKey [] = tt
keys-IsKey ((j, entry) ∷ releases) = (
  (entry, rw text_eq_refl refl),
  All-map (IsKey releases) (IsKey ((j, entry) ∷ releases))
      (λ k found. more_keys j k entry releases found) (keys releases) (keys-IsKey releases),
)

keys-pick_all :
    (ks : List Text) (releases : Releases)
    → All (IsKey releases) ks
    → keys (pick_all ks releases) ≡ ks
unfolding pick_all keys
keys-pick_all [] releases there = refl
keys-pick_all (k ∷ ks) releases ((entry, found), there) =
    rw (found, pick_all) (ap (λ js. k ∷ js) (keys-pick_all ks releases there))

keys-sorted :
    (up : Upstream) (releases : Releases)
    → keys (sorted up releases) ≡ sort (is_newer up.other_number) (keys releases)
unfolding sorted
keys-sorted up releases =
    keys-pick_all (sort (is_newer up.other_number) (keys releases)) releases
      (sort-All (is_newer up.other_number) (IsKey releases) (keys releases) (keys-IsKey releases))

module _ (up : Upstream) where
  keys-IsSorted :
      (releases : Releases)
      → AreReleases (keys releases)
      → IsSorted (is_newer up.other_number) (sort (is_newer up.other_number) (keys releases))
  keys-IsSorted releases =
      sort-IsSorted (is_newer up.other_number) (λ v. is_release v ≡ true)
        (is_newer-asym up.other_number) (is_newer-cotrans up.other_number) (keys releases)

  -- If every key is a release, the object that is written lists no release before an older one.
  pub sorted-IsSorted :
      (releases : Releases)
      → AreReleases (keys releases)
      → IsSorted (is_newer up.other_number) (keys (sorted up releases))
  sorted-IsSorted releases h = rw (keys-sorted up releases) (keys-IsSorted releases h)

abbrev pub IsNewest : Upstream → Releases → Text → Type 0
IsNewest up old v =
    (is_release v ≡ true)
    × (is_in v old ≡ false)
    × All (λ k. is_newer up.other_number v k ≡ true) (keys old)

tag-is_release : (t : Text) → is_release_tag t ≡ true → is_release (without_v t) ≡ true
unfolding is_release_tag without_v
tag-is_release t h = ground (arith, h)

versions_of-AreReleases : (listing : List GhRelease) → AreReleases (versions_of listing)
unfolding versions_of
versions_of-AreReleases listing =
    let tags = map (λ r. r.tag_name) (filter (λ r. not r.draft && not r.prerelease) listing) in
    map-All (λ v. is_release v ≡ true) without_v (filter is_release_tag tags)
      (All-map (λ t. is_release_tag t ≡ true) (λ t. is_release (without_v t) ≡ true) tag-is_release
        (filter is_release_tag tags) (filter-All is_release_tag tags))

listed-AreReleases :
    (up : Upstream) (candidates : List Text) (w v : World)
    → list_upstream_versions up w ≡ (ok candidates, v)
    → AreReleases candidates
unfolding list_upstream_versions
listed-AreReleases up candidates w v h =
    let (text, w1, got, h1) =
      >>=-eq-ok
        (λ text. settled (up.parse_listing text) >>= λ listing. settled (ok (versions_of listing)))
        (fetch_text up listing_url) w h in
    let (listing, w2, parsed, h2) =
      >>=-eq-ok (λ listing. settled (ok (versions_of listing))) (settled (up.parse_listing text)) w1
        h1 in
    rw (← (ok-inj (versions_of listing) candidates w2 v h2).0) (versions_of-AreReleases listing)

module _ (up : Upstream) (old : Releases) (h : AreReleases (keys old)) where
  newer_than_max :
      (m v k : Text)
      → is_release m ≡ true
      → is_release v ≡ true
      → is_newer up.other_number v m ≡ true
      → (is_release k ≡ true) × (is_newer up.other_number k m ≡ false)
      → is_newer up.other_number v k ≡ true
  newer_than_max m v k hm hv newer (hk, below) = elim (Bool-cases (is_newer up.other_number v k)) [
    | inl later ↦ later
    | inr earlier ↦
        let bad = is_newer-cotrans up.other_number v k m hv hk hm earlier below in
        ground (arith, bad, newer)
  ]

  max_bound :
      (m : Text)
      → last (sort (is_newer up.other_number) (keys old)) ≡ some m
      → (is_release m ≡ true) × All (λ k. is_newer up.other_number k m ≡ false) (keys old)
  max_bound m is_last =
      let after = is_newer up.other_number in
      let P = λ (v : Text). is_release v ≡ true in
      let all = sort-All after P (keys old) h in
      (
        last-All P (sort after (keys old)) m is_last all,
        sort-All-of after (λ k. after k m ≡ false) (keys old)
            (last-bound after P (is_newer-asym up.other_number) (sort after (keys old)) m all
              (keys-IsSorted up old h) is_last),
      )

  is_newer-IsNewest :
      (m v : Text)
      → last (sort (is_newer up.other_number) (keys old)) ≡ some m
      → (is_release v ≡ true) × (not (is_in v old) ≡ true)
      → is_newer up.other_number v m ≡ true
      → IsNewest up old v
  is_newer-IsNewest m v is_last (hv, unknown) newer =
      let (hm, below) = max_bound m is_last in
      (
        hv,
        ground (arith, unknown),
        All-map (λ k. (is_release k ≡ true) × (is_newer up.other_number k m ≡ false))
            (λ k. is_newer up.other_number v k ≡ true) (λ k. newer_than_max m v k hm hv newer)
            (keys old)
            (All-both (λ k. is_release k ≡ true) (λ k. is_newer up.other_number k m ≡ false)
              (keys old) h below),
      )

  newer_than-IsNewest :
      (current_max : Option Text) (vs missing : List Text) (w v : World)
      → last (sort (is_newer up.other_number) (keys old)) ≡ current_max
      → All (λ u. (is_release u ≡ true) × (not (is_in u old) ≡ true)) vs
      → newer_than up current_max vs w ≡ (ok missing, v)
      → All (IsNewest up old) missing
  unfolding newer_than
  newer_than-IsNewest none [] missing w v is_last news run = rw (← (ok-inj [] missing w v run).0) tt
  newer_than-IsNewest none (u ∷ vs) missing w v is_last news run = cc
  newer_than-IsNewest (some m) vs missing w v is_last news run =
      let newer = λ (u : Text). is_newer up.other_number u m in
      let New = λ (u : Text). (is_release u ≡ true) × (not (is_in u old) ≡ true) in
      rw (← (ok-inj (filter newer vs) missing w v run).0) (
        All-map (λ u. New u × (newer u ≡ true)) (IsNewest up old)
          (λ u (new, later). is_newer-IsNewest m u is_last new later) (filter newer vs)
          (All-both New (λ u. newer u ≡ true) (filter newer vs) (filter-keeps-All New newer vs news)
            (filter-All newer vs)))

-- A run without arguments takes only release versions that the file does not have and that are newer
-- than every version in the file, if all of these are releases.
pub missing_versions-IsNewest :
    (up : Upstream) (old : Releases) (missing : List Text) (w v : World)
    → AreReleases (keys old)
    → missing_versions up [] old w ≡ (ok missing, v)
    → All (IsNewest up old) missing
unfolding missing_versions
missing_versions-IsNewest up old missing w v h run =
    let new = λ (u : Text). not (is_in u old) in
    let (candidates, w1, listed, chosen) =
      >>=-eq-ok
        (λ candidates.
          newer_than up (last (sort (is_newer up.other_number) (keys old))) (filter new candidates))
        (list_upstream_versions up) w run in
    newer_than-IsNewest up old h _ (filter new candidates) missing w1 v refl
      (All-both (λ u. is_release u ≡ true) (λ u. new u ≡ true) (filter new candidates)
        (filter-keeps-All (λ u. is_release u ≡ true) new candidates
          (listed-AreReleases up candidates w w1 listed))
        (filter-All new candidates))
      chosen
