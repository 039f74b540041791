-- ===== src/Updater/Outcome.antt =====
-- What a run of the script that does not fail has done.
use coherence_operator.Prelude.{
  ◌≡◌, ◌≢◌, refl, ◌∙◌, ap, sym, ◌⊎◌, List, [], ◌∷◌, ◌++◌, Option, none, some, true, false, not, All,
  filter, map, Text, codes, text_eq, text_eq_iff, arith, Bool-cases, inl, inr,
}
use coherence_operator.Runtime.{World, ok, log, ◌>>=◌}
use coherence_operator.Runtime.Laws.{>>=-eq-ok, ok-inj}
use coherence_operator.Release.Defs.{Platforms, Releases, property}
use coherence_operator.Updater.{
  Upstream, is_in, keys, sorted, add_versions, settled, missing_versions, add_missing, publish,
  read_file, main, newer_than, list_upstream_versions,
}
use coherence_operator.Updater.Files.{
  IsApart, tell_runner-files, publish-files, kept_after, still-IsApart, same_file, read_file-eq,
}
use coherence_operator.Updater.Atomic.{
  kept, read_file-Frames, missing_versions-Frames, add_versions-Frames, log-Frames,
}
use coherence_operator.Updater.Versions.{is_newer, without_v}
use coherence_operator.Updater.Wanted.{IsWanted, missing_versions-IsWanted}
use coherence_operator.Updater.Sort.{sort, last}
use coherence_operator.Updater.Filters.{filter-All, filter-keeps-All, All-map}
use coherence_operator.Updater.Merge.{has, IsAdded, IsMerge, add_versions-IsMerge, property-sorted}

module _ (up : Upstream) (old : Releases) where
  -- No version of a list is known.
  abbrev pub AreNew : List Text → Type 0
  AreNew = All (λ v. not (is_in v old) ≡ true)

  newer_than-AreNew :
      (current_max : Option Text) (vs missing : List Text) (w w' : World)
      → AreNew vs
      → newer_than up current_max vs w ≡ (ok missing, w')
      → AreNew missing
  unfolding newer_than
  newer_than-AreNew none [] missing w w' news h = ground (arith, h)
  newer_than-AreNew none (v ∷ vs) missing w w' news h = cc
  newer_than-AreNew (some current_max) vs missing w w' news h =
      rw (← (ok-inj (filter (λ v. is_newer up.other_number v current_max) vs) missing w w' h).0) (
        filter-keeps-All (λ v. not (is_in v old) ≡ true)
          (λ v. is_newer up.other_number v current_max) vs news)

  pub missing_versions-AreNew :
      (cli missing : List Text) (w w' : World)
      → missing_versions up cli old w ≡ (ok missing, w')
      → AreNew missing
  unfolding missing_versions
  missing_versions-AreNew [] missing w w' h =
      let (candidates, u, listed, chosen) =
        >>=-eq-ok
          (λ candidates.
            newer_than up (last (sort (is_newer up.other_number) (keys old)))
              (filter (λ v. not (is_in v old)) candidates))
          (list_upstream_versions up) w h in
      newer_than-AreNew _ (filter (λ v. not (is_in v old)) candidates) missing u w'
        (filter-All (λ v. not (is_in v old)) candidates) chosen
  missing_versions-AreNew (v ∷ cli) missing w w' h =
      rw (← (ok-inj (filter (λ v. not (is_in v old)) (map without_v (v ∷ cli))) missing w w' h).0)
        (filter-All (λ v. not (is_in v old)) (map without_v (v ∷ cli)))

known :
    (v : Text) (old : Releases) (entry : Platforms)
    → property v old ≡ some entry
    → is_in v old ≡ true
unfolding is_in
known v old entry there = rw (there, is_in) refl

-- What a new table has of the old one and of the missing versions.
abbrev pub IsNewTable : Upstream → Releases → List Text → Releases → Type 0
IsNewTable up old missing new =
    ((k : Text) (entry : Platforms) → property k old ≡ some entry → property k new ≡ some entry)
    × ((k : Text) → has k missing ≡ false → property k new ≡ property k old)
    × All (IsAdded up new) missing

absent_of_new :
    (up : Upstream) (old : Releases) (missing : List Text) (k : Text) (entry : Platforms)
    → AreNew up old missing
    → property k old ≡ some entry
    → has k missing ≡ false
absent_of_new up old [] k entry news there = refl
absent_of_new up old (v ∷ missing) k entry (new, news) there = elim (Bool-cases (text_eq v k)) [
  | inl same ↦
      let known_v =
        known v old entry (ap (λ u. property u old) ((text_eq_iff v k).0 same) ∙ there) in
      ground (arith, new, known_v)
  | inr other ↦ rw other (absent_of_new up old missing k entry news there)
]

IsMerge-IsNewTable :
    (up : Upstream) (old merged : Releases) (missing : List Text)
    → AreNew up old missing
    → IsMerge up missing old merged
    → IsNewTable up old missing (sorted up merged)
IsMerge-IsNewTable up old merged missing news (others, added) =
    let same = λ (k : Text). property-sorted up k merged in
    (
      λ k entry there.
          same k ∙ (others k (absent_of_new up old missing k entry news there) ∙ there),
      λ k absent. same k ∙ others k absent,
      All-map (IsAdded up merged) (IsAdded up (sorted up merged))
          (λ v (entry, text, x, y, there, asked, parsed).
            (entry, text, x, y, same v ∙ there, asked, parsed))
          missing added,
    )

-- What the file of the releases is after a run.
abbrev pub IsRun : Upstream → List Text → Text → Releases → World → Type 0
IsRun up missing raw old v =
    ((missing ≡ []) × (v.files up.releases_json ≡ some raw))
    ⊎ ((new : Releases) × (missing ≢ [])
        × IsNewTable up old missing new
        × (v.files up.releases_json ≡ some (up.stringify new ++ codes "\n")))

add_missing-IsRun :
    (up : Upstream) (missing : List Text) (raw : Text) (old : Releases) (w v : World)
    → IsApart up w
    → AreNew up old missing
    → w.files up.releases_json ≡ some raw
    → add_missing up missing old w ≡ (ok tt, v)
    → IsRun up missing raw old v
unfolding add_missing log
add_missing-IsRun up [] raw old w v apart news there h =
    let message = codes "No new versions to add." in
    let logged = (log message w).1 in
    let same = (log-Frames message).obeys w in
    inl (
      refl,
      ap (λ p. p.1.files up.releases_json) (sym h)
          ∙ (tell_runner-files up (codes "ADDED_VERSIONS=\n") logged
                (still-IsApart up w logged same apart)
              ∙ (same_file up w logged same ∙ there)),
    )
add_missing-IsRun up (v ∷ vs) raw old w w' apart news there h =
    let (merged, u, added, published) =
      >>=-eq-ok (publish up (v ∷ vs)) (add_versions up (v ∷ vs) old) w h in
    inr (
      sorted up merged,
      (λ e. ground (arith, e)),
      IsMerge-IsNewTable up old merged (v ∷ vs) news
          (add_versions-IsMerge up (v ∷ vs) old merged w u added),
      publish-files up (v ∷ vs) merged u w'
          (still-IsApart up w u
            (kept_after (add_versions-Frames up (v ∷ vs) old) w u (ok merged) added) apart)
          published,
    )

-- A run that returns found the file of the releases and parsed it. The versions that it adds are those
-- that are wanted: with arguments, those of them that the table lacks; without arguments, those of the
-- releases on GitHub that the table lacks and that are newer than the newest version in it; none for an
-- empty table. Where none is wanted, the file is as it was. Else it holds an object in which every entry
-- of the old one is unchanged, every wanted version has the entry of the checksums file that a request for
-- it was answered with, and no other key has changed. The runner's output file must not be the file of the
-- releases.
pub main-IsRun :
    (up : Upstream) (cli_versions : List Text) (w v : World)
    → IsApart up w
    → main up cli_versions w ≡ (ok tt, v)
    → (raw : Text) × (old : Releases) × (missing : List Text) × (w.files up.releases_json
        ≡ some raw)
      × (up.parse_releases raw ≡ ok old)
      × IsWanted up cli_versions old w missing
      × IsRun up missing raw old v
unfolding main
main-IsRun up cli_versions w v apart h =
    let (raw, w1, was_read, h1) =
      >>=-eq-ok
        (λ raw. settled (up.parse_releases raw) >>= λ releases.
          missing_versions up cli_versions releases >>= λ missing. add_missing up missing releases)
        (read_file up up.releases_json) w h in
    let (old, w2, was_parsed, h2) =
      >>=-eq-ok
        (λ releases.
          missing_versions up cli_versions releases >>= λ missing. add_missing up missing releases)
        (settled (up.parse_releases raw)) w1 h1 in
    let (missing, w3, chosen, h3) =
      >>=-eq-ok (λ missing. add_missing up missing old) (missing_versions up cli_versions old) w2
        h2 in
    let news = missing_versions-AreNew up old cli_versions missing w2 w3 chosen in
    let same : kept w3 ≡ kept w =
      kept_after (missing_versions-Frames up cli_versions old) w2 w3 (ok missing) chosen
      ∙ (ap (λ p. kept p.1) (sym was_parsed)
          ∙ kept_after (read_file-Frames up up.releases_json) w w1 (ok raw) was_read) in
    let (there, unread) = read_file-eq up up.releases_json raw w w1 was_read in
    let unchanged : w2 ≡ w = ap (λ p. p.1) (sym was_parsed) ∙ unread in
    (
      raw,
      old,
      missing,
      there,
      ap (λ p. p.0) was_parsed,
      missing_versions-IsWanted up old cli_versions missing w w3
          (ap (missing_versions up cli_versions old) (sym unchanged) ∙ chosen),
      add_missing-IsRun up missing raw old w3 v (still-IsApart up w w3 same apart) news
          (same_file up w w3 same ∙ there) h3,
    )
