-- ===== src/Updater/Wanted.antt =====
-- Which versions the script adds.
use coherence_operator.Prelude.{
  ◌≡◌, ◌≢◌, refl, ◌∙◌, ap, sym, List, [], ◌∷◌, Option, none, some, Bool, true, false, not, ◌&&◌,
  filter, map, Text, text_eq, text_eq_iff, arith, Bool-cases, inl, inr,
}
use coherence_operator.Runtime.{World, ok}
use coherence_operator.Runtime.Laws.{>>=-eq-ok, ok-inj}
use coherence_operator.Release.Defs.{Releases}
use coherence_operator.Updater.{
  Upstream, is_in, keys, missing_versions, newer_than, list_upstream_versions,
}
use coherence_operator.Updater.Versions.{is_newer, without_v}
use coherence_operator.Updater.Sort.{sort, last}
use coherence_operator.Updater.Merge.{has}

-- The versions that are to be added: with arguments those of them that are not in the table, without
-- their `v`; without arguments those of the releases on GitHub that are not in the table and that are
-- newer than the newest version in it; and none if the table is empty.
pub data IsWanted (up : Upstream) (cli : List Text) (old : Releases) (w : World)
    (missing : List Text) : Type 0 where
  asked :
      cli ≢ []
      → ((k : Text) → has k missing ≡ (has k (map without_v cli) && not (is_in k old)))
      → IsWanted up cli old w missing
  listed :
      {candidates : List Text} {u : World} {newest : Text}
      → cli ≡ []
      → list_upstream_versions up w ≡ (ok candidates, u)
      → last (sort (is_newer up.other_number) (keys old)) ≡ some newest
      → ((k : Text)
          → has k missing
            ≡ (has k candidates && (not (is_in k old) && is_newer up.other_number k newest)))
      → IsWanted up cli old w missing
  no_table :
      cli ≡ []
      → last (sort (is_newer up.other_number) (keys old)) ≡ none
      → missing ≡ []
      → IsWanted up cli old w missing

has-filter : (p : Text → Bool) (k : Text) (ks : List Text) → has k (filter p ks) ≡ (has k ks && p k)
has-filter p k [] = refl
has-filter p k (j ∷ ks) = elim (Bool-cases (text_eq j k)) [
  | inl same ↦
      let e = (text_eq_iff j k).0 same in
      elim (Bool-cases (p j)) [
        | inl taken ↦
            let taken_k = ap p (sym e) ∙ taken in
            ground (arith, has-filter p k ks, taken, taken_k, same)
        | inr dropped ↦
            let dropped_k = ap p (sym e) ∙ dropped in
            ground (arith, has-filter p k ks, dropped, dropped_k, same)
      ]
  | inr other ↦ ground (arith, has-filter p k ks, other)
]

and_assoc : (a b c : Bool) → ((a && b) && c) ≡ (a && (b && c))
and_assoc true b c = refl
and_assoc false b c = refl

module _ (up : Upstream) (old : Releases) where
  from_none :
      (candidates missing : List Text) (u v : World)
      → newer_than up none candidates u ≡ (ok missing, v)
      → missing ≡ []
  unfolding newer_than
  from_none [] missing u v h = sym (ok-inj [] missing u v h).0
  from_none (c ∷ candidates) missing u v h = cc

  newer_than-IsWanted :
      (candidates missing : List Text) (w u v : World) (newest : Option Text)
      → list_upstream_versions up w ≡ (ok candidates, u)
      → last (sort (is_newer up.other_number) (keys old)) ≡ newest
      → newer_than up newest (filter (λ k. not (is_in k old)) candidates) u ≡ (ok missing, v)
      → IsWanted up [] old w missing
  unfolding newer_than
  newer_than-IsWanted candidates missing w u v (some newest) hl hm h =
      let e = (ok-inj _ missing u v h).0 in
      listed refl hl hm λ k.
        ap (has k) (sym e)
        ∙ (has-filter (λ j. is_newer up.other_number j newest) k _
            ∙ (ap (λ b. b && is_newer up.other_number k newest)
                  (has-filter (λ j. not (is_in j old)) k candidates)
                ∙ and_assoc (has k candidates) (not (is_in k old)) _))
  newer_than-IsWanted candidates missing w u v none hl hm h =
      no_table refl hm (from_none _ missing u v h)

  pub missing_versions-IsWanted :
      (cli missing : List Text) (w v : World)
      → missing_versions up cli old w ≡ (ok missing, v)
      → IsWanted up cli old w missing
  unfolding missing_versions
  missing_versions-IsWanted [] missing w v h =
      let (candidates, u, hl, chosen) =
        >>=-eq-ok
          (λ candidates.
            newer_than up (last (sort (is_newer up.other_number) (keys old)))
              (filter (λ v. not (is_in v old)) candidates))
          (list_upstream_versions up) w h in
      newer_than-IsWanted candidates missing w u v _ hl refl chosen
  missing_versions-IsWanted (c ∷ cli) missing w v h =
      asked (λ e. ground (arith, e))
        λ k.
          ap (has k) (sym (ok-inj _ missing w v h).0)
          ∙ has-filter (λ j. not (is_in j old)) k (map without_v (c ∷ cli))
