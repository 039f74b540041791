-- ===== src/Setup/Guard.antt =====
-- The order of the steps of src/setup.ts: what may happen before the checksum of the tarball is
-- verified.
use coherence_operator.Prelude.{
  ◌≡◌, refl, ◌∙◌, ◌⊎◌, inl, inr, some, Text, text_eq, text_eq_iff, Option-cases, Bool-cases, arith,
  ◌≢◌,
}
use coherence_operator.Runtime.{
  World, Host, Thrown, Result, ok, throws, pending, M, ◌>>=◌, ◌>>◌, plain_error,
}
use coherence_operator.Runtime.Laws.{>>=-ok, >>=-throws, >>=-pending}
use coherence_operator.Runtime.Quiet.{Keeps, Keeps-trans}
use coherence_operator.Release.Defs.{Download}
use coherence_operator.Setup.{choose, fetch, checksum_mismatch, verify, install, run}
use coherence_operator.Setup.Steps.{choose-Keeps, fetch-Keeps, verify-mismatch, verify-missing}

-- A release was chosen and downloaded, and the SHA256 sum of the downloaded file is the one of the
-- release.
abbrev pub IsVerified : Host → World → Type 0
IsVerified h w =
    (info : Download) × (path content : Text) × (u v : World) × (choose h w ≡ (ok info, u))
    × (fetch h info.url u ≡ (ok path, v))
    × (v.files path ≡ some content)
    × (h.sha256 content ≡ info.checksum)

-- What `run` does behind the choice, and behind the download.
abbrev pub from_tarball : Host → Download → Text → M (Unit {0})
from_tarball h info path = verify h path info.checksum >> install h info.url path

abbrev pub from_choice : Host → Download → M (Unit {0})
from_choice h info = fetch h info.url >>= from_tarball h info

pub run_lem : (h : Host) (w : World) → run h w ≡ (choose h >>= from_choice h) w
unfolding run
run_lem h w = refl

module _ (h : Host) (w : World) (info : Download) {u : World} (hc : choose h w ≡ (ok info, u)) where
  chosen : run h w ≡ from_choice h info u
  chosen = run_lem h w ∙ >>=-ok (choose h) (from_choice h) w hc

  module _ (path : Text) {v : World} (hf : fetch h info.url u ≡ (ok path, v)) where
    fetched : run h w ≡ from_tarball h info path v
    fetched = chosen ∙ >>=-ok (fetch h info.url) (from_tarball h info) u hf

    stopped : {e : Thrown} → verify h path info.checksum v ≡ (throws e, v) → run h w ≡ (throws e, v)
    stopped hv =
        fetched ∙ >>=-throws (verify h path info.checksum) (λ _. install h info.url path) v hv

    -- A wrong checksum stops `run`, in the state behind the download.
    pub run-mismatch :
        (content : Text)
        → v.files path ≡ some content
        → h.sha256 content ≢ info.checksum
        → run h w ≡ (throws (plain_error (checksum_mismatch (h.sha256 content) info.checksum)), v)
    run-mismatch content there differ =
        stopped (verify-mismatch h path info.checksum content v there differ)

    guard_tarball : Keeps w v → IsVerified h w ⊎ Keeps w (run h w).1
    guard_tarball same = elim (Option-cases (v.files path)) [
      | inl absent ↦ inr (rw (stopped (verify-missing h path info.checksum v absent)) same)
      | inr (content, there) ↦ elim (Bool-cases (text_eq (h.sha256 content) info.checksum)) [
        | inl equal ↦ inl (info, path, content, u, v, hc, hf, there, (text_eq_iff _ _).0 equal)
        | inr unequal ↦ inr (
            rw
              (run-mismatch content there
                λ e. ground (arith, text_eq_iff (h.sha256 content) info.checksum))
              same)
      ]
    ]

  guard_fetch :
      (r : Result Text) (v : World)
      → fetch h info.url u ≡ (r, v)
      → Keeps w v
      → IsVerified h w ⊎ Keeps w (run h w).1
  guard_fetch (ok path) v hf same = guard_tarball path hf same
  guard_fetch (throws e) v hf same =
      inr (rw (chosen ∙ >>=-throws (fetch h info.url) (from_tarball h info) u hf) same)
  guard_fetch pending v hf same =
      inr (rw (chosen ∙ >>=-pending (fetch h info.url) (from_tarball h info) u hf) same)

module _ (h : Host) (w : World) where
  guard_choose :
      (r : Result Download) (u : World)
      → choose h w ≡ (r, u)
      → Keeps w u
      → IsVerified h w ⊎ Keeps w (run h w).1
  guard_choose (ok info) u hc same =
      guard_fetch h w info hc (fetch h info.url u).0 (fetch h info.url u).1 refl
        (Keeps-trans w u (fetch h info.url u).1 same (fetch-Keeps h info.url u))
  guard_choose (throws e) u hc same =
      inr (rw (run_lem h w ∙ >>=-throws (choose h) (from_choice h) w hc) same)
  guard_choose pending u hc same =
      inr (rw (run_lem h w ∙ >>=-pending (choose h) (from_choice h) w hc) same)

  -- Unless a release was verified, the body of the `try` keeps the environment, the exit code and
  -- the list of started processes.
  pub run-guard : IsVerified h w ⊎ Keeps w (run h w).1
  run-guard = guard_choose (choose h w).0 (choose h w).1 refl (choose-Keeps h w)
