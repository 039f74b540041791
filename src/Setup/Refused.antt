-- ===== src/Setup/Refused.antt =====
-- What `setup` does not do before, and without, a verified checksum.
use coherence_operator.Prelude.{◌≡◌, ◌≢◌, refl, ap, sym, ◌∙◌, ◌⊎◌, inl, inr, some, Text}
use coherence_operator.Runtime.{World, Host, Result, ok, throws, pending, plain_error}
use coherence_operator.Runtime.Quiet.{Keeps, Keeps-trans, spawns}
use coherence_operator.Release.Defs.{Download}
use coherence_operator.Setup.{choose, fetch, checksum_mismatch, run, setup}
use coherence_operator.Setup.Steps.{choose-Keeps, fetch-Keeps}
use coherence_operator.Setup.Guard.{IsVerified, run-guard, run-mismatch}
use coherence_operator.Setup.Ends.{failed_with, failure, setup-ok, setup-throws, setup-pending}

-- The environment, and with it the search path, and the list of started processes are the same.
abbrev pub IsUntouched : World → World → Type 0
IsUntouched w w' = (w'.env ≡ w.env) × (spawns w'.trace ≡ spawns w.trace)

untouched :
    (h : Host)
    → (w : World) → (r : Result (Unit {0})) → (v : World) → run h w ≡ (r, v)
    → Keeps w v
    → IsUntouched w (setup h w).1
unfolding spawns
untouched h w (ok tt) v hr (env, code, started) = rw (setup-ok h w v hr) (env, started)
untouched h w (throws e) v hr (env, code, started) = rw (setup-throws h w v e hr) (env, started)
untouched h w pending v hr (env, code, started) = rw (setup-pending h w v hr) (env, started)

-- Either a release was chosen and downloaded and the SHA256 sum of the downloaded file is the one of
-- the release, or the whole program starts no process and changes no environment variable (PATH among
-- them), however it ends.
pub setup-IsVerified : (h : Host) → (w : World) → IsVerified h w ⊎ IsUntouched w (setup h w).1
setup-IsVerified h w = elim (run-guard h w) [
  | inl verified ↦ inl verified
  | inr same ↦ inr (untouched h w (run h w).0 (run h w).1 refl same)
]

Keeps-end :
    {A : Type 0}
    → {r : Result A} → {end : Result A × World} → (w v : World) → end ≡ (r, v)
    → Keeps w end.1
    → Keeps w v
Keeps-end w v e (env, code, started) =
    let end = sym (ap (λ p. p.1) e) in
    (
      ap (λ x. x.env) end ∙ env,
      ap (λ x. x.exit_code) end ∙ code,
      ap (λ x. spawns x.trace) end ∙ started,
    )

-- If the SHA256 sum of the downloaded file is not the one of the release, `setup` returns, sets the exit code to
-- 1 and writes one error annotation that names both sums, all else is as it was behind the download; in particular
-- the environment and the list of started processes are those from before.
pub setup-mismatch :
    (h : Host) (w : World) (info : Download) (path content : Text) (u v : World)
    → choose h w ≡ (ok info, u)
    → fetch h info.url u ≡ (ok path, v)
    → v.files path ≡ some content
    → h.sha256 content ≢ info.checksum
    → (setup h w ≡ (
      ok tt,
      failed_with h (failure (plain_error (checksum_mismatch (h.sha256 content) info.checksum))) v,
    ))
      × IsUntouched w v
setup-mismatch h w info path content u v hc hf there differ =
    let (env, code, started) =
      Keeps-trans w u v (Keeps-end w u hc (choose-Keeps h w))
        (Keeps-end u v hf (fetch-Keeps h info.url u)) in
    (setup-throws h w v _ (run-mismatch h w info hc path hf content there differ), (env, started))
