-- ===== src/Setup/Terminates.antt =====
-- The whole action comes to an end.
use coherence_operator.Prelude.{◌≡◌, ap, Text, codes, [], Option-cases, inl, inr, ends_with}
use coherence_operator.Runtime.{World, Host, Result, ok, throws, pending, log}
use coherence_operator.Runtime.Obey.{ending_of, if-Obeys, throw_if-Obeys, >>=-Obeys, >>-Obeys}
use coherence_operator.Runtime.Settle.{Settles, IsOver, perform-Settles, settling_law}
use coherence_operator.Exec.Settle.{IsResponsive}
use coherence_operator.Runtime.Quiet.{IsTame-Settles}
use coherence_operator.Command.Settle.{add_path-Settles}
use coherence_operator.Setup.{hash, verify, install, run, setup}
use coherence_operator.Setup.Ends.{IsReported, setup-IsReported}
use coherence_operator.Setup.Steps.{choose-IsTame, fetch-IsTame}
use coherence_operator.ToolCache.Extract.Settle.{extract_zip-Settles, extract_tar-Settles}

log-Settles : (message : Text) → Settles (log message)
unfolding log
log-Settles message = perform-Settles _

hash-Settles : (h : Host) → (path : Text) → Settles (hash h path)
unfolding hash
hash-Settles h path = record {
  obeys = λ w. elim (Option-cases (w.files path)) [
    | inl absent ↦ rw (absent, hash) tt
    | inr (content, there) ↦ rw (there, hash) tt
  ];
}

verify-Settles : (h : Host) → (path expected : Text) → Settles (verify h path expected)
unfolding verify
verify-Settles h path expected =
    >>=-Obeys (hash-Settles h path) λ actual. >>-Obeys (throw_if-Obeys _ _) (log-Settles _)

module _ (h : Host) (responsive : IsResponsive h) where
  install-Settles : (download_url path : Text) → Settles (install h download_url path)
  unfolding install
  install-Settles download_url path =
      >>=-Obeys
        (if-Obeys (ends_with download_url (codes ".zip")) (extract_zip-Settles h responsive path [])
          (extract_tar-Settles h responsive path [] (codes "xz")))
        λ path_to_cli. add_path-Settles h path_to_cli

  run-Settles : Settles (run h)
  unfolding run
  run-Settles = >>=-Obeys (IsTame-Settles responsive.answers (choose-IsTame h)) λ info.
      >>=-Obeys (IsTame-Settles responsive.answers (fetch-IsTame h info.url))
        λ path. >>-Obeys (verify-Settles h path info.checksum) (install-Settles info.url path)

  over_returns :
      (w : World) (r : Result (Unit {0})) (v : World) (end : Result (Unit {0}) × World)
      → IsOver (ending_of r)
      → IsReported h (r, v) end
      → end.0 ≡ ok tt
  over_returns w (ok tt) v end over same = ap (λ p. p.0) same
  over_returns w (throws e) v end over same = ap (λ p. p.0) same
  over_returns w pending v end never same = elim never [ ]

-- The action comes to an end and returns, whatever its inputs, the environment and the answers of the
-- network are, if each child process that it starts fails to start or closes its streams at last, each
-- request is answered or fails, and the state of every file can be read.
pub setup_returns : (h : Host) → (w : World) → IsResponsive h → (setup h w).0 ≡ ok tt
setup_returns h w responsive =
    over_returns h responsive w (run h w).0 (run h w).1 (setup h w)
      ((run-Settles h responsive).obeys w) (setup-IsReported h w)
