-- ===== src/Setup/Verified.antt =====
-- What a successful run of `setup` has done.
use coherence_operator.Prelude.{
  ◌≡◌, ◌≢◌, refl, ◌∙◌, sym, ap, inl, inr, some, Text, codes, ◌++◌, ◌∷◌, ends_with, if◌then◌else◌,
  Option-cases, Bool-cases, text_eq, text_eq_iff, arith, [],
}
use coherence_operator.Runtime.{World, Host, Result, ok, throws, pending, M, ◌>>=◌}
use coherence_operator.Runtime.Laws.{>>=-eq-ok}
use coherence_operator.Command.{add_path, shown}
use coherence_operator.Command.Effects.{add_path-IsPathAdded, update_lem}
use coherence_operator.ToolCache.Extract.{extract_tar, extract_zip}
use coherence_operator.Release.Defs.{Download}
use coherence_operator.Setup.{choose, fetch, verify, install, run, setup}
use coherence_operator.Setup.Steps.{confirmed, verify-matching, verify-mismatch, verify-missing}
use coherence_operator.Setup.Guard.{from_choice, from_tarball, run_lem}
use coherence_operator.Setup.Ends.{setup-ok, setup-throws, setup-pending}

-- The extraction by the end of the URL.
abbrev pub extract : Host → Text → Text → M Text
extract h url path =
    if ends_with url (codes ".zip")
    then extract_zip h path []
    else extract_tar h path [] (codes "xz")

-- The tarball was extracted, and the search path is the old one behind the folder it was extracted to.
abbrev pub IsInstalled : Host → Text → Text → World → World → Type 0
IsInstalled h url path v w' =
    (folder : Text) × (t : World) × (extract h url path v ≡ (ok folder, t))
    × (w'.env (codes "PATH") ≡ some (folder ++ (h.delimiter ∷ shown (t.env (codes "PATH")))))
    × (w'.exit_code ≡ t.exit_code)

-- The file has the expected sum.
abbrev pub IsMatch : Host → Text → Text → World → Type 0
IsMatch h path expected w =
    (content : Text) × (w.files path ≡ some content) × (h.sha256 content ≡ expected)

-- A verification that returns has found the expected sum, and has changed nothing but the trace.
pub verify-eq-ok :
    (h : Host)
    → (path expected : Text) → (w v : World) → verify h path expected w ≡ (ok tt, v)
    → IsMatch h path expected w × (v ≡ confirmed w)
verify-eq-ok h path expected w v hv = elim (Option-cases (w.files path)) [
  | inl absent ↦ ground (arith, verify-missing h path expected w absent, hv)
  | inr (content, there) ↦ elim (Bool-cases (text_eq (h.sha256 content) expected)) [
    | inl equal ↦
        let same = (text_eq_iff _ _).0 equal in
        let passed = verify-matching h path expected content w there same in
        ((content, there, same), ap (λ p. p.1) (sym hv ∙ passed))
    | inr unequal ↦
        let bad =
          verify-mismatch h path expected content w there
            λ e. ground (arith, text_eq_iff (h.sha256 content) expected) in
        ground (arith, bad, hv)
  ]
]

install_lem :
    (h : Host) → (url path : Text) → install h url path ≡ (extract h url path >>= add_path h)
unfolding install
install_lem h url path = refl

-- An installation that returns has extracted the tarball and extended the search path.
pub install-eq-ok :
    (h : Host)
    → (url path : Text) → (v w' : World) → install h url path v ≡ (ok tt, w')
    → IsInstalled h url path v w'
unfolding install
install-eq-ok h url path v w' hi =
    let (folder, t, hx, ha) = >>=-eq-ok (add_path h) (extract h url path) v hi in
    elim (add_path-IsPathAdded h folder t) [
      | inl (r, env, code, announced) ↦
          let end = sym (ap (λ p. p.1) ha) in
          let path_of = ap (λ f. f (codes "PATH")) env ∙ (update_lem t.env (codes "PATH") [] _).0 in
          (
            folder,
            t,
            hx,
            ap (λ x. x.env (codes "PATH")) end ∙ path_of,
            ap (λ x. x.exit_code) end ∙ code,
          )
      | inr (e, r, same) ↦ ground (arith, r, ha)
    ]

-- What a run without an error has done.
abbrev pub IsComplete : Host → World → World → Type 0
IsComplete h w w' =
    (info : Download) × (path : Text) × (u v : World) × (choose h w ≡ (ok info, u))
    × (fetch h info.url u ≡ (ok path, v))
    × IsMatch h path info.checksum v
    × IsInstalled h info.url path (confirmed v) w'

pub run-eq-ok : (h : Host) → (w w' : World) → run h w ≡ (ok tt, w') → IsComplete h w w'
run-eq-ok h w w' hr =
    let (info, u, hc, g) = >>=-eq-ok (from_choice h) (choose h) w (sym (run_lem h w) ∙ hr) in
    let (path, v, hf, k) = >>=-eq-ok (from_tarball h info) (fetch h info.url) u g in
    let (t, v', hv, hi) =
      >>=-eq-ok (λ _. install h info.url path) (verify h path info.checksum) v k in
    let (matches, kept) = verify-eq-ok h path info.checksum v v' hv in
    (
      info,
      path,
      u,
      v,
      hc,
      hf,
      matches,
      install-eq-ok h info.url path (confirmed v) w' (ap (install h info.url path) (sym kept) ∙ hi),
    )

completed :
    (h : Host)
    → (w w' : World) → (r : Result (Unit {0})) → (v : World) → run h w ≡ (r, v)
    → setup h w ≡ (ok tt, w')
    → w'.exit_code ≢ some 1
    → run h w ≡ (ok tt, w')
completed h w w' (ok tt) v hr hs hx = hr ∙ (sym (setup-ok h w v hr) ∙ hs)
completed h w w' (throws e) v hr hs hx =
    let code = ap (λ p. p.1.exit_code) (sym (setup-throws h w v e hr) ∙ hs) in
    elim (hx (sym code)) [ ]
completed h w w' pending v hr hs hx = let never = sym (setup-pending h w v hr) ∙ hs in cc

-- If `setup` returns and the exit code is not 1, a release was chosen and downloaded, the SHA256 sum of the
-- downloaded file is the one of the release, the file was extracted into a folder, from the state behind the
-- download with nothing but the message of success added to it, and PATH is what it was behind the extraction with
-- the folder before it.
pub setup-eq-ok :
    (h : Host) (w w' : World) → setup h w ≡ (ok tt, w') → w'.exit_code ≢ some 1 → IsComplete h w w'
setup-eq-ok h w w' hs hx = run-eq-ok h w w' (completed h w w' (run h w).0 (run h w).1 refl hs hx)
