-- ===== src/ToolCache/Download/Cleanup.antt =====
-- What an attempt at a download leaves at its destination.
use coherence_operator.Prelude.{
  ◌≡◌, ◌⊎◌, inl, inr, refl, ◌∙◌, ap, codes, none, some, [], Text, Option-cases, Bool, true, false,
}
use coherence_operator.Runtime.{
  World, Host, Thrown, Result, ok, throws, pending, Body, complete, broken, catch, update, ◌>>◌,
  throw, M, throw_if,
}
use coherence_operator.Command.{debug, issue_command}
use coherence_operator.Command.Effects.{update_lem}
use coherence_operator.Io.{rm_rf, remove}
use coherence_operator.ToolCache.Download.{write_file, delete_failed, save}

-- What a removal may come to: the file is gone, or the removal failed and nothing has changed.
abbrev pub IsRemoval : Text → World → Result (Unit {0}) × World → Type 0
IsRemoval path w (ok tt, v) = v.files ≡ update w.files path none
IsRemoval path w (throws e, v) = v ≡ w
IsRemoval path w (pending, v) = ⊥

removed_or_not : (h : Host) → (path : Text) → (w : World) → IsRemoval path w (remove h path w)
unfolding remove
removed_or_not h path w = elim (Option-cases (h.rm w path)) [
  | inl e ↦ rw (e, remove) refl
  | inr (err, e) ↦ rw (e, remove) refl
]

throw_if-IsRemoval :
    (b : Bool)
    → (e : Thrown) → (path : Text) → (m : M (Unit {0})) → (w : World) → IsRemoval path w (m w)
    → IsRemoval path w ((throw_if b e >> m) w)
throw_if-IsRemoval true e path m w h = refl
throw_if-IsRemoval false e path m w h = h

rm_rf-IsRemoval : (h : Host) → (path : Text) → (w : World) → IsRemoval path w (rm_rf h path w)
unfolding rm_rf
rm_rf-IsRemoval h path w = throw_if-IsRemoval _ _ path (remove h path) w (removed_or_not h path w)

-- What `save` may come to, by the body of the answer. After a body that broke off, nothing is left at the
-- destination, unless the removal of the part that had come failed too.
abbrev pub IsSaved : Host → Text → World → Body → Result Text × World → Type 0
IsSaved h dest w (complete content) (r, v) =
    (r ≡ ok dest) × (v.files ≡ update w.files dest (some content))
IsSaved h dest w (broken part err) (r, v) =
    (r ≡ throws err)
    × ((v.files dest ≡ none)
        ⊎ ((e : Thrown) × (u : World) × ((rm_rf h dest u).0 ≡ throws e)
            × (v.files ≡ u.files)
            × (u.files ≡ update w.files dest (some part))))

module _ (h : Host) (dest : Text) (err : Thrown) (u : World) where
  -- The end of an attempt whose removal ended as given.
  abbrev end_of : Result (Unit {0}) × World → Result Text × World
  end_of p = (catch (λ (x : World). p) (λ e. debug h (delete_failed dest e)) >> throw err) u

  ended :
      (r : Result (Unit {0})) (v : World)
      → rm_rf h dest u ≡ (r, v)
      → IsRemoval dest u (r, v)
      → ((end_of (r, v)).0 ≡ throws err)
        × (((end_of (r, v)).1.files dest ≡ none)
            ⊎ ((e : Thrown) × ((rm_rf h dest u).0 ≡ throws e)
                × ((end_of (r, v)).1.files ≡ u.files)))
  unfolding debug issue_command
  ended (ok tt) v hr gone =
      (refl, inl (ap (λ f. f dest) gone ∙ (update_lem u.files dest [] none).0))
  ended (throws e) v hr same = (refl, inr (e, ap (λ p. p.0) hr, ap (λ x. x.files) same))
  ended pending v hr never = elim never [ ]

-- An attempt whose answer arrives whole returns the destination, which then holds the whole body. One whose answer
-- breaks off throws the error of the connection, and leaves no file at the destination unless the
-- removal of the partial file failed. No other file changes in the first case.
pub save-IsSaved :
    (h : Host) (dest : Text) (body : Body) (w : World) → IsSaved h dest w body (save h dest body w)
unfolding save write_file debug issue_command
save-IsSaved h dest (complete content) w = (refl, refl)
save-IsSaved h dest (broken part err) w =
    let u = (debug h (codes "download failed") (write_file dest part w).1).1 in
    let (r, fate) =
      ended h dest err u (rm_rf h dest u).0 (rm_rf h dest u).1 refl (rm_rf-IsRemoval h dest u) in
    (r, elim fate [ inl gone ↦ inl gone | inr (e, failed, same) ↦ inr (e, u, failed, same, refl) ])
