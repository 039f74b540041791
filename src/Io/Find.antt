-- ===== src/Io/Find.antt =====
-- What `which` returns.
use coherence_operator.Prelude.{
  ◌≡◌, ◌≢◌, ◌∙◌, List, [], ◌∷◌, Bool, true, ◌&&◌, Text, is_empty, if◌then◌else◌, arith,
}
use coherence_operator.Runtime.{World, Host, ok, M, throw, pure, plain_error}
use coherence_operator.Runtime.Laws.{>>=-eq-ok}
use coherence_operator.Io.{which, find_in_path, not_located, first_match}

-- What `which` does with the matches.
abbrev choose_first : Host → Text → Bool → List Text → M Text
choose_first h tool check matches =
    if check && is_empty (first_match matches)
    then throw (plain_error (not_located h tool))
    else pure (first_match matches)

chosen_first :
    (h : Host)
    → (tool path : Text) → (matches : List Text) → (w v : World)
    → choose_first h tool true matches w ≡ (ok path, v)
    → (path ≢ []) × ((rest : List Text) × (matches ≡ path ∷ rest)) × (w ≡ v)
chosen_first h tool path [] w v e = cc
chosen_first h tool path ([] ∷ rest) w v e = cc
chosen_first h tool path ((c ∷ p) ∷ rest) w v e = (ground (arith, e), (rest, cc), cc)

-- With `check`, `which` never returns an empty path: what it returns is the first match of `findInPath`,
-- for a tool whose name is not empty.
pub which-eq-ok :
    (h : Host) (tool path : Text) (w v : World)
    → which h tool true w ≡ (ok path, v)
    → (tool ≢ [])
      × (path ≢ [])
      × ((rest : List Text) × (find_in_path h tool w ≡ (ok (path ∷ rest), v)))
unfolding which
which-eq-ok h [] path w v e = cc
which-eq-ok h (c ∷ tool) path w v e =
    let (matches, u, found, chosen) =
      >>=-eq-ok (choose_first h (c ∷ tool) true) (find_in_path h (c ∷ tool)) w e in
    let (full, (rest, split), same) = chosen_first h (c ∷ tool) path matches u v chosen in
    (λ empty. cc, full, (rest, found ∙ λ i. (ok (split i), same i)))
