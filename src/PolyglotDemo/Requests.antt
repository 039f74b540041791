-- ===== src/PolyglotDemo/Requests.antt =====
-- What one request to the demo finds of another.
use coherence_operator.Prelude.{
  ◌≡◌, ◌≢◌, refl, ap, sym, ◌∙◌, ◌⊎◌, inl, inr, ℕ, Option, none, some, Text,
}
use coherence_operator.Runtime.{Thrown, Result, ok, throws, pending}
use coherence_operator.PolyglotDemo.{
  Key, text, number, Person, Response, sent, sent_text, status, next, unanswered, Cache, answer,
  found_or_404, removed_or_404, create, get_one, delete,
}

-- What the client documents of a cache: it is a map, in which an operation that succeeds touches no key but
-- its own. Nothing is said of one that fails.
pub record IsMap {Num Json S : Type 0} (people : Cache Num Json S) : Type 0 where
  pub contents : S → Key Num Json → Option (Person Num Json)
  pub get-ok :
      (k : Key Num Json) (s s' : S) (found : Option (Person Num Json))
      → people.get k s ≡ (ok found, s')
      → (found ≡ contents s k) × ((j : Key Num Json) → contents s' j ≡ contents s j)
  pub set-ok :
      (k : Key Num Json) (person : Person Num Json) (s s' : S)
      → people.set k person s ≡ (ok tt, s')
      → (contents s' k ≡ some person) × ((j : Key Num Json) → j ≢ k → contents s' j ≡ contents s j)
  pub remove-ok :
      (k : Key Num Json) (s s' : S) (found : Option (Person Num Json))
      → people.remove k s ≡ (ok found, s')
      → (found ≡ contents s k)
        × (contents s' k ≡ none)
        × ((j : Key Num Json) → j ≢ k → contents s' j ≡ contents s j)

-- The request failed: an error went to `next`, or there was no answer.
abbrev pub IsFailure : {Num Json : Type 0} → Response Num Json → Type 0
IsFailure r = ((e : Thrown) × (r ≡ next e)) ⊎ (r ≡ unanswered)

module _ {Num Json S : Type 0} where
  answered_ok :
      {A : Type 0} (f : A → Response Num Json) (r : Result A) (s : S)
      → ((a : A) × (r ≡ ok a) × (◌≡◌ {A = Response Num Json × S} (answer f (r, s)) (f a, s)))
        ⊎ IsFailure (answer f (r, s)).0
  unfolding answer
  answered_ok f (ok a) s = inl (a, refl, refl)
  answered_ok f (throws e) s = inr (inl (e, refl))
  answered_ok f pending s = inr (inr refl)

  module _ (people : Cache Num Json S) (laws : IsMap people) (to_number : Text → Num) where
    get_one-contents :
        (param : Text) (s : S)
        → ((get_one people to_number param s).0
            ≡ found_or_404 (laws.contents s (number (to_number param))))
          ⊎ IsFailure (get_one people to_number param s).0
    unfolding get_one
    get_one-contents param s =
        let k : Key Num Json = number (to_number param) in
        elim (answered_ok found_or_404 (people.get k s).0 (people.get k s).1) [
          | inl (found, was_ok, response) ↦
              let (same, kept) =
                laws.get-ok k s (people.get k s).1 found (λ i. (was_ok i, (people.get k s).1)) in
              inl (ap (λ p. p.0) response ∙ ap found_or_404 same)
          | inr failure ↦ inr failure
        ]

    create-set :
        (body : Person Num Json) (s s' : S)
        → create people body s ≡ (sent_text body, s')
        → people.set body.id body s ≡ (ok tt, s')
    unfolding create
    create-set body s s' created =
        elim (answered_ok (λ done. sent_text body) (people.set body.id body s).0
          (people.set body.id body s).1) [
            | inl (done, was_ok, response) ↦
                let same = ap (λ p. p.1) (sym response ∙ created) in (λ i. (was_ok i, same i))
            | inr (inl (e, failed)) ↦ let bad = sym failed ∙ ap (λ p. p.0) created in cc
            | inr (inr failed) ↦ let bad = sym failed ∙ ap (λ p. p.0) created in cc
          ]

    delete-remove :
        (param : Text) (code : ℕ) (s s' : S)
        → delete people to_number param s ≡ (status code, s')
        → (found : Option (Person Num Json)) × (people.remove (number (to_number param)) s
            ≡ (ok found, s'))
    unfolding delete
    delete-remove param code s s' deleted =
        let k : Key Num Json = number (to_number param) in
        elim (answered_ok removed_or_404 (people.remove k s).0 (people.remove k s).1) [
          | inl (found, was_ok, response) ↦
              let same = ap (λ p. p.1) (sym response ∙ deleted) in
              (found, (λ i. (was_ok i, same i)))
          | inr (inl (e, failed)) ↦ let bad = sym failed ∙ ap (λ p. p.0) deleted in cc
          | inr (inr failed) ↦ let bad = sym failed ∙ ap (λ p. p.0) deleted in cc
        ]

    -- What a GET answers, from what the cache has.
    get_one-found :
        (param : Text) (s : S) (found : Option (Person Num Json))
        → laws.contents s (number (to_number param)) ≡ found
        → ((get_one people to_number param s).0 ≡ found_or_404 found)
          ⊎ IsFailure (get_one people to_number param s).0
    get_one-found param s found there = rw (← there) (get_one-contents param s)

    delete-none :
        (param : Text) (s : S)
        → laws.contents s (number (to_number param)) ≡ none
        → ((delete people to_number param s).0 ≡ status 404)
          ⊎ IsFailure (delete people to_number param s).0
    unfolding delete
    delete-none param s absent =
        let k : Key Num Json = number (to_number param) in
        elim (answered_ok removed_or_404 (people.remove k s).0 (people.remove k s).1) [
          | inl (found, was_ok, response) ↦
              let (same, gone, kept) =
                laws.remove-ok k s (people.remove k s).1 found
                  (λ i. (was_ok i, (people.remove k s).1)) in
              inl (ap (λ p. p.0) response ∙ ap removed_or_404 (same ∙ absent))
          | inr failure ↦ inr failure
        ]

    -- A person that was created under a number is what a GET of that number gets, unless the request
    -- to the cache fails.
    pub get_one-create :
        (param : Text) (body : Person Num Json) (s s' : S)
        → body.id ≡ number (to_number param)
        → create people body s ≡ (sent_text body, s')
        → ((get_one people to_number param s').0 ≡ sent body)
          ⊎ IsFailure (get_one people to_number param s').0
    get_one-create param body s s' numeric created = get_one-found param s' (some body) (
        ap (laws.contents s') (sym numeric)
        ∙ (laws.set-ok body.id body s s' (create-set body s s' created)).0)

    -- A person that was created under a text is not what any GET gets: each GET finds what it would have
    -- found before, unless the request to the cache fails.
    pub get_one-create_text :
        (param name : Text) (body : Person Num Json) (s s' : S)
        → body.id ≡ text name
        → create people body s ≡ (sent_text body, s')
        → ((get_one people to_number param s').0
            ≡ found_or_404 (laws.contents s (number (to_number param))))
          ⊎ IsFailure (get_one people to_number param s').0
    get_one-create_text param name body s s' textual created =
        let apart : number (to_number param) ≢ body.id = λ e. let bad = e ∙ textual in cc in
        get_one-found param s' (laws.contents s (number (to_number param))) (
          (laws.set-ok body.id body s s' (create-set body s s' created)).1
            (number (to_number param)) apart)

    -- After a DELETE that was answered by a status, a GET and a second DELETE of the same parameter are answered
    -- by 404, unless the request to the cache fails.
    pub get_one-delete :
        (param : Text) (code : ℕ) (s s' : S)
        → delete people to_number param s ≡ (status code, s')
        → (((get_one people to_number param s').0 ≡ status 404)
            ⊎ IsFailure (get_one people to_number param s').0)
          × (((delete people to_number param s').0 ≡ status 404)
              ⊎ IsFailure (delete people to_number param s').0)
    get_one-delete param code s s' deleted =
        let (found, was_removed) = delete-remove param code s s' deleted in
        let (same, gone, kept) = laws.remove-ok (number (to_number param)) s s' found was_removed in
        (get_one-found param s' none gone, delete-none param s' gone)
