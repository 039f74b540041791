-- ===== src/PolyglotDemo.antt =====
-- examples/910_polyglot_demo/js/main.js: the handlers of the REST API over the cache `people`. The
-- cache of the Coherence client is a parameter, and so are the numbers of JavaScript and `Number`.
pub mod Requests
mod Tests
use coherence_operator.Prelude.{ℕ, List, Option, none, some, Text, Bool, true, false}
use coherence_operator.Runtime.{Thrown, Result, ok, throws, pending}

-- A value of a request's body that is used as a key: a text, a number, another value, or none.
pub data Key (Num Json : Type 0) : Type 0 where
  text : Text → Key Num Json
  number : Num → Key Num Json
  other : Json → Key Num Json
  missing : Key Num Json

-- The object `person`; a body has the same three properties.
pub record Person (Num Json : Type 0) : Type 0 where
  pub id : Key Num Json
  pub name : Json
  pub age : Json

-- An answer; `sent_text` has the JSON text of a person, `sent` the JSON object, both with the status 200.
pub data Response (Num Json : Type 0) : Type 0 where
  sent_all : List (Person Num Json) → Response Num Json
  sent sent_text : Person Num Json → Response Num Json
  status : ℕ → Response Num Json
  next : Thrown → Response Num Json
  unanswered : Response Num Json

-- `session.getCache('people')`, with S for the state of the cluster.
pub record Cache (Num Json S : Type 0) : Type 0 where
  pub values : S → Result (List (Person Num Json)) × S
  pub set : Key Num Json → Person Num Json → S → Result (Unit {0}) × S
  pub get : Key Num Json → S → Result (Option (Person Num Json)) × S
  pub remove : Key Num Json → S → Result (Option (Person Num Json)) × S

abbrev pub found_or_404 : {Num Json : Type 0} → Option (Person Num Json) → Response Num Json
found_or_404 none = status 404
found_or_404 (some person) = sent person

abbrev pub removed_or_404 : {Num Json : Type 0} → Option (Person Num Json) → Response Num Json
removed_or_404 none = status 404
removed_or_404 (some old_value) = status 200

module _ {Num Json S : Type 0} where
  -- `promise.then(answer).catch(err => next(err))`.
  unfoldable pub answer :
      {A : Type 0} → (A → Response Num Json) → Result A × S → Response Num Json × S
  answer f (ok a, s) = (f a, s)
  answer f (throws e, s) = (next e, s)
  answer f (pending, s) = (unanswered, s)

  module _ (people : Cache Num Json S) where
    unfoldable pub get_all : S → Response Num Json × S
    unfolding answer
    get_all s = answer sent_all (people.values s)

    unfoldable pub create : Person Num Json → S → Response Num Json × S
    unfolding answer
    create body s =
        let person : Person Num Json = record { id = body.id; name = body.name; age = body.age } in
        answer (λ done. sent_text person) (people.set body.id person s)

    module _ (to_number : Text → Num) where
      unfoldable pub get_one : Text → S → Response Num Json × S
      unfolding answer
      get_one param s = answer found_or_404 (people.get (number (to_number param)) s)

      unfoldable pub delete : Text → S → Response Num Json × S
      unfolding answer
      delete param s = answer removed_or_404 (people.remove (number (to_number param)) s)
