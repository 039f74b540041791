-- ===== src/PolyglotDemo/Tests.antt =====
-- A cache in memory, and the theorems about the handlers at it.
use coherence_operator.Prelude.{
  ◌≡◌, ◌≢◌, refl, ap, sym, ◌∙◌, ◌⊎◌, ◌==◌, inl, inr, ℕ, [], Option, none, some, Bool, true, false,
  Text, codes, text_eq, text_eq_iff, text_eq_refl, if◌then◌else◌, Bool-cases, arith, length,
}
use coherence_operator.Runtime.{ok}
use coherence_operator.Runtime.Laws.{ok-inj}
use coherence_operator.PolyglotDemo.{
  Key, text, number, other, missing, Person, Cache, answer, found_or_404, create, get_one,
}
use coherence_operator.PolyglotDemo.Requests.{IsMap, IsFailure, get_one-create_text}

abbrev same_key : Key ℕ Text → Key ℕ Text → Bool
same_key (text s) (text t) = text_eq s t
same_key (number m) (number n) = m == n
same_key (other a) (other b) = text_eq a b
same_key missing missing = true
same_key j k = false

same_key_refl : (k : Key ℕ Text) → same_key k k ≡ true
same_key_refl (text s) = text_eq_refl s
same_key_refl (number n) = ground arith
same_key_refl (other a) = text_eq_refl a
same_key_refl missing = refl

same_key_sound : (j k : Key ℕ Text) → same_key j k ≡ true → j ≡ k
same_key_sound (text s) (text t) h = ap text ((text_eq_iff s t).0 h)
same_key_sound (text s) (number n) h = cc
same_key_sound (text s) (other b) h = cc
same_key_sound (text s) missing h = cc
same_key_sound (number m) (text t) h = cc
same_key_sound (number m) (number n) h = let same : m ≡ n = ground (arith, h) in ap number same
same_key_sound (number m) (other b) h = cc
same_key_sound (number m) missing h = cc
same_key_sound (other a) (text t) h = cc
same_key_sound (other a) (number n) h = cc
same_key_sound (other a) (other b) h = ap other ((text_eq_iff a b).0 h)
same_key_sound (other a) missing h = cc
same_key_sound missing (text t) h = cc
same_key_sound missing (number n) h = cc
same_key_sound missing (other b) h = cc
same_key_sound missing missing h = refl

abbrev Memory : Type 0
Memory = Key ℕ Text → Option (Person ℕ Text)

abbrev put : Memory → Key ℕ Text → Option (Person ℕ Text) → Memory
put s k v j = if same_key j k then v else s j

abbrev in_memory : Cache ℕ Text Memory
in_memory = record {
  values = λ s. (ok [], s);
  set = λ k person s. (ok tt, put s k (some person));
  get = λ k s. (ok (s k), s);
  remove = λ k s. (ok (s k), put s k none);
}

put_same : (s : Memory) (k : Key ℕ Text) (v : Option (Person ℕ Text)) → put s k v k ≡ v
put_same s k v = ap (λ b. if b then v else s k) (same_key_refl k)

put_other :
    (s : Memory) (k : Key ℕ Text) (v : Option (Person ℕ Text)) (j : Key ℕ Text)
    → j ≢ k
    → put s k v j ≡ s j
put_other s k v j apart = elim (Bool-cases (same_key j k)) [
  | inl same ↦ absurd (apart (same_key_sound j k same))
  | inr differs ↦ ap (λ b. if b then v else s j) differs
]

in_memory-IsMap : IsMap in_memory
in_memory-IsMap = record {
  contents = λ s k. s k;
  get-ok = λ k s s' found h.
      let (same, kept) = ok-inj (s k) found s s' h in (sym same, λ j. ap (λ t. t j) (sym kept));
  set-ok = λ k person s s' h.
      let (done, kept) = ok-inj tt tt (put s k (some person)) s' h in
      (
        ap (λ t. t k) (sym kept) ∙ put_same s k (some person),
        λ j apart. ap (λ t. t j) (sym kept) ∙ put_other s k (some person) j apart,
      );
  remove-ok = λ k s s' found h.
      let (same, kept) = ok-inj (s k) found (put s k none) s' h in
      (
        sym same,
        ap (λ t. t k) (sym kept) ∙ put_same s k none,
        λ j apart. ap (λ t. t j) (sym kept) ∙ put_other s k none j apart,
      );
}

abbrev nobody : Memory
nobody k = none

abbrev numbered : Person ℕ Text
numbered = record { id = number 3; name = codes "Ada"; age = codes "36" }

abbrev named : Person ℕ Text
named = record { id = text (codes "abc"); name = codes "Bob"; age = codes "40" }

get_one-create_text_example :
    ((get_one in_memory length (codes "abc") (create in_memory named nobody).1).0
      ≡ found_or_404 (in_memory-IsMap.contents nobody (number 3)))
    ⊎ IsFailure (get_one in_memory length (codes "abc") (create in_memory named nobody).1).0
unfolding create answer
get_one-create_text_example =
    get_one-create_text in_memory in_memory-IsMap length (codes "abc") (codes "abc") named nobody
      (create in_memory named nobody).1 refl refl
