-- ===== src/Updater/Filters.antt =====
-- Predicates on the items that a filter lets through.
use coherence_operator.Prelude.{◌≡◌, refl, List, [], ◌∷◌, Bool, true, false, filter, map, All}

module _ {A : Type 0} (P : A → Type 0) where
  kept_if :
      (x : A) (xs : List A) (b : Bool)
      → (b ≡ true → P x)
      → All P xs
      → All P (elim b as (λ _. List A) [ true ↦ x ∷ xs | false ↦ xs ])
  kept_if x xs true p ps = (p refl, ps)
  kept_if x xs false p ps = ps

  filter-keeps : (p : A → Bool) (xs : List A) → All (λ x. p x ≡ true → P x) xs → All P (filter p xs)
  filter-keeps p [] ps = tt
  filter-keeps p (x ∷ xs) (h, ps) = kept_if x (filter p xs) (p x) h (filter-keeps p xs ps)

  pub All-of : ((x : A) → P x) → (xs : List A) → All P xs
  All-of h [] = tt
  All-of h (x ∷ xs) = (h x, All-of h xs)

  All-imp : (Q : A → Type 0) → (xs : List A) → All P xs → All (λ x. Q x → P x) xs
  All-imp Q [] ps = tt
  All-imp Q (x ∷ xs) (p, ps) = (λ _. p, All-imp Q xs ps)

  -- What holds of all items holds of those that a filter lets through.
  pub filter-keeps-All : (p : A → Bool) (xs : List A) → All P xs → All P (filter p xs)
  filter-keeps-All p xs ps = filter-keeps p xs (All-imp (λ x. p x ≡ true) xs ps)

-- What a filter lets through passes its test.
pub filter-All : {A : Type 0} (p : A → Bool) (xs : List A) → All (λ x. p x ≡ true) (filter p xs)
filter-All p xs =
    filter-keeps (λ x. p x ≡ true) p xs (All-of (λ x. p x ≡ true → p x ≡ true) (λ x h. h) xs)

pub All-map :
    {A : Type 0} (P Q : A → Type 0) → ((x : A) → P x → Q x) → (xs : List A) → All P xs → All Q xs
All-map P Q f [] ps = tt
All-map P Q f (x ∷ xs) (p, ps) = (f x p, All-map P Q f xs ps)

pub map-All :
    {A B : Type 0} (P : B → Type 0) (f : A → B) (xs : List A)
    → All (λ x. P (f x)) xs
    → All P (map f xs)
map-All P f [] ps = tt
map-All P f (x ∷ xs) (p, ps) = (p, map-All P f xs ps)

pub All-both :
    {A : Type 0} (P Q : A → Type 0) (xs : List A) → All P xs → All Q xs → All (λ x. P x × Q x) xs
All-both P Q [] ps qs = tt
All-both P Q (x ∷ xs) (p, ps) (q, qs) = ((p, q), All-both P Q xs ps qs)
