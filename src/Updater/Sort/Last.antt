-- ===== src/Updater/Sort/Last.antt =====
-- The last element of a sorted list comes after all others.
use coherence_operator.Prelude.{
  ◌≡◌, List, [], ◌∷◌, some, Bool, true, false, All, Bool-cases, inl, inr, if◌then◌else◌,
}
use coherence_operator.Updater.Sort.{insert, sort, last}
use coherence_operator.Updater.Sort.Laws.{IsSorted}

pub last-All :
    {A : Type 0} (P : A → Type 0) (xs : List A) (m : A) → last xs ≡ some m → All P xs → P m
unfolding last
last-All P [] m h ps = cc
last-All P (x ∷ []) m h (p, ps) = let same : x ≡ m = cc in rw (← same) p
last-All P (x ∷ y ∷ xs) m h (p, ps) = last-All P (y ∷ xs) m h ps

module _ {A : Type 0} (comes_after : A → A → Bool) (P : A → Type 0) where
  placed :
      (b : Bool) (x y : A) (ys zs : List A)
      → (All P zs → P x × All P ys)
      → All P (if b then y ∷ zs else x ∷ y ∷ ys)
      → P x × (P y × All P ys)
  placed true x y ys zs back (q, ps) = let (p, qs) = back ps in (p, (q, qs))
  placed false x y ys zs back ps = ps

  insert-All-of : (x : A) (ys : List A) → All P (insert comes_after x ys) → P x × All P ys
  unfolding insert
  insert-All-of x [] ps = ps
  insert-All-of x (y ∷ ys) ps =
      placed (comes_after x y) x y ys (insert comes_after x ys) (insert-All-of x ys) ps

  pub sort-All-of : (xs : List A) → All P (sort comes_after xs) → All P xs
  unfolding sort
  sort-All-of [] ps = tt
  sort-All-of (x ∷ xs) ps =
      let (p, qs) = insert-All-of x (sort comes_after xs) ps in (p, sort-All-of xs qs)

module _ {A : Type 0} (comes_after : A → A → Bool) (P : A → Type 0)
    (asym : (x y : A) → P x → P y → comes_after x y ≡ true → comes_after y x ≡ false) where
  irrefl : (x : A) → P x → comes_after x x ≡ false
  irrefl x p = elim (Bool-cases (comes_after x x)) [
    | inl after ↦ asym x x p p after
    | inr before ↦ before
  ]

  pub last-bound :
      (xs : List A) (m : A)
      → All P xs
      → IsSorted comes_after xs
      → last xs ≡ some m
      → All (λ x. comes_after x m ≡ false) xs
  unfolding last
  last-bound [] m ps s h = tt
  last-bound (x ∷ []) m (p, ps) s h = let same : x ≡ m = cc in (rw (← same) (irrefl x p), tt)
  last-bound (x ∷ y ∷ xs) m (p, ps) (q, s) h =
      (last-All (λ z. comes_after x z ≡ false) (y ∷ xs) m h q, last-bound (y ∷ xs) m ps s h)
