-- ===== src/Updater/Sort/Laws.antt =====
-- A sorted list has the elements of the list it was made from, in order.
use mathlib.Core.List.{Perm}
use mathlib.Core.List.Perm
use coherence_operator.Prelude.{◌≡◌, List, [], ◌∷◌, Bool, true, false, All, Bool-cases, inl, inr}
use coherence_operator.Updater.Sort.{insert, sort}

module _ {A : Type 0} (comes_after : A → A → Bool) where
  -- No element stands before one that it comes after.
  abbrev pub IsSorted : List A → Type 0
  IsSorted [] = Unit
  IsSorted (x ∷ xs) = All (λ y. comes_after x y ≡ false) xs × IsSorted xs

  insert-perm : (x : A) (ys : List A) → Perm (insert comes_after x ys) (x ∷ ys)
  unfolding insert
  insert-perm x [] = Perm.refl (x ∷ [])
  insert-perm x (y ∷ ys) = elim (Bool-cases (comes_after x y)) [
    | inl later ↦ rw later (Perm.trans (Perm.cons y (insert-perm x ys)) (Perm.swap x y ys))
    | inr earlier ↦ rw earlier (Perm.refl (x ∷ y ∷ ys))
  ]

  pub sort-perm : (xs : List A) → Perm (sort comes_after xs) xs
  unfolding sort
  sort-perm [] = Perm.refl []
  sort-perm (x ∷ xs) = Perm.trans (insert-perm x (sort comes_after xs)) (Perm.cons x (sort-perm xs))

  insert-All :
      (P : A → Type 0) (x : A) (ys : List A) → P x → All P ys → All P (insert comes_after x ys)
  unfolding insert
  insert-All P x [] p ps = (p, tt)
  insert-All P x (y ∷ ys) p (q, ps) = elim (Bool-cases (comes_after x y)) [
    | inl later ↦ rw later (q, insert-All P x ys p ps)
    | inr earlier ↦ rw earlier (p, (q, ps))
  ]

  pub sort-All : (P : A → Type 0) (xs : List A) → All P xs → All P (sort comes_after xs)
  unfolding sort
  sort-All P [] ps = tt
  sort-All P (x ∷ xs) (p, ps) = insert-All P x (sort comes_after xs) p (sort-All P xs ps)

  module _ (P : A → Type 0)
      (asym : (x y : A) → P x → P y → comes_after x y ≡ true → comes_after y x ≡ false)
      (cotrans : (x y z : A)
        → P x
        → P y
        → P z
        → comes_after x y ≡ false
        → comes_after y z ≡ false
        → comes_after x z ≡ false) where
    below-All :
        (x y : A) (ys : List A)
        → P x
        → P y
        → All P ys
        → comes_after x y ≡ false
        → All (λ z. comes_after y z ≡ false) ys
        → All (λ z. comes_after x z ≡ false) ys
    below-All x y [] p q ps h hs = tt
    below-All x y (z ∷ zs) p q (r, ps) h (k, ks) =
        (cotrans x y z p q r h k, below-All x y zs p q ps h ks)

    insert-IsSorted :
        (x : A) (ys : List A) → P x → All P ys → IsSorted ys → IsSorted (insert comes_after x ys)
    unfolding insert
    insert-IsSorted x [] p ps s = (tt, tt)
    insert-IsSorted x (y ∷ ys) p (q, ps) (h, s) = elim (Bool-cases (comes_after x y)) [
      | inl later ↦ rw later (
        insert-All (λ z. comes_after y z ≡ false) x ys (asym x y p q later) h,
        insert-IsSorted x ys p ps s,
      )
      | inr earlier ↦ rw earlier ((earlier, below-All x y ys p q ps earlier h), (h, s))
    ]

    pub sort-IsSorted : (xs : List A) → All P xs → IsSorted (sort comes_after xs)
    unfolding sort
    sort-IsSorted [] ps = tt
    sort-IsSorted (x ∷ xs) (p, ps) =
        insert-IsSorted x (sort comes_after xs) p (sort-All P xs ps) (sort-IsSorted xs ps)
