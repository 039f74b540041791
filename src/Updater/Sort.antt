-- ===== src/Updater/Sort.antt =====
-- `Array.prototype.sort` with a comparison, for one that is consistent: the stable order. The second
-- argument says of two elements whether the comparison gives a number above 0.
pub mod Laws
pub mod Last
use coherence_operator.Prelude.{List, [], ◌∷◌, Option, none, some, Bool, if◌then◌else◌}

module _ {A : Type 0} (comes_after : A → A → Bool) where
  unfoldable pub insert : A → List A → List A
  insert x [] = x ∷ []
  insert x (y ∷ ys) = if comes_after x y then y ∷ insert x ys else x ∷ y ∷ ys

  unfoldable pub sort : List A → List A
  unfolding insert
  sort [] = []
  sort (x ∷ xs) = insert x (sort xs)

-- `xs.pop()` of a copy: the last element.
unfoldable pub last : {A : Type 0} → List A → Option A
last [] = none
last (x ∷ []) = some x
last (x ∷ y ∷ xs) = last (y ∷ xs)
