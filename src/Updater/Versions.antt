-- ===== src/Updater/Versions.antt =====
-- `compareSemver`, and the tags that the script takes for releases. `Number` is written out on decimal
-- digits; what it makes of any other text is the parameter `other_number`, none for NaN (an integer,
-- if any: a version has no number with a fraction between its dots).
pub mod Order
mod Tests
use coherence_operator.Prelude.{
  ℕ, zero, suc, ◌+◌, ◌-◌, ◌*◌, List, [], ◌∷◌, map, Option, none, some, Bool, true, false, not, ◌&&◌,
  Text, codes, split, is_empty, starts_with, drop, leb, all, if◌then◌else◌, ℤ, pos, ◌-ℤ◌,
  is_positive, eq_ℤ,
}

abbrev pub is_digit : ℕ → Bool
is_digit c = leb b'0' c && leb c b'9'

-- `/^\d+$/`.
unfoldable pub is_number : Text → Bool
is_number s = not (is_empty s) && all is_digit s

unfoldable pub decimal_value : ℕ → Text → ℕ
decimal_value n [] = n
decimal_value n (c ∷ s) = decimal_value (n * 10 + (c - b'0')) s

-- An element of `a.split('.').map(Number)`, and what an index past the end gives.
pub data Part : Type 0 where
  missing : Part
  not_a_number : Part
  number : ℤ → Part

-- `x !== y`.
unfoldable pub differs : Part → Part → Bool
differs missing missing = false
differs (number x) (number y) = not (eq_ℤ x y)
differs x y = true

-- `x - y`, none for NaN.
unfoldable pub minus : Part → Part → Option ℤ
minus (number x) (number y) = some (x -ℤ y)
minus x y = none

abbrev pub first : List Part → Part
first [] = missing
first (x ∷ xs) = x

abbrev pub others : List Part → List Part
others [] = []
others (x ∷ xs) = xs

-- The loop, by the rounds that are left; the lists are what stands from the index on.
unfoldable pub compare_parts : ℕ → List Part → List Part → Option ℤ
unfolding differs minus
compare_parts zero pa pb = some (pos 0)
compare_parts (suc rounds) pa pb =
    let rest = compare_parts rounds (others pa) (others pb) in
    if differs (first pa) (first pb) then minus (first pa) (first pb) else rest

-- `/^v\d+\.\d+\.\d+$/` behind the v.
abbrev pub are_numbers : List Text → Bool
are_numbers (p ∷ q ∷ r ∷ []) = is_number p && is_number q && is_number r
are_numbers ps = false

unfoldable pub is_release : Text → Bool
is_release v = are_numbers (split b'.' v)

unfoldable pub is_release_tag : Text → Bool
is_release_tag t = starts_with t (codes "v") && is_release (drop 1 t)

-- `t.replace(/^v/, '')`.
unfoldable pub without_v : Text → Text
without_v t = if starts_with t (codes "v") then drop 1 t else t

module _ (other_number : Text → Option ℤ) where
  unfoldable pub to_part : Text → Part
  to_part s =
      if is_number s
      then number (pos (decimal_value 0 s))
      else elim (other_number s) [ none ↦ not_a_number | some n ↦ number n ]

  unfoldable pub compare_semver : Text → Text → Option ℤ
  unfolding compare_parts to_part
  compare_semver a b = compare_parts 3 (map to_part (split b'.' a)) (map to_part (split b'.' b))

  -- `compareSemver(a, b) > 0`, which is false for NaN.
  unfoldable pub is_newer : Text → Text → Bool
  is_newer a b = elim (compare_semver a b) [ none ↦ false | some d ↦ is_positive d ]
