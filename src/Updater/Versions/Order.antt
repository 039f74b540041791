-- ===== src/Updater/Versions/Order.antt =====
-- `compareSemver` on releases: the order of the three numbers, the first first.
use coherence_operator.Prelude.{
  ℕ, ◌<◌, ◌≤◌, ◌≡◌, refl, ap, sym, ◌∙◌, ◌↔◌, ◌⊎◌, List, [], ◌∷◌, map, Option, some, true, false,
  Text, split, arith, not, ◌==◌, if◌then◌else◌, ℤ, pos, is_positive, ◌-ℤ◌,
}
use coherence_operator.Updater.Versions.{
  is_number, decimal_value, number, compare_parts, is_release, to_part, compare_semver, is_newer,
  are_numbers,
}

-- The three numbers of a release.
abbrev pub Key : Type 0
Key = ℕ × ℕ × ℕ

abbrev pub key_of : List Text → Key
key_of (p ∷ q ∷ r ∷ []) = (decimal_value 0 p, decimal_value 0 q, decimal_value 0 r)
key_of ps = (0, 0, 0)

pub key : Text → Key
key v = key_of (split b'.' v)

-- The order of the releases.
abbrev pub Precedes : Key → Key → Type 0
Precedes (a, b, c) (a', b', c') = (a < a') ⊎ ((a ≡ a') × ((b < b') ⊎ ((b ≡ b') × (c < c'))))

-- The first difference of two keys.
difference : Key → Key → ℤ
difference (a, b, c) (a', b', c') =
    if not (a == a')
    then pos a -ℤ pos a'
    else if not (b == b')
    then pos b -ℤ pos b'
    else pos c -ℤ pos c'

compare_three :
    (a b c a' b' c' : ℕ)
    → compare_parts 3
        (number (pos a) ∷ number (pos b) ∷ number (pos c) ∷ [])
        (number (pos a') ∷ number (pos b') ∷ number (pos c') ∷ [])
      ≡ some (difference (a, b, c) (a', b', c'))
unfolding compare_parts ◌-ℤ◌ difference
compare_three a b c a' b' c' = ground arith

is_positive-difference : (k l : Key) → (is_positive (difference k l) ≡ true) ↔ Precedes l k
unfolding ◌-ℤ◌ difference
is_positive-difference (a, b, c) (a', b', c') = (λ h. ground arith, λ h. ground arith)

to_part-number :
    (other_number : Text → Option ℤ) (s : Text)
    → is_number s ≡ true
    → to_part other_number s ≡ number (pos (decimal_value 0 s))
unfolding to_part
to_part-number other_number s h = rw h

parts_of_numbers :
    (other_number : Text → Option ℤ) (ps qs : List Text)
    → are_numbers ps ≡ true
    → are_numbers qs ≡ true
    → compare_parts 3 (map (to_part other_number) ps) (map (to_part other_number) qs)
      ≡ some (difference (key_of ps) (key_of qs))
parts_of_numbers other_number (p ∷ q ∷ r ∷ []) (p' ∷ q' ∷ r' ∷ []) h k =
    rw
      (
        to_part-number other_number p (ground (arith, h)),
        to_part-number other_number q (ground (arith, h)),
        to_part-number other_number r (ground (arith, h)),
        to_part-number other_number p' (ground (arith, k)),
        to_part-number other_number q' (ground (arith, k)),
        to_part-number other_number r' (ground (arith, k)),
      )
      (compare_three _ _ _ _ _ _)
parts_of_numbers other_number ps qs h k = ground (arith, h, k)

compare_semver-difference :
    (other_number : Text → Option ℤ) (a b : Text)
    → is_release a ≡ true
    → is_release b ≡ true
    → compare_semver other_number a b ≡ some (difference (key a) (key b))
unfolding is_release compare_semver key
compare_semver-difference other_number a b h k =
    parts_of_numbers other_number (split b'.' a) (split b'.' b) h k

difference-zero : (k l : Key) → (difference k l ≡ pos 0) ↔ (k ≡ l)
unfolding ◌-ℤ◌ difference
difference-zero (a, b, c) (a', b', c') = (λ h. ground arith, λ h. ground arith)

difference-asym :
    (k l : Key) → is_positive (difference k l) ≡ true → is_positive (difference l k) ≡ false
unfolding ◌-ℤ◌ difference
difference-asym (a, b, c) (a', b', c') h = ground arith

abbrev AtMost : Key → Key → Type 0
AtMost (a, b, c) (a', b', c') = (a < a') ⊎ ((a ≡ a') × ((b < b') ⊎ ((b ≡ b') × (c ≤ c'))))

not_positive-difference : (k l : Key) → (is_positive (difference k l) ≡ false) ↔ AtMost k l
unfolding ◌-ℤ◌ difference
not_positive-difference (a, b, c) (a', b', c') = (λ h. ground arith, λ h. ground arith)

AtMost-trans : (k l m : Key) → AtMost k l → AtMost l m → AtMost k m
AtMost-trans (a, b, c) (a', b', c') (a'', b'', c'') h k = ground arith

difference-cotrans :
    (k l m : Key)
    → is_positive (difference k l) ≡ false
    → is_positive (difference l m) ≡ false
    → is_positive (difference k m) ≡ false
difference-cotrans k l m h h' =
    (not_positive-difference k m).1
      (AtMost-trans k l m ((not_positive-difference k l).0 h) ((not_positive-difference l m).0 h'))

module _ (other_number : Text → Option ℤ) where
  is_newer-difference :
      (a b : Text)
      → is_release a ≡ true
      → is_release b ≡ true
      → is_newer other_number a b ≡ is_positive (difference (key a) (key b))
  unfolding is_newer
  is_newer-difference a b h k = rw (compare_semver-difference other_number a b h k, is_newer) refl

  -- On releases the comparison is consistent, as `sort` needs it.
  pub is_newer-asym :
      (a b : Text)
      → is_release a ≡ true
      → is_release b ≡ true
      → is_newer other_number a b ≡ true
      → is_newer other_number b a ≡ false
  is_newer-asym a b h k newer =
      is_newer-difference b a k h
      ∙ difference-asym (key a) (key b) (sym (is_newer-difference a b h k) ∙ newer)

  pub is_newer-cotrans :
      (a b c : Text)
      → is_release a ≡ true
      → is_release b ≡ true
      → is_release c ≡ true
      → is_newer other_number a b ≡ false
      → is_newer other_number b c ≡ false
      → is_newer other_number a c ≡ false
  is_newer-cotrans a b c h k l p q =
      is_newer-difference a c h l
      ∙ difference-cotrans (key a) (key b) (key c) (sym (is_newer-difference a b h k) ∙ p)
          (sym (is_newer-difference b c k l) ∙ q)

-- Of two releases, `compareSemver` finds the first newer exactly if its three numbers come later in the
-- order that compares the first numbers first, and finds the two equal exactly if all three numbers are
-- equal; what `Number` makes of other texts does not matter.
pub compare_semver-Precedes :
    (other_number : Text → Option ℤ) (a b : Text)
    → is_release a ≡ true
    → is_release b ≡ true
    → ((is_newer other_number a b ≡ true) ↔ Precedes (key b) (key a))
      × ((compare_semver other_number a b ≡ some (pos 0)) ↔ (key a ≡ key b))
compare_semver-Precedes other_number a b h k =
    let found = compare_semver-difference other_number a b h k in
    (
      rw (is_newer-difference other_number a b h k) (is_positive-difference (key a) (key b)),
      (
        λ e. (difference-zero _ _).0 (ground (arith, found, e)),
        λ e. found ∙ ap some ((difference-zero _ _).1 e),
      ),
    )
