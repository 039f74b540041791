-- ===== src/Runtime/Laws.antt =====
-- What follows from a run of a chain of effects.
use coherence_operator.Prelude.{◌≡◌, refl, ap}
use coherence_operator.Runtime.{Thrown, Result, ok, throws, pending, Run, ◌>>=◌}

module _ {S A B : Type 0} (f : A → Run S B) {b : B} {w' : S} where
  returned :
      (r : Result A) (v : S)
      → ◌>>=◌ (λ _. (r, v)) f v ≡ (ok b, w')
      → (a : A) × (r ≡ ok a) × (f a v ≡ (ok b, w'))
  returned (ok a) v h = (a, refl, h)
  returned (throws e) v h = cc
  returned pending v h = cc

  -- A chain that returns had a first part that returned.
  pub >>=-eq-ok :
      (m : Run S A) (w : S)
      → (m >>= f) w ≡ (ok b, w')
      → (a : A) × (v : S) × (m w ≡ (ok a, v)) × (f a v ≡ (ok b, w'))
  >>=-eq-ok m w h =
      let (a, e, g) = returned (m w).0 (m w).1 h in (a, (m w).1, (λ i. (e i, (m w).1)), g)

module _ {S A B : Type 0} (m : Run S A) (f : A → Run S B) (w : S) {v : S} where
  pub >>=-ok : {a : A} → m w ≡ (ok a, v) → (m >>= f) w ≡ f a v
  >>=-ok h = ap (λ (p : Result A × S). ◌>>=◌ (λ (x : S). p) f w) h

  pub >>=-throws : {e : Thrown} → m w ≡ (throws e, v) → (m >>= f) w ≡ (throws e, v)
  >>=-throws h = ap (λ (p : Result A × S). ◌>>=◌ (λ (x : S). p) f w) h

  pub >>=-pending : m w ≡ (pending, v) → (m >>= f) w ≡ (pending, v)
  >>=-pending h = ap (λ (p : Result A × S). ◌>>=◌ (λ (x : S). p) f w) h

-- Two ends that return are equal in the value and the state.
pub ok-inj :
    {A S : Type 0} (a b : A) (s t : S)
    → ◌≡◌ {A = Result A × S} (ok a, s) (ok b, t)
    → (a ≡ b) × (s ≡ t)
ok-inj {A = A} a b s t h = (from_ok (ap (λ p. p.0) h), ap (λ p. p.1) h)
  where
    from_ok : ◌≡◌ {A = Result A} (ok a) (ok b) → a ≡ b
    from_ok e = cc
