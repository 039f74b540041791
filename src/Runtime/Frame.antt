-- ===== src/Runtime/Frame.antt =====
-- Effects that leave one part of the state alone, whatever they return, and effects that do so if they
-- throw.
use coherence_operator.Prelude.{◌≡◌, refl, sym, ◌∙◌, ap}
use coherence_operator.Runtime.{World, Thrown, Result, ok, throws, pending, M, ◌>>=◌}
use coherence_operator.Runtime.Obey.{Law, IsLaw, Obeys}

abbrev pub Keeping : {X : Type 0} → (World → X) → Law World
Keeping read w e v = read v ≡ read w

abbrev pub Frames : {X : Type 0} → (World → X) → {A : Type 0} → M A → Type 0
Frames read m = Obeys (Keeping read) m

instance abbrev pub keeping_law : {X : Type 0} → {read : World → X} → IsLaw (Keeping read)
keeping_law = record {
  idle = λ w. refl;
  idle_fails = λ w. refl;
  chained = λ u v w e h k. k ∙ h;
  handled = λ u v w e h k. k ∙ h;
}

module _ {X : Type 0} (read : World → X) where
  pub record IsAtomic {A : Type 0} (m : M A) : Type 0 where
    pub atomic : (e : Thrown) → (w v : World) → m w ≡ (throws e, v) → read v ≡ read w

  pub settled-Frames : {A : Type 0} → (r : World → Result A) → Frames read (λ w. (r w, w))
  settled-Frames r = record { obeys = λ w. refl }

  pub Frames-IsAtomic : {A : Type 0} → {m : M A} → Frames read m → IsAtomic m
  Frames-IsAtomic {m = m} m-Frames = record {
    atomic = λ e w v h. ap (λ p. read p.1) (sym h) ∙ m-Frames.obeys w;
  }

  stopped :
      {A B : Type 0}
      → (f : A → M B) → ((a : A) → IsAtomic (f a))
      → (r : Result A) → (u : World) → (e : Thrown) → (v : World)
      → ◌>>=◌ (λ _. (r, u)) f u ≡ (throws e, v)
      → read v ≡ read u
  stopped f f-IsAtomic (ok a) u e v h = (f-IsAtomic a).atomic e u v h
  stopped f f-IsAtomic (throws e') u e v h = ap (λ p. read p.1) (sym h)
  stopped f f-IsAtomic pending u e v h = ap (λ p. read p.1) (sym h)

  -- What changes nothing of the part, followed by what changes nothing of it if it throws.
  pub >>=-IsAtomic :
      {A B : Type 0}
      → {m : M A} → {f : A → M B} → Frames read m
      → ((a : A) → IsAtomic (f a))
      → IsAtomic (m >>= f)
  >>=-IsAtomic {m = m} {f = f} m-Frames f-IsAtomic = record {
    atomic = λ e w v h. stopped f f-IsAtomic (m w).0 (m w).1 e v h ∙ m-Frames.obeys w;
  }
