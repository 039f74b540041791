-- ===== src/Runtime/Quiet.antt =====
-- Effects that start no process and leave the environment and the exit code alone, and those of them
-- that come to an end where a condition on the surroundings holds.
use coherence_operator.Prelude.{List, [], ◌∷◌, ◌≡◌, refl, ◌∙◌}
use coherence_operator.Runtime.{
  Event, spawned, World, ok, M, perform, wrote, wrote_to_stderr, requested, slept, made_dir,
  removed,
}
use coherence_operator.Runtime.Obey.{Law, IsLaw, Obeys}
use coherence_operator.Runtime.Settle.{IsOver, Settles}

-- The processes that were started, the last first.
unfoldable pub spawns : List Event → List Event
spawns [] = []
spawns (spawned file args cwd ∷ es) = spawned file args cwd ∷ spawns es
spawns (wrote s ∷ es) = spawns es
spawns (wrote_to_stderr s ∷ es) = spawns es
spawns (requested s ∷ es) = spawns es
spawns (slept s ∷ es) = spawns es
spawns (made_dir s ∷ es) = spawns es
spawns (removed s ∷ es) = spawns es

-- The second state agrees with the first on what a quiet effect keeps.
abbrev pub Keeps : World → World → Type 0
Keeps w w' = (w'.env ≡ w.env) × (w'.exit_code ≡ w.exit_code) × (spawns w'.trace ≡ spawns w.trace)

pub Keeps-trans : (u v w : World) → Keeps u v → Keeps v w → Keeps u w
Keeps-trans u v w (a, b, c) (d, e, f) = (d ∙ a, e ∙ b, f ∙ c)

-- The effect is quiet, and it is over if the condition holds.
abbrev pub Tame : Type 0 → Law World
Tame P w e v = Keeps w v × (P → IsOver e)

abbrev pub IsTame : Type 0 → {A : Type 0} → M A → Type 0
IsTame P m = Obeys (Tame P) m

instance abbrev pub tame_law : {P : Type 0} → IsLaw (Tame P)
tame_law = record {
  idle = λ w. ((refl, refl, refl), λ p. tt);
  idle_fails = λ w. ((refl, refl, refl), λ p. tt);
  chained = λ u v w e (h, hp) (k, kp). (Keeps-trans u v w h k, kp);
  handled = λ u v w e (h, hp) (k, kp). (Keeps-trans u v w h k, kp);
}

pub IsTame-Settles : {P A : Type 0} → {m : M A} → P → IsTame P m → Settles m
IsTame-Settles p tame = record { obeys = λ w. (tame.obeys w).1 p }

module _ {P : Type 0} where
  pub perform-IsTame :
      (e : Event) → ((es : List Event) → spawns (e ∷ es) ≡ spawns es) → IsTame P (perform e)
  perform-IsTame e silent = record { obeys = λ w. ((refl, refl, silent w.trace), λ p. tt) }

  -- A look at the state.
  pub reads-IsTame : {A : Type 0} → (f : World → A) → IsTame P (λ w. (ok (f w), w))
  reads-IsTame f = record { obeys = λ w. ((refl, refl, refl), λ p. tt) }
