-- ===== src/Runtime/Settle.antt =====
-- Effects that come to an end: they return or throw, and never wait for ever.
use coherence_operator.Prelude.{Text}
use coherence_operator.Runtime.{World, Event, ok, M, perform, get_env}
use coherence_operator.Runtime.Obey.{Ending, returns, fails, hangs, Law, IsLaw, Obeys}

abbrev pub IsOver : Ending → Type 0
IsOver returns = Unit
IsOver fails = Unit
IsOver hangs = ⊥

abbrev pub Settling : Law World
Settling w e v = IsOver e

abbrev pub Settles : {A : Type 0} → M A → Type 0
Settles m = Obeys Settling m

instance abbrev pub settling_law : IsLaw Settling
settling_law = record {
  idle = λ w. tt;
  idle_fails = λ w. tt;
  chained = λ u v w e h k. k;
  handled = λ u v w e h k. k;
}

pub returns-Settles :
    {A : Type 0} → (f : World → A) → (g : World → World) → Settles (λ w. (ok (f w), g w))
returns-Settles f g = record { obeys = λ w. tt }

pub perform-Settles : (e : Event) → Settles (perform e)
perform-Settles e = record { obeys = λ w. tt }

pub get_env-Settles : (key : Text) → Settles (get_env key)
get_env-Settles key = returns-Settles (λ w. w.env key) (λ w. w)
