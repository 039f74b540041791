-- ===== src/Runtime/Obey.antt =====
-- Laws that a computation obeys on every state, and their closure under the ways in which the program
-- puts computations together. A law relates the state before, how the computation ends, and the
-- state after.
use coherence_operator.Prelude.{Bool, true, false, if◌then◌else◌}
use coherence_operator.Runtime.{
  Thrown, Result, ok, throws, pending, Run, ◌>>=◌, ◌>>◌, pure, throw, throw_if, catch,
}

pub data Ending : Type 0 where
  returns fails hangs : Ending

abbrev pub ending_of : {A : Type 0} → Result A → Ending
ending_of (ok a) = returns
ending_of (throws e) = fails
ending_of pending = hangs

abbrev pub Law : Type 0 → Type 1
Law S = S → Ending → S → Type 0

-- What a law needs to go through a program: it holds of a step that does nothing, and it goes on over
-- `await` and `catch`.
pub record IsLaw {S : Type 0} (R : Law S) : Type 0 where
  pub idle : (s : S) → R s returns s
  pub idle_fails : (s : S) → R s fails s
  pub chained : (s t u : S) → (e : Ending) → R s returns t → R t e u → R s e u
  pub handled : (s t u : S) → (e : Ending) → R s fails t → R t e u → R s e u

pub record Obeys {S : Type 0} (R : Law S) {A : Type 0} (m : Run S A) : Type 0 where
  pub obeys : (s : S) → R s (ending_of (m s).0) (m s).1

module _ {S : Type 0} {R : Law S} ⦃law : IsLaw R⦄ where
  pub pure-Obeys : {A : Type 0} → (a : A) → Obeys R (pure {S = S} a)
  pure-Obeys a = record { obeys = λ s. law.idle s }

  pub throw-Obeys : {A : Type 0} → (e : Thrown) → Obeys R (throw {S = S} {A = A} e)
  throw-Obeys e = record { obeys = λ s. law.idle_fails s }

  pub if-Obeys :
      {A : Type 0}
      → {m k : Run S A} → (b : Bool) → Obeys R m
      → Obeys R k
      → Obeys R (if b then m else k)
  if-Obeys true hm hk = hm
  if-Obeys false hm hk = hk

  pub throw_if-Obeys : (b : Bool) → (e : Thrown) → Obeys R (throw_if {S = S} b e)
  throw_if-Obeys b e = if-Obeys b (throw-Obeys e) (pure-Obeys tt)

  continued :
      {A B : Type 0}
      → (f : A → Run S B) → ((a : A) → Obeys R (f a))
      → (s : S) → (r : Result A) → (t : S) → R s (ending_of r) t
      → R s (ending_of (◌>>=◌ (λ (x : S). (r, t)) f s).0) (◌>>=◌ (λ (x : S). (r, t)) f s).1
  continued f f-Obeys s (ok a) t h =
      law.chained s t (f a t).1 (ending_of (f a t).0) h ((f-Obeys a).obeys t)
  continued f f-Obeys s (throws e) t h = h
  continued f f-Obeys s pending t h = h

  pub >>=-Obeys :
      {A B : Type 0}
      → {m : Run S A} → {f : A → Run S B} → Obeys R m
      → ((a : A) → Obeys R (f a))
      → Obeys R (m >>= f)
  >>=-Obeys {m = m} {f = f} m-Obeys f-Obeys = record {
    obeys = λ s. continued f f-Obeys s (m s).0 (m s).1 (m-Obeys.obeys s);
  }

  pub >>-Obeys :
      {B : Type 0}
      → {m : Run S (Unit {0})} → {k : Run S B} → Obeys R m
      → Obeys R k
      → Obeys R (m >> k)
  >>-Obeys m-Obeys k-Obeys = >>=-Obeys m-Obeys λ _. k-Obeys

  caught :
      {A : Type 0}
      → (handle : Thrown → Run S A) → ((e : Thrown) → Obeys R (handle e))
      → (s : S) → (r : Result A) → (t : S) → R s (ending_of r) t
      → R s
          (ending_of (catch (λ (x : S). (r, t)) handle s).0)
          (catch (λ (x : S). (r, t)) handle s).1
  caught handle handle-Obeys s (ok a) t h = h
  caught handle handle-Obeys s (throws e) t h =
      law.handled s t (handle e t).1 (ending_of (handle e t).0) h ((handle-Obeys e).obeys t)
  caught handle handle-Obeys s pending t h = h

  pub catch-Obeys :
      {A : Type 0}
      → {m : Run S A} → {handle : Thrown → Run S A} → Obeys R m
      → ((e : Thrown) → Obeys R (handle e))
      → Obeys R (catch m handle)
  catch-Obeys {m = m} {handle = handle} m-Obeys handle-Obeys = record {
    obeys = λ s. caught handle handle-Obeys s (m s).0 (m s).1 (m-Obeys.obeys s);
  }
