-- ===== src/ControlPlane/Ensures.antt =====
-- What an action of packages/control-plane/src/service.ts ensures where it returns, a rule for each way to
-- build one.
use mathlib.Core.Path.{subst}
use badgerbots_code_studio.Prelude.{
  ◌≡◌, refl, sym, ◌∙◌, ap, Bool, true, false, Option, none, some, arith, if◌then◌else◌, Result, ok,
  err,
}
use badgerbots_code_studio.ControlPlane.Action.{
  Service, ServiceError, Action, read, some_or_throw, throw_if, and_on, ◌>>=◌,
}

-- What holds of the value and the service where the action returns.
pub record Ensures {A : Type 0} (P : Service → Type 0) (m : Action A) (Q : A → Service → Type 0)
    : Type 0 where
  pub at : (s : Service) → P s → (a : A) → (m s).0 ≡ ok a → Q a (m s).1

module _ {A B : Type 0} {Q : A → Service → Type 0} {R : B → Service → Type 0} where
  Ensures-and_on :
      (r : Result ServiceError A) (f : A → Action B) (s : Service)
      → ((a : A) → r ≡ ok a → Q a s)
      → ((a : A) → Ensures (Q a) (f a) R)
      → (b : B) → (and_on r f s).0 ≡ ok b
      → R b (and_on r f s).1
  Ensures-and_on (ok a) f s h k b e = (k a).at s (h a refl) b e
  Ensures-and_on (err x) f s h k b e = ground (arith, e)

  pub Ensures-bind :
      {P : Service → Type 0} (m : Action A) (f : A → Action B)
      → Ensures P m Q
      → ((a : A) → Ensures (Q a) (f a) R)
      → Ensures P (m >>= f) R
  unfolding ◌>>=◌
  Ensures-bind m f h k = record {
    at = λ s p b e. Ensures-and_on (m s).0 f (m s).1 (h.at s p) k b e;
  }

pub Ensures-throw_if :
    {P : Service → Type 0} (test : Bool) (e : ServiceError)
    → Ensures P (throw_if test e) (λ _ s. P s × (test ≡ false))
unfolding throw_if
Ensures-throw_if true e = record { at = λ s p a h. ground (arith, h) }
Ensures-throw_if false e = record { at = λ s p a h. (p, refl) }

module _ {A : Type 0} where
  some-returns :
      (e : ServiceError) (found : Option A) (s : Service) (a : A)
      → (some_or_throw e found s).0 ≡ ok a
      → (found ≡ some a) × ((some_or_throw e found s).1 ≡ s)
  unfolding some_or_throw
  some-returns e none s a h = ground (arith, h)
  some-returns e (some b) s a h = (ground (arith, h), refl)

  pub Ensures-find :
      {P : Service → Type 0} (f : Service → Option A) (e : ServiceError)
      → Ensures P (read f >>= some_or_throw e) (λ a s. P s × (f s ≡ some a))
  unfolding ◌>>=◌ read
  Ensures-find {P} f e = record {
    at = λ s p a h.
        let (found, same) = some-returns e (f s) s a h in
        subst (λ s'. P s' × (f s' ≡ some a)) (sym same) (p, found);
  }

pub ok_injective : {A : Type 0} {a b : A} → ◌≡◌ {A = Result ServiceError A} (ok a) (ok b) → a ≡ b
ok_injective e = ground (arith, e)

module _ {A : Type 0} {P : Service → Type 0} where
  pub Ensures-after :
      {Q R : A → Service → Type 0} (m : Action A)
      → Ensures P m Q
      → ((a : A) (s : Service) → Q a s → R a s)
      → Ensures P m R
  Ensures-after m h k = record { at = λ s p a e. k a (m s).1 (h.at s p a e) }

  pub Ensures-before :
      {O : Service → Type 0} {Q : A → Service → Type 0} (m : Action A)
      → ((s : Service) → O s → P s)
      → Ensures P m Q
      → Ensures O m Q
  Ensures-before m k h = record { at = λ s p a e. h.at s (k s p) a e }

  -- A fact that is not about the service.
  pub Ensures-fact :
      {Q : A → Service → Type 0} (R : Type 0) (m : Action A)
      → (R → Ensures P m Q)
      → Ensures (λ s. P s × R) m Q
  Ensures-fact R m h = record { at = λ s p a e. (h p.1).at s p.0 a e }

module _ {A : Type 0} where
  pub bind-returns :
      {B : Type 0} (m : Action A) (f : A → Action B) (s s' : Service) (a : A) (b : B)
      → m s ≡ (ok a, s')
      → (f a s').0 ≡ ok b
      → ((m >>= f) s).0 ≡ ok b
  unfolding ◌>>=◌
  bind-returns m f s s' a b e h =
      ap (λ (r : Result ServiceError A × Service). (and_on r.0 f r.1).0) e ∙ h

  pub find-returns :
      (f : Service → Option A) (e : ServiceError) (s : Service) (a : A)
      → f s ≡ some a
      → (read f >>= some_or_throw e) s ≡ (ok a, s)
  unfolding ◌>>=◌ read some_or_throw
  find-returns f e s a h = ap (λ o. some_or_throw e o s) h

pub throw_if-returns :
    (test : Bool) (e : ServiceError) (s : Service) → test ≡ false → throw_if test e s ≡ (ok tt, s)
unfolding throw_if
throw_if-returns test e s h = ap (λ b. (if b then err e else ok tt, s)) h
