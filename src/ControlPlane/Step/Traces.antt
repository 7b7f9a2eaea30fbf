-- ===== src/ControlPlane/Step/Traces.antt =====
-- Actions that follow the step relation, a rule for each way to build one.
use mathlib.Core.Path.{subst}
use badgerbots_code_studio.Prelude.{
  ◌≡◌, refl, sym, String, Bool, true, false, Option, none, some, Result, ok, err, if◌then◌else◌,
}
use badgerbots_code_studio.ControlPlane.Store.{
  StoreState, CampSession, ActorKind, AuditAction, Topic,
}
use badgerbots_code_studio.ControlPlane.Action.{
  Deps, Service, ServiceError, Action, give, throw, read, some_or_throw, change, change_store,
  throw_if, and_on, ◌>>=◌, now, next_id, next_access_token,
}
use badgerbots_code_studio.ControlPlane.Access.{audit, hint}
use badgerbots_code_studio.ControlPlane.Step.{
  core, Reaches, here, onward, issue, log, notify, then_reaches,
}

-- From a service with `P`, the action takes it along steps, whether it returns or throws.
pub record TracesFrom (deps : Deps) {A : Type 0} (P : Service → Type 0) (m : Action A)
    : Type 0 where
  pub at : (s : Service) → P s → Reaches deps (core s) (core (m s).1)

abbrev pub Always : Service → Type 0
Always s = Unit

abbrev pub Traces : Deps → {A : Type 0} → Action A → Type 0
Traces deps m = TracesFrom deps Always m

module _ (deps : Deps) {P : Service → Type 0} where
  module _ {A : Type 0} where
    pub Traces-give : (a : A) → TracesFrom deps P (give a)
    unfolding give
    Traces-give a = record { at = λ s h. here }

    pub Traces-throw : (e : ServiceError) → TracesFrom deps P (throw {A = A} e)
    unfolding throw
    Traces-throw e = record { at = λ s h. here }

    pub Traces-read : (f : Service → A) → TracesFrom deps P (read f)
    unfolding read
    Traces-read f = record { at = λ s h. here }

    pub Traces-some_or_throw :
        (e : ServiceError) (o : Option A) → TracesFrom deps P (some_or_throw e o)
    unfolding some_or_throw
    Traces-some_or_throw e none = record { at = λ s h. here }
    Traces-some_or_throw e (some a) = record { at = λ s h. here }

    pub Traces-if :
        (test : Bool) (m n : Action A)
        → TracesFrom deps P m
        → TracesFrom deps P n
        → TracesFrom deps P (if test then m else n)
    Traces-if true m n hm hn = hm
    Traces-if false m n hm hn = hn

  pub Traces-throw_if : (test : Bool) (e : ServiceError) → TracesFrom deps P (throw_if test e)
  unfolding throw_if
  Traces-throw_if test e = record { at = λ s h. here }

  pub Traces-now : TracesFrom deps P (now deps)
  unfolding now
  Traces-now = record { at = λ s h. here }

  pub Traces-next_access_token : TracesFrom deps P (next_access_token deps)
  unfolding next_access_token
  Traces-next_access_token = record { at = λ s h. here }

  pub Traces-next_id : (kind : String) → TracesFrom deps P (next_id deps kind)
  unfolding next_id
  Traces-next_id kind = record { at = λ s h. onward (issue (core s)) here }

  -- A change that the relation does not see.
  pub Traces-aside :
      (f : Service → Service) → ((s : Service) → core (f s) ≡ core s) → TracesFrom deps P (change f)
  unfolding change
  Traces-aside f same = record { at = λ s h. subst (Reaches deps (core s)) (sym (same s)) here }

  pub Traces-aside_store :
      (f : StoreState → StoreState)
      → ((s : Service) → core (record s { store = f s.store }) ≡ core s)
      → TracesFrom deps P (change_store f)
  unfolding change_store
  Traces-aside_store f same = record {
    at = λ s h. subst (Reaches deps (core s)) (sym (same s)) here;
  }

module _ (deps : Deps) {A B : Type 0} {P : Service → Type 0} where
  pub Traces-and_on :
      (r : Result ServiceError A) (f : A → Action B)
      → ((a : A) → r ≡ ok a → TracesFrom deps P (f a))
      → TracesFrom deps P (and_on r f)
  Traces-and_on (ok a) f h = h a refl
  Traces-and_on (err e) f h = record { at = λ s p. here }

module _ (deps : Deps) {A B : Type 0} {P Q : Service → Type 0} where
  -- The first action leaves what the second one relies on.
  pub Traces-bind_then :
      (m : Action A) (f : A → Action B)
      → TracesFrom deps P m
      → ((s : Service) → P s → Q (m s).1)
      → ((a : A) → TracesFrom deps Q (f a))
      → TracesFrom deps P (m >>= f)
  unfolding ◌>>=◌
  Traces-bind_then m f hm leaves hf = record {
    at = λ s p.
        let (r, s') = m s in
        then_reaches deps (hm.at s p) ((Traces-and_on deps r f (λ a e. hf a)).at s' (leaves s p));
  }

module _ (deps : Deps) {A B : Type 0} where
  pub Traces-bind :
      (m : Action A) (f : A → Action B)
      → Traces deps m
      → ((a : A) → Traces deps (f a))
      → Traces deps (m >>= f)
  Traces-bind m f hm hf = Traces-bind_then deps m f hm (λ s p. tt) hf

pub Traces-audit :
    (deps : Deps) (organization : String) (session : Option String) (kind : ActorKind)
    (actor : Option String) (action : AuditAction) (target correlation : String)
    → Traces deps (audit deps organization session kind actor action target correlation)
unfolding audit ◌>>=◌ next_id now change_store
Traces-audit deps organization session kind actor action target correlation = record {
  at = λ s p. onward (issue (core s)) (onward (log _ _) here);
}

pub Traces-hint :
    (deps : Deps) (session : CampSession) (topic : Topic) (entity : String)
    → Traces deps (hint deps session topic entity)
unfolding hint ◌>>=◌ now change
Traces-hint deps session topic entity = record { at = λ s p. onward (notify (core s) _ refl) here }

-- What is shown of every service holds of those with `P`.
pub Traces-from :
    (deps : Deps) {A : Type 0} {P : Service → Type 0} (m : Action A)
    → Traces deps m
    → TracesFrom deps P m
Traces-from deps m h = record { at = λ s p. h.at s tt }

pub ruleset trace_rules = (
  Traces-give, Traces-throw, Traces-read, Traces-some_or_throw, Traces-if, Traces-throw_if,
  Traces-now, Traces-next_access_token, Traces-next_id, Traces-bind, Traces-audit, Traces-hint,
)
