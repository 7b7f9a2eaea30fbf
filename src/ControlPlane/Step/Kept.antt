-- ===== src/ControlPlane/Step/Kept.antt =====
-- What an action leaves true of the service, a rule for each way to build one.
use badgerbots_code_studio.Prelude.{
  String, Bool, true, false, List, Option, none, some, Result, ok, err, if◌then◌else◌,
}
use badgerbots_code_studio.ControlPlane.Store.{
  CampSession, Workspace, ProgramVersion, ActorKind, AuditAction, Topic,
}
use badgerbots_code_studio.ControlPlane.Action.{
  Deps, Service, ServiceError, Action, give, throw, read, some_or_throw, change, change_store,
  throw_if, and_on, ◌>>=◌, now, next_id,
}
use badgerbots_code_studio.ControlPlane.Access.{audit, hint}

-- `P` stays true, whether the action returns or throws.
pub record Keeps {A : Type 0} (P : Service → Type 0) (m : Action A) : Type 0 where
  pub at : (s : Service) → P s → P (m s).1

module _ {P : Service → Type 0} where
  module _ {A : Type 0} where
    pub Keeps-give : (a : A) → Keeps P (give a)
    unfolding give
    Keeps-give a = record { at = λ s h. h }

    pub Keeps-throw : (e : ServiceError) → Keeps P (throw {A = A} e)
    unfolding throw
    Keeps-throw e = record { at = λ s h. h }

    pub Keeps-read : (f : Service → A) → Keeps P (read f)
    unfolding read
    Keeps-read f = record { at = λ s h. h }

    pub Keeps-some_or_throw : (e : ServiceError) (o : Option A) → Keeps P (some_or_throw e o)
    unfolding some_or_throw
    Keeps-some_or_throw e none = record { at = λ s h. h }
    Keeps-some_or_throw e (some a) = record { at = λ s h. h }

    pub Keeps-if :
        (test : Bool) (m n : Action A) → Keeps P m → Keeps P n → Keeps P (if test then m else n)
    Keeps-if true m n hm hn = hm
    Keeps-if false m n hm hn = hn

  pub Keeps-throw_if : (test : Bool) (e : ServiceError) → Keeps P (throw_if test e)
  unfolding throw_if
  Keeps-throw_if test e = record { at = λ s h. h }

module _ {P : Service → Type 0} {A B : Type 0} where
  Keeps-and_on :
      (r : Result ServiceError A) (f : A → Action B)
      → ((a : A) → Keeps P (f a))
      → Keeps P (and_on r f)
  Keeps-and_on (ok a) f h = h a
  Keeps-and_on (err e) f h = record { at = λ s p. p }

  pub Keeps-bind :
      (m : Action A) (f : A → Action B) → Keeps P m → ((a : A) → Keeps P (f a)) → Keeps P (m >>= f)
  unfolding ◌>>=◌
  Keeps-bind m f hm hf = record {
    at = λ s p. let (r, s') = m s in (Keeps-and_on r f hf).at s' (hm.at s p);
  }

-- A statement about the sessions, the workspaces and the versions.
pub record About (Q : List CampSession → List Workspace → List ProgramVersion → Type 0)
    (s : Service) : Type 0 where
  pub holds : Q s.store.sessions s.store.workspaces s.store.versions

module _ {Q : List CampSession → List Workspace → List ProgramVersion → Type 0} where
  module _ (deps : Deps) where
    pub Keeps-now : Keeps (About Q) (now deps)
    unfolding now
    Keeps-now = record { at = λ s h. record { holds = h.holds } }

    pub Keeps-next_id : (kind : String) → Keeps (About Q) (next_id deps kind)
    unfolding next_id
    Keeps-next_id kind = record { at = λ s h. record { holds = h.holds } }

    pub Keeps-audit :
        (organization : String) (session : Option String) (kind : ActorKind) (actor : Option String)
        (action : AuditAction) (target correlation : String)
        → Keeps (About Q) (audit deps organization session kind actor action target correlation)
    unfolding audit ◌>>=◌ next_id now change_store
    Keeps-audit organization session kind actor action target correlation = record {
      at = λ s h. record { holds = h.holds };
    }

    pub Keeps-hint :
        (session : CampSession) (topic : Topic) (entity : String)
        → Keeps (About Q) (hint deps session topic entity)
    unfolding hint ◌>>=◌ now change
    Keeps-hint session topic entity = record { at = λ s h. record { holds = h.holds } }

pub ruleset keeps_rules = (
  Keeps-give, Keeps-throw, Keeps-read, Keeps-some_or_throw, Keeps-if, Keeps-throw_if, Keeps-bind,
  Keeps-now, Keeps-next_id, Keeps-audit, Keeps-hint,
)
