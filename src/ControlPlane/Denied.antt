-- ===== src/ControlPlane/Denied.antt =====
-- The exceptions that a call of `ControlPlaneService`, packages/control-plane/src/service.ts, throws while
-- it looks for an object and tests who may act on it.
use mathlib.Core.Path.{subst}
use badgerbots_code_studio.Prelude.{
  ◌≡◌, ap, String, Bool, true, false, Option, none, some, if◌then◌else◌, arith, Result, ok, err,
}
use badgerbots_code_studio.ControlPlane.Store.{StoreState, CampSession, Camper, Workspace}
use badgerbots_code_studio.ControlPlane.Action.{
  Deps, Service, ServiceError, Action, give, throw, read, some_or_throw, change_store, throw_if,
  and_on, ◌>>=◌, now, not_found, forbidden, session_expired,
}
use badgerbots_code_studio.ControlPlane.Access.{
  ActorCredentials, instructor_credentials, camper_credentials, refresh_retention,
  require_active_session, require_session_instructor, require_workspace, require_session,
  authorize_camper, authorize_actor, authorize_workspace_actor,
}

-- There is no such object, the actor may not act on it, or the session is not open.
pub data IsDenial : ServiceError → Type 0 where
  no_object : IsDenial not_found
  no_right : IsDenial forbidden
  no_session : IsDenial session_expired

-- If the action throws, it is such an exception.
pub record Denies {A : Type 0} (m : Action A) : Type 0 where
  pub at : (s : Service) (e : ServiceError) → (m s).0 ≡ err e → IsDenial e

pub err_injective :
    {A : Type 0} {e x : ServiceError} → ◌≡◌ {A = Result ServiceError A} (err e) (err x) → e ≡ x
err_injective h = ground (arith, h)

module _ {A : Type 0} where
  pub Denies-give : (a : A) → Denies (give a)
  unfolding give
  Denies-give a = record { at = λ s e h. ground (arith, h) }

  pub Denies-read : (f : Service → A) → Denies (read f)
  unfolding read
  Denies-read f = record { at = λ s e h. ground (arith, h) }

  Denies-throw : (e : ServiceError) → IsDenial e → Denies (throw {A = A} e)
  unfolding throw
  Denies-throw e d = record { at = λ s x h. subst IsDenial (err_injective h) d }

  Denies-some_or_throw : (e : ServiceError) (o : Option A) → IsDenial e → Denies (some_or_throw e o)
  unfolding some_or_throw
  Denies-some_or_throw e none d = record { at = λ s x h. subst IsDenial (err_injective h) d }
  Denies-some_or_throw e (some a) d = record { at = λ s x h. ground (arith, h) }

  Denies-if : (test : Bool) (m n : Action A) → Denies m → Denies n → Denies (if test then m else n)
  Denies-if true m n h k = h
  Denies-if false m n h k = k

Denies-throw_if : (test : Bool) (e : ServiceError) → IsDenial e → Denies (throw_if test e)
unfolding throw_if
Denies-throw_if true e d = record { at = λ s x h. subst IsDenial (err_injective h) d }
Denies-throw_if false e d = record { at = λ s x h. ground (arith, h) }

module _ {A B : Type 0} where
  Denies-and_on :
      (r : Result ServiceError A) (f : A → Action B)
      → ((e : ServiceError) → r ≡ err e → IsDenial e)
      → ((a : A) → Denies (f a))
      → Denies (and_on r f)
  Denies-and_on (ok a) f h k = k a
  Denies-and_on (err e) f h k = record { at = λ s x eq. h x (ap err (err_injective eq)) }

  pub Denies-bind :
      (m : Action A) (f : A → Action B) → Denies m → ((a : A) → Denies (f a)) → Denies (m >>= f)
  unfolding ◌>>=◌
  Denies-bind m f h k = record {
    at = λ s e eq. (Denies-and_on (m s).0 f (h.at s) k).at (m s).1 e eq;
  }

Denies-now : (deps : Deps) → Denies (now deps)
unfolding now
Denies-now deps = record { at = λ s e h. ground (arith, h) }

Denies-change_store : (f : StoreState → StoreState) → Denies (change_store f)
unfolding change_store
Denies-change_store f = record { at = λ s e h. ground (arith, h) }

ruleset denies_rules = (
  Denies-give, Denies-read, Denies-throw, Denies-some_or_throw, Denies-if, Denies-throw_if,
  Denies-bind, Denies-now, Denies-change_store, no_object, no_right, no_session,
)

pub Denies-require_workspace : (id : String) → Denies (require_workspace id)
unfolding require_workspace
Denies-require_workspace id = search denies_rules

pub Denies-require_session : (id : String) → Denies (require_session id)
unfolding require_session
Denies-require_session id = search denies_rules

module _ (deps : Deps) where
  Denies-authorize_camper :
      (token : String) (w : Workspace) (c : Option Camper)
      → Denies (authorize_camper deps token w c)
  unfolding authorize_camper
  Denies-authorize_camper token w none = search denies_rules
  Denies-authorize_camper token w (some c) = search denies_rules

  Denies-refresh_retention :
      (test : CampSession → Bool) (session : CampSession)
      → Denies (refresh_retention deps test session)
  unfolding refresh_retention
  Denies-refresh_retention test session = search denies_rules

  Denies-require_active_session :
      (test : CampSession → Bool) (session : CampSession)
      → Denies (require_active_session deps test session)
  unfolding require_active_session
  Denies-require_active_session test session = search (denies_rules, Denies-refresh_retention)

  Denies-authorize_actor :
      (actor : ActorCredentials) (w : Workspace) (session : CampSession)
      → Denies (authorize_actor deps actor w session)
  unfolding authorize_actor require_session_instructor
  Denies-authorize_actor (instructor_credentials instructor) w session = search denies_rules
  Denies-authorize_actor (camper_credentials camper token) w session =
      search (denies_rules, Denies-authorize_camper)

  pub Denies-authorize_workspace_actor :
      (actor : ActorCredentials) (w : Workspace) (session : CampSession)
      → Denies (authorize_workspace_actor deps actor w session)
  unfolding authorize_workspace_actor
  Denies-authorize_workspace_actor actor w session =
      search (denies_rules, Denies-require_active_session, Denies-authorize_actor)
