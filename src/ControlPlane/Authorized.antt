-- ===== src/ControlPlane/Authorized.antt =====
-- Whom `authorizeWorkspaceActor` of packages/control-plane/src/service.ts lets through.
use badgerbots_code_studio.Prelude.{
  some_injective, Any, ◌+◌, ◌⊎◌, ◌≡◌, ◌↔◌, refl, sym, ◌∙◌, ap, String, Bool, true, false, not, List,
  Option, none, some, arith, str_eq, eq_iff, if◌then◌else◌, Result, ok,
}
use mathlib.Core.Path.{transport}
use badgerbots_code_studio.ControlPlane.Step.{Ages}
use badgerbots_code_studio.ControlPlane.Step.Aging.{refreshed-Ages}
use badgerbots_code_studio.ControlPlane.Store.{
  ProgramAuthor, camper_author, instructor_author, CampSession, Camper, Workspace, change_first,
}
use badgerbots_code_studio.ControlPlane.Action.{
  Deps, Service, ServiceError, Action, give, throw, read, change_store, throw_if, now, ◌>>=◌,
  forbidden, session_expired,
}
use badgerbots_code_studio.ControlPlane.Access.{
  ActorCredentials, instructor_credentials, camper_credentials, refreshed, refresh_retention,
  is_open, has_id, require_session_instructor, require_active_session, is_camper_of,
  authorize_camper, authorize_actor, authorize_workspace_actor,
}
use badgerbots_code_studio.ControlPlane.Conditions.{
  IsFirst, Runs, both_true, and_true, is_open-refreshed, runs_iff, find_iff,
  is_session_instructor_iff, is_camper_of_iff,
}

ok_injective : {A : Type 0} {a b : A} → ◌≡◌ {A = Result ServiceError A} (ok a) (ok b) → a ≡ b
ok_injective e = ground (arith, e)

module _ {A : Type 0} where
  if_iff :
      (test : Bool) (b : A) (s : Service) (a : A)
      → ((if test then give b else throw forbidden) s).0 ≡ ok a
        ↔ ((test ≡ true) × ◌≡◌ {A = Result ServiceError A} (ok b) (ok a))
  unfolding give throw
  if_iff true b s a = (λ h. (refl, h), λ h. h.1)
  if_iff false b s a = ground arith

  if_guard :
      (test : Bool) (e : ServiceError) (k : Action A) (s : Service) (a : A)
      → ((throw_if (not test) e >>= λ _. k) s).0 ≡ ok a ↔ ((test ≡ true) × ((k s).0 ≡ ok a))
  unfolding ◌>>=◌ throw_if
  if_guard true e k s a = (λ h. (refl, h), λ h. h.1)
  if_guard false e k s a = ground arith

  value_guard :
      {B : Type 0} (test : Bool) (e : ServiceError) (x : B) (k : B → Action A) (s : Service) (a : A)
      → (((throw_if (not test) e >>= λ _. give x) >>= k) s).0 ≡ ok a
        ↔ ((test ≡ true) × ((k x s).0 ≡ ok a))
  unfolding ◌>>=◌ throw_if give
  value_guard true e x k s a = (λ h. (refl, h), λ h. h.1)
  value_guard false e x k s a = ground arith

module _ (deps : Deps) where
  -- An instructor of the session; or the camper of the workspace, with the token that was given out.
  abbrev pub May : ActorCredentials → Workspace → CampSession → List Camper → ProgramAuthor → Type 0
  May (instructor_credentials instructor) w session campers author =
      ((session.owner_instructor_id ≡ instructor)
        ⊎ Any (λ x. x ≡ instructor) session.assistant_instructor_ids)
      × (author ≡ instructor_author instructor)
  May (camper_credentials camper token) w session campers author =
      (c : Camper) × IsFirst (λ (x : Camper). (x.id ≡ camper) × (x.session_id ≡ session.id)) campers
        c
      × (c.id ≡ w.camper_id)
      × (c.access_token_digest ≡ deps.digest token)
      × (author ≡ camper_author c.id)

  authorize_camper_iff :
      (token : String) (w : Workspace) (found : Option Camper) (s : Service)
      (author : ProgramAuthor)
      → ((authorize_camper deps token w found s).0 ≡ ok author) ↔ (
          (c : Camper) × (found ≡ some c)
          × (c.id ≡ w.camper_id)
          × (c.access_token_digest ≡ deps.digest token)
          × (author ≡ camper_author c.id))
  unfolding authorize_camper throw give
  authorize_camper_iff token w none s author = ground arith
  authorize_camper_iff token w (some c) s author = (
    λ h.
        let (test, e) = (if_iff _ _ _ _).0 h in
        let (same, secret) = both_true _ _ test in
        (c, refl, (eq_iff _ _).0 same, (eq_iff _ _).0 secret, sym (ok_injective e)),
    λ (x, found, same, secret, e).
        let is = some_injective found in
        (if_iff _ _ _ _).1 (
          and_true (ap (λ y. str_eq y.id w.camper_id) is ∙ (eq_iff _ _).1 same) (
              ap (λ y. str_eq y.access_token_digest (deps.digest token)) is
              ∙ (eq_iff _ _).1 secret),
          ap (λ y. ok (camper_author y.id)) is ∙ ap ok (sym e),
        ),
  )

  authorize_actor_iff :
      (actor : ActorCredentials) (w : Workspace) (session : CampSession) (s : Service)
      (author : ProgramAuthor)
      → ((authorize_actor deps actor w session s).0 ≡ ok author)
        ↔ May actor w session s.store.campers author
  unfolding authorize_actor require_session_instructor ◌>>=◌ throw_if give read
  authorize_actor_iff (instructor_credentials instructor) w session s author = (
    λ h.
        let (test, e) = (if_guard _ forbidden (give (instructor_author instructor)) s author).0 h in
        ((is_session_instructor_iff session instructor).0 test, sym (ok_injective e)),
    λ (test, e).
        (if_guard _ forbidden (give (instructor_author instructor)) s author).1
          ((is_session_instructor_iff session instructor).1 test, ap ok (sym e)),
  )
  authorize_actor_iff (camper_credentials camper token) w session s author =
      let first = λ (c : Camper).
        find_iff (is_camper_of deps camper session)
          (λ (x : Camper). (x.id ≡ camper) × (x.session_id ≡ session.id)) s.store.campers c
          (is_camper_of_iff deps camper session) in
      let step = authorize_camper_iff token w _ s author in
      (
        λ h. let (c, found, same, secret, e) = step.0 h in (c, (first c).0 found, same, secret, e),
        λ (c, found, same, secret, e). step.1 (c, (first c).1 found, same, secret, e),
      )

  -- Retention changes none of the fields that say who may act.
  May-cong :
      (actor : ActorCredentials) (w : Workspace) (a b : CampSession) (campers : List Camper)
      (author : ProgramAuthor)
      → Ages a b
      → May actor w b campers author ≡ May actor w a campers author
  May-cong (instructor_credentials instructor) w a b campers author h =
      ap (λ x. May (instructor_credentials instructor) w x campers author) h.rest
  May-cong (camper_credentials camper token) w a b campers author h =
      ap (λ x. May (camper_credentials camper token) w x campers author) h.rest

  -- The actor is authorized exactly if the session was started by the first day the clock shows, is
  -- not over on it, and runs on the day that the clock shows next, and the actor is the owner or an
  -- assistant of the session, or names a camper of the session that the workspace belongs to, with the
  -- token whose digest is stored; the author is then the actor.
  pub authorize_workspace_actor_iff :
      (actor : ActorCredentials) (w : Workspace) (session : CampSession) (s : Service)
      (author : ProgramAuthor)
      → ((authorize_workspace_actor deps actor w session s).0 ≡ ok author) ↔ (
          Runs session (deps.clock s.readings).date (deps.clock (s.readings + 1)).date
          × May actor w session s.store.campers author)
  unfolding authorize_workspace_actor require_active_session refresh_retention ◌>>=◌ now
      change_store give throw_if
  authorize_workspace_actor_iff actor w session s author =
      let today = (deps.clock s.readings).date in
      let next_reading = (deps.clock (s.readings + 1)).date in
      let session' = refreshed deps.recovery_days today session in
      let open_session = is_open next_reading session' in
      let s' = record s {
        readings = s.readings + 1 + 1;
        store = record s.store {
          sessions =
              change_first (has_id session.id) (refreshed deps.recovery_days today)
                s.store.sessions;
        };
      } in
      let guard =
        value_guard open_session session_expired session' (authorize_actor deps actor w) s'
          author in
      let actor_iff = authorize_actor_iff actor w session' s' author in
      let same_runs = is_open-refreshed deps.recovery_days today next_reading session in
      let same_may =
        May-cong actor w session session' s.store.campers author
          (refreshed-Ages deps.recovery_days today session) in
      (
        λ h.
            let (test, rest) = guard.0 h in
            (
              (runs_iff session today next_reading).0 (sym same_runs ∙ test),
              transport same_may (actor_iff.0 rest),
            ),
        λ (running, may). guard.1 (
          same_runs ∙ (runs_iff session today next_reading).1 running,
          actor_iff.1 (transport (sym same_may) may),
        ),
      )
