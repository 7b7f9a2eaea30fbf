-- ===== src/ControlPlane/Step/Refines.antt =====
-- The private methods of packages/control-plane/src/service.ts follow the step relation.
use badgerbots_code_studio.Prelude.{String, Bool, List, Option, none, some}
use badgerbots_code_studio.ControlPlane.Store.{
  CampSession, Workspace, Camper, InstructorRole, change_first,
}
use badgerbots_code_studio.ControlPlane.Action.{Deps, change_store}
use badgerbots_code_studio.ControlPlane.Access.{
  ActorCredentials, instructor_credentials, camper_credentials, refreshed, refresh_retention,
  require_active_session, require_session_instructor, require_workspace, require_session,
  require_organization_role, authorize_camper, authorize_actor, authorize_workspace_actor,
  authorized, require_authorized_camper,
}
use badgerbots_code_studio.ControlPlane.Step.{core, AllAge, here, onward, age}
use badgerbots_code_studio.ControlPlane.Step.Aging.{refreshed-Ages, AllAge-change_first}
use badgerbots_code_studio.ControlPlane.Step.Traces.{
  Traces, Traces-give, Traces-now, Traces-bind, trace_rules,
}

module _ (deps : Deps) where
  pub Traces-sessions :
      (f : List CampSession → List CampSession)
      → ((ss : List CampSession) → AllAge ss (f ss))
      → Traces deps (change_store (λ st. record st { sessions = f st.sessions }))
  unfolding change_store
  Traces-sessions f h = record { at = λ s p. onward (age (core s) _ (h s.store.sessions)) here }

  pub Traces-refresh_retention :
      (test : CampSession → Bool) (session : CampSession)
      → Traces deps (refresh_retention deps test session)
  unfolding refresh_retention
  Traces-refresh_retention test session = Traces-bind deps _ _ (Traces-now deps) (λ today.
      Traces-bind deps _ _
        (Traces-sessions (change_first test (refreshed deps.recovery_days today.date))
          (λ ss. AllAge-change_first test _ ss (λ s found. refreshed-Ages _ _ s)))
        (λ _. Traces-give deps _))

  pub Traces-require_active_session :
      (test : CampSession → Bool) (session : CampSession)
      → Traces deps (require_active_session deps test session)
  unfolding require_active_session
  Traces-require_active_session test session = search (trace_rules, Traces-refresh_retention)

  pub Traces-require_session_instructor :
      (session : CampSession) (instructor : String) (owner_only : Bool)
      → Traces deps (require_session_instructor session instructor owner_only)
  unfolding require_session_instructor
  Traces-require_session_instructor session instructor owner_only = search trace_rules

  pub Traces-require_workspace : (id : String) → Traces deps (require_workspace id)
  unfolding require_workspace
  Traces-require_workspace id = search trace_rules

  pub Traces-require_session : (id : String) → Traces deps (require_session id)
  unfolding require_session
  Traces-require_session id = search trace_rules

  pub Traces-require_organization_role :
      (organization instructor : String) (role : InstructorRole)
      → Traces deps (require_organization_role organization instructor role)
  unfolding require_organization_role
  Traces-require_organization_role organization instructor role = search trace_rules

  pub Traces-authorize_camper :
      (token : String) (w : Workspace) (c : Option Camper)
      → Traces deps (authorize_camper deps token w c)
  unfolding authorize_camper
  Traces-authorize_camper token w none = search trace_rules
  Traces-authorize_camper token w (some c) = search trace_rules

  pub Traces-authorize_actor :
      (actor : ActorCredentials) (w : Workspace) (session : CampSession)
      → Traces deps (authorize_actor deps actor w session)
  unfolding authorize_actor
  Traces-authorize_actor (instructor_credentials instructor) w session =
      search (trace_rules, Traces-require_session_instructor)
  Traces-authorize_actor (camper_credentials camper token) w session =
      search (trace_rules, Traces-authorize_camper)

  pub Traces-authorize_workspace_actor :
      (actor : ActorCredentials) (w : Workspace) (session : CampSession)
      → Traces deps (authorize_workspace_actor deps actor w session)
  unfolding authorize_workspace_actor
  Traces-authorize_workspace_actor actor w session =
      search (trace_rules, Traces-require_active_session, Traces-authorize_actor)

  pub Traces-authorized :
      (token : String) (c : Option Camper) → Traces deps (authorized deps token c)
  unfolding authorized
  Traces-authorized token none = search trace_rules
  Traces-authorized token (some c) = search trace_rules

  pub Traces-require_authorized_camper :
      (camper token : String) → Traces deps (require_authorized_camper deps camper token)
  unfolding require_authorized_camper
  Traces-require_authorized_camper camper token = search (trace_rules, Traces-authorized)

pub ruleset method_rules = (
  Traces-refresh_retention, Traces-require_active_session, Traces-require_session_instructor,
  Traces-require_workspace, Traces-require_session, Traces-require_organization_role,
  Traces-authorize_workspace_actor, Traces-require_authorized_camper,
)
