-- ===== src/ControlPlane/Step/Methods.antt =====
-- The public methods of packages/control-plane/src/service.ts that write no program follow the step
-- relation.
use badgerbots_code_studio.Prelude.{
  ◌≡◌, refl, String, Bool, true, false, List, [], ◌∷◌, Option, none, some, if◌then◌else◌,
}
use badgerbots_code_studio.ControlPlane.Dates.{Instant}
use badgerbots_code_studio.ControlPlane.Store.{
  StoreState, CampSession, Camper, HelpRequest, ProgressRecord,
}
use badgerbots_code_studio.ControlPlane.Action.{
  Deps, Service, JoinAttempt, give, change, change_store, ◌>>=◌, next_id,
}
use badgerbots_code_studio.ControlPlane.Organizations.{
  BootstrapInput, ProvisionInput, check_bootstrap, finish_bootstrap, add_assistant, check_provision,
  finish_provision, require_assistants,
}
use badgerbots_code_studio.ControlPlane.Campers.{
  JoinInput, require_join_attempt_allowed, record_failed_join_attempt, session_of_code,
  add_workspace, enrol, join_camper,
}
use badgerbots_code_studio.ControlPlane.Roster.{get_instructor_roster}
use badgerbots_code_studio.ControlPlane.Classroom.{
  ProgressInput, HelpUpdate, acknowledge, resolve, open_request, request_help, resolution_time,
  update_help_request, write_progress, set_progress,
}
use badgerbots_code_studio.ControlPlane.Step.{core, here, onward, open_workspace}
use badgerbots_code_studio.ControlPlane.Step.Traces.{
  Traces, Traces-aside, Traces-aside_store, Traces-bind, trace_rules,
}
use badgerbots_code_studio.ControlPlane.Step.Refines.{
  Traces-require_organization_role, method_rules,
}

core_if :
    (test : Bool) (s : Service) (st : StoreState)
    → core (record s { store = st }) ≡ core s
    → core (record s { store = if test then s.store else st }) ≡ core s
core_if true s st same = refl
core_if false s st same = same

module _ (deps : Deps) where
  pub Traces-check_bootstrap : (input : BootstrapInput) → Traces deps (check_bootstrap deps input)
  unfolding check_bootstrap
  Traces-check_bootstrap input = search trace_rules

  pub Traces-finish_bootstrap :
      (input : BootstrapInput) (created : Option String)
      → Traces deps (finish_bootstrap deps input created)
  unfolding finish_bootstrap
  Traces-finish_bootstrap input created = search (trace_rules, Traces-aside_store) depth 16

  Traces-store_unless :
      (test : StoreState → Bool) (f : StoreState → StoreState)
      → ((s : Service) → core (record s { store = f s.store }) ≡ core s)
      → Traces deps (change_store (λ st. if test st then st else f st))
  Traces-store_unless test f same =
      Traces-aside_store deps _ (λ s. core_if (test s.store) s _ (same s))

  pub Traces-add_assistant :
      (actor organization instructor correlation : String)
      → Traces deps (add_assistant deps actor organization instructor correlation)
  unfolding add_assistant
  Traces-add_assistant actor organization instructor correlation =
      search (trace_rules, method_rules, Traces-store_unless) depth 16

  pub Traces-check_provision : (input : ProvisionInput) → Traces deps (check_provision deps input)
  unfolding check_provision
  Traces-check_provision input = search (trace_rules, method_rules)

  pub Traces-finish_provision :
      (input : ProvisionInput) (created : Option String)
      → Traces deps (finish_provision deps input created)
  unfolding finish_provision
  Traces-finish_provision input created = search (trace_rules, Traces-aside_store) depth 16

  pub Traces-require_assistants :
      (organization : String) (ids : List String)
      → Traces deps (require_assistants organization ids)
  unfolding require_assistants
  Traces-require_assistants organization [] = search trace_rules
  Traces-require_assistants organization (id ∷ ids) =
      Traces-bind deps _ _ (Traces-require_organization_role deps organization id _)
        (λ _. Traces-require_assistants organization ids)

  Traces-join_attempts :
      (f : Service → List (String × JoinAttempt))
      → Traces deps (change (λ s. record s { join_attempts = f s }))
  Traces-join_attempts f = Traces-aside deps _ (λ s. refl)

  Traces-require_join_attempt_allowed :
      (key : String) → Traces deps (require_join_attempt_allowed deps key)
  unfolding require_join_attempt_allowed
  Traces-require_join_attempt_allowed key = search (trace_rules, Traces-aside)

  Traces-record_failed_join_attempt :
      (key : String) → Traces deps (record_failed_join_attempt deps key)
  unfolding record_failed_join_attempt
  Traces-record_failed_join_attempt key = search (trace_rules, Traces-aside)

  Traces-session_of_code :
      (key : String) (found : Option CampSession) → Traces deps (session_of_code deps key found)
  unfolding session_of_code
  Traces-session_of_code key none = search (trace_rules, Traces-record_failed_join_attempt)
  Traces-session_of_code key (some session) = search trace_rules

  Traces-add_workspace :
      (session : CampSession) (camper : String) → Traces deps (add_workspace deps session camper)
  unfolding add_workspace ◌>>=◌ next_id change_store give
  Traces-add_workspace session camper = record {
    at = λ s p. onward (open_workspace (core s) _ refl refl refl) here;
  }

  Traces-enrol :
      (session : CampSession) (first_name last_initial correlation : String)
      → Traces deps (enrol deps session first_name last_initial correlation)
  unfolding enrol
  Traces-enrol session first_name last_initial correlation =
      search (trace_rules, Traces-add_workspace, Traces-aside_store) depth 16

  pub Traces-join_camper : (input : JoinInput) → Traces deps (join_camper deps input)
  unfolding join_camper
  Traces-join_camper input =
      search
        (
          trace_rules, method_rules, Traces-aside, Traces-require_join_attempt_allowed,
          Traces-session_of_code, Traces-enrol,
        )
        depth 16

  Traces-open_request :
      (session : CampSession) (camper : Camper) (summary : Option String) (correlation : String)
      (existing : Option HelpRequest)
      → Traces deps (open_request deps session camper summary correlation existing)
  unfolding open_request
  Traces-open_request session camper summary correlation none =
      search (trace_rules, Traces-aside_store) depth 16
  Traces-open_request session camper summary correlation (some r) = search trace_rules

  pub Traces-request_help :
      (camper token : String) (summary : Option String) (correlation : String)
      → Traces deps (request_help deps camper token summary correlation)
  unfolding request_help
  Traces-request_help camper token summary correlation =
      search (trace_rules, method_rules, Traces-open_request) depth 16

  Traces-resolution_time : (u : HelpUpdate) → Traces deps (resolution_time deps u)
  unfolding resolution_time
  Traces-resolution_time acknowledge = search trace_rules
  Traces-resolution_time resolve = search trace_rules

  pub Traces-update_help_request :
      (instructor id : String) (u : HelpUpdate) (correlation : String)
      → Traces deps (update_help_request deps instructor id u correlation)
  unfolding update_help_request
  Traces-update_help_request instructor id u correlation =
      search (trace_rules, method_rules, Traces-resolution_time, Traces-aside_store) depth 16

  Traces-write_progress :
      (input : ProgressInput) (session : CampSession) (camper : Camper) (benchmark : String)
      (at_time : Instant) (existing : Option ProgressRecord)
      → Traces deps (write_progress deps input session camper benchmark at_time existing)
  unfolding write_progress
  Traces-write_progress input session camper benchmark at_time none =
      search (trace_rules, Traces-aside_store) depth 16
  Traces-write_progress input session camper benchmark at_time (some r) =
      search (trace_rules, Traces-aside_store) depth 16

  pub Traces-set_progress : (input : ProgressInput) → Traces deps (set_progress deps input)
  unfolding set_progress
  Traces-set_progress input = search (trace_rules, method_rules, Traces-write_progress) depth 16

  pub Traces-get_instructor_roster :
      (instructor session : String) → Traces deps (get_instructor_roster instructor session)
  unfolding get_instructor_roster
  Traces-get_instructor_roster instructor session = search (trace_rules, method_rules)
