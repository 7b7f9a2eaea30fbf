-- ===== src/ControlPlane/Operations.antt =====
-- The public methods of `ControlPlaneService`, packages/control-plane/src/service.ts, as one type of
-- calls. What a call returns or throws is left out here; its effect on the service is not.
use badgerbots_code_studio.Prelude.{String, List, [], ◌∷◌, Option}
use badgerbots_code_studio.ControlPlane.Action.{Deps, Service, Action}
use badgerbots_code_studio.ControlPlane.Organizations.{
  BootstrapInput, ProvisionInput, CreateSessionInput, check_bootstrap, finish_bootstrap,
  add_assistant, check_provision, finish_provision, create_session,
}
use badgerbots_code_studio.ControlPlane.Campers.{JoinInput, join_camper}
use badgerbots_code_studio.ControlPlane.Programs.{
  SaveInput, RestoreInput, save_program, restore_program,
}
use badgerbots_code_studio.ControlPlane.Roster.{get_instructor_roster}
use badgerbots_code_studio.ControlPlane.Classroom.{
  HelpUpdate, ProgressInput, request_help, update_help_request, set_progress,
}
use badgerbots_code_studio.ControlPlane.Retention.{PurgeInput, advance_retention, purge_session}

-- The two halves of `bootstrapOwner` and of `provisionAssistant` are calls of their own, so that other
-- calls may stand between them, as they may while the auth service is awaited.
pub data Call : Type 0 where
  bootstrap_begins : BootstrapInput → Call
  bootstrap_ends : BootstrapInput → Option String → Call
  assistant_added : String → String → String → String → Call
  provision_begins : ProvisionInput → Call
  provision_ends : ProvisionInput → Option String → Call
  session_created : CreateSessionInput → Call
  camper_joins : JoinInput → Call
  program_saved : SaveInput → Call
  program_restored : RestoreInput → Call
  help_requested : String → String → Option String → String → Call
  help_updated : String → String → HelpUpdate → String → Call
  progress_decided : ProgressInput → Call
  roster_read : String → String → Call
  retention_advanced : String → Call
  session_purged : PurgeInput → Call

abbrev effect : {A : Type 0} → Action A → Service → Service
effect m s = (m s).1

module _ (deps : Deps) where
  unfoldable pub serve : Call → Service → Service
  serve (bootstrap_begins input) = effect (check_bootstrap deps input)
  serve (bootstrap_ends input created) = effect (finish_bootstrap deps input created)
  serve (assistant_added actor organization instructor correlation) =
      effect (add_assistant deps actor organization instructor correlation)
  serve (provision_begins input) = effect (check_provision deps input)
  serve (provision_ends input created) = effect (finish_provision deps input created)
  serve (session_created input) = effect (create_session deps input)
  serve (camper_joins input) = effect (join_camper deps input)
  serve (program_saved input) = effect (save_program deps input)
  serve (program_restored input) = effect (restore_program deps input)
  serve (help_requested camper token summary correlation) =
      effect (request_help deps camper token summary correlation)
  serve (help_updated instructor id update correlation) =
      effect (update_help_request deps instructor id update correlation)
  serve (progress_decided input) = effect (set_progress deps input)
  serve (roster_read instructor session) = effect (get_instructor_roster instructor session)
  serve (retention_advanced correlation) = effect (advance_retention deps correlation)
  serve (session_purged input) = effect (purge_session deps input)

  unfoldable pub serve_all : List Call → Service → Service
  serve_all [] s = s
  serve_all (c ∷ cs) s = serve_all cs (serve c s)
