-- ===== src/ControlPlane/Step/Calls.antt =====
-- Every call of a method of packages/control-plane/src/service.ts follows the step relation.
use badgerbots_code_studio.Prelude.{List, [], ◌∷◌}
use badgerbots_code_studio.ControlPlane.Action.{Deps, Service}
use badgerbots_code_studio.ControlPlane.Operations.{
  Call, bootstrap_begins, bootstrap_ends, assistant_added, provision_begins, provision_ends,
  session_created, camper_joins, program_saved, program_restored, help_requested, help_updated,
  progress_decided, roster_read, retention_advanced, session_purged, serve, serve_all,
}
use badgerbots_code_studio.ControlPlane.Step.{core, Reaches, here, then_reaches}
use badgerbots_code_studio.ControlPlane.Step.Methods.{
  Traces-check_bootstrap, Traces-finish_bootstrap, Traces-add_assistant, Traces-check_provision,
  Traces-finish_provision, Traces-join_camper, Traces-request_help, Traces-update_help_request,
  Traces-set_progress, Traces-get_instructor_roster,
}
use badgerbots_code_studio.ControlPlane.Step.Sessions.{
  Traces-create_session, Traces-advance_retention,
}
use badgerbots_code_studio.ControlPlane.Step.Purge.{Traces-purge_session}
use badgerbots_code_studio.ControlPlane.Step.Writes.{Traces-save_program, Traces-restore_program}

serve-Reaches :
    (deps : Deps) (c : Call) (s : Service) → Reaches deps (core s) (core (serve deps c s))
unfolding serve
serve-Reaches deps (bootstrap_begins input) s = (Traces-check_bootstrap deps input).at s tt
serve-Reaches deps (bootstrap_ends input created) s =
    (Traces-finish_bootstrap deps input created).at s tt
serve-Reaches deps (assistant_added actor organization instructor correlation) s =
    (Traces-add_assistant deps actor organization instructor correlation).at s tt
serve-Reaches deps (provision_begins input) s = (Traces-check_provision deps input).at s tt
serve-Reaches deps (provision_ends input created) s =
    (Traces-finish_provision deps input created).at s tt
serve-Reaches deps (session_created input) s = (Traces-create_session deps input).at s tt
serve-Reaches deps (camper_joins input) s = (Traces-join_camper deps input).at s tt
serve-Reaches deps (program_saved input) s = (Traces-save_program deps input).at s tt
serve-Reaches deps (program_restored input) s = (Traces-restore_program deps input).at s tt
serve-Reaches deps (help_requested camper token summary correlation) s =
    (Traces-request_help deps camper token summary correlation).at s tt
serve-Reaches deps (help_updated instructor id update correlation) s =
    (Traces-update_help_request deps instructor id update correlation).at s tt
serve-Reaches deps (progress_decided input) s = (Traces-set_progress deps input).at s tt
serve-Reaches deps (roster_read instructor session) s =
    (Traces-get_instructor_roster deps instructor session).at s tt
serve-Reaches deps (retention_advanced correlation) s =
    (Traces-advance_retention deps correlation).at s tt
serve-Reaches deps (session_purged input) s = (Traces-purge_session deps input).at s tt

-- Any sequence of calls takes the service along steps of the relation, whatever each call returns or
-- throws.
pub serve_all-Reaches :
    (deps : Deps) (cs : List Call) (s : Service)
    → Reaches deps (core s) (core (serve_all deps cs s))
unfolding serve_all
serve_all-Reaches deps [] s = here
serve_all-Reaches deps (c ∷ cs) s =
    then_reaches deps (serve-Reaches deps c s) (serve_all-Reaches deps cs (serve deps c s))
