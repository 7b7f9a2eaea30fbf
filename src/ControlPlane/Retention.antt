-- ===== src/ControlPlane/Retention.antt =====
-- `advanceRetention` and `purgeSession` of packages/control-plane/src/service.ts.
use badgerbots_code_studio.Prelude.{
  String, Bool, true, not, ◌||◌, List, [], ◌∷◌, ◌++◌, map, none, some, str_eq, has, if◌then◌else◌,
}
use badgerbots_code_studio.ControlPlane.Store.{
  CampSession, deletion_queued, deleted, Camper, Workspace, ProgramVersion, ProgressRecord,
  HelpRequest, StoreState, system_actor, instructor_actor, retention_change, retention_topic,
  change_first, keep,
}
use badgerbots_code_studio.ControlPlane.Action.{
  Deps, Action, forbidden, give, read, change_store, throw_if, ◌>>=◌, ◌>>◌, now,
}
use badgerbots_code_studio.ControlPlane.Access.{
  is_state, has_id, refreshed, refresh_retention, require_session, require_session_instructor,
  audit, hint,
}

pub record PurgeInput : Type 0 where
  pub actor_instructor_id : String
  pub session_id : String
  pub final_backup_deleted : Bool
  pub correlation_id : String

abbrev pub camper_ids : String → List Camper → List String
camper_ids session campers =
    map (λ (c : Camper). c.id) (keep (λ (c : Camper). str_eq c.session_id session) campers)

abbrev pub workspace_ids : String → List Workspace → List String
workspace_ids session workspaces =
    map (λ (w : Workspace). w.id) (keep (λ (w : Workspace). str_eq w.session_id session) workspaces)

-- The five assignments of filtered tables, with the two sets that were made before them.
unfoldable pub without_session : String → StoreState → StoreState
without_session id st = record st {
  versions =
      keep (λ (v : ProgramVersion). not (has (workspace_ids id st.workspaces) v.workspace_id))
        st.versions;
  progress_records =
      keep (λ (r : ProgressRecord). not (str_eq r.session_id id)) st.progress_records;
  help_requests = keep (λ (r : HelpRequest). not (str_eq r.session_id id)) st.help_requests;
  workspaces = keep (λ (w : Workspace). not (str_eq w.session_id id)) st.workspaces;
  campers = keep (λ (c : Camper). not (has (camper_ids id st.campers) c.id)) st.campers;
}

abbrev pub mark_deleted : CampSession → CampSession
mark_deleted s = record s { retention_state = deleted }

module _ (deps : Deps) where
  -- The log of one changed session.
  unfoldable pub log_retention : CampSession → String → Action Unit
  log_retention session correlation = do
    audit deps session.organization_id (some session.id) system_actor none
        (retention_change session.retention_state) session.id correlation
    hint deps session retention_topic session.id

  -- The end of a round of the loop: the list of changed sessions grows if the state changed.
  unfoldable pub note_change :
      CampSession → CampSession → String → List String → Action (List String)
  note_change before after correlation changed =
      if is_state after.retention_state before.retention_state
      then give changed
      else (log_retention after correlation >> give (changed ++ after.id ∷ []))

  -- The loop over the sessions; `done` are those of the rounds before.
  unfoldable pub advance_sessions :
      List CampSession → List CampSession → String → List String → Action (List String)
  advance_sessions done [] correlation changed = give changed
  advance_sessions done (s ∷ rest) correlation changed = do
    today ← now deps
    let s' : CampSession = refreshed deps.recovery_days today.date s
    change_store λ st. record st { sessions = done ++ s' ∷ rest }
    changed' ← note_change s s' correlation changed
    advance_sessions (done ++ s' ∷ []) rest correlation changed'

  unfoldable pub advance_retention : String → Action (List String)
  advance_retention correlation = do
    sessions ← read (λ s. s.store.sessions)
    advance_sessions [] sessions correlation []

  unfoldable pub purge_session : PurgeInput → Action Unit
  purge_session input = do
    found ← require_session input.session_id
    require_session_instructor found input.actor_instructor_id true
    session ← refresh_retention deps (has_id found.id) found
    throw_if
        (not (is_state session.retention_state deletion_queued) || not input.final_backup_deleted)
        forbidden
    change_store λ st. without_session session.id st
    change_store
        λ st. record st { sessions = change_first (has_id session.id) mark_deleted st.sessions }
    audit deps session.organization_id (some session.id) instructor_actor
        (some input.actor_instructor_id) (retention_change deleted) session.id input.correlation_id
