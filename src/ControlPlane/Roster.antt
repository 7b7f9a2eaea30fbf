-- ===== src/ControlPlane/Roster.antt =====
-- `getInstructorRoster` of packages/control-plane/src/service.ts.
use Prim.Native.String.{◌++◌ as append_text}
use badgerbots_code_studio.Prelude.{
  String, false, ◌&&◌, List, [], ◌∷◌, Option, none, some, str_eq, if◌then◌else◌,
}
use badgerbots_code_studio.ControlPlane.Store.{
  CampSession, Camper, Workspace, ProgressState, not_started, ProgressRecord, HelpRequestState,
  HelpRequest, InstructorRosterEntry, StoreState, find, keep, last_of,
}
use badgerbots_code_studio.ControlPlane.Action.{Action, not_found, read, some_or_throw, ◌>>=◌, ◌>>◌}
use badgerbots_code_studio.ControlPlane.Access.{require_session, require_session_instructor}
use badgerbots_code_studio.ControlPlane.Classroom.{is_resolved}

abbrev pub last_progress : CampSession → Camper → List ProgressRecord → Option ProgressRecord
last_progress session camper rs = last_of (
    keep (λ (r : ProgressRecord). str_eq r.session_id session.id && str_eq r.camper_id camper.id)
      rs)

abbrev pub last_help : Camper → List HelpRequest → Option HelpRequest
last_help camper rs = last_of (keep (λ (r : HelpRequest). str_eq r.camper_id camper.id) rs)

abbrev pub shown_progress : Option ProgressRecord → ProgressState
shown_progress none = not_started
shown_progress (some r) = r.state

abbrev pub shown_help : Option HelpRequest → Option HelpRequestState
shown_help none = none
shown_help (some r) = if is_resolved r.state then none else some r.state

abbrev pub entry_of : StoreState → CampSession → Camper → Workspace → InstructorRosterEntry
entry_of st session camper workspace = record {
  camper_id = camper.id;
  display_name =
      append_text camper.first_name (append_text " " (append_text camper.last_initial "."));
  workspace_id = workspace.id;
  workspace_revision = workspace.revision;
  progress_state = shown_progress (last_progress session camper st.progress_records);
  help_state = shown_help (last_help camper st.help_requests);
}

-- The entries of the campers; `none` if one has no workspace.
unfoldable pub roster_of :
    StoreState → CampSession → List Camper → Option (List InstructorRosterEntry)
roster_of st session [] = some []
roster_of st session (c ∷ campers) =
    elim (find (λ (w : Workspace). str_eq w.session_id session.id && str_eq w.camper_id c.id)
      st.workspaces) [
        | none ↦ none
        | some w ↦ elim (roster_of st session campers) [
          | none ↦ none
          | some entries ↦ some (entry_of st session c w ∷ entries)
        ]
      ]

unfoldable pub get_instructor_roster : String → String → Action (List InstructorRosterEntry)
get_instructor_roster instructor session_id = do
  session ← require_session session_id
  require_session_instructor session instructor false
  read (λ s.
        roster_of s.store session
          (keep (λ (c : Camper). str_eq c.session_id session.id) s.store.campers))
      >>= some_or_throw not_found
