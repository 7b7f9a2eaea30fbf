-- ===== src/ControlPlane/Classroom.antt =====
-- `requestHelp`, `updateHelpRequest` and `setProgress` of packages/control-plane/src/service.ts.
use badgerbots_code_studio.Prelude.{
  String, Bool, true, false, not, ◌&&◌, List, [], ◌∷◌, ◌++◌, Option, none, some, ltb, str_eq,
}
use badgerbots_code_studio.ControlPlane.Dates.{Instant}
use badgerbots_code_studio.ControlPlane.Texts.{utf16_length, trim_text, present, is_benchmark_key}
use badgerbots_code_studio.ControlPlane.Store.{
  CampSession, Camper, ProgressState, EvidenceValue, ProgressRecord, HelpRequestState, open_help,
  acknowledged, resolved, HelpRequest, instructor_actor, camper_actor, help_request, help_update,
  progress_set, help_topic, progress_topic, find, change_first,
}
use badgerbots_code_studio.ControlPlane.Action.{
  Deps, Action, invalid_input, not_found, give, read, some_or_throw, change_store, throw_if, ◌>>=◌,
  ◌>>◌, now, next_id,
}
use badgerbots_code_studio.ControlPlane.Access.{
  has_id, require_session, require_session_instructor, require_active_session,
  require_authorized_camper, is_camper_of, audit, hint,
}

abbrev pub is_resolved : HelpRequestState → Bool
is_resolved open_help = false
is_resolved acknowledged = false
is_resolved resolved = true

abbrev pub trimmed : Option String → Option String
trimmed none = none
trimmed (some s) = some (trim_text s)

abbrev pub too_long : Option String → Bool
too_long none = false
too_long (some s) = ltb 240 (utf16_length s)

abbrev pub is_open_request : Camper → HelpRequest → Bool
is_open_request camper r = str_eq r.camper_id camper.id && not (is_resolved r.state)

-- A state other than `open`, as `updateHelpRequest` takes it.
pub data HelpUpdate : Type 0 where
  acknowledge resolve : HelpUpdate

abbrev pub new_state : HelpUpdate → HelpRequestState
new_state acknowledge = acknowledged
new_state resolve = resolved

abbrev pub is_request : String → HelpRequest → Bool
is_request id r = str_eq r.id id

pub record ProgressInput : Type 0 where
  pub actor_instructor_id : String
  pub session_id : String
  pub camper_id : String
  pub benchmark_key : String
  pub state : ProgressState
  pub evidence : List (String × EvidenceValue)
  pub correlation_id : String

abbrev pub is_progress : CampSession → Camper → String → ProgressRecord → Bool
is_progress session camper benchmark r =
    str_eq r.session_id session.id
    && str_eq r.camper_id camper.id
    && str_eq r.benchmark_key benchmark

-- `Object.assign(record, values)`
abbrev pub with_values : ProgressInput → Instant → ProgressRecord → ProgressRecord
with_values input observed_at r = record r {
  state = input.state;
  evidence = input.evidence;
  decided_by_instructor_id = input.actor_instructor_id;
  observed_at = observed_at;
}

module _ (deps : Deps) where
  unfoldable pub open_request :
      CampSession → Camper → Option String → String → Option HelpRequest → Action HelpRequest
  open_request session camper summary correlation (some existing) = give existing
  open_request session camper summary correlation none = do
    id ← next_id deps "help"
    created_at ← now deps
    let request : HelpRequest = record {
      id = id;
      session_id = session.id;
      camper_id = camper.id;
      state = open_help;
      summary = present summary;
      created_at = created_at;
      acknowledged_by_instructor_id = none;
      resolved_at = none;
    }
    change_store λ st. record st { help_requests = st.help_requests ++ request ∷ [] }
    audit deps session.organization_id (some session.id) camper_actor (some camper.id) help_request
        id correlation
    hint deps session help_topic id
    give request

  unfoldable pub request_help : String → String → Option String → String → Action HelpRequest
  request_help camper_id access_token summary correlation = do
    camper ← require_authorized_camper deps camper_id access_token
    found ← require_session camper.session_id
    session ← require_active_session deps (has_id found.id) found
    throw_if (too_long (trimmed summary)) invalid_input
    existing ← read (λ s. find (is_open_request camper) s.store.help_requests)
    open_request session camper (trimmed summary) correlation existing

  -- `if (input.state === "resolved") … else delete …`, with the reading of the clock in the first case.
  unfoldable pub resolution_time : HelpUpdate → Action (Option Instant)
  resolution_time acknowledge = give none
  resolution_time resolve = do at_time ← now deps; give (some at_time)

  unfoldable pub update_help_request : String → String → HelpUpdate → String → Action HelpRequest
  update_help_request instructor id update correlation = do
    request ← read (λ s. find (is_request id) s.store.help_requests) >>= some_or_throw not_found
    found ← require_session request.session_id
    require_session_instructor found instructor false
    session ← require_active_session deps (has_id found.id) found
    resolved_at ← resolution_time update
    let request' : HelpRequest = record request {
      state = new_state update;
      acknowledged_by_instructor_id = some instructor;
      resolved_at = resolved_at;
    }
    change_store λ st. record st {
      help_requests = change_first (is_request id) (λ _. request') st.help_requests;
    }
    audit deps session.organization_id (some session.id) instructor_actor (some instructor)
        (help_update (new_state update)) request.id correlation
    hint deps session help_topic request.id
    give request'

  -- The record that `setProgress` changes or makes.
  unfoldable pub write_progress :
      ProgressInput
      → CampSession
      → Camper
      → String
      → Instant
      → Option ProgressRecord
      → Action ProgressRecord
  write_progress input session camper benchmark observed_at (some r) = do
    change_store λ st. record st {
      progress_records =
          change_first (is_progress session camper benchmark) (with_values input observed_at)
            st.progress_records;
    }
    give (with_values input observed_at r)
  write_progress input session camper benchmark observed_at none = do
    id ← next_id deps "progress"
    let r : ProgressRecord = record {
      id = id;
      session_id = session.id;
      camper_id = camper.id;
      benchmark_key = benchmark;
      state = input.state;
      evidence = input.evidence;
      decided_by_instructor_id = input.actor_instructor_id;
      observed_at = observed_at;
    }
    change_store λ st. record st { progress_records = st.progress_records ++ r ∷ [] }
    give r

  unfoldable pub set_progress : ProgressInput → Action ProgressRecord
  set_progress input = do
    found ← require_session input.session_id
    require_session_instructor found input.actor_instructor_id false
    session ← require_active_session deps (has_id found.id) found
    camper ←
        read (λ s. find (is_camper_of deps input.camper_id session) s.store.campers)
        >>= some_or_throw not_found
    let benchmark : String = trim_text input.benchmark_key
    throw_if (not (is_benchmark_key benchmark)) invalid_input
    existing ← read (λ s. find (is_progress session camper benchmark) s.store.progress_records)
    observed_at ← now deps
    r ← write_progress input session camper benchmark observed_at existing
    audit deps session.organization_id (some session.id) instructor_actor
        (some input.actor_instructor_id) progress_set r.id input.correlation_id
    hint deps session progress_topic r.id
    give r
