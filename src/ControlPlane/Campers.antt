-- ===== src/ControlPlane/Campers.antt =====
-- `joinCamper` and the limit on attempts to join, packages/control-plane/src/service.ts.
use badgerbots_code_studio.Prelude.{
  ℕ, ◌+◌, ◌-◌, String, Bool, false, not, ◌||◌, List, [], ◌∷◌, ◌++◌, Option, none, some, ltb, leb,
  str_eq, lookup, insert, delete, if◌then◌else◌,
}
use badgerbots_code_studio.ProgramModel.Starter.{sheep_city_starter_program}
use badgerbots_code_studio.ControlPlane.Texts.{trim_text, is_first_name, is_initial}
use badgerbots_code_studio.ControlPlane.Store.{
  CampSession, camper_actor, camper_join, roster_topic, find,
}
use badgerbots_code_studio.ControlPlane.Action.{
  Deps, JoinAttempt, Action, invalid_input, join_denied, session_expired, give, throw, read,
  some_or_throw, change, change_store, throw_if, ◌>>=◌, ◌>>◌, now, next_id, next_access_token,
}
use badgerbots_code_studio.ControlPlane.Access.{is_open, refresh_retention, audit, hint}

pub record JoinInput : Type 0 where
  pub join_code : String
  pub first_name : String
  pub last_initial : String
  pub attempt_key : String
  pub correlation_id : String

pub record JoinResult : Type 0 where
  pub camper_id : String
  pub session_id : String
  pub workspace_id : String
  pub access_token : String

-- Ten minutes, and fifteen.
abbrev pub attempt_window : ℕ
attempt_window = 600000

abbrev pub block_time : ℕ
block_time = 900000

abbrev pub is_blocked : ℕ → Option ℕ → Bool
is_blocked time none = false
is_blocked time (some blocked_until) = ltb time blocked_until

-- The difference stops at 0 where the code's is negative; both are less than the window.
abbrev pub window_over : ℕ → JoinAttempt → Bool
window_over time attempt = leb attempt_window (time - attempt.window_started_at)

-- `requireJoinAttemptAllowed`, at the time of the clock: the new attempts, or nothing if it throws.
unfoldable pub attempt_allowed :
    String → ℕ → List (String × JoinAttempt) → Option (List (String × JoinAttempt))
attempt_allowed key time attempts = elim (lookup key attempts) [
  | none ↦ some attempts
  | some attempt ↦
      if is_blocked time attempt.blocked_until
      then none
      else some (if window_over time attempt then delete key attempts else attempts)
]

abbrev pub new_window : ℕ → JoinAttempt
new_window time = record { window_started_at = time; failures = 0; blocked_until = none }

abbrev pub current_window : ℕ → Option JoinAttempt → JoinAttempt
current_window time none = new_window time
current_window time (some attempt) = if window_over time attempt then new_window time else attempt

abbrev pub failed_once_more : ℕ → JoinAttempt → JoinAttempt
failed_once_more time attempt =
    if leb 5 (attempt.failures + 1)
    then record attempt {
      failures = attempt.failures + 1;
      blocked_until = some (time + block_time);
    }
    else record attempt { failures = attempt.failures + 1 }

-- `recordFailedJoinAttempt`
unfoldable pub failed_attempt :
    String → ℕ → List (String × JoinAttempt) → List (String × JoinAttempt)
failed_attempt key time attempts =
    insert key (failed_once_more time (current_window time (lookup key attempts))) attempts

module _ (deps : Deps) where
  abbrev pub has_code : String → CampSession → Bool
  has_code digest s = str_eq s.join_code_digest digest

  unfoldable pub require_join_attempt_allowed : String → Action Unit
  require_join_attempt_allowed key = do
    at_time ← now deps
    attempts ← read (λ s. attempt_allowed key at_time.time s.join_attempts)
    allowed ← some_or_throw join_denied attempts
    change λ s. record s { join_attempts = allowed }

  unfoldable pub record_failed_join_attempt : String → Action Unit
  record_failed_join_attempt key = do
    at_time ← now deps
    change λ s. record s { join_attempts = failed_attempt key at_time.time s.join_attempts }

  -- The session of a join code, or a failed attempt.
  unfoldable pub session_of_code : String → Option CampSession → Action CampSession
  session_of_code key (some session) = give session
  session_of_code key none = record_failed_join_attempt key >> throw join_denied

  -- The new workspace, at revision 0.
  unfoldable pub add_workspace : CampSession → String → Action String
  add_workspace session camper_id = do
    workspace_id ← next_id deps "wrk"
    change_store λ st. record st {
      workspaces =
          st.workspaces
          ++ record {
            id = workspace_id;
            organization_id = session.organization_id;
            session_id = session.id;
            camper_id = camper_id;
            revision = 0;
            current_program = sheep_city_starter_program;
          }
            ∷ [];
    }
    give workspace_id

  -- The objects that a camper who may join gets.
  unfoldable pub enrol : CampSession → String → String → String → Action JoinResult
  enrol session first_name last_initial correlation = do
    access_token ← next_access_token deps
    camper_id ← next_id deps "cam"
    change_store λ st. record st {
      campers =
          st.campers
          ++ record {
            id = camper_id;
            session_id = session.id;
            first_name = first_name;
            last_initial = last_initial;
            access_token_digest = deps.digest access_token;
          }
            ∷ [];
    }
    workspace_id ← add_workspace session camper_id
    audit deps session.organization_id (some session.id) camper_actor (some camper_id) camper_join
        camper_id correlation
    hint deps session roster_topic camper_id
    give (record {
      camper_id = camper_id;
      session_id = session.id;
      workspace_id = workspace_id;
      access_token = access_token;
    })

  unfoldable pub join_camper : JoinInput → Action JoinResult
  join_camper input = do
    require_join_attempt_allowed (deps.digest input.attempt_key)
    let digest : String = deps.digest (deps.upper_case (trim_text input.join_code))
    found ← read (λ s. find (has_code digest) s.store.sessions)
    session ← session_of_code (deps.digest input.attempt_key) found
    change λ s. record s { join_attempts = delete (deps.digest input.attempt_key) s.join_attempts }
    session' ← refresh_retention deps (has_code digest) session
    today ← now deps
    throw_if (not (is_open today.date session')) session_expired
    let first_name : String = trim_text input.first_name
    let last_initial : String = deps.locale_upper_case (trim_text input.last_initial)
    throw_if
        (not (is_first_name deps.is_letter first_name)
          || not (is_initial deps.is_letter last_initial))
        invalid_input
    enrol session' first_name last_initial input.correlation_id
