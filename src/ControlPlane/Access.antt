-- ===== src/ControlPlane/Access.antt =====
-- The private methods of `ControlPlaneService`, packages/control-plane/src/service.ts, that find an
-- object, test who may act on it, or write to a log.
use badgerbots_code_studio.Prelude.{
  ℕ, ◌+◌, String, Bool, true, false, not, ◌&&◌, ◌||◌, [], ◌∷◌, ◌++◌, Option, none, some, str_eq,
  has, if◌then◌else◌,
}
use badgerbots_code_studio.ControlPlane.Dates.{Date, ltb_date, day_of, add_days}
use badgerbots_code_studio.ControlPlane.Texts.{present}
use badgerbots_code_studio.ControlPlane.Store.{
  InstructorRole, owner, assistant, SessionRetentionState, scheduled, active, hidden_recoverable,
  deletion_queued, deleted, ProgramAuthor, camper_author, instructor_author, Topic, Membership,
  CampSession, Camper, Workspace, ActorKind, instructor_actor, camper_actor, AuditAction, find,
  change_first,
}
use badgerbots_code_studio.ControlPlane.Action.{
  Deps, Action, forbidden, not_found, session_expired, give, throw, read, some_or_throw, change,
  change_store, throw_if, ◌>>=◌, ◌>>◌, now, next_id,
}

pub data ActorCredentials : Type 0 where
  instructor_credentials : String → ActorCredentials
  camper_credentials : String → String → ActorCredentials

abbrev pub is_state : SessionRetentionState → SessionRetentionState → Bool
is_state scheduled scheduled = true
is_state active active = true
is_state hidden_recoverable hidden_recoverable = true
is_state deletion_queued deletion_queued = true
is_state deleted deleted = true
is_state _ _ = false

abbrev pub is_role : InstructorRole → InstructorRole → Bool
is_role owner owner = true
is_role assistant assistant = true
is_role _ _ = false

-- The three statements of `refreshRetention`.
abbrev pub opened : Date → CampSession → CampSession
opened today s =
    if is_state s.retention_state scheduled
      && not (ltb_date today s.starts_on)
      && not (ltb_date s.ends_on today)
    then record s { retention_state = active }
    else s

abbrev pub hidden : ℕ → Date → CampSession → CampSession
hidden recovery_days today s =
    if (is_state s.retention_state scheduled || is_state s.retention_state active)
      && ltb_date s.ends_on today
    then record s {
      retention_state = hidden_recoverable;
      recoverable_until = some (add_days (day_of s.ends_on) recovery_days);
    }
    else s

abbrev pub is_past : Date → Option Date → Bool
is_past today none = false
is_past today (some d) = ltb_date d today

abbrev pub queued : Date → CampSession → CampSession
queued today s =
    if is_state s.retention_state hidden_recoverable && is_past today s.recoverable_until
    then record s { retention_state = deletion_queued }
    else s

unfoldable pub refreshed : ℕ → Date → CampSession → CampSession
refreshed recovery_days today s = queued today (hidden recovery_days today (opened today s))

abbrev pub has_id : String → CampSession → Bool
has_id id s = str_eq s.id id

unfoldable pub is_open : Date → CampSession → Bool
is_open today s =
    is_state s.retention_state active
    && not (ltb_date today s.starts_on)
    && not (ltb_date s.ends_on today)

-- `includes`, for the instructor of a session.
unfoldable pub is_session_instructor : CampSession → String → Bool → Bool
is_session_instructor s instructor owner_only =
    str_eq s.owner_instructor_id instructor
    || (not owner_only && has s.assistant_instructor_ids instructor)

unfoldable pub require_session_instructor : CampSession → String → Bool → Action Unit
require_session_instructor s instructor owner_only =
    throw_if (not (is_session_instructor s instructor owner_only)) forbidden

unfoldable pub require_workspace : String → Action Workspace
require_workspace id =
    read (λ s. find (λ w. str_eq w.id id) s.store.workspaces) >>= some_or_throw not_found

unfoldable pub require_session : String → Action CampSession
require_session id = read (λ s. find (has_id id) s.store.sessions) >>= some_or_throw not_found

abbrev pub is_membership : String → String → InstructorRole → Membership → Bool
is_membership organization instructor role m =
    str_eq m.organization_id organization
    && str_eq m.instructor_id instructor
    && is_role m.role role

unfoldable pub require_organization_role : String → String → InstructorRole → Action Membership
require_organization_role organization instructor role =
    read (λ s. find (is_membership organization instructor role) s.store.memberships)
    >>= some_or_throw forbidden

module _ (deps : Deps) where
  -- `refreshRetention` of the session that the test finds first, whose value is given; it returns the
  -- session's new value.
  unfoldable pub refresh_retention : (CampSession → Bool) → CampSession → Action CampSession
  refresh_retention test session = do
    today ← now deps
    change_store λ st. record st {
      sessions = change_first test (refreshed deps.recovery_days today.date) st.sessions;
    }
    give (refreshed deps.recovery_days today.date session)

  unfoldable pub require_active_session : (CampSession → Bool) → CampSession → Action CampSession
  unfolding refresh_retention
  require_active_session test session = do
    session' ← refresh_retention test session
    today ← now deps
    throw_if (not (is_open today.date session')) session_expired
    give session'

  -- `secretsMatch` of a stored digest and the digest of a secret.
  abbrev pub matches_secret : String → String → Bool
  matches_secret stored secret = str_eq stored (deps.digest secret)

  abbrev pub is_camper_of : String → CampSession → Camper → Bool
  is_camper_of camper session c = str_eq c.id camper && str_eq c.session_id session.id

  -- The end of `authorizeWorkspaceActor` for a camper, with the result of the search.
  unfoldable pub authorize_camper : String → Workspace → Option Camper → Action ProgramAuthor
  authorize_camper token workspace none = throw forbidden
  authorize_camper token workspace (some c) =
      if str_eq c.id workspace.camper_id && matches_secret c.access_token_digest token
      then give (camper_author c.id)
      else throw forbidden

  unfoldable pub authorize_actor : ActorCredentials → Workspace → CampSession → Action ProgramAuthor
  authorize_actor (instructor_credentials instructor) workspace session =
      require_session_instructor session instructor false >> give (instructor_author instructor)
  authorize_actor (camper_credentials camper token) workspace session =
      read (λ s. find (is_camper_of camper session) s.store.campers)
      >>= authorize_camper token workspace

  unfoldable pub authorize_workspace_actor :
      ActorCredentials → Workspace → CampSession → Action ProgramAuthor
  authorize_workspace_actor actor workspace session = do
    session' ← require_active_session (has_id session.id) session
    authorize_actor actor workspace session'

  unfoldable pub authorized : String → Option Camper → Action Camper
  authorized token none = throw forbidden
  authorized token (some c) =
      if matches_secret c.access_token_digest token then give c else throw forbidden

  unfoldable pub require_authorized_camper : String → String → Action Camper
  require_authorized_camper camper token =
      read (λ s. find (λ c. str_eq c.id camper) s.store.campers) >>= authorized token

  unfoldable pub audit :
      String
      → Option String
      → ActorKind
      → Option String
      → AuditAction
      → String
      → String
      → Action Unit
  audit organization session kind actor action target correlation = do
    id ← next_id deps "aud"
    at_time ← now deps
    change_store λ st. record st {
      audits =
          st.audits
          ++ record {
            id = id;
            organization_id = organization;
            session_id = present session;
            actor_kind = kind;
            actor_id = present actor;
            action = action;
            target_id = target;
            correlation_id = correlation;
            occurred_at = at_time;
          }
            ∷ [];
    }

  unfoldable pub hint : CampSession → Topic → String → Action Unit
  hint session topic entity = do
    at_time ← now deps
    change λ s. record s {
      sequence = s.sequence + 1;
      store = record s.store {
        realtime_hints =
            s.store.realtime_hints
            ++ record {
              sequence = s.sequence + 1;
              organization_id = session.organization_id;
              session_id = session.id;
              topic = topic;
              entity_id = entity;
              occurred_at = at_time;
            }
              ∷ [];
      };
    }

abbrev pub author_kind : ProgramAuthor → ActorKind
author_kind (camper_author id) = camper_actor
author_kind (instructor_author id) = instructor_actor

-- `actorId`
abbrev pub actor_id : ProgramAuthor → String
actor_id (camper_author id) = id
actor_id (instructor_author id) = id

abbrev pub same_author : ProgramAuthor → ProgramAuthor → Bool
same_author (camper_author a) (camper_author b) = str_eq a b
same_author (instructor_author a) (instructor_author b) = str_eq a b
same_author _ _ = false
