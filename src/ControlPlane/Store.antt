-- ===== src/ControlPlane/Store.antt =====
-- packages/control-plane/src/types.ts, memory-store.ts and packages/shared-types/src/index.ts: the
-- tables of the in-memory store. The project is always Sheep City, and left out. A time that is stored
-- as an ISO text is the clock's reading.
use badgerbots_code_studio.Prelude.{
  ℕ, String, Bool, true, false, List, [], ◌∷◌, Option, none, some, Number, if◌then◌else◌,
}
use badgerbots_code_studio.ProgramModel.Types.{Program}
use badgerbots_code_studio.ControlPlane.Dates.{Date, Instant}

pub data InstructorRole : Type 0 where
  owner assistant : InstructorRole

pub data SessionRetentionState : Type 0 where
  scheduled active hidden_recoverable deletion_queued deleted : SessionRetentionState

pub data ProgramAuthor : Type 0 where
  camper_author instructor_author : String → ProgramAuthor

pub data Topic : Type 0 where
  roster_topic program_topic progress_topic help_topic runtime_topic retention_topic : Topic

pub record RealtimeHint : Type 0 where
  pub sequence : ℕ
  pub organization_id : String
  pub session_id : String
  pub topic : Topic
  pub entity_id : String
  pub occurred_at : Instant

pub record Organization : Type 0 where
  pub id : String
  pub name : String

pub record Location : Type 0 where
  pub id : String
  pub organization_id : String
  pub name : String

pub record Instructor : Type 0 where
  pub id : String
  pub auth_user_id : String
  pub normalized_email : String
  pub display_email : String

pub record Membership : Type 0 where
  pub organization_id : String
  pub instructor_id : String
  pub role : InstructorRole

pub record CampSession : Type 0 where
  pub id : String
  pub organization_id : String
  pub location_id : String
  pub owner_instructor_id : String
  pub assistant_instructor_ids : List String
  pub track_id : String
  pub starts_on : Date
  pub ends_on : Date
  pub join_code_digest : String
  pub retention_state : SessionRetentionState
  pub recoverable_until : Option Date

pub record Camper : Type 0 where
  pub id : String
  pub session_id : String
  pub first_name : String
  pub last_initial : String
  pub access_token_digest : String

pub record Workspace : Type 0 where
  pub id : String
  pub organization_id : String
  pub session_id : String
  pub camper_id : String
  pub revision : ℕ
  pub current_program : Program

pub record ProgramVersion : Type 0 where
  pub id : String
  pub workspace_id : String
  pub revision : ℕ
  pub program : Program
  pub author : ProgramAuthor
  pub client_mutation_id : String
  pub created_at : Instant
  pub restored_from_version_id : Option String

pub data ProgressState : Type 0 where
  not_started working complete optional_extension needs_attention : ProgressState

pub data EvidenceValue : Type 0 where
  text_value : String → EvidenceValue
  number_value : Number → EvidenceValue
  flag_value : Bool → EvidenceValue

pub record ProgressRecord : Type 0 where
  pub id : String
  pub session_id : String
  pub camper_id : String
  pub benchmark_key : String
  pub state : ProgressState
  pub evidence : List (String × EvidenceValue)
  pub decided_by_instructor_id : String
  pub observed_at : Instant

pub data HelpRequestState : Type 0 where
  open_help acknowledged resolved : HelpRequestState

pub record HelpRequest : Type 0 where
  pub id : String
  pub session_id : String
  pub camper_id : String
  pub state : HelpRequestState
  pub summary : Option String
  pub created_at : Instant
  pub acknowledged_by_instructor_id : Option String
  pub resolved_at : Option Instant

pub record InstructorRosterEntry : Type 0 where
  pub camper_id : String
  pub display_name : String
  pub workspace_id : String
  pub workspace_revision : ℕ
  pub progress_state : ProgressState
  pub help_state : Option HelpRequestState

pub data ActorKind : Type 0 where
  system_actor instructor_actor camper_actor : ActorKind

-- The actions of the audit log; the code spells them with dots.
pub data AuditAction : Type 0 where
  owner_bootstrap assistant_add assistant_provision session_create camper_join : AuditAction
  program_save program_restore help_request progress_set : AuditAction
  help_update : HelpRequestState → AuditAction
  retention_change : SessionRetentionState → AuditAction

pub record AuditRecord : Type 0 where
  pub id : String
  pub organization_id : String
  pub session_id : Option String
  pub actor_kind : ActorKind
  pub actor_id : Option String
  pub action : AuditAction
  pub target_id : String
  pub correlation_id : String
  pub occurred_at : Instant

pub record StoreState : Type 0 where
  pub organizations : List Organization
  pub locations : List Location
  pub instructors : List Instructor
  pub memberships : List Membership
  pub sessions : List CampSession
  pub campers : List Camper
  pub workspaces : List Workspace
  pub versions : List ProgramVersion
  pub progress_records : List ProgressRecord
  pub help_requests : List HelpRequest
  pub audits : List AuditRecord
  pub realtime_hints : List RealtimeHint

abbrev pub empty_store : StoreState
empty_store = record {
  organizations = [];
  locations = [];
  instructors = [];
  memberships = [];
  sessions = [];
  campers = [];
  workspaces = [];
  versions = [];
  progress_records = [];
  help_requests = [];
  audits = [];
  realtime_hints = [];
}

module _ {ℓ} {A : Type ℓ} where
  -- `Array.prototype.find`
  unfoldable pub find : (A → Bool) → List A → Option A
  find test [] = none
  find test (x ∷ xs) = if test x then some x else find test xs

  -- A change of the object that `find` returns.
  unfoldable pub change_first : (A → Bool) → (A → A) → List A → List A
  change_first test f [] = []
  change_first test f (x ∷ xs) = if test x then f x ∷ xs else x ∷ change_first test f xs

  -- `filter`
  unfoldable pub keep : (A → Bool) → List A → List A
  keep test [] = []
  keep test (x ∷ xs) = if test x then x ∷ keep test xs else keep test xs

  -- `some`
  unfoldable pub exists : (A → Bool) → List A → Bool
  exists test [] = false
  exists test (x ∷ xs) = if test x then true else exists test xs

  -- `at(-1)`
  unfoldable pub last_of : List A → Option A
  last_of [] = none
  last_of (x ∷ xs) = elim (last_of xs) [ none ↦ some x | some y ↦ some y ]
