-- ===== src/ControlPlane/Programs.antt =====
-- `saveProgram`, `restoreProgram` and `writeVersion` of packages/control-plane/src/service.ts.
use badgerbots_code_studio.Prelude.{
  ℕ, ◌+◌, String, Bool, not, ◌&&◌, [], ◌∷◌, ◌++◌, Option, none, some, ◌==◌, str_eq, if◌then◌else◌,
  Result, ok, err,
}
use badgerbots_code_studio.ProgramModel.Types.{Program}
use badgerbots_code_studio.ProgramModel.Validate.{validate_program}
use badgerbots_code_studio.ProgramModel.Migrate.{ProgramInput, MigrationError, migrate_program}
use badgerbots_code_studio.ControlPlane.Store.{
  ProgramAuthor, Workspace, ProgramVersion, CampSession, program_save, program_restore,
  program_topic, AuditAction, find, change_first,
}
use badgerbots_code_studio.ControlPlane.Action.{
  Deps, Action, invalid_input, not_found, program_rejected, give, throw, read, some_or_throw,
  change_store, ◌>>=◌, ◌>>◌, now, next_id,
}
use badgerbots_code_studio.ControlPlane.Access.{
  ActorCredentials, require_workspace, require_session, authorize_workspace_actor, audit, hint,
  author_kind, actor_id, same_author,
}

pub data SaveResult : Type 0 where
  saved : ProgramVersion → SaveResult
  revision_conflict : ℕ → ℕ → Program → SaveResult

pub record SaveInput : Type 0 where
  pub actor : ActorCredentials
  pub workspace_id : String
  pub base_revision : ℕ
  pub program : ProgramInput
  pub client_mutation_id : String
  pub correlation_id : String

pub record RestoreInput : Type 0 where
  pub actor : ActorCredentials
  pub workspace_id : String
  pub version_id : String
  pub base_revision : ℕ
  pub client_mutation_id : String
  pub correlation_id : String

abbrev pub is_workspace : String → Workspace → Bool
is_workspace id w = str_eq w.id id

-- The version that an earlier call with the same mutation identifier made.
abbrev pub is_mutation : String → String → ProgramAuthor → ProgramVersion → Bool
is_mutation workspace mutation author v =
    str_eq v.workspace_id workspace
    && str_eq v.client_mutation_id mutation
    && same_author v.author author

abbrev pub is_version : String → String → ProgramVersion → Bool
is_version id workspace v = str_eq v.id id && str_eq v.workspace_id workspace

-- The program of the input, migrated and validated.
abbrev pub checked : Program → Bool → Action Program
checked p valid = if valid then give p else throw invalid_input

unfoldable pub accept_program : Result MigrationError Program → Action Program
accept_program (err e) = throw program_rejected
accept_program (ok p) = checked p (validate_program p).ok

-- The object that `writeVersion` changes, at its new revision.
abbrev pub advanced : Program → Workspace → Workspace
advanced p w = record w { revision = w.revision + 1; current_program = p }

module _ (deps : Deps) where
  unfoldable pub write_version :
      Workspace → Program → ProgramAuthor → String → Option String → Action ProgramVersion
  write_version workspace p author mutation restored_from = do
    change_store λ st. record st {
      workspaces = change_first (is_workspace workspace.id) (advanced p) st.workspaces;
    }
    id ← next_id deps "ver"
    created_at ← now deps
    let version : ProgramVersion = record {
      id = id;
      workspace_id = workspace.id;
      revision = workspace.revision + 1;
      program = p;
      author = author;
      client_mutation_id = mutation;
      created_at = created_at;
      restored_from_version_id = restored_from;
    }
    change_store λ st. record st { versions = st.versions ++ version ∷ [] }
    give version

  -- The end of both methods: the version is written and logged.
  unfoldable pub commit :
      CampSession
      → Workspace
      → Program
      → ProgramAuthor
      → String
      → Option String
      → AuditAction
      → String
      → String
      → Action SaveResult
  commit session workspace p author mutation restored_from action target correlation = do
    version ← write_version workspace p author mutation restored_from
    audit deps session.organization_id (some session.id) (author_kind author)
        (some (actor_id author)) action target correlation
    hint deps session program_topic workspace.id
    give (saved version)

  -- `saveProgram`, once the actor is authorized, with the version of the same mutation, if there is one.
  unfoldable pub save_new :
      SaveInput
      → Workspace
      → CampSession
      → ProgramAuthor
      → Option ProgramVersion
      → Action SaveResult
  save_new input workspace session author (some version) = give (saved version)
  save_new input workspace session author none =
      if not (input.base_revision == workspace.revision)
      then give (revision_conflict input.base_revision workspace.revision workspace.current_program)
      else (accept_program (migrate_program input.program) >>= λ p.
          commit session workspace p author input.client_mutation_id none program_save workspace.id
            input.correlation_id)

  unfoldable pub save_program : SaveInput → Action SaveResult
  save_program input = do
    workspace ← require_workspace input.workspace_id
    session ← require_session workspace.session_id
    author ← authorize_workspace_actor deps input.actor workspace session
    existing ←
        read (λ s. find (is_mutation workspace.id input.client_mutation_id author) s.store.versions)
    save_new input workspace session author existing

  unfoldable pub restore_from :
      RestoreInput → Workspace → CampSession → ProgramAuthor → Action SaveResult
  restore_from input workspace session author =
      if not (input.base_revision == workspace.revision)
      then give (revision_conflict input.base_revision workspace.revision workspace.current_program)
      else (read (λ s. find (is_version input.version_id workspace.id) s.store.versions)
          >>= some_or_throw not_found
          >>= λ source.
              commit session workspace source.program author input.client_mutation_id
                (some source.id) program_restore source.id input.correlation_id)

  unfoldable pub restore_program : RestoreInput → Action SaveResult
  restore_program input = do
    workspace ← require_workspace input.workspace_id
    session ← require_session workspace.session_id
    author ← authorize_workspace_actor deps input.actor workspace session
    restore_from input workspace session author
