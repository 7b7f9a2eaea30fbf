-- ===== src/ControlPlane/Step/Writes.antt =====
-- `saveProgram` and `restoreProgram` of packages/control-plane/src/service.ts follow the step relation:
-- what they write is a program that the validator accepts, or that of an earlier version.
use badgerbots_code_studio.Prelude.{
  List, [], ◌≡◌, refl, String, Bool, true, false, Option, none, some, Result, ok, err, inl, inr,
}
use badgerbots_code_studio.ProgramModel.Types.{Program}
use badgerbots_code_studio.ProgramModel.Validate.{validate_program}
use badgerbots_code_studio.ProgramModel.Validate.Scripts.{validate_program_iff}
use badgerbots_code_studio.ProgramModel.WellFormed.{IsWellFormed}
use badgerbots_code_studio.ProgramModel.Migrate.{MigrationError}
use badgerbots_code_studio.ControlPlane.Store.{
  CampSession, Workspace, ProgramVersion, ProgramAuthor, AuditAction,
}
use badgerbots_code_studio.ControlPlane.Action.{
  Deps, Service, Action, give, throw, change_store, now, next_id, ◌>>=◌,
}
use badgerbots_code_studio.ControlPlane.Programs.{
  SaveInput, RestoreInput, is_version, checked, accept_program, write_version, commit, save_new,
  save_program, restore_from, restore_program,
}
use badgerbots_code_studio.ControlPlane.Step.{core, onward, here, write}
use badgerbots_code_studio.ControlPlane.Step.Kept.{Keeps-read, About}
use badgerbots_code_studio.ControlPlane.Step.Found.{
  Stored, Ready, Traces-find, Traces-require_workspace_then, Traces-bind_quiet,
  Keeps-require_session, Keeps-authorize_workspace_actor,
}
use badgerbots_code_studio.ControlPlane.Step.Traces.{
  TracesFrom, Always, Traces, Traces-give, Traces-read, Traces-bind_then, Traces-if, trace_rules,
}
use badgerbots_code_studio.ControlPlane.Step.Refines.{
  Traces-require_session, Traces-authorize_workspace_actor,
}

abbrev StoredIn : Workspace → List Workspace → List ProgramVersion → Type 0
StoredIn w workspaces versions = Stored w [] workspaces versions

module _ (deps : Deps) where
  Traces-write_version :
      (w : Workspace) (p : Program) (author : ProgramAuthor) (mutation : String)
      (from : Option String)
      → TracesFrom deps (About (Ready w p)) (write_version deps w p author mutation from)
  unfolding write_version ◌>>=◌ change_store next_id now give
  Traces-write_version w p author mutation from = record {
    at = λ s h. onward (write (core s) w p _ h.holds.0 h.holds.1 refl refl refl) here;
  }

  Traces-commit :
      (session : CampSession) (w : Workspace) (p : Program) (author : ProgramAuthor)
      (mutation : String) (from : Option String) (action : AuditAction)
      (target correlation : String)
      → TracesFrom deps
          (About (Ready w p))
          (commit deps session w p author mutation from action target correlation)
  unfolding commit
  Traces-commit session w p author mutation from action target correlation =
      Traces-bind_then deps {Q = Always} _ _ (Traces-write_version w p author mutation from)
        (λ s h. tt) (λ v. search trace_rules)

  Traces-checked :
      {B : Type 0} {P : Service → Type 0} (p : Program) (valid : Bool)
      → (validate_program p).ok ≡ valid
      → (k : Program → Action B) → ((validate_program p).ok ≡ true → TracesFrom deps P (k p))
      → TracesFrom deps P (checked p valid >>= k)
  unfolding ◌>>=◌ throw give
  Traces-checked p true e k h = record { at = λ s q. (h e).at s q }
  Traces-checked p false e k h = record { at = λ s q. here }

  -- The rest behind `accept_program` may use that the program is well-formed.
  Traces-accept :
      {B : Type 0} {w : Workspace} (r : Result MigrationError Program) (k : Program → Action B)
      → ((p : Program) → IsWellFormed p → TracesFrom deps (About (Stored w)) (k p))
      → TracesFrom deps (About (Stored w)) (accept_program r >>= k)
  unfolding accept_program ◌>>=◌ throw
  Traces-accept (err e) k h = record { at = λ s p. here }
  Traces-accept (ok p) k h =
      Traces-checked p _ refl k (λ valid. h p ((validate_program_iff p).0 valid))

  Traces-save_new :
      (input : SaveInput) (w : Workspace) (session : CampSession) (author : ProgramAuthor)
      (existing : Option ProgramVersion)
      → TracesFrom deps (About (Stored w)) (save_new deps input w session author existing)
  unfolding save_new
  Traces-save_new input w session author (some v) = Traces-give deps _
  Traces-save_new input w session author none = Traces-if deps _ _ _ (Traces-give deps _) (
      Traces-accept _ _ (λ p valid. record {
        at = λ s stored.
            (Traces-commit session w p author _ none _ _ _).at s
              (record { holds = (stored.holds, inl valid) });
      }))

  pub Traces-save_program : (input : SaveInput) → Traces deps (save_program deps input)
  unfolding save_program
  Traces-save_program input = Traces-require_workspace_then deps _ _ (λ w.
      Traces-bind_quiet deps _ _ (Traces-require_session deps _)
        (Keeps-require_session deps (StoredIn w) _)
        (λ session.
          Traces-bind_quiet deps _ _ (Traces-authorize_workspace_actor deps _ w session)
            (Keeps-authorize_workspace_actor deps (StoredIn w) _ w session)
            (λ author.
              Traces-bind_quiet deps _ _ (Traces-read deps _) (Keeps-read _)
                (λ existing. Traces-save_new input w session author existing))))

  Traces-restore_from :
      (input : RestoreInput) (w : Workspace) (session : CampSession) (author : ProgramAuthor)
      → TracesFrom deps (About (Stored w)) (restore_from deps input w session author)
  unfolding restore_from
  Traces-restore_from input w session author = Traces-if deps _ _ _ (Traces-give deps _) (
      Traces-find deps _ _ _
        (λ s source stored found. record {
          holds = (stored.holds, inr (is_version input.version_id w.id, source, found, refl));
        })
        (λ source. Traces-commit session w source.program author _ _ _ _ _))

  pub Traces-restore_program : (input : RestoreInput) → Traces deps (restore_program deps input)
  unfolding restore_program
  Traces-restore_program input = Traces-require_workspace_then deps _ _ (λ w.
      Traces-bind_quiet deps _ _ (Traces-require_session deps _)
        (Keeps-require_session deps (StoredIn w) _)
        (λ session.
          Traces-bind_quiet deps _ _ (Traces-authorize_workspace_actor deps _ w session)
            (Keeps-authorize_workspace_actor deps (StoredIn w) _ w session)
            (λ author. Traces-restore_from input w session author)))
