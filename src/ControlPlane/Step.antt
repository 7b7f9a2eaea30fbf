-- ===== src/ControlPlane/Step.antt =====
-- The abstract specification of packages/control-plane/src/service.ts: what its methods may do to the
-- sessions, the workspaces, the program versions and the two logs, as a step relation.
pub mod Aging
pub mod Kept
pub mod Traces
pub mod Refines
pub mod Found
pub mod Writes
pub mod Purge
pub mod Methods
pub mod Calls
pub mod Life
pub mod Safe
pub mod History
pub mod Unique
pub mod Linear
pub mod Sessions
use badgerbots_code_studio.Prelude.{
  ℕ, ◌+◌, ◌≡◌, ◌⊎◌, String, Bool, true, not, List, [], ◌∷◌, ◌++◌, Option, none, some, str_eq, has,
}
use badgerbots_code_studio.ProgramModel.Types.{Program}
use badgerbots_code_studio.ProgramModel.WellFormed.{IsWellFormed}
use badgerbots_code_studio.ProgramModel.Starter.{sheep_city_starter_program}
use badgerbots_code_studio.ControlPlane.Dates.{Date}
use badgerbots_code_studio.ControlPlane.Store.{
  SessionRetentionState, scheduled, active, hidden_recoverable, deletion_queued, deleted,
  CampSession, Workspace, ProgramVersion, AuditRecord, RealtimeHint, find, change_first, keep,
}
use badgerbots_code_studio.ControlPlane.Action.{Deps, Service}
use badgerbots_code_studio.ControlPlane.Programs.{is_workspace, advanced}
use badgerbots_code_studio.ControlPlane.Retention.{workspace_ids}

-- The part of the service that the relation speaks of.
pub record Core : Type 0 where
  pub sessions : List CampSession
  pub workspaces : List Workspace
  pub versions : List ProgramVersion
  pub audits : List AuditRecord
  pub hints : List RealtimeHint
  pub sequence : ℕ
  pub issued : ℕ

abbrev pub core : Service → Core
core s = record {
  sessions = s.store.sessions;
  workspaces = s.store.workspaces;
  versions = s.store.versions;
  audits = s.store.audits;
  hints = s.store.realtime_hints;
  sequence = s.sequence;
  issued = s.issued;
}

-- The life of a session's data.
pub data IsNext : SessionRetentionState → SessionRetentionState → Type 0 where
  begins : IsNext scheduled active
  ends : IsNext active hidden_recoverable
  ends_unseen : IsNext scheduled hidden_recoverable
  expires : IsNext hidden_recoverable deletion_queued
  purged : IsNext deletion_queued deleted

pub data Becomes : SessionRetentionState → SessionRetentionState → Type 0 where
  stays : {a : SessionRetentionState} → Becomes a a
  goes_on : {a b c : SessionRetentionState} → IsNext a b → Becomes b c → Becomes a c

-- A session whose retention went on; only its state and the date of its deletion may differ.
pub record Ages (a b : CampSession) : Type 0 where
  pub rest :
      b ≡ record a { retention_state = b.retention_state; recoverable_until = b.recoverable_until }
  pub becomes : Becomes a.retention_state b.retention_state

-- The same sessions in the same order, each one aged.
pub data AllAge : List CampSession → List CampSession → Type 0 where
  none_left : AllAge [] []
  and_then :
      {a b : CampSession} {olds news : List CampSession}
      → Ages a b
      → AllAge olds news
      → AllAge (a ∷ olds) (b ∷ news)

-- A program that may be written: a well-formed one, or that of an earlier version.
abbrev pub IsSource : List ProgramVersion → Program → Type 0
IsSource versions p =
    IsWellFormed p
    ⊎ ((test : ProgramVersion → Bool) × (v : ProgramVersion) × (find test versions ≡ some v)
        × (p ≡ v.program))

abbrev pub IsFresh : SessionRetentionState → Type 0
IsFresh state = (state ≡ scheduled) ⊎ (state ≡ active)

pub data Step (deps : Deps) : Core → Core → Type 0 where
  issue : (c : Core) → Step deps c (record c { issued = c.issued + 1 })
  log : (c : Core) (a : AuditRecord) → Step deps c (record c { audits = c.audits ++ a ∷ [] })
  notify :
      (c : Core) (h : RealtimeHint)
      → h.sequence ≡ c.sequence + 1
      → Step deps c (record c { hints = c.hints ++ h ∷ []; sequence = c.sequence + 1 })
  age :
      (c : Core) (sessions : List CampSession)
      → AllAge c.sessions sessions
      → Step deps c (record c { sessions = sessions })
  open_session :
      (c : Core) (x : CampSession)
      → IsFresh x.retention_state
      → Step deps c (record c { sessions = c.sessions ++ x ∷ [] })
  open_workspace :
      (c : Core) (w : Workspace)
      → w.id ≡ deps.ids "wrk" c.issued
      → w.revision ≡ 0
      → w.current_program ≡ sheep_city_starter_program
      → Step deps c (record c { workspaces = c.workspaces ++ w ∷ []; issued = c.issued + 1 })
  write :
      (c : Core) (w : Workspace) (p : Program) (v : ProgramVersion)
      → find (is_workspace w.id) c.workspaces ≡ some w
      → IsSource c.versions p
      → v.workspace_id ≡ w.id
      → v.revision ≡ w.revision + 1
      → v.program ≡ p
      → Step deps c (record c {
        workspaces = change_first (is_workspace w.id) (advanced p) c.workspaces;
        versions = c.versions ++ v ∷ [];
        issued = c.issued + 1;
      })
  remove :
      (c : Core) (id : String)
      → Step deps c (record c {
        versions =
            keep
              (λ (v : ProgramVersion). not (has (workspace_ids id c.workspaces) v.workspace_id))
              c.versions;
        workspaces = keep (λ (w : Workspace). not (str_eq w.session_id id)) c.workspaces;
      })

pub data Reaches (deps : Deps) : Core → Core → Type 0 where
  here : {c : Core} → Reaches deps c c
  onward : {a b c : Core} → Step deps a b → Reaches deps b c → Reaches deps a c

pub then_reaches :
    (deps : Deps) {a b c : Core} → Reaches deps a b → Reaches deps b c → Reaches deps a c
then_reaches deps here q = q
then_reaches deps (onward s p) q = onward s (then_reaches deps p q)
