-- ===== src/Tests/Sessions.antt =====
-- The theorems on single methods of packages/control-plane/src/service.ts, at a service with one session.
use badgerbots_code_studio.Prelude.{
  some, inr, ◌⊎◌, err, ℕ, suc, ◌+◌, ◌≤◌, ◌<◌, ◌≡◌, ◌↔◌, refl, String, true, false, List, [], ◌∷◌,
  none, arith, ok, lookup,
}
use badgerbots_code_studio.ProgramModel.Starter.{
  sheep_city_completed_example, sheep_city_starter_program,
}
use badgerbots_code_studio.ProgramModel.Migrate.{version_2}
use badgerbots_code_studio.ControlPlane.Store.{
  Workspace, ProgramVersion, CampSession, ProgramAuthor, instructor_author, scheduled,
  deletion_queued, find, change_first, empty_store,
}
use badgerbots_code_studio.ControlPlane.Action.{
  Service, ServiceError, new_service, ◌>>=◌, read, some_or_throw, give, throw_if, now, change_store,
}
use badgerbots_code_studio.ControlPlane.Access.{
  authorize_workspace_actor, refreshed, instructor_credentials, require_workspace, require_session,
  require_active_session, refresh_retention, authorize_actor, require_session_instructor, is_open,
  is_session_instructor, has_id,
}
use badgerbots_code_studio.ControlPlane.Organizations.{next_join_code, is_code_taken}
use badgerbots_code_studio.ControlPlane.Campers.{attempt_allowed, block_time}
use badgerbots_code_studio.ControlPlane.Conditions.{IsUpTo, Runs}
use badgerbots_code_studio.ControlPlane.Authorized.{May, authorize_workspace_actor_iff}
use badgerbots_code_studio.ControlPlane.Codes.{code_digest, next_join_code-finds}
use badgerbots_code_studio.ControlPlane.Retention.{advance_retention, purge_session, PurgeInput}
use badgerbots_code_studio.ControlPlane.Purged.{Purged, purge_session-Purged, purge_session_returns}
use badgerbots_code_studio.ControlPlane.Purgeable.{IsDue, purge_session_returns_iff}
use badgerbots_code_studio.ControlPlane.Due.{AllLeave, advance_retention_returns}
use badgerbots_code_studio.ControlPlane.Programs.{SaveInput, saved, save_program, save_new}
use badgerbots_code_studio.ControlPlane.Denied.{IsDenial}
use badgerbots_code_studio.ControlPlane.Retry.{save_again_returns}
use badgerbots_code_studio.ControlPlane.Limits.{fail_all, attempt_refused_iff}
use badgerbots_code_studio.Tests.ControlPlane.{tally, tally-injective, monday, camp}

abbrev hall_session : CampSession
hall_session = record {
  id = "ses";
  organization_id = "org";
  location_id = "loc";
  owner_instructor_id = "ann";
  assistant_instructor_ids = [];
  track_id = "sheep-city";
  starts_on = monday;
  ends_on = monday;
  join_code_digest = tally 1;
  retention_state = scheduled;
  recoverable_until = none;
}

abbrev hall_workspace : Workspace
hall_workspace = record {
  id = "wrk";
  organization_id = "org";
  session_id = "ses";
  camper_id = "bo";
  revision = 0;
  current_program = sheep_city_completed_example;
}

abbrev ann : ProgramAuthor
ann = instructor_author "ann"

monday_itself : IsUpTo monday monday
monday_itself = inr (refl, inr (refl, omega arith))

authorize_workspace_actor_iff_example :
    ((authorize_workspace_actor camp
        (instructor_credentials "ann")
        hall_workspace
        hall_session
        new_service).0
      ≡ ok ann)
    ↔ (Runs hall_session monday monday
        × May camp (instructor_credentials "ann") hall_workspace hall_session [] ann)
authorize_workspace_actor_iff_example =
    authorize_workspace_actor_iff camp (instructor_credentials "ann") hall_workspace hall_session
      new_service ann

abbrev open_hall : Service
open_hall = record new_service { store = record empty_store { sessions = hall_session ∷ [] } }

codes_differ :
    (i j : ℕ) → i < 1 + 1 → j < 1 + 1 → code_digest camp (0 + i) ≡ code_digest camp (0 + j) → i ≡ j
codes_differ i j lt lt' e = omega (arith, tally-injective (suc (0 + i)) (suc (0 + j)) e)

next_join_code-finds_example :
    (code : String) × (made : ℕ) × (next_join_code camp open_hall
      ≡ (ok code, record open_hall { codes_made = made }))
    × (is_code_taken camp open_hall.store.sessions code ≡ false)
next_join_code-finds_example = next_join_code-finds camp open_hall codes_differ

attempt_refused_iff_example :
    (attempt_allowed "key" 900000 (fail_all "key" (100 ∷ 200 ∷ 300 ∷ 400 ∷ 500 ∷ []) []) ≡ none)
    ↔ ((5 ≤ 1 + 4) × (900000 < 500 + block_time))
unfolding lookup
attempt_refused_iff_example =
    attempt_refused_iff "key" 100 (200 ∷ 300 ∷ 400 ∷ 500 ∷ []) [] 900000 refl
      (omega arith, (omega arith, (omega arith, (omega arith, tt))))

-- A session that ended long before.
abbrev old_hall : Service
old_hall = record new_service {
  store = record empty_store {
    sessions =
        record hall_session {
          starts_on = record monday { year = 2025 };
          ends_on = record monday { year = 2025 };
        }
        ∷ [];
  };
}

advance_retention_returns_example :
    let result = advance_retention camp "c5" old_hall in
    (changed : List String) × (result.0 ≡ ok changed)
    × AllLeave camp old_hall.store.sessions result.1.store.sessions
advance_retention_returns_example = advance_retention_returns camp "c5" old_hall

abbrev queued_hall : Service
queued_hall = record new_service {
  store = record empty_store {
    sessions = record hall_session { retention_state = deletion_queued } ∷ [];
    workspaces = record hall_workspace { session_id = "ses" } ∷ [];
  };
}

abbrev purge : PurgeInput
purge = record {
  actor_instructor_id = "ann";
  session_id = "ses";
  final_backup_deleted = true;
  correlation_id = "c6";
}

hall_purge_returns : (purge_session camp purge queued_hall).0 ≡ ok tt
unfolding find refreshed
hall_purge_returns =
    purge_session_returns camp purge queued_hall
      (record hall_session { retention_state = deletion_queued }) refl refl refl refl

purge_session_returns_iff_example : ((purge_session camp purge queued_hall).0 ≡ ok tt) ↔ (
    (session : CampSession) × (find (has_id "ses") queued_hall.store.sessions ≡ some session)
    × (session.owner_instructor_id ≡ "ann")
    × (true ≡ true)
    × IsDue 10 monday session)
purge_session_returns_iff_example = purge_session_returns_iff camp purge queued_hall

purge_session-Purged_example :
    Purged purge queued_hall.store.sessions queued_hall.store
      (purge_session camp purge queued_hall).1
purge_session-Purged_example = purge_session-Purged camp purge queued_hall hall_purge_returns

-- The owner has saved a version, and sends the same call again.
abbrev first_version : ProgramVersion
first_version = record {
  id = "ver";
  workspace_id = "wrk";
  revision = 1;
  program = sheep_city_completed_example;
  author = ann;
  client_mutation_id = "m1";
  created_at = record { date = monday; time = 0 };
  restored_from_version_id = none;
}

abbrev saved_hall : Service
saved_hall = record new_service {
  store = record empty_store {
    sessions = hall_session ∷ [];
    workspaces = record hall_workspace { revision = 1 } ∷ [];
    versions = first_version ∷ [];
  };
}

abbrev same_save : SaveInput
same_save = record {
  actor = instructor_credentials "ann";
  workspace_id = "wrk";
  base_revision = 0;
  program = version_2 sheep_city_completed_example;
  client_mutation_id = "m1";
  correlation_id = "c7";
}

same_save_returns : (save_program camp same_save saved_hall).0 ≡ ok (saved first_version)
unfolding save_program require_workspace require_session find authorize_workspace_actor ◌>>=◌
    require_active_session refresh_retention authorize_actor require_session_instructor is_open
    refreshed is_session_instructor read some_or_throw give throw_if now change_store change_first
    save_new
same_save_returns = refl

-- The same call, based on a later revision.
abbrev late_save : SaveInput
late_save = record same_save { base_revision = 7; program = version_2 sheep_city_starter_program }

save_again_returns_example :
    let s1 = (save_program camp same_save saved_hall).1 in
    let (result, s2) = save_program camp late_save s1 in
    (first_version.workspace_id ≡ same_save.workspace_id)
    × (first_version.client_mutation_id ≡ same_save.client_mutation_id)
    × (first_version.author ≡ ann)
    × ((result ≡ ok (saved first_version)) ⊎ ((e : ServiceError) × (result ≡ err e) × IsDenial e))
    × (s2.store.workspaces ≡ s1.store.workspaces)
    × (s2.store.versions ≡ s1.store.versions)
save_again_returns_example =
    save_again_returns camp same_save late_save saved_hall first_version refl refl refl
      same_save_returns
