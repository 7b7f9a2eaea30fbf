-- ===== src/ControlPlane/Purged.antt =====
-- `purgeSession` of packages/control-plane/src/service.ts: when it returns, and what it leaves.
use mathlib.Core.Path.{subst}
use badgerbots_code_studio.Prelude.{
  ◌≡◌, refl, sym, ◌∙◌, ap, String, Bool, true, false, not, ◌||◌, List, Option, some, arith, ok,
  str_eq, eq_iff,
}
use badgerbots_code_studio.ControlPlane.Store.{
  StoreState, SessionRetentionState, CampSession, ActorKind, AuditAction, deletion_queued, deleted,
  instructor_actor, retention_change, find, change_first,
}
use badgerbots_code_studio.ControlPlane.Action.{
  Deps, Service, forbidden, not_found, read, some_or_throw, throw_if, change_store, give, now,
  next_id, ◌>>=◌, ◌>>◌,
}
use badgerbots_code_studio.ControlPlane.Access.{
  is_state, has_id, refreshed, refresh_retention, require_session, require_session_instructor,
  is_session_instructor, audit,
}
use badgerbots_code_studio.ControlPlane.Step.Aging.{Ages-id, refreshed-Ages}
use badgerbots_code_studio.ControlPlane.Step.Found.{find-passes}
use badgerbots_code_studio.ControlPlane.Retention.{
  PurgeInput, without_session, mark_deleted, purge_session,
}
use badgerbots_code_studio.ControlPlane.Ensures.{
  Ensures, Ensures-bind, Ensures-throw_if, Ensures-find, ok_injective, Ensures-after,
  Ensures-before, Ensures-fact, bind-returns, find-returns, throw_if-returns,
}
use badgerbots_code_studio.ControlPlane.Erased.{Same, IsErased, Ensures-without_session}

-- What a purge that returns says of its input and of the session.
pub record Purged (input : PurgeInput) (sessions : List CampSession) (st : StoreState) (s : Service)
    : Type 0 where
  pub session : CampSession
  pub stored : find (has_id input.session_id) sessions ≡ some session
  pub owned : session.owner_instructor_id ≡ input.actor_instructor_id
  pub confirmed : input.final_backup_deleted ≡ true
  pub erased : IsErased input.session_id st s

owner_lem : (a b : String) → not (str_eq a b || false) ≡ false → a ≡ b
owner_lem a b h = ground (arith, h, eq_iff a b)

confirmed_lem : (a b : Bool) → (not a || not b) ≡ false → b ≡ true
confirmed_lem a b h = ground (arith, h)

Ensures-owner :
    {P : Service → Type 0} (session : CampSession) (instructor : String)
    → Ensures P
        (require_session_instructor session instructor true)
        (λ _ s. P s × (session.owner_instructor_id ≡ instructor))
unfolding require_session_instructor is_session_instructor
Ensures-owner session instructor =
    Ensures-after _ (Ensures-throw_if _ forbidden) (λ a s q. (q.0, owner_lem _ _ q.1))

module _ (deps : Deps) (st : StoreState) where
  Ensures-refresh :
      (test : CampSession → Bool) (session : CampSession)
      → Ensures
          (Same st)
          (refresh_retention deps test session)
          (λ session' s. Same st s × (session'.id ≡ session.id))
  unfolding refresh_retention ◌>>=◌ now change_store give
  Ensures-refresh test session = record {
    at = λ s p a h. (
      record {
        workspaces = p.workspaces;
        versions = p.versions;
        campers = p.campers;
        progress_records = p.progress_records;
        help_requests = p.help_requests;
      },
      ap (λ (x : CampSession). x.id) (sym (ok_injective h))
          ∙ (Ages-id (refreshed-Ages deps.recovery_days (deps.clock s.readings).date session)),
    );
  }

  module _ (id : String) where
    Ensures-sessions :
        (f : List CampSession → List CampSession)
        → Ensures
            (IsErased id st)
            (change_store (λ x. record x { sessions = f x.sessions }))
            (λ _ s. IsErased id st s)
    unfolding change_store
    Ensures-sessions f = record {
      at = λ s p a h. record {
        no_workspace = p.no_workspace;
        no_version = p.no_version;
        no_camper = p.no_camper;
        no_progress = p.no_progress;
        no_request = p.no_request;
      };
    }

    Ensures-audit :
        (organization : String) (session : Option String) (kind : ActorKind) (actor : Option String)
        (action : AuditAction) (target correlation : String)
        → Ensures
            (IsErased id st)
            (audit deps organization session kind actor action target correlation)
            (λ _ s. IsErased id st s)
    unfolding audit ◌>>=◌ next_id now change_store
    Ensures-audit organization session kind actor action target correlation = record {
      at = λ s p a h. record {
        no_workspace = p.no_workspace;
        no_version = p.no_version;
        no_camper = p.no_camper;
        no_progress = p.no_progress;
        no_request = p.no_request;
      };
    }

  Ensures-purge :
      (input : PurgeInput) (sessions : List CampSession)
      → Ensures
          (λ s. Same st s × (s.store.sessions ≡ sessions))
          (purge_session deps input)
          (λ _ s. Purged input sessions st s)
  unfolding purge_session require_session
  Ensures-purge input sessions =
      Ensures-bind _ _
        (Ensures-find (λ s. find (has_id input.session_id) s.store.sessions) not_found)
        (λ found.
          Ensures-before _ (λ s p. (p.0.0, ap (find (has_id input.session_id)) (sym p.0.1) ∙ p.1))
            (Ensures-fact _ _ (λ stored. Ensures-bind _ _ (Ensures-owner found _) (λ _.
              Ensures-fact _ _ (λ owned. Ensures-bind _ _ (Ensures-refresh _ found) (λ session.
                Ensures-fact _ _ (λ same. Ensures-bind _ _ (Ensures-throw_if _ forbidden) (λ _.
                  Ensures-fact _ _ (λ passed.
                    Ensures-bind _ _ (Ensures-without_session session.id st) (λ _.
                      Ensures-bind _ _ (Ensures-sessions session.id _) (λ _.
                        Ensures-after _ (Ensures-audit session.id _ _ _ _ _ _ _) (λ a s erased.
                          record {
                            session = found;
                            stored = stored;
                            owned = owned;
                            confirmed = confirmed_lem _ _ passed;
                            erased =
                                subst (λ i. IsErased i st s)
                                  (same
                                    ∙ (eq_iff _ _).0 (
                                        find-passes (has_id input.session_id) sessions found
                                          stored))
                                  erased;
                          }))))))))))))

-- Where the purge of a session returns, its owner asked for it, the deletion of the final backup was
-- confirmed, and no workspace, version, camper, progress record or help request of the session is left.
pub purge_session-Purged :
    (deps : Deps) (input : PurgeInput) (s : Service)
    → (purge_session deps input s).0 ≡ ok tt
    → Purged input s.store.sessions s.store (purge_session deps input s).1
purge_session-Purged deps input s e =
    (Ensures-purge deps s.store input s.store.sessions).at s
      (
        record {
          workspaces = refl;
          versions = refl;
          campers = refl;
          progress_records = refl;
          help_requests = refl;
        },
        refl,
      )
      tt e

owner_passes : (a b : String) → a ≡ b → not (str_eq a b || false) ≡ false
owner_passes a b h = ground (arith, h, eq_iff a b)

confirmed_passes : (a b : Bool) → a ≡ true → b ≡ true → (not a || not b) ≡ false
confirmed_passes a b h k = ground (arith, h, k)

is_state_self : (a b : SessionRetentionState) → a ≡ b → is_state a b ≡ true
is_state_self a b h = ground (arith, h)

pub refresh-returns :
    (deps : Deps) (session : CampSession) (s : Service)
    → refresh_retention deps (has_id session.id) session s ≡ (
      ok (refreshed deps.recovery_days (deps.clock s.readings).date session),
      (refresh_retention deps (has_id session.id) session s).1,
    )
unfolding refresh_retention ◌>>=◌ now change_store give
refresh-returns deps session s = refl

ending-returns :
    (deps : Deps) (input : PurgeInput) (session : CampSession) (s : Service)
    → ((change_store (λ st. without_session session.id st)
          >> (change_store (λ st. record st {
            sessions = change_first (has_id session.id) mark_deleted st.sessions;
          })
              >> audit deps session.organization_id
                  (some session.id)
                  instructor_actor
                  (some input.actor_instructor_id)
                  (retention_change deleted)
                  session.id
                  input.correlation_id))
        s).0
      ≡ ok tt
unfolding ◌>>=◌ change_store audit next_id now
ending-returns deps input session s = refl

-- The owner's purge of a stored session returns, where the session is queued for deletion on that day
-- and the deletion of the final backup is confirmed.
pub purge_session_returns :
    (deps : Deps) (input : PurgeInput) (s : Service) (session : CampSession)
    → find (has_id input.session_id) s.store.sessions ≡ some session
    → session.owner_instructor_id ≡ input.actor_instructor_id
    → (refreshed deps.recovery_days (deps.clock s.readings).date session).retention_state
      ≡ deletion_queued
    → input.final_backup_deleted ≡ true
    → (purge_session deps input s).0 ≡ ok tt
unfolding purge_session require_session require_session_instructor is_session_instructor
purge_session_returns deps input s session stored owned due confirmed =
    let s' = (refresh_retention deps (has_id session.id) session s).1 in
    let session' = refreshed deps.recovery_days (deps.clock s.readings).date session in
    let guard =
      not (is_state session'.retention_state deletion_queued) || not input.final_backup_deleted in
    bind-returns
      (read (λ x. find (has_id input.session_id) x.store.sessions) >>= some_or_throw not_found) _ s
      s session tt
      (find-returns (λ x. find (has_id input.session_id) x.store.sessions) not_found s session
        stored)
      (bind-returns (require_session_instructor session input.actor_instructor_id true) _ s s tt tt
        (throw_if-returns _ forbidden s (owner_passes _ _ owned))
        (bind-returns (refresh_retention deps (has_id session.id) session) _ s s' session' tt
          (refresh-returns deps session s)
          (bind-returns (throw_if guard forbidden) _ s' s' tt tt
            (throw_if-returns guard forbidden s'
              (confirmed_passes _ _ (is_state_self _ _ due) confirmed))
            (ending-returns deps input session' s'))))
