-- ===== src/ControlPlane/Step/Purge.antt =====
-- `purgeSession` of packages/control-plane/src/service.ts follows the step relation: the session that it
-- marks as deleted was queued for deletion.
use mathlib.Core.Path.{subst}
use badgerbots_code_studio.Prelude.{
  some_injective, ◌≡◌, refl, sym, ◌∙◌, ap, String, Bool, true, false, not, ◌||◌, List, [], ◌∷◌,
  some, eq_iff, arith,
}
use badgerbots_code_studio.ControlPlane.Store.{
  CampSession, Workspace, ProgramVersion, deletion_queued, find, change_first,
}
use badgerbots_code_studio.ControlPlane.Action.{
  Deps, Service, ServiceError, Action, throw_if, change_store, now, give, ◌>>=◌,
}
use badgerbots_code_studio.ControlPlane.Access.{
  require_session_instructor, has_id, refreshed, refresh_retention, require_session,
}
use badgerbots_code_studio.ControlPlane.Retention.{
  PurgeInput, mark_deleted, without_session, purge_session,
}
use badgerbots_code_studio.ControlPlane.Step.{core, onward, here, age, remove}
use badgerbots_code_studio.ControlPlane.Step.Aging.{
  is_state_eq, Ages-id, refreshed-Ages, mark_deleted-Ages, AllAge-change_first,
}
use badgerbots_code_studio.ControlPlane.Step.Kept.{Keeps, About, keeps_rules}
use badgerbots_code_studio.ControlPlane.Step.Found.{find-passes, Traces-find, Traces-bind_quiet}
use badgerbots_code_studio.ControlPlane.Step.Traces.{
  TracesFrom, Always, Traces, Traces-bind_then, trace_rules,
}
use badgerbots_code_studio.ControlPlane.Step.Refines.{Traces-require_session_instructor}

-- The session is the one of its identifier.
abbrev InTable : CampSession → List CampSession → List Workspace → List ProgramVersion → Type 0
InTable session sessions workspaces versions = find (has_id session.id) sessions ≡ some session

find-change_first :
    {A : Type 0} (test : A → Bool) (f : A → A) (xs : List A) (x : A)
    → find test xs ≡ some x
    → test (f x) ≡ true
    → find test (change_first test f xs) ≡ some (f x)
unfolding find change_first
find-change_first test f [] x found passes = ground arith
find-change_first test f (y ∷ xs) x found passes = ground (arith, find-change_first test f xs x)

find-has_id :
    (id : String) (session : CampSession) (ss : List CampSession)
    → find (has_id id) ss ≡ some session
    → find (has_id session.id) ss ≡ some session
find-has_id id session ss found =
    subst (λ i. find (has_id i) ss ≡ some session)
      (sym ((eq_iff session.id id).0 (find-passes (has_id id) ss session found))) found

find-refreshed :
    (f : CampSession → CampSession) (session : CampSession) (ss : List CampSession)
    → (f session).id ≡ session.id
    → find (has_id session.id) ss ≡ some session
    → find (has_id (f session).id) (change_first (has_id session.id) f ss) ≡ some (f session)
find-refreshed f session ss same found =
    find-has_id session.id (f session) _
      (find-change_first (has_id session.id) f ss session found ((eq_iff _ _).1 same))

module _ (deps : Deps) where
  Traces-require_session_then :
      {B : Type 0} (id : String) (k : CampSession → Action B)
      → ((session : CampSession) → TracesFrom deps (About (InTable session)) (k session))
      → Traces deps (require_session id >>= k)
  unfolding require_session
  Traces-require_session_then id k rest =
      Traces-find deps _ _ k
        (λ s session p found. record { holds = find-has_id id session s.store.sessions found }) rest

  Traces-refresh_then :
      {B : Type 0} (session : CampSession) (k : CampSession → Action B)
      → ((session' : CampSession) → TracesFrom deps (About (InTable session')) (k session'))
      → TracesFrom deps
          (About (InTable session))
          (refresh_retention deps (has_id session.id) session >>= k)
  unfolding refresh_retention ◌>>=◌ now change_store give
  Traces-refresh_then session k rest = record {
    at = λ s h.
        onward (age (core s) _ (AllAge-change_first _ _ _ (λ x found. refreshed-Ages _ _ x))) (
          (rest _).at _ (record {
            holds =
                find-refreshed (refreshed deps.recovery_days (deps.clock s.readings).date) session
                  s.store.sessions (Ages-id (refreshed-Ages _ _ session)) h.holds;
          }));
  }

  -- The rest behind a guard may use that it let the call pass.
  Traces-throw_if_then :
      {B : Type 0} {P : Service → Type 0} (test : Bool) (e : ServiceError) (k : Unit → Action B)
      → (test ≡ false → TracesFrom deps P (k tt))
      → TracesFrom deps P (throw_if test e >>= k)
  unfolding ◌>>=◌ throw_if
  Traces-throw_if_then true e k h = record { at = λ s p. here }
  Traces-throw_if_then false e k h = record { at = λ s p. (h refl).at s p }

  Traces-without_session :
      (session : CampSession)
      → TracesFrom deps
          (About (InTable session))
          (change_store (λ st. without_session session.id st))
  unfolding change_store without_session
  Traces-without_session session = record { at = λ s h. onward (remove (core s) session.id) here }

  Keeps-without_session :
      (session : CampSession)
      → Keeps (About (InTable session)) (change_store (λ st. without_session session.id st))
  unfolding change_store without_session
  Keeps-without_session session = record { at = λ s h. record { holds = h.holds } }

  Traces-mark_deleted :
      (session : CampSession)
      → session.retention_state ≡ deletion_queued
      → TracesFrom deps (About (InTable session)) (
          change_store (λ st. record st {
            sessions = change_first (has_id session.id) mark_deleted st.sessions;
          }))
  unfolding change_store
  Traces-mark_deleted session queued = record {
    at = λ s h.
        onward
          (age (core s) _ (
            AllAge-change_first _ _ _ (λ x found.
              mark_deleted-Ages x
                (ap (λ y. y.retention_state) (some_injective (sym found ∙ h.holds)) ∙ queued))))
          here;
  }

  guard_lem : (a b : Bool) → (not a || not b) ≡ false → a ≡ true
  guard_lem a b h = ground arith

  Keeps-require_session_instructor :
      {P : Service → Type 0} (session : CampSession) (instructor : String) (owner_only : Bool)
      → Keeps P (require_session_instructor session instructor owner_only)
  unfolding require_session_instructor
  Keeps-require_session_instructor session instructor owner_only = search keeps_rules

  pub Traces-purge_session : (input : PurgeInput) → Traces deps (purge_session deps input)
  unfolding purge_session
  Traces-purge_session input = Traces-require_session_then _ _ (λ found.
      Traces-bind_quiet deps _ _ (Traces-require_session_instructor deps found _ _)
        (Keeps-require_session_instructor found _ _)
        (λ _. Traces-refresh_then found _ (λ session. Traces-throw_if_then _ _ _ (λ passed.
          Traces-bind_then deps _ _ (Traces-without_session session)
            (Keeps-without_session session).at
            (λ _.
              Traces-bind_then deps {Q = Always} _ _
                (Traces-mark_deleted session (is_state_eq _ _ (guard_lem _ _ passed))) (λ s h. tt)
                (λ _. search trace_rules))))))
