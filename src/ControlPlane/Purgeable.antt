-- ===== src/ControlPlane/Purgeable.antt =====
-- When `purgeSession` of packages/control-plane/src/service.ts returns.
use mathlib.Core.Bool.{false≢true}
use badgerbots_code_studio.Prelude.{
  ℕ, ◌<◌, ◌≡◌, ◌↔◌, ◌⊎◌, refl, inl, inr, ap, sym, ◌∙◌, Bool, true, false, not, ◌&&◌, ◌||◌, Option,
  none, some, some_injective, arith, Result, ok,
}
use badgerbots_code_studio.ControlPlane.Dates.{Date, ltb_date, add_days, day_of}
use badgerbots_code_studio.ControlPlane.Store.{
  CampSession, SessionRetentionState, scheduled, active, hidden_recoverable, deletion_queued, find,
}
use badgerbots_code_studio.ControlPlane.Action.{
  Deps, Service, ServiceError, Action, read, some_or_throw, not_found, throw_if, and_on, ◌>>=◌,
}
use badgerbots_code_studio.ControlPlane.Access.{
  is_state, is_past, refreshed, refresh_retention, has_id, require_session,
  require_session_instructor,
}
use badgerbots_code_studio.ControlPlane.Retention.{purge_session, PurgeInput}
use badgerbots_code_studio.ControlPlane.Ensures.{find-returns}
use badgerbots_code_studio.ControlPlane.Purged.{
  purge_session-Purged, refresh-returns, purge_session_returns,
}

-- The order of the days, by year, month and day.
abbrev pub IsBefore : Date → Date → Type 0
IsBefore a b =
    (a.year < b.year)
    ⊎ ((a.year ≡ b.year) × ((a.month < b.month) ⊎ ((a.month ≡ b.month) × (a.day < b.day))))

-- The session's data may be deleted: it is queued, or its recovery time is over.
abbrev pub IsDue : ℕ → Date → CampSession → Type 0
IsDue days today s =
    (s.retention_state ≡ deletion_queued)
    ⊎ (((s.retention_state ≡ hidden_recoverable)
          × ((d : Date) × (s.recoverable_until ≡ some d) × IsBefore d today))
        ⊎ (((s.retention_state ≡ scheduled) ⊎ (s.retention_state ≡ active))
            × (IsBefore s.ends_on today × IsBefore (add_days (day_of s.ends_on) days) today)))

IsBefore-iff : (a b : Date) → (ltb_date a b ≡ true) ↔ IsBefore a b
IsBefore-iff a b = (λ h. ground (arith, h), λ h. ground (arith, h))

queued_test : ℕ → Date → CampSession → Bool
queued_test days today s = is_state (refreshed days today s).retention_state deletion_queued

due_test : ℕ → Date → CampSession → Bool
due_test days today s =
    is_state s.retention_state deletion_queued
    || ((is_state s.retention_state hidden_recoverable && is_past today s.recoverable_until)
        || ((is_state s.retention_state scheduled || is_state s.retention_state active)
            && (ltb_date s.ends_on today && ltb_date (add_days (day_of s.ends_on) days) today)))

queued_due :
    (days : ℕ) (today : Date) (s : CampSession) → queued_test days today s ≡ due_test days today s
unfolding queued_test due_test refreshed
queued_due days today s = ground arith

is_past_iff :
    (today : Date) (o : Option Date)
    → (is_past today o ≡ true) ↔ ((d : Date) × (o ≡ some d) × IsBefore d today)
is_past_iff today none = (λ h. ground (arith, h), λ (d, e, h). ground (arith, e))
is_past_iff today (some x) = (
  λ h. (x, refl, (IsBefore-iff x today).0 h),
  λ (d, e, h). ap (λ y. ltb_date y today) (some_injective e) ∙ (IsBefore-iff d today).1 h,
)

module _ {A : Type 0} where
  plain_guard :
      (test : Bool) (e : ServiceError) (k : Action A) (s : Service) (a : A)
      → ((throw_if test e >>= λ _. k) s).0 ≡ ok a
      → (test ≡ false) × ((k s).0 ≡ ok a)
  unfolding ◌>>=◌ throw_if
  plain_guard true e k s a h = ground (arith, h)
  plain_guard false e k s a h = (refl, h)

is_state_iff : (a b : SessionRetentionState) → (is_state a b ≡ true) ↔ (a ≡ b)
is_state_iff a b = (λ h. ground (arith, h), λ h. ground (arith, h))

module _ {P Q : Type 0} where
  or_true_iff : (a b : Bool) → (a ≡ true) ↔ P → (b ≡ true) ↔ Q → ((a || b) ≡ true) ↔ (P ⊎ Q)
  or_true_iff true b p q = (λ h. inl (p.0 refl), λ h. refl)
  or_true_iff false b p q =
      (λ h. inr (q.0 h), λ h. elim h [ inl x ↦ absurd (false≢true (p.1 x)) | inr y ↦ q.1 y ])

  and_true_iff : (a b : Bool) → (a ≡ true) ↔ P → (b ≡ true) ↔ Q → ((a && b) ≡ true) ↔ (P × Q)
  and_true_iff true b p q = (λ h. (p.0 refl, q.0 h), λ (x, y). q.1 y)
  and_true_iff false b p q = (λ h. ground (arith, h), λ (x, y). absurd (false≢true (p.1 x)))

IsDue-iff :
    (days : ℕ) (today : Date) (s : CampSession)
    → (due_test days today s ≡ true) ↔ IsDue days today s
unfolding due_test
IsDue-iff days today s = or_true_iff _ _ (is_state_iff _ _) (
    or_true_iff _ _ (and_true_iff _ _ (is_state_iff _ _) (is_past_iff today s.recoverable_until)) (
      and_true_iff _ _
        (or_true_iff _ _ (is_state_iff s.retention_state scheduled)
          (is_state_iff s.retention_state active))
        (and_true_iff _ _ (IsBefore-iff s.ends_on today)
          (IsBefore-iff (add_days (day_of s.ends_on) days) today))))

queued-IsDue_iff :
    (days : ℕ) (today : Date) (s : CampSession)
    → ((refreshed days today s).retention_state ≡ deletion_queued) ↔ IsDue days today s
unfolding queued_test
queued-IsDue_iff days today s = (
  λ h. (IsDue-iff days today s).0 (sym (queued_due days today s) ∙ (is_state_iff _ _).1 h),
  λ h. (is_state_iff _ _).0 (queued_due days today s ∙ (IsDue-iff days today s).1 h),
)

bind-runs :
    {A B : Type 0} (m : Action A) (f : A → Action B) (s s' : Service) (a : A)
    → m s ≡ (ok a, s')
    → (m >>= f) s ≡ f a s'
unfolding ◌>>=◌
bind-runs {A} m f s s' a e = ap (λ (r : Result ServiceError A × Service). and_on r.0 f r.1) e

guards : (a b : Bool) → (not a || not b) ≡ false → a ≡ true
guards a b h = ground (arith, h)

purge_session-queued :
    (deps : Deps) (input : PurgeInput) (s : Service) (session : CampSession)
    → find (has_id input.session_id) s.store.sessions ≡ some session
    → (purge_session deps input s).0 ≡ ok tt
    → (refreshed deps.recovery_days (deps.clock s.readings).date session).retention_state
      ≡ deletion_queued
unfolding purge_session require_session require_session_instructor
purge_session-queued deps input s session stored h =
    let after_find =
      sym (
        ap (λ (r : Result ServiceError Unit × Service). r.0)
          (bind-runs
            (read (λ x. find (has_id input.session_id) x.store.sessions)
              >>= some_or_throw not_found)
            _ s s session
            (find-returns (λ x. find (has_id input.session_id) x.store.sessions) not_found s session
              stored)))
      ∙ h in
    let (owned, after_owner) = plain_guard _ _ _ s tt after_find in
    let after_refresh =
      sym (
        ap (λ (r : Result ServiceError Unit × Service). r.0)
          (bind-runs (refresh_retention deps (has_id session.id) session) _ s _ _
            (refresh-returns deps session s)))
      ∙ after_owner in
    (is_state_iff _ _).0 (guards _ _ (plain_guard _ _ _ _ tt after_refresh).0)

-- A purge returns exactly if the session is found, its owner asks for it, the deletion of the final
-- backup is confirmed, and on the day that the clock shows the session's data is queued for deletion or
-- its recovery time is over.
pub purge_session_returns_iff :
    (deps : Deps) (input : PurgeInput) (s : Service)
    → ((purge_session deps input s).0 ≡ ok tt) ↔ (
        (session : CampSession) × (find (has_id input.session_id) s.store.sessions ≡ some session)
        × (session.owner_instructor_id ≡ input.actor_instructor_id)
        × (input.final_backup_deleted ≡ true)
        × IsDue deps.recovery_days (deps.clock s.readings).date session)
purge_session_returns_iff deps input s = (
  λ h.
      let p = purge_session-Purged deps input s h in
      (
        p.session,
        p.stored,
        p.owned,
        p.confirmed,
        (queued-IsDue_iff _ _ p.session).0 (purge_session-queued deps input s p.session p.stored h),
      ),
  λ (session, stored, owned, confirmed, due).
      purge_session_returns deps input s session stored owned ((queued-IsDue_iff _ _ session).1 due)
        confirmed,
)
