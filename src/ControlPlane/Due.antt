-- ===== src/ControlPlane/Due.antt =====
-- `advanceRetention` of packages/control-plane/src/service.ts runs to its end, and queues the sessions
-- whose recovery is over.
use mathlib.Core.Path.{subst}
use mathlib.Core.List.{append_assoc}
use badgerbots_code_studio.Prelude.{
  ℕ, ◌+◌, ◌≡◌, refl, sym, ◌∙◌, ap, String, Bool, true, false, not, ◌&&◌, ◌⊎◌, inl, inr, List, [],
  ◌∷◌, ◌++◌, some, arith, if◌then◌else◌, Result, ok,
}
use badgerbots_code_studio.ControlPlane.Dates.{Date, ltb_date, day_of, add_days}
use badgerbots_code_studio.ControlPlane.Store.{
  SessionRetentionState, scheduled, active, hidden_recoverable, deletion_queued, deleted,
  CampSession,
}
use badgerbots_code_studio.ControlPlane.Action.{
  Deps, Service, ServiceError, Action, give, and_on, change, change_store, now, next_id, read,
  ◌>>=◌, ◌>>◌,
}
use badgerbots_code_studio.ControlPlane.Step.Aging.{Ages-id, refreshed-Ages}
use badgerbots_code_studio.ControlPlane.Step.Sessions.{Keeps-note_change}
use badgerbots_code_studio.ControlPlane.Retention.{
  log_retention, note_change, advance_sessions, advance_retention,
}
use badgerbots_code_studio.ControlPlane.Access.{
  audit, hint, is_state, opened, hidden, queued, is_past, refreshed,
}

-- On this day the session is over, and so is the time in which its data can be recovered.
pub record IsDue (recovery_days : ℕ) (today : Date) (s : CampSession) : Type 0 where
  pub ended : ltb_date s.ends_on today ≡ true
  pub recovered : s.retention_state ≡ hidden_recoverable → is_past today s.recoverable_until ≡ true
  pub expired : ltb_date (add_days (day_of s.ends_on) recovery_days) today ≡ true

abbrev pub IsGone : CampSession → Type 0
IsGone s = (s.retention_state ≡ deletion_queued) ⊎ (s.retention_state ≡ deleted)

if_not : {A : Type 0} (a b c : Bool) (x y : A) → c ≡ true → (if a && b && not c then x else y) ≡ y
if_not a b c x y h = ground (arith, h)

if_so : {A : Type 0} (a b : Bool) (x y : A) → a ≡ true → b ≡ true → (if a && b then x else y) ≡ x
if_so a b x y h k = ground (arith, h, k)

module _ (recovery_days : ℕ) (today : Date) where
  refreshed_by :
      (x y z : CampSession) (state : SessionRetentionState)
      → opened today x ≡ y
      → hidden recovery_days today y ≡ z
      → (queued today z).retention_state ≡ state
      → (refreshed recovery_days today x).retention_state ≡ state
  unfolding refreshed
  refreshed_by x y z state p q r =
      ap (λ u. (queued today (hidden recovery_days today u)).retention_state) p
      ∙ ap (λ u. (queued today u).retention_state) q
      ∙ r

  abbrev in_state : SessionRetentionState → CampSession → CampSession
  in_state state s = record s { retention_state = state }

  abbrev hidden_now : CampSession → CampSession
  hidden_now s = record s {
    retention_state = hidden_recoverable;
    recoverable_until = some (add_days (day_of s.ends_on) recovery_days);
  }

  -- In each state, a session that is due is queued, if it was not already.
  refreshed-IsGone_in :
      (state : SessionRetentionState) (s : CampSession)
      → IsDue recovery_days today (in_state state s)
      → IsGone (refreshed recovery_days today (in_state state s))
  refreshed-IsGone_in scheduled s h = inl (
      refreshed_by _ (in_state scheduled s) (hidden_now s) _
        (if_not true (not (ltb_date today s.starts_on)) _ (in_state active s) (in_state scheduled s)
          h.ended)
        (if_so _ _ _ _ refl h.ended)
        (ap (λ (u : CampSession). u.retention_state) (if_so _ _ _ _ refl h.expired)))
  refreshed-IsGone_in active s h = inl (
      refreshed_by _ (in_state active s) (hidden_now s) _ refl (if_so _ _ _ _ refl h.ended)
        (ap (λ (u : CampSession). u.retention_state) (if_so _ _ _ _ refl h.expired)))
  refreshed-IsGone_in hidden_recoverable s h = inl (
      refreshed_by _ (in_state hidden_recoverable s) (in_state hidden_recoverable s) _ refl refl
        (ap (λ (u : CampSession). u.retention_state) (if_so _ _ _ _ refl (h.recovered refl))))
  refreshed-IsGone_in deletion_queued s h =
      inl
        (refreshed_by _ (in_state deletion_queued s) (in_state deletion_queued s) _ refl refl refl)
  refreshed-IsGone_in deleted s h =
      inr (refreshed_by _ (in_state deleted s) (in_state deleted s) _ refl refl refl)

  refreshed-IsGone :
      (s : CampSession) → IsDue recovery_days today s → IsGone (refreshed recovery_days today s)
  refreshed-IsGone s = refreshed-IsGone_in s.retention_state s

-- The same sessions in the same order; one that is due whenever the clock is read is gone.
pub data AllLeave (deps : Deps) : List CampSession → List CampSession → Type 0 where
  no_session : AllLeave deps [] []
  next_session :
      {a b : CampSession} {olds news : List CampSession}
      → a.id ≡ b.id
      → (((n : ℕ) → IsDue deps.recovery_days (deps.clock n).date a) → IsGone b)
      → AllLeave deps olds news
      → AllLeave deps (a ∷ olds) (b ∷ news)

-- The loop returns, with a list of identifiers; the sessions are those of the rounds before and new ones.
record Finishes (deps : Deps) (done rest : List CampSession)
    (result : Result ServiceError (List String) × Service) : Type 0 where
  changed : List String
  returned : result.0 ≡ ok changed
  news : List CampSession
  sessions : result.1.store.sessions ≡ done ++ news
  leave : AllLeave deps rest news

module _ (deps : Deps) where
  note_change_returns :
      (same : Bool) (after : CampSession) (correlation : String) (changed : List String)
      (s : Service)
      → (ids : List String) × (((if same
              then give changed
              else (log_retention deps after correlation >> give (changed ++ after.id ∷ [])))
            s).0
          ≡ ok ids)
  unfolding give log_retention audit hint ◌>>=◌ next_id now change_store change
  note_change_returns true after correlation changed s = (changed, refl)
  note_change_returns false after correlation changed s = (changed ++ after.id ∷ [], refl)

  and_on-Finishes :
      {done rest : List CampSession} (r : Result ServiceError (List String))
      (f : List String → Action (List String)) (s : Service) (ids : List String)
      → r ≡ ok ids
      → Finishes deps done rest (f ids s)
      → Finishes deps done rest (and_on r f s)
  and_on-Finishes {done} {rest} r f s ids e h =
      subst (λ x. Finishes deps done rest (and_on x f s)) (sym e) h

  -- A round, and the rounds after it.
  round-Finishes :
      (done rest : List CampSession) (x : CampSession) (n : ℕ)
      (result : Result ServiceError (List String) × Service)
      → let x' = refreshed deps.recovery_days (deps.clock n).date x in
        Finishes deps (done ++ x' ∷ []) rest result → Finishes deps done (x ∷ rest) result
  round-Finishes done rest x n result h =
      let x' = refreshed deps.recovery_days (deps.clock n).date x in
      record {
        changed = h.changed;
        returned = h.returned;
        news = x' ∷ h.news;
        sessions = h.sessions ∙ append_assoc done (x' ∷ []) h.news;
        leave =
            next_session (sym (Ages-id (refreshed-Ages deps.recovery_days (deps.clock n).date x)))
              (λ due. refreshed-IsGone deps.recovery_days (deps.clock n).date x (due n)) h.leave;
      }

  advance_sessions-Finishes :
      (done rest : List CampSession) (correlation : String) (changed : List String) (s : Service)
      → s.store.sessions ≡ done ++ rest
      → Finishes deps done rest (advance_sessions deps done rest correlation changed s)
  unfolding advance_sessions give ◌>>=◌ now change_store note_change
  advance_sessions-Finishes done [] correlation changed s e = record {
    changed = changed;
    returned = refl;
    news = [];
    sessions = e;
    leave = no_session;
  }
  advance_sessions-Finishes done (x ∷ rest) correlation changed s e =
      let x' = refreshed deps.recovery_days (deps.clock s.readings).date x in
      let s' = record s {
        store = record s.store { sessions = done ++ x' ∷ rest };
        readings = s.readings + 1;
      } in
      let noted = note_change deps x x' correlation changed s' in
      let (ids, returned) =
        note_change_returns (is_state x'.retention_state x.retention_state) x' correlation changed
          s' in
      let same =
        (Keeps-note_change deps {Q = λ sessions workspaces versions. sessions ≡ done ++ x' ∷ rest} x
            x' correlation changed).at
          s' (record { holds = refl }) in
      and_on-Finishes noted.0 _ noted.1 ids returned (
        round-Finishes done rest x s.readings _ (
          advance_sessions-Finishes (done ++ x' ∷ []) rest correlation ids noted.1
            (same.holds ∙ sym (append_assoc done (x' ∷ []) rest))))

  -- The job always returns. Afterwards the same sessions are there in the same order, and each one whose
  -- recovery time is over, whenever the clock is read, is queued for deletion or deleted.
  pub advance_retention_returns :
      (correlation : String) (s : Service)
      → let result = advance_retention deps correlation s in
        (changed : List String) × (result.0 ≡ ok changed)
        × AllLeave deps s.store.sessions result.1.store.sessions
  unfolding advance_retention read ◌>>=◌
  advance_retention_returns correlation s =
      let h = advance_sessions-Finishes [] s.store.sessions correlation [] s refl in
      (h.changed, h.returned, subst (AllLeave deps s.store.sessions) (sym h.sessions) h.leave)
