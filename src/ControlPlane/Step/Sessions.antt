-- ===== src/ControlPlane/Step/Sessions.antt =====
-- `createSession`, `advanceRetention` and `purgeSession` of packages/control-plane/src/service.ts follow
-- the step relation.
use mathlib.Core.List.{append_assoc}
use mathlib.Core.Path.{subst}
use badgerbots_code_studio.Prelude.{
  ℕ, ◌≡◌, refl, sym, String, Bool, true, false, List, [], ◌∷◌, ◌++◌, Option, none, some,
  if◌then◌else◌, inl, inr,
}
use badgerbots_code_studio.ControlPlane.Store.{
  CampSession, Workspace, ProgramVersion, scheduled, active,
}
use badgerbots_code_studio.ControlPlane.Action.{Deps, Service, read, change_store, ◌>>=◌}
use badgerbots_code_studio.ControlPlane.Organizations.{
  CreateSessionInput, next_join_code, found_code, create_session,
}
use badgerbots_code_studio.ControlPlane.Retention.{
  log_retention, note_change, advance_sessions, advance_retention,
}
use badgerbots_code_studio.ControlPlane.Step.{
  Ages, core, AllAge, here, onward, age, open_session, IsFresh,
}
use badgerbots_code_studio.ControlPlane.Step.Aging.{refreshed-Ages, AllAge-round}
use badgerbots_code_studio.ControlPlane.Step.Traces.{
  TracesFrom, Traces, Traces-bind_then, Traces-aside, Traces-now, Traces-give, Traces-from,
  trace_rules,
}
use badgerbots_code_studio.ControlPlane.Step.Refines.{method_rules}
use badgerbots_code_studio.ControlPlane.Step.Methods.{Traces-require_assistants}
use badgerbots_code_studio.ControlPlane.Step.Kept.{Keeps, About, Keeps-now, keeps_rules}

module _ (deps : Deps) where
  Traces-found_code : (found : Option (String × ℕ)) → Traces deps (found_code deps found)
  unfolding found_code
  Traces-found_code none = search trace_rules
  Traces-found_code (some (code, made)) = search (trace_rules, Traces-aside)

  Traces-next_join_code : Traces deps (next_join_code deps)
  unfolding next_join_code
  Traces-next_join_code = search (trace_rules, Traces-found_code)

  IsFresh-if : (later : Bool) → IsFresh (if later then scheduled else active)
  IsFresh-if true = inl refl
  IsFresh-if false = inr refl

  Traces-open_session :
      (session : CampSession)
      → IsFresh session.retention_state
      → Traces deps (change_store (λ st. record st { sessions = st.sessions ++ session ∷ [] }))
  unfolding change_store
  Traces-open_session session fresh = record {
    at = λ s p. onward (open_session (core s) session fresh) here;
  }

  pub Traces-create_session : (input : CreateSessionInput) → Traces deps (create_session deps input)
  unfolding create_session
  Traces-create_session input =
      search
        (
          trace_rules, method_rules, Traces-require_assistants, Traces-next_join_code,
          Traces-open_session, IsFresh-if,
        )
        depth 16

  Traces-log_retention :
      (session : CampSession) (correlation : String)
      → Traces deps (log_retention deps session correlation)
  unfolding log_retention
  Traces-log_retention session correlation = search trace_rules

  Traces-note_change :
      (before after : CampSession) (correlation : String) (changed : List String)
      → Traces deps (note_change deps before after correlation changed)
  unfolding note_change
  Traces-note_change before after correlation changed = search (trace_rules, Traces-log_retention)

  pub Keeps-note_change :
      {Q : List CampSession → List Workspace → List ProgramVersion → Type 0}
      (before after : CampSession) (correlation : String) (changed : List String)
      → Keeps (About Q) (note_change deps before after correlation changed)
  unfolding note_change log_retention
  Keeps-note_change before after correlation changed = search keeps_rules

  -- The table at the start of a round.
  abbrev AreSessions :
      List CampSession → List CampSession → List Workspace → List ProgramVersion → Type 0
  AreSessions ss sessions workspaces versions = sessions ≡ ss

  Traces-replace_session :
      (done : List CampSession) (s s' : CampSession) (rest : List CampSession)
      → Ages s s'
      → TracesFrom deps
          (About (AreSessions (done ++ s ∷ rest)))
          (change_store (λ st. record st { sessions = done ++ s' ∷ rest }))
  unfolding change_store
  Traces-replace_session done s s' rest h = record {
    at = λ c same.
        onward
          (age (core c) _ (
            subst (λ ss. AllAge ss (done ++ s' ∷ rest)) (sym same.holds)
              (AllAge-round done s s' rest h)))
          here;
  }

  Keeps-replace_session :
      (done : List CampSession) (s s' : CampSession) (rest : List CampSession) (c : Service)
      → About (AreSessions (done ++ s ∷ rest)) c
      → About
          (AreSessions ((done ++ s' ∷ []) ++ rest))
          (change_store (λ st. record st { sessions = done ++ s' ∷ rest }) c).1
  unfolding change_store
  Keeps-replace_session done s s' rest c same = record {
    holds = sym (append_assoc done (s' ∷ []) rest);
  }

  Traces-advance_sessions :
      (done rest : List CampSession) (correlation : String) (changed : List String)
      → TracesFrom deps
          (About (AreSessions (done ++ rest)))
          (advance_sessions deps done rest correlation changed)
  unfolding advance_sessions
  Traces-advance_sessions done [] correlation changed = Traces-give deps changed
  Traces-advance_sessions done (s ∷ rest) correlation changed =
      Traces-bind_then deps _ _ (Traces-now deps) (Keeps-now deps).at (λ today.
        Traces-bind_then deps _ _ (Traces-replace_session done s _ rest (refreshed-Ages _ _ s))
          (Keeps-replace_session done s _ rest)
          (λ _.
            Traces-bind_then deps _ _
              (Traces-from deps _ (Traces-note_change s _ correlation changed))
              (Keeps-note_change s _ correlation changed).at
              (λ changed'. Traces-advance_sessions (done ++ _ ∷ []) rest correlation changed')))

  pub Traces-advance_retention :
      (correlation : String) → Traces deps (advance_retention deps correlation)
  unfolding advance_retention read ◌>>=◌
  Traces-advance_retention correlation = record {
    at = λ s p.
        (Traces-advance_sessions [] s.store.sessions correlation []).at s (record { holds = refl });
  }
