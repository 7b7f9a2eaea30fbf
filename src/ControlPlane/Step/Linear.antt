-- ===== src/ControlPlane/Step/Linear.antt =====
-- Every workspace of packages/control-plane/src/service.ts has a linear history, by induction on the
-- step relation.
use mathlib.Core.Path.{subst}
use badgerbots_code_studio.Prelude.{
  ℕ, ◌+◌, ◌<◌, ◌≡◌, ◌≢◌, sym, ◌∙◌, ap, List, [], ◌∷◌, ◌++◌, All, All-mono, arith, some, String,
}
use badgerbots_code_studio.ProgramModel.Types.{Program}
use badgerbots_code_studio.ProgramModel.Starter.{sheep_city_starter_program}
use badgerbots_code_studio.ControlPlane.Store.{Workspace, ProgramVersion, find, change_first}
use badgerbots_code_studio.ControlPlane.Action.{Deps, new_service}
use badgerbots_code_studio.ControlPlane.Operations.{Call, serve_all}
use badgerbots_code_studio.ControlPlane.Programs.{is_workspace, advanced}
use badgerbots_code_studio.ControlPlane.Retention.{workspace_ids}
use badgerbots_code_studio.ControlPlane.Step.{
  Core, Step, issue, log, notify, age, open_session, open_workspace, write, remove, Reaches, here,
  onward,
}
use badgerbots_code_studio.ControlPlane.Step.Calls.{serve_all-Reaches}
use badgerbots_code_studio.ControlPlane.Step.Safe.{All-find, All-keep, All-snoc, All-change_first}
use badgerbots_code_studio.ControlPlane.Step.History.{
  replay, is_of, HasHistory, Unique, keep_none, All-both, str_ne, histories-write,
}
use badgerbots_code_studio.ControlPlane.Step.Unique.{
  Unique-snoc, Unique-change_first, Unique-keep, Spared, is_spared, Spared-keep, HasHistory-spared,
}

-- An identifier of the first `n` that were given out.
abbrev Issued : Deps → ℕ → String → Type 0
Issued deps n id = (k : ℕ) × (k < n) × (id ≡ deps.ids "wrk" k)

record IsLinear (deps : Deps) (c : Core) : Type 0 where
  histories : All (HasHistory c.versions) c.workspaces
  known : All (λ (w : Workspace). Issued deps c.issued w.id) c.workspaces
  owned : All (λ (v : ProgramVersion). Issued deps c.issued v.workspace_id) c.versions
  unique : Unique c.workspaces

module _ (deps : Deps) (distinct : (m n : ℕ) → deps.ids "wrk" m ≡ deps.ids "wrk" n → m ≡ n) where
  later : (n : ℕ) (id : String) → Issued deps n id → Issued deps (n + 1) id
  later n id (k, lt, e) = (k, omega (arith, lt), e)

  fresh : (n : ℕ) (id : String) → Issued deps n id → id ≢ deps.ids "wrk" n
  fresh n id (k, lt, e) same = omega (arith, lt, distinct k n (sym e ∙ same))

  IsLinear-issue : (c : Core) → IsLinear deps c → IsLinear deps (record c { issued = c.issued + 1 })
  IsLinear-issue c h = record {
    histories = h.histories;
    known = All-mono (λ w i. later c.issued w.id i) c.workspaces h.known;
    owned = All-mono (λ v i. later c.issued v.workspace_id i) c.versions h.owned;
    unique = h.unique;
  }

  IsLinear-open :
      (c : Core) (w : Workspace)
      → w.id ≡ deps.ids "wrk" c.issued
      → w.revision ≡ 0
      → w.current_program ≡ sheep_city_starter_program
      → IsLinear deps c
      → IsLinear deps (record c { workspaces = c.workspaces ++ w ∷ []; issued = c.issued + 1 })
  unfolding replay
  IsLinear-open c w id revision program h = record {
    histories = All-snoc (HasHistory c.versions) c.workspaces w h.histories (
        ap (replay (0, sheep_city_starter_program)) (
          keep_none (is_of w.id) c.versions (
            All-mono (λ v i. str_ne _ _ (λ e. fresh c.issued v.workspace_id i (e ∙ id))) c.versions
              h.owned))
        ∙ ap (λ n. some (n, sheep_city_starter_program)) (sym revision)
        ∙ ap (λ p. some (w.revision, p)) (sym program));
    known =
        All-snoc (λ (x : Workspace). Issued deps (c.issued + 1) x.id) c.workspaces w
          (All-mono (λ x i. later c.issued x.id i) c.workspaces h.known)
          (c.issued, omega arith, id);
    owned = All-mono (λ v i. later c.issued v.workspace_id i) c.versions h.owned;
    unique =
        Unique-snoc c.workspaces w h.unique
          (All-mono (λ x i e. fresh c.issued x.id i (e ∙ id)) c.workspaces h.known);
  }

  IsLinear-write :
      (c : Core) (w : Workspace) (p : Program) (v : ProgramVersion)
      → find (is_workspace w.id) c.workspaces ≡ some w
      → v.workspace_id ≡ w.id
      → v.revision ≡ w.revision + 1
      → v.program ≡ p
      → IsLinear deps c
      → IsLinear deps (record c {
        workspaces = change_first (is_workspace w.id) (advanced p) c.workspaces;
        versions = c.versions ++ v ∷ [];
        issued = c.issued + 1;
      })
  IsLinear-write c w p v found owner revision program h = record {
    histories =
        histories-write c.versions p v w c.workspaces owner revision program found h.unique
          h.histories;
    known =
        All-change_first (λ (x : Workspace). Issued deps (c.issued + 1) x.id) _ (advanced p)
          c.workspaces (λ x i. i) (All-mono (λ x i. later c.issued x.id i) c.workspaces h.known);
    owned =
        All-snoc (λ (x : ProgramVersion). Issued deps (c.issued + 1) x.workspace_id) c.versions v
          (All-mono (λ x i. later c.issued x.workspace_id i) c.versions h.owned)
          (subst (Issued deps (c.issued + 1)) (sym owner) (
            later c.issued w.id (
              All-find (λ (x : Workspace). Issued deps c.issued x.id) _ c.workspaces w found
                h.known)));
    unique = Unique-change_first _ p c.workspaces h.unique;
  }

  IsLinear-step : {c d : Core} → Step deps c d → IsLinear deps c → IsLinear deps d
  IsLinear-step (issue c) h = IsLinear-issue c h
  IsLinear-step (log c a) h = record {
    histories = h.histories;
    known = h.known;
    owned = h.owned;
    unique = h.unique;
  }
  IsLinear-step (notify c x e) h = record {
    histories = h.histories;
    known = h.known;
    owned = h.owned;
    unique = h.unique;
  }
  IsLinear-step (age c sessions p) h = record {
    histories = h.histories;
    known = h.known;
    owned = h.owned;
    unique = h.unique;
  }
  IsLinear-step (open_session c x new) h = record {
    histories = h.histories;
    known = h.known;
    owned = h.owned;
    unique = h.unique;
  }
  IsLinear-step (open_workspace c w id revision program) h = IsLinear-open c w id revision program h
  IsLinear-step (write c w p v found source owner revision program) h =
      IsLinear-write c w p v found owner revision program h
  IsLinear-step (remove c id) h = record {
    histories =
        All-mono
          (λ w both. HasHistory-spared (workspace_ids id c.workspaces) c.versions w both.0 both.1) _
          (All-both (Spared id c.workspaces) (HasHistory c.versions) _
            (Spared-keep id c.workspaces h.unique)
            (All-keep (HasHistory c.versions) (is_spared id) c.workspaces h.histories));
    known =
        All-keep (λ (w : Workspace). Issued deps c.issued w.id) (is_spared id) c.workspaces h.known;
    owned =
        All-keep (λ (v : ProgramVersion). Issued deps c.issued v.workspace_id) _ c.versions h.owned;
    unique = Unique-keep (is_spared id) c.workspaces h.unique;
  }

  IsLinear-Reaches : {c d : Core} → Reaches deps c d → IsLinear deps c → IsLinear deps d
  IsLinear-Reaches here h = h
  IsLinear-Reaches (onward s p) h = IsLinear-Reaches p (IsLinear-step s h)

-- Where no identifier is given to two workspaces, whatever is called on a new service, the versions of
-- each workspace, in the order of the table, have the revisions 1, 2, … up to the workspace's, and the
-- last one's program is the workspace's (the starter program, where there is none).
pub history_is_linear :
    (deps : Deps)
    → ((m n : ℕ) → deps.ids "wrk" m ≡ deps.ids "wrk" n → m ≡ n)
    → (cs : List Call)
    → let s = serve_all deps cs new_service in All (HasHistory s.store.versions) s.store.workspaces
history_is_linear deps distinct cs =
    (IsLinear-Reaches deps distinct (serve_all-Reaches deps cs new_service)
      (record { histories = tt; known = tt; owned = tt; unique = tt })).histories
