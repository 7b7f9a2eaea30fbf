-- ===== src/ControlPlane/Step/Safe.antt =====
-- The programs that the service of packages/control-plane/src/service.ts stores, by induction on the
-- step relation.
use mathlib.Core.Path.{subst}
use badgerbots_code_studio.Prelude.{
  some_injective, ◌≡◌, refl, sym, List, [], ◌∷◌, ◌++◌, All, All-append, All-mono, arith, ◌*ℤ◌, inl,
  inr, Bool, true, false, Option, some, ok, if◌then◌else◌,
}
use badgerbots_code_studio.ProgramModel.Types.{Program}
use badgerbots_code_studio.ProgramModel.WellFormed.{IsWellFormed}
use badgerbots_code_studio.ProgramModel.Starter.{sheep_city_starter_program}
use badgerbots_code_studio.ProgramModel.NodeId.{is_node_id}
use badgerbots_code_studio.ProgramModel.Schema.{
  program_issues, is_safe_integer, id_issues, material_issues, boolean_issues, statements_issues,
  event_issues, events_issues, script_issues, scripts_issues,
}
use badgerbots_code_studio.ProgramModel.Validate.{
  validate_program, check_program, result_of, report, register, visit_material_expression,
  visit_boolean_expression, visit_head, visit_statements, visit_event, visit_events, visit_script,
  visit_scripts, report_missing, ScriptKind-discrete, EventType-discrete, StatementType-discrete,
}
use badgerbots_code_studio.ProgramModel.Validate.Scripts.{validate_program_iff}
use badgerbots_code_studio.RuntimeProtocol.InstructionGraph.{
  InstructionGraph, compile_instruction_graph,
}
use badgerbots_code_studio.RuntimeProtocol.InstructionGraph.Compile.{compile_iff}
use badgerbots_code_studio.ControlPlane.Store.{Workspace, ProgramVersion, find, change_first, keep}
use badgerbots_code_studio.ControlPlane.Action.{Deps, new_service}
use badgerbots_code_studio.ControlPlane.Operations.{Call, serve_all}
use badgerbots_code_studio.ControlPlane.Programs.{advanced}
use badgerbots_code_studio.ControlPlane.Step.{
  Core, IsSource, Step, issue, log, notify, age, open_session, open_workspace, write, remove,
  Reaches, here, onward,
}
use badgerbots_code_studio.ControlPlane.Step.Calls.{serve_all-Reaches}

module _ {A : Type 0} (P : A → Type 0) where
  All-find_if :
      (test : Bool) (y x : A) (rest : Option A)
      → (if test then some y else rest) ≡ some x
      → P y
      → (rest ≡ some x → P x)
      → P x
  All-find_if true y x rest e h k = subst P (some_injective e) h
  All-find_if false y x rest e h k = k e

  pub All-find : (test : A → Bool) (xs : List A) (x : A) → find test xs ≡ some x → All P xs → P x
  unfolding find
  All-find test [] x found h = ground (arith, found)
  All-find test (y ∷ xs) x found h =
      All-find_if (test y) y x (find test xs) found h.0 (λ e. All-find test xs x e h.1)

  All-if : (test : Bool) (xs ys : List A) → All P xs → All P ys → All P (if test then xs else ys)
  All-if true xs ys h k = h
  All-if false xs ys h k = k

  pub All-keep : (test : A → Bool) (xs : List A) → All P xs → All P (keep test xs)
  unfolding keep
  All-keep test [] h = h
  All-keep test (x ∷ xs) h =
      let rest = All-keep test xs h.1 in All-if (test x) (x ∷ keep test xs) _ (h.0, rest) rest

  pub All-change_first :
      (test : A → Bool) (f : A → A) (xs : List A)
      → ((x : A) → P x → P (f x))
      → All P xs
      → All P (change_first test f xs)
  unfolding change_first
  All-change_first test f [] k h = h
  All-change_first test f (x ∷ xs) k h =
      All-if (test x) (f x ∷ xs) (x ∷ change_first test f xs) (k x h.0, h.1)
        (h.0, All-change_first test f xs k h.1)

  pub All-snoc : (xs : List A) (x : A) → All P xs → P x → All P (xs ++ x ∷ [])
  All-snoc xs x h k = (All-append P xs (x ∷ [])).1 (h, (k, tt))

starter-IsWellFormed : IsWellFormed sheep_city_starter_program
unfolding validate_program program_issues is_node_id scripts_issues script_issues id_issues
    events_issues event_issues statements_issues boolean_issues is_safe_integer check_program report
    report_missing visit_scripts ScriptKind-discrete visit_script visit_events ◌*ℤ◌ material_issues
    EventType-discrete StatementType-discrete register result_of visit_boolean_expression
    visit_event visit_head visit_material_expression visit_statements
starter-IsWellFormed = (validate_program_iff sheep_city_starter_program).0 refl

abbrev pub WorkspaceFits : Workspace → Type 0
WorkspaceFits w = IsWellFormed w.current_program

abbrev pub VersionFits : ProgramVersion → Type 0
VersionFits v = IsWellFormed v.program

record HoldsFit (c : Core) : Type 0 where
  current : All WorkspaceFits c.workspaces
  written : All VersionFits c.versions

fits-IsSource :
    (vs : List ProgramVersion) (p : Program) → All VersionFits vs → IsSource vs p → IsWellFormed p
fits-IsSource vs p h (inl fits) = fits
fits-IsSource vs p h (inr (test, v, found, same)) =
    subst IsWellFormed (sym same) (All-find VersionFits test vs v found h)

HoldsFit-step : (deps : Deps) {c d : Core} → Step deps c d → HoldsFit c → HoldsFit d
HoldsFit-step deps (issue c) h = record { current = h.current; written = h.written }
HoldsFit-step deps (log c a) h = record { current = h.current; written = h.written }
HoldsFit-step deps (notify c x e) h = record { current = h.current; written = h.written }
HoldsFit-step deps (age c sessions p) h = record { current = h.current; written = h.written }
HoldsFit-step deps (open_session c x fresh) h = record { current = h.current; written = h.written }
HoldsFit-step deps (open_workspace c w e1 e2 e3) h = record {
  current =
      All-snoc WorkspaceFits c.workspaces w h.current
        (subst IsWellFormed (sym e3) starter-IsWellFormed);
  written = h.written;
}
HoldsFit-step deps (write c w p v found source e1 e2 e3) h =
    let fits = fits-IsSource c.versions p h.written source in
    record {
      current = All-change_first WorkspaceFits _ (advanced p) c.workspaces (λ x _. fits) h.current;
      written = All-snoc VersionFits c.versions v h.written (subst IsWellFormed (sym e3) fits);
    }
HoldsFit-step deps (remove c id) h = record {
  current = All-keep WorkspaceFits _ c.workspaces h.current;
  written = All-keep VersionFits _ c.versions h.written;
}

HoldsFit-Reaches : (deps : Deps) {c d : Core} → Reaches deps c d → HoldsFit c → HoldsFit d
HoldsFit-Reaches deps here h = h
HoldsFit-Reaches deps (onward s p) h = HoldsFit-Reaches deps p (HoldsFit-step deps s h)

-- Whatever is called on a new service, every current program and every stored version is well-formed.
pub stored_programs-IsWellFormed :
    (deps : Deps) (cs : List Call)
    → let s = serve_all deps cs new_service in
      All WorkspaceFits s.store.workspaces × All VersionFits s.store.versions
stored_programs-IsWellFormed deps cs =
    let h =
      HoldsFit-Reaches deps (serve_all-Reaches deps cs new_service)
        (record { current = tt; written = tt }) in
    (h.current, h.written)

abbrev pub Compiles : Workspace → Type 0
Compiles w = (g : InstructionGraph) × (compile_instruction_graph w.current_program ≡ ok g)

-- Whatever is called on a new service, the program of every workspace compiles to an instruction graph.
pub stored_programs_compile :
    (deps : Deps) (cs : List Call) → All Compiles (serve_all deps cs new_service).store.workspaces
stored_programs_compile deps cs =
    All-mono (λ w. (compile_iff w.current_program).1) _ (stored_programs-IsWellFormed deps cs).0
