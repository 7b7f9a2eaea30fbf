-- ===== src/ProgramModel/Validate.antt =====
-- packages/program-model/src/validate.ts, `validateProgram`. The local variables of the function are
-- the fields of `Validation`; a set is a list that is only asked for membership.
pub mod Visits
pub mod Statements
pub mod Scripts
use badgerbots_code_studio.Prelude.{
  ℕ, ◌+◌, pos, String, Bool, true, false, not, ◌&&◌, ◌||◌, List, [], ◌∷◌, ◌++◌, map, ltb, ltb_ℤ,
  ltb_number, whole, half, tenth, ◌==◌, if◌then◌else◌, some, none, has, length, includes, remove,
}
use badgerbots_code_studio.ProgramModel.Schema.{program_issues, Place}
use badgerbots_code_studio.ProgramModel.Ids.{material_id, body_length}
use badgerbots_code_studio.ProgramModel.Types.{
  ScriptKind, player, game, sheep, EventType, projectile_hit_event, player_move_event,
  sheep_spawn_event, sheep_death_event, StatementType, explode_at_hit, bounce_player, if_then,
  set_sheep_color, set_sheep_speed, drop_item, MaterialExpressionNode, BooleanExpressionNode,
  StatementNode, StatementNodes, explode, bounce, branch, color, speed, drop, nil, cons, EventNode,
  ScriptNode, Program, Severity, error, warning, Diagnostic, DiagnosticCode, ValidationResult,
}
use badgerbots_code_studio.ProgramModel.Types.{
  program_shape, duplicate_node_id, max_depth, wrong_event_action, explosion_limit, bounce_limit,
  speed_limit, drop_limit, wrong_script_event, duplicate_event, event_size_limit, missing_script,
  script_count, program_size_limit,
}

unfoldable pub ScriptKind-discrete : Discrete ScriptKind
ScriptKind-discrete = hlevel

unfoldable pub EventType-discrete : Discrete EventType
EventType-discrete = hlevel

unfoldable pub StatementType-discrete : Discrete StatementType
StatementType-discrete = hlevel

abbrev pub allowed_events : ScriptKind → List EventType
allowed_events player = projectile_hit_event ∷ player_move_event ∷ []
allowed_events game = []
allowed_events sheep = sheep_spawn_event ∷ sheep_death_event ∷ []

abbrev pub allowed_statements : EventType → List StatementType
allowed_statements projectile_hit_event = explode_at_hit ∷ []
allowed_statements player_move_event = if_then ∷ bounce_player ∷ []
allowed_statements sheep_spawn_event = set_sheep_color ∷ set_sheep_speed ∷ []
allowed_statements sheep_death_event = drop_item ∷ []

abbrev pub node_error : DiagnosticCode → String → Diagnostic
node_error code id = record { code = code; severity = error; node_id = some id; path = none }

abbrev pub program_error : DiagnosticCode → Diagnostic
program_error code = record { code = code; severity = error; node_id = none; path = none }

abbrev pub shape_error : Place → Diagnostic
shape_error at = record { code = program_shape; severity = error; node_id = none; path = some at }

pub record Validation : Type 0 where
  pub node_ids : List String
  pub node_count : ℕ
  pub diagnostics : List Diagnostic

-- `if (test) diagnostics.push(d)`
unfoldable pub report : Bool → Diagnostic → Validation → Validation
report test d v = if test then record v { diagnostics = v.diagnostics ++ d ∷ [] } else v

unfoldable pub register : String → Validation → Validation
register id v =
    let counted : Validation = record v { node_count = v.node_count + 1 } in
    let reported = report (has v.node_ids id) (node_error duplicate_node_id id) counted in
    record reported { node_ids = id ∷ reported.node_ids }

unfoldable pub visit_material_expression : MaterialExpressionNode → Validation → Validation
visit_material_expression e v = register (material_id e) v

unfoldable pub visit_boolean_expression : BooleanExpressionNode → Validation → Validation
visit_boolean_expression e v =
    visit_material_expression e.right (visit_material_expression e.left (register e.id v))

-- The first three steps of `visitStatement`, common to all types of statement.
unfoldable pub visit_head : EventType → ℕ → StatementType → String → Validation → Validation
visit_head event depth type id v =
    report (not (includes StatementType-discrete (allowed_statements event) type))
      (node_error wrong_event_action id)
      (report (ltb 8 depth) (node_error max_depth id) (register id v))

unfoldable mutual
  pub visit_statement : EventType → ℕ → StatementNode → Validation → Validation
  visit_statement event depth (explode id power) v =
      report (ltb_number power half || ltb_number (whole 4) power) (node_error explosion_limit id)
        (visit_head event depth explode_at_hit id v)
  visit_statement event depth (bounce id velocity) v =
      report (ltb_number velocity tenth || ltb_number (whole 3) velocity)
        (node_error bounce_limit id) (visit_head event depth bounce_player id v)
  visit_statement event depth (branch id condition body) v =
      visit_statements event (depth + 1) body
        (visit_boolean_expression condition (visit_head event depth if_then id v))
  visit_statement event depth (color id) v = visit_head event depth set_sheep_color id v
  visit_statement event depth (speed id multiplier) v =
      report (ltb_number multiplier tenth || ltb_number (whole 4) multiplier)
        (node_error speed_limit id) (visit_head event depth set_sheep_speed id v)
  visit_statement event depth (drop id quantity) v =
      report (ltb_ℤ quantity (pos 1) || ltb_ℤ (pos 16) quantity) (node_error drop_limit id)
        (visit_head event depth drop_item id v)

  pub visit_statements : EventType → ℕ → StatementNodes → Validation → Validation
  visit_statements event depth nil v = v
  visit_statements event depth (cons s body) v =
      visit_statements event depth body (visit_statement event depth s v)

-- The round of the inner loop of `validateProgram` for one event; `seen` is `seenEvents`.
unfoldable pub visit_event : ScriptKind → List EventType → EventNode → Validation → Validation
visit_event kind seen e v =
    let registered = register e.id v in
    let placed =
      report (not (includes EventType-discrete (allowed_events kind) e.node_type))
        (node_error wrong_script_event e.id) registered in
    let single =
      report (includes EventType-discrete seen e.node_type) (node_error duplicate_event e.id)
        placed in
    let sized = report (ltb 32 (body_length e.body)) (node_error event_size_limit e.id) single in
    visit_statements e.node_type 1 e.body sized

unfoldable pub visit_events : ScriptKind → List EventType → List EventNode → Validation → Validation
visit_events kind seen [] v = v
visit_events kind seen (e ∷ es) v =
    visit_events kind (e.node_type ∷ seen) es (visit_event kind seen e v)

unfoldable pub visit_script : ScriptNode → Validation → Validation
visit_script s v = visit_events s.script_kind [] s.body (register s.id v)

-- The outer loop, with `expectedScripts`.
unfoldable pub visit_scripts :
    List ScriptNode → List ScriptKind → Validation → List ScriptKind × Validation
visit_scripts [] expected v = (expected, v)
visit_scripts (s ∷ ss) expected v =
    visit_scripts ss (remove ScriptKind-discrete s.script_kind expected) (visit_script s v)

unfoldable pub report_missing : List ScriptKind → Validation → Validation
report_missing [] v = v
report_missing (kind ∷ missing) v =
    report_missing missing (report true (program_error missing_script) v)

unfoldable pub check_program : Program → Validation
check_program p =
    let start : Validation = record {
      node_ids = p.program_id ∷ [];
      node_count = 1;
      diagnostics = [];
    } in
    let (missing, visited) = visit_scripts p.scripts (player ∷ game ∷ sheep ∷ []) start in
    let counted =
      report (not (length p.scripts == 3)) (program_error script_count)
        (report_missing missing visited) in
    report (ltb 128 counted.node_count) (program_error program_size_limit) counted

abbrev pub is_error : Severity → Bool
is_error error = true
is_error warning = false

abbrev pub no_errors : List Diagnostic → Bool
no_errors [] = true
no_errors (d ∷ ds) = not (is_error d.severity) && no_errors ds

-- The result, for the issues that the schema finds.
unfoldable pub result_of : List Place → Program → ValidationResult
result_of [] p =
    let ds = (check_program p).diagnostics in record { ok = no_errors ds; diagnostics = ds }
result_of (issue ∷ issues) p = record {
  ok = false;
  diagnostics = shape_error issue ∷ map shape_error issues;
}

unfoldable pub validate_program : Program → ValidationResult
unfolding result_of
validate_program p = result_of (program_issues p) p
