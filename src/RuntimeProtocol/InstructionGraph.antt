-- ===== src/RuntimeProtocol/InstructionGraph.antt =====
-- packages/runtime-protocol/src/instruction-graph.ts: the graph that the runtime executes, and its
-- compilation from a program. The text of `serializeInstructionGraph` is not modelled.
pub mod Compile
pub mod ReadBack
use badgerbots_code_studio.Prelude.{
  ℕ, ℤ, Number, String, Bool, true, false, List, [], map, flat_map, Result, ok, err,
}
use badgerbots_code_studio.ProgramModel.Schema.{Place}
use badgerbots_code_studio.ProgramModel.Types.{
  EventType, projectile_hit_event, player_move_event, sheep_spawn_event, sheep_death_event,
  MaterialExpressionNode, get_material_under_player, material_literal, BooleanExpressionNode,
  StatementNode, StatementNodes, explode, bounce, branch, color, speed, drop, nil, cons, EventNode,
  ScriptNode, Program, Diagnostic, ValidationResult,
}
use badgerbots_code_studio.ProgramModel.Validate.{validate_program}
use badgerbots_code_studio.ProgramModel.Serialize.{normalize_program}

-- The first field of each is `sourceNodeId`.
pub data RuntimeMaterialExpression : Type 0 where
  read_material_under_player : String → RuntimeMaterialExpression
  material_constant : String → RuntimeMaterialExpression

pub record RuntimeBooleanExpression : Type 0 where
  pub source_node_id : String
  pub left : RuntimeMaterialExpression
  pub right : RuntimeMaterialExpression

mutual
  pub data RuntimeInstruction : Type 0 where
    explode_at_event_location : String → Number → RuntimeInstruction
    conditional : String → RuntimeBooleanExpression → RuntimeInstructions → RuntimeInstruction
    set_vertical_velocity : String → Number → RuntimeInstruction
    set_color : String → RuntimeInstruction
    set_speed_multiplier : String → Number → RuntimeInstruction
    drop_items : String → ℤ → RuntimeInstruction

  pub data RuntimeInstructions : Type 0 where
    done : RuntimeInstructions
    next : RuntimeInstruction → RuntimeInstructions → RuntimeInstructions

pub data RuntimeEvent : Type 0 where
  projectile_hit player_move sheep_spawn sheep_death : RuntimeEvent

pub record RuntimeHandler : Type 0 where
  pub source_node_id : String
  pub event : RuntimeEvent
  pub instructions : RuntimeInstructions

-- The versions and the project are kept, since the runtime tests them.
pub record InstructionGraph : Type 0 where
  pub graph_version : ℕ
  pub program_schema_version : ℕ
  pub program_id : String
  pub project_id : String
  pub handlers : List RuntimeHandler

abbrev pub compile_material_expression : MaterialExpressionNode → RuntimeMaterialExpression
compile_material_expression (get_material_under_player id) = read_material_under_player id
compile_material_expression (material_literal id) = material_constant id

abbrev pub compile_boolean_expression : BooleanExpressionNode → RuntimeBooleanExpression
compile_boolean_expression e = record {
  source_node_id = e.id;
  left = compile_material_expression e.left;
  right = compile_material_expression e.right;
}

unfoldable mutual
  pub compile_statement : StatementNode → RuntimeInstruction
  compile_statement (explode id power) = explode_at_event_location id power
  compile_statement (branch id condition body) =
      conditional id (compile_boolean_expression condition) (compile_statements body)
  compile_statement (bounce id velocity) = set_vertical_velocity id velocity
  compile_statement (color id) = set_color id
  compile_statement (speed id multiplier) = set_speed_multiplier id multiplier
  compile_statement (drop id quantity) = drop_items id quantity

  pub compile_statements : StatementNodes → RuntimeInstructions
  compile_statements nil = done
  compile_statements (cons s body) = next (compile_statement s) (compile_statements body)

abbrev pub event_name : EventType → RuntimeEvent
event_name projectile_hit_event = projectile_hit
event_name player_move_event = player_move
event_name sheep_spawn_event = sheep_spawn
event_name sheep_death_event = sheep_death

abbrev pub compile_event : EventNode → RuntimeHandler
compile_event e = record {
  source_node_id = e.id;
  event = event_name e.node_type;
  instructions = compile_statements e.body;
}

pub data CompileError : Type 0 where
  invalid_program : List Diagnostic → CompileError
  schema_error : List Place → CompileError

abbrev pub graph_of : Program → InstructionGraph
graph_of p = record {
  graph_version = 2;
  program_schema_version = 2;
  program_id = p.program_id;
  project_id = "sheep-city";
  handlers = flat_map (λ (s : ScriptNode). map compile_event s.body) p.scripts;
}

-- The graph of the canonical program, or what `normalizeProgram` throws.
abbrev pub compiled_of : Result (List Place) Program → Result CompileError InstructionGraph
compiled_of (ok canonical) = ok (graph_of canonical)
compiled_of (err issues) = err (schema_error issues)

abbrev pub compile_checked : ValidationResult → Program → Result CompileError InstructionGraph
compile_checked validation p = elim validation.ok [
  | true ↦ compiled_of (normalize_program p)
  | false ↦ err (invalid_program validation.diagnostics)
]

unfoldable pub compile_instruction_graph : Program → Result CompileError InstructionGraph
compile_instruction_graph p = compile_checked (validate_program p) p
