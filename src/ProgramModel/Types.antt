-- ===== src/ProgramModel/Types.antt =====
-- packages/program-model/src/types.ts: programs of schema version 2, those of the earlier versions,
-- and what the validator reports. A field whose type is one literal ("RED", "GOLD_INGOT",
-- "GOLD_BLOCK", "sheep-city", a schema version, a node type) holds no information and is left out.
use badgerbots_code_studio.Prelude.{ℕ, ℤ, Number, String, List, Option, Bool}

pub data ScriptKind : Type 0 where
  player game sheep : ScriptKind

pub data EventType : Type 0 where
  projectile_hit_event player_move_event sheep_spawn_event sheep_death_event : EventType

-- The `nodeType` of a statement.
pub data StatementType : Type 0 where
  explode_at_hit bounce_player if_then set_sheep_color set_sheep_speed drop_item : StatementType

pub data MaterialExpressionNode : Type 0 where
  get_material_under_player : String → MaterialExpressionNode
  material_literal : String → MaterialExpressionNode

-- The `equals` node, the only Boolean expression.
pub record BooleanExpressionNode : Type 0 where
  pub id : String
  pub left : MaterialExpressionNode
  pub right : MaterialExpressionNode

-- The first field of each statement is its `id`.
mutual
  pub data StatementNode : Type 0 where
    explode : String → Number → StatementNode
    bounce : String → Number → StatementNode
    branch : String → BooleanExpressionNode → StatementNodes → StatementNode
    color : String → StatementNode
    speed : String → Number → StatementNode
    drop : String → ℤ → StatementNode

  -- The array of statements.
  pub data StatementNodes : Type 0 where
    nil : StatementNodes
    cons : StatementNode → StatementNodes → StatementNodes

pub record EventNode : Type 0 where
  pub id : String
  pub node_type : EventType
  pub body : StatementNodes

-- `displayName` ("Player", "Game", "Sheep") is the script kind that it spells.
pub record ScriptNode : Type 0 where
  pub id : String
  pub script_kind : ScriptKind
  pub display_name : ScriptKind
  pub body : List EventNode

pub record Program : Type 0 where
  pub program_id : String
  pub scripts : List ScriptNode

mutual
  pub data LegacyStatement : Type 0 where
    legacy_explode : String → Number → LegacyStatement
    legacy_bounce : String → Number → LegacyStatement
    if_on_material : String → LegacyStatements → LegacyStatement
    legacy_color : String → LegacyStatement
    legacy_speed : String → Number → LegacyStatement
    legacy_drop : String → ℤ → LegacyStatement

  pub data LegacyStatements : Type 0 where
    legacy_nil : LegacyStatements
    legacy_cons : LegacyStatement → LegacyStatements → LegacyStatements

pub record LegacyEvent : Type 0 where
  pub id : String
  pub node_type : EventType
  pub body : LegacyStatements

pub record LegacyScript : Type 0 where
  pub id : String
  pub script_kind : ScriptKind
  pub display_name : ScriptKind
  pub body : List LegacyEvent

pub record ProgramV1 : Type 0 where
  pub program_id : String
  pub scripts : List LegacyScript

-- An area that is left out of a version 0 program is `none`.
pub record LegacyProgramV0 : Type 0 where
  pub id : String
  pub player_area : Option (List LegacyEvent)
  pub game_area : Option (List LegacyEvent)
  pub sheep_area : Option (List LegacyEvent)

pub data Severity : Type 0 where
  error warning : Severity

pub data DiagnosticCode : Type 0 where
  program_shape duplicate_node_id max_depth wrong_event_action explosion_limit : DiagnosticCode
  bounce_limit speed_limit drop_limit wrong_script_event duplicate_event : DiagnosticCode
  event_size_limit missing_script script_count program_size_limit : DiagnosticCode

-- A step into a value: a property or an index of an array.
pub data PathStep : Type 0 where
  key : String → PathStep
  index : ℕ → PathStep

-- The texts `message` and `suggestion` are left out.
pub record Diagnostic : Type 0 where
  pub code : DiagnosticCode
  pub severity : Severity
  pub node_id : Option String
  pub path : Option (List PathStep)

pub record ValidationResult : Type 0 where
  pub ok : Bool
  pub diagnostics : List Diagnostic
