-- ===== src/ProgramModel/Schema.antt =====
-- packages/program-model/src/schema.ts: what `ProgramV2Schema` still checks of a value that has the
-- type `Program`: the pattern of each identifier and that a quantity is a safe integer. A result of
-- the parser is the list of its issues, each one the path of the rejected value, in the order of the
-- schema's properties.
pub mod Shape
pub mod Legacy
use badgerbots_code_studio.Prelude.{
  ℕ, ◌+◌, ℤ, pos, negsuc, String, Bool, true, false, List, [], ◌∷◌, ◌++◌, ltb, leb,
}
use badgerbots_code_studio.ProgramModel.NodeId.{is_node_id}
use badgerbots_code_studio.ProgramModel.Types.{
  PathStep, key, index, MaterialExpressionNode, get_material_under_player, material_literal,
  BooleanExpressionNode, StatementNode, StatementNodes, explode, bounce, branch, color, speed, drop,
  nil, cons, EventNode, ScriptNode, Program,
}

abbrev pub Place : Type 0
Place = List PathStep

-- Number.MAX_SAFE_INTEGER
abbrev pub max_safe_integer : ℕ
max_safe_integer = 9007199254740991

unfoldable pub is_safe_integer : ℤ → Bool
is_safe_integer (pos n) = leb n max_safe_integer
is_safe_integer (negsuc n) = ltb n max_safe_integer

abbrev pub issue_unless : Bool → Place → List Place
issue_unless true at = []
issue_unless false at = at ∷ []

unfoldable pub id_issues : Place → String → List Place
id_issues at id = issue_unless (is_node_id id) (at ++ key "id" ∷ [])

unfoldable pub material_issues : Place → MaterialExpressionNode → List Place
unfolding id_issues
material_issues at (get_material_under_player id) = id_issues at id
material_issues at (material_literal id) = id_issues at id

unfoldable pub boolean_issues : Place → BooleanExpressionNode → List Place
unfolding id_issues material_issues
boolean_issues at e =
    id_issues at e.id
    ++ (material_issues (at ++ key "left" ∷ []) e.left
        ++ material_issues (at ++ key "right" ∷ []) e.right)

unfoldable mutual
  pub statement_issues : Place → StatementNode → List Place
  statement_issues at (explode id power) = id_issues at id
  statement_issues at (bounce id velocity) = id_issues at id
  statement_issues at (branch id condition body) =
      id_issues at id
      ++ (boolean_issues (at ++ key "condition" ∷ []) condition
          ++ statements_issues (at ++ key "then" ∷ []) 0 body)
  statement_issues at (color id) = id_issues at id
  statement_issues at (speed id multiplier) = id_issues at id
  statement_issues at (drop id quantity) =
      id_issues at id ++ issue_unless (is_safe_integer quantity) (at ++ key "quantity" ∷ [])

  pub statements_issues : Place → ℕ → StatementNodes → List Place
  statements_issues at i nil = []
  statements_issues at i (cons s body) =
      statement_issues (at ++ index i ∷ []) s ++ statements_issues at (i + 1) body

unfoldable pub event_issues : Place → EventNode → List Place
event_issues at e = id_issues at e.id ++ statements_issues (at ++ key "body" ∷ []) 0 e.body

unfoldable pub events_issues : Place → ℕ → List EventNode → List Place
events_issues at i [] = []
events_issues at i (e ∷ es) = event_issues (at ++ index i ∷ []) e ++ events_issues at (i + 1) es

unfoldable pub script_issues : Place → ScriptNode → List Place
script_issues at s = id_issues at s.id ++ events_issues (at ++ key "body" ∷ []) 0 s.body

unfoldable pub scripts_issues : Place → ℕ → List ScriptNode → List Place
scripts_issues at i [] = []
scripts_issues at i (s ∷ ss) = script_issues (at ++ index i ∷ []) s ++ scripts_issues at (i + 1) ss

-- `ProgramV2Schema.safeParse`: success is the empty list.
unfoldable pub program_issues : Program → List Place
program_issues p =
    issue_unless (is_node_id p.program_id) (key "programId" ∷ [])
    ++ scripts_issues (key "scripts" ∷ []) 0 p.scripts
