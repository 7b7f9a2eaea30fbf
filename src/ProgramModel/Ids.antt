-- ===== src/ProgramModel/Ids.antt =====
-- The identifiers of a program in the order in which the validator registers them.
use badgerbots_code_studio.Prelude.{ℕ, suc, String, List, [], ◌∷◌, ◌++◌, flat_map}
use badgerbots_code_studio.ProgramModel.Types.{
  MaterialExpressionNode, get_material_under_player, material_literal, BooleanExpressionNode,
  StatementNode, StatementNodes, explode, bounce, branch, color, speed, drop, nil, cons, EventNode,
  ScriptNode, Program,
}

abbrev pub material_id : MaterialExpressionNode → String
material_id (get_material_under_player id) = id
material_id (material_literal id) = id

abbrev pub boolean_ids : BooleanExpressionNode → List String
boolean_ids e = e.id ∷ material_id e.left ∷ material_id e.right ∷ []

unfoldable mutual
  pub statement_ids : StatementNode → List String
  statement_ids (explode id power) = id ∷ []
  statement_ids (bounce id velocity) = id ∷ []
  statement_ids (branch id condition body) = id ∷ (boolean_ids condition ++ statements_ids body)
  statement_ids (color id) = id ∷ []
  statement_ids (speed id multiplier) = id ∷ []
  statement_ids (drop id quantity) = id ∷ []

  pub statements_ids : StatementNodes → List String
  statements_ids nil = []
  statements_ids (cons s body) = statement_ids s ++ statements_ids body

unfoldable pub event_ids : EventNode → List String
event_ids e = e.id ∷ statements_ids e.body

abbrev pub events_ids : List EventNode → List String
events_ids = flat_map event_ids

unfoldable pub script_ids : ScriptNode → List String
script_ids s = s.id ∷ events_ids s.body

abbrev pub scripts_ids : List ScriptNode → List String
scripts_ids = flat_map script_ids

unfoldable pub program_ids : Program → List String
program_ids p = p.program_id ∷ scripts_ids p.scripts

-- The number of statements of an array.
abbrev pub body_length : StatementNodes → ℕ
body_length nil = 0
body_length (cons s body) = suc (body_length body)
