-- ===== src/ProgramModel/Serialize.antt =====
-- packages/program-model/src/serialize.ts: the canonical order of scripts and events. A copy made by
-- `structuredClone` is the value itself. The last step, the text of `JSON.stringify`, is not modelled.
pub mod Laws
pub mod Canonical
pub mod Order
use badgerbots_code_studio.Prelude.{ℕ, List, [], ◌∷◌, map, sort_by, Result, ok, err}
use badgerbots_code_studio.ProgramModel.Schema.{Place, program_issues}
use badgerbots_code_studio.ProgramModel.Types.{
  ScriptKind, player, game, sheep, EventType, projectile_hit_event, player_move_event,
  sheep_spawn_event, sheep_death_event, StatementNode, StatementNodes, explode, bounce, branch,
  color, speed, drop, nil, cons, EventNode, ScriptNode, Program,
}

abbrev pub script_order : ScriptKind → ℕ
script_order player = 0
script_order game = 1
script_order sheep = 2

abbrev pub event_order : EventType → ℕ
event_order projectile_hit_event = 0
event_order player_move_event = 1
event_order sheep_spawn_event = 2
event_order sheep_death_event = 3

unfoldable mutual
  pub normalize_statement : StatementNode → StatementNode
  normalize_statement (explode id power) = explode id power
  normalize_statement (bounce id velocity) = bounce id velocity
  normalize_statement (branch id condition body) = branch id condition (normalize_statements body)
  normalize_statement (color id) = color id
  normalize_statement (speed id multiplier) = speed id multiplier
  normalize_statement (drop id quantity) = drop id quantity

  pub normalize_statements : StatementNodes → StatementNodes
  normalize_statements nil = nil
  normalize_statements (cons s body) = cons (normalize_statement s) (normalize_statements body)

unfoldable pub normalize_event : EventNode → EventNode
normalize_event e = record e { body = normalize_statements e.body }

unfoldable pub normalize_script : ScriptNode → ScriptNode
normalize_script s = record s {
  body = sort_by (λ e. event_order e.node_type) (map normalize_event s.body);
}

-- The canonical program, once the schema accepts it.
unfoldable pub normalized : Program → Program
normalized p = record p {
  scripts = sort_by (λ s. script_order s.script_kind) (map normalize_script p.scripts);
}

unfoldable pub parsed : List Place → Program → Result (List Place) Program
parsed [] p = ok p
parsed (issue ∷ issues) p = err (issue ∷ issues)

abbrev pub normalized_of : Result (List Place) Program → Result (List Place) Program
normalized_of (ok p) = ok (normalized p)
normalized_of (err issues) = err issues

-- `normalizeProgram`: a program that the schema rejects is an exception.
unfoldable pub normalize_program : Program → Result (List Place) Program
unfolding parsed
normalize_program p = normalized_of (parsed (program_issues p) p)
