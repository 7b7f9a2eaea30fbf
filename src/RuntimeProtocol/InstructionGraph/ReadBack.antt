-- ===== src/RuntimeProtocol/InstructionGraph/ReadBack.antt =====
-- Instruction graphs of packages/runtime-protocol/src/instruction-graph.ts read as programs: nothing
-- is lost by `compileInstructionGraph`.
use badgerbots_code_studio.Prelude.{
  ◌≤◌, ◌≡◌, refl, ap, List, [], ◌∷◌, ◌++◌, map, length, flat_map, ok,
}
use badgerbots_code_studio.ProgramModel.Types.{
  EventType, projectile_hit_event, player_move_event, sheep_spawn_event, sheep_death_event,
  MaterialExpressionNode, get_material_under_player, material_literal, BooleanExpressionNode,
  StatementNode, StatementNodes, explode, bounce, branch, color, speed, drop, nil, cons, EventNode,
  ScriptNode, Program,
}
use badgerbots_code_studio.ProgramModel.WellFormed.{IsWellFormed}
use badgerbots_code_studio.ProgramModel.Serialize.Order.{
  IsCanonicalOf, normalize_program-IsCanonicalOf,
}
use badgerbots_code_studio.RuntimeProtocol.InstructionGraph.{
  RuntimeMaterialExpression, read_material_under_player, material_constant,
  RuntimeBooleanExpression, RuntimeInstruction, RuntimeInstructions, explode_at_event_location,
  conditional, set_vertical_velocity, set_color, set_speed_multiplier, drop_items, done, next,
  RuntimeEvent, projectile_hit, player_move, sheep_spawn, sheep_death, RuntimeHandler,
  InstructionGraph, compile_material_expression, compile_boolean_expression, compile_statement,
  compile_statements, event_name, compile_event, graph_of, compile_instruction_graph,
}
use badgerbots_code_studio.RuntimeProtocol.InstructionGraph.Compile.{compile_of_IsWellFormed}

-- The block, the event and the handler that each part of a graph stands for.
abbrev pub material_of : RuntimeMaterialExpression → MaterialExpressionNode
material_of (read_material_under_player id) = get_material_under_player id
material_of (material_constant id) = material_literal id

abbrev pub condition_of : RuntimeBooleanExpression → BooleanExpressionNode
condition_of e = record {
  id = e.source_node_id;
  left = material_of e.left;
  right = material_of e.right;
}

abbrev mutual
  pub statement_of : RuntimeInstruction → StatementNode
  statement_of (explode_at_event_location id power) = explode id power
  statement_of (conditional id condition body) =
      branch id (condition_of condition) (statements_of body)
  statement_of (set_vertical_velocity id value) = bounce id value
  statement_of (set_color id) = color id
  statement_of (set_speed_multiplier id multiplier) = speed id multiplier
  statement_of (drop_items id quantity) = drop id quantity

  pub statements_of : RuntimeInstructions → StatementNodes
  statements_of done = nil
  statements_of (next i is) = cons (statement_of i) (statements_of is)

abbrev pub event_type_of : RuntimeEvent → EventType
event_type_of projectile_hit = projectile_hit_event
event_type_of player_move = player_move_event
event_type_of sheep_spawn = sheep_spawn_event
event_type_of sheep_death = sheep_death_event

abbrev pub read_back : RuntimeHandler → EventNode
read_back h = record {
  id = h.source_node_id;
  node_type = event_type_of h.event;
  body = statements_of h.instructions;
}

material-round_trip : (m : MaterialExpressionNode) → material_of (compile_material_expression m) ≡ m
material-round_trip (get_material_under_player id) = refl
material-round_trip (material_literal id) = refl

condition-round_trip : (e : BooleanExpressionNode) → condition_of (compile_boolean_expression e) ≡ e
condition-round_trip e =
    λ i. record e { left = material-round_trip e.left i; right = material-round_trip e.right i }

mutual
  unfolding compile_statement

  statement-round_trip : (s : StatementNode) → statement_of (compile_statement s) ≡ s
  statement-round_trip (explode id power) = refl
  statement-round_trip (bounce id velocity) = refl
  statement-round_trip (branch id condition body) =
      λ i. branch id (condition-round_trip condition i) (statements-round_trip body i)
  statement-round_trip (color id) = refl
  statement-round_trip (speed id multiplier) = refl
  statement-round_trip (drop id quantity) = refl

  statements-round_trip : (body : StatementNodes) → statements_of (compile_statements body) ≡ body
  statements-round_trip nil = refl
  statements-round_trip (cons s body) =
      λ i. cons (statement-round_trip s i) (statements-round_trip body i)

event_type-round_trip : (t : EventType) → event_type_of (event_name t) ≡ t
event_type-round_trip projectile_hit_event = refl
event_type-round_trip player_move_event = refl
event_type-round_trip sheep_spawn_event = refl
event_type-round_trip sheep_death_event = refl

event-round_trip : (e : EventNode) → read_back (compile_event e) ≡ e
event-round_trip e = λ i. record e {
  node_type = event_type-round_trip e.node_type i;
  body = statements-round_trip e.body i;
}

events-round_trip :
    (es : List EventNode) (hs : List RuntimeHandler) (rest : List EventNode)
    → map read_back hs ≡ rest
    → map read_back (map compile_event es ++ hs) ≡ es ++ rest
events-round_trip [] hs rest h = h
events-round_trip (e ∷ es) hs rest h = λ i. event-round_trip e i ∷ events-round_trip es hs rest h i

scripts-round_trip :
    (ss : List ScriptNode)
    → map read_back (flat_map (λ (s : ScriptNode). map compile_event s.body) ss)
      ≡ flat_map (λ s. s.body) ss
scripts-round_trip [] = refl
scripts-round_trip (s ∷ ss) = events-round_trip s.body _ _ (scripts-round_trip ss)

-- A well-formed program compiles to a graph with its identifier and at most four handlers; read back,
-- the handlers are the events of its canonical form, script by script, with every statement and
-- condition, under their identifiers.
pub compile_read_back :
    (p : Program)
    → IsWellFormed p
    → (q : Program) × (g : InstructionGraph) × IsCanonicalOf p q
      × (compile_instruction_graph p ≡ ok g)
      × (g.program_id ≡ p.program_id)
      × (map read_back g.handlers ≡ flat_map (λ s. s.body) q.scripts)
      × (length g.handlers ≤ 4)
compile_read_back p w =
    let (q, normal, v, compiled, few) = compile_of_IsWellFormed p w in
    let canonical = (normalize_program-IsCanonicalOf p q normal).0 in
    (
      q,
      graph_of q,
      canonical,
      compiled,
      ap (λ r. r.program_id) canonical.0,
      scripts-round_trip q.scripts,
      few,
    )
