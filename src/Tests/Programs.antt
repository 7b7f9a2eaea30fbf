-- ===== src/Tests/Programs.antt =====
-- The theorems on programs, at the programs of packages/program-model/src/starter.ts.
use badgerbots_code_studio.Prelude.{
  flat_map, ◌≡◌, ◌↔◌, ◌≤◌, refl, true, false, ok, [], ◌∷◌, All, map, length, some, none, whole,
  sort_by, insert_by, ◌*ℤ◌, pos,
}
use mathlib.Core.List.{Perm}
use badgerbots_code_studio.ProgramModel.NodeId.{is_node_id}
use badgerbots_code_studio.ProgramModel.Ids.{program_ids}
use badgerbots_code_studio.ProgramModel.Schema.{
  program_issues, is_safe_integer, id_issues, material_issues, boolean_issues, statements_issues,
  event_issues, events_issues, script_issues, scripts_issues,
}
use badgerbots_code_studio.ProgramModel.Schema.Shape.{program_issues_iff, IsNodeId, SafeScript}
use badgerbots_code_studio.ProgramModel.Types.{
  Program, player, game, sheep, nil, cons, drop, sheep_spawn_event,
}
use badgerbots_code_studio.ProgramModel.Types.{
  LegacyProgramV0, player_move_event, legacy_cons, legacy_nil, legacy_bounce, if_on_material,
}
use badgerbots_code_studio.ProgramModel.Schema.Legacy.{
  program_v0_issues, area_issues, legacy_events_issues, legacy_event_issues,
  legacy_statements_issues,
}
use badgerbots_code_studio.ProgramModel.Migrate.{migrate_program, version_0}
use badgerbots_code_studio.ProgramModel.Migrate.Accepted.{migrate_program_iff}
use badgerbots_code_studio.ProgramModel.Validate.{
  validate_program, check_program, result_of, report, register, visit_material_expression,
  visit_boolean_expression, visit_head, visit_statements, visit_event, visit_events, visit_script,
  visit_scripts, report_missing, ScriptKind-discrete, EventType-discrete, StatementType-discrete,
}
use badgerbots_code_studio.ProgramModel.Validate.Scripts.{validate_program_iff}
use badgerbots_code_studio.ProgramModel.WellFormed.{IsWellFormed}
use badgerbots_code_studio.ProgramModel.Serialize.{
  normalize_program, normalized, parsed, normalize_script, normalize_event, normalize_statements,
}
use badgerbots_code_studio.ProgramModel.Serialize.Canonical.{normalize_program-IsWellFormed}
use badgerbots_code_studio.ProgramModel.Serialize.Order.{
  IsCanonicalOf, normalize_program-IsCanonicalOf,
}
use badgerbots_code_studio.ProgramModel.Starter.{
  sheep_city_completed_example, sheep_city_starter_program,
}
use badgerbots_code_studio.RuntimeProtocol.InstructionGraph.{
  InstructionGraph, compile_instruction_graph,
}
use badgerbots_code_studio.RuntimeProtocol.InstructionGraph.Compile.{compile_iff}
use badgerbots_code_studio.RuntimeProtocol.InstructionGraph.ReadBack.{read_back, compile_read_back}

completed_example_valid : (validate_program sheep_city_completed_example).ok ≡ true
unfolding validate_program program_issues is_node_id scripts_issues script_issues id_issues
    events_issues event_issues statements_issues boolean_issues is_safe_integer check_program report
    report_missing visit_scripts ScriptKind-discrete visit_script visit_events ◌*ℤ◌ material_issues
    EventType-discrete StatementType-discrete register result_of visit_boolean_expression
    visit_event visit_head visit_material_expression visit_statements
completed_example_valid = refl

completed_example-IsWellFormed : IsWellFormed sheep_city_completed_example
completed_example-IsWellFormed =
    (validate_program_iff sheep_city_completed_example).0 completed_example_valid

-- A program whose event drops seventeen ingots on a sheep's spawn, under an identifier that is taken.
abbrev faulty_program : Program
faulty_program = record sheep_city_starter_program {
  scripts =
      record {
        id = "script-sheep";
        script_kind = sheep;
        display_name = sheep;
        body =
            record {
              id = "event-sheep-spawn";
              node_type = sheep_spawn_event;
              body = cons (drop "script-sheep" (pos 17)) nil;
            }
            ∷ [];
      }
      ∷ [];
}

faulty_program_rejected : (validate_program faulty_program).ok ≡ false
unfolding validate_program program_issues is_node_id scripts_issues script_issues id_issues
    events_issues event_issues statements_issues boolean_issues is_safe_integer check_program report
    report_missing visit_scripts ScriptKind-discrete visit_script visit_events ◌*ℤ◌ material_issues
    EventType-discrete StatementType-discrete register result_of visit_boolean_expression
    visit_event visit_head visit_material_expression visit_statements
faulty_program_rejected = refl

validate_program_iff_example :
    ((validate_program sheep_city_completed_example).ok ≡ true)
    ↔ IsWellFormed sheep_city_completed_example
validate_program_iff_example = validate_program_iff sheep_city_completed_example

program_issues_iff_example : (program_issues sheep_city_completed_example ≡ []) ↔ (
    All IsNodeId (program_ids sheep_city_completed_example)
    × All SafeScript sheep_city_completed_example.scripts)
program_issues_iff_example = program_issues_iff sheep_city_completed_example

normalize_program-IsWellFormed_example :
    (q : Program) × (normalize_program sheep_city_completed_example ≡ ok q)
    × IsWellFormed q
    × Perm (program_ids q) (program_ids sheep_city_completed_example)
    × (map (λ s. s.script_kind) q.scripts ≡ player ∷ game ∷ sheep ∷ [])
    × ((validate_program q).ok ≡ true)
normalize_program-IsWellFormed_example =
    normalize_program-IsWellFormed sheep_city_completed_example completed_example-IsWellFormed

compile_read_back_example :
    (q : Program) × (g : InstructionGraph) × IsCanonicalOf sheep_city_completed_example q
    × (compile_instruction_graph sheep_city_completed_example ≡ ok g)
    × (g.program_id ≡ sheep_city_completed_example.program_id)
    × (map read_back g.handlers ≡ flat_map (λ s. s.body) q.scripts)
    × (length g.handlers ≤ 4)
compile_read_back_example =
    compile_read_back sheep_city_completed_example completed_example-IsWellFormed

compile_iff_example :
    ((g : InstructionGraph) × (compile_instruction_graph sheep_city_completed_example ≡ ok g))
    ↔ IsWellFormed sheep_city_completed_example
compile_iff_example = compile_iff sheep_city_completed_example

completed_example_canonical :
    normalize_program sheep_city_completed_example ≡ ok sheep_city_completed_example
unfolding normalize_program parsed program_issues is_node_id scripts_issues script_issues id_issues
    events_issues event_issues statements_issues boolean_issues material_issues is_safe_integer
    normalized normalize_script normalize_event normalize_statements sort_by insert_by
completed_example_canonical = refl

normalize_program-IsCanonicalOf_example :
    IsCanonicalOf sheep_city_completed_example sheep_city_completed_example
    × (normalize_program sheep_city_completed_example ≡ ok sheep_city_completed_example)
normalize_program-IsCanonicalOf_example =
    normalize_program-IsCanonicalOf sheep_city_completed_example sheep_city_completed_example
      completed_example_canonical

-- A version 0 program with one area, whose only block is a test for gold.
abbrev old_program : LegacyProgramV0
old_program = record {
  id = "old-city";
  player_area = some (
      record {
        id = "event-player-move";
        node_type = player_move_event;
        body =
            legacy_cons
              (if_on_material "if-gold"
                (legacy_cons (legacy_bounce "bounce-gold" (whole 1)) legacy_nil))
              legacy_nil;
      }
      ∷ []);
  game_area = none;
  sheep_area = none;
}

migrate_program_iff_example :
    ((q : Program) × (migrate_program (version_0 old_program) ≡ ok q))
    ↔ (program_v0_issues old_program ≡ [])
migrate_program_iff_example = migrate_program_iff (version_0 old_program)

old_program_accepted : program_v0_issues old_program ≡ []
unfolding program_v0_issues is_node_id area_issues legacy_events_issues legacy_event_issues
    legacy_statements_issues id_issues
old_program_accepted = refl
