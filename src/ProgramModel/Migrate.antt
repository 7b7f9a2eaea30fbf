-- ===== src/ProgramModel/Migrate.antt =====
-- packages/program-model/src/migrate.ts. An input is a typed program with its schema version, or has a
-- version that is not supported. Identifiers have passed the schema when they are sliced, so that a
-- character is a UTF-16 unit.
pub mod DerivedId
pub mod Places
pub mod Accepted
use Prim.Native.String.{◌++◌ as append_text}
use Prim.Native.String
use badgerbots_code_studio.Prelude.{
  ℕ, zero, suc, ◌-◌, String, List, [], ◌∷◌, map, Option, none, some, Result, ok, err,
}
use badgerbots_code_studio.ProgramModel.NodeId.{text_length}
use badgerbots_code_studio.ProgramModel.Schema.{Place, program_issues}
use badgerbots_code_studio.ProgramModel.Schema.Legacy.{program_v1_issues, program_v0_issues}
use badgerbots_code_studio.ProgramModel.Serialize.{parsed}
use badgerbots_code_studio.ProgramModel.Types.{
  ScriptKind, player, game, sheep, get_material_under_player, material_literal, StatementNode,
  StatementNodes, explode, bounce, branch, color, speed, drop, nil, cons, EventNode, ScriptNode,
  Program, LegacyStatement, LegacyStatements, legacy_explode, legacy_bounce, if_on_material,
  legacy_color, legacy_speed, legacy_drop, legacy_nil, legacy_cons, LegacyEvent, LegacyScript,
  ProgramV1, LegacyProgramV0,
}

-- `slice(0, n)`
unfoldable pub take_text : ℕ → String → String
take_text zero s = ""
take_text (suc n) String.[] = ""
take_text (suc n) (String.◌∷◌ c s) = String.◌∷◌ c (take_text n s)

unfoldable pub derived_id : String → String → String
derived_id source_id role =
    let suffix = append_text "-" role in
    append_text (take_text (63 - text_length suffix) source_id) suffix

unfoldable mutual
  pub migrate_statement : LegacyStatement → StatementNode
  migrate_statement (legacy_explode id power) = explode id power
  migrate_statement (legacy_bounce id velocity) = bounce id velocity
  migrate_statement (if_on_material id body) =
      branch id
        (record {
          id = derived_id id "equals";
          left = get_material_under_player (derived_id id "material-under");
          right = material_literal (derived_id id "gold");
        })
        (migrate_statements body)
  migrate_statement (legacy_color id) = color id
  migrate_statement (legacy_speed id multiplier) = speed id multiplier
  migrate_statement (legacy_drop id quantity) = drop id quantity

  pub migrate_statements : LegacyStatements → StatementNodes
  migrate_statements legacy_nil = nil
  migrate_statements (legacy_cons s body) = cons (migrate_statement s) (migrate_statements body)

abbrev pub migrate_event : LegacyEvent → EventNode
migrate_event e = record { id = e.id; node_type = e.node_type; body = migrate_statements e.body }

abbrev pub migrate_script : LegacyScript → ScriptNode
migrate_script s = record {
  id = s.id;
  script_kind = s.script_kind;
  display_name = s.display_name;
  body = map migrate_event s.body;
}

abbrev pub migrated : ProgramV1 → Program
migrated p = record { program_id = p.program_id; scripts = map migrate_script p.scripts }

unfoldable pub migrate_v1 : ProgramV1 → Result (List Place) Program
unfolding parsed
migrate_v1 p = parsed (program_issues (migrated p)) (migrated p)

-- `scriptMetadata`
abbrev pub script_id : ScriptKind → String
script_id player = "script-player"
script_id game = "script-game"
script_id sheep = "script-sheep"

abbrev pub area_body : Option (List LegacyEvent) → List LegacyEvent
area_body none = []
area_body (some es) = es

abbrev pub area_script : ScriptKind → Option (List LegacyEvent) → LegacyScript
area_script kind area = record {
  id = script_id kind;
  script_kind = kind;
  display_name = kind;
  body = area_body area;
}

abbrev pub program_v1_of : LegacyProgramV0 → ProgramV1
program_v1_of p = record {
  program_id = p.id;
  scripts =
      area_script player p.player_area
      ∷ area_script game p.game_area
      ∷ area_script sheep p.sheep_area
      ∷ [];
}

pub data ProgramInput : Type 0 where
  version_0 : LegacyProgramV0 → ProgramInput
  version_1 : ProgramV1 → ProgramInput
  version_2 : Program → ProgramInput
  other_version : ProgramInput

pub data MigrationError : Type 0 where
  unsupported_schema_version : MigrationError
  rejected_by_schema : List Place → MigrationError

abbrev pub migration_of : Result (List Place) Program → Result MigrationError Program
migration_of (ok p) = ok p
migration_of (err issues) = err (rejected_by_schema issues)

-- The rest of a step, if the schema has no issue.
abbrev pub unless_rejected :
    List Place → Result MigrationError Program → Result MigrationError Program
unless_rejected [] rest = rest
unless_rejected (issue ∷ issues) rest = err (rejected_by_schema (issue ∷ issues))

unfoldable pub migrate_program : ProgramInput → Result MigrationError Program
unfolding parsed
migrate_program (version_2 p) = migration_of (parsed (program_issues p) p)
migrate_program (version_1 p) = unless_rejected (program_v1_issues p) (migration_of (migrate_v1 p))
migrate_program other_version = err unsupported_schema_version
migrate_program (version_0 p) = unless_rejected (program_v0_issues p) (
    unless_rejected (program_v1_issues (program_v1_of p))
      (migration_of (migrate_v1 (program_v1_of p))))
