-- ===== src/ProgramModel/Schema/Legacy.antt =====
-- packages/program-model/src/schema.ts: what `ProgramV1Schema` and `LegacyProgramV0Schema` still check
-- of a typed program of an earlier version.
use badgerbots_code_studio.Prelude.{ℕ, ◌+◌, List, [], ◌∷◌, ◌++◌, Option, none, some}
use badgerbots_code_studio.ProgramModel.NodeId.{is_node_id}
use badgerbots_code_studio.ProgramModel.Schema.{Place, is_safe_integer, issue_unless, id_issues}
use badgerbots_code_studio.ProgramModel.Types.{
  key, index, LegacyStatement, LegacyStatements, legacy_explode, legacy_bounce, if_on_material,
  legacy_color, legacy_speed, legacy_drop, legacy_nil, legacy_cons, LegacyEvent, LegacyScript,
  ProgramV1, LegacyProgramV0,
}

unfoldable mutual
  unfolding id_issues

  pub legacy_statement_issues : Place → LegacyStatement → List Place
  legacy_statement_issues at (legacy_explode id power) = id_issues at id
  legacy_statement_issues at (legacy_bounce id velocity) = id_issues at id
  legacy_statement_issues at (if_on_material id body) =
      id_issues at id ++ legacy_statements_issues (at ++ key "then" ∷ []) 0 body
  legacy_statement_issues at (legacy_color id) = id_issues at id
  legacy_statement_issues at (legacy_speed id multiplier) = id_issues at id
  legacy_statement_issues at (legacy_drop id quantity) =
      id_issues at id ++ issue_unless (is_safe_integer quantity) (at ++ key "quantity" ∷ [])

  pub legacy_statements_issues : Place → ℕ → LegacyStatements → List Place
  legacy_statements_issues at i legacy_nil = []
  legacy_statements_issues at i (legacy_cons s body) =
      legacy_statement_issues (at ++ index i ∷ []) s ++ legacy_statements_issues at (i + 1) body

unfoldable pub legacy_event_issues : Place → LegacyEvent → List Place
legacy_event_issues at e =
    id_issues at e.id ++ legacy_statements_issues (at ++ key "body" ∷ []) 0 e.body

unfoldable pub legacy_events_issues : Place → ℕ → List LegacyEvent → List Place
legacy_events_issues at i [] = []
legacy_events_issues at i (e ∷ es) =
    legacy_event_issues (at ++ index i ∷ []) e ++ legacy_events_issues at (i + 1) es

unfoldable pub legacy_script_issues : Place → LegacyScript → List Place
legacy_script_issues at s =
    id_issues at s.id ++ legacy_events_issues (at ++ key "body" ∷ []) 0 s.body

unfoldable pub legacy_scripts_issues : Place → ℕ → List LegacyScript → List Place
legacy_scripts_issues at i [] = []
legacy_scripts_issues at i (s ∷ ss) =
    legacy_script_issues (at ++ index i ∷ []) s ++ legacy_scripts_issues at (i + 1) ss

-- `ProgramV1Schema`
unfoldable pub program_v1_issues : ProgramV1 → List Place
program_v1_issues p =
    issue_unless (is_node_id p.program_id) (key "programId" ∷ [])
    ++ legacy_scripts_issues (key "scripts" ∷ []) 0 p.scripts

-- An area that is left out has no issue.
unfoldable pub area_issues : Place → Option (List LegacyEvent) → List Place
area_issues at none = []
area_issues at (some es) = legacy_events_issues at 0 es

-- `LegacyProgramV0Schema`
unfoldable pub program_v0_issues : LegacyProgramV0 → List Place
program_v0_issues p =
    issue_unless (is_node_id p.id) (key "id" ∷ [])
    ++ (area_issues (key "areas" ∷ key "Player" ∷ []) p.player_area
        ++ (area_issues (key "areas" ∷ key "Game" ∷ []) p.game_area
            ++ area_issues (key "areas" ∷ key "Sheep" ∷ []) p.sheep_area))
