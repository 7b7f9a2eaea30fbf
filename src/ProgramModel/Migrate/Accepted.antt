-- ===== src/ProgramModel/Migrate/Accepted.antt =====
-- `migrateProgram` of packages/program-model/src/migrate.ts on what the schemas accept.
use badgerbots_code_studio.Prelude.{
  ℕ, ◌↔◌, Result, ◌+◌, ◌≡◌, refl, ap, List, [], ◌∷◌, ◌++◌, Option, none, some, ok, map,
}
use badgerbots_code_studio.ProgramModel.NodeId.{is_node_id}
use badgerbots_code_studio.ProgramModel.Types.{
  index, ScriptKind, player, game, sheep, LegacyStatement, LegacyStatements, legacy_explode,
  legacy_bounce, if_on_material, legacy_color, legacy_speed, legacy_drop, legacy_nil, legacy_cons,
  LegacyEvent, LegacyScript, ProgramV1, LegacyProgramV0, Program,
}
use badgerbots_code_studio.ProgramModel.Schema.{
  Place, is_safe_integer, issue_unless, id_issues, material_issues, boolean_issues,
  statement_issues, statements_issues, event_issues, events_issues, script_issues, scripts_issues,
  program_issues,
}
use badgerbots_code_studio.ProgramModel.Schema.Shape.{IsNodeId}
use badgerbots_code_studio.ProgramModel.Schema.Legacy.{
  legacy_statement_issues, legacy_statements_issues, legacy_event_issues, legacy_events_issues,
  legacy_script_issues, legacy_scripts_issues, program_v1_issues, area_issues, program_v0_issues,
}
use badgerbots_code_studio.ProgramModel.Serialize.{parsed}
use badgerbots_code_studio.ProgramModel.Migrate.{
  migrate_statement, migrate_statements, migrate_event, migrate_script, migrated, migrate_v1,
  area_script, script_id, program_v1_of, migration_of, unless_rejected, migrate_program,
  MigrationError, ProgramInput, version_0, version_1, version_2, other_version,
}
use badgerbots_code_studio.ProgramModel.Migrate.Places.{
  append-nil, append-nil_parts, unless-nil, unless-nil_test, id-nil, id-nil_test,
  legacy_events_moved,
}
use badgerbots_code_studio.ProgramModel.Migrate.DerivedId.{
  derived_id-equals, derived_id-material_under, derived_id-gold,
}

mutual
  unfolding legacy_statement_issues statement_issues migrate_statement material_issues
      boolean_issues

  statement_migrated :
      (at there : Place) (s : LegacyStatement)
      → legacy_statement_issues at s ≡ []
      → statement_issues there (migrate_statement s) ≡ []
  statement_migrated at there (legacy_explode id power) h = id-nil there id (id-nil_test at id h)
  statement_migrated at there (legacy_bounce id velocity) h = id-nil there id (id-nil_test at id h)
  statement_migrated at there (if_on_material id body) h =
      let (first, rest) = append-nil_parts (id_issues at id) _ h in
      let valid = id-nil_test at id first in
      append-nil _ _ (id-nil there id valid) (
        append-nil _ _
          (append-nil _ _ (id-nil _ _ (derived_id-equals id valid)) (
            append-nil _ _ (id-nil _ _ (derived_id-material_under id valid))
              (id-nil _ _ (derived_id-gold id valid))))
          (statements_migrated _ _ 0 0 body rest))
  statement_migrated at there (legacy_color id) h = id-nil there id (id-nil_test at id h)
  statement_migrated at there (legacy_speed id multiplier) h = id-nil there id (id-nil_test at id h)
  statement_migrated at there (legacy_drop id quantity) h =
      let (first, rest) = append-nil_parts (id_issues at id) _ h in
      append-nil _ _ (id-nil there id (id-nil_test at id first)) (
        unless-nil (is_safe_integer quantity) _ (unless-nil_test (is_safe_integer quantity) _ rest))

  statements_migrated :
      (at there : Place) (i j : ℕ) (body : LegacyStatements)
      → legacy_statements_issues at i body ≡ []
      → statements_issues there j (migrate_statements body) ≡ []
  statements_migrated at there i j legacy_nil h = refl
  statements_migrated at there i j (legacy_cons s body) h =
      let (first, rest) = append-nil_parts (legacy_statement_issues (at ++ index i ∷ []) s) _ h in
      append-nil _ _ (statement_migrated _ _ s first)
        (statements_migrated at there (i + 1) (j + 1) body rest)

events_migrated :
    (at there : Place) (i j : ℕ) (es : List LegacyEvent)
    → legacy_events_issues at i es ≡ []
    → events_issues there j (map migrate_event es) ≡ []
unfolding legacy_events_issues events_issues legacy_event_issues event_issues
events_migrated at there i j [] h = refl
events_migrated at there i j (e ∷ es) h =
    let (first, rest) = append-nil_parts (legacy_event_issues (at ++ index i ∷ []) e) _ h in
    let (valid, body) = append-nil_parts (id_issues (at ++ index i ∷ []) e.id) _ first in
    append-nil _ _
      (append-nil _ _ (id-nil _ e.id (id-nil_test _ e.id valid))
        (statements_migrated _ _ 0 0 e.body body))
      (events_migrated at there (i + 1) (j + 1) es rest)

scripts_migrated :
    (at there : Place) (i j : ℕ) (ss : List LegacyScript)
    → legacy_scripts_issues at i ss ≡ []
    → scripts_issues there j (map migrate_script ss) ≡ []
unfolding legacy_scripts_issues scripts_issues legacy_script_issues script_issues
scripts_migrated at there i j [] h = refl
scripts_migrated at there i j (s ∷ ss) h =
    let (first, rest) = append-nil_parts (legacy_script_issues (at ++ index i ∷ []) s) _ h in
    let (valid, body) = append-nil_parts (id_issues (at ++ index i ∷ []) s.id) _ first in
    append-nil _ _
      (append-nil _ _ (id-nil _ s.id (id-nil_test _ s.id valid))
        (events_migrated _ _ 0 0 s.body body))
      (scripts_migrated at there (i + 1) (j + 1) ss rest)

program_migrated : (p : ProgramV1) → program_v1_issues p ≡ [] → migrate_v1 p ≡ ok (migrated p)
unfolding program_v1_issues migrate_v1 parsed program_issues
program_migrated p h =
    let (first, rest) = append-nil_parts (issue_unless (is_node_id p.program_id) _) _ h in
    ap (λ issues. parsed issues (migrated p))
      (append-nil _ _
        (unless-nil (is_node_id p.program_id) _ (unless-nil_test (is_node_id p.program_id) _ first))
        (scripts_migrated _ _ 0 0 p.scripts rest))

area_migrated :
    (at there : Place) (kind : ScriptKind) (area : Option (List LegacyEvent))
    → area_issues at area ≡ []
    → IsNodeId (script_id kind)
    → legacy_script_issues there (area_script kind area) ≡ []
unfolding area_issues legacy_script_issues legacy_events_issues
area_migrated at there kind none h valid = append-nil _ _ (id-nil _ _ valid) refl
area_migrated at there kind (some es) h valid =
    append-nil _ _ (id-nil _ _ valid) (legacy_events_moved at _ 0 0 es h)

-- A version 0 program that its schema accepts is one of version 1, with the three scripts.
program_v1_of_accepted :
    (p : LegacyProgramV0) → program_v0_issues p ≡ [] → program_v1_issues (program_v1_of p) ≡ []
unfolding program_v0_issues program_v1_issues legacy_scripts_issues is_node_id
program_v1_of_accepted p h =
    let (id, areas) = append-nil_parts (issue_unless (is_node_id p.id) _) _ h in
    let (first, rest) = append-nil_parts (area_issues _ p.player_area) _ areas in
    let (second, third) = append-nil_parts (area_issues _ p.game_area) _ rest in
    append-nil _ _ (unless-nil (is_node_id p.id) _ (unless-nil_test (is_node_id p.id) _ id)) (
      append-nil _ _ (area_migrated _ _ player p.player_area first refl) (
        append-nil _ _ (area_migrated _ _ game p.game_area second refl)
          (append-nil _ _ (area_migrated _ _ sheep p.sheep_area third refl) refl)))

-- The schema of its own version finds no issue.
abbrev pub IsAccepted : ProgramInput → Type 0
IsAccepted (version_0 p) = program_v0_issues p ≡ []
IsAccepted (version_1 p) = program_v1_issues p ≡ []
IsAccepted (version_2 p) = program_issues p ≡ []
IsAccepted other_version = ⊥

unless_rejected-ok :
    (issues : List Place) (rest : Result MigrationError Program) (q : Program)
    → unless_rejected issues rest ≡ ok q
    → issues ≡ []
unless_rejected-ok [] rest q h = refl
unless_rejected-ok (issue ∷ issues) rest q h = absurd (cc)

parsed-ok :
    (issues : List Place) (p q : Program) → migration_of (parsed issues p) ≡ ok q → issues ≡ []
unfolding parsed
parsed-ok [] p q h = refl
parsed-ok (issue ∷ issues) p q h = absurd (cc)

-- `migrateProgram` returns a program exactly if the schema of the input's own version accepts the
-- input; for a version that is not supported it throws.
pub migrate_program_iff :
    (input : ProgramInput) → ((q : Program) × (migrate_program input ≡ ok q)) ↔ IsAccepted input
unfolding migrate_program
migrate_program_iff (version_0 p) = (
  λ (q, h). unless_rejected-ok (program_v0_issues p) _ q h,
  λ h.
      let second = program_v1_of_accepted p h in
      (migrated (program_v1_of p), rw (h, second, program_migrated (program_v1_of p) second) refl),
)
migrate_program_iff (version_1 p) = (
  λ (q, h). unless_rejected-ok (program_v1_issues p) _ q h,
  λ h. (migrated p, rw (h, program_migrated p h) refl),
)
migrate_program_iff (version_2 p) = (
  λ (q, h). parsed-ok (program_issues p) p q h,
  λ h. (p, ap (λ issues. migration_of (parsed issues p)) h),
)
migrate_program_iff other_version = (λ (q, h). absurd (cc), λ h. absurd h)
