-- ===== src/ProgramModel/WellFormed.antt =====
-- When a program may be run, said without the validator: the rules of the Sheep City project, which
-- packages/program-model/src/validate.ts enforces.
pub mod Safe
use badgerbots_code_studio.Prelude.{
  ℕ, ◌+◌, ◌≤◌, ◌≡◌, ◌≤ℤ◌, pos, List, [], ◌∷◌, All, Any, Distinct, length, map, IsAtMost, half,
  tenth, whole,
}
use badgerbots_code_studio.ProgramModel.Schema.Shape.{IsNodeId}
use badgerbots_code_studio.ProgramModel.Ids.{program_ids, body_length}
use badgerbots_code_studio.ProgramModel.Types.{
  ScriptKind, player, game, sheep, EventType, projectile_hit_event, player_move_event,
  sheep_spawn_event, sheep_death_event, StatementType, explode_at_hit, bounce_player, if_then,
  set_sheep_color, set_sheep_speed, drop_item, StatementNode, StatementNodes, explode, bounce,
  branch, color, speed, drop, nil, cons, EventNode, ScriptNode, Program,
}

abbrev pub BelongsTo : EventType → ScriptKind → Type 0
BelongsTo projectile_hit_event kind = kind ≡ player
BelongsTo player_move_event kind = kind ≡ player
BelongsTo sheep_spawn_event kind = kind ≡ sheep
BelongsTo sheep_death_event kind = kind ≡ sheep

-- The event in which a statement may stand.
abbrev pub HomeOf : StatementType → EventType → Type 0
HomeOf explode_at_hit event = event ≡ projectile_hit_event
HomeOf bounce_player event = event ≡ player_move_event
HomeOf if_then event = event ≡ player_move_event
HomeOf set_sheep_color event = event ≡ sheep_spawn_event
HomeOf set_sheep_speed event = event ≡ sheep_spawn_event
HomeOf drop_item event = event ≡ sheep_death_event

-- At most eight levels of nesting, in the right event.
abbrev pub FitsHead : EventType → ℕ → StatementType → Type 0
FitsHead event depth type = (depth ≤ 8) × HomeOf type event

unfoldable mutual
  pub FitsStatement : EventType → ℕ → StatementNode → Type 0
  FitsStatement event depth (explode id power) =
      FitsHead event depth explode_at_hit × IsAtMost half power × IsAtMost power (whole 4)
  FitsStatement event depth (bounce id velocity) =
      FitsHead event depth bounce_player × IsAtMost tenth velocity × IsAtMost velocity (whole 3)
  FitsStatement event depth (branch id condition body) =
      FitsHead event depth if_then × FitsStatements event (depth + 1) body
  FitsStatement event depth (color id) = FitsHead event depth set_sheep_color
  FitsStatement event depth (speed id multiplier) =
      FitsHead event depth set_sheep_speed
      × IsAtMost tenth multiplier
      × IsAtMost multiplier (whole 4)
  FitsStatement event depth (drop id quantity) =
      FitsHead event depth drop_item × (pos 1 ≤ℤ quantity) × (quantity ≤ℤ pos 16)

  pub FitsStatements : EventType → ℕ → StatementNodes → Type 0
  FitsStatements event depth nil = Unit
  FitsStatements event depth (cons s body) =
      FitsStatement event depth s × FitsStatements event depth body

abbrev pub FitsEvent : ScriptKind → EventNode → Type 0
FitsEvent kind e =
    BelongsTo e.node_type kind × (body_length e.body ≤ 32) × FitsStatements e.node_type 1 e.body

-- A script has each event once.
abbrev pub FitsScript : ScriptNode → Type 0
FitsScript s = Distinct (map (λ e. e.node_type) s.body) × All (FitsEvent s.script_kind) s.body

-- Some script is of the kind.
abbrev pub Occurs : ScriptKind → List ScriptNode → Type 0
Occurs kind = Any (λ s. s.script_kind ≡ kind)

pub record IsWellFormed (p : Program) : Type 0 where
  pub valid_ids : All IsNodeId (program_ids p)
  pub distinct_ids : Distinct (program_ids p)
  pub size : length (program_ids p) ≤ 128
  pub three_scripts : length p.scripts ≡ 3
  pub has_player : Occurs player p.scripts
  pub has_game : Occurs game p.scripts
  pub has_sheep : Occurs sheep p.scripts
  pub scripts_fit : All FitsScript p.scripts
