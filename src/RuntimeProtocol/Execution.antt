-- ===== src/RuntimeProtocol/Execution.antt =====
-- The execution of an event's instructions within a budget:
-- packages/runtime-protocol/src/interpreter.ts. The Minecraft adapter and the clock are not part of the
-- program: an `Environment` answers each read from the calls made so far, says which call throws, and
-- gives the clock's readings (whole milliseconds) in order. Every call is logged.
pub mod Budget
pub mod Within
use badgerbots_code_studio.Prelude.{
  ℕ, suc, ◌+◌, ◌-◌, ℤ, pos, ◌+ℤ◌, Number, String, Bool, true, false, not, ◌||◌, List, [], ◌∷◌, ◌++◌,
  Option, none, some, ltb, ltb_ℤ, ◌==◌, str_eq, length, if◌then◌else◌, Result, ok, err,
}
use badgerbots_code_studio.RuntimeProtocol.Address.{ExecutionScopeKey}
use badgerbots_code_studio.RuntimeProtocol.InstructionGraph.{
  RuntimeMaterialExpression, read_material_under_player, material_constant,
  RuntimeBooleanExpression, RuntimeInstruction, RuntimeInstructions, explode_at_event_location,
  conditional, set_vertical_velocity, set_color, set_speed_multiplier, drop_items, done, next,
  RuntimeEvent, projectile_hit, player_move, sheep_spawn, sheep_death, RuntimeHandler,
  InstructionGraph,
}

pub record RuntimeLimits : Type 0 where
  pub maximum_handlers : ℕ
  pub maximum_instructions_per_event : ℕ
  pub maximum_explosions_per_event : ℕ
  pub maximum_item_drops_per_event : ℕ
  pub maximum_wall_clock_ms : ℕ

abbrev pub sheep_city_runtime_limits : RuntimeLimits
sheep_city_runtime_limits = record {
  maximum_handlers = 8;
  maximum_instructions_per_event = 64;
  maximum_explosions_per_event = 1;
  maximum_item_drops_per_event = 16;
  maximum_wall_clock_ms = 25;
}

-- The optional fields of the event (location, player, sheep) are passed on unread and left out.
pub record RuntimeEventContext : Type 0 where
  pub event : RuntimeEvent

pub record AttributedActionContext : Type 0 where
  pub scope : ExecutionScopeKey
  pub source_node_id : String
  pub event : RuntimeEventContext

pub data Material : Type 0 where
  gold_block other : Material

abbrev pub same_material : Material → Material → Bool
same_material gold_block gold_block = true
same_material other other = true
same_material _ _ = false

abbrev pub same_event : RuntimeEvent → RuntimeEvent → Bool
same_event projectile_hit projectile_hit = true
same_event player_move player_move = true
same_event sheep_spawn sheep_spawn = true
same_event sheep_death sheep_death = true
same_event _ _ = false

abbrev pub source_of : RuntimeInstruction → String
source_of (explode_at_event_location id power) = id
source_of (conditional id condition body) = id
source_of (set_vertical_velocity id value) = id
source_of (set_color id) = id
source_of (set_speed_multiplier id multiplier) = id
source_of (drop_items id quantity) = id

-- A call of `MinecraftRuntimeAdapter`.
pub data Action : Type 0 where
  read_material : Action
  explode_at : Number → Action
  set_player_velocity : Number → Action
  set_sheep_red : Action
  set_sheep_speed_to : Number → Action
  drop_gold : ℤ → Action

pub record Call : Type 0 where
  pub context : AttributedActionContext
  pub action : Action

pub record Environment : Type 0 where
  pub material : List Call → Material
  pub throws : List Call → Call → Bool
  pub clock : ℕ → ℕ

pub data BreakerCode : Type 0 where
  instruction_limit explosion_limit item_drop_limit wall_clock_limit : BreakerCode

pub data Failure : Type 0 where
  circuit_breaker : BreakerCode → String → Failure
  adapter_error no_active_program : Failure

-- `EventBudget`, the log of adapter calls (the last one first) and the number of clock readings.
pub record Execution : Type 0 where
  pub instructions : ℕ
  pub explosions : ℕ
  pub item_drops : ℤ
  pub started_at : ℕ
  pub calls : List Call
  pub readings : ℕ

-- The state with the exception that was thrown, if one was.
abbrev pub Outcome : Type 0
Outcome = Execution × Option Failure

abbrev pub and_then : Outcome → (Execution → Outcome) → Outcome
and_then (s, none) f = f s
and_then (s, some failure) f = (s, some failure)

module _ (environment : Environment) (limits : RuntimeLimits) where
  abbrev breaker : Execution → BreakerCode → String → Outcome
  breaker s code id = (s, some (circuit_breaker code id))

  -- A call of the adapter is logged, and may throw.
  unfoldable pub call : Call → Execution → Outcome
  call c s = (
    record s { calls = c ∷ s.calls },
    (if environment.throws s.calls c then some adapter_error else none),
  )

  -- The tests at the head of the loop of `executeInstructions`.
  unfoldable pub begin_instruction : String → Execution → Outcome
  begin_instruction id s =
      let counted : Execution = record s { instructions = s.instructions + 1 } in
      let read : Execution = record counted { readings = counted.readings + 1 } in
      if ltb limits.maximum_instructions_per_event counted.instructions
      then breaker counted instruction_limit id
      else (if ltb limits.maximum_wall_clock_ms (environment.clock s.readings - s.started_at)
          then breaker read wall_clock_limit id
          else (read, none))

  module _ (scope : ExecutionScopeKey) (event : RuntimeEventContext) where
    abbrev pub at : String → Action → Call
    at id action = record {
      context = record { scope = scope; source_node_id = id; event = event };
      action = action;
    }

    -- `evaluateMaterial`, which hands its value to the rest of the evaluation.
    unfoldable pub evaluate_material :
        RuntimeMaterialExpression → Execution → (Material → Execution → Outcome) → Outcome
    evaluate_material (material_constant id) s rest = rest gold_block s
    evaluate_material (read_material_under_player id) s rest =
        and_then (call (at id read_material) s) (rest (environment.material s.calls))

    -- `evaluateBoolean`; the rest is the body of the `if`, or nothing.
    unfoldable pub evaluate_boolean :
        RuntimeBooleanExpression → Execution → (Execution → Outcome) → Outcome
    evaluate_boolean e s body = evaluate_material e.left s λ left s'.
        evaluate_material e.right s'
          λ right s''. if same_material left right then body s'' else (s'', none)

    unfoldable mutual
      pub perform : RuntimeInstruction → Execution → Outcome
      perform (explode_at_event_location id power) s =
          let counted : Execution = record s { explosions = s.explosions + 1 } in
          if ltb limits.maximum_explosions_per_event counted.explosions
          then breaker counted explosion_limit id
          else call (at id (explode_at power)) counted
      perform (conditional id condition body) s =
          evaluate_boolean condition s λ s'. execute_instructions body s'
      perform (set_vertical_velocity id value) s = call (at id (set_player_velocity value)) s
      perform (set_color id) s = call (at id set_sheep_red) s
      perform (set_speed_multiplier id multiplier) s =
          call (at id (set_sheep_speed_to multiplier)) s
      perform (drop_items id quantity) s =
          let counted : Execution = record s { item_drops = s.item_drops +ℤ quantity } in
          if ltb_ℤ (pos limits.maximum_item_drops_per_event) counted.item_drops
          then breaker counted item_drop_limit id
          else call (at id (drop_gold quantity)) counted

      pub execute_instructions : RuntimeInstructions → Execution → Outcome
      execute_instructions done s = (s, none)
      execute_instructions (next i is) s =
          and_then (begin_instruction (source_of i) s)
            λ s'. and_then (perform i s') λ s''. execute_instructions is s''

    -- The loop over the handlers in `execute`.
    unfoldable pub execute_handlers : List RuntimeHandler → Execution → Outcome
    execute_handlers [] s = (s, none)
    execute_handlers (h ∷ hs) s =
        and_then
          (if same_event h.event event.event
            then execute_instructions h.instructions s
            else (s, none))
          λ s'. execute_handlers hs s'
