-- ===== src/RuntimeProtocol/Runtime.antt =====
-- `assertGraph` and `AtomicProgramRuntime` of packages/runtime-protocol/src/interpreter.ts. The
-- runtime's state is the map of active programs and the scope registry that it was given.
pub mod Laws
pub mod Operations
pub mod Effects
pub mod Isolation
use badgerbots_code_studio.Prelude.{
  ℕ, suc, ◌+◌, pos, String, Bool, true, false, not, ◌||◌, List, [], ◌∷◌, Option, none, some, ltb,
  ◌==◌, str_eq, length, lookup, insert, delete, Result, ok, err, if◌then◌else◌,
}
use badgerbots_code_studio.RuntimeProtocol.Address.{
  RuntimeScopeAddress, ExecutionScopeKey, active_key,
}
use badgerbots_code_studio.RuntimeProtocol.Scopes.{
  Registry, ScopeStopResult, no_stop, create, stop, stop_all, is_active,
}
use badgerbots_code_studio.RuntimeProtocol.InstructionGraph.{
  RuntimeInstruction, RuntimeInstructions, explode_at_event_location, conditional,
  set_vertical_velocity, set_color, set_speed_multiplier, drop_items, done, next, RuntimeHandler,
  InstructionGraph,
}
use badgerbots_code_studio.RuntimeProtocol.Execution.{
  RuntimeLimits, RuntimeEventContext, Environment, Failure, circuit_breaker, adapter_error,
  no_active_program, Execution, Outcome, execute_handlers,
}

pub data GraphError : Type 0 where
  unsupported_version project_rejected too_many_handlers nesting_too_deep : GraphError
  too_many_instructions : GraphError

abbrev pub add_counts : Result GraphError ℕ → Result GraphError ℕ → Result GraphError ℕ
add_counts (ok m) (ok n) = ok (m + n)
add_counts (ok m) (err e) = err e
add_counts (err e) n = err e

abbrev pub check_depth : ℕ → Result GraphError ℕ → Result GraphError ℕ
check_depth depth count = if ltb 8 depth then err nesting_too_deep else count

-- `countInstructions`, and its sum over one array.
unfoldable mutual
  pub count_instruction : RuntimeInstruction → ℕ → Result GraphError ℕ
  count_instruction (conditional id condition body) depth =
      add_counts (ok 1) (check_depth (depth + 1) (sum_instructions body (depth + 1)))
  count_instruction (explode_at_event_location id power) depth = ok 1
  count_instruction (set_vertical_velocity id value) depth = ok 1
  count_instruction (set_color id) depth = ok 1
  count_instruction (set_speed_multiplier id multiplier) depth = ok 1
  count_instruction (drop_items id quantity) depth = ok 1

  pub sum_instructions : RuntimeInstructions → ℕ → Result GraphError ℕ
  sum_instructions done depth = ok 0
  sum_instructions (next i is) depth =
      add_counts (count_instruction i depth) (sum_instructions is depth)

unfoldable pub count_instructions : RuntimeInstructions → ℕ → Result GraphError ℕ
count_instructions is depth = check_depth depth (sum_instructions is depth)

abbrev pub check_count : RuntimeLimits → Result GraphError ℕ → Option GraphError
check_count limits (ok n) =
    if ltb limits.maximum_instructions_per_event n then some too_many_instructions else none
check_count limits (err e) = some e

unfoldable pub check_handlers : RuntimeLimits → List RuntimeHandler → Option GraphError
check_handlers limits [] = none
check_handlers limits (h ∷ hs) = elim (check_count limits (count_instructions h.instructions 1)) [
  | none ↦ check_handlers limits hs
  | some e ↦ some e
]

-- `assertGraph`: `none` if the graph is accepted.
unfoldable pub assert_graph : InstructionGraph → RuntimeLimits → Option GraphError
assert_graph g limits =
    if not (g.graph_version == 2) || not (g.program_schema_version == 2)
    then some unsupported_version
    else (if not (str_eq g.project_id "sheep-city")
        then some project_rejected
        else (if ltb limits.maximum_handlers (length g.handlers)
            then some too_many_handlers
            else check_handlers limits g.handlers))

pub record ActiveProgram : Type 0 where
  pub scope : ExecutionScopeKey
  pub graph : InstructionGraph

pub record Runtime : Type 0 where
  pub active : List (String × ActiveProgram)
  pub registry : Registry

pub data DeploymentError : Type 0 where
  graph_error : GraphError → DeploymentError
  scope_exists : DeploymentError

-- The version that is active now and the one that it replaced, or the error and the version kept.
pub data DeploymentResult : Type 0 where
  deployed : String → Option String → DeploymentResult
  retained : DeploymentError → Option String → DeploymentResult

abbrev pub version_of : Option ActiveProgram → Option String
version_of none = none
version_of (some p) = some p.scope.program_version_id

module _ (returns : ℕ → Bool) (limits : RuntimeLimits) where
  abbrev pub stop_previous : Option ActiveProgram → Registry → Registry
  stop_previous none r = r
  stop_previous (some p) r = (stop returns p.scope r).0

  -- The end of `deploy`, once the new scope was created.
  abbrev pub replace : ExecutionScopeKey → InstructionGraph → Runtime → Registry → Runtime
  replace scope g rt r =
      let key = active_key scope.address in
      record {
        active = insert key (record { scope = scope; graph = g }) rt.active;
        registry = stop_previous (lookup key rt.active) r;
      }

  unfoldable pub deploy :
      RuntimeScopeAddress → String → InstructionGraph → Runtime → Runtime × DeploymentResult
  deploy address version g rt =
      let previous = lookup (active_key address) rt.active in
      let scope : ExecutionScopeKey = record { address = address; program_version_id = version } in
      elim (assert_graph g limits) [
        | some e ↦ (rt, retained (graph_error e) (version_of previous))
        | none ↦ elim (create scope rt.registry) [
          | none ↦ (rt, retained scope_exists (version_of previous))
          | some r ↦ (replace scope g rt r, deployed version (version_of previous))
        ]
      ]

  unfoldable pub stop_program : RuntimeScopeAddress → Runtime → Runtime × ScopeStopResult
  stop_program address rt = elim (lookup (active_key address) rt.active) [
    | none ↦ (rt, no_stop)
    | some p ↦
        let (r, result) = stop returns p.scope rt.registry in
        (record { active = delete (active_key address) rt.active; registry = r }, result)
  ]

  unfoldable pub stop_all_programs : Runtime → Runtime × ScopeStopResult
  stop_all_programs rt =
      let (r, result) = stop_all returns rt.registry in
      (record { active = []; registry = r }, result)

  abbrev pub fresh_execution : Environment → Execution
  fresh_execution environment = record {
    instructions = 0;
    explosions = 0;
    item_drops = pos 0;
    started_at = environment.clock 0;
    calls = [];
    readings = 1;
  }

  -- What `execute` does with the outcome: a circuit breaker stops the program; any other failure is
  -- passed on.
  abbrev pub conclude : RuntimeScopeAddress → Runtime → Option Failure → Runtime
  conclude address rt none = rt
  conclude address rt (some (circuit_breaker code id)) = (stop_program address rt).0
  conclude address rt (some adapter_error) = rt
  conclude address rt (some no_active_program) = rt

  -- The state of the runtime and of the execution, and the failure that is thrown.
  unfoldable pub run_program :
      Environment
      → RuntimeScopeAddress
      → RuntimeEventContext
      → ActiveProgram
      → Runtime
      → Runtime × Outcome
  run_program environment address event p rt =
      let outcome =
        execute_handlers environment limits p.scope event p.graph.handlers
          (fresh_execution environment) in
      (conclude address rt outcome.1, outcome)

  unfoldable pub execute :
      Environment → RuntimeScopeAddress → RuntimeEventContext → Runtime → Runtime × Outcome
  execute environment address event rt = elim (lookup (active_key address) rt.active) [
    | none ↦ (rt, (fresh_execution environment, some no_active_program))
    | some p ↦
        if is_active p.scope rt.registry
        then run_program environment address event p rt
        else (rt, (fresh_execution environment, some no_active_program))
  ]
