-- ===== src/Tests/Runtimes.antt =====
-- The theorems on the runtime, at a runtime to which programs of two students are deployed.
use badgerbots_code_studio.Prelude.{
  ℕ, ◌≡◌, ◌≢◌, ◌+◌, ◌++◌, refl, sym, ◌∙◌, some_injective, ap, String, Bool, true, false, some, List,
  [], ◌∷◌, whole, lookup, UniqueKeys, eq_iff, NoSeparator, not, ◌&&◌, ◌==◌, arith, join, insert,
}
use Prim.Native.Char.{code}
use mathlib.Core.Path.{subst}
use mathlib.Core.Bool.{false≢true}
use mathlib.Core.List.{reverse}
use badgerbots_code_studio.RuntimeProtocol.Address.{
  RuntimeScopeAddress, ExecutionScopeKey, active_key, scope_key, active_key-injective,
  IsPlainAddress, IsPlainScope,
}
use badgerbots_code_studio.RuntimeProtocol.Scopes.{
  Registry, register, create, stop, stop_all, is_active, registered_resource_count,
}
use badgerbots_code_studio.RuntimeProtocol.Scopes.Laws.{stop_lem, stop_all_lem}
use badgerbots_code_studio.RuntimeProtocol.Scopes.History.{creates, stops_all, IsAccounted, no_leak}
use badgerbots_code_studio.RuntimeProtocol.Scopes.History.{run as run_scopes}
use badgerbots_code_studio.RuntimeProtocol.InstructionGraph.{
  InstructionGraph, explode_at_event_location, done, next, projectile_hit,
}
use badgerbots_code_studio.RuntimeProtocol.Execution.{
  sheep_city_runtime_limits, RuntimeEventContext, Environment, gold_block,
}
use badgerbots_code_studio.RuntimeProtocol.Execution.Budget.{AllGiving, Spent}
use badgerbots_code_studio.RuntimeProtocol.Runtime.{
  Runtime, ActiveProgram, deploy, execute, assert_graph, check_handlers, count_instructions,
  sum_instructions,
}
use badgerbots_code_studio.RuntimeProtocol.Runtime.Laws.{IsConsistent}
use badgerbots_code_studio.RuntimeProtocol.Runtime.Effects.{
  Deploys, deploy_atomic, Concludes, execute_within_limits,
}
use badgerbots_code_studio.RuntimeProtocol.Runtime.Operations.{
  RuntimeOperation, deploys, executes, stops, step, run, run-IsConsistent,
}
use badgerbots_code_studio.RuntimeProtocol.Runtime.Isolation.{run_isolated}

abbrev address_of : String → RuntimeScopeAddress
address_of student = record {
  organization_id = "org";
  location_id = "lab";
  session_id = "monday";
  project_id = "sheep-city";
  student_id = student;
  world_id = "world";
}

abbrev ada : RuntimeScopeAddress
ada = address_of "ada"

abbrev bob : RuntimeScopeAddress
bob = address_of "bob"

abbrev scope_of : RuntimeScopeAddress → ExecutionScopeKey
scope_of address = record { address = address; program_version_id = "v1" }

-- Two explosions in one event, one more than the limit.
abbrev bombs : InstructionGraph
bombs = record {
  graph_version = 2;
  program_schema_version = 2;
  program_id = "bombs";
  project_id = "sheep-city";
  handlers =
      record {
        source_node_id = "hit";
        event = projectile_hit;
        instructions =
            next (explode_at_event_location "one" (whole 2))
              (next (explode_at_event_location "two" (whole 2)) done);
      }
      ∷ [];
}

abbrev all_return : ℕ → Bool
all_return resource = true

abbrev empty_registry : Registry
empty_registry = record { scopes = []; cancelled = [] }

abbrev empty_runtime : Runtime
empty_runtime = record { active = []; registry = empty_registry }

abbrev hit : RuntimeEventContext
hit = record { event = projectile_hit }

-- The player stands on gold, no call throws, and a millisecond passes between two readings.
abbrev calm : Environment
calm = record { material = λ calls. gold_block; throws = λ calls call. false; clock = λ n. n }

empty-IsConsistent : IsConsistent empty_runtime
unfolding lookup
empty-IsConsistent = record { each = λ key p h. cc }

-- A test for texts without the separator character.
unfoldable is_plain : String → Bool
is_plain String.[] = true
is_plain (String.◌∷◌ c s) = not (code c == 0x1f) && is_plain s

is_plain_lem : (s : String) → is_plain s ≡ true → NoSeparator s
unfolding is_plain
is_plain_lem String.[] h = tt
is_plain_lem (String.◌∷◌ c s) h = ground (arith, is_plain_lem s)

plain_address : (student : String) → is_plain student ≡ true → IsPlainAddress (address_of student)
unfolding is_plain
plain_address student h = (
  is_plain_lem "org" refl,
  (
    is_plain_lem "lab" refl,
    (
      is_plain_lem "monday" refl,
      (is_plain_lem "sheep-city" refl, (is_plain_lem student h, (is_plain_lem "world" refl, tt))),
    ),
  ),
)

plain_scope :
    (student : String) → is_plain student ≡ true → IsPlainScope (scope_of (address_of student))
unfolding is_plain
plain_scope student h = (
  is_plain_lem "org" refl,
  (
    is_plain_lem "lab" refl,
    (
      is_plain_lem "monday" refl,
      (
        is_plain_lem "sheep-city" refl,
        (is_plain_lem student h, (is_plain_lem "v1" refl, (is_plain_lem "world" refl, tt))),
      ),
    ),
  ),
)

ada_address_plain : IsPlainAddress ada
unfolding is_plain
ada_address_plain = plain_address "ada" refl

bob_address_plain : IsPlainAddress bob
unfolding is_plain
bob_address_plain = plain_address "bob" refl

ada_plain : IsPlainScope (scope_of ada)
unfolding is_plain
ada_plain = plain_scope "ada" refl

bob_plain : IsPlainScope (scope_of bob)
unfolding is_plain
bob_plain = plain_scope "bob" refl

ada_is_not_bob : ada ≢ bob
ada_is_not_bob e = false≢true ((eq_iff "ada" "bob").1 (ap (λ a. a.student_id) e))

active_key-injective_example : ada ≡ ada
active_key-injective_example = active_key-injective ada ada ada_address_plain ada_address_plain refl

-- A scope that holds two resources.
abbrev ada_registry : Registry
ada_registry = record {
  scopes = (scope_key (scope_of ada), record { stopped = false; resources = 1 ∷ 2 ∷ [] }) ∷ [];
  cancelled = [];
}

ada_registry_has :
    lookup (scope_key (scope_of ada)) ada_registry.scopes
    ≡ some (record { stopped = false; resources = 1 ∷ 2 ∷ [] })
unfolding lookup scope_key join
ada_registry_has = refl

stop_lem_example :
    let (r', result) = stop all_return (scope_of ada) ada_registry in
    (is_active (scope_of ada) r' ≡ false)
    × (r'.cancelled ≡ [] ++ reverse (1 ∷ 2 ∷ []))
    × (result.cancelled_resources + result.cancellation_failures ≡ 2)
    × ((j : String)
        → j ≢ scope_key (scope_of ada)
        → lookup j r'.scopes ≡ lookup j ada_registry.scopes)
stop_lem_example =
    stop_lem all_return (scope_of ada) (record { stopped = false; resources = 1 ∷ 2 ∷ [] })
      ada_registry ada_registry_has

ada_registry-UniqueKeys : UniqueKeys ada_registry.scopes
unfolding lookup
ada_registry-UniqueKeys = (refl, tt)

stop_all_lem_example :
    let (r', result) = stop_all all_return ada_registry in
    (r'.scopes ≡ [])
    × (result.cancelled_resources + result.cancellation_failures
        ≡ registered_resource_count ada_registry)
stop_all_lem_example = stop_all_lem all_return ada_registry ada_registry-UniqueKeys

no_leak_example : IsAccounted 3 (
    run_scopes all_return
      (stops_all ∷ creates (scope_of bob) ∷ [])
      (register (scope_of ada) 3 ada_registry).0)
no_leak_example =
    no_leak all_return 3 (scope_of ada) ada_registry (stops_all ∷ creates (scope_of bob) ∷ [])

deploy_atomic_example :
    let (rt', result) = deploy all_return sheep_city_runtime_limits ada "v1" bombs empty_runtime in
    Deploys all_return sheep_city_runtime_limits (scope_of ada) bombs empty_runtime rt' result
deploy_atomic_example =
    deploy_atomic all_return sheep_city_runtime_limits ada "v1" bombs empty_runtime ada_plain
      empty-IsConsistent

abbrev ada_deployed : Runtime
ada_deployed = (deploy all_return sheep_city_runtime_limits ada "v1" bombs empty_runtime).0

abbrev ada_operations : List RuntimeOperation
ada_operations = deploys ada "v1" bombs ∷ executes calm ada hit ∷ stops bob ∷ []

run-IsConsistent_example :
    IsConsistent (run all_return sheep_city_runtime_limits ada_operations empty_runtime)
run-IsConsistent_example =
    run-IsConsistent all_return sheep_city_runtime_limits ada_operations empty_runtime
      (ada_plain, (tt, (tt, tt))) empty-IsConsistent

abbrev bob_operations : List RuntimeOperation
bob_operations = deploys bob "v1" bombs ∷ executes calm bob hit ∷ []

ada_deployed-IsConsistent : IsConsistent ada_deployed
unfolding run step
ada_deployed-IsConsistent =
    run-IsConsistent all_return sheep_city_runtime_limits (deploys ada "v1" bombs ∷ [])
      empty_runtime (ada_plain, tt) empty-IsConsistent

abbrev ada_program : ActiveProgram
ada_program = record { scope = scope_of ada; graph = bombs }

ada_deployed_there : lookup (active_key ada) ada_deployed.active ≡ some ada_program
unfolding lookup active_key deploy join create assert_graph check_handlers count_instructions
    sum_instructions insert
ada_deployed_there = refl

execute_within_limits_example :
    let (rt', (s, failure)) =
      execute all_return sheep_city_runtime_limits calm ada hit ada_deployed in
    Spent calm sheep_city_runtime_limits s
    × Concludes all_return sheep_city_runtime_limits ada ada_deployed rt' failure
execute_within_limits_example =
    execute_within_limits all_return sheep_city_runtime_limits calm ada hit ada_deployed λ p there.
      subst (λ q. AllGiving q.graph.handlers) (some_injective (sym ada_deployed_there ∙ there))
        ((tt, (tt, tt)), tt)

run_isolated_example :
    let rt' = run all_return sheep_city_runtime_limits bob_operations ada_deployed in
    (lookup (active_key ada) rt'.active ≡ some ada_program)
    × (is_active (scope_of ada) rt'.registry ≡ true)
run_isolated_example =
    run_isolated all_return sheep_city_runtime_limits ada ada_program bob_operations ada_deployed
      ada_address_plain ada_deployed-IsConsistent (bob_plain, (tt, tt))
      ((bob_address_plain, ada_is_not_bob), ((bob_address_plain, ada_is_not_bob), tt))
      ada_deployed_there
