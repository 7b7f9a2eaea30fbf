-- ===== src/RuntimeProtocol/Runtime/Effects.antt =====
-- One call of `deploy` or `execute` of `AtomicProgramRuntime`,
-- packages/runtime-protocol/src/interpreter.ts.
use badgerbots_code_studio.Prelude.{
  ℕ, ◌≡◌, ◌≢◌, refl, ◌∙◌, inl, inr, String, Bool, true, false, Option, none, some, Option-cases,
  Bool-cases, lookup, insert, lookup-insert, lookup-delete, eq_iff, arith,
}
use badgerbots_code_studio.RuntimeProtocol.Address.{
  RuntimeScopeAddress, ExecutionScopeKey, active_key, scope_key, IsPlainScope,
}
use badgerbots_code_studio.RuntimeProtocol.Scopes.{Registry, create, stop, stop_scope, is_active}
use badgerbots_code_studio.RuntimeProtocol.InstructionGraph.{InstructionGraph}
use badgerbots_code_studio.RuntimeProtocol.Execution.{
  RuntimeLimits, RuntimeEventContext, Environment, Failure, circuit_breaker, adapter_error,
  no_active_program, Execution,
}
use badgerbots_code_studio.RuntimeProtocol.Execution.Budget.{
  AllGiving, Kept, Spent, Kept-Spent, Ensures,
}
use badgerbots_code_studio.RuntimeProtocol.Execution.Within.{handlers-Ensures}
use badgerbots_code_studio.RuntimeProtocol.Runtime.{
  Runtime, ActiveProgram, deploy, stop_program, assert_graph, conclude, run_program, execute,
  deployed, retained, DeploymentResult, DeploymentError, graph_error, scope_exists, version_of,
  fresh_execution,
}
use badgerbots_code_studio.RuntimeProtocol.Runtime.Laws.{IsConsistent, new_running}

module _ (returns : ℕ → Bool) (limits : RuntimeLimits) where
  -- Why a deployment fails.
  abbrev pub Refuses : ExecutionScopeKey → InstructionGraph → Runtime → DeploymentError → Type 0
  Refuses scope g rt (graph_error e) = assert_graph g limits ≡ some e
  Refuses scope g rt scope_exists = is_active scope rt.registry ≡ true

  taken_active :
      (scope : ExecutionScopeKey) (r : Registry) → create scope r ≡ none → is_active scope r ≡ true
  unfolding create is_active
  taken_active scope r h = ground arith

  -- A success makes the graph the active program, with an active scope; a failure changes nothing and
  -- has its reason.
  abbrev pub Deploys :
      ExecutionScopeKey → InstructionGraph → Runtime → Runtime → DeploymentResult → Type 0
  Deploys scope g rt rt' (deployed version replaced) =
      (lookup (active_key scope.address) rt'.active ≡ some (record { scope = scope; graph = g }))
      × (is_active scope rt'.registry ≡ true)
      × (version ≡ scope.program_version_id)
      × (replaced ≡ version_of (lookup (active_key scope.address) rt.active))
      × (assert_graph g limits ≡ none)
      × ((j : String) → j ≢ active_key scope.address → lookup j rt'.active ≡ lookup j rt.active)
  Deploys scope g rt rt' (retained e kept) =
      (rt' ≡ rt)
      × (kept ≡ version_of (lookup (active_key scope.address) rt.active))
      × Refuses scope g rt e

  -- On a consistent runtime and for a scope without the separator character, a deployment either
  -- makes an accepted graph the active program of its address, with an active scope, leaves the
  -- programs of other addresses and names the version it replaced; or it leaves the runtime as it was
  -- and names the version kept, and then the graph was refused or the scope was active already.
  pub deploy_atomic :
      (address : RuntimeScopeAddress) (version : String) (g : InstructionGraph) (rt : Runtime)
      → IsPlainScope (record { address = address; program_version_id = version })
      → IsConsistent rt
      → let (rt', result) = deploy returns limits address version g rt in
        Deploys (record { address = address; program_version_id = version }) g rt rt' result
  unfolding deploy
  deploy_atomic address version g rt plain c = elim (Option-cases (assert_graph g limits)) [
    | inr (e, bad) ↦ rw (bad, deploy) (refl, refl, bad)
    | inl good ↦ elim (Option-cases (create scope rt.registry)) [
      | inl taken ↦ rw (good, deploy, taken) (refl, refl, taken_active scope rt.registry taken)
      | inr (r, made) ↦
          rw (good, deploy, made)
            (
              there,
              new_running returns limits scope g rt r plain made c,
              refl,
              refl,
              good,
              λ j ne. others j ne,
            )
    ]
  ]
    where
      scope : ExecutionScopeKey
      scope = record { address = address; program_version_id = version }

      program : ActiveProgram
      program = record { scope = scope; graph = g }

      there :
          lookup (active_key address) (insert (active_key address) program rt.active) ≡ some program
      there =
          lookup-insert (active_key address) (active_key address) program rt.active
          ∙ rw ((eq_iff (active_key address) (active_key address)).1 refl)

      others :
          (j : String)
          → j ≢ active_key address
          → lookup j (insert (active_key address) program rt.active) ≡ lookup j rt.active
      others j ne = ground (
        arith,
        lookup-insert (active_key address) j program rt.active,
        eq_iff (active_key address) j,
      )

  -- The state after an event: as before, unless a circuit breaker stopped the program.
  abbrev pub Concludes : RuntimeScopeAddress → Runtime → Runtime → Option Failure → Type 0
  Concludes address rt rt' none = rt' ≡ rt
  Concludes address rt rt' (some (circuit_breaker code id)) =
      (lookup (active_key address) rt'.active ≡ none)
      × ((p : ActiveProgram)
          → lookup (active_key address) rt.active ≡ some p
          → is_active p.scope rt'.registry ≡ false)
  Concludes address rt rt' (some adapter_error) = rt' ≡ rt
  Concludes address rt rt' (some no_active_program) = rt' ≡ rt

  stopped-is_active :
      (key : ExecutionScopeKey) (r : Registry) → is_active key (stop returns key r).0 ≡ false
  unfolding is_active stop stop_scope
  stopped-is_active key r = ground (
    arith,
    lookup-delete (scope_key key) (scope_key key) r.scopes,
    eq_iff (scope_key key) (scope_key key),
  )

  stop_ends :
      (address : RuntimeScopeAddress) (rt : Runtime) (p : ActiveProgram)
      → lookup (active_key address) rt.active ≡ some p
      → is_active p.scope (stop_program returns limits address rt).0.registry ≡ false
  unfolding stop_program
  stop_ends address rt p there = rw (there, stop_program) (stopped-is_active p.scope rt.registry)

  stop_removes :
      (address : RuntimeScopeAddress) (rt : Runtime)
      → lookup (active_key address) (stop_program returns limits address rt).0.active ≡ none
  unfolding stop_program
  stop_removes address rt = elim (Option-cases (lookup (active_key address) rt.active)) [
    | inl missing ↦ rw (missing, stop_program) missing
    | inr (q, there) ↦
        rw (there, stop_program)
          (lookup-delete (active_key address) (active_key address) rt.active
            ∙ rw ((eq_iff (active_key address) (active_key address)).1 refl))
  ]

  conclude-Concludes :
      (address : RuntimeScopeAddress) (rt : Runtime) (f : Option Failure)
      → Concludes address rt (conclude returns limits address rt f) f
  conclude-Concludes address rt none = refl
  conclude-Concludes address rt (some (circuit_breaker code id)) =
      (stop_removes address rt, stop_ends address rt)
  conclude-Concludes address rt (some adapter_error) = refl
  conclude-Concludes address rt (some no_active_program) = refl

  fresh-Kept :
      (environment : Environment)
      → Kept environment limits 0 (fresh_execution returns limits environment)
  fresh-Kept environment = record {
    exact_explosions = refl;
    exact_drops = refl;
    few_explosions = omega arith;
    few_drops = omega arith;
    few_instructions = omega arith;
    few_calls = omega arith;
  }

  Ensures-Spent :
      (environment : Environment) (s : Execution) (f : Option Failure)
      → Ensures environment limits 0 (s, f)
      → Spent environment limits s
  Ensures-Spent environment s none k = Kept-Spent environment limits k
  Ensures-Spent environment s (some f) k = k

  -- Whatever graph is active, as long as it drops no negative quantity, an event asks the world for no
  -- more explosions and dropped items than the limits allow, and makes at most two calls for each
  -- instruction of the limit; if a circuit breaker trips, the address has no program any more and the
  -- scope of the one it had is no longer active; after any other end the runtime is as it was.
  pub execute_within_limits :
      (environment : Environment) (address : RuntimeScopeAddress) (event : RuntimeEventContext)
      (rt : Runtime)
      → ((p : ActiveProgram)
          → lookup (active_key address) rt.active ≡ some p
          → AllGiving p.graph.handlers)
      → let (rt', (s, failure)) = execute returns limits environment address event rt in
        Spent environment limits s × Concludes address rt rt' failure
  unfolding execute run_program
  execute_within_limits environment address event rt giving =
      elim (Option-cases (lookup (active_key address) rt.active)) [
        | inl missing ↦
            rw (missing, execute) (Kept-Spent environment limits (fresh-Kept environment), refl)
        | inr (p, there) ↦ elim (Bool-cases (is_active p.scope rt.registry)) [
          | inl running ↦
              rw (there, execute, running)
                (
                  Ensures-Spent environment _ _ (
                      handlers-Ensures environment limits p.scope event p.graph.handlers
                        (fresh_execution returns limits environment) (giving p there)
                        (fresh-Kept environment)),
                  conclude-Concludes address rt _,
                )
          | inr idle ↦
              rw (there, execute, idle)
                (Kept-Spent environment limits (fresh-Kept environment), refl)
        ]
      ]
