-- ===== src/RuntimeProtocol/Runtime/Operations.antt =====
-- Sequences of operations of `AtomicProgramRuntime`, packages/runtime-protocol/src/interpreter.ts.
use badgerbots_code_studio.Prelude.{
  All, ℕ, inl, inr, String, Bool, List, [], ◌∷◌, Option, none, some, Option-cases, Bool-cases,
  lookup, All,
}
use badgerbots_code_studio.RuntimeProtocol.Address.{
  RuntimeScopeAddress, ExecutionScopeKey, active_key, IsPlainScope,
}
use badgerbots_code_studio.RuntimeProtocol.Scopes.{create, is_active}
use badgerbots_code_studio.RuntimeProtocol.InstructionGraph.{InstructionGraph}
use badgerbots_code_studio.RuntimeProtocol.Execution.{
  RuntimeLimits, RuntimeEventContext, Environment, Failure, circuit_breaker, adapter_error,
  no_active_program,
}
use badgerbots_code_studio.RuntimeProtocol.Runtime.{
  Runtime, deploy, stop_program, stop_all_programs, assert_graph, conclude, run_program, execute,
}
use badgerbots_code_studio.RuntimeProtocol.Runtime.Laws.{
  IsConsistent, replace-IsConsistent, remove-IsConsistent,
}

pub data RuntimeOperation : Type 0 where
  deploys : RuntimeScopeAddress → String → InstructionGraph → RuntimeOperation
  stops : RuntimeScopeAddress → RuntimeOperation
  stops_all : RuntimeOperation
  executes : Environment → RuntimeScopeAddress → RuntimeEventContext → RuntimeOperation

-- A deployed scope has no separator character in its parts.
abbrev pub IsPlainOperation : RuntimeOperation → Type 0
IsPlainOperation (deploys address version g) =
    IsPlainScope (record { address = address; program_version_id = version })
IsPlainOperation (stops address) = Unit
IsPlainOperation stops_all = Unit
IsPlainOperation (executes environment address event) = Unit

module _ (returns : ℕ → Bool) (limits : RuntimeLimits) where
  unfoldable pub step : RuntimeOperation → Runtime → Runtime
  step (deploys address version g) rt = (deploy returns limits address version g rt).0
  step (stops address) rt = (stop_program returns limits address rt).0
  step stops_all rt = (stop_all_programs returns limits rt).0
  step (executes environment address event) rt =
      (execute returns limits environment address event rt).0

  unfoldable pub run : List RuntimeOperation → Runtime → Runtime
  run [] rt = rt
  run (o ∷ os) rt = run os (step o rt)

  deploy-IsConsistent :
      (address : RuntimeScopeAddress) (version : String) (g : InstructionGraph) (rt : Runtime)
      → IsPlainScope (record { address = address; program_version_id = version })
      → IsConsistent rt
      → IsConsistent (deploy returns limits address version g rt).0
  unfolding deploy
  deploy-IsConsistent address version g rt plain c = elim (Option-cases (assert_graph g limits)) [
    | inr (e, bad) ↦ rw (bad, deploy) c
    | inl good ↦ elim (Option-cases (create scope rt.registry)) [
      | inl taken ↦ rw (good, deploy, taken) c
      | inr (r, made) ↦
          rw (good, deploy, made) (replace-IsConsistent returns limits scope g rt r plain made c)
    ]
  ]
    where
      scope : ExecutionScopeKey
      scope = record { address = address; program_version_id = version }

  stop-IsConsistent :
      (address : RuntimeScopeAddress) (rt : Runtime)
      → IsConsistent rt
      → IsConsistent (stop_program returns limits address rt).0
  unfolding stop_program
  stop-IsConsistent address rt c = elim (Option-cases (lookup (active_key address) rt.active)) [
    | inl missing ↦ rw (missing, stop_program) c
    | inr (q, there) ↦
        rw (there, stop_program) (remove-IsConsistent returns limits address q rt there c)
  ]

  conclude-IsConsistent :
      (address : RuntimeScopeAddress) (rt : Runtime) (o : Option Failure)
      → IsConsistent rt
      → IsConsistent (conclude returns limits address rt o)
  conclude-IsConsistent address rt none c = c
  conclude-IsConsistent address rt (some (circuit_breaker code id)) c =
      stop-IsConsistent address rt c
  conclude-IsConsistent address rt (some adapter_error) c = c
  conclude-IsConsistent address rt (some no_active_program) c = c

  execute-IsConsistent :
      (environment : Environment) (address : RuntimeScopeAddress) (event : RuntimeEventContext)
      (rt : Runtime)
      → IsConsistent rt
      → IsConsistent (execute returns limits environment address event rt).0
  unfolding execute run_program
  execute-IsConsistent environment address event rt c =
      elim (Option-cases (lookup (active_key address) rt.active)) [
        | inl missing ↦ rw (missing, execute) c
        | inr (p, there) ↦ elim (Bool-cases (is_active p.scope rt.registry)) [
          | inl running ↦ rw (there, execute, running) (conclude-IsConsistent address rt _ c)
          | inr idle ↦ rw (there, execute, idle) c
        ]
      ]

  pub step-IsConsistent :
      (o : RuntimeOperation) (rt : Runtime)
      → IsPlainOperation o
      → IsConsistent rt
      → IsConsistent (step o rt)
  unfolding step stop_all_programs lookup
  step-IsConsistent (deploys address version g) rt plain c =
      deploy-IsConsistent address version g rt plain c
  step-IsConsistent (stops address) rt plain c = stop-IsConsistent address rt c
  step-IsConsistent stops_all rt plain c = record { each = λ key p h. cc }
  step-IsConsistent (executes environment address event) rt plain c =
      execute-IsConsistent environment address event rt c

  -- After any sequence of deployments to scopes without the separator character, of stops and of
  -- events, every active program stands under the key of its own address and its scope is active in
  -- the registry, if this held before.
  pub run-IsConsistent :
      (os : List RuntimeOperation) (rt : Runtime)
      → All IsPlainOperation os
      → IsConsistent rt
      → IsConsistent (run os rt)
  unfolding run
  run-IsConsistent [] rt plain c = c
  run-IsConsistent (o ∷ os) rt plain c =
      run-IsConsistent os (step o rt) plain.1 (step-IsConsistent o rt plain.0 c)
