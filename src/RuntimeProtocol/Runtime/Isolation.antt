-- ===== src/RuntimeProtocol/Runtime/Isolation.antt =====
-- Operations of `AtomicProgramRuntime` at the addresses of others,
-- packages/runtime-protocol/src/interpreter.ts.
use badgerbots_code_studio.Prelude.{
  ℕ, ◌≡◌, ◌≢◌, refl, ap, ◌∙◌, inl, inr, String, Bool, true, List, [], ◌∷◌, Option, none, some,
  Option-cases, Bool-cases, lookup, lookup-delete, eq_iff, arith, All,
}
use badgerbots_code_studio.RuntimeProtocol.Address.{
  RuntimeScopeAddress, active_key, active_key-injective, IsPlainAddress, IsPlainScope,
}
use badgerbots_code_studio.RuntimeProtocol.Scopes.{is_active}
use badgerbots_code_studio.RuntimeProtocol.InstructionGraph.{InstructionGraph}
use badgerbots_code_studio.RuntimeProtocol.Execution.{
  RuntimeLimits, RuntimeEventContext, Environment, Failure, circuit_breaker, adapter_error,
  no_active_program,
}
use badgerbots_code_studio.RuntimeProtocol.Runtime.{
  Runtime, ActiveProgram, deploy, stop_program, conclude, run_program, execute, deployed, retained,
  DeploymentResult,
}
use badgerbots_code_studio.RuntimeProtocol.Runtime.Laws.{IsConsistent}
use badgerbots_code_studio.RuntimeProtocol.Runtime.Effects.{Deploys, deploy_atomic}
use badgerbots_code_studio.RuntimeProtocol.Runtime.Operations.{
  RuntimeOperation, deploys, stops, stops_all, executes, IsPlainOperation, step, run,
  step-IsConsistent, run-IsConsistent,
}

-- The operation is at another address. Stopping all programs is no such operation.
abbrev pub IsElsewhere : RuntimeScopeAddress → RuntimeOperation → Type 0
IsElsewhere a (deploys b version g) = IsPlainAddress b × (a ≢ b)
IsElsewhere a (stops b) = IsPlainAddress b × (a ≢ b)
IsElsewhere a stops_all = ⊥
IsElsewhere a (executes environment b event) = IsPlainAddress b × (a ≢ b)

module _ (returns : ℕ → Bool) (limits : RuntimeLimits) (j : String) where
  deploy_others :
      (b : RuntimeScopeAddress) (version : String) (g : InstructionGraph) (rt : Runtime)
      → IsPlainScope (record { address = b; program_version_id = version })
      → IsConsistent rt
      → j ≢ active_key b
      → lookup j (deploy returns limits b version g rt).0.active ≡ lookup j rt.active
  deploy_others b version g rt plain c ne =
      let (rt', result) = deploy returns limits b version g rt in
      by_result rt' result (deploy_atomic returns limits b version g rt plain c)
    where
      by_result :
          (rt' : Runtime) (result : DeploymentResult)
          → Deploys returns limits
              (record { address = b; program_version_id = version })
              g
              rt
              rt'
              result
          → lookup j rt'.active ≡ lookup j rt.active
      by_result rt' (deployed v replaced) d = d.5 j ne
      by_result rt' (retained e kept) d = ap (λ (r : Runtime). lookup j r.active) d.0

  stop_others :
      (b : RuntimeScopeAddress) (rt : Runtime)
      → j ≢ active_key b
      → lookup j (stop_program returns limits b rt).0.active ≡ lookup j rt.active
  unfolding stop_program
  stop_others b rt ne = elim (Option-cases (lookup (active_key b) rt.active)) [
    | inl missing ↦ rw (missing, stop_program) refl
    | inr (q, there) ↦
        rw (there, stop_program)
          (ground (arith, lookup-delete (active_key b) j rt.active, eq_iff (active_key b) j))
  ]

  conclude_others :
      (b : RuntimeScopeAddress) (rt : Runtime) (f : Option Failure)
      → j ≢ active_key b
      → lookup j (conclude returns limits b rt f).active ≡ lookup j rt.active
  conclude_others b rt none ne = refl
  conclude_others b rt (some (circuit_breaker code id)) ne = stop_others b rt ne
  conclude_others b rt (some adapter_error) ne = refl
  conclude_others b rt (some no_active_program) ne = refl

  execute_others :
      (environment : Environment) (b : RuntimeScopeAddress) (event : RuntimeEventContext)
      (rt : Runtime)
      → j ≢ active_key b
      → lookup j (execute returns limits environment b event rt).0.active ≡ lookup j rt.active
  unfolding execute run_program
  execute_others environment b event rt ne = elim (Option-cases (lookup (active_key b) rt.active)) [
    | inl missing ↦ rw (missing, execute) refl
    | inr (p, there) ↦ elim (Bool-cases (is_active p.scope rt.registry)) [
      | inl running ↦ rw (there, execute, running) (conclude_others b rt _ ne)
      | inr idle ↦ rw (there, execute, idle) refl
    ]
  ]

module _ (returns : ℕ → Bool) (limits : RuntimeLimits) (a : RuntimeScopeAddress)
    (plain : IsPlainAddress a) where
  other_key : (b : RuntimeScopeAddress) → IsPlainAddress b × (a ≢ b) → active_key a ≢ active_key b
  other_key b (h, ne) e = ne (active_key-injective a b plain h e)

  step_elsewhere :
      (o : RuntimeOperation) (rt : Runtime)
      → IsConsistent rt
      → IsPlainOperation o
      → IsElsewhere a o
      → lookup (active_key a) (step returns limits o rt).active ≡ lookup (active_key a) rt.active
  unfolding step
  step_elsewhere (deploys b version g) rt c p h =
      deploy_others returns limits (active_key a) b version g rt p c (other_key b h)
  step_elsewhere (stops b) rt c p h = stop_others returns limits (active_key a) b rt (other_key b h)
  step_elsewhere stops_all rt c p h = absurd h
  step_elsewhere (executes environment b event) rt c p h =
      execute_others returns limits (active_key a) environment b event rt (other_key b h)

  run_elsewhere :
      (os : List RuntimeOperation) (rt : Runtime)
      → IsConsistent rt
      → All IsPlainOperation os
      → All (IsElsewhere a) os
      → lookup (active_key a) (run returns limits os rt).active ≡ lookup (active_key a) rt.active
  unfolding run
  run_elsewhere [] rt c ps h = refl
  run_elsewhere (o ∷ os) rt c ps h =
      run_elsewhere os _ (step-IsConsistent returns limits o rt ps.0 c) ps.1 h.1
      ∙ step_elsewhere o rt c ps.0 h.0

-- From a consistent runtime, and with no separator character in an address or a version, deployments,
-- stops and events at other addresses, in any number and order, leave the program at an address in
-- place with its scope active.
pub run_isolated :
    (returns : ℕ → Bool) (limits : RuntimeLimits) (a : RuntimeScopeAddress) (p : ActiveProgram)
    (os : List RuntimeOperation) (rt : Runtime)
    → IsPlainAddress a
    → IsConsistent rt
    → All IsPlainOperation os
    → All (IsElsewhere a) os
    → lookup (active_key a) rt.active ≡ some p
    → let rt' = run returns limits os rt in
      (lookup (active_key a) rt'.active ≡ some p) × (is_active p.scope rt'.registry ≡ true)
run_isolated returns limits a p os rt plain c ps h there =
    let still = run_elsewhere returns limits a plain os rt c ps h ∙ there in
    (still, ((run-IsConsistent returns limits os rt ps c).each (active_key a) p still).running)
