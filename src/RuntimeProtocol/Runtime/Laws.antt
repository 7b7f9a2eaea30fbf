-- ===== src/RuntimeProtocol/Runtime/Laws.antt =====
-- The map of active programs against the scope registry: the invariant of `AtomicProgramRuntime`,
-- packages/runtime-protocol/src/interpreter.ts.
use mathlib.Core.Path.{subst}
use mathlib.Core.Bool.{false≢true}
use badgerbots_code_studio.Prelude.{
  ℕ, ◌≡◌, ◌≢◌, refl, ap, ◌∙◌, sym, inl, inr, String, Bool, true, false, Option, none, some,
  Bool-cases, lookup, insert, delete, lookup-insert, lookup-delete, str_eq, eq_iff, arith,
  if◌then◌else◌,
}
use badgerbots_code_studio.RuntimeProtocol.Address.{
  RuntimeScopeAddress, ExecutionScopeKey, active_key, scope_key, IsPlainScope, scope_key-injective,
}
use badgerbots_code_studio.RuntimeProtocol.Scopes.{
  Registry, create, stop, stop_scope, is_active, new_scope,
}
use badgerbots_code_studio.RuntimeProtocol.InstructionGraph.{InstructionGraph}
use badgerbots_code_studio.RuntimeProtocol.Execution.{RuntimeLimits}
use badgerbots_code_studio.RuntimeProtocol.Runtime.{Runtime, ActiveProgram, replace, stop_previous}

-- Each active program stands under the key of its address and its scope is active.
pub record InStep (rt : Runtime) (key : String) (p : ActiveProgram) : Type 0 where
  pub keyed : key ≡ active_key p.scope.address
  pub plain : IsPlainScope p.scope
  pub running : is_active p.scope rt.registry ≡ true

pub record IsConsistent (rt : Runtime) : Type 0 where
  pub each : (key : String) (p : ActiveProgram) → lookup key rt.active ≡ some p → InStep rt key p

module _ (returns : ℕ → Bool) (limits : RuntimeLimits) where
  pub is_active-stop :
      (k l : ExecutionScopeKey) (r : Registry)
      → scope_key k ≢ scope_key l
      → is_active k (stop returns l r).0 ≡ is_active k r
  unfolding is_active stop stop_scope
  is_active-stop k l r ne = ground (
    arith,
    lookup-delete (scope_key l) (scope_key k) r.scopes,
    eq_iff (scope_key l) (scope_key k),
  )

  is_active-create :
      (k l : ExecutionScopeKey) (r r' : Registry)
      → create l r ≡ some r'
      → is_active k r' ≡ (if str_eq (scope_key l) (scope_key k) then true else is_active k r)
  unfolding is_active create
  is_active-create k l r r' e =
      ground (arith, lookup-insert (scope_key l) (scope_key k) new_scope r.scopes)

  is_active-stop_previous :
      (k : ExecutionScopeKey) (previous : Option ActiveProgram) (r : Registry)
      → ((p : ActiveProgram) → previous ≡ some p → scope_key k ≢ scope_key p.scope)
      → is_active k (stop_previous returns limits previous r) ≡ is_active k r
  is_active-stop_previous k none r ne = refl
  is_active-stop_previous k (some p) r ne = is_active-stop k p.scope r (ne p refl)

  -- Scopes of programs under different keys have different keys in the registry.
  pub different_scopes :
      {rt : Runtime} {j k : String} {p q : ActiveProgram}
      → InStep rt j p
      → InStep rt k q
      → j ≢ k
      → scope_key p.scope ≢ scope_key q.scope
  different_scopes {p = p} {q = q} a b ne e = ne (
      a.keyed ∙ ap active_key (scope_key-injective p.scope q.scope a.plain b.plain e) ∙ sym b.keyed)

  -- A program that is replaced had a scope of its own: the new scope did not exist.
  create_fresh :
      (k : ExecutionScopeKey) (r r' : Registry) → create k r ≡ some r' → is_active k r ≡ false
  unfolding create is_active
  create_fresh k r r' e = ground arith

  is_active_cong :
      (k l : ExecutionScopeKey) (r : Registry)
      → scope_key k ≡ scope_key l
      → is_active k r ≡ is_active l r
  unfolding is_active
  is_active_cong k l r e = rw (e, is_active)

  module _ (scope : ExecutionScopeKey) (g : InstructionGraph) (rt : Runtime) (r : Registry)
      (plain : IsPlainScope scope) (made : create scope rt.registry ≡ some r)
      (c : IsConsistent rt) where
    abbrev pub new_program : ActiveProgram
    new_program = record { scope = scope; graph = g }

    abbrev pub new_key : String
    new_key = active_key scope.address

    not_previous :
        (q : ActiveProgram)
        → lookup new_key rt.active ≡ some q
        → scope_key scope ≢ scope_key q.scope
    not_previous q h e = false≢true (
        sym (create_fresh scope rt.registry r made)
        ∙ is_active_cong scope q.scope rt.registry e
        ∙ (c.each new_key q h).running)

    pub new_running :
        is_active scope (stop_previous returns limits (lookup new_key rt.active) r) ≡ true
    new_running =
        is_active-stop_previous scope (lookup new_key rt.active) r not_previous
        ∙ is_active-create scope scope rt.registry r made
        ∙ rw ((eq_iff (scope_key scope) (scope_key scope)).1 refl)

    pub old_running :
        (key : String) (p : ActiveProgram)
        → InStep rt key p
        → key ≢ new_key
        → is_active p.scope (stop_previous returns limits (lookup new_key rt.active) r) ≡ true
    old_running key p a ne =
        is_active-stop_previous p.scope (lookup new_key rt.active) r
          (λ q h. different_scopes a (c.each new_key q h) ne)
        ∙ is_active-create p.scope scope rt.registry r made
        ∙ rw a.running (if_same (str_eq (scope_key scope) (scope_key p.scope)))
      where
        if_same : (b : Bool) → (if b then true else true) ≡ true
        if_same true = refl
        if_same false = refl

    pub replace-IsConsistent : IsConsistent (replace returns limits scope g rt r)
    replace-IsConsistent = record { each = each }
      where
        each :
            (key : String) (p : ActiveProgram)
            → lookup key (insert new_key new_program rt.active) ≡ some p
            → InStep (replace returns limits scope g rt r) key p
        each key p h = elim (Bool-cases (str_eq new_key key)) [
          | inl same ↦
              let found : ◌≡◌ {A = Option ActiveProgram} (some new_program) (some p) =
                rw (lookup-insert new_key key new_program rt.active, same) at h in
              let e : new_program ≡ p = cc in
              subst (λ q. InStep (replace returns limits scope g rt r) key q) e
                (record {
                  keyed = sym ((eq_iff new_key key).0 same);
                  plain = plain;
                  running = new_running;
                })
          | inr other ↦
              let old : lookup key rt.active ≡ some p =
                rw (lookup-insert new_key key new_program rt.active, other) at h in
              let a = c.each key p old in
              let ne : key ≢ new_key =
                λ e. false≢true (sym other ∙ (eq_iff new_key key).1 (sym e)) in
              record { keyed = a.keyed; plain = a.plain; running = old_running key p a ne }
        ]

  -- Taking a program out and stopping its scope.
  pub remove-IsConsistent :
      (address : RuntimeScopeAddress) (q : ActiveProgram) (rt : Runtime)
      → lookup (active_key address) rt.active ≡ some q
      → IsConsistent rt
      → IsConsistent (record {
        active = delete (active_key address) rt.active;
        registry = (stop returns q.scope rt.registry).0;
      })
  remove-IsConsistent address q rt there c = record { each = each }
    where
      each :
          (key : String) (p : ActiveProgram)
          → lookup key (delete (active_key address) rt.active) ≡ some p
          → InStep
              (record {
                active = delete (active_key address) rt.active;
                registry = (stop returns q.scope rt.registry).0;
              })
              key
              p
      each key p h = elim (Bool-cases (str_eq (active_key address) key)) [
        | inl same ↦ cc (rw (lookup-delete (active_key address) key rt.active, same) at h)
        | inr other ↦
            let old : lookup key rt.active ≡ some p =
              rw (lookup-delete (active_key address) key rt.active, other) at h in
            let a = c.each key p old in
            let ne : key ≢ active_key address =
              λ e. false≢true (sym other ∙ (eq_iff (active_key address) key).1 (sym e)) in
            record {
              keyed = a.keyed;
              plain = a.plain;
              running =
                  is_active-stop p.scope q.scope rt.registry
                    (different_scopes a (c.each (active_key address) q there) ne)
                  ∙ a.running;
            }
      ]
