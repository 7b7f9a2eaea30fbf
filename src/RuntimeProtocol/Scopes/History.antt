-- ===== src/RuntimeProtocol/Scopes/History.antt =====
-- Sequences of operations of `ExecutionScopeRegistry` and what becomes of one resource:
-- packages/runtime-protocol/src/interpreter.ts.
use mathlib.Core.List.{reverse}
use mathlib.Core.Path.{subst}
use badgerbots_code_studio.Prelude.{
  ℕ, ◌≡◌, refl, inl, inr, String, Bool, true, false, List, [], ◌∷◌, ◌++◌, Option, none, some,
  Option-cases, Bool-cases, lookup, insert, lookup-insert, lookup-delete, keys, Any, Any-append,
  Any-reverse, eq_iff, str_eq, includes, is_same, is_same-true_iff,
}
use native.Mathlib.Decide.{ℕ_discrete}
use badgerbots_code_studio.RuntimeProtocol.Address.{ExecutionScopeKey, scope_key}
use badgerbots_code_studio.RuntimeProtocol.Scopes.{
  Registry, ScopeState, ScopeStopResult, no_stop, create, add_resource, register, stop_scope, stop,
  stop_keys, stop_all, new_scope,
}

abbrev pub Contains : ℕ → List ℕ → Type 0
Contains resource = Any (λ x. x ≡ resource)

-- A scope holds the resource, or its `cancel` was called.
pub data IsAccounted (resource : ℕ) (r : Registry) : Type 0 where
  held :
      (key : String) (state : ScopeState)
      → lookup key r.scopes ≡ some state
      → Contains resource state.resources
      → IsAccounted resource r
  cancelled : Contains resource r.cancelled → IsAccounted resource r

pub data Operation : Type 0 where
  creates stops : ExecutionScopeKey → Operation
  registers : ExecutionScopeKey → ℕ → Operation
  stops_all : Operation

abbrev or_same : Registry → Option Registry → Registry
or_same r none = r
or_same r (some r') = r'

Contains-add : (x y : ℕ) (xs : List ℕ) → Contains x xs → Contains x (add_resource y xs)
unfolding add_resource
Contains-add x y xs h = elim (Bool-cases (includes ℕ_discrete xs y)) [
  | inl old ↦ rw old h
  | inr new ↦ rw new (Any-append (λ n. n ≡ x) xs (y ∷ []) (inl h))
]

Contains-add_self : (x : ℕ) (xs : List ℕ) → Contains x (add_resource x xs)
unfolding add_resource
Contains-add_self x xs = elim (Bool-cases (includes ℕ_discrete xs x)) [
  | inl old ↦ rw old (found xs old)
  | inr new ↦ rw new (Any-append (λ n. n ≡ x) xs (x ∷ []) (inr (inl refl)))
]
  where
    found : (ys : List ℕ) → includes ℕ_discrete ys x ≡ true → Contains x ys
    found [] h = cc
    found (y ∷ ys) h = elim (Bool-cases (is_same ℕ_discrete y x)) [
      | inl same ↦ inl ((is_same-true_iff ℕ_discrete y x).0 same)
      | inr other ↦ inr (found ys (rw other at h))
    ]

module _ (returns : ℕ → Bool) where
  unfoldable pub step : Operation → Registry → Registry
  step (creates key) r = or_same r (create key r)
  step (registers key resource) r = (register key resource r).0
  step (stops key) r = (stop returns key r).0
  step stops_all r = (stop_all returns r).0

  unfoldable pub run : List Operation → Registry → Registry
  run [] r = r
  run (o ∷ os) r = run os (step o r)

module _ (resource : ℕ) where
  same_state :
      (s t : ScopeState)
      → ◌≡◌ {A = Option ScopeState} (some s) (some t)
      → Contains resource s.resources
      → Contains resource t.resources
  same_state s t e c =
      let e' : s ≡ t = cc in subst (λ (u : ScopeState). Contains resource u.resources) e' c

  -- A scope that is entered or replaced keeps what the old one held.
  insert-IsAccounted :
      (key : String) (new : ScopeState) (r : Registry)
      → ((old : ScopeState)
          → lookup key r.scopes ≡ some old
          → Contains resource old.resources
          → Contains resource new.resources)
      → IsAccounted resource r
      → IsAccounted resource (record r { scopes = insert key new r.scopes })
  insert-IsAccounted key new r keep (cancelled c) = cancelled c
  insert-IsAccounted key new r keep (held k old e c) = elim (Bool-cases (str_eq key k)) [
    | inl same ↦
        held k new (rw (lookup-insert key k new r.scopes, same))
          (keep old (rw ((eq_iff key k).0 same) e) c)
    | inr other ↦ held k old (rw (lookup-insert key k new r.scopes, other) e) c
  ]

  log-IsAccounted :
      (x : ℕ) (r : Registry)
      → IsAccounted resource r
      → IsAccounted resource (record r { cancelled = r.cancelled ++ x ∷ [] })
  log-IsAccounted x r (held k old e c) = held k old e c
  log-IsAccounted x r (cancelled c) =
      cancelled (Any-append (λ n. n ≡ resource) r.cancelled (x ∷ []) (inl c))

  create-IsAccounted :
      (key : ExecutionScopeKey) (r : Registry)
      → IsAccounted resource r
      → IsAccounted resource (or_same r (create key r))
  unfolding create
  create-IsAccounted key r a = elim (Option-cases (lookup (scope_key key) r.scopes)) [
    | inl free ↦
        rw (free, create) (insert-IsAccounted (scope_key key) new_scope r (λ old e c. cc) a)
    | inr (state, taken) ↦ rw (taken, create) a
  ]

  register-IsAccounted :
      (key : ExecutionScopeKey) (x : ℕ) (r : Registry)
      → IsAccounted resource r
      → IsAccounted resource (register key x r).0
  unfolding register
  register-IsAccounted key x r a = elim (Option-cases (lookup (scope_key key) r.scopes)) [
    | inl missing ↦ rw (missing, register) (log-IsAccounted x r a)
    | inr (state, there) ↦ elim (Bool-cases state.stopped) [
      | inl stopped ↦ rw (there, register, stopped) (log-IsAccounted x r a)
      | inr running ↦
          rw (there, register, running)
            (insert-IsAccounted (scope_key key) _ r
              (λ old e c. Contains-add resource x state.resources (same_state old state (cc) c)) a)
    ]
  ]

  -- The resource that is registered, or refused, is accounted for.
  register_self :
      (key : ExecutionScopeKey) (r : Registry) → IsAccounted resource (register key resource r).0
  unfolding register
  register_self key r = elim (Option-cases (lookup (scope_key key) r.scopes)) [
    | inl missing ↦
        rw (missing, register)
          (cancelled (Any-append (λ n. n ≡ resource) r.cancelled (resource ∷ []) (inr (inl refl))))
    | inr (state, there) ↦ elim (Bool-cases state.stopped) [
      | inl stopped ↦
          rw (there, register, stopped)
            (cancelled
              (Any-append (λ n. n ≡ resource) r.cancelled (resource ∷ []) (inr (inl refl))))
      | inr running ↦
          rw (there, register, running)
            (held (scope_key key)
              (record { stopped = false; resources = add_resource resource state.resources })
              (rw (lookup-insert (scope_key key) (scope_key key) _ r.scopes, self))
              (Contains-add_self resource state.resources))
    ]
  ]
    where
      self : str_eq (scope_key key) (scope_key key) ≡ true
      self = (eq_iff (scope_key key) (scope_key key)).1 refl

  module _ (returns : ℕ → Bool) where
    stop_scope-IsAccounted :
        (key : String) (state : ScopeState) (result : ScopeStopResult) (r : Registry)
        → lookup key r.scopes ≡ some state
        → IsAccounted resource r
        → IsAccounted resource (stop_scope returns key state result r).0
    unfolding stop_scope
    stop_scope-IsAccounted key state result r h (cancelled c) =
        cancelled (Any-append (λ n. n ≡ resource) r.cancelled (reverse state.resources) (inl c))
    stop_scope-IsAccounted key state result r h (held k s e c) = elim (Bool-cases (str_eq key k)) [
      | inl same ↦
          let e' : lookup key r.scopes ≡ some s = rw ((eq_iff key k).0 same) e in
          let there : Contains resource state.resources = same_state s state (cc) c in
          cancelled (
            Any-append (λ n. n ≡ resource) r.cancelled (reverse state.resources)
              (inr (Any-reverse (λ n. n ≡ resource) state.resources there)))
      | inr other ↦ held k s (rw (lookup-delete key k r.scopes, other) e) c
    ]

    stop-IsAccounted :
        (key : ExecutionScopeKey) (r : Registry)
        → IsAccounted resource r
        → IsAccounted resource (stop returns key r).0
    unfolding stop
    stop-IsAccounted key r a = elim (Option-cases (lookup (scope_key key) r.scopes)) [
      | inl missing ↦ rw (missing, stop) a
      | inr (state, there) ↦
          rw (there, stop) (stop_scope-IsAccounted (scope_key key) state no_stop r there a)
    ]

    stop_keys-IsAccounted :
        (ks : List String) (result : ScopeStopResult) (r : Registry)
        → IsAccounted resource r
        → IsAccounted resource (stop_keys returns ks result r).0
    unfolding stop_keys
    stop_keys-IsAccounted [] result r a = a
    stop_keys-IsAccounted (k ∷ ks) result r a = elim (Option-cases (lookup k r.scopes)) [
      | inl missing ↦ rw (missing, stop_keys) (stop_keys-IsAccounted ks result r a)
      | inr (state, there) ↦
          rw (there, stop_keys)
            (stop_keys-IsAccounted ks _ _ (stop_scope-IsAccounted k state result r there a))
    ]

    step-IsAccounted :
        (o : Operation) (r : Registry)
        → IsAccounted resource r
        → IsAccounted resource (step returns o r)
    unfolding step stop_all
    step-IsAccounted (creates key) r a = create-IsAccounted key r a
    step-IsAccounted (registers key x) r a = register-IsAccounted key x r a
    step-IsAccounted (stops key) r a = stop-IsAccounted key r a
    step-IsAccounted stops_all r a = stop_keys-IsAccounted (keys r.scopes) no_stop r a

    pub run-IsAccounted :
        (os : List Operation) (r : Registry)
        → IsAccounted resource r
        → IsAccounted resource (run returns os r)
    unfolding run
    run-IsAccounted [] r a = a
    run-IsAccounted (o ∷ os) r a = run-IsAccounted os _ (step-IsAccounted o r a)

-- Whatever happens after a call of `register`, the resource is held by a scope or was asked to cancel.
pub no_leak :
    (returns : ℕ → Bool) (resource : ℕ) (key : ExecutionScopeKey) (r : Registry)
    (os : List Operation)
    → IsAccounted resource (run returns os (register key resource r).0)
no_leak returns resource key r os =
    run-IsAccounted resource returns os _ (register_self resource key r)
