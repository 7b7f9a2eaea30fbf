-- ===== src/RuntimeProtocol/Scopes/Laws.antt =====
-- `stop` and `stopAll` of `ExecutionScopeRegistry`, packages/runtime-protocol/src/interpreter.ts.
use mathlib.Core.List.{reverse}
use badgerbots_code_studio.Prelude.{
  ℕ, ◌+◌, ◌≡◌, ◌≢◌, refl, ap, ◌∙◌, String, Bool, false, List, [], ◌∷◌, ◌++◌, none, some, lookup,
  lookup-delete, delete, keys, length, length-reverse, arith, eq_iff, UniqueKeys, delete_of_missing,
  lookup_head, delete_head,
}
use badgerbots_code_studio.RuntimeProtocol.Address.{ExecutionScopeKey, scope_key}
use badgerbots_code_studio.RuntimeProtocol.Scopes.{
  Registry, ScopeState, ScopeStopResult, no_stop, cancel_all, stop_scope, stop, stop_keys, stop_all,
  is_active, resource_count, registered_resource_count,
}

module _ (returns : ℕ → Bool) where
  abbrev total : ScopeStopResult → ℕ
  total result = result.cancelled_resources + result.cancellation_failures

  pub total-cancel_all :
      (resources : List ℕ) (result : ScopeStopResult)
      → total (cancel_all returns resources result) ≡ total result + length resources
  unfolding cancel_all
  total-cancel_all [] result = omega arith
  total-cancel_all (x ∷ resources) result = ground (
    arith,
    total-cancel_all resources
        (record result { cancelled_resources = result.cancelled_resources + 1 }),
    total-cancel_all resources
        (record result { cancellation_failures = result.cancellation_failures + 1 }),
  )

  -- Stopping a scope that exists: it is no longer active, its resources were asked to cancel once
  -- each, the latest first, the two counters add up to their number, and the other scopes are as
  -- before.
  pub stop_lem :
      (key : ExecutionScopeKey) (state : ScopeState) (r : Registry)
      → lookup (scope_key key) r.scopes ≡ some state
      → let (r', result) = stop returns key r in
        (is_active key r' ≡ false)
        × (r'.cancelled ≡ r.cancelled ++ reverse state.resources)
        × (total result ≡ length state.resources)
        × ((j : String) → j ≢ scope_key key → lookup j r'.scopes ≡ lookup j r.scopes)
  unfolding stop stop_scope is_active
  stop_lem key state r h =
      rw (h, stop)
        (
          gone,
          refl,
          omega (
            arith,
            total-cancel_all (reverse state.resources) no_stop,
            length-reverse state.resources,
          ),
          λ j ne.
              ground (arith, lookup-delete (scope_key key) j r.scopes, eq_iff (scope_key key) j),
        )
    where
      deleted : lookup (scope_key key) (delete (scope_key key) r.scopes) ≡ none
      deleted = ground (
        arith,
        lookup-delete (scope_key key) (scope_key key) r.scopes,
        eq_iff (scope_key key) (scope_key key),
      )

      gone :
          is_active key (record r {
            scopes = delete (scope_key key) r.scopes;
            cancelled = r.cancelled ++ reverse state.resources;
          })
          ≡ false
      gone = rw (deleted, is_active)

  total-stop_keys :
      (m : List (String × ScopeState)) (result : ScopeStopResult) (r : Registry)
      → r.scopes ≡ m
      → UniqueKeys m
      → let (r', result') = stop_keys returns (keys m) result r in
        (r'.scopes ≡ []) × (total result' ≡ total result + resource_count m)
  unfolding stop_keys resource_count stop_scope
  total-stop_keys [] result r e u = (e, omega arith)
  total-stop_keys ((k, state) ∷ m) result r e u =
      let here : lookup k r.scopes ≡ some state = rw e (lookup_head k state m) in
      let left : delete k r.scopes ≡ m =
        ap (delete k) e ∙ delete_head k state m ∙ delete_of_missing k m u.0 in
      let (emptied, counted) =
        total-stop_keys m (cancel_all returns (reverse state.resources) result)
          (record r {
            scopes = delete k r.scopes;
            cancelled = r.cancelled ++ reverse state.resources;
          })
          left u.1 in
      rw (here, stop_keys)
        (
          emptied,
          omega (
            arith,
            counted,
            total-cancel_all (reverse state.resources) result,
            length-reverse state.resources,
          ),
        )

  -- Stopping all scopes leaves none, and the two counters add up to the number of registered
  -- resources.
  pub stop_all_lem :
      (r : Registry)
      → UniqueKeys r.scopes
      → let (r', result) = stop_all returns r in
        (r'.scopes ≡ []) × (total result ≡ registered_resource_count r)
  unfolding stop_all registered_resource_count
  stop_all_lem r u =
      let (emptied, counted) = total-stop_keys r.scopes no_stop r refl u in
      (emptied, omega (arith, counted))
