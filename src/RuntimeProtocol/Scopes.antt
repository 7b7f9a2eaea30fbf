-- ===== src/RuntimeProtocol/Scopes.antt =====
-- `ExecutionScopeRegistry` of packages/runtime-protocol/src/interpreter.ts. A resource is an object
-- with an identity, here a number. The calls of its `cancel` are logged in order; whether a call
-- returns or throws is a parameter, since the resources are the host's.
pub mod Laws
pub mod History
use badgerbots_code_studio.Prelude.{
  ℕ, suc, ◌+◌, String, Bool, true, false, List, [], ◌∷◌, ◌++◌, Option, none, some, lookup, insert,
  delete, keys, length, includes, if◌then◌else◌, ◌||◌,
}
use mathlib.Core.List.{reverse}
use native.Mathlib.Decide.{ℕ_discrete}
use badgerbots_code_studio.RuntimeProtocol.Address.{ExecutionScopeKey, scope_key}

pub record ScopeState : Type 0 where
  pub stopped : Bool
  pub resources : List ℕ

-- `cancelled` is the log of all calls of `cancel`.
pub record Registry : Type 0 where
  pub scopes : List (String × ScopeState)
  pub cancelled : List ℕ

pub record ScopeStopResult : Type 0 where
  pub cancelled_resources : ℕ
  pub cancellation_failures : ℕ

abbrev pub no_stop : ScopeStopResult
no_stop = record { cancelled_resources = 0; cancellation_failures = 0 }

abbrev pub new_scope : ScopeState
new_scope = record { stopped = false; resources = [] }

-- `create`: `none` is the exception "Execution scope already exists."
unfoldable pub create : ExecutionScopeKey → Registry → Option Registry
create key r = elim (lookup (scope_key key) r.scopes) [
  | none ↦ some (record r { scopes = insert (scope_key key) new_scope r.scopes })
  | some _ ↦ none
]

-- `Set.add`
unfoldable pub add_resource : ℕ → List ℕ → List ℕ
unfolding ℕ_discrete
add_resource resource resources =
    if includes ℕ_discrete resources resource then resources else resources ++ resource ∷ []

abbrev pub refuse : ℕ → Registry → Registry × Bool
refuse resource r = (record r { cancelled = r.cancelled ++ resource ∷ [] }, false)

-- `register`; the flag is false if it throws, after the resource was asked to cancel.
unfoldable pub register : ExecutionScopeKey → ℕ → Registry → Registry × Bool
register key resource r = elim (lookup (scope_key key) r.scopes) [
  | none ↦ refuse resource r
  | some state ↦ if state.stopped then refuse resource r else (
    record r {
      scopes =
          insert (scope_key key)
            (record state { resources = add_resource resource state.resources }) r.scopes;
    },
    true,
  )
]

module _ (returns : ℕ → Bool) where
  -- The loop over the resources in reverse order, with its counters.
  unfoldable pub cancel_all : List ℕ → ScopeStopResult → ScopeStopResult
  cancel_all [] result = result
  cancel_all (resource ∷ resources) result = cancel_all resources (
      if returns resource
      then record result { cancelled_resources = result.cancelled_resources + 1 }
      else record result { cancellation_failures = result.cancellation_failures + 1 })

  -- The common part of `stop` and of a round of `stopAll` for a scope that is there.
  unfoldable pub stop_scope :
      String → ScopeState → ScopeStopResult → Registry → Registry × ScopeStopResult
  stop_scope id state result r = (
    record r { scopes = delete id r.scopes; cancelled = r.cancelled ++ reverse state.resources },
    cancel_all (reverse state.resources) result,
  )

  unfoldable pub stop : ExecutionScopeKey → Registry → Registry × ScopeStopResult
  stop key r = elim (lookup (scope_key key) r.scopes) [
    | none ↦ (r, no_stop)
    | some state ↦ stop_scope (scope_key key) state no_stop r
  ]

  -- The loop of `stopAll`, over the keys that there were when it began.
  unfoldable pub stop_keys : List String → ScopeStopResult → Registry → Registry × ScopeStopResult
  stop_keys [] result r = (r, result)
  stop_keys (key ∷ keys) result r = elim (lookup key r.scopes) [
    | none ↦ stop_keys keys result r
    | some state ↦ let (r', result') = stop_scope key state result r in stop_keys keys result' r'
  ]

  unfoldable pub stop_all : Registry → Registry × ScopeStopResult
  stop_all r = stop_keys (keys r.scopes) no_stop r

unfoldable pub is_active : ExecutionScopeKey → Registry → Bool
is_active key r = elim (lookup (scope_key key) r.scopes) [ none ↦ false | some _ ↦ true ]

unfoldable pub active_scope_count : Registry → ℕ
active_scope_count r = length r.scopes

unfoldable pub resource_count : List (String × ScopeState) → ℕ
resource_count [] = 0
resource_count ((_, state) ∷ scopes) = length state.resources + resource_count scopes

unfoldable pub registered_resource_count : Registry → ℕ
unfolding resource_count
registered_resource_count r = resource_count r.scopes
