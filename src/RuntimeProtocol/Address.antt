-- ===== src/RuntimeProtocol/Address.antt =====
-- The addresses of packages/runtime-protocol: `RuntimeScopeAddress` of src/envelope.ts, and
-- `ExecutionScopeKey` with the two map keys of src/interpreter.ts.
use badgerbots_code_studio.Prelude.{
  ◌≡◌, String, List, [], ◌∷◌, All, join, join-injective, NoSeparator, refl, arith,
}

pub record RuntimeScopeAddress : Type 0 where
  pub organization_id : String
  pub location_id : String
  pub session_id : String
  pub project_id : String
  pub student_id : String
  pub world_id : String

pub record ExecutionScopeKey : Type 0 where
  pub address : RuntimeScopeAddress
  pub open address use *
  pub program_version_id : String

abbrev pub scope_parts : ExecutionScopeKey → List String
scope_parts k =
    k.organization_id ∷ k.location_id ∷ k.session_id ∷ k.project_id ∷ k.student_id
    ∷ k.program_version_id ∷ k.world_id ∷ []

unfoldable pub scope_key : ExecutionScopeKey → String
scope_key k = join (scope_parts k)

abbrev pub active_parts : RuntimeScopeAddress → List String
active_parts a =
    a.organization_id ∷ a.location_id ∷ a.session_id ∷ a.project_id ∷ a.student_id ∷ a.world_id ∷ []

unfoldable pub active_key : RuntimeScopeAddress → String
active_key a = join (active_parts a)

abbrev pub IsPlainAddress : RuntimeScopeAddress → Type 0
IsPlainAddress a = All NoSeparator (active_parts a)

-- Addresses without the separator character have different map keys unless they are equal.
pub active_key-injective :
    (a b : RuntimeScopeAddress)
    → IsPlainAddress a
    → IsPlainAddress b
    → active_key a ≡ active_key b
    → a ≡ b
unfolding active_key
active_key-injective a b ha hb e =
    let parts = join-injective (active_parts a) (active_parts b) refl ha hb e in ground arith

abbrev pub IsPlainScope : ExecutionScopeKey → Type 0
IsPlainScope k = All NoSeparator (scope_parts k)

pub scope_key-injective :
    (k l : ExecutionScopeKey)
    → IsPlainScope k
    → IsPlainScope l
    → scope_key k ≡ scope_key l
    → k.address ≡ l.address
unfolding scope_key
scope_key-injective k l hk hl e =
    let parts = join-injective (scope_parts k) (scope_parts l) refl hk hl e in ground arith
