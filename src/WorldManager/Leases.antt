-- ===== src/WorldManager/Leases.antt =====
-- packages/world-manager/src/leases.ts: a lease manager, whose state is the map of leases and the
-- sequence number. The gate's answer (`canAcceptLease`) is an argument of `allocate`. A copy made by
-- `structuredClone` is the value itself; the text of a refusal is left out.
pub mod Capacity
pub mod Access
use Prim.Native.String.{◌++◌ as append_text}
use badgerbots_code_studio.Prelude.{
  ℕ, zero, suc, ◌+◌, ◌*◌, ◌/◌, ◌%◌, pos, ◌-ℤ◌, Number, ltb_number, String, Bool, true, false, not,
  ◌&&◌, ◌||◌, List, [], ◌∷◌, ◌++◌, Option, none, some, ltb, leb, ◌==◌, str_eq, has, lookup, insert,
  Result, ok, err, if◌then◌else◌,
}
use badgerbots_code_studio.ProgramModel.NodeId.{is_node_id}
use badgerbots_code_studio.WorldManager.Decimal.{padded}

pub data WorldStrategy : Type 0 where
  separate_worlds shared_instances : WorldStrategy

pub data LeaseLifecycle : Type 0 where
  active released : LeaseLifecycle

pub record LeaseScope : Type 0 where
  pub organization_id : String
  pub location_id : String
  pub session_id : String
  pub project_id : String
  pub owner_student_id : String

pub record InstanceBounds : Type 0 where
  pub minimum_x : Number
  pub maximum_x : Number
  pub minimum_z : Number
  pub maximum_z : Number

pub record PrivateWorldLease : Type 0 where
  pub lease_id : String
  pub strategy : WorldStrategy
  pub scope : LeaseScope
  pub logical_world_id : String
  pub physical_world_id : String
  pub instance_bounds : Option InstanceBounds
  pub approved_visitor_ids : List String
  pub lifecycle : LeaseLifecycle

pub data LeaseError : Type 0 where
  invalid_id not_active not_owner owner_as_visitor outside_bounds : LeaseError

pub data LeaseAdmission : Type 0 where
  admitted : PrivateWorldLease → LeaseAdmission
  capacity_closed : LeaseAdmission

pub record ReleaseResult : Type 0 where
  pub released_lease_id : String
  pub evicted_visitor_ids : List String

pub record LeaseManager : Type 0 where
  pub leases : List (String × PrivateWorldLease)
  pub sequence : ℕ

abbrev pub new_manager : LeaseManager
new_manager = record { leases = []; sequence = 0 }

-- The constructor, with the greatest number of active leases: `none` if it throws.
unfoldable pub create_manager : ℕ → Option LeaseManager
create_manager maximum_active_leases =
    if leb 1 maximum_active_leases then some new_manager else none

abbrev pub is_active_lease : PrivateWorldLease → Bool
is_active_lease lease = elim lease.lifecycle [ active ↦ true | released ↦ false ]

unfoldable pub validate_scope : LeaseScope → Bool
validate_scope s =
    is_node_id s.organization_id
    && is_node_id s.location_id
    && is_node_id s.session_id
    && is_node_id s.owner_student_id
    && str_eq s.project_id "sheep-city"

-- An active lease of the same student in the same session and project.
abbrev pub is_lease_of : LeaseScope → PrivateWorldLease → Bool
is_lease_of s lease =
    is_active_lease lease
    && str_eq lease.scope.session_id s.session_id
    && str_eq lease.scope.owner_student_id s.owner_student_id
    && str_eq lease.scope.project_id s.project_id

unfoldable pub find_lease :
    LeaseScope → List (String × PrivateWorldLease) → Option PrivateWorldLease
find_lease s [] = none
find_lease s ((_, lease) ∷ leases) = if is_lease_of s lease then some lease else find_lease s leases

unfoldable pub active_count : List (String × PrivateWorldLease) → ℕ
active_count [] = 0
active_count ((_, lease) ∷ leases) = (if is_active_lease lease then 1 else 0) + active_count leases

module _ (create_lease : String → LeaseScope → ℕ → PrivateWorldLease)
    (maximum_active_leases : ℕ) where
  -- `allocate`, once the scope is valid; the lease that was found is an argument.
  abbrev pub admit :
      Bool → LeaseScope → Option PrivateWorldLease → LeaseManager → LeaseManager × LeaseAdmission
  admit accepting s (some existing) m = (m, admitted existing)
  admit accepting s none m =
      if not accepting || leb maximum_active_leases (active_count m.leases)
      then (m, capacity_closed)
      else (let sequence = m.sequence + 1 in
          let lease_id = append_text "lease-" (padded 3 sequence) in
          let lease = create_lease lease_id s m.sequence in
          (record { leases = insert lease_id lease m.leases; sequence = sequence }, admitted lease))

  unfoldable pub allocate :
      Bool → LeaseScope → LeaseManager → LeaseManager × Result LeaseError LeaseAdmission
  allocate accepting s m =
      if validate_scope s
      then (let (m', admission) = admit accepting s (find_lease s m.leases) m in (m', ok admission))
      else (m, err invalid_id)

unfoldable pub require_active_lease : String → LeaseManager → Result LeaseError PrivateWorldLease
require_active_lease id m = elim (lookup id m.leases) [
  | none ↦ err not_active
  | some lease ↦ if is_active_lease lease then ok lease else err not_active
]

-- The tests of `approveVisitor` on the lease; `none` if they are passed.
abbrev pub visitor_refusal : PrivateWorldLease → String → String → Option LeaseError
visitor_refusal lease owner visitor =
    if not (str_eq lease.scope.owner_student_id owner)
    then some not_owner
    else (if str_eq visitor owner then some owner_as_visitor else none)

abbrev pub with_visitor : String → PrivateWorldLease → PrivateWorldLease
with_visitor visitor lease =
    if has lease.approved_visitor_ids visitor
    then lease
    else record lease { approved_visitor_ids = lease.approved_visitor_ids ++ visitor ∷ [] }

abbrev pub approve_on :
    String
    → String
    → String
    → Result LeaseError PrivateWorldLease
    → LeaseManager
    → LeaseManager × Option LeaseError
approve_on id owner visitor (err e) m = (m, some e)
approve_on id owner visitor (ok lease) m = elim (visitor_refusal lease owner visitor) [
  | some e ↦ (m, some e)
  | none ↦ (record m { leases = insert id (with_visitor visitor lease) m.leases }, none)
]

unfoldable pub approve_visitor :
    String → String → String → LeaseManager → LeaseManager × Option LeaseError
approve_visitor id owner visitor m =
    if is_node_id visitor
    then approve_on id owner visitor (require_active_lease id m) m
    else (m, some invalid_id)

unfoldable pub can_enter : String → String → LeaseManager → Bool
can_enter id student m = elim (lookup id m.leases) [
  | none ↦ false
  | some lease ↦
      is_active_lease lease
      && (str_eq lease.scope.owner_student_id student || has lease.approved_visitor_ids student)
]

unfoldable pub can_edit : String → String → LeaseManager → Bool
can_edit id student m = elim (lookup id m.leases) [
  | none ↦ false
  | some lease ↦ is_active_lease lease && str_eq lease.scope.owner_student_id student
]

abbrev pub release_on :
    String
    → String
    → Result LeaseError PrivateWorldLease
    → LeaseManager
    → LeaseManager × Result LeaseError ReleaseResult
release_on id owner (err e) m = (m, err e)
release_on id owner (ok lease) m =
    if not (str_eq lease.scope.owner_student_id owner) then (m, err not_owner) else (
      record m {
        leases =
            insert id (record lease { lifecycle = released; approved_visitor_ids = [] }) m.leases;
      },
      ok (record { released_lease_id = id; evicted_visitor_ids = lease.approved_visitor_ids }),
    )

unfoldable pub release_for_owner_departure :
    String → String → LeaseManager → LeaseManager × Result LeaseError ReleaseResult
release_for_owner_departure id owner m = release_on id owner (require_active_lease id m) m
