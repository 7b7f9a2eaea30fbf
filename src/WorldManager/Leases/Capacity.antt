-- ===== src/WorldManager/Leases/Capacity.antt =====
-- The number of active leases under `allocate`, `approveVisitor` and `releaseForOwnerDeparture` of
-- packages/world-manager/src/leases.ts.
use badgerbots_code_studio.Prelude.{
  ℕ, ◌+◌, ◌≤◌, ◌≡◌, refl, ap, some_injective, inl, inr, String, Bool, true, false, List, [], ◌∷◌,
  Option, none, some, Option-cases, Bool-cases, lookup, insert, str_eq, arith, Result, ok, err, leb,
}
use badgerbots_code_studio.ProgramModel.NodeId.{is_node_id}
use badgerbots_code_studio.WorldManager.Leases.{
  create_manager, LeaseScope, PrivateWorldLease, LeaseManager, LeaseError, is_active_lease,
  find_lease, active_count, validate_scope, admit, allocate, require_active_lease, visitor_refusal,
  with_visitor, approve_on, approve_visitor, release_on, release_for_owner_departure,
}

active_count-insert :
    (id : String) (lease : PrivateWorldLease) (leases : List (String × PrivateWorldLease))
    → active_count (insert id lease leases) ≤ active_count leases + 1
unfolding active_count insert
active_count-insert id lease [] = ground arith
active_count-insert id lease ((other, old) ∷ leases) =
    ground (arith, active_count-insert id lease leases)

-- A lease that takes the place of an active one.
active_count-replace :
    (id : String) (lease old : PrivateWorldLease) (leases : List (String × PrivateWorldLease))
    → lookup id leases ≡ some old
    → is_active_lease old ≡ true
    → active_count (insert id lease leases) ≤ active_count leases
unfolding active_count insert lookup
active_count-replace id lease old [] h a = absurd (cc)
active_count-replace id lease old ((other, first) ∷ leases) h a =
    ground (arith, active_count-replace id lease old leases)

pub require_active_lease_lem :
    (id : String) (m : LeaseManager) (lease : PrivateWorldLease)
    → require_active_lease id m ≡ ok lease
    → (lookup id m.leases ≡ some lease) × (is_active_lease lease ≡ true)
unfolding require_active_lease
require_active_lease_lem id m lease h = ground arith

pub data LeaseOperation : Type 0 where
  allocates : Bool → LeaseScope → LeaseOperation
  approves : String → String → String → LeaseOperation
  releases : String → String → LeaseOperation

-- A call that replaces an active lease has no more active leases than before.
approve-active_count :
    (id owner visitor : String) (m : LeaseManager)
    → active_count (approve_visitor id owner visitor m).0.leases ≤ active_count m.leases
unfolding approve_visitor
approve-active_count id owner visitor m = elim (Bool-cases (is_node_id visitor)) [
  | inr bad ↦ rw bad (omega arith)
  | inl good ↦ rw good (on_lease (require_active_lease id m) refl)
]
  where
    on_lease :
        (found : Result LeaseError PrivateWorldLease)
        → require_active_lease id m ≡ found
        → active_count (approve_on id owner visitor found m).0.leases ≤ active_count m.leases
    on_lease (err e) h = omega arith
    on_lease (ok lease) h = elim (Option-cases (visitor_refusal lease owner visitor)) [
      | inr (e, refused) ↦ rw (refused, approve_on) (omega arith)
      | inl passed ↦
          rw (passed, approve_on)
            (active_count-replace id (with_visitor visitor lease) lease m.leases
              (require_active_lease_lem id m lease h).0 (require_active_lease_lem id m lease h).1)
    ]

release-active_count :
    (id owner : String) (m : LeaseManager)
    → active_count (release_for_owner_departure id owner m).0.leases ≤ active_count m.leases
unfolding release_for_owner_departure
release-active_count id owner m = on_lease (require_active_lease id m) refl
  where
    on_lease :
        (found : Result LeaseError PrivateWorldLease)
        → require_active_lease id m ≡ found
        → active_count (release_on id owner found m).0.leases ≤ active_count m.leases
    on_lease (err e) h = omega arith
    on_lease (ok lease) h = elim (Bool-cases (str_eq lease.scope.owner_student_id owner)) [
      | inr other ↦ rw other (omega arith)
      | inl mine ↦ rw mine (
          active_count-replace id _ lease m.leases (require_active_lease_lem id m lease h).0
            (require_active_lease_lem id m lease h).1)
    ]

not_full : (limit n c : ℕ) → leb limit n ≡ false → c ≤ n + 1 → c ≤ limit
not_full limit n c h k = ground arith

module _ (create_lease : String → LeaseScope → ℕ → PrivateWorldLease)
    (maximum_active_leases : ℕ) where
  admit-active_count :
      (accepting : Bool) (s : LeaseScope) (found : Option PrivateWorldLease) (m : LeaseManager)
      → active_count m.leases ≤ maximum_active_leases
      → active_count (admit create_lease maximum_active_leases accepting s found m).0.leases
        ≤ maximum_active_leases
  admit-active_count accepting s (some existing) m h = h
  admit-active_count false s none m h = h
  admit-active_count true s none m h =
      elim (Bool-cases (leb maximum_active_leases (active_count m.leases))) [
        | inl full ↦ rw full h
        | inr free ↦ rw free (not_full _ _ _ free (active_count-insert _ _ m.leases))
      ]

  allocate-active_count :
      (accepting : Bool) (s : LeaseScope) (m : LeaseManager)
      → active_count m.leases ≤ maximum_active_leases
      → active_count (allocate create_lease maximum_active_leases accepting s m).0.leases
        ≤ maximum_active_leases
  unfolding allocate
  allocate-active_count accepting s m h = elim (Bool-cases (validate_scope s)) [
    | inl valid ↦ rw valid (admit-active_count accepting s (find_lease s m.leases) m h)
    | inr invalid ↦ rw invalid h
  ]

  unfoldable pub lease_step : LeaseOperation → LeaseManager → LeaseManager
  lease_step (allocates accepting s) m =
      (allocate create_lease maximum_active_leases accepting s m).0
  lease_step (approves id owner visitor) m = (approve_visitor id owner visitor m).0
  lease_step (releases id owner) m = (release_for_owner_departure id owner m).0

  unfoldable pub lease_run : List LeaseOperation → LeaseManager → LeaseManager
  lease_run [] m = m
  lease_run (o ∷ os) m = lease_run os (lease_step o m)

  lease_step-active_count :
      (o : LeaseOperation) (m : LeaseManager)
      → active_count m.leases ≤ maximum_active_leases
      → active_count (lease_step o m).leases ≤ maximum_active_leases
  unfolding lease_step
  lease_step-active_count (allocates accepting s) m h = allocate-active_count accepting s m h
  lease_step-active_count (approves id owner visitor) m h =
      omega (arith, approve-active_count id owner visitor m)
  lease_step-active_count (releases id owner) m h = omega (arith, release-active_count id owner m)

  -- However leases are created, any sequence of allocations, approvals and releases keeps the number of
  -- active leases within the maximum, if it was before.
  pub lease_run-active_count :
      (os : List LeaseOperation) (m : LeaseManager)
      → active_count m.leases ≤ maximum_active_leases
      → active_count (lease_run os m).leases ≤ maximum_active_leases
  unfolding lease_run
  lease_run-active_count [] m h = h
  lease_run-active_count (o ∷ os) m h =
      lease_run-active_count os (lease_step o m) (lease_step-active_count o m h)

-- A new manager has no active lease.
pub create_manager-active_count :
    (maximum : ℕ) (m : LeaseManager)
    → create_manager maximum ≡ some m
    → active_count m.leases ≤ maximum
unfolding create_manager active_count
create_manager-active_count maximum m h = elim (Bool-cases (leb 1 maximum)) [
  | inl positive ↦
      rw (← ap (λ (x : LeaseManager). active_count x.leases) (some_injective (rw positive at h)))
        (omega arith)
  | inr zero_maximum ↦ cc (rw zero_maximum at h)
]
