-- ===== src/WorldManager/Instances.antt =====
-- packages/world-manager/src/leases.ts: the worlds that the two managers create, and the bounds of a
-- shared instance. Numbers of instances stay below 2^52, where `Math.sqrt` yields an integer only for a
-- square.
pub mod Apart
use Prim.Native.String.{◌++◌ as append_text}
use badgerbots_code_studio.Prelude.{
  ℕ, zero, suc, ◌+◌, ◌*◌, ◌/◌, ◌%◌, pos, ◌-ℤ◌, Number, ltb_number, String, Bool, true, ◌&&◌, ◌||◌,
  [], Option, none, some, leb, ◌==◌, Result, ok, err, if◌then◌else◌,
}
use badgerbots_code_studio.WorldManager.Decimal.{padded}
use badgerbots_code_studio.WorldManager.Leases.{
  LeaseScope, InstanceBounds, PrivateWorldLease, LeaseManager, LeaseError, separate_worlds,
  shared_instances, active, outside_bounds, require_active_lease,
}

-- `SeparateWorldLeaseManager.createLease`
unfoldable pub create_separate_lease : String → LeaseScope → ℕ → PrivateWorldLease
create_separate_lease lease_id s slot = record {
  lease_id = lease_id;
  strategy = separate_worlds;
  scope = s;
  logical_world_id = lease_id;
  physical_world_id = append_text "bb-private-" (padded 3 (slot + 1));
  instance_bounds = none;
  approved_visitor_ids = [];
  lifecycle = active;
}

pub record SharedInstanceOptions : Type 0 where
  pub instances_per_physical_world : ℕ
  pub instance_size : ℕ
  pub separation : ℕ

-- The largest number up to `bound` whose square is at most `n`.
unfoldable pub root_below : ℕ → ℕ → ℕ
root_below n zero = 0
root_below n (suc bound) =
    let smaller = root_below n bound in if leb (suc bound * suc bound) n then suc bound else smaller

-- `Math.sqrt` of a square.
unfoldable pub square_root : ℕ → ℕ
unfolding root_below
square_root n = root_below n n

-- The tests of the constructor of `SharedInstanceLeaseManager`, for options that are integers.
unfoldable pub accepts_options : SharedInstanceOptions → Bool
accepts_options o =
    leb 1 o.instances_per_physical_world
    && square_root o.instances_per_physical_world * square_root o.instances_per_physical_world
      == o.instances_per_physical_world
    && leb 32 o.instance_size
    && leb o.instance_size 512
    && leb (o.instance_size * 4) o.separation

-- center - size / 2 and center + size / 2.
abbrev pub low_edge : ℕ → ℕ → Number
low_edge center size = record { numerator = pos (2 * center) -ℤ pos size; scale = 1 }

abbrev pub high_edge : ℕ → ℕ → Number
high_edge center size = record { numerator = pos (2 * center + size); scale = 1 }

abbrev pub bounds_at : ℕ → ℕ → ℕ → InstanceBounds
bounds_at center_x center_z size = record {
  minimum_x = low_edge center_x size;
  maximum_x = high_edge center_x size;
  minimum_z = low_edge center_z size;
  maximum_z = high_edge center_z size;
}

-- `SharedInstanceLeaseManager.createLease`
unfoldable pub create_shared_lease :
    SharedInstanceOptions → String → LeaseScope → ℕ → PrivateWorldLease
create_shared_lease o lease_id s slot =
    let world_index = slot / o.instances_per_physical_world in
    let slot_in_world = slot % o.instances_per_physical_world in
    let grid_width = square_root o.instances_per_physical_world in
    let column = slot_in_world % grid_width in
    let row = slot_in_world / grid_width in
    record {
      lease_id = lease_id;
      strategy = shared_instances;
      scope = s;
      logical_world_id = lease_id;
      physical_world_id = append_text "bb-shared-" (padded 2 (world_index + 1));
      instance_bounds =
          some (bounds_at (column * o.separation) (row * o.separation) o.instance_size);
      approved_visitor_ids = [];
      lifecycle = active;
    }

abbrev pub crosses : InstanceBounds → Option Number → Option Number → Bool
crosses b (some x) (some z) =
    ltb_number x b.minimum_x
    || ltb_number b.maximum_x x
    || ltb_number z b.minimum_z
    || ltb_number b.maximum_z z
crosses b (some x) none = true
crosses b none z = true

abbrev pub position_refusal :
    Option Number → Option Number → Result LeaseError PrivateWorldLease → Option LeaseError
position_refusal x z (err e) = some e
position_refusal x z (ok lease) = elim lease.instance_bounds [
  | none ↦ none
  | some b ↦ if crosses b x z then some outside_bounds else none
]

-- `assertPositionInsideLease`: `none` if it returns. A coordinate that is not finite is `none`.
unfoldable pub assert_position_inside_lease :
    String → Option Number → Option Number → LeaseManager → Option LeaseError
assert_position_inside_lease id x z m = position_refusal x z (require_active_lease id m)
