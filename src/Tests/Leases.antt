-- ===== src/Tests/Leases.antt =====
-- The theorems on leases, at a manager with one lease.
use badgerbots_code_studio.Prelude.{
  ◌↔◌, ℕ, some, none, ok, whole, ◌*ℤ◌, ◌-ℤ◌, ◌≤◌, ◌≡◌, refl, String, true, List, [], ◌∷◌,
}
use badgerbots_code_studio.WorldManager.Capacity.{
  Metrics, BenchmarkSample, steady, physical_paper, healthy, report_of, observe, can_accept_lease,
  maximum_students, new_controller, minimum_hardware_candidate_thresholds,
}
use badgerbots_code_studio.WorldManager.Capacity.Observe.{IsWithin, observe_iff}
use badgerbots_code_studio.WorldManager.Decimal.{padded}
use badgerbots_code_studio.WorldManager.Leases.{
  LeaseScope, LeaseManager, new_manager, create_manager, active_count, release_for_owner_departure,
}
use badgerbots_code_studio.WorldManager.Instances.{
  create_separate_lease, create_shared_lease, SharedInstanceOptions, accepts_options, square_root,
  position_refusal,
}
use badgerbots_code_studio.WorldManager.Instances.Apart.{instances_apart}
use badgerbots_code_studio.WorldManager.Leases.Capacity.{
  create_manager-active_count, LeaseOperation, allocates, approves, releases, lease_run,
  lease_run-active_count,
}
use badgerbots_code_studio.WorldManager.Leases.Access.{Releases, release_closes}

padded_number : padded 3 42 ≡ "042"
unfolding padded
padded_number = refl

abbrev scope_of_student : String → LeaseScope
scope_of_student student = record {
  organization_id = "org";
  location_id = "lab";
  session_id = "monday";
  project_id = "sheep-city";
  owner_student_id = student;
}

abbrev lease_operations : List LeaseOperation
lease_operations =
    allocates true (scope_of_student "ada")
    ∷ approves "lease-001" "ada" "bob"
    ∷ allocates true (scope_of_student "bob")
    ∷ releases "lease-001" "ada"
    ∷ []

new_manager-active_count : active_count new_manager.leases ≤ 1
unfolding create_manager
new_manager-active_count = create_manager-active_count 1 new_manager refl

lease_run-active_count_example :
    active_count (lease_run create_separate_lease 1 lease_operations new_manager).leases ≤ 1
lease_run-active_count_example =
    lease_run-active_count create_separate_lease 1 lease_operations new_manager
      new_manager-active_count

abbrev shared_manager : LeaseManager
shared_manager =
    lease_run create_separate_lease 1
      (allocates true (scope_of_student "ada") ∷ approves "lease-001" "ada" "bob" ∷ []) new_manager

release_closes_example :
    let (m', result) = release_for_owner_departure "lease-001" "ada" shared_manager in
    Releases "lease-001" "ada" shared_manager m' result
release_closes_example = release_closes "lease-001" "ada" shared_manager

abbrev default_options : SharedInstanceOptions
default_options = record {
  instances_per_physical_world = 9;
  instance_size = 256;
  separation = 4096;
}

default_options_accepted : accepts_options default_options ≡ true
unfolding accepts_options square_root
default_options_accepted = refl

-- The middle of slot 4 is (4096, 4096).
middle_inside :
    position_refusal
      (some (whole 4096))
      (some (whole 4096))
      (ok (create_shared_lease default_options "lease-005" (scope_of_student "ada") 4))
    ≡ none
unfolding create_shared_lease square_root ◌*ℤ◌ ◌-ℤ◌
middle_inside = refl

instances_apart_example : ◌≡◌ {A = ℕ} 4 4
instances_apart_example =
    instances_apart default_options 4 4 "lease-005" "lease-005" (scope_of_student "ada")
      (scope_of_student "ada") (whole 4096) (whole 4096) default_options_accepted refl middle_inside
      middle_inside

abbrev idle_metrics : Metrics
idle_metrics = record {
  process_resident_mib = whole 4096;
  heap_used_mib = whole 2048;
  cpu_percent_p95 = whole 20;
  tick_ms_p95 = whole 10;
  tps = whole 20;
  chunk_load_ms_p95 = whole 100;
  chunk_unload_ms_p95 = whole 100;
  run_latency_ms_p95 = whole 50;
  teacher_response_ms_p95 = whole 50;
  entity_count = whole 500;
  disk_mib = whole 1024;
}

abbrev full_samples : List BenchmarkSample
full_samples = record { phase = steady; active_students = 25 } ∷ []

observe_iff_example :
    let c' =
      observe
        (report_of physical_paper full_samples idle_metrics minimum_hardware_candidate_thresholds)
        new_controller in
    ((can_accept_lease c' ≡ true) ↔ IsWithin idle_metrics minimum_hardware_candidate_thresholds)
    × ((c'.state ≡ healthy) ↔ (
        IsWithin idle_metrics minimum_hardware_candidate_thresholds
        × (25 ≤ maximum_students full_samples)
        × (physical_paper ≡ physical_paper)))
observe_iff_example =
    observe_iff physical_paper full_samples idle_metrics minimum_hardware_candidate_thresholds
      new_controller
