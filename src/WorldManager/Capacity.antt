-- ===== src/WorldManager/Capacity.antt =====
-- packages/world-manager/src/capacity.ts: the decisions of a benchmark report and the capacity
-- controller. The metrics of the samples (maxima and percentiles) are given, and so is the trimmed text
-- of an operational failure; the validation of a sample is not modelled.
pub mod Observe
use badgerbots_code_studio.Prelude.{
  ℕ, zero, suc, pos, Number, ltb_number, whole, String, Bool, true, false, not, ◌&&◌, ◌||◌, List,
  [], ◌∷◌, ◌++◌, Option, none, some, ltb, leb, ◌==◌, length, if◌then◌else◌,
}
use badgerbots_code_studio.ProgramModel.NodeId.{text_length}

pub record BenchmarkThresholds : Type 0 where
  pub maximum_process_resident_mib : Number
  pub maximum_heap_used_mib : Number
  pub maximum_cpu_percent_p95 : Number
  pub maximum_tick_ms_p95 : Number
  pub minimum_tps : Number
  pub maximum_chunk_load_ms_p95 : Number
  pub maximum_chunk_unload_ms_p95 : Number
  pub maximum_run_latency_ms_p95 : Number
  pub maximum_teacher_response_ms_p95 : Number
  pub maximum_entity_count : Number
  pub maximum_disk_mib : Number

abbrev pub minimum_hardware_candidate_thresholds : BenchmarkThresholds
minimum_hardware_candidate_thresholds = record {
  maximum_process_resident_mib = whole 10240;
  maximum_heap_used_mib = whole 8192;
  maximum_cpu_percent_p95 = whole 80;
  maximum_tick_ms_p95 = whole 45;
  minimum_tps = record { numerator = pos 39; scale = 1 };
  maximum_chunk_load_ms_p95 = whole 2000;
  maximum_chunk_unload_ms_p95 = whole 2000;
  maximum_run_latency_ms_p95 = whole 750;
  maximum_teacher_response_ms_p95 = whole 250;
  maximum_entity_count = whole 2500;
  maximum_disk_mib = whole 8192;
}

pub data Phase : Type 0 where
  baseline join_phase steady run_phase visitor disconnected recovery : Phase

-- The fields of a sample that the decisions read, besides the metrics.
pub record BenchmarkSample : Type 0 where
  pub phase : Phase
  pub active_students : ℕ

pub record Metrics : Type 0 where
  pub process_resident_mib : Number
  pub heap_used_mib : Number
  pub cpu_percent_p95 : Number
  pub tick_ms_p95 : Number
  pub tps : Number
  pub chunk_load_ms_p95 : Number
  pub chunk_unload_ms_p95 : Number
  pub run_latency_ms_p95 : Number
  pub teacher_response_ms_p95 : Number
  pub entity_count : Number
  pub disk_mib : Number

pub data Breach : Type 0 where
  process_resident_memory jvm_heap cpu tick_duration tps_breach chunk_load : Breach
  chunk_unload run_latency teacher_responsiveness entity_breach disk : Breach

pub data EvidenceKind : Type 0 where
  physical_paper synthetic_policy_test : EvidenceKind

abbrev pub is_physical : EvidenceKind → Bool
is_physical physical_paper = true
is_physical synthetic_policy_test = false

pub record StrategyBenchmarkReport : Type 0 where
  pub evidence_kind : EvidenceKind
  pub maximum_active_students : ℕ
  pub breaches : List Breach
  pub accepted : Bool

-- `if (test) breaches.push(breach)`, in front of the later tests.
abbrev pub breach_if : Bool → Breach → List Breach → List Breach
breach_if test breach rest = if test then breach ∷ rest else rest

unfoldable pub breaches_of : Metrics → BenchmarkThresholds → List Breach
breaches_of m t =
    breach_if (ltb_number t.maximum_process_resident_mib m.process_resident_mib)
      process_resident_memory
      (breach_if (ltb_number t.maximum_heap_used_mib m.heap_used_mib) jvm_heap (
        breach_if (ltb_number t.maximum_cpu_percent_p95 m.cpu_percent_p95) cpu (
          breach_if (ltb_number t.maximum_tick_ms_p95 m.tick_ms_p95) tick_duration (
            breach_if (ltb_number m.tps t.minimum_tps) tps_breach (
              breach_if (ltb_number t.maximum_chunk_load_ms_p95 m.chunk_load_ms_p95) chunk_load (
                breach_if (ltb_number t.maximum_chunk_unload_ms_p95 m.chunk_unload_ms_p95)
                  chunk_unload
                  (breach_if (ltb_number t.maximum_run_latency_ms_p95 m.run_latency_ms_p95)
                    run_latency
                    (breach_if
                      (ltb_number t.maximum_teacher_response_ms_p95 m.teacher_response_ms_p95)
                      teacher_responsiveness
                      (breach_if (ltb_number t.maximum_entity_count m.entity_count) entity_breach
                        (breach_if (ltb_number t.maximum_disk_mib m.disk_mib) disk []))))))))))

abbrev pub same_phase : Phase → Phase → Bool
same_phase baseline baseline = true
same_phase join_phase join_phase = true
same_phase steady steady = true
same_phase run_phase run_phase = true
same_phase visitor visitor = true
same_phase disconnected disconnected = true
same_phase recovery recovery = true
same_phase _ _ = false

abbrev pub required_benchmark_phases : List Phase
required_benchmark_phases =
    baseline ∷ join_phase ∷ run_phase ∷ steady ∷ visitor ∷ disconnected ∷ recovery ∷ []

unfoldable pub some_sample : (BenchmarkSample → Bool) → List BenchmarkSample → Bool
some_sample test [] = false
some_sample test (s ∷ samples) = test s || some_sample test samples

unfoldable pub has_every_phase : List Phase → List BenchmarkSample → Bool
has_every_phase [] samples = true
has_every_phase (p ∷ phases) samples =
    some_sample (λ s. same_phase s.phase p) samples && has_every_phase phases samples

-- The counts from 0 to a number.
unfoldable pub has_every_count : ℕ → List BenchmarkSample → Bool
has_every_count zero samples = some_sample (λ s. s.active_students == 0) samples
has_every_count (suc n) samples =
    some_sample (λ s. s.active_students == suc n) samples && has_every_count n samples

unfoldable pub maximum_students : List BenchmarkSample → ℕ
maximum_students [] = 0
maximum_students (s ∷ samples) =
    let rest = maximum_students samples in
    if ltb rest s.active_students then s.active_students else rest

-- The end of `buildStrategyBenchmarkReport`.
unfoldable pub report_of :
    EvidenceKind → List BenchmarkSample → Metrics → BenchmarkThresholds → StrategyBenchmarkReport
report_of kind samples m t =
    let breaches = breaches_of m t in
    record {
      evidence_kind = kind;
      maximum_active_students = maximum_students samples;
      breaches = breaches;
      accepted =
          is_physical kind
          && length breaches == 0
          && leb 80 (length samples)
          && has_every_count 25 samples
          && has_every_phase required_benchmark_phases samples;
    }

pub data CapacityState : Type 0 where
  healthy warning closed : CapacityState

pub data Reason : Type 0 where
  within_envelope unverified : Reason
  threshold_exceeded : List Breach → Reason
  operational_failure : String → Reason

pub record CapacityController : Type 0 where
  pub state : CapacityState
  pub reason : Reason

abbrev pub new_controller : CapacityController
new_controller = record { state = healthy; reason = within_envelope }

unfoldable pub observe : StrategyBenchmarkReport → CapacityController → CapacityController
observe report c =
    if ltb 0 (length report.breaches)
    then record { state = closed; reason = threshold_exceeded report.breaches }
    else (if ltb report.maximum_active_students 25 || not (is_physical report.evidence_kind)
        then record { state = warning; reason = unverified }
        else record { state = healthy; reason = within_envelope })

-- The flag is false if it throws.
unfoldable pub close_for_operational_failure :
    String → CapacityController → CapacityController × Bool
close_for_operational_failure trimmed c =
    if ltb (text_length trimmed) 4 || ltb 240 (text_length trimmed)
    then (c, false)
    else (record { state = closed; reason = operational_failure trimmed }, true)

unfoldable pub can_accept_lease : CapacityController → Bool
can_accept_lease c = elim c.state [ healthy ↦ true | warning ↦ true | closed ↦ false ]
