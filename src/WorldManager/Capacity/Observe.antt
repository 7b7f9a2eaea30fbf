-- ===== src/WorldManager/Capacity/Observe.antt =====
-- `CapacityController.observe` of packages/world-manager/src/capacity.ts.
use badgerbots_code_studio.Prelude.{
  ℕ, ◌≡◌, ◌≤◌, ◌↔◌, refl, Number, IsAtMost, ltb_number, ltb_number-false_iff, Bool, true, false,
  List, [], ◌∷◌, arith,
}
use badgerbots_code_studio.WorldManager.Capacity.{
  BenchmarkThresholds, BenchmarkSample, Metrics, Breach, EvidenceKind, physical_paper, breach_if,
  breaches_of, maximum_students, report_of, CapacityController, healthy, observe, can_accept_lease,
}

-- Every metric is within its threshold.
pub record IsWithin (m : Metrics) (t : BenchmarkThresholds) : Type 0 where
  pub resident : IsAtMost m.process_resident_mib t.maximum_process_resident_mib
  pub heap : IsAtMost m.heap_used_mib t.maximum_heap_used_mib
  pub processor : IsAtMost m.cpu_percent_p95 t.maximum_cpu_percent_p95
  pub tick : IsAtMost m.tick_ms_p95 t.maximum_tick_ms_p95
  pub ticks_per_second : IsAtMost t.minimum_tps m.tps
  pub loading : IsAtMost m.chunk_load_ms_p95 t.maximum_chunk_load_ms_p95
  pub unloading : IsAtMost m.chunk_unload_ms_p95 t.maximum_chunk_unload_ms_p95
  pub latency : IsAtMost m.run_latency_ms_p95 t.maximum_run_latency_ms_p95
  pub teacher : IsAtMost m.teacher_response_ms_p95 t.maximum_teacher_response_ms_p95
  pub entities : IsAtMost m.entity_count t.maximum_entity_count
  pub storage : IsAtMost m.disk_mib t.maximum_disk_mib

no_breach_iff :
    (a b : Number) (breach : Breach) (rest : List Breach)
    → (breach_if (ltb_number a b) breach rest ≡ []) ↔ (IsAtMost b a × (rest ≡ []))
no_breach_iff a b breach rest = by_test (ltb_number a b) (ltb_number-false_iff a b)
  where
    by_test :
        (test : Bool)
        → ((test ≡ false) ↔ IsAtMost b a)
        → (breach_if test breach rest ≡ []) ↔ (IsAtMost b a × (rest ≡ []))
    by_test true e = (λ h. absurd (cc), λ h. let no = e.1 h.0 in absurd (cc))
    by_test false e = (λ h. (e.0 refl, h), λ h. h.1)

breaches_of_iff : (m : Metrics) (t : BenchmarkThresholds) → (breaches_of m t ≡ []) ↔ IsWithin m t
unfolding breaches_of
breaches_of_iff m t = (
  λ h.
      let (a, ha) = (no_breach_iff t.maximum_process_resident_mib m.process_resident_mib _ _).0 h in
      let (b, hb) = (no_breach_iff t.maximum_heap_used_mib m.heap_used_mib _ _).0 ha in
      let (c, hc) = (no_breach_iff t.maximum_cpu_percent_p95 m.cpu_percent_p95 _ _).0 hb in
      let (d, hd) = (no_breach_iff t.maximum_tick_ms_p95 m.tick_ms_p95 _ _).0 hc in
      let (e, he) = (no_breach_iff m.tps t.minimum_tps _ _).0 hd in
      let (f, hf) = (no_breach_iff t.maximum_chunk_load_ms_p95 m.chunk_load_ms_p95 _ _).0 he in
      let (g, hg) = (no_breach_iff t.maximum_chunk_unload_ms_p95 m.chunk_unload_ms_p95 _ _).0 hf in
      let (i, hi) = (no_breach_iff t.maximum_run_latency_ms_p95 m.run_latency_ms_p95 _ _).0 hg in
      let (j, hj) =
        (no_breach_iff t.maximum_teacher_response_ms_p95 m.teacher_response_ms_p95 _ _).0 hi in
      let (k, hk) = (no_breach_iff t.maximum_entity_count m.entity_count _ _).0 hj in
      let (l, hl) = (no_breach_iff t.maximum_disk_mib m.disk_mib _ _).0 hk in
      record {
        resident = a;
        heap = b;
        processor = c;
        tick = d;
        ticks_per_second = e;
        loading = f;
        unloading = g;
        latency = i;
        teacher = j;
        entities = k;
        storage = l;
      },
  λ w. (no_breach_iff t.maximum_process_resident_mib m.process_resident_mib _ _).1 (
    w.resident,
    (no_breach_iff t.maximum_heap_used_mib m.heap_used_mib _ _).1 (
      w.heap,
      (no_breach_iff t.maximum_cpu_percent_p95 m.cpu_percent_p95 _ _).1 (
        w.processor,
        (no_breach_iff t.maximum_tick_ms_p95 m.tick_ms_p95 _ _).1 (
          w.tick,
          (no_breach_iff m.tps t.minimum_tps _ _).1 (
            w.ticks_per_second,
            (no_breach_iff t.maximum_chunk_load_ms_p95 m.chunk_load_ms_p95 _ _).1 (
              w.loading,
              (no_breach_iff t.maximum_chunk_unload_ms_p95 m.chunk_unload_ms_p95 _ _).1 (
                w.unloading,
                (no_breach_iff t.maximum_run_latency_ms_p95 m.run_latency_ms_p95 _ _).1 (
                  w.latency,
                  (no_breach_iff t.maximum_teacher_response_ms_p95 m.teacher_response_ms_p95 _ _).1
                      (
                        w.teacher,
                        (no_breach_iff t.maximum_entity_count m.entity_count _ _).1 (
                          w.entities,
                          (no_breach_iff t.maximum_disk_mib m.disk_mib _ _).1 (w.storage, refl),
                        ),
                      ),
                ),
              ),
            ),
          ),
        ),
      ),
    ),
  ),
)

observe-breaches :
    (kind : EvidenceKind) (n : ℕ) (breaches : List Breach) (accepted : Bool)
    (c : CapacityController)
    → let c' =
        observe
          (record {
            evidence_kind = kind;
            maximum_active_students = n;
            breaches = breaches;
            accepted = accepted;
          })
          c in
      ((can_accept_lease c' ≡ true) ↔ (breaches ≡ []))
      × ((c'.state ≡ healthy) ↔ ((breaches ≡ []) × (25 ≤ n) × (kind ≡ physical_paper)))
unfolding observe can_accept_lease
observe-breaches kind n [] accepted c = ground arith
observe-breaches kind n (b ∷ breaches) accepted c = ground arith

-- After it observed the report of some metrics, the controller accepts leases exactly if every metric
-- is within its threshold; and it is healthy exactly if moreover the samples reach 25 active students
-- and the evidence is physical. What it observed before does not matter.
pub observe_iff :
    (kind : EvidenceKind) (samples : List BenchmarkSample) (m : Metrics) (t : BenchmarkThresholds)
    (c : CapacityController)
    → let c' = observe (report_of kind samples m t) c in
      ((can_accept_lease c' ≡ true) ↔ IsWithin m t)
      × ((c'.state ≡ healthy)
          ↔ (IsWithin m t × (25 ≤ maximum_students samples) × (kind ≡ physical_paper)))
unfolding report_of
observe_iff kind samples m t c =
    let (to, from) = breaches_of_iff m t in
    let (accepting, steady) =
      observe-breaches kind (maximum_students samples) (breaches_of m t) _ c in
    (
      (λ h. to (accepting.0 h), λ w. accepting.1 (from w)),
      (
        λ h. let (none_, n, k) = steady.0 h in (to none_, n, k),
        λ (w, n, k). steady.1 (from w, n, k),
      ),
    )
