-- ===== src/ProgramModel/Validate/Scripts.antt =====
-- The visits of events and scripts and `validateProgram` itself,
-- packages/program-model/src/validate.ts.
use badgerbots_code_studio.Prelude.{
  ℕ, ◌≤◌, ◌≡◌, ◌≢◌, refl, sym, ◌↔◌, ◌⊎◌, inl, inr, true, false, not, List, [], ◌∷◌, map, All,
  Distinct, length, Apart, arith, ltb-false_iff, ◌==◌, includes, includes-All-ne, remove, is_same,
  Bool-cases, is_same-true_iff, is_same-false_iff,
}
use badgerbots_code_studio.ProgramModel.Types.{
  ScriptKind, player, game, sheep, EventType, projectile_hit_event, EventNode, ScriptNode, Program,
  script_count,
}
use badgerbots_code_studio.ProgramModel.Schema.{program_issues, Place}
use badgerbots_code_studio.ProgramModel.Schema.Shape.{program_issues_iff}
use badgerbots_code_studio.ProgramModel.WellFormed.Safe.{scripts_safe}
use badgerbots_code_studio.ProgramModel.Ids.{
  event_ids, events_ids, script_ids, scripts_ids, program_ids, body_length,
}
use badgerbots_code_studio.ProgramModel.WellFormed.{
  BelongsTo, FitsEvent, FitsScript, Occurs, IsWellFormed,
}
use badgerbots_code_studio.ProgramModel.Validate.{
  EventType-discrete, ScriptKind-discrete, allowed_events, Validation, report, visit_event,
  visit_events, visit_script, visit_scripts, report_missing, check_program, result_of,
  validate_program, program_error,
}
use badgerbots_code_studio.ProgramModel.Validate.Visits.{
  Visits, Visits-nil, Visits-report, Visits-register, Visits-then, Visits-weaken, Visits-and,
  IsClean,
}
use badgerbots_code_studio.ProgramModel.Validate.Statements.{body-Visits}

not_placed_iff :
    (kind : ScriptKind) (event : EventType)
    → (not (includes EventType-discrete (allowed_events kind) event) ≡ false) ↔ BelongsTo event kind
unfolding EventType-discrete
not_placed_iff player projectile_hit_event = (λ h. refl, λ h. refl)
not_placed_iff _ _ = ground arith

visit_event-Visits :
    (kind : ScriptKind) (seen : List EventType) (e : EventNode) (v : Validation)
    → Visits v
        (visit_event kind seen e v)
        (event_ids e)
        (All (λ t. t ≢ e.node_type) seen × FitsEvent kind e)
unfolding visit_event event_ids
visit_event-Visits kind seen e v =
    Visits-weaken
      (λ h. (h.0.0.1, (h.0.0.0.1, h.0.1, h.1)), λ h. ((((tt, h.1.0), h.0), h.1.1), h.1.2))
      (Visits-then
        (Visits-then
          (Visits-then
            (Visits-then (Visits-register e.id v)
              (Visits-report _ _ _ refl (not_placed_iff kind e.node_type)))
            (Visits-report _ _ _ refl (includes-All-ne EventType-discrete seen e.node_type)))
          (Visits-report _ _ _ refl (ltb-false_iff 32 (body_length e.body))))
        (body-Visits e.node_type 1 e.body _))

visit_events-Visits :
    (kind : ScriptKind) (seen : List EventType) (es : List EventNode) (v : Validation)
    → Visits v
        (visit_events kind seen es v)
        (events_ids es)
        (Apart seen (map (λ e. e.node_type) es) × All (FitsEvent kind) es)
unfolding visit_events
visit_events-Visits kind seen [] v = Visits-weaken (λ h. (tt, tt), λ h. tt) (Visits-nil v)
visit_events-Visits kind seen (e ∷ es) v =
    Visits-weaken (λ h. ((h.0.0, h.1.0), (h.0.1, h.1.1)), λ h. ((h.0.0, h.1.0), (h.0.1, h.1.1)))
      (Visits-then (visit_event-Visits kind seen e v)
        (visit_events-Visits kind (e.node_type ∷ seen) es _))

visit_script-Visits :
    (s : ScriptNode) (v : Validation) → Visits v (visit_script s v) (script_ids s) (FitsScript s)
unfolding visit_script script_ids
visit_script-Visits s v =
    Visits-weaken (λ h. h.1, λ h. (tt, h))
      (Visits-then (Visits-register s.id v) (visit_events-Visits s.script_kind [] s.body _))

visit_scripts-Visits :
    (ss : List ScriptNode) (expected : List ScriptKind) (v : Validation)
    → Visits v (visit_scripts ss expected v).1 (scripts_ids ss) (All FitsScript ss)
unfolding visit_scripts
visit_scripts-Visits [] expected v = Visits-nil v
visit_scripts-Visits (s ∷ ss) expected v =
    Visits-then (visit_script-Visits s v)
      (visit_scripts-Visits ss (remove ScriptKind-discrete s.script_kind expected) _)

-- Deleting a kind takes care of it.
All-remove :
    (P : ScriptKind → Type 0) (kind : ScriptKind) (expected : List ScriptKind)
    → All P (remove ScriptKind-discrete kind expected) ↔ All (λ k. (kind ≡ k) ⊎ P k) expected
All-remove P kind [] = (λ h. tt, λ h. tt)
All-remove P kind (x ∷ expected) =
    let ih = All-remove P kind expected in
    elim (Bool-cases (is_same ScriptKind-discrete x kind)) [
      | inl same ↦
          let e : x ≡ kind = (is_same-true_iff ScriptKind-discrete x kind).0 same in
          rw same (λ h. (inl (sym e), ih.0 h), λ h. ih.1 h.1)
      | inr other ↦
          let ne = (is_same-false_iff ScriptKind-discrete x kind).0 other in
          rw other (λ h. (inr h.0, ih.0 h.1), λ h. (keep ne h.0, ih.1 h.1))
    ]
  where
    keep : {k : ScriptKind} → k ≢ kind → (kind ≡ k) ⊎ P k → P k
    keep ne (inl e) = absurd (ne (sym e))
    keep ne (inr p) = p

none_missing_iff :
    (ss : List ScriptNode) (expected : List ScriptKind) (v : Validation)
    → ((visit_scripts ss expected v).0 ≡ []) ↔ All (λ k. Occurs k ss) expected
unfolding visit_scripts
none_missing_iff [] [] v = (λ h. tt, λ h. refl)
none_missing_iff [] (k ∷ expected) v = (λ h. cc, λ h. absurd h.0)
none_missing_iff (s ∷ ss) expected v =
    let ih =
      none_missing_iff ss (remove ScriptKind-discrete s.script_kind expected) (visit_script s v) in
    let step = All-remove (λ k. Occurs k ss) s.script_kind expected in
    (λ h. step.0 (ih.0 h), λ h. ih.1 (step.1 h))

report_missing-Visits :
    (missing : List ScriptKind) (v : Validation)
    → Visits v (report_missing missing v) [] (missing ≡ [])
unfolding report_missing
report_missing-Visits [] v = Visits-weaken (λ h. refl, λ h. tt) (Visits-nil v)
report_missing-Visits (kind ∷ missing) v =
    Visits-weaken (λ h. absurd h.0, λ h. cc)
      (Visits-then (Visits-report true _ v {P = ⊥} refl (λ h. cc, λ h. absurd h))
        (report_missing-Visits missing _))

length_iff : (n : ℕ) → (not (n == 3) ≡ false) ↔ (n ≡ 3)
length_iff n = ground arith

-- `validateProgram` on a program that has the right shape: `ok` exactly if it is well-formed.
check_program_iff :
    (p : Program)
    → IsClean (check_program p) ↔ (
        Distinct (program_ids p)
        × (length (program_ids p) ≤ 128)
        × (length p.scripts ≡ 3)
        × All (λ k. Occurs k p.scripts) (player ∷ game ∷ sheep ∷ [])
        × All FitsScript p.scripts)
unfolding check_program program_ids
check_program_iff p = (
  λ h.
      let (start_clean, apart, (((fit, present), three), small)) = all.clean.0 h in
      ((tt, apart), omega (arith, part.counted), three, (none_missing_iff _ _ _).0 present, fit),
  λ (apart, small, three, present, fit). all.clean.1 (
    refl,
    apart.1,
    (((fit, (none_missing_iff _ _ _).1 present), three), omega (arith, part.counted, small)),
  ),
)
  where
    start : Validation
    start = record { node_ids = p.program_id ∷ []; node_count = 1; diagnostics = [] }

    visited : List ScriptKind × Validation
    visited = visit_scripts p.scripts (player ∷ game ∷ sheep ∷ []) start

    counted : Validation
    counted =
        report (not (length p.scripts == 3)) (program_error script_count)
          (report_missing visited.0 visited.1)

    part :
        Visits start counted
          (scripts_ids p.scripts)
          ((All FitsScript p.scripts × (visited.0 ≡ [])) × (length p.scripts ≡ 3))
    part =
        Visits-and
          (Visits-and (visit_scripts-Visits p.scripts _ start) (report_missing-Visits visited.0 _))
          (Visits-report _ _ _ refl (length_iff (length p.scripts)))

    all : Visits start (check_program p) (scripts_ids p.scripts) (
        ((All FitsScript p.scripts × (visited.0 ≡ [])) × (length p.scripts ≡ 3))
        × (counted.node_count ≤ 128))
    all = Visits-and part (Visits-report _ _ _ refl (ltb-false_iff 128 counted.node_count))

result_of_iff :
    (issues : List Place) (p : Program)
    → ((result_of issues p).ok ≡ true) ↔ ((issues ≡ []) × IsClean (check_program p))
unfolding result_of
result_of_iff [] p = (λ h. (refl, h), λ h. h.1)
result_of_iff (issue ∷ issues) p = (λ h. cc, λ h. cc (h.0))

-- `validateProgram` accepts a program exactly when it is well-formed: the identifiers have the
-- required pattern and are distinct, at most 128 nodes, exactly the scripts Player, Game and Sheep,
-- each event once, in its script and with at most 32 blocks at the top, and each statement in its
-- event, at most 8 levels deep, with its number in range.
pub validate_program_iff : (p : Program) → ((validate_program p).ok ≡ true) ↔ IsWellFormed p
unfolding validate_program
validate_program_iff p =
    let (to, from) = result_of_iff (program_issues p) p in
    let (check, uncheck) = check_program_iff p in
    (
      λ h.
          let (shape, clean) = to h in
          let (apart, small, three, present, fit) = check clean in
          record {
            valid_ids = ((program_issues_iff p).0 shape).0;
            distinct_ids = apart;
            size = small;
            three_scripts = three;
            has_player = present.0;
            has_game = present.1.0;
            has_sheep = present.1.1.0;
            scripts_fit = fit;
          },
      λ w. from (
        (program_issues_iff p).1 (w.valid_ids, scripts_safe p.scripts w.scripts_fit),
        uncheck (
          w.distinct_ids,
          w.size,
          w.three_scripts,
          (w.has_player, (w.has_game, (w.has_sheep, tt))),
          w.scripts_fit,
        ),
      ),
    )
