-- ===== src/ProgramModel/Validate/Visits.antt =====
-- What a visit of the validator does to its state, packages/program-model/src/validate.ts: the
-- predicate on visits that the proofs compose.
use mathlib.Core.Path.{subst}
use mathlib.Core.Bool.{false≢true}
use mathlib.Core.List.{append-nil}
use badgerbots_code_studio.Prelude.{
  ◌+◌, ◌≡◌, refl, sym, ◌∙◌, ap, ◌↔◌, String, Bool, true, false, List, [], ◌∷◌, ◌++◌, length,
  length-append, add_all, add_all-append, Apart, Apart-append, has, has-All-ne, arith,
}
use badgerbots_code_studio.ProgramModel.Types.{Diagnostic, duplicate_node_id}
use badgerbots_code_studio.ProgramModel.Validate.{
  Validation, report, register, node_error, is_error, no_errors,
}

abbrev pub IsClean : Validation → Type 0
IsClean v = no_errors v.diagnostics ≡ true

pub record Visits (v w : Validation) (ids : List String) (P : Type 0) : Type 0 where
  pub added : w.node_ids ≡ add_all ids v.node_ids
  pub counted : w.node_count ≡ v.node_count + length ids
  pub clean : IsClean w ↔ (IsClean v × Apart v.node_ids ids × P)

no_errors-snoc :
    (ds : List Diagnostic) (d : Diagnostic)
    → is_error d.severity ≡ true
    → no_errors (ds ++ d ∷ []) ≡ false
no_errors-snoc [] d h = rw h
no_errors-snoc (x ∷ ds) d h = ground (arith, no_errors-snoc ds d h)

report-IsClean :
    (test : Bool) (d : Diagnostic) (v : Validation)
    → is_error d.severity ≡ true
    → IsClean (report test d v) ↔ (IsClean v × (test ≡ false))
unfolding report
report-IsClean true d v e =
    (λ h. absurd (false≢true (sym (no_errors-snoc v.diagnostics d e) ∙ h)), λ h. cc (h.1))
report-IsClean false d v e = (λ h. (h, refl), λ h. h.0)

report-keeps :
    (test : Bool) (d : Diagnostic) (v : Validation)
    → ((report test d v).node_ids ≡ v.node_ids) × ((report test d v).node_count ≡ v.node_count)
unfolding report
report-keeps true d v = (refl, refl)
report-keeps false d v = (refl, refl)

pub Visits-nil : (v : Validation) → Visits v v [] Unit
Visits-nil v = record { added = refl; counted = omega arith; clean = (λ h. (h, tt, tt), λ h. h.0) }

pub Visits-report :
    (test : Bool) (d : Diagnostic) (v : Validation) {P : Type 0}
    → is_error d.severity ≡ true
    → (test ≡ false) ↔ P
    → Visits v (report test d v) [] P
Visits-report test d v severe e =
    let (ids, count) = report-keeps test d v in
    let (to, from) = report-IsClean test d v severe in
    record {
      added = ids;
      counted = omega arith;
      clean = (λ h. ((to h).0, tt, e.0 (to h).1), λ h. from (h.0, e.1 h.2));
    }

pub Visits-register : (id : String) (v : Validation) → Visits v (register id v) (id ∷ []) Unit
unfolding register
Visits-register id v =
    let (to, from) =
      report-IsClean (has v.node_ids id) (node_error duplicate_node_id id) next refl in
    let new = has-All-ne v.node_ids id in
    record {
      added = ap (◌∷◌ id) keeps.0;
      counted = omega (arith, keeps.1);
      clean = (λ h. ((to h).0, (new.0 (to h).1, tt), tt), λ h. from (h.0, new.1 h.1.0));
    }
  where
    next : Validation
    next = record v { node_count = v.node_count + 1 }

    keeps :
        ((report (has v.node_ids id) (node_error duplicate_node_id id) next).node_ids ≡ v.node_ids)
        × ((report (has v.node_ids id) (node_error duplicate_node_id id) next).node_count
            ≡ v.node_count + 1)
    keeps = report-keeps (has v.node_ids id) (node_error duplicate_node_id id) next

pub Visits-then :
    {u v w : Validation} {xs ys : List String} {P Q : Type 0}
    → Visits u v xs P
    → Visits v w ys Q
    → Visits u w (xs ++ ys) (P × Q)
Visits-then {u} {v} {w} {xs} {ys} {P} {Q} a b = record {
  added = b.added ∙ ap (add_all ys) a.added ∙ sym (add_all-append xs ys u.node_ids);
  counted = omega (arith, a.counted, b.counted, length-append xs ys);
  clean = (
    λ h.
        let (v_clean, apart, q) = b.clean.0 h in
        let (u_clean, apart', p) = a.clean.0 v_clean in
        (u_clean, split.1 (apart', subst (λ s. Apart s ys) a.added apart), (p, q)),
    λ (u_clean, apart, (p, q)).
        let (apart', apart'') = split.0 apart in
        b.clean.1
          (a.clean.1 (u_clean, apart', p), subst (λ s. Apart s ys) (sym a.added) apart'', q),
  );
}
  where
    split : Apart u.node_ids (xs ++ ys) ↔ (Apart u.node_ids xs × Apart (add_all xs u.node_ids) ys)
    split = Apart-append u.node_ids xs ys

pub Visits-weaken :
    {v w : Validation} {ids : List String} {P Q : Type 0}
    → P ↔ Q
    → Visits v w ids P
    → Visits v w ids Q
Visits-weaken e a = record {
  added = a.added;
  counted = a.counted;
  clean = (
    λ h. ((a.clean.0 h).0, (a.clean.0 h).1, e.0 (a.clean.0 h).2),
    λ h. a.clean.1 (h.0, h.1, e.1 h.2),
  );
}

-- A further test on the way registers nothing.
pub Visits-and :
    {u v w : Validation} {ids : List String} {P Q : Type 0}
    → Visits u v ids P
    → Visits v w [] Q
    → Visits u w ids (P × Q)
Visits-and {u} {v} {w} {ids} {P} {Q} a b =
    subst (λ xs. Visits u w xs (P × Q)) (append-nil ids) (Visits-then a b)
