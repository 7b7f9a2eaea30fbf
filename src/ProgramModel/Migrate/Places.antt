-- ===== src/ProgramModel/Migrate/Places.antt =====
-- The issues of the schemas of packages/program-model/src/schema.ts at different places.
use badgerbots_code_studio.Prelude.{
  ℕ, ◌+◌, ◌≡◌, refl, String, Bool, true, false, List, [], ◌∷◌, ◌++◌,
}
use badgerbots_code_studio.ProgramModel.NodeId.{is_node_id}
use badgerbots_code_studio.ProgramModel.Types.{
  index, LegacyStatement, LegacyStatements, legacy_explode, legacy_bounce, if_on_material,
  legacy_color, legacy_speed, legacy_drop, legacy_nil, legacy_cons, LegacyEvent,
}
use badgerbots_code_studio.ProgramModel.Schema.{Place, is_safe_integer, issue_unless, id_issues}
use badgerbots_code_studio.ProgramModel.Schema.Shape.{IsNodeId}
use badgerbots_code_studio.ProgramModel.Schema.Legacy.{
  legacy_statement_issues, legacy_statements_issues, legacy_event_issues, legacy_events_issues,
}

pub append-nil : (xs ys : List Place) → xs ≡ [] → ys ≡ [] → xs ++ ys ≡ []
append-nil xs ys h k = rw (h, k) refl

pub append-nil_parts : (xs ys : List Place) → xs ++ ys ≡ [] → (xs ≡ []) × (ys ≡ [])
append-nil_parts [] ys h = (refl, h)
append-nil_parts (x ∷ xs) ys h = absurd (cc)

pub unless-nil : (test : Bool) (at : Place) → test ≡ true → issue_unless test at ≡ []
unless-nil true at h = refl
unless-nil false at h = absurd (cc)

pub unless-nil_test : (test : Bool) (at : Place) → issue_unless test at ≡ [] → test ≡ true
unless-nil_test true at h = refl
unless-nil_test false at h = absurd (cc)

pub id-nil : (at : Place) (id : String) → IsNodeId id → id_issues at id ≡ []
unfolding id_issues
id-nil at id h = unless-nil (is_node_id id) _ h

pub id-nil_test : (at : Place) (id : String) → id_issues at id ≡ [] → IsNodeId id
unfolding id_issues
id-nil_test at id h = unless-nil_test (is_node_id id) _ h

mutual
  unfolding legacy_statement_issues

  legacy_statement_moved :
      (at there : Place) (s : LegacyStatement)
      → legacy_statement_issues at s ≡ []
      → legacy_statement_issues there s ≡ []
  legacy_statement_moved at there (legacy_explode id power) h =
      id-nil there id (id-nil_test at id h)
  legacy_statement_moved at there (legacy_bounce id velocity) h =
      id-nil there id (id-nil_test at id h)
  legacy_statement_moved at there (if_on_material id body) h =
      let (first, rest) = append-nil_parts (id_issues at id) _ h in
      append-nil _ _ (id-nil there id (id-nil_test at id first))
        (legacy_statements_moved _ _ 0 0 body rest)
  legacy_statement_moved at there (legacy_color id) h = id-nil there id (id-nil_test at id h)
  legacy_statement_moved at there (legacy_speed id multiplier) h =
      id-nil there id (id-nil_test at id h)
  legacy_statement_moved at there (legacy_drop id quantity) h =
      let (first, rest) = append-nil_parts (id_issues at id) _ h in
      append-nil _ _ (id-nil there id (id-nil_test at id first)) (
        unless-nil (is_safe_integer quantity) _ (unless-nil_test (is_safe_integer quantity) _ rest))

  legacy_statements_moved :
      (at there : Place) (i j : ℕ) (body : LegacyStatements)
      → legacy_statements_issues at i body ≡ []
      → legacy_statements_issues there j body ≡ []
  legacy_statements_moved at there i j legacy_nil h = refl
  legacy_statements_moved at there i j (legacy_cons s body) h =
      let (first, rest) = append-nil_parts (legacy_statement_issues (at ++ index i ∷ []) s) _ h in
      append-nil _ _ (legacy_statement_moved _ _ s first)
        (legacy_statements_moved at there (i + 1) (j + 1) body rest)

pub legacy_events_moved :
    (at there : Place) (i j : ℕ) (es : List LegacyEvent)
    → legacy_events_issues at i es ≡ []
    → legacy_events_issues there j es ≡ []
unfolding legacy_events_issues legacy_event_issues
legacy_events_moved at there i j [] h = refl
legacy_events_moved at there i j (e ∷ es) h =
    let (first, rest) = append-nil_parts (legacy_event_issues (at ++ index i ∷ []) e) _ h in
    let (valid, body) = append-nil_parts (id_issues (at ++ index i ∷ []) e.id) _ first in
    append-nil _ _
      (append-nil _ _ (id-nil _ e.id (id-nil_test _ e.id valid))
        (legacy_statements_moved _ _ 0 0 e.body body))
      (legacy_events_moved at there (i + 1) (j + 1) es rest)
