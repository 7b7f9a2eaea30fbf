-- ===== src/ProgramModel/Validate/Statements.antt =====
-- The visits of statements and expressions, packages/program-model/src/validate.ts.
use badgerbots_code_studio.Prelude.{
  ℕ, ◌+◌, ◌≡◌, refl, ◌↔◌, ◌≤ℤ◌, ℤ, String, Bool, true, false, not, ◌||◌, [], ◌∷◌, arith, Number,
  IsAtMost, ltb_number, ltb_number-false_iff, ltb_ℤ-false_iff, ltb-false_iff, ltb, ltb_ℤ, pos,
  whole, half, tenth, includes,
}
use badgerbots_code_studio.ProgramModel.Types.{
  EventType, projectile_hit_event, StatementType, explode_at_hit, bounce_player, if_then,
  set_sheep_color, set_sheep_speed, drop_item, BooleanExpressionNode, StatementNode, StatementNodes,
  explode, bounce, branch, color, speed, drop, nil, cons, max_depth, wrong_event_action,
}
use badgerbots_code_studio.ProgramModel.Ids.{
  material_id, boolean_ids, statement_ids, statements_ids,
}
use badgerbots_code_studio.ProgramModel.WellFormed.{HomeOf, FitsHead, FitsStatement, FitsStatements}
use badgerbots_code_studio.ProgramModel.Validate.{
  StatementType-discrete, allowed_statements, Validation, visit_head, visit_statement,
  visit_statements, visit_boolean_expression, visit_material_expression, node_error,
}
use badgerbots_code_studio.ProgramModel.Validate.Visits.{
  Visits, Visits-nil, Visits-report, Visits-register, Visits-then, Visits-weaken,
}

not_allowed_iff :
    (event : EventType) (type : StatementType)
    → (not (includes StatementType-discrete (allowed_statements event) type) ≡ false)
      ↔ HomeOf type event
unfolding StatementType-discrete
not_allowed_iff projectile_hit_event explode_at_hit = (λ h. refl, λ h. refl)
not_allowed_iff _ _ = ground arith

or_false_iff :
    (a b : Bool) {P Q : Type 0} → (a ≡ false) ↔ P → (b ≡ false) ↔ Q → ((a || b) ≡ false) ↔ (P × Q)
or_false_iff true b p q = (λ h. cc, λ h. cc (p.1 h.0))
or_false_iff false b p q = (λ h. (p.0 refl, q.0 h), λ h. q.1 h.1)

range_iff :
    (low high x : Number)
    → ((ltb_number x low || ltb_number high x) ≡ false) ↔ (IsAtMost low x × IsAtMost x high)
range_iff low high x = or_false_iff _ _ (ltb_number-false_iff x low) (ltb_number-false_iff high x)

quantity_iff :
    (low high x : ℤ) → ((ltb_ℤ x low || ltb_ℤ high x) ≡ false) ↔ ((low ≤ℤ x) × (x ≤ℤ high))
quantity_iff low high x = or_false_iff _ _ (ltb_ℤ-false_iff x low) (ltb_ℤ-false_iff high x)

visit_head-Visits :
    (event : EventType) (depth : ℕ) (type : StatementType) (id : String) (v : Validation)
    → Visits v (visit_head event depth type id v) (id ∷ []) (FitsHead event depth type)
unfolding visit_head
visit_head-Visits event depth type id v =
    Visits-weaken (λ h. (h.0.1, h.1), λ h. ((tt, h.0), h.1))
      (Visits-then
        (Visits-then (Visits-register id v)
          (Visits-report (ltb 8 depth) (node_error max_depth id) _ refl (ltb-false_iff 8 depth)))
        (Visits-report _ (node_error wrong_event_action id) _ refl (not_allowed_iff event type)))

visit_boolean-Visits :
    (e : BooleanExpressionNode) (v : Validation)
    → Visits v (visit_boolean_expression e v) (boolean_ids e) Unit
unfolding visit_boolean_expression visit_material_expression
visit_boolean-Visits e v =
    Visits-weaken (λ h. tt, λ h. ((tt, tt), tt))
      (Visits-then (Visits-then (Visits-register e.id v) (Visits-register (material_id e.left) _))
        (Visits-register (material_id e.right) _))

mutual
  unfolding visit_statement statement_ids FitsStatement

  visit_statement-Visits :
      (event : EventType) (depth : ℕ) (s : StatementNode) (v : Validation)
      → Visits v (visit_statement event depth s v) (statement_ids s) (FitsStatement event depth s)
  visit_statement-Visits event depth (explode id power) v =
      Visits-weaken (λ h. (h.0, h.1.0, h.1.1), λ h. (h.0, (h.1, h.2)))
        (Visits-then (visit_head-Visits event depth explode_at_hit id v)
          (Visits-report _ _ _ refl (range_iff half (whole 4) power)))
  visit_statement-Visits event depth (bounce id velocity) v =
      Visits-weaken (λ h. (h.0, h.1.0, h.1.1), λ h. (h.0, (h.1, h.2)))
        (Visits-then (visit_head-Visits event depth bounce_player id v)
          (Visits-report _ _ _ refl (range_iff tenth (whole 3) velocity)))
  visit_statement-Visits event depth (branch id condition body) v =
      Visits-weaken (λ h. (h.0, h.1.1), λ h. (h.0, (tt, h.1)))
        (Visits-then (visit_head-Visits event depth if_then id v) (
          Visits-then (visit_boolean-Visits condition _)
            (visit_statements-Visits event (depth + 1) body _)))
  visit_statement-Visits event depth (color id) v =
      visit_head-Visits event depth set_sheep_color id v
  visit_statement-Visits event depth (speed id multiplier) v =
      Visits-weaken (λ h. (h.0, h.1.0, h.1.1), λ h. (h.0, (h.1, h.2)))
        (Visits-then (visit_head-Visits event depth set_sheep_speed id v)
          (Visits-report _ _ _ refl (range_iff tenth (whole 4) multiplier)))
  visit_statement-Visits event depth (drop id quantity) v =
      Visits-weaken (λ h. (h.0, h.1.0, h.1.1), λ h. (h.0, (h.1, h.2)))
        (Visits-then (visit_head-Visits event depth drop_item id v)
          (Visits-report _ _ _ refl (quantity_iff (pos 1) (pos 16) quantity)))

  visit_statements-Visits :
      (event : EventType) (depth : ℕ) (body : StatementNodes) (v : Validation)
      → Visits v
          (visit_statements event depth body v)
          (statements_ids body)
          (FitsStatements event depth body)
  visit_statements-Visits event depth nil v = Visits-nil v
  visit_statements-Visits event depth (cons s body) v =
      Visits-then (visit_statement-Visits event depth s v)
        (visit_statements-Visits event depth body _)

pub body-Visits :
    (event : EventType) (depth : ℕ) (body : StatementNodes) (v : Validation)
    → Visits v
        (visit_statements event depth body v)
        (statements_ids body)
        (FitsStatements event depth body)
body-Visits = visit_statements-Visits
