-- ===== src/ProgramModel/Schema/Shape.antt =====
-- The issues of `ProgramV2Schema`, packages/program-model/src/schema.ts, against predicates.
use badgerbots_code_studio.Prelude.{
  ℕ, ◌+◌, ◌≡◌, refl, ◌↔◌, String, Bool, true, false, List, [], ◌∷◌, ◌++◌, All, All-append,
}
use badgerbots_code_studio.ProgramModel.NodeId.{is_node_id}
use badgerbots_code_studio.ProgramModel.Ids.{
  material_id, boolean_ids, statement_ids, statements_ids, event_ids, events_ids, script_ids,
  scripts_ids, program_ids,
}
use badgerbots_code_studio.ProgramModel.Types.{
  key, index, MaterialExpressionNode, get_material_under_player, material_literal,
  BooleanExpressionNode, StatementNode, StatementNodes, explode, bounce, branch, color, speed, drop,
  nil, cons, EventNode, ScriptNode, Program,
}
use badgerbots_code_studio.ProgramModel.Schema.{
  Place, is_safe_integer, issue_unless, id_issues, material_issues, boolean_issues,
  statement_issues, statements_issues, event_issues, events_issues, script_issues, scripts_issues,
  program_issues,
}

abbrev pub IsNodeId : String → Type 0
IsNodeId id = is_node_id id ≡ true

unfoldable mutual
  pub SafeStatement : StatementNode → Type 0
  SafeStatement (explode id power) = Unit
  SafeStatement (bounce id velocity) = Unit
  SafeStatement (branch id condition body) = SafeStatements body
  SafeStatement (color id) = Unit
  SafeStatement (speed id multiplier) = Unit
  SafeStatement (drop id quantity) = is_safe_integer quantity ≡ true

  pub SafeStatements : StatementNodes → Type 0
  SafeStatements nil = Unit
  SafeStatements (cons s body) = SafeStatement s × SafeStatements body

abbrev pub SafeScript : ScriptNode → Type 0
SafeScript s = All (λ (e : EventNode). SafeStatements e.body) s.body

-- A part of the schema that finds no issue exactly if the identifiers have the pattern and `Q` holds.
record Accepts (issues : List Place) (ids : List String) (Q : Type 0) : Type 0 where
  iff : (issues ≡ []) ↔ (All IsNodeId ids × Q)

unless_iff : (test : Bool) (at : Place) → (issue_unless test at ≡ []) ↔ (test ≡ true)
unless_iff true at = (λ h. refl, λ h. refl)
unless_iff false at = (λ h. cc, λ h. cc)

Accepts-append :
    {xs ys : List Place} {ids more : List String} {P Q : Type 0}
    → Accepts xs ids P
    → Accepts ys more Q
    → Accepts (xs ++ ys) (ids ++ more) (P × Q)
Accepts-append {xs} {ys} {ids} {more} {P} {Q} a b = record { iff = joined xs a.iff }
  where
    split : All IsNodeId (ids ++ more) ↔ (All IsNodeId ids × All IsNodeId more)
    split = All-append IsNodeId ids more

    joined :
        (xs : List Place)
        → (xs ≡ []) ↔ (All IsNodeId ids × P)
        → (xs ++ ys ≡ []) ↔ (All IsNodeId (ids ++ more) × (P × Q))
    joined [] e = (
      λ h. (split.1 ((e.0 refl).0, (b.iff.0 h).0), ((e.0 refl).1, (b.iff.0 h).1)),
      λ h. b.iff.1 ((split.0 h.0).1, h.1.1),
    )
    joined (x ∷ xs) e = (λ h. cc, λ h. cc (e.1 ((split.0 h.0).0, h.1.0)))

Accepts-nil : Accepts [] [] Unit
Accepts-nil = record { iff = (λ h. (tt, tt), λ h. refl) }

Accepts-weaken :
    {issues : List Place} {ids : List String} {P Q : Type 0}
    → P ↔ Q
    → Accepts issues ids P
    → Accepts issues ids Q
Accepts-weaken e a = record {
  iff = (λ h. ((a.iff.0 h).0, e.0 (a.iff.0 h).1), λ h. a.iff.1 (h.0, e.1 h.1));
}

id-Accepts : (at : Place) (id : String) → Accepts (id_issues at id) (id ∷ []) Unit
unfolding id_issues
id-Accepts at id =
    let e = unless_iff (is_node_id id) (at ++ key "id" ∷ []) in
    record { iff = (λ h. ((e.0 h, tt), tt), λ h. e.1 h.0.0) }

material-Accepts :
    (at : Place) (m : MaterialExpressionNode)
    → Accepts (material_issues at m) (material_id m ∷ []) Unit
unfolding material_issues
material-Accepts at (get_material_under_player id) = id-Accepts at id
material-Accepts at (material_literal id) = id-Accepts at id

boolean-Accepts :
    (at : Place) (e : BooleanExpressionNode) → Accepts (boolean_issues at e) (boolean_ids e) Unit
unfolding boolean_issues
boolean-Accepts at e =
    Accepts-weaken (λ h. tt, λ h. (tt, (tt, tt)))
      (Accepts-append (id-Accepts at e.id)
        (Accepts-append (material-Accepts _ e.left) (material-Accepts _ e.right)))

mutual
  unfolding statement_issues statement_ids SafeStatement

  statement-Accepts :
      (at : Place) (s : StatementNode)
      → Accepts (statement_issues at s) (statement_ids s) (SafeStatement s)
  statement-Accepts at (explode id power) = id-Accepts at id
  statement-Accepts at (bounce id velocity) = id-Accepts at id
  statement-Accepts at (branch id condition body) =
      Accepts-weaken (λ h. h.1.1, λ h. (tt, (tt, h)))
        (Accepts-append (id-Accepts at id) (
          Accepts-append (boolean-Accepts _ condition)
            (statements-Accepts (at ++ key "then" ∷ []) 0 body)))
  statement-Accepts at (color id) = id-Accepts at id
  statement-Accepts at (speed id multiplier) = id-Accepts at id
  statement-Accepts at (drop id quantity) =
      let e = unless_iff (is_safe_integer quantity) (at ++ key "quantity" ∷ []) in
      Accepts-weaken (λ h. h.1, λ h. (tt, h))
        (Accepts-append (id-Accepts at id) (record { iff = (λ h. (tt, e.0 h), λ h. e.1 h.1) }))

  statements-Accepts :
      (at : Place) (i : ℕ) (body : StatementNodes)
      → Accepts (statements_issues at i body) (statements_ids body) (SafeStatements body)
  statements-Accepts at i nil = Accepts-nil
  statements-Accepts at i (cons s body) =
      Accepts-append (statement-Accepts (at ++ index i ∷ []) s) (statements-Accepts at (i + 1) body)

event-Accepts :
    (at : Place) (e : EventNode) → Accepts (event_issues at e) (event_ids e) (SafeStatements e.body)
unfolding event_issues event_ids
event-Accepts at e =
    Accepts-weaken (λ h. h.1, λ h. (tt, h))
      (Accepts-append (id-Accepts at e.id) (statements-Accepts _ 0 e.body))

events-Accepts :
    (at : Place) (i : ℕ) (es : List EventNode)
    → Accepts
        (events_issues at i es)
        (events_ids es)
        (All (λ (e : EventNode). SafeStatements e.body) es)
unfolding events_issues
events-Accepts at i [] = Accepts-nil
events-Accepts at i (e ∷ es) = Accepts-append (event-Accepts _ e) (events-Accepts at (i + 1) es)

script-Accepts :
    (at : Place) (s : ScriptNode) → Accepts (script_issues at s) (script_ids s) (SafeScript s)
unfolding script_issues script_ids
script-Accepts at s =
    Accepts-weaken (λ h. h.1, λ h. (tt, h))
      (Accepts-append (id-Accepts at s.id) (events-Accepts _ 0 s.body))

scripts-Accepts :
    (at : Place) (i : ℕ) (ss : List ScriptNode)
    → Accepts (scripts_issues at i ss) (scripts_ids ss) (All SafeScript ss)
unfolding scripts_issues
scripts-Accepts at i [] = Accepts-nil
scripts-Accepts at i (s ∷ ss) = Accepts-append (script-Accepts _ s) (scripts-Accepts at (i + 1) ss)

-- The schema accepts a program exactly if every identifier in it has the pattern and every quantity
-- is a safe integer.
pub program_issues_iff :
    (p : Program)
    → (program_issues p ≡ []) ↔ (All IsNodeId (program_ids p) × All SafeScript p.scripts)
unfolding program_issues program_ids
program_issues_iff p =
    let e = unless_iff (is_node_id p.program_id) (key "programId" ∷ []) in
    let start : Accepts _ (p.program_id ∷ []) Unit = record {
      iff = (λ h. ((e.0 h, tt), tt), λ h. e.1 h.0.0);
    } in
    let all = Accepts-append start (scripts-Accepts (key "scripts" ∷ []) 0 p.scripts) in
    (λ h. ((all.iff.0 h).0, (all.iff.0 h).1.1), λ h. all.iff.1 (h.0, (tt, h.1)))
