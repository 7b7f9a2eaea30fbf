-- ===== src/RuntimeProtocol/Execution/Within.antt =====
-- The instructions and handlers of an event against its limits: `executeInstructions` of
-- packages/runtime-protocol/src/interpreter.ts.
use badgerbots_code_studio.Prelude.{
  ℕ, ◌+◌, ◌≤◌, ◌≡◌, refl, ap, ◌∙◌, inl, inr, ℤ, pos, ◌+ℤ◌, Number, false, String, List, [], ◌∷◌,
  none, ltb, ltb_ℤ, ltb→le, if◌then◌else◌, Bool-cases, arith,
}
use badgerbots_code_studio.RuntimeProtocol.Address.{ExecutionScopeKey}
use badgerbots_code_studio.RuntimeProtocol.InstructionGraph.{
  RuntimeMaterialExpression, read_material_under_player, material_constant,
  RuntimeBooleanExpression, RuntimeInstruction, RuntimeInstructions, explode_at_event_location,
  conditional, set_vertical_velocity, set_color, set_speed_multiplier, drop_items, done, next,
  RuntimeHandler,
}
use badgerbots_code_studio.RuntimeProtocol.Execution.{
  call, Call, RuntimeLimits, RuntimeEventContext, Material, Environment, Execution, Outcome,
  evaluate_material, evaluate_boolean, perform, execute_instructions, execute_handlers,
  same_material, same_event, source_of,
}
use badgerbots_code_studio.RuntimeProtocol.Execution.Budget.{
  explosions_of, drops_of, dropped, IsGiving, AreGiving, AllGiving, Kept, Kept-less, Kept-Spent,
  Ensures, Ensures-and_then, call-Ensures, quiet_call-Ensures, begin_instruction-Ensures,
}

pos_sum :
    (dropped n : ℕ) (counted : ℤ) → pos dropped ≡ counted → pos (dropped + n) ≡ counted +ℤ pos n
unfolding ◌+ℤ◌
pos_sum dropped n counted e = ground (arith, e)

-- The counter within its limit, the items are.
few_items :
    (dropped n most : ℕ) (counted : ℤ)
    → pos dropped ≡ counted
    → ltb_ℤ (pos most) (counted +ℤ pos n) ≡ false
    → dropped + n ≤ most
unfolding ◌+ℤ◌
few_items dropped n most counted e h = ground (arith, e, h)

module _ (environment : Environment) (limits : RuntimeLimits) where
  module _ (scope : ExecutionScopeKey) (event : RuntimeEventContext) where
    material-Ensures :
        (n : ℕ) (e : RuntimeMaterialExpression) (s : Execution)
        (rest : Material → Execution → Outcome)
        → Kept environment limits (n + 1) s
        → ((m : Material) (s' : Execution)
            → Kept environment limits n s'
            → Ensures environment limits 0 (rest m s'))
        → Ensures environment limits 0 (evaluate_material environment limits scope event e s rest)
    unfolding evaluate_material
    material-Ensures n (material_constant id) s rest k f = f _ s (Kept-less environment limits k)
    material-Ensures n (read_material_under_player id) s rest k f =
        Ensures-and_then environment limits n _ _
          (quiet_call-Ensures environment limits n _ s refl refl k) (λ s' k'. f _ s' k')

    boolean-Ensures :
        (e : RuntimeBooleanExpression) (s : Execution) (body : Execution → Outcome)
        → Kept environment limits 2 s
        → ((s' : Execution) → Kept environment limits 0 s' → Ensures environment limits 0 (body s'))
        → Ensures environment limits 0 (evaluate_boolean environment limits scope event e s body)
    unfolding evaluate_boolean
    boolean-Ensures e s body k f = material-Ensures 1 e.left s _ k λ left s' k'.
        material-Ensures 0 e.right s' _ k' λ right s'' k''.
          elim (Bool-cases (same_material left right)) [
            | inl same ↦ rw same (f s'' k'')
            | inr other ↦ rw other k''
          ]

    explode-Ensures :
        (id : String) (power : Number) (s : Execution)
        → Kept environment limits 2 s
        → Ensures environment limits 0
            (perform environment limits scope event (explode_at_event_location id power) s)
    unfolding perform
    explode-Ensures id power s k =
        elim (Bool-cases (ltb limits.maximum_explosions_per_event (s.explosions + 1))) [
          | inl over ↦ rw over (record {
            few_explosions = (Kept-Spent environment limits k).few_explosions;
            few_drops = (Kept-Spent environment limits k).few_drops;
            few_calls = (Kept-Spent environment limits k).few_calls;
          })
          | inr within ↦ rw within (
              call-Ensures environment limits 0 _ _ (record {
                exact_explosions = omega (arith, k.exact_explosions);
                exact_drops = ap pos (omega arith) ∙ k.exact_drops;
                few_explosions =
                    ltb→le limits.maximum_explosions_per_event (s.explosions + 1) within;
                few_drops = omega (arith, k.few_drops);
                few_instructions = k.few_instructions;
                few_calls = omega (arith, k.few_calls);
              }))
        ]

    drop-Ensures :
        (id : String) (quantity : ℕ) (s : Execution)
        → Kept environment limits 2 s
        → Ensures environment limits 0
            (perform environment limits scope event (drop_items id (pos quantity)) s)
    unfolding perform
    drop-Ensures id quantity s k =
        elim (Bool-cases
          (ltb_ℤ (pos limits.maximum_item_drops_per_event) (s.item_drops +ℤ pos quantity))) [
            | inl over ↦ rw over (record {
              few_explosions = (Kept-Spent environment limits k).few_explosions;
              few_drops = (Kept-Spent environment limits k).few_drops;
              few_calls = (Kept-Spent environment limits k).few_calls;
            })
            | inr within ↦ rw within (
                call-Ensures environment limits 0 _ _ (record {
                  exact_explosions = omega (arith, k.exact_explosions);
                  exact_drops = pos_sum (dropped s.calls) quantity s.item_drops k.exact_drops;
                  few_explosions = k.few_explosions;
                  few_drops =
                      few_items (dropped s.calls) quantity limits.maximum_item_drops_per_event
                        s.item_drops k.exact_drops within;
                  few_instructions = k.few_instructions;
                  few_calls = omega (arith, k.few_calls);
                }))
          ]

    -- A call that neither explodes nor drops anything.
    quiet-Ensures :
        (c : Call) (s : Execution)
        → explosions_of c.action ≡ 0
        → drops_of c.action ≡ 0
        → Kept environment limits 2 s
        → Ensures environment limits 0 (call environment limits c s)
    quiet-Ensures c s e d k =
        quiet_call-Ensures environment limits 0 c s e d (Kept-less environment limits k)

    mutual
      unfolding perform

      perform-Ensures :
          (i : RuntimeInstruction) (s : Execution)
          → IsGiving i
          → Kept environment limits 2 s
          → Ensures environment limits 0 (perform environment limits scope event i s)
      perform-Ensures (explode_at_event_location id power) s g k = explode-Ensures id power s k
      perform-Ensures (conditional id condition body) s g k =
          boolean-Ensures condition s _ k (λ s' k'. instructions-Ensures body s' g k')
      perform-Ensures (set_vertical_velocity id value) s g k = quiet-Ensures _ s refl refl k
      perform-Ensures (set_color id) s g k = quiet-Ensures _ s refl refl k
      perform-Ensures (set_speed_multiplier id multiplier) s g k = quiet-Ensures _ s refl refl k
      perform-Ensures (drop_items id quantity) s (n, e) k = rw e (drop-Ensures id n s k)

      instructions-Ensures :
          (is : RuntimeInstructions) (s : Execution)
          → AreGiving is
          → Kept environment limits 0 s
          → Ensures environment limits 0 (execute_instructions environment limits scope event is s)
      instructions-Ensures done s g k = k
      instructions-Ensures (next i is) s g k =
          Ensures-and_then environment limits 2 _ _
            (begin_instruction-Ensures environment limits (source_of i) s k)
            λ s' k'.
              Ensures-and_then environment limits 0 _ _ (perform-Ensures i s' g.0 k')
                λ s'' k''. instructions-Ensures is s'' g.1 k''

    pub handlers-Ensures :
        (hs : List RuntimeHandler) (s : Execution)
        → AllGiving hs
        → Kept environment limits 0 s
        → Ensures environment limits 0 (execute_handlers environment limits scope event hs s)
    unfolding execute_handlers
    handlers-Ensures [] s g k = k
    handlers-Ensures (h ∷ hs) s g k =
        Ensures-and_then environment limits 0 _ _ one (λ s' k'. handlers-Ensures hs s' g.1 k')
      where
        one : Ensures environment limits 0 (
            if same_event h.event event.event
            then execute_instructions environment limits scope event h.instructions s
            else (s, none))
        one = elim (Bool-cases (same_event h.event event.event)) [
          | inl same ↦ rw same (instructions-Ensures h.instructions s g.0 k)
          | inr other ↦ rw other k
        ]
