-- ===== src/RuntimeProtocol/Execution/Budget.antt =====
-- Explosions and dropped items counted over the logged calls of the adapter, independently of the
-- counters of `EventBudget` in packages/runtime-protocol/src/interpreter.ts.
use badgerbots_code_studio.Prelude.{
  ℕ, ◌+◌, ◌-◌, ◌*◌, ◌≤◌, ◌≡◌, ap, ◌∙◌, inl, inr, ℤ, pos, negsuc, String, List, [], ◌∷◌, none, some,
  ltb, ltb→le, length, Bool-cases, arith,
}
use badgerbots_code_studio.RuntimeProtocol.InstructionGraph.{
  RuntimeInstruction, RuntimeInstructions, explode_at_event_location, conditional,
  set_vertical_velocity, set_color, set_speed_multiplier, drop_items, done, next, RuntimeHandler,
}
use badgerbots_code_studio.RuntimeProtocol.Execution.{
  RuntimeLimits, Action, explode_at, drop_gold, Call, Environment, Execution, Outcome, and_then,
  call, begin_instruction,
}

abbrev pub explosions_of : Action → ℕ
explosions_of (explode_at power) = 1
explosions_of _ = 0

abbrev pub items_of : ℤ → ℕ
items_of (pos quantity) = quantity
items_of (negsuc n) = 0

abbrev pub drops_of : Action → ℕ
drops_of (drop_gold quantity) = items_of quantity
drops_of _ = 0

-- The explosions and the items that the adapter was asked for.
abbrev pub exploded : List Call → ℕ
exploded [] = 0
exploded (c ∷ cs) = exploded cs + explosions_of c.action

abbrev pub dropped : List Call → ℕ
dropped [] = 0
dropped (c ∷ cs) = dropped cs + drops_of c.action

-- No instruction drops a negative number of items.
abbrev mutual
  pub IsGiving : RuntimeInstruction → Type 0
  IsGiving (explode_at_event_location id power) = Unit
  IsGiving (conditional id condition body) = AreGiving body
  IsGiving (set_vertical_velocity id value) = Unit
  IsGiving (set_color id) = Unit
  IsGiving (set_speed_multiplier id multiplier) = Unit
  IsGiving (drop_items id quantity) = (n : ℕ) × (quantity ≡ pos n)

  pub AreGiving : RuntimeInstructions → Type 0
  AreGiving done = Unit
  AreGiving (next i is) = IsGiving i × AreGiving is

-- No instruction of a handler does.
abbrev pub AllGiving : List RuntimeHandler → Type 0
AllGiving [] = Unit
AllGiving (h ∷ hs) = AreGiving h.instructions × AllGiving hs

module _ (environment : Environment) (limits : RuntimeLimits) where
  -- While the event runs the counters are exact and within the limits; each counted instruction makes
  -- at most two calls, of which the current one has some to spare.
  pub record Kept (spare : ℕ) (s : Execution) : Type 0 where
    pub exact_explosions : exploded s.calls ≡ s.explosions
    pub exact_drops : pos (dropped s.calls) ≡ s.item_drops
    pub few_explosions : s.explosions ≤ limits.maximum_explosions_per_event
    pub few_drops : dropped s.calls ≤ limits.maximum_item_drops_per_event
    pub few_instructions : s.instructions ≤ limits.maximum_instructions_per_event
    pub few_calls : length s.calls + spare ≤ 2 * s.instructions

  -- Also when it fails, what was asked for is within the limits: explosions, items, and two calls for
  -- each instruction.
  pub record Spent (s : Execution) : Type 0 where
    pub few_explosions : exploded s.calls ≤ limits.maximum_explosions_per_event
    pub few_drops : dropped s.calls ≤ limits.maximum_item_drops_per_event
    pub few_calls : length s.calls ≤ 2 * limits.maximum_instructions_per_event

  abbrev pub Ensures : ℕ → Outcome → Type 0
  Ensures spare (s, none) = Kept spare s
  Ensures spare (s, some failure) = Spent s

  pub Kept-Spent : {spare : ℕ} {s : Execution} → Kept spare s → Spent s
  Kept-Spent {spare = spare} {s = s} k = record {
    few_explosions = omega (arith, k.exact_explosions, k.few_explosions);
    few_drops = k.few_drops;
    few_calls = omega (arith, k.few_calls, k.few_instructions);
  }

  pub Kept-less : {spare : ℕ} {s : Execution} → Kept (spare + 1) s → Kept spare s
  Kept-less {spare = spare} {s = s} k = record {
    exact_explosions = k.exact_explosions;
    exact_drops = k.exact_drops;
    few_explosions = k.few_explosions;
    few_drops = k.few_drops;
    few_instructions = k.few_instructions;
    few_calls = omega (arith, k.few_calls);
  }

  pub Ensures-and_then :
      (m : ℕ) (o : Outcome) (f : Execution → Outcome)
      → Ensures m o
      → ((s : Execution) → Kept m s → Ensures 0 (f s))
      → Ensures 0 (and_then o f)
  Ensures-and_then m (s, none) f h k = k s h
  Ensures-and_then m (s, some failure) f h k = h

  -- A call, from a state whose counters count it already.
  pub call-Ensures :
      (n : ℕ) (c : Call) (s : Execution)
      → Kept n (record s { calls = c ∷ s.calls })
      → Ensures n (call environment limits c s)
  unfolding call
  call-Ensures n c s k = elim (Bool-cases (environment.throws s.calls c)) [
    | inl throws ↦ rw throws (Kept-Spent k)
    | inr returns ↦ rw returns k
  ]

  pub quiet_call-Ensures :
      (n : ℕ) (c : Call) (s : Execution)
      → explosions_of c.action ≡ 0
      → drops_of c.action ≡ 0
      → Kept (n + 1) s
      → Ensures n (call environment limits c s)
  quiet_call-Ensures n c s e d k = call-Ensures n c s (record {
    exact_explosions = omega (arith, e, k.exact_explosions);
    exact_drops = ap pos (omega (arith, d)) ∙ k.exact_drops;
    few_explosions = k.few_explosions;
    few_drops = omega (arith, d, k.few_drops);
    few_instructions = k.few_instructions;
    few_calls = omega (arith, k.few_calls);
  })

  pub begin_instruction-Ensures :
      (id : String) (s : Execution)
      → Kept 0 s
      → Ensures 2 (begin_instruction environment limits id s)
  unfolding begin_instruction
  begin_instruction-Ensures id s k =
      elim (Bool-cases (ltb limits.maximum_instructions_per_event (s.instructions + 1))) [
        | inl over ↦ rw over (record {
          few_explosions = (Kept-Spent k).few_explosions;
          few_drops = (Kept-Spent k).few_drops;
          few_calls = (Kept-Spent k).few_calls;
        })
        | inr within ↦
            let kept : Kept 2
                (record s { instructions = s.instructions + 1; readings = s.readings + 1 }) =
              record {
                exact_explosions = k.exact_explosions;
                exact_drops = k.exact_drops;
                few_explosions = k.few_explosions;
                few_drops = k.few_drops;
                few_instructions =
                    ltb→le limits.maximum_instructions_per_event (s.instructions + 1) within;
                few_calls = omega (arith, k.few_calls);
              } in
            elim (Bool-cases
              (ltb limits.maximum_wall_clock_ms (environment.clock s.readings - s.started_at))) [
                | inl late ↦ rw (within, late) (Kept-Spent kept)
                | inr timely ↦ rw (within, timely) kept
              ]
      ]
