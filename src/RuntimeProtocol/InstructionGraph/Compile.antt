-- ===== src/RuntimeProtocol/InstructionGraph/Compile.antt =====
-- `compileInstructionGraph` of packages/runtime-protocol/src/instruction-graph.ts on well-formed
-- programs.
use badgerbots_code_studio.Prelude.{
  ℕ, ◌≤◌, ◌≡◌, ◌≢◌, ap, ◌↔◌, inl, inr, true, Bool-cases, List, [], ◌∷◌, ◌++◌, map, All, All-map,
  All-mono, Distinct, length, length-append, length-map, flat_map, ok, arith,
}
use badgerbots_code_studio.ProgramModel.Types.{
  ScriptKind, player, game, sheep, EventType, projectile_hit_event, EventNode, ScriptNode, Program,
  ValidationResult,
}
use badgerbots_code_studio.ProgramModel.WellFormed.{BelongsTo, FitsEvent, FitsScript, IsWellFormed}
use badgerbots_code_studio.ProgramModel.Validate.{validate_program}
use badgerbots_code_studio.ProgramModel.Validate.Scripts.{validate_program_iff}
use badgerbots_code_studio.ProgramModel.Serialize.{normalize_program}
use badgerbots_code_studio.ProgramModel.Serialize.Canonical.{normalize_program-IsWellFormed}
use badgerbots_code_studio.RuntimeProtocol.InstructionGraph.{
  InstructionGraph, graph_of, compile_event, compile_checked, compile_instruction_graph,
}

-- Distinct events of one script: two at most, and none in Game.
abbrev event_limit : ScriptKind → ℕ
event_limit player = 2
event_limit game = 0
event_limit sheep = 2

no_event_in_game : (t : EventType) → BelongsTo t game → ⊥
no_event_in_game projectile_hit_event h = cc
no_event_in_game _ h = cc

no_third_event :
    (kind : ScriptKind) (a b c : EventType)
    → BelongsTo a kind
    → BelongsTo b kind
    → BelongsTo c kind
    → a ≢ b
    → a ≢ c
    → b ≢ c
    → ⊥
no_third_event kind a b c p q r d e f = ground arith

two_events :
    (kind : ScriptKind) (ts : List EventType)
    → All (λ t. BelongsTo t kind) ts
    → Distinct ts
    → length ts ≤ event_limit kind
two_events kind [] h d = omega arith
two_events player (a ∷ []) h d = omega arith
two_events game (a ∷ ts) h d = absurd (no_event_in_game a h.0)
two_events sheep (a ∷ []) h d = omega arith
two_events player (a ∷ b ∷ []) h d = omega arith
two_events sheep (a ∷ b ∷ []) h d = omega arith
two_events player (a ∷ b ∷ c ∷ ts) (ha, (hb, (hc, _))) (_, ((ab, _), ((bc, (ac, _)), _))) =
    absurd (no_third_event player a b c ha hb hc ab ac bc)
two_events sheep (a ∷ b ∷ c ∷ ts) (ha, (hb, (hc, _))) (_, ((ab, _), ((bc, (ac, _)), _))) =
    absurd (no_third_event sheep a b c ha hb hc ab ac bc)

script_events : (s : ScriptNode) → FitsScript s → length s.body ≤ event_limit s.script_kind
script_events s h = omega (
  arith,
  length-map (λ (e : EventNode). e.node_type) s.body,
  two_events s.script_kind (map (λ e. e.node_type) s.body) (types s.body h.1) h.0,
)
  where
    types :
        (es : List EventNode)
        → All (FitsEvent s.script_kind) es
        → All (λ t. BelongsTo t s.script_kind) (map (λ (e : EventNode). e.node_type) es)
    types es h =
        (All-map (λ t. BelongsTo t s.script_kind) (λ (e : EventNode). e.node_type) es).1
          (All-mono (λ e f. f.0) es h)

four_handlers :
    (ss : List ScriptNode)
    → map (λ (s : ScriptNode). s.script_kind) ss ≡ player ∷ game ∷ sheep ∷ []
    → All FitsScript ss
    → length (flat_map (λ (s : ScriptNode). map compile_event s.body) ss) ≤ 4
four_handlers [] e h = cc
four_handlers (a ∷ []) e h = cc
four_handlers (a ∷ b ∷ []) e h = cc
four_handlers (a ∷ b ∷ c ∷ []) e (ha, (hb, (hc, _))) = omega (
  arith,
  script_events a ha,
  script_events b hb,
  script_events c hc,
  ap event_limit first,
  ap event_limit second,
  ap event_limit third,
  length-append (map compile_event a.body)
      (map compile_event b.body ++ (map compile_event c.body ++ [])),
  length-append (map compile_event b.body) (map compile_event c.body ++ []),
  length-append (map compile_event c.body) [],
  length-map compile_event a.body,
  length-map compile_event b.body,
  length-map compile_event c.body,
)
  where
    first : a.script_kind ≡ player
    first = cc

    second : b.script_kind ≡ game
    second = cc

    third : c.script_kind ≡ sheep
    third = cc
four_handlers (a ∷ b ∷ c ∷ d ∷ ss) e h = cc

compile_valid :
    (v : ValidationResult) (p q : Program)
    → v.ok ≡ true
    → normalize_program p ≡ ok q
    → compile_checked v p ≡ ok (graph_of q)
compile_valid v p q valid normal = rw (valid, normal)

compiled_ok :
    (v : ValidationResult) (p : Program) (g : InstructionGraph)
    → compile_checked v p ≡ ok g
    → v.ok ≡ true
compiled_ok v p g h = elim (Bool-cases v.ok) [
  | inl valid ↦ valid
  | inr invalid ↦ cc (rw invalid at h)
]

-- A well-formed program compiles to the graph of its canonical form, which is well-formed too and has
-- at most four handlers.
pub compile_of_IsWellFormed :
    (p : Program)
    → IsWellFormed p
    → (q : Program) × (normalize_program p ≡ ok q)
      × IsWellFormed q
      × (compile_instruction_graph p ≡ ok (graph_of q))
      × (length (graph_of q).handlers ≤ 4)
unfolding compile_instruction_graph
compile_of_IsWellFormed p w =
    let (q, normal, v, ids, kinds, valid) = normalize_program-IsWellFormed p w in
    (
      q,
      normal,
      v,
      compile_valid (validate_program p) p q ((validate_program_iff p).1 w) normal,
      four_handlers q.scripts kinds v.scripts_fit,
    )

-- `compileInstructionGraph` returns a graph exactly for the well-formed programs; otherwise it throws.
pub compile_iff :
    (p : Program) → ((g : InstructionGraph) × (compile_instruction_graph p ≡ ok g)) ↔ IsWellFormed p
unfolding compile_instruction_graph
compile_iff p = (
  λ (g, h). (validate_program_iff p).0 (compiled_ok (validate_program p) p g h),
  λ w. let (q, normal, v, compiled, few) = compile_of_IsWellFormed p w in (graph_of q, compiled),
)
