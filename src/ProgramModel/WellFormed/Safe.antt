-- ===== src/ProgramModel/WellFormed/Safe.antt =====
-- The ranges of packages/program-model/src/validate.ts against the safe integers of schema.ts.
use badgerbots_code_studio.Prelude.{ℕ, ◌+◌, pos, negsuc, List, [], ◌∷◌, All, arith}
use badgerbots_code_studio.ProgramModel.Types.{
  ScriptKind, EventType, StatementNode, StatementNodes, explode, bounce, branch, color, speed, drop,
  nil, cons, EventNode, ScriptNode,
}
use badgerbots_code_studio.ProgramModel.Schema.{is_safe_integer}
use badgerbots_code_studio.ProgramModel.Schema.Shape.{SafeStatement, SafeStatements, SafeScript}
use badgerbots_code_studio.ProgramModel.WellFormed.{
  FitsStatement, FitsStatements, FitsEvent, FitsScript,
}

mutual
  unfolding FitsStatement SafeStatement is_safe_integer

  FitsStatement-safe :
      (event : EventType) (depth : ℕ) (s : StatementNode)
      → FitsStatement event depth s
      → SafeStatement s
  FitsStatement-safe event depth (explode id power) h = tt
  FitsStatement-safe event depth (bounce id velocity) h = tt
  FitsStatement-safe event depth (branch id condition body) h =
      FitsStatements-safe event (depth + 1) body h.1
  FitsStatement-safe event depth (color id) h = tt
  FitsStatement-safe event depth (speed id multiplier) h = tt
  FitsStatement-safe event depth (drop id (pos n)) h = let (_, low, high) = h in ground arith
  FitsStatement-safe event depth (drop id (negsuc n)) h =
      let (_, low, high) = h in absurd (omega arith)

  FitsStatements-safe :
      (event : EventType) (depth : ℕ) (body : StatementNodes)
      → FitsStatements event depth body
      → SafeStatements body
  FitsStatements-safe event depth nil h = tt
  FitsStatements-safe event depth (cons s body) h =
      (FitsStatement-safe event depth s h.0, FitsStatements-safe event depth body h.1)

events_safe :
    (kind : ScriptKind) (es : List EventNode)
    → All (FitsEvent kind) es
    → All (λ (e : EventNode). SafeStatements e.body) es
events_safe kind [] h = tt
events_safe kind (e ∷ es) h =
    (FitsStatements-safe e.node_type 1 e.body h.0.2, events_safe kind es h.1)

pub scripts_safe : (ss : List ScriptNode) → All FitsScript ss → All SafeScript ss
scripts_safe [] h = tt
scripts_safe (s ∷ ss) h = (events_safe s.script_kind s.body h.0.1, scripts_safe ss h.1)
