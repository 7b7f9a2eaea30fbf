-- ===== src/ProgramModel/Serialize/Laws.antt =====
-- `normalizeProgram` of packages/program-model/src/serialize.ts and the rules on programs.
use mathlib.Core.List.{Perm}
use mathlib.Core.List.Perm
use mathlib.Core.Bool.{Bool-set}
use badgerbots_code_studio.Prelude.{
  ◌≡◌, refl, ap, ◌∙◌, List, [], ◌∷◌, map, All, Distinct-perm, length, length-map, sort_by,
  sort_by-perm, flat_map-sort_by-perm, All-sort_by, Any-sort_by, Any-map, All-map, All-mono,
  All-perm, length-perm, length-sort_by,
}
use badgerbots_code_studio.ProgramModel.Ids.{event_ids, script_ids, scripts_ids, program_ids}
use badgerbots_code_studio.ProgramModel.Schema.Shape.{IsNodeId}
use badgerbots_code_studio.ProgramModel.Types.{
  ScriptKind, player, game, sheep, StatementNode, StatementNodes, explode, bounce, branch, color,
  speed, drop, nil, cons, EventNode, ScriptNode, Program,
}
use badgerbots_code_studio.ProgramModel.WellFormed.{FitsEvent, FitsScript, Occurs, IsWellFormed}
use badgerbots_code_studio.ProgramModel.Serialize.{
  script_order, event_order, normalize_statement, normalize_statements, normalize_event,
  normalize_script, normalized,
}

mutual
  unfolding normalize_statement

  statement_lem : (s : StatementNode) → normalize_statement s ≡ s
  statement_lem (explode id power) = refl
  statement_lem (bounce id velocity) = refl
  statement_lem (branch id condition body) = ap (branch id condition) (statements_lem body)
  statement_lem (color id) = refl
  statement_lem (speed id multiplier) = refl
  statement_lem (drop id quantity) = refl

  statements_lem : (body : StatementNodes) → normalize_statements body ≡ body
  statements_lem nil = refl
  statements_lem (cons s body) = cc (statement_lem s, statements_lem body)

normalize_event_lem : (e : EventNode) → normalize_event e ≡ e
unfolding normalize_event
normalize_event_lem e = λ i. record e { body = statements_lem e.body i }

events_lem : (es : List EventNode) → map normalize_event es ≡ es
events_lem [] = refl
events_lem (e ∷ es) = cc (normalize_event_lem e, events_lem es)

-- A script with its events in order.
abbrev pub sorted_script : ScriptNode → ScriptNode
sorted_script s = record s { body = sort_by (λ e. event_order e.node_type) s.body }

normalize_script_lem : (s : ScriptNode) → normalize_script s ≡ sorted_script s
unfolding normalize_script
normalize_script_lem s =
    λ i. record s { body = sort_by (λ e. event_order e.node_type) (events_lem s.body i) }

scripts_lem : (ss : List ScriptNode) → map normalize_script ss ≡ map sorted_script ss
scripts_lem [] = refl
scripts_lem (s ∷ ss) = cc (normalize_script_lem s, scripts_lem ss)

pub normalized_lem :
    (p : Program)
    → (normalized p).scripts
      ≡ sort_by (λ s. script_order s.script_kind) (map sorted_script p.scripts)
unfolding normalized
normalized_lem p = ap (sort_by (λ s. script_order s.script_kind)) (scripts_lem p.scripts)

sorted_script_ids-perm : (s : ScriptNode) → Perm (script_ids (sorted_script s)) (script_ids s)
unfolding script_ids
sorted_script_ids-perm s =
    Perm.cons s.id (flat_map-sort_by-perm (λ e. event_order e.node_type) event_ids s.body)

sorted_scripts_ids-perm :
    (ss : List ScriptNode) → Perm (scripts_ids (map sorted_script ss)) (scripts_ids ss)
sorted_scripts_ids-perm [] = Perm.rfl
sorted_scripts_ids-perm (s ∷ ss) =
    Perm.append (sorted_script_ids-perm s) (sorted_scripts_ids-perm ss)

-- The canonical program has the identifiers of the program, each as often.
pub program_ids-normalized : (p : Program) → Perm (program_ids (normalized p)) (program_ids p)
unfolding program_ids normalized
program_ids-normalized p = Perm.cons p.program_id (
    Perm.trans
      (rw (scripts_lem p.scripts) (
        flat_map-sort_by-perm (λ s. script_order s.script_kind) script_ids
          (map sorted_script p.scripts)))
      (sorted_scripts_ids-perm p.scripts))

-- What holds of every script with its events in order holds of the scripts of the canonical program.
pub All-normalized :
    (P : ScriptNode → Type 0) (p : Program)
    → All (λ s. P (sorted_script s)) p.scripts
    → All P (normalized p).scripts
All-normalized P p h = rw (normalized_lem p) (
    All-sort_by (λ s. script_order s.script_kind) P (map sorted_script p.scripts)
      ((All-map P sorted_script p.scripts).1 h))

sorted_script-FitsScript : (s : ScriptNode) → FitsScript s → FitsScript (sorted_script s)
sorted_script-FitsScript s h = (
  Distinct-perm
      (Perm.map (λ (e : EventNode). e.node_type)
        (Perm.symm (sort_by-perm (λ e. event_order e.node_type) s.body)))
      h.0,
  All-sort_by (λ e. event_order e.node_type) (FitsEvent s.script_kind) s.body h.1,
)

Occurs-normalized :
    (kind : ScriptKind) (p : Program) → Occurs kind p.scripts → Occurs kind (normalized p).scripts
Occurs-normalized kind p h = rw (normalized_lem p) (
    Any-sort_by (λ s. script_order s.script_kind) (λ s. s.script_kind ≡ kind)
      (map sorted_script p.scripts) (Any-map (λ s. s.script_kind ≡ kind) sorted_script p.scripts h))

length-normalized : (p : Program) → length (normalized p).scripts ≡ length p.scripts
length-normalized p = rw (normalized_lem p) (
    length-sort_by (λ s. script_order s.script_kind) (map sorted_script p.scripts)
    ∙ length-map sorted_script p.scripts)

pub valid_ids-normalized :
    (p : Program) → All IsNodeId (program_ids p) → All IsNodeId (program_ids (normalized p))
valid_ids-normalized p h =
    All-perm IsNodeId (λ id. Bool-set _ _) (Perm.symm (program_ids-normalized p)) h

pub normalized-IsWellFormed : (p : Program) → IsWellFormed p → IsWellFormed (normalized p)
normalized-IsWellFormed p w = record {
  valid_ids = valid_ids-normalized p w.valid_ids;
  distinct_ids = Distinct-perm (Perm.symm (program_ids-normalized p)) w.distinct_ids;
  size = rw (length-perm (program_ids-normalized p)) w.size;
  three_scripts = length-normalized p ∙ w.three_scripts;
  has_player = Occurs-normalized player p w.has_player;
  has_game = Occurs-normalized game p w.has_game;
  has_sheep = Occurs-normalized sheep p w.has_sheep;
  scripts_fit =
      All-normalized FitsScript p (All-mono sorted_script-FitsScript p.scripts w.scripts_fit);
}
