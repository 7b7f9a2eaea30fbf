-- ===== src/ProgramModel/Serialize/Canonical.antt =====
-- `normalizeProgram` of packages/program-model/src/serialize.ts on well-formed and on canonical
-- programs.
use mathlib.Core.List.{Perm}
use mathlib.Core.Path.{subst}
use badgerbots_code_studio.ProgramModel.Schema.{Place, program_issues}
use badgerbots_code_studio.Prelude.{
  ◌≤◌, ◌≡◌, refl, ap, ◌∙◌, List, [], ◌∷◌, map, All, Any, length, sort_by, All-sort_by, All-mono,
  All-of, sort_by-IsSortedBy, sort_by_of_IsSortedBy, IsSortedBy, ok, arith, true,
}
use badgerbots_code_studio.ProgramModel.Ids.{program_ids}
use badgerbots_code_studio.ProgramModel.Schema.Shape.{
  SafeScript, SafeStatements, program_issues_iff,
}
use badgerbots_code_studio.ProgramModel.Types.{
  ScriptKind, player, game, sheep, EventNode, ScriptNode, Program,
}
use badgerbots_code_studio.ProgramModel.WellFormed.{Occurs, IsWellFormed}
use badgerbots_code_studio.ProgramModel.WellFormed.Safe.{scripts_safe}
use badgerbots_code_studio.ProgramModel.Validate.{validate_program}
use badgerbots_code_studio.ProgramModel.Validate.Scripts.{validate_program_iff}
use badgerbots_code_studio.ProgramModel.Serialize.{
  parsed, normalized_of, script_order, event_order, normalized, normalize_program,
}
use badgerbots_code_studio.ProgramModel.Serialize.Laws.{
  sorted_script, normalized_lem, All-normalized, valid_ids-normalized, program_ids-normalized,
  normalized-IsWellFormed,
}

-- Three kinds in rank order, with each kind among them.
three_kinds :
    (a b c : ScriptKind)
    → script_order a ≤ script_order b
    → script_order b ≤ script_order c
    → Any (λ k. k ≡ player) (a ∷ b ∷ c ∷ [])
    → Any (λ k. k ≡ game) (a ∷ b ∷ c ∷ [])
    → Any (λ k. k ≡ sheep) (a ∷ b ∷ c ∷ [])
    → ◌≡◌ {A = List ScriptKind} (a ∷ b ∷ c ∷ []) (player ∷ game ∷ sheep ∷ [])
three_kinds player game sheep h k p g s = refl
three_kinds _ _ _ h k p g s = ground arith

canonical_kinds :
    (ss : List ScriptNode)
    → IsSortedBy (λ (s : ScriptNode). script_order s.script_kind) ss
    → length ss ≡ 3
    → Occurs player ss
    → Occurs game ss
    → Occurs sheep ss
    → map (λ s. s.script_kind) ss ≡ player ∷ game ∷ sheep ∷ []
canonical_kinds [] h e p g s = absurd (omega arith)
canonical_kinds (a ∷ []) h e p g s = absurd (omega arith)
canonical_kinds (a ∷ b ∷ []) h e p g s = absurd (omega arith)
canonical_kinds (a ∷ b ∷ c ∷ []) h e p g s =
    three_kinds a.script_kind b.script_kind c.script_kind h.0.0 h.1.0.0 p g s
canonical_kinds (a ∷ b ∷ c ∷ d ∷ ss) h e p g s = absurd (omega arith)

-- A well-formed program is normalised without an exception, to a program that is well-formed, holds
-- the same identifiers, has the scripts Player, Game and Sheep in this order, and validates.
pub normalize_program-IsWellFormed :
    (p : Program)
    → IsWellFormed p
    → (q : Program) × (normalize_program p ≡ ok q)
      × IsWellFormed q
      × Perm (program_ids q) (program_ids p)
      × (map (λ s. s.script_kind) q.scripts ≡ player ∷ game ∷ sheep ∷ [])
      × ((validate_program q).ok ≡ true)
unfolding normalize_program parsed
normalize_program-IsWellFormed p w =
    let v = normalized-IsWellFormed p w in
    (
      normalized p,
      ap (λ issues. normalized_of (parsed issues p))
          ((program_issues_iff p).1 (w.valid_ids, scripts_safe p.scripts w.scripts_fit)),
      v,
      program_ids-normalized p,
      canonical_kinds (normalized p).scripts
          (rw (normalized_lem p)
            (sort_by-IsSortedBy (λ s. script_order s.script_kind) (map sorted_script p.scripts)))
          v.three_scripts v.has_player v.has_game v.has_sheep,
      (validate_program_iff (normalized p)).1 v,
    )

sorted_script_idem : (s : ScriptNode) → sorted_script (sorted_script s) ≡ sorted_script s
sorted_script_idem s = λ i. record s {
  body =
      sort_by_of_IsSortedBy (λ e. event_order e.node_type)
        (sort_by (λ e. event_order e.node_type) s.body)
        (sort_by-IsSortedBy (λ e. event_order e.node_type) s.body) i;
}

sorted_scripts_idem :
    (ss : List ScriptNode) → map sorted_script (map sorted_script ss) ≡ map sorted_script ss
sorted_scripts_idem [] = refl
sorted_scripts_idem (s ∷ ss) = cc (sorted_script_idem s, sorted_scripts_idem ss)

-- A list of scripts, each with its events in order.
Tidy : ScriptNode → Type 0
Tidy s = sorted_script s ≡ s

map_of_Tidy : (ss : List ScriptNode) → All Tidy ss → map sorted_script ss ≡ ss
unfolding Tidy
map_of_Tidy [] h = refl
map_of_Tidy (s ∷ ss) h = cc (h.0, map_of_Tidy ss h.1)

normalized_idem : (p : Program) → (normalized (normalized p)).scripts ≡ (normalized p).scripts
unfolding Tidy
normalized_idem p =
    let all : All Tidy (normalized p).scripts =
      All-normalized Tidy p (All-of (λ s. sorted_script_idem s) p.scripts) in
    normalized_lem (normalized p)
    ∙ ap (sort_by (λ s. script_order s.script_kind)) (map_of_Tidy (normalized p).scripts all)
    ∙ sort_by_of_IsSortedBy (λ s. script_order s.script_kind) (normalized p).scripts
        (rw (normalized_lem p)
          (sort_by-IsSortedBy (λ s. script_order s.script_kind) (map sorted_script p.scripts)))

SafeScripts-normalized :
    (p : Program) → All SafeScript p.scripts → All SafeScript (normalized p).scripts
SafeScripts-normalized p h = All-normalized SafeScript p (
    All-mono
      (λ s.
        All-sort_by (λ e. event_order e.node_type) (λ (e : EventNode). SafeStatements e.body)
          s.body)
      p.scripts h)

pub accepted :
    (issues : List Place) (p q : Program)
    → normalized_of (parsed issues p) ≡ ok q
    → (issues ≡ []) × (normalized p ≡ q)
unfolding parsed
accepted [] p q h = (refl, cc)
accepted (issue ∷ issues) p q h = cc

normalized_program_idem : (p : Program) → normalized (normalized p) ≡ normalized p
unfolding normalized
normalized_program_idem p = λ i. record p { scripts = normalized_idem p i }

-- The canonical form of a program is its own canonical form.
pub normalize_program_idem :
    (p q : Program) → normalize_program p ≡ ok q → normalize_program q ≡ ok q
unfolding normalize_program parsed
normalize_program_idem p q h =
    let (shape, e) = accepted (program_issues p) p q h in
    let (ids, safe) = (program_issues_iff p).0 shape in
    let shape' : program_issues (normalized p) ≡ [] =
      (program_issues_iff (normalized p)).1
        (valid_ids-normalized p ids, SafeScripts-normalized p safe) in
    subst (λ r. normalize_program r ≡ ok r) e
      (ap (λ issues. normalized_of (parsed issues (normalized p))) shape'
        ∙ ap ok (normalized_program_idem p))
