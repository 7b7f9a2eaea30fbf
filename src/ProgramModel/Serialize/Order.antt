-- ===== src/ProgramModel/Serialize/Order.antt =====
-- The order that `normalizeProgram` of packages/program-model/src/serialize.ts puts scripts and events
-- in, said without the numbers that it sorts by.
use mathlib.Core.List.{Perm}
use mathlib.Core.Path.{subst}
use badgerbots_code_studio.Prelude.{
  ℕ, ◌≤◌, ◌≡◌, refl, List, [], ◌∷◌, map, All, All-mono, sort_by-perm, sort_by-IsSortedBy,
  IsSortedBy, ok, arith,
}
use badgerbots_code_studio.ProgramModel.Schema.{program_issues}
use badgerbots_code_studio.ProgramModel.Types.{
  ScriptKind, player, game, sheep, EventType, projectile_hit_event, player_move_event,
  sheep_spawn_event, sheep_death_event, EventNode, ScriptNode, Program,
}
use badgerbots_code_studio.ProgramModel.Serialize.{
  script_order, event_order, normalized, normalize_program,
}
use badgerbots_code_studio.ProgramModel.Serialize.Laws.{sorted_script, normalized_lem}
use badgerbots_code_studio.ProgramModel.Serialize.Canonical.{accepted, normalize_program_idem}

-- The events in the order hit, move, spawn, death; the scripts in the order Player, Game, Sheep.
pub data IsEarlierEvent : EventType → EventType → Type 0 where
  hit_move : IsEarlierEvent projectile_hit_event player_move_event
  hit_spawn : IsEarlierEvent projectile_hit_event sheep_spawn_event
  hit_death : IsEarlierEvent projectile_hit_event sheep_death_event
  move_spawn : IsEarlierEvent player_move_event sheep_spawn_event
  move_death : IsEarlierEvent player_move_event sheep_death_event
  spawn_death : IsEarlierEvent sheep_spawn_event sheep_death_event

pub data IsEarlierScript : ScriptKind → ScriptKind → Type 0 where
  player_game : IsEarlierScript player game
  player_sheep : IsEarlierScript player sheep
  game_sheep : IsEarlierScript game sheep

-- No element stands before one that is earlier.
abbrev pub InOrder : {A : Type 0} → (A → A → Type 0) → List A → Type 0
InOrder IsEarlier [] = Unit
InOrder IsEarlier (x ∷ xs) = All (λ y. ¬ IsEarlier y x) xs × InOrder IsEarlier xs

-- The same script, but for the order of its events, which is the canonical one.
abbrev pub IsReordered : ScriptNode → ScriptNode → Type 0
IsReordered a b =
    (b ≡ record a { body = b.body })
    × Perm b.body a.body
    × InOrder (λ (x y : EventNode). IsEarlierEvent x.node_type y.node_type) b.body

abbrev pub AreReordered : List ScriptNode → List ScriptNode → Type 0
AreReordered [] [] = Unit
AreReordered (x ∷ xs) (y ∷ ys) = IsReordered x y × AreReordered xs ys
AreReordered _ _ = ⊥

-- The same program, but for the order of the events in each script and of the scripts.
abbrev pub IsCanonicalOf : Program → Program → Type 0
IsCanonicalOf p q =
    (q ≡ record p { scripts = q.scripts })
    × ((ss : List ScriptNode) × AreReordered p.scripts ss × Perm q.scripts ss)
    × InOrder (λ (x y : ScriptNode). IsEarlierScript x.script_kind y.script_kind) q.scripts

event_order-IsEarlierEvent :
    {a b : EventType} → event_order a ≤ event_order b → ¬ IsEarlierEvent b a
event_order-IsEarlierEvent h hit_move = absurd (omega arith)
event_order-IsEarlierEvent h hit_spawn = absurd (omega arith)
event_order-IsEarlierEvent h hit_death = absurd (omega arith)
event_order-IsEarlierEvent h move_spawn = absurd (omega arith)
event_order-IsEarlierEvent h move_death = absurd (omega arith)
event_order-IsEarlierEvent h spawn_death = absurd (omega arith)

script_order-IsEarlierScript :
    {a b : ScriptKind} → script_order a ≤ script_order b → ¬ IsEarlierScript b a
script_order-IsEarlierScript h player_game = absurd (omega arith)
script_order-IsEarlierScript h player_sheep = absurd (omega arith)
script_order-IsEarlierScript h game_sheep = absurd (omega arith)

InOrder-of_IsSortedBy :
    {A : Type 0} (rank : A → ℕ) (IsEarlier : A → A → Type 0) (xs : List A)
    → ((x y : A) → rank x ≤ rank y → ¬ IsEarlier y x)
    → IsSortedBy rank xs
    → InOrder IsEarlier xs
InOrder-of_IsSortedBy rank IsEarlier [] h sorted = tt
InOrder-of_IsSortedBy rank IsEarlier (x ∷ xs) h (first, rest) =
    (All-mono (λ y le. h x y le) xs first, InOrder-of_IsSortedBy rank IsEarlier xs h rest)

sorted_script-IsReordered : (s : ScriptNode) → IsReordered s (sorted_script s)
sorted_script-IsReordered s = (
  refl,
  sort_by-perm (λ e. event_order e.node_type) s.body,
  InOrder-of_IsSortedBy (λ (e : EventNode). event_order e.node_type) _ _
      (λ x y. event_order-IsEarlierEvent)
      (sort_by-IsSortedBy (λ e. event_order e.node_type) s.body),
)

sorted_scripts-AreReordered : (ss : List ScriptNode) → AreReordered ss (map sorted_script ss)
sorted_scripts-AreReordered [] = tt
sorted_scripts-AreReordered (s ∷ ss) = (sorted_script-IsReordered s, sorted_scripts-AreReordered ss)

normalized-IsCanonicalOf : (p : Program) → IsCanonicalOf p (normalized p)
unfolding normalized
normalized-IsCanonicalOf p = (
  refl,
  (
    map sorted_script p.scripts,
    sorted_scripts-AreReordered p.scripts,
    rw (normalized_lem p)
        (sort_by-perm (λ s. script_order s.script_kind) (map sorted_script p.scripts)),
  ),
  InOrder-of_IsSortedBy (λ (s : ScriptNode). script_order s.script_kind) _ _
      (λ x y. script_order-IsEarlierScript)
      (rw (normalized_lem p)
        (sort_by-IsSortedBy (λ s. script_order s.script_kind) (map sorted_script p.scripts))),
)

-- What `normalizeProgram` returns is the given program but for the order: every script keeps its
-- events, with their statements, and no event stands before one that is earlier in the order hit,
-- move, spawn, death; the scripts are the same, and none stands before one that is earlier in the
-- order Player, Game, Sheep. Normalised again, it is returned as it is.
pub normalize_program-IsCanonicalOf :
    (p q : Program) → normalize_program p ≡ ok q → IsCanonicalOf p q × (normalize_program q ≡ ok q)
unfolding normalize_program
normalize_program-IsCanonicalOf p q h = (
  subst (IsCanonicalOf p) (accepted (program_issues p) p q h).1 (normalized-IsCanonicalOf p),
  normalize_program_idem p q h,
)
