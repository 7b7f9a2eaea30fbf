-- ===== src/ControlPlane/Step/Unique.antt =====
-- The table of workspaces, packages/control-plane/src/service.ts: each identifier stands once, also after a
-- purge, which spares the versions of the other workspaces.
use mathlib.Core.Path.{subst}
use badgerbots_code_studio.Prelude.{
  ◌≡◌, ◌≢◌, sym, ◌∙◌, ap, List, [], ◌∷◌, ◌++◌, All, All-mono, All-map, Bool, true, false, not,
  if◌then◌else◌, String, str_eq, eq_iff, has, has-All-ne, map,
}
use badgerbots_code_studio.ProgramModel.Types.{Program}
use badgerbots_code_studio.ProgramModel.Starter.{sheep_city_starter_program}
use badgerbots_code_studio.ControlPlane.Store.{Workspace, ProgramVersion, change_first, keep}
use badgerbots_code_studio.ControlPlane.Programs.{advanced}
use badgerbots_code_studio.ControlPlane.Retention.{workspace_ids}
use badgerbots_code_studio.ControlPlane.Step.Safe.{All-keep, All-snoc, All-change_first}
use badgerbots_code_studio.ControlPlane.Step.History.{
  replay, is_of, HasHistory, Unique, keep-keep, All-both,
}

pub Unique-snoc :
    (ws : List Workspace) (w : Workspace)
    → Unique ws
    → All (λ (x : Workspace). x.id ≢ w.id) ws
    → Unique (ws ++ w ∷ [])
Unique-snoc [] w u h = (tt, tt)
Unique-snoc (x ∷ ws) w u h = (
  All-snoc (λ (y : Workspace). y.id ≢ x.id) ws w u.0 (λ e. h.0 (sym e)),
  Unique-snoc ws w u.1 h.1,
)

Unique-if :
    (test : Bool) (xs ys : List Workspace)
    → Unique xs
    → Unique ys
    → Unique (if test then xs else ys)
Unique-if true xs ys h k = h
Unique-if false xs ys h k = k

pub Unique-change_first :
    (test : Workspace → Bool) (p : Program) (ws : List Workspace)
    → Unique ws
    → Unique (change_first test (advanced p) ws)
unfolding change_first
Unique-change_first test p [] u = tt
Unique-change_first test p (x ∷ ws) u = Unique-if (test x) _ _ u (
  All-change_first (λ (y : Workspace). y.id ≢ x.id) test (advanced p) ws (λ y h. h) u.0,
  Unique-change_first test p ws u.1,
)

pub Unique-keep :
    (test : Workspace → Bool) (ws : List Workspace) → Unique ws → Unique (keep test ws)
unfolding keep
Unique-keep test [] u = tt
Unique-keep test (x ∷ ws) u =
    let rest = Unique-keep test ws u.1 in
    Unique-if (test x) (x ∷ keep test ws) _
      (All-keep (λ (y : Workspace). y.id ≢ x.id) test ws u.0, rest) rest

-- A workspace that stays is none of those whose versions go.
abbrev pub Spared : String → List Workspace → Workspace → Type 0
Spared session ws w = All (λ i. i ≢ w.id) (workspace_ids session ws)

abbrev pub is_spared : String → Workspace → Bool
is_spared session w = not (str_eq w.session_id session)

Spared-if :
    (session : String) (x : Workspace) (ws : List Workspace) (gone : Bool)
    → All (λ (w : Workspace). w.id ≢ x.id) ws
    → All (Spared session ws) (keep (is_spared session) ws)
    → All
        (λ (w : Workspace).
          All
            (λ i. i ≢ w.id)
            (map
              (λ (y : Workspace). y.id)
              (if gone
                then x ∷ keep (λ (y : Workspace). str_eq y.session_id session) ws
                else keep (λ (y : Workspace). str_eq y.session_id session) ws)))
        (if not gone then x ∷ keep (is_spared session) ws else keep (is_spared session) ws)
Spared-if session x ws true others rest =
    All-mono (λ w both. (λ e. both.0 (sym e), both.1)) _
      (All-both (λ (w : Workspace). w.id ≢ x.id) (Spared session ws) _
        (All-keep (λ (w : Workspace). w.id ≢ x.id) (is_spared session) ws others) rest)
Spared-if session x ws false others rest = (
  (All-map (λ i. i ≢ x.id) (λ (w : Workspace). w.id) _).1
      (All-keep (λ (w : Workspace). w.id ≢ x.id) _ ws others),
  rest,
)

pub Spared-keep :
    (session : String) (ws : List Workspace)
    → Unique ws
    → All (Spared session ws) (keep (is_spared session) ws)
unfolding keep
Spared-keep session [] u = tt
Spared-keep session (x ∷ ws) u =
    Spared-if session x ws (str_eq x.session_id session) u.0 (Spared-keep session ws u.1)

has-not :
    (ids : List String) (i j : String)
    → has ids j ≡ false
    → str_eq i j ≡ true
    → not (has ids i) ≡ true
has-not ids i j h e = ap not (subst (λ k. has ids k ≡ false) (sym ((eq_iff i j).0 e)) h)

-- The versions of a spared workspace stay.
pub HasHistory-spared :
    (ids : List String) (vs : List ProgramVersion) (w : Workspace)
    → All (λ i. i ≢ w.id) ids
    → HasHistory vs w
    → HasHistory (keep (λ (v : ProgramVersion). not (has ids v.workspace_id)) vs) w
HasHistory-spared ids vs w spared h =
    ap (replay (0, sheep_city_starter_program)) (
      keep-keep (is_of w.id) (λ (v : ProgramVersion). not (has ids v.workspace_id)) vs
        (λ v mine. has-not ids v.workspace_id w.id ((has-All-ne ids w.id).1 spared) mine))
    ∙ h
