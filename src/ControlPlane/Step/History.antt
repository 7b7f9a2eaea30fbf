-- ===== src/ControlPlane/Step/History.antt =====
-- The versions of one workspace, packages/control-plane/src/service.ts: they are the history of its
-- program. An identifier of a workspace is given out once.
use badgerbots_code_studio.Prelude.{
  some_injective, ℕ, ◌+◌, ◌==◌, ◌≡◌, ◌≢◌, refl, sym, ◌∙◌, ap, List, [], ◌∷◌, ◌++◌, All, All-mono,
  arith, Bool, true, false, Option, none, some, if◌then◌else◌, String, str_eq, eq_iff,
}
use badgerbots_code_studio.ProgramModel.Types.{Program}
use badgerbots_code_studio.ProgramModel.Starter.{sheep_city_starter_program}
use badgerbots_code_studio.ControlPlane.Store.{Workspace, ProgramVersion, find, change_first, keep}
use badgerbots_code_studio.ControlPlane.Programs.{is_workspace, advanced}

-- The revision and program after the versions, from a revision and program before them; `none` if a
-- version's revision is not the next one.
unfoldable pub replay : ℕ × Program → List ProgramVersion → Option (ℕ × Program)
replay (n, p) [] = some (n, p)
replay (n, p) (v ∷ vs) =
    let rest = replay (n + 1, v.program) vs in if v.revision == n + 1 then rest else none

abbrev pub is_of : String → ProgramVersion → Bool
is_of id v = str_eq v.workspace_id id

-- The versions of the workspace lead from the starter program to its revision and program.
abbrev pub HasHistory : List ProgramVersion → Workspace → Type 0
HasHistory versions w =
    replay (0, sheep_city_starter_program) (keep (is_of w.id) versions)
    ≡ some (w.revision, w.current_program)

replay-append :
    (n : ℕ) (p : Program) (vs : List ProgramVersion) (m : ℕ) (q : Program) (v : ProgramVersion)
    → replay (n, p) vs ≡ some (m, q)
    → v.revision ≡ m + 1
    → replay (n, p) (vs ++ v ∷ []) ≡ some (m + 1, v.program)
unfolding replay
replay-append n p [] m q v h e = ground arith
replay-append n p (x ∷ vs) m q v h e = ground (arith, replay-append (n + 1) x.program vs m q v)

-- No identifier stands twice.
abbrev pub Unique : List Workspace → Type 0
Unique [] = Unit
Unique (w ∷ ws) = All (λ (x : Workspace). x.id ≢ w.id) ws × Unique ws

pub false-true : false ≢ true
false-true e = ground (arith, e)

module _ {A : Type 0} where
  keep-append_in :
      (test : A → Bool) (xs : List A) (y : A)
      → test y ≡ true
      → keep test (xs ++ y ∷ []) ≡ keep test xs ++ y ∷ []
  unfolding keep
  keep-append_in test [] y e = ground (arith, e)
  keep-append_in test (x ∷ xs) y e = ground (arith, keep-append_in test xs y e)

  keep-append_out :
      (test : A → Bool) (xs : List A) (y : A)
      → test y ≡ false
      → keep test (xs ++ y ∷ []) ≡ keep test xs
  unfolding keep
  keep-append_out test [] y e = ground (arith, e)
  keep-append_out test (x ∷ xs) y e = ground (arith, keep-append_out test xs y e)

  pub keep_none : (test : A → Bool) (xs : List A) → All (λ x. test x ≡ false) xs → keep test xs ≡ []
  unfolding keep
  keep_none test [] h = refl
  keep_none test (x ∷ xs) h = ground (arith, h.0, keep_none test xs h.1)

  -- Elements that the outer test would drop may be dropped before.
  pub keep-keep :
      (outer inner : A → Bool) (xs : List A)
      → ((x : A) → outer x ≡ true → inner x ≡ true)
      → keep outer (keep inner xs) ≡ keep outer xs
  unfolding keep
  keep-keep outer inner [] h = refl
  keep-keep outer inner (x ∷ xs) h = ground (arith, h x, keep-keep outer inner xs h)

module _ {A : Type 0} (P Q : A → Type 0) where
  pub All-both : (xs : List A) → All P xs → All Q xs → All (λ x. P x × Q x) xs
  All-both [] h k = tt
  All-both (x ∷ xs) h k = ((h.0, k.0), All-both xs h.1 k.1)

pub str_ne : (a b : String) → a ≢ b → str_eq a b ≡ false
str_ne a b h = ground (arith, eq_iff a b)

-- A new version of this workspace, and of another one.
HasHistory-written :
    (vs : List ProgramVersion) (w : Workspace) (p : Program) (v : ProgramVersion)
    → HasHistory vs w
    → v.workspace_id ≡ w.id
    → v.revision ≡ w.revision + 1
    → v.program ≡ p
    → HasHistory (vs ++ v ∷ []) (advanced p w)
HasHistory-written vs w p v h owner revision program =
    ap (replay (0, sheep_city_starter_program))
      (keep-append_in (is_of w.id) vs v ((eq_iff _ _).1 owner))
    ∙ replay-append 0 sheep_city_starter_program _ w.revision w.current_program v h revision
    ∙ ap (λ q. some (w.revision + 1, q)) program

pub HasHistory-other :
    (vs : List ProgramVersion) (w : Workspace) (v : ProgramVersion)
    → v.workspace_id ≢ w.id
    → HasHistory vs w
    → HasHistory (vs ++ v ∷ []) w
HasHistory-other vs w v other h =
    ap (replay (0, sheep_city_starter_program))
      (keep-append_out (is_of w.id) vs v (str_ne _ _ other))
    ∙ h

-- The head of a changed table, and the rest of it.
histories-if :
    (vs : List ProgramVersion) (p : Program) (v : ProgramVersion) (w x : Workspace)
    (ws : List Workspace) (test : Bool)
    → str_eq x.id w.id ≡ test
    → v.workspace_id ≡ w.id
    → v.revision ≡ w.revision + 1
    → v.program ≡ p
    → (if test then some x else find (is_workspace w.id) ws) ≡ some w
    → All (λ (y : Workspace). y.id ≢ x.id) ws
    → All (HasHistory vs) (x ∷ ws)
    → (find (is_workspace w.id) ws ≡ some w
        → All (HasHistory (vs ++ v ∷ [])) (change_first (is_workspace w.id) (advanced p) ws))
    → All
        (HasHistory (vs ++ v ∷ []))
        (if test then advanced p x ∷ ws else x ∷ change_first (is_workspace w.id) (advanced p) ws)
histories-if vs p v w x ws true e owner revision program found others h rest =
    let same = some_injective found in
    (
      HasHistory-written vs x p v h.0 (owner ∙ ap (λ y. y.id) (sym same))
          (revision ∙ ap (λ y. y.revision + 1) (sym same)) program,
      All-mono
          (λ y both.
            HasHistory-other vs y v (λ mine. both.0 (sym mine ∙ owner ∙ ap (λ z. z.id) (sym same)))
              both.1)
          ws (All-both (λ y. y.id ≢ x.id) (HasHistory vs) ws others h.1),
    )
histories-if vs p v w x ws false e owner revision program found others h rest = (
  HasHistory-other vs x v (λ mine. false-true (sym e ∙ (eq_iff _ _).1 (sym mine ∙ owner))) h.0,
  rest found,
)

pub histories-write :
    (vs : List ProgramVersion) (p : Program) (v : ProgramVersion) (w : Workspace)
    (ws : List Workspace)
    → v.workspace_id ≡ w.id
    → v.revision ≡ w.revision + 1
    → v.program ≡ p
    → find (is_workspace w.id) ws ≡ some w
    → Unique ws
    → All (HasHistory vs) ws
    → All (HasHistory (vs ++ v ∷ [])) (change_first (is_workspace w.id) (advanced p) ws)
unfolding find change_first
histories-write vs p v w [] owner revision program found unique h = tt
histories-write vs p v w (x ∷ ws) owner revision program found unique h =
    histories-if vs p v w x ws (str_eq x.id w.id) refl owner revision program found unique.0 h
      (λ later. histories-write vs p v w ws owner revision program later unique.1 h.1)
