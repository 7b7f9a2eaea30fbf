-- ===== src/ControlPlane/Mutations.antt =====
-- What `saveProgram` of packages/control-plane/src/service.ts leaves behind where it returns a version:
-- the search for the mutation of the call finds that version.
use mathlib.Core.Path.{subst}
use badgerbots_code_studio.Prelude.{
  ◌≡◌, refl, ◌∙◌, ap, inl, inr, String, Bool, true, false, not, List, [], ◌∷◌, ◌++◌, Option, none,
  some, ◌==◌, if◌then◌else◌, Bool-cases, eq_iff, Result, ok, err,
}
use badgerbots_code_studio.ProgramModel.Types.{Program}
use badgerbots_code_studio.ProgramModel.Validate.{validate_program}
use badgerbots_code_studio.ProgramModel.Migrate.{MigrationError, migrate_program}
use badgerbots_code_studio.ControlPlane.Store.{
  ProgramAuthor, camper_author, instructor_author, CampSession, Camper, Workspace, ProgramVersion,
  AuditAction, find,
}
use badgerbots_code_studio.ControlPlane.Action.{
  Deps, Service, Action, read, give, ◌>>=◌, change_store, next_id, now,
}
use badgerbots_code_studio.ControlPlane.Access.{
  ActorCredentials, instructor_credentials, camper_credentials, same_author, require_workspace,
  authorize_workspace_actor,
}
use badgerbots_code_studio.ControlPlane.Programs.{
  SaveInput, SaveResult, saved, revision_conflict, is_workspace, is_mutation, checked,
  accept_program, write_version, commit, save_new, save_program,
}
use badgerbots_code_studio.ControlPlane.Conditions.{IsFirst}
use badgerbots_code_studio.ControlPlane.Authorized.{May, authorize_workspace_actor_iff}
use badgerbots_code_studio.ControlPlane.Ensures.{
  Ensures, Ensures-bind, Ensures-find, Ensures-after, Ensures-fact, ok_injective,
}
use badgerbots_code_studio.ControlPlane.Step.Kept.{Keeps, About, keeps_rules}
use badgerbots_code_studio.ControlPlane.Step.Found.{find-passes}

-- The author that an actor writes as.
abbrev pub author_of : ActorCredentials → ProgramAuthor
author_of (instructor_credentials instructor) = instructor_author instructor
author_of (camper_credentials camper token) = camper_author camper

same_author_itself : (a : ProgramAuthor) → same_author a a ≡ true
same_author_itself (camper_author id) = (eq_iff id id).1 refl
same_author_itself (instructor_author id) = (eq_iff id id).1 refl

IsFirst-passes : {A : Type 0} (P : A → Type 0) (xs : List A) (x : A) → IsFirst P xs x → P x
IsFirst-passes P [] x h = absurd h
IsFirst-passes P (y ∷ xs) x (inl (p, e)) = subst P e p
IsFirst-passes P (y ∷ xs) x (inr (_, h)) = IsFirst-passes P xs x h

May-author_of :
    (deps : Deps) (actor : ActorCredentials) (w : Workspace) (session : CampSession)
    (campers : List Camper) (author : ProgramAuthor)
    → May deps actor w session campers author
    → author ≡ author_of actor
May-author_of deps (instructor_credentials instructor) w session campers author (_, e) = e
May-author_of deps (camper_credentials camper token) w session campers author
      (c, first, same, secret, e) =
    e
    ∙ ap camper_author
        (IsFirst-passes (λ (x : Camper). (x.id ≡ camper) × (x.session_id ≡ session.id)) campers c
          first).0

module _ {P : Service → Type 0} where
  Ensures-keeps : {A : Type 0} (m : Action A) → Keeps P m → Ensures P m (λ _ s. P s)
  Ensures-keeps m k = record { at = λ s p a e. k.at s p }

  pub Ensures-require_workspace :
      (id : String) → Ensures P (require_workspace id) (λ w _. w.id ≡ id)
  unfolding require_workspace
  Ensures-require_workspace id =
      Ensures-after _ (Ensures-find (λ s. find (is_workspace id) s.store.workspaces) _)
        (λ w s h. (eq_iff w.id id).0 (find-passes (is_workspace id) s.store.workspaces w h.1))

  pub Ensures-author_of :
      (deps : Deps) (actor : ActorCredentials) (w : Workspace) (session : CampSession)
      → Ensures P (authorize_workspace_actor deps actor w session) (λ a _. a ≡ author_of actor)
  Ensures-author_of deps actor w session = record {
    at = λ s p a e.
        May-author_of deps actor w session s.store.campers a
          ((authorize_workspace_actor_iff deps actor w session s a).0 e).1;
  }

-- What the search for the mutation finds among the versions.
abbrev Finds :
    (ProgramVersion → Bool)
    → Option ProgramVersion
    → List CampSession
    → List Workspace
    → List ProgramVersion
    → Type 0
Finds test found sessions workspaces versions = find test versions ≡ found

-- A version that was saved is the one that the search finds from then on.
abbrev Recorded : (ProgramVersion → Bool) → SaveResult → Service → Type 0
Recorded test (saved v) s = find test s.store.versions ≡ some v
Recorded test (revision_conflict base current p) s = Unit

find-append :
    (test : ProgramVersion → Bool) (vs : List ProgramVersion) (v : ProgramVersion)
    → find test vs ≡ none
    → test v ≡ true
    → find test (vs ++ v ∷ []) ≡ some v
unfolding find
find-append test [] v h e = rw e refl
find-append test (x ∷ vs) v h e = elim (Bool-cases (test x)) [
  | inl passes ↦ cc (rw passes at h)
  | inr fails ↦ rw fails (find-append test vs v (rw fails at h) e)
]

module _ {P : Service → Type 0} {A : Type 0} {Q : A → Service → Type 0} where
  Ensures-give : (a : A) → ((s : Service) → P s → Q a s) → Ensures P (give a) Q
  unfolding give
  Ensures-give a h = record { at = λ s p x e. subst (λ y. Q y s) (ok_injective e) (h s p) }

  Ensures-if :
      (test : Bool) (m n : Action A)
      → Ensures P m Q
      → Ensures P n Q
      → Ensures P (if test then m else n) Q
  Ensures-if true m n h k = h
  Ensures-if false m n h k = k

pub Ensures-read :
    {A : Type 0} {P : Service → Type 0} {Q : A → Service → Type 0} (f : Service → A)
    → ((s : Service) → P s → Q (f s) s)
    → Ensures P (read f) Q
unfolding read
Ensures-read {Q = Q} f h = record { at = λ s p x e. subst (λ y. Q y s) (ok_injective e) (h s p) }

pub Keeps-require_workspace : {P : Service → Type 0} (id : String) → Keeps P (require_workspace id)
unfolding require_workspace
Keeps-require_workspace id = search keeps_rules

Keeps-checked : {P : Service → Type 0} (p : Program) (valid : Bool) → Keeps P (checked p valid)
Keeps-checked p valid = search keeps_rules

Keeps-accept_program :
    {P : Service → Type 0} (r : Result MigrationError Program) → Keeps P (accept_program r)
unfolding accept_program
Keeps-accept_program (err e) = search keeps_rules
Keeps-accept_program (ok p) = Keeps-checked p (validate_program p).ok

module _ (deps : Deps) (w : Workspace) (author : ProgramAuthor) (mutation : String) where
  abbrev same_mutation : ProgramVersion → Bool
  same_mutation = is_mutation w.id mutation author

  Ensures-write_version :
      (p : Program) (from : Option String)
      → Ensures
          (About (Finds same_mutation none))
          (write_version deps w p author mutation from)
          (λ v s. About (Finds same_mutation (some v)) s)
  unfolding write_version ◌>>=◌ change_store next_id now give
  Ensures-write_version p from = record {
    at = λ s h v e.
        let written = ok_injective e in
        record {
          holds =
              find-append same_mutation s.store.versions _ h.holds (
                rw ((eq_iff w.id w.id).1 refl, (eq_iff mutation mutation).1 refl)
                  (same_author_itself author))
              ∙ ap some written;
        };
  }

  Ensures-commit :
      (session : CampSession) (p : Program) (from : Option String) (action : AuditAction)
      (target correlation : String)
      → Ensures
          (About (Finds same_mutation none))
          (commit deps session w p author mutation from action target correlation)
          (Recorded same_mutation)
  unfolding commit
  Ensures-commit session p from action target correlation =
      Ensures-bind _ _ (Ensures-write_version p from) λ v.
        Ensures-bind _ _ (Ensures-keeps _ (search keeps_rules)) λ _.
          Ensures-bind _ _ (Ensures-keeps _ (search keeps_rules))
            λ _. Ensures-give (saved v) (λ s h. h.holds)

Ensures-save_new :
    (deps : Deps) (input : SaveInput) (w : Workspace) (session : CampSession)
    (author : ProgramAuthor) (existing : Option ProgramVersion)
    → Ensures
        (About (Finds (is_mutation w.id input.client_mutation_id author) existing))
        (save_new deps input w session author existing)
        (Recorded (is_mutation w.id input.client_mutation_id author))
unfolding save_new
Ensures-save_new deps input w session author (some v) = Ensures-give (saved v) (λ s h. h.holds)
Ensures-save_new deps input w session author none =
    Ensures-if (not (input.base_revision == w.revision)) _ _ (Ensures-give _ (λ s h. tt)) (
      Ensures-bind _ _ (Ensures-keeps _ (Keeps-accept_program (migrate_program input.program)))
        λ p. Ensures-commit deps w author input.client_mutation_id session p none _ w.id _)

-- The test for the mutation of a call, by what the call says.
abbrev pub is_mutation_of : SaveInput → ProgramVersion → Bool
is_mutation_of input =
    is_mutation input.workspace_id input.client_mutation_id (author_of input.actor)

pub same_test :
    (input : SaveInput) (w : Workspace) (author : ProgramAuthor)
    → w.id ≡ input.workspace_id
    → author ≡ author_of input.actor
    → is_mutation w.id input.client_mutation_id author ≡ is_mutation_of input
same_test input w author e f = λ i. is_mutation (e i) input.client_mutation_id (f i)

pub Ensures-save_program :
    (deps : Deps) (input : SaveInput)
    → Ensures (λ s. Unit) (save_program deps input) (Recorded (is_mutation_of input))
unfolding save_program
Ensures-save_program deps input =
    Ensures-bind _ _ (Ensures-require_workspace input.workspace_id) λ w.
      Ensures-bind {Q = λ _ s. w.id ≡ input.workspace_id} _ _ (record { at = λ s p a e. p })
        λ session.
          Ensures-bind
            {Q = λ author s. (w.id ≡ input.workspace_id) × (author ≡ author_of input.actor)} _ _
            (both w session)
            λ author.
              Ensures-bind
                {Q = λ existing s.
                  About (Finds (is_mutation w.id input.client_mutation_id author) existing) s
                  × ((w.id ≡ input.workspace_id) × (author ≡ author_of input.actor))}
                _ _ (Ensures-read _ (λ s p. (record { holds = refl }, p)))
                λ existing. Ensures-fact _ _ λ (e, f).
                  subst
                    (λ test.
                      Ensures
                        (About (Finds (is_mutation w.id input.client_mutation_id author) existing))
                        (save_new deps input w session author existing) (Recorded test))
                    (same_test input w author e f)
                    (Ensures-save_new deps input w session author existing)
  where
    both :
        (w : Workspace) (session : CampSession)
        → Ensures
            (λ _. w.id ≡ input.workspace_id)
            (authorize_workspace_actor deps input.actor w session)
            (λ author _. (w.id ≡ input.workspace_id) × (author ≡ author_of input.actor))
    both w session = record {
      at = λ s p a e. (
        p,
        (Ensures-author_of {P = λ _. w.id ≡ input.workspace_id} deps input.actor w session).at s p a
            e,
      );
    }
