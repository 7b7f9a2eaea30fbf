-- ===== src/ControlPlane/Retry.antt =====
-- A call of `saveProgram`, packages/control-plane/src/service.ts, that comes again.
use badgerbots_code_studio.Prelude.{
  ◌≡◌, refl, sym, ◌∙◌, ap, inl, inr, ◌⊎◌, Bool, true, List, Option, none, some, some_injective,
  ◌&&◌, eq_iff, arith, Result, ok, err,
}
use badgerbots_code_studio.ControlPlane.Store.{
  ProgramAuthor, camper_author, instructor_author, CampSession, Workspace, ProgramVersion, find,
}
use badgerbots_code_studio.ControlPlane.Action.{
  Deps, Service, ServiceError, Action, give, and_on, ◌>>=◌,
}
use badgerbots_code_studio.ControlPlane.Access.{same_author}
use badgerbots_code_studio.ControlPlane.Programs.{
  SaveInput, SaveResult, saved, is_mutation, save_new, save_program,
}
use badgerbots_code_studio.ControlPlane.Ensures.{Ensures, ok_injective}
use badgerbots_code_studio.ControlPlane.Step.Kept.{Keeps, About, keeps_rules}
use badgerbots_code_studio.ControlPlane.Step.Found.{
  OfPrograms, find-passes, Keeps-require_session, Keeps-authorize_workspace_actor,
}
use mathlib.Core.Bool.{false≢true}
use badgerbots_code_studio.ControlPlane.Denied.{
  IsDenial, Denies, err_injective, Denies-read, Denies-require_workspace, Denies-require_session,
  Denies-authorize_workspace_actor,
}
use badgerbots_code_studio.ControlPlane.Mutations.{
  author_of, Ensures-require_workspace, Ensures-author_of, Ensures-read, Keeps-require_workspace,
  is_mutation_of, same_test, Ensures-save_program,
}

same_author_eq : (a b : ProgramAuthor) → same_author a b ≡ true → a ≡ b
same_author_eq (camper_author a) (camper_author b) h = ap camper_author ((eq_iff a b).0 h)
same_author_eq (instructor_author a) (instructor_author b) h =
    ap instructor_author ((eq_iff a b).0 h)
same_author_eq (camper_author a) (instructor_author b) h = absurd (false≢true h)
same_author_eq (instructor_author a) (camper_author b) h = absurd (false≢true h)

three_true : (a b c : Bool) → (a && b && c) ≡ true → (a ≡ true) × (b ≡ true) × (c ≡ true)
three_true a b c h = (ground (arith, h), ground (arith, h), ground (arith, h))

-- What a version that passes the test for the mutation of a call shares with the call.
mutation_parts :
    (input : SaveInput) (v : ProgramVersion)
    → is_mutation_of input v ≡ true
    → (v.workspace_id ≡ input.workspace_id)
      × (v.client_mutation_id ≡ input.client_mutation_id)
      × (v.author ≡ author_of input.actor)
mutation_parts input v h =
    let (a, b, c) = three_true _ _ _ h in ((eq_iff _ _).0 a, (eq_iff _ _).0 b, same_author_eq _ _ c)

-- The lists of workspaces and of versions.
abbrev Same : List Workspace → List ProgramVersion → Service → Type 0
Same workspaces versions = About (OfPrograms (λ ws vs. (ws ≡ workspaces) × (vs ≡ versions)))

module _ (workspaces : List Workspace) (versions : List ProgramVersion) where
  -- The action changes neither list; what it returns, if it does, is as said, and it throws nothing
  -- but that the call is denied.
  record Settles {A : Type 0} (m : Action A) (Q : A → Type 0) : Type 0 where
    at :
        (s : Service)
        → Same workspaces versions s
        → Same workspaces versions (m s).1
          × ((a : A) → (m s).0 ≡ ok a → Q a)
          × ((e : ServiceError) → (m s).0 ≡ err e → IsDenial e)

  Settles-of :
      {A : Type 0} {Q : A → Type 0} (m : Action A)
      → Keeps (Same workspaces versions) m
      → Ensures (Same workspaces versions) m (λ a _. Q a)
      → Denies m
      → Settles m Q
  Settles-of m k h d = record { at = λ s p. (k.at s p, λ a e. h.at s p a e, d.at s) }

  module _ {A B : Type 0} {Q : A → Type 0} {R : B → Type 0} where
    Settles-and_on :
        (r : Result ServiceError A) (f : A → Action B)
        → ((a : A) → r ≡ ok a → Q a)
        → ((e : ServiceError) → r ≡ err e → IsDenial e)
        → ((a : A) → Q a → Settles (f a) R)
        → Settles (and_on r f) R
    Settles-and_on (ok a) f h d k = k a (h a refl)
    Settles-and_on (err e) f h d k = record {
      at = λ s p. (p, λ a h. ground (arith, h), λ x eq. d x (ap err (err_injective eq)));
    }

    Settles-bind :
        (m : Action A) (f : A → Action B)
        → Settles m Q
        → ((a : A) → Q a → Settles (f a) R)
        → Settles (m >>= f) R
    unfolding ◌>>=◌
    Settles-bind m f h k = record {
      at = λ s p.
          let (same, returns, denied) = h.at s p in
          (Settles-and_on (m s).0 f returns denied k).at (m s).1 same;
    }

  Settles-save_new :
      (deps : Deps) (input : SaveInput) (w : Workspace) (session : CampSession)
      (author : ProgramAuthor) (v : ProgramVersion) (existing : Option ProgramVersion)
      → existing ≡ some v
      → Settles (save_new deps input w session author existing) (λ r. r ≡ saved v)
  unfolding save_new give
  Settles-save_new deps input w session author v none e = cc
  Settles-save_new deps input w session author v (some x) e = record {
    at = λ s p.
        (p, λ r h. sym (ok_injective h) ∙ ap saved (some_injective e), λ x h. ground (arith, h));
  }

  Settles-save_program :
      (deps : Deps) (input : SaveInput) (v : ProgramVersion)
      → find (is_mutation_of input) versions ≡ some v
      → Settles (save_program deps input) (λ r. r ≡ saved v)
  unfolding save_program
  Settles-save_program deps input v found =
      Settles-bind _ _
        (Settles-of _ (Keeps-require_workspace input.workspace_id)
          (Ensures-require_workspace input.workspace_id)
          (Denies-require_workspace input.workspace_id))
        λ w e.
          Settles-bind {Q = λ _. Unit} _ _
            (Settles-of _ (Keeps-require_session deps _ w.session_id)
              (record { at = λ s p a e. tt }) (Denies-require_session w.session_id))
            λ session u.
              Settles-bind _ _
                (Settles-of _ (Keeps-authorize_workspace_actor deps _ input.actor w session)
                  (Ensures-author_of deps input.actor w session)
                  (Denies-authorize_workspace_actor deps input.actor w session))
                λ author f.
                  Settles-bind {Q = λ existing. existing ≡ some v} _ _
                    (Settles-of _ (search keeps_rules)
                      (Ensures-read _ (λ s p.
                        ap (find (is_mutation w.id input.client_mutation_id author)) p.holds.1
                        ∙ ap (λ test. find test versions) (same_test input w author e f)
                        ∙ found))
                      (Denies-read _))
                    λ existing g. Settles-save_new deps input w session author v existing g

-- A save that returns a version returns one of its workspace, under its mutation identifier and by its
-- actor. Sent again, with the same workspace and mutation identifier and by the same actor, whatever
-- its program and its base revision, a save returns that version, unless the workspace or its session
-- is not found, the session is not open or the actor is refused, and in every case it leaves the
-- workspaces and the versions as they are.
pub save_again_returns :
    (deps : Deps) (input again : SaveInput) (s : Service) (v : ProgramVersion)
    → again.workspace_id ≡ input.workspace_id
    → again.client_mutation_id ≡ input.client_mutation_id
    → author_of again.actor ≡ author_of input.actor
    → (save_program deps input s).0 ≡ ok (saved v)
    → let s1 = (save_program deps input s).1 in
      let (result, s2) = save_program deps again s1 in
      (v.workspace_id ≡ input.workspace_id)
      × (v.client_mutation_id ≡ input.client_mutation_id)
      × (v.author ≡ author_of input.actor)
      × ((result ≡ ok (saved v)) ⊎ ((e : ServiceError) × (result ≡ err e) × IsDenial e))
      × (s2.store.workspaces ≡ s1.store.workspaces)
      × (s2.store.versions ≡ s1.store.versions)
save_again_returns deps input again s v workspace mutation author first =
    let s1 = (save_program deps input s).1 in
    let recorded = (Ensures-save_program deps input).at s tt (saved v) first in
    let found : find (is_mutation_of again) s1.store.versions ≡ some v =
      ap (λ test. find test s1.store.versions)
        (λ i. is_mutation (workspace i) (mutation i) (author i))
      ∙ recorded in
    let (same, returns, denied) =
      (Settles-save_program s1.store.workspaces s1.store.versions deps again v found).at s1
        (record { holds = (refl, refl) }) in
    let (of_workspace, of_mutation, by_author) =
      mutation_parts input v (find-passes (is_mutation_of input) s1.store.versions v recorded) in
    (of_workspace, of_mutation, by_author, returns_or _ returns denied, same.holds.0, same.holds.1)
  where
    returns_or :
        (r : Result ServiceError SaveResult)
        → ((a : SaveResult) → r ≡ ok a → a ≡ saved v)
        → ((e : ServiceError) → r ≡ err e → IsDenial e)
        → (r ≡ ok (saved v)) ⊎ ((e : ServiceError) × (r ≡ err e) × IsDenial e)
    returns_or (err e) h d = inr (e, refl, d e refl)
    returns_or (ok a) h d = inl (ap ok (h a refl))
