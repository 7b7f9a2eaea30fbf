-- ===== src/ControlPlane/Step/Found.antt =====
-- `find` and `find` with `throw` on the tables of packages/control-plane/src/service.ts: what is known
-- of an object that was found, in the statements behind it.
use mathlib.Core.Path.{subst}
use badgerbots_code_studio.Prelude.{
  ◌≡◌, refl, sym, String, Bool, true, List, [], ◌∷◌, Option, none, some, eq_iff, arith,
}
use badgerbots_code_studio.ProgramModel.Types.{Program}
use badgerbots_code_studio.ControlPlane.Store.{
  find, change_first, CampSession, Camper, Workspace, ProgramVersion,
}
use badgerbots_code_studio.ControlPlane.Action.{
  Deps, Service, ServiceError, Action, read, some_or_throw, change_store, ◌>>=◌,
}
use badgerbots_code_studio.ControlPlane.Access.{
  ActorCredentials, instructor_credentials, camper_credentials, refresh_retention,
  require_active_session, require_session_instructor, require_workspace, require_session,
  authorize_camper, authorize_actor, authorize_workspace_actor,
}
use badgerbots_code_studio.ControlPlane.Programs.{is_workspace}
use badgerbots_code_studio.ControlPlane.Step.{core, Reaches, here, IsSource}
use badgerbots_code_studio.ControlPlane.Step.Kept.{
  Keeps, About, Keeps-now, Keeps-bind, Keeps-give, keeps_rules,
}
use badgerbots_code_studio.ControlPlane.Step.Traces.{
  TracesFrom, Traces, Traces-bind_then, Traces-from,
}

module _ {A : Type 0} where
  -- What is found passes the test.
  pub find-passes : (test : A → Bool) (xs : List A) (x : A) → find test xs ≡ some x → test x ≡ true
  unfolding find
  find-passes test [] x found = ground arith
  find-passes test (y ∷ xs) x found = ground (arith, find-passes test xs x)

module _ (deps : Deps) {A B : Type 0} where
  Traces-found :
      (e : ServiceError) (found : Option A) (k : A → Action B) (s : Service)
      → ((a : A) → found ≡ some a → Reaches deps (core s) (core (k a s).1))
      → Reaches deps (core s) (core ((some_or_throw e found >>= k) s).1)
  unfolding ◌>>=◌ some_or_throw
  Traces-found e none k s h = here
  Traces-found e (some a) k s h = h a refl

  -- The rest behind a search may use that the object was found.
  pub Traces-find :
      {P : Service → Type 0} {Q : A → Service → Type 0} (f : Service → Option A) (e : ServiceError)
      (k : A → Action B)
      → ((s : Service) (a : A) → P s → f s ≡ some a → Q a s)
      → ((a : A) → TracesFrom deps (Q a) (k a))
      → TracesFrom deps P (read f >>= some_or_throw e >>= k)
  unfolding ◌>>=◌ read
  Traces-find f e k knows rest = record {
    at = λ s p. Traces-found e (f s) k s (λ a found. (rest a).at s (knows s a p found));
  }

-- A statement about the workspaces and the versions.
abbrev pub OfPrograms :
    (List Workspace → List ProgramVersion → Type 0)
    → List CampSession
    → List Workspace
    → List ProgramVersion
    → Type 0
OfPrograms Q sessions workspaces versions = Q workspaces versions

-- The workspace is the one of its identifier.
abbrev pub Stored : Workspace → List CampSession → List Workspace → List ProgramVersion → Type 0
Stored w sessions workspaces versions = find (is_workspace w.id) workspaces ≡ some w

-- Moreover the program may be written.
abbrev pub Ready :
    Workspace → Program → List CampSession → List Workspace → List ProgramVersion → Type 0
Ready w p sessions workspaces versions =
    (find (is_workspace w.id) workspaces ≡ some w) × IsSource versions p

find-is_workspace :
    (id : String) (w : Workspace) (ws : List Workspace)
    → find (is_workspace id) ws ≡ some w
    → find (is_workspace w.id) ws ≡ some w
find-is_workspace id w ws found =
    subst (λ i. find (is_workspace i) ws ≡ some w)
      (sym ((eq_iff w.id id).0 (find-passes (is_workspace id) ws w found))) found

pub Traces-require_workspace_then :
    (deps : Deps) {B : Type 0} (id : String) (k : Workspace → Action B)
    → ((w : Workspace) → TracesFrom deps (About (Stored w)) (k w))
    → Traces deps (require_workspace id >>= k)
unfolding require_workspace
Traces-require_workspace_then deps id k rest =
    Traces-find deps _ _ k
      (λ s w p found. record { holds = find-is_workspace id w s.store.workspaces found }) rest

pub Traces-bind_quiet :
    (deps : Deps) {A B : Type 0} {P : Service → Type 0} (m : Action A) (f : A → Action B)
    → Traces deps m
    → Keeps P m
    → ((a : A) → TracesFrom deps P (f a))
    → TracesFrom deps P (m >>= f)
Traces-bind_quiet deps m f hm keeps hf =
    Traces-bind_then deps m f (Traces-from deps m hm) keeps.at hf

-- The checks of an actor leave the workspaces and the versions.
module _ (deps : Deps) (Q : List Workspace → List ProgramVersion → Type 0) where
  Keeps-authorize_camper :
      (w : Workspace) (token : String) (c : Option Camper)
      → Keeps (About (OfPrograms Q)) (authorize_camper deps token w c)
  unfolding authorize_camper
  Keeps-authorize_camper w token none = search keeps_rules
  Keeps-authorize_camper w token (some c) = search keeps_rules

  pub Keeps-sessions :
      (f : List CampSession → List CampSession)
      → Keeps (About (OfPrograms Q)) (change_store (λ st. record st { sessions = f st.sessions }))
  unfolding change_store
  Keeps-sessions f = record { at = λ s h. record { holds = h.holds } }

  pub Keeps-require_session : (id : String) → Keeps (About (OfPrograms Q)) (require_session id)
  unfolding require_session
  Keeps-require_session id = search keeps_rules

  Keeps-refresh_retention :
      (test : CampSession → Bool) (session : CampSession)
      → Keeps (About (OfPrograms Q)) (refresh_retention deps test session)
  unfolding refresh_retention
  Keeps-refresh_retention test session =
      Keeps-bind _ _ (Keeps-now deps)
        (λ today. Keeps-bind _ _ (Keeps-sessions (change_first test _)) (λ _. Keeps-give _))

  Keeps-require_active_session :
      (test : CampSession → Bool) (session : CampSession)
      → Keeps (About (OfPrograms Q)) (require_active_session deps test session)
  unfolding require_active_session
  Keeps-require_active_session test session = search (keeps_rules, Keeps-refresh_retention)

  Keeps-authorize_actor :
      (actor : ActorCredentials) (w : Workspace) (session : CampSession)
      → Keeps (About (OfPrograms Q)) (authorize_actor deps actor w session)
  unfolding authorize_actor require_session_instructor
  Keeps-authorize_actor (instructor_credentials instructor) w session = search keeps_rules
  Keeps-authorize_actor (camper_credentials camper token) w session =
      search (keeps_rules, Keeps-authorize_camper)

  pub Keeps-authorize_workspace_actor :
      (actor : ActorCredentials) (w : Workspace) (session : CampSession)
      → Keeps (About (OfPrograms Q)) (authorize_workspace_actor deps actor w session)
  unfolding authorize_workspace_actor
  Keeps-authorize_workspace_actor actor w session =
      search (keeps_rules, Keeps-require_active_session, Keeps-authorize_actor)
