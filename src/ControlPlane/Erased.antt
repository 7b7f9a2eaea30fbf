-- ===== src/ControlPlane/Erased.antt =====
-- The tables behind the deletions of `purgeSession`, packages/control-plane/src/service.ts.
use mathlib.Core.Path.{subst}
use badgerbots_code_studio.Prelude.{
  ◌≡◌, ◌≢◌, refl, sym, ◌∙◌, String, Bool, true, false, not, List, [], ◌∷◌, All, map, All-mono,
  arith, if◌then◌else◌, has, str_eq, eq_iff, Bool-cases, inl, inr,
}
use badgerbots_code_studio.ControlPlane.Store.{
  StoreState, Camper, Workspace, ProgramVersion, ProgressRecord, HelpRequest, keep,
}
use badgerbots_code_studio.ControlPlane.Action.{Service, change_store}
use badgerbots_code_studio.ControlPlane.Step.Safe.{All-keep}
use badgerbots_code_studio.ControlPlane.Step.History.{All-both, false-true}
use badgerbots_code_studio.ControlPlane.Retention.{camper_ids, workspace_ids, without_session}
use badgerbots_code_studio.ControlPlane.Ensures.{Ensures}

module _ {A : Type 0} where
  All-kept : (test : A → Bool) (xs : List A) → All (λ x. test x ≡ true) (keep test xs)
  unfolding keep
  All-kept test [] = tt
  All-kept test (x ∷ xs) =
      let rest = All-kept test xs in
      elim (Bool-cases (test x)) [
        | inl e ↦
            subst (λ b. All (λ y. test y ≡ true) (if b then x ∷ keep test xs else keep test xs))
              (sym e) (e, rest)
        | inr e ↦
            subst (λ b. All (λ y. test y ≡ true) (if b then x ∷ keep test xs else keep test xs))
              (sym e) rest
      ]

not_same : (a b : String) → not (str_eq a b) ≡ true → a ≢ b
not_same a b h = ground (arith, h, eq_iff a b)

not-true : (b : Bool) → not b ≡ true → b ≡ false
not-true b h = ground (arith, h)

-- Each camper of the session is in the set of identifiers.
has-cons : (ids : List String) (i j : String) → has ids j ≡ true → has (i ∷ ids) j ≡ true
has-cons ids i j h = ground (arith, h)

abbrev IsListed : String → List String → Camper → Type 0
IsListed session ids c = str_eq c.session_id session ≡ true → has ids c.id ≡ true

has_self : (ids : List String) (i : String) → has (i ∷ ids) i ≡ true
has_self ids i = ground (arith, eq_iff i i)

abbrev ids_of : List Camper → List String
ids_of cs = map (λ (c : Camper). c.id) cs

IsListed-if :
    (session : String) (c : Camper) (cs kept : List Camper) (test : Bool)
    → str_eq c.session_id session ≡ test
    → All (IsListed session (ids_of kept)) cs
    → All (IsListed session (ids_of (if test then c ∷ kept else kept))) (c ∷ cs)
IsListed-if session c cs kept true e rest = (
  λ mine. has_self (ids_of kept) c.id,
  All-mono (λ x k mine. has-cons (ids_of kept) c.id x.id (k mine)) cs rest,
)
IsListed-if session c cs kept false e rest = (λ mine. elim (false-true (sym e ∙ mine)) [ ], rest)

camper_ids-IsListed :
    (session : String) (cs : List Camper) → All (IsListed session (camper_ids session cs)) cs
unfolding keep
camper_ids-IsListed session [] = tt
camper_ids-IsListed session (c ∷ cs) =
    IsListed-if session c cs (keep (λ (x : Camper). str_eq x.session_id session) cs)
      (str_eq c.session_id session) refl (camper_ids-IsListed session cs)

campers-erased :
    (session : String) (ids : List String) (cs : List Camper)
    → All (IsListed session ids) cs
    → All (λ c. c.session_id ≢ session) (keep (λ (c : Camper). not (has ids c.id)) cs)
campers-erased session ids cs h =
    All-mono
      (λ c both mine.
        false-true (sym (not-true _ both.0) ∙ both.1 ((eq_iff c.session_id session).1 mine)))
      _
      (All-both (λ (c : Camper). not (has ids c.id) ≡ true) (IsListed session ids) _
        (All-kept (λ (c : Camper). not (has ids c.id)) cs) (All-keep (IsListed session ids) _ cs h))

-- The tables that hold the data of a session are those of `st`.
pub record Same (st : StoreState) (s : Service) : Type 0 where
  pub workspaces : s.store.workspaces ≡ st.workspaces
  pub versions : s.store.versions ≡ st.versions
  pub campers : s.store.campers ≡ st.campers
  pub progress_records : s.store.progress_records ≡ st.progress_records
  pub help_requests : s.store.help_requests ≡ st.help_requests

-- Nothing of the session's data is left.
pub record IsErased (id : String) (st : StoreState) (s : Service) : Type 0 where
  pub no_workspace : All (λ (w : Workspace). w.session_id ≢ id) s.store.workspaces
  pub no_version :
      All
        (λ (v : ProgramVersion). has (workspace_ids id st.workspaces) v.workspace_id ≡ false)
        s.store.versions
  pub no_camper : All (λ (c : Camper). c.session_id ≢ id) s.store.campers
  pub no_progress : All (λ (r : ProgressRecord). r.session_id ≢ id) s.store.progress_records
  pub no_request : All (λ (r : HelpRequest). r.session_id ≢ id) s.store.help_requests

pub Ensures-without_session :
    (id : String) (st : StoreState)
    → Ensures (Same st) (change_store (λ x. without_session id x)) (λ _ s. IsErased id st s)
unfolding change_store without_session
Ensures-without_session id st = record {
  at = λ s p a h. record {
    no_workspace =
        All-mono (λ w e. not_same w.session_id id e) _
          (All-kept (λ (w : Workspace). not (str_eq w.session_id id)) s.store.workspaces);
    no_version =
        subst
          (λ ws.
            All (λ (v : ProgramVersion). has (workspace_ids id ws) v.workspace_id ≡ false)
              (keep
                (λ (v : ProgramVersion).
                  not (has (workspace_ids id s.store.workspaces) v.workspace_id))
                s.store.versions))
          p.workspaces
          (All-mono (λ v e. not-true _ e) _
            (All-kept
              (λ (v : ProgramVersion).
                not (has (workspace_ids id s.store.workspaces) v.workspace_id))
              s.store.versions));
    no_camper =
        campers-erased id (camper_ids id s.store.campers) s.store.campers
          (camper_ids-IsListed id s.store.campers);
    no_progress =
        All-mono (λ r e. not_same r.session_id id e) _
          (All-kept (λ (r : ProgressRecord). not (str_eq r.session_id id))
            s.store.progress_records);
    no_request =
        All-mono (λ r e. not_same r.session_id id e) _
          (All-kept (λ (r : HelpRequest). not (str_eq r.session_id id)) s.store.help_requests);
  };
}
