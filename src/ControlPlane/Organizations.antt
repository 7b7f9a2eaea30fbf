-- ===== src/ControlPlane/Organizations.antt =====
-- `bootstrapOwner`, `addAssistant`, `provisionAssistant` and `createSession` of
-- packages/control-plane/src/service.ts. The auth service answers between the checks of
-- `bootstrapOwner` and the rest of it, so these are two actions; so for `provisionAssistant`.
use badgerbots_code_studio.Prelude.{
  ℕ, zero, suc, ◌+◌, String, Bool, not, ◌&&◌, List, [], ◌∷◌, ◌++◌, Option, none, some, ltb, length,
  str_eq, has, if◌then◌else◌,
}
use badgerbots_code_studio.ControlPlane.Dates.{ltb_date, day_of, parse_date}
use badgerbots_code_studio.ControlPlane.Texts.{utf16_length, trim_text, is_email}
use badgerbots_code_studio.ControlPlane.Store.{
  owner, assistant, scheduled, active, Instructor, Membership, Location, CampSession,
  instructor_actor, owner_bootstrap, assistant_add, assistant_provision, session_create,
  roster_topic, find, exists,
}
use badgerbots_code_studio.ControlPlane.Action.{
  Deps, Action, forbidden, invalid_input, not_found, bootstrap_unavailable, auth_failed,
  no_free_code, give, throw, read, some_or_throw, change, change_store, throw_if, ◌>>=◌, ◌>>◌, now,
  next_id,
}
use badgerbots_code_studio.ControlPlane.Access.{require_organization_role, audit, hint}

pub record BootstrapInput : Type 0 where
  pub bootstrap_secret : String
  pub email : String
  pub password : String
  pub organization_name : String
  pub location_name : String
  pub correlation_id : String

pub record ProvisionInput : Type 0 where
  pub actor_instructor_id : String
  pub organization_id : String
  pub email : String
  pub password : String
  pub correlation_id : String

pub record CreateSessionInput : Type 0 where
  pub actor_instructor_id : String
  pub organization_id : String
  pub location_id : String
  pub starts_on : String
  pub ends_on : String
  pub track_id : String
  pub assistant_instructor_ids : List String
  pub correlation_id : String

abbrev pub is_account : String → String → Bool
is_account email password = is_email email && not (ltb (utf16_length password) 12)

-- `[...new Set(ids)]`
unfoldable pub unique : List String → List String → List String
unique seen [] = []
unique seen (id ∷ ids) =
    let rest = unique (id ∷ seen) ids in if has seen id then rest else id ∷ rest

-- Every assistant has the role.
unfoldable pub require_assistants : String → List String → Action Unit
unfolding require_organization_role
require_assistants organization [] = give tt
require_assistants organization (id ∷ ids) =
    require_organization_role organization id assistant >> require_assistants organization ids

module _ (deps : Deps) where
  -- `bootstrapOwner` up to the call of the auth service.
  unfoldable pub check_bootstrap : BootstrapInput → Action Unit
  check_bootstrap input = do
    throw_if (not (str_eq (deps.digest input.bootstrap_secret) deps.bootstrap_secret_digest))
        forbidden
    instructors ← read (λ s. s.store.instructors)
    throw_if (ltb 0 (length instructors)) bootstrap_unavailable
    throw_if (not (is_account input.email input.password)) invalid_input

  abbrev pub new_instructor : String → String → String → Instructor
  new_instructor id auth_user_id email = record {
    id = id;
    auth_user_id = auth_user_id;
    normalized_email = deps.lower_case (trim_text email);
    display_email = trim_text email;
  }

  -- The rest, with the answer of the auth service; it returns the organization, location and instructor.
  unfoldable pub finish_bootstrap :
      BootstrapInput → Option String → Action (String × String × String)
  finish_bootstrap input created = do
    auth_user_id ← some_or_throw auth_failed created
    organization ← next_id deps "org"
    location ← next_id deps "loc"
    instructor ← next_id deps "ins"
    change_store λ st. record st {
      organizations =
          st.organizations
          ++ record { id = organization; name = trim_text input.organization_name } ∷ [];
      locations =
          st.locations
          ++ record {
            id = location;
            organization_id = organization;
            name = trim_text input.location_name;
          }
            ∷ [];
      instructors = st.instructors ++ new_instructor instructor auth_user_id input.email ∷ [];
      memberships =
          st.memberships
          ++ record { organization_id = organization; instructor_id = instructor; role = owner }
            ∷ [];
    }
    audit deps organization none instructor_actor (some instructor) owner_bootstrap instructor
        input.correlation_id
    give (organization, location, instructor)

  unfoldable pub add_assistant : String → String → String → String → Action Unit
  add_assistant actor organization instructor correlation = do
    require_organization_role organization actor owner
    read (λ s. find (λ (i : Instructor). str_eq i.id instructor) s.store.instructors)
        >>= some_or_throw not_found
    change_store λ st.
        (if exists
            (λ (m : Membership).
              str_eq m.organization_id organization && str_eq m.instructor_id instructor)
            st.memberships
          then st
          else record st {
            memberships =
                st.memberships
                ++ record {
                  organization_id = organization;
                  instructor_id = instructor;
                  role = assistant;
                }
                  ∷ [];
          })
    audit deps organization none instructor_actor (some actor) assistant_add instructor correlation

  unfoldable pub check_provision : ProvisionInput → Action Unit
  check_provision input = do
    require_organization_role input.organization_id input.actor_instructor_id owner
    throw_if (not (is_account input.email input.password)) invalid_input

  unfoldable pub finish_provision : ProvisionInput → Option String → Action String
  finish_provision input created = do
    auth_user_id ← some_or_throw auth_failed created
    instructor ← next_id deps "ins"
    change_store λ st. record st {
      instructors = st.instructors ++ new_instructor instructor auth_user_id input.email ∷ [];
      memberships =
          st.memberships
          ++ record {
            organization_id = input.organization_id;
            instructor_id = instructor;
            role = assistant;
          }
            ∷ [];
    }
    audit deps input.organization_id none instructor_actor (some input.actor_instructor_id)
        assistant_provision instructor input.correlation_id
    give instructor

  abbrev pub is_code_taken : List CampSession → String → Bool
  is_code_taken sessions code =
      exists (λ (c : CampSession). str_eq c.join_code_digest (deps.digest code)) sessions

  -- The search for a join code that no session has: the code and how many were made, or nothing if
  -- none of the next `fuel` codes is free.
  unfoldable pub free_code : ℕ → ℕ → List CampSession → Option (String × ℕ)
  free_code zero made sessions = none
  free_code (suc fuel) made sessions =
      let rest = free_code fuel (made + 1) sessions in
      let code = deps.upper_case (deps.join_codes made) in
      if is_code_taken sessions code then rest else some (code, made + 1)

  unfoldable pub found_code : Option (String × ℕ) → Action String
  found_code none = throw no_free_code
  found_code (some (code, made)) = do change λ s. record s { codes_made = made }; give code

  -- A session has one code, so one code more than there are sessions is enough.
  unfoldable pub next_join_code : Action String
  next_join_code =
      read (λ s. free_code (length s.store.sessions + 1) s.codes_made s.store.sessions)
      >>= found_code

  unfoldable pub create_session : CreateSessionInput → Action (CampSession × String)
  create_session input = do
    require_organization_role input.organization_id input.actor_instructor_id owner
    read (λ s.
          find
            (λ (l : Location).
              str_eq l.id input.location_id && str_eq l.organization_id input.organization_id)
            s.store.locations)
        >>= some_or_throw not_found
    starts_on ← some_or_throw invalid_input (parse_date input.starts_on)
    ends_on ← some_or_throw invalid_input (parse_date input.ends_on)
    throw_if (ltb_date (day_of ends_on) (day_of starts_on)) invalid_input
    require_assistants input.organization_id (unique [] input.assistant_instructor_ids)
    code ← next_join_code
    today ← now deps
    id ← next_id deps "ses"
    let session : CampSession = record {
      id = id;
      organization_id = input.organization_id;
      location_id = input.location_id;
      owner_instructor_id = input.actor_instructor_id;
      assistant_instructor_ids = unique [] input.assistant_instructor_ids;
      track_id = input.track_id;
      starts_on = starts_on;
      ends_on = ends_on;
      join_code_digest = deps.digest code;
      retention_state = if ltb_date today.date starts_on then scheduled else active;
      recoverable_until = none;
    }
    change_store λ st. record st { sessions = st.sessions ++ session ∷ [] }
    audit deps input.organization_id (some id) instructor_actor (some input.actor_instructor_id)
        session_create id input.correlation_id
    hint deps session roster_topic id
    give (session, code)
