-- ===== src/ControlPlane/Action.antt =====
-- A call of a method of `ControlPlaneService`, packages/control-plane/src/service.ts: it changes the
-- service and may throw. What was written before it throws stays written. What the service gets from
-- its environment (`Deps`) is read in order: the clock, the generated identifiers and the secrets.
use badgerbots_code_studio.Prelude.{
  ℕ, ◌+◌, String, Bool, List, [], Option, none, some, Result, ok, err, if◌then◌else◌,
}
use badgerbots_code_studio.ControlPlane.Dates.{Instant}
use badgerbots_code_studio.ControlPlane.Store.{StoreState, empty_store}

pub record Deps : Type 0 where
  pub clock : ℕ → Instant
  pub ids : String → ℕ → String
  pub join_codes : ℕ → String
  pub access_tokens : ℕ → String
  pub digest : String → String
  pub upper_case : String → String
  pub locale_upper_case : String → String
  pub lower_case : String → String
  pub is_letter : ℕ → Bool
  pub bootstrap_secret_digest : String
  pub recovery_days : ℕ

pub record JoinAttempt : Type 0 where
  pub window_started_at : ℕ
  pub failures : ℕ
  pub blocked_until : Option ℕ

pub record Service : Type 0 where
  pub store : StoreState
  pub sequence : ℕ
  pub join_attempts : List (String × JoinAttempt)
  pub readings : ℕ
  pub issued : ℕ
  pub codes_made : ℕ
  pub tokens_made : ℕ

abbrev pub new_service : Service
new_service = record {
  store = empty_store;
  sequence = 0;
  join_attempts = [];
  readings = 0;
  issued = 0;
  codes_made = 0;
  tokens_made = 0;
}

-- The codes of `ControlPlaneError`, and the exceptions that are none: of the migration of a program, of
-- the auth service, and a search for a free join code that found none in the codes it was given.
pub data ServiceError : Type 0 where
  forbidden invalid_input join_denied not_found session_expired : ServiceError
  bootstrap_unavailable program_rejected auth_failed no_free_code : ServiceError

abbrev pub Action : Type 0 → Type 0
Action A = Service → Result ServiceError A × Service

module _ {A : Type 0} where
  unfoldable pub give : A → Action A
  give a s = (ok a, s)

  unfoldable pub throw : ServiceError → Action A
  throw e s = (err e, s)

  unfoldable pub read : (Service → A) → Action A
  read f s = (ok (f s), s)

  -- The value of a search, or an exception.
  unfoldable pub some_or_throw : ServiceError → Option A → Action A
  some_or_throw e none s = (err e, s)
  some_or_throw e (some a) s = (ok a, s)

unfoldable pub change : (Service → Service) → Action Unit
change f s = (ok tt, f s)

unfoldable pub change_store : (StoreState → StoreState) → Action Unit
change_store f s = (ok tt, record s { store = f s.store })

-- `if (test) throw …`
unfoldable pub throw_if : Bool → ServiceError → Action Unit
throw_if test e s = (if test then err e else ok tt, s)

module _ {A B : Type 0} where
  abbrev pub and_on : Result ServiceError A → (A → Action B) → Action B
  and_on (ok a) f s = f a s
  and_on (err e) f s = (err e, s)

  infixl 10 ◌>>=◌ ◌>>◌
  unfoldable pub ◌>>=◌ : Action A → (A → Action B) → Action B
  ◌>>=◌ m f s = let (r, s') = m s in and_on r f s'

  abbrev pub ◌>>◌ : Action A → Action B → Action B
  m >> n = m >>= λ _. n

module _ (deps : Deps) where
  -- `clock.now()`
  unfoldable pub now : Action Instant
  now s = (ok (deps.clock s.readings), record s { readings = s.readings + 1 })

  -- `ids.next(kind)`
  unfoldable pub next_id : String → Action String
  next_id kind s = (ok (deps.ids kind s.issued), record s { issued = s.issued + 1 })

  unfoldable pub next_access_token : Action String
  next_access_token s =
      (ok (deps.access_tokens s.tokens_made), record s { tokens_made = s.tokens_made + 1 })
