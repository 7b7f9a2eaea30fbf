-- ===== src/Tests/ControlPlane.antt =====
-- The theorems on packages/control-plane/src/service.ts, at a classroom with one session, one camper and
-- one saved program.
use badgerbots_code_studio.Prelude.{
  ℕ, zero, suc, ◌*◌, ◌≡◌, refl, sym, ◌∙◌, ap, String, ◌&&◌, List, [], ◌∷◌, ◌++◌, some, All, arith,
  leb,
}
use badgerbots_code_studio.ProgramModel.Starter.{sheep_city_completed_example}
use badgerbots_code_studio.ProgramModel.Migrate.{version_2}
use badgerbots_code_studio.ControlPlane.Dates.{Date}
use badgerbots_code_studio.ControlPlane.Texts.{utf16_length}
use badgerbots_code_studio.ControlPlane.Action.{Deps, new_service}
use badgerbots_code_studio.ControlPlane.Access.{camper_credentials}
use badgerbots_code_studio.ControlPlane.Organizations.{BootstrapInput, CreateSessionInput}
use badgerbots_code_studio.ControlPlane.Operations.{
  Call, bootstrap_begins, bootstrap_ends, session_created, camper_joins, program_saved, serve_all,
}
use badgerbots_code_studio.ControlPlane.Step.Life.{Outlive, LogsGrow, sessions-Outlive, logs_grow}
use badgerbots_code_studio.ControlPlane.Step.Safe.{
  WorkspaceFits, VersionFits, Compiles, stored_programs-IsWellFormed, stored_programs_compile,
}
use badgerbots_code_studio.ControlPlane.Step.History.{HasHistory}
use badgerbots_code_studio.ControlPlane.Step.Linear.{history_is_linear}

-- Identifiers, codes and tokens are tally marks.
abbrev pub tally : ℕ → String
tally zero = ""
tally (suc n) = String.◌∷◌ "i" (tally n)

length-tally : (n : ℕ) → utf16_length (tally n) ≡ n
unfolding utf16_length
length-tally zero = refl
length-tally (suc n) = omega (arith, length-tally n)

pub tally-injective : (m n : ℕ) → tally m ≡ tally n → m ≡ n
tally-injective m n e = sym (length-tally m) ∙ ap utf16_length e ∙ length-tally n

abbrev pub monday : Date
monday = record { year = 2026; month = 7; day = 6 }

abbrev pub camp : Deps
camp = record {
  clock = λ n. record { date = monday; time = n * 1000 };
  ids = λ kind. tally;
  join_codes = λ n. tally (suc n);
  access_tokens = λ n. tally (suc n);
  digest = λ secret. secret;
  upper_case = λ text. text;
  locale_upper_case = λ text. text;
  lower_case = λ text. text;
  is_letter = λ c. leb 65 c && leb c 122;
  bootstrap_secret_digest = "secret";
  recovery_days = 10;
}

abbrev bootstrap : BootstrapInput
bootstrap = record {
  bootstrap_secret = "secret";
  email = "ann@camp.org";
  password = "correct horse";
  organization_name = "Camp";
  location_name = "Hall";
  correlation_id = "c1";
}

-- The owner's session, of five days.
abbrev week : CreateSessionInput
week = record {
  actor_instructor_id = tally 2;
  organization_id = tally 0;
  location_id = tally 1;
  starts_on = "2026-07-06";
  ends_on = "2026-07-10";
  track_id = "sheep-city";
  assistant_instructor_ids = [];
  correlation_id = "c2";
}

abbrev opening : List Call
opening =
    bootstrap_begins bootstrap
    ∷ bootstrap_ends bootstrap (some "auth-1")
    ∷ session_created week
    ∷ camper_joins (record {
      join_code = tally 1;
      first_name = "Bo";
      last_initial = "C";
      attempt_key = "10.0.0.1";
      correlation_id = "c3";
    })
    ∷ []

abbrev saving : List Call
saving =
    program_saved (record {
      actor = camper_credentials (tally 6) (tally 1);
      workspace_id = tally 7;
      base_revision = 0;
      program = version_2 sheep_city_completed_example;
      client_mutation_id = "m1";
      correlation_id = "c4";
    })
    ∷ []

abbrev classroom : List Call
classroom = opening ++ saving

stored_programs-IsWellFormed_example :
    let s = serve_all camp classroom new_service in
    All WorkspaceFits s.store.workspaces × All VersionFits s.store.versions
stored_programs-IsWellFormed_example = stored_programs-IsWellFormed camp classroom

stored_programs_compile_example :
    All Compiles (serve_all camp classroom new_service).store.workspaces
stored_programs_compile_example = stored_programs_compile camp classroom

history_is_linear_example :
    let s = serve_all camp classroom new_service in
    All (HasHistory s.store.versions) s.store.workspaces
history_is_linear_example = history_is_linear camp tally-injective classroom

sessions-Outlive_example :
    let s = serve_all camp opening new_service in
    Outlive s.store.sessions (serve_all camp saving s).store.sessions
sessions-Outlive_example = sessions-Outlive camp saving (serve_all camp opening new_service)

logs_grow_example :
    let s = serve_all camp opening new_service in
    let s' = serve_all camp saving s in
    LogsGrow s.store.audits s'.store.audits s.store.realtime_hints s'.store.realtime_hints
      s.sequence s'.sequence
logs_grow_example = logs_grow camp saving (serve_all camp opening new_service)
