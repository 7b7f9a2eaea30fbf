-- ===== src/ControlPlane/Conditions.antt =====
-- When a session runs, who its instructors are and which camper is found, said without the tests of
-- packages/control-plane/src/service.ts.
use badgerbots_code_studio.Prelude.{
  ℕ, some_injective, ◌||◌, [], ◌∷◌, has, Any, inl, inr, Bool-cases, ◌<◌, ◌≤◌, ◌⊎◌, ◌≡◌, ◌↔◌, refl,
  sym, ◌∙◌, ap, String, Bool, true, false, not, ◌&&◌, List, some, arith, eq_iff,
}
use mathlib.Core.Bool.{false≢true}
use badgerbots_code_studio.ControlPlane.Dates.{Date, ltb_date}
use badgerbots_code_studio.ControlPlane.Store.{scheduled, active, CampSession, Camper, find}
use badgerbots_code_studio.ControlPlane.Action.{Deps}
use badgerbots_code_studio.ControlPlane.Access.{
  refreshed, is_state, is_open, is_session_instructor, is_camper_of,
}

pub both_true : (a b : Bool) → (a && b) ≡ true → (a ≡ true) × (b ≡ true)
both_true a b h = ground arith

pub and_true : {a b : Bool} → a ≡ true → b ≡ true → (a && b) ≡ true
and_true h k = ground (arith, h, k)

-- The order of the days, by year, month and day.
abbrev pub IsUpTo : Date → Date → Type 0
IsUpTo a b =
    (a.year < b.year)
    ⊎ ((a.year ≡ b.year) × ((a.month < b.month) ⊎ ((a.month ≡ b.month) × (a.day ≤ b.day))))

IsUpTo-iff : (a b : Date) → (ltb_date b a ≡ false) ↔ IsUpTo a b
IsUpTo-iff a b = (λ h. ground (arith, h), λ h. ground (arith, h))

-- The session runs on the first day and on the second: it was started or starts now, and is not over.
abbrev pub Runs : CampSession → Date → Date → Type 0
Runs session first second =
    ((session.retention_state ≡ active)
      ⊎ ((session.retention_state ≡ scheduled) × IsUpTo session.starts_on first))
    × IsUpTo first session.ends_on
    × IsUpTo session.starts_on second
    × IsUpTo second session.ends_on

unfoldable pub runs : CampSession → Date → Date → Bool
runs s first second =
    (is_state s.retention_state active
      || (is_state s.retention_state scheduled && not (ltb_date first s.starts_on)))
    && not (ltb_date s.ends_on first)
    && not (ltb_date second s.starts_on)
    && not (ltb_date s.ends_on second)

pub is_open-refreshed :
    (days : ℕ) (first second : Date) (s : CampSession)
    → is_open second (refreshed days first s) ≡ runs s first second
unfolding is_open refreshed runs
is_open-refreshed days first second s = ground arith

pub runs_iff :
    (s : CampSession) (first second : Date) → (runs s first second ≡ true) ↔ Runs s first second
unfolding runs
runs_iff s first second = (λ h. ground (arith, h), λ h. ground (arith, h))

or_true_cases : (a b : Bool) → (a || b) ≡ true → (a ≡ true) ⊎ (b ≡ true)
or_true_cases a b h = ground arith

or_true_left : (a b : Bool) → a ≡ true → (a || b) ≡ true
or_true_left a b h = ground arith

or_true_right : (a b : Bool) → b ≡ true → (a || b) ≡ true
or_true_right a b h = ground arith

has_iff : (xs : List String) (x : String) → (has xs x ≡ true) ↔ Any (λ y. y ≡ x) xs
has_iff [] x = (λ h. ground (arith, h), absurd)
has_iff (y ∷ ys) x = (
  λ h. elim (or_true_cases _ _ h) [
    | inl e ↦ inl ((eq_iff _ _).0 e)
    | inr e ↦ inr ((has_iff ys x).0 e)
  ],
  λ h. elim h [
    | inl e ↦ rw ((eq_iff _ _).1 e) refl
    | inr e ↦ or_true_right _ _ ((has_iff ys x).1 e)
  ],
)

-- The first element that has the property.
abbrev pub IsFirst : {A : Type 0} → (A → Type 0) → List A → A → Type 0
IsFirst P [] x = ⊥
IsFirst P (y ∷ ys) x = (P y × (y ≡ x)) ⊎ ((¬ P y) × IsFirst P ys x)

pub find_iff :
    {A : Type 0} (test : A → Bool) (P : A → Type 0) (xs : List A) (x : A)
    → ((y : A) → (test y ≡ true) ↔ P y)
    → (find test xs ≡ some x) ↔ IsFirst P xs x
unfolding find
find_iff test P [] x iff = (λ h. ground (arith, h), absurd)
find_iff test P (y ∷ ys) x iff = elim (Bool-cases (test y)) [
  | inl passes ↦ (
    λ h. inl ((iff y).0 passes, some_injective (sym (rw passes refl) ∙ h)),
    λ h. elim h [
      | inl (p, e) ↦ rw passes (ap some e)
      | inr (not_p, rest) ↦ absurd (not_p ((iff y).0 passes))
    ],
  )
  | inr fails ↦ (
    λ h.
        inr
          (λ p. false≢true (sym fails ∙ (iff y).1 p), (find_iff test P ys x iff).0 (rw fails at h)),
    λ h. elim h [
      | inl (p, e) ↦ absurd (false≢true (sym fails ∙ (iff y).1 p))
      | inr (not_p, rest) ↦ rw fails ((find_iff test P ys x iff).1 rest)
    ],
  )
]

pub is_session_instructor_iff :
    (session : CampSession) (instructor : String)
    → (is_session_instructor session instructor false ≡ true) ↔ (
        (session.owner_instructor_id ≡ instructor)
        ⊎ Any (λ x. x ≡ instructor) session.assistant_instructor_ids)
unfolding is_session_instructor
is_session_instructor_iff session instructor = (
  λ h. elim (or_true_cases _ _ h) [
    | inl e ↦ inl ((eq_iff _ _).0 e)
    | inr e ↦ inr ((has_iff _ _).0 e)
  ],
  λ h. elim h [
    | inl e ↦ or_true_left _ _ ((eq_iff _ _).1 e)
    | inr e ↦ or_true_right _ _ ((has_iff _ _).1 e)
  ],
)

pub is_camper_of_iff :
    (deps : Deps) (camper : String) (session : CampSession) (x : Camper)
    → (is_camper_of deps camper session x ≡ true) ↔ ((x.id ≡ camper) × (x.session_id ≡ session.id))
is_camper_of_iff deps camper session x = (
  λ h. let (a, b) = both_true _ _ h in ((eq_iff _ _).0 a, (eq_iff _ _).0 b),
  λ (a, b). and_true ((eq_iff _ _).1 a) ((eq_iff _ _).1 b),
)
