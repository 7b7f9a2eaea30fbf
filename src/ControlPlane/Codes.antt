-- ===== src/ControlPlane/Codes.antt =====
-- The search of `createSession`, packages/control-plane/src/service.ts, for a join code that no session
-- has.
use mathlib.Core.Path.{subst}
use badgerbots_code_studio.Prelude.{
  ℕ, zero, suc, ◌+◌, ◌≤◌, ◌<◌, ◌≡◌, ◌≢◌, refl, ap, String, Bool, true, false, List, [], ◌∷◌, Option,
  none, some, arith, length, str_eq, eq_iff, if◌then◌else◌, ok, Option-cases, inl, inr,
}
use badgerbots_code_studio.ControlPlane.Store.{CampSession, exists}
use badgerbots_code_studio.ControlPlane.Action.{Deps, Service, read, change, give, ◌>>=◌}
use badgerbots_code_studio.ControlPlane.Organizations.{
  is_code_taken, free_code, found_code, next_join_code,
}

abbrev has_digest : String → CampSession → Bool
has_digest d c = str_eq c.join_code_digest d

-- The sessions without the first one of a digest.
unfoldable without : String → List CampSession → List CampSession
without d [] = []
without d (c ∷ cs) = if str_eq c.join_code_digest d then cs else c ∷ without d cs

length-without :
    (d : String) (cs : List CampSession)
    → exists (has_digest d) cs ≡ true
    → length cs ≡ 1 + length (without d cs)
unfolding exists without
length-without d [] h = ground (arith, h)
length-without d (c ∷ cs) h = ground (arith, h, length-without d cs)

exists-without :
    (d e : String) (cs : List CampSession)
    → e ≢ d
    → exists (has_digest e) cs ≡ true
    → exists (has_digest e) (without d cs) ≡ true
unfolding exists without
exists-without d e [] ne h = h
exists-without d e (c ∷ cs) ne h = ground (
  arith,
  ne,
  h,
  exists-without d e cs ne,
  eq_iff c.join_code_digest d,
  eq_iff c.join_code_digest e,
)

if-none :
    {A : Type 0} (test : Bool) (rest : Option A) (x : A)
    → (if test then rest else some x) ≡ none
    → (test ≡ true) × (rest ≡ none)
if-none true rest x h = (refl, h)
if-none false rest x h = ground (arith, h)

too_many : {A : Type 0} (n : ℕ) → n + 1 ≤ n → A
too_many n h = ground (arith, h)

module _ (digest_of : ℕ → String) where
  -- Different digests are those of different sessions.
  pigeonhole :
      (n made : ℕ) (cs : List CampSession)
      → ((i j : ℕ) → i < n → j < n → digest_of (made + i) ≡ digest_of (made + j) → i ≡ j)
      → ((i : ℕ) → i < n → exists (has_digest (digest_of (made + i))) cs ≡ true)
      → n ≤ length cs
  pigeonhole zero made cs distinct taken = omega arith
  pigeonhole (suc n) made cs distinct taken =
      let last = digest_of (made + n) in
      let here : n < suc n = omega arith in
      let few =
        pigeonhole n made (without last cs)
          (λ i j lt lt'. distinct i j (omega (arith, lt)) (omega (arith, lt')))
          (λ i lt.
            exists-without last (digest_of (made + i)) cs
              (λ e. omega (arith, lt, distinct i n (omega (arith, lt)) here e))
              (taken i (omega (arith, lt)))) in
      omega (arith, few, length-without last cs (taken n here))

module _ (deps : Deps) where
  abbrev pub code_digest : ℕ → String
  code_digest n = deps.digest (deps.upper_case (deps.join_codes n))

  free_code-none :
      (fuel made : ℕ) (cs : List CampSession)
      → free_code deps fuel made cs ≡ none
      → (i : ℕ) → i < fuel
      → exists (has_digest (code_digest (made + i))) cs ≡ true
  unfolding free_code
  free_code-none zero made cs h i lt = ground (arith, lt)
  free_code-none (suc fuel) made cs h zero lt =
      subst (λ n. exists (has_digest (code_digest n)) cs ≡ true) (omega arith) (if-none _ _ _ h).0
  free_code-none (suc fuel) made cs h (suc i) lt =
      subst (λ n. exists (has_digest (code_digest n)) cs ≡ true) (omega arith)
        (free_code-none fuel (made + 1) cs (if-none _ _ _ h).1 i (omega (arith, lt)))

  -- A code that was found is free.
  free_code-some :
      (fuel made : ℕ) (cs : List CampSession) (code : String) (n : ℕ)
      → free_code deps fuel made cs ≡ some (code, n)
      → is_code_taken deps cs code ≡ false
  unfolding free_code
  free_code-some zero made cs code n h = ground (arith, h)
  free_code-some (suc fuel) made cs code n h =
      ground (arith, h, free_code-some fuel (made + 1) cs code n)

  -- If the digests of the next codes, one more than there are sessions, differ from each other, the
  -- search returns a code that no session has, and changes nothing but the number of codes made.
  pub next_join_code-finds :
      (s : Service)
      → ((i j : ℕ)
          → i < length s.store.sessions + 1
          → j < length s.store.sessions + 1
          → code_digest (s.codes_made + i) ≡ code_digest (s.codes_made + j)
          → i ≡ j)
      → (code : String) × (made : ℕ) × (next_join_code deps s
          ≡ (ok code, record s { codes_made = made }))
        × (is_code_taken deps s.store.sessions code ≡ false)
  unfolding next_join_code ◌>>=◌ read change give found_code
  next_join_code-finds s distinct =
      elim (Option-cases
        (free_code deps (length s.store.sessions + 1) s.codes_made s.store.sessions)) [
          | inl missing ↦
              too_many _ (
                pigeonhole code_digest _ _ s.store.sessions distinct (free_code-none _ _ _ missing))
          | inr ((code, made), found) ↦
              (code, made, ap (λ o. found_code deps o s) found, free_code-some _ _ _ _ made found)
        ]
