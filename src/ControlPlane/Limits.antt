-- ===== src/ControlPlane/Limits.antt =====
-- The limit on attempts to join, packages/control-plane/src/service.ts: `recordFailedJoinAttempt` and
-- then `requireJoinAttemptAllowed`.
use badgerbots_code_studio.Prelude.{
  ℕ, ◌+◌, ◌-◌, ◌≤◌, ◌<◌, ◌≡◌, ◌↔◌, refl, ◌∙◌, ap, String, List, [], ◌∷◌, none, some, All, arith,
  length, leb, eq_iff, lookup, lookup-insert, if◌then◌else◌,
}
use badgerbots_code_studio.ControlPlane.Action.{JoinAttempt}
use badgerbots_code_studio.ControlPlane.Campers.{
  attempt_window, block_time, attempt_allowed, new_window, current_window, failed_once_more,
  failed_attempt,
}

-- Attempts that fail at these times.
unfoldable pub fail_all :
    String → List ℕ → List (String × JoinAttempt) → List (String × JoinAttempt)
fail_all key [] attempts = attempts
fail_all key (time ∷ times) attempts = fail_all key times (failed_attempt key time attempts)

-- The entry of a key after `n` failures in one window.
abbrev entry : ℕ → ℕ → ℕ → JoinAttempt
entry start n last = record {
  window_started_at = start;
  failures = n;
  blocked_until = if leb 5 n then some (last + block_time) else none;
}

lookup-failed_attempt :
    (key : String) (time : ℕ) (attempts : List (String × JoinAttempt))
    → lookup key (failed_attempt key time attempts)
      ≡ some (failed_once_more time (current_window time (lookup key attempts)))
unfolding failed_attempt
lookup-failed_attempt key time attempts =
    lookup-insert key key _ attempts
    ∙ ap
        (λ b.
          if b
          then some (failed_once_more time (current_window time (lookup key attempts)))
          else lookup key attempts)
        ((eq_iff key key).1 refl)

first_failure : (start : ℕ) → failed_once_more start (new_window start) ≡ entry start 1 start
first_failure start = refl

next_failure :
    (start n last time : ℕ)
    → time - start < attempt_window
    → failed_once_more time (current_window time (some (entry start n last)))
      ≡ entry start (n + 1) time
next_failure start n last time inside = ground arith

-- The last of the times.
abbrev pub last_time : ℕ → List ℕ → ℕ
last_time start [] = start
last_time start (time ∷ times) = last_time time times

lookup-fail_all :
    (key : String) (start n last : ℕ) (times : List ℕ) (attempts : List (String × JoinAttempt))
    → All (λ time. time - start < attempt_window) times
    → lookup key attempts ≡ some (entry start n last)
    → lookup key (fail_all key times attempts)
      ≡ some (entry start (n + length times) (last_time last times))
unfolding fail_all
lookup-fail_all key start n last [] attempts inside e =
    e ∙ ap (λ m. some (entry start m last)) (omega arith)
lookup-fail_all key start n last (time ∷ times) attempts inside e =
    lookup-fail_all key start (n + 1) time times (failed_attempt key time attempts) inside.1 (
      lookup-failed_attempt key time attempts
      ∙ ap (λ o. some (failed_once_more time (current_window time o))) e
      ∙ ap (λ x. some x) (next_failure start n last time inside.0))
    ∙ ap (λ m. some (entry start m (last_time time times))) (omega arith)

allowed_iff :
    (key : String) (time start n last : ℕ) (attempts : List (String × JoinAttempt))
    → lookup key attempts ≡ some (entry start n last)
    → (attempt_allowed key time attempts ≡ none) ↔ ((5 ≤ n) × (time < last + block_time))
unfolding attempt_allowed
allowed_iff key time start n last attempts e = ground (arith, e)

-- For a key that has no entry, whose attempts fail at `start` and at `times` within ten minutes of it, a
-- later attempt is refused exactly if there were five failures or more, and fewer than fifteen minutes
-- have passed since the last one.
pub attempt_refused_iff :
    (key : String) (start : ℕ) (times : List ℕ) (attempts : List (String × JoinAttempt)) (now : ℕ)
    → lookup key attempts ≡ none
    → All (λ time. time - start < attempt_window) times
    → (attempt_allowed key now (fail_all key (start ∷ times) attempts) ≡ none)
      ↔ ((5 ≤ 1 + length times) × (now < last_time start times + block_time))
unfolding fail_all
attempt_refused_iff key start times attempts now missing inside = allowed_iff key now start _ _ _ (
    lookup-fail_all key start 1 start times _ inside (
      lookup-failed_attempt key start attempts
      ∙ ap (λ o. some (failed_once_more start (current_window start o))) missing))
