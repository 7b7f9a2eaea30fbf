-- ===== src/RuntimeProtocol/Envelope/Replay.antt =====
-- Sequences of calls of `MemoryReplayLedger.accept`, packages/runtime-protocol/src/envelope.ts.
use badgerbots_code_studio.Prelude.{
  ℕ, ◌≡◌, ◌≢◌, refl, ap, ◌∙◌, sym, inl, inr, ℤ, ◌≤ℤ◌, ltb_ℤ, String, Bool, true, false, List, [],
  ◌∷◌, Option, none, some, Bool-cases, lookup, insert, lookup-insert, has, str_eq, eq_iff, arith,
  if◌then◌else◌,
}
use badgerbots_code_studio.RuntimeProtocol.Envelope.{
  ReplayDisposition, accepted, duplicate, stale_sequence, Sender, MemoryReplayLedger, sender_of,
  record_command, accept_sequence, accept,
}

abbrev pub highest : String → MemoryReplayLedger → ℤ
highest sender l = (sender_of (lookup sender l.senders)).highest_sequence

record_command-highest :
    (s : Sender) (id : String) (sequence : ℤ) (retained : ℕ)
    → (record_command s id sequence retained).highest_sequence ≡ sequence
unfolding record_command
record_command-highest s id sequence retained = refl

≤ℤ_refl : (a : ℤ) → a ≤ℤ a
≤ℤ_refl a = omega arith

≤ℤ_trans : (a b c : ℤ) → a ≤ℤ b → b ≤ℤ c → a ≤ℤ c
≤ℤ_trans a b c h k = omega arith

not_below : (a b : ℤ) → ltb_ℤ a b ≡ true → a ≤ℤ b
not_below a b h = ground arith

not_lower : (a b n : ℤ) → a ≤ℤ b → ltb_ℤ b n ≡ true → a ≡ n → ⊥
not_lower a b n h newer same = ground arith

-- The three ways in which `accept` ends.
accept_cases :
    (P : MemoryReplayLedger × ReplayDisposition → Type 0) (l : MemoryReplayLedger)
    (sender id : String) (sequence : Option ℤ)
    → P (l, duplicate)
    → P (l, stale_sequence)
    → ((n : ℤ)
        → sequence ≡ some n
        → ltb_ℤ (highest sender l) n ≡ true
        → P (
          record l {
            senders =
                insert sender
                  (record_command (sender_of (lookup sender l.senders)) id n l.retained_command_ids)
                  l.senders;
          },
          accepted,
        ))
    → P (accept l sender id sequence)
unfolding accept
accept_cases P l sender id sequence dup old new =
    elim (Bool-cases (has (sender_of (lookup sender l.senders)).command_ids id)) [
      | inl known ↦ rw (accept, known) dup
      | inr unknown ↦ rw (accept, unknown) (by_sequence sequence new)
    ]
  where
    by_sequence :
        (q : Option ℤ)
        → ((n : ℤ)
            → q ≡ some n
            → ltb_ℤ (highest sender l) n ≡ true
            → P (
              record l {
                senders =
                    insert sender
                      (record_command
                        (sender_of (lookup sender l.senders))
                        id
                        n
                        l.retained_command_ids)
                      l.senders;
              },
              accepted,
            ))
        → P (accept_sequence l sender (sender_of (lookup sender l.senders)) id q)
    by_sequence none f = old
    by_sequence (some n) f = elim (Bool-cases (ltb_ℤ (highest sender l) n)) [
      | inl newer ↦ rw newer (f n refl newer)
      | inr older ↦ rw older old
    ]

-- The highest number of each sender after a command was recorded.
highest-insert :
    (l : MemoryReplayLedger) (sender other id : String) (n : ℤ)
    → highest other (record l {
      senders =
          insert sender
            (record_command (sender_of (lookup sender l.senders)) id n l.retained_command_ids)
            l.senders;
    })
      ≡ (if str_eq sender other then n else highest other l)
highest-insert l sender other id n =
    ap (λ o. (sender_of o).highest_sequence) (lookup-insert sender other new l.senders)
    ∙ pushed (str_eq sender other)
  where
    new : Sender
    new = record_command (sender_of (lookup sender l.senders)) id n l.retained_command_ids

    pushed :
        (b : Bool)
        → (sender_of (if b then some new else lookup other l.senders)).highest_sequence
          ≡ (if b then n else highest other l)
    pushed true = record_command-highest _ id n _
    pushed false = refl

-- A call never lowers the highest number of a sender.
accept-highest_le :
    (l : MemoryReplayLedger) (sender id : String) (sequence : Option ℤ) (other : String)
    → highest other l ≤ℤ highest other (accept l sender id sequence).0
accept-highest_le l sender id sequence other =
    accept_cases (λ r. highest other l ≤ℤ highest other r.0) l sender id sequence
      (≤ℤ_refl (highest other l)) (≤ℤ_refl (highest other l))
      λ n e newer. rw (highest-insert l sender other id n) (raised n newer)
  where
    risen : (n : ℤ) → ltb_ℤ (highest sender l) n ≡ true → sender ≡ other → highest other l ≤ℤ n
    risen n newer same = rw (← same) (not_below (highest sender l) n newer)

    raised :
        (n : ℤ)
        → ltb_ℤ (highest sender l) n ≡ true
        → highest other l ≤ℤ (if str_eq sender other then n else highest other l)
    raised n newer = elim (Bool-cases (str_eq sender other)) [
      | inl same ↦ rw same (risen n newer ((eq_iff sender other).0 same))
      | inr differs ↦ rw differs (≤ℤ_refl (highest other l))
    ]

-- An accepted command raised its sender's highest number to its own.
accepted-highest :
    (l : MemoryReplayLedger) (sender id : String) (sequence : Option ℤ)
    → (accept l sender id sequence).1 ≡ accepted
    → sequence ≡ some (highest sender (accept l sender id sequence).0)
accepted-highest l sender id sequence =
    accept_cases (λ r. r.1 ≡ accepted → sequence ≡ some (highest sender r.0)) l sender id sequence
      (λ e. cc) (λ e. cc)
      λ n e newer _. rw (highest-insert l sender sender id n, (eq_iff sender sender).1 refl) e

pub record Attempt : Type 0 where
  pub sender_id : String
  pub command_id : String
  pub sequence : Option ℤ

unfoldable pub attempts : List Attempt → MemoryReplayLedger → MemoryReplayLedger
attempts [] l = l
attempts (a ∷ tries) l = attempts tries (accept l a.sender_id a.command_id a.sequence).0

attempts-highest_le :
    (tries : List Attempt) (l : MemoryReplayLedger) (sender : String)
    → highest sender l ≤ℤ highest sender (attempts tries l)
unfolding attempts
attempts-highest_le [] l sender = ≤ℤ_refl (highest sender l)
attempts-highest_le (a ∷ tries) l sender =
    ≤ℤ_trans (highest sender l) (highest sender (accept l a.sender_id a.command_id a.sequence).0) _
      (accept-highest_le l a.sender_id a.command_id a.sequence sender)
      (attempts-highest_le tries _ sender)

some-inj : (m n : ℤ) → some m ≡ some n → m ≡ n
some-inj m n e = cc

-- A command that was accepted is never accepted again, whatever commands are tried in between.
pub never_accepted_twice :
    (l : MemoryReplayLedger) (a : Attempt) (between : List Attempt)
    → (accept l a.sender_id a.command_id a.sequence).1 ≡ accepted
    → let later = attempts between (accept l a.sender_id a.command_id a.sequence).0 in
      (accept later a.sender_id a.command_id a.sequence).1 ≢ accepted
never_accepted_twice l a between first =
    let l' = (accept l a.sender_id a.command_id a.sequence).0 in
    let later = attempts between l' in
    let mine = accepted-highest l a.sender_id a.command_id a.sequence first in
    let kept = attempts-highest_le between l' a.sender_id in
    accept_cases (λ r. r.1 ≢ accepted) later a.sender_id a.command_id a.sequence (λ e. cc) (λ e. cc)
      λ n e newer. λ _.
        not_lower (highest a.sender_id l') (highest a.sender_id later) n kept newer
          (some-inj _ _ (sym mine ∙ e))
