-- ===== src/RuntimeProtocol/Envelope/Verify.antt =====
-- `verifyRuntimeEnvelope` of packages/runtime-protocol/src/envelope.ts against its conditions.
use badgerbots_code_studio.Prelude.{
  ℕ, ◌≡◌, ◌≢◌, ◌↔◌, refl, ap, ◌∙◌, ℤ, pos, ◌-ℤ◌, ltb_ℤ, ◌≤ℤ◌, String, Bool, true, Option, none,
  some, eq_iff, arith,
}
use badgerbots_code_studio.RuntimeProtocol.Address.{RuntimeScopeAddress}
use badgerbots_code_studio.RuntimeProtocol.Envelope.{
  accepted, MemoryReplayLedger, UnsignedRuntimeEnvelope, accept, Channel, same_channel, same_scope,
  SignedRuntimeEnvelope, Expected, verified, time_window, lifetime_of, verify_addressed, in_window,
  verify_runtime_envelope,
}

-- The window is open: no longer than the limit, not expired, and not more than five seconds ahead.
pub record IsOpen (e : SignedRuntimeEnvelope) (expected : Expected) (issued expires : ℤ)
    : Type 0 where
  pub issued_at : e.issued_at ≡ some issued
  pub expires_at : e.expires_at ≡ some expires
  pub ordered : ltb_ℤ issued expires ≡ true
  pub short : (expires -ℤ issued) ≤ℤ pos (lifetime_of expected.maximum_lifetime_ms)
  pub begun : (issued -ℤ pos 5000) ≤ℤ expected.now
  pub lasting : expected.now ≤ℤ expires

pub record IsGenuine (verifies : UnsignedRuntimeEnvelope → String → Bool)
    (e : SignedRuntimeEnvelope) (expected : Expected) : Type 0 where
  pub protocol : e.protocol_version ≡ 1
  pub window : (issued expires : ℤ) × IsOpen e expected issued expires
  pub signed : verifies e.unsigned e.signature ≡ true
  pub channel : e.channel ≡ expected.channel
  pub recipient : e.recipient_id ≡ expected.recipient_id
  pub scope : e.scope ≡ expected.scope

same_channel_iff : (a b : Channel) → (same_channel a b ≡ true) ↔ (a ≡ b)
same_channel_iff a b = ground arith

same_scope_iff : (a b : RuntimeScopeAddress) → (same_scope a b ≡ true) ↔ (a ≡ b)
same_scope_iff a b = ground (
  arith,
  eq_iff a.organization_id b.organization_id,
  eq_iff a.location_id b.location_id,
  eq_iff a.session_id b.session_id,
  eq_iff a.project_id b.project_id,
  eq_iff a.student_id b.student_id,
  eq_iff a.world_id b.world_id,
)

-- What the checks after the time window ask.
IsAddressed : (UnsignedRuntimeEnvelope → String → Bool) → SignedRuntimeEnvelope → Expected → Type 0
IsAddressed verifies e expected =
    (verifies e.unsigned e.signature ≡ true)
    × (e.channel ≡ expected.channel)
    × (e.recipient_id ≡ expected.recipient_id)
    × (e.scope ≡ expected.scope)

verify_addressed_iff :
    (verifies : UnsignedRuntimeEnvelope → String → Bool) (e : SignedRuntimeEnvelope)
    (expected : Expected) (l : MemoryReplayLedger) (issued expires : ℤ)
    → ((verify_addressed verifies e expected l (issued, expires)).1 ≡ verified accepted) ↔ (
        ((issued -ℤ pos 5000) ≤ℤ expected.now)
        × (expected.now ≤ℤ expires)
        × IsAddressed verifies e expected
        × ((accept l e.sender_id e.command_id e.sequence).1 ≡ accepted))
unfolding verify_addressed IsAddressed
verify_addressed_iff verifies e expected l issued expires = ground (
  arith,
  same_channel_iff e.channel expected.channel,
  eq_iff e.recipient_id expected.recipient_id,
  same_scope_iff e.scope expected.scope,
)

IsTimely : SignedRuntimeEnvelope → Expected → ℤ → ℤ → Type 0
IsTimely e expected issued expires =
    (e.issued_at ≡ some issued)
    × (e.expires_at ≡ some expires)
    × (ltb_ℤ issued expires ≡ true)
    × ((expires -ℤ issued) ≤ℤ pos (lifetime_of expected.maximum_lifetime_ms))

time_window_iff :
    (e : SignedRuntimeEnvelope) (expected : Expected) (issued expires : ℤ)
    → (time_window e.issued_at e.expires_at (lifetime_of expected.maximum_lifetime_ms)
        ≡ some (issued, expires))
      ↔ IsTimely e expected issued expires
unfolding time_window IsTimely
time_window_iff e expected issued expires = go e.issued_at e.expires_at _
  where
    go :
        (i x : Option ℤ) (lifetime : ℕ)
        → (time_window i x lifetime ≡ some (issued, expires)) ↔ (
            (i ≡ some issued)
            × (x ≡ some expires)
            × (ltb_ℤ issued expires ≡ true)
            × ((expires -ℤ issued) ≤ℤ pos lifetime))
    go (some i) (some x) lifetime = ground arith
    go (some i) none lifetime = ground arith
    go none x lifetime = ground arith

-- The protocol version is checked first, then the time window.
by_window :
    (verifies : UnsignedRuntimeEnvelope → String → Bool) (e : SignedRuntimeEnvelope)
    (expected : Expected) (l : MemoryReplayLedger)
    → ((verify_runtime_envelope verifies e expected l).1 ≡ verified accepted) ↔ (
        (e.protocol_version ≡ 1)
        × ((in_window verifies e expected l
              (time_window e.issued_at e.expires_at (lifetime_of expected.maximum_lifetime_ms))).1
            ≡ verified accepted))
unfolding verify_runtime_envelope
by_window verifies e expected l = ground arith

in_window-some :
    (verifies : UnsignedRuntimeEnvelope → String → Bool) (e : SignedRuntimeEnvelope)
    (expected : Expected) (l : MemoryReplayLedger) (o : Option (ℤ × ℤ))
    → (in_window verifies e expected l o).1 ≡ verified accepted
    → (issued expires : ℤ) × (o ≡ some (issued, expires))
      × ((verify_addressed verifies e expected l (issued, expires)).1 ≡ verified accepted)
in_window-some verifies e expected l none h = absurd (cc)
in_window-some verifies e expected l (some (issued, expires)) h = (issued, expires, refl, h)

-- An envelope is accepted exactly when it is genuine, addressed to the receiver and in time, and the
-- replay ledger accepts its command.
pub verify_runtime_envelope_iff :
    (verifies : UnsignedRuntimeEnvelope → String → Bool) (e : SignedRuntimeEnvelope)
    (expected : Expected) (l : MemoryReplayLedger)
    → ((verify_runtime_envelope verifies e expected l).1 ≡ verified accepted) ↔ (
        IsGenuine verifies e expected
        × ((accept l e.sender_id e.command_id e.sequence).1 ≡ accepted))
unfolding IsAddressed IsTimely
verify_runtime_envelope_iff verifies e expected l = (taken, taking)
  where
    taken :
        (verify_runtime_envelope verifies e expected l).1 ≡ verified accepted
        → IsGenuine verifies e expected
          × ((accept l e.sender_id e.command_id e.sequence).1 ≡ accepted)
    taken h =
        let (protocol, inside) = (by_window verifies e expected l).0 h in
        let (issued, expires, window, checked) = in_window-some verifies e expected l _ inside in
        let (at, until, ordered, short) = (time_window_iff e expected issued expires).0 window in
        let (begun, lasting, (signed, channel, recipient, scope), new) =
          (verify_addressed_iff verifies e expected l issued expires).0 checked in
        (
          record {
            protocol = protocol;
            window = (
              issued,
              expires,
              record {
                issued_at = at;
                expires_at = until;
                ordered = ordered;
                short = short;
                begun = begun;
                lasting = lasting;
              },
            );
            signed = signed;
            channel = channel;
            recipient = recipient;
            scope = scope;
          },
          new,
        )

    taking :
        IsGenuine verifies e expected
          × ((accept l e.sender_id e.command_id e.sequence).1 ≡ accepted)
        → (verify_runtime_envelope verifies e expected l).1 ≡ verified accepted
    taking (g, new) =
        let (issued, expires, w) = g.window in
        let window =
          (time_window_iff e expected issued expires).1
            (w.issued_at, w.expires_at, w.ordered, w.short) in
        let checked =
          (verify_addressed_iff verifies e expected l issued expires).1
            (w.begun, w.lasting, (g.signed, g.channel, g.recipient, g.scope), new) in
        (by_window verifies e expected l).1
          (g.protocol, ap (λ o. (in_window verifies e expected l o).1) window ∙ checked)

-- An envelope that is not accepted leaves the ledger as it is.
pub rejected_unchanged :
    (verifies : UnsignedRuntimeEnvelope → String → Bool) (e : SignedRuntimeEnvelope)
    (expected : Expected) (l : MemoryReplayLedger)
    → (verify_runtime_envelope verifies e expected l).1 ≢ verified accepted
    → (verify_runtime_envelope verifies e expected l).0 ≡ l
unfolding verify_runtime_envelope verify_addressed accept
rejected_unchanged verifies e expected l h = ground arith
