-- ===== src/Tests/Envelopes.antt =====
-- The theorems on envelopes, at a ping that is sent to a host.
use badgerbots_code_studio.Prelude.{
  ◌≡◌, ◌≢◌, ◌↔◌, refl, String, Bool, true, none, some, [], ◌∷◌, pos, lookup, ◌-ℤ◌,
}
use badgerbots_code_studio.RuntimeProtocol.Address.{RuntimeScopeAddress}
use badgerbots_code_studio.RuntimeProtocol.Envelope.{
  MemoryReplayLedger, accept, accepted, cloud_to_host, ping, UnsignedRuntimeEnvelope,
  SignedRuntimeEnvelope, Expected, verified, verify_runtime_envelope, verify_addressed, time_window,
}
use badgerbots_code_studio.RuntimeProtocol.Envelope.Replay.{Attempt, attempts, never_accepted_twice}
use badgerbots_code_studio.RuntimeProtocol.Envelope.Verify.{
  IsGenuine, verify_runtime_envelope_iff, rejected_unchanged,
}

abbrev empty_ledger : MemoryReplayLedger
empty_ledger = record { senders = []; retained_command_ids = 32 }

abbrev first_command : Attempt
first_command = record { sender_id = "cloud"; command_id = "c1"; sequence = some (pos 7) }

abbrev second_command : Attempt
second_command = record { sender_id = "cloud"; command_id = "c2"; sequence = some (pos 8) }

first_accepted : (accept empty_ledger "cloud" "c1" (some (pos 7))).1 ≡ accepted
unfolding accept lookup
first_accepted = refl

never_accepted_twice_example :
    let l' = (accept empty_ledger "cloud" "c1" (some (pos 7))).0 in
    (accept (attempts (second_command ∷ []) l') "cloud" "c1" (some (pos 7))).1 ≢ accepted
never_accepted_twice_example =
    never_accepted_twice empty_ledger first_command (second_command ∷ []) first_accepted

abbrev home : RuntimeScopeAddress
home = record {
  organization_id = "org";
  location_id = "lab";
  session_id = "monday";
  project_id = "sheep-city";
  student_id = "ada";
  world_id = "world";
}

abbrev ping_envelope : SignedRuntimeEnvelope
ping_envelope = record {
  unsigned = record {
    protocol_version = 1;
    channel = cloud_to_host;
    sender_id = "cloud";
    recipient_id = "host";
    command_id = "c1";
    sequence = some (pos 7);
    issued_at = some (pos 1000);
    expires_at = some (pos 31000);
    nonce = "n";
    scope = home;
    command = ping "r";
  };
  signature = "s";
}

abbrev late_host : Expected
late_host = record {
  channel = cloud_to_host;
  recipient_id = "host";
  scope = home;
  now = pos 31001;
  maximum_lifetime_ms = none;
}

abbrev trusting : UnsignedRuntimeEnvelope → String → Bool
trusting envelope signature = true

verify_runtime_envelope_iff_example :
    ((verify_runtime_envelope trusting ping_envelope late_host empty_ledger).1 ≡ verified accepted)
    ↔ (IsGenuine trusting ping_envelope late_host
        × ((accept empty_ledger "cloud" "c1" (some (pos 7))).1 ≡ accepted))
verify_runtime_envelope_iff_example =
    verify_runtime_envelope_iff trusting ping_envelope late_host empty_ledger

-- A millisecond after the end.
too_late :
    (verify_runtime_envelope trusting ping_envelope late_host empty_ledger).1 ≢ verified accepted
unfolding verify_runtime_envelope time_window verify_addressed ◌-ℤ◌
too_late e = cc

rejected_unchanged_example :
    (verify_runtime_envelope trusting ping_envelope late_host empty_ledger).0 ≡ empty_ledger
rejected_unchanged_example =
    rejected_unchanged trusting ping_envelope late_host empty_ledger too_late
