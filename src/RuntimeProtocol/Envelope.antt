-- ===== src/RuntimeProtocol/Envelope.antt =====
-- packages/runtime-protocol/src/envelope.ts: the replay ledger and the verification of a signed
-- envelope. The signature scheme is an argument (`EnvelopeAuthenticator`), over the envelope itself in
-- place of its canonical text. A number that may be no safe integer is `none` there.
pub mod Replay
pub mod Verify
use badgerbots_code_studio.Prelude.{
  ℕ, suc, ◌+◌, ◌-◌, ℤ, pos, negsuc, ◌-ℤ◌, ltb_ℤ, String, Bool, true, false, not, ◌&&◌, ◌||◌, List,
  [], ◌∷◌, ◌++◌, Option, none, some, ltb, ◌==◌, str_eq, has, length, lookup, insert, if◌then◌else◌,
  Result, ok, err,
}
use badgerbots_code_studio.RuntimeProtocol.Address.{RuntimeScopeAddress}
use badgerbots_code_studio.RuntimeProtocol.InstructionGraph.{InstructionGraph}

pub data ReplayDisposition : Type 0 where
  accepted duplicate stale_sequence : ReplayDisposition

-- `order` has the oldest first.
pub record Sender : Type 0 where
  pub highest_sequence : ℤ
  pub command_ids : List String
  pub order : List String

pub record MemoryReplayLedger : Type 0 where
  pub senders : List (String × Sender)
  pub retained_command_ids : ℕ

-- The constructor: `none` is the exception.
unfoldable pub new_ledger : ℕ → Option MemoryReplayLedger
new_ledger retained =
    if ltb retained 32
    then none
    else some (record { senders = []; retained_command_ids = retained })

abbrev pub new_sender : Sender
new_sender = record { highest_sequence = negsuc 0; command_ids = []; order = [] }

abbrev pub sender_of : Option Sender → Sender
sender_of none = new_sender
sender_of (some s) = s

-- `Set.delete`, for a removed identifier that is not the empty text.
unfoldable pub remove_id : String → List String → List String
remove_id id [] = []
remove_id id (x ∷ ids) = if str_eq x id then remove_id id ids else x ∷ remove_id id ids

abbrev pub forget : String → List String → List String
forget removed ids = if str_eq removed "" then ids else remove_id removed ids

-- The loop that drops the oldest identifiers: structural, on the order itself.
unfoldable pub trim : ℕ → List String → List String → List String × List String
trim retained [] ids = ([], ids)
trim retained (removed ∷ order) ids =
    let rest = trim retained order (forget removed ids) in
    if ltb retained (length (removed ∷ order)) then rest else (removed ∷ order, ids)

unfoldable pub record_command : Sender → String → ℤ → ℕ → Sender
record_command s id sequence retained =
    let (order, ids) = trim retained (s.order ++ id ∷ []) (id ∷ s.command_ids) in
    record { highest_sequence = sequence; command_ids = ids; order = order }

abbrev pub accept_sequence :
    MemoryReplayLedger
    → String
    → Sender
    → String
    → Option ℤ
    → MemoryReplayLedger × ReplayDisposition
accept_sequence l sender_id s id none = (l, stale_sequence)
accept_sequence l sender_id s id (some sequence) =
    if ltb_ℤ s.highest_sequence sequence
    then (
      record l {
        senders = insert sender_id (record_command s id sequence l.retained_command_ids) l.senders;
      },
      accepted,
    )
    else (l, stale_sequence)

-- `accept`
unfoldable pub accept :
    MemoryReplayLedger → String → String → Option ℤ → MemoryReplayLedger × ReplayDisposition
accept l sender_id command_id sequence =
    let s = sender_of (lookup sender_id l.senders) in
    if has s.command_ids command_id
    then (l, duplicate)
    else accept_sequence l sender_id s command_id sequence

pub data Channel : Type 0 where
  cloud_to_host host_to_cloud host_to_plugin plugin_to_host : Channel

abbrev pub same_channel : Channel → Channel → Bool
same_channel cloud_to_host cloud_to_host = true
same_channel host_to_cloud host_to_cloud = true
same_channel host_to_plugin host_to_plugin = true
same_channel plugin_to_host plugin_to_host = true
same_channel _ _ = false

pub data StopReason : Type 0 where
  student instructor disconnect world_unload : StopReason

pub data AcknowledgementStatus : Type 0 where
  ack_accepted ack_duplicate ack_rejected : AcknowledgementStatus

pub data RuntimeCommand : Type 0 where
  deploy_program : String → Option String → InstructionGraph → RuntimeCommand
  stop_program : StopReason → RuntimeCommand
  ping : String → RuntimeCommand
  acknowledgement : String → AcknowledgementStatus → Option String → Option String → RuntimeCommand

-- `none` stands for a number that is no safe integer.
pub record UnsignedRuntimeEnvelope : Type 0 where
  pub protocol_version : ℕ
  pub channel : Channel
  pub sender_id : String
  pub recipient_id : String
  pub command_id : String
  pub sequence : Option ℤ
  pub issued_at : Option ℤ
  pub expires_at : Option ℤ
  pub nonce : String
  pub scope : RuntimeScopeAddress
  pub command : RuntimeCommand

pub record SignedRuntimeEnvelope : Type 0 where
  pub unsigned : UnsignedRuntimeEnvelope
  pub open unsigned use *
  pub signature : String

pub record Expected : Type 0 where
  pub channel : Channel
  pub recipient_id : String
  pub scope : RuntimeScopeAddress
  pub now : ℤ
  pub maximum_lifetime_ms : Option ℕ

pub data RejectionCode : Type 0 where
  unsupported_protocol wrong_channel wrong_recipient wrong_scope : RejectionCode
  invalid_time_window expired invalid_signature stale : RejectionCode

pub data EnvelopeVerification : Type 0 where
  verified : ReplayDisposition → EnvelopeVerification
  rejected : RejectionCode → EnvelopeVerification

abbrev pub same_scope : RuntimeScopeAddress → RuntimeScopeAddress → Bool
same_scope a b =
    str_eq a.organization_id b.organization_id
    && str_eq a.location_id b.location_id
    && str_eq a.session_id b.session_id
    && str_eq a.project_id b.project_id
    && str_eq a.student_id b.student_id
    && str_eq a.world_id b.world_id

-- The two numbers of a valid time window.
unfoldable pub time_window : Option ℤ → Option ℤ → ℕ → Option (ℤ × ℤ)
time_window (some issued) (some expires) lifetime =
    if not (ltb_ℤ issued expires) || ltb_ℤ (pos lifetime) (expires -ℤ issued)
    then none
    else some (issued, expires)
time_window (some issued) none lifetime = none
time_window none expires lifetime = none

abbrev pub lifetime_of : Option ℕ → ℕ
lifetime_of none = 60000
lifetime_of (some ms) = ms

abbrev pub verification_of :
    MemoryReplayLedger × ReplayDisposition → MemoryReplayLedger × EnvelopeVerification
verification_of (l, accepted) = (l, verified accepted)
verification_of (l, duplicate) = (l, verified duplicate)
verification_of (l, stale_sequence) = (l, rejected stale)

-- The checks after the time window, in their order.
unfoldable pub verify_addressed :
    (UnsignedRuntimeEnvelope → String → Bool)
    → SignedRuntimeEnvelope
    → Expected
    → MemoryReplayLedger
    → ℤ × ℤ
    → MemoryReplayLedger × EnvelopeVerification
verify_addressed verifies e expected l (issued, expires) =
    if ltb_ℤ expected.now (issued -ℤ pos 5000) || ltb_ℤ expires expected.now
    then (l, rejected expired)
    else (if not (verifies e.unsigned e.signature)
        then (l, rejected invalid_signature)
        else (if not (same_channel e.channel expected.channel)
            then (l, rejected wrong_channel)
            else (if not (str_eq e.recipient_id expected.recipient_id)
                then (l, rejected wrong_recipient)
                else (if not (same_scope e.scope expected.scope)
                    then (l, rejected wrong_scope)
                    else verification_of (accept l e.sender_id e.command_id e.sequence)))))

abbrev pub in_window :
    (UnsignedRuntimeEnvelope → String → Bool)
    → SignedRuntimeEnvelope
    → Expected
    → MemoryReplayLedger
    → Option (ℤ × ℤ)
    → MemoryReplayLedger × EnvelopeVerification
in_window verifies e expected l none = (l, rejected invalid_time_window)
in_window verifies e expected l (some window) = verify_addressed verifies e expected l window

unfoldable pub verify_runtime_envelope :
    (UnsignedRuntimeEnvelope → String → Bool)
    → SignedRuntimeEnvelope
    → Expected
    → MemoryReplayLedger
    → MemoryReplayLedger × EnvelopeVerification
verify_runtime_envelope verifies e expected l =
    if not (e.protocol_version == 1)
    then (l, rejected unsupported_protocol)
    else in_window verifies e expected l
        (time_window e.issued_at e.expires_at (lifetime_of expected.maximum_lifetime_ms))
