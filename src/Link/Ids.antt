-- ===== src/Link/Ids.antt =====
-- protocol/generated/rsm_link_message_ids.h and rsm_link_error_ids.h: the numbers of the messages and of the errors.
use rsmicro.Prelude.{ℕ, ◌==◌, if◌then◌else◌, List, [], ◌∷◌, Option, none, some}

-- the messages, RSM_LINK_MESSAGE_*
pub data Message : Type 0 where
  hello hello_response capabilities_request capabilities_response heartbeat : Message
  heartbeat_response get_program_info program_info program_begin program_chunk : Message
  program_validate program_validation_result program_activate program_activation_result : Message
  program_abort program_rollback get_mode mode_status set_mode get_tag_manifest : Message
  tag_manifest_begin tag_manifest_chunk tag_manifest_end read_tag read_tag_response : Message
  write_tag set_sim_input force_tag clear_force clear_all_forces force_status : Message
  subscribe_tags subscription_status unsubscribe_tags tag_update get_snapshot : Message
  snapshot_begin snapshot_chunk snapshot_end get_diagnostics diagnostics_response : Message
  fault_event ack error : Message

unfoldable pub message_id : Message → ℕ
message_id Message.hello = 1
message_id Message.hello_response = 2
message_id Message.capabilities_request = 3
message_id Message.capabilities_response = 4
message_id Message.heartbeat = 5
message_id Message.heartbeat_response = 6
message_id Message.get_program_info = 16
message_id Message.program_info = 17
message_id Message.program_begin = 18
message_id Message.program_chunk = 19
message_id Message.program_validate = 20
message_id Message.program_validation_result = 21
message_id Message.program_activate = 22
message_id Message.program_activation_result = 23
message_id Message.program_abort = 24
message_id Message.program_rollback = 25
message_id Message.get_mode = 32
message_id Message.mode_status = 33
message_id Message.set_mode = 34
message_id Message.get_tag_manifest = 48
message_id Message.tag_manifest_begin = 49
message_id Message.tag_manifest_chunk = 50
message_id Message.tag_manifest_end = 51
message_id Message.read_tag = 52
message_id Message.read_tag_response = 53
message_id Message.write_tag = 54
message_id Message.set_sim_input = 55
message_id Message.force_tag = 64
message_id Message.clear_force = 65
message_id Message.clear_all_forces = 66
message_id Message.force_status = 67
message_id Message.subscribe_tags = 80
message_id Message.subscription_status = 81
message_id Message.unsubscribe_tags = 82
message_id Message.tag_update = 83
message_id Message.get_snapshot = 96
message_id Message.snapshot_begin = 97
message_id Message.snapshot_chunk = 98
message_id Message.snapshot_end = 99
message_id Message.get_diagnostics = 100
message_id Message.diagnostics_response = 101
message_id Message.fault_event = 102
message_id Message.ack = 126
message_id Message.error = 127

-- the errors, RSM_LINK_ERROR_*
pub data LinkError : Type 0 where
  bad_frame bad_crc unsupported_version unsupported_message malformed_payload : LinkError
  incompatible_capability invalid_mode stale_program_generation tag_not_found : LinkError
  type_mismatch not_writable not_forceable queue_full transfer_in_progress : LinkError
  transfer_not_found transfer_incomplete transfer_hash_mismatch image_invalid : LinkError
  activation_failed subscription_limit node_faulted internal_error : LinkError

unfoldable pub error_id : LinkError → ℕ
error_id LinkError.bad_frame = 1
error_id LinkError.bad_crc = 2
error_id LinkError.unsupported_version = 3
error_id LinkError.unsupported_message = 4
error_id LinkError.malformed_payload = 5
error_id LinkError.incompatible_capability = 6
error_id LinkError.invalid_mode = 7
error_id LinkError.stale_program_generation = 8
error_id LinkError.tag_not_found = 9
error_id LinkError.type_mismatch = 10
error_id LinkError.not_writable = 11
error_id LinkError.not_forceable = 12
error_id LinkError.queue_full = 13
error_id LinkError.transfer_in_progress = 14
error_id LinkError.transfer_not_found = 15
error_id LinkError.transfer_incomplete = 16
error_id LinkError.transfer_hash_mismatch = 17
error_id LinkError.image_invalid = 18
error_id LinkError.activation_failed = 19
error_id LinkError.subscription_limit = 20
error_id LinkError.node_faulted = 21
error_id LinkError.internal_error = 255

abbrev pub messages : List Message
messages =
    Message.hello ∷ Message.hello_response ∷ Message.capabilities_request
    ∷ Message.capabilities_response ∷ Message.heartbeat ∷ Message.heartbeat_response
    ∷ Message.get_program_info ∷ Message.program_info ∷ Message.program_begin
    ∷ Message.program_chunk ∷ Message.program_validate ∷ Message.program_validation_result
    ∷ Message.program_activate ∷ Message.program_activation_result ∷ Message.program_abort
    ∷ Message.program_rollback ∷ Message.get_mode ∷ Message.mode_status ∷ Message.set_mode
    ∷ Message.get_tag_manifest ∷ Message.tag_manifest_begin ∷ Message.tag_manifest_chunk
    ∷ Message.tag_manifest_end ∷ Message.read_tag ∷ Message.read_tag_response ∷ Message.write_tag
    ∷ Message.set_sim_input ∷ Message.force_tag ∷ Message.clear_force ∷ Message.clear_all_forces
    ∷ Message.force_status ∷ Message.subscribe_tags ∷ Message.subscription_status
    ∷ Message.unsubscribe_tags ∷ Message.tag_update ∷ Message.get_snapshot ∷ Message.snapshot_begin
    ∷ Message.snapshot_chunk ∷ Message.snapshot_end ∷ Message.get_diagnostics
    ∷ Message.diagnostics_response ∷ Message.fault_event ∷ Message.ack ∷ Message.error ∷ []

abbrev pub errors : List LinkError
errors =
    LinkError.bad_frame ∷ LinkError.bad_crc ∷ LinkError.unsupported_version
    ∷ LinkError.unsupported_message ∷ LinkError.malformed_payload
    ∷ LinkError.incompatible_capability ∷ LinkError.invalid_mode
    ∷ LinkError.stale_program_generation ∷ LinkError.tag_not_found ∷ LinkError.type_mismatch
    ∷ LinkError.not_writable ∷ LinkError.not_forceable ∷ LinkError.queue_full
    ∷ LinkError.transfer_in_progress ∷ LinkError.transfer_not_found ∷ LinkError.transfer_incomplete
    ∷ LinkError.transfer_hash_mismatch ∷ LinkError.image_invalid ∷ LinkError.activation_failed
    ∷ LinkError.subscription_limit ∷ LinkError.node_faulted ∷ LinkError.internal_error ∷ []

-- the first entry of a table that has the number
unfoldable pub named {ℓ} : {A : Type ℓ} → (A → ℕ) → List A → ℕ → Option A
named number [] n = none
named number (x ∷ xs) n = if number x == n then some x else named number xs n
