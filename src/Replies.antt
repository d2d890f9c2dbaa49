-- ===== src/Replies.antt =====
-- host/rp86/core.py (HID framing, reply validation), the payload test of host/rp86/calculator.py,
-- and the reply texts of host/rp86/constants.py.
use pi86_rp.Common.{
  ℕ, ◌+◌, ◌%◌, ◌^◌, String, Bool, true, false, not, ◌&&◌, ◌||◌, Option, none, some, [], ◌∷◌, ◌==◌,
  if◌then◌else◌, bytes_eq, elem, ascii, Bytes, length, take, drop, get_or, ◌>>=◌, ◌>>◌, guard,
  value_error, Result, ok, err,
}
use pi86_rp.Struct.{Format, size, from_le, pack, unsigned, text}
use pi86_rp.Protocol.{
  message_size, type_command, type_result, type_heartbeat, type_workload_begin, type_workload_data,
  type_workload_commit, type_workload_control, type_workload_status, type_workload_result,
  type_workload_timeout_request, type_workload_timeout_result, type_filesystem_request,
  type_filesystem_result, type_memory_request, type_memory_result, type_diagnostics_request,
  type_diagnostics_result, status_ok, processor_eq, witness_processor, decode_witness, decode,
  Processor, NativeServiceWitness, Message,
}
pub mod Hid
pub mod Sound
pub mod Complete

abbrev pub heartbeat_reply : Bytes
heartbeat_reply = ascii "PROCESSOR HEARTBEAT OK"

abbrev pub command_reply : Bytes
command_reply = ascii "PROCESSOR COMMAND OK"

abbrev pub calculator_magic : ℕ
calculator_magic = 0xCA1C

-- "<7H", and the "<H" that is read in front of it.
abbrev pub calculator_format : Format
calculator_format =
    unsigned 2 ∷ unsigned 2 ∷ unsigned 2 ∷ unsigned 2 ∷ unsigned 2 ∷ unsigned 2 ∷ unsigned 2 ∷ []

unfoldable pub is_calculator_payload : Bytes → Bool
unfolding from_le
is_calculator_payload payload =
    (length payload == size calculator_format) && (from_le (take 2 payload) == calculator_magic)

-- "<2sIQ"
abbrev pub heartbeat_format : Format
heartbeat_format = text 2 ∷ unsigned 4 ∷ unsigned 8 ∷ []

-- The nonce is the caller's, or 64 random bits.
unfoldable pub heartbeat_payload : ℕ → ℕ → Result Bytes
heartbeat_payload sequence nonce =
    pack heartbeat_format (ascii "HB", (sequence % 2 ^ 32, (nonce, tt)))

unfoldable pub hid_output_report : Bytes → Result Bytes
hid_output_report bytes = do
  guard (length bytes == message_size) (value_error "record must be exactly 64 bytes" [])
  ok (0 ∷ bytes)

-- `report[1:]` if the report has the zero report-ID byte.
strip_report_id : Bytes → Bytes
strip_report_id report =
    if (length report == message_size + 1) && (get_or report 0 1 == 0)
    then drop 1 report
    else report

unfoldable pub normalize_hid_input : Bytes → Result Bytes
unfolding strip_report_id
normalize_hid_input report = do
  let stripped = strip_report_id report
  guard (length stripped == message_size)
      (value_error "HID reply must contain exactly 64 ABI bytes" (length stripped ∷ []))
  ok stripped

-- `Message.decode(normalize_hid_input(record))`
unfoldable pub receive : Bytes → Result Message
receive report = do bytes ← normalize_hid_input report; decode bytes

-- `expected_processor is not None and witness.processor != expected_processor`
unfoldable pub processor_matches : Option Processor → Option Processor → Bool
processor_matches none found = true
processor_matches (some expected) none = false
processor_matches (some expected) (some found) = processor_eq found expected

unfoldable pub is_calculator_reply : Message → NativeServiceWitness → Bool
is_calculator_reply request witness =
    (request.message_type == type_command)
    && is_calculator_payload request.payload
    && bytes_eq (take 5 witness.witness_text) (ascii "CALC ")

unfoldable pub validate_witness :
    Message → Option Processor → NativeServiceWitness → Result (Unit {0})
validate_witness request expected_processor witness = do
  let expected_payload =
      if request.message_type == type_command then command_reply else heartbeat_reply
  guard (witness.service_type == request.message_type) (
      value_error "native witness service type mismatch"
        (witness.service_type ∷ request.message_type ∷ []))
  guard (bytes_eq witness.witness_text expected_payload || is_calculator_reply request witness)
      (value_error "unexpected native reply text" witness.witness_text)
  guard (processor_matches expected_processor (witness_processor witness))
      (value_error "native processor identity mismatch" [])
  ok tt

unfoldable pub validate_live_reply : Bytes → Message → Option Processor → Result Message
validate_live_reply report request expected_processor = do
  let expected_type = if request.message_type == type_command then type_result else type_heartbeat
  reply ← receive report
  guard (reply.message_type == expected_type)
      (value_error "unexpected native reply type" (reply.message_type ∷ []))
  guard (reply.sequence == request.sequence)
      (value_error "native reply sequence mismatch" (reply.sequence ∷ request.sequence ∷ []))
  guard (reply.status == status_ok)
      (value_error "V30 live reply status is not OK" (reply.status ∷ []))
  witness ← decode_witness reply.payload
  validate_witness request expected_processor witness
  ok reply

-- The branch of one service: the reply type and the sequence are tested, the status is not.
unfoldable pub validate_service_reply : Bytes → Message → ℕ → String → Result Message
validate_service_reply report request result_type name = do
  reply ← receive report
  guard (reply.message_type == result_type) (value_error name (reply.message_type ∷ []))
  guard (reply.sequence == request.sequence)
      (value_error name (reply.sequence ∷ request.sequence ∷ []))
  ok reply

unfoldable pub validate_workload_reply : Bytes → Message → Result Message
validate_workload_reply report request = do
  reply ← receive report
  guard (elem reply.message_type (type_workload_result ∷ type_workload_status ∷ []))
      (value_error "unexpected workload reply type" (reply.message_type ∷ []))
  guard (reply.sequence == request.sequence)
      (value_error "workload reply sequence mismatch" (reply.sequence ∷ request.sequence ∷ []))
  guard (reply.status == status_ok)
      (value_error "workload request status is not OK" (reply.status ∷ []))
  ok reply

unfoldable pub validate_device_reply : Bytes → Message → Option Processor → Result Message
validate_device_reply report request expected_processor =
    if elem request.message_type (type_command ∷ type_heartbeat ∷ [])
    then validate_live_reply report request expected_processor
    else if request.message_type == type_workload_timeout_request
    then validate_service_reply report request type_workload_timeout_result
        "workload timeout reply type/sequence mismatch"
    else if request.message_type == type_diagnostics_request
    then validate_service_reply report request type_diagnostics_result
        "diagnostics reply type/sequence mismatch"
    else if request.message_type == type_filesystem_request
    then validate_service_reply report request type_filesystem_result
        "filesystem reply type/sequence mismatch"
    else if request.message_type == type_memory_request
    then validate_service_reply report request type_memory_result
        "memory reply type/sequence mismatch"
    else if elem request.message_type (
        type_workload_begin ∷ type_workload_data ∷ type_workload_commit ∷ type_workload_control
        ∷ [])
    then validate_workload_reply report request
    else err (value_error "unsupported request type" (request.message_type ∷ []))
