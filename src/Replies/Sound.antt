-- ===== src/Replies/Sound.antt =====
-- What a validated reply says about the request.
use pi86_rp.Common.{
  ℕ, ◌≡◌, ◌⊎◌, Bool, true, ◌&&◌, Option, List, [], ◌∷◌, arith, leb, ◌==◌, if◌then◌else◌, elem,
  Bytes, ok,
}
use pi86_rp.Protocol.{
  type_command, type_result, type_heartbeat, type_workload_begin, type_workload_control,
  type_workload_status, type_workload_result, type_workload_timeout_request,
  type_workload_timeout_result, type_filesystem_request, type_filesystem_result,
  type_memory_request, type_memory_result, type_diagnostics_request, type_diagnostics_result,
  status_ok, Processor, Message,
}
use pi86_rp.Replies.{
  receive, validate_live_reply, validate_service_reply, validate_workload_reply,
  validate_device_reply,
}

-- The reply types that answer a request type.
abbrev pub reply_types : ℕ → List ℕ
reply_types t =
    if t == type_command
    then type_result ∷ []
    else if t == type_heartbeat
    then type_heartbeat ∷ []
    else if t == type_workload_timeout_request
    then type_workload_timeout_result ∷ []
    else if t == type_diagnostics_request
    then type_diagnostics_result ∷ []
    else if t == type_filesystem_request
    then type_filesystem_result ∷ []
    else if t == type_memory_request
    then type_memory_result ∷ []
    else if (leb type_workload_begin t) && (leb t type_workload_control)
    then type_workload_result ∷ type_workload_status ∷ []
    else []

-- The services whose negative replies are handed to the caller.
abbrev pub passes_negative : ℕ → Bool
passes_negative t = elem t (
    type_workload_timeout_request ∷ type_diagnostics_request ∷ type_filesystem_request
    ∷ type_memory_request ∷ [])

-- A reply that is accepted is what the report holds, has a type that answers the request and the
-- sequence of the request, and it has status 0 unless the request is one of the four services
-- that hand negative replies on.
pub validate_device_reply_sound :
    (report : Bytes) (request : Message) (expected : Option Processor) (reply : Message)
    → validate_device_reply report request expected ≡ ok reply
    → (receive report ≡ ok reply)
      × (elem reply.message_type (reply_types request.message_type) ≡ true)
      × (reply.sequence ≡ request.sequence)
      × ((reply.status ≡ status_ok) ⊎ (passes_negative request.message_type ≡ true))
unfolding validate_device_reply validate_live_reply validate_service_reply validate_workload_reply
validate_device_reply_sound report request expected reply h = ground arith
