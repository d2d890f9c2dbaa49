-- ===== src/Examples/Status.antt =====
-- Snapshots, limits and status payloads at concrete inputs.
use pi86_rp.Common.{◌≡◌, refl, inl, inr, true, [], ◌∷◌, arith, ascii, Bytes, ok}
use pi86_rp.Struct.{le, from_le, fits, layout, fields, pack, unpack}
use pi86_rp.Protocol.{
  type_workload_timeout_request, type_workload_timeout_result, type_diagnostics_request,
  type_diagnostics_result, message, Message,
}
use pi86_rp.Timeout.{timeout_request_format, thirteen_words, timeout_from_reply, WorkloadTimeout}
use pi86_rp.Timeout.Replies.{status_fields, timeout_from_reply_complete, IsConsistent}
use pi86_rp.Diagnostics.{workload_id_format, diagnostics_from_reply, BusDiagnostics}
use pi86_rp.Diagnostics.Snapshots.{snapshot_fields, diagnostics_from_reply_complete, IsSnapshot}
use pi86_rp.Runtime.{status_format, WorkloadRuntimeState}
use pi86_rp.Runtime.Status.{state_fields}

abbrev snapshot : BusDiagnostics
snapshot = record {
  workload_id = 6;
  boot_id = 7;
  lifecycle = 4;
  completion_reason = 2;
  cycles = 100;
  last_address = 0x12345;
  last_data = 0x55AA;
  cycle_type = 2;
  lanes = 3;
  flags = 3;
}

abbrev snapshot_request : Message
snapshot_request = message type_diagnostics_request 1 (6 ∷ 0 ∷ 0 ∷ 0 ∷ [])

abbrev snapshot_reply : Message
snapshot_reply = message type_diagnostics_result 1 (
    6 ∷ 0 ∷ 0 ∷ 0 ∷ 7 ∷ 0 ∷ 0 ∷ 0 ∷ 4 ∷ 0 ∷ 0 ∷ 0 ∷ 2 ∷ 0 ∷ 0 ∷ 0 ∷ 100 ∷ 0 ∷ 0 ∷ 0 ∷ 69 ∷ 35 ∷ 1
    ∷ 0 ∷ 170 ∷ 85 ∷ 0 ∷ 0 ∷ 2 ∷ 0 ∷ 0 ∷ 0 ∷ 3 ∷ 0 ∷ 0 ∷ 0 ∷ 3 ∷ 0 ∷ 0 ∷ 0 ∷ 0 ∷ 0 ∷ 0 ∷ 0 ∷ 0 ∷ 0
    ∷ 0 ∷ 0 ∷ 0 ∷ 0 ∷ 0 ∷ 0 ∷ [])

snapshot_packed : pack thirteen_words (snapshot_fields snapshot) ≡ ok snapshot_reply.payload
unfolding pack fits layout le
snapshot_packed = refl

snapshot-IsSnapshot : IsSnapshot snapshot
snapshot-IsSnapshot = record {
  workload = omega arith;
  stopped = omega arith;
  reason = omega arith;
  known_flags = omega arith;
  cycle = ground arith;
  word = omega arith;
}

snapshot_named : unpack workload_id_format snapshot_request.payload ≡ ok (6, tt)
unfolding unpack fields from_le
snapshot_named = refl

snapshot_read : diagnostics_from_reply snapshot_reply snapshot_request ≡ ok snapshot
snapshot_read =
    diagnostics_from_reply_complete snapshot_reply snapshot_request snapshot 6 refl refl refl
      snapshot_packed snapshot-IsSnapshot snapshot_named (inr refl)

abbrev limit : WorkloadTimeout
limit = record { timeout_ms = 5000; remaining_ms = 0; workload_id = 0; boot_id = 7; armed = 0 }

abbrev limit_request : Message
limit_request = message type_workload_timeout_request 1 (1 ∷ 0 ∷ 0 ∷ 0 ∷ 136 ∷ 19 ∷ 0 ∷ 0 ∷ [])

abbrev limit_reply : Message
limit_reply = message type_workload_timeout_result 1 (
    136 ∷ 19 ∷ 0 ∷ 0 ∷ 0 ∷ 0 ∷ 0 ∷ 0 ∷ 0 ∷ 0 ∷ 0 ∷ 0 ∷ 7 ∷ 0 ∷ 0 ∷ 0 ∷ 0 ∷ 0 ∷ 0 ∷ 0 ∷ 0 ∷ 0 ∷ 0 ∷ 0
    ∷ 0 ∷ 0 ∷ 0 ∷ 0 ∷ 0 ∷ 0 ∷ 0 ∷ 0 ∷ 0 ∷ 0 ∷ 0 ∷ 0 ∷ 0 ∷ 0 ∷ 0 ∷ 0 ∷ 0 ∷ 0 ∷ 0 ∷ 0 ∷ 0 ∷ 0 ∷ 0 ∷ 0
    ∷ 0 ∷ 0 ∷ 0 ∷ 0 ∷ [])

limit_packed : pack thirteen_words (status_fields limit) ≡ ok limit_reply.payload
unfolding pack fits layout le
limit_packed = refl

limit-IsConsistent : IsConsistent limit
limit-IsConsistent = record {
  limit = omega arith;
  remaining = omega arith;
  state = inl (refl, refl);
}

limit_asked : unpack timeout_request_format limit_request.payload ≡ ok (1, (5000, tt))
unfolding unpack fields from_le
limit_asked = refl

limit_read : timeout_from_reply limit_reply limit_request ≡ ok limit
limit_read =
    timeout_from_reply_complete limit_reply limit_request limit (1, (5000, tt)) refl refl refl
      limit_packed limit-IsConsistent limit_asked (inr refl)

abbrev pub completed_state : WorkloadRuntimeState
completed_state = record {
  workload_id = 6;
  lifecycle = 5;
  detail = 0;
  clock_mode = 0;
  cycles = 100;
  processor_flags = 1;
  result_flags = 3;
  completion_reason = 2;
  processor_signature = 1;
  native_output = ascii "ok";
  structured_result = true;
}

abbrev pub status_bytes : Bytes
status_bytes =
    6 ∷ 0 ∷ 0 ∷ 0 ∷ 5 ∷ 0 ∷ 0 ∷ 0 ∷ 0 ∷ 0 ∷ 0 ∷ 0 ∷ 0 ∷ 0 ∷ 0 ∷ 0 ∷ 100 ∷ 0 ∷ 0 ∷ 0 ∷ 1 ∷ 0 ∷ 0 ∷ 0
    ∷ 3 ∷ 0 ∷ 0 ∷ 0 ∷ 2 ∷ 0 ∷ 0 ∷ 0 ∷ 1 ∷ 0 ∷ 2 ∷ 0 ∷ 111 ∷ 107 ∷ 0 ∷ 0 ∷ 0 ∷ 0 ∷ 0 ∷ 0 ∷ 0 ∷ 0 ∷ 0
    ∷ 0 ∷ 0 ∷ 0 ∷ 0 ∷ 0 ∷ []

status_packed : pack status_format (state_fields completed_state) ≡ ok status_bytes
unfolding pack fits layout le
status_packed = refl
