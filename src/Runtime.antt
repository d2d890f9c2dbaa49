-- ===== src/Runtime.antt =====
-- host/rp86/runtime_state.py and the status payload of host/rp86/workload.py: the Host's view of
-- the workload and of the processor. A name that the source looks up in a table is a `Label`.
use pi86_rp.Common.{
  ℕ, zero, suc, bit_or, String, Bool, true, false, not, ◌&&◌, Option, none, some, List, [], ◌∷◌,
  leb, ◌==◌, if◌then◌else◌, bytes_eq, elem, has_flag, ascii, Bytes, length, take, ◌>>=◌, ◌>>◌,
  guard, value_error, Result, ok,
}
use pi86_rp.Struct.{Format, size, unpack, unsigned, text}
use pi86_rp.Protocol.{witness_processor, Processor, intel_8086, nec_v30, NativeServiceWitness}
pub mod Status
pub mod Views

-- "<IIIIIIIIHH16s"
abbrev pub status_format : Format
status_format =
    unsigned 4
    ∷ unsigned 4
    ∷ unsigned 4
    ∷ unsigned 4
    ∷ unsigned 4
    ∷ unsigned 4
    ∷ unsigned 4
    ∷ unsigned 4
    ∷ unsigned 2
    ∷ unsigned 2
    ∷ text 16
    ∷ []

abbrev pub processor_flag_idle : ℕ
processor_flag_idle = 1

abbrev pub processor_flag_prepared_runtime_initialized : ℕ
processor_flag_prepared_runtime_initialized = 2

abbrev pub result_flag_pass : ℕ
result_flag_pass = 1

abbrev pub result_flag_processor_identified : ℕ
result_flag_processor_identified = 8

abbrev pub processor_signature_intel_8086 : ℕ
processor_signature_intel_8086 = 0x0012

abbrev pub processor_signature_nec_v30 : ℕ
processor_signature_nec_v30 = 0x000C

-- A table entry, or `UNKNOWN(n)`.
pub data Label : Type 0 where
  named : String → Label
  unknown : ℕ → Label

unfoldable pub label_at : List String → ℕ → ℕ → Label
label_at [] i n = unknown n
label_at (s ∷ table) zero n = named s
label_at (s ∷ table) (suc i) n = label_at table i n

unfoldable pub workload_state_name : ℕ → Label
unfolding label_at
workload_state_name state =
    label_at
      ("EMPTY" ∷ "RECEIVING" ∷ "STAGED" ∷ "RUNNING" ∷ "STOPPED" ∷ "COMPLETED" ∷ "FAULTED"
        ∷ "TIMED_OUT" ∷ [])
      state state

unfoldable pub completion_reason_name : ℕ → Label
unfolding label_at
completion_reason_name reason =
    label_at
      ("NONE" ∷ "STOP_REQUESTED" ∷ "NATIVE_HLT" ∷ "NO_BUS_CYCLE" ∷ "BUS_FAULT" ∷ "START_FAILURE"
        ∷ "EXECUTION_DEADLINE" ∷ [])
      reason reason

pub data ExecutionState : Type 0 where
  idle_hlt stopped_reset active : ExecutionState

unfoldable pub processor_execution_state : ℕ → ℕ → ExecutionState
processor_execution_state clock_mode processor_flags =
    if has_flag processor_flags processor_flag_idle
    then idle_hlt
    else if clock_mode == 3
    then stopped_reset
    else active

unfoldable pub workload_upload_requires_stop : ℕ → Bool
workload_upload_requires_stop workload_state = elem workload_state (3 ∷ 5 ∷ [])

unfoldable pub prepared_runtime_is_available : ℕ → ℕ → ℕ → Bool
prepared_runtime_is_available clock_mode workload_state processor_flags =
    (workload_state == 0)
    && has_flag processor_flags processor_flag_prepared_runtime_initialized
    && elem clock_mode (0 ∷ 1 ∷ [])

pub record WorkloadRuntimeState : Type 0 where
  pub workload_id : ℕ
  pub lifecycle : ℕ
  pub detail : ℕ
  pub clock_mode : ℕ
  pub cycles : ℕ
  pub processor_flags : ℕ
  pub result_flags : ℕ
  pub completion_reason : ℕ
  pub processor_signature : ℕ
  pub native_output : Bytes
  pub structured_result : Bool

abbrev pub initial_state : WorkloadRuntimeState
initial_state = record {
  workload_id = 0;
  lifecycle = 0;
  detail = 0;
  clock_mode = 0;
  cycles = 0;
  processor_flags = 0;
  result_flags = 0;
  completion_reason = 0;
  processor_signature = 0;
  native_output = [];
  structured_result = false;
}

-- `decode_structured_status_payload`, with the record that `from_payload` builds of its tuple.
unfoldable pub from_payload : Bytes → Result WorkloadRuntimeState
from_payload payload = do
  guard (length payload == size status_format)
      (value_error "workload status payload must be exactly 52 bytes" [])
  (
    workload_id,
    (
      lifecycle,
      (
        detail,
        (
          clock_mode,
          (
            cycles,
            (
              processor_flags,
              (result_flags, (completion_reason, (signature, (output_length, (output, _))))),
            ),
          ),
        ),
      ),
    ),
  ) ←
      unpack status_format payload
  guard (leb output_length (length output))
      (value_error "structured workload output length is invalid" [])
  ok (record {
    workload_id = workload_id;
    lifecycle = lifecycle;
    detail = detail;
    clock_mode = clock_mode;
    cycles = cycles;
    processor_flags = processor_flags;
    result_flags = result_flags;
    completion_reason = completion_reason;
    processor_signature = signature;
    native_output = take output_length output;
    structured_result = true;
  })

-- The new state; on an exception the old one stays.
unfoldable pub update_from_payload : WorkloadRuntimeState → Bytes → Result WorkloadRuntimeState
unfolding from_payload
update_from_payload s payload = do
  updated ← from_payload payload
  ok (record s {
    workload_id = updated.workload_id;
    lifecycle = updated.lifecycle;
    detail = updated.detail;
    clock_mode = updated.clock_mode;
    cycles = updated.cycles;
    processor_flags = updated.processor_flags;
    result_flags = updated.result_flags;
    completion_reason = updated.completion_reason;
    processor_signature = updated.processor_signature;
    native_output = updated.native_output;
    structured_result = updated.structured_result;
  })

unfoldable pub completed : WorkloadRuntimeState → Bool
completed s = s.lifecycle == 5

unfoldable pub passed : WorkloadRuntimeState → Bool
passed s = has_flag s.result_flags result_flag_pass

unfoldable pub processor_identified : WorkloadRuntimeState → Bool
processor_identified s =
    has_flag s.result_flags result_flag_processor_identified
    && elem s.processor_signature
        (processor_signature_intel_8086 ∷ processor_signature_nec_v30 ∷ [])

unfoldable pub retained_processor : WorkloadRuntimeState → Option Processor
unfolding processor_identified
retained_processor s =
    if processor_identified s
    then if s.processor_signature == processor_signature_intel_8086
      then some intel_8086
      else some nec_v30
    else none

unfoldable pub physical_regression_passed : WorkloadRuntimeState → Bool
unfolding completed passed processor_identified
physical_regression_passed s =
    completed s
    && passed s
    && processor_identified s
    && (s.completion_reason == 2)
    && bytes_eq s.native_output (ascii "RESULT: PASS")

unfoldable pub mark_idle : WorkloadRuntimeState → WorkloadRuntimeState
mark_idle s = record s { processor_flags = bit_or s.processor_flags processor_flag_idle }

unfoldable pub mark_prepared_runtime_initialized : WorkloadRuntimeState → WorkloadRuntimeState
mark_prepared_runtime_initialized s = record s {
  processor_flags = bit_or s.processor_flags processor_flag_prepared_runtime_initialized;
}

-- The latest evidence of the native processor.
pub record ProcessorObservationState : Type 0 where
  pub boot_id : Option ℕ
  pub cpu_sequence : Option ℕ
  pub command_sequence : Option ℕ
  pub processor : Option Processor
  pub connected : Bool

unfoldable pub accept_witness :
    ProcessorObservationState → NativeServiceWitness → ProcessorObservationState
accept_witness s w = record {
  boot_id = some w.boot_id;
  cpu_sequence = some w.cpu_sequence;
  command_sequence = some w.command_sequence;
  processor = witness_processor w;
  connected = true;
}

unfoldable pub mark_disconnected : ProcessorObservationState → ProcessorObservationState
mark_disconnected s = record s { connected = false }

-- `regression_failure_reasons` of host/rp86/session_evidence.py.
abbrev pub rejected : List (Bool × String) → List String
rejected [] = []
rejected ((accepted, reason) ∷ checks) =
    if accepted then rejected checks else reason ∷ rejected checks

unfoldable pub regression_failure_reasons : WorkloadRuntimeState → List String
unfolding completed passed processor_identified
regression_failure_reasons s = rejected (
    (completed s, "workload did not complete")
    ∷ (passed s, "native PASS flag absent")
    ∷ (processor_identified s, "validated processor identity unavailable")
    ∷ (s.completion_reason == 2, "completion reason is not NATIVE_HLT")
    ∷ (bytes_eq s.native_output (ascii "RESULT: PASS"), "native output is not exact RESULT: PASS")
    ∷ [])
