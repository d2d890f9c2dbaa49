-- ===== src/Diagnostics.antt =====
-- host/rp86/diagnostics.py: the request for the stopped executor's snapshot and its validation.
-- `as_dict` and `format`, which present a snapshot, are not modelled.
use pi86_rp.Common.{
  ℕ, ◌-◌, bit_and, not, ◌&&◌, ◌||◌, List, [], ◌∷◌, leb, ◌==◌, if◌then◌else◌, elem, has_flag, length,
  ◌>>=◌, ◌>>◌, guard, Error, value_error, Result, ok,
}
use pi86_rp.Struct.{Format, size, fields, pack, unpack, unsigned}
use pi86_rp.Protocol.{
  type_diagnostics_request, type_diagnostics_result, status_ok, status_bad_state, message, Message,
}
use pi86_rp.Timeout.{thirteen_words, any_nonzero}
pub mod Snapshots

abbrev pub status_bad_workload : ℕ
status_bad_workload = 9

abbrev pub status_service_unavailable : ℕ
status_service_unavailable = 6

-- The keys of `COMPLETION_REASONS` and of `CYCLE_NAMES`.
abbrev pub completion_reasons : List ℕ
completion_reasons = 0 ∷ 1 ∷ 2 ∷ 3 ∷ 4 ∷ 5 ∷ 6 ∷ []

abbrev pub cycle_names : List ℕ
cycle_names = 0 ∷ 1 ∷ 2 ∷ 3 ∷ 4 ∷ 5 ∷ []

abbrev pub diagnostics_cycle_valid : ℕ
diagnostics_cycle_valid = 1

abbrev pub diagnostics_data_valid : ℕ
diagnostics_data_valid = 2

-- "<I"
abbrev pub workload_id_format : Format
workload_id_format = unsigned 4 ∷ []

unfoldable pub diagnostics_request : ℕ → ℕ → Result Message
diagnostics_request workload_id sequence = do
  payload ← pack workload_id_format (workload_id, tt)
  ok (message type_diagnostics_request sequence payload)

pub record BusDiagnostics : Type 0 where
  pub workload_id : ℕ
  pub boot_id : ℕ
  pub lifecycle : ℕ
  pub completion_reason : ℕ
  pub cycles : ℕ
  pub last_address : ℕ
  pub last_data : ℕ
  pub cycle_type : ℕ
  pub lanes : ℕ
  pub flags : ℕ

status_reason : ℕ → Error
status_reason status =
    if status == status_bad_state
    then value_error "processor is executing; stop before trace" []
    else if status == status_bad_workload
    then value_error "workload changed before diagnostics read" []
    else if status == status_service_unavailable
    then value_error "no stopped general-executor diagnostics available" []
    else value_error "diagnostics status" (status ∷ [])

-- The bus cycle, on both branches of the flag that claims one.
unfoldable pub check_cycle : BusDiagnostics → Result (Unit {0})
check_cycle snapshot =
    if has_flag snapshot.flags diagnostics_cycle_valid
    then guard
        (elem snapshot.cycle_type cycle_names
          && leb snapshot.last_address 0xFFFFF
          && leb snapshot.lanes 3)
        (value_error "invalid diagnostics bus cycle" [])
    else guard (not (has_flag snapshot.flags diagnostics_data_valid))
        (value_error "diagnostics data has no valid cycle" [])

-- The tests of a snapshot on its own.
unfoldable pub check_snapshot : BusDiagnostics → ℕ → Result (Unit {0})
check_snapshot snapshot expected_id = do
  guard
      (not (
        (snapshot.workload_id == 0)
        || (not (expected_id == 0) && not (snapshot.workload_id == expected_id))))
      (value_error "diagnostics workload mismatch" [])
  guard (elem snapshot.lifecycle (4 ∷ 5 ∷ 6 ∷ 7 ∷ []))
      (value_error "diagnostics did not describe a stopped executor" [])
  guard
      (elem snapshot.completion_reason completion_reasons
        && (snapshot.flags - bit_and snapshot.flags 0xFF == 0))
      (value_error "unknown diagnostics reason or flags" [])
  check_cycle snapshot
  guard (leb snapshot.last_data 0xFFFF) (value_error "invalid diagnostics bus data" [])

unfoldable pub diagnostics_from_reply : Message → Message → Result BusDiagnostics
unfolding status_reason
diagnostics_from_reply reply request = do
  guard ((reply.message_type == type_diagnostics_result) && (reply.sequence == request.sequence))
      (value_error "diagnostics reply type/sequence mismatch" [])
  guard (reply.status == status_ok) (status_reason reply.status)
  guard (length reply.payload == size thirteen_words)
      (value_error "diagnostics payload must be exactly 52 bytes" [])
  (
    workload_id,
    (
      boot_id,
      (
        lifecycle,
        (
          completion_reason,
          (
            cycles,
            (last_address, (last_data, (cycle_type, (lanes, (flags, (r10, (r11, (r12, _)))))))),
          ),
        ),
      ),
    ),
  ) ←
      unpack thirteen_words reply.payload
  guard (not (any_nonzero (r10 ∷ r11 ∷ r12 ∷ [])))
      (value_error "diagnostics reserved fields must be zero" [])
  let snapshot : BusDiagnostics = record {
    workload_id = workload_id;
    boot_id = boot_id;
    lifecycle = lifecycle;
    completion_reason = completion_reason;
    cycles = cycles;
    last_address = last_address;
    last_data = last_data;
    cycle_type = cycle_type;
    lanes = lanes;
    flags = flags;
  }
  (expected_id, _) ← unpack workload_id_format request.payload
  check_snapshot snapshot expected_id
  ok snapshot
