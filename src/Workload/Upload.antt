-- ===== src/Workload/Upload.antt =====
-- The upload transaction of host/rp86/workload.py, and its control record.
use pi86_rp.Common.{
  ℕ, zero, suc, ◌+◌, not, Option, none, some, List, [], ◌∷◌, ◌++◌, ltb, leb, if◌then◌else◌, Bytes,
  length, drop, slice, ◌>>=◌, ◌>>◌, guard, value_error, Result, ok, err,
}
use pi86_rp.Struct.{size, pack, unpack_from}
use pi86_rp.Protocol.{
  type_workload_begin, type_workload_data, type_workload_commit, type_workload_control, message,
  Message,
}
use pi86_rp.Workload.{
  begin_prefix, data_prefix, commit_format, control_format, data_bytes, encode_manifest,
  encode_workload_file, WorkloadManifest,
}
pub mod Assemble

-- `image[offset:offset + DATA_BYTES]`
abbrev pub image_chunk : Bytes → ℕ → Bytes
image_chunk image offset = slice offset (offset + data_bytes) image

unfoldable pub data_record : ℕ → Bytes → ℕ → ℕ → Result Message
data_record transfer_id image offset sequence = do
  prefix ← pack data_prefix (transfer_id, (offset, tt))
  ok (message type_workload_data sequence (prefix ++ image_chunk image offset))

-- The data records from `offset` on, and the sequence behind them. A round moves on by 44 bytes,
-- so `length image` rounds are enough.
unfoldable pub data_loop : ℕ → ℕ → Bytes → ℕ → ℕ → Result (List Message × ℕ)
unfolding data_record
data_loop zero transfer_id image offset sequence = ok ([], sequence)
data_loop (suc fuel) transfer_id image offset sequence =
    let rest = data_loop fuel transfer_id image (offset + data_bytes) (sequence + 1) in
    if ltb offset (length image)
    then (do
      first ← data_record transfer_id image offset sequence
      (others, last) ← rest
      ok (first ∷ others, last))
    else ok ([], sequence)

unfoldable pub upload_records : WorkloadManifest → Bytes → ℕ → ℕ → Result (List Message)
upload_records manifest image transfer_id first_sequence = do
  _ ← encode_workload_file manifest image
  guard (leb transfer_id 0xFFFFFFFF) (value_error "transfer id is not a 32-bit value" [])
  prefix ← pack begin_prefix (transfer_id, tt)
  header ← encode_manifest manifest
  let begin = message type_workload_begin first_sequence (prefix ++ header)
  (chunks, sequence) ← data_loop (length image) transfer_id image 0 (first_sequence + 1)
  commit ← pack commit_format (transfer_id, (manifest.image_crc32, tt))
  ok ((begin ∷ chunks) ++ message type_workload_commit sequence commit ∷ [])

unfoldable pub decode_data_payload : Bytes → Result (ℕ × ℕ × Bytes)
decode_data_payload payload = do
  guard (leb (size data_prefix) (length payload))
      (value_error "workload data payload is truncated" [])
  (transfer_id, (offset, _)) ← unpack_from data_prefix payload 0
  ok (transfer_id, offset, drop (size data_prefix) payload)

-- The keys of `CONTROL_OPERATIONS`.
pub data ControlOperation : Type 0 where
  run stop restart status : ControlOperation

unfoldable pub control_operations : ControlOperation → ℕ
control_operations run = 1
control_operations stop = 2
control_operations restart = 3
control_operations status = 4

-- `none` is a name that `CONTROL_OPERATIONS` does not have.
unfoldable pub control_record : Option ControlOperation → ℕ → ℕ → Result Message
control_record none workload_id sequence = err (value_error "unknown workload operation" [])
control_record (some operation) workload_id sequence = do
  guard (leb workload_id 0xFFFFFFFF) (value_error "workload id is not a 32-bit value" [])
  payload ← pack control_format (control_operations operation, (workload_id, tt))
  ok (message type_workload_control sequence payload)
