-- ===== src/Memory.antt =====
-- host/rp86/memory.py: requests to processor-visible Internal SRAM and their replies, with the
-- address constants of host/rp86/processor_abi.py.
use pi86_rp.Common.{
  ℕ, zero, suc, ◌+◌, not, ◌&&◌, List, [], ◌∷◌, ◌++◌, ltb, leb, ◌==◌, if◌then◌else◌, bytes_eq, Bytes,
  length, take, drop, slice, ◌>>=◌, ◌>>◌, guard, value_error, Result, ok,
}
use pi86_rp.Struct.{Format, size, pack, unpack_from, unsigned, pad}
use pi86_rp.Protocol.{
  type_memory_request, type_memory_result, status_ok, status_bad_state, message, Message,
}
use pi86_rp.Sequence.{wrap_sequence}
pub mod Effect
pub mod Write
pub mod Read

abbrev pub memory_read : ℕ
memory_read = 1

abbrev pub memory_write : ℕ
memory_write = 2

abbrev pub memory_data_bytes : ℕ
memory_data_bytes = 40

abbrev pub internal_sram_processor_base : ℕ
internal_sram_processor_base = 0x00000

abbrev pub internal_sram_processor_size : ℕ
internal_sram_processor_size = 0x40000

abbrev pub memory_end : ℕ
memory_end = internal_sram_processor_base + internal_sram_processor_size

-- "<B3xII"
abbrev pub memory_header : Format
memory_header = unsigned 1 ∷ pad 3 ∷ unsigned 4 ∷ unsigned 4 ∷ []

-- The address test `_address`.
unfoldable pub check_address : ℕ → Result ℕ
check_address value = do
  guard (leb internal_sram_processor_base value && ltb value memory_end)
      (value_error "Internal SRAM address must be within 0x00000-0x3FFFF" [])
  ok value

unfoldable pub memory_read_request : ℕ → ℕ → ℕ → Result Message
unfolding check_address
memory_read_request address len sequence = do
  _ ← check_address address
  guard (leb 1 len && leb len memory_data_bytes && leb (address + len) memory_end)
      (value_error "memory read must contain 1-40 bytes" [])
  header ← pack memory_header (memory_read, (address, (len, tt)))
  ok (message type_memory_request sequence header)

-- The record of one chunk.
unfoldable pub write_record : ℕ → Bytes → ℕ → Result Message
write_record address chunk sequence = do
  header ← pack memory_header (memory_write, (address, (length chunk, tt)))
  ok (message type_memory_request sequence (header ++ chunk))

-- The loop from `offset` on. Each round takes a byte at least, so `length data` rounds are enough.
unfoldable pub write_loop : ℕ → ℕ → Bytes → ℕ → ℕ → Result (List Message)
unfolding wrap_sequence
write_loop zero address bytes offset sequence = ok []
write_loop (suc fuel) address bytes offset sequence =
    let chunk = slice offset (offset + memory_data_bytes) bytes in
    let rest =
      write_loop fuel address bytes (offset + length chunk) (wrap_sequence (sequence + 1)) in
    if ltb offset (length bytes)
    then (do
      first ← write_record (address + offset) chunk sequence
      others ← rest
      ok (first ∷ others))
    else ok []

unfoldable pub memory_write_records : ℕ → Bytes → ℕ → Result (List Message)
unfolding check_address
memory_write_records address bytes first_sequence = do
  _ ← check_address address
  guard (ltb 0 (length bytes) && leb (address + length bytes) memory_end)
      (value_error "memory write is empty or outside Internal SRAM" [])
  write_loop (length bytes) address bytes 0 first_sequence

unfoldable pub validate_memory_reply : Message → Message → Result Bytes
validate_memory_reply reply request = do
  guard (reply.message_type == type_memory_result)
      (value_error "unexpected memory reply type" (reply.message_type ∷ []))
  guard (reply.sequence == request.sequence)
      (value_error "memory reply sequence mismatch" (reply.sequence ∷ request.sequence ∷ []))
  guard
      (not (
        (reply.status == status_bad_state)
        && bytes_eq (take 1 request.payload) (memory_write ∷ [])))
      (value_error "memory write refused by active workload ownership policy" [])
  guard (reply.status == status_ok) (value_error "memory request failed" (reply.status ∷ []))
  guard (leb (size memory_header) (length reply.payload))
      (value_error "memory reply is truncated" [])
  guard
      (bytes_eq (take (size memory_header) reply.payload)
        (take (size memory_header) request.payload))
      (value_error "memory operation/address/length echo mismatch" [])
  ok (drop (size memory_header) reply.payload)

unfoldable pub parse_memory_read : Message → Message → Result Bytes
unfolding validate_memory_reply
parse_memory_read reply request = do
  bytes ← validate_memory_reply reply request
  (operation, (_, (len, _))) ← unpack_from memory_header reply.payload 0
  guard ((operation == memory_read) && (length bytes == len))
      (value_error "memory read reply length mismatch" [])
  ok bytes
