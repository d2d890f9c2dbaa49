-- ===== src/Filesystem.antt =====
-- host/rp86/filesystem.py: requests to the RP-FLASH filesystem and their replies. A path is the
-- list of its code points; names in replies are the bytes before they are decoded.
use pi86_rp.Common.{
  ℕ, zero, suc, ◌+◌, ◌-◌, ◌/◌, ◌%◌, ◌^◌, not, ◌&&◌, ◌||◌, List, [], ◌∷◌, ◌++◌, ltb, leb, ◌==◌,
  if◌then◌else◌, bytes_eq, has_flag, ascii, Bytes, length, take, get_or, slice, ◌>>=◌, ◌>>◌, guard,
  Error, value_error, index_error, Result, ok, err,
}
use pi86_rp.Struct.{Format, size, pack, unpack_from, unsigned}
use pi86_rp.Protocol.{
  type_filesystem_request, type_filesystem_result, status_ok, status_bad_state, message, Message,
}
use pi86_rp.Crc.{crc32}
mod Constants
pub use Constants.*
pub mod Replies
pub mod Transfer

-- `STATUS_NAMES.get(status, ...)`
unfoldable pub status_name : ℕ → Error
status_name status =
    if status == status_bad_length
    then value_error "bad request length" []
    else if status == status_service_unavailable
    then value_error "RP-FLASH service unavailable" []
    else if status == status_bad_crc
    then value_error "upload CRC mismatch" []
    else if status == status_bad_state
    then value_error "filesystem transfer state mismatch" []
    else if status == status_io_error
    then value_error "RP-FLASH I/O error" []
    else if status == status_not_found
    then value_error "path not found" []
    else if status == status_invalid_path
    then value_error "invalid flash: path" []
    else if status == status_no_space
    then value_error "no space or target denied" []
    else value_error "filesystem request failed with status" (status ∷ [])

-- `str.encode("utf-8")`, which raises a `ValueError` on a surrogate.
unfoldable pub encode_point : ℕ → Result Bytes
encode_point c =
    if ltb c 0x80
    then ok (c ∷ [])
    else if ltb c 0x800
    then ok ((0xC0 + c / 64) ∷ (0x80 + c % 64) ∷ [])
    else if leb 0xD800 c && ltb c 0xE000
    then err (value_error "surrogates not allowed" [])
    else if ltb c 0x10000
    then ok ((0xE0 + c / 4096) ∷ (0x80 + c / 64 % 64) ∷ (0x80 + c % 64) ∷ [])
    else ok
        ((0xF0 + c / 262144) ∷ (0x80 + c / 4096 % 64) ∷ (0x80 + c / 64 % 64) ∷ (0x80 + c % 64) ∷ [])

unfoldable pub encode_utf8 : List ℕ → Result Bytes
unfolding encode_point
encode_utf8 [] = ok []
encode_utf8 (c ∷ cs) = do first ← encode_point c; rest ← encode_utf8 cs; ok (first ++ rest)

-- The path test `_path`.
unfoldable pub check_path : List ℕ → ℕ → Result Bytes
unfolding encode_utf8
check_path path maximum = do
  encoded ← encode_utf8 path
  guard
      (bytes_eq (take 6 path) (ascii "flash:")
        && (leb (length path) 6 || bytes_eq (slice 6 7 path) (ascii "/")))
      (value_error "path must use flash: or flash:/..." [])
  guard (ltb 0 (length encoded) && leb (length encoded) maximum)
      (value_error "flash: path exceeds the UTF-8 bytes" (maximum ∷ []))
  ok encoded

abbrev pub filesystem_record : ℕ → ℕ → Bytes → Message
filesystem_record operation sequence payload =
    message type_filesystem_request sequence (operation ∷ payload)

unfoldable pub list_request : List ℕ → ℕ → ℕ → Result Message
unfolding check_path
list_request path cursor sequence = do
  encoded ← check_path path 48
  packed ← pack (unsigned 2 ∷ []) (cursor, tt)
  ok (filesystem_record filesystem_list sequence (length encoded ∷ packed ++ encoded))

unfoldable pub df_request : List ℕ → ℕ → Result Message
unfolding check_path
df_request path sequence = do
  encoded ← check_path path 50
  ok (filesystem_record filesystem_df sequence (length encoded ∷ encoded))

unfoldable pub read_request : List ℕ → ℕ → ℕ → Result Message
unfolding check_path
read_request path offset sequence = do
  encoded ← check_path path filesystem_read_path_bytes
  packed ← pack (unsigned 4 ∷ []) (offset, tt)
  ok (filesystem_record filesystem_read sequence ((length encoded ∷ 0 ∷ 0 ∷ packed) ++ encoded))

-- "<III" of a begin record and "<HII" of a data record.
abbrev pub begin_format : Format
begin_format = unsigned 4 ∷ unsigned 4 ∷ unsigned 4 ∷ []

abbrev pub chunk_format : Format
chunk_format = unsigned 2 ∷ unsigned 4 ∷ unsigned 4 ∷ []

-- `(sequence + 1) & 0xFFFFFFFF`
abbrev pub next_sequence : ℕ → ℕ
next_sequence sequence = (sequence + 1) % 2 ^ 32

unfoldable pub chunk_record : ℕ → Bytes → ℕ → ℕ → Result Message
chunk_record transfer_id piece offset sequence = do
  packed ← pack chunk_format (length piece, (transfer_id, (offset, tt)))
  ok (filesystem_record filesystem_write_data sequence ((0 ∷ packed) ++ piece))

-- The data records from `offset` on, and the number of the last one. Each round takes a byte at
-- least, so `length bytes` rounds are enough.
unfoldable pub chunk_loop : ℕ → ℕ → Bytes → ℕ → ℕ → Result (List Message × ℕ)
unfolding chunk_record
chunk_loop zero transfer_id bytes offset sequence = ok ([], sequence)
chunk_loop (suc fuel) transfer_id bytes offset sequence =
    let piece = slice offset (offset + filesystem_write_data_bytes) bytes in
    let rest = chunk_loop fuel transfer_id bytes (offset + length piece) (next_sequence sequence) in
    if ltb offset (length bytes)
    then (do
      first ← chunk_record transfer_id piece offset (next_sequence sequence)
      (others, last) ← rest
      ok (first ∷ others, last))
    else ok ([], sequence)

unfoldable pub write_records : List ℕ → Bytes → ℕ → ℕ → Result (List Message)
unfolding check_path chunk_loop
write_records path bytes transfer_id first_sequence = do
  encoded ← check_path path filesystem_write_path_bytes
  packed ← pack begin_format (transfer_id, (length bytes, (crc32 bytes % 2 ^ 32, tt)))
  let begin =
      filesystem_record filesystem_write_begin first_sequence
        ((length encoded ∷ 0 ∷ 0 ∷ packed) ++ encoded)
  (chunks, last) ← chunk_loop (length bytes) transfer_id bytes 0 first_sequence
  commit ← pack (unsigned 4 ∷ []) (transfer_id, tt)
  ok (
      (begin ∷ chunks)
      ++ filesystem_record filesystem_write_commit (next_sequence last) (0 ∷ 0 ∷ 0 ∷ commit) ∷ [])

-- `payload[0]`
unfoldable pub first_byte : Bytes → Result ℕ
first_byte [] = err index_error
first_byte (b ∷ bs) = ok b

unfoldable pub validate_filesystem_reply : Message → Message → Result Bytes
unfolding status_name first_byte
validate_filesystem_reply reply request = do
  guard (reply.message_type == type_filesystem_result)
      (value_error "unexpected filesystem reply type" (reply.message_type ∷ []))
  guard (reply.sequence == request.sequence)
      (value_error "filesystem reply sequence mismatch" (reply.sequence ∷ request.sequence ∷ []))
  guard (reply.status == status_ok) (status_name reply.status)
  guard (ltb 0 (length reply.payload)) (value_error "filesystem operation echo mismatch" [])
  operation ← first_byte request.payload
  guard (get_or reply.payload 0 0 == operation)
      (value_error "filesystem operation echo mismatch" [])
  ok reply.payload

unfoldable pub parse_list : Message → Message → Result ListEntry
unfolding validate_filesystem_reply
parse_list reply request = do
  payload ← validate_filesystem_reply reply request
  guard (leb 10 (length payload)) (value_error "filesystem list reply is truncated" [])
  let flags = get_or payload 1 0
  let name_length = get_or payload 3 0
  guard (leb name_length (length payload - 10)) (value_error "filesystem list name is truncated" [])
  (size, _) ← unpack_from (unsigned 4 ∷ []) payload 6
  (cursor, _) ← unpack_from (unsigned 2 ∷ []) payload 4
  ok (record {
    name = slice 10 (10 + name_length) payload;
    entry_size = size;
    directory = has_flag flags filesystem_flag_directory;
    next_cursor = cursor;
    eof = has_flag flags filesystem_flag_eof;
  })

abbrev pub df_format : Format
df_format = unsigned 4 ∷ unsigned 4 ∷ unsigned 4 ∷ unsigned 4 ∷ []

unfoldable pub parse_df : Message → Message → Result DiskFree
unfolding validate_filesystem_reply
parse_df reply request = do
  payload ← validate_filesystem_reply reply request
  guard (leb 20 (length payload)) (value_error "filesystem df reply is truncated" [])
  let label_length = get_or payload 2 0
  guard (leb label_length (length payload - 20)) (value_error "filesystem label is truncated" [])
  (total, (free, (cluster, (erase, _)))) ← unpack_from df_format payload 4
  ok (record {
    label = slice 20 (20 + label_length) payload;
    filesystem_type = get_or payload 1 0;
    total_kib = total;
    free_kib = free;
    cluster_bytes = cluster;
    erase_bytes = erase;
  })

unfoldable pub parse_read : Message → Message → Result ReadChunk
unfolding validate_filesystem_reply
parse_read reply request = do
  payload ← validate_filesystem_reply reply request
  guard (leb 12 (length payload)) (value_error "filesystem read reply is truncated" [])
  (data_length, _) ← unpack_from (unsigned 2 ∷ []) payload 2
  guard (leb data_length (length payload - 12)) (value_error "filesystem read data is truncated" [])
  (offset, (total, _)) ← unpack_from (unsigned 4 ∷ unsigned 4 ∷ []) payload 4
  ok (record {
    offset = offset;
    total_size = total;
    chunk = slice 12 (12 + data_length) payload;
    final = has_flag (get_or payload 1 0) filesystem_flag_eof;
  })
