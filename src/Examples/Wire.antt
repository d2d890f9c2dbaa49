-- ===== src/Examples/Wire.antt =====
-- Records, replies and exchanges at concrete inputs.
use pi86_rp.Common.{
  ◌+◌, ℕ, ◌%◌, ◌^◌, ◌≡◌, refl, ◌⊎◌, inl, true, none, some, List, [], ◌∷◌, ◌++◌, arith, bytes_eq,
  elem, ascii, Bytes, length, drop, All, ok,
}
use pi86_rp.Struct.{le, from_le, fits, layout, fields, pack, unpack, unpack_from, unsigned}
use pi86_rp.Protocol.{
  type_heartbeat, type_filesystem_result, status_ok, processor_eq, native_processor_names,
  witness_processor, encode_witness, decode_witness, message, encode, decode, intel_8086,
  NativeServiceWitness, Message,
}
use pi86_rp.Protocol.Records.{cleared, encode-decode, IsWire}
use pi86_rp.Crc.{crc32}
use pi86_rp.Replies.{
  hid_output_report, normalize_hid_input, receive, processor_matches, is_calculator_reply,
  validate_witness, validate_live_reply, validate_service_reply, validate_device_reply,
}
use pi86_rp.Replies.Sound.{reply_types, passes_negative, validate_device_reply_sound}
use pi86_rp.Replies.Complete.{validate_device_reply_complete, validate_live_reply_witness}
use pi86_rp.Channel.{exchange_hid_request, Round, nothing, received}
use pi86_rp.Channel.Picked.{
  found_reply, exchange_hid_request-first_valid, Picked, exchange_hid_request_sound,
}
use pi86_rp.Filesystem.{
  encode_point, encode_utf8, check_path, filesystem_record, begin_format, write_records, first_byte,
  validate_filesystem_reply, parse_read, filesystem_read, ReadChunk,
}
use pi86_rp.Filesystem.Transfer.{IsRequest, IsCounted, gather, write_records-gather}
use pi86_rp.Examples.Data.{two_bytes, read_two, read_two_reply}

abbrev reply_bytes : Bytes
reply_bytes =
    1 ∷ 81 ∷ 0 ∷ 0 ∷ 1 ∷ 0 ∷ 0 ∷ 0 ∷ 14 ∷ 0 ∷ 0 ∷ 0 ∷ 1 ∷ 0 ∷ 0 ∷ 0 ∷ 5 ∷ 0 ∷ 0 ∷ 0 ∷ 2 ∷ 0 ∷ 0 ∷ 0
    ∷ 104 ∷ 105 ∷ 0 ∷ 0 ∷ 0 ∷ 0 ∷ 0 ∷ 0 ∷ 0 ∷ 0 ∷ 0 ∷ 0 ∷ 0 ∷ 0 ∷ 0 ∷ 0 ∷ 0 ∷ 0 ∷ 0 ∷ 0 ∷ 0 ∷ 0 ∷ 0
    ∷ 0 ∷ 0 ∷ 0 ∷ 0 ∷ 0 ∷ 0 ∷ 0 ∷ 0 ∷ 0 ∷ 0 ∷ 0 ∷ 0 ∷ 0 ∷ 0 ∷ 0 ∷ 0 ∷ 0 ∷ []

abbrev heartbeat_bytes : Bytes
heartbeat_bytes =
    1 ∷ 6 ∷ 0 ∷ 0 ∷ 4 ∷ 0 ∷ 0 ∷ 0 ∷ 42 ∷ 0 ∷ 0 ∷ 0 ∷ 80 ∷ 56 ∷ 54 ∷ 78 ∷ 1 ∷ 6 ∷ 1 ∷ 0 ∷ 7 ∷ 0 ∷ 0
    ∷ 0 ∷ 8 ∷ 0 ∷ 0 ∷ 0 ∷ 9 ∷ 0 ∷ 0 ∷ 0 ∷ 80 ∷ 82 ∷ 79 ∷ 67 ∷ 69 ∷ 83 ∷ 83 ∷ 79 ∷ 82 ∷ 32 ∷ 72 ∷ 69
    ∷ 65 ∷ 82 ∷ 84 ∷ 66 ∷ 69 ∷ 65 ∷ 84 ∷ 32 ∷ 79 ∷ 75 ∷ 0 ∷ 0 ∷ 0 ∷ 0 ∷ 0 ∷ 0 ∷ 0 ∷ 0 ∷ 0 ∷ 0 ∷ []

abbrev sample_witness : NativeServiceWitness
sample_witness = record {
  service_type = type_heartbeat;
  boot_id = 7;
  cpu_sequence = 8;
  command_sequence = 9;
  witness_text = ascii "PROCESSOR HEARTBEAT OK";
  flags = 1;
  version = 1;
}

abbrev witness_bytes : Bytes
witness_bytes =
    80 ∷ 56 ∷ 54 ∷ 78 ∷ 1 ∷ 6 ∷ 1 ∷ 0 ∷ 7 ∷ 0 ∷ 0 ∷ 0 ∷ 8 ∷ 0 ∷ 0 ∷ 0 ∷ 9 ∷ 0 ∷ 0 ∷ 0 ∷ 80 ∷ 82 ∷ 79
    ∷ 67 ∷ 69 ∷ 83 ∷ 83 ∷ 79 ∷ 82 ∷ 32 ∷ 72 ∷ 69 ∷ 65 ∷ 82 ∷ 84 ∷ 66 ∷ 69 ∷ 65 ∷ 84 ∷ 32 ∷ 79 ∷ 75
    ∷ []

encoded_witness : encode_witness sample_witness ≡ ok witness_bytes
unfolding encode_witness pack fits layout le
encoded_witness = refl

reply_bytes-decode : decode reply_bytes ≡ ok read_two_reply
unfolding decode unpack fields from_le
reply_bytes-decode = refl

received_reply : receive reply_bytes ≡ ok read_two_reply
unfolding receive normalize_hid_input decode unpack fields from_le
received_reply = refl

valid_reply : validate_device_reply reply_bytes read_two none ≡ ok read_two_reply
unfolding validate_device_reply validate_service_reply receive normalize_hid_input decode unpack
    fields from_le
valid_reply = refl

valid_heartbeat :
    validate_live_reply heartbeat_bytes (message type_heartbeat 4 []) (some intel_8086)
    ≡ ok (message type_heartbeat 4 witness_bytes)
unfolding validate_live_reply validate_witness processor_matches processor_eq witness_processor
    native_processor_names receive normalize_hid_input decode decode_witness unpack unpack_from
    fields from_le bytes_eq is_calculator_reply
valid_heartbeat = refl

framed : hid_output_report reply_bytes ≡ ok (0 ∷ reply_bytes)
unfolding hid_output_report
framed = refl

read_two-IsWire : IsWire read_two
read_two-IsWire = ground arith

abbrev full_report : ℕ
full_report = 65

abbrev began : ℕ
began = 0

abbrev at_reply : ℕ
at_reply = 3

abbrev at_deadline : ℕ
at_deadline = 9

abbrev two_rounds : List (Round ℕ)
two_rounds = nothing ∷ received reply_bytes at_reply ∷ []

exchanged :
    exchange_hid_request read_two none full_report began at_deadline two_rounds
    ≡ ok (found_reply read_two_reply at_reply)
exchanged =
    exchange_hid_request-first_valid read_two none at_deadline began (nothing ∷ []) [] reply_bytes
      at_reply read_two_reply read_two-IsWire (tt, tt) valid_reply

abbrev file_request : Message
file_request = filesystem_record filesystem_read 1 []

abbrev file_reply : Message
file_reply =
    message type_filesystem_result 1 (3 ∷ 1 ∷ 2 ∷ 0 ∷ 0 ∷ 0 ∷ 0 ∷ 0 ∷ 2 ∷ 0 ∷ 0 ∷ 0 ∷ two_bytes)

abbrev last_chunk : ReadChunk
last_chunk = record { offset = 0; total_size = 2; chunk = two_bytes; final = true }

parsed_chunk : parse_read file_reply file_request ≡ ok last_chunk
unfolding parse_read validate_filesystem_reply first_byte unpack_from fields from_le
parsed_chunk = refl

accepted_path : check_path (ascii "flash:/a") 36 ≡ ok (ascii "flash:/a")
unfolding check_path encode_utf8 encode_point bytes_eq
accepted_path = refl

encode-decode_example :
    encode read_two_reply ≡ ok (cleared (length read_two_reply.payload) reply_bytes)
encode-decode_example = encode-decode reply_bytes read_two_reply (omega arith) reply_bytes-decode

validate_device_reply_sound_example :
    (receive reply_bytes ≡ ok read_two_reply)
    × (elem read_two_reply.message_type (reply_types read_two.message_type) ≡ true)
    × (read_two_reply.sequence ≡ read_two.sequence)
    × ((read_two_reply.status ≡ status_ok) ⊎ (passes_negative read_two.message_type ≡ true))
validate_device_reply_sound_example =
    validate_device_reply_sound reply_bytes read_two none read_two_reply valid_reply

validate_device_reply_complete_example :
    validate_device_reply reply_bytes read_two none ≡ ok read_two_reply
validate_device_reply_complete_example =
    validate_device_reply_complete reply_bytes read_two none read_two_reply refl received_reply refl
      refl (inl refl)

validate_live_reply_witness_example :
    (w : NativeServiceWitness) × (decode_witness (message type_heartbeat 4 witness_bytes).payload
      ≡ ok w)
    × (w.service_type ≡ (message type_heartbeat 4 []).message_type)
    × (((some intel_8086) ≡ none) ⊎ (witness_processor w ≡ (some intel_8086)))
validate_live_reply_witness_example =
    validate_live_reply_witness heartbeat_bytes (message type_heartbeat 4 []) (some intel_8086)
      (message type_heartbeat 4 witness_bytes) valid_heartbeat

exchange_hid_request_sound_example :
    (full_report ≡ 65)
    × Picked read_two none at_deadline two_rounds
        (found_reply read_two_reply at_reply)
        read_two_reply
exchange_hid_request_sound_example =
    exchange_hid_request_sound read_two none at_deadline full_report began two_rounds
      (found_reply read_two_reply at_reply) read_two_reply exchanged refl

exchange_hid_request-first_valid_example :
    exchange_hid_request read_two none 65 began at_deadline
      ((nothing ∷ []) ++ received reply_bytes at_reply ∷ [])
    ≡ ok (found_reply read_two_reply at_reply)
exchange_hid_request-first_valid_example =
    exchange_hid_request-first_valid read_two none at_deadline began (nothing ∷ []) [] reply_bytes
      at_reply read_two_reply read_two-IsWire (tt, tt) valid_reply

write_records-gather_example :
    (begin commit : Message) × (chunks : List Message) × (write_records
        (ascii "flash:/a")
        two_bytes
        3
        0xFFFFFFFF
      ≡ ok ((begin ∷ chunks) ++ commit ∷ []))
    × IsRequest (4 ∷ 8 ∷ 0 ∷ 0 ∷ []) begin
    × (begin.sequence ≡ 0xFFFFFFFF)
    × (unpack_from begin_format (drop 4 begin.payload) 0
        ≡ ok (3, (length two_bytes, (crc32 two_bytes % 2 ^ 32, tt))))
    × (drop 16 begin.payload ≡ (ascii "flash:/a"))
    × All (IsRequest (5 ∷ 0 ∷ [])) chunks
    × IsCounted (0xFFFFFFFF + 1) chunks
    × (gather 3 [] chunks ≡ some two_bytes)
    × IsRequest (6 ∷ 0 ∷ 0 ∷ 0 ∷ []) commit
    × (commit.sequence ≡ (0xFFFFFFFF + 1 + length chunks) % 2 ^ 32)
    × (unpack (unsigned 4 ∷ []) (drop 4 commit.payload) ≡ ok (3, tt))
    × All IsWire ((begin ∷ chunks) ++ commit ∷ [])
write_records-gather_example =
    write_records-gather (ascii "flash:/a") (ascii "flash:/a") two_bytes 3 0xFFFFFFFF accepted_path
      (omega arith) (omega arith) (omega arith)
