-- ===== src/Examples/Memory.antt =====
-- Memory records and the mailbox at concrete inputs.
use pi86_rp.Common.{◌+◌, ◌≡◌, refl, List, [], ◌∷◌, ◌++◌, arith, bytes_eq, length, take, All, ok}
use pi86_rp.Struct.{le, from_le, fits, layout, fields, pack, unpack_from}
use pi86_rp.Protocol.{Message}
use pi86_rp.Protocol.Records.{IsWire}
use pi86_rp.Memory.{
  check_address, memory_read_request, memory_write_records, validate_memory_reply,
  parse_memory_read,
}
use pi86_rp.Memory.Effect.{poke, peek, apply_records}
use pi86_rp.Memory.Write.{memory_write_records_writes}
use pi86_rp.Mailbox.{mailbox_base, mailbox_data_offset, decode_header, mailbox_commit_records}
use pi86_rp.Mailbox.Owner.{
  published, mailbox_commit_records_publish, HostOwns, mailbox_commit_records_owner,
}
use pi86_rp.Examples.Data.{
  two_bytes, blank, host_owned, host_owned-HostOwns, read_two, read_two_reply,
}

read_two_ok : memory_read_request 5 2 1 ≡ ok read_two
unfolding memory_read_request check_address pack fits layout le
read_two_ok = refl

read_two_parsed : parse_memory_read read_two_reply read_two ≡ ok two_bytes
unfolding parse_memory_read validate_memory_reply bytes_eq unpack_from fields from_le
read_two_parsed = refl

mailbox_commit_records_publish_example :
    (ms : List Message) × (mailbox_commit_records two_bytes 7 1 ≡ ok ms)
    × All IsWire ms
    × (decode_header (peek (apply_records blank ms) mailbox_base 32)
        ≡ ok (published 7 (length two_bytes)))
    × (peek (apply_records blank ms) (mailbox_base + mailbox_data_offset) (length two_bytes)
        ≡ two_bytes)
mailbox_commit_records_publish_example =
    mailbox_commit_records_publish two_bytes 7 1 blank (omega arith) (omega arith) (omega arith)
      (omega arith, omega arith)

mailbox_commit_records_owner_example :
    (ms : List Message) × (publish : Message) × (mailbox_commit_records two_bytes 7 1
      ≡ ok (ms ++ publish ∷ []))
    × HostOwns (apply_records host_owned (take 2 ms))
mailbox_commit_records_owner_example =
    mailbox_commit_records_owner two_bytes 7 1 2 host_owned (omega arith) (omega arith)
      (omega arith) (omega arith, omega arith) host_owned-HostOwns

memory_write_records_writes_example :
    (ms : List Message) × (memory_write_records 5 two_bytes 1 ≡ ok ms)
    × All IsWire ms
    × (apply_records blank ms ≡ poke blank 5 two_bytes)
memory_write_records_writes_example =
    memory_write_records_writes 5 two_bytes 1 blank (omega arith) (omega arith)
      (omega arith, omega arith)
