-- ===== src/Examples/Services.antt =====
-- The memory services over a device at concrete inputs.
use pi86_rp.Services.{
  after_request, send, memory_request, read_chunk, read_loop, read_memory, write_memory,
  ServiceClient, answered,
}
use pi86_rp.Services.Memory.{read_memory-peek}
use pi86_rp.Services.Writes.{write_memory-poke}
use pi86_rp.Client.{or_text}
use pi86_rp.Common.{◌≡◌, refl, arith, bytes_eq, ok}
use pi86_rp.Struct.{le, from_le, fits, layout, fields, pack, unpack_from}
use pi86_rp.Sequence.{wrap_sequence, advance_after, IsSequence}
use pi86_rp.Memory.{check_address, memory_read_request, validate_memory_reply, parse_memory_read}
use pi86_rp.Memory.Effect.{Space, poke, peek}
use pi86_rp.Examples.Data.{two_bytes, device, same_space, device_reads, device_writes, fresh_client}

read_two_answered : read_memory device same_space 5 2 fresh_client ≡ (
  ok (answered two_bytes),
  record { world = fresh_client.world; sequence = record { value = 2 } },
)
unfolding read_memory read_loop read_chunk memory_request send after_request advance_after
    wrap_sequence or_text memory_read_request check_address parse_memory_read validate_memory_reply
    pack fits layout le unpack_from fields from_le bytes_eq device peek poke
read_two_answered = refl

read_memory-peek_example :
    (after : ServiceClient Space) × (read_memory device same_space 5 2 fresh_client
      ≡ (ok (answered (peek (same_space fresh_client.world) 5 2)), after))
    × (same_space after.world ≡ same_space fresh_client.world)
    × IsSequence after.sequence.value
read_memory-peek_example =
    read_memory-peek device same_space same_space device_reads fresh_client 5 2
      (omega arith, omega arith) (omega arith)

write_memory-poke_example :
    (after : ServiceClient Space) × (write_memory device same_space 5 two_bytes fresh_client
      ≡ (ok (answered tt), after))
    × (same_space after.world ≡ poke (same_space fresh_client.world) 5 two_bytes)
write_memory-poke_example =
    write_memory-poke device same_space same_space device_writes fresh_client 5 two_bytes
      (omega arith, omega arith) (omega arith) (omega arith)
