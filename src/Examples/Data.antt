-- ===== src/Examples/Data.antt =====
-- Test data: a message, a memory and a device.
use mathlib.Core.Path.{subst}
use pi86_rp.Common.{
  ℕ, ◌+◌, String, ◌≡◌, refl, Option, none, some, [], ◌∷◌, ◌++◌, append-nil, ◌==◌, if◌then◌else◌,
  Bytes, length, >>=-eq-ok, ok_injective, Result, ok, err,
}
use pi86_rp.Struct.{Fields, layout, pack, unpack_from}
use pi86_rp.Struct.RoundTrip.{unpack_from-pack}
use pi86_rp.Protocol.{type_memory_request, type_memory_result, message, Message}
use pi86_rp.Memory.{memory_read, memory_write, memory_header, write_record}
use pi86_rp.Memory.Effect.{Space, poke, peek, apply_record}
use pi86_rp.Memory.Read.{read_fields, memory_read_request-eq-ok}
use pi86_rp.Mailbox.{mailbox_base, owner_host}
use pi86_rp.Mailbox.Publish.{owner_bytes}
use pi86_rp.Mailbox.Owner.{HostOwns}
use pi86_rp.Client.{Exchange}
use pi86_rp.Services.{ServiceClient}
use pi86_rp.Services.Memory.{memory_reply, ServesReads}
use pi86_rp.Services.Writes.{GrantsWrites}

abbrev pub two_bytes : Bytes
two_bytes = 0x68 ∷ 0x69 ∷ []

abbrev pub blank : Space
blank x = 0

abbrev pub host_owned : Space
host_owned = poke blank (mailbox_base + 8) (owner_bytes owner_host)

pub host_owned-HostOwns : HostOwns host_owned
unfolding poke peek layout
host_owned-HostOwns = refl

-- A device that serves every request, in one unit of time.
abbrev served : {W : Type 0} → Message → W → Result (Option Message × ℕ × Option String) × W
served reply world = (ok (some reply, 1, none), world)

respond :
    Message
    → Space
    → Result (Fields memory_header)
    → Result (Option Message × ℕ × Option String) × Space
respond request s (ok (operation, (address, (len, _)))) =
    if operation == memory_read
    then served (memory_reply request (peek s address len)) s
    else served (memory_reply request []) (apply_record s request)
respond request s (err e) = (ok (none, 1, some "bad request"), s)

unfoldable pub device : Exchange Space ℕ
unfolding respond
device request s = respond request s (unpack_from memory_header request.payload 0)

abbrev pub same_space : Space → Space
same_space s = s

pub device_reads : ServesReads device same_space same_space
unfolding device
device_reads = record {
  activity = λ w. refl;
  reads = λ w address len sequence request h.
      let (_, e) = memory_read_request-eq-ok address len sequence request h in
      let u : unpack_from memory_header request.payload 0 ≡ ok (read_fields address len) =
        subst (λ (p : Bytes). unpack_from memory_header p 0 ≡ ok (read_fields address len))
          (append-nil request.payload)
          (unpack_from-pack memory_header (read_fields address len) [] e tt) in
      (1, w, rw u refl, refl);
}

write_record-payload :
    (address : ℕ) (chunk : Bytes) (sequence : ℕ) (request : Message)
    → write_record address chunk sequence ≡ ok request
    → unpack_from memory_header request.payload 0 ≡ ok (memory_write, (address, (length chunk, tt)))
unfolding write_record
write_record-payload address chunk sequence request h =
    let v : Fields memory_header = (memory_write, (address, (length chunk, tt))) in
    let (header, e, h1) = >>=-eq-ok (pack memory_header v) _ h in
    subst (λ (m : Message). unpack_from memory_header m.payload 0 ≡ ok v) (ok_injective h1)
      (unpack_from-pack memory_header v chunk e tt)

pub device_writes : GrantsWrites device same_space same_space
unfolding device
device_writes = record {
  activity = λ w. refl;
  writes = λ w request record_of.
      let (address, chunk, sequence, h) = record_of in
      (
        1,
        apply_record w request,
        rw (write_record-payload address chunk sequence request h) refl,
        refl,
      );
}

abbrev pub read_two : Message
read_two = message type_memory_request 1 (1 ∷ 0 ∷ 0 ∷ 0 ∷ 5 ∷ 0 ∷ 0 ∷ 0 ∷ 2 ∷ 0 ∷ 0 ∷ 0 ∷ [])

abbrev pub read_two_reply : Message
read_two_reply = message type_memory_result 1 (read_two.payload ++ two_bytes)

abbrev pub fresh_client : ServiceClient Space
fresh_client = record { world = poke blank 5 two_bytes; sequence = record { value = 1 } }
