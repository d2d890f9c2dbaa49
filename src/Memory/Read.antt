-- ===== src/Memory/Read.antt =====
-- Reads: the request, and the reply that is accepted for it.
use pi86_rp.Common.{
  ℕ, ◌+◌, ◌^◌, ◌≤◌, ◌<◌, ◌≡◌, refl, sym, ap, ◌∙◌, true, ◌&&◌, ◌++◌, arith, leb, bytes_eq→eq, Bytes,
  length, take, drop, take-append-drop, take_all, >>=-eq-ok, guard-eq-ok, ok,
}
use mathlib.Core.Path.{ap₂}
use pi86_rp.Struct.{Fields, fits, layout, pack, unpack, unpack_from}
use pi86_rp.Struct.RoundTrip.{length-layout, pack-fits, length-pack, unpack-pack, unpack_from-pack}
use pi86_rp.Protocol.{type_memory_request, status_ok, message, Message}
use pi86_rp.Protocol.Records.{IsWire}
use pi86_rp.Memory.{
  memory_read, memory_data_bytes, memory_end, memory_header, check_address, memory_read_request,
  validate_memory_reply, parse_memory_read,
}

abbrev pub read_fields : ℕ → ℕ → Fields memory_header
read_fields address len = (memory_read, (address, (len, tt)))

read_request_fits :
    (address len : ℕ)
    → 1 ≤ len
    → len ≤ memory_data_bytes
    → address + len ≤ memory_end
    → fits memory_header (read_fields address len) ≡ true
unfolding fits
read_request_fits address len a b c = ground arith

-- A read of 1 to 40 bytes inside Internal SRAM, with a 32-bit number, has a request that fits the
-- wire, has the number, and spells the operation, the address and the length.
pub memory_read_request_total :
    (address len sequence : ℕ)
    → 1 ≤ len
    → len ≤ memory_data_bytes
    → address + len ≤ memory_end
    → sequence < 2 ^ 32
    → (m : Message) × (memory_read_request address len sequence ≡ ok m)
      × IsWire m
      × (m.sequence ≡ sequence)
      × (unpack memory_header m.payload ≡ ok (read_fields address len))
unfolding memory_read_request
memory_read_request_total address len sequence a b c d =
    let e =
      pack-fits memory_header (read_fields address len) (read_request_fits address len a b c) in
    let header = layout memory_header (read_fields address len) in
    (
      message type_memory_request sequence header,
      ground arith,
      ground (arith, length-layout memory_header (read_fields address len)),
      refl,
      unpack-pack memory_header (read_fields address len) e tt,
    )

pub validate_memory_reply-eq-ok :
    (reply request : Message) {b : Bytes}
    → validate_memory_reply reply request ≡ ok b
    → (reply.status ≡ status_ok)
      × (reply.sequence ≡ request.sequence)
      × (12 ≤ length reply.payload)
      × (take 12 reply.payload ≡ take 12 request.payload)
      × (b ≡ drop 12 reply.payload)
unfolding validate_memory_reply
validate_memory_reply-eq-ok reply request h =
    ground (arith, bytes_eq→eq (take 12 reply.payload) (take 12 request.payload))

pub memory_read_request-eq-ok :
    (address len sequence : ℕ) (request : Message)
    → memory_read_request address len sequence ≡ ok request
    → (request.sequence ≡ sequence)
      × (pack memory_header (read_fields address len) ≡ ok request.payload)
unfolding memory_read_request
memory_read_request-eq-ok address len sequence request h =
    let (_, _, h1) = >>=-eq-ok (check_address address) _ h in
    let (_, h2) =
      guard-eq-ok (leb 1 len && leb len memory_data_bytes && leb (address + len) memory_end) _ _
        h1 in
    let (header, e, h3) = >>=-eq-ok (pack memory_header (read_fields address len)) _ h2 in
    ground arith

pub parse_memory_read-eq-ok :
    (reply request : Message) {b : Bytes}
    → parse_memory_read reply request ≡ ok b
    → (v : Fields memory_header) × (validate_memory_reply reply request ≡ ok b)
      × (unpack_from memory_header reply.payload 0 ≡ ok v)
      × (length b ≡ v.1.1.0)
unfolding parse_memory_read
parse_memory_read-eq-ok reply request h =
    let (c, e, h1) = >>=-eq-ok (validate_memory_reply reply request) _ h in
    let (v, u, h2) = >>=-eq-ok (unpack_from memory_header reply.payload 0) _ h1 in
    (v, ground arith, u, ground arith)

-- Data that is accepted for a read request has the length that was asked for, and comes from a
-- reply with status 0, the sequence of the request and an echo of its address and length.
pub parse_memory_read_sound :
    (address len sequence : ℕ) (request reply : Message) (b : Bytes)
    → memory_read_request address len sequence ≡ ok request
    → parse_memory_read reply request ≡ ok b
    → (length b ≡ len)
      × (reply.payload ≡ request.payload ++ b)
      × (reply.sequence ≡ sequence)
      × (reply.status ≡ status_ok)
parse_memory_read_sound address len sequence request reply b h p =
    let (s, e) = memory_read_request-eq-ok address len sequence request h in
    let (v, d, u, l) = parse_memory_read-eq-ok reply request p in
    let (st, sq, long, echo, rest) = validate_memory_reply-eq-ok reply request d in
    let twelve : length request.payload ≡ 12 =
      length-pack memory_header (read_fields address len) e in
    let same : take 12 reply.payload ≡ request.payload =
      echo ∙ take_all 12 request.payload (omega arith) in
    let whole : reply.payload ≡ request.payload ++ b =
      sym (take-append-drop 12 reply.payload)
      ∙ ap₂ (λ (x : Bytes) (y : Bytes). x ++ y) same (sym rest) in
    let back : unpack_from memory_header reply.payload 0 ≡ ok (read_fields address len) =
      ap (λ (x : Bytes). unpack_from memory_header x 0) whole
      ∙ unpack_from-pack memory_header (read_fields address len) b e tt in
    (ground arith, whole, sq ∙ s, st)
