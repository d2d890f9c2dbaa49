-- ===== src/Memory/Write.antt =====
-- The records of a write, applied in order, write the data.
use pi86_rp.Common.{
  ℕ, zero, suc, ◌+◌, ◌-◌, ◌^◌, ◌≤◌, ◌<◌, ◌≡◌, refl, sym, ap, ◌∙◌, ◌⊎◌, inl, inr, true, ◌&&◌, List,
  [], ◌∷◌, ◌++◌, arith, ltb, leb, ltb→lt, Bool-cases, Bytes, length, drop, All, slice,
  length-append, length-take, length-drop, take-append-drop-length, drop-append_exact, take_all,
  drop_all, drop-drop, >>=-eq-ok, guard-eq-ok, raises_value_error, ok,
}
use native.Mathlib.Nat.{add_assoc, add-zero}
use pi86_rp.Struct.{Fields, fits, layout, pack}
use pi86_rp.Struct.RoundTrip.{length-layout, pack-fits, length-pack, unpack_from-pack}
use pi86_rp.Protocol.{type_memory_request, message, Message}
use pi86_rp.Protocol.Records.{IsWire}
use pi86_rp.Sequence.{wrap_sequence, IsSequence, wrap_sequence-IsSequence}
use pi86_rp.Memory.{
  memory_write, memory_data_bytes, memory_end, memory_header, check_address, write_record,
  write_loop, memory_write_records,
}
use pi86_rp.Memory.Effect.{Space, poke, apply_record, apply_records, poke-append}

abbrev write_fields : ℕ → Bytes → Fields memory_header
write_fields address chunk = (memory_write, (address, (length chunk, tt)))

write_record-eq-ok :
    (address : ℕ) (chunk : Bytes) (sequence : ℕ) {m : Message}
    → write_record address chunk sequence ≡ ok m
    → (header : Bytes) × (pack memory_header (write_fields address chunk) ≡ ok header)
      × (m ≡ message type_memory_request sequence (header ++ chunk))
unfolding write_record
write_record-eq-ok address chunk sequence h =
    let (header, e, h1) = >>=-eq-ok (pack memory_header (write_fields address chunk)) _ h in
    (header, e, ground arith)

-- One record writes its chunk.
pub apply_record-write_record :
    (s : Space) (address : ℕ) (chunk : Bytes) (sequence : ℕ) (m : Message)
    → write_record address chunk sequence ≡ ok m
    → apply_record s m ≡ poke s address chunk
unfolding apply_record
apply_record-write_record s address chunk sequence m h =
    let (header, e, eq) = write_record-eq-ok address chunk sequence h in
    let twelve : length header ≡ 12 = length-pack memory_header (write_fields address chunk) e in
    rw
      (
        eq,
        unpack_from-pack memory_header (write_fields address chunk) chunk e tt,
        drop-append_exact 12 header chunk twelve,
        take_all (length chunk) chunk (omega arith),
      )
      refl

pub write_record_total :
    (address : ℕ) (chunk : Bytes) (sequence : ℕ)
    → address < 2 ^ 32
    → length chunk ≤ 40
    → sequence < 2 ^ 32
    → (m : Message) × (write_record address chunk sequence ≡ ok m)
      × IsWire m
      × (m.sequence ≡ sequence)
unfolding write_record fits
write_record_total address chunk sequence ha hc hs =
    let fit : fits memory_header (write_fields address chunk) ≡ true = ground arith in
    let e = pack-fits memory_header (write_fields address chunk) fit in
    let header = layout memory_header (write_fields address chunk) in
    (
      message type_memory_request sequence (header ++ chunk),
      rw e refl,
      ground (
        arith,
        length-append header chunk,
        length-layout memory_header (write_fields address chunk),
      ),
      refl,
    )

chunk_size :
    (offset : ℕ) (bytes : Bytes)
    → (length (slice offset (offset + memory_data_bytes) bytes) ≤ 40)
      × (offset < length bytes → 0 < length (slice offset (offset + memory_data_bytes) bytes))
chunk_size offset bytes =
    let e = length-take (offset + 40 - offset) (drop offset bytes) in
    let f = length-drop offset bytes in (omega arith, λ h. omega arith)

chunk_rest :
    (offset : ℕ) (bytes : Bytes)
    → slice offset (offset + memory_data_bytes) bytes
        ++ drop (offset + length (slice offset (offset + memory_data_bytes) bytes)) bytes
      ≡ drop offset bytes
chunk_rest offset bytes =
    rw (← drop-drop offset (length (slice offset (offset + memory_data_bytes) bytes)) bytes)
      (take-append-drop-length (offset + memory_data_bytes - offset) (drop offset bytes))

join_chunk :
    (s : Space) (address offset : ℕ) (bytes : Bytes)
    → poke
        (poke s (address + offset) (slice offset (offset + memory_data_bytes) bytes))
        (address + (offset + length (slice offset (offset + memory_data_bytes) bytes)))
        (drop (offset + length (slice offset (offset + memory_data_bytes) bytes)) bytes)
      ≡ poke s (address + offset) (drop offset bytes)
join_chunk s address offset bytes =
    let chunk = slice offset (offset + memory_data_bytes) bytes in
    let rest = drop (offset + length chunk) bytes in
    rw (← add_assoc address offset (length chunk)) (
      sym (poke-append s (address + offset) chunk rest)
      ∙ ap (poke s (address + offset)) (chunk_rest offset bytes))

-- The loop from `offset` on returns records that fit the wire and write the data from there on.
pub write_loop_writes :
    (fuel address : ℕ) (bytes : Bytes) (offset sequence : ℕ)
    → length bytes ≤ offset + fuel
    → address + length bytes ≤ 2 ^ 32
    → IsSequence sequence
    → (ms : List Message) × (write_loop fuel address bytes offset sequence ≡ ok ms)
      × All IsWire ms
      × ((s : Space) → apply_records s ms ≡ poke s (address + offset) (drop offset bytes))
unfolding write_loop apply_records
write_loop_writes zero address bytes offset sequence enough room q =
    ([], refl, tt, λ s. rw (drop_all offset bytes (omega arith)) (unfold poke in refl))
write_loop_writes (suc fuel) address bytes offset sequence enough room q =
    elim (Bool-cases (ltb offset (length bytes))) [
      | inl more ↦
          let chunk = slice offset (offset + memory_data_bytes) bytes in
          let (small, pos) = chunk_size offset bytes in
          let (m, e, w, _) =
            write_record_total (address + offset) chunk sequence (ground arith) small q.1 in
          let (ms, es, ws, f) =
            write_loop_writes fuel address bytes (offset + length chunk)
              (wrap_sequence (sequence + 1)) (omega (arith, pos (ltb→lt _ _ more))) room
              (wrap_sequence-IsSequence (sequence + 1)) in
          (
            m ∷ ms,
            rw (more, e, es) refl,
            (w, ws),
            λ s.
                rw (apply_record-write_record s (address + offset) chunk sequence m e, f)
                  (join_chunk s address offset bytes),
          )
      | inr done ↦ (
        [],
        rw done refl,
        tt,
        λ s. rw (drop_all offset bytes (ground arith)) (unfold poke in refl),
      )
    ]

pub memory_write_records-All :
    (address : ℕ) (bytes : Bytes) (first_sequence : ℕ)
    → 0 < length bytes
    → address + length bytes ≤ memory_end
    → IsSequence first_sequence
    → (ms : List Message) × (memory_write_records address bytes first_sequence ≡ ok ms)
      × All IsWire ms
      × ((s : Space) → apply_records s ms ≡ poke s address bytes)
unfolding memory_write_records
memory_write_records-All address bytes first_sequence pos room q =
    let (ms, e, w, f) =
      write_loop_writes (length bytes) address bytes 0 first_sequence (omega arith) (omega arith)
        q in
    (ms, ground arith, w, λ s. f s ∙ ap (λ (a : ℕ). poke s a bytes) (add-zero address))

pub write_loop-eq-cons :
    (fuel address : ℕ) (bytes : Bytes) (offset sequence : ℕ) (m : Message) (ms : List Message)
    → write_loop (suc fuel) address bytes offset sequence ≡ ok (m ∷ ms)
    → (write_record (address + offset) (slice offset (offset + memory_data_bytes) bytes) sequence
        ≡ ok m)
      × (write_loop fuel address bytes
            (offset + length (slice offset (offset + memory_data_bytes) bytes))
            (wrap_sequence (sequence + 1))
          ≡ ok ms)
unfolding write_loop
write_loop-eq-cons fuel address bytes offset sequence m ms h = ground arith

-- A record that writes one chunk.
abbrev pub IsWriteRecord : Message → Type 0
IsWriteRecord m =
    (address : ℕ) × (chunk : Bytes) × (sequence : ℕ) × (write_record address chunk sequence ≡ ok m)

write_loop_records :
    (fuel address : ℕ) (bytes : Bytes) (offset sequence : ℕ) (ms : List Message)
    → write_loop fuel address bytes offset sequence ≡ ok ms
    → All IsWriteRecord ms
write_loop_records fuel address bytes offset sequence [] h = tt
write_loop_records zero address bytes offset sequence (m ∷ ms) h = unfold write_loop in cc
write_loop_records (suc fuel) address bytes offset sequence (m ∷ ms) h =
    let (e, rest) = write_loop-eq-cons fuel address bytes offset sequence m ms h in
    ((_, _, _, e), write_loop_records fuel address bytes _ _ ms rest)

pub memory_write_records-IsWriteRecord :
    (address : ℕ) (bytes : Bytes) (first_sequence : ℕ) (ms : List Message)
    → memory_write_records address bytes first_sequence ≡ ok ms
    → All IsWriteRecord ms
unfolding memory_write_records
memory_write_records-IsWriteRecord address bytes first_sequence ms h =
    let (_, _, h1) = >>=-eq-ok (check_address address) _ h in
    let (_, h2) =
      guard-eq-ok (ltb 0 (length bytes) && leb (address + length bytes) memory_end) _ _ h1 in
    write_loop_records (length bytes) address bytes 0 first_sequence ms h2

-- A write of at least one byte inside Internal SRAM, with a first number that is not 0 and has 32
-- bits, has records that fit the wire, and they write the data at the address when they are
-- applied in order, whatever the memory held.
pub memory_write_records_writes :
    (address : ℕ) (bytes : Bytes) (first_sequence : ℕ) (s : Space)
    → 0 < length bytes
    → address + length bytes ≤ memory_end
    → IsSequence first_sequence
    → (ms : List Message) × (memory_write_records address bytes first_sequence ≡ ok ms)
      × All IsWire ms
      × (apply_records s ms ≡ poke s address bytes)
memory_write_records_writes address bytes first_sequence s pos room q =
    let (ms, e, w, f) = memory_write_records-All address bytes first_sequence pos room q in
    (ms, e, w, f s)

-- A write that is empty, or that leaves Internal SRAM, is refused by a `ValueError`.
pub memory_write_records_refuses :
    (address : ℕ) (bytes : Bytes) (first_sequence : ℕ)
    → (length bytes ≡ 0) ⊎ (memory_end < address + length bytes)
    → raises_value_error (memory_write_records address bytes first_sequence) ≡ true
unfolding memory_write_records
memory_write_records_refuses address bytes first_sequence h = ground arith
