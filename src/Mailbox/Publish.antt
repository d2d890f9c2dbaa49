-- ===== src/Mailbox/Publish.antt =====
-- A commit hands the request over.
use pi86_rp.Common.{
  ℕ, zero, suc, ◌+◌, ◌^◌, ◌≤◌, ◌<◌, ◌≡◌, refl, ◌∙◌, ◌≢◌, true, List, [], ◌∷◌, ◌++◌, arith, lt→ltb,
  le→leb, Bytes, length, All, take_all, All-append, ok,
}
use native.Mathlib.Nat.{add-zero}
use pi86_rp.Struct.{fits, layout, pack}
use pi86_rp.Struct.RoundTrip.{length-layout, pack-fits}
use pi86_rp.Protocol.{Message}
use pi86_rp.Protocol.Records.{IsWire}
use pi86_rp.Sequence.{wrap_sequence, IsSequence, wrap_sequence-IsSequence}
use pi86_rp.Memory.{memory_end, write_record, write_loop, memory_write_records}
use pi86_rp.Memory.Effect.{Space, poke, apply_record, apply_records}
use pi86_rp.Memory.Write.{apply_record-write_record, write_record_total, memory_write_records-All}
use pi86_rp.Mailbox.{
  mailbox_base, mailbox_data_offset, mailbox_data_size, owner_processor, mailbox_format,
  owner_format, last_sequence, commit_fields, mailbox_commit_records,
}

write_loop_done :
    (fuel address : ℕ) (bytes : Bytes) (offset sequence : ℕ)
    → length bytes ≤ offset
    → write_loop fuel address bytes offset sequence ≡ ok []
unfolding write_loop
write_loop_done zero address bytes offset sequence h = refl
write_loop_done (suc fuel) address bytes offset sequence h = ground arith

pub memory_write_records_loop :
    (address : ℕ) (bytes : Bytes) (sequence : ℕ)
    → 0 < length bytes
    → address + length bytes ≤ memory_end
    → memory_write_records address bytes sequence
      ≡ write_loop (length bytes) address bytes 0 sequence
unfolding memory_write_records
memory_write_records_loop address bytes sequence pos room = ground arith

write_loop_one :
    (address b : ℕ) (bs : Bytes) (sequence : ℕ) (m : Message)
    → length bs < 40
    → write_record address (b ∷ bs) sequence ≡ ok m
    → write_loop (suc (length bs)) address (b ∷ bs) 0 sequence ≡ ok (m ∷ [])
unfolding write_loop
write_loop_one address b bs sequence m small e =
    rw
      (
        lt→ltb 0 (suc (length bs)) (omega arith),
        take_all 39 bs (omega arith),
        add-zero address,
        e,
        write_loop_done (length bs) address (b ∷ bs) (0 + suc (length bs)) _ (omega arith),
      )
      refl

-- A write of at most 40 bytes is one record.
one_record :
    (address : ℕ) (bytes : Bytes) (sequence : ℕ)
    → 0 < length bytes
    → length bytes ≤ 40
    → address + length bytes ≤ memory_end
    → sequence < 2 ^ 32
    → (m : Message) × (memory_write_records address bytes sequence ≡ ok (m ∷ []))
      × IsWire m
      × ((s : Space) → apply_record s m ≡ poke s address bytes)
one_record address [] sequence pos small room q = absurd (omega arith)
one_record address (b ∷ bs) sequence pos small room q =
    let (m, e, w, _) = write_record_total address (b ∷ bs) sequence (omega arith) small q in
    (
      m,
      memory_write_records_loop address (b ∷ bs) sequence pos room
          ∙ write_loop_one address b bs sequence m small e,
      w,
      λ s. apply_record-write_record s address (b ∷ bs) sequence m e,
    )

last_sequence_total : (m : Message) (ms : List Message) → (q : ℕ) × (last_sequence (m ∷ ms) ≡ ok q)
unfolding last_sequence
last_sequence_total m [] = (m.sequence, refl)
last_sequence_total m (n ∷ ms) = last_sequence_total n ms

write_loop_some :
    (fuel address : ℕ) (bytes : Bytes) (sequence : ℕ)
    → 0 < length bytes
    → write_loop (suc fuel) address bytes 0 sequence ≢ ok []
unfolding write_loop
write_loop_some fuel address bytes sequence pos h = ground arith

body_sequence :
    (address : ℕ) (bytes : Bytes) (sequence : ℕ) (ms : List Message)
    → memory_write_records address bytes sequence ≡ ok ms
    → 0 < length bytes
    → (q : ℕ) × (last_sequence ms ≡ ok q)
unfolding memory_write_records
body_sequence address [] sequence ms h pos = absurd (omega arith)
body_sequence address (b ∷ bs) sequence [] h pos =
    absurd (write_loop_some (length bs) address (b ∷ bs) sequence pos (ground arith))
body_sequence address (b ∷ bs) sequence (m ∷ ms) h pos = last_sequence_total m ms

last_sequence-append :
    (ms : List Message) (m : Message) → last_sequence (ms ++ m ∷ []) ≡ ok m.sequence
unfolding last_sequence
last_sequence-append [] m = refl
last_sequence-append (n ∷ []) m = refl
last_sequence-append (n ∷ k ∷ ms) m = last_sequence-append (k ∷ ms) m

-- The bytes of the header that a commit writes, the owner still the Host.
abbrev pub header_bytes : ℕ → ℕ → Bytes
header_bytes generation len = layout mailbox_format (commit_fields generation len)

abbrev pub owner_bytes : ℕ → Bytes
owner_bytes owner = layout owner_format (owner, tt)

commit_chain :
    (bytes header : Bytes) (generation first last : ℕ) (body : List Message)
    (head publish : Message)
    → 0 < length bytes
    → length bytes ≤ mailbox_data_size
    → pack mailbox_format (commit_fields generation (length bytes)) ≡ ok header
    → memory_write_records (mailbox_base + mailbox_data_offset) bytes first ≡ ok body
    → last_sequence body ≡ ok last
    → memory_write_records mailbox_base header (wrap_sequence (last + 1)) ≡ ok (head ∷ [])
    → memory_write_records
        (mailbox_base + 8)
        (owner_bytes owner_processor)
        (wrap_sequence (head.sequence + 1))
      ≡ ok (publish ∷ [])
    → mailbox_commit_records bytes generation first ≡ ok ((body ++ head ∷ []) ++ publish ∷ [])
unfolding mailbox_commit_records
commit_chain bytes header generation first last body head publish pos small p e el eh ep =
    rw
      (
        lt→ltb 0 (length bytes) pos,
        le→leb (length bytes) mailbox_data_size small,
        p,
        e,
        el,
        eh,
        last_sequence-append body head,
        pack-fits owner_format (owner_processor, tt) (unfold fits in refl),
        ep,
      )
      refl

-- The records of a commit are those of the data, one with the header and one with the owner word.
pub mailbox_commit_records_parts :
    (bytes : Bytes) (generation first : ℕ)
    → 0 < length bytes
    → length bytes ≤ mailbox_data_size
    → generation < 2 ^ 32
    → IsSequence first
    → (body : List Message) × (head : Message) × (publish : Message) × (mailbox_commit_records bytes
          generation first
        ≡ ok ((body ++ head ∷ []) ++ publish ∷ []))
      × (memory_write_records (mailbox_base + mailbox_data_offset) bytes first ≡ ok body)
      × All IsWire ((body ++ head ∷ []) ++ publish ∷ [])
      × ((s : Space) → apply_records s body ≡ poke s (mailbox_base + mailbox_data_offset) bytes)
      × ((s : Space)
          → apply_record s head ≡ poke s mailbox_base (header_bytes generation (length bytes)))
      × ((s : Space)
          → apply_record s publish ≡ poke s (mailbox_base + 8) (owner_bytes owner_processor))
unfolding fits
mailbox_commit_records_parts bytes generation first pos small g q =
    let (body, e, w, f) =
      memory_write_records-All (mailbox_base + mailbox_data_offset) bytes first pos (omega arith)
        q in
    let (last, el) = body_sequence (mailbox_base + mailbox_data_offset) bytes first body e pos in
    let fit : fits mailbox_format (commit_fields generation (length bytes)) ≡ true = ground arith in
    let header = header_bytes generation (length bytes) in
    let size_eq = length-layout mailbox_format (commit_fields generation (length bytes)) in
    let (head, eh, wh, fh) =
      one_record mailbox_base header (wrap_sequence (last + 1)) (omega arith) (omega arith)
        (omega arith) (wrap_sequence-IsSequence (last + 1)).1 in
    let (publish, ep, wp, fp) =
      one_record (mailbox_base + 8) (owner_bytes owner_processor)
        (wrap_sequence (head.sequence + 1))
        (omega (arith, length-layout owner_format (owner_processor, tt)))
        (omega (arith, length-layout owner_format (owner_processor, tt)))
        (omega (arith, length-layout owner_format (owner_processor, tt)))
        (wrap_sequence-IsSequence (head.sequence + 1)).1 in
    (
      body,
      head,
      publish,
      commit_chain bytes header generation first last body head publish pos small
          (pack-fits mailbox_format (commit_fields generation (length bytes)) fit) e el eh ep,
      e,
      All-append IsWire (body ++ head ∷ []) (publish ∷ [])
          (All-append IsWire body (head ∷ []) w (wh, tt)) (wp, tt),
      f,
      fh,
      fp,
    )
