-- ===== src/Mailbox/Owner.antt =====
-- When the mailbox changes hands: only the last record of a commit gives it to the processor.
use pi86_rp.Common.{
  ℕ, zero, suc, ◌+◌, ◌^◌, ◌≤◌, ◌<◌, ◌≡◌, refl, sym, ap, ◌∙◌, inl, inr, true, List, [], ◌∷◌, ◌++◌,
  arith, le→leb, eq→==, bytes_eq_refl, Bytes, length, take, All, slice, ok,
}
use pi86_rp.Struct.{Fields, size, fits, layout}
use pi86_rp.Struct.RoundTrip.{length-layout, pack-fits, length-pack, unpack-pack}
use pi86_rp.Protocol.{Message}
use pi86_rp.Protocol.Records.{IsWire}
use pi86_rp.Sequence.{wrap_sequence, IsSequence}
use pi86_rp.Memory.{memory_data_bytes, write_loop}
use pi86_rp.Memory.Effect.{
  Space, poke, peek, apply_record, apply_records, apply_records-append, poke_outside, peek-poke,
  peek_cong,
}
use pi86_rp.Memory.Write.{apply_record-write_record, write_loop-eq-cons}
use pi86_rp.Mailbox.{
  mailbox_base, mailbox_data_offset, mailbox_data_size, mailbox_magic, mailbox_version, owner_host,
  owner_processor, status_request_ready, mailbox_format, owner_format, decode_header, commit_fields,
  mailbox_commit_records, MailboxHeader,
}
use pi86_rp.Mailbox.Publish.{
  memory_write_records_loop, header_bytes, owner_bytes, mailbox_commit_records_parts,
}

-- The header with its owner word as a parameter.
abbrev owned_fields : ℕ → ℕ → ℕ → Fields mailbox_format
owned_fields owner generation len = (
  mailbox_magic,
  (
    mailbox_version,
    (
      size mailbox_format,
      (owner, (status_request_ready, (generation, (len, (0, (0, (0, (0, tt)))))))),
    ),
  ),
)

header_after :
    (t : Space) (generation len : ℕ)
    → peek
        (poke
          (poke t mailbox_base (header_bytes generation len))
          (mailbox_base + 8)
          (owner_bytes owner_processor))
        mailbox_base
        32
      ≡ layout mailbox_format (owned_fields owner_processor generation len)
unfolding peek poke layout
header_after t generation len = refl

-- The header that the processor finds.
abbrev pub published : ℕ → ℕ → MailboxHeader
published generation len = record {
  owner = owner_processor;
  status = status_request_ready;
  generation = generation;
  request_length = len;
  response_length = 0;
  flags = 0;
}

decode_published :
    (generation len : ℕ)
    → generation < 2 ^ 32
    → len ≤ mailbox_data_size
    → decode_header (layout mailbox_format (owned_fields owner_processor generation len))
      ≡ ok (published generation len)
unfolding decode_header fits
decode_published generation len g l =
    let fit : fits mailbox_format (owned_fields owner_processor generation len) ≡ true =
      ground arith in
    let p = pack-fits mailbox_format (owned_fields owner_processor generation len) fit in
    rw
      (
        eq→== _ _ (length-pack mailbox_format (owned_fields owner_processor generation len) p),
        unpack-pack mailbox_format (owned_fields owner_processor generation len) p (refl, tt),
        bytes_eq_refl mailbox_magic,
        le→leb len mailbox_data_size l,
      )
      refl

-- The header and the owner word lie in front of the data area.
data_after :
    (s : Space) (bytes : Bytes) (generation len : ℕ)
    → peek
        (poke
          (poke
            (poke s (mailbox_base + mailbox_data_offset) bytes)
            mailbox_base
            (header_bytes generation len))
          (mailbox_base + 8)
          (owner_bytes owner_processor))
        (mailbox_base + mailbox_data_offset)
        (length bytes)
      ≡ bytes
data_after s bytes generation len =
    let t = poke s (mailbox_base + mailbox_data_offset) bytes in
    let h = header_bytes generation len in
    peek_cong _ _ (mailbox_base + mailbox_data_offset) (length bytes) (λ x lo hi.
      poke_outside (poke t mailbox_base h) (mailbox_base + 8) (owner_bytes owner_processor) x
        (inr (omega (arith, length-layout owner_format (owner_processor, tt))))
      ∙ poke_outside t mailbox_base h x
          (inr (omega (arith, length-layout mailbox_format (commit_fields generation len)))))
    ∙ peek-poke s (mailbox_base + mailbox_data_offset) bytes

after_all :
    (s : Space) (body : List Message) (head publish : Message)
    → apply_records s ((body ++ head ∷ []) ++ publish ∷ [])
      ≡ apply_record (apply_record (apply_records s body) head) publish
unfolding apply_records
after_all s body head publish =
    apply_records-append s (body ++ head ∷ []) (publish ∷ [])
    ∙ ap (λ (t : Space). apply_record t publish) (apply_records-append s body (head ∷ []))

-- A commit of 1 to 4064 bytes, with a 32-bit generation and a first number that is not 0 and has
-- 32 bits, has records that fit the wire. Applied in order to any memory, they leave a header that
-- is decoded, owned by the processor, with the request ready, the generation and the length, and
-- the data area begins with the data.
pub mailbox_commit_records_publish :
    (bytes : Bytes) (generation first : ℕ) (s : Space)
    → 0 < length bytes
    → length bytes ≤ mailbox_data_size
    → generation < 2 ^ 32
    → IsSequence first
    → (ms : List Message) × (mailbox_commit_records bytes generation first ≡ ok ms)
      × All IsWire ms
      × (decode_header (peek (apply_records s ms) mailbox_base 32)
          ≡ ok (published generation (length bytes)))
      × (peek (apply_records s ms) (mailbox_base + mailbox_data_offset) (length bytes) ≡ bytes)
mailbox_commit_records_publish bytes generation first s pos small g q =
    let (body, head, publish, e, _, w, f, fh, fp) =
      mailbox_commit_records_parts bytes generation first pos small g q in
    let t = poke s (mailbox_base + mailbox_data_offset) bytes in
    let after : apply_records s ((body ++ head ∷ []) ++ publish ∷ [])
        ≡ poke (poke t mailbox_base (header_bytes generation (length bytes))) (mailbox_base + 8)
            (owner_bytes owner_processor) =
      after_all s body head publish ∙ rw (f, fh, fp) refl in
    (
      (body ++ head ∷ []) ++ publish ∷ [],
      e,
      w,
      rw (after, header_after t generation (length bytes))
          (decode_published generation (length bytes) g small),
      rw after (data_after s bytes generation (length bytes)),
    )

-- A record that leaves the addresses below `lo` alone.
abbrev KeepsBelow : ℕ → Message → Type 0
KeepsBelow lo m = (s : Space) (x : ℕ) → x < lo → apply_record s m x ≡ s x

write_loop_keeps :
    (fuel address : ℕ) (bytes : Bytes) (offset sequence : ℕ) (ms : List Message)
    → write_loop fuel address bytes offset sequence ≡ ok ms
    → All (KeepsBelow address) ms
write_loop_keeps fuel address bytes offset sequence [] h = tt
write_loop_keeps zero address bytes offset sequence (m ∷ ms) h = unfold write_loop in cc
write_loop_keeps (suc fuel) address bytes offset sequence (m ∷ ms) h =
    let chunk = slice offset (offset + memory_data_bytes) bytes in
    let (e, rest) = write_loop-eq-cons fuel address bytes offset sequence m ms h in
    (
      λ s x lt.
          ap (λ (t : Space). t x)
            (apply_record-write_record s (address + offset) chunk sequence m e)
          ∙ poke_outside s (address + offset) chunk x (inl (omega arith)),
      write_loop_keeps fuel address bytes (offset + length chunk) (wrap_sequence (sequence + 1)) ms
          rest,
    )

abbrev pub HostOwns : Space → Type 0
HostOwns s = peek s (mailbox_base + 8) 2 ≡ owner_bytes owner_host

keeps_owner :
    (m : Message) (s : Space)
    → KeepsBelow (mailbox_base + mailbox_data_offset) m
    → HostOwns s
    → HostOwns (apply_record s m)
keeps_owner m s k h =
    peek_cong (apply_record s m) s (mailbox_base + 8) 2 (λ x lo hi. k s x (omega arith)) ∙ h

head_owner :
    (s : Space) (generation len : ℕ) → HostOwns (poke s mailbox_base (header_bytes generation len))
unfolding peek poke layout
head_owner s generation len = refl

prefix_owner :
    (s : Space) (body : List Message) (head : Message) (n : ℕ)
    → All (KeepsBelow (mailbox_base + mailbox_data_offset)) body
    → ((s : Space) → HostOwns (apply_record s head))
    → HostOwns s
    → HostOwns (apply_records s (take n (body ++ head ∷ [])))
unfolding apply_records
prefix_owner s [] head zero k f h = h
prefix_owner s [] head (suc zero) k f h = f s
prefix_owner s [] head (suc (suc n)) k f h = f s
prefix_owner s (m ∷ ms) head zero k f h = h
prefix_owner s (m ∷ ms) head (suc n) (k, ks) f h =
    prefix_owner (apply_record s m) ms head n ks f (keeps_owner m s k h)

-- A commit of 1 to 4064 bytes, with a 32-bit generation and a first number that is not 0 and has
-- 32 bits, has a last record that publishes it: while any number of the records before it are
-- applied in order, a mailbox that the Host owns stays the Host's.
pub mailbox_commit_records_owner :
    (bytes : Bytes) (generation first n : ℕ) (s : Space)
    → 0 < length bytes
    → length bytes ≤ mailbox_data_size
    → generation < 2 ^ 32
    → IsSequence first
    → HostOwns s
    → (ms : List Message) × (publish : Message) × (mailbox_commit_records bytes generation first
        ≡ ok (ms ++ publish ∷ []))
      × HostOwns (apply_records s (take n ms))
mailbox_commit_records_owner bytes generation first n s pos small g q owns =
    let (body, head, publish, e, b, _, _, fh, _) =
      mailbox_commit_records_parts bytes generation first pos small g q in
    let keeps =
      write_loop_keeps (length bytes) (mailbox_base + mailbox_data_offset) bytes 0 first body (
        sym (
          memory_write_records_loop (mailbox_base + mailbox_data_offset) bytes first pos
            (omega arith))
        ∙ b) in
    (
      body ++ head ∷ [],
      publish,
      e,
      prefix_owner s body head n keeps (λ t. rw fh (head_owner t generation (length bytes))) owns,
    )
