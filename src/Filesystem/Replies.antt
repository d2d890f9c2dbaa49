-- ===== src/Filesystem/Replies.antt =====
-- The replies of the filesystem that are accepted.
use pi86_rp.Common.{
  ℕ, ◌+◌, ◌-◌, ◌≤◌, ◌<◌, ◌≡◌, sym, ap, ◌∙◌, [], ◌∷◌, arith, leb, leb→le, Bytes, length, drop,
  get_or, slice, length-take, length-drop, >>=-eq-ok, guard-eq-ok, ok_injective, ok,
}
use pi86_rp.Struct.{unpack_from, unsigned}
use pi86_rp.Protocol.{type_filesystem_result, status_ok, Message}
use pi86_rp.Filesystem.{first_byte, validate_filesystem_reply, parse_read, ReadChunk}

-- A reply that answers the request: its type, number, status and operation byte.
abbrev pub Answers : Message → Message → Type 0
Answers reply request =
    (reply.message_type ≡ type_filesystem_result)
    × (reply.sequence ≡ request.sequence)
    × (reply.status ≡ status_ok)
    × (0 < length reply.payload)
    × (first_byte request.payload ≡ ok (get_or reply.payload 0 0))

validate_filesystem_reply-Answers :
    (reply request : Message) (b : Bytes)
    → validate_filesystem_reply reply request ≡ ok b
    → Answers reply request × (b ≡ reply.payload)
unfolding validate_filesystem_reply first_byte
validate_filesystem_reply-Answers reply request b h = ground arith

length-slice :
    (m n : ℕ) (b : Bytes) → m ≤ length b → n ≤ length b - m → length (slice m (m + n) b) ≡ n
length-slice m n b h k = omega (arith, length-take (m + n - m) (drop m b), length-drop m b)

-- A chunk that is read comes from a reply that answers the request. Its offset and its size are
-- those in the payload, and its data are the bytes from 12 on, as many as the payload says, which
-- it has.
parse_read_sound :
    (reply request : Message) (c : ReadChunk)
    → parse_read reply request ≡ ok c
    → Answers reply request
      × (n : ℕ) × (unpack_from (unsigned 2 ∷ []) reply.payload 2 ≡ ok (n, tt))
      × (unpack_from (unsigned 4 ∷ unsigned 4 ∷ []) reply.payload 4
          ≡ ok (c.offset, (c.total_size, tt)))
      × (c.chunk ≡ slice 12 (12 + n) reply.payload)
      × (length c.chunk ≡ n)
      × (length c.chunk + 12 ≤ length reply.payload)
unfolding parse_read
parse_read_sound reply request c h =
    let (payload, v, h1) = >>=-eq-ok (validate_filesystem_reply reply request) _ h in
    let (answers, same) = validate_filesystem_reply-Answers reply request payload v in
    let (long, h2) = guard-eq-ok (leb 12 (length payload)) _ _ h1 in
    let ((n, _), e, h3) = >>=-eq-ok (unpack_from (unsigned 2 ∷ []) payload 2) _ h2 in
    let (small, h4) = guard-eq-ok (leb n (length payload - 12)) _ _ h3 in
    let ((offset, (total, _)), f, h5) =
      >>=-eq-ok (unpack_from (unsigned 4 ∷ unsigned 4 ∷ []) payload 4) _ h4 in
    let d = ok_injective h5 in
    let len : length c.chunk ≡ n =
      ap (λ (y : ReadChunk). length y.chunk) (sym d)
      ∙ length-slice 12 n payload (leb→le _ _ long) (leb→le _ _ small) in
    (
      answers,
      n,
      rw (← same) e,
      rw (← same) (f ∙ ap (λ (y : ReadChunk). ok (y.offset, (y.total_size, tt))) d),
      rw (← same) (ap (λ (y : ReadChunk). y.chunk) (sym d)),
      len,
      rw (← same) (omega (arith, leb→le _ _ long, leb→le _ _ small)),
    )
