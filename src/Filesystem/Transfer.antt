-- ===== src/Filesystem/Transfer.antt =====
-- The records of a file transfer, and a receiver that takes them in order.
use pi86_rp.Common.{
  ℕ, zero, suc, ◌+◌, ◌-◌, ◌%◌, ◌^◌, ◌≤◌, ◌<◌, ◌≡◌, refl, sym, ap, ◌∙◌, inl, inr, true, ◌&&◌, ◌||◌,
  Option, none, some, List, [], ◌∷◌, ◌++◌, arith, ltb, leb, ◌==◌, if◌then◌else◌, ltb→lt, eq→==,
  ==_refl, Bool-cases, bytes_eq, ascii, Bytes, length, take, drop, All, slice, length-append,
  length-take, length-drop, take-append-drop-length, take-append_exact, drop-append_exact, take-add,
  take_all, All-append, ◌>>=◌, >>=-eq-ok, guard-eq-ok, Result, ok, err,
}
use pi86_rp.Struct.{Fields, fits, layout, unpack, unpack_from, unsigned}
use pi86_rp.Struct.RoundTrip.{length-layout, pack-fits, unpack-pack, unpack_from-pack}
use pi86_rp.Protocol.{Message}
use pi86_rp.Protocol.Records.{IsWire}
use pi86_rp.Crc.{crc32}
use pi86_rp.Filesystem.{
  encode_utf8, check_path, filesystem_record, begin_format, chunk_format, next_sequence,
  chunk_record, chunk_loop, write_records, filesystem_write_begin, filesystem_write_data,
  filesystem_write_commit, filesystem_write_data_bytes, filesystem_write_path_bytes,
}

-- The length, the transfer and the offset in a data record, and its data.
unfoldable pub decode_chunk : Bytes → Result (ℕ × ℕ × ℕ × Bytes)
decode_chunk payload = do
  (len, (id, (offset, _))) ← unpack_from chunk_format (drop 2 payload) 0
  ok (len, id, offset, drop 12 payload)

gather_chunk : ℕ → Bytes → Result (ℕ × ℕ × ℕ × Bytes) → Option Bytes
gather_chunk transfer_id held (ok (len, id, offset, piece)) =
    if (len == length piece) && (id == transfer_id) && (offset == length held)
    then some (held ++ piece)
    else none
gather_chunk transfer_id held (err e) = none

abbrev and_then : Option Bytes → (Bytes → Option Bytes) → Option Bytes
and_then none f = none
and_then (some b) f = f b

-- The receiver: every record must belong to the transfer and continue what is held.
unfoldable pub gather : ℕ → Bytes → List Message → Option Bytes
unfolding gather_chunk
gather transfer_id held [] = some held
gather transfer_id held (m ∷ ms) =
    and_then (gather_chunk transfer_id held (decode_chunk m.payload))
      (λ longer. gather transfer_id longer ms)

-- The request of an operation: the records' type, and how the payload begins.
abbrev pub IsRequest : Bytes → Message → Type 0
IsRequest start m = (m.message_type ≡ 0x40) × (take (length start) m.payload ≡ start)

-- The numbers of records go up by one, and behind 2 ^ 32 - 1 comes 0.
abbrev pub IsCounted : ℕ → List Message → Type 0
IsCounted n [] = Unit
IsCounted n (m ∷ ms) = (m.sequence ≡ n % 2 ^ 32) × IsCounted (n + 1) ms

abbrev piece_of : Bytes → ℕ → Bytes
piece_of bytes offset = slice offset (offset + filesystem_write_data_bytes) bytes

piece_size :
    (offset : ℕ) (bytes : Bytes)
    → (length (piece_of bytes offset) ≤ 40)
      × (offset < length bytes → 0 < length (piece_of bytes offset))
      × (offset ≤ length bytes → offset + length (piece_of bytes offset) ≤ length bytes)
piece_size offset bytes =
    let e = length-take (offset + 40 - offset) (drop offset bytes) in
    let f = length-drop offset bytes in (omega arith, (λ h. omega arith), λ h. omega arith)

chunk_record_total :
    (transfer_id : ℕ) (piece : Bytes) (offset sequence : ℕ)
    → transfer_id < 2 ^ 32
    → offset < 2 ^ 32
    → sequence < 2 ^ 32
    → length piece ≤ 40
    → (m : Message) × (chunk_record transfer_id piece offset sequence ≡ ok m)
      × (decode_chunk m.payload ≡ ok (length piece, transfer_id, offset, piece))
      × IsRequest (5 ∷ 0 ∷ []) m
      × (m.sequence ≡ sequence)
      × IsWire m
unfolding chunk_record decode_chunk fits
chunk_record_total transfer_id piece offset sequence ht ho hs hp =
    let v : Fields chunk_format = (length piece, (transfer_id, (offset, tt))) in
    let fit : fits chunk_format v ≡ true = ground arith in
    let p = pack-fits chunk_format v fit in
    let prefix = layout chunk_format v in
    let l = length-layout chunk_format v in
    let n = length-append prefix piece in
    (
      filesystem_record filesystem_write_data sequence ((0 ∷ prefix) ++ piece),
      rw p refl,
      rw (unpack_from-pack chunk_format v piece p tt, drop-append_exact 10 prefix piece l) refl,
      (refl, refl),
      refl,
      ground arith,
    )

held_grows :
    (bytes : Bytes) (offset : ℕ)
    → take offset bytes ++ piece_of bytes offset
      ≡ take (offset + length (piece_of bytes offset)) bytes
held_grows bytes offset =
    let n = offset + filesystem_write_data_bytes - offset in
    let rest = drop offset bytes in
    let same : take (length (take n rest)) rest ≡ take n rest =
      ap (take (length (take n rest))) (sym (take-append-drop-length n rest))
      ∙ take-append_exact (length (take n rest)) (take n rest) (drop (length (take n rest)) rest)
          refl in
    ap (λ (b : Bytes). take offset bytes ++ b) (sym same)
    ∙ sym (take-add offset (length (take n rest)) bytes)

gather-cons :
    (transfer_id : ℕ) (bytes : Bytes) (offset : ℕ) (m : Message) (ms : List Message)
    → decode_chunk m.payload
      ≡ ok (length (piece_of bytes offset), transfer_id, offset, piece_of bytes offset)
    → gather transfer_id (take (offset + length (piece_of bytes offset)) bytes) ms ≡ some bytes
    → offset ≤ length bytes
    → gather transfer_id (take offset bytes) (m ∷ ms) ≡ some bytes
unfolding gather
gather-cons transfer_id bytes offset m ms d a h =
    rw
      (
        d,
        ==_refl (length (piece_of bytes offset)),
        ==_refl transfer_id,
        eq→== offset (length (take offset bytes)) (omega (arith, length-take offset bytes)),
        held_grows bytes offset,
      )
      a

chunk_loop_gathers :
    (fuel transfer_id : ℕ) (bytes : Bytes) (offset sequence n : ℕ)
    → sequence ≡ n % 2 ^ 32
    → length bytes ≤ offset + fuel
    → offset ≤ length bytes
    → length bytes < 2 ^ 32
    → transfer_id < 2 ^ 32
    → (ms : List Message) × (last : ℕ) × (chunk_loop fuel transfer_id bytes offset sequence
        ≡ ok (ms, last))
      × (gather transfer_id (take offset bytes) ms ≡ some bytes)
      × All (IsRequest (5 ∷ 0 ∷ [])) ms
      × IsCounted (n + 1) ms
      × (last ≡ (n + length ms) % 2 ^ 32)
      × All IsWire ms
unfolding chunk_loop gather
chunk_loop_gathers zero transfer_id bytes offset sequence n same enough near small ht =
    ([], sequence, refl, ap some (take_all offset bytes (omega arith)), tt, tt, omega arith, tt)
chunk_loop_gathers (suc fuel) transfer_id bytes offset sequence n same enough near small ht =
    elim (Bool-cases (ltb offset (length bytes))) [
      | inr done ↦ (
        [],
        sequence,
        rw done refl,
        ap some (take_all offset bytes (ground arith)),
        tt,
        tt,
        omega arith,
        tt,
      )
      | inl more ↦
          let piece = piece_of bytes offset in
          let (l40, pos, inside) = piece_size offset bytes in
          let (m, e, d, q, s, w) =
            chunk_record_total transfer_id piece offset (next_sequence sequence) ht
              (omega (arith, ltb→lt _ _ more)) (omega arith) l40 in
          let (ms, last, es, a, qs, ss, ends, ws) =
            chunk_loop_gathers fuel transfer_id bytes (offset + length piece)
              (next_sequence sequence) (n + 1) (omega arith) (omega (arith, pos (ltb→lt _ _ more)))
              (inside near) small ht in
          (
            m ∷ ms,
            last,
            rw (more, e, es) refl,
            gather-cons transfer_id bytes offset m ms d a near,
            (q, qs),
            (s ∙ omega arith, ss),
            ends ∙ ap (λ k. k % 2 ^ 32) (omega arith),
            (w, ws),
          )
    ]

check_path-length :
    (path : List ℕ) (maximum : ℕ) (encoded : Bytes)
    → check_path path maximum ≡ ok encoded
    → length encoded ≤ maximum
unfolding check_path
check_path-length path maximum encoded h =
    let (b, e, h1) = >>=-eq-ok (encode_utf8 path) _ h in
    let (_, h2) =
      guard-eq-ok
        (bytes_eq (take 6 path) (ascii "flash:")
          && (leb (length path) 6 || bytes_eq (slice 6 7 path) (ascii "/")))
        _ _ h1 in
    let (t, h3) = guard-eq-ok (ltb 0 (length b) && leb (length b) maximum) _ _ h2 in ground arith

-- A transfer of less than 2 ^ 32 bytes to a path that is accepted, with a 32-bit transfer number and
-- a 32-bit first sequence, is a request of operation 4 (BEGIN) with the UTF-8 path and its length,
-- the transfer number, the length and the CRC of the data, requests of operation 5 (DATA) that a
-- receiver gathers to the data, and a request of operation 6 (COMMIT) with the transfer number. The
-- sequences go up by one from the first, modulo 2 ^ 32, and all records fit the wire.
pub write_records-gather :
    (path : List ℕ) (encoded bytes : Bytes) (transfer_id first : ℕ)
    → check_path path filesystem_write_path_bytes ≡ ok encoded
    → length bytes < 2 ^ 32
    → transfer_id < 2 ^ 32
    → first < 2 ^ 32
    → (begin commit : Message) × (chunks : List Message) × (write_records path bytes transfer_id
          first
        ≡ ok ((begin ∷ chunks) ++ commit ∷ []))
      × IsRequest (4 ∷ length encoded ∷ 0 ∷ 0 ∷ []) begin
      × (begin.sequence ≡ first)
      × (unpack_from begin_format (drop 4 begin.payload) 0
          ≡ ok (transfer_id, (length bytes, (crc32 bytes % 2 ^ 32, tt))))
      × (drop 16 begin.payload ≡ encoded)
      × All (IsRequest (5 ∷ 0 ∷ [])) chunks
      × IsCounted (first + 1) chunks
      × (gather transfer_id [] chunks ≡ some bytes)
      × IsRequest (6 ∷ 0 ∷ 0 ∷ 0 ∷ []) commit
      × (commit.sequence ≡ (first + 1 + length chunks) % 2 ^ 32)
      × (unpack (unsigned 4 ∷ []) (drop 4 commit.payload) ≡ ok (transfer_id, tt))
      × All IsWire ((begin ∷ chunks) ++ commit ∷ [])
unfolding write_records fits
write_records-gather path encoded bytes transfer_id first pe small ht hs =
    let v : Fields begin_format = (transfer_id, (length bytes, (crc32 bytes % 2 ^ 32, tt))) in
    let c : Fields (unsigned 4 ∷ []) = (transfer_id, tt) in
    let p = pack-fits begin_format v (ground arith) in
    let pc = pack-fits (unsigned 4 ∷ []) c (ground arith) in
    let prefix = layout begin_format v in
    let l = length-layout begin_format v in
    let lc = length-layout (unsigned 4 ∷ []) c in
    let short = check_path-length path filesystem_write_path_bytes encoded pe in
    let (ms, last, el, a, qs, ss, ends, ws) =
      chunk_loop_gathers (length bytes) transfer_id bytes 0 first first (omega arith) (omega arith)
        (omega arith) small ht in
    let begin =
      filesystem_record filesystem_write_begin first
        ((length encoded ∷ 0 ∷ 0 ∷ prefix) ++ encoded) in
    let commit =
      filesystem_record filesystem_write_commit (next_sequence last)
        (0 ∷ 0 ∷ 0 ∷ layout (unsigned 4 ∷ []) c) in
    let wb : IsWire begin = ground (arith, length-append prefix encoded) in
    let wc : IsWire commit = ground arith in
    (
      begin,
      commit,
      ms,
      rw (pe, p, el, pc) refl,
      (refl, refl),
      refl,
      unpack_from-pack begin_format v encoded p tt,
      drop-append_exact 12 prefix encoded l,
      qs,
      ss,
      a,
      (refl, refl),
      omega (arith, ends),
      unpack-pack (unsigned 4 ∷ []) c pc tt,
      (wb, All-append IsWire ms (commit ∷ []) ws (wc, tt)),
    )
