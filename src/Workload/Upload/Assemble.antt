-- ===== src/Workload/Upload/Assemble.antt =====
-- A receiver that takes the data records in order has the image back.
use pi86_rp.Common.{
  ℕ, zero, suc, ◌+◌, ◌-◌, ◌/◌, ◌^◌, ◌≤◌, ◌<◌, ◌≡◌, refl, sym, ap, inl, inr, true, ◌&&◌, Option,
  none, some, List, [], ◌∷◌, ◌++◌, arith, ltb, ◌==◌, if◌then◌else◌, ltb→lt, le→leb, eq→==, ==_refl,
  Bool-cases, Bytes, length, take, drop, All, length-append, length-take, drop-append_exact,
  take-add, take_all, All-append, Result, ok, err,
}
use pi86_rp.Struct.{Fields, fits, layout, unpack, unpack_from}
use pi86_rp.Struct.RoundTrip.{length-layout, pack-fits, length-pack, unpack-pack, unpack_from-pack}
use pi86_rp.Protocol.{
  type_workload_begin, type_workload_data, type_workload_commit, message, Message,
}
use pi86_rp.Protocol.Records.{IsWire}
use pi86_rp.Workload.{
  begin_prefix, data_prefix, commit_format, data_bytes, decode_manifest, image_matches,
  WorkloadManifest,
}
use pi86_rp.Workload.Valid.{IsValid}
use pi86_rp.Workload.Files.{encode_manifest_total, encode_workload_file_total, image_matches_sound}
use pi86_rp.Workload.Upload.{
  image_chunk, data_record, data_loop, upload_records, decode_data_payload,
}

assemble_chunk : ℕ → Bytes → Result (ℕ × ℕ × Bytes) → Option Bytes
assemble_chunk transfer_id held (ok (id, offset, chunk)) =
    if (id == transfer_id) && (offset == length held) then some (held ++ chunk) else none
assemble_chunk transfer_id held (err e) = none

abbrev and_then : Option Bytes → (Bytes → Option Bytes) → Option Bytes
and_then none f = none
and_then (some b) f = f b

-- The receiver: every record must belong to the transfer and continue what is held.
unfoldable pub assemble : ℕ → Bytes → List Message → Option Bytes
unfolding assemble_chunk
assemble transfer_id held [] = some held
assemble transfer_id held (m ∷ ms) =
    and_then (assemble_chunk transfer_id held (decode_data_payload m.payload))
      (λ held'. assemble transfer_id held' ms)

decode_data_payload-data_record :
    (transfer_id : ℕ) (image : Bytes) (offset sequence : ℕ)
    → transfer_id < 2 ^ 32
    → offset < 2 ^ 32
    → sequence < 2 ^ 32
    → (m : Message) × (data_record transfer_id image offset sequence ≡ ok m)
      × (decode_data_payload m.payload ≡ ok (transfer_id, offset, image_chunk image offset))
      × (m.message_type ≡ type_workload_data)
      × (m.sequence ≡ sequence)
      × IsWire m
unfolding data_record decode_data_payload fits
decode_data_payload-data_record transfer_id image offset sequence ht ho hs =
    let v : Fields data_prefix = (transfer_id, (offset, tt)) in
    let fit : fits data_prefix v ≡ true = ground arith in
    let p = pack-fits data_prefix v fit in
    let prefix = layout data_prefix v in
    let chunk = image_chunk image offset in
    let l = length-layout data_prefix v in
    let n = length-append prefix chunk in
    let c = length-take (offset + data_bytes - offset) (drop offset image) in
    (
      message type_workload_data sequence (prefix ++ chunk),
      rw p refl,
      rw
          (
            le→leb 8 (length (prefix ++ chunk)) (omega arith),
            unpack_from-pack data_prefix v chunk p tt,
            drop-append_exact 8 prefix chunk l,
          )
          refl,
      refl,
      refl,
      ground arith,
    )

-- The numbers of records go up by one.
abbrev pub IsNumbered : ℕ → List Message → Type 0
IsNumbered n [] = Unit
IsNumbered n (m ∷ ms) = (m.sequence ≡ n) × IsNumbered (n + 1) ms

-- Rounds that are left from `offset` on.
abbrev pub rounds : ℕ → ℕ → ℕ
rounds len offset = (len - offset + 43) / 44

held_grows :
    (image : Bytes) (offset : ℕ)
    → take offset image ++ image_chunk image offset ≡ take (offset + data_bytes) image
held_grows image offset =
    let e : offset + data_bytes - offset ≡ data_bytes = omega arith in
    rw e (sym (take-add offset data_bytes image))

no_rounds :
    (image : Bytes) (offset sequence : ℕ)
    → length image ≤ offset
    → ◌≡◌ {A = Result (List Message × ℕ)}
        (ok ([], sequence))
        (ok ([], sequence + rounds (length image) offset))
no_rounds image offset sequence h =
    let e : sequence ≡ sequence + rounds (length image) offset = omega arith in λ i. ok ([], e i)

one_round :
    (image : Bytes) (offset sequence : ℕ) (ms : List Message)
    → offset < length image
    → ◌≡◌ {A = Result (List Message × ℕ)}
        (ok (ms, sequence + 1 + rounds (length image) (offset + data_bytes)))
        (ok (ms, sequence + rounds (length image) offset))
one_round image offset sequence ms h =
    let e : sequence + 1 + rounds (length image) (offset + data_bytes)
        ≡ sequence + rounds (length image) offset =
      omega arith in
    λ i. ok (ms, e i)

step :
    (transfer_id : ℕ) (image : Bytes) (offset : ℕ) (m : Message) (ms : List Message)
    → decode_data_payload m.payload ≡ ok (transfer_id, offset, image_chunk image offset)
    → assemble transfer_id (take (offset + data_bytes) image) ms ≡ some image
    → offset ≤ length image
    → assemble transfer_id (take offset image) (m ∷ ms) ≡ some image
unfolding assemble
step transfer_id image offset m ms d a h =
    rw
      (
        d,
        ==_refl transfer_id,
        eq→== offset (length (take offset image)) (omega (arith, length-take offset image)),
        held_grows image offset,
      )
      a

data_loop_assembles :
    (fuel transfer_id : ℕ) (image : Bytes) (offset sequence : ℕ)
    → length image ≤ offset + fuel
    → offset ≤ length image + 43
    → length image < 2 ^ 31
    → transfer_id < 2 ^ 32
    → sequence + rounds (length image) offset < 2 ^ 32
    → (ms : List Message) × (data_loop fuel transfer_id image offset sequence
        ≡ ok (ms, sequence + rounds (length image) offset))
      × (assemble transfer_id (take offset image) ms ≡ some image)
      × All IsWire ms
      × All (λ m. m.message_type ≡ type_workload_data) ms
      × IsNumbered sequence ms
unfolding data_loop assemble
data_loop_assembles zero transfer_id image offset sequence enough near small ht hs = (
  [],
  no_rounds image offset sequence (omega arith),
  ap some (take_all offset image (omega arith)),
  tt,
  tt,
  tt,
)
data_loop_assembles (suc fuel) transfer_id image offset sequence enough near small ht hs =
    elim (Bool-cases (ltb offset (length image))) [
      | inr done ↦ (
        [],
        rw done (no_rounds image offset sequence (ground arith)),
        ap some (take_all offset image (ground arith)),
        tt,
        tt,
        tt,
      )
      | inl more ↦
          let (m, e, d, ty, sq, w) =
            decode_data_payload-data_record transfer_id image offset sequence ht (ground arith)
              (omega arith) in
          let (ms, es, a, ws, tys, sqs) =
            data_loop_assembles fuel transfer_id image (offset + data_bytes) (sequence + 1)
              (omega arith) (ground arith) small ht (ground arith) in
          (
            m ∷ ms,
            rw (more, e, es) (one_round image offset sequence (m ∷ ms) (ltb→lt _ _ more)),
            step transfer_id image offset m ms d a (ground arith),
            (w, ws),
            (ty, tys),
            (sq, sqs),
          )
    ]

-- An upload of a valid manifest with its image, with a 32-bit transfer number and sequences that
-- stay below 2 ^ 32, is a record of type BEGIN under the first sequence, with the transfer number and
-- the manifest, records of type DATA whose sequences go on by one and which a receiver assembles to
-- the image, and a record of type COMMIT under the last sequence, with the transfer number and the
-- CRC; all fit the wire.
pub upload_records-assemble :
    (m : WorkloadManifest) (image : Bytes) (transfer_id first : ℕ)
    → IsValid m
    → image_matches m image ≡ true
    → transfer_id < 2 ^ 32
    → first + 1 + rounds (length image) 0 < 2 ^ 32
    → (begin commit : Message) × (chunks : List Message) × (upload_records m image transfer_id first
        ≡ ok ((begin ∷ chunks) ++ commit ∷ []))
      × (begin.message_type ≡ 0x20)
      × (begin.sequence ≡ first)
      × (unpack_from begin_prefix begin.payload 0 ≡ ok (transfer_id, tt))
      × (decode_manifest (drop 4 begin.payload) ≡ ok m)
      × All (λ chunk. chunk.message_type ≡ 0x21) chunks
      × IsNumbered (first + 1) chunks
      × (assemble transfer_id [] chunks ≡ some image)
      × (unpack commit_format commit.payload ≡ ok (transfer_id, (m.image_crc32, tt)))
      × (commit.message_type ≡ 0x22)
      × (commit.sequence ≡ first + 1 + rounds (length image) 0)
      × All IsWire ((begin ∷ chunks) ++ commit ∷ [])
unfolding upload_records fits
upload_records-assemble m image transfer_id first v t ht hs =
    let (size_eq, _) = image_matches_sound m image t in
    let (file, ef) = encode_workload_file_total m image v t in
    let (header, eh, lh, dh) = encode_manifest_total m v in
    let fit : fits begin_prefix (transfer_id, tt) ≡ true = ground arith in
    let fit' : fits commit_format (transfer_id, (m.image_crc32, tt)) ≡ true = ground arith in
    let prefix = layout begin_prefix (transfer_id, tt) in
    let lp : length prefix ≡ 4 = length-layout begin_prefix (transfer_id, tt) in
    let pc = pack-fits commit_format (transfer_id, (m.image_crc32, tt)) fit' in
    let lc = length-pack commit_format (transfer_id, (m.image_crc32, tt)) pc in
    let (ms, el, a, ws, tys, sqs) =
      data_loop_assembles (length image) transfer_id image 0 (first + 1) (omega arith) (omega arith)
        (omega arith) ht hs in
    let begin = message type_workload_begin first (prefix ++ header) in
    let commit =
      message type_workload_commit (first + 1 + rounds (length image) 0)
        (layout commit_format (transfer_id, (m.image_crc32, tt))) in
    let wb : IsWire begin = ground (arith, length-append prefix header) in
    let wc : IsWire commit = ground arith in
    (
      begin,
      commit,
      ms,
      rw
          (
            ef,
            le→leb transfer_id 0xFFFFFFFF (omega arith),
            pack-fits begin_prefix (transfer_id, tt) fit,
            eh,
            el,
            pc,
          )
          refl,
      refl,
      refl,
      unpack_from-pack begin_prefix (transfer_id, tt) header
          (pack-fits begin_prefix (transfer_id, tt) fit) tt,
      rw (drop-append_exact 4 prefix header lp) dh,
      tys,
      sqs,
      a,
      unpack-pack commit_format (transfer_id, (m.image_crc32, tt)) pc tt,
      refl,
      refl,
      (wb, All-append IsWire ms (commit ∷ []) ws (wc, tt)),
    )
