-- ===== src/Services/Files/Served.antt =====
-- A file that a device serves in chunks is read whole.
use pi86_rp.Services.{after_request, send, ServiceClient, answered}
use pi86_rp.Services.Files.{
  check_chunk, end_chunk, filesystem_request, file_round, file_loop, read_file, Round, finished,
  further,
}
use pi86_rp.Common.{
  ℕ, zero, suc, ◌+◌, ◌-◌, ◌^◌, ◌≤◌, ◌<◌, ◌≡◌, refl, sym, ◌⊎◌, inl, inr, Option, none, some, List,
  [], ◌∷◌, ◌++◌, arith, leb, if◌then◌else◌, leb→le, eq→==, ==_refl, Bool-cases, Bytes, length, take,
  drop, slice, length-take, length-drop, take-add, take_all, >>=-eq-ok, ok,
}
use pi86_rp.Struct.{le, fits, layout, unsigned}
use pi86_rp.Struct.RoundTrip.{pack-fits}
use pi86_rp.Protocol.{Message}
use pi86_rp.Sequence.{advance_after}
use pi86_rp.Filesystem.{
  check_path, filesystem_record, read_request, validate_filesystem_reply, parse_read,
  filesystem_read, filesystem_read_path_bytes, ReadChunk,
}
use pi86_rp.Client.{Exchange}

-- The chunk of 40 bytes, or the rest, at an offset; the last one is flagged.
abbrev pub chunk_at : Bytes → ℕ → ReadChunk
chunk_at file offset = record {
  offset = offset;
  total_size = length file;
  chunk = slice offset (offset + 40) file;
  final = leb (length file) (offset + 40);
}

-- A device that answers every read of a path with the chunk of a file.
pub record ServesFile {W L : Type 0} (exchange : Exchange W L) (path : List ℕ) (file : Bytes)
    : Type 0 where
  pub serves :
      (w : W) (offset sequence : ℕ) (request : Message)
      → offset ≤ length file
      → read_request path offset sequence ≡ ok request
      → (reply : Message) × (latency : L) × (after : W) × (exchange request w
          ≡ (ok (some reply, latency, none), after))
        × (parse_read reply request ≡ ok (chunk_at file offset))

read_request_total :
    (path : List ℕ) (encoded : Bytes) (offset sequence : ℕ)
    → check_path path filesystem_read_path_bytes ≡ ok encoded
    → offset < 2 ^ 32
    → (request : Message) × (read_request path offset sequence ≡ ok request)
unfolding read_request fits
read_request_total path encoded offset sequence h small =
    let p = pack-fits (unsigned 4 ∷ []) (offset, tt) (ground arith) in
    (
      filesystem_record filesystem_read sequence
          ((length encoded ∷ 0 ∷ 0 ∷ layout (unsigned 4 ∷ []) (offset, tt)) ++ encoded),
      rw (h, p) refl,
    )

parse_read-validated :
    (reply request : Message) {c : ReadChunk}
    → parse_read reply request ≡ ok c
    → (b : Bytes) × (validate_filesystem_reply reply request ≡ ok b)
unfolding parse_read
parse_read-validated reply request h =
    let (b, v, _) = >>=-eq-ok (validate_filesystem_reply reply request) _ h in (b, v)

-- The client after a request.
abbrev after_chunk : {W : Type 0} → (W → W) → ServiceClient W → Message → W → ServiceClient W
after_chunk on_activity client request world = record {
  world = on_activity world;
  sequence = advance_after client.sequence request.sequence;
}

check_chunk_served :
    {W : Type 0} (offset : ℕ) (total_size : Option ℕ) (file : Bytes) (client : ServiceClient W)
    → (total_size ≡ none) ⊎ (total_size ≡ some (length file))
    → check_chunk offset total_size (chunk_at file offset) client
      ≡ (ok (answered (length file)), client)
unfolding check_chunk
check_chunk_served offset none file client h = rw (==_refl offset) refl
check_chunk_served offset (some total) file client (inl e) = cc
check_chunk_served offset (some total) file client (inr e) =
    let same : total ≡ length file = cc in
    rw (==_refl offset, eq→== (length file) total (sym same))
      (λ i. (ok (answered (same i)), client))

-- What a round makes of its chunk.
abbrev outcome : Bytes → ℕ → Bytes → Round Bytes (ℕ × ℕ × Bytes)
outcome file offset content =
    if leb (length file) (offset + 40)
    then finished file
    else further (offset + 40, length file, take (offset + 40) file)

chunk_length :
    (file : Bytes) (offset : ℕ)
    → offset + 40 ≤ length file
    → length (slice offset (offset + 40) file) ≡ 40
chunk_length file offset h =
    omega (arith, length-take (offset + 40 - offset) (drop offset file), length-drop offset file)

longer_content :
    (file : Bytes) (offset : ℕ)
    → take offset file ++ slice offset (offset + 40) file ≡ take (offset + 40) file
longer_content file offset =
    let e : offset + 40 - offset ≡ 40 = omega arith in rw e (sym (take-add offset 40 file))

module _ {W L : Type 0} (exchange : Exchange W L) (on_activity : W → W) (path : List ℕ)
    (encoded file : Bytes) (device : ServesFile exchange path file)
    (accepted_path : check_path path filesystem_read_path_bytes ≡ ok encoded)
    (small : length file < 2 ^ 32) where
  filesystem_request_served :
      (client : ServiceClient W) (request reply : Message) {latency : L} {world : W} {b : Bytes}
      → exchange request client.world ≡ (ok (some reply, latency, none), world)
      → validate_filesystem_reply reply request ≡ ok b
      → filesystem_request exchange on_activity request client
        ≡ (ok (answered reply), after_chunk on_activity client request world)
  unfolding filesystem_request send after_request
  filesystem_request_served client request reply x v = rw (x, v) refl

  end_chunk_served :
      (client : ServiceClient W) (offset : ℕ)
      → offset ≤ length file
      → end_chunk
          (chunk_at file offset)
          (length file)
          (take offset file ++ slice offset (offset + 40) file)
          client
        ≡ (
          ok (
              answered
                (if leb (length file) (offset + 40) then finished file else further (length file))),
          client,
        )
  unfolding end_chunk
  end_chunk_served client offset le = elim (Bool-cases (leb (length file) (offset + 40))) [
    | inl last ↦
        let whole = take_all (offset + 40) file (leb→le _ _ last) in
        rw (longer_content file offset, whole, last, ==_refl (length file)) refl
    | inr more ↦ let l = chunk_length file offset (ground arith) in rw (more, l) refl
  ]

  file_round_served :
      (client : ServiceClient W) (offset : ℕ) (total_size : Option ℕ)
      → offset ≤ length file
      → (total_size ≡ none) ⊎ (total_size ≡ some (length file))
      → (after : ServiceClient W) × (file_round exchange on_activity path offset total_size
            (take offset file)
            client
          ≡ (ok (answered (outcome file offset (take offset file))), after))
  unfolding file_round
  file_round_served client offset total_size le known =
      let (request, built) =
        read_request_total path encoded offset client.sequence.value accepted_path (omega arith) in
      let (reply, latency, world, sent, parsed) =
        device.serves client.world offset client.sequence.value request le built in
      let (b, valid) = parse_read-validated reply request parsed in
      let after = after_chunk on_activity client request world in
      let e : file_round exchange on_activity path offset total_size (take offset file) client
          ≡ (ok (answered (outcome file offset (take offset file))), after) =
        rw
          (
            built,
            filesystem_request_served client request reply sent valid,
            parsed,
            check_chunk_served offset total_size file after known,
            end_chunk_served after offset le,
          )
          (elim (Bool-cases (leb (length file) (offset + 40))) [
            | inl last ↦ rw last refl
            | inr more ↦
                rw (more, chunk_length file offset (ground arith), longer_content file offset) refl
          ]) in
      (after, e)

  file_loop_served :
      (fuel : ℕ) (client : ServiceClient W) (offset : ℕ) (total_size : Option ℕ)
      → offset ≤ length file
      → length file < offset + fuel
      → (total_size ≡ none) ⊎ (total_size ≡ some (length file))
      → (after : ServiceClient W) × (file_loop exchange on_activity fuel path offset total_size
            (take offset file)
            client
          ≡ (ok (answered (some file)), after))
  unfolding file_loop
  file_loop_served zero client offset total_size le enough known = absurd (omega arith)
  file_loop_served (suc fuel) client offset total_size le enough known =
      let (middle, e) = file_round_served client offset total_size le known in
      elim (Bool-cases (leb (length file) (offset + 40))) [
        | inl last ↦ (middle, rw (e, last) refl)
        | inr more ↦
            let (after, rest) =
              file_loop_served fuel middle (offset + 40) (some (length file)) (ground arith)
                (omega arith) (inr refl) in
            (after, rw (e, more) rest)
      ]

  -- A file of less than 2 ^ 32 bytes, at a path of at most 44 bytes, that a device serves in chunks of
  -- 40 bytes, is read whole in at most as many rounds as it has bytes, and one.
  pub read_file_served :
      (client : ServiceClient W)
      → (after : ServiceClient W) × (read_file exchange on_activity (length file + 1) path client
          ≡ (ok (answered (some file)), after))
  unfolding read_file
  read_file_served client =
      file_loop_served (length file + 1) client 0 none (omega arith) (omega arith) (inl refl)
