-- ===== src/Services/Memory.antt =====
-- What the memory services do to the sequence, and over a device that answers them.
use pi86_rp.Common.{
  ℕ, zero, suc, ◌+◌, ◌-◌, ◌≤◌, ◌<◌, min, String, ◌≡◌, refl, ap, ◌∙◌, inl, inr, Option, none, some,
  [], ◌++◌, arith, ltb, ltb→lt, le→leb, eq→==, ==_refl, Bool-cases, bytes_eq_refl, Bytes, length,
  take, length-append, take-append_exact, drop-append_exact, take_all, ok,
}
use pi86_rp.Protocol.{type_memory_result, message, Message}
use pi86_rp.Sequence.{new_sequence, advance_after, IsSequence, wrap_sequence-IsSequence}
use pi86_rp.Struct.RoundTrip.{length-pack, unpack_from-pack}
use pi86_rp.Memory.{
  memory_end, memory_header, memory_read_request, validate_memory_reply, parse_memory_read,
}
use pi86_rp.Memory.Effect.{Space, peek, length-peek, peek-add}
use pi86_rp.Memory.Read.{
  read_fields, memory_read_request_total, memory_read_request-eq-ok, parse_memory_read-eq-ok,
}
use pi86_rp.Client.{Exchange}
use pi86_rp.Services.{
  after_request, send, memory_request, read_chunk, read_loop, read_memory, ServiceClient, answered,
}

-- The reply of a device that served the request, with the data that it read.
abbrev pub memory_reply : Message → Bytes → Message
memory_reply request bytes =
    message type_memory_result request.sequence (take 12 request.payload ++ bytes)

-- A device whose memory is seen through `contents`, that serves every read.
pub record ServesReads {W L : Type 0} (exchange : Exchange W L) (on_activity : W → W)
    (contents : W → Space) : Type 0 where
  pub activity : (w : W) → contents (on_activity w) ≡ contents w
  pub reads :
      (w : W) (address len sequence : ℕ) (request : Message)
      → memory_read_request address len sequence ≡ ok request
      → (latency : L) × (after : W) × (exchange request w ≡ (
        ok (some (memory_reply request (peek (contents w) address len)), latency, none),
        after,
      ))
        × (contents after ≡ contents w)

-- The data that a device puts into its reply is read out of it.
parse_memory_read-memory_reply :
    (address len sequence : ℕ) (request : Message) (b : Bytes)
    → memory_read_request address len sequence ≡ ok request
    → length b ≡ len
    → parse_memory_read (memory_reply request b) request ≡ ok b
unfolding parse_memory_read validate_memory_reply
parse_memory_read-memory_reply address len sequence request b h l =
    let (_, e) = memory_read_request-eq-ok address len sequence request h in
    let twelve : length request.payload ≡ 12 =
      length-pack memory_header (read_fields address len) e in
    rw
      (
        ==_refl request.sequence,
        take_all 12 request.payload (omega arith),
        take-append_exact 12 request.payload b twelve,
        drop-append_exact 12 request.payload b twelve,
        length-append request.payload b,
        le→leb 12 (length request.payload + length b) (omega arith),
        bytes_eq_refl request.payload,
        unpack_from-pack memory_header (read_fields address len) b e tt,
        eq→== (length b) len l,
      )
      refl

module _ {W L : Type 0} (exchange : Exchange W L) (on_activity : W → W) where
  -- The client after a request.
  abbrev pub moved : ServiceClient W → Message → W → ServiceClient W
  moved client request world = record {
    world = on_activity world;
    sequence = new_sequence (request.sequence + 1);
  }

  pub memory_request_served :
      (client : ServiceClient W) (request reply : Message) {latency : L} {error : Option String}
      {world : W} {b : Bytes}
      → exchange request client.world ≡ (ok (some reply, latency, error), world)
      → validate_memory_reply reply request ≡ ok b
      → memory_request exchange on_activity request client
        ≡ (ok (answered reply), moved client request world)
  unfolding memory_request send after_request new_sequence advance_after
  memory_request_served client request reply x v = rw (x, v) refl

  module _ (contents : W → Space) (device : ServesReads exchange on_activity contents) where
    -- A client between two rounds.
    abbrev Sees : Space → ServiceClient W → Type 0
    Sees s client = (contents client.world ≡ s) × IsSequence client.sequence.value

    read_chunk_served :
        (s : Space) (client : ServiceClient W) (address len : ℕ) (content : Bytes)
        → Sees s client
        → length content < len
        → address + len ≤ memory_end
        → (after : ServiceClient W) × (read_chunk exchange on_activity address len content client
            ≡ (
              ok (
                  answered
                    (content ++ peek s (address + length content) (min 40 (len - length content)))),
              after,
            ))
          × Sees s after
    unfolding read_chunk
    read_chunk_served s client address len content (same, q) more room =
        let at = address + length content in
        let size = min 40 (len - length content) in
        let (request, build_ok, wire, sq, _) =
          memory_read_request_total at size client.sequence.value (omega arith) (omega arith)
            (omega arith) q.1 in
        let (latency, world, sent, kept) =
          device.reads client.world at size client.sequence.value request build_ok in
        let found = peek (contents client.world) at size in
        let parsed =
          parse_memory_read-memory_reply at size client.sequence.value request found build_ok
            (length-peek (contents client.world) at size) in
        let (v, valid, _, _) =
          parse_memory_read-eq-ok (memory_reply request found) request parsed in
        (
          moved client request world,
          rw
              (
                build_ok,
                memory_request_served client request (memory_reply request found) sent valid,
                parsed,
                ← same,
              )
              refl,
          (
            device.activity world ∙ kept ∙ same,
            unfold new_sequence in wrap_sequence-IsSequence (request.sequence + 1),
          ),
        )

    peek_more :
        (s : Space) (address : ℕ) (content : Bytes) (size : ℕ)
        → content ≡ peek s address (length content)
        → content ++ peek s (address + length content) size
          ≡ peek s address (length (content ++ peek s (address + length content) size))
    peek_more s address content size h =
        rw
          (
            length-append content (peek s (address + length content) size),
            length-peek s (address + length content) size,
            peek-add s address (length content) size,
          )
          (ap (λ (c : Bytes). c ++ peek s (address + length content) size) h)

    read_loop_served :
        (fuel : ℕ) (s : Space) (client : ServiceClient W) (address len : ℕ) (content : Bytes)
        → Sees s client
        → length content ≤ len
        → len ≤ length content + fuel
        → address + len ≤ memory_end
        → content ≡ peek s address (length content)
        → (after : ServiceClient W) × (read_loop exchange on_activity fuel address len content
              client
            ≡ (ok (answered (peek s address len)), after))
          × Sees s after
    unfolding read_loop
    read_loop_served zero s client address len content sees small enough room read =
        let e : length content ≡ len = omega arith in
        (client, ap (λ (c : Bytes). (ok (answered c), client)) (read ∙ ap (peek s address) e), sees)
    read_loop_served (suc fuel) s client address len content sees small enough room read =
        elim (Bool-cases (ltb (length content) len)) [
          | inl more ↦
              let size = min 40 (len - length content) in
              let got = peek s (address + length content) size in
              let (middle, e, sees1) =
                read_chunk_served s client address len content sees (ltb→lt _ _ more) room in
              let l : length (content ++ got) ≡ length content + size =
                length-append content got
                ∙ ap (λ (n : ℕ). length content + n)
                    (length-peek s (address + length content) size) in
              let (after, e2, sees2) =
                read_loop_served fuel s middle address len (content ++ got) sees1 (omega arith)
                  (omega (arith, ltb→lt _ _ more)) room (peek_more s address content size read) in
              (after, rw (more, e) e2, sees2)
          | inr done ↦
              let e : length content ≡ len = ground arith in
              (
                client,
                rw done
                    (ap (λ (c : Bytes). (ok (answered c), client)) (read ∙ ap (peek s address) e)),
                sees,
              )
        ]

    -- A read of any number of bytes inside Internal SRAM, by a client whose sequence number is not 0
    -- and has 32 bits, from a device that serves every read, returns the bytes of the memory. It
    -- leaves the client with such a sequence number, and the memory as it was.
    pub read_memory-peek :
        (client : ServiceClient W) (address len : ℕ)
        → IsSequence client.sequence.value
        → address + len ≤ memory_end
        → (after : ServiceClient W) × (read_memory exchange on_activity address len client
            ≡ (ok (answered (peek (contents client.world) address len)), after))
          × (contents after.world ≡ contents client.world)
          × IsSequence after.sequence.value
    unfolding read_memory
    read_memory-peek client address len q room =
        let (after, e, sees) =
          read_loop_served len (contents client.world) client address len [] (refl, q) (omega arith)
            (omega arith) room (unfold peek in refl) in
        (after, e, sees.0, sees.1)
