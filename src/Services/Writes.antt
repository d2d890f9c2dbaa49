-- ===== src/Services/Writes.antt =====
-- What the memory services do to the memory of a device that grants writes.
use pi86_rp.Common.{
  ℕ, ◌+◌, ◌≤◌, ◌<◌, ◌≡◌, refl, ap, ◌∙◌, none, some, List, [], ◌∷◌, append-nil, arith, ==_refl,
  bytes_eq_refl, Bytes, length, take, All, length-append, length-take, take_all, drop_all,
  >>=-eq-ok, ok,
}
use pi86_rp.Protocol.{Message}
use pi86_rp.Sequence.{IsSequence}
use pi86_rp.Struct.{pack}
use pi86_rp.Struct.RoundTrip.{length-pack}
use pi86_rp.Memory.{memory_write, memory_end, memory_header, write_record, validate_memory_reply}
use pi86_rp.Memory.Effect.{Space, poke, apply_record, apply_records}
use pi86_rp.Memory.Write.{
  memory_write_records-All, IsWriteRecord, memory_write_records-IsWriteRecord,
}
use pi86_rp.Client.{Exchange}
use pi86_rp.Services.{send_all, write_memory, ServiceClient, answered}
use pi86_rp.Services.Memory.{memory_reply, moved, memory_request_served}

-- A device whose memory is seen through `contents`, that grants every write.
pub record GrantsWrites {W L : Type 0} (exchange : Exchange W L) (on_activity : W → W)
    (contents : W → Space) : Type 0 where
  pub activity : (w : W) → contents (on_activity w) ≡ contents w
  pub writes :
      (w : W) (request : Message)
      → IsWriteRecord request
      → (latency : L) × (after : W) × (exchange request w
          ≡ (ok (some (memory_reply request []), latency, none), after))
        × (contents after ≡ apply_record (contents w) request)

validate_write_reply :
    (request : Message)
    → IsWriteRecord request
    → validate_memory_reply (memory_reply request []) request ≡ ok []
unfolding validate_memory_reply write_record
validate_write_reply request (address, chunk, sequence, h) =
    let (header, e, h1) =
      >>=-eq-ok (pack memory_header (memory_write, (address, (length chunk, tt)))) _ h in
    let twelve : length header ≡ 12 = length-pack memory_header _ e in
    let long : 12 ≤ length request.payload = ground (arith, length-append header chunk) in
    let l : length (take 12 request.payload) ≡ 12 = omega (arith, length-take 12 request.payload) in
    rw
      (
        ==_refl request.sequence,
        append-nil (take 12 request.payload),
        take_all 12 (take 12 request.payload) (omega arith),
        l,
        bytes_eq_refl (take 12 request.payload),
        drop_all 12 (take 12 request.payload) (omega arith),
      )
      refl

module _ {W L : Type 0} (exchange : Exchange W L) (on_activity : W → W) (contents : W → Space)
    (device : GrantsWrites exchange on_activity contents) where
  send_all_granted :
      (client : ServiceClient W) (requests : List Message)
      → All IsWriteRecord requests
      → (after : ServiceClient W) × (send_all exchange on_activity requests client
          ≡ (ok (answered tt), after))
        × (contents after.world ≡ apply_records (contents client.world) requests)
  unfolding send_all apply_records
  send_all_granted client [] all = (client, refl, refl)
  send_all_granted client (request ∷ requests) (w, all) =
      let (latency, world, sent, kept) = device.writes client.world request w in
      let middle = moved exchange on_activity client request world in
      let (after, e, sees) = send_all_granted middle requests all in
      (
        after,
        rw
            (memory_request_served exchange on_activity client request (memory_reply request [])
              sent (validate_write_reply request w))
            e,
        sees ∙ ap (λ (s : Space). apply_records s requests) (device.activity world ∙ kept),
      )

  -- A write of at least one byte inside Internal SRAM, by a client whose sequence number is not 0
  -- and has 32 bits, to a device that grants every write, has no error. It leaves the data at the
  -- address and the rest of the memory as it was.
  pub write_memory-poke :
      (client : ServiceClient W) (address : ℕ) (bytes : Bytes)
      → IsSequence client.sequence.value
      → 0 < length bytes
      → address + length bytes ≤ memory_end
      → (after : ServiceClient W) × (write_memory exchange on_activity address bytes client
          ≡ (ok (answered tt), after))
        × (contents after.world ≡ poke (contents client.world) address bytes)
  unfolding write_memory
  write_memory-poke client address bytes q pos room =
      let (ms, e, _, f) = memory_write_records-All address bytes client.sequence.value pos room q in
      let (after, g, sees) =
        send_all_granted client ms
          (memory_write_records-IsWriteRecord address bytes client.sequence.value ms e) in
      (after, rw e g, sees ∙ f (contents client.world))
