-- ===== src/Replies/Complete.antt =====
-- Which replies are accepted, and what a live reply proves.
use pi86_rp.Common.{
  ◌≡◌, refl, ◌⊎◌, inl, true, false, Option, none, some, [], ◌∷◌, arith, ◌==◌, if◌then◌else◌, elem,
  Bytes, >>=-eq-ok, guard-eq-ok, ok,
}
use pi86_rp.Protocol.{
  type_command, type_result, type_heartbeat, status_ok, processor_eq, witness_processor,
  decode_witness, Processor, intel_8086, nec_v30, NativeServiceWitness, Message,
}
use pi86_rp.Replies.{
  receive, processor_matches, validate_witness, validate_live_reply, validate_service_reply,
  validate_workload_reply, validate_device_reply,
}
use pi86_rp.Replies.Sound.{reply_types, passes_negative}

-- Outside the live services, every well-typed reply with the request's sequence is accepted, if
-- its status is 0 or the service hands negative replies on.
pub validate_device_reply_complete :
    (report : Bytes) (request : Message) (expected : Option Processor) (reply : Message)
    → elem request.message_type (type_command ∷ type_heartbeat ∷ []) ≡ false
    → receive report ≡ ok reply
    → elem reply.message_type (reply_types request.message_type) ≡ true
    → reply.sequence ≡ request.sequence
    → (reply.status ≡ status_ok) ⊎ (passes_negative request.message_type ≡ true)
    → validate_device_reply report request expected ≡ ok reply
unfolding validate_device_reply validate_service_reply validate_workload_reply
validate_device_reply_complete report request expected reply service r t s st = ground arith

validate_witness-eq-ok :
    (request : Message) (expected : Option Processor) (w : NativeServiceWitness) {u : Unit {0}}
    → validate_witness request expected w ≡ ok u
    → (w.service_type ≡ request.message_type)
      × (processor_matches expected (witness_processor w) ≡ true)
unfolding validate_witness
validate_witness-eq-ok request expected w h = ground arith

processor_matches_sound :
    (e f : Option Processor) → processor_matches e f ≡ true → (e ≡ none) ⊎ (f ≡ e)
unfolding processor_matches processor_eq
processor_matches_sound none f h = inl refl
processor_matches_sound (some e) none h = cc
processor_matches_sound (some intel_8086) (some f) h = ground arith
processor_matches_sound (some nec_v30) (some f) h = ground arith

-- A live reply that is accepted carries a witness for the service of the request, and if a
-- processor is expected, the witness shows that processor.
pub validate_live_reply_witness :
    (report : Bytes) (request : Message) (expected : Option Processor) (reply : Message)
    → validate_live_reply report request expected ≡ ok reply
    → (w : NativeServiceWitness) × (decode_witness reply.payload ≡ ok w)
      × (w.service_type ≡ request.message_type)
      × ((expected ≡ none) ⊎ (witness_processor w ≡ expected))
unfolding validate_live_reply
validate_live_reply_witness report request expected reply h =
    let (m, r, h1) = >>=-eq-ok (receive report) _ h in
    let (_, h2) =
      guard-eq-ok
        (m.message_type
          == (if request.message_type == type_command then type_result else type_heartbeat))
        _ _ h1 in
    let (_, h3) = guard-eq-ok (m.sequence == request.sequence) _ _ h2 in
    let (_, h4) = guard-eq-ok (m.status == status_ok) _ _ h3 in
    let (w, d, h5) = >>=-eq-ok (decode_witness m.payload) _ h4 in
    let (u, v, h6) = >>=-eq-ok (validate_witness request expected w) _ h5 in
    let (service, matches) = validate_witness-eq-ok request expected w v in
    (w, ground arith, service, processor_matches_sound expected (witness_processor w) matches)
