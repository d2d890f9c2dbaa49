-- ===== src/Broker/Control.antt =====
-- The records that the Host sends are what the audit of a broker says they are.
use pi86_rp.Common.{
  ℕ, ◌^◌, ◌<◌, ◌≡◌, refl, sym, ap, ◌∙◌, true, Option, some, [], arith, leb, Bytes, length, ljust,
  guard-eq-ok, >>=-eq-ok, ok_injective, value_error, ok,
}
use pi86_rp.Struct.{Fields, le, from_le, fits, layout, pack}
use pi86_rp.Struct.RoundTrip.{from_le-le, pack-eq-ok}
use pi86_rp.Protocol.{
  protocol_version, payload_size, message_format, type_workload_control, message, encode, Message,
}
use pi86_rp.Workload.{control_format}
use pi86_rp.Workload.Upload.{control_operations, control_record, ControlOperation}
use pi86_rp.Workload.Upload
use pi86_rp.Broker.{workload_control_names, decode_workload_control, OperationName, DecodedControl}

-- The name of an operation in an audit.
abbrev pub operation_name : ControlOperation → OperationName
operation_name Upload.run = OperationName.run
operation_name Upload.stop = OperationName.stop
operation_name Upload.restart = OperationName.restart
operation_name Upload.status = OperationName.status

abbrev audited_as : ControlOperation → ℕ → ℕ → Option DecodedControl
audited_as operation workload_id sequence = some (record {
  sequence = sequence;
  operation = operation_name operation;
  operation_code = some (control_operations operation);
  workload_id = some workload_id;
})

abbrev control_fields : ControlOperation → ℕ → Fields control_format
control_fields operation workload_id = (control_operations operation, (workload_id, tt))

abbrev record_fields : ℕ → Bytes → Fields message_format
record_fields sequence payload = (
  protocol_version,
  (type_workload_control, (0, (sequence, (length payload, (0, (ljust payload_size payload, tt)))))),
)

decode-layout :
    (operation : ControlOperation) (workload_id sequence : ℕ)
    → decode_workload_control (
        layout message_format
          (record_fields sequence (layout control_format (control_fields operation workload_id))))
      ≡ audited_as operation (from_le (le 4 workload_id)) (from_le (le 4 sequence))
unfolding decode_workload_control layout from_le control_operations workload_control_names
decode-layout Upload.run workload_id sequence = refl
decode-layout Upload.stop workload_id sequence = refl
decode-layout Upload.restart workload_id sequence = refl
decode-layout Upload.status workload_id sequence = refl

audited_cong :
    (operation : ControlOperation) (i j s t : ℕ)
    → i ≡ j
    → s ≡ t
    → audited_as operation i s ≡ audited_as operation j t
audited_cong operation i j s t hi hs = cc

sequence_fits :
    (sequence : ℕ) (payload : Bytes)
    → fits message_format (record_fields sequence payload) ≡ true
    → sequence < 256 ^ 4
unfolding fits
sequence_fits sequence payload h = ground arith

encode_fields :
    (sequence : ℕ) (payload : Bytes) {bytes : Bytes}
    → encode (message type_workload_control sequence payload) ≡ ok bytes
    → pack message_format (record_fields sequence payload) ≡ ok bytes
unfolding encode
encode_fields sequence payload h =
    (guard-eq-ok (leb (length payload) payload_size) (value_error "payload exceeds 52 bytes" []) _
      h).1

-- The record of a workload control, with its sequence and its operation, is decoded as that.
pub decode_workload_control-control_record :
    (operation : ControlOperation) (workload_id sequence : ℕ) {m : Message} {bytes : Bytes}
    → control_record (some operation) workload_id sequence ≡ ok m
    → encode m ≡ ok bytes
    → decode_workload_control bytes
      ≡ some (record {
        sequence = sequence;
        operation = operation_name operation;
        operation_code = some (control_operations operation);
        workload_id = some workload_id;
      })
unfolding control_record
decode_workload_control-control_record operation workload_id sequence {m} hm hb =
    let (small, h1) = guard-eq-ok (leb workload_id 0xFFFFFFFF) _ _ hm in
    let (payload, packed, h2) = >>=-eq-ok (pack control_format _) _ h1 in
    let (same_payload, e) = pack-eq-ok control_format _ packed in
    let a = layout control_format (control_fields operation workload_id) in
    let sent : message type_workload_control sequence a ≡ m =
      ap (λ (p : Bytes). message type_workload_control sequence p) e ∙ ok_injective h2 in
    let (fit, laid) =
      pack-eq-ok message_format (record_fields sequence a)
        (encode_fields sequence a (ap encode sent ∙ hb)) in
    ap decode_workload_control (sym laid)
    ∙ decode-layout operation workload_id sequence
    ∙ audited_cong operation _ workload_id _ sequence (from_le-le 4 workload_id (ground arith))
        (from_le-le 4 sequence (sequence_fits sequence a fit))
