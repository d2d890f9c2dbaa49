-- ===== src/Protocol/Witness.antt =====
-- The native service witness is read back as it was written.
use pi86_rp.Common.{
  ◌≤◌, ◌≡◌, refl, ◌++◌, arith, bytes_eq_refl, Bytes, length, length-append, drop-append_exact,
  >>=-eq-ok, ok,
}
use pi86_rp.Struct.{Fields, pack}
use pi86_rp.Struct.RoundTrip.{length-pack, unpack_from-pack}
use pi86_rp.Protocol.{
  payload_size, native_witness_magic, native_witness_version, native_witness_format, encode_witness,
  decode_witness, NativeServiceWitness,
}

abbrev witness_fields : NativeServiceWitness → Fields native_witness_format
witness_fields w = (
  native_witness_magic,
  (w.version, (w.service_type, (w.flags, (w.boot_id, (w.cpu_sequence, (w.command_sequence, tt)))))),
)

encode_witness-eq-ok :
    (w : NativeServiceWitness) {p : Bytes}
    → encode_witness w ≡ ok p
    → (header : Bytes) × (pack native_witness_format (witness_fields w) ≡ ok header)
      × (p ≡ header ++ w.witness_text)
      × (length p ≤ 52)
unfolding encode_witness
encode_witness-eq-ok w h =
    let (header, e, h1) = >>=-eq-ok (pack native_witness_format (witness_fields w)) _ h in
    (header, e, ground arith, ground arith)

-- A witness of the supported version is read back from the payload that it was encoded to.
decode_witness-encode_witness :
    (w : NativeServiceWitness) (p : Bytes)
    → w.version ≡ native_witness_version
    → encode_witness w ≡ ok p
    → (length p ≤ payload_size) × (decode_witness p ≡ ok w)
unfolding decode_witness
decode_witness-encode_witness w p v h =
    let (header, e, split, fit) = encode_witness-eq-ok w h in
    (
      fit,
      ground (
        arith,
        bytes_eq_refl native_witness_magic,
        length-pack native_witness_format (witness_fields w) e,
        length-append header w.witness_text,
        unpack_from-pack native_witness_format (witness_fields w) w.witness_text e (refl, tt),
        drop-append_exact 20 header w.witness_text
            (length-pack native_witness_format (witness_fields w) e),
      ),
    )
