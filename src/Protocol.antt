-- ===== src/Protocol.antt =====
-- host/rp86/protocol.py: the 64-byte Host Protocol record and the native service witness that
-- live replies carry in their payload.
use pi86_rp.Common.{
  ℕ, bit_and, Bool, true, false, Option, none, some, [], ◌∷◌, ◌++◌, leb, ◌==◌, if◌then◌else◌,
  bytes_eq, ascii, Bytes, length, take, drop, ljust, ◌>>=◌, ◌>>◌, guard, value_error, Result, ok,
}
use pi86_rp.Struct.{Format, size, pack, unpack, unpack_from, unsigned, text}
pub mod Records
pub mod Witness

abbrev pub protocol_version : ℕ
protocol_version = 1

abbrev pub payload_size : ℕ
payload_size = 52

abbrev pub message_size : ℕ
message_size = 64

-- "<BBHIHH52s"
abbrev pub message_format : Format
message_format =
    unsigned 1 ∷ unsigned 1 ∷ unsigned 2 ∷ unsigned 4 ∷ unsigned 2 ∷ unsigned 2 ∷ text 52 ∷ []

abbrev pub native_witness_magic : Bytes
native_witness_magic = ascii "P86N"

abbrev pub native_witness_version : ℕ
native_witness_version = 1

-- "<4sBBHIII"
abbrev pub native_witness_format : Format
native_witness_format =
    text 4 ∷ unsigned 1 ∷ unsigned 1 ∷ unsigned 2 ∷ unsigned 4 ∷ unsigned 4 ∷ unsigned 4 ∷ []

abbrev pub native_processor_mask : ℕ
native_processor_mask = 0x0003

abbrev pub type_text : ℕ
type_text = 2

abbrev pub type_command : ℕ
type_command = 4

abbrev pub type_result : ℕ
type_result = 5

abbrev pub type_heartbeat : ℕ
type_heartbeat = 6

abbrev pub type_workload_begin : ℕ
type_workload_begin = 0x20

abbrev pub type_workload_data : ℕ
type_workload_data = 0x21

abbrev pub type_workload_commit : ℕ
type_workload_commit = 0x22

abbrev pub type_workload_control : ℕ
type_workload_control = 0x23

abbrev pub type_workload_status : ℕ
type_workload_status = 0x24

abbrev pub type_workload_result : ℕ
type_workload_result = 0x25

abbrev pub type_workload_timeout_request : ℕ
type_workload_timeout_request = 0x26

abbrev pub type_workload_timeout_result : ℕ
type_workload_timeout_result = 0x27

abbrev pub type_runtime_control : ℕ
type_runtime_control = 0x30

abbrev pub type_runtime_status : ℕ
type_runtime_status = 0x31

abbrev pub type_filesystem_request : ℕ
type_filesystem_request = 0x40

abbrev pub type_filesystem_result : ℕ
type_filesystem_result = 0x41

abbrev pub type_memory_request : ℕ
type_memory_request = 0x50

abbrev pub type_memory_result : ℕ
type_memory_result = 0x51

abbrev pub type_diagnostics_request : ℕ
type_diagnostics_request = 0x60

abbrev pub type_diagnostics_result : ℕ
type_diagnostics_result = 0x61

abbrev pub status_ok : ℕ
status_ok = 0

abbrev pub status_bad_state : ℕ
status_bad_state = 8

-- The names that the source gives to the processors.
pub data Processor : Type 0 where
  intel_8086 nec_v30 : Processor

unfoldable pub processor_eq : Processor → Processor → Bool
processor_eq intel_8086 intel_8086 = true
processor_eq intel_8086 nec_v30 = false
processor_eq nec_v30 intel_8086 = false
processor_eq nec_v30 nec_v30 = true

pub record NativeServiceWitness : Type 0 where
  pub service_type : ℕ
  pub boot_id : ℕ
  pub cpu_sequence : ℕ
  pub command_sequence : ℕ
  pub witness_text : Bytes
  pub flags : ℕ
  pub version : ℕ

-- `NATIVE_PROCESSOR_NAMES.get(self.flags & NATIVE_PROCESSOR_MASK)`
unfoldable pub native_processor_names : ℕ → Option Processor
native_processor_names identity =
    if identity == 0x0001
    then some intel_8086
    else if identity == 0x0002
    then some nec_v30
    else none

unfoldable pub witness_processor : NativeServiceWitness → Option Processor
unfolding native_processor_names
witness_processor w = native_processor_names (bit_and w.flags native_processor_mask)

unfoldable pub encode_witness : NativeServiceWitness → Result Bytes
encode_witness w = do
  header ← pack native_witness_format (
    native_witness_magic,
    (
      w.version,
      (w.service_type, (w.flags, (w.boot_id, (w.cpu_sequence, (w.command_sequence, tt))))),
    ),
  )
  let payload = header ++ w.witness_text
  guard (leb (length payload) payload_size)
      (value_error "native service witness exceeds bridge payload" [])
  ok payload

unfoldable pub decode_witness : Bytes → Result NativeServiceWitness
decode_witness payload = do
  guard (leb (size native_witness_format) (length payload))
      (value_error "native service witness is truncated" [])
  (magic, (version, (service_type, (flags, (boot_id, (cpu_seq, (command_seq, _))))))) ←
      unpack_from native_witness_format payload 0
  guard (bytes_eq magic native_witness_magic)
      (value_error "native service witness magic mismatch" [])
  guard (version == native_witness_version)
      (value_error "unsupported native service witness version" (version ∷ []))
  ok (record {
    service_type = service_type;
    boot_id = boot_id;
    cpu_sequence = cpu_seq;
    command_sequence = command_seq;
    witness_text = drop (size native_witness_format) payload;
    flags = flags;
    version = version;
  })

pub record Message : Type 0 where
  pub message_type : ℕ
  pub sequence : ℕ
  pub payload : Bytes
  pub flags : ℕ
  pub status : ℕ
  pub version : ℕ

-- A message with the defaults of the class for what is not given.
abbrev pub message : ℕ → ℕ → Bytes → Message
message message_type sequence payload = record {
  message_type = message_type;
  sequence = sequence;
  payload = payload;
  flags = 0;
  status = 0;
  version = protocol_version;
}

unfoldable pub encode : Message → Result Bytes
encode m = do
  guard (m.version == protocol_version)
      (value_error "unsupported protocol version" (m.version ∷ []))
  guard (leb (length m.payload) payload_size) (value_error "payload exceeds 52 bytes" [])
  pack message_format (
    m.version,
    (
      m.message_type,
      (m.flags, (m.sequence, (length m.payload, (m.status, (ljust payload_size m.payload, tt))))),
    ),
  )

unfoldable pub decode : Bytes → Result Message
decode bytes = do
  guard (length bytes == message_size) (value_error "record must be exactly 64 bytes" [])
  (version, (message_type, (flags, (sequence, (len, (status, (payload, _))))))) ←
      unpack message_format bytes
  guard (version == protocol_version) (value_error "unsupported protocol version" (version ∷ []))
  guard (leb len payload_size) (value_error "invalid payload length" (len ∷ []))
  ok (record {
    message_type = message_type;
    sequence = sequence;
    payload = take len payload;
    flags = flags;
    status = status;
    version = version;
  })
