-- ===== src/Lib.antt =====
-- The Host of the RP86 system: what host/rp86 sends to the RP2350 companion of an 8086 or V30
-- processor, what it accepts as a reply, and how it keeps its state between requests.
--
-- The Host talks to the device in records of 64 bytes over USB HID. A client builds a request,
-- with the number that RequestSequence holds, the request channel sends it and picks the reply out
-- of what the device sends, and the client checks the reply and moves its state on. A broker owns a
-- device and passes records on for other programs, start_workload.py among them. The binary
-- laboratory runs the same binaries under an emulator and reads the object files they are made of.
--
-- Modules and sources (paths from the repository's root; host/rp86, and Trace, Omf,
-- Symbols, Layout and Loader of tools/ia16_lab):
--   Struct        Python's struct, as far as the records use it
--   Crc           zlib.crc32
--   Protocol      host/rp86/protocol.py: Message and NativeServiceWitness (encode, decode)
--   Replies       host/rp86/core.py: hid_output_report, normalize_hid_input, validate_live_reply,
--                 validate_device_reply; is_calculator_payload of host/rp86/calculator.py
--   Sequence      RequestSequence of host/rp86/runtime_state.py
--   Runtime       host/rp86/runtime_state.py: WorkloadRuntimeState, ProcessorObservationState;
--                 decode_structured_status_payload of host/rp86/workload.py (as from_payload);
--                 regression_failure_reasons of host/rp86/session_evidence.py
--   Memory        host/rp86/memory.py; Memory.Effect says what a write record does to a memory
--   Mailbox       host/rp86/mailbox.py: MailboxHeader and mailbox_commit_records
--   Workload      host/rp86/workload.py: manifests and files; Workload.Upload has upload_records,
--                 decode_data_payload and control_record; Workload.Options has
--                 parse_number, parse_far_pointer and workload_from_bytes
--   Timeout       host/rp86/workload_timeout.py: timeout_request and WorkloadTimeout.from_reply
--   Diagnostics   host/rp86/diagnostics.py: diagnostics_request and BusDiagnostics.from_reply
--   Filesystem    host/rp86/filesystem.py: requests, write_records and the checks of replies
--   Channel       host/rp86/request_channel.py: exchange_hid_request
--   Client        what the two clients below share
--   Transactions  host/rp86/workload_client.py: WorkloadClient.transact
--   Services      host/rp86/service_client.py: the memory, diagnostics and timeout methods;
--                 Services.Files has read_file and read_directory
--   Telemetry     host/rp86/freertos_system.py: decoding, read_stable_telemetry, sustained_progress
--   Trace         tools/ia16_lab/trace.py: TraceRecorder; RegisterState of tools/ia16_lab/machine.py
--   Loader        tools/ia16_lab/loader.py
--   Omf           tools/ia16_lab/omf.py: _records, parse_omf_bytes; Omf.Contributions has
--                 contribution_bases
--   Symbols       tools/ia16_lab/symbols.py: SymbolTable
--   Layout        tools/ia16_lab/freertos75_layout.py: resolve_layout and what it calls
--   Broker        host/rp86/broker.py: BrokerState, DeviceBroker (transition, the control audit,
--                 publish, pending, stop); Broker.Requests has _handle_client, Broker.Discovery
--                 BrokerRecord, discover_brokers and select_broker
--   StartWorkload host/rp86/start_workload.py: _exchange and main behind the broker's hello
--   Transport     host/rp86/transport.py: send_bootloader_request, send_reboot_request,
--                 send_status_request, exchange_hid_runtime_control, select_cdc_port,
--                 resolve_cdc_port
--   Evidence      host/rp86/session_evidence.py: SessionEvidence (capture, bind_workload,
--                 workload_snapshot, observe_workload)
--   History       CommandHistory of host/rp86/shell_commands.py
--   Ownership     host/rp86/device_ownership.py: DeviceOwnership, with processes that contend
--   Examples      the theorems at concrete inputs
--
-- A bytes object is a list of numbers and an exception is a value of Result, whose text is cut to
-- what tells it apart. Python's numbers are natural numbers here: no argument is negative. A
-- method that changes an object returns the new one. The exchange of one request, which may
-- raise, the callbacks, which do not, and the world they act on are parameters of the clients; the rounds of the request channel are a
-- list of what each read and each poll of the transport returned before the deadline.
--
-- Loops whose end the code finds by a test run on fuel: the chunk loops of memory writes, uploads
-- and file transfers get the length of the data, since every round takes a byte at least, and the
-- loop of read_memory gets the length that is asked for, since an accepted chunk is never empty. The
-- rounds of read_file and read_directory are bounded by the device alone: they run on given fuel and
-- return `none` when it is used up. A file needs one round more than it has bytes at most.
--
-- The loops over an object file get the length of what they read, since every round takes a byte at
-- least.
--
-- The broker's threads are steps on one state: a line of a client, an answer of the actor, and the
-- two halves of a publication may come in any order. What unlinking the registry file does, and
-- whether the thread ends in time, are arguments of a stop. JSON, base64 and the calls of the broker by
-- start_workload.py are parameters.
--
-- Not modelled: terminals, sockets and the starting of threads (session.py, console.py, cli.py, the
-- rest of broker.py and shell_commands.py, the applications of host/apps), the calls of the USB
-- libraries (transport.py, device.py), rendering as text or JSON, the floats of HeartbeatStats, the
-- build scripts, the rest of tools/ia16_lab, and the firmware in C.
pub mod Common
pub mod Struct
pub mod Protocol
pub mod Replies
pub mod Sequence
pub mod Memory
pub mod Mailbox
pub mod Crc
pub mod Workload
pub mod Timeout
pub mod Diagnostics
pub mod Runtime
pub mod Client
pub mod Transactions
pub mod Services
pub mod Channel
pub mod Filesystem
pub mod Telemetry
pub mod Trace
pub mod Omf
pub mod Symbols
pub mod Layout
pub mod Broker
pub mod StartWorkload
pub mod Transport
pub mod Evidence
pub mod Loader
pub mod History
pub mod Ownership
pub mod Examples
