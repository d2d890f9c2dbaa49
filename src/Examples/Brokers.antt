-- ===== src/Examples/Brokers.antt =====
-- Brokers at concrete inputs.
use pi86_rp.Common.{
  runtime_error, String, ◌≡◌, refl, true, false, none, some, [], ◌∷◌, ascii, Bytes, replicate,
  type_error, os_error, Result, ok, err,
}
use pi86_rp.Struct.{le, from_le, fits, layout, pack}
use pi86_rp.Protocol.{type_workload_control, message, encode}
use pi86_rp.Ownership.{LockFile}
use pi86_rp.Workload.Upload.{control_operations, control_record}
use pi86_rp.Workload.Upload
use pi86_rp.Broker.{
  state_value, workload_control_names, decode_workload_control, new_broker, record_control_audit,
  publish_read, publish_write, stop_broker, signal, transition, ready, enter_loop, quiescing,
  no_loop, open_loop, closed_loop, opening, owner_active, OperationName, DecodedControl, AuditEntry,
  DeviceBroker,
}
use pi86_rp.Broker.Requests.{
  provenance, begin_exchange, dispatch, try_request, handle_errors, receive_request, Request,
  waiting,
}
use pi86_rp.Broker.Discovery.{
  from_dict, as_dict, Found, is_seen, is_skipped, try_file, skip_errors, discover_loop,
  discover_brokers, matches, choose, select_broker, BrokerRecord,
}
use pi86_rp.Broker.Lifecycle.{Stops, stop_broker-Stops}
use pi86_rp.Broker.Audit.{record_entries, record_entries-IsNewest, IsNewest}
use pi86_rp.Broker.Control.{operation_name, decode_workload_control-control_record}
use pi86_rp.Broker.Steps.{Reach-IsSafe, System, IsSafe, received, Reach, here, next}

-- The Host's request to stop workload 7.
abbrev stop_bytes : Bytes
stop_bytes = 1 ∷ 0x23 ∷ 0 ∷ 0 ∷ 9 ∷ 0 ∷ 0 ∷ 0 ∷ 8 ∷ 0 ∷ 0 ∷ 0 ∷ 2 ∷ 0 ∷ 0 ∷ 0 ∷ 7 ∷ (replicate 47 0)

abbrev stop_payload : Bytes
stop_payload = 2 ∷ 0 ∷ 0 ∷ 0 ∷ 7 ∷ 0 ∷ 0 ∷ 0 ∷ []

stop_built :
    control_record (some Upload.stop) 7 9 ≡ ok (message type_workload_control 9 stop_payload)
unfolding control_record control_operations pack fits layout le
stop_built = refl

stop_encoded : encode (message type_workload_control 9 stop_payload) ≡ ok stop_bytes
unfolding encode pack fits layout le
stop_encoded = refl

decode_workload_control-control_record_example :
    decode_workload_control stop_bytes
    ≡ some (record {
      sequence = 9;
      operation = operation_name Upload.stop;
      operation_code = some (control_operations Upload.stop);
      workload_id = some 7;
    })
decode_workload_control-control_record_example =
    decode_workload_control-control_record Upload.stop 7 9 stop_built stop_encoded

abbrev exchange_request : Request
exchange_request = record {
  version = some 1;
  op = some "exchange";
  client_id = some "web";
  request_id = none;
  bytes = some "record";
  command = none;
  udp_port = none;
}

abbrev read_line : Bytes → Result Request
read_line line = ok exchange_request

abbrev decode_record : String → Result Bytes
decode_record encoded = ok stop_bytes

abbrev fresh_broker : DeviceBroker (Unit {0})
fresh_broker = record {
  device_id = "A1";
  processor = "v30";
  requests = [];
  controls = [];
  subscribers = [];
  control_audit = [];
  state = opening;
  snapshot = record { state = "OPENING"; rest = tt; control_audit = [] };
  ownership = record { file = none };
  loop = no_loop;
  registered = false;
}

abbrev one_queued : DeviceBroker (Unit {0})
one_queued = record fresh_broker {
  requests = record { client_id = "web"; request_id = ""; bytes = stop_bytes } ∷ [];
}

abbrev stop_control : DecodedControl
stop_control = record {
  sequence = 9;
  operation = OperationName.stop;
  operation_code = some 2;
  workload_id = some 7;
}

exchange_received :
    receive_request {B = Unit {0}} read_line decode_record "127.0.0.1" (ascii "x") fresh_broker
    ≡ ok (waiting (some ("web", "", stop_control)), one_queued)
unfolding receive_request handle_errors try_request dispatch begin_exchange provenance
    decode_workload_control workload_control_names from_le
exchange_received = refl

abbrev queued_system : System (Unit {0})
queued_system = record { broker = one_queued; reading = none }

new_is_fresh : new_broker {S = Unit {0}} "A1" "v30" tt ≡ fresh_broker
unfolding new_broker state_value
new_is_fresh = refl

queued_reached :
    Reach
      (Unit {0})
      read_line
      decode_record
      (record { broker = new_broker "A1" "v30" tt; reading = none })
      queued_system
unfolding new_broker state_value
queued_reached =
    next here (
      received "127.0.0.1" (ascii "x") (waiting (some ("web", "", stop_control))) exchange_received)

Reach-IsSafe_example : IsSafe one_queued
Reach-IsSafe_example = Reach-IsSafe read_line decode_record "A1" "v30" tt queued_reached

abbrev entry : AuditEntry
entry = record {
  observed_at = "now";
  client_id = "web";
  request_id = "";
  decoded = stop_control;
  accepted = true;
  error = none;
}

record_entries-IsNewest_example :
    IsNewest
      (replicate 20 entry)
      (record_entries (replicate 20 entry) (new_broker "A1" "v30" (tt {0}))).control_audit
    × ((record_entries (replicate 20 entry) (new_broker "A1" "v30" (tt {0}))).snapshot.control_audit
        ≡ (record_entries (replicate 20 entry) (new_broker "A1" "v30" (tt {0}))).control_audit)
record_entries-IsNewest_example = record_entries-IsNewest "A1" "v30" tt (replicate 20 entry)

-- An entry that is recorded while a publication is under way is missing from the snapshot that is
-- published.
entry_missed :
    (publish_write "OWNER_ACTIVE" tt
      (publish_read fresh_broker)
      (record_control_audit entry fresh_broker)).snapshot.control_audit
    ≡ []
unfolding publish_write publish_read record_control_audit
entry_missed = refl

abbrev owned_broker : DeviceBroker (Unit {0})
owned_broker = record fresh_broker {
  state = owner_active;
  ownership = record { file = some 0 };
  loop = open_loop;
  registered = true;
}

abbrev held_lock : LockFile
held_lock = record { locked_by = some 0; next_handle = 1 }

stop_broker-Stops_example :
    Stops
      (err (os_error "busy"))
      open_loop
      owned_broker
      held_lock
      (stop_broker (err (os_error "busy")) true owned_broker held_lock)
stop_broker-Stops_example = stop_broker-Stops (err (os_error "busy")) true owned_broker held_lock

abbrev dead_broker : DeviceBroker (Unit {0})
dead_broker = record owned_broker { loop = closed_loop }

-- A stop behind the death of the broker's thread keeps the lock.
stop_keeps_lock : stop_broker (ok tt) true dead_broker held_lock ≡ (
  err (runtime_error "Event loop is closed" []),
  record dead_broker {
    state = quiescing;
    snapshot = record dead_broker.snapshot { state = "QUIESCING" };
  },
  held_lock,
)
unfolding stop_broker signal transition state_value
stop_keeps_lock = refl

abbrev entered_broker : DeviceBroker (Unit {0})
entered_broker = record fresh_broker {
  state = owner_active;
  loop = open_loop;
  registered = true;
  snapshot = record fresh_broker.snapshot { state = "OWNER_ACTIVE" };
}

owner_ready : ready (enter_loop fresh_broker) ≡ ok entered_broker
unfolding ready enter_loop transition state_value
owner_ready = refl

abbrev first_found : BrokerRecord
first_found = record { device_id = "A1"; tcp_port = 5; udp_port = 6; pid = 7; processor = "v30" }

abbrev second_found : BrokerRecord
second_found = record first_found { device_id = "B2"; tcp_port = 8 }

abbrev answering : BrokerRecord → Found
answering r = (ok (as_dict r), ok (true, some r.device_id))

two_discovered :
    discover_brokers (
      answering first_found
      ∷ (err (os_error ""), err type_error)
      ∷ answering first_found
      ∷ answering second_found
      ∷ [])
    ≡ ok (first_found ∷ second_found ∷ [])
unfolding discover_brokers discover_loop skip_errors is_skipped try_file is_seen from_dict as_dict
two_discovered = refl

second_selected :
    select_broker (first_found ∷ second_found ∷ []) (some "B2") ≡ ok (some second_found)
unfolding select_broker matches choose
second_selected = refl
