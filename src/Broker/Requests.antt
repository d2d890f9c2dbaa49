-- ===== src/Broker/Requests.antt =====
-- `_handle_client` of host/rp86/broker.py: what happens up to the wait for the actor, and what
-- happens behind it. `json.loads` and `base64.b64decode` are parameters. A request is the object
-- that a line holds, with the values of its keys.
use package.text.Mathlib.Text.{◌==◌ as str_eq}
use pi86_rp.Common.{
  ℕ, ◌*◌, String, Bool, true, false, not, ◌&&◌, ◌||◌, Option, none, some, List, [], ◌∷◌, ◌++◌, leb,
  ◌==◌, if◌then◌else◌, Bytes, length, guard, ◌>>=◌, ◌>>◌, Error, value_error, type_error, key_error,
  Result, ok, err,
}
use pi86_rp.Broker.{
  host_record_size, decode_workload_control, record_control_audit, DecodedControl, ErrorText,
  raised, reported, AuditEntry, Snapshot, ExchangeRequest, ControlRequest, DeviceBroker,
}

pub record Request : Type 0 where
  pub version : Option ℕ
  pub op : Option String
  pub client_id : Option String
  pub request_id : Option String
  pub bytes : Option String
  pub command : Option String
  pub udp_port : Option ℕ

-- What an actor answers.
pub record ActorAnswer (B : Type 0) : Type 0 where
  pub accepted : Bool
  pub error : Option String
  pub body : B

pub data Response (S B : Type 0) : Type 0 where
  hello : String → String → Snapshot S → Response S B
  subscribed : String → Response S B
  answered : ActorAnswer B → Response S B
  refused : Error → Response S B

-- An exchange whose record is a workload control has its client, its request and the decoded record.
abbrev pub Provenance : Type 0
Provenance = Option (String × String × DecodedControl)

-- Where the handler stands: a response is there, or the actor's is waited for.
pub data Handling (S B : Type 0) : Type 0 where
  responding : Response S B → Handling S B
  waiting : Provenance → Handling S B

abbrev pub max_rpc_bytes : ℕ
max_rpc_bytes = 16 * 1024

abbrev pub broker_version : ℕ
broker_version = 1

-- `str(request.get(key) or default)`
abbrev pub or_default : Option String → String → String
or_default none default = default
or_default (some text) default = if str_eq text "" then default else text

-- `request[key]`
abbrev pub required {ℓ} : {A : Type ℓ} → String → Option A → Result A
required key none = err (key_error key)
required key (some a) = ok a

unfoldable pub supported_command : String → Bool
supported_command command =
    str_eq command "status" || str_eq command "bootloader" || str_eq command "reboot"

-- The exceptions that the handler turns into a response.
unfoldable pub is_caught : Error → Bool
is_caught (value_error text numbers) = true
is_caught (key_error key) = true
is_caught type_error = true
is_caught other = false

abbrev pub is_subscriber : String × ℕ → List (String × ℕ) → Bool
is_subscriber (host, port) [] = false
is_subscriber (host, port) ((h, p) ∷ rest) =
    if str_eq h host && (p == port) then true else is_subscriber (host, port) rest

-- `set.add`
abbrev pub add_subscriber : String × ℕ → List (String × ℕ) → List (String × ℕ)
add_subscriber s subscribers = if is_subscriber s subscribers then subscribers else s ∷ subscribers

unfoldable pub provenance : String → String → Bytes → Provenance
provenance client_id request_id bytes = elim (decode_workload_control bytes) [
  | none ↦ none
  | some decoded ↦ some (client_id, request_id, decoded)
]

abbrev pub is_version : Option ℕ → Bool
is_version none = false
is_version (some version) = version == broker_version

module _ {S B : Type 0} (loads : Bytes → Result Request) (b64decode : String → Result Bytes) where
  abbrev pub say_hello : DeviceBroker S → Response S B
  say_hello b = hello b.device_id b.processor b.snapshot

  unfoldable pub begin_exchange : Request → DeviceBroker S → Result (Handling S B × DeviceBroker S)
  unfolding provenance
  begin_exchange request b = do
    encoded ← required "record" request.bytes
    bytes ← b64decode encoded
    guard (length bytes == host_record_size)
        (value_error "broker exchange requires one 64-byte ABI record" [])
    let client_id = or_default request.client_id "anonymous"
    let request_id = or_default request.request_id ""
    let entry : ExchangeRequest = record {
      client_id = client_id;
      request_id = request_id;
      bytes = bytes;
    }
    ok (
      waiting (provenance client_id request_id bytes),
      record b { requests = b.requests ++ entry ∷ [] },
    )

  unfoldable pub begin_control : Request → DeviceBroker S → Result (Handling S B × DeviceBroker S)
  unfolding supported_command
  begin_control request b = do
    command ← required "command" request.command
    guard (supported_command command) (value_error "unsupported broker control command" [])
    let entry : ControlRequest = record {
      client_id = or_default request.client_id "anonymous";
      request_id = or_default request.request_id "";
      command = command;
    }
    ok (waiting none, record b { controls = b.controls ++ entry ∷ [] })

  unfoldable pub subscribe :
      String → Request → DeviceBroker S → Result (Handling S B × DeviceBroker S)
  subscribe peer request b = do
    udp_port ← required "udp_port" request.udp_port
    ok (
      responding (subscribed b.device_id),
      record b { subscribers = add_subscriber (peer, udp_port) b.subscribers },
    )

  -- The chain of tests on `operation`.
  unfoldable pub dispatch :
      String → Option String → Request → DeviceBroker S → Result (Handling S B × DeviceBroker S)
  unfolding begin_exchange begin_control subscribe
  dispatch peer none request b = err (value_error "unsupported broker operation" [])
  dispatch peer (some operation) request b =
      if str_eq operation "hello"
      then ok (responding (say_hello b), b)
      else if str_eq operation "subscribe"
      then subscribe peer request b
      else if str_eq operation "exchange"
      then begin_exchange request b
      else if str_eq operation "control"
      then begin_control request b
      else err (value_error "unsupported broker operation" [])

  -- The `try` block up to the wait, for a line that was read.
  unfoldable pub try_request :
      String → Bytes → DeviceBroker S → Result (Handling S B × DeviceBroker S)
  unfolding dispatch
  try_request peer line b = do
    guard (not (length line == 0) && leb (length line) max_rpc_bytes)
        (value_error "invalid broker request length" [])
    request ← loads line
    guard (is_version request.version) (value_error "unsupported broker protocol version" [])
    dispatch peer request.op request b

-- The handler of the exceptions. An error that it does not name leaves `_handle_client`.
unfoldable pub handle_errors :
    {S B : Type 0}
    → DeviceBroker S
    → Result (Handling S B × DeviceBroker S)
    → Result (Handling S B × DeviceBroker S)
unfolding is_caught
handle_errors b (ok r) = ok r
handle_errors b (err e) = if is_caught e then ok (responding (refused e), b) else err e

module _ {S B : Type 0} (loads : Bytes → Result Request) (b64decode : String → Result Bytes) where
  unfoldable pub receive_request :
      String → Bytes → DeviceBroker S → Result (Handling S B × DeviceBroker S)
  unfolding try_request handle_errors
  receive_request peer line b = handle_errors b (try_request loads b64decode peer line b)

-- `str(response["error"])`, where `ok` is false and there is a text.
unfoldable pub entry_error : {B : Type 0} → ActorAnswer B → Option ErrorText
entry_error answer = elim answer.error [
  | none ↦ none
  | some text ↦ if answer.accepted || str_eq text "" then none else some (reported text)
]

abbrev pub audit_entry :
    String → String × String × DecodedControl → Bool → Option ErrorText → AuditEntry
audit_entry now (client_id, request_id, decoded) accepted error = record {
  observed_at = now;
  client_id = client_id;
  request_id = request_id;
  decoded = decoded;
  accepted = accepted;
  error = error;
}

module _ {S : Type 0} where
  abbrev pub audited :
      String → Provenance → Bool → Option ErrorText → DeviceBroker S → DeviceBroker S
  audited now none accepted error b = b
  audited now (some p) accepted error b = record_control_audit (audit_entry now p accepted error) b

  -- The rest of the handler, when the actor's answer or exception is there: the response and the
  -- broker, or the exception that no handler takes.
  unfoldable pub complete :
      {B : Type 0}
      → String
      → Provenance
      → Result (ActorAnswer B)
      → DeviceBroker S
      → Result (Response S B × DeviceBroker S)
  unfolding entry_error is_caught
  complete now p (ok answer) b =
      ok (answered answer, audited now p answer.accepted (entry_error answer) b)
  complete now p (err e) b =
      if is_caught e then ok (refused e, audited now p false (some (raised e)) b) else err e
