-- ===== src/Broker.antt =====
-- host/rp86/broker.py: the state of a DeviceBroker. What a session publishes beside the state and
-- the audit is a type `S`, and what its actor answers beside `ok` and `error` a type `B`.
use pi86_rp.Common.{
  ℕ, ◌-◌, String, Bool, true, false, not, ◌||◌, Option, none, some, List, [], ◌∷◌, ◌++◌, ltb, ◌==◌,
  if◌then◌else◌, Bytes, length, drop, get_or, slice, ◌>>=◌, ◌>>◌, Error, runtime_error, os_error,
  Result, ok, err,
}
use pi86_rp.Struct.{from_le}
use pi86_rp.Ownership.{release, LockFile, DeviceOwnership}
pub mod Requests
pub mod Discovery
pub mod Lifecycle
pub mod Audit
pub mod Control
pub mod Steps

pub data BrokerState : Type 0 where
  opening owner_active quiescing fault stopped : BrokerState

unfoldable pub state_value : BrokerState → String
state_value opening = "OPENING"
state_value owner_active = "OWNER_ACTIVE"
state_value quiescing = "QUIESCING"
state_value fault = "FAULT"
state_value stopped = "STOPPED"

-- `target in BROKER_TRANSITIONS[state]`
unfoldable pub broker_transitions : BrokerState → BrokerState → Bool
broker_transitions opening owner_active = true
broker_transitions opening fault = true
broker_transitions owner_active quiescing = true
broker_transitions owner_active fault = true
broker_transitions fault quiescing = true
broker_transitions quiescing stopped = true
broker_transitions _ _ = false

-- The `operation` of an audit entry: a name, or `UNKNOWN(n)`.
pub data OperationName : Type 0 where
  run stop restart status malformed : OperationName
  unknown : ℕ → OperationName

unfoldable pub workload_control_names : ℕ → OperationName
workload_control_names code =
    if code == 1
    then run
    else if code == 2
    then stop
    else if code == 3
    then restart
    else if code == 4
    then status
    else unknown code

pub record DecodedControl : Type 0 where
  pub sequence : ℕ
  pub operation : OperationName
  pub operation_code : Option ℕ
  pub workload_id : Option ℕ

abbrev pub host_record_size : ℕ
host_record_size = 64

abbrev pub host_type_workload_control : ℕ
host_type_workload_control = 0x23

-- `record[i]` of a record that has 64 bytes.
abbrev pub byte_of : Bytes → ℕ → ℕ
byte_of bytes i = get_or bytes i 0

unfoldable pub decode_workload_control : Bytes → Option DecodedControl
decode_workload_control bytes =
    if not (length bytes == host_record_size) || not (byte_of bytes 1 == host_type_workload_control)
    then none
    else if ltb (from_le (slice 8 10 bytes)) 8
    then some (record {
      sequence = from_le (slice 4 8 bytes);
      operation = malformed;
      operation_code = none;
      workload_id = none;
    })
    else some (record {
      sequence = from_le (slice 4 8 bytes);
      operation = workload_control_names (byte_of bytes 12);
      operation_code = some (byte_of bytes 12);
      workload_id = some (from_le (slice 16 20 bytes));
    })

-- The text of an error: of an exception, or one that the actor reports.
pub data ErrorText : Type 0 where
  raised : Error → ErrorText
  reported : String → ErrorText

pub record AuditEntry : Type 0 where
  pub observed_at : String
  pub client_id : String
  pub request_id : String
  pub decoded : DecodedControl
  pub accepted : Bool
  pub error : Option ErrorText

abbrev pub control_audit_limit : ℕ
control_audit_limit = 16

-- `del audit[:-CONTROL_AUDIT_LIMIT]`
abbrev pub trim : List AuditEntry → List AuditEntry
trim audit = drop (length audit - control_audit_limit) audit

pub record Snapshot (S : Type 0) : Type 0 where
  pub state : String
  pub rest : S
  pub control_audit : List AuditEntry

pub record ExchangeRequest : Type 0 where
  pub client_id : String
  pub request_id : String
  pub bytes : Bytes

-- The timeout, a float, is left out.
pub record ControlRequest : Type 0 where
  pub client_id : String
  pub request_id : String
  pub command : String

-- The event loop of the broker's thread, which `asyncio.run` closes when `_run` ends.
pub data LoopState : Type 0 where
  no_loop open_loop closed_loop : LoopState

pub record DeviceBroker (S : Type 0) : Type 0 where
  pub device_id : String
  pub processor : String
  pub requests : List ExchangeRequest
  pub controls : List ControlRequest
  pub subscribers : List (String × ℕ)
  pub control_audit : List AuditEntry
  pub state : BrokerState
  pub snapshot : Snapshot S
  pub ownership : DeviceOwnership
  pub loop : LoopState
  pub registered : Bool

unfoldable pub new_broker : {S : Type 0} → String → String → S → DeviceBroker S
unfolding state_value
new_broker device_id processor rest = record {
  device_id = device_id;
  processor = processor;
  requests = [];
  controls = [];
  subscribers = [];
  control_audit = [];
  state = opening;
  snapshot = record { state = state_value opening; rest = rest; control_audit = [] };
  ownership = record { file = none };
  loop = no_loop;
  registered = false;
}

-- `call_soon_threadsafe` on the loop, if there is one.
unfoldable pub signal : LoopState → Result (Unit {0})
signal no_loop = ok tt
signal open_loop = ok tt
signal closed_loop = err (runtime_error "Event loop is closed" [])

-- What `stop` returns or raises, and what is behind it.
abbrev pub Stopping : Type 0 → Type 0
Stopping S = Result (Unit {0}) × DeviceBroker S × LockFile

module _ {S : Type 0} where
  unfoldable pub transition : BrokerState → DeviceBroker S → Result (DeviceBroker S)
  unfolding broker_transitions state_value
  transition target b =
      if broker_transitions b.state target
      then ok
          (record b { state = target; snapshot = record b.snapshot { state = state_value target } })
      else err (runtime_error "invalid broker transition" [])

  -- The body of `_record_control_audit`, for an entry that is made.
  unfoldable pub record_control_audit : AuditEntry → DeviceBroker S → DeviceBroker S
  record_control_audit entry b =
      let audit = trim (b.control_audit ++ entry ∷ []) in
      record b { control_audit = audit; snapshot = record b.snapshot { control_audit = audit } }

  -- `publish` reads the audit under its lock, and replaces the snapshot behind it.
  unfoldable pub publish_read : DeviceBroker S → List AuditEntry
  publish_read b = b.control_audit

  unfoldable pub publish_write : String → S → List AuditEntry → DeviceBroker S → DeviceBroker S
  publish_write state rest audit b = record b {
    snapshot = record { state = state; rest = rest; control_audit = audit };
  }

  -- `pending`: the queue is emptied.
  unfoldable pub pending : DeviceBroker S → List ExchangeRequest × DeviceBroker S
  pending b = (b.requests, record b { requests = [] })

  -- The first lines of `_run`.
  unfoldable pub enter_loop : DeviceBroker S → DeviceBroker S
  enter_loop b = record b { loop = open_loop }

  -- The end of `_run`'s preparation: the record is published, and the device is owned.
  unfoldable pub ready : DeviceBroker S → Result (DeviceBroker S)
  unfolding transition
  ready b = transition owner_active (record b { registered = true })

  abbrev pub quiesce : DeviceBroker S → Result (DeviceBroker S)
  quiesce b = elim b.state [
    | owner_active ↦ transition quiescing b
    | fault ↦ transition quiescing b
    | other ↦ ok b
  ]

  abbrev pub finish : DeviceBroker S → Result (DeviceBroker S)
  finish b = elim b.state [ quiescing ↦ transition stopped b | other ↦ ok b ]

  unfoldable pub release_ownership : DeviceBroker S → LockFile → Stopping S
  release_ownership b os =
      let (ownership, os') = release b.ownership os in
      (ok tt, record b { ownership = ownership }, os')

  -- The registry file is unlinked. An `OSError` is swallowed, and the file stays.
  unfoldable pub unregister : Result (Unit {0}) → DeviceBroker S → LockFile → Stopping S
  unfolding release_ownership
  unregister (ok done) b os = release_ownership (record b { registered = false }) os
  unregister (err (os_error text)) b os = release_ownership b os
  unregister (err e) b os = (err e, b, os)

  -- The thread was joined: its loop is closed if it has ended.
  unfoldable pub join : Bool → DeviceBroker S → DeviceBroker S
  join ended b = elim b.loop [
    | open_loop ↦ record b { loop = if ended then closed_loop else open_loop }
    | other ↦ b
  ]

  abbrev pub after_finish :
      Result (Unit {0}) → DeviceBroker S → LockFile → Result (DeviceBroker S) → Stopping S
  after_finish unlinked b os (err e) = (err e, b, os)
  after_finish unlinked b os (ok done) = unregister unlinked done os

  abbrev pub after_signal :
      Result (Unit {0}) → Bool → DeviceBroker S → LockFile → Result (Unit {0}) → Stopping S
  after_signal unlinked ended b os (err e) = (err e, b, os)
  after_signal unlinked ended b os (ok _) =
      let joined = join ended b in after_finish unlinked joined os (finish joined)

  abbrev pub after_quiesce :
      Result (Unit {0}) → Bool → DeviceBroker S → LockFile → Result (DeviceBroker S) → Stopping S
  after_quiesce unlinked ended b os (err e) = (err e, b, os)
  after_quiesce unlinked ended b os (ok quiet) =
      after_signal unlinked ended quiet os (signal quiet.loop)

  -- `unlinked` is what unlinking the registry file does, and `ended` whether the thread has ended
  -- when `join` returns. No other thread moves the state during the call.
  unfoldable pub stop_broker : Result (Unit {0}) → Bool → DeviceBroker S → LockFile → Stopping S
  unfolding signal join unregister
  stop_broker unlinked ended b os = after_quiesce unlinked ended b os (quiesce b)
