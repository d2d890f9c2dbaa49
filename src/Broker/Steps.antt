-- ===== src/Broker/Steps.antt =====
-- A broker between its clients, its actor and its session: what each of them does is a step, in any
-- order. A publication takes two steps, and other steps may come between them.
use mathlib.Core.Path.{subst}
use package.text.Mathlib.Text.{◌==◌ as str_eq}
use pi86_rp.Common.{
  ◌≤◌, String, ◌≡◌, refl, ◌∙◌, inl, inr, Bool, true, false, not, ◌&&◌, Option, none, some, List, [],
  ◌∷◌, ◌++◌, arith, leb, ◌==◌, ==→eq, Bool-cases, Bytes, length, All, All-append, guard-eq-ok,
  >>=-eq-ok, ok_injective, Result, ok, err,
}
use pi86_rp.Broker.{
  broker_transitions, host_record_size, control_audit_limit, new_broker, transition,
  record_control_audit, publish_read, publish_write, pending, BrokerState, ErrorText, raised,
  AuditEntry, ExchangeRequest, ControlRequest, DeviceBroker,
}
use pi86_rp.Broker.Requests.{
  Provenance, max_rpc_bytes, required, supported_command, is_caught, is_version, begin_exchange,
  begin_control, subscribe, dispatch, try_request, handle_errors, receive_request, entry_error,
  audit_entry, audited, complete, Request, ActorAnswer, Response, Handling,
}
use pi86_rp.Broker.Audit.{length-trim}

-- A queue that the actor takes records from holds records of 64 bytes only.
abbrev pub IsAbiRecord : ExchangeRequest → Type 0
IsAbiRecord r = length r.bytes ≡ host_record_size

abbrev pub IsSupported : ControlRequest → Type 0
IsSupported c = supported_command c.command ≡ true

pub record System (S : Type 0) : Type 0 where
  pub broker : DeviceBroker S
  -- The audit that a publication under way has read.
  pub reading : Option (List AuditEntry)

pub record IsSafe {S : Type 0} (b : DeviceBroker S) : Type 0 where
  pub queued : All IsAbiRecord b.requests
  pub controlled : All IsSupported b.controls
  pub bounded : length b.control_audit ≤ control_audit_limit

module _ {S : Type 0} (B : Type 0) (loads : Bytes → Result Request)
    (b64decode : String → Result Bytes) where
  pub data Step : System S → System S → Type 0 where
    received :
        {s : System S} {after : DeviceBroker S} (peer : String) (line : Bytes) (p : Handling S B)
        → receive_request loads b64decode peer line s.broker ≡ ok (p, after)
        → Step s (record s { broker = after })
    completed :
        {s : System S} {after : DeviceBroker S} (now : String) (p : Provenance)
        (answer : Result (ActorAnswer B)) (response : Response S B)
        → complete now p answer s.broker ≡ ok (response, after)
        → Step s (record s { broker = after })
    drained : (s : System S) → Step s (record s { broker = (pending s.broker).1 })
    moved :
        {s : System S} {after : DeviceBroker S} (target : BrokerState)
        → transition target s.broker ≡ ok after
        → Step s (record s { broker = after })
    begins_publishing :
        (s : System S) → Step s (record s { reading = some (publish_read s.broker) })
    publishes :
        (s : System S) (state : String) (rest : S) (audit : List AuditEntry)
        → s.reading ≡ some audit
        → Step s (record { broker = publish_write state rest audit s.broker; reading = none })

  pub data Reach (s : System S) : System S → Type 0 where
    here : Reach s s
    next : {t u : System S} → Reach s t → Step t u → Reach s u

module _ {S B : Type 0} (loads : Bytes → Result Request) (b64decode : String → Result Bytes) where
  begin_exchange-IsSafe :
      (request : Request) (b : DeviceBroker S) {p : Handling S B} {after : DeviceBroker S}
      → IsSafe b
      → begin_exchange loads b64decode request b ≡ ok (p, after)
      → IsSafe after
  unfolding begin_exchange
  begin_exchange-IsSafe request b safe h =
      let (encoded, e, h1) = >>=-eq-ok (required "record" request.bytes) _ h in
      let (bytes, e', h2) = >>=-eq-ok (b64decode encoded) _ h1 in
      let (exact, h3) = guard-eq-ok (length bytes == host_record_size) _ _ h2 in
      subst (λ (r : Handling S B × DeviceBroker S). IsSafe r.1) (ok_injective h3)
        (record {
          queued =
              All-append IsAbiRecord b.requests _ safe.queued (==→eq (length bytes) 64 exact, tt);
          controlled = safe.controlled;
          bounded = safe.bounded;
        })

  begin_control-IsSafe :
      (request : Request) (b : DeviceBroker S) {p : Handling S B} {after : DeviceBroker S}
      → IsSafe b
      → begin_control loads b64decode request b ≡ ok (p, after)
      → IsSafe after
  unfolding begin_control
  begin_control-IsSafe request b safe h =
      let (command, e, h1) = >>=-eq-ok (required "command" request.command) _ h in
      let (supported, h2) = guard-eq-ok (supported_command command) _ _ h1 in
      subst (λ (r : Handling S B × DeviceBroker S). IsSafe r.1) (ok_injective h2)
        (record {
          queued = safe.queued;
          controlled = All-append IsSupported b.controls _ safe.controlled (supported, tt);
          bounded = safe.bounded;
        })

  subscribe-IsSafe :
      (peer : String) (request : Request) (b : DeviceBroker S) {p : Handling S B}
      {after : DeviceBroker S}
      → IsSafe b
      → subscribe loads b64decode peer request b ≡ ok (p, after)
      → IsSafe after
  unfolding subscribe
  subscribe-IsSafe peer request b safe h =
      let (port, e, h1) = >>=-eq-ok (required "udp_port" request.udp_port) _ h in
      subst (λ (r : Handling S B × DeviceBroker S). IsSafe r.1) (ok_injective h1)
        (record { queued = safe.queued; controlled = safe.controlled; bounded = safe.bounded })

  dispatch-IsSafe :
      (peer : String) (operation : Option String) (request : Request) (b : DeviceBroker S)
      {p : Handling S B} {after : DeviceBroker S}
      → IsSafe b
      → dispatch loads b64decode peer operation request b ≡ ok (p, after)
      → IsSafe after
  unfolding dispatch
  dispatch-IsSafe peer none request b safe h = cc
  dispatch-IsSafe peer (some operation) request b safe h =
      elim (Bool-cases (str_eq operation "hello")) [
        | inl is_hello ↦
            subst (λ (r : Handling S B × DeviceBroker S). IsSafe r.1)
              (ok_injective (rw is_hello at h)) safe
        | inr no_hello ↦ elim (Bool-cases (str_eq operation "subscribe")) [
          | inl is_subscribe ↦
              subscribe-IsSafe peer request b safe (rw (no_hello, is_subscribe) at h)
          | inr no_subscribe ↦ elim (Bool-cases (str_eq operation "exchange")) [
            | inl is_exchange ↦
                begin_exchange-IsSafe request b safe (rw (no_hello, no_subscribe, is_exchange) at h)
            | inr no_exchange ↦ elim (Bool-cases (str_eq operation "control")) [
              | inl is_control ↦
                  begin_control-IsSafe request b safe
                    (rw (no_hello, no_subscribe, no_exchange, is_control) at h)
              | inr no_control ↦ cc (rw (no_hello, no_subscribe, no_exchange, no_control) at h)
            ]
          ]
        ]
      ]

  try_request-IsSafe :
      (peer : String) (line : Bytes) (b : DeviceBroker S) {p : Handling S B}
      {after : DeviceBroker S}
      → IsSafe b
      → try_request loads b64decode peer line b ≡ ok (p, after)
      → IsSafe after
  unfolding try_request
  try_request-IsSafe peer line b safe h =
      let (sized, h1) =
        guard-eq-ok (not (length line == 0) && leb (length line) max_rpc_bytes) _ _ h in
      let (request, e, h2) = >>=-eq-ok (loads line) _ h1 in
      let (version, h3) = guard-eq-ok (is_version request.version) _ _ h2 in
      dispatch-IsSafe peer request.op request b safe h3

  handle_errors-IsSafe :
      (peer : String) (line : Bytes) (b : DeviceBroker S)
      (r : Result (Handling S B × DeviceBroker S)) {p : Handling S B} {after : DeviceBroker S}
      → IsSafe b
      → try_request loads b64decode peer line b ≡ r
      → handle_errors b r ≡ ok (p, after)
      → IsSafe after
  unfolding handle_errors
  handle_errors-IsSafe peer line b (ok q) safe e h = try_request-IsSafe peer line b safe (e ∙ h)
  handle_errors-IsSafe peer line b (err error) safe e h = elim (Bool-cases (is_caught error)) [
    | inl caught ↦
        subst (λ (r : Handling S B × DeviceBroker S). IsSafe r.1) (ok_injective (rw caught at h))
          safe
    | inr escaped ↦ cc (rw escaped at h)
  ]

  receive_request-IsSafe :
      (peer : String) (line : Bytes) (b : DeviceBroker S) {p : Handling S B}
      {after : DeviceBroker S}
      → IsSafe b
      → receive_request loads b64decode peer line b ≡ ok (p, after)
      → IsSafe after
  unfolding receive_request
  receive_request-IsSafe peer line b safe h =
      handle_errors-IsSafe peer line b (try_request loads b64decode peer line b) safe refl h

module _ {S : Type 0} where
  audited-IsSafe :
      (now : String) (p : Provenance) (accepted : Bool) (error : Option ErrorText)
      (b : DeviceBroker S)
      → IsSafe b
      → IsSafe (audited now p accepted error b)
  unfolding record_control_audit
  audited-IsSafe now none accepted error b safe = safe
  audited-IsSafe now (some p) accepted error b safe = record {
    queued = safe.queued;
    controlled = safe.controlled;
    bounded = length-trim (b.control_audit ++ audit_entry now p accepted error ∷ []);
  }

  transition-IsSafe :
      (target : BrokerState) (b : DeviceBroker S) {after : DeviceBroker S}
      → IsSafe b
      → transition target b ≡ ok after
      → IsSafe after
  unfolding transition
  transition-IsSafe target b safe h = elim (Bool-cases (broker_transitions b.state target)) [
    | inl allowed ↦
        subst IsSafe (ok_injective (rw allowed at h))
          (record { queued = safe.queued; controlled = safe.controlled; bounded = safe.bounded })
    | inr barred ↦ cc (rw barred at h)
  ]

  complete-IsSafe :
      {B : Type 0} (now : String) (p : Provenance) (answer : Result (ActorAnswer B))
      (b : DeviceBroker S) {response : Response S B} {after : DeviceBroker S}
      → IsSafe b
      → complete now p answer b ≡ ok (response, after)
      → IsSafe after
  unfolding complete
  complete-IsSafe {B} now p (ok answer) b safe h =
      subst (λ (r : Response S B × DeviceBroker S). IsSafe r.1) (ok_injective h)
        (audited-IsSafe now p answer.accepted (entry_error answer) b safe)
  complete-IsSafe {B} now p (err e) b safe h = elim (Bool-cases (is_caught e)) [
    | inl caught ↦
        subst (λ (r : Response S B × DeviceBroker S). IsSafe r.1) (ok_injective (rw caught at h))
          (audited-IsSafe now p false (some (raised e)) b safe)
    | inr escaped ↦ cc (rw escaped at h)
  ]

module _ {S : Type 0} {B : Type 0} (loads : Bytes → Result Request)
    (b64decode : String → Result Bytes) where
  Step-IsSafe : {s t : System S} → Step B loads b64decode s t → IsSafe s.broker → IsSafe t.broker
  unfolding pending publish_write
  Step-IsSafe (received {s} peer line p h) safe =
      receive_request-IsSafe loads b64decode peer line s.broker safe h
  Step-IsSafe (completed {s} now p answer response h) safe =
      complete-IsSafe now p answer s.broker safe h
  Step-IsSafe (drained s) safe = record {
    queued = tt;
    controlled = safe.controlled;
    bounded = safe.bounded;
  }
  Step-IsSafe (moved {s} target h) safe = transition-IsSafe target s.broker safe h
  Step-IsSafe (begins_publishing s) safe = safe
  Step-IsSafe (publishes s state rest audit h) safe = record {
    queued = safe.queued;
    controlled = safe.controlled;
    bounded = safe.bounded;
  }

  Reach-keeps : {s t : System S} → IsSafe s.broker → Reach B loads b64decode s t → IsSafe t.broker
  Reach-keeps safe here = safe
  Reach-keeps safe (next r st) = Step-IsSafe st (Reach-keeps safe r)

  -- Whatever lines clients send, and in whatever order clients, actor and session act, the queue
  -- of a broker holds exchanges of 64 bytes only, its controls are the three that are supported,
  -- and its audit has 16 entries at most.
  pub Reach-IsSafe :
      (device_id processor : String) (rest : S) {t : System S}
      → Reach B loads b64decode
          (record { broker = new_broker device_id processor rest; reading = none })
          t
      → IsSafe t.broker
  unfolding new_broker
  Reach-IsSafe device_id processor rest r =
      Reach-keeps (record { queued = tt; controlled = tt; bounded = omega arith }) r
