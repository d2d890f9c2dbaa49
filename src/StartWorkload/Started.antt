-- ===== src/StartWorkload/Started.antt =====
-- What a start that reports success has done.
use mathlib.Core.Path.{subst}
use pi86_rp.Common.{
  ℕ, ◌≡◌, refl, sym, ap, ◌∙◌, ◌⊎◌, inl, inr, true, false, Option, some, List, [], ◌∷◌, ◌==◌,
  if◌then◌else◌, ==→eq, Bool-cases, Bytes, >>=-eq-ok, ok_injective, Result-cases, Error, Result, ok,
  err,
}
use pi86_rp.StartWorkload.Exchange.{
  is_exchange_error, read_reply, catch_exchange, exchange, rejected, RpcReply, Exchanged, replied,
  failed,
}
use pi86_rp.Protocol.{status_ok, encode, decode, Message}
use pi86_rp.Runtime.{workload_upload_requires_stop, WorkloadRuntimeState}
use pi86_rp.Workload.Upload.{control_record, ControlOperation, stop}
use pi86_rp.StartWorkload.{
  following_sequence, Action, after_action, reply_of, after_record, request_reply, send_records,
  control,
}

pub after_action-eq-ok :
    {W A B : Type 0} (f : A → Action W B) (r : Result A × W) {b : B} {after : W}
    → after_action f r ≡ (ok b, after)
    → (a : A) × (next : W) × (r ≡ (ok a, next)) × (f a next ≡ (ok b, after))
after_action-eq-ok f (ok a, w) h = (a, w, refl, h)
after_action-eq-ok f (err e, w) h = cc

-- A step that does not touch the world.
pub lifted-eq-ok :
    {W A B : Type 0} (f : A → Action W B) (r : Result A) (w : W) {b : B} {after : W}
    → after_action f (r, w) ≡ (ok b, after)
    → (a : A) × (r ≡ ok a) × (f a w ≡ (ok b, after))
lifted-eq-ok f (ok a) w h = (a, refl, h)
lifted-eq-ok f (err e) w h = cc

pub lift-eq-ok :
    {W A : Type 0} (r : Result A) (w : W) {a : A} {after : W}
    → ◌≡◌ {A = Result A × W} (r, w) (ok a, after)
    → (r ≡ ok a) × (w ≡ after)
lift-eq-ok r w h = (ap (λ p. p.0) h, ap (λ p. p.1) h)

catch_exchange-replied :
    (r : Result Exchanged) {reply : Message}
    → catch_exchange r ≡ ok (replied reply)
    → r ≡ ok (replied reply)
unfolding catch_exchange
catch_exchange-replied (ok e) h = h
catch_exchange-replied (err e) h = elim (Bool-cases (is_exchange_error e)) [
  | inl caught ↦ cc (rw caught at h)
  | inr escaped ↦ cc (rw escaped at h)
]

-- The parts of an answer that brings a reply.
abbrev Brings : Result RpcReply → Message → Type 0
Brings answer reply =
    (result : RpcReply) × (bytes : Bytes) × (answer ≡ ok result)
    × (result.accepted ≡ true)
    × (result.reply ≡ ok bytes)
    × (decode bytes ≡ ok reply)
    × (reply.status ≡ status_ok)

verdict-replied :
    (got : Message) {reply : Message}
    → (if got.status == status_ok then replied got else failed (rejected got.status))
      ≡ replied reply
    → (got ≡ reply) × (reply.status ≡ status_ok)
verdict-replied got {reply} h = elim (Bool-cases (got.status == status_ok)) [
  | inl good ↦
      let same : got ≡ reply = cc (rw good at h) in
      (same, subst (λ (m : Message). m.status ≡ status_ok) same (==→eq got.status status_ok good))
  | inr bad ↦ cc (rw bad at h)
]

read_reply-replied :
    (answer : Result RpcReply) {reply : Message}
    → read_reply answer ≡ ok (replied reply)
    → Brings answer reply
unfolding read_reply
read_reply-replied answer {reply} h =
    let (result, e, h1) = >>=-eq-ok answer _ h in
    elim (Bool-cases result.accepted) [
      | inl accepted ↦
          let (bytes, e', h2) = >>=-eq-ok result.reply _ (rw accepted at h1) in
          let (got, e'', h3) = >>=-eq-ok (decode bytes) _ h2 in
          let (same, good) = verdict-replied got {reply = reply} (ok_injective h3) in
          (result, bytes, e, accepted, e', e'' ∙ ap ok same, good)
      | inr refused ↦ cc (rw refused at h1)
    ]

reply_of-ok : (e : Exchanged) {reply : Message} → reply_of e ≡ ok reply → e ≡ replied reply
reply_of-ok (replied got) h = cc
reply_of-ok (failed fault) h = cc

as_replied :
    {W : Type 0} {e : Exchanged} {reply : Message} {w v : W}
    → e ≡ replied reply
    → w ≡ v
    → ◌≡◌ {A = Result Exchanged × W} (ok e, w) (ok (replied reply), v)
as_replied h k = λ i. (ok (h i), k i)

after_record-some :
    {W : Type 0} (rest : Message → Action W (Option Message)) (e : Exchanged) (w : W)
    {final : Message} {after : W}
    → after_record rest e w ≡ (ok (some final), after)
    → (reply : Message) × (e ≡ replied reply) × (rest reply w ≡ (ok (some final), after))
unfolding after_record
after_record-some rest (replied reply) w h = (reply, refl, h)
after_record-some rest (failed fault) w h = cc

no_call :
    (e : Error) {reply : Message} → ¬ (catch_exchange (read_reply (err e)) ≡ ok (replied reply))
unfolding read_reply
no_call e h = cc (catch_exchange-replied (err e) h)

pair_eq : {A B : Type 0} {p : A × B} {a : A} {b : B} → p.0 ≡ a → p.1 ≡ b → p ≡ (a, b)
pair_eq h k = λ i. (h i, k i)

module _ {W : Type 0} (rpc : Bytes → W → Result RpcReply × W) where
  -- A request's record was given to the broker, which accepted it and brought the device's reply.
  pub record Replied (w : W) (request reply : Message) (after : W) : Type 0 where
    pub bytes : Bytes
    pub result : RpcReply
    pub answer : Bytes
    pub encoded : encode request ≡ ok bytes
    pub called : rpc bytes w ≡ (ok result, after)
    pub accepted : result.accepted ≡ true
    pub replied_with : result.reply ≡ ok answer
    pub decoded : decode answer ≡ ok reply
    pub succeeded : reply.status ≡ status_ok

  -- All requests were replied to, in their order.
  abbrev pub AllReplied : W → List Message → W → Type 0
  AllReplied w [] after = w ≡ after
  AllReplied w (m ∷ ms) after =
      (reply : Message) × (next : W) × Replied w m reply next × AllReplied next ms after

  abbrev pub Controlled : ControlOperation → ℕ → W → Message → W → Type 0
  Controlled operation sequence w reply after =
      (request : Message) × (control_record (some operation) 0 sequence ≡ ok request)
      × Replied w request reply after

  -- A processor that ran or had completed was stopped; no other was.
  abbrev pub StoppedFirst : WorkloadRuntimeState → ℕ → W → ℕ → W → Type 0
  StoppedFirst current sequence w first after =
      ((workload_upload_requires_stop current.lifecycle ≡ true)
        × (first ≡ following_sequence sequence)
        × (reply : Message) × Controlled stop sequence w reply after)
      ⊎ ((workload_upload_requires_stop current.lifecycle ≡ false)
          × (first ≡ sequence)
          × (w ≡ after))

  exchange-Replied :
      (request : Message) (w : W) {reply : Message} {after : W}
      → exchange rpc request w ≡ (ok (replied reply), after)
      → Replied w request reply after
  unfolding exchange
  exchange-Replied request w {reply} {after} h = elim (Result-cases (encode request)) [
    | inl (e, bad) ↦ absurd (no_call e (ap (λ p. p.0) (rw bad at h)))
    | inr (bytes, good) ↦
        let (result, answer, called, accepted, with_bytes, decoded, succeeded) =
          read_reply-replied (rpc bytes w).0
            (catch_exchange-replied _ (ap (λ p. p.0) (rw good at h))) in
        record {
          bytes = bytes;
          result = result;
          answer = answer;
          encoded = good;
          called = pair_eq called (ap (λ p. p.1) (rw good at h));
          accepted = accepted;
          replied_with = with_bytes;
          decoded = decoded;
          succeeded = succeeded;
        }
  ]

  request_reply-Replied :
      (request : Message) (w : W) {reply : Message} {after : W}
      → request_reply rpc request w ≡ (ok reply, after)
      → Replied w request reply after
  unfolding request_reply
  request_reply-Replied request w h =
      let (e, next, h1, h2) = after_action-eq-ok _ (exchange rpc request w) h in
      let (brought, same) = lift-eq-ok (reply_of e) next h2 in
      exchange-Replied request w (h1 ∙ as_replied (reply_of-ok e brought) same)

  pub control-Controlled :
      (operation : ControlOperation) (sequence : ℕ) (w : W) {reply : Message} {after : W}
      → control rpc operation sequence w ≡ (ok reply, after)
      → Controlled operation sequence w reply after
  unfolding control
  control-Controlled operation sequence w {reply} {after} h =
      let (request, next, h1, h2) =
        after_action-eq-ok _ (control_record (some operation) 0 sequence, w) h in
      let (built, same) = lift-eq-ok (control_record (some operation) 0 sequence) w h1 in
      (
        request,
        built,
        subst (λ v. Replied v request reply after) (sym same)
            (request_reply-Replied request next h2),
      )

  pub send_records-AllReplied :
      (requests : List Message) (last : Option Message) (w : W) {final : Message} {after : W}
      → send_records rpc requests last w ≡ (ok (some final), after)
      → AllReplied w requests after
  unfolding send_records
  send_records-AllReplied [] last w h = ap (λ p. p.1) h
  send_records-AllReplied (m ∷ ms) last w h =
      let (e, next, h1, h2) = after_action-eq-ok _ (exchange rpc m w) h in
      let (reply, e', h3) = after_record-some (λ r. send_records rpc ms (some r)) e next h2 in
      (
        reply,
        next,
        exchange-Replied m w (h1 ∙ as_replied e' refl),
        send_records-AllReplied ms (some reply) next h3,
      )
