-- ===== src/Transport/Acknowledged.antt =====
-- When a request over CDC is acknowledged, and what acknowledges a runtime control over HID.
use mathlib.Core.Path.{subst}
use pi86_rp.Common.{
  ℕ, ◌+◌, ◌<◌, ◌≡◌, refl, sym, ap, ◌∙◌, ◌↔◌, inl, inr, Bool, true, false, Option, none, some, List,
  [], ◌∷◌, ◌++◌, append-nil, append_assoc, ltb, ◌==◌, ltb→lt, ==→eq, Bool-cases, bytes_eq,
  bytes_eq→eq, Bytes, All, guard-eq-ok, >>=-eq-ok, ok_injective, ok,
}
use pi86_rp.Protocol.{
  message_size, type_runtime_control, type_runtime_status, status_ok, message, encode, Message,
}
use pi86_rp.Replies.{hid_output_report, receive}
use pi86_rp.Transport.{
  reboot_ack, find, occurs, await_ack, send_reboot_request, check_control, await_control,
  exchange_hid_runtime_control, CdcRound, quiet, chunk, lost, HidRound, nothing, report,
}
use pi86_rp.Transport.Framed.{find-append, bytes_of}

-- The connection was not lost.
abbrev pub IsKept : CdcRound → Type 0
IsKept quiet = Unit {0}
IsKept (chunk bytes) = Unit {0}
IsKept (lost text) = ⊥

occurs-find : (pattern xs : Bytes) → occurs pattern xs ≡ true → (n : ℕ) × (find pattern xs ≡ some n)
occurs-find pattern xs h = found (find pattern xs) refl h
  where
    found :
        (o : Option ℕ)
        → find pattern xs ≡ o
        → elim (find pattern xs) as (λ x. Bool) [ none ↦ false | some n ↦ true ] ≡ true
        → (n : ℕ) × (find pattern xs ≡ some n)
    found none e h' = cc
    found (some n) e h' = (n, e)

occurs-append :
    (pattern xs ys : Bytes) → occurs pattern xs ≡ true → occurs pattern (xs ++ ys) ≡ true
occurs-append pattern xs ys h =
    let (n, e) = occurs-find pattern xs h in rw (occurs, find-append pattern xs ys e) refl

module _ (ack : Bytes) where
  await_ack_sound :
      (rounds : List CdcRound) (received : Bytes) {evidence : Bytes}
      → await_ack ack received rounds ≡ ok evidence
      → occurs ack (received ++ bytes_of rounds) ≡ true
  unfolding await_ack bytes_of
  await_ack_sound [] received h = cc
  await_ack_sound (quiet ∷ rounds) received h = await_ack_sound rounds received h
  await_ack_sound (lost text ∷ rounds) received h = elim (Bool-cases (occurs ack received)) [
    | inl seen ↦ rw (append-nil received) seen
    | inr unseen ↦ cc (rw unseen at h)
  ]
  await_ack_sound (chunk bytes ∷ rounds) received h =
      subst (λ t. occurs ack t ≡ true) (append_assoc received bytes (bytes_of rounds))
        (elim (Bool-cases (occurs ack (received ++ bytes))) [
          | inl seen ↦ occurs-append ack (received ++ bytes) (bytes_of rounds) seen
          | inr unseen ↦ await_ack_sound rounds (received ++ bytes) (rw unseen at h)
        ])

  await_ack_complete :
      (rounds : List CdcRound) (received : Bytes)
      → All IsKept rounds
      → occurs ack received ≡ false
      → occurs ack (received ++ bytes_of rounds) ≡ true
      → (evidence : Bytes) × (await_ack ack received rounds ≡ ok evidence)
  unfolding await_ack bytes_of
  await_ack_complete [] received kept unseen h =
      cc (unseen, ap (occurs ack) (append-nil received), h)
  await_ack_complete (quiet ∷ rounds) received (k, kept) unseen h =
      await_ack_complete rounds received kept unseen h
  await_ack_complete (lost text ∷ rounds) received (k, kept) unseen h = elim k [ ]
  await_ack_complete (chunk bytes ∷ rounds) received (k, kept) unseen h =
      elim (Bool-cases (occurs ack (received ++ bytes))) [
        | inl seen ↦ (received ++ bytes, rw seen refl)
        | inr still ↦
            let (evidence, e) = await_ack_complete rounds (received ++ bytes) kept still (
              subst (λ t. occurs ack t ≡ true) (sym (append_assoc received bytes (bytes_of rounds)))
                h) in
            (evidence, rw still e)
      ]

-- While the connection is kept, a reboot request succeeds exactly when the acknowledgement stands in
-- the bytes that are read before the deadline, however they are cut into reads.
pub send_reboot_request_iff :
    (rounds : List CdcRound)
    → All IsKept rounds
    → ((evidence : Bytes) × (send_reboot_request rounds ≡ ok evidence))
      ↔ (occurs reboot_ack (bytes_of rounds) ≡ true)
unfolding send_reboot_request find
send_reboot_request_iff rounds kept = (
  λ r. await_ack_sound reboot_ack rounds [] r.1,
  await_ack_complete reboot_ack rounds [] kept refl,
)

-- An acknowledged control: the first report that was read is the reply.
abbrev pub FirstReport : Message → List HidRound → Type 0
FirstReport reply [] = ⊥
FirstReport reply (nothing ∷ rounds) = FirstReport reply rounds
FirstReport reply (report bytes ∷ rounds) = receive bytes ≡ ok reply

-- What a status record says that acknowledges an operation.
pub record IsAck (sequence operation : ℕ) (reply : Message) : Type 0 where
  pub typed : reply.message_type ≡ type_runtime_status
  pub numbered : reply.sequence ≡ sequence
  pub succeeded : reply.status ≡ status_ok
  pub echoed : reply.payload ≡ operation ∷ []

check_control-eq-ok :
    (request : Message) (operation : ℕ) (got : Message) {reply : Message}
    → check_control request operation got ≡ ok reply
    → (got ≡ reply) × IsAck request.sequence operation reply
unfolding check_control
check_control-eq-ok request operation got {reply} h =
    let (t, h1) = guard-eq-ok (got.message_type == type_runtime_status) _ _ h in
    let (s, h2) = guard-eq-ok (got.sequence == request.sequence) _ _ h1 in
    let (o, h3) = guard-eq-ok (got.status == status_ok) _ _ h2 in
    let (p, h4) = guard-eq-ok (bytes_eq got.payload (operation ∷ [])) _ _ h3 in
    let same : got ≡ reply = ok_injective h4 in
    (
      same,
      subst (IsAck request.sequence operation) same (record {
        typed = ==→eq got.message_type type_runtime_status t;
        numbered = ==→eq got.sequence request.sequence s;
        succeeded = ==→eq got.status status_ok o;
        echoed = bytes_eq→eq got.payload (operation ∷ []) p;
      }),
    )

await_control-FirstReport :
    (request : Message) (operation : ℕ) (rounds : List HidRound) {reply : Message}
    → await_control request operation rounds ≡ ok reply
    → FirstReport reply rounds × IsAck request.sequence operation reply
unfolding await_control
await_control-FirstReport request operation [] h = cc
await_control-FirstReport request operation (nothing ∷ rounds) h =
    await_control-FirstReport request operation rounds h
await_control-FirstReport request operation (report bytes ∷ rounds) {reply} h =
    let (got, e, h1) = >>=-eq-ok (receive bytes) _ h in
    let (same, rest) = check_control-eq-ok request operation got {reply = reply} h1 in
    (e ∙ ap ok same, rest)

-- An operation is acknowledged only by the first report that is read behind a whole write: a status
-- record with the request's sequence, a good status and the operation as its payload.
pub exchange_hid_runtime_control-FirstReport :
    (operation sequence written : ℕ) (rounds : List HidRound) {reply : Message}
    → exchange_hid_runtime_control operation sequence written rounds ≡ ok reply
    → (operation < 256)
      × (written ≡ message_size + 1)
      × FirstReport reply rounds
      × IsAck sequence operation reply
unfolding exchange_hid_runtime_control
exchange_hid_runtime_control-FirstReport operation sequence written rounds {reply} h =
    let (byte, h1) = guard-eq-ok (ltb operation 256) _ _ h in
    let request = message type_runtime_control sequence (operation ∷ []) in
    let (bytes, e, h2) = >>=-eq-ok (encode request) _ h1 in
    let (sent, e', h3) = >>=-eq-ok (hid_output_report bytes) _ h2 in
    let (whole, h4) = guard-eq-ok (written == message_size + 1) _ _ h3 in
    let (first, ack) = await_control-FirstReport request operation rounds {reply = reply} h4 in
    (ltb→lt operation 256 byte, ==→eq written 65 whole, first, ack)
