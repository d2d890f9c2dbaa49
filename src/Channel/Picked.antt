-- ===== src/Channel/Picked.antt =====
-- Which reply an exchange returns: the first one that is valid, whatever was skipped before it.
use pi86_rp.Common.{
  ℕ, String, ◌≡◌, refl, sym, ap, ◌∙◌, ◌≢◌, inl, inr, true, Option, none, some, List, [], ◌∷◌, ◌++◌,
  ◌==◌, ==→eq, eq→==, Bool-cases, Bytes, All, >>=-eq-ok, raises_value_error, ok_injective, Error,
  Result, ok, err,
}
use pi86_rp.Protocol.{encode, Processor, Message}
use pi86_rp.Protocol.Records.{encode_total, IsWire}
use pi86_rp.Replies.{hid_output_report, validate_device_reply}
use pi86_rp.Channel.{
  no_reply, exchange_loop, exchange_hid_request, ExchangeResult, Round, transport_failed, nothing,
  received, disconnected,
}

-- A round after which the loop goes on: nothing was read, or a reply that is not this request's.
abbrev pub IsSkipped : {L : Type 0} → Message → Option Processor → Round L → Type 0
IsSkipped request expected nothing = Unit
IsSkipped request expected (received candidate latency) =
    raises_value_error (validate_device_reply candidate request expected) ≡ true
IsSkipped request expected (transport_failed error latency) = ⊥
IsSkipped request expected (disconnected error latency) = ⊥

abbrev pub found_reply : {L : Type 0} → Message → L → ExchangeResult L
found_reply reply latency = record { reply = some reply; latency_ms = latency; error = none }

module _ {L : Type 0} (request : Message) (expected : Option Processor) (ended : L) where
  loop-rejected :
      (stale : Option Error) (candidate : Bytes) (latency : L) (rounds : List (Round L))
      (r : Result Message)
      → validate_device_reply candidate request expected ≡ r
      → raises_value_error r ≡ true
      → (e : Error) × (exchange_loop request expected ended stale
            (received candidate latency ∷ rounds)
          ≡ exchange_loop request expected ended (some e) rounds)
  unfolding exchange_loop
  loop-rejected stale candidate latency rounds (ok reply) h v = cc
  loop-rejected stale candidate latency rounds (err e) h v = (e, rw (exchange_loop, h, v) refl)

  loop-accepted :
      (stale : Option Error) (candidate : Bytes) (latency : L) (rounds : List (Round L))
      (reply : Message)
      → validate_device_reply candidate request expected ≡ ok reply
      → exchange_loop request expected ended stale (received candidate latency ∷ rounds)
        ≡ ok (found_reply reply latency)
  unfolding exchange_loop
  loop-accepted stale candidate latency rounds reply h = rw (exchange_loop, h) refl

  loop_picks :
      (stale : Option Error) (skipped rounds : List (Round L)) (candidate : Bytes) (latency : L)
      (reply : Message)
      → All (IsSkipped request expected) skipped
      → validate_device_reply candidate request expected ≡ ok reply
      → exchange_loop request expected ended stale (skipped ++ received candidate latency ∷ rounds)
        ≡ ok (found_reply reply latency)
  unfolding exchange_loop
  loop_picks stale [] rounds candidate latency reply all v =
      loop-accepted stale candidate latency rounds reply v
  loop_picks stale (nothing ∷ skipped) rounds candidate latency reply (s, all) v =
      loop_picks stale skipped rounds candidate latency reply all v
  loop_picks stale (received other at ∷ skipped) rounds candidate latency reply (s, all) v =
      let (e, same) =
        loop-rejected stale other at (skipped ++ received candidate latency ∷ rounds) _ refl s in
      same ∙ loop_picks (some e) skipped rounds candidate latency reply all v
  loop_picks stale (transport_failed error at ∷ skipped) rounds candidate latency reply (s, all) v =
      absurd s
  loop_picks stale (disconnected error at ∷ skipped) rounds candidate latency reply (s, all) v =
      absurd s

  -- An exchange whose request fits the wire and is written whole returns the first valid reply, with no error,
  -- after rounds that read nothing or a reply that raises a `ValueError`.
  pub exchange_hid_request-first_valid :
      (start : L) (skipped rounds : List (Round L)) (candidate : Bytes) (latency : L)
      (reply : Message)
      → IsWire request
      → All (IsSkipped request expected) skipped
      → validate_device_reply candidate request expected ≡ ok reply
      → exchange_hid_request request expected 65 start ended
          (skipped ++ received candidate latency ∷ rounds)
        ≡ ok (found_reply reply latency)
  unfolding exchange_hid_request hid_output_report
  exchange_hid_request-first_valid start skipped rounds candidate latency reply w all v =
      let (b, e, l, _) = encode_total request w in
      rw (e, eq→== _ _ l) (loop_picks none skipped rounds candidate latency reply all v)

  -- A reply that a loop returns was validated, after rounds that were skipped.
  abbrev pub Picked : List (Round L) → ExchangeResult L → Message → Type 0
  Picked rounds result reply =
      (skipped rest : List (Round L)) × (candidate : Bytes) × (rounds
        ≡ skipped ++ received candidate result.latency_ms ∷ rest)
      × All (IsSkipped request expected) skipped
      × (validate_device_reply candidate request expected ≡ ok reply)
      × (result.error ≡ none)

  no_reply-ne :
      (at : L) (e : String × List ℕ × Option Error) (x : ExchangeResult L) (reply : Message)
      → ◌≡◌ {A = Result (ExchangeResult L)} (ok (no_reply at e)) (ok x)
      → x.reply ≢ some reply
  no_reply-ne at e x reply h p =
      let q : none ≡ some reply = ap (λ (y : ExchangeResult L). y.reply) (ok_injective h) ∙ p in cc

  later :
      (round : Round L) (rounds : List (Round L)) (x : ExchangeResult L) (reply : Message)
      → IsSkipped request expected round
      → Picked rounds x reply
      → Picked (round ∷ rounds) x reply
  later round rounds x reply s (skipped, rest, candidate, same, all, v, e) = (
    round ∷ skipped,
    rest,
    candidate,
    ap (λ (r : List (Round L)). round ∷ r) same,
    (s, all),
    v,
    e,
  )

  received_sound :
      (stale : Option Error) (candidate : Bytes) (latency : L) (rounds : List (Round L))
      (x : ExchangeResult L) (reply : Message) (r : Result Message)
      → ((e : Error)
          → exchange_loop request expected ended (some e) rounds ≡ ok x
          → Picked rounds x reply)
      → validate_device_reply candidate request expected ≡ r
      → exchange_loop request expected ended stale (received candidate latency ∷ rounds) ≡ ok x
      → x.reply ≡ some reply
      → Picked (received candidate latency ∷ rounds) x reply
  unfolding exchange_loop
  received_sound stale candidate latency rounds x reply (ok found) recurse v h p =
      let e : found_reply found latency ≡ x =
        ok_injective (sym (loop-accepted stale candidate latency rounds found v) ∙ h) in
      let some_reply : some found ≡ some reply = ap (λ (y : ExchangeResult L). y.reply) e ∙ p in
      let same : found ≡ reply = cc in
      (
        [],
        rounds,
        candidate,
        ap (λ (y : ExchangeResult L). received candidate y.latency_ms ∷ rounds) e,
        tt,
        v ∙ ap (λ (m : Message). ok m) same,
        ap (λ (y : ExchangeResult L). y.error) (sym e),
      )
  received_sound stale candidate latency rounds x reply (err e) recurse v h p =
      elim (Bool-cases (raises_value_error {A = Message} (err e))) [
        | inl skips ↦
            let s : raises_value_error (validate_device_reply candidate request expected) ≡ true =
              rw v skips in
            let (f, same) = loop-rejected stale candidate latency rounds _ refl s in
            later (received candidate latency) rounds x reply s (recurse f (sym same ∙ h))
        | inr leaves ↦
            let out : exchange_loop request expected ended stale
                  (received candidate latency ∷ rounds)
                ≡ err e =
              rw (exchange_loop, v, leaves) refl in
            let no : err e ≡ ok x = sym out ∙ h in cc
      ]

  loop_sound :
      (stale : Option Error) (rounds : List (Round L)) (x : ExchangeResult L) (reply : Message)
      → exchange_loop request expected ended stale rounds ≡ ok x
      → x.reply ≡ some reply
      → Picked rounds x reply
  unfolding exchange_loop
  loop_sound stale [] x reply h p = absurd (no_reply-ne ended _ x reply h p)
  loop_sound stale (transport_failed error at ∷ rounds) x reply h p =
      absurd (no_reply-ne at _ x reply h p)
  loop_sound stale (disconnected error at ∷ rounds) x reply h p =
      absurd (no_reply-ne at _ x reply h p)
  loop_sound stale (nothing ∷ rounds) x reply h p =
      later nothing rounds x reply tt (loop_sound stale rounds x reply h p)
  loop_sound stale (received candidate at ∷ rounds) x reply h p =
      received_sound stale candidate at rounds x reply _
        (λ e g. loop_sound (some e) rounds x reply g p) refl h p

  -- A reply that an exchange returns is valid for the request, it was read in a round after
  -- rounds that read nothing or a reply that raises a `ValueError`, and there is no error.
  pub exchange_hid_request_sound :
      (written : ℕ) (start : L) (rounds : List (Round L)) (x : ExchangeResult L) (reply : Message)
      → exchange_hid_request request expected written start ended rounds ≡ ok x
      → x.reply ≡ some reply
      → (written ≡ 65) × Picked rounds x reply
  unfolding exchange_hid_request
  exchange_hid_request_sound written start rounds x reply h p =
      let (b, _, h1) = >>=-eq-ok (encode request) _ h in
      let (_, _, h2) = >>=-eq-ok (hid_output_report b) _ h1 in
      elim (Bool-cases (written == 65)) [
        | inl whole ↦ (==→eq _ _ whole, loop_sound none rounds x reply (rw whole at h2) p)
        | inr short ↦ absurd (no_reply-ne start _ x reply (rw short at h2) p)
      ]
