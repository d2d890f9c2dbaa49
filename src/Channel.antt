-- ===== src/Channel.antt =====
-- host/rp86/request_channel.py: one request, and the reply that is picked out of what is read. The
-- device, the transport and the clock are what the rounds of the loop saw before the deadline.
use pi86_rp.Common.{
  ℕ, ◌+◌, String, Option, none, some, List, [], ◌∷◌, ◌==◌, if◌then◌else◌, Bytes, ◌>>=◌, ◌>>◌,
  raises_value_error, Error, runtime_error, Result, ok, err,
}
use pi86_rp.Protocol.{message_size, encode, Processor, Message}
use pi86_rp.Replies.{hid_output_report, validate_device_reply}
pub mod Picked

-- `L` is the type of latencies. An error is a text, the numbers in it, and the error it quotes.
pub record ExchangeResult (L : Type 0) : Type 0 where
  pub reply : Option Message
  pub latency_ms : L
  pub error : Option (String × List ℕ × Option Error)

-- What one round of the loop met, with the time since the start where a result carries it.
pub data Round (L : Type 0) : Type 0 where
  transport_failed : String → L → Round L
  nothing : Round L
  received : Bytes → L → Round L
  disconnected : String → L → Round L

abbrev pub no_reply : {L : Type 0} → L → String × List ℕ × Option Error → ExchangeResult L
no_reply latency error = record { reply = none; latency_ms = latency; error = some error }

abbrev pub timeout_error : Option Error → String × List ℕ × Option Error
timeout_error none = ("device reply timeout", [], none)
timeout_error (some e) = ("device reply timeout after stale HID reply: ", [], some e)

-- The loop, with the last error of a stale reply; `ended` is the time at the deadline. A reply
-- that raises a `ValueError` is skipped; another exception leaves the function.
unfoldable pub exchange_loop :
    {L : Type 0}
    → Message
    → Option Processor
    → L
    → Option Error
    → List (Round L)
    → Result (ExchangeResult L)
exchange_loop request expected ended stale [] = ok (no_reply ended (timeout_error stale))
exchange_loop request expected ended stale (transport_failed error latency ∷ rounds) =
    ok (no_reply latency (error, [], none))
exchange_loop request expected ended stale (disconnected error latency ∷ rounds) =
    ok (no_reply latency ("USB HID disconnected: ", [], some (runtime_error error [])))
exchange_loop request expected ended stale (nothing ∷ rounds) =
    exchange_loop request expected ended stale rounds
exchange_loop request expected ended stale (received candidate latency ∷ rounds) =
    elim (validate_device_reply candidate request expected) [
      | ok reply ↦ ok (record { reply = some reply; latency_ms = latency; error = none })
      | err e ↦
          if raises_value_error {A = Message} (err e)
          then exchange_loop request expected ended (some e) rounds
          else err e
    ]

-- `written` is what the device's `write` returned for the report, and `start` is 0.0.
unfoldable pub exchange_hid_request :
    {L : Type 0}
    → Message
    → Option Processor
    → ℕ
    → L
    → L
    → List (Round L)
    → Result (ExchangeResult L)
unfolding hid_output_report encode exchange_loop
exchange_hid_request request expected written start ended rounds = do
  record_bytes ← encode request
  _ ← hid_output_report record_bytes
  if written == message_size + 1
      then exchange_loop request expected ended none rounds
      else ok (no_reply start ("short HID write", written ∷ 65 ∷ [], none))
