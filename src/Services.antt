-- ===== src/Services.antt =====
-- host/rp86/service_client.py: the memory, diagnostics and timeout services over the request channel.
use pi86_rp.Common.{
  ℕ, zero, suc, ◌+◌, ◌-◌, min, String, Option, none, some, List, [], ◌∷◌, ◌++◌, ltb, if◌then◌else◌,
  Bytes, length, ◌>>◌, value_error, Result, ok, err,
}
use pi86_rp.Protocol.{Message}
use pi86_rp.Sequence.{advance_after, RequestSequence}
use pi86_rp.Memory.{
  memory_read_request, memory_write_records, validate_memory_reply, parse_memory_read,
}
use pi86_rp.Timeout.{timeout_request, timeout_from_reply, WorkloadTimeout}
use pi86_rp.Diagnostics.{diagnostics_request, diagnostics_from_reply, BusDiagnostics}
use pi86_rp.Client.{Failure, Exchange, or_text}
pub mod Memory
pub mod Writes
pub mod Replies
pub mod Files

pub record ServiceClient (W : Type 0) : Type 0 where
  pub world : W
  pub sequence : RequestSequence

-- `(value, None)` or `(None, error)`.
pub data Answer {ℓ} (A : Type ℓ) : Type ℓ where
  answered : A → Answer A
  failed : Failure → Answer A

-- A method of the client: its answer, or an exception that leaves it, and the client after it.
abbrev pub Service : Type 0 → Type 0 → Type 0
Service W A = ServiceClient W → Result (Answer A) × ServiceClient W

abbrev pub after_service :
    {W A B : Type 0}
    → (A → Service W B)
    → Result (Answer A) × ServiceClient W
    → Result (Answer B) × ServiceClient W
after_service f (ok (answered a), client) = f a client
after_service f (ok (failed error), client) = (ok (failed error), client)
after_service f (err e, client) = (err e, client)

infixl 5 ◌>>=◌
-- `if reply is None: return None, error`
abbrev pub ◌>>=◌ : {W A B : Type 0} → Service W A → (A → Service W B) → Service W B
(m >>= f) client = after_service f (m client)

abbrev pub answer : {W A : Type 0} → A → Service W A
answer a client = (ok (answered a), client)

-- `except ValueError as exc: return None, str(exc)`
abbrev pub caught : {A : Type 0} → Result A → Result (Answer A)
caught (ok a) = ok (answered a)
caught (err (value_error text numbers)) = ok (failed ("", some (value_error text numbers)))
caught (err e) = err e

abbrev pub attempt : {W A : Type 0} → Result A → Service W A
attempt r client = (caught r, client)

-- A record that is built with the number that is next.
abbrev pub build : {W A : Type 0} → (ℕ → Result A) → Service W A
build make client = (caught (make client.sequence.value), client)

abbrev pub passed_on : {A : Type 0} → Result A → Result (Answer A)
passed_on (ok a) = ok (answered a)
passed_on (err e) = err e

-- The same outside a `try`.
abbrev pub uncaught : {W A : Type 0} → (ℕ → Result A) → Service W A
uncaught make client = (passed_on (make client.sequence.value), client)

module _ {W L : Type 0} (exchange : Exchange W L) (on_activity : W → W) where
  -- The sequence and the activity time move on whatever the exchange returned. An exception of the
  -- exchange leaves the method before that.
  unfoldable pub after_request :
      ServiceClient W
      → Message
      → String
      → Result (Option Message × L × Option String) × W
      → Result (Answer Message) × ServiceClient W
  unfolding advance_after or_text
  after_request client request text (ok (none, _, error), world) = (
    ok (failed (or_text error text)),
    record { world = on_activity world; sequence = advance_after client.sequence request.sequence },
  )
  after_request client request text (err e, world) = (err e, record client { world = world })
  after_request client request text (ok (some reply, _, _), world) = (
    ok (answered reply),
    record { world = on_activity world; sequence = advance_after client.sequence request.sequence },
  )

  -- What the methods have in common: one exchange, with its bookkeeping.
  unfoldable pub send : Message → String → Service W Message
  unfolding after_request
  send request text client = after_request client request text (exchange request client.world)

  unfoldable pub memory_request : Message → Service W Message
  unfolding send validate_memory_reply
  memory_request request = do
    reply ← send request "memory exchange failed"
    _ ← attempt (validate_memory_reply reply request)
    answer reply

  -- One round of the loop: the content with the next chunk.
  unfoldable pub read_chunk : ℕ → ℕ → Bytes → Service W Bytes
  unfolding memory_request memory_read_request parse_memory_read
  read_chunk address len content = do
    request ← build (memory_read_request (address + length content) (min 40 (len - length content)))
    reply ← memory_request request
    chunk ← attempt (parse_memory_read reply request)
    answer (content ++ chunk)

  -- Each round adds a byte at least, so `len` rounds are enough.
  unfoldable pub read_loop : ℕ → ℕ → ℕ → Bytes → Service W Bytes
  unfolding read_chunk
  read_loop zero address len content = answer content
  read_loop (suc fuel) address len content =
      if ltb (length content) len
      then (read_chunk address len content >>= read_loop fuel address len)
      else answer content

  unfoldable pub read_memory : ℕ → ℕ → Service W Bytes
  unfolding read_loop
  read_memory address len = read_loop len address len []

  unfoldable pub send_all : List Message → Service W (Unit {0})
  unfolding memory_request
  send_all [] = answer tt
  send_all (request ∷ requests) = do _ ← memory_request request; send_all requests

  unfoldable pub write_memory : ℕ → Bytes → Service W (Unit {0})
  unfolding memory_write_records send_all
  write_memory address bytes = do
    records ← build (memory_write_records address bytes)
    send_all records

  unfoldable pub read_diagnostics : ℕ → Service W BusDiagnostics
  unfolding send diagnostics_request diagnostics_from_reply
  read_diagnostics workload_id = do
    request ← uncaught (diagnostics_request workload_id)
    reply ← send request "diagnostics exchange failed"
    attempt (diagnostics_from_reply reply request)

  unfoldable pub execution_timeout : Option ℕ → Service W WorkloadTimeout
  unfolding send timeout_request timeout_from_reply
  execution_timeout timeout_ms = do
    request ← uncaught (timeout_request timeout_ms)
    reply ← send request "workload timeout exchange failed"
    attempt (timeout_from_reply reply request)
