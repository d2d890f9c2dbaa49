-- ===== src/Timeout.antt =====
-- host/rp86/workload_timeout.py: the execution limit that RP2350 enforces. The textual forms
-- (`parse_timeout`, `format`) are not modelled.
use pi86_rp.Common.{
  ℕ, Bool, true, false, not, ◌&&◌, ◌||◌, Option, none, some, List, [], ◌∷◌, ltb, leb, ◌==◌,
  if◌then◌else◌, elem, length, ◌>>=◌, ◌>>◌, guard, value_error, Result, ok,
}
use pi86_rp.Struct.{Format, size, fields, pack, unpack, unsigned}
use pi86_rp.Protocol.{
  type_workload_timeout_request, type_workload_timeout_result, status_ok, status_bad_state, message,
  Message,
}
pub mod Replies

abbrev pub workload_timeout_get : ℕ
workload_timeout_get = 0

abbrev pub workload_timeout_set : ℕ
workload_timeout_set = 1

abbrev pub workload_timeout_max_ms : ℕ
workload_timeout_max_ms = 86400000

-- "<II"
abbrev pub timeout_request_format : Format
timeout_request_format = unsigned 4 ∷ unsigned 4 ∷ []

-- "<13I"
abbrev pub thirteen_words : Format
thirteen_words =
    unsigned 4
    ∷ unsigned 4
    ∷ unsigned 4
    ∷ unsigned 4
    ∷ unsigned 4
    ∷ unsigned 4
    ∷ unsigned 4
    ∷ unsigned 4
    ∷ unsigned 4
    ∷ unsigned 4
    ∷ unsigned 4
    ∷ unsigned 4
    ∷ unsigned 4
    ∷ []

unfoldable pub timeout_request : Option ℕ → ℕ → Result Message
timeout_request none sequence = do
  payload ← pack timeout_request_format (workload_timeout_get, (0, tt))
  ok (message type_workload_timeout_request sequence payload)
timeout_request (some timeout_ms) sequence = do
  guard (leb timeout_ms workload_timeout_max_ms)
      (value_error "workload timeout is outside the supported range" [])
  payload ← pack timeout_request_format (workload_timeout_set, (timeout_ms, tt))
  ok (message type_workload_timeout_request sequence payload)

pub record WorkloadTimeout : Type 0 where
  pub timeout_ms : ℕ
  pub remaining_ms : ℕ
  pub workload_id : ℕ
  pub boot_id : ℕ
  pub armed : ℕ

-- `all((result.timeout_ms, result.workload_id, result.boot_id))`
abbrev pub all_nonzero : WorkloadTimeout → Bool
all_nonzero t = not (t.timeout_ms == 0) && not (t.workload_id == 0) && not (t.boot_id == 0)

unfoldable pub is_inconsistent : WorkloadTimeout → Bool
is_inconsistent t =
    ltb workload_timeout_max_ms t.timeout_ms
    || not (elem t.armed (0 ∷ 1 ∷ []))
    || ltb t.timeout_ms t.remaining_ms
    || ((t.armed == 0) && not (t.remaining_ms == 0))
    || (not (t.armed == 0) && not (all_nonzero t))

-- `any(values)`
abbrev pub any_nonzero : List ℕ → Bool
any_nonzero [] = false
any_nonzero (x ∷ xs) = if x == 0 then any_nonzero xs else true

unfoldable pub timeout_from_reply : Message → Message → Result WorkloadTimeout
unfolding is_inconsistent
timeout_from_reply reply request = do
  guard
      ((reply.message_type == type_workload_timeout_result) && (reply.sequence == request.sequence))
      (value_error "workload timeout reply type/sequence mismatch" [])
  guard (reply.status == status_ok) (
      if reply.status == status_bad_state
      then value_error "execution limit is unavailable for an active prepared workload" []
      else value_error "workload timeout status" (reply.status ∷ []))
  guard (length reply.payload == size thirteen_words)
      (value_error "workload timeout payload must be exactly 52 bytes" [])
  (
    timeout_ms,
    (
      remaining_ms,
      (workload_id, (boot_id, (armed, (r5, (r6, (r7, (r8, (r9, (r10, (r11, (r12, _))))))))))),
    ),
  ) ←
      unpack thirteen_words reply.payload
  guard (not (any_nonzero (r5 ∷ r6 ∷ r7 ∷ r8 ∷ r9 ∷ r10 ∷ r11 ∷ r12 ∷ [])))
      (value_error "workload timeout reserved fields must be zero" [])
  let result : WorkloadTimeout = record {
    timeout_ms = timeout_ms;
    remaining_ms = remaining_ms;
    workload_id = workload_id;
    boot_id = boot_id;
    armed = armed;
  }
  guard (not (is_inconsistent result)) (value_error "inconsistent workload timeout status" [])
  (operation, (value, _)) ← unpack timeout_request_format request.payload
  guard (not ((operation == workload_timeout_set) && not (timeout_ms == value)))
      (value_error "workload timeout setting was not applied" [])
  ok result
