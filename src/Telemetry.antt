-- ===== src/Telemetry.antt =====
-- host/rp86/freertos_system.py: the snapshots that a FreeRTOS workload publishes in memory.
use pi86_rp.Common.{
  ℕ, zero, suc, ◌+◌, ◌-◌, ◌%◌, ◌^◌, bit_and, String, Bool, true, false, not, ◌&&◌, ◌||◌, Option,
  none, some, List, [], ◌∷◌, ltb, ◌==◌, if◌then◌else◌, Bytes, length, guard, ◌>>=◌, ◌>>◌,
  value_error, runtime_error, Result, ok, err,
}
use pi86_rp.Struct.{Format, unpack, unsigned}
pub mod Coherent
pub mod Progress

abbrev pub telemetry_size : ℕ
telemetry_size = 16

abbrev pub telemetry_sequence_offset : ℕ
telemetry_sequence_offset = 8

abbrev pub port_trace_size : ℕ
port_trace_size = 14

-- "<H", "<8H" and "<7H"
abbrev pub sequence_format : Format
sequence_format = unsigned 2 ∷ []

abbrev pub telemetry_format : Format
telemetry_format =
    unsigned 2
    ∷ unsigned 2
    ∷ unsigned 2
    ∷ unsigned 2
    ∷ unsigned 2
    ∷ unsigned 2
    ∷ unsigned 2
    ∷ unsigned 2
    ∷ []

abbrev pub port_trace_format : Format
port_trace_format =
    unsigned 2 ∷ unsigned 2 ∷ unsigned 2 ∷ unsigned 2 ∷ unsigned 2 ∷ unsigned 2 ∷ unsigned 2 ∷ []

unfoldable pub stable_sequence : ℕ → Bool
stable_sequence sequence = bit_and sequence 1 == 0

unfoldable pub decode_sequence : Bytes → Result ℕ
decode_sequence bytes = do
  guard (length bytes == 2) (value_error "telemetry sequence must be exactly 2 bytes" [])
  (sequence, _) ← unpack sequence_format bytes
  ok sequence

-- `(current - previous) & 0xFFFF`, for counters of 16 bits.
unfoldable pub counter_delta : ℕ → ℕ → ℕ
counter_delta previous current = (current + 2 ^ 16 - previous) % 2 ^ 16

pub record FreeRtosSystemTelemetry : Type 0 where
  pub led_state : ℕ
  pub led_toggle_count : ℕ
  pub queue_tx_count : ℕ
  pub queue_rx_count : ℕ
  pub event_sequence : ℕ
  pub event : ℕ
  pub event_arg : ℕ
  pub error_count : ℕ

pub record FreeRtosPortTrace : Type 0 where
  pub stage : ℕ
  pub old_ss : ℕ
  pub old_sp : ℕ
  pub old_tcb : ℕ
  pub new_ss : ℕ
  pub new_sp : ℕ
  pub new_tcb : ℕ

unfoldable pub decode_telemetry : Bytes → Result FreeRtosSystemTelemetry
decode_telemetry bytes = do
  guard (length bytes == telemetry_size)
      (value_error "FreeRTOS telemetry must be exactly 16 bytes" [])
  (led_state, (toggles, (tx, (rx, (sequence, (event, (arg, (errors, _)))))))) ←
      unpack telemetry_format bytes
  ok (record {
    led_state = led_state;
    led_toggle_count = toggles;
    queue_tx_count = tx;
    queue_rx_count = rx;
    event_sequence = sequence;
    event = event;
    event_arg = arg;
    error_count = errors;
  })

unfoldable pub decode_port_trace : Bytes → Result FreeRtosPortTrace
decode_port_trace bytes = do
  guard (length bytes == port_trace_size)
      (value_error "FreeRTOS port trace must be exactly 14 bytes" [])
  (stage, (old_ss, (old_sp, (old_tcb, (new_ss, (new_sp, (new_tcb, _))))))) ←
      unpack port_trace_format bytes
  ok (record {
    stage = stage;
    old_ss = old_ss;
    old_sp = old_sp;
    old_tcb = old_tcb;
    new_ss = new_ss;
    new_sp = new_sp;
    new_tcb = new_tcb;
  })

unfoldable pub same_stack_segment : FreeRtosPortTrace → Bool
same_stack_segment trace = trace.old_ss == trace.new_ss

-- A call that acts on the world and may raise.
abbrev pub Reading : Type 0 → Type 0 → Type 0
Reading W A = W → Result A × W

abbrev pub and_then : {W A B : Type 0} → Result A × W → (A → Reading W B) → Result B × W
and_then (ok a, w) f = f a w
and_then (err e, w) f = (err e, w)

-- `none` starts the next attempt.
unfoldable pub compare_snapshot : ℕ → Bytes → ℕ → Result (Option FreeRtosSystemTelemetry)
unfolding decode_telemetry stable_sequence
compare_snapshot before raw after = do
  snapshot ← decode_telemetry raw
  ok (
      if (before == after)
        && (after == snapshot.event_sequence)
        && stable_sequence snapshot.event_sequence
      then some snapshot
      else none)

module _ {W : Type 0} (read_memory : ℕ → ℕ → Reading W Bytes) where
  abbrev pub read_sequence : ℕ → Reading W ℕ
  read_sequence address w =
      and_then (read_memory (address + telemetry_sequence_offset) 2 w)
        (λ bytes w'. (decode_sequence bytes, w'))

  -- The reads behind a stable first sequence.
  unfoldable pub read_between : ℕ → ℕ → Reading W (Option FreeRtosSystemTelemetry)
  unfolding compare_snapshot
  read_between address before w = and_then (read_memory address telemetry_size w) (λ raw w'.
      and_then (read_sequence address w') (λ after w''. (compare_snapshot before raw after, w'')))

  unfoldable pub attempt : ℕ → Reading W (Option FreeRtosSystemTelemetry)
  unfolding read_between stable_sequence
  attempt address w = and_then (read_sequence address w) (λ before w'.
      if stable_sequence before then read_between address before w' else (ok none, w'))

  unfoldable pub attempt_loop : ℕ → ℕ → Reading W FreeRtosSystemTelemetry
  unfolding attempt
  attempt_loop zero address w =
      (err (runtime_error "processor state changed during every telemetry snapshot" []), w)
  attempt_loop (suc n) address w = and_then (attempt address w) (λ found w'. elim found [
    | some snapshot ↦ (ok snapshot, w')
    | none ↦ attempt_loop n address w'
  ])

  unfoldable pub read_stable_telemetry : ℕ → ℕ → Reading W FreeRtosSystemTelemetry
  unfolding attempt_loop
  read_stable_telemetry address attempts w =
      if ltb attempts 1
      then (err (value_error "telemetry attempts must be at least 1" []), w)
      else attempt_loop attempts address w

  unfoldable pub read_port_trace : ℕ → Reading W FreeRtosPortTrace
  unfolding decode_port_trace
  read_port_trace address w =
      and_then (read_memory address port_trace_size w) (λ raw w'. (decode_port_trace raw, w'))

-- The tests of a run's progress: the failures, and that there is none.
abbrev pub failing : List (Bool × String) → List String
failing [] = []
failing ((fails, reason) ∷ rest) =
    let others = failing rest in if fails then reason ∷ others else others

abbrev pub no_failures : List String → Bool
no_failures [] = true
no_failures (reason ∷ reasons) = false

unfoldable pub progress_failures : FreeRtosSystemTelemetry → FreeRtosSystemTelemetry → List String
unfolding counter_delta
progress_failures first last = failing (
    (not (first.error_count == 0) || not (last.error_count == 0), "error_count is non-zero")
    ∷ (
      counter_delta first.led_toggle_count last.led_toggle_count == 0,
      "LED toggle count did not advance",
    )
    ∷ (
      counter_delta first.queue_tx_count last.queue_tx_count == 0,
      "queue TX count did not advance",
    )
    ∷ (
      counter_delta first.queue_rx_count last.queue_rx_count == 0,
      "queue RX count did not advance",
    )
    ∷ (
      counter_delta first.event_sequence last.event_sequence == 0,
      "event sequence did not advance",
    )
    ∷ [])

unfoldable pub sustained_progress :
    FreeRtosSystemTelemetry → FreeRtosSystemTelemetry → Bool × List String
unfolding progress_failures
sustained_progress first last =
    (no_failures (progress_failures first last), progress_failures first last)
