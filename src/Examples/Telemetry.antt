-- ===== src/Examples/Telemetry.antt =====
-- Snapshots of a workload at concrete inputs.
use pi86_rp.Common.{ℕ, ◌+◌, ◌<◌, ◌≡◌, refl, ◌↔◌, true, arith, ltb, ◌==◌, if◌then◌else◌, ok}
use pi86_rp.Struct.{from_le, fields, unpack}
use pi86_rp.Memory.Effect.{Space}
use pi86_rp.Telemetry.{
  stable_sequence, decode_sequence, decode_telemetry, compare_snapshot, read_between, attempt,
  attempt_loop, read_stable_telemetry, sustained_progress, FreeRtosSystemTelemetry,
}
use pi86_rp.Telemetry.Coherent.{read_words, reader, Stood, read_stable_telemetry-Stood, Publishes}
use pi86_rp.Telemetry.Progress.{Progressed, sustained_progress_iff}

-- A processor that is writing for three units of time and then stands still.
abbrev sample_count : ℕ → ℕ
sample_count t = if ltb t 3 then 1 else 2

abbrev sample_memory : ℕ → Space
sample_memory t x = if x == 0x508 then sample_count t else 0

sample_count_small : (t : ℕ) → sample_count t < 3
sample_count_small t = ground arith

sample-Publishes : Publishes sample_memory sample_count 0x500
sample-Publishes = record {
  low = λ t. omega (arith, sample_count_small t);
  high = λ t. omega (arith, sample_count_small t);
  grows = λ t. ground arith;
  slow = λ t. omega (arith, sample_count_small (t + 9));
  quiet = λ t x even same lo hi. ground arith;
}

abbrev sample_snapshot : ℕ → FreeRtosSystemTelemetry
sample_snapshot n = record {
  led_state = 0;
  led_toggle_count = n;
  queue_tx_count = n;
  queue_rx_count = n;
  event_sequence = 2 + n;
  event = 0;
  event_arg = 0;
  error_count = 0;
}

sample_read : read_stable_telemetry (reader sample_memory) 0x500 5 0 ≡ (ok (sample_snapshot 0), 13)
unfolding read_stable_telemetry attempt_loop attempt read_between compare_snapshot decode_telemetry
    stable_sequence decode_sequence unpack fields from_le read_words
sample_read = refl

read_stable_telemetry-Stood_example : Stood sample-Publishes 0 (sample_snapshot 0)
read_stable_telemetry-Stood_example =
    read_stable_telemetry-Stood sample-Publishes 5 0 13 (sample_snapshot 0) sample_read

sustained_progress_iff_example :
    ((sustained_progress (sample_snapshot 0) (sample_snapshot 4)).0 ≡ true)
    ↔ Progressed (sample_snapshot 0) (sample_snapshot 4)
sustained_progress_iff_example =
    sustained_progress_iff (sample_snapshot 0) (sample_snapshot 4) (omega arith) (omega arith)
