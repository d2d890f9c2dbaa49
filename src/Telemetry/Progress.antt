-- ===== src/Telemetry/Progress.antt =====
-- When a run has made progress.
use pi86_rp.Common.{
  ℕ, ◌^◌, ◌<◌, String, ◌≡◌, refl, ◌≢◌, ◌↔◌, Bool, true, false, [], ◌∷◌, arith, ◌==◌,
}
use pi86_rp.Telemetry.{
  counter_delta, failing, no_failures, progress_failures, sustained_progress,
  FreeRtosSystemTelemetry,
}

-- The counters of a snapshot are words.
abbrev pub HasWords : FreeRtosSystemTelemetry → Type 0
HasWords s =
    (s.led_toggle_count < 2 ^ 16)
    × (s.queue_tx_count < 2 ^ 16)
    × (s.queue_rx_count < 2 ^ 16)
    × (s.event_sequence < 2 ^ 16)

-- No error, and every counter moved.
abbrev pub Progressed : FreeRtosSystemTelemetry → FreeRtosSystemTelemetry → Type 0
Progressed first last =
    (first.error_count ≡ 0)
    × (last.error_count ≡ 0)
    × (first.led_toggle_count ≢ last.led_toggle_count)
    × (first.queue_tx_count ≢ last.queue_tx_count)
    × (first.queue_rx_count ≢ last.queue_rx_count)
    × (first.event_sequence ≢ last.event_sequence)

counter_delta-zero : (a b : ℕ) → a < 2 ^ 16 → b < 2 ^ 16 → a ≢ b → (counter_delta a b == 0) ≡ false
unfolding counter_delta
counter_delta-zero a b h k ne = ground arith

counter_delta-ne : (a b : ℕ) → a < 2 ^ 16 → (counter_delta a b == 0) ≡ false → a ≢ b
unfolding counter_delta
counter_delta-ne a b h k e = ground arith

all_passed :
    (a b c d e : Bool) (r s t u v : String)
    → no_failures (failing ((a, r) ∷ (b, s) ∷ (c, t) ∷ (d, u) ∷ (e, v) ∷ [])) ≡ true
    → (a ≡ false) × (b ≡ false) × (c ≡ false) × (d ≡ false) × (e ≡ false)
all_passed a b c d e r s t u v h = ground arith

-- A run between two snapshots with word counters is reported as progress exactly when neither
-- counts an error and each of the four counters of the later one differs from the earlier one's.
pub sustained_progress_iff :
    (first last : FreeRtosSystemTelemetry)
    → HasWords first
    → HasWords last
    → ((sustained_progress first last).0 ≡ true) ↔ Progressed first last
unfolding sustained_progress progress_failures
sustained_progress_iff first last (a, b, c, d) (a', b', c', d') = (
  (λ h.
      let (p, q, r, s, t) = all_passed _ _ _ _ _ _ _ _ _ _ h in
      (
        ground arith,
        ground arith,
        counter_delta-ne _ _ a q,
        counter_delta-ne _ _ b r,
        counter_delta-ne _ _ c s,
        counter_delta-ne _ _ d t,
      )),
  (λ h.
      let (p, q, r, s, t, u) = h in
      rw
        (
          p,
          q,
          counter_delta-zero _ _ a a' r,
          counter_delta-zero _ _ b b' s,
          counter_delta-zero _ _ c c' t,
          counter_delta-zero _ _ d d' u,
        )
        refl),
)
