-- ===== src/Runtime/Views.antt =====
-- What the Host reads off the state.
use pi86_rp.Common.Bits.{bit_and-bit_or_1}
use pi86_rp.Common.{
  String, ◌≡◌, refl, ◌≢◌, ◌⊎◌, inl, inr, Bool, true, false, ◌&&◌, [], ◌∷◌, arith, ◌==◌, bytes_eq,
  ascii,
}
use pi86_rp.Runtime.{
  processor_execution_state, completed, passed, processor_identified, physical_regression_passed,
  mark_idle, rejected, regression_failure_reasons, idle_hlt, WorkloadRuntimeState,
}

five_checks :
    (a b c d e : Bool) (r s t u v : String)
    → ((a && b && c && d && e ≡ true)
        × (rejected ((a, r) ∷ (b, s) ∷ (c, t) ∷ (d, u) ∷ (e, v) ∷ []) ≡ []))
      ⊎ ((a && b && c && d && e ≡ false)
          × (rejected ((a, r) ∷ (b, s) ∷ (c, t) ∷ (d, u) ∷ (e, v) ∷ []) ≢ []))
five_checks true true true true true r s t u v = inl (refl, refl)
five_checks false b c d e r s t u v = inr (ground arith)
five_checks a false c d e r s t u v = inr (ground arith)
five_checks a b false d e r s t u v = inr (ground arith)
five_checks a b c false e r s t u v = inr (ground arith)
five_checks a b c d false r s t u v = inr (ground arith)

-- A physical regression passed exactly when there is no reason for a failure.
regression_failure_reasons-eq-nil :
    (s : WorkloadRuntimeState)
    → ((physical_regression_passed s ≡ true) × (regression_failure_reasons s ≡ []))
      ⊎ ((physical_regression_passed s ≡ false) × (regression_failure_reasons s ≢ []))
unfolding physical_regression_passed regression_failure_reasons
regression_failure_reasons-eq-nil s =
    five_checks (completed s) (passed s) (processor_identified s) (s.completion_reason == 2)
      (bytes_eq s.native_output (ascii "RESULT: PASS")) _ _ _ _ _

-- A state that is marked idle shows the processor halted, whatever its clock mode, and nothing
-- else of the state changes.
pub processor_execution_state-mark_idle :
    (s : WorkloadRuntimeState)
    → (processor_execution_state (mark_idle s).clock_mode (mark_idle s).processor_flags ≡ idle_hlt)
      × (s ≡ record (mark_idle s) { processor_flags = s.processor_flags })
unfolding processor_execution_state mark_idle
processor_execution_state-mark_idle s = (rw (bit_and-bit_or_1 s.processor_flags) refl, refl)
