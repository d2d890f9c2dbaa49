-- ===== src/Evidence/Observed.antt =====
-- What the evidence of a session says of a workload.
use package.text.Mathlib.TextPositions.{eq_refl}
use pi86_rp.Common.{
  String, ◌≡◌, refl, sym, ap, ◌∙◌, ◌↔◌, inl, inr, true, false, Option, none, some, List, [], ◌∷◌,
  ◌++◌, arith, if◌then◌else◌, Bool-cases, bytes_eq_refl,
}
use pi86_rp.Runtime.{completed, passed, WorkloadRuntimeState}
use pi86_rp.Workload.{WorkloadManifest}
use pi86_rp.Evidence.{
  snapshot_passed, outcome_of, is_bound, workload_snapshot, manifest_eq, image_eq, state_eq,
  is_last, forget_other, retain_result, is_terminal, observe_workload, Image, pass,
  WorkloadSnapshot, SessionEvidence,
}

state_eq_refl : (s : WorkloadRuntimeState) → state_eq s s ≡ true
unfolding state_eq
state_eq_refl s = ground (arith, bytes_eq_refl s.native_output)

manifest_eq_refl : (m : WorkloadManifest) → manifest_eq m m ≡ true
unfolding manifest_eq
manifest_eq_refl m = ground arith

image_eq_refl : (i : Option Image) → image_eq i i ≡ true
unfolding image_eq
image_eq_refl none = refl
image_eq_refl (some i) = rw (eq_refl i.source) (manifest_eq_refl i.manifest)

is_last_self :
    (e : SessionEvidence) (s : WorkloadRuntimeState)
    → is_last (workload_snapshot e s) (some (workload_snapshot e s)) ≡ true
unfolding is_last workload_snapshot
is_last_self e s = ground (
  arith,
  state_eq_refl s,
  image_eq_refl (if is_bound e.image_workload_id s.workload_id then e.image else none),
)

forget_other_twice :
    (e : SessionEvidence) (s : WorkloadRuntimeState)
    → forget_other (forget_other e s) s ≡ forget_other e s
unfolding forget_other
forget_other_twice e s = ground arith

-- A snapshot says `PASS` exactly when the workload has completed with a structured result that has
-- the flag.
pub outcome_pass_iff :
    (e : SessionEvidence) (s : WorkloadRuntimeState)
    → ((workload_snapshot e s).outcome ≡ pass)
      ↔ ((s.lifecycle ≡ 5) × (s.structured_result ≡ true) × (passed s ≡ true))
unfolding workload_snapshot snapshot_passed completed outcome_of
outcome_pass_iff e s = (λ h. ground arith, λ h. ground arith)

-- Results and the last terminal snapshot do not matter to what is forgotten.
abbrev with_results :
    SessionEvidence → List (String × WorkloadSnapshot) → Option WorkloadSnapshot → SessionEvidence
with_results k results last = record k { workload_results = results; last_terminal = last }

forget_other_with :
    (k : SessionEvidence) (s : WorkloadRuntimeState) (results : List (String × WorkloadSnapshot))
    (last : Option WorkloadSnapshot)
    → forget_other k s ≡ k
    → forget_other (with_results k results last) s ≡ with_results k results last
unfolding forget_other
forget_other_with k s results last h =
    elim (Bool-cases (is_bound k.image_workload_id s.workload_id)) [
      | inl bound ↦ rw bound refl
      | inr other ↦ rw other (ap (λ e. with_results e results last) (rw other at h))
    ]

observe_terminal :
    (now : String) (e : SessionEvidence) (s : WorkloadRuntimeState)
    → is_terminal s ≡ true
    → observe_workload now e s
      ≡ retain_result now (workload_snapshot (forget_other e s) s) (forget_other e s)
unfolding observe_workload
observe_terminal now e s t = rw t refl

observe_other :
    (now : String) (e : SessionEvidence) (s : WorkloadRuntimeState)
    → is_terminal s ≡ false
    → observe_workload now e s
      ≡ with_results (forget_other e s) (forget_other e s).workload_results none
unfolding observe_workload
observe_other now e s t = rw t refl

retain_old :
    (now : String) (snapshot : WorkloadSnapshot) (k : SessionEvidence)
    → is_last snapshot k.last_terminal ≡ true
    → retain_result now snapshot k ≡ k
unfolding retain_result
retain_old now snapshot k h = rw h refl

retain_new :
    (now : String) (snapshot : WorkloadSnapshot) (k : SessionEvidence)
    → is_last snapshot k.last_terminal ≡ false
    → retain_result now snapshot k
      ≡ with_results k (k.workload_results ++ (now, snapshot) ∷ []) (some snapshot)
unfolding retain_result
retain_new now snapshot k h = rw h refl

abbrev retained : String → WorkloadRuntimeState → SessionEvidence → SessionEvidence
retained now s f = retain_result now (workload_snapshot f s) f

retain_again :
    (k : SessionEvidence) (s : WorkloadRuntimeState) (now later : String)
    → is_terminal s ≡ true
    → forget_other k s ≡ k
    → observe_workload later (retain_result now (workload_snapshot k s) k) s
      ≡ retain_result now (workload_snapshot k s) k
unfolding workload_snapshot
retain_again k s now later t h =
    let snapshot = workload_snapshot k s in
    elim (Bool-cases (is_last snapshot k.last_terminal)) [
      | inl old ↦
          let r = retain_old now snapshot k old in
          ap (λ f. observe_workload later f s) r
          ∙ observe_terminal later k s t
          ∙ ap (retained later s) h
          ∙ retain_old later snapshot k old
          ∙ sym r
      | inr new ↦
          let r = retain_new now snapshot k new in
          let after = with_results k (k.workload_results ++ (now, snapshot) ∷ []) (some snapshot) in
          ap (λ f. observe_workload later f s) r
          ∙ observe_terminal later after s t
          ∙ ap (retained later s) (forget_other_with k s _ (some snapshot) h)
          ∙ retain_old later snapshot after (is_last_self k s)
          ∙ sym r
    ]

-- Observing a state again adds nothing.
pub observe_workload_twice :
    (e : SessionEvidence) (s : WorkloadRuntimeState) (now later : String)
    → observe_workload later (observe_workload now e s) s ≡ observe_workload now e s
observe_workload_twice e s now later =
    let k = forget_other e s in
    elim (Bool-cases (is_terminal s)) [
      | inl t ↦
          ap (λ f. observe_workload later f s) (observe_terminal now e s t)
          ∙ retain_again k s now later t (forget_other_twice e s)
          ∙ sym (observe_terminal now e s t)
      | inr t ↦
          ap (λ f. observe_workload later f s) (observe_other now e s t)
          ∙ observe_other later (with_results k k.workload_results none) s t
          ∙ ap (λ f. with_results f f.workload_results none)
              (forget_other_with k s k.workload_results none (forget_other_twice e s))
          ∙ sym (observe_other now e s t)
    ]
