-- ===== src/Evidence.antt =====
-- `SessionEvidence` of host/rp86/session_evidence.py: what a session keeps of its workloads and of
-- the diagnostics. A result and a retained snapshot carry the time of their observation as a text.
use package.text.Mathlib.Text.{◌==◌ as str_eq}
use pi86_rp.Common.{
  ℕ, String, Bool, true, false, not, ◌&&◌, Option, none, some, List, [], ◌∷◌, ◌++◌, ◌==◌,
  if◌then◌else◌, bytes_eq, elem, Bytes,
}
use pi86_rp.Runtime.{completion_reason_name, completed, passed, Label, WorkloadRuntimeState}
use pi86_rp.Diagnostics.{BusDiagnostics}
use pi86_rp.Workload.{WorkloadManifest}
pub mod Observed

-- The source and the manifest of an accepted upload.
pub record Image : Type 0 where
  pub source : String
  pub manifest : WorkloadManifest

pub data Outcome : Type 0 where
  pass fail unproven incomplete : Outcome

pub data FailureReason : Type 0 where
  completion : Label → FailureReason
  pass_flag_absent result_unavailable : FailureReason

-- The entries of a snapshot. Those that only spell the state are left to `state`.
pub record WorkloadSnapshot : Type 0 where
  pub state : WorkloadRuntimeState
  pub image : Option Image
  pub was_passed : Option Bool
  pub outcome : Outcome
  pub failure_reason : Option FailureReason

pub record SessionEvidence : Type 0 where
  pub captured : Bytes
  pub workload_results : List (String × WorkloadSnapshot)
  pub bus_diagnostics : List (String × BusDiagnostics)
  pub image : Option Image
  pub image_workload_id : Option ℕ
  pub last_terminal : Option WorkloadSnapshot

unfoldable pub new_evidence : SessionEvidence
new_evidence = record {
  captured = [];
  workload_results = [];
  bus_diagnostics = [];
  image = none;
  image_workload_id = none;
  last_terminal = none;
}

unfoldable pub capture : SessionEvidence → Bytes → SessionEvidence
capture e bytes = record e { captured = e.captured ++ bytes }

unfoldable pub bind_workload : SessionEvidence → ℕ → String → WorkloadManifest → SessionEvidence
bind_workload e workload_id source manifest = record e {
  image = some (record { source = source; manifest = manifest });
  image_workload_id = some workload_id;
}

-- `passed` of `workload_snapshot`, behind all its tests.
unfoldable pub snapshot_passed : WorkloadRuntimeState → Option Bool
unfolding completed passed
snapshot_passed s =
    if elem s.lifecycle (6 ∷ 7 ∷ [])
    then some false
    else if s.structured_result && completed s
    then some (passed s)
    else none

abbrev pub is_false : Option Bool → Bool
is_false (some false) = true
is_false other = false

unfoldable pub snapshot_failure : WorkloadRuntimeState → Option FailureReason
unfolding snapshot_passed completion_reason_name completed
snapshot_failure s =
    if elem s.lifecycle (6 ∷ 7 ∷ [])
    then some (completion (completion_reason_name s.completion_reason))
    else if completed s && is_false (snapshot_passed s)
    then some pass_flag_absent
    else if completed s && not s.structured_result
    then some result_unavailable
    else none

unfoldable pub outcome_of : Option Bool → Bool → Outcome
outcome_of (some true) done = pass
outcome_of (some false) done = fail
outcome_of none done = if done then unproven else incomplete

abbrev pub is_bound : Option ℕ → ℕ → Bool
is_bound none workload_id = false
is_bound (some bound) workload_id = bound == workload_id

unfoldable pub workload_snapshot : SessionEvidence → WorkloadRuntimeState → WorkloadSnapshot
unfolding snapshot_passed snapshot_failure outcome_of completed
workload_snapshot e s = record {
  state = s;
  image = if is_bound e.image_workload_id s.workload_id then e.image else none;
  was_passed = snapshot_passed s;
  outcome = outcome_of (snapshot_passed s) (completed s);
  failure_reason = snapshot_failure s;
}

-- Equality of what snapshots are made of: the other entries follow.
unfoldable pub manifest_eq : WorkloadManifest → WorkloadManifest → Bool
manifest_eq m n =
    (m.image_size == n.image_size)
    && (m.image_crc32 == n.image_crc32)
    && (m.load_address == n.load_address)
    && (m.entry_segment == n.entry_segment)
    && (m.entry_offset == n.entry_offset)
    && (m.stack_segment == n.stack_segment)
    && (m.stack_offset == n.stack_offset)
    && (m.shared_base == n.shared_base)
    && (m.shared_size == n.shared_size)
    && (m.flags == n.flags)

unfoldable pub image_eq : Option Image → Option Image → Bool
unfolding manifest_eq
image_eq none none = true
image_eq none (some j) = false
image_eq (some i) none = false
image_eq (some i) (some j) = str_eq i.source j.source && manifest_eq i.manifest j.manifest

abbrev pub bool_eq : Bool → Bool → Bool
bool_eq true b = b
bool_eq false b = not b

unfoldable pub state_eq : WorkloadRuntimeState → WorkloadRuntimeState → Bool
unfolding bytes_eq
state_eq s t =
    (s.workload_id == t.workload_id)
    && (s.lifecycle == t.lifecycle)
    && (s.detail == t.detail)
    && (s.clock_mode == t.clock_mode)
    && (s.cycles == t.cycles)
    && (s.processor_flags == t.processor_flags)
    && (s.result_flags == t.result_flags)
    && (s.completion_reason == t.completion_reason)
    && (s.processor_signature == t.processor_signature)
    && bytes_eq s.native_output t.native_output
    && bool_eq s.structured_result t.structured_result

unfoldable pub is_last : WorkloadSnapshot → Option WorkloadSnapshot → Bool
unfolding state_eq image_eq
is_last s none = false
is_last s (some last) = state_eq s.state last.state && image_eq s.image last.image

-- The first test of `observe_workload`: the image of another workload is forgotten.
unfoldable pub forget_other : SessionEvidence → WorkloadRuntimeState → SessionEvidence
forget_other e s =
    if is_bound e.image_workload_id s.workload_id
    then e
    else record e { image = none; image_workload_id = none }

unfoldable pub retain_result : String → WorkloadSnapshot → SessionEvidence → SessionEvidence
unfolding is_last
retain_result now snapshot e = if is_last snapshot e.last_terminal then e else record e {
  workload_results = e.workload_results ++ (now, snapshot) ∷ [];
  last_terminal = some snapshot;
}

unfoldable pub is_terminal : WorkloadRuntimeState → Bool
is_terminal s = elem s.lifecycle (4 ∷ 5 ∷ 6 ∷ 7 ∷ [])

unfoldable pub observe_workload : String → SessionEvidence → WorkloadRuntimeState → SessionEvidence
unfolding forget_other retain_result workload_snapshot is_terminal
observe_workload now e s =
    let known = forget_other e s in
    if is_terminal s
    then retain_result now (workload_snapshot known s) known
    else record known { last_terminal = none }
