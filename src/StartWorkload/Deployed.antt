-- ===== src/StartWorkload/Deployed.antt =====
-- A start that reports success.
use pi86_rp.Common.{
  ℕ, String, ◌≡◌, refl, sym, ◌∙◌, inl, inr, Bool, true, false, ◌&&◌, Option, none, some, List, [],
  ◌∷◌, ◌==◌, if◌then◌else◌, ==→eq, Bool-cases, Bytes, ok_injective, Result, ok, err,
}
use pi86_rp.StartWorkload.Exchange.{RpcReply}
use pi86_rp.Protocol.{Message}
use pi86_rp.Runtime.{
  processor_execution_state, workload_upload_requires_stop, from_payload, ExecutionState, idle_hlt,
  stopped_reset, active, WorkloadRuntimeState,
}
use pi86_rp.Workload.{WorkloadManifest}
use pi86_rp.Workload.Upload.{run, stop, status}
use pi86_rp.Workload.Options.{workload_from_bytes, Readers}
use pi86_rp.StartWorkload.{
  following_sequence, sequence_from_hello, is_start_error, last_record_sequence, is_active,
  is_running, send_records, control, stop_first, run_workload, after_upload, deploy, catch_start,
  start_workload, ExitCode, pass, validation,
}
use pi86_rp.StartWorkload.Started.{
  after_action-eq-ok, lifted-eq-ok, lift-eq-ok, AllReplied, Controlled, StoppedFirst,
  control-Controlled, send_records-AllReplied,
}

is_active-true : (e : ExecutionState) → is_active e ≡ true → e ≡ active
is_active-true active h = refl
is_active-true idle_hlt h = cc
is_active-true stopped_reset h = cc

and-true : (a b : Bool) → (a && b) ≡ true → (a ≡ true) × (b ≡ true)
and-true true b h = (refl, h)
and-true false b h = cc

is_running-true :
    (s : WorkloadRuntimeState)
    → is_running s ≡ true
    → (s.lifecycle ≡ 3) × (processor_execution_state s.clock_mode s.processor_flags ≡ active)
unfolding is_running
is_running-true s h =
    let (three, act) = and-true (s.lifecycle == 3) _ h in
    (
      ==→eq s.lifecycle 3 three,
      is_active-true (processor_execution_state s.clock_mode s.processor_flags) act,
    )

pass-is_running : (t : Bool) → (if t then pass else validation) ≡ pass → t ≡ true
pass-is_running true h = refl
pass-is_running false h = cc

module _ {W : Type 0} (rpc : Bytes → W → Result RpcReply × W) (readers : Readers) (name : String)
    (file : Result Bytes) (transfer_id : ℕ) where
  -- The requests of a start from a number on, and how the device took them.
  pub record Deployed (sequence : ℕ) (w : W) (end : W) : Type 0 where
    pub asked : Message
    pub current : WorkloadRuntimeState
    pub first : ℕ
    pub encoded : Bytes
    pub manifest : WorkloadManifest
    pub image : Bytes
    pub records : List Message
    pub answer : Message
    pub running : WorkloadRuntimeState
    pub behind_status : W
    pub behind_stop : W
    pub behind_upload : W
    pub status_asked : Controlled rpc status sequence w asked behind_status
    pub status_read : from_payload asked.payload ≡ ok current
    pub stopped_first :
        StoppedFirst rpc current (following_sequence sequence) behind_status first behind_stop
    pub file_read : file ≡ ok encoded
    pub built :
        workload_from_bytes readers encoded (name ∷ []) transfer_id first
        ≡ ok (manifest, image, records)
    pub uploaded : AllReplied rpc behind_stop records behind_upload
    pub run_asked :
        Controlled rpc run
          (following_sequence (last_record_sequence records))
          behind_upload
          answer
          end
    pub run_read : from_payload answer.payload ≡ ok running
    pub lifecycle_is_running : running.lifecycle ≡ 3
    pub processor_is_active :
        processor_execution_state running.clock_mode running.processor_flags ≡ active

  stop_first-StoppedFirst :
      (current : WorkloadRuntimeState) (sequence : ℕ) (w : W) {first : ℕ} {after : W}
      → stop_first rpc current sequence w ≡ (ok first, after)
      → StoppedFirst rpc current sequence w first after
  unfolding stop_first
  stop_first-StoppedFirst current sequence w {first} {after} h =
      elim (Bool-cases (workload_upload_requires_stop current.lifecycle)) [
        | inl needed ↦
            let (reply, next, h1, h2) =
              after_action-eq-ok _ (control rpc stop sequence w) (rw needed at h) in
            let (same, there) = lift-eq-ok (ok (following_sequence sequence)) next h2 in
            inl (
              needed,
              sym (ok_injective same),
              reply,
              control-Controlled rpc stop sequence w (h1 ∙ λ i. (ok reply, there i)),
            )
        | inr idle ↦
            let (same, there) = lift-eq-ok (ok sequence) w (rw idle at h) in
            inr (idle, sym (ok_injective same), there)
      ]

  -- What the end of a start that passes has done.
  abbrev RunAccepted : List Message → W → W → Type 0
  RunAccepted records w end =
      (answer : Message) × (running : WorkloadRuntimeState) × Controlled rpc run
        (following_sequence (last_record_sequence records)) w answer end
      × (from_payload answer.payload ≡ ok running)
      × (is_running running ≡ true)

  run_workload-RunAccepted :
      (records : List Message) (w : W) {end : W}
      → run_workload rpc records w ≡ (ok pass, end)
      → RunAccepted records w end
  unfolding run_workload
  run_workload-RunAccepted records w {end} h =
      let (answer, next, e1, h1) =
        after_action-eq-ok _ (control rpc run (following_sequence (last_record_sequence records)) w)
          h in
      let (running, e2, h2) = lifted-eq-ok _ (from_payload answer.payload) next h1 in
      let (verdict, there) =
        lift-eq-ok (ok (if is_running running then pass else validation)) next h2 in
      (
        answer,
        running,
        control-Controlled rpc run _ w (e1 ∙ λ i. (ok answer, there i)),
        e2,
        pass-is_running (is_running running) (ok_injective verdict),
      )

  after_upload-RunAccepted :
      (records : List Message) (final : Option Message) (w : W) {end : W}
      → after_upload rpc records final w ≡ (ok pass, end)
      → (reply : Message) × (final ≡ some reply) × RunAccepted records w end
  unfolding after_upload
  after_upload-RunAccepted records none w h = cc
  after_upload-RunAccepted records (some reply) w h =
      let (staged, e, h1) = lifted-eq-ok _ (from_payload reply.payload) w h in
      (reply, refl, run_workload-RunAccepted records w h1)

  deploy-Deployed :
      (sequence : ℕ) (w : W) {end : W}
      → deploy rpc readers name file transfer_id sequence w ≡ (ok pass, end)
      → Deployed sequence w end
  unfolding deploy
  deploy-Deployed sequence w h =
      let (asked, w1, e1, h1) = after_action-eq-ok _ (control rpc status sequence w) h in
      let (current, e2, h2) = lifted-eq-ok _ (from_payload asked.payload) w1 h1 in
      let (first, w3, e3, h3) =
        after_action-eq-ok _ (stop_first rpc current (following_sequence sequence) w1) h2 in
      let (encoded, e4, h4) = lifted-eq-ok _ file w3 h3 in
      let (load, e5, h5) =
        lifted-eq-ok _ (workload_from_bytes readers encoded (name ∷ []) transfer_id first) w3 h4 in
      let (final, w6, e6, h6) = after_action-eq-ok _ (send_records rpc load.2 none w3) h5 in
      let (reply, e7, ran) = after_upload-RunAccepted load.2 final w6 h6 in
      let (answer, running, e8, e9, good) = ran in
      record {
        asked = asked;
        current = current;
        first = first;
        encoded = encoded;
        manifest = load.0;
        image = load.1;
        records = load.2;
        answer = answer;
        running = running;
        behind_status = w1;
        behind_stop = w3;
        behind_upload = w6;
        status_asked = control-Controlled rpc status sequence w e1;
        status_read = e2;
        stopped_first = stop_first-StoppedFirst current (following_sequence sequence) w1 e3;
        file_read = e4;
        built = e5;
        uploaded = send_records-AllReplied rpc load.2 none w3 (e6 ∙ λ i. (ok (e7 i), w6));
        run_asked = e8;
        run_read = e9;
        lifecycle_is_running = (is_running-true running good).0;
        processor_is_active = (is_running-true running good).1;
      }

  passed : (r : Result ExitCode × W) {end : W} → catch_start r ≡ (ok pass, end) → r ≡ (ok pass, end)
  passed (ok code, w) h = h
  passed (err e, w) h = elim (Bool-cases (is_start_error e)) [
    | inl caught ↦ cc (rw caught at h)
    | inr escaped ↦ cc (rw escaped at h)
  ]

  -- A start that passes has asked for the status, stopped the processor exactly if it ran or had
  -- completed, sent every record of the file's upload, whose numbers start behind those requests,
  -- and asked for the run with the number behind them; every request was accepted, in that order,
  -- and the last reply says that the workload runs on an active processor.
  pub start_workload-Deployed :
      (hello : Option ℕ) (w : W) {end : W}
      → start_workload rpc readers name file transfer_id hello w ≡ (ok pass, end)
      → Deployed (sequence_from_hello hello) w end
  unfolding start_workload
  start_workload-Deployed hello w h =
      deploy-Deployed (sequence_from_hello hello) w
        (passed (deploy rpc readers name file transfer_id (sequence_from_hello hello) w) h)
