-- ===== src/StartWorkload.antt =====
-- host/rp86/start_workload.py: one workload is uploaded and started through the broker of a device.
-- A call of the broker is a parameter, which acts on a world `W`, and so is the content of the file.
use pi86_rp.Common.{
  ℕ, ◌+◌, String, Bool, true, false, ◌&&◌, Option, none, some, List, [], ◌∷◌, ◌==◌, if◌then◌else◌,
  Bytes, ◌>>◌, Error, value_error, runtime_error, os_error, Result, ok, err,
}
use pi86_rp.Protocol.{Message}
use pi86_rp.Sequence.{wrap_sequence}
use pi86_rp.Runtime.{
  processor_execution_state, workload_upload_requires_stop, from_payload, ExecutionState, idle_hlt,
  stopped_reset, active, WorkloadRuntimeState,
}
use pi86_rp.Workload.Upload.{control_record, ControlOperation, run, stop, status}
use pi86_rp.Workload.Options.{workload_from_bytes, Readers}
use pi86_rp.StartWorkload.Exchange.{exchange, RpcReply, Exchanged, replied, failed}
pub mod Exchange
pub mod Started
pub mod Deployed

pub data ExitCode : Type 0 where
  pass validation transport : ExitCode

unfoldable pub following_sequence : ℕ → ℕ
unfolding wrap_sequence
following_sequence sequence = wrap_sequence (sequence + 1)

-- The number in a hello's snapshot, `1` where there is none.
unfoldable pub sequence_from_hello : Option ℕ → ℕ
unfolding wrap_sequence
sequence_from_hello none = wrap_sequence 1
sequence_from_hello (some sequence) = wrap_sequence (if sequence == 0 then 1 else sequence)

-- OSError, RuntimeError and ValueError.
unfoldable pub is_start_error : Error → Bool
is_start_error (value_error text numbers) = true
is_start_error (runtime_error text numbers) = true
is_start_error (os_error text) = true
is_start_error other = false

-- A call that may raise, on the world.
abbrev pub Action : Type 0 → Type 0 → Type 0
Action W A = W → Result A × W

abbrev pub after_action : {W A B : Type 0} → (A → Action W B) → Result A × W → Result B × W
after_action f (ok a, w) = f a w
after_action f (err e, w) = (err e, w)

infixl 5 ◌>>=◌
abbrev pub ◌>>=◌ : {W A B : Type 0} → Action W A → (A → Action W B) → Action W B
(m >>= f) w = after_action f (m w)

abbrev pub lift : {W A : Type 0} → Result A → Action W A
lift r w = (r, w)

abbrev pub pure : {W A : Type 0} → A → Action W A
pure a w = (ok a, w)

-- `if reply is None: raise RuntimeError(...)`
abbrev pub reply_of : Exchanged → Result Message
reply_of (replied reply) = ok reply
reply_of (failed fault) = err (runtime_error "workload request failed" [])

-- The number of the last record.
unfoldable pub last_record_sequence : List Message → ℕ
last_record_sequence [] = 0
last_record_sequence (m ∷ []) = m.sequence
last_record_sequence (m ∷ n ∷ ms) = last_record_sequence (n ∷ ms)

abbrev pub is_active : ExecutionState → Bool
is_active active = true
is_active idle_hlt = false
is_active stopped_reset = false

-- `running.lifecycle_name == "RUNNING" and running.processor_state == "ACTIVE"`
unfoldable pub is_running : WorkloadRuntimeState → Bool
is_running s =
    (s.lifecycle == 3) && is_active (processor_execution_state s.clock_mode s.processor_flags)

-- What follows a record that was exchanged: the rest of the upload, or its end.
unfoldable pub after_record :
    {W : Type 0} → (Message → Action W (Option Message)) → Exchanged → Action W (Option Message)
after_record rest (replied reply) = rest reply
after_record rest (failed fault) = pure none

module _ {W : Type 0} (rpc : Bytes → W → Result RpcReply × W) where
  unfoldable pub request_reply : Message → Action W Message
  request_reply request = do e ← exchange rpc request; lift (reply_of e)

  -- The upload's records, one after the other: the last reply, or `none` when one failed.
  unfoldable pub send_records : List Message → Option Message → Action W (Option Message)
  unfolding after_record
  send_records [] last w = (ok last, w)
  send_records (request ∷ requests) last w =
      let rest = λ (reply : Message). send_records requests (some reply) in
      after_action (after_record rest) (exchange rpc request w)

  unfoldable pub control : ControlOperation → ℕ → Action W Message
  unfolding request_reply
  control operation sequence = do
    request ← lift (control_record (some operation) 0 sequence)
    request_reply request

  -- The stop before a load, where the processor is active, and the number behind it.
  unfoldable pub stop_first : WorkloadRuntimeState → ℕ → Action W ℕ
  unfolding control following_sequence
  stop_first current sequence =
      if workload_upload_requires_stop current.lifecycle
      then (do _ ← control stop sequence; pure (following_sequence sequence))
      else pure sequence

  -- The run request behind the upload, and the verdict on its reply.
  unfoldable pub run_workload : List Message → Action W ExitCode
  unfolding control following_sequence last_record_sequence is_running
  run_workload records = do
    reply ← control run (following_sequence (last_record_sequence records))
    running ← lift (from_payload reply.payload)
    pure (if is_running running then pass else validation)

  unfoldable pub after_upload : List Message → Option Message → Action W ExitCode
  unfolding run_workload
  after_upload records none = pure validation
  after_upload records (some final) = do
    staged ← lift (from_payload final.payload)
    run_workload records

  module _ (readers : Readers) (name : String) (file : Result Bytes) (transfer_id : ℕ) where
    -- The `try` block of `main`, behind the hello.
    unfoldable pub deploy : ℕ → Action W ExitCode
    unfolding control stop_first send_records after_upload following_sequence
    deploy sequence = do
      reply ← control status sequence
      current ← lift (from_payload reply.payload)
      first ← stop_first current (following_sequence sequence)
      encoded ← lift file
      (_, _, records) ← lift (workload_from_bytes readers encoded (name ∷ []) transfer_id first)
      final ← send_records records none
      after_upload records final

abbrev pub catch_start : {W : Type 0} → Result ExitCode × W → Result ExitCode × W
catch_start (ok code, w) = (ok code, w)
catch_start (err e, w) = (if is_start_error e then ok transport else err e, w)

module _ {W : Type 0} (rpc : Bytes → W → Result RpcReply × W) (readers : Readers) (name : String)
    (file : Result Bytes) (transfer_id : ℕ) where
  -- `main` behind the broker's hello, whose snapshot has a request number or none.
  unfoldable pub start_workload : Option ℕ → Action W ExitCode
  unfolding deploy is_start_error sequence_from_hello
  start_workload hello w =
      catch_start (deploy rpc readers name file transfer_id (sequence_from_hello hello) w)
