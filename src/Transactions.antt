-- ===== src/Transactions.antt =====
-- host/rp86/workload_client.py: a workload transaction, record by record.
use pi86_rp.Common.{
  ℕ, ◌+◌, String, Bool, true, false, Option, none, some, List, [], ◌∷◌, ◌++◌, length, value_error,
  Result, ok, err,
}
use pi86_rp.Protocol.{Message}
use pi86_rp.Sequence.{advance_after}
use pi86_rp.Runtime.{update_from_payload, WorkloadRuntimeState}
use pi86_rp.Client.{Failure, Exchange, or_text, Client}
pub mod Rounds
pub mod Accounts
pub mod Numbering

pub record WorkloadTransactionResult (L : Type 0) : Type 0 where
  pub success : Bool
  pub count : ℕ
  pub failed_index : Option ℕ
  pub error : Option Failure
  pub latencies_ms : List L

-- One round of the loop ends the call, by a result or an exception, or goes on.
pub data Progress (W L : Type 0) : Type 0 where
  stopped : Result (WorkloadTransactionResult L) → Client W → Progress W L
  accepted : List L → Client W → Progress W L

abbrev pub failure : {L : Type 0} → ℕ → ℕ → Failure → List L → WorkloadTransactionResult L
failure count index error latencies = record {
  success = false;
  count = count;
  failed_index = some index;
  error = some error;
  latencies_ms = latencies;
}

abbrev pub success : {L : Type 0} → ℕ → List L → WorkloadTransactionResult L
success count latencies = record {
  success = true;
  count = count;
  failed_index = none;
  error = none;
  latencies_ms = latencies;
}

abbrev pub with_world : {W : Type 0} → Client W → W → Client W
with_world client world = record client { world = world }

-- The exchange and the callbacks are the caller's.
module _ {W L : Type 0} (exchange : Exchange W L) (on_state_change : WorkloadRuntimeState → W → W)
    (on_activity : W → W) where
  -- The reply's status is taken over. `latencies` includes the one of this reply.
  unfoldable pub after_update :
      Client W → ℕ → ℕ → List L → Result WorkloadRuntimeState → Progress W L
  after_update client count index latencies (ok state) =
      accepted latencies
        (record client { world = on_state_change state client.world; state = state })
  after_update client count index latencies (err (value_error text numbers)) =
      stopped
        (ok (
          failure count index ("invalid status payload: ", some (value_error text numbers))
            latencies))
        client
  after_update client count index latencies (err e) = stopped (err e) client

  unfoldable pub after_exchange :
      Client W
      → ℕ
      → ℕ
      → List L
      → Message
      → Result (Option Message × L × Option String) × W
      → Progress W L
  unfolding after_update advance_after update_from_payload or_text
  after_exchange client count index latencies request (err e, world) =
      stopped (err e) (with_world client world)
  after_exchange client count index latencies request (ok (none, _, error), world) =
      stopped (ok (failure count index (or_text error "workload exchange failed") latencies))
        (with_world client world)
  after_exchange client count index latencies request (ok (some reply, latency, _), world) =
      after_update
        (record client { world = world; sequence = advance_after client.sequence request.sequence })
        count index (latencies ++ latency ∷ []) (update_from_payload client.state reply.payload)

  -- One round of the loop.
  unfoldable pub step : Client W → ℕ → ℕ → List L → Message → Progress W L
  unfolding after_exchange
  step client count index latencies request =
      after_exchange client count index latencies request (exchange request client.world)

  -- The rounds from `index` on.
  unfoldable pub transact_loop :
      Client W → ℕ → ℕ → List L → List Message → Result (WorkloadTransactionResult L) × Client W
  unfolding step
  transact_loop client count index latencies [] =
      (ok (success count latencies), with_world client (on_activity client.world))
  transact_loop client count index latencies (request ∷ requests) =
      elim (step client count index latencies request) [
        | stopped result after ↦ (result, after)
        | accepted longer after ↦ transact_loop after count (index + 1) longer requests
      ]

  unfoldable pub transact :
      Client W → List Message → Result (WorkloadTransactionResult L) × Client W
  unfolding transact_loop
  transact client records = transact_loop client (length records) 1 [] records
