-- ===== src/Transactions/Rounds.antt =====
-- One round of a transaction.
use pi86_rp.Common.{ℕ, ◌+◌, ◌≡◌, refl, List, ◌∷◌, Result}
use pi86_rp.Protocol.{Message}
use pi86_rp.Runtime.{WorkloadRuntimeState}
use pi86_rp.Client.{Exchange, Client}
use pi86_rp.Transactions.{step, transact_loop, WorkloadTransactionResult, stopped, accepted}

module _ {W L : Type 0} (exchange : Exchange W L) (on_state_change : WorkloadRuntimeState → W → W)
    (on_activity : W → W) where
  pub loop-stopped :
      (client : Client W) (count index : ℕ) (latencies : List L) (request : Message)
      (requests : List Message) {r : Result (WorkloadTransactionResult L)} {after : Client W}
      → step exchange on_state_change on_activity client count index latencies request
        ≡ stopped r after
      → transact_loop exchange on_state_change on_activity client count index latencies
          (request ∷ requests)
        ≡ (r, after)
  unfolding transact_loop
  loop-stopped client count index latencies request requests stepped =
      rw (transact_loop, stepped) refl

  pub loop-accepted :
      (client : Client W) (count index : ℕ) (latencies : List L) (request : Message)
      (requests : List Message) {longer : List L} {after : Client W}
      → step exchange on_state_change on_activity client count index latencies request
        ≡ accepted longer after
      → transact_loop exchange on_state_change on_activity client count index latencies
          (request ∷ requests)
        ≡ transact_loop exchange on_state_change on_activity after count (index + 1) longer requests
  unfolding transact_loop
  loop-accepted client count index latencies request requests stepped =
      rw (transact_loop, stepped) refl
