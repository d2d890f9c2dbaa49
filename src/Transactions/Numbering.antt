-- ===== src/Transactions/Numbering.antt =====
-- The request number behind a transaction.
use pi86_rp.Common.{ℕ, ◌+◌, ◌≡◌, refl, sym, ap, ◌∙◌, true, false, List, [], ◌∷◌, arith, Result, ok}
use pi86_rp.Protocol.{Message}
use pi86_rp.Sequence.{new_sequence, advance_after}
use pi86_rp.Runtime.{WorkloadRuntimeState}
use pi86_rp.Client.{Exchange, Client}
use pi86_rp.Transactions.{
  after_update, after_exchange, step, transact_loop, transact, WorkloadTransactionResult, Progress,
  stopped, accepted,
}
use pi86_rp.Transactions.Rounds.{loop-stopped, loop-accepted}

-- The last record of a transaction.
abbrev pub last_of : Message → List Message → Message
last_of request [] = request
last_of request (next ∷ rest) = last_of next rest

module _ {W L : Type 0} (exchange : Exchange W L) (on_state_change : WorkloadRuntimeState → W → W)
    (on_activity : W → W) where
  stopped_fails :
      (client : Client W) (count index : ℕ) (latencies : List L) (request : Message)
      (r : Result (WorkloadTransactionResult L)) (after : Client W)
      → step exchange on_state_change on_activity client count index latencies request
        ≡ stopped r after
      → (x : WorkloadTransactionResult L) → r ≡ ok x
      → x.success ≡ false
  unfolding step after_exchange after_update
  stopped_fails client count index latencies request r after h x e = ground arith

  accepted_sequence :
      (client : Client W) (count index : ℕ) (latencies longer : List L) (request : Message)
      (after : Client W)
      → step exchange on_state_change on_activity client count index latencies request
        ≡ accepted longer after
      → after.sequence ≡ advance_after client.sequence request.sequence
  unfolding step after_exchange after_update
  accepted_sequence client count index latencies longer request after h = ground arith

  loop-finished :
      (client after : Client W) (count index : ℕ) (latencies : List L)
      (r : WorkloadTransactionResult L)
      → transact_loop exchange on_state_change on_activity client count index latencies []
        ≡ (ok r, after)
      → after.sequence ≡ client.sequence
  unfolding transact_loop
  loop-finished client after count index latencies r h =
      ap (λ (y : Result (WorkloadTransactionResult L) × Client W). y.1.sequence) (sym h)

  -- One round in front of the rest of the loop, by what the round is.
  loop_sequence :
      (client : Client W) (count index : ℕ) (latencies : List L) (request : Message)
      (requests : List Message) (r : WorkloadTransactionResult L) (after : Client W)
      (p : Progress W L)
      → step exchange on_state_change on_activity client count index latencies request ≡ p
      → transact_loop exchange on_state_change on_activity client count index latencies
          (request ∷ requests)
        ≡ (ok r, after)
      → r.success ≡ true
      → after.sequence ≡ new_sequence ((last_of request requests).sequence + 1)
  loop_sequence client count index latencies request requests r after (stopped x middle) stepped h
        s =
      let e =
        sym (
          loop-stopped exchange on_state_change on_activity client count index latencies request
            requests stepped)
        ∙ h in
      absurd (
        ground (
          arith,
          stopped_fails client count index latencies request x middle stepped r
              (ap (λ (y : Result (WorkloadTransactionResult L) × Client W). y.0) e),
        ))
  loop_sequence client count index latencies request [] r after (accepted longer middle) stepped h
        s =
      let e =
        sym (
          loop-accepted exchange on_state_change on_activity client count index latencies request []
            stepped)
        ∙ h in
      loop-finished middle after count (index + 1) longer r e
      ∙ (unfold new_sequence advance_after in
          accepted_sequence client count index latencies longer request middle stepped)
  loop_sequence client count index latencies request (next ∷ rest) r after (accepted longer middle)
        stepped h s =
      loop_sequence middle count (index + 1) longer next rest r after _ refl
        (sym (
            loop-accepted exchange on_state_change on_activity client count index latencies request
              (next ∷ rest) stepped)
          ∙ h)
        s

  -- After a transaction of at least one record that succeeds, the next request has the number after the last record's.
  transact-sequence :
      (client after : Client W) (request : Message) (requests : List Message)
      (r : WorkloadTransactionResult L)
      → transact exchange on_state_change on_activity client (request ∷ requests) ≡ (ok r, after)
      → r.success ≡ true
      → after.sequence ≡ new_sequence ((last_of request requests).sequence + 1)
  unfolding transact
  transact-sequence client after request requests r h s =
      loop_sequence client _ 1 [] request requests r after _ refl h s
