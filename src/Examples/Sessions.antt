-- ===== src/Examples/Sessions.antt =====
-- Workload transactions at concrete inputs.
use pi86_rp.Common.{
  ◌==◌, if◌then◌else◌, struct_error, err, ℕ, ◌+◌, ◌≡◌, refl, none, some, [], ◌∷◌, ok,
}
use pi86_rp.Struct.{from_le, fields, unpack}
use pi86_rp.Protocol.{type_workload_control, type_workload_status, message, Message}
use pi86_rp.Sequence.{wrap_sequence, advance_after}
use pi86_rp.Runtime.{initial_state, from_payload, update_from_payload, WorkloadRuntimeState}
use pi86_rp.Client.{Exchange, or_text, Client}
use pi86_rp.Transactions.{success, after_update, after_exchange, step, transact_loop, transact}
use pi86_rp.Transactions.Accounts.{IsAccount, transact-IsAccount}
use pi86_rp.Examples.Status.{completed_state, status_bytes}

-- A device that answers every record with the same status; the world counts its answers.
abbrev acknowledge : Exchange ℕ ℕ
acknowledge request world =
    (ok (some (message type_workload_status request.sequence status_bytes), 2, none), world + 1)

abbrev keep_world : WorkloadRuntimeState → ℕ → ℕ
keep_world state world = world

abbrev count_up : ℕ → ℕ
count_up world = world + 1

abbrev new_client : Client ℕ
new_client = record { world = 0; sequence = record { value = 1 }; state = initial_state }

abbrev first_record : Message
first_record = message type_workload_control 1 []

abbrev second_record : Message
second_record = message type_workload_control 2 []

abbrev finished : Client ℕ
finished = record { world = 3; sequence = record { value = 3 }; state = completed_state }

transacted :
    transact acknowledge keep_world count_up new_client (first_record ∷ second_record ∷ [])
    ≡ (ok (success 2 (2 ∷ 2 ∷ [])), finished)
unfolding transact transact_loop step after_exchange after_update advance_after wrap_sequence
    or_text update_from_payload from_payload unpack fields from_le
transacted = refl

transact-IsAccount_example :
    IsAccount acknowledge keep_world count_up 2 1 [] new_client
      (first_record ∷ second_record ∷ [])
      (transact acknowledge keep_world count_up new_client (first_record ∷ second_record ∷ []))
transact-IsAccount_example =
    transact-IsAccount acknowledge keep_world count_up new_client
      (first_record ∷ second_record ∷ [])

-- A channel that cannot pack the second record.
abbrev acknowledge_one : Exchange ℕ ℕ
acknowledge_one request world =
    if request.sequence == 1 then acknowledge request world else (err struct_error, world)

abbrev half_way : Client ℕ
half_way = record { world = 1; sequence = record { value = 2 }; state = completed_state }

exception_leaves :
    transact acknowledge_one keep_world count_up new_client (first_record ∷ second_record ∷ [])
    ≡ (err struct_error, half_way)
unfolding transact transact_loop step after_exchange after_update advance_after wrap_sequence
    or_text update_from_payload from_payload unpack fields from_le
exception_leaves = refl
