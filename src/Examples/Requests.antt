-- ===== src/Examples/Requests.antt =====
-- A connection that cuts the markers into reads, and the evidence of one session.
use pi86_rp.Common.{◌≡◌, refl, ◌↔◌, true, List, [], ◌∷◌, ascii, Bytes, ok}
use pi86_rp.Runtime.{passed}
use pi86_rp.Transport.{
  reboot_ack, starts_with, find, rfind, occurs, send_reboot_request, cut_from, status_or,
  await_status, send_status_request, CdcRound, quiet, chunk,
}
use pi86_rp.Transport.Framed.{bytes_of, send_status_request-IsFramed, IsFramed}
use pi86_rp.Transport.Acknowledged.{send_reboot_request_iff}
use pi86_rp.Evidence.{new_evidence, workload_snapshot, observe_workload, pass}
use pi86_rp.Evidence.Observed.{outcome_pass_iff, observe_workload_twice}
use pi86_rp.Examples.Status.{completed_state}

abbrev acknowledged : List CdcRound
acknowledged = quiet ∷ chunk (ascii "..RP86 REB") ∷ quiet ∷ chunk (ascii "OOT ACK..") ∷ []

send_reboot_request_iff_example :
    ((evidence : Bytes) × (send_reboot_request acknowledged ≡ ok evidence))
    ↔ (occurs reboot_ack (bytes_of acknowledged) ≡ true)
send_reboot_request_iff_example = send_reboot_request_iff acknowledged (tt, (tt, (tt, (tt, tt))))

abbrev status_rounds : List CdcRound
status_rounds =
    chunk (ascii "..RP86 STA")
    ∷ chunk (ascii "TUS BEGIN up RP86 STAT")
    ∷ quiet
    ∷ chunk (ascii "US END..")
    ∷ []

abbrev status_block : Bytes
status_block = ascii "RP86 STATUS BEGIN up RP86 STATUS END"

status_found : send_status_request status_rounds ≡ ok status_block
unfolding send_status_request await_status status_or cut_from find rfind starts_with
status_found = refl

send_status_request-IsFramed_example : IsFramed (bytes_of status_rounds) status_block
send_status_request-IsFramed_example = send_status_request-IsFramed status_rounds status_found

outcome_pass_iff_example : ((workload_snapshot new_evidence completed_state).outcome ≡ pass) ↔ (
    (completed_state.lifecycle ≡ 5)
    × (completed_state.structured_result ≡ true)
    × (passed completed_state ≡ true))
outcome_pass_iff_example = outcome_pass_iff new_evidence completed_state

observe_workload_twice_example :
    observe_workload "2" (observe_workload "1" new_evidence completed_state) completed_state
    ≡ observe_workload "1" new_evidence completed_state
observe_workload_twice_example = observe_workload_twice new_evidence completed_state "1" "2"
