-- ===== src/Replies/Hid.antt =====
-- The two platform representations of a HID report.
use pi86_rp.Common.{◌≡◌, ◌⊎◌, [], ◌∷◌, arith, Bytes, length, ok}
use pi86_rp.Protocol.{message_size}
use pi86_rp.Replies.{hid_output_report, normalize_hid_input}

-- A record is recovered from the report that it was sent as, and from a report without the
-- report-ID byte.
pub normalize_hid_input-hid_output_report :
    (r report : Bytes)
    → hid_output_report r ≡ ok report
    → (normalize_hid_input report ≡ ok r) × (normalize_hid_input r ≡ ok r)
unfolding hid_output_report normalize_hid_input
normalize_hid_input-hid_output_report r report h = ground arith

-- What is accepted has 64 bytes and is the report, or the report behind a zero byte.
pub normalize_hid_input_sound :
    (report r : Bytes)
    → normalize_hid_input report ≡ ok r
    → (length r ≡ message_size) × ((report ≡ r) ⊎ (report ≡ 0 ∷ r))
unfolding normalize_hid_input
normalize_hid_input_sound [] r h = ground arith
normalize_hid_input_sound (x ∷ report) r h = ground arith
