-- ===== src/Transport.antt =====
-- host/rp86/transport.py: the requests over CDC, the runtime control over HID, and the choice of a
-- port. The connection and the clock are what the rounds of a loop saw before its deadline; what a
-- function writes is constant, and left out.
use package.text.Mathlib.Text.{◌==◌ as str_eq}
use pi86_rp.Common.{
  ℕ, suc, ◌+◌, String, Bool, true, false, not, ◌&&◌, Option, none, some, List, [], ◌∷◌, ◌++◌, ltb,
  ◌==◌, if◌then◌else◌, bytes_eq, ascii, Bytes, length, take, slice, guard, ◌>>=◌, ◌>>◌, value_error,
  runtime_error, Result, ok, err,
}
use pi86_rp.Protocol.{
  message_size, type_runtime_control, type_runtime_status, status_ok, message, encode, Message,
}
use pi86_rp.Replies.{hid_output_report, receive}
pub mod Framed
pub mod Acknowledged

abbrev pub bootloader_ack : Bytes
bootloader_ack = ascii "RP86 BOOTLOADER ACK"

abbrev pub reboot_ack : Bytes
reboot_ack = ascii "RP86 REBOOT ACK"

abbrev pub status_begin : Bytes
status_begin = ascii "RP86 STATUS BEGIN"

abbrev pub status_end : Bytes
status_end = ascii "RP86 STATUS END"

unfoldable pub starts_with : Bytes → Bytes → Bool
starts_with [] xs = true
starts_with (p ∷ pattern) [] = false
starts_with (p ∷ pattern) (x ∷ xs) = (p == x) && starts_with pattern xs

abbrev pub further : Option ℕ → Option ℕ
further none = none
further (some n) = some (suc n)

-- `xs.find(pattern)`, for a pattern that is not empty; `none` is -1.
unfoldable pub find : Bytes → Bytes → Option ℕ
unfolding starts_with
find pattern [] = none
find pattern (x ∷ xs) = if starts_with pattern (x ∷ xs) then some 0 else further (find pattern xs)

abbrev pub rfind_step : Bool → Option ℕ → Option ℕ
rfind_step here (some n) = some (suc n)
rfind_step true none = some 0
rfind_step false none = none

-- `xs.rfind(pattern)`
unfoldable pub rfind : Bytes → Bytes → Option ℕ
unfolding starts_with
rfind pattern [] = none
rfind pattern (x ∷ xs) = rfind_step (starts_with pattern (x ∷ xs)) (rfind pattern xs)

-- `pattern in xs`
abbrev pub occurs : Bytes → Bytes → Bool
occurs pattern xs = elim (find pattern xs) [ none ↦ false | some n ↦ true ]

-- What one read of the connection gave.
pub data CdcRound : Type 0 where
  quiet : CdcRound
  chunk : Bytes → CdcRound
  lost : String → CdcRound

-- The loop of `send_bootloader_request` and of `send_reboot_request`.
unfoldable pub await_ack : Bytes → Bytes → List CdcRound → Result Bytes
unfolding find
await_ack ack received [] = err (runtime_error "timed out waiting for RP2350 ACK" [])
await_ack ack received (quiet ∷ rounds) = await_ack ack received rounds
await_ack ack received (lost text ∷ rounds) =
    if occurs ack received
    then ok received
    else err (runtime_error "CDC disconnected before ACK" [])
await_ack ack received (chunk bytes ∷ rounds) =
    let rest = await_ack ack (received ++ bytes) rounds in
    if occurs ack (received ++ bytes) then ok (received ++ bytes) else rest

unfoldable pub send_bootloader_request : List CdcRound → Result Bytes
unfolding await_ack
send_bootloader_request rounds = await_ack bootloader_ack [] rounds

unfoldable pub send_reboot_request : List CdcRound → Result Bytes
unfolding await_ack
send_reboot_request rounds = await_ack reboot_ack [] rounds

-- The block that ends at `end`, from the place where its begin marker was found.
unfoldable pub cut_from : Bytes → ℕ → Option ℕ → Result Bytes
cut_from received end none = err (runtime_error "status end marker arrived without begin marker" [])
cut_from received end (some begin) = ok (slice begin (end + length status_end) received)

-- The verdict on what was received so far: an end marker ends the loop.
unfoldable pub status_or : Result Bytes → Bytes → Option ℕ → Result Bytes
unfolding cut_from rfind
status_or rest received none = rest
status_or rest received (some end) = cut_from received end (rfind status_begin (take end received))

unfoldable pub await_status : Bytes → List CdcRound → Result Bytes
unfolding find status_or
await_status received [] = err (runtime_error "timed out waiting for complete RP2350 status" [])
await_status received (quiet ∷ rounds) = await_status received rounds
await_status received (lost text ∷ rounds) =
    err (runtime_error "CDC disconnected before status completed" [])
await_status received (chunk bytes ∷ rounds) =
    let rest = await_status (received ++ bytes) rounds in
    status_or rest (received ++ bytes) (find status_end (received ++ bytes))

unfoldable pub send_status_request : List CdcRound → Result Bytes
unfolding await_status
send_status_request rounds = await_status [] rounds

-- What one read of the HID device gave: nothing, or a report.
pub data HidRound : Type 0 where
  nothing : HidRound
  report : Bytes → HidRound

-- The tests on a reply to a runtime control.
unfoldable pub check_control : Message → ℕ → Message → Result Message
unfolding bytes_eq
check_control request operation reply = do
  guard (reply.message_type == type_runtime_status)
      (runtime_error "unexpected runtime control reply type" (reply.message_type ∷ []))
  guard (reply.sequence == request.sequence)
      (runtime_error "runtime control sequence mismatch" (reply.sequence ∷ request.sequence ∷ []))
  guard (reply.status == status_ok)
      (runtime_error "runtime control status is not OK" (reply.status ∷ []))
  guard (bytes_eq reply.payload (operation ∷ []))
      (runtime_error "runtime control operation ACK mismatch" [])
  ok reply

-- The first report that is read decides.
unfoldable pub await_control : Message → ℕ → List HidRound → Result Message
unfolding check_control
await_control request operation [] =
    err (runtime_error "timed out waiting for HID runtime control ACK" [])
await_control request operation (nothing ∷ rounds) = await_control request operation rounds
await_control request operation (report bytes ∷ rounds) = do
  reply ← receive bytes
  check_control request operation reply

-- `bytes((operation,))` wants a byte. `written` is what the device's `write` returned.
unfoldable pub exchange_hid_runtime_control : ℕ → ℕ → ℕ → List HidRound → Result Message
unfolding await_control
exchange_hid_runtime_control operation sequence written rounds = do
  guard (ltb operation 256) (value_error "bytes must be in range(0, 256)" [])
  let request = message type_runtime_control sequence (operation ∷ [])
  bytes ← encode request
  _ ← hid_output_report bytes
  guard (written == message_size + 1) (runtime_error "short HID control write" (written ∷ 65 ∷ []))
  await_control request operation rounds

-- A CDC interface: its port and its serial number, "" where it has none.
pub record CdcPort : Type 0 where
  pub port : String
  pub serial : String

unfoldable pub with_serial : String → List CdcPort → List CdcPort
with_serial serial [] = []
with_serial serial (p ∷ ports) =
    let rest = with_serial serial ports in if str_eq p.serial serial then p ∷ rest else rest

abbrev pub only_port : List CdcPort → Result String
only_port (p ∷ []) = ok p.port
only_port [] = err (runtime_error "expected exactly one pi86-rp2350 CDC interface" (0 ∷ []))
only_port (p ∷ q ∷ ports) =
    err
      (runtime_error "expected exactly one pi86-rp2350 CDC interface" (length (p ∷ q ∷ ports) ∷ []))

unfoldable pub select_cdc_port : List CdcPort → Option String → Result String
unfolding with_serial
select_cdc_port candidates none = only_port candidates
select_cdc_port candidates (some serial) = only_port (with_serial serial candidates)

unfoldable pub resolve_cdc_port :
    Option String → List CdcPort → Option String → Result (String × Bool)
unfolding select_cdc_port
resolve_cdc_port none candidates serial = do
  port ← select_cdc_port candidates serial
  ok (port, true)
resolve_cdc_port (some explicit) candidates serial =
    if str_eq explicit ""
    then (do port ← select_cdc_port candidates serial; ok (port, true))
    else ok (explicit, false)
