-- ===== src/Examples/Files.antt =====
-- A file that is read from a device at concrete inputs.
use mathlib.Core.Path.{subst}
use pi86_rp.Services.{ServiceClient, answered}
use pi86_rp.Services.Files.{read_file}
use pi86_rp.Services.Files.Served.{chunk_at, read_file_served, ServesFile}
use pi86_rp.Common.{
  ℕ, zero, suc, ◌+◌, ◌-◌, ◌≤◌, ◌≡◌, refl, sym, ◌∙◌, none, some, List, [], ◌∷◌, ◌++◌, arith, ==_refl,
  bytes_eq, ascii, length, drop, get_or, ok_injective, ok,
}
use pi86_rp.Struct.{le, from_le, fits, layout, fields, pack, unpack_from}
use pi86_rp.Protocol.{type_filesystem_result, message, Message}
use pi86_rp.Filesystem.{
  encode_point, encode_utf8, check_path, filesystem_record, read_request, first_byte,
  validate_filesystem_reply, parse_read, filesystem_read, filesystem_flag_eof,
  filesystem_read_path_bytes,
}
use pi86_rp.Client.{Exchange}
use pi86_rp.Examples.Data.{two_bytes}

abbrev two_path : List ℕ
two_path = ascii "flash:/a"

-- A device that holds one file of two bytes; the world counts nothing.
abbrev file_reply_to : Message → Message
file_reply_to request =
    let offset = get_or request.payload 4 0 in
    message type_filesystem_result request.sequence (
      filesystem_read
      ∷ filesystem_flag_eof
      ∷ (2 - offset)
      ∷ 0
      ∷ offset
      ∷ 0
      ∷ 0
      ∷ 0
      ∷ 2
      ∷ 0
      ∷ 0
      ∷ 0
      ∷ drop offset two_bytes)

abbrev file_device : Exchange ℕ ℕ
file_device request world = (ok (some (file_reply_to request), 1, none), world)

abbrev same_count : ℕ → ℕ
same_count world = world

abbrev offset_request : ℕ → ℕ → Message
offset_request offset sequence =
    filesystem_record filesystem_read sequence ((8 ∷ 0 ∷ 0 ∷ offset ∷ 0 ∷ 0 ∷ 0 ∷ []) ++ two_path)

two_path_accepted : check_path two_path filesystem_read_path_bytes ≡ ok two_path
unfolding check_path encode_utf8 encode_point bytes_eq
two_path_accepted = refl

file_replies :
    (offset sequence : ℕ)
    → offset ≤ 2
    → (read_request two_path offset sequence ≡ ok (offset_request offset sequence))
      × (parse_read
            (file_reply_to (offset_request offset sequence))
            (offset_request offset sequence)
          ≡ ok (chunk_at two_bytes offset))
unfolding read_request check_path encode_utf8 encode_point bytes_eq pack fits layout le parse_read
    validate_filesystem_reply first_byte unpack_from fields from_le
file_replies zero sequence h = (refl, rw (==_refl sequence) refl)
file_replies (suc zero) sequence h = (refl, rw (==_refl sequence) refl)
file_replies (suc (suc zero)) sequence h = (refl, rw (==_refl sequence) refl)
file_replies (suc (suc (suc n))) sequence h = absurd (omega arith)

file_device-ServesFile : ServesFile file_device two_path two_bytes
file_device-ServesFile = record {
  serves = λ w offset sequence request le built.
      let (made, parsed) = file_replies offset sequence le in
      let same = ok_injective (sym made ∙ built) in
      (
        file_reply_to request,
        1,
        w,
        refl,
        subst (λ (m : Message). parse_read (file_reply_to m) m ≡ ok (chunk_at two_bytes offset))
            same parsed,
      );
}

abbrev file_client : ServiceClient ℕ
file_client = record { world = 0; sequence = record { value = 1 } }

read_file_served_example :
    (after : ServiceClient ℕ) × (read_file file_device same_count
        (length two_bytes + 1)
        two_path
        file_client
      ≡ (ok (answered (some two_bytes)), after))
read_file_served_example =
    read_file_served file_device same_count two_path two_path two_bytes file_device-ServesFile
      two_path_accepted (omega arith) file_client
