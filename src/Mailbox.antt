-- ===== src/Mailbox.antt =====
-- host/rp86/mailbox.py: the owner-transfer mailbox at the top of Internal SRAM.
use pi86_rp.Common.{
  ℕ, ◌+◌, ◌-◌, not, ◌&&◌, List, [], ◌∷◌, ◌++◌, ltb, leb, ◌==◌, bytes_eq, ascii, Bytes, length,
  ◌>>=◌, ◌>>◌, guard, value_error, index_error, Result, ok, err,
}
use pi86_rp.Struct.{Format, Fields, size, fields, pack, unpack, unsigned, text}
use pi86_rp.Protocol.{Message}
use pi86_rp.Sequence.{wrap_sequence}
use pi86_rp.Memory.{memory_write_records}
pub mod Publish
pub mod Owner

abbrev pub mailbox_base : ℕ
mailbox_base = 0x3F000

abbrev pub mailbox_size : ℕ
mailbox_size = 0x1000

abbrev pub mailbox_data_offset : ℕ
mailbox_data_offset = 32

abbrev pub mailbox_data_size : ℕ
mailbox_data_size = mailbox_size - mailbox_data_offset

abbrev pub mailbox_magic : Bytes
mailbox_magic = ascii "R86M"

abbrev pub mailbox_version : ℕ
mailbox_version = 1

abbrev pub owner_host : ℕ
owner_host = 1

abbrev pub owner_processor : ℕ
owner_processor = 2

abbrev pub status_request_ready : ℕ
status_request_ready = 1

-- "<4sHHHHIHHIII"
abbrev pub mailbox_format : Format
mailbox_format =
    text 4
    ∷ unsigned 2
    ∷ unsigned 2
    ∷ unsigned 2
    ∷ unsigned 2
    ∷ unsigned 4
    ∷ unsigned 2
    ∷ unsigned 2
    ∷ unsigned 4
    ∷ unsigned 4
    ∷ unsigned 4
    ∷ []

-- "<H"
abbrev pub owner_format : Format
owner_format = unsigned 2 ∷ []

pub record MailboxHeader : Type 0 where
  pub owner : ℕ
  pub status : ℕ
  pub generation : ℕ
  pub request_length : ℕ
  pub response_length : ℕ
  pub flags : ℕ

unfoldable pub decode_header : Bytes → Result MailboxHeader
decode_header bytes = do
  guard (length bytes == size mailbox_format) (value_error "shared mailbox header is truncated" [])
  (
    magic,
    (
      version,
      (
        header_size,
        (
          owner,
          (
            status,
            (generation, (request_length, (response_length, (flags, (reserved0, (reserved1, _)))))),
          ),
        ),
      ),
    ),
  ) ←
      unpack mailbox_format bytes
  guard
      (bytes_eq magic mailbox_magic
        && (version == mailbox_version)
        && (header_size == size mailbox_format))
      (value_error "shared mailbox header ABI mismatch" [])
  guard ((reserved0 == 0) && (reserved1 == 0))
      (value_error "shared mailbox reserved fields are not zero" [])
  guard (leb request_length mailbox_data_size && leb response_length mailbox_data_size)
      (value_error "shared mailbox length exceeds its data area" [])
  ok (record {
    owner = owner;
    status = status;
    generation = generation;
    request_length = request_length;
    response_length = response_length;
    flags = flags;
  })

-- `records[-1].sequence`
unfoldable pub last_sequence : List Message → Result ℕ
last_sequence [] = err index_error
last_sequence (m ∷ []) = ok m.sequence
last_sequence (m ∷ n ∷ ms) = last_sequence (n ∷ ms)

abbrev pub commit_fields : ℕ → ℕ → Fields mailbox_format
commit_fields generation len = (
  mailbox_magic,
  (
    mailbox_version,
    (
      size mailbox_format,
      (owner_host, (status_request_ready, (generation, (len, (0, (0, (0, (0, tt)))))))),
    ),
  ),
)

unfoldable pub mailbox_commit_records : Bytes → ℕ → ℕ → Result (List Message)
unfolding last_sequence
mailbox_commit_records bytes generation first_sequence = do
  guard (ltb 0 (length bytes) && leb (length bytes) mailbox_data_size)
      (value_error "mailbox request must contain 1-4064 bytes" [])
  header ← pack mailbox_format (commit_fields generation (length bytes))
  body ← memory_write_records (mailbox_base + mailbox_data_offset) bytes first_sequence
  last ← last_sequence body
  head ← memory_write_records mailbox_base header (wrap_sequence (last + 1))
  last' ← last_sequence (body ++ head)
  owner ← pack owner_format (owner_processor, tt)
  publish ← memory_write_records (mailbox_base + 8) owner (wrap_sequence (last' + 1))
  ok ((body ++ head) ++ publish)
