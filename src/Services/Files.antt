-- ===== src/Services/Files.antt =====
-- host/rp86/service_client.py: the filesystem services.
use pi86_rp.Services.{Service, ◌>>=◌, answer, attempt, build, send, Answer, answered, failed}
use pi86_rp.Common.{
  ℕ, zero, suc, ◌+◌, String, Option, none, some, List, [], ◌∷◌, ◌++◌, ◌==◌, if◌then◌else◌, Bytes,
  length, ◌>>◌, value_error, Result, ok, err,
}
use pi86_rp.Protocol.{Message}
use pi86_rp.Filesystem.{
  list_request, read_request, validate_filesystem_reply, parse_list, parse_read, ListEntry,
  ReadChunk,
}
use pi86_rp.Client.{Exchange}
pub mod Served

-- `except ValueError as exc: return None, f"invalid device reply: {exc}"`
abbrev pub checked : {A : Type 0} → Result A → Result (Answer A)
checked (ok a) = ok (answered a)
checked (err (value_error text numbers)) =
    ok (failed ("invalid device reply: ", some (value_error text numbers)))
checked (err e) = err e

abbrev pub attempt_reply : {W A : Type 0} → Result A → Service W A
attempt_reply r client = (checked r, client)

abbrev pub refuse : {W A : Type 0} → String → Service W A
refuse reason client = (ok (failed (reason, none)), client)

-- What one round of a loop does: the call is over, or it goes on.
pub data Round (A B : Type 0) : Type 0 where
  finished : A → Round A B
  further : B → Round A B

-- The tests of a chunk at an offset of a file whose size is known, or not yet.
unfoldable pub check_chunk : {W : Type 0} → ℕ → Option ℕ → ReadChunk → Service W ℕ
check_chunk offset total_size c =
    if c.offset == offset
    then elim total_size [
      | none ↦ answer c.total_size
      | some total ↦
          if c.total_size == total then answer total else refuse "file size changed while reading"
    ]
    else refuse "reply offset mismatch"

-- After a chunk was taken over: the end of the file, or the next round.
unfoldable pub end_chunk : {W : Type 0} → ReadChunk → ℕ → Bytes → Service W (Round Bytes ℕ)
end_chunk c total content =
    if c.final
    then if total == length content
      then answer (finished content)
      else refuse "file length mismatch"
    else if length c.chunk == 0
    then refuse "device returned an empty non-final file chunk"
    else answer (further total)

module _ {W L : Type 0} (exchange : Exchange W L) (on_activity : W → W) where
  unfoldable pub filesystem_request : Message → Service W Message
  unfolding send validate_filesystem_reply
  filesystem_request request = do
    reply ← send exchange on_activity request "filesystem exchange failed"
    _ ← attempt (validate_filesystem_reply reply request)
    answer reply

  unfoldable pub list_round : List ℕ → ℕ → Service W ListEntry
  unfolding filesystem_request list_request parse_list
  list_round path cursor = do
    request ← build (list_request path cursor)
    reply ← filesystem_request request
    attempt_reply (parse_list reply request)

  -- A device chooses the cursors, and nothing bounds the rounds: `none` is a call that is not over
  -- after `fuel` rounds.
  unfoldable pub list_loop : ℕ → List ℕ → ℕ → List ListEntry → Service W (Option (List ListEntry))
  unfolding list_round
  list_loop zero path cursor entries = answer none
  list_loop (suc fuel) path cursor entries = list_round path cursor >>= λ entry.
      if entry.eof
      then answer (some entries)
      else list_loop fuel path entry.next_cursor (entries ++ entry ∷ [])

  unfoldable pub read_directory : ℕ → List ℕ → Service W (Option (List ListEntry))
  unfolding list_loop
  read_directory fuel path = list_loop fuel path 0 []

  unfoldable pub file_round :
      List ℕ → ℕ → Option ℕ → Bytes → Service W (Round Bytes (ℕ × ℕ × Bytes))
  unfolding filesystem_request read_request parse_read check_chunk end_chunk
  file_round path offset total_size content = do
    request ← build (read_request path offset)
    reply ← filesystem_request request
    c ← attempt_reply (parse_read reply request)
    total ← check_chunk offset total_size c
    over ← end_chunk c total (content ++ c.chunk)
    elim over [
      | finished whole ↦ answer (finished whole)
      | further known ↦ answer (further (offset + length c.chunk, known, content ++ c.chunk))
    ]

  -- `none` is a call that is not over after `fuel` rounds.
  unfoldable pub file_loop : ℕ → List ℕ → ℕ → Option ℕ → Bytes → Service W (Option Bytes)
  unfolding file_round
  file_loop zero path offset total_size content = answer none
  file_loop (suc fuel) path offset total_size content =
      file_round path offset total_size content >>= λ over. elim over [
        | finished whole ↦ answer (some whole)
        | further (next, total, longer) ↦ file_loop fuel path next (some total) longer
      ]

  unfoldable pub read_file : ℕ → List ℕ → Service W (Option Bytes)
  unfolding file_loop
  read_file fuel path = file_loop fuel path 0 none []
