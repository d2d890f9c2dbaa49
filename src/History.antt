-- ===== src/History.antt =====
-- `CommandHistory` of host/rp86/shell_commands.py: the commands of a shell, and an editable draft
-- behind the newest one. `strip` of str is a parameter.
use text.Mathlib.Text.{◌==◌ as str_eq}
use pi86_rp.Common.{
  ℕ, zero, suc, ◌+◌, ◌-◌, String, Bool, true, not, ◌&&◌, List, [], ◌∷◌, ◌++◌, ltb, ◌==◌,
  if◌then◌else◌, length, ◌>>=◌, ◌>>◌, index_error, Result, ok, err,
}
pub mod Moves

pub record CommandHistory : Type 0 where
  pub entries : List String
  pub cursor : ℕ
  pub draft : String

unfoldable pub new_history : CommandHistory
new_history = record { entries = []; cursor = 0; draft = "" }

-- `self._entries[-1] != command`, which is not asked of an empty list.
abbrev pub is_new : List String → String → Bool
is_new [] command = true
is_new (entry ∷ []) command = not (str_eq entry command)
is_new (entry ∷ next ∷ rest) command = is_new (next ∷ rest) command

unfoldable pub remember : (String → String) → CommandHistory → String → CommandHistory
remember strip h raw =
    let command = strip raw in
    let entries =
      if not (str_eq command "") && is_new h.entries command
      then h.entries ++ command ∷ []
      else h.entries in
    record { entries = entries; cursor = length entries; draft = "" }

unfoldable pub edit : CommandHistory → String → CommandHistory
edit h buffer = record h { cursor = length h.entries; draft = buffer }

-- The sign of `delta`.
pub data Direction : Type 0 where
  older stay newer : Direction

unfoldable pub entry_at : List String → ℕ → Result String
entry_at [] n = err index_error
entry_at (entry ∷ entries) zero = ok entry
entry_at (entry ∷ entries) (suc n) = entry_at entries n

abbrev pub keep_draft : CommandHistory → String → CommandHistory
keep_draft h buffer = if h.cursor == length h.entries then record h { draft = buffer } else h

unfoldable pub move_older : CommandHistory → String → Result (String × CommandHistory)
unfolding entry_at
move_older h buffer = if h.cursor == 0 then ok (buffer, h) else do
  entry ← entry_at h.entries (h.cursor - 1)
  ok (entry, record h { cursor = h.cursor - 1 })

unfoldable pub move_newer : CommandHistory → String → Result (String × CommandHistory)
unfolding entry_at
move_newer h buffer =
    if ltb (h.cursor + 1) (length h.entries)
    then (do
      entry ← entry_at h.entries (h.cursor + 1)
      ok (entry, record h { cursor = h.cursor + 1 }))
    else if h.cursor + 1 == length h.entries
    then ok (h.draft, record h { cursor = length h.entries })
    else ok (buffer, h)

-- The text that the shell shows next.
unfoldable pub move : CommandHistory → String → Direction → Result (String × CommandHistory)
unfolding move_older move_newer
move h buffer stay = ok (buffer, h)
move h buffer older =
    if length h.entries == 0 then ok (buffer, h) else move_older (keep_draft h buffer) buffer
move h buffer newer =
    if length h.entries == 0 then ok (buffer, h) else move_newer (keep_draft h buffer) buffer
