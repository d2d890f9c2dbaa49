-- ===== src/Examples/Shell.antt =====
-- The history of a shell at concrete inputs.
use pi86_rp.Common.{String, ◌≡◌, refl, [], ◌∷◌, arith, ok}
use pi86_rp.History.{new_history, remember, edit, move, CommandHistory, older, newer}
use pi86_rp.History.Moves.{IsCursor, move-IsCursor, move_back}

abbrev as_typed : String → String
as_typed command = command

abbrev one_command : CommandHistory
one_command = record { entries = "status" ∷ []; cursor = 1; draft = "" }

remembered : remember as_typed new_history "status" ≡ one_command
unfolding remember new_history
remembered = refl

move-IsCursor_example :
    (text : String) × (after : CommandHistory) × (move one_command "ru" older ≡ ok (text, after))
    × IsCursor after
    × (after.entries ≡ one_command.entries)
move-IsCursor_example = move-IsCursor one_command "ru" older (omega arith)

move_back_example :
    (entry : String) × (middle : CommandHistory) × (move one_command "ru" older
      ≡ ok (entry, middle))
    × (move middle "status" newer ≡ ok ("ru", edit one_command "ru"))
move_back_example = move_back one_command "ru" "status" refl (omega arith)
