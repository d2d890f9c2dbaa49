-- ===== src/History/Moves.antt =====
-- The cursor stays in the history, and the draft is not lost.
use pi86_rp.Common.{
  ℕ, zero, suc, ◌+◌, ◌-◌, ◌≤◌, ◌<◌, String, ◌≡◌, refl, ◌∙◌, inl, inr, List, [], ◌∷◌, arith, ltb,
  ◌==◌, ltb→lt, Bool-cases, length, Result, ok,
}
use pi86_rp.History.{
  edit, entry_at, keep_draft, move_older, move_newer, move, CommandHistory, Direction, older, stay,
  newer,
}

-- The cursor points at an entry, or at the draft.
abbrev pub IsCursor : CommandHistory → Type 0
IsCursor h = h.cursor ≤ length h.entries

entry_at-lt :
    (entries : List String) (n : ℕ)
    → n < length entries
    → (entry : String) × (entry_at entries n ≡ ok entry)
unfolding entry_at
entry_at-lt [] n h = absurd (omega arith)
entry_at-lt (entry ∷ entries) zero h = (entry, refl)
entry_at-lt (entry ∷ entries) (suc n) h = entry_at-lt entries n (omega arith)

-- A move that returns keeps the entries.
abbrev Moved : CommandHistory → Result (String × CommandHistory) → Type 0
Moved h r =
    (text : String) × (after : CommandHistory) × (r ≡ ok (text, after))
    × IsCursor after
    × (after.entries ≡ h.entries)

move_older-Moved :
    (h : CommandHistory) (buffer : String) → IsCursor h → Moved h (move_older h buffer)
unfolding move_older
move_older-Moved h buffer c = elim (Bool-cases (h.cursor == 0)) [
  | inl z ↦ (buffer, h, rw z refl, c, refl)
  | inr nz ↦
      let (entry, e) = entry_at-lt h.entries (h.cursor - 1) (ground arith) in
      (entry, record h { cursor = h.cursor - 1 }, rw (nz, e) refl, omega arith, refl)
]

move_newer-Moved :
    (h : CommandHistory) (buffer : String) → IsCursor h → Moved h (move_newer h buffer)
unfolding move_newer
move_newer-Moved h buffer c = elim (Bool-cases (ltb (h.cursor + 1) (length h.entries))) [
  | inl more ↦
      let (entry, e) = entry_at-lt h.entries (h.cursor + 1) (ltb→lt _ _ more) in
      (
        entry,
        record h { cursor = h.cursor + 1 },
        rw (more, e) refl,
        omega (arith, ltb→lt _ _ more),
        refl,
      )
  | inr end ↦ elim (Bool-cases (h.cursor + 1 == length h.entries)) [
    | inl last ↦
        (h.draft, record h { cursor = length h.entries }, rw (end, last) refl, omega arith, refl)
    | inr past ↦ (buffer, h, rw (end, past) refl, c, refl)
  ]
]

keep_draft-IsCursor :
    (h : CommandHistory) (buffer : String)
    → IsCursor h
    → IsCursor (keep_draft h buffer) × ((keep_draft h buffer).entries ≡ h.entries)
keep_draft-IsCursor h buffer c = elim (Bool-cases (h.cursor == length h.entries)) [
  | inl e ↦ rw e (c, refl)
  | inr e ↦ rw e (c, refl)
]

-- A move never raises. It keeps the entries, and the cursor at one of them or at the draft.
pub move-IsCursor :
    (h : CommandHistory) (buffer : String) (d : Direction)
    → IsCursor h
    → (text : String) × (after : CommandHistory) × (move h buffer d ≡ ok (text, after))
      × IsCursor after
      × (after.entries ≡ h.entries)
unfolding move
move-IsCursor h buffer stay c = (buffer, h, refl, c, refl)
move-IsCursor h buffer older c = elim (Bool-cases (length h.entries == 0)) [
  | inl none_yet ↦ (buffer, h, rw none_yet refl, c, refl)
  | inr some_yet ↦
      let (k, same) = keep_draft-IsCursor h buffer c in
      let (text, after, e, c', same') = move_older-Moved (keep_draft h buffer) buffer k in
      (text, after, rw some_yet e, c', same' ∙ same)
]
move-IsCursor h buffer newer c = elim (Bool-cases (length h.entries == 0)) [
  | inl none_yet ↦ (buffer, h, rw none_yet refl, c, refl)
  | inr some_yet ↦
      let (k, same) = keep_draft-IsCursor h buffer c in
      let (text, after, e, c', same') = move_newer-Moved (keep_draft h buffer) buffer k in
      (text, after, rw some_yet e, c', same' ∙ same)
]

-- From the draft of a history with entries, a move to the newest entry and back shows the draft
-- again, whatever was shown in between, and the history is as it was with that draft.
pub move_back :
    (h : CommandHistory) (buffer shown : String)
    → h.cursor ≡ length h.entries
    → 0 < length h.entries
    → (entry : String) × (middle : CommandHistory) × (move h buffer older ≡ ok (entry, middle))
      × (move middle shown newer ≡ ok (buffer, edit h buffer))
unfolding move move_older move_newer edit
move_back h buffer shown c pos =
    let (entry, e) = entry_at-lt h.entries (length h.entries - 1) (omega arith) in
    (entry, record h { cursor = length h.entries - 1; draft = buffer }, ground arith, ground arith)
