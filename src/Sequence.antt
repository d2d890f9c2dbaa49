-- ===== src/Sequence.antt =====
-- `RequestSequence` of host/rp86/runtime_state.py: the 32-bit request number, which skips 0.
use pi86_rp.Common.{ℕ, ◌+◌, ◌%◌, ◌^◌, ◌<◌, ◌≢◌, arith, ◌==◌, if◌then◌else◌}

pub record RequestSequence : Type 0 where
  pub value : ℕ

-- `x & 0xFFFFFFFF or 1`
unfoldable pub wrap_sequence : ℕ → ℕ
wrap_sequence x = if x % 2 ^ 32 == 0 then 1 else x % 2 ^ 32

-- `RequestSequence(value)`, with its `__post_init__`.
unfoldable pub new_sequence : ℕ → RequestSequence
unfolding wrap_sequence
new_sequence value = record { value = wrap_sequence value }

unfoldable pub advance_after : RequestSequence → ℕ → RequestSequence
unfolding wrap_sequence
advance_after s sequence = record { value = wrap_sequence (sequence + 1) }

-- A number that the sequence column of a record can hold, and that is not 0.
abbrev pub IsSequence : ℕ → Type 0
IsSequence s = (0 < s) × (s < 2 ^ 32)

pub wrap_sequence-IsSequence : (x : ℕ) → IsSequence (wrap_sequence x)
unfolding wrap_sequence
wrap_sequence-IsSequence x = ground arith

pub wrap_sequence-ne : (s : ℕ) → IsSequence s → wrap_sequence (s + 1) ≢ s
unfolding wrap_sequence
wrap_sequence-ne s h = ground arith
