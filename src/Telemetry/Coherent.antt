-- ===== src/Telemetry/Coherent.antt =====
-- A snapshot that is read while the processor writes is one that stood in memory.
use native.Mathlib.Nat.{add-zero}
use pi86_rp.Common.Bits.{bit_and-1}
use pi86_rp.Common.{
  ℕ, zero, suc, ◌+◌, ◌-◌, ◌*◌, ◌/◌, ◌%◌, ◌^◌, ◌≤◌, ◌<◌, bit_and, ◌≡◌, refl, sym, ap, ◌∙◌, ◌⊎◌, inl,
  inr, true, Option, none, some, [], ◌∷◌, arith, ltb, if◌then◌else◌, ==→eq, Bool-cases, Bytes,
  >>=-eq-ok, ok_injective, value_error, Result, ok, err,
}
use pi86_rp.Struct.{le, from_le, fields, unpack}
use pi86_rp.Memory.Effect.{Space, peek}
use pi86_rp.Telemetry.{
  stable_sequence, decode_sequence, decode_telemetry, Reading, compare_snapshot, read_between,
  attempt, attempt_loop, read_stable_telemetry, FreeRtosSystemTelemetry,
}

-- Words that are read one after the other, each in one unit of time.
unfoldable pub read_words : (ℕ → Space) → ℕ → ℕ → ℕ → Bytes
read_words memory zero address t = []
read_words memory (suc n) address t =
    memory t address ∷ memory t (address + 1) ∷ read_words memory n (address + 1 + 1) (t + 1)

-- The reads of a Host to which the memory at time `t` is `memory t`.
abbrev pub reader : (ℕ → Space) → ℕ → ℕ → Reading ℕ Bytes
reader memory address len t = (ok (read_words memory (len / 2) address t), t + len / 2)

-- A processor that publishes its telemetry: `count` numbers its steps, its low word is the
-- sequence, and while it is even and stands still, the telemetry does too. In the time of nine
-- reads it does not go round.
pub record Publishes (memory : ℕ → Space) (count : ℕ → ℕ) (address : ℕ) : Type 0 where
  pub low : (t : ℕ) → memory t (address + 8) ≡ count t % 256
  pub high : (t : ℕ) → memory t (address + 8 + 1) ≡ count t / 256 % 256
  pub grows : (t : ℕ) → count t ≤ count (t + 1)
  pub slow : (t : ℕ) → count (t + 9) < count t + 2 ^ 16
  pub quiet :
      (t x : ℕ)
      → count t % 2 ≡ 0
      → count (t + 1) ≡ count t
      → address ≤ x
      → x < address + 16
      → memory (t + 1) x ≡ memory t x

abbrev twice : ℕ → ℕ
twice zero = 0
twice (suc n) = suc (suc (twice n))

read_words-peek :
    (memory : ℕ → Space) (n address t : ℕ) (s : Space)
    → ((i x : ℕ) → i < n → address ≤ x → x < address + twice n → memory (t + i) x ≡ s x)
    → read_words memory n address t ≡ peek s address (twice n)
unfolding read_words peek
read_words-peek memory zero address t s h = refl
read_words-peek memory (suc n) address t s h =
    let z : t ≡ t + 0 = omega arith in
    let first : memory t address ≡ s address =
      ap (λ (u : ℕ). memory u address) z ∙ h 0 address (omega arith) (omega arith) (omega arith) in
    let second : memory t (address + 1) ≡ s (address + 1) =
      ap (λ (u : ℕ). memory u (address + 1)) z
      ∙ h 0 (address + 1) (omega arith) (omega arith) (omega arith) in
    let rest = read_words-peek memory n (address + 1 + 1) (t + 1) s (λ i x lt lo hi.
      let later : t + 1 + i ≡ t + suc i = omega arith in
      ap (λ (u : ℕ). memory u x) later ∙ h (suc i) x (omega arith) (omega arith) (omega arith)) in
    λ i. first i ∷ second i ∷ rest i

compare_sound :
    (before after : ℕ) (raw : Bytes) (s : FreeRtosSystemTelemetry)
    → compare_snapshot before raw after ≡ ok (some s)
    → (before ≡ after) × (decode_telemetry raw ≡ ok s)
unfolding compare_snapshot
compare_sound before after raw s h =
    let (snapshot, e, h1) = >>=-eq-ok (decode_telemetry raw) _ h in ground arith

stable_sequence-eq-true : (x : ℕ) → stable_sequence x ≡ true → x % 2 ≡ 0
unfolding stable_sequence
stable_sequence-eq-true x h = omega (arith, bit_and-1 x, ==→eq (bit_and x 1) 0 h)

module _ {memory : ℕ → Space} {count : ℕ → ℕ} {address : ℕ}
    (p : Publishes memory count address) where
  count_grows : (t n : ℕ) → count t ≤ count (t + n)
  count_grows t zero = omega (arith, ap count (add-zero t))
  count_grows t (suc n) =
      let e : t + n + 1 ≡ t + suc n = omega arith in
      omega (arith, count_grows t n, p.grows (t + n), ap count e)

  steady :
      (t n x : ℕ)
      → count t % 2 ≡ 0
      → count (t + n) ≡ count t
      → address ≤ x
      → x < address + 16
      → memory (t + n) x ≡ memory t x
  steady t zero x even same lo hi = ap (λ (u : ℕ). memory u x) (add-zero t)
  steady t (suc n) x even same lo hi =
      let e : t + n + 1 ≡ t + suc n = omega arith in
      let still : count (t + n) ≡ count t =
        omega (arith, count_grows t n, p.grows (t + n), ap count e, same) in
      let next : count (t + n + 1) ≡ count (t + n) = ap count e ∙ same ∙ sym still in
      ap (λ (u : ℕ). memory u x) (sym e)
      ∙ p.quiet (t + n) x (omega (arith, still)) next lo hi
      ∙ steady t n x even still lo hi

  -- The sequence word at a time is the low word of the count.
  sequence_at :
      (t : ℕ) → decode_sequence (read_words memory 1 (address + 8) t) ≡ ok (count t % 2 ^ 16)
  unfolding decode_sequence unpack fields from_le read_words
  sequence_at t =
      let e : memory t (address + 8) + 256 * (memory t (address + 8 + 1) + 256 * 0)
          ≡ count t % 2 ^ 16 =
        omega (arith, p.low t, p.high t) in
      λ i. ok (e i)

  -- Nine words after a stable sequence that is found again: the telemetry as it stood.
  raw_at :
      (t : ℕ)
      → count t % 2 ^ 16 ≡ count (t + 9) % 2 ^ 16
      → count t % 2 ≡ 0
      → read_words memory 8 address (t + 1) ≡ peek (memory t) address 16
  raw_at t same even =
      let still : count (t + 9) ≡ count t = omega (arith, p.slow t, count_grows t 9) in
      read_words-peek memory 8 address (t + 1) (memory t) (λ i x lt lo hi.
        let e : t + 1 + i ≡ t + (i + 1) = omega arith in
        let f : t + (i + 1) + (8 - i) ≡ t + 9 = omega arith in
        let between : count (t + (i + 1)) ≡ count t =
          omega
            (arith, count_grows t (i + 1), count_grows (t + (i + 1)) (8 - i), ap count f, still) in
        ap (λ (u : ℕ). memory u x) e ∙ steady t (i + 1) x even between lo hi)

  abbrev word_at : ℕ → ℕ
  word_at t = count t % 2 ^ 16

  between_at :
      (t : ℕ)
      → read_between (reader memory) address (word_at t) (t + 1) ≡ (
        compare_snapshot (word_at t) (read_words memory 8 address (t + 1)) (word_at (t + 1 + 8)),
        t + 1 + 8 + 1,
      )
  unfolding read_between
  between_at t = rw (sequence_at (t + 1 + 8)) refl

  attempt_at :
      (t : ℕ)
      → attempt (reader memory) address t ≡ (
          if stable_sequence (word_at t)
          then read_between (reader memory) address (word_at t) (t + 1)
          else (ok none, t + 1))
  unfolding attempt
  attempt_at t = rw (sequence_at t) refl

  abbrev pub Stood : ℕ → FreeRtosSystemTelemetry → Type 0
  Stood t s = (u : ℕ) × (t ≤ u) × (decode_telemetry (peek (memory u) address 16) ≡ ok s)

  -- An attempt either gives up after the first word, or compares what it read.
  attempt_cases :
      (t : ℕ)
      → ((stable_sequence (word_at t) ≡ true)
          × (attempt (reader memory) address t ≡ (
            compare_snapshot
                (word_at t)
                (read_words memory 8 address (t + 1))
                (word_at (t + 1 + 8)),
            t + 1 + 8 + 1,
          )))
        ⊎ (attempt (reader memory) address t ≡ (ok none, t + 1))
  attempt_cases t = elim (Bool-cases (stable_sequence (word_at t))) [
    | inl even ↦ inl (even, attempt_at t ∙ rw even (between_at t))
    | inr odd ↦ inr (attempt_at t ∙ rw odd refl)
  ]

  attempt_found :
      (t w : ℕ) (s : FreeRtosSystemTelemetry)
      → attempt (reader memory) address t ≡ (ok (some s), w)
      → Stood t s
  attempt_found t w s h = elim (attempt_cases t) [
    | inr none_found ↦
        let e : ◌≡◌ {A = Result (Option FreeRtosSystemTelemetry) × ℕ} (ok none, t + 1)
            (ok (some s), w) =
          sym none_found ∙ h in
        cc
    | inl (even, compared) ↦
        let result =
          ap (λ (x : Result (Option FreeRtosSystemTelemetry) × ℕ). x.0) (sym compared ∙ h) in
        let (same, decoded) =
          compare_sound (word_at t) (word_at (t + 1 + 8)) (read_words memory 8 address (t + 1)) s
            result in
        let nine : t + 1 + 8 ≡ t + 9 = omega arith in
        let parity = stable_sequence-eq-true (word_at t) even in
        let raw = raw_at t (same ∙ ap word_at nine) (omega (arith, parity)) in
        (t, omega arith, rw (← raw) decoded)
  ]

  attempt_time :
      (t w : ℕ) {r : Result (Option FreeRtosSystemTelemetry)}
      → attempt (reader memory) address t ≡ (r, w)
      → t ≤ w
  attempt_time t w h = elim (attempt_cases t) [
    | inl (even, compared) ↦
        omega
          (arith, ap (λ (x : Result (Option FreeRtosSystemTelemetry) × ℕ). x.1) (sym compared ∙ h))
    | inr none_found ↦
        omega (
          arith,
          ap (λ (x : Result (Option FreeRtosSystemTelemetry) × ℕ). x.1) (sym none_found ∙ h),
        )
  ]

  loop_step :
      (n t : ℕ) (s : FreeRtosSystemTelemetry) (w : ℕ) (r : Result (Option FreeRtosSystemTelemetry))
      (middle : ℕ)
      → ((u : ℕ) → attempt_loop (reader memory) n address u ≡ (ok s, w) → Stood u s)
      → attempt (reader memory) address t ≡ (r, middle)
      → attempt_loop (reader memory) (suc n) address t ≡ (ok s, w)
      → Stood t s
  unfolding attempt_loop
  loop_step n t s w (ok (some found)) middle later a h =
      let e : ◌≡◌ {A = Result FreeRtosSystemTelemetry × ℕ} (ok found, middle) (ok s, w) =
        rw (attempt_loop, a) at h in
      let same : found ≡ s =
        ok_injective (ap (λ (x : Result FreeRtosSystemTelemetry × ℕ). x.0) e) in
      attempt_found t middle s (a ∙ (λ i. (ok (some (same i)), middle)))
  loop_step n t s w (ok none) middle later a h =
      let (u, le, d) = later middle (rw (attempt_loop, a) at h) in
      (u, omega (arith, attempt_time t middle a), d)
  loop_step n t s w (err e) middle later a h =
      let no : ◌≡◌ {A = Result FreeRtosSystemTelemetry × ℕ} (err e, middle) (ok s, w) =
        rw (attempt_loop, a) at h in
      cc

  loop_coherent :
      (n t : ℕ) (s : FreeRtosSystemTelemetry) (w : ℕ)
      → attempt_loop (reader memory) n address t ≡ (ok s, w)
      → Stood t s
  loop_coherent zero t s w h = absurd (unfold attempt_loop in cc h)
  loop_coherent (suc n) t s w h = loop_step n t s w _ _ (λ u. loop_coherent n u s w) refl h

  -- A Host that reads words, one at a time, while the processor publishes, and that gets a
  -- snapshot, gets the telemetry as it stood in memory at one time since the call began, where the
  -- processor takes less than 2 ^ 16 of its steps while nine words are read.
  pub read_stable_telemetry-Stood :
      (attempts t w : ℕ) (s : FreeRtosSystemTelemetry)
      → read_stable_telemetry (reader memory) address attempts t ≡ (ok s, w)
      → Stood t s
  unfolding read_stable_telemetry
  read_stable_telemetry-Stood attempts t w s h = elim (Bool-cases (ltb attempts 1)) [
    | inl few ↦
        let e : ◌≡◌ {A = Result FreeRtosSystemTelemetry × ℕ}
            (err (value_error "telemetry attempts must be at least 1" []), t) (ok s, w) =
          rw few at h in
        cc
    | inr enough ↦ loop_coherent attempts t s w (rw enough at h)
  ]
