-- ===== src/Transport/Framed.antt =====
-- The status block that is cut out of what the connection reads.
use mathlib.Core.Path.{subst}
use pi86_rp.Common.{
  ℕ, suc, ◌+◌, ◌-◌, ◌≤◌, ◌≡◌, refl, sym, ap, ◌∙◌, inl, inr, Bool, true, false, ◌&&◌, Option, none,
  some, List, [], ◌∷◌, ◌++◌, append_assoc, arith, ◌==◌, ==→eq, Bool-cases, Bytes, length, take,
  drop, slice, length-append, take-append_exact, drop-append_exact, ok_injective, Result, ok,
}
use pi86_rp.Transport.{
  status_begin, status_end, starts_with, further, find, rfind_step, rfind, cut_from, status_or,
  await_status, send_status_request, CdcRound, quiet, chunk, lost,
}

-- An occurrence of a pattern at a place.
abbrev pub OccursAt : Bytes → Bytes → ℕ → Type 0
OccursAt pattern xs n =
    (before : Bytes) × (behind : Bytes) × (xs ≡ before ++ (pattern ++ behind)) × (length before ≡ n)

cons_eq : {x y : ℕ} {xs ys : Bytes} → x ≡ y → xs ≡ ys → x ∷ xs ≡ y ∷ ys
cons_eq h k = λ i. h i ∷ k i

further-some : (o : Option ℕ) {n : ℕ} → further o ≡ some n → (m : ℕ) × (o ≡ some m) × (suc m ≡ n)
further-some none h = cc
further-some (some m) h = (m, refl, cc)

OccursAt-later :
    (pattern xs : Bytes) (x m : ℕ) {n : ℕ}
    → suc m ≡ n
    → OccursAt pattern xs m
    → OccursAt pattern (x ∷ xs) n
OccursAt-later pattern xs x m e (before, behind, eq, len) =
    (x ∷ before, behind, cons_eq refl eq, ap suc len ∙ e)

starts_with-append_self :
    (pattern xs : Bytes)
    → starts_with pattern xs ≡ true
    → (behind : Bytes) × (xs ≡ pattern ++ behind)
unfolding starts_with
starts_with-append_self [] xs h = (xs, refl)
starts_with-append_self (p ∷ pattern) [] h = cc
starts_with-append_self (p ∷ pattern) (x ∷ xs) h = elim (Bool-cases (p == x)) [
  | inl same ↦
      let (behind, e) = starts_with-append_self pattern xs (rw same at h) in
      (behind, cons_eq (sym (==→eq p x same)) e)
  | inr other ↦ cc (rw other at h)
]

find-OccursAt : (pattern xs : Bytes) {n : ℕ} → find pattern xs ≡ some n → OccursAt pattern xs n
unfolding find
find-OccursAt pattern [] h = cc
find-OccursAt pattern (x ∷ xs) {n} h = elim (Bool-cases (starts_with pattern (x ∷ xs))) [
  | inl here ↦
      let (behind, e) = starts_with-append_self pattern (x ∷ xs) here in
      ([], behind, e, cc (rw here at h))
  | inr later ↦
      let (m, e, next) = further-some (find pattern xs) (rw later at h) in
      OccursAt-later pattern xs x m next (find-OccursAt pattern xs e)
]

rfind_step-OccursAt :
    (pattern : Bytes) (x : ℕ) (xs : Bytes) (here : Bool) (o : Option ℕ) {n : ℕ}
    → starts_with pattern (x ∷ xs) ≡ here
    → ((m : ℕ) → o ≡ some m → OccursAt pattern xs m)
    → rfind_step here o ≡ some n
    → OccursAt pattern (x ∷ xs) n
rfind_step-OccursAt pattern x xs true (some m) s f h = OccursAt-later pattern xs x m (cc) (f m refl)
rfind_step-OccursAt pattern x xs false (some m) s f h =
    OccursAt-later pattern xs x m (cc) (f m refl)
rfind_step-OccursAt pattern x xs true none s f h =
    let (behind, e) = starts_with-append_self pattern (x ∷ xs) s in ([], behind, e, cc)
rfind_step-OccursAt pattern x xs false none s f h = cc

rfind-OccursAt : (pattern xs : Bytes) {n : ℕ} → rfind pattern xs ≡ some n → OccursAt pattern xs n
unfolding rfind
rfind-OccursAt pattern [] h = cc
rfind-OccursAt pattern (x ∷ xs) h =
    rfind_step-OccursAt pattern x xs (starts_with pattern (x ∷ xs)) (rfind pattern xs) refl
      (λ m e. rfind-OccursAt pattern xs e) h

-- Bytes behind a complete occurrence do not move it.
starts_with-append :
    (pattern xs ys : Bytes)
    → length pattern ≤ length xs
    → starts_with pattern (xs ++ ys) ≡ starts_with pattern xs
unfolding starts_with
starts_with-append [] xs ys h = refl
starts_with-append (p ∷ pattern) [] ys h = absurd (omega arith)
starts_with-append (p ∷ pattern) (x ∷ xs) ys h =
    ap (λ t. (p == x) && t) (starts_with-append pattern xs ys (omega arith))

pub find-append :
    (pattern xs ys : Bytes) {n : ℕ} → find pattern xs ≡ some n → find pattern (xs ++ ys) ≡ some n
unfolding find
find-append pattern [] ys h = cc
find-append pattern (x ∷ xs) ys {n} h = elim (Bool-cases (starts_with pattern (x ∷ xs))) [
  | inl here ↦
      let (behind, e) = starts_with-append_self pattern (x ∷ xs) here in
      let fits : length pattern ≤ length (x ∷ xs) =
        omega (arith, ap length e, length-append pattern behind) in
      rw (starts_with-append pattern (x ∷ xs) ys fits, here) (rw here at h)
  | inr later ↦
      let (m, e, next) = further-some (find pattern xs) (rw later at h) in
      let (before, behind, eq, len) = find-OccursAt pattern xs e in
      let fits : length pattern ≤ length (x ∷ xs) = omega (
        arith,
        ap length eq,
        length-append before (pattern ++ behind),
        length-append pattern behind,
      ) in
      rw (starts_with-append pattern (x ∷ xs) ys fits, later, find-append pattern xs ys e)
        (ap some next)
]

-- What the rounds read, up to a lost connection.
unfoldable pub bytes_of : List CdcRound → Bytes
bytes_of [] = []
bytes_of (quiet ∷ rounds) = bytes_of rounds
bytes_of (chunk bytes ∷ rounds) = bytes ++ bytes_of rounds
bytes_of (lost text ∷ rounds) = []

-- The evidence stands in what was read, from a begin marker to the first end marker.
pub record IsFramed (read evidence : Bytes) : Type 0 where
  pub before : Bytes
  pub middle : Bytes
  pub behind : Bytes
  pub placed : read ≡ before ++ (evidence ++ behind)
  pub marked : evidence ≡ status_begin ++ (middle ++ status_end)
  pub first_end : find status_end read ≡ some (length before + length status_begin + length middle)

-- A text that is cut behind its first part.
slice-append :
    (b m c : Bytes) (begin end : ℕ)
    → length b ≡ begin
    → end ≡ begin + length m
    → slice begin end (b ++ (m ++ c)) ≡ m
slice-append b m c begin end hb he =
    let rest : drop begin (b ++ (m ++ c)) ≡ m ++ c = drop-append_exact begin b (m ++ c) hb in
    ap (take (end - begin)) rest ∙ take-append_exact (end - begin) m c (omega arith)

-- A begin marker at `begin` before an end marker at `end`.
cut-IsFramed :
    (received more b m c : Bytes) (end : ℕ)
    → find status_end received ≡ some end
    → received ≡ b ++ ((status_begin ++ (m ++ status_end)) ++ c)
    → end ≡ length b + length status_begin + length m
    → IsFramed (received ++ more) (slice (length b) (end + length status_end) received)
cut-IsFramed received more b m c end f e len =
    let block = status_begin ++ (m ++ status_end) in
    let same : slice (length b) (end + length status_end) received ≡ block =
      ap (slice (length b) (end + length status_end)) e
      ∙ slice-append b block c (length b) (end + length status_end) refl
          (omega (arith, length-append m status_end)) in
    subst (IsFramed (received ++ more)) (sym same) (record {
      before = b;
      middle = m;
      behind = c ++ more;
      placed =
          ap (λ t. t ++ more) e
          ∙ append_assoc b (block ++ c) more
          ∙ ap (λ t. b ++ t) (append_assoc block c more);
      marked = refl;
      first_end = find-append status_end received more f ∙ ap some len;
    })

regroup : (b x m y c : Bytes) → (b ++ (x ++ m)) ++ (y ++ c) ≡ b ++ ((x ++ (m ++ y)) ++ c)
regroup b x m y c = simp append_assoc

cut_from-IsFramed :
    (received more : Bytes) (end : ℕ) (o : Option ℕ) {evidence : Bytes}
    → find status_end received ≡ some end
    → rfind status_begin (take end received) ≡ o
    → cut_from received end o ≡ ok evidence
    → IsFramed (received ++ more) evidence
unfolding cut_from
cut_from-IsFramed received more end none f r h = cc
cut_from-IsFramed received more end (some begin) {evidence} f r h =
    let (front, c, e, len) = find-OccursAt status_end received f in
    let whole : take end received ≡ front =
      ap (take end) e ∙ take-append_exact end front (status_end ++ c) len in
    let (b, m, e', len') =
      rfind-OccursAt status_begin front (ap (rfind status_begin) (sym whole) ∙ r) in
    let there : received ≡ b ++ ((status_begin ++ (m ++ status_end)) ++ c) =
      e ∙ ap (λ t. t ++ (status_end ++ c)) e' ∙ regroup b status_begin m status_end c in
    subst (IsFramed (received ++ more))
      (ap (λ n. slice n (end + length status_end) received) len' ∙ ok_injective h)
      (cut-IsFramed received more b m c end f there (
        omega (
          arith,
          len,
          ap length e',
          length-append b (status_begin ++ m),
          length-append status_begin m,
        )))

status_or-IsFramed :
    (received more : Bytes) (rest : Result Bytes) (o : Option ℕ) {evidence : Bytes}
    → find status_end received ≡ o
    → (rest ≡ ok evidence → IsFramed (received ++ more) evidence)
    → status_or rest received o ≡ ok evidence
    → IsFramed (received ++ more) evidence
unfolding status_or
status_or-IsFramed received more rest none f g h = g h
status_or-IsFramed received more rest (some end) f g h =
    cut_from-IsFramed received more end (rfind status_begin (take end received)) f refl h

await_status-IsFramed :
    (rounds : List CdcRound) (received : Bytes) {evidence : Bytes}
    → await_status received rounds ≡ ok evidence
    → IsFramed (received ++ bytes_of rounds) evidence
unfolding await_status bytes_of
await_status-IsFramed [] received h = cc
await_status-IsFramed (quiet ∷ rounds) received h = await_status-IsFramed rounds received h
await_status-IsFramed (lost text ∷ rounds) received h = cc
await_status-IsFramed (chunk bytes ∷ rounds) received {evidence} h =
    subst (λ t. IsFramed t evidence) (append_assoc received bytes (bytes_of rounds))
      (status_or-IsFramed (received ++ bytes) (bytes_of rounds)
        (await_status (received ++ bytes) rounds) (find status_end (received ++ bytes)) refl
        (λ e. await_status-IsFramed rounds (received ++ bytes) e) h)

-- However the bytes of the connection are cut into reads, the evidence of a status request is a
-- block of them that begins with a begin marker and ends with the first end marker.
pub send_status_request-IsFramed :
    (rounds : List CdcRound) {evidence : Bytes}
    → send_status_request rounds ≡ ok evidence
    → IsFramed (bytes_of rounds) evidence
unfolding send_status_request
send_status_request-IsFramed rounds h = await_status-IsFramed rounds [] h
