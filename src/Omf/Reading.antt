-- ===== src/Omf/Reading.antt =====
-- What is written as a list of records is read as that list.
use pi86_rp.Common.{
  ℕ, zero, suc, ◌+◌, ◌-◌, ◌^◌, ◌≤◌, ◌<◌, ◌≡◌, refl, sym, ap, ◌∙◌, inl, inr, none, some, List, [],
  ◌∷◌, ◌++◌, map, append-nil, append_assoc, arith, ltb, leb, ltb→lt, lt→ltb, leb→le, le→leb,
  Bool-cases, Bytes, length, take, drop, All, slice, length-append, take-append_exact,
  drop-append_exact, drop-drop, guard-eq-ok, >>=-eq-ok, ok_injective, Result-cases, Error, ok, err,
}
use pi86_rp.Struct.{le, from_le, fits}
use pi86_rp.Omf.{item_at, number_at, next_record, yield_then, records_loop, records}

-- A record as the format has it: its type, its content, and a checksum byte that its length counts.
abbrev pub Written : Type 0
Written = ℕ × Bytes × ℕ

abbrev pub written_record : Written → Bytes
written_record (record_type, content, checksum) =
    record_type ∷ (le 2 (length content + 1) ++ (content ++ checksum ∷ []))

abbrev pub written_file : List Written → Bytes
written_file [] = []
written_file (r ∷ rs) = written_record r ++ written_file rs

-- The length of a record has 16 bits.
abbrev pub IsWritable : Written → Type 0
IsWritable (record_type, content, checksum) = length content + 1 < 2 ^ 16

abbrev pub without_checksum : Written → ℕ × Bytes
without_checksum (record_type, content, checksum) = (record_type, content)

item_at-append {ℓ} :
    {A : Type ℓ} (xs : List A) (y : A) (ys : List A) → item_at (xs ++ y ∷ ys) (length xs) ≡ ok y
unfolding item_at
item_at-append [] y ys = refl
item_at-append (x ∷ xs) y ys = item_at-append xs y ys

drop-append_add : (k : ℕ) (xs ys : Bytes) → drop (length xs + k) (xs ++ ys) ≡ drop k ys
drop-append_add k xs ys =
    sym (drop-drop (length xs) k (xs ++ ys))
    ∙ ap (drop k) (drop-append_exact (length xs) xs ys refl)

-- The two bytes of a length.
number-le : (n : ℕ) (rest : Bytes) → n < 2 ^ 16 → from_le (take 2 (le 2 n ++ rest)) ≡ n
unfolding le from_le
number-le n rest h = omega arith

next_record-eq-ok :
    (b : Bytes) (p t n : ℕ) (content : Bytes)
    → p + 3 + n ≤ length b
    → item_at b p ≡ ok t
    → number_at b (p + 1) 2 ≡ n
    → slice (p + 3) (p + 3 + n - 1) b ≡ content
    → next_record b p ≡ ok (t, content, p + 3 + n)
unfolding next_record
next_record-eq-ok b p t n content h item number cut =
    rw (le→leb (p + 3) (length b) (omega arith), item, number, le→leb (p + 3 + n) (length b) h, cut)

take_cong : (m n : ℕ) (xs ys : Bytes) → m ≡ n → xs ≡ ys → take m xs ≡ take n ys
take_cong m n xs ys hm hx = cc

module _ (prefix rest : Bytes) (t : ℕ) (content : Bytes) (checksum : ℕ) where
  abbrev whole : Bytes
  whole = prefix ++ (written_record (t, content, checksum) ++ rest)

  length-whole : length whole ≡ length prefix + 4 + length content + length rest
  unfolding le
  length-whole = omega (
    arith,
    length-append prefix (written_record (t, content, checksum) ++ rest),
    length-append (content ++ checksum ∷ []) rest,
    length-append content (checksum ∷ []),
  )

  number-whole :
      length content + 1 < 2 ^ 16 → number_at whole (length prefix + 1) 2 ≡ length content + 1
  unfolding le from_le
  number-whole h =
      ap from_le (
        take_cong _ 2 _ (le 2 (length content + 1) ++ ((content ++ checksum ∷ []) ++ rest))
          (omega arith) (drop-append_add 1 prefix (written_record (t, content, checksum) ++ rest)))
      ∙ number-le (length content + 1) ((content ++ checksum ∷ []) ++ rest) h

  content-whole :
      slice (length prefix + 3) (length prefix + 3 + (length content + 1) - 1) whole ≡ content
  unfolding le
  content-whole =
      take_cong _ (length content) _ (content ++ (checksum ∷ [] ++ rest)) (omega arith) (
        drop-append_add 3 prefix (written_record (t, content, checksum) ++ rest)
        ∙ append_assoc content (checksum ∷ []) rest)
      ∙ take-append_exact (length content) content (checksum ∷ [] ++ rest) refl

  next_record-write :
      length content + 1 < 2 ^ 16
      → next_record whole (length prefix)
        ≡ ok (t, content, length prefix + 3 + (length content + 1))
  next_record-write h =
      next_record-eq-ok whole (length prefix) t (length content + 1) content
        (omega (arith, length-whole)) (item_at-append prefix t _) (number-whole h) content-whole

records_loop_end : (fuel : ℕ) (b : Bytes) → records_loop fuel b (length b) ≡ ([], none)
unfolding records_loop
records_loop_end zero b = refl
records_loop_end (suc fuel) b = ground arith

records_loop_step :
    (fuel p t e : ℕ) (b content : Bytes)
    → p < length b
    → next_record b p ≡ ok (t, content, e)
    → records_loop (suc fuel) b p ≡ yield_then (t, content) (records_loop fuel b e)
unfolding records_loop
records_loop_step fuel p t e b content h read = rw (records_loop, lt→ltb p (length b) h, read) refl

loop_cong :
    (fuel p p' : ℕ) (b b' : Bytes)
    → b ≡ b'
    → p ≡ p'
    → records_loop fuel b p ≡ records_loop fuel b' p'
loop_cong fuel p p' b b' hb hp = cc

length-written_record :
    (r : ℕ) (content : Bytes) (c : ℕ) → length (written_record (r, content, c)) ≡ length content + 4
unfolding le
length-written_record r content c = omega (arith, length-append content (c ∷ []))

records_loop-write :
    (rs : List Written) (prefix : Bytes) (fuel : ℕ)
    → All IsWritable rs
    → length (written_file rs) ≤ fuel
    → records_loop fuel (prefix ++ written_file rs) (length prefix)
      ≡ (map without_checksum rs, none)
records_loop-write [] prefix fuel h f = rw (append-nil prefix) (records_loop_end fuel prefix)
records_loop-write ((t, content, checksum) ∷ rs) prefix zero h f = absurd (omega arith)
records_loop-write ((t, content, checksum) ∷ rs) prefix (suc fuel) (w, h) f =
    let record_bytes = written_record (t, content, checksum) in
    let long = length-append record_bytes (written_file rs) in
    let short = length-written_record t content checksum in
    records_loop_step fuel (length prefix) t (length prefix + 3 + (length content + 1))
      (prefix ++ (record_bytes ++ written_file rs)) content
      (omega (arith, length-append prefix (record_bytes ++ written_file rs)))
      (next_record-write prefix (written_file rs) t content checksum w)
    ∙ ap (yield_then (t, content)) (
        loop_cong fuel _ (length (prefix ++ record_bytes)) _
          ((prefix ++ record_bytes) ++ written_file rs)
          (sym (append_assoc prefix record_bytes (written_file rs)))
          (omega (arith, length-append prefix record_bytes))
        ∙ records_loop-write rs (prefix ++ record_bytes) fuel h (omega arith))

-- The content of a file of records is read as the records, in their order.
pub records-write :
    (rs : List Written)
    → All IsWritable rs
    → records (written_file rs) ≡ (map without_checksum rs, none)
unfolding records
records-write rs h = records_loop-write rs [] (length (written_file rs)) h (omega arith)

next_record_end :
    (b : Bytes) (p : ℕ) {t e : ℕ} {content : Bytes}
    → next_record b p ≡ ok (t, content, e)
    → (p < e) × (e ≤ length b)
unfolding next_record
next_record_end b p {e} h =
    let (fits, h1) = guard-eq-ok (leb (p + 3) (length b)) _ _ h in
    let (t, read, h2) = >>=-eq-ok (item_at b p) _ h1 in
    let (inside, h3) = guard-eq-ok (leb (p + 3 + number_at b (p + 1) 2) (length b)) _ _ h2 in
    let same : p + 3 + number_at b (p + 1) 2 ≡ e =
      ap (λ (r : ℕ × Bytes × ℕ). r.2) (ok_injective h3) in
    (omega (arith, same), omega (arith, same, leb→le _ _ inside))

records_loop_past :
    (fuel : ℕ) (b : Bytes) (p : ℕ) → length b ≤ p → records_loop fuel b p ≡ ([], none)
unfolding records_loop
records_loop_past zero b p h = refl
records_loop_past (suc fuel) b p h = ground arith

records_loop_error :
    (fuel p : ℕ) (b : Bytes) (e : Error)
    → p < length b
    → next_record b p ≡ err e
    → records_loop (suc fuel) b p ≡ ([], some e)
unfolding records_loop
records_loop_error fuel p b e h read = rw (records_loop, lt→ltb p (length b) h, read) refl

records_loop-more :
    (fuel m : ℕ) (b : Bytes) (p : ℕ)
    → length b ≤ p + fuel
    → fuel ≤ m
    → records_loop m b p ≡ records_loop fuel b p
records_loop-more zero m b p h le =
    records_loop_past m b p (omega arith) ∙ sym (records_loop_past zero b p (omega arith))
records_loop-more (suc fuel) zero b p h le = absurd (omega arith)
records_loop-more (suc fuel) (suc m) b p h le = elim (Bool-cases (ltb p (length b))) [
  | inl more ↦ elim (Result-cases (next_record b p)) [
    | inl (e, read) ↦
        records_loop_error m p b e (ltb→lt _ _ more) read
        ∙ sym (records_loop_error fuel p b e (ltb→lt _ _ more) read)
    | inr ((t, content, e), read) ↦
        records_loop_step m p t e b content (ltb→lt _ _ more) read
        ∙ ap (yield_then (t, content)) (
            records_loop-more fuel m b e (omega (arith, (next_record_end b p read).0))
              (omega arith))
        ∙ sym (records_loop_step fuel p t e b content (ltb→lt _ _ more) read)
  ]
  | inr done ↦
      records_loop_past (suc m) b p (ground arith)
      ∙ sym (records_loop_past (suc fuel) b p (ground arith))
]

-- The rounds that `records` allows are enough: with any more, the loop yields and ends the same.
pub records-enough : (b : Bytes) (fuel : ℕ) → length b ≤ fuel → records_loop fuel b 0 ≡ records b
unfolding records
records-enough b fuel h = records_loop-more (length b) fuel b 0 (omega arith) h
