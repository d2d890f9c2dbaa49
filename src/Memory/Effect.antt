-- ===== src/Memory/Effect.antt =====
-- What a memory request means: an address space of bytes, and the write that a record asks for.
use pi86_rp.Common.{
  ℕ, zero, suc, ◌+◌, ◌≤◌, ◌<◌, ◌≡◌, refl, ap, ◌∙◌, ◌⊎◌, List, [], ◌∷◌, ◌++◌, arith, ◌==◌,
  if◌then◌else◌, Bytes, length, take, drop, Result, ok, err,
}
use native.Mathlib.Nat.{add-zero, zero-add}
use pi86_rp.Struct.{Fields, unpack_from}
use pi86_rp.Protocol.{Message}
use pi86_rp.Memory.{memory_write, memory_header}

abbrev pub Space : Type 0
Space = ℕ → ℕ

-- The bytes at `a`, `a + 1`, ... replaced.
unfoldable pub poke : Space → ℕ → Bytes → Space
poke s a [] = s
poke s a (b ∷ bs) = poke (λ x. if x == a then b else s x) (a + 1) bs

-- `n` bytes from `a` on.
unfoldable pub peek : Space → ℕ → ℕ → Bytes
peek s a zero = []
peek s a (suc n) = s a ∷ peek s (a + 1) n

apply_fields : Space → Bytes → Result (Fields memory_header) → Space
apply_fields s payload (ok (operation, (address, (len, _)))) =
    if operation == memory_write then poke s address (take len (drop 12 payload)) else s
apply_fields s payload (err e) = s

-- A write request stores the bytes behind its header, as many as the header says.
unfoldable pub apply_record : Space → Message → Space
unfolding apply_fields
apply_record s m = apply_fields s m.payload (unpack_from memory_header m.payload 0)

unfoldable pub apply_records : Space → List Message → Space
apply_records s [] = s
apply_records s (m ∷ ms) = apply_records (apply_record s m) ms

pub apply_records-append :
    (s : Space) (ms ns : List Message)
    → apply_records s (ms ++ ns) ≡ apply_records (apply_records s ms) ns
unfolding apply_records
apply_records-append s [] ns = refl
apply_records-append s (m ∷ ms) ns = apply_records-append (apply_record s m) ms ns

pub poke-append :
    (s : Space) (a : ℕ) (xs ys : Bytes)
    → poke s a (xs ++ ys) ≡ poke (poke s a xs) (a + length xs) ys
unfolding poke
poke-append s a [] ys = rw (add-zero a) refl
poke-append s a (x ∷ xs) ys =
    let e : a + 1 + length xs ≡ a + suc (length xs) = omega arith in
    poke-append (λ y. if y == a then x else s y) (a + 1) xs ys
    ∙ ap (λ (n : ℕ). poke (poke (λ y. if y == a then x else s y) (a + 1) xs) n ys) e

-- A write changes nothing outside its range.
pub poke_outside :
    (s : Space) (a : ℕ) (bs : Bytes) (x : ℕ) → (x < a) ⊎ (a + length bs ≤ x) → poke s a bs x ≡ s x
unfolding poke
poke_outside s a [] x h = refl
poke_outside s a (b ∷ bs) x h =
    ground (arith, poke_outside (λ y. if y == a then b else s y) (a + 1) bs x)

-- Reading back what was written.
pub peek-poke : (s : Space) (a : ℕ) (bs : Bytes) → peek (poke s a bs) a (length bs) ≡ bs
unfolding poke peek
peek-poke s a [] = refl
peek-poke s a (b ∷ bs) =
    let t : Space = λ y. if y == a then b else s y in
    let first : poke t (a + 1) bs a ≡ b = ground (arith, poke_outside t (a + 1) bs a) in
    λ i. first i ∷ peek-poke t (a + 1) bs i

-- Reading where nothing was written.
pub peek_cong :
    (s t : Space) (a n : ℕ) → ((x : ℕ) → a ≤ x → x < a + n → s x ≡ t x) → peek s a n ≡ peek t a n
unfolding peek
peek_cong s t a zero h = refl
peek_cong s t a (suc n) h =
    let first : s a ≡ t a = h a (omega arith) (omega arith) in
    let rest : peek s (a + 1) n ≡ peek t (a + 1) n =
      peek_cong s t (a + 1) n (λ x lo hi. h x (omega arith) (omega arith)) in
    λ i. first i ∷ rest i

pub length-peek : (s : Space) (a n : ℕ) → length (peek s a n) ≡ n
unfolding peek
length-peek s a zero = refl
length-peek s a (suc n) = ap suc (length-peek s (a + 1) n)

pub peek-add : (s : Space) (a m n : ℕ) → peek s a (m + n) ≡ peek s a m ++ peek s (a + m) n
unfolding peek
peek-add s a zero n = rw (zero-add n, add-zero a) refl
peek-add s a (suc m) n =
    let e : suc m + n ≡ suc (m + n) = omega arith in
    let f : a + 1 + m ≡ a + suc m = omega arith in rw (e, ← f, peek-add s (a + 1) m n) refl
