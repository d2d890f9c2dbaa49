-- ===== src/Struct/RoundTrip.antt =====
-- What `unpack` reads back of what `pack` wrote, and the other way round.
use pi86_rp.Common.{
  ℕ, zero, suc, ◌+◌, ◌-◌, ◌/◌, ◌^◌, ◌≤◌, ◌<◌, ◌≡◌, refl, sym, ap, ◌∙◌, true, [], ◌∷◌, ◌++◌,
  append-nil, append_assoc, arith, leb, eq→==, Bytes, length, take, drop, replicate, IsByte,
  IsBytes, length-append, take-append-drop, length-take, length-drop, length-replicate,
  take-append_exact, drop-append_exact, take_all, All-take, All-drop, ok,
}
use native.Mathlib.Nat.{pow-suc}
use mathlib.Core.Path.{ap₂, subst}
use pi86_rp.Struct.{
  Format, Fields, size, le, from_le, fits, layout, fields, pack, unpack, unpack_from, unsigned,
  text, pad,
}

pub length-le : (w n : ℕ) → length (le w n) ≡ w
unfolding le
length-le zero n = refl
length-le (suc w) n = omega (arith, length-le w (n / 256))

pub from_le-le : (w n : ℕ) → n < 256 ^ w → from_le (le w n) ≡ n
unfolding le from_le
from_le-le zero n h = omega arith
from_le-le (suc w) n h = omega (arith, from_le-le w (n / 256) (omega (arith, pow-suc 256 w)))

pub le-from_le : (bs : Bytes) → IsBytes bs → le (length bs) (from_le bs) ≡ bs
unfolding le from_le
le-from_le [] h = refl
le-from_le (b ∷ bs) (hb, h) =
    ap₂ (λ (x : ℕ) (y : Bytes). x ∷ y) (omega arith)
      (ap (le (length bs)) (omega arith) ∙ le-from_le bs h)

pub from_le-lt : (bs : Bytes) → IsBytes bs → from_le bs < 256 ^ length bs
unfolding from_le
from_le-lt [] h = omega arith
from_le-lt (b ∷ bs) (hb, h) = omega (arith, from_le-lt bs h, pow-suc 256 (length bs))

pub le-IsBytes : (w n : ℕ) → IsBytes (le w n)
unfolding le
le-IsBytes zero n = tt
le-IsBytes (suc w) n = (omega arith, le-IsBytes w (n / 256))

length-cut : (n : ℕ) (t : Bytes) → length (take n t ++ replicate (n - length t) 0) ≡ n
length-cut n t = omega (
  arith,
  length-append (take n t) (replicate (n - length t) 0),
  length-take n t,
  length-replicate {A = ℕ} (n - length t) 0,
)

pub length-layout : (f : Format) (v : Fields f) → length (layout f v) ≡ size f
unfolding layout
length-layout [] v = refl
length-layout (unsigned w ∷ f) (n, v) =
    omega (arith, length-append (le w n) (layout f v), length-le w n, length-layout f v)
length-layout (text n ∷ f) (t, v) = omega (
  arith,
  length-append (take n t ++ replicate (n - length t) 0) (layout f v),
  length-cut n t,
  length-layout f v,
)
length-layout (pad n ∷ f) v = omega (
  arith,
  length-append (replicate n 0) (layout f v),
  length-replicate {A = ℕ} n 0,
  length-layout f v,
)

-- Every text has the size of its field.
abbrev pub IsExact : (f : Format) → Fields f → Type 0
IsExact [] v = Unit {0}
IsExact (unsigned w ∷ f) (n, v) = IsExact f v
IsExact (text n ∷ f) (t, v) = (length t ≡ n) × IsExact f v
IsExact (pad n ∷ f) v = IsExact f v

pub cut_exact : (n : ℕ) (t : Bytes) → length t ≡ n → take n t ++ replicate (n - length t) 0 ≡ t
cut_exact n t e =
    let z : n - length t ≡ zero = omega arith in rw (take_all n t (omega arith), z, append-nil) refl

-- What follows the layout is left unread.
pub fields-layout :
    (f : Format) (v : Fields f) (rest : Bytes)
    → fits f v ≡ true
    → IsExact f v
    → fields f (layout f v ++ rest) ≡ v
unfolding fields layout fits
fields-layout [] v rest h e = refl
fields-layout (unsigned w ∷ f) (n, v) rest h e =
    rw
      (
        append_assoc,
        take-append_exact w (le w n) _ (length-le w n),
        drop-append_exact w (le w n) _ (length-le w n),
      )
      (λ i. (from_le-le w n (ground arith) i, fields-layout f v rest (ground arith) e i))
fields-layout (text n ∷ f) (t, v) rest h (e, es) =
    rw
      (
        append_assoc,
        take-append_exact n _ _ (length-cut n t),
        drop-append_exact n _ _ (length-cut n t),
      )
      (λ i. (cut_exact n t e i, fields-layout f v rest h es i))
fields-layout (pad n ∷ f) v rest h e =
    rw
      (
        append_assoc,
        drop-append_exact n (replicate n 0) (layout f v ++ rest) (length-replicate n 0),
      )
      (fields-layout f v rest h e)

pub pack-eq-ok :
    (f : Format) (v : Fields f) {b : Bytes} → pack f v ≡ ok b → (fits f v ≡ true) × (layout f v ≡ b)
unfolding pack
pack-eq-ok f v h = ground arith

pub pack-fits : (f : Format) (v : Fields f) → fits f v ≡ true → pack f v ≡ ok (layout f v)
unfolding pack
pack-fits f v h = rw h

pub length-pack : (f : Format) (v : Fields f) {b : Bytes} → pack f v ≡ ok b → length b ≡ size f
length-pack f v h = ap length (sym (pack-eq-ok f v h).1) ∙ length-layout f v

-- Numbers in range and texts of their size are read back.
pub unpack-pack :
    (f : Format) (v : Fields f) {b : Bytes} → pack f v ≡ ok b → IsExact f v → unpack f b ≡ ok v
unfolding unpack
unpack-pack f v {b} h e =
    let (fit, eq) = pack-eq-ok f v h in
    let back : fields f b ≡ v =
      rw (← eq) (rw (← append-nil (layout f v)) (fields-layout f v [] fit e)) in
    rw (eq→== _ _ (length-pack f v h), back) refl

-- No byte is skipped.
abbrev pub HasNoPad : Format → Type 0
HasNoPad [] = Unit {0}
HasNoPad (unsigned w ∷ f) = HasNoPad f
HasNoPad (text n ∷ f) = HasNoPad f
HasNoPad (pad n ∷ f) = ⊥

length-take_exact : (n m : ℕ) (b : Bytes) → n + m ≤ length b → length (take n b) ≡ n
length-take_exact n m b h = omega (arith, length-take n b)

drop-length : (n : ℕ) (b : Bytes) {m : ℕ} → n + m ≤ length b → m ≤ length (drop n b)
drop-length n b h = omega (arith, length-drop n b)

drop-length_eq : (n : ℕ) (b : Bytes) {m : ℕ} → length b ≡ n + m → length (drop n b) ≡ m
drop-length_eq n b h = omega (arith, length-drop n b)

le-from_le_width : (w : ℕ) (bs : Bytes) → IsBytes bs → length bs ≡ w → le w (from_le bs) ≡ bs
le-from_le_width w bs h e = rw (← e) (le-from_le bs h)

pub fits-fields :
    (f : Format) (b : Bytes) → IsBytes b → size f ≤ length b → fits f (fields f b) ≡ true
unfolding fits fields
fits-fields [] b h e = refl
fits-fields (unsigned w ∷ f) b h e = ground (
  arith,
  from_le-lt (take w b) (All-take IsByte w b h),
  ap (λ (k : ℕ). 256 ^ k) (length-take_exact w (size f) b e),
  fits-fields f (drop w b) (All-drop IsByte w b h) (drop-length w b e),
)
fits-fields (text n ∷ f) b h e =
    fits-fields f (drop n b) (All-drop IsByte n b h) (drop-length n b e)
fits-fields (pad n ∷ f) b h e = fits-fields f (drop n b) (All-drop IsByte n b h) (drop-length n b e)

pub layout-fields :
    (f : Format) (b : Bytes)
    → HasNoPad f
    → IsBytes b
    → length b ≡ size f
    → layout f (fields f b) ≡ b
unfolding fields layout
layout-fields [] [] p h e = refl
layout-fields [] (x ∷ b) p h e = absurd (omega arith)
layout-fields (unsigned w ∷ f) b p h e =
    rw
      (
        le-from_le_width w (take w b) (All-take IsByte w b h)
            (length-take_exact w (size f) b (omega arith)),
        layout-fields f (drop w b) p (All-drop IsByte w b h) (drop-length_eq w b e),
      )
      (take-append-drop w b)
layout-fields (text n ∷ f) b p h e =
    rw
      (
        cut_exact n (take n b) (length-take_exact n (size f) b (omega arith)),
        layout-fields f (drop n b) p (All-drop IsByte n b h) (drop-length_eq n b e),
      )
      (take-append-drop n b)
layout-fields (pad n ∷ f) b p h e = elim p [ ]

pub unpack-eq-ok :
    (f : Format) (b : Bytes) {v : Fields f}
    → unpack f b ≡ ok v
    → (length b ≡ size f) × (fields f b ≡ v)
unfolding unpack
unpack-eq-ok f b h = ground arith

-- `pack` gives back the bytes that `unpack` accepted.
pub pack-unpack :
    (f : Format) (b : Bytes) (v : Fields f)
    → HasNoPad f
    → IsBytes b
    → unpack f b ≡ ok v
    → pack f v ≡ ok b
pack-unpack f b v p h u =
    let (size_eq, eq) = unpack-eq-ok f b u in
    rw (← eq, pack-fits f (fields f b) (fits-fields f b h (omega arith)))
      (ap ok (layout-fields f b p h size_eq))

fields-IsExact : (f : Format) (b : Bytes) → size f ≤ length b → IsExact f (fields f b)
unfolding fields
fields-IsExact [] b e = tt
fields-IsExact (unsigned w ∷ f) b e = fields-IsExact f (drop w b) (drop-length w b e)
fields-IsExact (text n ∷ f) b e =
    (length-take_exact n (size f) b e, fields-IsExact f (drop n b) (drop-length n b e))
fields-IsExact (pad n ∷ f) b e = fields-IsExact f (drop n b) (drop-length n b e)

pub unpack-IsExact : (f : Format) (b : Bytes) {v : Fields f} → unpack f b ≡ ok v → IsExact f v
unpack-IsExact f b u =
    let (size_eq, eq) = unpack-eq-ok f b u in
    subst (IsExact f) eq (fields-IsExact f b (omega arith))

-- `unpack_from` at offset 0 reads the record that stands in front.
pub unpack_from-pack :
    (f : Format) (v : Fields f) (rest : Bytes) {b : Bytes}
    → pack f v ≡ ok b
    → IsExact f v
    → unpack_from f (b ++ rest) 0 ≡ ok v
unfolding unpack_from
unpack_from-pack f v rest {b} h e =
    let (fit, eq) = pack-eq-ok f v h in
    let room : leb (0 + size f) (length (b ++ rest)) ≡ true =
      ground (arith, length-append b rest, length-pack f v h) in
    rw (room, ← eq, fields-layout f v rest fit e) refl
