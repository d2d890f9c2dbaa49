-- ===== src/Omf/Indexed.antt =====
-- The segments of a parsed object carry their places, and its symbols name its segments.
use mathlib.Core.Path.{subst}
use pi86_rp.Common.{
  ℕ, zero, suc, ◌+◌, String, ◌≡◌, refl, sym, ap, ◌∙◌, ◌⊎◌, inl, inr, Bool, Option, List, [], ◌∷◌,
  ◌++◌, arith, ltb, ◌==◌, Bool-cases, elem, Bytes, length, All, All-append, >>=-eq-ok, ok_injective,
  ok,
}
use pi86_rp.Omf.{
  lnames, segdef, segdef32, pubdef, pubdef32, lpubdef, lpubdef32, segment, item_at, index_at,
  records, no_tables, name_at, names_loop, read_segment, segment_name_at, symbol_at, symbols_loop,
  read_symbols, read_record, read_records, ended, parse_omf_bytes, OmfSegment, OmfSymbol, OmfObject,
  Tables,
}

-- Segments are numbered on from a number.
abbrev pub IsNumbered : ℕ → List OmfSegment → Type 0
IsNumbered n [] = Unit {0}
IsNumbered n (s ∷ segments) = (s.index ≡ n) × IsNumbered (n + 1) segments

-- A segment with this index and this name is among them.
abbrev pub HasSegment : List OmfSegment → ℕ → Bytes → Type 0
HasSegment [] index name = ⊥
HasSegment (s ∷ segments) index name =
    ((s.index ≡ index) × (s.name ≡ name)) ⊎ HasSegment segments index name

-- A symbol names no segment, or the one that it points to.
abbrev pub IsResolved : List OmfSegment → OmfSymbol → Type 0
IsResolved segments s = (s.segment_name ≡ []) ⊎ HasSegment segments s.segment_index s.segment_name

abbrev IsConsistent : List OmfSegment → List OmfSymbol → Type 0
IsConsistent segments symbols = IsNumbered 1 segments × All (IsResolved segments) symbols

HasSegment-append :
    (xs ys : List OmfSegment) (i : ℕ) (name : Bytes)
    → HasSegment xs i name
    → HasSegment (xs ++ ys) i name
HasSegment-append [] ys i name h = elim h [ ]
HasSegment-append (x ∷ xs) ys i name (inl h) = inl h
HasSegment-append (x ∷ xs) ys i name (inr h) = inr (HasSegment-append xs ys i name h)

IsResolved-append :
    (xs ys : List OmfSegment) (s : OmfSymbol) → IsResolved xs s → IsResolved (xs ++ ys) s
IsResolved-append xs ys s (inl h) = inl h
IsResolved-append xs ys s (inr h) = inr (HasSegment-append xs ys _ _ h)

All-IsResolved-append :
    (xs ys : List OmfSegment) (symbols : List OmfSymbol)
    → All (IsResolved xs) symbols
    → All (IsResolved (xs ++ ys)) symbols
All-IsResolved-append xs ys [] h = tt
All-IsResolved-append xs ys (s ∷ symbols) (h, rest) =
    (IsResolved-append xs ys s h, All-IsResolved-append xs ys symbols rest)

IsNumbered-append :
    (n : ℕ) (xs : List OmfSegment) (s : OmfSegment)
    → IsNumbered n xs
    → s.index ≡ n + length xs
    → IsNumbered n (xs ++ s ∷ [])
IsNumbered-append n [] s h e = (omega arith, tt)
IsNumbered-append n (x ∷ xs) s (h, rest) e = (h, IsNumbered-append (n + 1) xs s rest (omega arith))

segment_name_at-HasSegment :
    (n j : ℕ) (segments : List OmfSegment)
    → IsNumbered n segments
    → (segment_name_at segments (suc j) ≡ [])
      ⊎ HasSegment segments (n + j) (segment_name_at segments (suc j))
unfolding segment_name_at
segment_name_at-HasSegment n j [] h = inl refl
segment_name_at-HasSegment n zero (s ∷ segments) (h, rest) = inr (inl (omega arith, refl))
segment_name_at-HasSegment n (suc j) (s ∷ segments) (h, rest) =
    elim (segment_name_at-HasSegment (n + 1) j segments rest) [
      | inl e ↦ inl e
      | inr found ↦ inr (
          inr (
            subst (λ i. HasSegment segments i (segment_name_at segments (suc j))) (omega arith)
              found))
    ]

name_of_index :
    (segments : List OmfSegment) (i : ℕ)
    → IsNumbered 1 segments
    → (segment_name_at segments i ≡ []) ⊎ HasSegment segments i (segment_name_at segments i)
unfolding segment_name_at
name_of_index segments zero n = inl refl
name_of_index segments (suc j) n =
    subst
      (λ i.
        (segment_name_at segments (suc j) ≡ [])
        ⊎ HasSegment segments i (segment_name_at segments (suc j)))
      (omega arith) (segment_name_at-HasSegment 1 j segments n)

symbol_at-IsResolved :
    (segments : List OmfSegment) (index width : ℕ) (is_local : Bool) (payload : Bytes) (p : ℕ)
    {s : OmfSymbol} {next : ℕ}
    → IsNumbered 1 segments
    → symbol_at segments index width is_local payload p ≡ ok (s, next)
    → IsResolved segments s
unfolding symbol_at
symbol_at-IsResolved segments index width is_local payload p n h =
    let (named, e, h1) = >>=-eq-ok (name_at payload p) _ h in
    let (indexed, e', h2) = >>=-eq-ok (index_at payload (named.1 + width)) _ h1 in
    subst (λ (r : OmfSymbol × ℕ). IsResolved segments r.0) (ok_injective h2)
      (name_of_index segments index n)

symbols_loop-IsResolved :
    (fuel : ℕ) (segments : List OmfSegment) (index width : ℕ) (is_local : Bool) (payload : Bytes)
    (p : ℕ) (symbols : List OmfSymbol) {after : List OmfSymbol}
    → IsConsistent segments symbols
    → symbols_loop fuel segments index width is_local payload p symbols ≡ ok after
    → All (IsResolved segments) after
unfolding symbols_loop
symbols_loop-IsResolved zero segments index width is_local payload p symbols c h =
    subst (All (IsResolved segments)) (ok_injective h) c.1
symbols_loop-IsResolved (suc fuel) segments index width is_local payload p symbols c h =
    elim (Bool-cases (ltb p (length payload))) [
      | inl more ↦
          let (r, e, h') =
            >>=-eq-ok (symbol_at segments index width is_local payload p) _ (rw more at h) in
          symbols_loop-IsResolved fuel segments index width is_local payload r.1
            (symbols ++ r.0 ∷ [])
            (
              c.0,
              All-append (IsResolved segments) symbols (r.0 ∷ []) c.1
                  (symbol_at-IsResolved segments index width is_local payload p c.0 e, tt),
            )
            h'
      | inr done ↦ subst (All (IsResolved segments)) (ok_injective (rw done at h)) c.1
    ]

read_symbols-IsResolved :
    (segments : List OmfSegment) (record_type : ℕ) (payload : Bytes) (symbols : List OmfSymbol)
    {after : List OmfSymbol}
    → IsConsistent segments symbols
    → read_symbols segments record_type payload symbols ≡ ok after
    → All (IsResolved segments) after
unfolding read_symbols
read_symbols-IsResolved segments record_type payload symbols c h =
    let (group, e, h1) = >>=-eq-ok (index_at payload 0) _ h in
    let (index, e', h2) = >>=-eq-ok (index_at payload group.1) _ h1 in
    symbols_loop-IsResolved _ segments _ _ _ payload _ symbols c h2

read_segment-index :
    (names : List (Option Bytes)) (number record_type : ℕ) (payload : Bytes) {s : OmfSegment}
    → read_segment names number record_type payload ≡ ok s
    → s.index ≡ number
unfolding read_segment
read_segment-index names number record_type payload h =
    let (attributes, e, h1) = >>=-eq-ok (item_at payload 0) _ h in
    let (name_index, e1, h2) = >>=-eq-ok (index_at payload _) _ h1 in
    let (class_index, e2, h3) = >>=-eq-ok (index_at payload name_index.1) _ h2 in
    let (overlay, e3, h4) = >>=-eq-ok (index_at payload class_index.1) _ h3 in
    let (name, e4, h5) = >>=-eq-ok (item_at names name_index.0) _ h4 in
    let (class_name, e5, h6) = >>=-eq-ok (item_at names class_index.0) _ h5 in
    sym (ap (λ (s : OmfSegment). s.index) (ok_injective h6))

abbrev IsSound : Tables → Type 0
IsSound t = IsConsistent t.segments t.symbols

read_record-IsConsistent :
    (t : Tables) (record_type : ℕ) (payload : Bytes) {next : Tables}
    → IsSound t
    → read_record t (record_type, payload) ≡ ok next
    → IsSound next
unfolding read_record
read_record-IsConsistent t record_type payload c h = elim (Bool-cases (record_type == lnames)) [
  | inl is_names ↦
      let (names, e, h1) =
        >>=-eq-ok (names_loop (length payload) payload 0 t.names) _ (rw is_names at h) in
      subst IsSound (ok_injective h1) c
  | inr other ↦ elim (Bool-cases (elem record_type (segdef ∷ segdef32 ∷ []))) [
    | inl is_segment ↦
        let (segment, e, h1) =
          >>=-eq-ok (read_segment t.names (length t.segments + 1) record_type payload) _
            (rw (other, is_segment) at h) in
        subst IsSound (ok_injective h1) (
          IsNumbered-append 1 t.segments segment c.0
              (read_segment-index t.names _ record_type payload e ∙ omega arith),
          All-IsResolved-append t.segments (segment ∷ []) t.symbols c.1,
        )
    | inr other' ↦
        elim (Bool-cases (elem record_type (pubdef ∷ pubdef32 ∷ lpubdef ∷ lpubdef32 ∷ []))) [
          | inl is_symbols ↦
              let (symbols, e, h1) =
                >>=-eq-ok (read_symbols t.segments record_type payload t.symbols) _
                  (rw (other, other', is_symbols) at h) in
              subst IsSound (ok_injective h1)
                (c.0, read_symbols-IsResolved t.segments record_type payload t.symbols c e)
          | inr ignored ↦ subst IsSound (ok_injective (rw (other, other', ignored) at h)) c
        ]
  ]
]

read_records-IsConsistent :
    (rs : List (ℕ × Bytes)) (t : Tables) {after : Tables}
    → IsConsistent t.segments t.symbols
    → read_records t rs ≡ ok after
    → IsConsistent after.segments after.symbols
unfolding read_records
read_records-IsConsistent [] t c h = subst IsSound (ok_injective h) c
read_records-IsConsistent ((record_type, payload) ∷ rs) t c h =
    let (next, e, h') =
      >>=-eq-ok (read_record t (record_type, payload)) (λ n. read_records n rs) h in
    read_records-IsConsistent rs next (read_record-IsConsistent t record_type payload c e) h'

-- Of an object that is parsed, the segments are numbered from 1 by their places, and a symbol either
-- has no segment name or has the name of the segment that its index numbers.
pub parse_omf_bytes-IsResolved :
    (path : Option String) (content : Bytes) {object : OmfObject}
    → parse_omf_bytes path content ≡ ok object
    → IsNumbered 1 object.segments × All (IsResolved object.segments) object.symbols
unfolding parse_omf_bytes
parse_omf_bytes-IsResolved path content h =
    let (t, e, h1) = >>=-eq-ok (read_records no_tables (records content).0) _ h in
    let (finished, e1, h2) = >>=-eq-ok (ended (records content).1) _ h1 in
    subst (λ (o : OmfObject). IsNumbered 1 o.segments × All (IsResolved o.segments) o.symbols)
      (ok_injective h2) (read_records-IsConsistent (records content).0 no_tables (tt, tt) e)
