-- ===== src/Omf.antt =====
-- tools/ia16_lab/omf.py: the reader of object files. A name is the bytes that the source decodes as
-- latin1. `segments[0]`, which is `None`, is left out of the lists of segments here.
use pi86_rp.Common.{
  ℕ, zero, suc, ◌+◌, ◌-◌, ◌*◌, ◌/◌, ◌^◌, bit_and, bit_or, String, Bool, true, false, Option, none,
  some, List, [], ◌∷◌, ◌++◌, ltb, leb, ◌==◌, if◌then◌else◌, bytes_eq, elem, has_flag, Bytes, length,
  slice, guard, ◌>>=◌, ◌>>◌, Error, value_error, index_error, Result, ok, err,
}
use pi86_rp.Struct.{from_le}
pub mod Reading
pub mod Indexed
pub mod Contributions

abbrev pub lnames : ℕ
lnames = 0x96

abbrev pub segdef : ℕ
segdef = 0x98

abbrev pub segdef32 : ℕ
segdef32 = 0x99

abbrev pub pubdef : ℕ
pubdef = 0x90

abbrev pub pubdef32 : ℕ
pubdef32 = 0x91

abbrev pub lpubdef : ℕ
lpubdef = 0xB6

abbrev pub lpubdef32 : ℕ
lpubdef32 = 0xB7

pub record OmfSegment : Type 0 where
  pub index : ℕ
  pub name : Bytes
  pub class_name : Bytes
  pub length_bytes : ℕ
  pub alignment : ℕ

pub record OmfSymbol : Type 0 where
  pub name : Bytes
  pub segment_index : ℕ
  pub segment_name : Bytes
  pub offset : ℕ
  pub is_local : Bool

pub record OmfObject : Type 0 where
  pub path : Option String
  pub segments : List OmfSegment
  pub symbols : List OmfSymbol

unfoldable pub find_segment : Bytes → List OmfSegment → Option OmfSegment
find_segment name [] = none
find_segment name (s ∷ segments) =
    if bytes_eq s.name name then some s else find_segment name segments

unfoldable pub find_symbol : Bytes → List OmfSymbol → Option OmfSymbol
find_symbol name [] = none
find_symbol name (s ∷ symbols) = if bytes_eq s.name name then some s else find_symbol name symbols

unfoldable pub segment : OmfObject → Bytes → Option OmfSegment
unfolding find_segment
segment object name = find_segment name object.segments

unfoldable pub symbol : OmfObject → Bytes → Option OmfSymbol
unfolding find_symbol
symbol object name = find_symbol name object.symbols

-- `items[i]`
unfoldable pub item_at {ℓ} : {A : Type ℓ} → List A → ℕ → Result A
item_at [] i = err index_error
item_at (x ∷ items) zero = ok x
item_at (x ∷ items) (suc i) = item_at items i

-- `_index`: an index of one or two bytes, and the position behind it.
unfoldable pub index_at : Bytes → ℕ → Result (ℕ × ℕ)
unfolding item_at
index_at payload position = do
  first ← item_at payload position
  if has_flag first 0x80
      then (do
        second ← item_at payload (position + 1)
        ok (bit_or (bit_and first 0x7F * 256) second, position + 2))
      else ok (first, position + 1)

-- `int.from_bytes(b[position : position + width], "little")`
abbrev pub number_at : Bytes → ℕ → ℕ → ℕ
number_at b position width = from_le (slice position (position + width) b)

-- The record at a position: its type, its content without the checksum, and where it ends.
unfoldable pub next_record : Bytes → ℕ → Result (ℕ × Bytes × ℕ)
unfolding item_at
next_record content position = do
  guard (leb (position + 3) (length content)) (value_error "truncated OMF record header" [])
  record_type ← item_at content position
  let end = position + 3 + number_at content (position + 1) 2
  guard (leb end (length content)) (value_error "truncated OMF record payload" [])
  ok (record_type, slice (position + 3) (end - 1) content, end)

-- What a generator yields, and the exception that ends it.
abbrev pub Generated : Type 0 → Type 0
Generated A = List A × Option Error

abbrev pub yield_then : {A : Type 0} → A → Generated A → Generated A
yield_then a (items, end) = (a ∷ items, end)

-- `_records` from a position on. A round moves on by 3 bytes at least, so `length content` rounds
-- are enough.
unfoldable pub records_loop : ℕ → Bytes → ℕ → Generated (ℕ × Bytes)
unfolding next_record
records_loop zero content position = ([], none)
records_loop (suc fuel) content position = elim (ltb position (length content)) [
  | false ↦ ([], none)
  | true ↦ elim (next_record content position) [
    | err e ↦ ([], some e)
    | ok (record_type, payload, end) ↦
        yield_then (record_type, payload) (records_loop fuel content end)
  ]
]

unfoldable pub records : Bytes → Generated (ℕ × Bytes)
unfolding records_loop
records content = records_loop (length content) content 0

unfoldable pub alignment_bytes : ℕ → ℕ
alignment_bytes code =
    if code == 2
    then 2
    else if code == 3
    then 16
    else if code == 4
    then 256
    else if code == 5
    then 4
    else 1

-- The lists that the loop of `parse_omf_bytes` appends to.
pub record Tables : Type 0 where
  pub names : List (Option Bytes)
  pub segments : List OmfSegment
  pub symbols : List OmfSymbol

abbrev pub no_tables : Tables
no_tables = record { names = none ∷ []; segments = []; symbols = [] }

-- A name: its length in one byte, and its bytes; and the position behind it.
unfoldable pub name_at : Bytes → ℕ → Result (Bytes × ℕ)
unfolding item_at
name_at payload position = do
  len ← item_at payload position
  ok (slice (position + 1) (position + 1 + len) payload, position + 1 + len)

-- The loop over an LNAMES record. A round moves on by a byte at least.
unfoldable pub names_loop : ℕ → Bytes → ℕ → List (Option Bytes) → Result (List (Option Bytes))
unfolding name_at
names_loop zero payload position names = ok names
names_loop (suc fuel) payload position names =
    if ltb position (length payload)
    then (do
      (name, next) ← name_at payload position
      names_loop fuel payload next (names ++ some name ∷ []))
    else ok names

-- `names[i] or ""`
abbrev pub or_empty : Option Bytes → Bytes
or_empty none = []
or_empty (some name) = name

-- The segment that a SEGDEF record defines. `number` is `len(segments)`.
unfoldable pub read_segment : List (Option Bytes) → ℕ → ℕ → Bytes → Result OmfSegment
unfolding item_at index_at alignment_bytes
read_segment names number record_type payload = do
  attributes ← item_at payload 0
  let alignment_code = bit_and (attributes / 2 ^ 5) 0x07
  let position = if alignment_code == 0 then 4 else 1
  let width = if record_type == segdef32 then 4 else 2
  let len = number_at payload position width
  (name_index, position1) ← index_at payload (position + width)
  (class_index, position2) ← index_at payload position1
  _ ← index_at payload position2
  name ← item_at names name_index
  class_name ← item_at names class_index
  ok (record {
    index = number;
    name = or_empty name;
    class_name = or_empty class_name;
    length_bytes = len;
    alignment = alignment_bytes alignment_code;
  })

-- The name of `segments[index]`, where there is one.
unfoldable pub segment_name_at : List OmfSegment → ℕ → Bytes
segment_name_at segments zero = []
segment_name_at [] (suc i) = []
segment_name_at (s ∷ segments) (suc zero) = s.name
segment_name_at (s ∷ segments) (suc (suc i)) = segment_name_at segments (suc i)

-- One symbol of a PUBDEF record, and the position behind it.
unfoldable pub symbol_at : List OmfSegment → ℕ → ℕ → Bool → Bytes → ℕ → Result (OmfSymbol × ℕ)
unfolding name_at index_at segment_name_at
symbol_at segments segment_index width is_local payload position = do
  (name, position1) ← name_at payload position
  let offset = number_at payload position1 width
  (_, position2) ← index_at payload (position1 + width)
  ok (
    record {
      name = name;
      segment_index = segment_index;
      segment_name = segment_name_at segments segment_index;
      offset = offset;
      is_local = is_local;
    },
    position2,
  )

-- The loop over a PUBDEF record. A round moves on by four bytes at least.
unfoldable pub symbols_loop :
    ℕ → List OmfSegment → ℕ → ℕ → Bool → Bytes → ℕ → List OmfSymbol → Result (List OmfSymbol)
unfolding symbol_at
symbols_loop zero segments segment_index width is_local payload position symbols = ok symbols
symbols_loop (suc fuel) segments segment_index width is_local payload position symbols =
    if ltb position (length payload)
    then (do
      (symbol, next) ← symbol_at segments segment_index width is_local payload position
      symbols_loop fuel segments segment_index width is_local payload next (symbols ++ symbol ∷ []))
    else ok symbols

unfoldable pub read_symbols : List OmfSegment → ℕ → Bytes → List OmfSymbol → Result (List OmfSymbol)
unfolding index_at symbols_loop
read_symbols segments record_type payload symbols = do
  (_, position1) ← index_at payload 0
  (segment_index, position2) ← index_at payload position1
  let position = if segment_index == 0 then position2 + 2 else position2
  let width = if elem record_type (pubdef32 ∷ lpubdef32 ∷ []) then 4 else 2
  let is_local = elem record_type (lpubdef ∷ lpubdef32 ∷ [])
  symbols_loop (length payload) segments segment_index width is_local payload position symbols

-- One round of the loop of `parse_omf_bytes`.
unfoldable pub read_record : Tables → ℕ × Bytes → Result Tables
unfolding names_loop read_segment read_symbols
read_record t (record_type, payload) =
    if record_type == lnames
    then (do names ← names_loop (length payload) payload 0 t.names; ok (record t { names = names }))
    else if elem record_type (segdef ∷ segdef32 ∷ [])
    then (do
      segment ← read_segment t.names (length t.segments + 1) record_type payload
      ok (record t { segments = t.segments ++ segment ∷ [] }))
    else if elem record_type (pubdef ∷ pubdef32 ∷ lpubdef ∷ lpubdef32 ∷ [])
    then (do
      symbols ← read_symbols t.segments record_type payload t.symbols
      ok (record t { symbols = symbols }))
    else ok t

unfoldable pub read_records : Tables → List (ℕ × Bytes) → Result Tables
unfolding read_record
read_records t [] = ok t
read_records t (r ∷ rs) = read_record t r >>= λ next. read_records next rs

-- How a generator ends, after the loop took all that it yields.
abbrev pub ended : Option Error → Result (Unit {0})
ended none = ok tt
ended (some e) = err e

unfoldable pub parse_omf_bytes : Option String → Bytes → Result OmfObject
unfolding records read_records
parse_omf_bytes path content = do
  t ← read_records no_tables (records content).0
  ended (records content).1
  ok (record { path = path; segments = t.segments; symbols = t.symbols })
