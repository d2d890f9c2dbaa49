-- ===== src/Examples/Objects.antt =====
-- Object files at concrete inputs.
use pi86_rp.Symbols.{
  symbol_le, insert_symbol, sorted, new_table, by_name, bisect_right, named_at, resolve, index_of,
  span, Symbol,
}
use pi86_rp.Symbols.Nearest.{IsNearest, resolve-IsNearest}
use pi86_rp.Common.{
  ℕ, ◌≡◌, refl, true, Option, none, some, List, [], ◌∷◌, ◌++◌, map, arith, bytes_eq, ascii, Bytes,
  All, ok,
}
use pi86_rp.Struct.{le, from_le}
use pi86_rp.Omf.{
  lnames, segdef, lpubdef, item_at, index_at, next_record, records_loop, records, alignment_bytes,
  name_at, names_loop, read_segment, segment_name_at, symbol_at, symbols_loop, read_symbols,
  read_record, read_records, parse_omf_bytes, OmfSegment, OmfSymbol, OmfObject,
}
use pi86_rp.Omf.Reading.{Written, written_file, without_checksum, records-write, records-enough}
use pi86_rp.Omf.Indexed.{IsNumbered, IsResolved, parse_omf_bytes-IsResolved}
use pi86_rp.Omf.Contributions.{
  get_zero, insert, aligned_cursor, place_segment, place_segments, place_objects,
  contribution_bases,
}
use pi86_rp.Omf.Contributions.Placed.{
  contributions, contribution, written_bases, IsAligned, IsLaidOut, contribution_bases-IsLaidOut,
  Placement,
}

-- Names, a segment of 5 bytes that is aligned to words, and a local symbol at its offset 2.
abbrev object_records : List Written
object_records =
    (lnames, 0 ∷ 5 ∷ (ascii "_TEXT" ++ 4 ∷ ascii "CODE"), 0)
    ∷ (segdef, 0x48 ∷ 5 ∷ 0 ∷ 2 ∷ 3 ∷ 1 ∷ [], 0)
    ∷ (lpubdef, 0 ∷ 1 ∷ 4 ∷ (ascii "tick" ++ 2 ∷ 0 ∷ 0 ∷ []), 0)
    ∷ []

abbrev text_segment : OmfSegment
text_segment = record {
  index = 1;
  name = ascii "_TEXT";
  class_name = ascii "CODE";
  length_bytes = 5;
  alignment = 2;
}

abbrev tick_symbol : OmfSymbol
tick_symbol = record {
  name = ascii "tick";
  segment_index = 1;
  segment_name = ascii "_TEXT";
  offset = 2;
  is_local = true;
}

abbrev object : OmfObject
object = record { path = none; segments = text_segment ∷ []; symbols = tick_symbol ∷ [] }

object_parsed : parse_omf_bytes none (written_file object_records) ≡ ok object
unfolding parse_omf_bytes records records_loop next_record item_at read_records read_record
    names_loop name_at read_segment index_at alignment_bytes read_symbols symbols_loop symbol_at
    segment_name_at le from_le
object_parsed = refl

records-write_example :
    records (written_file object_records) ≡ (map without_checksum object_records, none)
records-write_example = records-write object_records (omega arith)

records-enough_example :
    records_loop 100 (written_file object_records) 0 ≡ records (written_file object_records)
unfolding le
records-enough_example = records-enough (written_file object_records) 100 (omega arith)

parse_omf_bytes-IsResolved_example :
    IsNumbered 1 object.segments × All (IsResolved object.segments) object.symbols
parse_omf_bytes-IsResolved_example =
    parse_omf_bytes-IsResolved none (written_file object_records) object_parsed

abbrev other_object : OmfObject
other_object = record object { path = some "b.obj" }

-- The second contribution begins at the next word behind 5 bytes.
second_at_6 :
    contribution_bases (object ∷ other_object ∷ [])
    ≡ ((none, ascii "_TEXT"), 0) ∷ ((some "b.obj", ascii "_TEXT"), 6) ∷ []
unfolding contribution_bases place_objects place_segments place_segment get_zero insert
    aligned_cursor bytes_eq
second_at_6 = refl

contribution_bases-IsLaidOut_example :
    (placements : List Placement) × (map contribution placements
      ≡ contributions (object ∷ other_object ∷ []))
    × (contribution_bases (object ∷ other_object ∷ []) ≡ written_bases placements [])
    × All IsAligned placements
    × IsLaidOut placements
contribution_bases-IsLaidOut_example = contribution_bases-IsLaidOut (object ∷ other_object ∷ [])

abbrev map_symbols : List Symbol
map_symbols =
    record { address = 300; name = ascii "last" }
    ∷ record { address = 100; name = ascii "first" }
    ∷ record { address = 200; name = ascii "middle" }
    ∷ []

inside_middle : resolve (new_table map_symbols) 205 ≡ ok (some (ascii "middle", 5))
unfolding resolve new_table sorted insert_symbol symbol_le bisect_right named_at item_at
inside_middle = refl

middle_span : span (new_table map_symbols) (ascii "middle") ≡ ok (200, 300)
unfolding span new_table sorted insert_symbol symbol_le by_name bytes_eq index_of item_at
middle_span = refl

resolve-IsNearest_example :
    (r : Option (Bytes × ℕ)) × (resolve (new_table map_symbols) 205 ≡ ok r)
    × IsNearest map_symbols 205 r
resolve-IsNearest_example = resolve-IsNearest map_symbols 205
