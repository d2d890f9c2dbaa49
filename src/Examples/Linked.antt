-- ===== src/Examples/Linked.antt =====
-- A link of one object, whose layout is resolved.
use pi86_rp.Common.{
  ℕ, ◌≡◌, refl, true, Option, none, some, List, [], ◌∷◌, bytes_eq, ascii, Bytes, Result, ok,
}
use pi86_rp.Omf.{symbol, find_symbol, OmfSegment, OmfSymbol, OmfObject}
use pi86_rp.Omf.Contributions.{
  get_zero, insert, aligned_cursor, place_segment, place_segments, place_objects,
  contribution_bases,
}
use pi86_rp.Symbols.{
  symbol_le, insert_symbol, sorted, new_table, matched_symbol, from_wlink_map, by_name, SymbolTable,
  address as map_address,
}
use pi86_rp.Layout.{
  find_key, insert_matches, segment_bases, dgroup_base, linked_address, anchor_among,
  visible_bss_anchor, anchor_of, target_addresses, layout_address, dgroup_offset, check_near,
  lay_out, resolve_layout, add_delayed, ready_lists, suspended_list, current_tcb, task_create,
  FreeRtos75Layout, Placements,
}
use pi86_rp.Layout.Anchored.{resolve_layout-IsAnchored, IsAnchored}

abbrev in_segment : Bytes → Bytes → ℕ → OmfSymbol
in_segment name segment_name offset = record {
  name = name;
  segment_index = 1;
  segment_name = segment_name;
  offset = offset;
  is_local = true;
}

abbrev segment_named : ℕ → Bytes → OmfSegment
segment_named index name = record {
  index = index;
  name = name;
  class_name = ascii "C";
  length_bytes = 64;
  alignment = 2;
}

abbrev tasks : OmfObject
tasks = record {
  path = some "tasks.o";
  segments =
      segment_named 1 (ascii "_TEXT")
      ∷ segment_named 2 (ascii "_DATA")
      ∷ segment_named 3 (ascii "_BSS")
      ∷ [];
  symbols =
      in_segment task_create (ascii "_TEXT") 0
      ∷ in_segment add_delayed (ascii "_TEXT") 16
      ∷ in_segment current_tcb (ascii "_DATA") 4
      ∷ in_segment ready_lists (ascii "_BSS") 0
      ∷ in_segment suspended_list (ascii "_BSS") 8
      ∷ in_segment (ascii "_tick") (ascii "_BSS") 12
      ∷ [];
}

abbrev symbol_matches : List (ℕ × ℕ × Bytes)
symbol_matches =
    (0x1000, 0, task_create) ∷ (0x2000, 4, current_tcb) ∷ (0x2000, 0x10C, ascii "_tick") ∷ []

abbrev segment_matches : List (Bytes × ℕ × ℕ)
segment_matches =
    (ascii "_TEXT", 0x1000, 0) ∷ (ascii "_DATA", 0x2000, 0) ∷ (ascii "_BSS", 0x2000, 0x100) ∷ []

abbrev first_object : List OmfObject → Option OmfObject
first_object [] = none
first_object (object ∷ objects) = some object

abbrev tasks_layout : FreeRtos75Layout
tasks_layout = record {
  text_base = 0x10000;
  group_base = 0x20000;
  target_list =
      (add_delayed, 0x10010)
      ∷ (ready_lists, 0x20100)
      ∷ (suspended_list, 0x20108)
      ∷ (current_tcb, 0x20004)
      ∷ [];
  bss_anchor_name = ascii "_tick";
  bss_anchor_address = 0x2010C;
}

tasks_resolved :
    resolve_layout symbol_matches segment_matches (ok (tasks ∷ [])) first_object (some (0x2000, 0))
    ≡ ok tasks_layout
unfolding resolve_layout lay_out segment_bases insert_matches insert find_key dgroup_base
    linked_address anchor_among visible_bss_anchor anchor_of target_addresses layout_address
    dgroup_offset check_near symbol find_symbol contribution_bases place_objects place_segments
    place_segment aligned_cursor get_zero from_wlink_map new_table matched_symbol sorted
    insert_symbol symbol_le by_name bytes_eq map_address
tasks_resolved = refl

resolve_layout-IsAnchored_example :
    (table : SymbolTable) × (placements : Placements) × (objects : List OmfObject)
    × (object : OmfObject) × (from_wlink_map symbol_matches ≡ ok table)
    × (segment_bases segment_matches ≡ ok placements)
    × (◌≡◌ {A = Result (List OmfObject)} (ok (tasks ∷ [])) (ok objects))
    × (first_object objects ≡ some object)
    × IsAnchored table placements objects object (some (0x2000, 0)) tasks_layout
resolve_layout-IsAnchored_example =
    resolve_layout-IsAnchored symbol_matches segment_matches (ok (tasks ∷ [])) first_object
      (some (0x2000, 0)) tasks_resolved
