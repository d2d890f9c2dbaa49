-- ===== src/Layout.antt =====
-- tools/ia16_lab/freertos75_layout.py: the linked addresses of the scheduler's objects. The matches
-- of the regular expressions and the objects that were read are arguments, and so is the place of
-- tasks.c among the objects: the comparison of resolved paths is the file system's.
use pi86_rp.Common.{
  ℕ, ◌+◌, ◌-◌, ◌*◌, Bool, true, false, not, ◌&&◌, Option, none, some, List, [], ◌∷◌, map, leb, ◌==◌,
  if◌then◌else◌, bytes_eq, ascii, Bytes, guard, ◌>>=◌, ◌>>◌, Error, value_error, runtime_error,
  key_error, Result, ok, err,
}
use pi86_rp.Symbols.{from_wlink_map, by_name, Symbol, SymbolTable, address as map_address}
use pi86_rp.Omf.{segment, symbol, OmfSymbol, OmfObject}
use pi86_rp.Omf.Contributions.{BaseKey, base_key_eq, insert, contribution_bases}
pub mod Visible
pub mod Anchored

abbrev pub text_segment : Bytes
text_segment = ascii "_TEXT"

abbrev pub data_segment : Bytes
data_segment = ascii "_DATA"

abbrev pub bss_segment : Bytes
bss_segment = ascii "_BSS"

abbrev pub task_create : Bytes
task_create = ascii "_xTaskCreate"

abbrev pub add_delayed : Bytes
add_delayed = ascii "_prvAddCurrentTaskToDelayedList"

abbrev pub ready_lists : Bytes
ready_lists = ascii "_pxReadyTasksLists"

abbrev pub suspended_list : Bytes
suspended_list = ascii "_xSuspendedTaskList"

abbrev pub current_tcb : Bytes
current_tcb = ascii "_pxCurrentTCB"

abbrev pub targets : List Bytes
targets = add_delayed ∷ ready_lists ∷ suspended_list ∷ current_tcb ∷ []

abbrev pub Placements : Type 0
Placements = List (Bytes × ℕ)

abbrev pub Bases : Type 0
Bases = List (BaseKey × ℕ)

-- `d.get(key)`
unfoldable pub find_key : {K : Type 0} → (K → K → Bool) → K → List (K × ℕ) → Option ℕ
find_key eq key [] = none
find_key eq key ((k, v) ∷ d) = if eq key k then some v else find_key eq key d

abbrev pub or_error : {A : Type 0} → Error → Option A → Result A
or_error e none = err e
or_error e (some a) = ok a

abbrev pub physical : ℕ → ℕ → ℕ
physical segment offset = segment * 16 + offset

unfoldable pub insert_matches : Placements → List (Bytes × ℕ × ℕ) → Placements
unfolding insert
insert_matches d [] = d
insert_matches d ((name, segment, offset) ∷ matches) =
    insert_matches (insert bytes_eq name (physical segment offset) d) matches

abbrev pub is_placed : Placements → Bytes → Bool
is_placed d name = elim (find_key bytes_eq name d) [ none ↦ false | some a ↦ true ]

unfoldable pub segment_bases : List (Bytes × ℕ × ℕ) → Result Placements
unfolding insert_matches find_key
segment_bases matches = do
  let d = insert_matches [] matches
  guard (is_placed d text_segment && is_placed d data_segment && is_placed d bss_segment)
      (value_error "WLINK map missing segment placement" [])
  ok d

unfoldable pub dgroup_base : Option (ℕ × ℕ) → Result ℕ
dgroup_base none = err (value_error "WLINK map contains no DGROUP placement" [])
dgroup_base (some (segment, offset)) = ok (physical segment offset)

unfoldable pub linked_address : OmfObject → Bytes → Bases → Placements → Result ℕ
unfolding symbol find_key
linked_address object name bases placements = do
  s ← or_error (value_error "OMF symbol not found" name) (symbol object name)
  place ←
      or_error (value_error "no final placement for segment" s.segment_name)
        (find_key bytes_eq s.segment_name placements)
  contribution ←
      or_error (key_error "contribution") (find_key base_key_eq (object.path, s.segment_name) bases)
  ok (place + contribution + s.offset)

-- An anchor: its name, the address that is predicted and the one in the map.
abbrev pub Anchor : Type 0
Anchor = Bytes × ℕ × ℕ

module _ (bases : Bases) (placements : Placements) (table : SymbolTable) where
  abbrev pub seen_at :
      OmfObject → Bytes → Option Symbol → Result (Option Anchor) → Result (Option Anchor)
  seen_at object name none rest = rest
  seen_at object name (some s) rest = do
    predicted ← linked_address object name bases placements
    ok (some (name, predicted, s.address))

  unfoldable pub anchor_among : OmfObject → List OmfSymbol → Result (Option Anchor)
  unfolding linked_address by_name
  anchor_among object [] = ok none
  anchor_among object (s ∷ symbols) =
      let rest = anchor_among object symbols in
      if bytes_eq s.segment_name bss_segment
      then seen_at object s.name (by_name s.name table.symbols) rest
      else rest

  abbrev pub anchor_or : Result (Option Anchor) → Option Anchor → Result (Option Anchor)
  anchor_or rest none = rest
  anchor_or rest (some a) = ok (some a)

  unfoldable pub visible_bss_anchor : List OmfObject → Result (Option Anchor)
  unfolding anchor_among
  visible_bss_anchor [] = ok none
  visible_bss_anchor (object ∷ objects) = do
    a ← anchor_among object object.symbols
    anchor_or (visible_bss_anchor objects) a

  -- What is predicted for a symbol of tasks.c, and what the map says.
  unfoldable pub anchor_of : OmfObject → Bytes → Result (ℕ × ℕ)
  unfolding linked_address
  anchor_of tasks name = do
    predicted ← linked_address tasks name bases placements
    expected ← map_address table name
    ok (predicted, expected)

  unfoldable pub target_addresses : OmfObject → List Bytes → Result (List (Bytes × ℕ))
  unfolding linked_address symbol
  target_addresses tasks [] = ok []
  target_addresses tasks (name ∷ names) = do
    _ ← or_error (runtime_error "required tasks.c symbol missing from OMF" name) (symbol tasks name)
    a ← linked_address tasks name bases placements
    rest ← target_addresses tasks names
    ok ((name, a) ∷ rest)

pub record FreeRtos75Layout : Type 0 where
  pub text_base : ℕ
  pub group_base : ℕ
  pub target_list : List (Bytes × ℕ)
  pub bss_anchor_name : Bytes
  pub bss_anchor_address : ℕ

unfoldable pub layout_address : FreeRtos75Layout → Bytes → Result ℕ
unfolding find_key
layout_address l name =
    or_error (value_error "resolved FreeRTOS #75 symbol not found" name)
      (find_key bytes_eq name l.target_list)

-- The offset is not negative and has 16 bits.
unfoldable pub dgroup_offset : FreeRtos75Layout → Bytes → Result ℕ
unfolding layout_address
dgroup_offset l name = do
  a ← layout_address l name
  guard (leb l.group_base a && leb (a - l.group_base) 0xFFFF)
      (value_error "outside the resolved DGROUP near-pointer range" name)
  ok (a - l.group_base)

-- The tests that the three near pointers pass.
unfoldable pub check_near : FreeRtos75Layout → Result FreeRtos75Layout
unfolding dgroup_offset
check_near l = do
  _ ← dgroup_offset l ready_lists
  _ ← dgroup_offset l suspended_list
  _ ← dgroup_offset l current_tcb
  ok l

-- `resolve_layout` behind the search for tasks.c.
unfoldable pub lay_out :
    SymbolTable → Placements → List OmfObject → OmfObject → Option (ℕ × ℕ) → Result FreeRtos75Layout
unfolding contribution_bases anchor_of visible_bss_anchor target_addresses dgroup_base check_near
    find_key
lay_out table placements objects tasks group = do
  let bases = contribution_bases objects
  (text_anchor, text_expected) ← anchor_of bases placements table tasks task_create
  (data_anchor, data_expected) ← anchor_of bases placements table tasks current_tcb
  guard (text_anchor == text_expected)
      (runtime_error "_TEXT contribution mismatch" (text_anchor ∷ text_expected ∷ []))
  guard (data_anchor == data_expected)
      (runtime_error "_DATA contribution mismatch" (data_anchor ∷ data_expected ∷ []))
  visible ← visible_bss_anchor bases placements table objects
  (name, predicted, expected) ← or_error (runtime_error "no map-visible _BSS symbol" []) visible
  guard (predicted == expected)
      (runtime_error "_BSS contribution mismatch" (predicted ∷ expected ∷ []))
  found ← target_addresses bases placements table tasks targets
  text ← or_error (key_error "_TEXT") (find_key bytes_eq text_segment placements)
  near ← dgroup_base group
  check_near (record {
    text_base = text;
    group_base = near;
    target_list = found;
    bss_anchor_name = name;
    bss_anchor_address = predicted;
  })

unfoldable pub resolve_layout :
    List (ℕ × ℕ × Bytes)
    → List (Bytes × ℕ × ℕ)
    → Result (List OmfObject)
    → (List OmfObject → Option OmfObject)
    → Option (ℕ × ℕ)
    → Result FreeRtos75Layout
unfolding from_wlink_map segment_bases lay_out
resolve_layout symbol_matches segment_matches read_objects find_tasks group = do
  table ← from_wlink_map symbol_matches
  placements ← segment_bases segment_matches
  objects ← read_objects
  tasks ← or_error (value_error "tasks object is not part of link script" []) (find_tasks objects)
  lay_out table placements objects tasks group
