-- ===== src/Omf/Contributions.antt =====
-- `contribution_bases` of tools/ia16_lab/omf.py. A dictionary is an association list, whose entries
-- stand in the order of their first insertion.
use package.text.Mathlib.Text.{◌==◌ as str_eq}
use pi86_rp.Common.{
  ℕ, ◌+◌, ◌-◌, ◌*◌, ◌/◌, max, String, Bool, true, false, ◌&&◌, Option, none, some, List, [], ◌∷◌,
  ◌==◌, if◌then◌else◌, bytes_eq, Bytes,
}
use pi86_rp.Omf.{OmfSegment, OmfObject}
pub mod Placed

abbrev pub Key : Type 0
Key = Bytes × Bytes

abbrev pub key_eq : Key → Key → Bool
key_eq (name, class_name) (name', class_name') =
    bytes_eq name name' && bytes_eq class_name class_name'

abbrev pub path_eq : Option String → Option String → Bool
path_eq none none = true
path_eq (some a) (some b) = str_eq a b
path_eq _ _ = false

abbrev pub BaseKey : Type 0
BaseKey = Option String × Bytes

abbrev pub base_key_eq : BaseKey → BaseKey → Bool
base_key_eq (path, name) (path', name') = path_eq path path' && bytes_eq name name'

module _ {K : Type 0} (eq : K → K → Bool) where
  -- `d.get(key, 0)`
  unfoldable pub get_zero : K → List (K × ℕ) → ℕ
  get_zero key [] = 0
  get_zero key ((k, v) ∷ d) = if eq k key then v else get_zero key d

  -- `d[key] = value`
  unfoldable pub insert : K → ℕ → List (K × ℕ) → List (K × ℕ)
  insert key value [] = (key, value) ∷ []
  insert key value ((k, v) ∷ d) = if eq k key then (k, value) ∷ d else (k, v) ∷ insert key value d

pub record Cursors : Type 0 where
  pub cursors : List (Key × ℕ)
  pub bases : List (BaseKey × ℕ)

abbrev pub no_cursors : Cursors
no_cursors = record { cursors = []; bases = [] }

abbrev pub segment_key : OmfSegment → Key
segment_key s = (s.name, s.class_name)

-- `(cursor + alignment - 1) // alignment * alignment`, for `alignment = max(segment.alignment, 1)`
unfoldable pub aligned_cursor : ℕ → ℕ → ℕ
aligned_cursor alignment cursor = (cursor + max alignment 1 - 1) / max alignment 1 * max alignment 1

unfoldable pub place_segment : Option String → Cursors → OmfSegment → Cursors
unfolding get_zero insert aligned_cursor
place_segment path c s =
    let cursor = aligned_cursor s.alignment (get_zero key_eq (segment_key s) c.cursors) in
    record {
      cursors = insert key_eq (segment_key s) (cursor + s.length_bytes) c.cursors;
      bases = insert base_key_eq (path, s.name) cursor c.bases;
    }

unfoldable pub place_segments : Option String → Cursors → List OmfSegment → Cursors
unfolding place_segment
place_segments path c [] = c
place_segments path c (s ∷ segments) = place_segments path (place_segment path c s) segments

unfoldable pub place_objects : Cursors → List OmfObject → Cursors
unfolding place_segments
place_objects c [] = c
place_objects c (object ∷ objects) =
    place_objects (place_segments object.path c object.segments) objects

unfoldable pub contribution_bases : List OmfObject → List (BaseKey × ℕ)
unfolding place_objects
contribution_bases objects = (place_objects no_cursors objects).bases
