-- ===== src/Omf/Contributions/Placed.antt =====
-- Where the contributions to a segment are placed.
use mathlib.Core.Path.{subst}
use native.Mathlib.Nat.{le_trans, lt-div-mul-add, mul-mod_left}
use pi86_rp.Common.{
  ℕ, ◌+◌, ◌-◌, ◌/◌, ◌%◌, ◌≤◌, max, String, ◌≡◌, refl, sym, ap, ◌∙◌, ◌⊎◌, inl, inr, true, false,
  Option, List, [], ◌∷◌, ◌++◌, map, arith, Bool-cases, bytes_eq→eq, bytes_eq_refl, All,
}
use pi86_rp.Omf.{OmfSegment, OmfObject}
use pi86_rp.Omf.Contributions.{
  Key, key_eq, BaseKey, base_key_eq, get_zero, insert, no_cursors, segment_key, aligned_cursor,
  place_segment, place_segments, place_objects, contribution_bases, Cursors,
}

-- A segment of an object, and the offset that it is given.
pub record Placement : Type 0 where
  pub path : Option String
  pub segment : OmfSegment
  pub base : ℕ

-- The contributions, in the order of the two loops.
unfoldable pub contributions : List OmfObject → List (Option String × OmfSegment)
contributions [] = []
contributions (object ∷ objects) =
    map (λ s. (object.path, s)) object.segments ++ contributions objects

abbrev pub contribution : Placement → Option String × OmfSegment
contribution p = (p.path, p.segment)

-- What the loops write to `bases`.
unfoldable pub written_bases : List Placement → List (BaseKey × ℕ) → List (BaseKey × ℕ)
written_bases [] bases = bases
written_bases (p ∷ placements) bases =
    written_bases placements (insert base_key_eq (p.path, p.segment.name) p.base bases)

abbrev pub IsAligned : Placement → Type 0
IsAligned p = p.base % max p.segment.alignment 1 ≡ 0

-- `later` belongs to another segment, or begins behind the end of `p`.
abbrev pub IsBehind : Placement → Placement → Type 0
IsBehind p later =
    (key_eq (segment_key later.segment) (segment_key p.segment) ≡ false)
    ⊎ (p.base + p.segment.length_bytes ≤ later.base)

-- No two of them overlap in a segment, and they come in order.
abbrev pub IsLaidOut : List Placement → Type 0
IsLaidOut [] = Unit {0}
IsLaidOut (p ∷ placements) = All (IsBehind p) placements × IsLaidOut placements

place_one : List (Key × ℕ) → Option String × OmfSegment → Placement
place_one cursors (path, s) = record {
  path = path;
  segment = s;
  base = aligned_cursor s.alignment (get_zero key_eq (segment_key s) cursors);
}

moved : List (Key × ℕ) → Placement → List (Key × ℕ)
moved cursors p = insert key_eq (segment_key p.segment) (p.base + p.segment.length_bytes) cursors

placements_from : List (Key × ℕ) → List (Option String × OmfSegment) → List Placement
placements_from cursors [] = []
placements_from cursors (c ∷ rest) =
    let p = place_one cursors c in p ∷ placements_from (moved cursors p) rest

key_eq→eq : (k l : Key) → key_eq k l ≡ true → k ≡ l
key_eq→eq (a, b) (c, d) h = ground (arith, bytes_eq→eq a c, bytes_eq→eq b d)

key_eq_refl : (k : Key) → key_eq k k ≡ true
key_eq_refl (a, b) = ground (arith, bytes_eq_refl a, bytes_eq_refl b)

-- A write that does not go back lowers no cursor.
get_zero-insert :
    (k l : Key) (v : ℕ) (d : List (Key × ℕ))
    → get_zero key_eq l d ≤ v
    → get_zero key_eq k d ≤ get_zero key_eq k (insert key_eq l v d)
unfolding get_zero insert
get_zero-insert k l v [] h = omega arith
get_zero-insert k l v ((j, w) ∷ d) h = elim (Bool-cases (key_eq j l)) [
  | inl here ↦ elim (Bool-cases (key_eq j k)) [
    | inl same ↦ rw (here, same) (rw here at h)
    | inr other ↦ rw (here, other) (omega arith)
  ]
  | inr later ↦ elim (Bool-cases (key_eq j k)) [
    | inl same ↦ rw (later, same) (omega arith)
    | inr other ↦ rw (later, other) (get_zero-insert k l v d (rw later at h))
  ]
]

get_zero-insert_self :
    (k : Key) (v : ℕ) (d : List (Key × ℕ)) → get_zero key_eq k (insert key_eq k v d) ≡ v
unfolding get_zero insert
get_zero-insert_self k v [] = rw (key_eq_refl k) refl
get_zero-insert_self k v ((j, w) ∷ d) = elim (Bool-cases (key_eq j k)) [
  | inl here ↦ rw (here, here) refl
  | inr later ↦ rw (later, later) (get_zero-insert_self k v d)
]

aligned_cursor_ge : (a c : ℕ) → c ≤ aligned_cursor a c
unfolding aligned_cursor
aligned_cursor_ge a c =
    omega (arith, lt-div-mul-add {a = c + max a 1 - 1} {b = max a 1} (omega arith))

aligned_cursor-mod : (a c : ℕ) → aligned_cursor a c % max a 1 ≡ 0
unfolding aligned_cursor
aligned_cursor-mod a c = mul-mod_left ((c + max a 1 - 1) / max a 1) (max a 1)

All-mono {ℓ} :
    {A : Type ℓ} {P Q : A → Type 0} (xs : List A) → ((x : A) → P x → Q x) → All P xs → All Q xs
All-mono [] f h = tt
All-mono (x ∷ xs) f (h, rest) = (f x h, All-mono xs f rest)

-- No segment is placed below its cursor.
IsAbove : List (Key × ℕ) → Placement → Type 0
IsAbove cursors q = get_zero key_eq (segment_key q.segment) cursors ≤ q.base

placements_from-IsAbove :
    (cs : List (Option String × OmfSegment)) (cursors : List (Key × ℕ))
    → All (IsAbove cursors) (placements_from cursors cs)
unfolding placements_from IsAbove place_one moved
placements_from-IsAbove [] cursors = tt
placements_from-IsAbove (c ∷ rest) cursors =
    let p = place_one cursors c in
    let above = aligned_cursor_ge c.1.alignment (get_zero key_eq (segment_key c.1) cursors) in
    (
      above,
      All-mono (placements_from (moved cursors p) rest)
          (λ q h.
            le_trans
              (get_zero-insert (segment_key q.segment) (segment_key c.1) _ cursors
                (omega (arith, above)))
              h)
          (placements_from-IsAbove rest (moved cursors p)),
    )

IsAbove-IsBehind :
    (cursors : List (Key × ℕ)) (p q : Placement) → IsAbove (moved cursors p) q → IsBehind p q
unfolding IsAbove moved
IsAbove-IsBehind cursors p q h =
    elim (Bool-cases (key_eq (segment_key q.segment) (segment_key p.segment))) [
      | inl same ↦ inr (
          subst (λ v. v ≤ q.base)
            (ap (λ k. get_zero key_eq k (moved cursors p)) (key_eq→eq _ _ same)
              ∙ get_zero-insert_self (segment_key p.segment) _ cursors)
            h)
      | inr other ↦ inl other
    ]

placements_from-IsLaidOut :
    (cs : List (Option String × OmfSegment)) (cursors : List (Key × ℕ))
    → IsLaidOut (placements_from cursors cs)
unfolding placements_from
placements_from-IsLaidOut [] cursors = tt
placements_from-IsLaidOut (c ∷ rest) cursors =
    let p = place_one cursors c in
    (
      All-mono (placements_from (moved cursors p) rest) (IsAbove-IsBehind cursors p)
          (placements_from-IsAbove rest (moved cursors p)),
      placements_from-IsLaidOut rest (moved cursors p),
    )

placements_from-IsAligned :
    (cs : List (Option String × OmfSegment)) (cursors : List (Key × ℕ))
    → All IsAligned (placements_from cursors cs)
unfolding placements_from place_one
placements_from-IsAligned [] cursors = tt
placements_from-IsAligned (c ∷ rest) cursors =
    (aligned_cursor-mod c.1.alignment _, placements_from-IsAligned rest _)

map-contribution :
    (cs : List (Option String × OmfSegment)) (cursors : List (Key × ℕ))
    → map contribution (placements_from cursors cs) ≡ cs
unfolding placements_from place_one
map-contribution [] cursors = refl
map-contribution (c ∷ rest) cursors = ap (λ t. c ∷ t) (map-contribution rest _)

-- The cursors behind all contributions.
cursors_after : List (Key × ℕ) → List (Option String × OmfSegment) → List (Key × ℕ)
cursors_after cursors [] = cursors
cursors_after cursors (c ∷ rest) = cursors_after (moved cursors (place_one cursors c)) rest

written : Cursors → List (Option String × OmfSegment) → Cursors
written c cs = record {
  cursors = cursors_after c.cursors cs;
  bases = written_bases (placements_from c.cursors cs) c.bases;
}

written-append :
    (cs ds : List (Option String × OmfSegment)) (c : Cursors)
    → written c (cs ++ ds) ≡ written (written c cs) ds
unfolding written cursors_after placements_from written_bases
written-append [] ds c = refl
written-append (d ∷ cs) ds c = written-append cs ds (written c (d ∷ []))

place_segments-written :
    (path : Option String) (segments : List OmfSegment) (c : Cursors)
    → place_segments path c segments ≡ written c (map (λ s. (path, s)) segments)
unfolding place_segments written cursors_after placements_from written_bases place_one moved
place_segments-written path [] c = refl
place_segments-written path (s ∷ segments) c =
    place_segments-written path segments (place_segment path c s)

place_objects-written :
    (objects : List OmfObject) (c : Cursors)
    → place_objects c objects ≡ written c (contributions objects)
unfolding place_objects contributions written cursors_after placements_from written_bases
place_objects-written [] c = refl
place_objects-written (object ∷ objects) c =
    place_objects-written objects (place_segments object.path c object.segments)
    ∙ ap (λ d. written d (contributions objects))
        (place_segments-written object.path object.segments c)
    ∙ sym (written-append (map (λ s. (object.path, s)) object.segments) (contributions objects) c)

-- The bases are those of a placement of every contribution, in the order of the objects and of
-- their segments. A base is a multiple of the contribution's alignment, and behind the end of every
-- earlier contribution to the segment of that name and class.
pub contribution_bases-IsLaidOut :
    (objects : List OmfObject)
    → (placements : List Placement) × (map contribution placements ≡ contributions objects)
      × (contribution_bases objects ≡ written_bases placements [])
      × All IsAligned placements
      × IsLaidOut placements
unfolding contribution_bases written
contribution_bases-IsLaidOut objects =
    let cs = contributions objects in
    (
      placements_from [] cs,
      map-contribution cs [],
      ap (λ c. c.bases) (place_objects-written objects no_cursors),
      placements_from-IsAligned cs [],
      placements_from-IsLaidOut cs [],
    )
