-- ===== src/Layout/Visible.antt =====
-- The anchor that is found among the symbols of the objects.
use mathlib.Core.Path.{subst}
use mathlib.Core.List.{Mem, mem-cons_of_mem, mem-cons_self}
use pi86_rp.Common.{
  ◌≡◌, refl, ap, ◌∙◌, inl, inr, Option, none, some, List, [], ◌∷◌, Bool-cases, bytes_eq,
  bytes_eq→eq, ascii, >>=-eq-ok, ok_injective, Result, ok,
}
use pi86_rp.Symbols.{by_name, Symbol, SymbolTable}
use pi86_rp.Omf.{OmfSymbol, OmfObject}
use pi86_rp.Layout.{
  bss_segment, Placements, Bases, linked_address, Anchor, seen_at, anchor_among, anchor_or,
  visible_bss_anchor,
}

-- A symbol of one of the objects stands in `_BSS`. The table has its name, and `predicted` is its
-- linked address; `expected` is its address in the table.
abbrev pub IsBssAnchor : Bases → Placements → SymbolTable → List OmfObject → Anchor → Type 0
IsBssAnchor bases placements table objects (name, predicted, expected) =
    (object : OmfObject) × (s : OmfSymbol) × (t : Symbol) × Mem object objects
    × Mem s object.symbols
    × (s.segment_name ≡ ascii "_BSS")
    × (s.name ≡ name)
    × (linked_address object name bases placements ≡ ok predicted)
    × (by_name name table.symbols ≡ some t)
    × (t.address ≡ expected)

module _ (bases : Bases) (placements : Placements) (table : SymbolTable) where
  -- The anchor is one of the symbols of an object that are still to be tried.
  abbrev IsAmong : OmfObject → List OmfSymbol → Anchor → Type 0
  IsAmong object symbols (name, predicted, expected) =
      (s : OmfSymbol) × (t : Symbol) × Mem s symbols
      × (s.segment_name ≡ ascii "_BSS")
      × (s.name ≡ name)
      × (linked_address object name bases placements ≡ ok predicted)
      × (by_name name table.symbols ≡ some t)
      × (t.address ≡ expected)

  IsAmong-later :
      (object : OmfObject) (s : OmfSymbol) (symbols : List OmfSymbol) {a : Anchor}
      → IsAmong object symbols a
      → IsAmong object (s ∷ symbols) a
  IsAmong-later object s symbols (u, t, m, b, n, k, f, e) =
      (u, t, mem-cons_of_mem s m, b, n, k, f, e)

  seen_at-IsAmong :
      (object : OmfObject) (s : OmfSymbol) (symbols : List OmfSymbol) (o : Option Symbol)
      (rest : Result (Option Anchor)) {a : Anchor}
      → s.segment_name ≡ ascii "_BSS"
      → by_name s.name table.symbols ≡ o
      → (rest ≡ ok (some a) → IsAmong object symbols a)
      → seen_at bases placements table object s.name o rest ≡ ok (some a)
      → IsAmong object (s ∷ symbols) a
  seen_at-IsAmong object s symbols none rest b e f h = IsAmong-later object s symbols (f h)
  seen_at-IsAmong object s symbols (some t) rest {a} b e f h =
      let (predicted, g, h1) = >>=-eq-ok (linked_address object s.name bases placements) _ h in
      let same : ◌≡◌ {A = Option Anchor} (some (s.name, predicted, t.address)) (some a) =
        ok_injective h1 in
      subst (IsAmong object (s ∷ symbols)) (some_injective same)
        (s, t, mem-cons_self, b, refl, g, e, refl)
    where
      some_or : Anchor → Option Anchor → Anchor
      some_or d none = d
      some_or d (some x) = x

      some_injective : {x y : Anchor} → ◌≡◌ {A = Option Anchor} (some x) (some y) → x ≡ y
      some_injective {x} p = ap (some_or x) p

  anchor_among-IsAmong :
      (object : OmfObject) (symbols : List OmfSymbol) {a : Anchor}
      → anchor_among bases placements table object symbols ≡ ok (some a)
      → IsAmong object symbols a
  unfolding anchor_among
  anchor_among-IsAmong object [] h = cc
  anchor_among-IsAmong object (s ∷ symbols) h =
      elim (Bool-cases (bytes_eq s.segment_name bss_segment)) [
        | inl bss ↦
            seen_at-IsAmong object s symbols (by_name s.name table.symbols)
              (anchor_among bases placements table object symbols)
              (bytes_eq→eq s.segment_name bss_segment bss) refl
              (λ e. anchor_among-IsAmong object symbols e) (rw bss at h)
        | inr other ↦
            IsAmong-later object s symbols (anchor_among-IsAmong object symbols (rw other at h))
      ]

  abbrev IsAnchor : List OmfObject → Anchor → Type 0
  IsAnchor objects a = IsBssAnchor bases placements table objects a

  IsAnchor-now :
      (object : OmfObject) (objects : List OmfObject) {a : Anchor}
      → IsAmong object object.symbols a
      → IsAnchor (object ∷ objects) a
  IsAnchor-now object objects (s, t, m, b, n, k, f, e) =
      (object, s, t, mem-cons_self, m, b, n, k, f, e)

  IsAnchor-later :
      (object : OmfObject) (objects : List OmfObject) {a : Anchor}
      → IsAnchor objects a
      → IsAnchor (object ∷ objects) a
  IsAnchor-later object objects (o, s, t, m, i, b, n, k, f, e) =
      (o, s, t, mem-cons_of_mem object m, i, b, n, k, f, e)

  anchor_or-IsAnchor :
      (object : OmfObject) (objects : List OmfObject) (rest : Result (Option Anchor))
      (o : Option Anchor) {a : Anchor}
      → (o ≡ some a → IsAmong object object.symbols a)
      → (rest ≡ ok (some a) → IsAnchor objects a)
      → anchor_or bases placements table rest o ≡ ok (some a)
      → IsAnchor (object ∷ objects) a
  anchor_or-IsAnchor object objects rest none f g h = IsAnchor-later object objects (g h)
  anchor_or-IsAnchor object objects rest (some b) f g h =
      IsAnchor-now object objects (f (ok_injective h))

  pub visible_bss_anchor-IsBssAnchor :
      (objects : List OmfObject) {a : Anchor}
      → visible_bss_anchor bases placements table objects ≡ ok (some a)
      → IsBssAnchor bases placements table objects a
  unfolding visible_bss_anchor
  visible_bss_anchor-IsBssAnchor [] h = cc
  visible_bss_anchor-IsBssAnchor (object ∷ objects) {a} h =
      let (o, e, h1) = >>=-eq-ok (anchor_among bases placements table object object.symbols) _ h in
      anchor_or-IsAnchor object objects (visible_bss_anchor bases placements table objects) o
        (λ s. anchor_among-IsAmong object object.symbols (e ∙ ap ok s))
        (λ k. visible_bss_anchor-IsBssAnchor objects k) h1
