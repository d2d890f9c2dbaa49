-- ===== src/Symbols.antt =====
-- tools/ia16_lab/symbols.py: the symbols of a linker map by name and by address. The matches of the
-- regular expression are an argument: two numbers and a name each. A name is the list of its
-- characters.
use pi86_rp.Common.{
  ℕ, zero, suc, ◌+◌, ◌-◌, ◌*◌, max, Bool, true, false, not, ◌&&◌, Option, none, some, List, [], ◌∷◌,
  map, ltb, leb, ◌==◌, if◌then◌else◌, bytes_eq, Bytes, ◌>>=◌, ◌>>◌, value_error, Result, ok, err,
}
use pi86_rp.Omf.{segment, item_at}
pub mod Nearest

pub record Symbol : Type 0 where
  pub address : ℕ
  pub name : Bytes

-- The order on texts, character by character.
unfoldable pub name_le : Bytes → Bytes → Bool
name_le [] n = true
name_le (c ∷ m) [] = false
name_le (c ∷ m) (d ∷ n) = let rest = name_le m n in if c == d then rest else ltb c d

-- The order of the fields: the address, then the name.
unfoldable pub symbol_le : Symbol → Symbol → Bool
unfolding name_le
symbol_le s t = if s.address == t.address then name_le s.name t.name else ltb s.address t.address

unfoldable pub insert_symbol : Symbol → List Symbol → List Symbol
unfolding symbol_le
insert_symbol s [] = s ∷ []
insert_symbol s (t ∷ symbols) =
    let rest = insert_symbol s symbols in if symbol_le s t then s ∷ t ∷ symbols else t ∷ rest

-- `sorted(symbols)`
unfoldable pub sorted : List Symbol → List Symbol
unfolding insert_symbol
sorted [] = []
sorted (s ∷ symbols) = insert_symbol s (sorted symbols)

-- The addresses and the look-up by name follow from the symbols.
pub record SymbolTable : Type 0 where
  pub symbols : List Symbol

unfoldable pub new_table : List Symbol → SymbolTable
unfolding sorted
new_table symbols = record { symbols = sorted symbols }

unfoldable pub matched_symbol : ℕ × ℕ × Bytes → Symbol
matched_symbol (segment, offset, name) = record { address = segment * 16 + offset; name = name }

unfoldable pub from_wlink_map : List (ℕ × ℕ × Bytes) → Result SymbolTable
unfolding new_table matched_symbol
from_wlink_map [] = err (value_error "WLINK map contains no segment:offset symbols" [])
from_wlink_map (found ∷ matches) = ok (new_table (map matched_symbol (found ∷ matches)))

abbrev pub later_or : Option Symbol → Symbol → Option Symbol
later_or none s = some s
later_or (some t) s = some t

-- `self._by_name.get(name)`: of the symbols with the name the last one.
unfoldable pub by_name : Bytes → List Symbol → Option Symbol
by_name name [] = none
by_name name (s ∷ symbols) =
    let rest = by_name name symbols in if bytes_eq s.name name then later_or rest s else rest

unfoldable pub address : SymbolTable → Bytes → Result ℕ
unfolding by_name
address t name = elim (by_name name t.symbols) [
  | none ↦ err (value_error "symbol not found" name)
  | some s ↦ ok s.address
]

-- `bisect_right` on sorted numbers.
unfoldable pub bisect_right : List ℕ → ℕ → ℕ
bisect_right [] a = 0
bisect_right (x ∷ xs) a = let rest = bisect_right xs a in if leb x a then suc rest else 0

abbrev pub addresses : List Symbol → List ℕ
addresses [] = []
addresses (s ∷ symbols) = s.address ∷ addresses symbols

-- The symbol in front of an index. No name comes of index 0.
unfoldable pub named_at : List Symbol → ℕ → ℕ → Result (Option (Bytes × ℕ))
unfolding item_at
named_at symbols a zero = ok none
named_at symbols a (suc i) = do s ← item_at symbols i; ok (some (s.name, a - s.address))

-- The name of an address: a symbol's, and how far behind it the address is.
unfoldable pub resolve : SymbolTable → ℕ → Result (Option (Bytes × ℕ))
unfolding bisect_right named_at
resolve t a = named_at t.symbols a (bisect_right (addresses t.symbols) a)

-- `self.symbols.index(symbol)`
unfoldable pub index_of : Symbol → List Symbol → ℕ
index_of s [] = 0
index_of s (t ∷ symbols) =
    let rest = index_of s symbols in
    if (s.address == t.address) && bytes_eq s.name t.name then 0 else suc rest

abbrev pub end_of : Symbol → Result Symbol → ℕ
end_of s (ok next) = next.address
end_of s (err e) = s.address + 1

unfoldable pub span : SymbolTable → Bytes → Result (ℕ × ℕ)
unfolding by_name index_of item_at
span t name = elim (by_name name t.symbols) [
  | none ↦ err (value_error "symbol not found" name)
  | some s ↦
      let next = item_at t.symbols (index_of s t.symbols + 1) in
      ok (s.address, max (s.address + 1) (end_of s next))
]
