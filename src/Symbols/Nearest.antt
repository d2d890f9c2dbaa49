-- ===== src/Symbols/Nearest.antt =====
-- What `resolve` finds among the symbols that a table was made of.
use mathlib.Core.List.{Mem, mem-cons_of_mem, mem-cons_self}
use pi86_rp.Common.{
  ℕ, ◌+◌, ◌-◌, ◌≤◌, ◌<◌, ◌≡◌, refl, ◌⊎◌, inl, inr, true, false, Option, none, some, List, [], ◌∷◌,
  arith, leb, leb→le, Bool-cases, Bytes, All, Result, ok,
}
use pi86_rp.Omf.{item_at}
use pi86_rp.Symbols.{
  symbol_le, insert_symbol, sorted, new_table, bisect_right, addresses, named_at, resolve, Symbol,
}

All-Mem : {P : Symbol → Type 0} (xs : List Symbol) → ((x : Symbol) → Mem x xs → P x) → All P xs
All-Mem [] f = tt
All-Mem (x ∷ xs) f = (f x mem-cons_self, All-Mem xs (λ y m. f y (mem-cons_of_mem x m)))

All-apply :
    {P Q : Symbol → Type 0} (xs : List Symbol) → ((x : Symbol) → P x → Q x) → All P xs → All Q xs
All-apply [] f h = tt
All-apply (x ∷ xs) f (h, rest) = (f x h, All-apply xs f rest)

-- Sorting keeps what holds of all symbols, both ways.
module _ (P : Symbol → Type 0) where
  All-insert : (s : Symbol) (xs : List Symbol) → P s → All P xs → All P (insert_symbol s xs)
  unfolding insert_symbol
  All-insert s [] p h = (p, tt)
  All-insert s (t ∷ xs) p (q, h) = elim (Bool-cases (symbol_le s t)) [
    | inl before ↦ rw before (p, (q, h))
    | inr behind ↦ rw behind (q, All-insert s xs p h)
  ]

  insert-All : (s : Symbol) (xs : List Symbol) → All P (insert_symbol s xs) → P s × All P xs
  unfolding insert_symbol
  insert-All s [] (p, h) = (p, tt)
  insert-All s (t ∷ xs) h = elim (Bool-cases (symbol_le s t)) [
    | inl before ↦ (rw before at h)
    | inr behind ↦
        let (q, rest) = (rw behind at h) in let (p, more) = insert-All s xs rest in (p, (q, more))
  ]

  All-sorted : (xs : List Symbol) → All P xs → All P (sorted xs)
  unfolding sorted
  All-sorted [] h = tt
  All-sorted (x ∷ xs) (p, h) = All-insert x (sorted xs) p (All-sorted xs h)

  sorted-All : (xs : List Symbol) → All P (sorted xs) → All P xs
  unfolding sorted
  sorted-All [] h = tt
  sorted-All (x ∷ xs) h = let (p, rest) = insert-All x (sorted xs) h in (p, sorted-All xs rest)

IsAscending : List Symbol → Type 0
IsAscending [] = Unit
IsAscending (s ∷ xs) = All (λ t. s.address ≤ t.address) xs × IsAscending xs

symbol_le_cases :
    (s t : Symbol)
    → ((symbol_le s t ≡ true) × (s.address ≤ t.address))
      ⊎ ((symbol_le s t ≡ false) × (t.address ≤ s.address))
unfolding symbol_le
symbol_le_cases s t = elim (Bool-cases (symbol_le s t)) [
  | inl before ↦ inl (before, ground arith)
  | inr behind ↦ inr (behind, ground arith)
]

insert-IsAscending :
    (s : Symbol) (xs : List Symbol) → IsAscending xs → IsAscending (insert_symbol s xs)
unfolding insert_symbol IsAscending
insert-IsAscending s [] h = (tt, tt)
insert-IsAscending s (t ∷ xs) (below, h) = elim (symbol_le_cases s t) [
  | inl (before, le) ↦
      rw before ((le, All-apply xs (λ u b. omega (arith, le, b)) below), (below, h))
  | inr (behind, le) ↦
      rw behind (All-insert (λ u. t.address ≤ u.address) s xs le below, insert-IsAscending s xs h)
]

sorted-IsAscending : (xs : List Symbol) → IsAscending (sorted xs)
unfolding sorted IsAscending
sorted-IsAscending [] = tt
sorted-IsAscending (x ∷ xs) = insert-IsAscending x (sorted xs) (sorted-IsAscending xs)

-- No symbol at or before `a` is behind `s`.
abbrev IsLast : ℕ → Symbol → List Symbol → Type 0
IsLast a s xs = All (λ u. u.address ≤ a → u.address ≤ s.address) xs

-- The last of the symbols at or before an address, with what holds of all of them.
record Latest (a : ℕ) (xs : List Symbol) (r : Result Symbol) : Type 1 where
  found : Symbol
  answered : r ≡ ok found
  reached : found.address ≤ a
  last : IsLast a found xs
  keeps : (P : Symbol → Type 0) → All P xs → P found

latest :
    (a : ℕ) (x : Symbol) (xs : List Symbol)
    → x.address ≤ a
    → IsAscending (x ∷ xs)
    → Latest a (x ∷ xs) (item_at (x ∷ xs) (bisect_right (addresses xs) a))
unfolding bisect_right item_at IsAscending
latest a x [] le h = record {
  found = x;
  answered = refl;
  reached = le;
  last = (λ b. omega arith, tt);
  keeps = λ P q. q.0;
}
latest a x (y ∷ xs) le ((x_y, below), h) = elim (Bool-cases (leb y.address a)) [
  | inl at_most ↦
      let y_le = leb→le y.address a at_most in
      let l = latest a y xs y_le h in
      let beyond : y.address ≤ l.found.address = l.last.0 y_le in
      rw at_most (record {
        found = l.found;
        answered = l.answered;
        reached = l.reached;
        last = (λ b. omega (arith, x_y, beyond), l.last);
        keeps = λ P q. l.keeps P q.1;
      })
  | inr above ↦
      let far : a < y.address = ground (arith, above) in
      rw above (record {
        found = x;
        answered = refl;
        reached = le;
        last = (
          λ b. omega arith,
          (λ b. omega (arith, far, b), All-apply xs (λ u b c. omega (arith, far, b, c)) h.0),
        );
        keeps = λ P q. q.0;
      })
]

-- What a name says of an address, among symbols in any order.
abbrev pub IsNearest : List Symbol → ℕ → Option (Bytes × ℕ) → Type 0
IsNearest xs a none = All (λ u. a < u.address) xs
IsNearest xs a (some (name, delta)) =
    (s : Symbol) × Mem s xs × (s.name ≡ name) × (s.address + delta ≡ a) × IsLast a s xs

resolve_ascending :
    (a : ℕ) (xs : List Symbol) (ys : List Symbol)
    → IsAscending ys
    → ((P : Symbol → Type 0) → All P xs → All P ys)
    → ((P : Symbol → Type 0) → All P ys → All P xs)
    → (r : Option (Bytes × ℕ)) × (named_at ys a (bisect_right (addresses ys) a) ≡ ok r)
      × IsNearest xs a r
unfolding named_at bisect_right IsAscending
resolve_ascending a xs [] h there back = (none, refl, back (λ u. a < u.address) tt)
resolve_ascending a xs (y ∷ ys) h there back = elim (Bool-cases (leb y.address a)) [
  | inl at_most ↦
      let l = latest a y ys (leb→le y.address a at_most) h in
      let m = l.keeps (λ u. Mem u xs) (there (λ u. Mem u xs) (All-Mem xs (λ u m. m))) in
      (
        some (l.found.name, a - l.found.address),
        rw (at_most, l.answered) refl,
        (l.found, m, refl, omega (arith, l.reached), back _ l.last),
      )
  | inr above ↦
      let far : a < y.address = ground (arith, above) in
      (
        none,
        rw above refl,
        back (λ u. a < u.address) (far, All-apply ys (λ u b. omega (arith, far, b)) h.0),
      )
]

-- Whatever the symbols and their order, `resolve` raises nothing. It gives the name of one of them
-- and the distance behind it, and no symbol at or before the address is nearer; it gives no name
-- only if the address is before all of them.
pub resolve-IsNearest :
    (symbols : List Symbol) (a : ℕ)
    → (r : Option (Bytes × ℕ)) × (resolve (new_table symbols) a ≡ ok r) × IsNearest symbols a r
unfolding resolve new_table
resolve-IsNearest symbols a =
    resolve_ascending a symbols (sorted symbols) (sorted-IsAscending symbols)
      (λ P. All-sorted P symbols) (λ P. sorted-All P symbols)
