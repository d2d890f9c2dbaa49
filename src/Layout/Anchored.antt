-- ===== src/Layout/Anchored.antt =====
-- What the tests of `resolve_layout` say of the addresses that it returns.
use mathlib.Core.Path.{subst}
use pi86_rp.Common.{
  ℕ, ◌+◌, ◌-◌, ◌≤◌, ◌≡◌, sym, ap, ◌∙◌, inl, inr, ◌&&◌, Option, none, some, List, [], ◌∷◌, arith,
  leb, ◌==◌, ==→eq, Bool-cases, bytes_eq, bytes_eq→eq, Bytes, All, guard-eq-ok, >>=-eq-ok,
  ok_injective, Error, Result, ok,
}
use pi86_rp.Symbols.{from_wlink_map, SymbolTable, address as map_address}
use pi86_rp.Omf.{symbol, OmfObject}
use pi86_rp.Omf.Contributions.{contribution_bases}
use pi86_rp.Layout.Visible.{IsBssAnchor, visible_bss_anchor-IsBssAnchor}
use pi86_rp.Layout.{
  task_create, ready_lists, suspended_list, current_tcb, targets, Placements, Bases, find_key,
  or_error, linked_address, text_segment, visible_bss_anchor, anchor_of, target_addresses,
  FreeRtos75Layout, layout_address, dgroup_offset, check_near, lay_out, resolve_layout,
  segment_bases, dgroup_base,
}

or_error-eq-ok : {A : Type 0} (e : Error) (o : Option A) {a : A} → or_error e o ≡ ok a → o ≡ some a
or_error-eq-ok e none h = cc
or_error-eq-ok e (some a) h = ap some (ok_injective h)

-- An offset from the group has 16 bits.
abbrev IsNear : FreeRtos75Layout → Bytes → Type 0
IsNear l name =
    (a : ℕ) × (layout_address l name ≡ ok a) × (l.group_base ≤ a) × (a ≤ l.group_base + 0xFFFF)

-- The layout agrees with the map.
pub record IsAnchored (table : SymbolTable) (placements : Placements) (objects : List OmfObject)
    (tasks : OmfObject) (group : Option (ℕ × ℕ)) (l : FreeRtos75Layout) : Type 0 where
  pub based : dgroup_base group ≡ ok l.group_base
  pub code :
      (a : ℕ) × (linked_address tasks task_create (contribution_bases objects) placements ≡ ok a)
      × (map_address table task_create ≡ ok a)
  pub current : layout_address l current_tcb ≡ map_address table current_tcb
  pub linked :
      (name : Bytes) (a : ℕ)
      → layout_address l name ≡ ok a
      → linked_address tasks name (contribution_bases objects) placements ≡ ok a
  pub near : All (IsNear l) (ready_lists ∷ suspended_list ∷ current_tcb ∷ [])
  pub anchor :
      IsBssAnchor
        (contribution_bases objects)
        placements
        table
        objects
        (l.bss_anchor_name, l.bss_anchor_address, l.bss_anchor_address)

dgroup_offset-IsNear :
    (l : FreeRtos75Layout) (name : Bytes) {n : ℕ} → dgroup_offset l name ≡ ok n → IsNear l name
unfolding dgroup_offset
dgroup_offset-IsNear l name h =
    let (a, e, h1) = >>=-eq-ok (layout_address l name) _ h in
    let (t, h2) = guard-eq-ok (leb l.group_base a && leb (a - l.group_base) 0xFFFF) _ _ h1 in
    (a, e, ground (arith, t), ground (arith, t))

check_near_sound :
    (l : FreeRtos75Layout) {m : FreeRtos75Layout}
    → check_near l ≡ ok m
    → (l ≡ m) × All (IsNear l) (ready_lists ∷ suspended_list ∷ current_tcb ∷ [])
unfolding check_near
check_near_sound l h =
    let (a, e, h1) = >>=-eq-ok (dgroup_offset l ready_lists) _ h in
    let (b, f, h2) = >>=-eq-ok (dgroup_offset l suspended_list) _ h1 in
    let (c, g, h3) = >>=-eq-ok (dgroup_offset l current_tcb) _ h2 in
    (
      ok_injective h3,
      (
        dgroup_offset-IsNear l ready_lists e,
        (dgroup_offset-IsNear l suspended_list f, (dgroup_offset-IsNear l current_tcb g, tt)),
      ),
    )

module _ (bases : Bases) (placements : Placements) (table : SymbolTable) where
  -- An address in the dictionary is the one that was linked.
  target_addresses-linked :
      (tasks : OmfObject) (names : List Bytes) (name : Bytes) {d : List (Bytes × ℕ)} {a : ℕ}
      → target_addresses bases placements table tasks names ≡ ok d
      → find_key bytes_eq name d ≡ some a
      → linked_address tasks name bases placements ≡ ok a
  unfolding target_addresses find_key
  target_addresses-linked tasks [] name {d} {a} h f =
      cc (subst (λ x. find_key bytes_eq name x ≡ some a) (sym (ok_injective h)) f)
  target_addresses-linked tasks (n ∷ names) name {d} {a} h f =
      let (s, e, h1) = >>=-eq-ok (or_error _ (symbol tasks n)) _ h in
      let (b, g, h2) = >>=-eq-ok (linked_address tasks n bases placements) _ h1 in
      let (rest, r, h3) = >>=-eq-ok (target_addresses bases placements table tasks names) _ h2 in
      let there : find_key bytes_eq name ((n, b) ∷ rest) ≡ some a =
        subst (λ x. find_key bytes_eq name x ≡ some a) (sym (ok_injective h3)) f in
      elim (Bool-cases (bytes_eq name n)) [
        | inl same ↦
            ap (λ x. linked_address tasks x bases placements) (bytes_eq→eq name n same)
            ∙ g
            ∙ cc (rw same at there)
        | inr other ↦ target_addresses-linked tasks names name r (rw other at there)
      ]

anchor_of-address :
    (bases : Bases) (placements : Placements) (table : SymbolTable) (tasks : OmfObject)
    (name : Bytes) {p : ℕ × ℕ}
    → anchor_of bases placements table tasks name ≡ ok p
    → (linked_address tasks name bases placements ≡ ok p.0) × (map_address table name ≡ ok p.1)
unfolding anchor_of
anchor_of-address bases placements table tasks name h =
    let (a, e, h1) = >>=-eq-ok (linked_address tasks name bases placements) _ h in
    let (b, f, h2) = >>=-eq-ok (map_address table name) _ h1 in
    let same = ok_injective h2 in (e ∙ ap ok (ap (λ q. q.0) same), f ∙ ap ok (ap (λ q. q.1) same))

lay_out-IsAnchored :
    (table : SymbolTable) (placements : Placements) (objects : List OmfObject) (tasks : OmfObject)
    (group : Option (ℕ × ℕ)) {l : FreeRtos75Layout}
    → lay_out table placements objects tasks group ≡ ok l
    → IsAnchored table placements objects tasks group l
unfolding lay_out
lay_out-IsAnchored table placements objects tasks group {l} h =
    let bases = contribution_bases objects in
    let (start, b, h1) = >>=-eq-ok (anchor_of bases placements table tasks task_create) _ h in
    let (pair, e, h2) = >>=-eq-ok (anchor_of bases placements table tasks current_tcb) _ h1 in
    let (begins, h3) = guard-eq-ok (start.0 == start.1) _ _ h2 in
    let (agree, h4) = guard-eq-ok (pair.0 == pair.1) _ _ h3 in
    let (o, v, h5) = >>=-eq-ok (visible_bss_anchor bases placements table objects) _ h4 in
    let (anchor, w, h6) = >>=-eq-ok (or_error _ o) _ h5 in
    let (bss, h7) = guard-eq-ok (anchor.1 == anchor.2) _ _ h6 in
    let (found, r, h8) = >>=-eq-ok (target_addresses bases placements table tasks targets) _ h7 in
    let (_, _, h9) = >>=-eq-ok (or_error _ (find_key bytes_eq text_segment placements)) _ h8 in
    let (_, based, h10) = >>=-eq-ok (dgroup_base group) _ h9 in
    let (same, near) = check_near_sound _ h10 in
    let (linked, mapped) = anchor_of-address bases placements table tasks current_tcb e in
    let (text_linked, text_mapped) = anchor_of-address bases placements table tasks task_create b in
    let (object, s, t, m, n, in_bss, named, at_predicted, found_name, there) =
      visible_bss_anchor-IsBssAnchor bases placements table objects
        (v ∙ ap ok (or_error-eq-ok _ o w)) in
    subst (IsAnchored table placements objects tasks group) same (record {
      based = based;
      code = (start.0, text_linked, text_mapped ∙ ap ok (sym (==→eq start.0 start.1 begins)));
      linked = λ name a at.
          target_addresses-linked bases placements table tasks targets name r
            (or_error-eq-ok _ _ at);
      current =
          let (a, at, _, _) = near.1.1.0 in
          at
          ∙ sym (
              target_addresses-linked bases placements table tasks targets current_tcb r
                (or_error-eq-ok _ _ at))
          ∙ linked
          ∙ ap ok (==→eq pair.0 pair.1 agree)
          ∙ sym mapped;
      near = near;
      anchor = (
        object,
        s,
        t,
        m,
        n,
        in_bss,
        named,
        at_predicted,
        found_name,
        there ∙ sym (==→eq anchor.1 anchor.2 bss),
      );
    })

-- A layout that is resolved agrees with the table that its symbols are from. `_xTaskCreate` and
-- `_pxCurrentTCB` of tasks.c are linked where the table has them. The anchor is a symbol in `_BSS` of
-- one of the objects, and its linked address is its address in the table and the layout's. Every
-- address of the layout is a linked address of tasks.c, and the three near pointers have 16-bit
-- offsets from the group.
pub resolve_layout-IsAnchored :
    (symbol_matches : List (ℕ × ℕ × Bytes)) (segment_matches : List (Bytes × ℕ × ℕ))
    (read_objects : Result (List OmfObject)) (find_tasks : List OmfObject → Option OmfObject)
    (group : Option (ℕ × ℕ)) {l : FreeRtos75Layout}
    → resolve_layout symbol_matches segment_matches read_objects find_tasks group ≡ ok l
    → (table : SymbolTable) × (placements : Placements) × (objects : List OmfObject)
      × (tasks : OmfObject) × (from_wlink_map symbol_matches ≡ ok table)
      × (segment_bases segment_matches ≡ ok placements)
      × (read_objects ≡ ok objects)
      × (find_tasks objects ≡ some tasks)
      × IsAnchored table placements objects tasks group l
unfolding resolve_layout
resolve_layout-IsAnchored symbol_matches segment_matches read_objects find_tasks group h =
    let (table, e, h1) = >>=-eq-ok (from_wlink_map symbol_matches) _ h in
    let (placements, f, h2) = >>=-eq-ok (segment_bases segment_matches) _ h1 in
    let (objects, g, h3) = >>=-eq-ok read_objects _ h2 in
    let (tasks, k, h4) = >>=-eq-ok (or_error _ (find_tasks objects)) _ h3 in
    (
      table,
      placements,
      objects,
      tasks,
      e,
      f,
      g,
      or_error-eq-ok _ (find_tasks objects) k,
      lay_out-IsAnchored table placements objects tasks group h4,
    )
