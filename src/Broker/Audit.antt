-- ===== src/Broker/Audit.antt =====
-- The audit of workload controls keeps the newest entries.
use mathlib.Core.Path.{subst}
use pi86_rp.Common.{
  min, take, take-append-drop, ℕ, zero, suc, ◌-◌, ◌≤◌, String, ◌≡◌, refl, sym, ap, ◌∙◌, List, [],
  ◌∷◌, ◌++◌, append-nil, append_assoc, arith, length, drop, length-append, length-drop, drop-drop,
}
use pi86_rp.Broker.{
  control_audit_limit, trim, new_broker, record_control_audit, AuditEntry, DeviceBroker,
}

module _ {S : Type 0} where
  unfoldable pub record_entries : List AuditEntry → DeviceBroker S → DeviceBroker S
  record_entries [] b = b
  record_entries (e ∷ entries) b = record_entries entries (record_control_audit e b)

pub length-trim : (xs : List AuditEntry) → length (trim xs) ≤ control_audit_limit
length-trim xs = omega (arith, length-drop (length xs - control_audit_limit) xs)

drop_cong : {m n : ℕ} {xs ys : List AuditEntry} → m ≡ n → xs ≡ ys → drop m xs ≡ drop n ys
drop_cong h e = cc

trim_short : (xs : List AuditEntry) → length xs ≤ control_audit_limit → trim xs ≡ xs
trim_short xs h = drop_cong {n = 0} {xs = xs} (omega arith) refl

drop-append_le :
    (n : ℕ) (xs ys : List AuditEntry) → n ≤ length xs → drop n (xs ++ ys) ≡ drop n xs ++ ys
drop-append_le zero xs ys h = refl
drop-append_le (suc n) [] ys h = absurd (omega arith)
drop-append_le (suc n) (x ∷ xs) ys h = drop-append_le n xs ys (omega arith)

-- The last 16 of the entries, or all of them.
abbrev pub IsNewest : List AuditEntry → List AuditEntry → Type 0
IsNewest entries audit =
    (older : List AuditEntry) × (entries ≡ older ++ audit)
    × (length audit ≡ min (length entries) 16)

trim-IsNewest : (xs : List AuditEntry) → IsNewest xs (trim xs)
trim-IsNewest xs =
    let k = length xs - control_audit_limit in
    (take k xs, sym (take-append-drop k xs), omega (arith, length-drop k xs))

-- Trimming before an append changes nothing.
trim-append : (xs ys : List AuditEntry) → trim (trim xs ++ ys) ≡ trim (xs ++ ys)
trim-append xs ys =
    let k = length xs - control_audit_limit in
    let n = length (xs ++ ys) - control_audit_limit in
    drop_cong {n = n - k} {ys = drop k (xs ++ ys)}
      (omega (arith, length-append (trim xs) ys, length-append xs ys, length-drop k xs))
      (sym (drop-append_le k xs ys (omega arith)))
    ∙ drop-drop k (n - k) (xs ++ ys)
    ∙ drop_cong {n = n} {xs = xs ++ ys} (omega (arith, length-append xs ys)) refl

module _ {S : Type 0} where
  record_entries-audit :
      (entries : List AuditEntry) (b : DeviceBroker S)
      → length b.control_audit ≤ control_audit_limit
      → (record_entries entries b).control_audit ≡ trim (b.control_audit ++ entries)
  unfolding record_entries record_control_audit
  record_entries-audit [] b h =
      sym (ap trim (append-nil b.control_audit) ∙ trim_short b.control_audit h)
  record_entries-audit (e ∷ entries) b h =
      record_entries-audit entries (record_control_audit e b)
        (length-trim (b.control_audit ++ e ∷ []))
      ∙ trim-append (b.control_audit ++ e ∷ []) entries
      ∙ ap trim (append_assoc b.control_audit (e ∷ []) entries)

  record_entries-snapshot :
      (entries : List AuditEntry) (b : DeviceBroker S)
      → b.snapshot.control_audit ≡ b.control_audit
      → (record_entries entries b).snapshot.control_audit ≡ (record_entries entries b).control_audit
  unfolding record_entries record_control_audit
  record_entries-snapshot [] b h = h
  record_entries-snapshot (e ∷ entries) b h =
      record_entries-snapshot entries (record_control_audit e b) refl

  -- However many entries a new broker has recorded, its audit is the newest 16 of them, in their
  -- order, or all if they are fewer; and the audit in its snapshot is the same.
  pub record_entries-IsNewest :
      (device_id processor : String) (rest : S) (entries : List AuditEntry)
      → IsNewest entries
          (record_entries entries (new_broker device_id processor rest)).control_audit
        × ((record_entries entries (new_broker device_id processor rest)).snapshot.control_audit
            ≡ (record_entries entries (new_broker device_id processor rest)).control_audit)
  unfolding new_broker
  record_entries-IsNewest device_id processor rest entries =
      let b : DeviceBroker S = new_broker device_id processor rest in
      (
        subst (IsNewest entries) (sym (record_entries-audit entries b (omega arith)))
            (trim-IsNewest entries),
        record_entries-snapshot entries b refl,
      )
