-- ===== src/Broker/Discovery/Distinct.antt =====
-- No two of the brokers that are discovered agree, and the one that is selected is the only one.
use mathlib.Core.Path.{subst}
use package.text.Mathlib.Text.{◌==◌ as str_eq}
use pi86_rp.Common.{
  String, ◌≡◌, refl, ap, inl, inr, true, false, some, List, [], ◌∷◌, ◌++◌, Bool-cases, All,
  All-append, >>=-eq-ok, ok_injective, Result, ok, err,
}
use pi86_rp.Broker.Discovery.{
  from_dict, Found, same_identity, is_seen, is_answer, is_skipped, try_file, skip_errors,
  discover_loop, discover_brokers, matches, choose, select_broker, BrokerRecord,
}

-- Records without two of one identity.
abbrev IsDistinct : List BrokerRecord → Type 0
IsDistinct [] = Unit {0}
IsDistinct (r ∷ records) = All (λ q. same_identity q r ≡ false) records × IsDistinct records

IsDistinct-append :
    (records : List BrokerRecord) (r : BrokerRecord)
    → IsDistinct records
    → is_seen r records ≡ false
    → IsDistinct (records ++ r ∷ [])
unfolding is_seen
IsDistinct-append [] r d h = (tt, tt)
IsDistinct-append (q ∷ records) r (new, d) h = elim (Bool-cases (same_identity r q)) [
  | inl same ↦ cc (rw same at h)
  | inr other ↦ (
    All-append (λ q'. same_identity q' q ≡ false) records (r ∷ []) new (other, tt),
    IsDistinct-append records r d (rw other at h),
  )
]

try_file-IsDistinct :
    (records : List BrokerRecord) (f : Found) {after : List BrokerRecord}
    → IsDistinct records
    → try_file records f ≡ ok after
    → IsDistinct after
unfolding try_file
try_file-IsDistinct records (file, reply) d h =
    let (entry, e, h1) = >>=-eq-ok file _ h in
    let (r, e', h2) = >>=-eq-ok (from_dict entry) _ h1 in
    elim (Bool-cases (is_seen r records)) [
      | inl old ↦ subst IsDistinct (ok_injective (rw old at h2)) d
      | inr new ↦
          let (answer, e'', h3) = >>=-eq-ok reply _ (rw new at h2) in
          elim (Bool-cases (is_answer r answer)) [
            | inl its ↦
                subst IsDistinct (ok_injective (rw its at h3)) (IsDistinct-append records r d new)
            | inr other ↦ subst IsDistinct (ok_injective (rw other at h3)) d
          ]
    ]

skip_errors-IsDistinct :
    (records : List BrokerRecord) (r : Result (List BrokerRecord)) {after : List BrokerRecord}
    → IsDistinct records
    → ((found : List BrokerRecord) → r ≡ ok found → IsDistinct found)
    → skip_errors records r ≡ ok after
    → IsDistinct after
unfolding skip_errors
skip_errors-IsDistinct records (ok found) d f h = subst IsDistinct (ok_injective h) (f found refl)
skip_errors-IsDistinct records (err e) d f h = elim (Bool-cases (is_skipped e)) [
  | inl skipped ↦ subst IsDistinct (ok_injective (rw skipped at h)) d
  | inr raised ↦ cc (rw raised at h)
]

discover_loop-IsDistinct :
    (files : List Found) (records : List BrokerRecord) {after : List BrokerRecord}
    → IsDistinct records
    → discover_loop records files ≡ ok after
    → IsDistinct after
unfolding discover_loop
discover_loop-IsDistinct [] records d h = subst IsDistinct (ok_injective h) d
discover_loop-IsDistinct (f ∷ files) records d h =
    let (found, e, h1) =
      >>=-eq-ok (skip_errors records (try_file records f)) (λ after. discover_loop after files) h in
    discover_loop-IsDistinct files found
      (skip_errors-IsDistinct records (try_file records f) d
        (λ g e'. try_file-IsDistinct records f d e') e)
      h1

-- The brokers that are discovered have distinct identities: no two agree in the device and the port.
discover_brokers-IsDistinct :
    (files : List Found) {records : List BrokerRecord}
    → discover_brokers files ≡ ok records
    → IsDistinct records
unfolding discover_brokers
discover_brokers-IsDistinct files h = discover_loop-IsDistinct files [] tt h

-- No record of the list has this device.
abbrev IsAbsent : String → List BrokerRecord → Type 0
IsAbsent device_id = All (λ r. str_eq r.device_id device_id ≡ false)

matches-nil :
    (device_id : String) (records : List BrokerRecord)
    → matches device_id records ≡ []
    → IsAbsent device_id records
unfolding matches
matches-nil device_id [] h = tt
matches-nil device_id (r ∷ records) h = elim (Bool-cases (str_eq r.device_id device_id)) [
  | inl same ↦ cc (rw same at h)
  | inr other ↦ (other, matches-nil device_id records (rw other at h))
]

-- The one record of a device, and what stands before and behind it.
abbrev IsOnly : String → BrokerRecord → List BrokerRecord → Type 0
IsOnly device_id r records =
    (before : List BrokerRecord) × (behind : List BrokerRecord) × (records ≡ before ++ r ∷ behind)
    × (str_eq r.device_id device_id ≡ true)
    × IsAbsent device_id before
    × IsAbsent device_id behind

matches-one :
    (device_id : String) (records : List BrokerRecord) (r : BrokerRecord)
    → matches device_id records ≡ r ∷ []
    → IsOnly device_id r records
unfolding matches
matches-one device_id [] r h = cc
matches-one device_id (q ∷ records) r h = elim (Bool-cases (str_eq q.device_id device_id)) [
  | inl same ↦
      let e : q ∷ matches device_id records ≡ r ∷ [] = rw same at h in
      let found : q ≡ r = cc in
      (
        [],
        records,
        cc,
        subst (λ (x : BrokerRecord). str_eq x.device_id device_id ≡ true) found same,
        tt,
        matches-nil device_id records (cc),
      )
  | inr other ↦
      let (before, behind, e, same, absent, rest) =
        matches-one device_id records r (rw other at h) in
      (q ∷ before, behind, ap (λ t. q ∷ t) e, same, (other, absent), rest)
]

choose-some :
    (records : List BrokerRecord) {r : BrokerRecord}
    → choose records ≡ ok (some r)
    → records ≡ r ∷ []
unfolding choose
choose-some [] h = cc
choose-some (q ∷ []) h = cc
choose-some (q ∷ p ∷ records) h = cc

-- A broker that is selected for a device is the only one of its records with that device.
select_broker-IsOnly :
    (records : List BrokerRecord) (device_id : String) {r : BrokerRecord}
    → str_eq device_id "" ≡ false
    → select_broker records (some device_id) ≡ ok (some r)
    → IsOnly device_id r records
unfolding select_broker
select_broker-IsOnly records device_id {r} named h =
    matches-one device_id records r (choose-some (matches device_id records) (rw named at h))
