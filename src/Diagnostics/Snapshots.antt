-- ===== src/Diagnostics/Snapshots.antt =====
-- Which snapshots are accepted.
use mathlib.Core.Path.{subst}
use pi86_rp.Common.Bits.{bit_and-le, bit_and-255}
use pi86_rp.Common.{
  ℕ, ◌-◌, ◌^◌, ◌≤◌, ◌<◌, bit_and, ◌≡◌, refl, ◌⊎◌, inl, inr, true, false, not, ◌&&◌, ◌||◌, [], ◌∷◌,
  arith, ◌==◌, le→leb, eq→==, Bool-cases, elem, has_flag, length, >>=-eq-ok, guard-eq-ok,
  ok_injective, ok,
}
use pi86_rp.Struct.{Fields, size, pack, unpack}
use pi86_rp.Struct.RoundTrip.{length-pack, unpack-pack}
use pi86_rp.Protocol.{type_diagnostics_result, status_ok, Message}
use pi86_rp.Timeout.{thirteen_words, any_nonzero}
use pi86_rp.Diagnostics.{
  completion_reasons, diagnostics_cycle_valid, diagnostics_data_valid, workload_id_format,
  check_cycle, check_snapshot, diagnostics_from_reply, BusDiagnostics,
}

-- A bus cycle in range if the flags claim one, and data only with a cycle.
abbrev pub CycleRange : BusDiagnostics → Type 0
CycleRange d =
    ((has_flag d.flags diagnostics_cycle_valid ≡ true)
      × (d.cycle_type ≤ 5)
      × (d.last_address < 2 ^ 20)
      × (d.lanes ≤ 3))
    ⊎ ((has_flag d.flags diagnostics_cycle_valid ≡ false)
        × (has_flag d.flags diagnostics_data_valid ≡ false))

-- A snapshot of a stopped executor: a terminal state with a known reason and known flags, a bus
-- cycle in range if the flags claim one, and data only with a cycle.
pub record IsSnapshot (d : BusDiagnostics) : Type 0 where
  pub workload : 0 < d.workload_id
  pub stopped : (4 ≤ d.lifecycle) × (d.lifecycle ≤ 7)
  pub reason : d.completion_reason ≤ 6
  pub known_flags : d.flags < 256
  pub cycle : CycleRange d
  pub word : d.last_data < 65536

byte_flags : (f : ℕ) → f - bit_and f 255 ≡ 0 → f < 256
byte_flags f h = omega (arith, bit_and-le f 255)

check_cycle_sound : (d : BusDiagnostics) {u : Unit {0}} → check_cycle d ≡ ok u → CycleRange d
unfolding check_cycle
check_cycle_sound d h = elim (Bool-cases (has_flag d.flags diagnostics_cycle_valid)) [
  | inl e ↦ inl (ground arith)
  | inr e ↦ inr (ground arith)
]

check_cycle_complete : (d : BusDiagnostics) → CycleRange d → check_cycle d ≡ ok tt
unfolding check_cycle
check_cycle_complete d (inl (e, a, b, c)) = rw e (ground arith)
check_cycle_complete d (inr (e, a)) = rw (e, a) refl

check_snapshot_sound :
    (d : BusDiagnostics) (expected : ℕ) {u : Unit {0}}
    → check_snapshot d expected ≡ ok u
    → IsSnapshot d × ((expected ≡ 0) ⊎ (d.workload_id ≡ expected))
unfolding check_snapshot
check_snapshot_sound d expected h =
    let (a, h1) =
      guard-eq-ok
        (not ((d.workload_id == 0) || (not (expected == 0) && not (d.workload_id == expected)))) _ _
        h in
    let (b, h2) = guard-eq-ok (elem d.lifecycle (4 ∷ 5 ∷ 6 ∷ 7 ∷ [])) _ _ h1 in
    let (c, h3) =
      guard-eq-ok
        (elem d.completion_reason completion_reasons && (d.flags - bit_and d.flags 0xFF == 0)) _ _
        h2 in
    let (_, e, h4) = >>=-eq-ok (check_cycle d) _ h3 in
    let id : (0 < d.workload_id) × ((expected ≡ 0) ⊎ (d.workload_id ≡ expected)) = ground arith in
    (
      record {
        workload = id.0;
        stopped = ground arith;
        reason = ground arith;
        known_flags = ground (arith, byte_flags d.flags);
        cycle = check_cycle_sound d e;
        word = ground arith;
      },
      id.1,
    )

reason_known : (r : ℕ) → r ≤ 6 → elem r completion_reasons ≡ true
reason_known r h = ground arith

lifecycle_stopped : (l : ℕ) → 4 ≤ l → l ≤ 7 → elem l (4 ∷ 5 ∷ 6 ∷ 7 ∷ []) ≡ true
lifecycle_stopped l a b = ground arith

workload_named :
    (id expected : ℕ)
    → 0 < id
    → (expected ≡ 0) ⊎ (id ≡ expected)
    → not ((id == 0) || (not (expected == 0) && not (id == expected))) ≡ true
workload_named id expected a b = ground arith

check_snapshot_complete :
    (d : BusDiagnostics) (expected : ℕ)
    → IsSnapshot d
    → (expected ≡ 0) ⊎ (d.workload_id ≡ expected)
    → check_snapshot d expected ≡ ok tt
unfolding check_snapshot
check_snapshot_complete d expected s h =
    let f : d.flags - bit_and d.flags 255 ≡ 0 = omega (arith, bit_and-255 d.flags s.known_flags) in
    rw
      (
        workload_named d.workload_id expected s.workload h,
        lifecycle_stopped d.lifecycle s.stopped.0 s.stopped.1,
        reason_known d.completion_reason s.reason,
        f,
        check_cycle_complete d s.cycle,
        le→leb d.last_data 0xFFFF (omega arith),
      )
      refl

abbrev snapshot_of : Fields thirteen_words → BusDiagnostics
snapshot_of w =
    let r = w.1.1.1.1.1 in
    record {
      workload_id = w.0;
      boot_id = w.1.0;
      lifecycle = w.1.1.0;
      completion_reason = w.1.1.1.0;
      cycles = w.1.1.1.1.0;
      last_address = r.0;
      last_data = r.1.0;
      cycle_type = r.1.1.0;
      lanes = r.1.1.1.0;
      flags = r.1.1.1.1.0;
    }

-- A snapshot that is accepted comes from a reply with status 0 and the sequence of the request,
-- describes a stopped executor, and is that of the workload that the request names, if it names one.
diagnostics_from_reply_sound :
    (reply request : Message) (d : BusDiagnostics)
    → diagnostics_from_reply reply request ≡ ok d
    → (reply.message_type ≡ type_diagnostics_result)
      × (reply.sequence ≡ request.sequence)
      × (reply.status ≡ status_ok)
      × IsSnapshot d
      × (expected : ℕ) × (unpack workload_id_format request.payload ≡ ok (expected, tt))
      × ((expected ≡ 0) ⊎ (d.workload_id ≡ expected))
unfolding diagnostics_from_reply
diagnostics_from_reply_sound reply request d h =
    let (a, h1) =
      guard-eq-ok
        ((reply.message_type == type_diagnostics_result) && (reply.sequence == request.sequence)) _
        _ h in
    let (b, h2) = guard-eq-ok (reply.status == status_ok) _ _ h1 in
    let (_, h3) = guard-eq-ok (length reply.payload == size thirteen_words) _ _ h2 in
    let (w, u, h4) = >>=-eq-ok (unpack thirteen_words reply.payload) _ h3 in
    let (_, h5) =
      guard-eq-ok
        (not (
          any_nonzero (
            w.1.1.1.1.1.1.1.1.1.1.0 ∷ w.1.1.1.1.1.1.1.1.1.1.1.0 ∷ w.1.1.1.1.1.1.1.1.1.1.1.1.0
            ∷ [])))
        _ _ h4 in
    let (v, e, h6) = >>=-eq-ok (unpack workload_id_format request.payload) _ h5 in
    let (x, c, h7) = >>=-eq-ok (check_snapshot (snapshot_of w) v.0) _ h6 in
    let same : snapshot_of w ≡ d = ok_injective h7 in
    let (s, i) = check_snapshot_sound (snapshot_of w) v.0 c in
    (
      ground arith,
      ground arith,
      ground arith,
      subst IsSnapshot same s,
      v.0,
      e,
      subst (λ (y : BusDiagnostics). (v.0 ≡ 0) ⊎ (y.workload_id ≡ v.0)) same i,
    )

abbrev pub snapshot_fields : BusDiagnostics → Fields thirteen_words
snapshot_fields d = (
  d.workload_id,
  (
    d.boot_id,
    (
      d.lifecycle,
      (
        d.completion_reason,
        (
          d.cycles,
          (d.last_address, (d.last_data, (d.cycle_type, (d.lanes, (d.flags, (0, (0, (0, tt)))))))),
        ),
      ),
    ),
  ),
)

-- A snapshot of a stopped executor that a reply with status 0 carries is accepted, for a request
-- that names its workload and for one that names none.
pub diagnostics_from_reply_complete :
    (reply request : Message) (d : BusDiagnostics) (expected : ℕ)
    → reply.message_type ≡ type_diagnostics_result
    → reply.sequence ≡ request.sequence
    → reply.status ≡ status_ok
    → pack thirteen_words (snapshot_fields d) ≡ ok reply.payload
    → IsSnapshot d
    → unpack workload_id_format request.payload ≡ ok (expected, tt)
    → (expected ≡ 0) ⊎ (d.workload_id ≡ expected)
    → diagnostics_from_reply reply request ≡ ok d
unfolding diagnostics_from_reply
diagnostics_from_reply_complete reply request d expected a b c p s u w =
    rw
      (
        eq→== _ _ a,
        eq→== _ _ b,
        eq→== _ _ c,
        eq→== _ _ (length-pack thirteen_words (snapshot_fields d) p),
        unpack-pack thirteen_words (snapshot_fields d) p tt,
        u,
        check_snapshot_complete d expected s w,
      )
      refl
