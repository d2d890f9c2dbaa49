-- ===== src/Timeout/Replies.antt =====
-- Which execution limits are accepted.
use pi86_rp.Common.{
  ℕ, ◌^◌, ◌≤◌, ◌<◌, ◌≡◌, refl, ◌≢◌, ◌⊎◌, inl, inr, true, false, not, ◌&&◌, none, some, List, [],
  ◌∷◌, arith, ◌==◌, le→leb, eq→==, Bool-cases, length, >>=-eq-ok, guard-eq-ok, ok_injective, ok,
}
use mathlib.Core.Path.{subst}
use pi86_rp.Struct.{Fields, size, fits, layout, pack, unpack}
use pi86_rp.Struct.RoundTrip.{length-layout, pack-fits, length-pack, unpack-pack}
use pi86_rp.Protocol.{
  type_workload_timeout_request, type_workload_timeout_result, status_ok, message, Message,
}
use pi86_rp.Protocol.Records.{IsWire}
use pi86_rp.Timeout.{
  workload_timeout_get, workload_timeout_set, workload_timeout_max_ms, timeout_request_format,
  thirteen_words, timeout_request, is_inconsistent, any_nonzero, timeout_from_reply,
  WorkloadTimeout,
}

-- A limit that RP2350 can report: in range, with time remaining only while armed, and armed only
-- with a limit for a workload of a boot.
pub record IsConsistent (t : WorkloadTimeout) : Type 0 where
  pub limit : t.timeout_ms ≤ workload_timeout_max_ms
  pub remaining : t.remaining_ms ≤ t.timeout_ms
  pub state :
      ((t.armed ≡ 0) × (t.remaining_ms ≡ 0))
      ⊎ ((t.armed ≡ 1) × (0 < t.timeout_ms) × (0 < t.workload_id) × (0 < t.boot_id))

IsConsistent-sound : (t : WorkloadTimeout) → is_inconsistent t ≡ false → IsConsistent t
unfolding is_inconsistent
IsConsistent-sound t h = record {
  limit = ground arith;
  remaining = ground arith;
  state = elim (Bool-cases (t.armed == 0)) [
    | inl e ↦ inl (ground arith)
    | inr e ↦ inr (ground arith)
  ];
}

IsConsistent-complete : (t : WorkloadTimeout) → IsConsistent t → is_inconsistent t ≡ false
unfolding is_inconsistent
IsConsistent-complete t c = ground arith

-- A request for a limit in range, or for the limit in force, fits the wire and says which it is.
pub timeout_request_total :
    (timeout_ms sequence : ℕ)
    → timeout_ms ≤ workload_timeout_max_ms
    → sequence < 2 ^ 32
    → (set get : Message) × (timeout_request (some timeout_ms) sequence ≡ ok set)
      × (timeout_request none sequence ≡ ok get)
      × IsWire set
      × IsWire get
      × (unpack timeout_request_format set.payload ≡ ok (workload_timeout_set, (timeout_ms, tt)))
      × (unpack timeout_request_format get.payload ≡ ok (workload_timeout_get, (0, tt)))
unfolding timeout_request fits
timeout_request_total timeout_ms sequence h q =
    let v : Fields timeout_request_format = (workload_timeout_set, (timeout_ms, tt)) in
    let w : Fields timeout_request_format = (workload_timeout_get, (0, tt)) in
    let fv : fits timeout_request_format v ≡ true = ground arith in
    let p = pack-fits timeout_request_format v fv in
    let q' = pack-fits timeout_request_format w refl in
    (
      message type_workload_timeout_request sequence (layout timeout_request_format v),
      message type_workload_timeout_request sequence (layout timeout_request_format w),
      rw (le→leb timeout_ms workload_timeout_max_ms h, p) refl,
      rw q' refl,
      ground (arith, length-layout timeout_request_format v),
      ground (arith, length-layout timeout_request_format w),
      unpack-pack timeout_request_format v p tt,
      unpack-pack timeout_request_format w q' tt,
    )

-- The limit and the reserved columns of a status.
abbrev limit_of : Fields thirteen_words → WorkloadTimeout
limit_of w = record {
  timeout_ms = w.0;
  remaining_ms = w.1.0;
  workload_id = w.1.1.0;
  boot_id = w.1.1.1.0;
  armed = w.1.1.1.1.0;
}

abbrev reserved : Fields thirteen_words → List ℕ
reserved w =
    let r = w.1.1.1.1.1 in
    r.0 ∷ r.1.0 ∷ r.1.1.0 ∷ r.1.1.1.0 ∷ r.1.1.1.1.0 ∷ r.1.1.1.1.1.0 ∷ r.1.1.1.1.1.1.0
    ∷ r.1.1.1.1.1.1.1.0 ∷ []

applied :
    (v : Fields timeout_request_format) (limit : ℕ)
    → not ((v.0 == workload_timeout_set) && not (limit == v.1.0)) ≡ true
    → (v.0 ≢ workload_timeout_set) ⊎ (limit ≡ v.1.0)
applied v limit e = elim (Bool-cases (v.0 == workload_timeout_set)) [
  | inl s ↦ inr (ground arith)
  | inr s ↦ inl (ground arith)
]

applied_back :
    (v : Fields timeout_request_format) (limit : ℕ)
    → (v.0 ≢ workload_timeout_set) ⊎ (limit ≡ v.1.0)
    → not ((v.0 == workload_timeout_set) && not (limit == v.1.0)) ≡ true
applied_back v limit h = ground arith

-- A limit that is accepted comes from a reply with status 0 and the sequence of the request, is
-- consistent, and is the requested one if the request set it.
timeout_from_reply_sound :
    (reply request : Message) (t : WorkloadTimeout)
    → timeout_from_reply reply request ≡ ok t
    → (reply.message_type ≡ type_workload_timeout_result)
      × (reply.sequence ≡ request.sequence)
      × (reply.status ≡ status_ok)
      × IsConsistent t
      × (v : Fields timeout_request_format) × (unpack timeout_request_format request.payload ≡ ok v)
      × ((v.0 ≢ workload_timeout_set) ⊎ (t.timeout_ms ≡ v.1.0))
unfolding timeout_from_reply
timeout_from_reply_sound reply request t h =
    let (a, h1) =
      guard-eq-ok
        ((reply.message_type == type_workload_timeout_result)
          && (reply.sequence == request.sequence))
        _ _ h in
    let (b, h2) = guard-eq-ok (reply.status == status_ok) _ _ h1 in
    let (_, h3) = guard-eq-ok (length reply.payload == size thirteen_words) _ _ h2 in
    let (w, u, h4) = >>=-eq-ok (unpack thirteen_words reply.payload) _ h3 in
    let (_, h5) = guard-eq-ok (not (any_nonzero (reserved w))) _ _ h4 in
    let (c, h6) = guard-eq-ok (not (is_inconsistent (limit_of w))) _ _ h5 in
    let (v, d, h7) = >>=-eq-ok (unpack timeout_request_format request.payload) _ h6 in
    let (e, h8) =
      guard-eq-ok (not ((v.0 == workload_timeout_set) && not ((limit_of w).timeout_ms == v.1.0))) _
        _ h7 in
    let same : limit_of w ≡ t = ok_injective h8 in
    (
      ground arith,
      ground arith,
      ground arith,
      subst IsConsistent same (IsConsistent-sound (limit_of w) (ground arith)),
      v,
      d,
      subst (λ (x : WorkloadTimeout). (v.0 ≢ workload_timeout_set) ⊎ (x.timeout_ms ≡ v.1.0)) same
          (applied v (limit_of w).timeout_ms e),
    )

abbrev pub status_fields : WorkloadTimeout → Fields thirteen_words
status_fields t = (
  t.timeout_ms,
  (
    t.remaining_ms,
    (t.workload_id, (t.boot_id, (t.armed, (0, (0, (0, (0, (0, (0, (0, (0, tt))))))))))),
  ),
)

-- A consistent limit that a reply with status 0 carries is accepted, for a request that asked for
-- the limit and for one that set it to that value.
pub timeout_from_reply_complete :
    (reply request : Message) (t : WorkloadTimeout) (v : Fields timeout_request_format)
    → reply.message_type ≡ type_workload_timeout_result
    → reply.sequence ≡ request.sequence
    → reply.status ≡ status_ok
    → pack thirteen_words (status_fields t) ≡ ok reply.payload
    → IsConsistent t
    → unpack timeout_request_format request.payload ≡ ok v
    → (v.0 ≢ workload_timeout_set) ⊎ (t.timeout_ms ≡ v.1.0)
    → timeout_from_reply reply request ≡ ok t
unfolding timeout_from_reply
timeout_from_reply_complete reply request t v a b c p k u w =
    rw
      (
        eq→== _ _ a,
        eq→== _ _ b,
        eq→== _ _ c,
        eq→== _ _ (length-pack thirteen_words (status_fields t) p),
        unpack-pack thirteen_words (status_fields t) p tt,
        IsConsistent-complete t k,
        u,
        applied_back v t.timeout_ms w,
      )
      refl
