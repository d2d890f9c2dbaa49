-- ===== src/Runtime/Status.antt =====
-- The status payload, and what an update keeps.
use pi86_rp.Common.{
  ◌-◌, ◌≤◌, ◌≡◌, refl, sym, ◌⊎◌, inl, inr, true, arith, leb, ◌==◌, leb→le, le→leb, ==→eq, eq→==,
  Bool-cases, Bytes, length, take, replicate, ljust, length-take, take-append_exact, length-ljust,
  raises_value_error, Result, ok, err,
}
use pi86_rp.Struct.{Fields, pack, unpack}
use pi86_rp.Struct.RoundTrip.{length-pack, unpack-pack, unpack-IsExact}
use pi86_rp.Runtime.{status_format, update_from_payload, WorkloadRuntimeState}

-- The columns of a status, with the output in its 16 bytes.
abbrev pub state_fields : WorkloadRuntimeState → Fields status_format
state_fields s = (
  s.workload_id,
  (
    s.lifecycle,
    (
      s.detail,
      (
        s.clock_mode,
        (
          s.cycles,
          (
            s.processor_flags,
            (
              s.result_flags,
              (
                s.completion_reason,
                (s.processor_signature, (length s.native_output, (ljust 16 s.native_output, tt))),
              ),
            ),
          ),
        ),
      ),
    ),
  ),
)

fits_column : (output : Bytes) → length output ≤ 16 → length output ≤ length (ljust 16 output)
fits_column output h = omega (arith, length-ljust 16 output h)

-- The state that the columns spell.
abbrev state_of : Fields status_format → WorkloadRuntimeState
state_of v =
    let w = v.1.1.1.1.1 in
    let x = w.1.1.1.1 in
    record {
      workload_id = v.0;
      lifecycle = v.1.0;
      detail = v.1.1.0;
      clock_mode = v.1.1.1.0;
      cycles = v.1.1.1.1.0;
      processor_flags = w.0;
      result_flags = w.1.0;
      completion_reason = w.1.1.0;
      processor_signature = w.1.1.1.0;
      native_output = take x.0 x.1.0;
      structured_result = true;
    }

output_bound :
    (v : Fields status_format)
    → v.1.1.1.1.1.1.1.1.1.0 ≤ length v.1.1.1.1.1.1.1.1.1.1.0
    → length v.1.1.1.1.1.1.1.1.1.1.0 ≡ 16
    → length (state_of v).native_output ≤ 16
output_bound v h e = omega (arith, length-take v.1.1.1.1.1.1.1.1.1.0 v.1.1.1.1.1.1.1.1.1.1.0)

decoded :
    (old : WorkloadRuntimeState) (payload : Bytes) (r : Result (Fields status_format))
    → (length payload == 52) ≡ true
    → unpack status_format payload ≡ r
    → ((s : WorkloadRuntimeState) × (update_from_payload old payload ≡ ok s)
        × (length payload ≡ 52)
        × (length s.native_output ≤ 16))
      ⊎ (raises_value_error (update_from_payload old payload) ≡ true)
unfolding update_from_payload
decoded old payload (err x) e u = absurd (unfold unpack in cc (rw e at u))
decoded old payload (ok v) e u =
    let w = v.1.1.1.1.1.1.1.1.1 in
    elim (Bool-cases (leb w.0 (length w.1.0))) [
      | inl fit ↦ inl (
        state_of v,
        rw (e, u, fit) refl,
        ==→eq _ _ e,
        output_bound v (leb→le _ _ fit) (unpack-IsExact status_format payload u).0,
      )
      | inr big ↦ inr (rw (e, u, big) refl)
    ]

-- A status payload that was packed from a structured state with at most 16 bytes of output is
-- read back, whatever the Host knew before.
update_from_payload-pack :
    (old s : WorkloadRuntimeState) (payload : Bytes)
    → s.structured_result ≡ true
    → length s.native_output ≤ 16
    → pack status_format (state_fields s) ≡ ok payload
    → update_from_payload old payload ≡ ok s
unfolding update_from_payload
update_from_payload-pack old s payload r l p =
    rw
      (
        eq→== _ _ (length-pack status_format (state_fields s) p),
        unpack-pack status_format (state_fields s) p (length-ljust 16 s.native_output l, tt),
        le→leb _ _ (fits_column s.native_output l),
        take-append_exact (length s.native_output) s.native_output
            (replicate (16 - length s.native_output) 0) refl,
      )
      (λ i. ok (record s { structured_result = sym r i }))

-- An update returns a state with at most 16 bytes of output, of a payload of 52 bytes, or raises a
-- `ValueError`; it raises nothing else.
pub update_from_payload_cases :
    (old : WorkloadRuntimeState) (payload : Bytes)
    → ((s : WorkloadRuntimeState) × (update_from_payload old payload ≡ ok s)
        × (length payload ≡ 52)
        × (length s.native_output ≤ 16))
      ⊎ (raises_value_error (update_from_payload old payload) ≡ true)
update_from_payload_cases old payload = elim (Bool-cases (length payload == 52)) [
  | inl e ↦ decoded old payload (unpack status_format payload) e refl
  | inr e ↦ inr (unfold update_from_payload in rw e refl)
]
