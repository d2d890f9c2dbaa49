-- ===== src/Workload/Valid.antt =====
-- Which manifests are accepted, and that they survive encoding.
use pi86_rp.Common.Bits.{bit_and-le, bit_and-63}
use pi86_rp.Common.{
  ℕ, ◌+◌, ◌-◌, ◌*◌, ◌^◌, ◌≤◌, ◌<◌, bit_and, ◌≡◌, ◌⊎◌, inl, inr, true, false, not, ◌&&◌, arith, ◌==◌,
  Bool-cases, has_flag, >>=-eq-ok, raises_value_error, ok,
}
use pi86_rp.Workload.{
  processor_address_space_size, flag_shared_memory, flag_clock_free_running, flag_clock_stepped,
  flag_periodic_tick, linear, check_image, check_shared, check_flags, validated, WorkloadManifest,
}

-- The shared-memory range lies in the address space and is flagged, or there is none.
abbrev pub SharedRange : WorkloadManifest → Type 0
SharedRange m =
    ((m.shared_size ≡ 0) × (m.shared_base ≡ 0) × (has_flag m.flags flag_shared_memory ≡ false))
    ⊎ ((0 < m.shared_size)
        × (m.shared_base + m.shared_size ≤ processor_address_space_size)
        × (has_flag m.flags flag_shared_memory ≡ true))

-- What the manifest of a runnable workload promises.
pub record IsValid (m : WorkloadManifest) : Type 0 where
  pub nonempty : 0 < m.image_size
  pub crc_range : m.image_crc32 < 2 ^ 32
  pub in_space : m.load_address + m.image_size ≤ processor_address_space_size
  pub entry_words : (m.entry_segment < 65536) × (m.entry_offset < 65536)
  pub entry_inside : m.load_address ≤ m.entry_segment * 16 + m.entry_offset
  pub entry_before_end : m.entry_segment * 16 + m.entry_offset < m.load_address + m.image_size
  pub stack_words : (m.stack_segment < 65536) × (m.stack_offset < 65536)
  pub stack_inside : m.stack_segment * 16 + m.stack_offset < processor_address_space_size
  pub shared : SharedRange m
  pub known_flags : m.flags < 64
  pub one_clock :
      (has_flag m.flags flag_clock_free_running && has_flag m.flags flag_clock_stepped) ≡ false
  pub tick_stepped :
      (has_flag m.flags flag_periodic_tick && not (has_flag m.flags flag_clock_stepped)) ≡ false

known_flags_lt : (f : ℕ) → f - bit_and f 63 ≡ 0 → f < 64
known_flags_lt f h = omega (arith, bit_and-le f 63)

-- Acceptance, part by part.
check_image_sound :
    (m : WorkloadManifest) {u : Unit {0}}
    → check_image m ≡ ok u
    → (0 < m.image_size)
      × (m.image_crc32 < 2 ^ 32)
      × (m.load_address + m.image_size ≤ processor_address_space_size)
      × (m.entry_segment < 65536)
      × (m.entry_offset < 65536)
      × (m.load_address ≤ m.entry_segment * 16 + m.entry_offset)
      × (m.entry_segment * 16 + m.entry_offset < m.load_address + m.image_size)
      × (m.stack_segment < 65536)
      × (m.stack_offset < 65536)
      × (m.stack_segment * 16 + m.stack_offset < processor_address_space_size)
unfolding check_image linear
check_image_sound m h = ground arith

check_shared_sound : (m : WorkloadManifest) {u : Unit {0}} → check_shared m ≡ ok u → SharedRange m
unfolding check_shared
check_shared_sound m h = elim (Bool-cases (m.shared_size == 0)) [
  | inl e ↦ inl (ground arith)
  | inr e ↦ inr (ground arith)
]

check_flags_sound :
    (m : WorkloadManifest) {u : Unit {0}}
    → check_flags m ≡ ok u
    → (m.flags < 64)
      × ((has_flag m.flags flag_clock_free_running && has_flag m.flags flag_clock_stepped) ≡ false)
      × ((has_flag m.flags flag_periodic_tick && not (has_flag m.flags flag_clock_stepped)) ≡ false)
unfolding check_flags
check_flags_sound m h = ground (arith, known_flags_lt m.flags)

-- A manifest that is accepted is returned as it is, and is valid.
pub validated_sound : (m m' : WorkloadManifest) → validated m ≡ ok m' → (m' ≡ m) × IsValid m
unfolding validated
validated_sound m m' h =
    let (u, a, h1) = >>=-eq-ok (check_image m) _ h in
    let (v, b, h2) = >>=-eq-ok (check_shared m) _ h1 in
    let (w, c, h3) = >>=-eq-ok (check_flags m) _ h2 in
    (
      ground arith,
      ground (arith, check_image_sound m a, check_shared_sound m b, check_flags_sound m c),
    )

-- A valid manifest is accepted.
pub validated_complete : (m : WorkloadManifest) → IsValid m → validated m ≡ ok m
unfolding validated check_image check_shared check_flags linear
validated_complete m v = ground (arith, bit_and-63 m.flags v.known_flags)

check_image_cases :
    (m : WorkloadManifest) → (check_image m ≡ ok tt) ⊎ (raises_value_error (check_image m) ≡ true)
unfolding check_image linear
check_image_cases m = ground arith

check_shared_cases :
    (m : WorkloadManifest) → (check_shared m ≡ ok tt) ⊎ (raises_value_error (check_shared m) ≡ true)
unfolding check_shared
check_shared_cases m = elim (Bool-cases (m.shared_size == 0)) [
  | inl e ↦ rw e (ground arith)
  | inr e ↦ rw e (ground arith)
]

check_flags_cases :
    (m : WorkloadManifest) → (check_flags m ≡ ok tt) ⊎ (raises_value_error (check_flags m) ≡ true)
unfolding check_flags
check_flags_cases m = ground arith

validated_cases :
    (m : WorkloadManifest) → (validated m ≡ ok m) ⊎ (raises_value_error (validated m) ≡ true)
unfolding validated
validated_cases m = ground (arith, check_image_cases m, check_shared_cases m, check_flags_cases m)

-- What is not accepted is refused by a `ValueError`.
pub validated_refuses :
    (m : WorkloadManifest) → ¬ (IsValid m) → raises_value_error (validated m) ≡ true
validated_refuses m n = elim (validated_cases m) [
  | inl e ↦ absurd (n (validated_sound m m e).1)
  | inr e ↦ e
]
