-- ===== src/Loader.antt =====
-- tools/ia16_lab/loader.py: a workload file as the binary laboratory loads it. Reading the file is
-- not modelled: its bytes are an argument.
use pi86_rp.Common.{
  ℕ, ◌+◌, ◌*◌, ◌<◌, String, ◌≡◌, sym, not, ◌&&◌, [], arith, leb, Bytes, guard, ◌>>=◌, ◌>>◌,
  guard-eq-ok, ok_injective, value_error, Result, ok,
}
use pi86_rp.Workload.{decode_workload_file, WorkloadManifest}

pub record LoadedWorkload : Type 0 where
  pub path : String
  pub manifest : WorkloadManifest
  pub image : Bytes

unfoldable pub linear_address : ℕ → ℕ → Result ℕ
linear_address segment offset = do
  guard (leb segment 0xFFFF && leb offset 0xFFFF)
      (value_error "segment and offset must be 16-bit values" [])
  let address = segment * 16 + offset
  guard (not (leb 0x100000 address))
      (value_error "segment:offset is outside the 20-bit address space" [])
  ok address

unfoldable pub entry_linear : LoadedWorkload → Result ℕ
unfolding linear_address
entry_linear w = linear_address w.manifest.entry_segment w.manifest.entry_offset

unfoldable pub stack_linear : LoadedWorkload → Result ℕ
unfolding linear_address
stack_linear w = linear_address w.manifest.stack_segment w.manifest.stack_offset

unfoldable pub load_p86w : String → Bytes → Result LoadedWorkload
load_p86w path content = do
  (manifest, image) ← decode_workload_file content
  ok (record { path = path; manifest = manifest; image = image })

-- An address that is computed is the sum, and one of the 20-bit space.
linear_address_sound :
    (segment offset : ℕ) {address : ℕ}
    → linear_address segment offset ≡ ok address
    → (address ≡ segment * 16 + offset) × (address < 0x100000)
unfolding linear_address
linear_address_sound segment offset h =
    let (words, h2) = guard-eq-ok (leb segment 0xFFFF && leb offset 0xFFFF) _ _ h in
    let (small, h3) = guard-eq-ok (not (leb 0x100000 (segment * 16 + offset))) _ _ h2 in
    let same = ok_injective h3 in (sym same, ground arith)
