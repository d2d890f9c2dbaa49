-- ===== src/Workload.antt =====
-- host/rp86/workload.py: the P86W manifest and file, upload and control records, status payloads.
use pi86_rp.Common.{
  ℕ, ◌+◌, ◌-◌, ◌*◌, bit_and, bit_or, Bool, not, ◌&&◌, [], ◌∷◌, ◌++◌, ltb, leb, ◌==◌, if◌then◌else◌,
  has_flag, Bytes, length, take, drop, ◌>>=◌, ◌>>◌, guard, value_error, Result, ok,
}
use pi86_rp.Struct.{Format, Fields, size, pack, unpack, unsigned, pad}
use pi86_rp.Crc.{crc32}
pub mod Valid
pub mod Files
pub mod Upload
pub mod Options

abbrev pub workload_magic : ℕ
workload_magic = 0x57363850

abbrev pub workload_format_version : ℕ
workload_format_version = 1

abbrev pub processor_address_space_size : ℕ
processor_address_space_size = 0x100000

abbrev pub flag_persistent : ℕ
flag_persistent = 1

abbrev pub flag_stdio : ℕ
flag_stdio = 2

abbrev pub flag_shared_memory : ℕ
flag_shared_memory = 4

abbrev pub flag_clock_free_running : ℕ
flag_clock_free_running = 8

abbrev pub flag_clock_stepped : ℕ
flag_clock_stepped = 16

abbrev pub flag_periodic_tick : ℕ
flag_periodic_tick = 32

-- "<IHHIIIHHHHIII"
abbrev pub manifest_format : Format
manifest_format =
    unsigned 4
    ∷ unsigned 2
    ∷ unsigned 2
    ∷ unsigned 4
    ∷ unsigned 4
    ∷ unsigned 4
    ∷ unsigned 2
    ∷ unsigned 2
    ∷ unsigned 2
    ∷ unsigned 2
    ∷ unsigned 4
    ∷ unsigned 4
    ∷ unsigned 4
    ∷ []

-- "<I"
abbrev pub begin_prefix : Format
begin_prefix = unsigned 4 ∷ []

-- "<II"
abbrev pub data_prefix : Format
data_prefix = unsigned 4 ∷ unsigned 4 ∷ []

-- "<II"
abbrev pub commit_format : Format
commit_format = unsigned 4 ∷ unsigned 4 ∷ []

-- "<B3xI"
abbrev pub control_format : Format
control_format = unsigned 1 ∷ pad 3 ∷ unsigned 4 ∷ []

abbrev pub manifest_size : ℕ
manifest_size = size manifest_format

abbrev pub data_bytes : ℕ
data_bytes = 52 - size data_prefix

-- `_linear`
unfoldable pub linear : ℕ → ℕ → Result ℕ
linear segment offset = do
  guard (leb segment 0xFFFF && leb offset 0xFFFF)
      (value_error "segment and offset must be 16-bit values" [])
  let address = segment * 16 + offset
  guard (ltb address processor_address_space_size)
      (value_error "segment:offset is outside the 20-bit processor address space" [])
  ok address

pub record WorkloadManifest : Type 0 where
  pub image_size : ℕ
  pub image_crc32 : ℕ
  pub load_address : ℕ
  pub entry_segment : ℕ
  pub entry_offset : ℕ
  pub stack_segment : ℕ
  pub stack_offset : ℕ
  pub shared_base : ℕ
  pub shared_size : ℕ
  pub flags : ℕ

-- The image and its entry point.
unfoldable pub check_image : WorkloadManifest → Result (Unit {0})
unfolding linear
check_image m = do
  guard (ltb 0 m.image_size) (value_error "workload image is empty" [])
  guard (leb m.image_crc32 0xFFFFFFFF) (value_error "image CRC is not a 32-bit value" [])
  guard (ltb m.load_address processor_address_space_size)
      (value_error "load address is outside the 20-bit processor address space" [])
  let image_end = m.load_address + m.image_size
  guard (leb image_end processor_address_space_size)
      (value_error "workload image crosses the 20-bit processor address-space limit" [])
  entry ← linear m.entry_segment m.entry_offset
  guard (leb m.load_address entry && ltb entry image_end)
      (value_error "entry point is outside the workload image" [])
  _ ← linear m.stack_segment m.stack_offset
  ok tt

-- The shared-memory range, on both branches of `if self.shared_size`.
unfoldable pub check_shared : WorkloadManifest → Result (Unit {0})
check_shared m =
    if m.shared_size == 0
    then guard ((m.shared_base == 0) && not (has_flag m.flags flag_shared_memory))
        (value_error "shared-memory flag, base, and size are inconsistent" [])
    else do
      guard (ltb m.shared_base processor_address_space_size)
          (value_error "shared-memory base is outside the 20-bit processor address space" [])
      guard (leb (m.shared_base + m.shared_size) processor_address_space_size)
          (value_error "shared-memory range crosses the 20-bit processor address-space limit" [])
      guard (has_flag m.flags flag_shared_memory)
          (value_error "shared-memory range requires FLAG_SHARED_MEMORY" [])
      ok tt

-- The flags. Of a number, `flags & ~known_flags` is what its known bits leave.
unfoldable pub check_flags : WorkloadManifest → Result (Unit {0})
check_flags m = do
  let known_flags = bit_or flag_persistent (
      bit_or flag_stdio (
        bit_or flag_shared_memory
          (bit_or flag_clock_free_running (bit_or flag_clock_stepped flag_periodic_tick))))
  guard (m.flags - bit_and m.flags known_flags == 0) (value_error "workload uses unknown flags" [])
  guard (not (has_flag m.flags flag_clock_free_running && has_flag m.flags flag_clock_stepped))
      (value_error "workload requests two execution clock modes" [])
  guard (not (has_flag m.flags flag_periodic_tick && not (has_flag m.flags flag_clock_stepped)))
      (value_error "periodic tick currently requires clock-stepped execution" [])
  ok tt

unfoldable pub validated : WorkloadManifest → Result WorkloadManifest
unfolding check_image check_shared check_flags
validated m = do check_image m; check_shared m; check_flags m; ok m

unfoldable pub for_image : Bytes → ℕ → ℕ × ℕ → ℕ × ℕ → ℕ → Result WorkloadManifest
unfolding validated
for_image image load_address (entry_segment, entry_offset) (stack_segment, stack_offset) flags =
    validated (record {
      image_size = length image;
      image_crc32 = crc32 image;
      load_address = load_address;
      entry_segment = entry_segment;
      entry_offset = entry_offset;
      stack_segment = stack_segment;
      stack_offset = stack_offset;
      shared_base = 0;
      shared_size = 0;
      flags = flags;
    })

abbrev pub manifest_fields : WorkloadManifest → Fields manifest_format
manifest_fields m = (
  workload_magic,
  (
    workload_format_version,
    (
      manifest_size,
      (
        m.image_size,
        (
          m.image_crc32,
          (
            m.load_address,
            (
              m.entry_segment,
              (
                m.entry_offset,
                (
                  m.stack_segment,
                  (m.stack_offset, (m.shared_base, (m.shared_size, (m.flags, tt)))),
                ),
              ),
            ),
          ),
        ),
      ),
    ),
  ),
)

unfoldable pub encode_manifest : WorkloadManifest → Result Bytes
encode_manifest m = do _ ← validated m; pack manifest_format (manifest_fields m)

unfoldable pub decode_manifest : Bytes → Result WorkloadManifest
decode_manifest encoded = do
  guard (length encoded == manifest_size) (value_error "workload manifest has the wrong size" [])
  (
    magic,
    (
      version,
      (
        header_size,
        (
          image_size,
          (
            image_crc32,
            (
              load_address,
              (
                entry_segment,
                (
                  entry_offset,
                  (stack_segment, (stack_offset, (shared_base, (shared_size, (flags, _))))),
                ),
              ),
            ),
          ),
        ),
      ),
    ),
  ) ←
      unpack manifest_format encoded
  guard
      ((magic == workload_magic)
        && (version == workload_format_version)
        && (header_size == manifest_size))
      (value_error "unsupported workload manifest" [])
  validated (record {
    image_size = image_size;
    image_crc32 = image_crc32;
    load_address = load_address;
    entry_segment = entry_segment;
    entry_offset = entry_offset;
    stack_segment = stack_segment;
    stack_offset = stack_offset;
    shared_base = shared_base;
    shared_size = shared_size;
    flags = flags;
  })

-- `len(image) == manifest.image_size and zlib.crc32(image) == manifest.image_crc32`
unfoldable pub image_matches : WorkloadManifest → Bytes → Bool
image_matches m image = (length image == m.image_size) && (crc32 image == m.image_crc32)

unfoldable pub encode_workload_file : WorkloadManifest → Bytes → Result Bytes
unfolding image_matches
encode_workload_file m image = do
  _ ← validated m
  guard (image_matches m image) (value_error "image does not match its workload manifest" [])
  header ← encode_manifest m
  ok (header ++ image)

unfoldable pub decode_workload_file : Bytes → Result (WorkloadManifest × Bytes)
unfolding image_matches
decode_workload_file encoded = do
  guard (leb manifest_size (length encoded)) (value_error "workload file is truncated" [])
  m ← decode_manifest (take manifest_size encoded)
  let image = drop manifest_size encoded
  guard (image_matches m image) (value_error "workload image size or CRC is invalid" [])
  ok (m, image)
