-- ===== src/Workload/Files.antt =====
-- The manifest and the workload file are read back as they were written.
use pi86_rp.Common.{
  ◌≡◌, refl, sym, ap, ◌∙◌, true, ◌&&◌, ◌++◌, arith, leb, ◌==◌, le→leb, eq→==, Bytes, length, take,
  drop, IsByte, IsBytes, length-append, take-append-drop, take-append_exact, drop-append_exact,
  All-take, >>=-eq-ok, guard-eq-ok, ok,
}
use mathlib.Core.Path.{subst}
use pi86_rp.Struct.{Fields, fits, layout, pack, unpack}
use pi86_rp.Struct.RoundTrip.{length-layout, pack-fits, length-pack, unpack-pack, pack-unpack}
use pi86_rp.Crc.{crc32}
use pi86_rp.Workload.{
  workload_magic, workload_format_version, manifest_format, manifest_size, validated,
  manifest_fields, encode_manifest, decode_manifest, image_matches, encode_workload_file,
  decode_workload_file, WorkloadManifest,
}
use pi86_rp.Workload.Valid.{validated_sound, validated_complete, IsValid}

manifest_fits : (m : WorkloadManifest) → IsValid m → fits manifest_format (manifest_fields m) ≡ true
unfolding fits
manifest_fits m v = ground arith

decode_manifest-pack :
    (m : WorkloadManifest) (b : Bytes)
    → IsValid m
    → pack manifest_format (manifest_fields m) ≡ ok b
    → decode_manifest b ≡ ok m
unfolding decode_manifest
decode_manifest-pack m b v p =
    rw
      (
        eq→== _ _ (length-pack manifest_format (manifest_fields m) p),
        unpack-pack manifest_format (manifest_fields m) p tt,
      )
      (validated_complete m v)

-- A valid manifest is encoded to 40 bytes, which are decoded to it.
pub encode_manifest_total :
    (m : WorkloadManifest)
    → IsValid m
    → (b : Bytes) × (encode_manifest m ≡ ok b)
      × (length b ≡ manifest_size)
      × (decode_manifest b ≡ ok m)
unfolding encode_manifest
encode_manifest_total m v =
    let p = pack-fits manifest_format (manifest_fields m) (manifest_fits m v) in
    (
      layout manifest_format (manifest_fields m),
      rw (validated_complete m v) p,
      length-layout manifest_format (manifest_fields m),
      decode_manifest-pack m _ v p,
    )

-- The manifest that the columns spell.
abbrev from_fields : Fields manifest_format → WorkloadManifest
from_fields v =
    let w = v.1.1.1 in
    let x = w.1.1.1.1.1 in
    record {
      image_size = w.0;
      image_crc32 = w.1.0;
      load_address = w.1.1.0;
      entry_segment = w.1.1.1.0;
      entry_offset = w.1.1.1.1.0;
      stack_segment = x.0;
      stack_offset = x.1.0;
      shared_base = x.1.1.0;
      shared_size = x.1.1.1.0;
      flags = x.1.1.1.1.0;
    }

header_matches :
    (v : Fields manifest_format)
    → ((v.0 == workload_magic) && (v.1.0 == workload_format_version) && (v.1.1.0 == manifest_size))
      ≡ true
    → (v.0 ≡ workload_magic) × (v.1.0 ≡ workload_format_version) × (v.1.1.0 ≡ manifest_size)
header_matches v h = ground arith

decode_manifest-eq-ok :
    (b : Bytes) {m : WorkloadManifest}
    → decode_manifest b ≡ ok m
    → IsValid m × (unpack manifest_format b ≡ ok (manifest_fields m))
unfolding decode_manifest
decode_manifest-eq-ok b {m} h =
    let (_, h1) = guard-eq-ok (length b == manifest_size) _ _ h in
    let (v, u, h2) = >>=-eq-ok (unpack manifest_format b) _ h1 in
    let (t, h3) =
      guard-eq-ok
        ((v.0 == workload_magic)
          && (v.1.0 == workload_format_version)
          && (v.1.1.0 == manifest_size))
        _ _ h2 in
    let (same, valid) = validated_sound (from_fields v) m h3 in
    let (a, c, d) = header_matches v t in
    (
      subst IsValid (sym same) valid,
      u
          ∙ (λ i. ok (a i, (c i, (d i, v.1.1.1))))
          ∙ ap (λ (n : WorkloadManifest). ok (manifest_fields n)) (sym same),
    )

-- Bytes that are decoded to a manifest spell a valid one, and are what it is encoded to.
decode_manifest_sound :
    (b : Bytes) (m : WorkloadManifest)
    → IsBytes b
    → decode_manifest b ≡ ok m
    → IsValid m × (encode_manifest m ≡ ok b)
unfolding encode_manifest
decode_manifest_sound b m w h =
    let (v, u) = decode_manifest-eq-ok b h in
    (v, rw (validated_complete m v) (pack-unpack manifest_format b (manifest_fields m) tt w u))

-- A workload file that was encoded is decoded to its manifest and its image.
pub decode_workload_file-encode_workload_file :
    (m : WorkloadManifest) (image b : Bytes)
    → encode_workload_file m image ≡ ok b
    → decode_workload_file b ≡ ok (m, image)
unfolding encode_workload_file decode_workload_file
decode_workload_file-encode_workload_file m image b h =
    let (m', e, h1) = >>=-eq-ok (validated m) _ h in
    let (_, v) = validated_sound m m' e in
    let (t, h2) = guard-eq-ok (image_matches m image) _ _ h1 in
    let (header, e', l, d) = encode_manifest_total m v in
    let whole : b ≡ header ++ image = ground arith in
    rw
      (
        whole,
        le→leb manifest_size (length (header ++ image)) (omega (arith, length-append header image)),
        take-append_exact manifest_size header image l,
        drop-append_exact manifest_size header image l,
        d,
        t,
      )
      refl

pub encode_workload_file_total :
    (m : WorkloadManifest) (image : Bytes)
    → IsValid m
    → image_matches m image ≡ true
    → (b : Bytes) × (encode_workload_file m image ≡ ok b)
unfolding encode_workload_file
encode_workload_file_total m image v t =
    let (header, e, _, _) = encode_manifest_total m v in
    (header ++ image, rw (validated_complete m v, t, e) refl)

pub image_matches_sound :
    (m : WorkloadManifest) (image : Bytes)
    → image_matches m image ≡ true
    → (length image ≡ m.image_size) × (crc32 image ≡ m.image_crc32)
unfolding image_matches
image_matches_sound m image h = ground arith

-- A file of bytes that is decoded holds a valid manifest whose size and CRC are those of the image behind
-- it, and it is what the two are encoded to.
pub decode_workload_file_sound :
    (m : WorkloadManifest) (image b : Bytes)
    → IsBytes b
    → decode_workload_file b ≡ ok (m, image)
    → IsValid m
      × (length image ≡ m.image_size)
      × (crc32 image ≡ m.image_crc32)
      × (encode_workload_file m image ≡ ok b)
unfolding decode_workload_file encode_workload_file
decode_workload_file_sound m image b w h =
    let (_, h1) = guard-eq-ok (leb manifest_size (length b)) _ _ h in
    let (m', d, h2) = >>=-eq-ok (decode_manifest (take manifest_size b)) _ h1 in
    let (t, h3) = guard-eq-ok (image_matches m' (drop manifest_size b)) _ _ h2 in
    let same : m' ≡ m = ground arith in
    let rest : image ≡ drop manifest_size b = ground arith in
    let (v, e) =
      decode_manifest_sound (take manifest_size b) m (All-take IsByte manifest_size b w)
        (rw (← same) d) in
    let (size_eq, crc_eq) = image_matches_sound m' (drop manifest_size b) t in
    let test : image_matches m image ≡ true = rw (← same, rest) t in
    (
      v,
      rw (rest, ← same) size_eq,
      rw (rest, ← same) crc_eq,
      rw (validated_complete m v, test, e)
          (ap (λ (i : Bytes). ok (take manifest_size b ++ i)) rest
            ∙ ap ok (take-append-drop manifest_size b)),
    )
