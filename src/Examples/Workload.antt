-- ===== src/Examples/Workload.antt =====
-- Manifests, workload files and uploads at concrete inputs.
use pi86_rp.Common.{
  ◌+◌, ◌≡◌, refl, inl, true, some, List, [], ◌∷◌, ◌++◌, arith, Bytes, length, drop, All,
  raises_value_error, ok,
}
use pi86_rp.Struct.{unpack_from, le, from_le, fits, layout, fields, pack, unpack}
use pi86_rp.Protocol.{Message}
use pi86_rp.Protocol.Records.{IsWire}
use pi86_rp.Crc.{crc32}
use pi86_rp.Workload.{
  begin_prefix, commit_format, linear, check_image, check_shared, check_flags, validated,
  encode_manifest, decode_manifest, image_matches, encode_workload_file, decode_workload_file,
  WorkloadManifest,
}
use pi86_rp.Workload.Valid.{validated_refuses, IsValid}
use pi86_rp.Workload.Files.{decode_workload_file-encode_workload_file, decode_workload_file_sound}
use pi86_rp.Workload.Upload.{upload_records}
use pi86_rp.Workload.Upload.Assemble.{IsNumbered, assemble, rounds, upload_records-assemble}

abbrev image : Bytes
image = 0x90 ∷ 0xF4 ∷ []

abbrev manifest : WorkloadManifest
manifest = record {
  image_size = 2;
  image_crc32 = 2320019168;
  load_address = 0x400;
  entry_segment = 0x40;
  entry_offset = 0;
  stack_segment = 0x100;
  stack_offset = 0x100;
  shared_base = 0;
  shared_size = 0;
  flags = 0;
}

abbrev empty_manifest : WorkloadManifest
empty_manifest = record manifest { image_size = 0 }

abbrev manifest_bytes : Bytes
manifest_bytes =
    80 ∷ 56 ∷ 54 ∷ 87 ∷ 1 ∷ 0 ∷ 40 ∷ 0 ∷ 2 ∷ 0 ∷ 0 ∷ 0 ∷ 224 ∷ 174 ∷ 72 ∷ 138 ∷ 0 ∷ 4 ∷ 0 ∷ 0 ∷ 64
    ∷ 0 ∷ 0 ∷ 0 ∷ 0 ∷ 1 ∷ 0 ∷ 1 ∷ 0 ∷ 0 ∷ 0 ∷ 0 ∷ 0 ∷ 0 ∷ 0 ∷ 0 ∷ 0 ∷ 0 ∷ 0 ∷ 0 ∷ []

manifest-IsValid : IsValid manifest
manifest-IsValid = record {
  nonempty = omega arith;
  crc_range = omega arith;
  in_space = omega arith;
  entry_words = omega arith;
  entry_inside = omega arith;
  entry_before_end = omega arith;
  stack_words = omega arith;
  stack_inside = omega arith;
  shared = inl (refl, refl, refl);
  known_flags = omega arith;
  one_clock = refl;
  tick_stepped = refl;
}

empty_manifest-not-IsValid : ¬ (IsValid empty_manifest)
empty_manifest-not-IsValid v = omega (arith, v.nonempty)

image_accepted : image_matches manifest image ≡ true
unfolding image_matches crc32
image_accepted = refl

manifest_accepted : validated manifest ≡ ok manifest
unfolding validated check_image check_shared check_flags linear
manifest_accepted = refl

decoded_manifest : decode_manifest manifest_bytes ≡ ok manifest
unfolding decode_manifest validated check_image check_shared check_flags linear unpack fields
    from_le
decoded_manifest = refl

encoded_file : encode_workload_file manifest image ≡ ok (manifest_bytes ++ image)
unfolding encode_workload_file encode_manifest image_matches crc32 validated check_image
    check_shared check_flags linear pack fits layout le
encoded_file = refl

decoded_file : decode_workload_file (manifest_bytes ++ image) ≡ ok (manifest, image)
unfolding decode_workload_file decode_manifest image_matches crc32 validated check_image
    check_shared check_flags linear unpack fields from_le
decoded_file = refl

validated_refuses_example : raises_value_error (validated empty_manifest) ≡ true
validated_refuses_example = validated_refuses empty_manifest empty_manifest-not-IsValid

decode_workload_file-encode_workload_file_example :
    decode_workload_file (manifest_bytes ++ image) ≡ ok (manifest, image)
decode_workload_file-encode_workload_file_example =
    decode_workload_file-encode_workload_file manifest image (manifest_bytes ++ image) encoded_file

decode_workload_file_sound_example :
    IsValid manifest
    × (length image ≡ manifest.image_size)
    × (crc32 image ≡ manifest.image_crc32)
    × (encode_workload_file manifest image ≡ ok (manifest_bytes ++ image))
decode_workload_file_sound_example =
    decode_workload_file_sound manifest image (manifest_bytes ++ image) (omega arith) decoded_file

upload_records-assemble_example :
    (begin commit : Message) × (chunks : List Message) × (upload_records manifest image 5 1
      ≡ ok ((begin ∷ chunks) ++ commit ∷ []))
    × (begin.message_type ≡ 0x20)
    × (begin.sequence ≡ 1)
    × (unpack_from begin_prefix begin.payload 0 ≡ ok (5, tt))
    × (decode_manifest (drop 4 begin.payload) ≡ ok manifest)
    × All (λ chunk. chunk.message_type ≡ 0x21) chunks
    × IsNumbered (1 + 1) chunks
    × (assemble 5 [] chunks ≡ some image)
    × (unpack commit_format commit.payload ≡ ok (5, (manifest.image_crc32, tt)))
    × (commit.message_type ≡ 0x22)
    × (commit.sequence ≡ 1 + 1 + rounds (length image) 0)
    × All IsWire ((begin ∷ chunks) ++ commit ∷ [])
upload_records-assemble_example =
    upload_records-assemble manifest image 5 1 manifest-IsValid image_accepted (omega arith)
      (omega arith)
