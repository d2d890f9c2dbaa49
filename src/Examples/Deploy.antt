-- ===== src/Examples/Deploy.antt =====
-- A workload that is started through a broker, at concrete inputs.
use pi86_rp.Common.{
  ℕ, ◌+◌, ◌≡◌, refl, true, false, none, some, [], ◌∷◌, Bytes, replicate, Result, ok,
}
use pi86_rp.StartWorkload.Exchange.{read_reply, catch_exchange, exchange, RpcReply}
use pi86_rp.Struct.{le, from_le, fits, layout, fields, pack, unpack}
use pi86_rp.Protocol.{type_workload_status, message, encode, decode}
use pi86_rp.Crc.{crc32}
use pi86_rp.Sequence.{wrap_sequence}
use pi86_rp.Runtime.{processor_execution_state, workload_upload_requires_stop, from_payload}
use pi86_rp.Workload.{
  linear, check_image, check_shared, check_flags, validated, for_image, encode_manifest,
  image_matches, encode_workload_file,
}
use pi86_rp.Workload.Upload.{
  data_record, data_loop, upload_records, control_operations, control_record,
}
use pi86_rp.Workload.Options.{read_options, manifest_and_image, workload_from_bytes, Readers}
use pi86_rp.StartWorkload.{
  following_sequence, sequence_from_hello, last_record_sequence, is_running, after_record,
  request_reply, send_records, control, stop_first, run_workload, after_upload, deploy,
  start_workload, pass,
}
use pi86_rp.StartWorkload.Deployed.{start_workload-Deployed, Deployed}

abbrev no_numbers : Readers
no_numbers = record {
  read_int = λ text. none;
  split_colon = λ text. none;
  read_hex = λ text. none;
  is_p86w = λ text. false;
}

abbrev halting_image : Bytes
halting_image = 0x90 ∷ 0xF4 ∷ []

-- Every request is answered by a workload that runs; the world counts the requests.
abbrev running_bytes : Bytes
running_bytes = 6 ∷ 0 ∷ 0 ∷ 0 ∷ 3 ∷ (replicate 47 0)

abbrev always_running : Bytes → ℕ → Result RpcReply × ℕ
always_running bytes count = (
  ok (record {
    accepted = true;
    error = none;
    reply = encode (message type_workload_status 1 running_bytes);
  }),
  count + 1,
)

-- A status, a stop, three records and a run.
started :
    start_workload always_running no_numbers "image.bin" (ok halting_image) 9 (some 4) 0
    ≡ (ok pass, 6)
unfolding start_workload deploy control stop_first send_records after_upload run_workload
    request_reply exchange read_reply catch_exchange after_record following_sequence
    last_record_sequence is_running wrap_sequence sequence_from_hello from_payload
    processor_execution_state workload_upload_requires_stop workload_from_bytes read_options
    manifest_and_image for_image validated check_image check_shared check_flags linear crc32
    upload_records data_loop data_record encode_workload_file encode_manifest image_matches
    control_record control_operations encode decode pack unpack fits layout fields le from_le
started = refl

start_workload-Deployed_example :
    Deployed always_running no_numbers "image.bin"
      (ok halting_image)
      9
      (sequence_from_hello (some 4))
      0
      6
start_workload-Deployed_example =
    start_workload-Deployed always_running no_numbers "image.bin" (ok halting_image) 9 (some 4) 0
      started
