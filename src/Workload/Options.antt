-- ===== src/Workload/Options.antt =====
-- `workload_from_bytes` of host/rp86/workload.py: the words of a load command, and the upload that
-- they ask for. What reads a number or a pointer from a text, and the test for a .p86w file, are
-- parameters; the numbers that options give are taken to be natural.
use package.text.Mathlib.Text.{◌==◌ as str_eq}
use pi86_rp.Common.{
  ℕ, ◌/◌, ◌%◌, bit_or, String, Bool, Option, none, some, List, [], ◌∷◌, if◌then◌else◌, Bytes, ◌>>=◌,
  value_error, Result, ok, err,
}
use pi86_rp.Protocol.{Message}
use pi86_rp.Workload.{
  flag_stdio, flag_clock_free_running, flag_clock_stepped, linear, for_image, decode_workload_file,
  WorkloadManifest,
}
use pi86_rp.Workload.Upload.{upload_records}

pub data Clock : Type 0 where
  auto free_running clock_stepped : Clock

pub record LoadOptions : Type 0 where
  pub load_address : ℕ
  pub entry : Option (ℕ × ℕ)
  pub stack : ℕ × ℕ
  pub clock : Clock

abbrev pub default_options : LoadOptions
default_options = record { load_address = 0x10000; entry = none; stack = (0, 0); clock = auto }

unfoldable pub read_clock : String → Result Clock
read_clock value =
    if str_eq value "auto"
    then ok auto
    else if str_eq value "free-running"
    then ok free_running
    else if str_eq value "clock-stepped"
    then ok clock_stepped
    else err (value_error "--clock must be auto, free-running, or clock-stepped" [])

abbrev bad_option {ℓ} : {A : Type ℓ} → Result A
bad_option = err (value_error "unknown or incomplete load option" [])

-- `int(value, 0)`; the two parts of `value.split(":", 1)`, and `int(text, 16)`.
pub record Readers : Type 0 where
  pub read_int : String → Option ℕ
  pub split_colon : String → Option (String × String)
  pub read_hex : String → Option ℕ
  pub is_p86w : String → Bool

module _ (r : Readers) where
  unfoldable pub parse_number : String → Result ℕ
  parse_number value = elim (r.read_int value) [
    | none ↦ err (value_error "invalid number" [])
    | some n ↦ ok n
  ]

  abbrev pub hex_number : String → Result ℕ
  hex_number text = elim (r.read_hex text) [
    | none ↦ err (value_error "invalid literal for int() with base 16" [])
    | some n ↦ ok n
  ]

  abbrev pub halves : String → Result (String × String)
  halves value = elim (r.split_colon value) [
    | none ↦ err (value_error "expected segment:offset" [])
    | some p ↦ ok p
  ]

  unfoldable pub parse_far_pointer : String → Result (ℕ × ℕ)
  parse_far_pointer value = do
    (segment_text, offset_text) ← halves value
    segment ← hex_number segment_text
    offset ← hex_number offset_text
    _ ← linear segment offset
    ok (segment, offset)

  -- One option with its value.
  unfoldable pub read_option : String → String → LoadOptions → Result LoadOptions
  unfolding parse_number parse_far_pointer read_clock
  read_option option value o =
      if str_eq option "--address"
      then (do n ← parse_number value; ok (record o { load_address = n }))
      else if str_eq option "--entry"
      then (do p ← parse_far_pointer value; ok (record o { entry = some p }))
      else if str_eq option "--stack"
      then (do p ← parse_far_pointer value; ok (record o { stack = p }))
      else if str_eq option "--clock"
      then (do c ← read_clock value; ok (record o { clock = c }))
      else bad_option

  unfoldable pub read_options : List String → LoadOptions → Result LoadOptions
  unfolding read_option
  read_options [] o = ok o
  read_options (option ∷ []) o = bad_option
  read_options (option ∷ value ∷ rest) o =
      read_option option value o >>= λ next. read_options rest next

  abbrev pub clock_flags : Clock → ℕ
  clock_flags auto = 0
  clock_flags free_running = flag_clock_free_running
  clock_flags clock_stepped = flag_clock_stepped

  abbrev pub entry_of : LoadOptions → ℕ × ℕ
  entry_of o = elim o.entry [ some p ↦ p | none ↦ (o.load_address / 16, o.load_address % 16) ]

  -- The manifest and the image of a source: a workload file has its own, an image gets one from
  -- the options.
  unfoldable pub manifest_and_image :
      String → Bytes → LoadOptions → Result (WorkloadManifest × Bytes)
  manifest_and_image source_name encoded o =
      if r.is_p86w source_name then decode_workload_file encoded else do
        manifest ←
            for_image encoded o.load_address (entry_of o) o.stack
              (bit_or flag_stdio (clock_flags o.clock))
        ok (manifest, encoded)

  unfoldable pub workload_from_bytes :
      Bytes → List String → ℕ → ℕ → Result (WorkloadManifest × Bytes × List Message)
  unfolding read_options manifest_and_image
  workload_from_bytes encoded [] transfer_id first_sequence =
      err (value_error "usage: load <bin>" [])
  workload_from_bytes encoded (source_name ∷ words) transfer_id first_sequence = do
    o ← read_options words default_options
    (manifest, image) ← manifest_and_image source_name encoded o
    records ← upload_records manifest image transfer_id first_sequence
    ok (manifest, image, records)
