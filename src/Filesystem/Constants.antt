-- ===== src/Filesystem/Constants.antt =====
-- The filesystem's constants of host/rp86/protocol.py, and the records of host/rp86/filesystem.py.
use pi86_rp.Common.{ℕ, Bool, Bytes}

abbrev pub filesystem_list : ℕ
filesystem_list = 1

abbrev pub filesystem_df : ℕ
filesystem_df = 2

abbrev pub filesystem_read : ℕ
filesystem_read = 3

abbrev pub filesystem_write_begin : ℕ
filesystem_write_begin = 4

abbrev pub filesystem_write_data : ℕ
filesystem_write_data = 5

abbrev pub filesystem_write_commit : ℕ
filesystem_write_commit = 6

abbrev pub filesystem_flag_eof : ℕ
filesystem_flag_eof = 1

abbrev pub filesystem_flag_directory : ℕ
filesystem_flag_directory = 2

abbrev pub filesystem_write_data_bytes : ℕ
filesystem_write_data_bytes = 40

abbrev pub filesystem_read_path_bytes : ℕ
filesystem_read_path_bytes = 44

abbrev pub filesystem_write_path_bytes : ℕ
filesystem_write_path_bytes = 36

abbrev pub status_bad_length : ℕ
status_bad_length = 2

abbrev pub status_service_unavailable : ℕ
status_service_unavailable = 6

abbrev pub status_bad_crc : ℕ
status_bad_crc = 7

abbrev pub status_io_error : ℕ
status_io_error = 10

abbrev pub status_not_found : ℕ
status_not_found = 11

abbrev pub status_invalid_path : ℕ
status_invalid_path = 12

abbrev pub status_no_space : ℕ
status_no_space = 13

pub record ListEntry : Type 0 where
  pub name : Bytes
  pub entry_size : ℕ
  pub directory : Bool
  pub next_cursor : ℕ
  pub eof : Bool

pub record DiskFree : Type 0 where
  pub label : Bytes
  pub filesystem_type : ℕ
  pub total_kib : ℕ
  pub free_kib : ℕ
  pub cluster_bytes : ℕ
  pub erase_bytes : ℕ

pub record ReadChunk : Type 0 where
  pub offset : ℕ
  pub total_size : ℕ
  pub chunk : Bytes
  pub final : Bool
