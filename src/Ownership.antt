-- ===== src/Ownership.antt =====
-- host/rp86/device_ownership.py: the lock file that gives a device one owner. The operating system
-- is its lock table for that file: `flock` without waiting, and `close`, which gives a lock up.
use pi86_rp.Common.{
  ℕ, ◌+◌, Bool, true, false, Option, none, some, [], ◌==◌, if◌then◌else◌, runtime_error, Result, ok,
  err,
}
pub mod Exclusion

-- Handles are numbered in the order they are opened.
pub record LockFile : Type 0 where
  pub locked_by : Option ℕ
  pub next_handle : ℕ

pub record DeviceOwnership : Type 0 where
  pub file : Option ℕ

-- `flock(handle, LOCK_EX | LOCK_NB)`: whether it is granted, and the table.
unfoldable pub flock : LockFile → ℕ → Bool × LockFile
flock os handle = elim os.locked_by [
  | none ↦ (true, record os { locked_by = some handle })
  | some other ↦ (if other == handle then true else false, os)
]

-- `close()`, and `flock(handle, LOCK_UN)`.
unfoldable pub unlock : LockFile → ℕ → LockFile
unlock os handle = elim os.locked_by [
  | none ↦ os
  | some other ↦ if other == handle then record os { locked_by = none } else os
]

abbrev pub open_file : LockFile → LockFile
open_file os = record os { next_handle = os.next_handle + 1 }

-- The second half of `acquire`: a refused handle is closed.
unfoldable pub take_lock :
    DeviceOwnership → ℕ → Bool × LockFile → Result (Unit {0}) × DeviceOwnership × LockFile
unfolding unlock
take_lock o handle (true, os) = (ok tt, record { file = some handle }, os)
take_lock o handle (false, os) =
    (err (runtime_error "device already has an active owner" []), o, unlock os handle)

unfoldable pub acquire : DeviceOwnership → LockFile → Result (Unit {0}) × DeviceOwnership × LockFile
unfolding take_lock flock
acquire o os = elim o.file [
  | some handle ↦ (err (runtime_error "device ownership is already held" []), o, os)
  | none ↦ take_lock o os.next_handle (flock (open_file os) os.next_handle)
]

unfoldable pub release : DeviceOwnership → LockFile → DeviceOwnership × LockFile
unfolding unlock
release o os = elim o.file [
  | none ↦ (o, os)
  | some handle ↦ (record { file = none }, unlock os handle)
]
