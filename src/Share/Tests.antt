-- ===== src/Share/Tests.antt =====
-- Small tables of open files and locks, and the theorems on them at these.
use burdah_dos_system.Base.{ℕ, ◌≡◌, refl, ◌+◌, ◌<◌, [], ◌∷◌, false, true, arith, ◌↔◌, ◌||◌, ◌==◌}
use burdah_dos_system.Share.{FileEntry, LockEntry, Share, fnmatches, file_at, minus}
use burdah_dos_system.Share.Rules.{open_action, verdict, proceed}
use burdah_dos_system.Share.Rules.Safety.{denies, same_kind, open_action-denies}
use burdah_dos_system.Share.Locks.{
  cut_length, end_offset, region_hit, access_check, lock, lock_unlock, Registers, inner_handler,
}
use burdah_dos_system.Share.Locks.Regions.{Overlap, region_hit-Overlap}
use burdah_dos_system.Share.Locks.Counts.{IsCounted, names_files, inner_handler-IsCounted}
use burdah_dos_system.Share.Locks.Holding.{lock_unlock-holds}

abbrev file : ℕ → FileEntry
file psp = record {
  filename = 0x41 ∷ [];
  psp = psp;
  openmode = 2;
  sharemode = 4;
  first_openmode = 2;
  first_sharemode = 4;
}

abbrev unused_lock : LockEntry
unused_lock = record { used = false; start = 0; end = 0; fileno = 0; psp = 0 }

-- Two processes have the file open.
abbrev tables : Share
tables = record {
  file_table = file 0x50 ∷ file 0x60 ∷ [];
  lock_table = unused_lock ∷ unused_lock ∷ [];
  file_table_free = 0;
  lock_table_free = 2;
  in_bounds = true;
}

tables-IsCounted : IsCounted tables
tables-IsCounted = record { counted = refl; limited = omega arith; no_overrun = refl }

-- A request to lock 16 bytes at offset 32 of the first file.
abbrev lock_request : Registers
lock_request = record { ax = 0x10a4; bx = 0x50; cx = 0; dx = 16; si = 0; di = 32; ds = 0; es = 0 }

granted : (lock_unlock tables 0x50 0 32 16 0).ax ≡ 0
unfolding lock_unlock cut_length lock access_check
granted = refl

same_file :
    fnmatches (file_at tables.file_table 1).filename (file_at tables.file_table 0).filename ≡ true
unfolding fnmatches file_at
same_file = refl

some_bytes : 0 < cut_length 40 4
unfolding cut_length
some_bytes = omega arith

found : region_hit 40 (end_offset 40 4) 32 (32 + 16) ≡ true
unfolding region_hit end_offset
found = refl

shared_read : verdict (open_action 2 0 0 0) ≡ proceed
unfolding open_action verdict
shared_read = refl

in_table : names_files tables lock_request ≡ true
unfolding names_files
in_table = refl

inner_handler-IsCounted_example : IsCounted (inner_handler (λ a b. []) tables lock_request).share
inner_handler-IsCounted_example =
    inner_handler-IsCounted (λ a b. []) tables lock_request in_table tables-IsCounted

lock_unlock-holds_example :
    (access_check (lock_unlock tables 0x50 0 32 16 0).share 0x60 1 40 4 0).ax ≡ minus 0x21
lock_unlock-holds_example =
    lock_unlock-holds tables 0x50 0 32 16 0x60 1 40 4 (omega arith) (omega arith) granted
      (omega arith) same_file some_bytes found

open_action-denies_example :
    (denies 2 0 ≡ false) × (denies 0 0 ≡ false) × (same_kind 2 0 || 0 == 0 ≡ true)
open_action-denies_example =
    open_action-denies 2 0 0 0 (omega arith) (omega arith) (omega arith) (omega arith) shared_read

region_hit-Overlap_example :
    (region_hit 10 20 12 15 ≡ true) ↔ (Overlap 10 20 12 15 × ¬ ((10 < 12) × (15 < 20)))
region_hit-Overlap_example = region_hit-Overlap 10 20 12 15 (omega arith) (omega arith)
