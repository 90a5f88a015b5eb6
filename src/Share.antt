-- ===== src/Share.antt =====
-- share/src/share.c: the tables of open files and locked regions behind the multiplex interrupt. A
-- file name is the list of its bytes in front of the NUL, shorter than the 128 bytes of its array. An
-- `int` result is its 16-bit pattern. A critical error (INT 24h) is part of a result.
pub mod Rules
pub mod Locks
mod Tests
use burdah_dos_system.Base.{
  ℕ, zero, suc, ◌+◌, ◌-◌, ◌*◌, ◌/◌, ◌%◌, Bool, true, false, not, ◌&&◌, ◌||◌, Option, none, some,
  List, [], ◌∷◌, ltb, leb, ◌==◌, if◌then◌else◌, get_elem?, set, length,
}
use Rules.{open_action, verdict, proceed, access_denied, sharing_violation}

pub record FileEntry : Type 0 where
  pub filename : List ℕ
  pub psp : ℕ
  pub openmode : ℕ
  pub sharemode : ℕ
  pub first_openmode : ℕ
  pub first_sharemode : ℕ

pub record LockEntry : Type 0 where
  pub used : Bool
  pub start : ℕ
  pub end : ℕ
  pub fileno : ℕ
  pub psp : ℕ

-- `in_bounds` is not of the source: it says that no write has gone past the end of `file_table`. Where
-- one has, what the other fields say holds no more.
pub record Share : Type 0 where
  pub file_table : List FileEntry
  pub lock_table : List LockEntry
  pub file_table_free : ℕ
  pub lock_table_free : ℕ
  pub in_bounds : Bool

-- The registers AL and DI of an INT 24h.
pub record CriticalError : Type 0 where
  pub al : ℕ
  pub di : ℕ

pub record Reply : Type 0 where
  pub ax : ℕ
  pub critical : Option CriticalError
  pub share : Share

abbrev pub reply : ℕ → Share → Reply
reply ax s = record { ax = ax; critical = none; share = s }

abbrev pub word_mod : ℕ
word_mod = 0x10000

abbrev pub dword_mod : ℕ
dword_mod = 0x1_0000_0000

-- The pattern of -n.
abbrev pub minus : ℕ → ℕ
minus n = word_mod - n

unfoldable pub is_unused : FileEntry → Bool
is_unused f = elim f.filename [ [] ↦ true | _ ∷ _ ↦ false ]

unfoldable pub fnmatches : List ℕ → List ℕ → Bool
fnmatches [] [] = true
fnmatches [] (_ ∷ _) = false
fnmatches (_ ∷ _) [] = false
fnmatches (x ∷ xs) (y ∷ ys) = x == y && fnmatches xs ys

-- The loop of `remove_all_locks`: the table, and how many entries it gives back.
unfoldable pub unlock_all : ℕ → List LockEntry → List LockEntry
unlock_all fileno [] = []
unlock_all fileno (l ∷ ls) =
    (if l.used && l.fileno == fileno then record l { used = false } else l) ∷ unlock_all fileno ls

unfoldable pub count_locks : ℕ → List LockEntry → ℕ
count_locks fileno [] = 0
count_locks fileno (l ∷ ls) =
    (if l.used && l.fileno == fileno then 1 else 0) + count_locks fileno ls

unfoldable pub remove_all_locks : Share → ℕ → Share
unfolding unlock_all count_locks
remove_all_locks s fileno = record s {
  lock_table = unlock_all fileno s.lock_table;
  lock_table_free = (s.lock_table_free + count_locks fileno s.lock_table) % word_mod;
}

-- `file_table[fileno] = f`. The source has no test of the index: with one beyond the table it writes
-- behind it, where the lock table lies, and `in_bounds` is false from then on.
unfoldable pub put_file : Share → ℕ → FileEntry → Share
put_file s fileno f = record s {
  file_table = set s.file_table fileno f;
  in_bounds = s.in_bounds && ltb fileno (length s.file_table);
}

abbrev pub no_file : FileEntry
no_file = record {
  filename = [];
  psp = 0;
  openmode = 0;
  sharemode = 0;
  first_openmode = 0;
  first_sharemode = 0;
}

-- `file_table[fileno]`; beyond the table, an unused entry.
unfoldable pub file_at : List FileEntry → ℕ → FileEntry
file_at fs fileno = elim (get_elem? fs fileno) [ none ↦ no_file | some f ↦ f ]

unfoldable pub free_file_table_entry : Share → ℕ → Share
unfolding file_at put_file
free_file_table_entry s fileno =
    record (put_file s fileno (record (file_at s.file_table fileno) { filename = [] })) {
      file_table_free = (s.file_table_free + 1) % word_mod;
    }

-- The registers for INT 24h: the drive of the name, and the reason.
unfoldable pub critical_error : List ℕ → ℕ → CriticalError
critical_error [] reason = record { al = 0; di = reason }
critical_error (c ∷ []) reason = record { al = 0; di = reason }
critical_error (c ∷ d ∷ _) reason = record {
  al = if d == b':' then (c + 256 - b'A') % 256 else 0;
  di = reason;
}

-- The outer loop of `do_open_check` up to the first entry, other than `fileno`, of the same name.
unfoldable pub first_open : ℕ → ℕ → List ℕ → List FileEntry → Option FileEntry
unfolding is_unused
first_open i fileno name [] = none
first_open i fileno name (p ∷ ps) =
    if not (i == fileno) && not (is_unused p) && fnmatches p.filename name
    then some p
    else first_open (i + 1) fileno name ps

unfoldable pub do_open_check : Share → ℕ → Reply
unfolding file_at put_file free_file_table_entry critical_error first_open open_action verdict
do_open_check s fileno =
    let f = file_at s.file_table fileno in
    let f1 = record f { first_sharemode = f.sharemode; first_openmode = f.openmode } in
    elim (first_open 0 fileno f.filename s.file_table) [
      | none ↦ reply fileno (put_file s fileno f1)
      | some p ↦
          let f2 = record f {
            first_sharemode = p.first_sharemode;
            first_openmode = p.first_openmode;
          } in
          let s2 = put_file s fileno f2 in
          elim (verdict (open_action p.first_sharemode p.first_openmode f.sharemode f.openmode)) [
            | proceed ↦ reply fileno s2
            | access_denied ↦ reply (minus 5) (free_file_table_entry s2 fileno)
            | sharing_violation ↦ record {
              ax = minus 0x20;
              critical = some (critical_error f.filename 0x0d);
              share = free_file_table_entry s2 fileno;
            }
          ]
    ]

-- The first unused entry from index `i` on.
unfoldable pub find_unused : ℕ → List FileEntry → Option ℕ
unfolding is_unused
find_unused i [] = none
find_unused i (f ∷ fs) = if is_unused f then some i else find_unused (i + 1) fs

-- `sharemode` and `openmode` as `open_check` reads them.
unfoldable pub valid_sharemode : ℕ → ℕ
valid_sharemode n = let m = n % 8 in if ltb 4 m then 0 else m

unfoldable pub valid_openmode : ℕ → ℕ
valid_openmode n = let m = n % 4 in if ltb 2 m then 0 else m

unfoldable pub open_check : Share → List ℕ → (psp openmode sharemode : ℕ) → Reply
unfolding find_unused file_at put_file valid_sharemode valid_openmode do_open_check
open_check s name psp openmode sharemode = elim (find_unused 0 s.file_table) [
  | none ↦ reply (minus 1) s
  | some fileno ↦
      let f = record (file_at s.file_table fileno) {
        filename = name;
        psp = psp;
        openmode = valid_openmode openmode;
        sharemode = valid_sharemode sharemode;
      } in
      let s1 = record (put_file s fileno f) {
        file_table_free = (s.file_table_free + word_mod - 1) % word_mod;
      } in
      do_open_check s1 fileno
]

unfoldable pub close_file : Share → ℕ → Share
unfolding remove_all_locks free_file_table_entry
close_file s fileno = free_file_table_entry (remove_all_locks s fileno) fileno
