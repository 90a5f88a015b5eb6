-- ===== src/Share/Locks.antt =====
-- share/src/share.c: locked regions (`access_check`, `lock_unlock`), `is_file_open`, and the dispatch
-- of the multiplex interrupt. Offsets are 32-bit.
pub mod Regions
pub mod InBounds
pub mod Counts
pub mod Holding
use burdah_dos_system.Base.{
  ℕ, zero, suc, ◌+◌, ◌-◌, ◌*◌, ◌/◌, ◌%◌, Bool, true, false, not, ◌&&◌, ◌||◌, Option, none, some,
  List, [], ◌∷◌, ltb, leb, ◌==◌, if◌then◌else◌,
}
use burdah_dos_system.Share.{
  FileEntry, LockEntry, Share, CriticalError, Reply, reply, word_mod, dword_mod, minus, fnmatches,
  file_at, free_file_table_entry, critical_error, open_check, close_file,
}

-- `endofs`, with a region that wraps around cut at the last offset.
unfoldable pub end_offset : ℕ → ℕ → ℕ
end_offset ofs len =
    let endofs = (ofs + len) % dword_mod in if ltb endofs ofs then 0xffff_ffff else endofs

-- `len` after the same cut.
unfoldable pub cut_length : ℕ → ℕ → ℕ
cut_length ofs len = if ltb ((ofs + len) % dword_mod) ofs then 0xffff_ffff - ofs else len

-- The test for a region of a lock entry.
unfoldable pub region_hit : (ofs endofs start end : ℕ) → Bool
region_hit ofs endofs start end =
    (leb start ofs && ltb ofs end) || (ltb start endofs && leb endofs end)

unfoldable pub lock_hit : List FileEntry → List ℕ → (psp ofs endofs : ℕ) → LockEntry → Bool
unfolding region_hit fnmatches file_at
lock_hit files name psp ofs endofs l =
    l.used
    && (psp == 0 || not (l.psp == psp))
    && fnmatches name (file_at files l.fileno).filename
    && region_hit ofs endofs l.start l.end

unfoldable pub any_hit : List FileEntry → List ℕ → (psp ofs endofs : ℕ) → List LockEntry → Bool
unfolding lock_hit
any_hit files name psp ofs endofs [] = false
any_hit files name psp ofs endofs (l ∷ ls) =
    lock_hit files name psp ofs endofs l || any_hit files name psp ofs endofs ls

unfoldable pub access_check : Share → (psp fileno ofs len allowcriter : ℕ) → Reply
unfolding any_hit end_offset cut_length free_file_table_entry critical_error file_at
access_check s psp fileno ofs len allowcriter =
    let name = (file_at s.file_table fileno).filename in
    if cut_length ofs len == 0
    then reply 0 s
    else if any_hit s.file_table name psp ofs (end_offset ofs len) s.lock_table
    then (if allowcriter == 0 then reply (minus 0x21) s else record {
      ax = minus 0x21;
      critical = some (critical_error name 0x0e);
      share = free_file_table_entry s fileno;
    })
    else reply 0 s

unfoldable pub is_lock : (psp fileno ofs endofs : ℕ) → LockEntry → Bool
is_lock psp fileno ofs endofs l =
    l.used && l.psp == psp && l.fileno == fileno && l.start == ofs && l.end == endofs

-- The loop of `lock_unlock` that unlocks; `none` is its end.
unfoldable pub unlock_first : (psp fileno ofs endofs : ℕ) → List LockEntry → Option (List LockEntry)
unfolding is_lock
unlock_first psp fileno ofs endofs [] = none
unlock_first psp fileno ofs endofs (l ∷ ls) =
    if is_lock psp fileno ofs endofs l
    then some (record l { used = false } ∷ ls)
    else elim (unlock_first psp fileno ofs endofs ls) [ none ↦ none | some r ↦ some (l ∷ r) ]

-- The loop that locks: the first entry that is not used takes the lock.
unfoldable pub lock_first : LockEntry → List LockEntry → Option (List LockEntry)
lock_first new [] = none
lock_first new (l ∷ ls) =
    if not l.used
    then some (new ∷ ls)
    else elim (lock_first new ls) [ none ↦ none | some r ↦ some (l ∷ r) ]

unfoldable pub unlock : Share → (psp fileno ofs endofs : ℕ) → Reply
unfolding unlock_first
unlock s psp fileno ofs endofs = elim (unlock_first psp fileno ofs endofs s.lock_table) [
  | none ↦ reply (minus 0x21) s
  | some ls ↦
      reply 0 (record s { lock_table = ls; lock_table_free = (s.lock_table_free + 1) % word_mod })
]

-- The entry that a lock of `len` bytes writes.
abbrev pub new_lock : (psp fileno ofs len : ℕ) → LockEntry
new_lock psp fileno ofs len = record {
  used = true;
  start = ofs;
  end = (ofs + len) % dword_mod;
  fileno = fileno;
  psp = psp;
}

unfoldable pub lock : Share → (psp fileno ofs len : ℕ) → Reply
unfolding lock_first
lock s psp fileno ofs len =
    if not ((access_check s 0 fileno ofs len 0).ax == 0)
    then reply (minus 0x21) s
    else elim (lock_first (new_lock psp fileno ofs len) s.lock_table) [
      | none ↦ reply (minus 0x24) s
      | some ls ↦ reply 0 (record s {
        lock_table = ls;
        lock_table_free = (s.lock_table_free + word_mod - 1) % word_mod;
      })
    ]

unfoldable pub lock_unlock : Share → (psp fileno ofs len unlock_flag : ℕ) → Reply
lock_unlock s psp fileno ofs len unlock_flag =
    if cut_length ofs len == 0
    then reply 0 s
    else if not (unlock_flag == 0)
    then unlock s psp fileno ofs (end_offset ofs len)
    else lock s psp fileno ofs (cut_length ofs len)

unfoldable pub is_open_in : List ℕ → List FileEntry → Bool
unfolding fnmatches
is_open_in name [] = false
is_open_in name (f ∷ fs) = fnmatches name f.filename || is_open_in name fs

unfoldable pub is_file_open : Share → List ℕ → ℕ
unfolding is_open_in
is_file_open s name = if is_open_in name s.file_table then 1 else 0

-- `intregs_t`, the registers that the handler reads and writes.
pub record Registers : Type 0 where
  pub ax : ℕ
  pub bx : ℕ
  pub cx : ℕ
  pub dx : ℕ
  pub si : ℕ
  pub di : ℕ
  pub ds : ℕ
  pub es : ℕ

-- What the handler leaves; `need_to_chain` asks for the next handler.
pub record Handled : Type 0 where
  pub need_to_chain : Bool
  pub regs : Registers
  pub critical : Option CriticalError
  pub share : Share

abbrev pub handled : Registers → Reply → Handled
handled r p = record {
  need_to_chain = false;
  regs = record r { ax = p.ax };
  critical = p.critical;
  share = p.share;
}

abbrev pub long : ℕ → ℕ → ℕ
long high low = high * word_mod + low

-- `name_at` reads the text at a far pointer.
unfoldable pub inner_handler : (ℕ → ℕ → List ℕ) → Share → Registers → Handled
inner_handler name_at s r =
    let ah = r.ax / 256 in
    let al = r.ax % 256 in
    let name = name_at r.ds r.si in
    if not (ah == 0x10)
    then record { need_to_chain = true; regs = r; critical = none; share = s }
    else if al == 0
    then handled r (reply (r.ax + 0xff) s)
    else if al == 0xa0
    then handled r (open_check s name r.bx r.cx r.dx)
    else if al == 0xa1
    then handled r (reply r.ax (close_file s r.bx))
    else if al / 2 == 0x51
    then handled r (access_check s r.bx r.cx (long r.si r.di) (long r.es r.dx) (al % 2))
    else if al / 2 == 0x52
    then handled r (lock_unlock s r.bx r.cx (long r.si r.di) (long r.es r.dx) (al % 2))
    else if al == 0xa6
    then handled r (reply (is_file_open s name) s)
    else record { need_to_chain = true; regs = r; critical = none; share = s }
