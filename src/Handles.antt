-- ===== src/Handles.antt =====
-- kernel/dosfns.c: handles of a process, the system file table behind them, and the calls that count
-- how often an entry of the table is in use. The file table of a process is the memory behind
-- `ps_filetab`, a function on offsets, of which the first `ps_maxfiles` bytes are handles; the system
-- file table is the chain of blocks from `sfthead`. `lpCurSft` and `current_sft_idx`, which the
-- redirector reads, are no part of the state, and a pointer to an entry is the entry's index.
pub mod Calls
pub mod Open
pub mod Table
pub mod Refs
pub mod Closing
pub mod Opening
pub mod OpenAt
pub mod Resize
pub mod Uses
pub mod Dup
pub mod Inherit
pub mod FirstFree
pub mod Held
pub mod Refused
pub mod Seek
mod Tests
use burdah_dos_system.Base.{
  ℕ, zero, suc, ◌+◌, ◌-◌, ◌%◌, ◌<◌, Bool, true, false, not, ◌&&◌, Option, none, some, List, [], ◌∷◌,
  length, get_elem?, set, ltb, leb, ◌==◌, if◌then◌else◌, ◌≡◌, bit_and,
}

-- What a call returns: a number, or the code `DE_...` of hdr/error.h without its sign.
pub data Result : Type 0 where
  ok : (value : ℕ) → Result
  failed : (code : ℕ) → Result

abbrev pub de_invldfunc : ℕ
de_invldfunc = 1

abbrev pub de_toomany : ℕ
de_toomany = 4

abbrev pub de_access : ℕ
de_access = 5

abbrev pub de_invldhndl : ℕ
de_invldhndl = 6

abbrev pub de_nomem : ℕ
de_nomem = 8

abbrev pub de_invldacc : ℕ
de_invldacc = 12

-- `sft`: the fields that these calls use. `sft_dev` is the attribute word of the device.
pub record Sft : Type 0 where
  pub sft_count : ℕ
  pub sft_mode : ℕ
  pub sft_attrib : ℕ
  pub sft_flags : ℕ
  pub sft_dev : ℕ
  pub sft_size : ℕ
  pub sft_posit : ℕ
  pub sft_psp : ℕ
  pub sft_shroff : ℕ

-- A set bit of a word.
unfoldable pub has_bit : (word bit : ℕ) → Bool
has_bit word bit = not (bit_and word bit == 0)

-- `sft_shroff` for an entry without a number of the share program: -1.
abbrev pub no_share : ℕ
no_share = 0xffff

abbrev pub Sfttbl : Type 0
Sfttbl = List (List Sft)

-- `idx_to_sft_`: the entry of an index, along the blocks.
unfoldable pub idx_to_sft_ : ℕ → Sfttbl → Option Sft
idx_to_sft_ i [] = none
idx_to_sft_ i (b ∷ bs) =
    let rest = idx_to_sft_ (i - length b) bs in if ltb i (length b) then get_elem? b i else rest

unfoldable pub alter : ℕ → (Sft → Sft) → List Sft → List Sft
alter i f [] = []
alter zero f (s ∷ b) = f s ∷ b
alter (suc i) f (s ∷ b) = s ∷ alter i f b

-- The table after stores through the pointer that `idx_to_sft_` gives.
unfoldable pub alter_sft : ℕ → (Sft → Sft) → Sfttbl → Sfttbl
unfolding alter
alter_sft i f [] = []
alter_sft i f (b ∷ bs) =
    let rest = alter_sft (i - length b) f bs in
    if ltb i (length b) then alter i f b ∷ bs else b ∷ rest

-- `idx_to_sft`: an entry that is in use.
unfoldable pub idx_to_sft : ℕ → Sfttbl → Option Sft
unfolding idx_to_sft_
idx_to_sft i t = elim (idx_to_sft_ i t) [
  | none ↦ none
  | some s ↦ if s.sft_count == 0 then none else some s
]

-- The loop over a block, from its first index on.
unfoldable pub free_in_block : (sys_idx : ℕ) → List Sft → Option ℕ
free_in_block i [] = none
free_in_block i (s ∷ b) =
    let rest = free_in_block (suc i) b in if s.sft_count == 0 then some i else rest

unfoldable pub free_from : (sys_idx : ℕ) → Sfttbl → Option ℕ
unfolding free_in_block
free_from i [] = none
free_from i (b ∷ bs) = elim (free_in_block i b) [
  | some found ↦ some found
  | none ↦ free_from (i + length b) bs
]

unfoldable pub get_free_sft : Sfttbl → Option ℕ
unfolding free_from
get_free_sft t = free_from 0 t

-- `ps_seg` is the segment of the prefix itself, the value of `cu_psp` while the process runs.
pub record Psp : Type 0 where
  pub ps_seg : ℕ
  pub ps_maxfiles : ℕ
  pub ps_filetab : ℕ → ℕ

unfoldable pub get_sft_idx : (hndl : ℕ) → Psp → Option ℕ
get_sft_idx hndl p =
    if leb p.ps_maxfiles hndl
    then none
    else if p.ps_filetab hndl == 0xff
    then none
    else some (p.ps_filetab hndl)

-- The index of the entry of a handle, and the entry.
unfoldable pub get_sft : (hndl : ℕ) → Psp → Sfttbl → Option (ℕ × Sft)
unfolding get_sft_idx idx_to_sft
get_sft hndl p t = elim (get_sft_idx hndl p) [
  | none ↦ none
  | some i ↦ elim (idx_to_sft i t) [ none ↦ none | some s ↦ some (i, s) ]
]

-- `fmemchr` for 0xff in `n` bytes from an offset.
unfoldable pub find_free : (from n : ℕ) → (ℕ → ℕ) → Option ℕ
find_free from zero tab = none
find_free from (suc n) tab =
    let rest = find_free (suc from) n tab in if tab from == 0xff then some from else rest

unfoldable pub get_free_hndl : Psp → Option ℕ
unfolding find_free
get_free_hndl p = find_free 0 p.ps_maxfiles p.ps_filetab

unfoldable pub store_handle : (hndl value : ℕ) → Psp → Psp
store_handle hndl value p = record p {
  ps_filetab = λ h. if h == hndl then value else p.ps_filetab h;
}

-- `SetJFTSize`; `none` for the memory that DosMemAlloc refuses, or else what stands in the new table
-- behind the bytes that are written.
unfoldable pub set_jft_size : (n_handles : ℕ) → Option (ℕ → ℕ) → Psp → Result × Psp
set_jft_size n mem p =
    if leb n p.ps_maxfiles then (ok 0, record p { ps_maxfiles = n }) else elim mem [
      | none ↦ (failed de_nomem, p)
      | some behind ↦ (
        ok 0,
        record p {
          ps_maxfiles = n;
          ps_filetab = λ h.
              if ltb h p.ps_maxfiles then p.ps_filetab h else if ltb h n then 0xff else behind h;
        },
      )
    ]
