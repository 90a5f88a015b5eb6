-- ===== src/Mem/Blocks.antt =====
-- Freeing, resizing and checking control blocks, and linking upper memory: `DosMemFree`,
-- `DosMemChange`, `DosMemCheck`, `FreeProcessMem` and `DosUmbLink` of kernel/memmgr.c. Loops take as
-- fuel the 0x10000 headers that an address space can hold; `none` means that it ran out.
pub mod Free
pub mod Process
pub mod Change
use burdah_dos_system.Base.{
  ℕ, zero, suc, ◌+◌, ◌-◌, ◌%◌, Bool, true, false, not, ◌&&◌, ◌||◌, Option, none, some, ltb, ◌==◌,
  if◌then◌else◌, replicate,
}
use burdah_dos_system.Mem.{
  Status, success, de_mcbdestry, de_nomem, de_invldmcb, Mcb, Memory, Arena, store, mcb_normal,
  mcb_last, free_psp, seg_mod, nxt_mcb_size, nxt_mcb, mcb_free, mcb_freeable, mcb_valid, join_mcbs,
}
use burdah_dos_system.Mem.Alloc.{put_size}

unfoldable pub dos_mem_free : Memory → ℕ → Status × Memory
unfolding mcb_freeable mcb_free store
dos_mem_free m para =
    if para == 0 || not (mcb_freeable (m para))
    then (de_invldmcb, m)
    else if mcb_free (m para)
    then (success, m)
    else (success, store m para (record (m para) { m_psp = free_psp; m_name = replicate 8 0 }))

-- What `DosMemChange` leaves: its result, `*maxSize` (`none` for a null pointer), memory.
pub record Changed : Type 0 where
  pub status : Status
  pub max_size : Option ℕ
  pub mem : Memory

abbrev pub changed : Status → Option ℕ → Memory → Changed
changed st n m = record { status = st; max_size = n; mem = m }

-- `p->m_psp = cu_psp; return SUCCESS;`
unfoldable pub take_over : Memory → ℕ → ℕ → Option ℕ → Changed
unfolding store
take_over m p psp n = changed success n (store m p (record (m p) { m_psp = psp }))

-- Cutting the block at `p` down to `size`: memory, before the rest is joined with what follows.
unfoldable pub cut_block : Memory → ℕ → ℕ → Memory
unfolding store nxt_mcb_size
cut_block m p size =
    let q = nxt_mcb_size p size in
    let m1 = store m q (record (m q) {
      m_size = ((m p).m_size + seg_mod - (size + 1)) % seg_mod;
      m_type = (m p).m_type;
    }) in
    let m2 = store m1 p (record (m1 p) { m_size = size; m_type = mcb_normal }) in
    store m2 q (record (m2 q) { m_psp = free_psp })

-- The end of `DosMemChange` after the rest of the block was joined.
unfoldable pub shrunk : ℕ → ℕ → Option ℕ → Option (Status × Memory) → Option Changed
unfolding take_over
shrunk p psp n none = none
shrunk p psp n (some (success, m)) = some (take_over m p psp n)
shrunk p psp n (some (e, m)) = some (changed de_mcbdestry n m)

unfoldable pub shrink : Memory → ℕ → ℕ → ℕ → Option ℕ → Option Changed
unfolding shrunk take_over
shrink m p psp size n =
    if ltb size (m p).m_size
    then shrunk p psp n (join_mcbs (cut_block m p size) (nxt_mcb_size p size))
    else some (take_over m p psp n)

-- The block was joined with what follows because it is to grow.
unfoldable pub grown : ℕ → ℕ → ℕ → Option ℕ → Option (Status × Memory) → Option Changed
unfolding shrink put_size
grown p psp size n none = none
grown p psp size n (some (success, m)) =
    if ltb (m p).m_size size
    then some (changed de_nomem (put_size n (m p).m_size) m)
    else shrink m p psp size n
grown p psp size n (some (e, m)) = some (changed de_mcbdestry n m)

-- `para` is the segment behind the header.
unfoldable pub dos_mem_change : Arena → ℕ → ℕ → Option ℕ → Option Changed
unfolding grown
dos_mem_change a para size n =
    let p = (para + seg_mod - 1) % seg_mod in
    if not (mcb_valid (a.mem p))
    then some (changed de_mcbdestry n a.mem)
    else if ltb (a.mem p).m_size size
    then grown p a.cu_psp size n (join_mcbs a.mem p)
    else shrink a.mem p a.cu_psp size n

-- The loop of `DosMemCheck`, without its messages.
unfoldable pub check_loop : ℕ → Memory → ℕ → Option Status
check_loop zero m p = none
check_loop (suc f) m p =
    let rest = check_loop f m (nxt_mcb m p) in
    if (m p).m_type == mcb_last
    then some success
    else if not ((m p).m_type == mcb_normal)
    then some de_mcbdestry
    else rest

unfoldable pub dos_mem_check : Arena → Option Status
dos_mem_check a = check_loop seg_mod a.mem a.first_mcb

-- Where the walk of `DosUmbLink` to upper memory ends: at an invalid header, or at `p` with `q` the
-- header before it.
pub data Approach : Type 0 where
  invalid : Approach
  arrived : ℕ → ℕ → Approach

unfoldable pub approach : ℕ → Memory → ℕ → ℕ → ℕ → Option Approach
approach zero m root p q = none
approach (suc f) m root p q =
    let rest = approach f m root (nxt_mcb m p) p in
    if p == root || (m p).m_type == mcb_last
    then some (arrived p q)
    else if not (mcb_valid (m p))
    then some invalid
    else rest

-- The end of `DosUmbLink`: the header before upper memory becomes the last one, or stops being it.
unfoldable pub relink : Arena → ℕ → ℕ → ℕ → Arena
unfolding store
relink a n p q =
    if n == 0
    then record a {
      mem =
          if (a.mem q).m_type == mcb_normal && p == a.uppermem_root
          then store a.mem q (record (a.mem q) { m_type = mcb_last })
          else a.mem;
      uppermem_link = n;
    }
    else if (a.mem p).m_type == mcb_last
    then record a {
      mem = store a.mem p (record (a.mem p) { m_type = mcb_normal });
      uppermem_link = n;
    }
    else a

-- `q0` is what the uninitialised `q` holds.
unfoldable pub dos_umb_link : ℕ → Arena → ℕ → Option Arena
unfolding relink
dos_umb_link q0 a n =
    if a.uppermem_root == 0xffff
    then some a
    else if ltb 1 n || a.uppermem_link % 2 == n
    then some a
    else elim (approach seg_mod a.mem a.uppermem_root a.first_mcb q0) [
      | none ↦ none
      | some w ↦ elim w [ invalid ↦ some a | arrived p q ↦ some (relink a n p q) ]
    ]

-- The loop of `FreeProcessMem`.
unfoldable pub free_loop : ℕ → ℕ → Memory → ℕ → Option (Status × Memory)
unfolding dos_mem_free
free_loop zero ps m p = none
free_loop (suc f) ps m p =
    let m' = if (m p).m_psp == ps then (dos_mem_free m p).1 else m in
    let rest = free_loop f ps m' (nxt_mcb m' p) in
    if not (mcb_valid (m p))
    then some (de_mcbdestry, m)
    else if (m' p).m_type == mcb_last
    then some (success, m')
    else rest

-- `FreeProcessMem` around its loop: upper memory is linked before, and put back only on success.
unfoldable pub free_linked : ℕ → ℕ → Arena → ℕ → Option (Status × Arena)
free_linked q0 old a ps = elim (free_loop seg_mod ps a.mem a.first_mcb) [
  | none ↦ none
  | some (st, m) ↦ elim st [
    | success ↦ elim (dos_umb_link q0 (record a { mem = m }) old) [
      | none ↦ none
      | some a' ↦ some (success, a')
    ]
    | other ↦ some (other, record a { mem = m })
  ]
]

unfoldable pub free_process_mem : ℕ → Arena → ℕ → Option (Status × Arena)
unfolding free_linked
free_process_mem q0 a ps = elim (dos_umb_link q0 a 1) [
  | none ↦ none
  | some a' ↦ free_linked q0 (a.uppermem_link % 2) a' ps
]
