-- ===== src/Mem.antt =====
-- kernel/memmgr.c: the arena of memory control blocks (MCBs). A conventional paragraph is as large
-- as an `mcb`, and the code reaches headers only at offset 0 of a segment, so memory is a function
-- from segments to headers. Segments and sizes are `UWORD`s, with their wrap-around written out.
pub mod Chain
pub mod Join
pub mod Alloc
pub mod Blocks
mod Tests
use burdah_dos_system.Base.{
  ℕ, zero, suc, ◌+◌, ◌%◌, Bool, not, ◌&&◌, ◌||◌, Option, none, some, List, ◌==◌, if◌then◌else◌,
}

-- The results of the memory manager (`COUNT`): `SUCCESS` and the codes of hdr/error.h that it uses.
pub data Status : Type 0 where
  success de_mcbdestry de_nomem de_invldmcb : Status

-- `mcb`; `m_fill` is never read or written by name.
pub record Mcb : Type 0 where
  pub m_type : ℕ
  pub m_psp : ℕ
  pub m_size : ℕ
  pub m_name : List ℕ

abbrev pub Memory : Type 0
Memory = ℕ → Mcb

-- `*(mcb FAR *)MK_FP(p, 0) = c`
unfoldable pub store : Memory → ℕ → Mcb → Memory
store m p c a = if a == p then c else m a

abbrev pub mcb_normal : ℕ
mcb_normal = 0x4d

abbrev pub mcb_last : ℕ
mcb_last = 0x5a

abbrev pub free_psp : ℕ
free_psp = 0

abbrev pub seg_mod : ℕ
seg_mod = 0x10000

-- The segment behind a block of `size` paragraphs whose header is at `p`.
unfoldable pub nxt_mcb_size : ℕ → ℕ → ℕ
nxt_mcb_size p size = (p + size + 1) % seg_mod

unfoldable pub nxt_mcb : Memory → ℕ → ℕ
unfolding nxt_mcb_size
nxt_mcb m p = nxt_mcb_size p (m p).m_size

unfoldable pub mcb_free : Mcb → Bool
mcb_free c = c.m_psp == free_psp

unfoldable pub mcb_freeable : Mcb → Bool
mcb_freeable c = c.m_type == mcb_normal || c.m_type == mcb_last

unfoldable pub mcb_valid : Mcb → Bool
unfolding mcb_freeable
mcb_valid c = not (c.m_size == 0xffff) && mcb_freeable c

-- The body of the loop of `joinMCBs`: `p` takes the type and the room of `q`, and `q` becomes "fake".
unfoldable pub absorb_next : Memory → ℕ → ℕ → Memory
unfolding store
absorb_next m p q =
    let m1 = store m p (record (m p) {
      m_type = (m q).m_type;
      m_size = ((m p).m_size + (m q).m_size + 1) % seg_mod;
    }) in
    store m1 q (record (m1 q) { m_size = 0xffff })

-- The loop of `joinMCBs`; `none` means that the fuel ran out.
unfoldable pub join_loop : ℕ → Memory → ℕ → Option (Status × Memory)
unfolding nxt_mcb mcb_free mcb_valid absorb_next
join_loop zero m p = none
join_loop (suc f) m p =
    let q = nxt_mcb m p in
    let rest = join_loop f (absorb_next m p q) p in
    if not ((m p).m_type == mcb_normal) || not (mcb_free (m q))
    then some (success, m)
    else if not (mcb_valid (m q))
    then some (de_mcbdestry, m)
    else rest

unfoldable pub join_mcbs : Memory → ℕ → Option (Status × Memory)
unfolding join_loop
join_mcbs m p = join_loop seg_mod m p

-- The globals that the memory manager reads and writes, with the memory that it manages.
pub record Arena : Type 0 where
  pub mem : Memory
  pub first_mcb : ℕ
  pub uppermem_link : ℕ
  pub uppermem_root : ℕ
  pub mem_access_mode : ℕ
  pub cu_psp : ℕ
