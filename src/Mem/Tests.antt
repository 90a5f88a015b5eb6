-- ===== src/Mem/Tests.antt =====
-- A small arena, and the theorems on the memory manager at it.
use burdah_dos_system.Base.{
  ℕ, ◌≡◌, refl, inl, inr, ◌+◌, some, none, List, [], ◌∷◌, false, arith, replicate,
}
use burdah_dos_system.Mem.{
  Mcb, Memory, Arena, store, mcb_normal, mcb_last, seg_mod, success, mcb_free, join_mcbs,
  de_mcbdestry, nxt_mcb,
}
use burdah_dos_system.Mem.Chain.{Seg, IsTyped, IsChain, SameOutside, owned}
use burdah_dos_system.Mem.Join.{absorb, Joined, join_mcbs-absorb}
use burdah_dos_system.Mem.Alloc.{
  Allocated, dos_mem_alloc, search_start, searches_again, claim_block,
}
use burdah_dos_system.Mem.Alloc.Visit.{FreeAt}
use burdah_dos_system.Mem.Alloc.Claim.{Granted, GrantedSize, FreeAt-Granted}
use burdah_dos_system.Mem.Alloc.Served.{Served}
use burdah_dos_system.Mem.Alloc.Correct.{dos_mem_alloc-Served}
use burdah_dos_system.Mem.Blocks.{Changed, dos_mem_change, dos_mem_free, dos_mem_check, free_loop}
use burdah_dos_system.Mem.Blocks.Free.{
  UsedAt, Released, dos_mem_free-Released, dos_mem_check-checked, LeadsTo,
}
use burdah_dos_system.Mem.Blocks.Process.{release_if, release_all, drop_owner, free_loop-drop_owner}
use burdah_dos_system.Mem.Blocks.Change.{Resized, dos_mem_change-Resized}

abbrev header : ℕ → ℕ → ℕ → Mcb
header t psp size = record { m_type = t; m_psp = psp; m_size = size; m_name = replicate 8 0 }

-- An unused block, one in use by process 0x50, two unused ones.
abbrev low : Mcb
low = header mcb_normal 0 0x10

abbrev program : Mcb
program = header mcb_normal 0x50 4

abbrev middle : Mcb
middle = header mcb_normal 0 3

abbrev high : Mcb
high = header mcb_last 0 8

abbrev memory : Memory
memory =
    store (store (store (store (λ a. header 0 0 0) 0x100 low) 0x111 program) 0x116 middle) 0x11a
      high

abbrev arena : Arena
arena = record {
  mem = memory;
  first_mcb = 0x100;
  uppermem_link = 0;
  uppermem_root = 0xffff;
  mem_access_mode = 0;
  cu_psp = 0x60;
}

abbrev tail : List Mcb
tail = program ∷ middle ∷ high ∷ []

chain-Seg : Seg memory 0x100 (low ∷ tail) 0x123
unfolding store
chain-Seg = (refl, (refl, (refl, (refl, refl))))

chain-IsTyped : IsTyped low tail
chain-IsTyped = (refl, (refl, (refl, refl)))

chain : IsChain memory 0x100 low tail 0x123
chain = record {
  seg = chain-Seg;
  typed = chain-IsTyped;
  start_pos = omega arith;
  bounded = omega arith;
}

program-Seg : Seg memory 0x111 tail 0x123
unfolding store
program-Seg = (refl, (refl, (refl, refl)))

program-IsChain : IsChain memory 0x111 program (middle ∷ high ∷ []) 0x123
program-IsChain = record {
  seg = program-Seg;
  typed = (refl, (refl, refl));
  start_pos = omega arith;
  bounded = omega arith;
}

start_low : search_start arena 5 0 ≡ 0x100
unfolding search_start
start_low = refl

search-IsChain : IsChain memory (search_start arena 5 0) low tail 0x123
unfolding search_start
search-IsChain = chain

one_search : searches_again arena 0 ≡ false
unfolding searches_again
one_search = refl

program_used : UsedAt 0x100 (low ∷ tail) 0x111
unfolding mcb_free
program_used = inr (inl (refl, refl))

high_free : FreeAt 0x100 (low ∷ tail) 0x11a 8
unfolding mcb_free
high_free = inr (inr (inr (inl (refl, refl, omega arith))))

dos_mem_alloc-Served_example :
    (r : Allocated) × (dos_mem_alloc arena 5 0 0 none ≡ some r)
    × Served arena 5 0 (search_start arena 5 0) (low ∷ tail) 0x123 none r
dos_mem_alloc-Served_example =
    dos_mem_alloc-Served arena 5 0 0 none low tail 0x123 search-IsChain (omega arith) one_search

dos_mem_change-Resized_example :
    (r : Changed) × (dos_mem_change arena (0x111 + 1) 0x20 none ≡ some r)
    × Resized arena 0x111 program (middle ∷ high ∷ []) 0x123 0x20 none r
dos_mem_change-Resized_example =
    dos_mem_change-Resized arena 0x111 0x20 none program (middle ∷ high ∷ []) 0x123 program-IsChain

dos_mem_free-Released_example :
    (g : Memory) × (c : Mcb) × (cs : List Mcb) × (dos_mem_free memory 0x111 ≡ (success, g))
    × Released memory 0x100 (low ∷ tail) 0x123 0x111 g c cs
dos_mem_free-Released_example =
    dos_mem_free-Released memory 0x100 low tail 0x123 0x111 chain program_used

-- The arena with the header of the third block overwritten.
abbrev damaged : Arena
damaged = record arena { mem = store memory 0x116 (header 0 0 3) }

damaged-LeadsTo : LeadsTo damaged.mem 0x100 2 (header 0 0 3)
unfolding store nxt_mcb
damaged-LeadsTo = (refl, (refl, refl))

dos_mem_check-checked_example : dos_mem_check damaged ≡ some de_mcbdestry
dos_mem_check-checked_example =
    dos_mem_check-checked damaged 2 (header 0 0 3) damaged-LeadsTo (omega arith) (omega arith)

free_loop-drop_owner_example :
    (g : Memory) × (free_loop seg_mod 0x50 memory 0x100 ≡ some (success, g))
    × IsChain g 0x100 (release_if 0x50 low) (release_all 0x50 tail) 0x123
    × (owned 0x100 (release_all 0x50 (low ∷ tail)) ≡ drop_owner 0x50 (owned 0x100 (low ∷ tail)))
    × SameOutside 0x100 0x123 memory g
free_loop-drop_owner_example =
    free_loop-drop_owner 0x50 memory 0x100 low tail 0x123 chain (omega arith)

join_mcbs-absorb_example :
    (g : Memory) × (join_mcbs memory 0x111 ≡ some (success, g))
    × Joined memory 0x111 (absorb program (middle ∷ high ∷ [])) 0x123 g
join_mcbs-absorb_example =
    join_mcbs-absorb memory 0x111 program (middle ∷ high ∷ []) 0x123 program-Seg
      (refl, (refl, refl)) (omega arith)

FreeAt-Granted_example :
    (c : Mcb) × (cs : List Mcb) × Granted memory 0x60 0x100
      (low ∷ tail)
      0x123
      (claim_block memory 0x60 2 5 0x11a).0
      (claim_block memory 0x60 2 5 0x11a).1
      c
      cs
    × GrantedSize 2 5 (claim_block memory 0x60 2 5 0x11a).1 (claim_block memory 0x60 2 5 0x11a).0
FreeAt-Granted_example =
    FreeAt-Granted memory 0x60 2 5 0x100 tail 0x123 0x11a 8 low chain-Seg chain-IsTyped
      (omega arith) (omega arith) (omega arith) high_free
