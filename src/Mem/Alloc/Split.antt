-- ===== src/Mem/Alloc/Split.antt =====
-- Taking a block, or a part of it, for a request: the end of `DosMemAlloc`.
use burdah_dos_system.Base.{ℕ, ◌+◌, ◌-◌, ◌≤◌, ◌<◌, ◌≡◌, ◌≢◌, ◌⊎◌, true, false, arith, ◌==◌, set}
use burdah_dos_system.Mem.{Mcb, Memory, mcb_normal, seg_mod, free_psp, store}
use burdah_dos_system.Mem.Alloc.{mode_largest, is_last_fit, split_block, claim_block}

-- The block that goes to the process `psp`.
abbrev pub owned_by : ℕ → Mcb → Mcb
owned_by psp b = record b { m_psp = psp; m_name = set b.m_name 0 0 }

-- What is left unused in front of a block taken from the end, or behind one taken from the start.
abbrev pub front_rest : ℕ → Mcb → Mcb
front_rest size b = record b { m_type = mcb_normal; m_psp = free_psp; m_size = b.m_size - size - 1 }

module _ (m : Memory) (psp mode size p : ℕ) where
  pub claim_whole :
      ((mode == mode_largest) ≡ true) ⊎ (size ≡ (m p).m_size)
      → claim_block m psp mode size p ≡ (store m p (owned_by psp (m p)), p)
  unfolding claim_block
  claim_whole h = ground arith

  split_parts :
      (mode == mode_largest) ≡ false
      → size < (m p).m_size
      → let (g, new) = split_block m mode size p in
        claim_block m psp mode size p ≡ (store g new (owned_by psp (g new)), new)
  unfolding claim_block
  split_parts h lt = ground arith

-- The headers that a split leaves, for a block that does not reach beyond the address space.
module _ (m : Memory) (psp mode size p : ℕ) (b : Mcb) (at : m p ≡ b)
    (plain : (mode == mode_largest) ≡ false) (lt : size < b.m_size)
    (le : p + b.m_size + 1 ≤ seg_mod) where
  pub claim_end :
      is_last_fit mode ≡ true
      → let new = p + (b.m_size - size) in
        let (g, a) = claim_block m psp mode size p in
        (a ≡ new)
        × (g p ≡ front_rest size b)
        × (g new ≡ record (owned_by psp (m new)) { m_type = b.m_type; m_size = size })
        × ((a' : ℕ) → a' ≢ p → a' ≢ new → g a' ≡ m a')
  unfolding claim_block
  claim_end h = (ground arith, ground arith, ground arith, λ a' e f. ground arith)

  pub claim_start :
      is_last_fit mode ≡ false
      → let rest = p + size + 1 in
        let (g, a) = claim_block m psp mode size p in
        (a ≡ p)
        × (g p ≡ record (owned_by psp b) { m_type = mcb_normal; m_size = size })
        × (g rest
            ≡ record (m rest) { m_type = b.m_type; m_psp = free_psp; m_size = b.m_size - size - 1 })
        × ((a' : ℕ) → a' ≢ p → a' ≢ rest → g a' ≡ m a')
  unfolding claim_block
  claim_start h = (ground arith, ground arith, ground arith, λ a' e f. ground arith)
