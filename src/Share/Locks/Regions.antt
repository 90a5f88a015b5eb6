-- ===== src/Share/Locks/Regions.antt =====
-- The region test of `access_check` against the overlap of two intervals.
use burdah_dos_system.Base.{ℕ, ◌<◌, ◌≡◌, ◌↔◌, true, arith}
use burdah_dos_system.Share.Locks.{region_hit}

-- The half-open regions have an offset in common.
abbrev pub Overlap : ℕ → ℕ → ℕ → ℕ → Type 0
Overlap ofs endofs start end = (ofs < end) × (start < endofs)

-- For regions that are not empty the test of `access_check` holds exactly if the two overlap, unless
-- the requested one encloses the locked one with room on both sides: then it fails.
pub region_hit-Overlap :
    (ofs endofs start end : ℕ)
    → ofs < endofs
    → start < end
    → (region_hit ofs endofs start end ≡ true)
      ↔ (Overlap ofs endofs start end × ¬ ((ofs < start) × (end < endofs)))
unfolding region_hit
region_hit-Overlap ofs endofs start end p q = ground arith
