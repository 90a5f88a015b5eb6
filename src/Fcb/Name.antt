-- ===== src/Fcb/Name.antt =====
-- kernel/fcbfns.c: what parsing a name leaves in a file control block.
use burdah_dos_system.Base.{
  ℕ, Bool, true, false, ◌||◌, ◌⊎◌, List, [], ◌∷◌, length, replicate, ◌==◌, if◌then◌else◌, ◌≡◌,
  bit_and,
}
use burdah_dos_system.Fcb.{Fcb, Parsed, skip_seps, parse_skip_wh}

module _ (up : ℕ → ℕ) (has_cds : ℕ → Bool) where
  -- Whether a field has the mark of a wildcard, `?`.
  abbrev pub has_mark : List ℕ → Bool
  has_mark [] = false
  has_mark (c ∷ cs) = c == 0x3f || has_mark cs

  -- What a parse leaves that blanks both fields first: the fields have their 8 and 3 bytes, and AL says
  -- whether one of them has the mark of a wildcard, or that the drive is bad.
  pub record IsParsed (bad : Bool) (p : Parsed) : Type 0 where
    pub name : length p.fcb.fcb_fname ≡ 8
    pub ext : length p.fcb.fcb_fext ≡ 3
    pub told :
        ((bad ≡ true) × (p.test_mode ≡ 0xff))
        ⊎ (p.test_mode ≡ (if has_mark p.fcb.fcb_fname || has_mark p.fcb.fcb_fext then 1 else 0))

  IsBlank : Fcb → Type 0
  IsBlank f = (f.fcb_fname ≡ replicate 8 0x20) × (f.fcb_fext ≡ replicate 3 0x20)

  module _ (same : (c : ℕ) → (up c == 0x3f) ≡ (c == 0x3f)) where
    -- The text in which `FcbParseFname` looks for a drive.
    abbrev pub from_drive : (mode : ℕ) → List ℕ → List ℕ
    from_drive mode text = parse_skip_wh (if bit_and mode 0x01 == 0 then text else skip_seps text)
