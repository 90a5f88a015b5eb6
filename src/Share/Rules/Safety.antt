-- ===== src/Share/Rules/Safety.antt =====
-- The share rules against what the sharing modes mean.
use burdah_dos_system.Base.{
  ℕ, ◌<◌, ◌≡◌, refl, Bool, true, false, not, ◌&&◌, ◌||◌, ltb, ◌==◌, arith, passes_under,
  passes_under-at,
}
use burdah_dos_system.Share.Rules.{Verdict, proceed, open_action, verdict}

-- An open with sharing mode `share` keeps others from opening with `mode`: 1 denies all, 2 writing,
-- 3 reading.
abbrev pub denies : ℕ → ℕ → Bool
denies share mode = share == 1 || (share == 2 && not (mode == 0)) || (share == 3 && not (mode == 1))

abbrev proceeds : Verdict → Bool
proceeds v = elim v [ proceed ↦ true | _ ↦ false ]

-- Whether both opens are in compatibility mode (0) or neither is.
abbrev pub same_kind : ℕ → ℕ → Bool
same_kind fs cs = (fs == 0 && cs == 0) || (ltb 0 fs && ltb 0 cs)

-- What is to hold of each combination of two opens.
abbrev respected : ℕ → ℕ → ℕ → ℕ → Bool
respected fs fo cs co =
    not (proceeds (verdict (open_action fs fo cs co)))
    || (not (denies fs co) && not (denies cs fo) && (same_kind fs cs || fo == 0))

respected_table :
    passes_under 5
      (λ fs. passes_under 3 (λ fo. passes_under 5 (λ cs. passes_under 3 (respected fs fo cs))))
    ≡ true
unfolding passes_under open_action verdict
respected_table = refl

respected_all : (fs fo cs co : ℕ) → fs < 5 → fo < 3 → cs < 5 → co < 3 → respected fs fo cs co ≡ true
respected_all fs fo cs co a b c d =
    passes_under-at 3 (respected fs fo cs) co
      (passes_under-at 5 (λ cs. passes_under 3 (respected fs fo cs)) cs
        (passes_under-at 3 (λ fo. passes_under 5 (λ cs. passes_under 3 (respected fs fo cs))) fo
          (passes_under-at 5
            (λ fs.
              passes_under 3 (λ fo. passes_under 5 (λ cs. passes_under 3 (respected fs fo cs))))
            fs respected_table a)
          b)
        c)
      d

-- When the rules let a second open go ahead, in whatever sharing modes (0 to 4, compatibility mode
-- among them) and open modes (0 to 2), neither of the two opens makes an access that the other one
-- denies; and if one of them is in compatibility mode and the other is not, the first one only reads.
pub open_action-denies :
    (fs fo cs co : ℕ)
    → fs < 5
    → fo < 3
    → cs < 5
    → co < 3
    → verdict (open_action fs fo cs co) ≡ proceed
    → (denies fs co ≡ false) × (denies cs fo ≡ false) × (same_kind fs cs || fo == 0 ≡ true)
open_action-denies fs fo cs co a b c d h = ground (arith, respected_all fs fo cs co a b c d)
