-- ===== src/Handles/Resize.antt =====
-- kernel/newstuff.c: a process that is given more handles, or fewer, stands for no entry more often.
use burdah_dos_system.Base.{
  ℕ, zero, suc, ◌≤◌, Option, ltb, leb, ◌==◌, if◌then◌else◌, ◌≡◌, ◌≢◌, inl, inr, refl, ap,
  Bool-cases, Option-cases, arith,
}
use burdah_dos_system.Handles.{Psp, set_jft_size}
use burdah_dos_system.Handles.Refs.{refs_under, refs}

refs_under_mono : (a b i : ℕ) (tab : ℕ → ℕ) → a ≤ b → refs_under a i tab ≤ refs_under b i tab
unfolding refs_under
refs_under_mono a zero i tab le = ground (arith, le)
refs_under_mono a (suc b) i tab le = elim (Bool-cases (a == suc b)) [
  | inl y ↦ let same : a ≡ suc b = ground arith in ground (arith, ap (λ k. refs_under k i tab) same)
  | inr n ↦ ground (arith, refs_under_mono a b i tab (ground arith))
]

-- The table that a resize makes of `m` handles.
abbrev larger : (m n : ℕ) (tab behind : ℕ → ℕ) → ℕ → ℕ
larger m n tab behind h = if ltb h m then tab h else if ltb h n then 0xff else behind h

refs_kept :
    (k m n i : ℕ) (tab behind : ℕ → ℕ)
    → k ≤ m
    → refs_under k i (larger m n tab behind) ≡ refs_under k i tab
unfolding refs_under
refs_kept zero m n i tab behind le = refl
refs_kept (suc k) m n i tab behind le = ground (arith, refs_kept k m n i tab behind (omega arith))

refs_larger :
    (k m n i : ℕ) (tab behind : ℕ → ℕ)
    → i ≢ 0xff
    → k ≤ n
    → refs_under k i (larger m n tab behind) ≤ refs_under m i tab
unfolding refs_under
refs_larger zero m n i tab behind open_ le = omega arith
refs_larger (suc k) m n i tab behind open_ le = elim (Bool-cases (ltb k m)) [
  | inl y ↦
      let a = refs_kept (suc k) m n i tab behind (ground arith) in
      let b = refs_under_mono (suc k) m i tab (ground arith) in omega arith
  | inr f ↦ ground (arith, open_, f, refs_larger k m n i tab behind open_ (omega arith))
]

pub set_jft_size-refs :
    (i n : ℕ) (mem : Option (ℕ → ℕ)) (p : Psp)
    → i ≢ 0xff
    → refs i (set_jft_size n mem p).1 ≤ refs i p
unfolding set_jft_size refs
set_jft_size-refs i n mem p open_ = elim (Bool-cases (leb n p.ps_maxfiles)) [
  | inl y ↦ rw (y, set_jft_size) (refs_under_mono n p.ps_maxfiles i p.ps_filetab (ground arith))
  | inr f ↦ elim (Option-cases mem) [
    | inl e ↦ rw (f, e, set_jft_size) (omega arith)
    | inr (behind, e) ↦
        rw (f, e, set_jft_size)
          (refs_larger n p.ps_maxfiles n i p.ps_filetab behind open_ (omega arith))
  ]
]
