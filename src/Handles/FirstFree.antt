-- ===== src/Handles/FirstFree.antt =====
-- kernel/dosfns.c: what `get_free_hndl` and `get_sft` find, told from the file table alone.
use burdah_dos_system.Base.{
  ℕ, zero, suc, ◌+◌, ◌<◌, ◌≤◌, none, some, ◌==◌, ◌≡◌, ◌≢◌, ◌⊎◌, inl, inr, refl, sym, subst,
  Bool-cases, Option-cases, arith,
}
use burdah_dos_system.Handles.{
  Psp, Sfttbl, get_sft_idx, get_sft, idx_to_sft, idx_to_sft_, find_free, get_free_hndl,
}
use burdah_dos_system.Handles.Calls.{count_at}
use burdah_dos_system.Handles.Refs.{get_free_hndl-free}

-- No byte of the first `n` of a file table is the mark of a free handle.
abbrev pub AllTaken : ℕ → (ℕ → ℕ) → Type 0
AllTaken zero tab = Unit
AllTaken (suc n) tab = AllTaken n tab × (tab n ≢ 0xff)

-- `h` is the first free handle of the process.
abbrev pub FirstFree : ℕ → Psp → Type 0
FirstFree h p = (h < p.ps_maxfiles) × (p.ps_filetab h ≡ 0xff) × AllTaken h p.ps_filetab

-- Handle `h` is behind the file table, free, or stands for no entry of the system file table that is
-- in use.
abbrev pub NotInUse : ℕ → Psp → Sfttbl → Type 0
NotInUse h p t =
    (p.ps_maxfiles ≤ h)
    ⊎ (p.ps_filetab h ≡ 0xff)
    ⊎ (count_at (p.ps_filetab h) t ≡ none)
    ⊎ (count_at (p.ps_filetab h) t ≡ some 0)

find_free-AllTaken :
    (k n h : ℕ) (tab : ℕ → ℕ) → AllTaken k tab → find_free k n tab ≡ some h → AllTaken h tab
unfolding find_free
find_free-AllTaken k zero h tab taken e = absurd cc
find_free-AllTaken k (suc n) h tab taken e = elim (Bool-cases (tab k == 0xff)) [
  | inl t ↦ let same : k ≡ h = ground (arith, t, e) in subst (λ j. AllTaken j tab) same taken
  | inr f ↦
      find_free-AllTaken (suc k) n h tab (taken, λ x. ground (arith, f, x)) (ground (arith, f, e))
]

find_free-none :
    (k n : ℕ) (tab : ℕ → ℕ) → AllTaken k tab → find_free k n tab ≡ none → AllTaken (k + n) tab
unfolding find_free
find_free-none k zero tab taken e = subst (λ j. AllTaken j tab) (omega arith) taken
find_free-none k (suc n) tab taken e = elim (Bool-cases (tab k == 0xff)) [
  | inl t ↦ absurd (ground (arith, t, e))
  | inr f ↦
      subst (λ j. AllTaken j tab) (omega arith)
        (find_free-none (suc k) n tab (taken, λ x. ground (arith, f, x)) (ground (arith, f, e)))
]

pub get_free_hndl-FirstFree : (h : ℕ) (p : Psp) → get_free_hndl p ≡ some h → FirstFree h p
unfolding get_free_hndl
get_free_hndl-FirstFree h p e =
    let (under, free) = get_free_hndl-free h p e in
    (under, free, find_free-AllTaken 0 p.ps_maxfiles h p.ps_filetab tt e)

pub get_free_hndl-AllTaken :
    (p : Psp) → get_free_hndl p ≡ none → AllTaken p.ps_maxfiles p.ps_filetab
unfolding get_free_hndl
get_free_hndl-AllTaken p e =
    subst (λ j. AllTaken j p.ps_filetab) (omega arith)
      (find_free-none 0 p.ps_maxfiles p.ps_filetab tt e)

idx_to_sft-unused :
    (i : ℕ) (t : Sfttbl) → idx_to_sft i t ≡ none → (count_at i t ≡ none) ⊎ (count_at i t ≡ some 0)
unfolding idx_to_sft
idx_to_sft-unused i t e = elim (Option-cases (idx_to_sft_ i t)) [
  | inl n ↦ inl (rw (n, count_at) refl)
  | inr (f, at) ↦ inr (rw (at, count_at) (ground (arith, rw (at, idx_to_sft) at e)))
]

get_sft_idx-none :
    (h : ℕ) (p : Psp) → get_sft_idx h p ≡ none → (p.ps_maxfiles ≤ h) ⊎ (p.ps_filetab h ≡ 0xff)
unfolding get_sft_idx
get_sft_idx-none h p e = ground arith

get_sft_idx-byte : (h i : ℕ) (p : Psp) → get_sft_idx h p ≡ some i → p.ps_filetab h ≡ i
unfolding get_sft_idx
get_sft_idx-byte h i p e = ground arith

get_sft-no_entry :
    (h i : ℕ) (p : Psp) (t : Sfttbl)
    → get_sft_idx h p ≡ some i
    → get_sft h p t ≡ none
    → idx_to_sft i t ≡ none
unfolding get_sft
get_sft-no_entry h i p t e n = elim (Option-cases (idx_to_sft i t)) [
  | inl o ↦ o
  | inr (f, at) ↦ absurd (ground (arith, rw (e, at, get_sft) at n))
]

pub get_sft-NotInUse : (h : ℕ) (p : Psp) (t : Sfttbl) → get_sft h p t ≡ none → NotInUse h p t
get_sft-NotInUse h p t n = elim (Option-cases (get_sft_idx h p)) [
  | inl o ↦ elim (get_sft_idx-none h p o) [ inl a ↦ inl a | inr b ↦ inr (inl b) ]
  | inr (i, e) ↦ inr (
      inr (
        subst (λ k. (count_at k t ≡ none) ⊎ (count_at k t ≡ some 0))
          (sym (get_sft_idx-byte h i p e)) (idx_to_sft-unused i t (get_sft-no_entry h i p t e n))))
]
