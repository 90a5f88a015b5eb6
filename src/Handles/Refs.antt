-- ===== src/Handles/Refs.antt =====
-- kernel/dosfns.c: how many handles stand for an entry of the system file table.
use burdah_dos_system.Base.{
  ℕ, zero, suc, ◌+◌, ◌<◌, ◌≤◌, Option, none, some, List, [], ◌∷◌, ◌==◌, if◌then◌else◌, ◌≡◌, ◌≢◌,
  inl, inr, refl, sym, ap, ◌∙◌, Bool-cases, Option-cases, arith,
}
use burdah_dos_system.Handles.{
  Psp, Sft, Sfttbl, get_sft_idx, get_sft, idx_to_sft, idx_to_sft_, store_handle, find_free,
  get_free_hndl,
}
use burdah_dos_system.Handles.Table.{idx_to_sft-use}

-- Of the first `n` bytes of a file table, those that hold `i`.
unfoldable pub refs_under : (n i : ℕ) → (ℕ → ℕ) → ℕ
refs_under zero i tab = 0
refs_under (suc n) i tab = (if tab n == i then 1 else 0) + refs_under n i tab

unfoldable pub refs : (i : ℕ) → Psp → ℕ
unfolding refs_under
refs i p = refs_under p.ps_maxfiles i p.ps_filetab

unfoldable pub refs_all : (i : ℕ) → List Psp → ℕ
unfolding refs
refs_all i [] = 0
refs_all i (p ∷ ps) = refs i p + refs_all i ps

refs_under-store_beyond :
    (n i h v : ℕ) (tab : ℕ → ℕ)
    → n ≤ h
    → refs_under n i (λ x. if x == h then v else tab x) ≡ refs_under n i tab
unfolding refs_under
refs_under-store_beyond zero i h v tab b = refl
refs_under-store_beyond (suc n) i h v tab b =
    ground (arith, refs_under-store_beyond n i h v tab (omega arith))

refs_under-store :
    (n i h v : ℕ) (tab : ℕ → ℕ)
    → h < n
    → refs_under n i (λ x. if x == h then v else tab x) + (if tab h == i then 1 else 0)
      ≡ refs_under n i tab + (if v == i then 1 else 0)
unfolding refs_under
refs_under-store zero i h v tab b = absurd (omega arith)
refs_under-store (suc n) i h v tab b = elim (Bool-cases (n == h)) [
  | inl t ↦
      let same : h ≡ n = ground arith in
      ground (arith, t, ap tab same, refs_under-store_beyond n i h v tab (omega arith))
  | inr f ↦ ground (arith, f, refs_under-store n i h v tab (ground arith))
]

-- Storing a value at a handle: one reference less to what stood there, and one more to the value.
pub refs-store :
    (i h v : ℕ) (p : Psp)
    → h < p.ps_maxfiles
    → refs i (store_handle h v p) + (if p.ps_filetab h == i then 1 else 0)
      ≡ refs i p + (if v == i then 1 else 0)
unfolding refs store_handle
refs-store i h v p b = refs_under-store p.ps_maxfiles i h v p.ps_filetab b

pub refs-store_beyond :
    (i h v : ℕ) (p : Psp) → p.ps_maxfiles ≤ h → refs i (store_handle h v p) ≡ refs i p
unfolding refs store_handle
refs-store_beyond i h v p b = refs_under-store_beyond p.ps_maxfiles i h v p.ps_filetab b

find_free-found :
    (k n h : ℕ) (tab : ℕ → ℕ) → find_free k n tab ≡ some h → (k ≤ h) × (h < k + n) × (tab h ≡ 0xff)
unfolding find_free
find_free-found k zero h tab e = absurd cc
find_free-found k (suc n) h tab e = elim (Bool-cases (tab k == 0xff)) [
  | inl t ↦
      let same : k ≡ h = ground (arith, t, e) in
      (omega arith, omega arith, sym (ap tab same) ∙ ground arith)
  | inr f ↦
      let (low, high, free) = find_free-found (suc k) n h tab (ground (arith, f, e)) in
      (omega arith, omega arith, free)
]

pub get_free_hndl-free :
    (h : ℕ) (p : Psp) → get_free_hndl p ≡ some h → (h < p.ps_maxfiles) × (p.ps_filetab h ≡ 0xff)
unfolding get_free_hndl
get_free_hndl-free h p e =
    let (low, high, free) = find_free-found 0 p.ps_maxfiles h p.ps_filetab e in (omega arith, free)

get_sft_idx-found :
    (h i : ℕ) (p : Psp)
    → get_sft_idx h p ≡ some i
    → (h < p.ps_maxfiles) × (p.ps_filetab h ≡ i) × (i ≢ 0xff)
unfolding get_sft_idx
get_sft_idx-found h i p e = (ground arith, ground arith, λ x. ground arith)

-- A handle that `get_sft` accepts: its byte is the index of an entry in use.
pub get_sft-found :
    (h i : ℕ) (s : Sft) (p : Psp) (t : Sfttbl)
    → get_sft h p t ≡ some (i, s)
    → (h < p.ps_maxfiles)
      × (p.ps_filetab h ≡ i)
      × (i ≢ 0xff)
      × (idx_to_sft_ i t ≡ some s)
      × (0 < s.sft_count)
unfolding get_sft get_sft_idx
get_sft-found h i s p t e = elim (Option-cases (get_sft_idx h p)) [
  | inl n ↦ absurd (ground (arith, rw (n, get_sft) at e))
  | inr (j, ej) ↦
      let second = rw (ej, get_sft) at e in
      elim (Option-cases (idx_to_sft j t)) [
        | inl n ↦ absurd (ground (arith, rw n at second))
        | inr (x, ex) ↦
            let both = rw ex at second in
            let same : j ≡ i = ground (arith, both) in
            let found : idx_to_sft i t ≡ some s =
              ap (λ k. idx_to_sft k t) (sym same)
              ∙ ex
              ∙ ap (λ o. elim o as (λ q. Option Sft) [ none ↦ none | some q ↦ some q.1 ]) both in
            let (under, byte, open_) = get_sft_idx-found h i p (ej ∙ ap some same) in
            let (at, used) = idx_to_sft-use i t s found in (under, byte, open_, at, used)
      ]
]
