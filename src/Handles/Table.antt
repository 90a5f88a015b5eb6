-- ===== src/Handles/Table.antt =====
-- kernel/dosfns.c: what stores into the system file table do to the counts of its entries.
use burdah_dos_system.Base.{
  ℕ, zero, suc, ◌+◌, ◌-◌, ◌<◌, false, Option, none, some, List, [], ◌∷◌, length, get_elem?, ltb,
  ◌==◌, if◌then◌else◌, ◌≡◌, ◌≢◌, inl, inr, refl, sym, ap, ◌∙◌, Bool-cases, Option-cases, arith,
}
use burdah_dos_system.Handles.{
  Sft, Sfttbl, idx_to_sft_, alter, alter_sft, idx_to_sft, free_in_block, free_from, get_free_sft,
}
use burdah_dos_system.Handles.Calls.{count_at}

length-alter : (i : ℕ) (f : Sft → Sft) (b : List Sft) → length (alter i f b) ≡ length b
unfolding alter
length-alter i f [] = refl
length-alter zero f (s ∷ b) = refl
length-alter (suc i) f (s ∷ b) = ap suc (length-alter i f b)

get-alter :
    (i : ℕ) (f : Sft → Sft) (b : List Sft) (s : Sft)
    → get_elem? b i ≡ some s
    → get_elem? (alter i f b) i ≡ some (f s)
unfolding alter
get-alter i f [] s h = absurd cc
get-alter zero f (x ∷ b) s h = cc
get-alter (suc i) f (x ∷ b) s h = get-alter i f b s h

get-alter_other :
    (i j : ℕ) (f : Sft → Sft) (b : List Sft) → j ≢ i → get_elem? (alter i f b) j ≡ get_elem? b j
unfolding alter
get-alter_other i j f [] h = refl
get-alter_other zero zero f (x ∷ b) h = absurd (h refl)
get-alter_other zero (suc j) f (x ∷ b) h = refl
get-alter_other (suc i) zero f (x ∷ b) h = refl
get-alter_other (suc i) (suc j) f (x ∷ b) h = get-alter_other i j f b (λ e. h (ap suc e))

pub idx_to_sft_-alter_sft :
    (i : ℕ) (f : Sft → Sft) (t : Sfttbl) (s : Sft)
    → idx_to_sft_ i t ≡ some s
    → idx_to_sft_ i (alter_sft i f t) ≡ some (f s)
unfolding idx_to_sft_ alter_sft
idx_to_sft_-alter_sft i f [] s h = absurd cc
idx_to_sft_-alter_sft i f (b ∷ bs) s h = elim (Bool-cases (ltb i (length b))) [
  | inl t ↦
      rw (t, idx_to_sft_)
        (rw (length-alter i f b, t)
          (get-alter i f b s
            (ap (λ c. if c then get_elem? b i else idx_to_sft_ (i - length b) bs) (sym t) ∙ h)))
  | inr n ↦
      rw (n, idx_to_sft_)
        (rw n (
          idx_to_sft_-alter_sft (i - length b) f bs s
            (ap (λ c. if c then get_elem? b i else idx_to_sft_ (i - length b) bs) (sym n) ∙ h)))
]

pub idx_to_sft_-alter_sft_other :
    (i j : ℕ) (f : Sft → Sft) (t : Sfttbl)
    → j ≢ i
    → idx_to_sft_ j (alter_sft i f t) ≡ idx_to_sft_ j t
unfolding idx_to_sft_ alter_sft
idx_to_sft_-alter_sft_other i j f [] h = refl
idx_to_sft_-alter_sft_other i j f (b ∷ bs) h = elim (Bool-cases (ltb i (length b))) [
  | inl t ↦ rw (t, idx_to_sft_) (rw (length-alter i f b, get-alter_other i j f b h) refl)
  | inr n ↦ elim (Bool-cases (ltb j (length b))) [
    | inl t ↦ rw (n, idx_to_sft_) (rw t refl)
    | inr m ↦
        rw (n, idx_to_sft_)
          (rw m (
            idx_to_sft_-alter_sft_other (i - length b) (j - length b) f bs (λ e. h (ground arith))))
  ]
]

pub count-some :
    (i : ℕ) (t : Sfttbl) (s : Sft) → idx_to_sft_ i t ≡ some s → count_at i t ≡ some s.sft_count
count-some i t s h =
    ap (λ o. elim o as (λ x. Option ℕ) [ none ↦ none | some s ↦ some s.sft_count ]) h

pub some-count :
    (i n : ℕ) (t : Sfttbl)
    → count_at i t ≡ some n
    → (s : Sft) × (idx_to_sft_ i t ≡ some s) × (s.sft_count ≡ n)
some-count i n t h = elim (Option-cases (idx_to_sft_ i t)) [
  | inl e ↦ absurd (ground (arith, e, h))
  | inr (s, e) ↦ (s, e, ground (arith, e, h, count-some i t s e))
]

pub count-alter_sft :
    (i : ℕ) (f : Sft → Sft) (t : Sfttbl) (s : Sft)
    → idx_to_sft_ i t ≡ some s
    → count_at i (alter_sft i f t) ≡ some (f s).sft_count
count-alter_sft i f t s h = count-some i (alter_sft i f t) (f s) (idx_to_sft_-alter_sft i f t s h)

pub count-alter_sft_other :
    (i j : ℕ) (f : Sft → Sft) (t : Sfttbl) → j ≢ i → count_at j (alter_sft i f t) ≡ count_at j t
count-alter_sft_other i j f t h =
    ap (λ o. elim o as (λ x. Option ℕ) [ none ↦ none | some s ↦ some s.sft_count ])
      (idx_to_sft_-alter_sft_other i j f t h)

pub idx_to_sft-use :
    (i : ℕ) (t : Sfttbl) (s : Sft)
    → idx_to_sft i t ≡ some s
    → (idx_to_sft_ i t ≡ some s) × (0 < s.sft_count)
unfolding idx_to_sft
idx_to_sft-use i t s h = elim (Option-cases (idx_to_sft_ i t)) [
  | inl e ↦ absurd (ground (arith, e, h))
  | inr (x, e) ↦
      let picked = rw (e, idx_to_sft) at h in
      elim (Bool-cases (x.sft_count == 0)) [
        | inl t ↦ absurd (ground (arith, t, picked))
        | inr f ↦ let same = rw f at picked in (e ∙ same, ground (arith, f, same))
      ]
]

free_in_block-found :
    (k i : ℕ) (b : List Sft)
    → free_in_block k b ≡ some i
    → (n : ℕ) × (i ≡ k + n)
      × (n < length b)
      × (s : Sft) × (get_elem? b n ≡ some s)
      × (s.sft_count ≡ 0)
unfolding free_in_block
free_in_block-found k i [] h = absurd cc
free_in_block-found k i (s ∷ b) h = elim (Bool-cases (s.sft_count == 0)) [
  | inl t ↦ (0, ground (arith, t, h), omega arith, s, refl, ground arith)
  | inr f ↦
      let (n, e, under, x, at, free) = free_in_block-found (suc k) i b (ground (arith, f, h)) in
      (suc n, omega arith, omega arith, x, at, free)
]

free_from-found :
    (k i : ℕ) (t : Sfttbl)
    → free_from k t ≡ some i
    → (n : ℕ) × (i ≡ k + n) × (s : Sft) × (idx_to_sft_ n t ≡ some s) × (s.sft_count ≡ 0)
unfolding free_from idx_to_sft_
free_from-found k i [] h = absurd cc
free_from-found k i (b ∷ bs) h = elim (Option-cases (free_in_block k b)) [
  | inl e ↦
      let (n, at, s, found, free) = free_from-found (k + length b) i bs (rw (e, free_from) at h) in
      let behind : ltb (length b + n) (length b) ≡ false = ground arith in
      let back : length b + n - length b ≡ n = omega arith in
      (length b + n, omega arith, s, rw (behind, back) found, free)
  | inr (x, e) ↦
      let (n, at, under, s, found, free) = free_in_block-found k x b e in
      (n, ground (arith, rw (e, free_from) at h), s, ground (arith, found), free)
]

pub get_free_sft-free : (i : ℕ) (t : Sfttbl) → get_free_sft t ≡ some i → count_at i t ≡ some 0
unfolding get_free_sft
get_free_sft-free i t h =
    let (n, at, s, found, free) = free_from-found 0 i t h in
    let same : i ≡ n = omega arith in
    ap (λ x. count_at x t) same ∙ count-some n t s found ∙ ap some free
