-- ===== src/Mem/Chain.antt =====
-- Chains of control blocks, kernel/memmgr.c: the list of headers that the links of a stretch of
-- memory run through.
use burdah_dos_system.Base.{
  refl, ◌∙◌, ℕ, ◌+◌, ◌≤◌, ◌<◌, ◌≡◌, ◌≢◌, ◌⊎◌, true, false, List, [], ◌∷◌, ◌++◌, arith, length,
  if◌then◌else◌,
}
use mathlib.Core.Path.{subst}
use burdah_dos_system.Mem.{
  Mcb, Memory, mcb_normal, mcb_last, mcb_free, mcb_valid, store, nxt_mcb, seg_mod,
}

-- The links lead from header `p` through the headers `bs` to segment `q`.
abbrev pub Seg : Memory → ℕ → List Mcb → ℕ → Type 0
Seg m p [] q = p ≡ q
Seg m p (b ∷ bs) q = (m p ≡ b) × Seg m (p + b.m_size + 1) bs q

-- Every header but the last is 'M', and the last is 'Z'.
abbrev pub IsTyped : Mcb → List Mcb → Type 0
IsTyped b [] = b.m_type ≡ mcb_last
IsTyped b (c ∷ bs) = (b.m_type ≡ mcb_normal) × IsTyped c bs

-- Paragraphs that headers and blocks take up.
abbrev pub span : List Mcb → ℕ
span [] = 0
span (b ∷ bs) = b.m_size + 1 + span bs

-- `g` is `m` outside the segments from `p` up to `q`.
abbrev pub SameOutside : ℕ → ℕ → Memory → Memory → Type 0
SameOutside p q m g = (a : ℕ) → (a < p) ⊎ (q ≤ a) → g a ≡ m a

-- The blocks in use, with their headers' segments.
abbrev pub owned : ℕ → List Mcb → List (ℕ × Mcb)
owned p [] = []
owned p (b ∷ bs) =
    if mcb_free b then owned (p + b.m_size + 1) bs else (p, b) ∷ owned (p + b.m_size + 1) bs

-- The chain of all of an arena: it starts behind segment 0 and ends within the address space.
pub record IsChain (m : Memory) (p : ℕ) (b : Mcb) (bs : List Mcb) (q : ℕ) : Type 0 where
  pub seg : Seg m p (b ∷ bs) q
  pub typed : IsTyped b bs
  pub start_pos : 0 < p
  pub bounded : q ≤ 0x10000

pub Seg-span : (m : Memory) (p : ℕ) (bs : List Mcb) (q : ℕ) → Seg m p bs q → p + span bs ≡ q
Seg-span m p [] q s = omega arith
Seg-span m p (b ∷ bs) q s = omega (arith, Seg-span m (p + b.m_size + 1) bs q s.1)

pub length-le-span : (bs : List Mcb) → length bs ≤ span bs
length-le-span [] = omega arith
length-le-span (b ∷ bs) = omega (arith, length-le-span bs)

pub Seg-frame :
    {m g : Memory} (p : ℕ) (bs : List Mcb) (q : ℕ)
    → Seg m p bs q
    → ((a : ℕ) → p ≤ a → a < q → g a ≡ m a)
    → Seg g p bs q
Seg-frame p [] q s same = s
Seg-frame {m} p (b ∷ bs) q s same =
    let e = Seg-span m (p + b.m_size + 1) bs q s.1 in
    (
      same p (omega arith) (omega arith) ∙ s.0,
      Seg-frame (p + b.m_size + 1) bs q s.1 (λ a h k. same a (omega arith) k),
    )

pub Seg-append :
    (m : Memory) (p : ℕ) (xs ys : List Mcb) (r q : ℕ)
    → Seg m p xs r
    → Seg m r ys q
    → Seg m p (xs ++ ys) q
Seg-append m p [] ys r q s t = rw s t
Seg-append m p (x ∷ xs) ys r q s t = (s.0, Seg-append m (p + x.m_size + 1) xs ys r q s.1 t)

pub Seg-split :
    (m : Memory) (p : ℕ) (xs ys : List Mcb) (q : ℕ)
    → Seg m p (xs ++ ys) q
    → (r : ℕ) × Seg m p xs r × Seg m r ys q
Seg-split m p [] ys q s = (p, refl, s)
Seg-split m p (x ∷ xs) ys q s =
    let (r, s1, s2) = Seg-split m (p + x.m_size + 1) xs ys q s.1 in (r, (s.0, s1), s2)

pub owned-append :
    (m : Memory) (p : ℕ) (xs ys : List Mcb) (r : ℕ)
    → Seg m p xs r
    → owned p (xs ++ ys) ≡ owned p xs ++ owned r ys
owned-append m p [] ys r s = rw s
owned-append m p (x ∷ xs) ys r s = ground (arith, owned-append m (p + x.m_size + 1) xs ys r s.1)

pub Seg-at : (m : Memory) (bs : List Mcb) (q p r : ℕ) → p ≡ r → Seg m p bs q → Seg m r bs q
Seg-at m bs q p r e s = subst (λ x. Seg m x bs q) e s

-- A header of a chain behind segment 0 passes the code's test.
pub Seg-valid :
    (m : Memory) (p : ℕ) (b : Mcb) (bs : List Mcb) (q : ℕ)
    → Seg m p (b ∷ bs) q
    → IsTyped b bs
    → 0 < p
    → q ≤ seg_mod
    → mcb_valid (m p) ≡ true
unfolding mcb_valid
Seg-valid m p b [] q s t pos le = ground (arith, Seg-span m (p + b.m_size + 1) [] q s.1)
Seg-valid m p b (c ∷ cs) q s t pos le = ground (arith, Seg-span m (p + b.m_size + 1) (c ∷ cs) q s.1)

-- The link from a header that is not the last.
pub Seg-nxt :
    (m : Memory) (p : ℕ) (b c : Mcb) (cs : List Mcb) (q : ℕ)
    → Seg m p (b ∷ c ∷ cs) q
    → q ≤ seg_mod
    → nxt_mcb m p ≡ p + b.m_size + 1
unfolding nxt_mcb
Seg-nxt m p b c cs q s le =
    let e = Seg-span m (p + b.m_size + 1) (c ∷ cs) q s.1 in rw s.0 (omega arith)

pub owned-free :
    (p : ℕ) (b : Mcb) (bs : List Mcb)
    → mcb_free b ≡ true
    → owned p (b ∷ bs) ≡ owned (p + b.m_size + 1) bs
owned-free p b bs h = rw h refl

pub owned-used :
    (p : ℕ) (b : Mcb) (bs : List Mcb)
    → mcb_free b ≡ false
    → owned p (b ∷ bs) ≡ (p, b) ∷ owned (p + b.m_size + 1) bs
owned-used p b bs h = rw h refl

pub store_self : (m : Memory) (p : ℕ) (c d : Mcb) → c ≡ d → store m p c p ≡ d
unfolding store
store_self m p c d e = ground arith

pub store_other : (m : Memory) (p : ℕ) (c : Mcb) (a : ℕ) → a ≢ p → store m p c a ≡ m a
unfolding store
store_other m p c a ne = ground arith
