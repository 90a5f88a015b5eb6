-- ===== src/Files/Chain.antt =====
-- Chains of clusters: the entries of a table as a function, the clusters that they lead through, and
-- the number of entries in use.
pub mod Grow
pub mod Cut
use burdah_dos_system.Base.{
  ℕ, zero, suc, ◌+◌, ◌≤◌, ◌<◌, ◌≡◌, ◌≢◌, ◌⊎◌, refl, sym, ap, subst, ◌∙◌, true, false, Bool, ltb,
  leb, ◌==◌, ◌||◌, ◌&&◌, Bool-cases, inl, inr, not, if◌then◌else◌, arith, ==→eq, List, [], ◌∷◌,
  ◌++◌,
}
use burdah_dos_system.Fat.Entry.{free, long_last_cluster, long_bad}
use burdah_dos_system.Files.Table.Steps.{follow}

-- From cluster `c` the links lead through the clusters of the list to the mark of the end.
abbrev pub Links : (ℕ → ℕ) → ℕ → List ℕ → Type 0
Links e c [] = c ≡ long_last_cluster
Links e c (d ∷ ds) = (c ≡ d) × Links e (e d) ds

abbrev pub Inside : ℕ → List ℕ → Type 0
Inside top [] = Unit
Inside top (d ∷ ds) = (2 ≤ d) × (d ≤ top) × Inside top ds

abbrev pub Apart : ℕ → List ℕ → Type 0
Apart c [] = Unit
Apart c (d ∷ ds) = (c ≢ d) × Apart c ds

abbrev pub Distinct : List ℕ → Type 0
Distinct [] = Unit
Distinct (d ∷ ds) = Apart d ds × Distinct ds

-- A chain of clusters of a table whose last cluster is `top`.
pub record IsChain (e : ℕ → ℕ) (top c : ℕ) (cs : List ℕ) : Type 0 where
  pub links : Links e c cs
  pub inside : Inside top cs
  pub distinct : Distinct cs

abbrev pub member : ℕ → List ℕ → Bool
member c [] = false
member c (d ∷ ds) = (c == d) || member c ds

pub member-Apart : (c : ℕ) (cs : List ℕ) → member c cs ≡ false → Apart c cs
member-Apart c [] h = tt
member-Apart c (d ∷ ds) h = (ground arith, member-Apart c ds (ground arith))

pub Apart-member : (c : ℕ) (cs : List ℕ) → Apart c cs → member c cs ≡ false
Apart-member c [] h = refl
Apart-member c (d ∷ ds) h = ground (arith, Apart-member c ds h.1)

-- Links do not notice an entry of a cluster that they do not lead through.
pub Links-frame :
    (e f : ℕ → ℕ) (c x : ℕ) (cs : List ℕ)
    → ((d : ℕ) → c ≢ d → f d ≡ e d)
    → Apart c cs
    → Links e x cs
    → Links f x cs
Links-frame e f c x [] same apart l = l
Links-frame e f c x (d ∷ ds) same apart l = (
  l.0,
  Links-frame e f c (f d) ds same apart.1 (subst_links e (e d) (f d) ds (sym (same d apart.0)) l.1),
)
  where
    subst_links : (e : ℕ → ℕ) (x y : ℕ) (ds : List ℕ) → x ≡ y → Links e x ds → Links e y ds
    subst_links e x y [] p l = sym p ∙ l
    subst_links e x y (d ∷ ds) p l = (sym p ∙ l.0, l.1)

Links-same :
    (e f : ℕ → ℕ) (c : ℕ) (cs : List ℕ) → ((d : ℕ) → f d ≡ e d) → Links e c cs → Links f c cs
Links-same e f c [] same l = l
Links-same e f c (d ∷ ds) same l =
    (l.0, subst (λ x. Links f x ds) (sym (same d)) (Links-same e f (e d) ds same l.1))

-- A chain of another table with the same entries.
pub same-IsChain :
    (e f : ℕ → ℕ) (top c : ℕ) (cs : List ℕ)
    → ((d : ℕ) → f d ≡ e d)
    → IsChain e top c cs
    → IsChain f top c cs
same-IsChain e f top c cs same chain = record {
  links = Links-same e f c cs same chain.links;
  inside = chain.inside;
  distinct = chain.distinct;
}

-- What a chain's first entry is: the mark of the end, or the next cluster, which has one of these two.
pub Links-Inside :
    (e : ℕ → ℕ) (top c : ℕ) (cs : List ℕ)
    → Links e c cs
    → Inside top cs
    → (c ≡ long_last_cluster) ⊎ ((2 ≤ c) × (c ≤ top))
Links-Inside e top c [] l i = inl l
Links-Inside e top c (d ∷ ds) l i = inr (omega arith)

-- In a chain `next_cluster` answers the entry.
pub follow-Links :
    (e : ℕ → ℕ) (top c : ℕ) (cs : List ℕ)
    → top < long_bad
    → Links e c (c ∷ cs)
    → Inside top cs
    → follow e top c ≡ e c
follow-Links e top c [] small l i = rw (l.1) refl
follow-Links e top c (d ∷ ds) small l i =
    let r = Links-Inside e top (e d) ds l.1.1 i.2 in
    ground (arith, l.1.0, ap e l.1.0, r, small, i.0, i.1)

-- The chain behind its first cluster, also when that cluster's entry has changed.
module _ (e : ℕ → ℕ) (top st c : ℕ) (cs : List ℕ) (chain : IsChain e top st (c ∷ cs)) where
  pub first-Inside : (2 ≤ st) × (st ≤ top)
  first-Inside = omega (arith, chain.links.0, chain.inside.0, chain.inside.1)

  pub first-Apart : Apart st cs
  first-Apart = subst (λ s. Apart s cs) (sym chain.links.0) chain.distinct.0

  pub follow-IsChain : top < long_bad → follow e top st ≡ e st
  follow-IsChain small =
      subst (λ s. follow e top s ≡ e s) (sym chain.links.0)
        (follow-Links e top c cs small (refl, chain.links.1) chain.inside.2)

  pub rest-Links : Links e (e st) cs
  rest-Links = subst (λ s. Links e (e s) cs) (sym chain.links.0) chain.links.1

  pub rest-IsChain : (f : ℕ → ℕ) → ((d : ℕ) → st ≢ d → f d ≡ e d) → IsChain f top (e st) cs
  rest-IsChain f same = record {
    links = Links-frame e f st (e st) cs same first-Apart rest-Links;
    inside = chain.inside.2;
    distinct = chain.distinct.1;
  }

  pub next-Inside : (e st ≡ long_last_cluster) ⊎ ((2 ≤ e st) × (e st ≤ top))
  next-Inside = Links-Inside e top (e st) cs rest-Links chain.inside.2

-- A cluster is neither the mark of the end nor that of a free one.
pub no_mark : (n top : ℕ) → n ≤ top → top < long_bad → (n == long_last_cluster) ≡ false
no_mark n top high small = ground arith

pub not_free : (n : ℕ) → 2 ≤ n → (n == free) ≡ false
not_free n low = ground arith

-- The number of entries up to `n` that are not free.
abbrev pub used : (ℕ → ℕ) → ℕ → ℕ
used e zero = if e 0 == 0 then 0 else 1
used e (suc n) = (if e (suc n) == 0 then 0 else 1) + used e n

pub used-bound : (e : ℕ → ℕ) (n : ℕ) → used e n ≤ n + 1
used-bound e zero = ground arith
used-bound e (suc n) = ground (arith, used-bound e n)

used-same : (e f : ℕ → ℕ) (n : ℕ) → ((d : ℕ) → d ≤ n → f d ≡ e d) → used f n ≡ used e n
used-same e f zero same = rw (same 0 (omega arith)) refl
used-same e f (suc n) same =
    rw (same (suc n) (omega arith), used-same e f n (λ d h. same d (omega (arith, h)))) refl

-- Freeing an entry makes one less of them.
pub used-free :
    (e f : ℕ → ℕ) (c n : ℕ)
    → c ≤ n
    → e c ≢ free
    → f c ≡ free
    → ((d : ℕ) → c ≢ d → f d ≡ e d)
    → suc (used f n) ≡ used e n
used-free e f c zero low was now same = ground (arith, was, now)
used-free e f c (suc n) low was now same = elim (Bool-cases (c == suc n)) [
  | inl last ↦
      let here = ==→eq c (suc n) last in
      ground (arith, used-same e f n (λ d h. same d (λ q. omega (arith, h, q, here))), here)
  | inr inner ↦ ground (arith, used-free e f c n (ground arith) was now same, same (suc n))
]
