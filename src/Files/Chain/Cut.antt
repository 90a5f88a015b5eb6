-- ===== src/Files/Chain/Cut.antt =====
-- Chains of clusters that are cut in two.
use burdah_dos_system.Base.{
  ℕ, ◌+◌, ◌≡◌, ◌≢◌, refl, sym, ap, ◌∙◌, subst, arith, List, [], ◌∷◌, ◌++◌, some, none, length,
  get_elem?, suc, zero,
}
use burdah_dos_system.Fat.Entry.{long_last_cluster}
use burdah_dos_system.Files.Chain.{Links, Apart, IsChain}

-- The part of a chain from one of its clusters on.
pub suffix-IsChain :
    (e : ℕ → ℕ) (top start c : ℕ) (pre suf : List ℕ)
    → IsChain e top start (pre ++ (c ∷ suf))
    → IsChain e top c (c ∷ suf)
suffix-IsChain e top start c [] suf chain = record {
  links = (refl, chain.links.1);
  inside = chain.inside;
  distinct = chain.distinct;
}
suffix-IsChain e top start c (x ∷ pre) suf chain =
    suffix-IsChain e top (e x) c pre suf
      (record { links = chain.links.1; inside = chain.inside.2; distinct = chain.distinct.1 })

-- A position behind the first part is one in the second.
pub get_elem?-append :
    (xs ys : List ℕ) (k : ℕ) → get_elem? (xs ++ ys) (length xs + k) ≡ get_elem? ys k
get_elem?-append [] ys k = let e : 0 + k ≡ k = omega arith in ap (get_elem? ys) e
get_elem?-append (x ∷ xs) ys k =
    let e : suc (length xs) + k ≡ suc (length xs + k) = omega arith in
    ap (get_elem? (x ∷ (xs ++ ys))) e ∙ get_elem?-append xs ys k

-- The two parts of a list at a position of it.
pub get_elem?-split :
    (cs : List ℕ) (i c : ℕ)
    → get_elem? cs i ≡ some c
    → (pre : List ℕ) × (suf : List ℕ) × (cs ≡ pre ++ (c ∷ suf)) × (length pre ≡ i)
get_elem?-split [] i c h = absurd (none_some h)
  where
    none_some : {c : ℕ} → none ≡ some c → ⊥
    none_some h = cc
get_elem?-split (x ∷ cs) zero c h = ([], cs, ap (λ o. o ∷ cs) (some_eq h), refl)
  where
    some_eq : {a b : ℕ} → some a ≡ some b → a ≡ b
    some_eq h = cc
get_elem?-split (x ∷ cs) (suc i) c h =
    let (pre, suf, e, l) = get_elem?-split cs i c h in (x ∷ pre, suf, ap (λ r. x ∷ r) e, ap suc l)

Apart-prefix : (c d : ℕ) (pre suf : List ℕ) → Apart c (pre ++ (d ∷ suf)) → Apart c (pre ++ (d ∷ []))
Apart-prefix c d [] suf a = (a.0, tt)
Apart-prefix c d (x ∷ pre) suf a = (a.0, Apart-prefix c d pre suf a.1)

Apart-at : (c d : ℕ) (pre suf : List ℕ) → Apart c (pre ++ (d ∷ suf)) → c ≢ d
Apart-at c d [] suf a = a.0
Apart-at c d (x ∷ pre) suf a = Apart-at c d pre suf a.1

Apart-suffix : (c d : ℕ) (pre suf : List ℕ) → Apart c (pre ++ (d ∷ suf)) → Apart c suf
Apart-suffix c d [] suf a = a.1
Apart-suffix c d (x ∷ pre) suf a = Apart-suffix c d pre suf a.1

-- The clusters up to one of a chain are a chain when that one gets the mark of the end.
pub prefix-IsChain :
    (e f : ℕ → ℕ) (top start c : ℕ) (pre suf : List ℕ)
    → IsChain e top start (pre ++ (c ∷ suf))
    → f c ≡ long_last_cluster
    → ((d : ℕ) → c ≢ d → Apart d suf → f d ≡ e d)
    → IsChain f top start (pre ++ (c ∷ []))
prefix-IsChain e f top start c [] suf chain marked same = record {
  links = (chain.links.0, marked);
  inside = (chain.inside.0, chain.inside.1, tt);
  distinct = (tt, tt);
}
prefix-IsChain e f top start c (x ∷ pre) suf chain marked same =
    let rest =
      prefix-IsChain e f top (e x) c pre suf
        (record { links = chain.links.1; inside = chain.inside.2; distinct = chain.distinct.1 })
        marked same in
    let out = chain.distinct.0 in
    let kept = same x (λ q. Apart-at x c pre suf out (sym q)) (Apart-suffix x c pre suf out) in
    record {
      links = (chain.links.0, subst (λ y. Links f y (pre ++ (c ∷ []))) (sym kept) rest.links);
      inside = (chain.inside.0, chain.inside.1, rest.inside);
      distinct = (Apart-prefix x c pre suf out, rest.distinct);
    }
