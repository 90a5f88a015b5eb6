-- ===== src/Files/Chain/Grow.antt =====
-- Chains of clusters that are made longer by a free cluster.
use burdah_dos_system.Base.{ℕ, ◌≤◌, ◌≡◌, ◌≢◌, sym, ap, ◌∙◌, subst, arith, List, [], ◌∷◌, ◌++◌}
use burdah_dos_system.Fat.Entry.{free, long_last_cluster}
use burdah_dos_system.Files.Chain.{Links, Inside, Apart, Distinct, IsChain, Links-Inside}

-- The last cluster of a list.
abbrev pub Ends : ℕ → List ℕ → Type 0
Ends l [] = ⊥
Ends l (c ∷ []) = c ≡ l
Ends l (c ∷ (d ∷ ds)) = Ends l (d ∷ ds)

-- No cluster of a chain is free.
pub Links-Apart :
    (e : ℕ → ℕ) (top c n : ℕ) (cs : List ℕ) → Links e c cs → Inside top cs → e n ≡ free → Apart n cs
Links-Apart e top c n [] l i f = tt
Links-Apart e top c n (d ∷ ds) l i f =
    let next = Links-Inside e top (e d) ds l.1 i.2 in
    (λ q. ground (arith, ap e q, f, next), Links-Apart e top (e d) n ds l.1 i.2 f)

Links-at : (e : ℕ → ℕ) (x y : ℕ) (ds : List ℕ) → x ≡ y → Links e x ds → Links e y ds
Links-at e x y ds p l = subst (λ c. Links e c ds) p l

Apart-Ends : (c l : ℕ) (cs : List ℕ) → Apart c cs → Ends l cs → c ≢ l
Apart-Ends c l [] a ends = absurd ends
Apart-Ends c l (d ∷ []) a ends = λ q. a.0 (q ∙ sym ends)
Apart-Ends c l (d ∷ (b ∷ bs)) a ends = Apart-Ends c l (b ∷ bs) a.1 ends

module _ (e f : ℕ → ℕ) (l n : ℕ) (linked : f l ≡ n) (marked : f n ≡ long_last_cluster)
    (same : (d : ℕ) → l ≢ d → n ≢ d → f d ≡ e d) where
  Links-append :
      (c : ℕ) (cs : List ℕ)
      → Links e c cs
      → Distinct cs
      → Apart n cs
      → Ends l cs
      → Links f c (cs ++ (n ∷ []))
  Links-append c [] links d a ends = absurd ends
  Links-append c (x ∷ []) links d a ends = (links.0, (ap f ends ∙ linked, marked))
  Links-append c (x ∷ (y ∷ ys)) links d a ends =
      let kept = same x (λ q. Apart-Ends x l (y ∷ ys) d.0 ends (sym q)) a.0 in
      (
        links.0,
        Links-at f (e x) (f x) ((y ∷ ys) ++ (n ∷ [])) (sym kept)
            (Links-append (e x) (y ∷ ys) links.1 d.1 a.1 ends),
      )

Inside-append :
    (top n : ℕ) (cs : List ℕ) → Inside top cs → 2 ≤ n → n ≤ top → Inside top (cs ++ (n ∷ []))
Inside-append top n [] i low high = (low, high, tt)
Inside-append top n (c ∷ cs) i low high = (i.0, i.1, Inside-append top n cs i.2 low high)

Apart-append : (c n : ℕ) (cs : List ℕ) → Apart c cs → c ≢ n → Apart c (cs ++ (n ∷ []))
Apart-append c n [] a ne = (ne, tt)
Apart-append c n (d ∷ ds) a ne = (a.0, Apart-append c n ds a.1 ne)

Distinct-append : (n : ℕ) (cs : List ℕ) → Distinct cs → Apart n cs → Distinct (cs ++ (n ∷ []))
Distinct-append n [] d a = (tt, tt)
Distinct-append n (c ∷ cs) d a =
    (Apart-append c n cs d.0 (λ q. a.0 (sym q)), Distinct-append n cs d.1 a.1)

-- A chain whose last cluster is linked to a free one that gets the mark of the end.
pub IsChain-append :
    (e f : ℕ → ℕ) (top c l n : ℕ) (cs : List ℕ)
    → IsChain e top c cs
    → Ends l cs
    → e n ≡ free
    → 2 ≤ n
    → n ≤ top
    → f l ≡ n
    → f n ≡ long_last_cluster
    → ((d : ℕ) → l ≢ d → n ≢ d → f d ≡ e d)
    → IsChain f top c (cs ++ (n ∷ []))
IsChain-append e f top c l n cs chain ends is_free low high linked marked same =
    let fresh = Links-Apart e top c n cs chain.links chain.inside is_free in
    record {
      links = Links-append e f l n linked marked same c cs chain.links chain.distinct fresh ends;
      inside = Inside-append top n cs chain.inside low high;
      distinct = Distinct-append n cs chain.distinct fresh;
    }

-- The last cluster of a chain is one of the table and has the mark of the end.
pub IsChain-Ends :
    (e : ℕ → ℕ) (top c l : ℕ) (cs : List ℕ)
    → IsChain e top c cs
    → Ends l cs
    → (e l ≡ long_last_cluster) × (2 ≤ l) × (l ≤ top)
IsChain-Ends e top c l [] chain ends = absurd ends
IsChain-Ends e top c l (x ∷ []) chain ends = (
  sym (ap e ends) ∙ chain.links.1,
  omega (arith, ends, chain.inside),
  omega (arith, ends, chain.inside),
)
IsChain-Ends e top c l (x ∷ (y ∷ ys)) chain ends =
    IsChain-Ends e top (e x) l (y ∷ ys)
      (record { links = chain.links.1; inside = chain.inside.2; distinct = chain.distinct.1 }) ends
