-- ===== src/Mem/Alloc/Biggest.antt =====
-- `biggestSeg` over the search loop of `DosMemAlloc`: it ends at a largest unused block.
use burdah_dos_system.Base.{
  ℕ, ◌+◌, ◌≤◌, ◌<◌, ◌≡◌, ◌≢◌, ◌⊎◌, inl, inr, ap, ◌∙◌, true, List, [], ◌∷◌, arith,
}
use burdah_dos_system.Mem.{Mcb, mcb_free}
use burdah_dos_system.Mem.Alloc.{Search}
use burdah_dos_system.Mem.Alloc.Visit.{FreeAt, BigPicked}

-- The size of the block that `biggestSeg` points to.
abbrev pub big_size : Search → ℕ
big_size s = (s.mem s.biggest).m_size

-- From `s` to `t` the search has gone through the blocks `bs`, which start at `p`.
pub record IsBiggest (s : Search) (p : ℕ) (bs : List Mcb) (t : Search) : Type 0 where
  pub from_chain : (t.biggest ≡ s.biggest) ⊎ FreeAt p bs t.biggest 0
  pub grows : s.biggest ≢ 0 → (t.biggest ≢ 0) × (big_size s ≤ big_size t)
  pub covers : (a n : ℕ) → FreeAt p bs a n → (t.biggest ≢ 0) × (n ≤ big_size t)

module _ (s : Search) (p : ℕ) (t : Search) (b : Mcb) (pos : 0 < p) (at : t.mem p ≡ b)
    (same : t.mem s.biggest ≡ s.mem s.biggest) where
  Big-grows : BigPicked s p t b → s.biggest ≢ 0 → (t.biggest ≢ 0) × (big_size s ≤ big_size t)
  Big-grows (inl h) ne = (
    omega (arith, h.0),
    omega (
      arith,
      h.2 ne,
      ap (λ (c : Mcb). c.m_size) same,
      ap (λ (c : Mcb). c.m_size) at,
      ap (λ x. (t.mem x).m_size) h.0,
    ),
  )
  Big-grows (inr h) ne = (
    omega (arith, h.0),
    omega (arith, ap (λ (c : Mcb). c.m_size) same, ap (λ x. (t.mem x).m_size) h.0),
  )

  Big-covers :
      BigPicked s p t b
      → mcb_free b ≡ true
      → (n : ℕ) → n ≤ b.m_size
      → (t.biggest ≢ 0) × (n ≤ big_size t)
  Big-covers (inl h) free n le = (omega (arith, h.0), rw (h.0, at) le)
  Big-covers (inr h) free n le = (rw h.0 ((h.1 free).0), rw h.0 (omega (arith, (h.1 free).1, le)))

  pub IsBiggest-last : BigPicked s p t b → IsBiggest s p (b ∷ []) t
  IsBiggest-last h = record { from_chain = from h; grows = Big-grows h; covers = covers h }
    where
      from : BigPicked s p t b → (t.biggest ≡ s.biggest) ⊎ FreeAt p (b ∷ []) t.biggest 0
      from (inl h) = inr (inl (h.0, h.1, omega arith))
      from (inr h) = inl h.0

      covers :
          BigPicked s p t b → (a n : ℕ) → FreeAt p (b ∷ []) a n → (t.biggest ≢ 0) × (n ≤ big_size t)
      covers h a n (inl k) = Big-covers h k.1 n k.2
      covers h a n (inr k) = absurd k

  module _ (u : Search) (bs : List Mcb) (rest : IsBiggest t (p + b.m_size + 1) bs u) where
    chain_next :
        BigPicked s p t b
        → (u.biggest ≡ t.biggest) ⊎ FreeAt (p + b.m_size + 1) bs u.biggest 0
        → (u.biggest ≡ s.biggest) ⊎ FreeAt p (b ∷ bs) u.biggest 0
    chain_next h (inr k) = inr (inr k)
    chain_next (inl h) (inl e) = inr (inl (e ∙ h.0, h.1, omega arith))
    chain_next (inr h) (inl e) = inl (e ∙ h.0)

    step_up : {n : ℕ} → (t.biggest ≢ 0) × (n ≤ big_size t) → (u.biggest ≢ 0) × (n ≤ big_size u)
    step_up h = let k = rest.grows h.0 in (k.0, omega (arith, k.1, h.1))

    covers_next :
        BigPicked s p t b → (a n : ℕ) → FreeAt p (b ∷ bs) a n → (u.biggest ≢ 0) × (n ≤ big_size u)
    covers_next h a n (inl k) = step_up (Big-covers h k.1 n k.2)
    covers_next h a n (inr k) = rest.covers a n k

    pub IsBiggest-next : BigPicked s p t b → IsBiggest s p (b ∷ bs) u
    IsBiggest-next h = record {
      from_chain = chain_next h rest.from_chain;
      grows = λ ne. step_up (Big-grows h ne);
      covers = covers_next h;
    }
