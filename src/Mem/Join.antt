-- ===== src/Mem/Join.antt =====
-- `joinMCBs` of kernel/memmgr.c against the merging of headers in a list.
use burdah_dos_system.Base.{
  ℕ, zero, suc, ◌+◌, ◌≤◌, ◌<◌, ◌≡◌, ◌≢◌, ◌⊎◌, inl, inr, refl, ◌∙◌, ap, true, false, some, List, [],
  ◌∷◌, arith, length, if◌then◌else◌, ◌==◌, Bool-cases,
}
use burdah_dos_system.Mem.{
  success, Mcb, Memory, mcb_normal, mcb_free, mcb_valid, nxt_mcb, seg_mod, absorb_next, join_loop,
  join_mcbs,
}
use burdah_dos_system.Mem.Chain.{
  Seg, IsTyped, SameOutside, owned, Seg-span, Seg-frame, length-le-span, Seg-at, Seg-valid, Seg-nxt,
}

-- Block `b` extended by the unused block `c` behind it.
abbrev pub merge : Mcb → Mcb → Mcb
merge b c = record b { m_type = c.m_type; m_size = b.m_size + c.m_size + 1 }

-- `b` with all unused blocks that follow it directly, and what is left of the chain.
pub absorb : Mcb → List Mcb → Mcb × List Mcb
absorb b [] = (b, [])
absorb b (c ∷ cs) = let rest = absorb (merge b c) cs in if mcb_free c then rest else (b, c ∷ cs)

absorb_next_self :
    (m : Memory) (p : ℕ) (b c : Mcb)
    → m p ≡ b
    → m (p + b.m_size + 1) ≡ c
    → b.m_size + c.m_size + 1 < seg_mod
    → absorb_next m p (p + b.m_size + 1) p ≡ merge b c
unfolding absorb_next
absorb_next_self m p b c e f lt = ground arith

absorb_next_other : (m : Memory) (p q a : ℕ) → a ≢ p → a ≢ q → absorb_next m p q a ≡ m a
unfolding absorb_next
absorb_next_other m p q a e f = ground arith

absorb_next-Seg :
    (m : Memory) (p : ℕ) (b c : Mcb) (cs : List Mcb) (q : ℕ)
    → Seg m p (b ∷ c ∷ cs) q
    → q ≤ seg_mod
    → Seg (absorb_next m p (p + b.m_size + 1)) p (merge b c ∷ cs) q
absorb_next-Seg m p b c cs q s le =
    let e = Seg-span m (p + b.m_size + 1) (c ∷ cs) q s.1 in
    (
      absorb_next_self m p b c s.0 s.1.0 (omega arith),
      Seg-frame {m = m} (p + (merge b c).m_size + 1) cs q
          (Seg-at m cs q (p + b.m_size + 1 + c.m_size + 1) _ (omega arith) s.1.1)
          (λ a h k. absorb_next_other m p (p + b.m_size + 1) a (omega arith) (omega arith)),
    )

-- `r` is the chain from `p` on in `g`, which differs from `m` at most from `p` up to `q`.
pub record Joined (m : Memory) (p : ℕ) (r : Mcb × List Mcb) (q : ℕ) (g : Memory) : Type 0 where
  pub seg : Seg g p (r.0 ∷ r.1) q
  pub typed : IsTyped r.0 r.1
  pub same : SameOutside p q m g

IsTyped-merge : (b c : Mcb) (cs : List Mcb) → IsTyped c cs → IsTyped (merge b c) cs
IsTyped-merge b c [] t = t
IsTyped-merge b c (d ∷ ds) t = t

join_loop-stop :
    (f : ℕ) (m : Memory) (p : ℕ)
    → (((m p).m_type == mcb_normal) ≡ false) ⊎ (mcb_free (m (nxt_mcb m p)) ≡ false)
    → join_loop (suc f) m p ≡ some (success, m)
unfolding join_loop
join_loop-stop f m p h = ground arith

join_loop-next :
    (f : ℕ) (m : Memory) (p q : ℕ)
    → (m p).m_type ≡ mcb_normal
    → nxt_mcb m p ≡ q
    → mcb_free (m q) ≡ true
    → mcb_valid (m q) ≡ true
    → join_loop (suc f) m p ≡ join_loop f (absorb_next m p q) p
join_loop-next f m p q e r h k = rw (← r) (step f m p e (rw r h) (rw r k))
  where
    step :
        (f : ℕ) (m : Memory) (p : ℕ)
        → (m p).m_type ≡ mcb_normal
        → mcb_free (m (nxt_mcb m p)) ≡ true
        → mcb_valid (m (nxt_mcb m p)) ≡ true
        → join_loop (suc f) m p ≡ join_loop f (absorb_next m p (nxt_mcb m p)) p
    step f m p e h k = unfold join_loop in rw (e, h, k)

-- Joining a chain that the fuel covers succeeds, and merges exactly the unused blocks that follow.
pub join_loop-absorb :
    (f : ℕ) (m : Memory) (p : ℕ) (b : Mcb) (bs : List Mcb) (q : ℕ)
    → Seg m p (b ∷ bs) q
    → IsTyped b bs
    → q ≤ seg_mod
    → length bs < f
    → (g : Memory) × (join_loop f m p ≡ some (success, g)) × Joined m p (absorb b bs) q g
unfolding absorb
join_loop-absorb zero m p b bs q s t le lt = absurd (omega arith)
join_loop-absorb (suc f) m p b [] q s t le lt = (
  m,
  join_loop-stop f m p (inl (rw s.0 (rw t refl))),
  record { seg = s; typed = t; same = λ a h. refl },
)
join_loop-absorb (suc f) m p b (c ∷ cs) q s t le lt = elim (Bool-cases (mcb_free c)) [
  | inr used ↦
      let e : nxt_mcb m p ≡ p + b.m_size + 1 = Seg-nxt m p b c cs q s le in
      (
        m,
        join_loop-stop f m p (inr (rw (e, s.1.0) used)),
        rw used (record { seg = s; typed = t; same = λ a h. refl }),
      )
  | inl free ↦
      let q' = p + b.m_size + 1 in
      let (g, run, j) =
        join_loop-absorb f (absorb_next m p q') p (merge b c) cs q
          (absorb_next-Seg m p b c cs q s le) (IsTyped-merge b c cs t.1) le (omega arith) in
      let e = Seg-span m q' (c ∷ cs) q s.1 in
      (
        g,
        join_loop-next f m p q' (rw s.0 t.0) (Seg-nxt m p b c cs q s le) (rw s.1.0 free)
              (Seg-valid m q' c cs q s.1 t.1 (omega arith) le)
            ∙ run,
        rw free (record {
          seg = j.seg;
          typed = j.typed;
          same = λ a h. j.same a h ∙ absorb_next_other m p q' a (omega arith) (omega arith);
        }),
      )
]

-- On a chain that ends within the address space the fuel of `joinMCBs` is enough: it succeeds, writes
-- only in the chain, and leaves the chain in which the first block has taken in the unused blocks
-- behind it.
pub join_mcbs-absorb :
    (m : Memory) (p : ℕ) (b : Mcb) (bs : List Mcb) (q : ℕ)
    → Seg m p (b ∷ bs) q
    → IsTyped b bs
    → q ≤ seg_mod
    → (g : Memory) × (join_mcbs m p ≡ some (success, g)) × Joined m p (absorb b bs) q g
unfolding join_mcbs
join_mcbs-absorb m p b bs q s t le =
    let e = Seg-span m (p + b.m_size + 1) bs q s.1 in
    join_loop-absorb seg_mod m p b bs q s t le (omega (arith, length-le-span bs))

-- No block, or one in use at first.
abbrev pub NoneFree : List Mcb → Type 0
NoneFree [] = Unit
NoneFree (b ∷ bs) = mcb_free b ≡ false

pub absorb-NoneFree : (b : Mcb) (bs : List Mcb) → NoneFree (absorb b bs).1
unfolding absorb
absorb-NoneFree b [] = tt
absorb-NoneFree b (c ∷ cs) = elim (Bool-cases (mcb_free c)) [
  | inr used ↦ rw used used
  | inl free ↦ rw free (absorb-NoneFree (merge b c) cs)
]

absorb-used : (b c : Mcb) (cs : List Mcb) → mcb_free c ≡ false → absorb b (c ∷ cs) ≡ (b, c ∷ cs)
unfolding absorb
absorb-used b c cs used = rw used

-- Joining neither moves nor changes the blocks in use that follow.
pub owned-absorb :
    (p : ℕ) (b : Mcb) (bs : List Mcb)
    → owned (p + (absorb b bs).0.m_size + 1) (absorb b bs).1 ≡ owned (p + b.m_size + 1) bs
unfolding absorb
owned-absorb p b [] = refl
owned-absorb p b (c ∷ cs) = elim (Bool-cases (mcb_free c)) [
  | inr used ↦ ap (λ (r : Mcb × List Mcb). owned (p + r.0.m_size + 1) r.1) (absorb-used b c cs used)
  | inl free ↦ rw (free, owned-absorb p (merge b c) cs) (ap (λ x. owned x cs) (omega arith))
]

pub psp-absorb : (b : Mcb) (bs : List Mcb) → (absorb b bs).0.m_psp ≡ b.m_psp
unfolding absorb
psp-absorb b [] = refl
psp-absorb b (c ∷ cs) = elim (Bool-cases (mcb_free c)) [
  | inr used ↦ rw used refl
  | inl free ↦ rw free (psp-absorb (merge b c) cs)
]

pub length-absorb : (b : Mcb) (bs : List Mcb) → length (absorb b bs).1 ≤ length bs
unfolding absorb
length-absorb b [] = omega arith
length-absorb b (c ∷ cs) = ground (arith, length-absorb (merge b c) cs)

-- A block only grows.
pub size-absorb : (b : Mcb) (bs : List Mcb) → b.m_size ≤ (absorb b bs).0.m_size
unfolding absorb
size-absorb b [] = omega arith
size-absorb b (c ∷ cs) = ground (arith, size-absorb (merge b c) cs)
