-- ===== src/Mem/Blocks/Free.antt =====
-- Chains under `DosMemFree`, `DosMemCheck` and `FreeProcessMem`.
use burdah_dos_system.Base.{
  ℕ, zero, suc, ◌+◌, ◌≤◌, ◌<◌, ◌≡◌, ◌≢◌, ◌⊎◌, inl, inr, refl, sym, ap, ◌∙◌, true, false, some, List,
  [], ◌∷◌, arith, replicate, ◌==◌, if◌then◌else◌,
}
use burdah_dos_system.Mem.{
  success, Status, Mcb, mcb_normal, mcb_last, de_mcbdestry, nxt_mcb, Memory, seg_mod, mcb_free,
  free_psp, store, mcb_freeable, mcb_valid, Arena,
}
use burdah_dos_system.Mem.Chain.{
  Seg, IsTyped, IsChain, owned, Seg-frame, Seg-valid, owned-free, owned-used, store_self,
  store_other,
}
use burdah_dos_system.Mem.Alloc.Claim.{Inserted, Inserted-if}
use burdah_dos_system.Mem.Blocks.{dos_mem_free, check_loop, dos_mem_check}

-- `a` is the header of a block in use among `bs`, which start at `p`.
abbrev pub UsedAt : ℕ → List Mcb → ℕ → Type 0
UsedAt p [] a = ⊥
UsedAt p (b ∷ bs) a = ((a ≡ p) × (mcb_free b ≡ false)) ⊎ UsedAt (p + b.m_size + 1) bs a

-- The header of a block that was freed.
abbrev pub freed : Mcb → Mcb
freed b = record b { m_psp = free_psp; m_name = replicate 8 0 }

freeable_of_valid : (c : Mcb) → mcb_valid c ≡ true → mcb_freeable c ≡ true
unfolding mcb_valid
freeable_of_valid c h = ground arith

pub dos_mem_free-used :
    (m : Memory) (p : ℕ)
    → 0 < p
    → mcb_valid (m p) ≡ true
    → mcb_free (m p) ≡ false
    → dos_mem_free m p ≡ (success, store m p (freed (m p)))
unfolding dos_mem_free
dos_mem_free-used m p pos v used = ground (arith, freeable_of_valid (m p) v)

-- What freeing one block of a chain leaves: the chain, with the same extent, without that block among
-- those in use; memory outside the block's header is untouched.
pub record Released (m : Memory) (p : ℕ) (bs : List Mcb) (q x : ℕ) (g : Memory) (c : Mcb)
    (cs : List Mcb) : Type 0 where
  pub seg : Seg g p (c ∷ cs) q
  pub typed : IsTyped c cs
  pub same : (a : ℕ) → a ≢ x → g a ≡ m a
  pub one_less : Inserted (x, m x) (owned p (c ∷ cs)) (owned p bs)

pub freed-free : (b : Mcb) → mcb_free (freed b) ≡ true
unfolding mcb_free
freed-free b = refl

pub IsTyped-head : (b c : Mcb) (bs : List Mcb) → c.m_type ≡ b.m_type → IsTyped b bs → IsTyped c bs
IsTyped-head b c [] e t = e ∙ t
IsTyped-head b c (d ∷ ds) e t = (e ∙ t.0, t.1)

Released-here :
    (m : Memory) (p : ℕ) (b : Mcb) (bs : List Mcb) (q : ℕ)
    → Seg m p (b ∷ bs) q
    → IsTyped b bs
    → mcb_free b ≡ false
    → Released m p (b ∷ bs) q p (store m p (freed (m p))) (freed b) bs
Released-here m p b bs q s t used =
    let g = store m p (freed (m p)) in
    record {
      seg = (
        store_self m p _ _ (ap freed s.0),
        Seg-frame {m = m} {g = g} (p + b.m_size + 1) bs q s.1
            (λ a h k. store_other m p _ a (omega arith)),
      );
      typed = IsTyped-head b (freed b) bs refl t;
      same = store_other m p (freed (m p));
      one_less = (
        [],
        owned (p + b.m_size + 1) bs,
        owned-free p (freed b) bs (freed-free b),
        owned-used p b bs used ∙ ap (λ x. (p, x) ∷ owned (p + b.m_size + 1) bs) (sym s.0),
      );
    }

UsedAt-le : (p : ℕ) (bs : List Mcb) (a : ℕ) → UsedAt p bs a → p ≤ a
UsedAt-le p [] a h = absurd h
UsedAt-le p (b ∷ bs) a (inl h) = omega (arith, h.0)
UsedAt-le p (b ∷ bs) a (inr h) = omega (arith, UsedAt-le (p + b.m_size + 1) bs a h)

release :
    (m : Memory) (p : ℕ) (b : Mcb) (bs : List Mcb) (q x : ℕ)
    → Seg m p (b ∷ bs) q
    → IsTyped b bs
    → 0 < p
    → q ≤ seg_mod
    → UsedAt p (b ∷ bs) x
    → (g : Memory) × (c : Mcb) × (cs : List Mcb) × (dos_mem_free m x ≡ (success, g))
      × Released m p (b ∷ bs) q x g c cs
release m p b bs q x s t pos le (inl h) = rw h.0 (
  store m p (freed (m p)),
  freed b,
  bs,
  dos_mem_free-used m p pos (Seg-valid m p b bs q s t pos le) (rw s.0 h.1),
  Released-here m p b bs q s t h.1,
)
release m p b [] q x s t pos le (inr h) = absurd h
release m p b (c ∷ cs) q x s t pos le (inr h) =
    let (g, d, ds, run, r) = release m (p + b.m_size + 1) c cs q x s.1 t.1 (omega arith) le h in
    let far = UsedAt-le (p + b.m_size + 1) (c ∷ cs) x h in
    (
      g,
      b,
      d ∷ ds,
      run,
      record {
        seg = (r.same p (omega arith) ∙ s.0, r.seg);
        typed = (t.0, r.typed);
        same = r.same;
        one_less = Inserted-if (mcb_free b) (x, m x) (p, b) _ _ r.one_less;
      },
    )

-- `DosMemFree` of a block in use in a chain succeeds. It leaves a chain of the same extent in which
-- the blocks in use are those from before without this one, and writes only the block's header.
pub dos_mem_free-Released :
    (m : Memory) (p : ℕ) (b : Mcb) (bs : List Mcb) (q x : ℕ)
    → IsChain m p b bs q
    → UsedAt p (b ∷ bs) x
    → (g : Memory) × (c : Mcb) × (cs : List Mcb) × (dos_mem_free m x ≡ (success, g))
      × Released m p (b ∷ bs) q x g c cs
dos_mem_free-Released m p b bs q x ch h =
    release m p b bs q x ch.seg ch.typed ch.start_pos ch.bounded h

-- From the header at `p` `n` links, each of a header with the signature `M`, lead to the header `e`.
abbrev pub LeadsTo : Memory → ℕ → ℕ → Mcb → Type 0
LeadsTo m p zero e = m p ≡ e
LeadsTo m p (suc n) e = ((m p).m_type ≡ mcb_normal) × LeadsTo m (nxt_mcb m p) n e

-- What is to be said of a chain of headers from its last one.
abbrev pub checked : Mcb → Status
checked e = if e.m_type == mcb_last then success else de_mcbdestry

check_loop-normal :
    (f : ℕ) (m : Memory) (p : ℕ)
    → (m p).m_type ≡ mcb_normal
    → check_loop (suc f) m p ≡ check_loop f m (nxt_mcb m p)
unfolding check_loop
check_loop-normal f m p e = rw e refl

check_loop-end :
    (f : ℕ) (m : Memory) (p : ℕ)
    → (m p).m_type ≢ mcb_normal
    → check_loop (suc f) m p ≡ some (checked (m p))
unfolding check_loop
check_loop-end f m p e = ground arith

check_loop-checked :
    (f : ℕ) (m : Memory) (p n : ℕ) (e : Mcb)
    → LeadsTo m p n e
    → e.m_type ≢ mcb_normal
    → n < f
    → check_loop f m p ≡ some (checked e)
check_loop-checked zero m p n e leads other lt = absurd (omega arith)
check_loop-checked (suc f) m p zero e leads other lt =
    rw (check_loop-end f m p (rw leads other)) (rw leads refl)
check_loop-checked (suc f) m p (suc n) e leads other lt =
    check_loop-normal f m p leads.0
    ∙ check_loop-checked f m (nxt_mcb m p) n e leads.1 other (omega arith)

-- `DosMemCheck` returns whenever the links from `first_mcb` lead, through fewer than 65536 headers
-- with the signature `M`, to one with another signature. It accepts the arena if that one has the
-- signature `Z`, and answers `DE_MCBDESTRY` if it has any other.
pub dos_mem_check-checked :
    (a : Arena) (n : ℕ) (e : Mcb)
    → LeadsTo a.mem a.first_mcb n e
    → e.m_type ≢ mcb_normal
    → n < seg_mod
    → dos_mem_check a ≡ some (checked e)
unfolding dos_mem_check
dos_mem_check-checked a n e leads other lt =
    check_loop-checked seg_mod a.mem a.first_mcb n e leads other lt
