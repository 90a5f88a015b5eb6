-- ===== src/Mem/Alloc/Served.antt =====
-- What a call of `DosMemAlloc` may leave of a chain of control blocks, and the granting of a block.
use burdah_dos_system.Base.{
  ℕ, ◌+◌, ◌≤◌, ◌<◌, ◌≡◌, ◌⊎◌, inl, inr, refl, ap, ◌∙◌, Option, List, [], ◌∷◌, arith,
}
use burdah_dos_system.Mem.{success, de_nomem, Arena, Mcb, Memory, seg_mod}
use burdah_dos_system.Mem.Chain.{Seg, IsTyped, SameOutside, owned}
use burdah_dos_system.Mem.Alloc.{Search, Allocated, grant, put_size}
use burdah_dos_system.Mem.Alloc.Visit.{FreeAt}
use burdah_dos_system.Mem.Alloc.Claim.{Granted, GrantedSize, FreeAt-Granted}

-- `n` is the size of a largest unused block of `bs`, or 0 if there is none.
pub record IsLargest (p : ℕ) (bs : List Mcb) (n : ℕ) : Type 0 where
  pub bound : (x k : ℕ) → FreeAt p bs x k → k ≤ n
  pub reached : (n ≡ 0) ⊎ ((x : ℕ) × FreeAt p bs x n)

-- What a refused request leaves.
pub record Refused (m : Memory) (p : ℕ) (bs : List Mcb) (q size : ℕ) (asize : Option ℕ)
    (r : Allocated) (c : Mcb) (cs : List Mcb) : Type 0 where
  pub seg : Seg r.arena.mem p (c ∷ cs) q
  pub typed : IsTyped c cs
  pub same : SameOutside p q m r.arena.mem
  pub owned_same : owned p (c ∷ cs) ≡ owned p bs
  pub none_fits : (size ≡ 0) ⊎ ((x : ℕ) → ¬ FreeAt p (c ∷ cs) x size)
  pub reports : (n : ℕ) × IsLargest p (c ∷ cs) n × (r.asize ≡ put_size asize n)

abbrev pub Outcomes : Arena → ℕ → ℕ → ℕ → List Mcb → ℕ → Option ℕ → Allocated → Type 0
Outcomes a size mode p bs q asize r =
    ((r.status ≡ success)
      × ((c : Mcb) × (cs : List Mcb) × Granted a.mem a.cu_psp p bs q r.arena.mem r.para c cs)
      × GrantedSize mode size r.para r.arena.mem)
    ⊎ ((r.status ≡ de_nomem)
        × ((c : Mcb) × (cs : List Mcb) × Refused a.mem p bs q size asize r c cs))

-- A request is granted or refused, and of the globals only memory changes.
abbrev pub Served : Arena → ℕ → ℕ → ℕ → List Mcb → ℕ → Option ℕ → Allocated → Type 0
Served a size mode p bs q asize r =
    (r.arena ≡ record a { mem = r.arena.mem }) × Outcomes a size mode p bs q asize r

-- A found header is one that the chain shows to be unused and large enough.
pub FreeAt-grow :
    (m : Memory) (p : ℕ) (bs : List Mcb) (q x n : ℕ)
    → Seg m p bs q
    → FreeAt p bs x 0
    → n ≤ (m x).m_size
    → FreeAt p bs x n
FreeAt-grow m p [] q x n s h le = h
FreeAt-grow m p (b ∷ bs) q x n s (inl h) le =
    inl (h.0, h.1, omega (arith, ap (λ y. (m y).m_size) h.0, ap (λ (c : Mcb). c.m_size) s.0))
FreeAt-grow m p (b ∷ bs) q x n s (inr h) le =
    inr (FreeAt-grow m (p + b.m_size + 1) bs q x n s.1 h le)

pub grant-Served :
    (a : Arena) (size mode p : ℕ) (bs : List Mcb) (q : ℕ) (asize asize' : Option ℕ) (t : Search)
    (b' : Mcb) (bs' : List Mcb)
    → 0 < a.cu_psp
    → q ≤ seg_mod
    → Seg t.mem p (b' ∷ bs') q
    → IsTyped b' bs'
    → SameOutside p q a.mem t.mem
    → owned p (b' ∷ bs') ≡ owned p bs
    → FreeAt p (b' ∷ bs') t.found size
    → Served a size mode p bs q asize (grant a size mode asize' t)
unfolding grant
grant-Served a size mode p bs q asize asize' t b' bs' pos le s ty same own f =
    let (c, cs, g, sz) =
      FreeAt-Granted t.mem a.cu_psp mode size p bs' q t.found size b' s ty le pos (omega arith) f in
    (
      refl,
      inl (
        refl,
        (
          c,
          cs,
          record {
            seg = g.seg;
            typed = g.typed;
            same = λ x h. g.same x h ∙ same x h;
            one_more = rw (← own) g.one_more;
            owner = g.owner;
            inside = g.inside;
          },
        ),
        sz,
      ),
    )

pub FreeAt-size :
    (m : Memory) (p : ℕ) (bs : List Mcb) (q x n : ℕ)
    → Seg m p bs q
    → FreeAt p bs x n
    → n ≤ (m x).m_size
FreeAt-size m p [] q x n s h = absurd h
FreeAt-size m p (b ∷ bs) q x n s (inl h) =
    omega (arith, h.2, ap (λ y. (m y).m_size) h.0, ap (λ (c : Mcb). c.m_size) s.0)
FreeAt-size m p (b ∷ bs) q x n s (inr h) = FreeAt-size m (p + b.m_size + 1) bs q x n s.1 h
