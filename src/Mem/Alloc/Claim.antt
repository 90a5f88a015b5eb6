-- ===== src/Mem/Alloc/Claim.antt =====
-- The end of `DosMemAlloc` on a chain: the block found becomes the process's, and the chain and the
-- other blocks in use stay.
use burdah_dos_system.Base.{
  ℕ, ◌+◌, ◌-◌, ◌≤◌, ◌<◌, ◌≡◌, ◌≢◌, ◌⊎◌, inl, inr, refl, sym, ap, ◌∙◌, Bool, true, false, List, [],
  ◌∷◌, ◌++◌, arith, ◌==◌, if◌then◌else◌, Bool-cases,
}
use native.Mathlib.Decide.{ℕ_discrete}
use mathlib.Core.Path.{subst, ap₂}
use burdah_dos_system.Mem.{Mcb, Memory, mcb_normal, seg_mod, mcb_free, free_psp, store}
use burdah_dos_system.Mem.Chain.{
  Seg, IsTyped, SameOutside, owned, Seg-span, Seg-frame, Seg-at, owned-free, owned-used, store_self,
  store_other, span,
}
use burdah_dos_system.Mem.Alloc.{mode_largest, is_last_fit, claim_block}
use burdah_dos_system.Mem.Alloc.Visit.{FreeAt}
use burdah_dos_system.Mem.Alloc.Split.{owned_by, front_rest, claim_whole, claim_end, claim_start}

IsTyped-retype : (b c : Mcb) (bs : List Mcb) → c.m_type ≡ b.m_type → IsTyped b bs → IsTyped c bs
IsTyped-retype b c [] e t = e ∙ t
IsTyped-retype b c (d ∷ ds) e t = (e ∙ t.0, t.1)

-- `ys` is `xs` with `x` put in somewhere.
abbrev pub Inserted {ℓ} : {A : Type ℓ} → A → List A → List A → Type ℓ
Inserted {A} x xs ys = (l : List A) × (r : List A) × (xs ≡ l ++ r) × (ys ≡ l ++ (x ∷ r))

-- Memory `g` with the block of header `new` granted: in place of the chain `bs` from `p` to `q`
-- there is a chain with the same blocks in use and one more, `new`.
pub record Granted (m : Memory) (psp p : ℕ) (bs : List Mcb) (q : ℕ) (g : Memory) (new : ℕ) (c : Mcb)
    (cs : List Mcb) : Type 0 where
  pub seg : Seg g p (c ∷ cs) q
  pub typed : IsTyped c cs
  pub same : SameOutside p q m g
  pub one_more : Inserted (new, g new) (owned p bs) (owned p (c ∷ cs))
  pub owner : (g new).m_psp ≡ psp
  pub inside : (p ≤ new) × (new + (g new).m_size + 1 ≤ q)

-- The size that the block gets.
abbrev pub GrantedSize : ℕ → ℕ → ℕ → Memory → Type 0
GrantedSize mode size new g =
    (((mode == mode_largest) ≡ true) ⊎ ((g new).m_size ≡ size)) × (size ≤ (g new).m_size)

abbrev pub Grants : Memory → ℕ → ℕ → List Mcb → ℕ → ℕ → ℕ → Memory × ℕ → Type 0
Grants m psp p bs q mode size (g, new) =
    (c : Mcb) × (cs : List Mcb) × Granted m psp p bs q g new c cs × GrantedSize mode size new g

busy : (psp : ℕ) (c : Mcb) → 0 < psp → c.m_psp ≡ psp → mcb_free c ≡ false
unfolding mcb_free
busy psp c h e = ground arith

unused : (c : Mcb) → c.m_psp ≡ free_psp → mcb_free c ≡ true
unfolding mcb_free
unused c e = ground arith

module _ (m : Memory) (psp mode size p : ℕ) (b : Mcb) (bs : List Mcb) (q : ℕ)
    (s : Seg m p (b ∷ bs) q) (t : IsTyped b bs) (le : q ≤ seg_mod) (free : mcb_free b ≡ true)
    (pos : 0 < psp) where
  whole :
      (g : Memory)
      → ((mode == mode_largest) ≡ true) ⊎ (size ≡ b.m_size)
      → size ≤ b.m_size
      → g p ≡ owned_by psp b
      → ((a : ℕ) → a ≢ p → g a ≡ m a)
      → Grants m psp p (b ∷ bs) q mode size (g, p)
  whole g h fits at other =
      let e = Seg-span m (p + b.m_size + 1) bs q s.1 in
      (
        owned_by psp b,
        bs,
        record {
          seg = (
            at,
            Seg-frame {m = m} {g = g} (p + b.m_size + 1) bs q s.1 (λ a h k. other a (omega arith)),
          );
          typed = IsTyped-retype b (owned_by psp b) bs refl t;
          same = λ a h. other a (omega arith);
          one_more = (
            [],
            owned (p + b.m_size + 1) bs,
            owned-free p b bs free,
            owned-used p (owned_by psp b) bs (busy psp (owned_by psp b) pos refl)
                ∙ ap (λ x. (p, x) ∷ owned (p + b.m_size + 1) bs) (sym at),
          );
          owner = ap (λ (c : Mcb). c.m_psp) at;
          inside = (omega arith, omega (arith, ap (λ (c : Mcb). c.m_size) at));
        },
        (elim h [ inl y ↦ inl y | inr e ↦ inr (rw at (sym e)) ], rw at fits),
      )

  from_end :
      (g : Memory) (new : ℕ) (d : Mcb)
      → size < b.m_size
      → new ≡ p + (b.m_size - size)
      → g p ≡ front_rest size b
      → g new ≡ record (owned_by psp d) { m_type = b.m_type; m_size = size }
      → ((a : ℕ) → a ≢ p → a ≢ new → g a ≡ m a)
      → Grants m psp p (b ∷ bs) q mode size (g, new)
  from_end g new d lt en front back other =
      let e = Seg-span m (p + b.m_size + 1) bs q s.1 in
      let c : Mcb = record (owned_by psp d) { m_type = b.m_type; m_size = size } in
      let rest = owned (p + b.m_size + 1) bs in
      let here : p + (b.m_size - size - 1) + 1 ≡ new = omega arith in
      (
        front_rest size b,
        c ∷ bs,
        record {
          seg = (
            front,
            (
              rw here back,
              Seg-at g bs q (p + b.m_size + 1) _ (omega arith) (
                  Seg-frame {m = m} {g = g} (p + b.m_size + 1) bs q s.1
                    (λ a h k. other a (omega arith) (omega arith))),
            ),
          );
          typed = (refl, IsTyped-retype b c bs refl t);
          same = λ a h. other a (omega arith) (omega arith);
          one_more = (
            [],
            rest,
            owned-free p b bs free,
            owned-free p (front_rest size b) (c ∷ bs) (unused (front_rest size b) refl)
                ∙ owned-used (p + (b.m_size - size - 1) + 1) c bs (busy psp c pos refl)
                ∙ ap₂ (λ x y. (x, c) ∷ owned y bs) here (omega arith)
                ∙ ap (λ x. (new, x) ∷ rest) (sym back),
          );
          owner = ap (λ (c : Mcb). c.m_psp) back;
          inside = (omega arith, omega (arith, ap (λ (c : Mcb). c.m_size) back));
        },
        (inr (ap (λ (c : Mcb). c.m_size) back), omega (arith, ap (λ (c : Mcb). c.m_size) back)),
      )

  from_start :
      (g : Memory) (d : Mcb)
      → size < b.m_size
      → g p ≡ record (owned_by psp b) { m_type = mcb_normal; m_size = size }
      → g (p + size + 1)
        ≡ record d { m_type = b.m_type; m_psp = free_psp; m_size = b.m_size - size - 1 }
      → ((a : ℕ) → a ≢ p → a ≢ p + size + 1 → g a ≡ m a)
      → Grants m psp p (b ∷ bs) q mode size (g, p)
  from_start g d lt front back other =
      let e = Seg-span m (p + b.m_size + 1) bs q s.1 in
      let c : Mcb = record (owned_by psp b) { m_type = mcb_normal; m_size = size } in
      let r : Mcb = record d {
        m_type = b.m_type;
        m_psp = free_psp;
        m_size = b.m_size - size - 1;
      } in
      let rest = owned (p + b.m_size + 1) bs in
      (
        c,
        r ∷ bs,
        record {
          seg = (
            front,
            (
              back,
              Seg-at g bs q (p + b.m_size + 1) (p + size + 1 + (b.m_size - size - 1) + 1)
                  (omega arith)
                  (Seg-frame {m = m} {g = g} (p + b.m_size + 1) bs q s.1
                    (λ a h k. other a (omega arith) (omega arith))),
            ),
          );
          typed = (refl, IsTyped-retype b r bs refl t);
          same = λ a h. other a (omega arith) (omega arith);
          one_more = (
            [],
            rest,
            owned-free p b bs free,
            owned-used p c (r ∷ bs) (busy psp c pos refl)
                ∙ ap (λ x. (p, c) ∷ x)
                    (owned-free (p + size + 1) r bs (unused r refl)
                      ∙ ap (λ x. owned x bs) (omega arith))
                ∙ ap (λ x. (p, x) ∷ rest) (sym front),
          );
          owner = ap (λ (c : Mcb). c.m_psp) front;
          inside = (omega arith, omega (arith, ap (λ (c : Mcb). c.m_size) front));
        },
        (inr (ap (λ (c : Mcb). c.m_size) front), omega (arith, ap (λ (c : Mcb). c.m_size) front)),
      )

  -- Whichever part of the block the request gets.
  grant_here : size ≤ b.m_size → Grants m psp p (b ∷ bs) q mode size (claim_block m psp mode size p)
  grant_here fits = elim (Bool-cases (mode == mode_largest)) [
    | inl big ↦ taken (inl big)
    | inr plain ↦ elim (ℕ_discrete size b.m_size) [
      | yes e ↦ taken (inr e)
      | no ne ↦ part plain (omega arith)
    ]
  ]
    where
      ends : p + b.m_size + 1 + span bs ≡ q
      ends = Seg-span m (p + b.m_size + 1) bs q s.1

      taken :
          ((mode == mode_largest) ≡ true) ⊎ (size ≡ b.m_size)
          → Grants m psp p (b ∷ bs) q mode size (claim_block m psp mode size p)
      taken h =
          let h' : ((mode == mode_largest) ≡ true) ⊎ (size ≡ (m p).m_size) = rw s.0 h in
          let c = owned_by psp (m p) in
          rw (claim_whole m psp mode size p h') (
            whole (store m p c) h fits (store_self m p c _ (ap (owned_by psp) s.0))
              (store_other m p c))

      part :
          (mode == mode_largest) ≡ false
          → size < b.m_size
          → Grants m psp p (b ∷ bs) q mode size (claim_block m psp mode size p)
      part plain lt = elim (Bool-cases (is_last_fit mode)) [
        | inl end ↦
            let (new, front, back, other) =
              claim_end m psp mode size p b s.0 plain lt (omega (arith, ends)) end in
            let g = (claim_block m psp mode size p).0 in
            let r = p + (b.m_size - size) in
            subst (λ n. Grants m psp p (b ∷ bs) q mode size (g, n)) (sym new)
              (from_end g r (m r) lt refl front back other)
        | inr start ↦
            let (new, front, back, other) =
              claim_start m psp mode size p b s.0 plain lt (omega (arith, ends)) start in
            let g = (claim_block m psp mode size p).0 in
            subst (λ n. Grants m psp p (b ∷ bs) q mode size (g, n)) (sym new)
              (from_start g (m (p + size + 1)) lt front back other)
      ]

pub Inserted-if :
    {A : Type 0} (h : Bool) (x y : A) (xs ys : List A)
    → Inserted x xs ys
    → Inserted x (if h then xs else y ∷ xs) (if h then ys else y ∷ ys)
Inserted-if true x y xs ys i = i
Inserted-if false x y xs ys (l, r, e, f) = (y ∷ l, r, ap (λ zs. y ∷ zs) e, ap (λ zs. y ∷ zs) f)

-- A block found further on in the chain.
Granted-next :
    (m : Memory) (psp p : ℕ) (b : Mcb) (bs : List Mcb) (q : ℕ) (g : Memory) (new : ℕ) (c : Mcb)
    (cs : List Mcb)
    → m p ≡ b
    → b.m_type ≡ mcb_normal
    → Granted m psp (p + b.m_size + 1) bs q g new c cs
    → Granted m psp p (b ∷ bs) q g new b (c ∷ cs)
Granted-next m psp p b bs q g new c cs at t o = record {
  seg = (o.same p (inl (omega arith)) ∙ at, o.seg);
  typed = (t, o.typed);
  same = λ a h. o.same a (omega arith);
  one_more = Inserted-if (mcb_free b) (new, g new) (p, b) _ _ o.one_more;
  owner = o.owner;
  inside = (omega arith, o.inside.1);
}

-- An unused block of a chain that is large enough is granted to a process other than 0, as a whole or
-- in the part that is asked for: the chain keeps its extent, has the blocks in use from before and the
-- granted one, and memory outside it stays as it is.
pub FreeAt-Granted :
    (m : Memory) (psp mode size p : ℕ) (bs : List Mcb) (q found n : ℕ) (b : Mcb)
    → Seg m p (b ∷ bs) q
    → IsTyped b bs
    → q ≤ seg_mod
    → 0 < psp
    → size ≤ n
    → FreeAt p (b ∷ bs) found n
    → Grants m psp p (b ∷ bs) q mode size (claim_block m psp mode size found)
FreeAt-Granted m psp mode size p bs q found n b s t le pos fits (inl h) =
    rw h.0 (grant_here m psp mode size p b bs q s t le h.1 pos (omega (arith, h.2)))
FreeAt-Granted m psp mode size p [] q found n b s t le pos fits (inr h) = absurd h
FreeAt-Granted m psp mode size p (c ∷ cs) q found n b s t le pos fits (inr h) =
    let (d, ds, o, sz) =
      FreeAt-Granted m psp mode size (p + b.m_size + 1) cs q found n c s.1 t.1 le pos fits h in
    (b, d ∷ ds, Granted-next m psp p b (c ∷ cs) q _ _ d ds s.0 t.0 o, sz)
