-- ===== src/Cache/Lookup.antt =====
-- kernel/blockio.c: what a ring of buffers holds, whatever their order.
use burdah_dos_system.Base.{
  ℕ, Bool, true, false, not, ◌&&◌, Option, none, some, List, [], ◌∷◌, ltb, if◌then◌else◌, ◌≡◌, ◌⊎◌,
  inl, inr, refl, ◌∙◌, Bool-cases, arith,
}
use burdah_dos_system.Cache.{
  Buffer, Bytes, holds, take_first, take_last, fat_count, replaced, searchblock,
}

-- The bytes of a block that a buffer of the ring holds.
abbrev pub cached : (d k : ℕ) → List Buffer → Option Bytes
cached d k [] = none
cached d k (b ∷ bs) = if holds d k b then some b.b_buffer else cached d k bs

-- No two valid buffers are for the same block.
abbrev pub Distinct : List Buffer → Type 0
Distinct [] = Unit {0}
Distinct (b ∷ bs) = ((b.valid ≡ false) ⊎ (cached b.b_unit b.b_blkno bs ≡ none)) × Distinct bs

abbrev pub All : (Buffer → Type 0) → List Buffer → Type 0
All P [] = Unit {0}
All P (b ∷ bs) = P b × All P bs

-- `b` stands in the ring `cs`, and the others are `bs`.
pub data Picked (b : Buffer) : List Buffer → List Buffer → Type 0 where
  here : {bs : List Buffer} → Picked b bs (b ∷ bs)
  there : {c : Buffer} {bs cs : List Buffer} → Picked b bs cs → Picked b (c ∷ bs) (c ∷ cs)

pub take_first-cases :
    (test : Buffer → Bool) (cs : List Buffer)
    → (take_first test cs ≡ none)
      ⊎ ((b : Buffer) × (bs : List Buffer) × (take_first test cs ≡ some (b, bs))
          × Picked b bs cs
          × (test b ≡ true))
unfolding take_first
take_first-cases test [] = inl refl
take_first-cases test (c ∷ cs) = elim (Bool-cases (test c)) [
  | inl t ↦ inr (c, cs, rw (t, take_first), here, t)
  | inr f ↦ elim (take_first-cases test cs) [
    | inl n ↦ inl (rw (f, n, take_first))
    | inr (b, bs, e, p, t) ↦ inr (b, c ∷ bs, rw (f, e, take_first), there p, t)
  ]
]

pub take_last-cases :
    (test : Buffer → Bool) (cs : List Buffer)
    → (take_last test cs ≡ none)
      ⊎ ((b : Buffer) × (bs : List Buffer) × (take_last test cs ≡ some (b, bs)) × Picked b bs cs)
unfolding take_last
take_last-cases test [] = inl refl
take_last-cases test (c ∷ cs) = elim (take_last-cases test cs) [
  | inl n ↦ elim (Bool-cases (test c)) [
    | inl t ↦ inr (c, cs, rw (n, t), here)
    | inr f ↦ inl (rw (n, f))
  ]
  | inr (b, bs, e, p) ↦ inr (b, c ∷ bs, rw e, there p)
]

take_last_any :
    (c : Buffer) (cs : List Buffer)
    → (b : Buffer) × (bs : List Buffer) × (take_last (λ x. true) (c ∷ cs) ≡ some (b, bs))
      × Picked b bs (c ∷ cs)
unfolding take_last
take_last_any c cs = elim (take_last-cases (λ x. true) cs) [
  | inl n ↦ (c, cs, rw n, here)
  | inr (b, bs, e, p) ↦ (b, c ∷ bs, rw e, there p)
]

pub replaced-Picked :
    (c : Buffer) (cs : List Buffer)
    → (b : Buffer) × (bs : List Buffer) × (replaced (c ∷ cs) ≡ some (b, bs)) × Picked b bs (c ∷ cs)
unfolding replaced
replaced-Picked c cs =
    let (z, zs, ez, pz) = take_last_any c cs in
    elim (take_last-cases (λ x. x.uncache) (c ∷ cs)) [
      | inr (b, bs, e, p) ↦ (b, bs, rw (e, replaced), p)
      | inl n ↦ elim (Bool-cases (c.is_fat && ltb (fat_count (c ∷ cs)) 3)) [
        | inr f ↦ (z, zs, rw (n, f, ez, replaced), pz)
        | inl t ↦ elim (take_last-cases (λ x. not x.is_fat) (c ∷ cs)) [
          | inr (b, bs, e, p) ↦ (b, bs, rw (n, t, e, replaced), p)
          | inl n' ↦ (z, zs, rw (n, t, n', ez, replaced), pz)
        ]
      ]
    ]

cached-cons_other :
    (d k : ℕ) (b : Buffer) (bs : List Buffer)
    → holds d k b ≡ false
    → cached d k (b ∷ bs) ≡ cached d k bs
cached-cons_other d k b bs h = rw h

take_first-cached :
    (d k : ℕ) (cs : List Buffer) → take_first (holds d k) cs ≡ none → cached d k cs ≡ none
unfolding take_first
take_first-cached d k [] h = refl
take_first-cached d k (c ∷ cs) h = ground (arith, take_first-cached d k cs)

cached-swap :
    (d k : ℕ) (b c : Buffer) (bs : List Buffer)
    → (c.valid ≡ false) ⊎ (cached c.b_unit c.b_blkno (b ∷ bs) ≡ none)
    → cached d k (b ∷ c ∷ bs) ≡ cached d k (c ∷ b ∷ bs)
unfolding holds
cached-swap d k b c bs h = ground arith

pub cached-Picked :
    {b : Buffer} {bs cs : List Buffer} (d k : ℕ)
    → Picked b bs cs
    → Distinct cs
    → cached d k (b ∷ bs) ≡ cached d k cs
cached-Picked d k here di = refl
cached-Picked {b} d k (there {c} {bs} {cs} p) di =
    let same = cached-Picked c.b_unit c.b_blkno p di.1 in
    let ih = cached-Picked d k p di.1 in
    cached-swap d k b c bs (elim di.0 [ inl v ↦ inl v | inr n ↦ inr (same ∙ n) ]) ∙ rw ih refl

apart :
    (b c : Buffer) (bs : List Buffer)
    → (c.valid ≡ false) ⊎ (cached c.b_unit c.b_blkno (b ∷ bs) ≡ none)
    → (b.valid ≡ false) ⊎ (cached b.b_unit b.b_blkno bs ≡ none)
    → ((b.valid ≡ false) ⊎ (cached b.b_unit b.b_blkno (c ∷ bs) ≡ none))
      × ((c.valid ≡ false) ⊎ (cached c.b_unit c.b_blkno bs ≡ none))
unfolding holds
apart b c bs h hb = elim (Bool-cases b.valid) [
  | inr v ↦ (inl v, elim h [ inl w ↦ inl w | inr n ↦ inr (ground arith) ])
  | inl v ↦ (inr (ground arith), elim h [ inl w ↦ inl w | inr n ↦ inr (ground arith) ])
]

pub Distinct-Picked :
    {b : Buffer} {bs cs : List Buffer} → Picked b bs cs → Distinct cs → Distinct (b ∷ bs)
Distinct-Picked here di = di
Distinct-Picked {b} (there {c} {bs} {cs} p) di =
    let same = cached-Picked c.b_unit c.b_blkno p di.1 in
    let (hb, hbs) = Distinct-Picked p di.1 in
    let (x, y) = apart b c bs (elim di.0 [ inl v ↦ inl v | inr n ↦ inr (same ∙ n) ]) hb in
    (x, (y, hbs))

pub All-Picked :
    {b : Buffer} {bs cs : List Buffer} (P : Buffer → Type 0)
    → Picked b bs cs
    → All P cs
    → All P (b ∷ bs)
All-Picked P here a = a
All-Picked P (there p) a = let r = All-Picked P p a.1 in (r.0, (a.0, r.1))

-- A hit, or a miss with the buffer that is replaced.
pub searchblock-cases :
    (d k : ℕ) (c : Buffer) (cs : List Buffer)
    → ((b : Buffer) × (bs : List Buffer) × (searchblock k d (c ∷ cs)
          ≡ some (record b { uncache = false }, bs))
        × Picked b bs (c ∷ cs)
        × (holds d k b ≡ true))
      ⊎ ((b : Buffer) × (bs : List Buffer) × (searchblock k d (c ∷ cs)
            ≡ some (record b { uncache = true }, bs))
          × Picked b bs (c ∷ cs)
          × (cached d k (c ∷ cs) ≡ none))
unfolding searchblock
searchblock-cases d k c cs = elim (take_first-cases (holds d k) (c ∷ cs)) [
  | inr (b, bs, e, p, t) ↦ inl (b, bs, rw (e, searchblock), p, t)
  | inl n ↦
      let (b, bs, e, p) = replaced-Picked c cs in
      inr (b, bs, rw (n, e, searchblock), p, take_first-cached d k (c ∷ cs) n)
]
