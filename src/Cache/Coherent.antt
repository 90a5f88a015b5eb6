-- ===== src/Cache/Coherent.antt =====
-- kernel/blockio.c: the cache as a view of the drives. A block has the bytes of its buffer, or else
-- those on the drive; `getblk` answers by that view and keeps it.
use burdah_dos_system.Base.{
  ℕ, Bool, true, false, ◌||◌, none, some, List, [], ◌∷◌, if◌then◌else◌, ◌≡◌, ◌⊎◌, inl, inr, refl,
  sym, ap, ◌∙◌, Bool-cases, Option-cases, arith,
}
use burdah_dos_system.Cache.{Buffer, Bytes, Drives, holds, flush1}
use burdah_dos_system.Cache.Lookup.{cached, Distinct, All, Picked, here, there}
use burdah_dos_system.Cache.Flush.{copy_at, IsCopied, flush1-contents}

pub clash : {x : Bool} → x ≡ true → x ≡ false → ⊥
clash t f = cc

-- Whether a block is the place of a copy of a buffer of the ring.
abbrev pub copies_in : List Buffer → (d k : ℕ) → Bool
copies_in [] d k = false
copies_in (b ∷ bs) d k = copy_at b d k || copies_in bs d k

pub copies_in-Picked :
    {b : Buffer} {bs cs : List Buffer} (d k : ℕ)
    → Picked b bs cs
    → copies_in (b ∷ bs) d k ≡ copies_in cs d k
copies_in-Picked d k here = refl
copies_in-Picked d k (there {c} {bs} {cs} p) = ground (arith, copies_in-Picked d k p)

module _ (drives : Drives) where
  open drives use {World, contents, read, read_keeps, read_finds}

  abbrev pub view : World → List Buffer → (d k : ℕ) → Bytes
  view w bs d k = elim (cached d k bs) [ none ↦ contents w d k | some x ↦ x ]

  pub view_absent :
      (w : World) (bs : List Buffer) (d k : ℕ)
      → cached d k bs ≡ none
      → view w bs d k ≡ contents w d k
  view_absent w bs d k h = rw (h, view) refl

  pub view-cached :
      (w : World) (bs : List Buffer) (d k : ℕ) (x : Bytes)
      → cached d k bs ≡ some x
      → view w bs d k ≡ x
  view-cached w bs d k x h = rw (h, view) refl

  -- A valid buffer that is not dirty agrees with its drive; a FAT buffer is written at least once; and
  -- no valid buffer is for the place of another's copy.
  pub record Sound (w : World) (copied : (d k : ℕ) → Bool) (b : Buffer) : Type 0 where
    pub agrees : (b.valid ≡ false) ⊎ (b.dirty ≡ true) ⊎ (b.b_buffer ≡ contents w b.b_unit b.b_blkno)
    pub once : IsCopied b
    pub apart : (b.valid ≡ false) ⊎ (copied b.b_unit b.b_blkno ≡ false)

  pub record Coherent (w : World) (bs : List Buffer) : Type 0 where
    pub distinct : Distinct bs
    pub sound : All (Sound w (copies_in bs)) bs

  module _ (b : Buffer) (w : World) (copied : (d k : ℕ) → Bool) (ok : (flush1 drives b w).0 ≡ true)
      (once : IsCopied b) (sub : (d k : ℕ) → copied d k ≡ false → copy_at b d k ≡ false) where
    flush1-Sound :
        (c : Buffer)
        → (b.valid ≡ false) ⊎ (holds b.b_unit b.b_blkno c ≡ false)
        → Sound w copied c
        → Sound (flush1 drives b w).2 copied c
    unfolding holds
    flush1-Sound c other s = record {
      agrees = elim s.agrees [
        | inl v ↦ inl v
        | inr (inl t) ↦ inr (inl t)
        | inr (inr e) ↦ elim s.apart [
          | inl v ↦ inl v
          | inr a ↦ elim (Bool-cases c.valid) [
            | inr v ↦ inl v
            | inl v ↦ inr (
                inr (
                  ground (
                    arith,
                    e,
                    flush1-contents drives b w c.b_unit c.b_blkno ok once
                        (sub c.b_unit c.b_blkno a),
                  )))
          ]
        ]
      ];
      once = s.once;
      apart = s.apart;
    }

    flush1-All :
        (cs : List Buffer)
        → (b.valid ≡ false) ⊎ (cached b.b_unit b.b_blkno cs ≡ none)
        → All (Sound w copied) cs
        → All (Sound (flush1 drives b w).2 copied) cs
    flush1-All [] other s = tt
    flush1-All (c ∷ cs) other s = (
      flush1-Sound c (elim other [ inl v ↦ inl v | inr n ↦ inr (ground arith) ]) s.0,
      flush1-All cs (elim other [ inl v ↦ inl v | inr n ↦ inr (ground arith) ]) s.1,
    )

  pub Sound-fewer :
      (w : World) (p q : (d k : ℕ) → Bool) (bs : List Buffer)
      → ((d k : ℕ) → p d k ≡ false → q d k ≡ false)
      → All (Sound w p) bs
      → All (Sound w q) bs
  Sound-fewer w p q [] sub s = tt
  Sound-fewer w p q (b ∷ bs) sub s = (
    record {
      agrees = s.0.agrees;
      once = s.0.once;
      apart = elim s.0.apart [ inl v ↦ inl v | inr a ↦ inr (sub b.b_unit b.b_blkno a) ];
    },
    Sound-fewer w p q bs sub s.1,
  )

  pub Sound-same :
      (w w' : World) (p : (d k : ℕ) → Bool) (bs : List Buffer)
      → ((d k : ℕ) → contents w' d k ≡ contents w d k)
      → All (Sound w p) bs
      → All (Sound w' p) bs
  Sound-same w w' p [] same s = tt
  Sound-same w w' p (b ∷ bs) same s = (
    record {
      agrees = elim s.0.agrees [
        | inl v ↦ inl v
        | inr (inl t) ↦ inr (inl t)
        | inr (inr e) ↦ inr (inr (e ∙ sym (same b.b_unit b.b_blkno)))
      ];
      once = s.0.once;
      apart = s.0.apart;
    },
    Sound-same w w' p bs same s.1,
  )

  module _ (b : Buffer) (rest : List Buffer) (w : World) (ok : (flush1 drives b w).0 ≡ true)
      (co : Coherent w (b ∷ rest)) where
    head_copies : (d k : ℕ) → copies_in (b ∷ rest) d k ≡ false → copy_at b d k ≡ false
    head_copies d k h = ground arith

    -- The rest of the ring after the head was flushed.
    pub evicted-All : All (Sound (flush1 drives b w).2 (copies_in (b ∷ rest))) rest
    evicted-All =
        flush1-All b w (copies_in (b ∷ rest)) ok co.sound.0.once head_copies rest co.distinct.0
          co.sound.1

    evicted_head :
        (d k : ℕ) → holds d k b ≡ true → (b.valid ≡ true) × (b.b_unit ≡ d) × (b.b_blkno ≡ k)
    unfolding holds
    evicted_head d k h = ground arith

    pub evicted_gone : (d k : ℕ) → holds d k b ≡ true → cached d k rest ≡ none
    evicted_gone d k t =
        let (v, du, kb) = evicted_head d k t in
        elim co.distinct.0 [
          | inl f ↦ absurd (clash v f)
          | inr n ↦
              ap (λ x. cached x k rest) (sym du) ∙ ap (λ x. cached b.b_unit x rest) (sym kb) ∙ n
        ]

    evicted_agrees :
        (d k : ℕ)
        → holds d k b ≡ true
        → (if b.dirty then b.b_buffer else contents w d k) ≡ b.b_buffer
    evicted_agrees d k t =
        let (v, du, kb) = evicted_head d k t in
        let place : contents w b.b_unit b.b_blkno ≡ contents w d k =
          ap (λ x. contents w x b.b_blkno) du ∙ ap (contents w d) kb in
        elim co.sound.0.agrees [
          | inl f ↦ absurd (clash v f)
          | inr (inl y) ↦ rw y refl
          | inr (inr e) ↦ elim (Bool-cases b.dirty) [
            | inl y ↦ rw y refl
            | inr y ↦ rw y (sym (e ∙ place))
          ]
        ]

    pub evicted-view :
        (d k : ℕ)
        → copies_in (b ∷ rest) d k ≡ false
        → view (flush1 drives b w).2 rest d k ≡ view w (b ∷ rest) d k
    evicted-view d k a =
        let wrote = flush1-contents drives b w d k ok co.sound.0.once (head_copies d k a) in
        elim (Bool-cases (holds d k b)) [
          | inr f ↦ elim (Option-cases (cached d k rest)) [
            | inl n ↦
                view_absent (flush1 drives b w).2 rest d k n
                ∙ wrote
                ∙ rw f refl
                ∙ sym (view_absent w (b ∷ rest) d k (rw f n))
            | inr (x, e) ↦
                view-cached (flush1 drives b w).2 rest d k x e
                ∙ sym (view-cached w (b ∷ rest) d k x (rw f e))
          ]
          | inl t ↦
              view_absent (flush1 drives b w).2 rest d k (evicted_gone d k t)
              ∙ wrote
              ∙ rw t (evicted_agrees d k t)
              ∙ sym (view-cached w (b ∷ rest) d k b.b_buffer (rw t refl))
        ]
