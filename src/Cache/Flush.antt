-- ===== src/Cache/Flush.antt =====
-- kernel/blockio.c: what `flush1` leaves on the drives.
use burdah_dos_system.Base.{
  ℕ, zero, suc, ◌+◌, ◌-◌, ◌%◌, ◌<◌, Bool, true, false, ◌&&◌, ◌||◌, ◌==◌, if◌then◌else◌, ◌≡◌, inl,
  inr, refl, sym, ap, ◌∙◌, Bool-cases, arith,
}
use burdah_dos_system.Cache.{
  Buffer, Bytes, Drives, holds, copies_of, offset_of, write_copies, flush1,
}

-- Whether block `k` is one of `n` from `start` on.
unfoldable pub touches : (n start offset k : ℕ) → Bool
touches zero start offset k = false
touches (suc n) start offset k = k == start || touches n ((start + offset) % 0x100000000) offset k

-- Whether a block is the place of a copy of a buffer, other than the buffer's own block.
unfoldable pub copy_at : Buffer → (d k : ℕ) → Bool
copy_at b d k =
    d == b.b_unit
    && touches (copies_of b - 1) ((b.b_blkno + offset_of b) % 0x100000000) (offset_of b) k

-- A FAT buffer is written at least once.
abbrev pub IsCopied : Buffer → Type 0
IsCopied b = 0 < copies_of b

touches-copies :
    (n start offset k : ℕ)
    → 0 < n
    → touches n start offset k
      ≡ (k == start || touches (n - 1) ((start + offset) % 0x100000000) offset k)
unfolding touches
touches-copies zero start offset k h = absurd (omega arith)
touches-copies (suc n) start offset k h = ground arith

module _ (drives : Drives) where
  open drives use {World, contents, write, write_puts}

  copies-contents :
      (n d k offset : ℕ) (bytes : Bytes) (w : World) (d' k' : ℕ)
      → (write_copies drives n d k offset bytes w).0 ≡ true
      → contents (write_copies drives n d k offset bytes w).1 d' k'
        ≡ (if d' == d && touches n k offset k' then bytes else contents w d' k')
  unfolding write_copies touches
  copies-contents zero d k offset bytes w d' k' ok = ground arith
  copies-contents (suc n) d k offset bytes w d' k' ok =
      let w1 = (write d k bytes w).1 in
      ground (
        arith,
        write_puts d k bytes w d' k',
        copies-contents n d ((k + offset) % 0x100000000) offset bytes w1 d' k',
      )

  pub flush1-written :
      (b : Buffer) (w : World)
      → (b.valid && b.dirty) ≡ true
      → flush1 drives b w ≡ (
          let r = write_copies drives (copies_of b) b.b_unit b.b_blkno (offset_of b) b.b_buffer w in
          (r.0, record b { dirty = false; valid = b.valid && r.0 }, r.1))
  unfolding flush1
  flush1-written b w t = rw (t, flush1) refl

  pub flush1-clean :
      (b : Buffer) (w : World)
      → (b.valid && b.dirty) ≡ false
      → flush1 drives b w ≡ (true, record b { dirty = false; valid = b.valid && true }, w)
  unfolding flush1
  flush1-clean b w f = rw (f, flush1) refl

  -- Where `flush1` succeeds, the buffer's block has its bytes if it was dirty, and no other block but
  -- the places of its copies changes.
  pub flush1-contents :
      (b : Buffer) (w : World) (d k : ℕ)
      → (flush1 drives b w).0 ≡ true
      → IsCopied b
      → copy_at b d k ≡ false
      → contents (flush1 drives b w).2 d k
        ≡ (if holds d k b && b.dirty then b.b_buffer else contents w d k)
  unfolding holds copy_at
  flush1-contents b w d k ok n apart =
      let e = touches-copies (copies_of b) b.b_blkno (offset_of b) k n in
      elim (Bool-cases (b.valid && b.dirty)) [
        | inr f ↦ rw (flush1-clean b w f) (ground arith)
        | inl t ↦
            let wrote = flush1-written b w t in
            ap (λ r. contents (r.2) d k) wrote
            ∙ copies-contents (copies_of b) b.b_unit b.b_blkno (offset_of b) b.b_buffer w d k
                (sym (ap (λ r. r.0) wrote) ∙ ok)
            ∙ ground (arith, e)
      ]

  -- What `flush1` leaves of the buffer.
  pub flush1-buffer :
      (b : Buffer) (w : World)
      → (flush1 drives b w).0 ≡ true
      → (flush1 drives b w).1 ≡ record b { dirty = false }
  flush1-buffer b w ok = elim (Bool-cases (b.valid && b.dirty)) [
    | inr f ↦ ap (λ r. r.1) (flush1-clean b w f) ∙ ground arith
    | inl t ↦
        let wrote = flush1-written b w t in
        let done = sym (ap (λ r. r.0) wrote) ∙ ok in ap (λ r. r.1) wrote ∙ ground (arith, done)
  ]
