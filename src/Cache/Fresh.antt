-- ===== src/Cache/Fresh.antt =====
-- kernel/blockio.c: a ring whose head was flushed and read anew.
use burdah_dos_system.Base.{
  ℕ, Bool, true, false, ◌&&◌, none, some, List, ◌∷◌, ◌==◌, ◌≡◌, inl, inr, refl, sym, ap, ◌∙◌,
  Bool-cases, Option-cases, arith,
}
use burdah_dos_system.Cache.{Buffer, Bytes, Drives, holds, copies_of, offset_of, flush1}
use burdah_dos_system.Cache.Lookup.{cached, Picked, cached-Picked, Distinct-Picked, All-Picked}
use burdah_dos_system.Cache.Flush.{touches, copy_at}
use burdah_dos_system.Cache.Coherent.{
  copies_in, copies_in-Picked, view, view_absent, view-cached, Sound, Coherent, Sound-fewer,
  Sound-same, evicted-All, evicted-view,
}

-- A buffer that was just read for a block.
abbrev pub fresh : Buffer → (dsk blkno : ℕ) → Bytes → Buffer
fresh b dsk blkno bytes = record b {
  b_buffer = bytes;
  dirty = false;
  valid = true;
  is_data = true;
  is_dir = false;
  is_fat = false;
  uncache = false;
  b_unit = dsk;
  b_blkno = blkno;
}

module _ (drives : Drives) where
  open drives use {World, contents, read, read_keeps, read_finds}

  pub Coherent-Picked :
      {b : Buffer} {bs cs : List Buffer} (w : World)
      → Picked b bs cs
      → Coherent drives w cs
      → Coherent drives w (b ∷ bs)
  Coherent-Picked {b} {bs} {cs} w p co = record {
    distinct = Distinct-Picked p co.distinct;
    sound =
        Sound-fewer drives w (copies_in cs) (copies_in (b ∷ bs)) (b ∷ bs)
          (λ d k h. copies_in-Picked d k p ∙ h)
          (All-Picked (Sound drives w (copies_in cs)) p co.sound);
  }

  -- The UNCACHE bit has no part in what a ring holds.
  pub Coherent-uncache :
      (w : World) (b : Buffer) (bs : List Buffer) (u : Bool)
      → Coherent drives w (b ∷ bs)
      → Coherent drives w (record b { uncache = u } ∷ bs)
  unfolding holds copy_at copies_of offset_of
  Coherent-uncache w b bs u co = record {
    distinct = co.distinct;
    sound = (
      record { agrees = co.sound.0.agrees; once = co.sound.0.once; apart = co.sound.0.apart },
      co.sound.1,
    );
  }

  pub view-uncache :
      (w : World) (b : Buffer) (bs : List Buffer) (u : Bool) (d k : ℕ)
      → view drives w (record b { uncache = u } ∷ bs) d k ≡ view drives w (b ∷ bs) d k
  unfolding holds
  view-uncache w b bs u d k = refl

  pub view-Picked :
      {b : Buffer} {bs cs : List Buffer} (w : World) (d k : ℕ)
      → Picked b bs cs
      → Coherent drives w cs
      → view drives w (b ∷ bs) d k ≡ view drives w cs d k
  view-Picked w d k p co =
      ap (λ o. elim o as (λ x. Bytes) [ none ↦ contents w d k | some x ↦ x ])
        (cached-Picked d k p co.distinct)

  fresh-copies :
      (b1 b : Buffer) (bs : List Buffer) (dsk blkno : ℕ) (bytes : Bytes) (d k : ℕ)
      → copies_in (b ∷ bs) d k ≡ false
      → copies_in (fresh b1 dsk blkno bytes ∷ bs) d k ≡ false
  unfolding copy_at copies_of touches
  fresh-copies b1 b bs dsk blkno bytes d k h = ground arith

  -- The head of a ring is flushed and read anew for a block that the ring did not hold.
  module _ (w : World) (b1 b : Buffer) (rest : List Buffer) (dsk blkno : ℕ) (x : Bytes)
      (co : Coherent drives w (b ∷ rest)) (missed : cached dsk blkno (b ∷ rest) ≡ none)
      (apart : copies_in (b ∷ rest) dsk blkno ≡ false) (ok : (flush1 drives b w).0 ≡ true)
      (done : (read dsk blkno x (flush1 drives b w).2).0 ≡ false) where
    abbrev pub flushed : World
    flushed = (flush1 drives b w).2

    abbrev pub found : Bytes
    found = (read dsk blkno x flushed).1

    abbrev pub reread : World
    reread = (read dsk blkno x flushed).2

    rest_missed : cached dsk blkno rest ≡ none
    rest_missed = ground arith

    pub fresh-Coherent : Coherent drives reread (fresh b1 dsk blkno found ∷ rest)
    unfolding copies_of
    fresh-Coherent = record {
      distinct = (inr rest_missed, co.distinct.1);
      sound = (
        record {
          agrees = inr (
              inr (
                read_finds dsk blkno x flushed done
                ∙ sym (read_keeps dsk blkno x flushed dsk blkno)));
          once = omega arith;
          apart = inr (fresh-copies b1 b rest dsk blkno found dsk blkno apart);
        },
        Sound-fewer drives reread (copies_in (b ∷ rest))
            (copies_in (fresh b1 dsk blkno found ∷ rest)) rest
            (fresh-copies b1 b rest dsk blkno found)
            (Sound-same drives flushed reread (copies_in (b ∷ rest)) rest
              (read_keeps dsk blkno x flushed) (evicted-All drives b rest w ok co)),
      );
    }

    pub fresh-holds : (d k : ℕ) → holds d k (fresh b1 dsk blkno found) ≡ (k == blkno && d == dsk)
    unfolding holds
    fresh-holds d k = ground arith

    pub fresh-view :
        (d k : ℕ)
        → copies_in (b ∷ rest) d k ≡ false
        → view drives reread (fresh b1 dsk blkno found ∷ rest) d k ≡ view drives w (b ∷ rest) d k
    fresh-view d k a =
        let kept = evicted-view drives b rest w ok co d k a in
        elim (Bool-cases (k == blkno && d == dsk)) [
          | inl t ↦
              let (ek, ed) : (k ≡ blkno) × (d ≡ dsk) = (ground arith, ground arith) in
              view-cached drives reread (fresh b1 dsk blkno found ∷ rest) d k found
                (rw (fresh-holds d k, t) refl)
              ∙ read_finds dsk blkno x flushed done
              ∙ sym (ap (λ n. contents flushed n k) ed ∙ ap (contents flushed dsk) ek)
              ∙ sym (
                  view_absent drives flushed rest d k
                    (ap (λ n. cached n k rest) ed ∙ ap (λ n. cached dsk n rest) ek ∙ rest_missed))
              ∙ kept
          | inr f ↦ elim (Option-cases (cached d k rest)) [
            | inl n ↦
                view_absent drives reread (fresh b1 dsk blkno found ∷ rest) d k
                  (rw (fresh-holds d k, f) n)
                ∙ read_keeps dsk blkno x flushed d k
                ∙ sym (view_absent drives flushed rest d k n)
                ∙ kept
            | inr (y, e) ↦
                view-cached drives reread (fresh b1 dsk blkno found ∷ rest) d k y
                  (rw (fresh-holds d k, f) e)
                ∙ sym (view-cached drives flushed rest d k y e)
                ∙ kept
          ]
        ]
