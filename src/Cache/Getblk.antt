-- ===== src/Cache/Getblk.antt =====
-- kernel/blockio.c: `getblk` answers by the view of the drives and keeps it.
use burdah_dos_system.Base.{ℕ, Bool, true, false, none, some, List, ◌∷◌, ◌≡◌, ◌⊎◌}
use burdah_dos_system.Cache.{Buffer, Bytes, Drives, Cache, holds, flush1, getblk}
use burdah_dos_system.Cache.Lookup.{cached, Picked}
use burdah_dos_system.Cache.Coherent.{copies_in, view, Coherent}

module _ (drives : Drives) where
  open drives use {World, contents, read, read_keeps, read_finds}

  -- The write of a buffer of the ring that is to be used again fails, or else the read of the block
  -- into it.
  abbrev pub Fails : Cache drives → (dsk blkno : ℕ) → Type 0
  Fails c dsk blkno =
      (b : Buffer) × (rest : List Buffer) × Picked b rest c.buffers
      × (let r = flush1 drives (record b { uncache = true }) c.world in
          (r.0 ≡ false) ⊎ ((read dsk blkno r.1.b_buffer r.2).0 ≡ true))

  -- What `getblk` leaves of a cache when it returns the block: the head of the ring.
  pub record Got (c : Cache drives) (dsk blkno : ℕ) (c' : Cache drives) (d k : ℕ) : Type 0 where
    pub buffer : Buffer
    pub rest : List Buffer
    pub front : c'.buffers ≡ buffer ∷ rest
    pub for_block : holds dsk blkno buffer ≡ true
    pub bytes : buffer.b_buffer ≡ view drives c.world c.buffers dsk blkno
    pub coherent : Coherent drives c'.world c'.buffers
    pub same : view drives c'.world c'.buffers d k ≡ view drives c.world c.buffers d k

  module _ (w : World) (c0 : Buffer) (cs : List Buffer) (dsk blkno d k : ℕ)
      (co : Coherent drives w (c0 ∷ cs)) (own : copies_in (c0 ∷ cs) dsk blkno ≡ false)
      (other : copies_in (c0 ∷ cs) d k ≡ false) where
    abbrev pub ring : Cache drives
    ring = record { buffers = c0 ∷ cs; world = w }

    abbrev pub Answers : Type 0
    Answers =
        (c' : Cache drives) × (((getblk drives blkno dsk false ring ≡ some (true, c'))
            × Got ring dsk blkno c' d k)
          ⊎ ((getblk drives blkno dsk false ring ≡ some (false, c')) × Fails ring dsk blkno))

    module _ (b : Buffer) (rest : List Buffer) (p : Picked b rest (c0 ∷ cs))
        (n : cached dsk blkno (c0 ∷ cs) ≡ none) where
      abbrev taken : Buffer
      taken = record b { uncache = true }

      abbrev emptied : Bool × Buffer × World
      emptied = flush1 drives taken w

      abbrev filled : Bool × Bytes × World
      filled = read dsk blkno emptied.1.b_buffer emptied.2
