-- ===== src/Cache.antt =====
-- kernel/blockio.c: the buffers of disk blocks. The ring of buffers, from `firstbuf` along `b_next`, is
-- a list: moving a buffer in front of `firstbuf` and making it `firstbuf` moves it to the head of the
-- list, so that the buffer a routine returns is the head. `dskxfer` stands behind `Drives`.
pub mod Transfer
pub mod Lookup
pub mod Flush
pub mod Coherent
pub mod Fresh
pub mod Getblk
pub mod Durable
mod Tests
use burdah_dos_system.Base.{
  ℕ, zero, suc, ◌+◌, ◌%◌, ◌<◌, Bool, true, false, not, ◌&&◌, ◌||◌, Option, none, some, List, [],
  ◌∷◌, ltb, leb, ◌==◌, if◌then◌else◌, ◌≡◌,
}

-- The bytes of a block by their offset.
abbrev pub Bytes : Type 0
Bytes = ℕ → ℕ

-- `struct buffer`, with the bits of `b_flag` as fields; `fat_size` is `dpb_xfatsize` of `b_dpbp`.
pub record Buffer : Type 0 where
  pub b_unit : ℕ
  pub b_blkno : ℕ
  pub dirty : Bool
  pub valid : Bool
  pub is_data : Bool
  pub is_dir : Bool
  pub is_fat : Bool
  pub uncache : Bool
  pub b_copies : ℕ
  pub b_offset : ℕ
  pub fat_size : ℕ
  pub b_buffer : Bytes

-- What the cache uses of `dskxfer` for one block, on the state of all drives: `read` gives the result
-- (`true` for a code other than 0) and the bytes that the buffer then holds, `write` the result.
-- `contents` are the blocks on the drives. A read changes no block; a transfer that succeeds has done
-- what it says, and has changed no other block. `Cache.Transfer.Filled` fills this with `dskxfer`, for
-- drivers that do what they report and a critical error handler that never answers CONTINUE: after
-- that answer `dskxfer` reports a success that it did not have.
pub record Drives : Type 1 where
  pub World : Type 0
  pub contents : World → (unit blkno : ℕ) → Bytes
  pub read : (unit blkno : ℕ) → Bytes → World → Bool × Bytes × World
  pub write : (unit blkno : ℕ) → Bytes → World → Bool × World
  pub read_keeps :
      (d k : ℕ) (b : Bytes) (w : World) (d' k' : ℕ)
      → contents (read d k b w).2 d' k' ≡ contents w d' k'
  pub read_finds :
      (d k : ℕ) (b : Bytes) (w : World)
      → (read d k b w).0 ≡ false
      → (read d k b w).1 ≡ contents w d k
  pub write_puts :
      (d k : ℕ) (b : Bytes) (w : World) (d' k' : ℕ)
      → (write d k b w).0 ≡ false
      → contents (write d k b w).1 d' k' ≡ (if d' == d && k' == k then b else contents w d' k')

-- The test of a hit.
unfoldable pub holds : (dsk blkno : ℕ) → Buffer → Bool
holds dsk blkno b = b.b_blkno == blkno && b.valid && b.b_unit == dsk

-- The first, or the last, buffer that passes a test, and the others in their order.
unfoldable pub take_first : (Buffer → Bool) → List Buffer → Option (Buffer × List Buffer)
take_first test [] = none
take_first test (b ∷ bs) = elim (test b) [
  | true ↦ some (b, bs)
  | false ↦ elim (take_first test bs) [ none ↦ none | some (c, cs) ↦ some (c, b ∷ cs) ]
]

unfoldable pub take_last : (Buffer → Bool) → List Buffer → Option (Buffer × List Buffer)
take_last test [] = none
take_last test (b ∷ bs) = elim (take_last test bs) [
  | none ↦ if test b then some (b, bs) else none
  | some (c, cs) ↦ some (c, b ∷ cs)
]

unfoldable pub fat_count : List Buffer → ℕ
fat_count [] = 0
fat_count (b ∷ bs) = (if b.is_fat then 1 else 0) + fat_count bs

-- The buffer to be used for another block. After its loop the routine is back at `firstbuf`, so its
-- test for a FAT buffer looks at the head.
unfoldable pub replaced : List Buffer → Option (Buffer × List Buffer)
unfolding take_last fat_count
replaced [] = none
replaced (b ∷ bs) =
    let last = take_last (λ c. true) (b ∷ bs) in
    elim (take_last (λ c. c.uncache) (b ∷ bs)) [
      | some found ↦ some found
      | none ↦
          if b.is_fat && ltb (fat_count (b ∷ bs)) 3
          then elim (take_last (λ c. not c.is_fat) (b ∷ bs)) [
            | some found ↦ some found
            | none ↦ last
          ]
          else last
    ]

-- The buffer is the head of the result, with UNCACHE for a block that was not found; `none` stands for
-- a ring without buffers.
unfoldable pub searchblock : (blkno dsk : ℕ) → List Buffer → Option (Buffer × List Buffer)
unfolding take_first holds replaced
searchblock blkno dsk bs = elim (take_first (holds dsk blkno) bs) [
  | some (b, rest) ↦ some (record b { uncache = false }, rest)
  | none ↦ elim (replaced bs) [
    | none ↦ none
    | some (b, rest) ↦ some (record b { uncache = true }, rest)
  ]
]

unfoldable pub invalidate : List Buffer → List Buffer
invalidate [] = []
invalidate (b ∷ bs) = record b { valid = false } ∷ invalidate bs

-- `b_flag = 0`
unfoldable pub cleared : Buffer → Buffer
cleared b = record b {
  dirty = false;
  valid = false;
  is_data = false;
  is_dir = false;
  is_fat = false;
  uncache = false;
}

unfoldable pub clear_those : (Buffer → Bool) → List Buffer → List Buffer
unfolding cleared
clear_those test [] = []
clear_those test (b ∷ bs) = (if test b then cleared b else b) ∷ clear_those test bs

unfoldable pub in_range : (low high dsk : ℕ) → Buffer → Bool
in_range low high dsk b = leb low b.b_blkno && leb b.b_blkno high && b.valid && b.b_unit == dsk

unfoldable pub dirty_in : (dsk : ℕ) → List Buffer → Bool
dirty_in dsk [] = false
dirty_in dsk (b ∷ bs) = (b.b_unit == dsk && b.valid && b.dirty) || dirty_in dsk bs

-- How often a buffer is written, and how far apart: more than once for a FAT, and an offset of 0 stands
-- for FAT32.
unfoldable pub copies_of : Buffer → ℕ
copies_of b = if b.is_fat then b.b_copies else 1

unfoldable pub offset_of : Buffer → ℕ
offset_of b = if b.is_fat then (if b.b_offset == 0 then b.fat_size else b.b_offset) else 0

module _ (drives : Drives) where
  open drives use {World, read, write}

  -- `while (b_copies--)`: whether all writes succeed.
  unfoldable pub write_copies : (copies unit blkno offset : ℕ) → Bytes → World → Bool × World
  write_copies zero unit blkno offset bytes w = (true, w)
  write_copies (suc n) unit blkno offset bytes w =
      let (failed, w1) = write unit blkno bytes w in
      let (ok, w2) = write_copies n unit ((blkno + offset) % 0x100000000) offset bytes w1 in
      (not failed && ok, w2)

  unfoldable pub flush1 : Buffer → World → Bool × Buffer × World
  unfolding write_copies
  flush1 b w =
      let (ok, w1) =
        if b.valid && b.dirty
        then write_copies (copies_of b) b.b_unit b.b_blkno (offset_of b) b.b_buffer w
        else (true, w) in
      (ok, record b { dirty = false; valid = b.valid && ok }, w1)

  -- The ring and the drives.
  pub record Cache : Type 0 where
    pub buffers : List Buffer
    pub world : World

  -- `true` for a block that is there, as the head of the ring; `false` for a null pointer.
  unfoldable pub getblk : (blkno dsk : ℕ) (overwrite : Bool) → Cache → Option (Bool × Cache)
  unfolding searchblock flush1
  getblk blkno dsk overwrite c = elim (searchblock blkno dsk c.buffers) [
    | none ↦ none
    | some (b, rest) ↦
        let (ok, b1, w1) = flush1 b c.world in
        let (failed, bytes, w2) =
          if overwrite then (false, b1.b_buffer, w1) else read dsk blkno b1.b_buffer w1 in
        let b2 = record b1 { b_buffer = bytes } in
        let b3 = record b2 {
          dirty = false;
          valid = true;
          is_data = true;
          is_dir = false;
          is_fat = false;
          uncache = false;
          b_unit = dsk;
          b_blkno = blkno;
        } in
        if not b.uncache
        then some (true, record { buffers = b ∷ rest; world = c.world })
        else if not ok
        then some (false, record { buffers = b1 ∷ rest; world = w1 })
        else if failed
        then some (false, record { buffers = b2 ∷ rest; world = w2 })
        else some (true, record { buffers = b3 ∷ rest; world = w2 })
  ]

  -- Flushing the buffers that pass a test, in the order of the ring.
  unfoldable pub flush_those : (Buffer → Bool) → List Buffer → World → Bool × List Buffer × World
  unfolding flush1
  flush_those test [] w = (true, [], w)
  flush_those test (b ∷ bs) w =
      let (ok, b1, w1) = if test b then flush1 b w else (true, b, w) in
      let (oks, bs1, w2) = flush_those test bs w1 in (ok && oks, b1 ∷ bs1, w2)

  unfoldable pub flush_buffers : (dsk : ℕ) → Cache → Bool × Cache
  unfolding flush_those
  flush_buffers dsk c =
      let (ok, bs, w) = flush_those (λ b. b.b_unit == dsk) c.buffers c.world in
      (ok, record { buffers = bs; world = w })

  -- `flush`, without the call of the network redirector at its end.
  unfoldable pub flush : Cache → Bool × Cache
  unfolding flush_those invalidate
  flush c =
      let (ok, bs, w) = flush_those (λ b. true) c.buffers c.world in
      (ok, record { buffers = invalidate bs; world = w })

  unfoldable pub setinvld : (dsk : ℕ) → Cache → Cache
  unfolding clear_those
  setinvld dsk c = record c { buffers = clear_those (λ b. b.b_unit == dsk) c.buffers }

  -- `DeleteBlockInBufferCache`; its answer is always FALSE.
  unfoldable pub delete_block_in_buffer_cache :
      (blknolow blknohigh dsk : ℕ) (reads : Bool) → Cache → Cache
  unfolding flush_those clear_those in_range
  delete_block_in_buffer_cache low high dsk reads c =
      let (ok, bs, w) = flush_those (in_range low high dsk) c.buffers c.world in
      if reads
      then record { buffers = bs; world = w }
      else record c { buffers = clear_those (in_range low high dsk) c.buffers }

  unfoldable pub dirty_buffers : (dsk : ℕ) → Cache → Bool
  unfolding dirty_in
  dirty_buffers dsk c = dirty_in dsk c.buffers
