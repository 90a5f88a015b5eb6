-- ===== src/Mem/Alloc.antt =====
-- `DosMemAlloc` and `DosMemLargest` of kernel/memmgr.c. Far pointers to headers are segments, with 0
-- for `NULL`; `mode` is the 16-bit pattern of the `COUNT`, so `LARGEST` (-1) is 0xffff. `none` means
-- that a walk over the chain ran out of fuel, which is 0x10000 headers.
pub mod Visit
pub mod Biggest
pub mod Walk
pub mod Split
pub mod Claim
pub mod Served
pub mod Correct
use burdah_dos_system.Base.{
  ℕ, zero, suc, ◌+◌, ◌-◌, ◌/◌, ◌%◌, Bool, true, false, not, ◌&&◌, ◌||◌, Option, none, some, ltb,
  leb, ◌==◌, if◌then◌else◌, set,
}
use burdah_dos_system.Mem.{
  Status, success, de_mcbdestry, de_nomem, Mcb, Memory, Arena, store, mcb_normal, mcb_last,
  free_psp, seg_mod, nxt_mcb_size, nxt_mcb, mcb_free, mcb_valid, join_mcbs,
}

-- The four rules of the `switch (mode)`.
pub data Fit : Type 0 where
  largest first best last : Fit

abbrev pub mode_largest : ℕ
mode_largest = 0xffff

unfoldable pub fit_of : ℕ → Fit
fit_of mode =
    if mode == mode_largest
    then largest
    else if mode == 1 || mode == 0x81 || mode == 0x41
    then best
    else if mode == 0 || mode == 0x80 || mode == 0x40
    then first
    else last

-- `mode == LAST_FIT || mode == LAST_FIT_UO || mode == LAST_FIT_U`
unfoldable pub is_last_fit : ℕ → Bool
is_last_fit mode = mode == 2 || mode == 0x42 || mode == 0x82

-- What a block that is large enough does to `foundSeg`.
unfoldable pub pick : Fit → Memory → ℕ → ℕ → ℕ
pick largest m p found = found
pick first m p found = p
pick best m p found = if found == 0 || ltb (m p).m_size (m found).m_size then p else found
pick last m p found = p

unfoldable pub pick_biggest : Memory → ℕ → ℕ → ℕ
pick_biggest m p big = if big == 0 || ltb (m big).m_size (m p).m_size then p else big

-- Where the search stands: memory, `foundSeg`, `biggestSeg`.
pub record Search : Type 0 where
  pub mem : Memory
  pub found : ℕ
  pub biggest : ℕ

-- How a visit of a header, and the whole search, may end.
pub data Walked : Type 0 where
  corrupt : Memory → Walked
  more : Search → Walked
  stop_it : Search → Walked

-- The treatment of an unused block after `joinMCBs`.
unfoldable pub consider : Fit → ℕ → Search → ℕ → Walked
unfolding pick pick_biggest
consider fit size s p =
    let s1 = record s { biggest = pick_biggest s.mem p s.biggest } in
    if leb size (s.mem p).m_size
    then (let s2 = record s1 { found = pick fit s.mem p s.found } in
        elim fit [ first ↦ stop_it s2 | _ ↦ more s2 ])
    else more s1

unfoldable pub consider_joined : Fit → ℕ → Search → ℕ → Option (Status × Memory) → Option Walked
unfolding consider
consider_joined fit size s p none = none
consider_joined fit size s p (some (success, m)) = some (consider fit size (record s { mem = m }) p)
consider_joined fit size s p (some (e, m)) = some (corrupt m)

-- The body of the `FOREVER` loop, up to the test for the last block.
unfoldable pub visit : Fit → ℕ → Search → ℕ → Option Walked
unfolding consider_joined
visit fit size s p =
    if not (mcb_valid (s.mem p))
    then some (corrupt s.mem)
    else if mcb_free (s.mem p)
    then consider_joined fit size s p (join_mcbs s.mem p)
    else some (more s)

unfoldable pub walk : ℕ → Fit → ℕ → Search → ℕ → Option Walked
walk zero fit size s p = none
walk (suc f) fit size s p = elim (visit fit size s p) [
  | none ↦ none
  | some w ↦ elim w [
    | corrupt m ↦ some (corrupt m)
    | stop_it t ↦ some (stop_it t)
    | more t ↦ elim ((t.mem p).m_type == mcb_last) [
      | true ↦ some (more t)
      | false ↦ walk f fit size t (nxt_mcb t.mem p)
    ]
  ]
]

-- `(uppermem_link & 1) && uppermem_root != 0xffff`
unfoldable pub umb_linked : Arena → Bool
umb_linked a = a.uppermem_link % 2 == 1 && not (a.uppermem_root == 0xffff)

-- Bits 0xc0 and 0x80 of a mode.
unfoldable pub prefers_umb : ℕ → Bool
prefers_umb mode = not (mode / 64 % 4 == 0)

unfoldable pub is_umb_first : ℕ → Bool
is_umb_first mode = mode / 128 % 2 == 1

-- The header at which a search starts.
unfoldable pub search_start : Arena → ℕ → ℕ → ℕ
unfolding umb_linked prefers_umb
search_start a size mode =
    let tmpmode = if mode == mode_largest then a.mem_access_mode else mode in
    if umb_linked a && (not (mode == mode_largest) || size == 0xffff) && prefers_umb tmpmode
    then a.uppermem_root
    else a.first_mcb

-- The part of a found block that the request takes: memory, and the block's header. The rest of the
-- block becomes an unused block of its own.
unfoldable pub split_block : Memory → ℕ → ℕ → ℕ → Memory × ℕ
unfolding store nxt_mcb_size nxt_mcb is_last_fit
split_block m mode size found =
    if is_last_fit mode
    then (let m1 =
          store m found
            (record (m found) { m_size = ((m found).m_size + seg_mod - (size + 1)) % seg_mod }) in
        let new = nxt_mcb m1 found in
        let m2 = store m1 new (record (m1 new) { m_type = (m1 found).m_type }) in
        let m3 = store m2 found (record (m2 found) { m_type = mcb_normal; m_psp = free_psp }) in
        (store m3 new (record (m3 new) { m_size = size }), new))
    else (let rest = nxt_mcb_size found size in
        let m1 = store m rest (record (m rest) {
          m_type = (m found).m_type;
          m_size = ((m found).m_size + seg_mod - (size + 1)) % seg_mod;
        }) in
        let m2 = store m1 found (record (m1 found) { m_type = mcb_normal }) in
        let m3 = store m2 rest (record (m2 rest) { m_psp = free_psp }) in
        (store m3 found (record (m3 found) { m_size = size }), found))

-- From `stopIt` on: memory, and the segment that goes to `*para`.
unfoldable pub claim_block : Memory → ℕ → ℕ → ℕ → ℕ → Memory × ℕ
unfolding store split_block
claim_block m psp mode size found =
    let (m1, new) =
      if not (mode == mode_largest) && not (size == (m found).m_size)
      then split_block m mode size found
      else (m, found) in
    (store m1 new (record (m1 new) { m_psp = psp; m_name = set (m1 new).m_name 0 0 }), new)

-- What `DosMemAlloc` leaves: its result, `*para`, `*asize` (`none` for a null `asize`), memory.
pub record Allocated : Type 0 where
  pub status : Status
  pub para : ℕ
  pub asize : Option ℕ
  pub arena : Arena

-- `if (asize) *asize = n;`
unfoldable pub put_size : Option ℕ → ℕ → Option ℕ
put_size none n = none
put_size (some _) n = some n

unfoldable pub grant : Arena → ℕ → ℕ → Option ℕ → Search → Allocated
unfolding claim_block
grant a size mode asize s =
    let (m, new) = claim_block s.mem a.cu_psp mode size s.found in
    record { status = success; para = new; asize = asize; arena = record a { mem = m } }

-- `mode == LARGEST && biggestSeg && biggestSeg->m_size >= size`
unfoldable pub takes_largest : ℕ → ℕ → Search → Bool
takes_largest size mode s =
    mode == mode_largest && not (s.biggest == 0) && leb size (s.mem s.biggest).m_size

unfoldable pub settle : ℕ → ℕ → Search → Search
unfolding takes_largest
settle size mode s = if takes_largest size mode s then record s { found = s.biggest } else s

-- `asize` as the `LARGEST` rule leaves it.
unfoldable pub settle_size : ℕ → ℕ → Option ℕ → Search → Option ℕ
unfolding takes_largest put_size
settle_size size mode asize s =
    if takes_largest size mode s then put_size asize (s.mem s.biggest).m_size else asize

unfoldable pub no_block : Search → Bool
no_block s = s.found == 0 || (s.mem s.found).m_size == 0

unfoldable pub refuse : Arena → ℕ → Option ℕ → Search → Allocated
unfolding put_size
refuse a para asize s = record {
  status = de_nomem;
  para = para;
  asize = put_size asize (if s.biggest == 0 then 0 else (s.mem s.biggest).m_size);
  arena = record a { mem = s.mem };
}

unfoldable pub destroyed : Arena → ℕ → Option ℕ → Memory → Allocated
destroyed a para asize m = record {
  status = de_mcbdestry;
  para = para;
  asize = asize;
  arena = record a { mem = m };
}

-- `(mode != LARGEST) && (mode & FIRST_FIT_U) && (uppermem_link & 1) && uppermem_root != 0xffff`
unfoldable pub searches_again : Arena → ℕ → Bool
unfolding is_umb_first umb_linked
searches_again a mode = not (mode == mode_largest) && is_umb_first mode && umb_linked a

-- The search from `searchAgain` on. The number counts the searches that may still be made: the code
-- goes back with bit 0x80 of the mode cleared, so it does so once at most.
unfoldable pub alloc_again : ℕ → Arena → ℕ → ℕ → ℕ → Option ℕ → Option Allocated
alloc_again zero a size mode para asize = none
alloc_again (suc f) a size mode para asize =
    elim (walk seg_mod (fit_of mode) size (record { mem = a.mem; found = 0; biggest = 0 })
      (search_start a size mode)) [
        | none ↦ none
        | some w ↦ elim w [
          | corrupt m ↦ some (destroyed a para asize m)
          | stop_it s ↦ some (grant a size mode asize s)
          | more s ↦
              let t = settle size mode s in
              let asize' = settle_size size mode asize s in
              let again = alloc_again f (record a { mem = s.mem }) size (mode - 0x80) para asize' in
              if not (no_block t)
              then some (grant a size mode asize' t)
              else if searches_again a mode
              then again
              else some (refuse a para asize' t)
        ]
      ]

unfoldable pub dos_mem_alloc : Arena → ℕ → ℕ → ℕ → Option ℕ → Option Allocated
dos_mem_alloc a size mode para asize = alloc_again 2 a size mode para asize

-- What the call that looks for the largest block leaves in `*size`.
unfoldable pub asize_or_zero : Option ℕ → ℕ
asize_or_zero none = 0
asize_or_zero (some n) = n

unfoldable pub largest_result : ℕ → Status
largest_result size = if size == 0 then de_nomem else success

-- The second look, in low memory: `mem_access_mode` loses bit 0x80 for the call and gets it back.
unfoldable pub largest_low : Arena → ℕ → Option (Status × ℕ × Arena)
unfolding asize_or_zero largest_result
largest_low a size =
    elim (dos_mem_alloc (record a { mem_access_mode = a.mem_access_mode - 0x80 }) 0xffff
      mode_largest 0 (some 0)) [
        | none ↦ none
        | some r ↦
            let lowsize = asize_or_zero r.asize in
            let best = if ltb size lowsize then lowsize else size in
            let a' = record (r.arena) { mem_access_mode = r.arena.mem_access_mode + 0x80 } in
            some (largest_result best, best, a')
      ]

-- `DosMemLargest`: its result, `*size`, and the arena.
unfoldable pub dos_mem_largest : Arena → Option (Status × ℕ × Arena)
unfolding asize_or_zero largest_result largest_low
dos_mem_largest a = elim (dos_mem_alloc a 0xffff mode_largest 0 (some 0)) [
  | none ↦ none
  | some r ↦
      let size = asize_or_zero r.asize in
      if is_umb_first r.arena.mem_access_mode
      then largest_low r.arena size
      else some (largest_result size, size, r.arena)
]
