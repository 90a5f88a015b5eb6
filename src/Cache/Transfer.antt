-- ===== src/Cache/Transfer.antt =====
-- kernel/blockio.c: `dskxfer`, the request for a device driver and the dialogue with the critical error
-- handler. The driver and the handler are parameters. `none` means that the handler was asked more
-- often than the fuel allows: the code asks as long as it is told to retry.
pub mod Returns
pub mod Loop
pub mod Reliable
pub mod Filled
use burdah_dos_system.Base.{
  ℕ, zero, suc, ◌+◌, ◌-◌, ◌%◌, ◌≡◌, ◌⊎◌, inl, inr, refl, Bool, true, false, not, ◌&&◌, ◌||◌, Option,
  none, some, ltb, leb, ◌==◌, if◌then◌else◌, bit_and, Bool-cases, arith,
}
use burdah_dos_system.Cache.{Bytes}

-- `mode`; `other_mode` is any other number.
pub data Mode : Type 0 where
  dskwrite dskread dskwriteint26 dskreadint25 other_mode : Mode

-- What `block_error` answers.
pub data Answer : Type 0 where
  abort fail retry continue other_answer : Answer

pub data Command : Type 0 where
  c_input c_output c_outvfy : Command

-- The fields of `IoReqHdr` that `dskxfer` sets.
pub record Request : Type 0 where
  pub r_unit : ℕ
  pub r_command : Command
  pub r_meddesc : ℕ
  pub r_count : ℕ
  pub r_start : ℕ
  pub r_huge : ℕ

-- The fields of `struct dpb` and of its device that `dskxfer` uses.
pub record Dpb : Type 0 where
  pub dpb_subunit : ℕ
  pub dpb_mdb : ℕ
  pub attr_huge : Bool

-- Drivers and the critical error handler: `execrh` gives the status and the bytes at the address of
-- the transfer after it, `block_error` the answer.
pub record Driver : Type 1 where
  pub World : Type 0
  pub execrh : Request → Bytes → World → ℕ × Bytes × World
  pub block_error : (status : ℕ) → Mode → World → Answer × World

unfoldable pub command_of : (verify_ena : Bool) → Mode → Option Command
command_of verify dskwrite = some (if verify then c_outvfy else c_output)
command_of verify dskwriteint26 = some c_output
command_of verify dskreadint25 = some c_input
command_of verify dskread = some c_input
command_of verify other_mode = none

unfoldable pub request : Dpb → Command → (blkno numblocks : ℕ) → Request → Request
request d command blkno numblocks old =
    let huge = d.attr_huge || leb 0xffff blkno in
    record {
      r_unit = d.dpb_subunit;
      r_command = command;
      r_meddesc = d.dpb_mdb;
      r_count = numblocks;
      r_start = if huge then 0xffff else blkno % 0x10000;
      r_huge = if huge then blkno else old.r_huge;
    }

unfoldable pub is_write : Mode → Bool
is_write dskwrite = true
is_write dskread = false
is_write dskwriteint26 = false
is_write dskreadint25 = false
is_write other_mode = false

unfoldable pub is_read : Mode → Bool
is_read dskread = true
is_read dskwrite = false
is_read dskwriteint26 = false
is_read dskreadint25 = false
is_read other_mode = false

-- `mode >= DSKWRITEINT26`
unfoldable pub is_direct : Mode → Bool
is_direct dskwrite = false
is_direct dskread = false
is_direct dskwriteint26 = true
is_direct dskreadint25 = true
is_direct other_mode = true

-- `(r_status & (S_ERROR | S_DONE)) == S_DONE`
unfoldable pub is_done : ℕ → Bool
is_done status = bit_and status 0x8100 == 0x0100

module _ (driver : Driver) where
  open driver use {World, execrh, block_error}

  -- The caller's buffer, `deblock_buf`, the request header and the world.
  pub record Io : Type 0 where
    pub buf : Bytes
    pub deblock_buf : Bytes
    pub io_req_hdr : Request
    pub world : World

  -- One call of the driver. `bounced` is the test for a buffer that a driver may not be given.
  unfoldable pub one_transfer : (bounced : Bool) → Mode → Request → Io → ℕ × Io
  unfolding is_write is_read
  one_transfer bounced mode r s =
      let sent = if bounced then (if is_write mode then s.buf else s.deblock_buf) else s.buf in
      let (status, back, w) = execrh r sent s.world in
      (
        status,
        record {
          buf = if bounced then (if is_read mode then back else s.buf) else back;
          deblock_buf = if bounced then back else s.deblock_buf;
          io_req_hdr = r;
          world = w;
        },
      )

  -- The switch on what `block_error` answers, and its default, which asks again at a label of its own.
  unfoldable pub switch :
      Answer → Answer × World → Option (Answer × World) → Option (Answer × World)
  switch abort r again = some r
  switch fail r again = some r
  switch retry r again = some r
  switch continue r again = some r
  switch other_answer r again = again

  unfoldable pub ask : (fuel status : ℕ) → Mode → World → Option (Answer × World)
  unfolding switch
  ask zero status mode w = none
  ask (suc f) status mode w =
      let r = block_error status mode w in let again = ask f status mode r.1 in switch r.0 r again

  -- The retry loop.
  unfoldable pub attempts :
      (fuel : ℕ) (d : Dpb) (verify bounced : Bool)
      → Mode
      → (blkno numblocks : ℕ) → Io
      → Option (ℕ × Io)
  unfolding command_of request is_direct is_done one_transfer ask
  attempts zero d verify bounced mode blkno numblocks s = none
  attempts (suc f) d verify bounced mode blkno numblocks s = elim (command_of verify mode) [
    | none ↦ some (0x0100, s)
    | some command ↦
        let (status, s1) =
          one_transfer bounced mode (request d command blkno numblocks s.io_req_hdr) s in
        let asked = ask (suc f) status mode s1.world in
        let again = λ (w : World).
          attempts f d verify bounced mode blkno numblocks (record s1 { world = w }) in
        if is_done status
        then some (0, s1)
        else if is_direct mode
        then some (status, s1)
        else elim asked [
          | none ↦ none
          | some (answer, w) ↦ elim answer [
            | abort ↦ some (status, record s1 { world = w })
            | fail ↦ some (status, record s1 { world = w })
            | retry ↦ again w
            | continue ↦ some (0, record s1 { world = w })
            | other_answer ↦ none
          ]
        ]
  ]

  -- `none` for `dpbp` is a drive without parameters.
  unfoldable pub dskxfer :
      (fuel : ℕ) (dpbp : Option Dpb) (verify bounced : Bool)
      → Mode
      → (blkno numblocks : ℕ) → Io
      → Option (ℕ × Io)
  unfolding attempts
  dskxfer fuel none verify bounced mode blkno numblocks s = some (0x0201, s)
  dskxfer fuel (some d) verify bounced mode blkno numblocks s =
      attempts fuel d verify bounced mode blkno numblocks s
