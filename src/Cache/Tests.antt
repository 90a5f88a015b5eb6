-- ===== src/Cache/Tests.antt =====
-- Drives that never fail, a ring of two buffers, and the theorems of the cache at these.
use burdah_dos_system.Base.{
  ℕ, zero, suc, ◌<◌, some, ◌+◌, Bool, true, false, ◌&&◌, List, [], ◌∷◌, ◌==◌, if◌then◌else◌, ◌≡◌,
  ◌⊎◌, inl, inr, refl, ap, ◌≢◌, arith,
}
use burdah_dos_system.Cache.{Bytes, Buffer, Drives}
use burdah_dos_system.Cache.Transfer.Reliable.{start_of, Reliable}
use burdah_dos_system.Cache.Transfer.Filled.{dskxfer_drives}
use burdah_dos_system.Cache.Transfer.{
  Command, c_output, c_outvfy, is_done, abort, fail, retry, continue, dskread, c_input, Answer, Dpb,
  Driver, Io, dskxfer,
}
use burdah_dos_system.Cache.Transfer.Returns.{Patient, dskxfer-returns}
use burdah_dos_system.Cache.Coherent.{Coherent}

abbrev Blocks : Type 0
Blocks = ℕ → ℕ → Bytes

abbrev put : Blocks → (d k : ℕ) → Bytes → ℕ → ℕ → Bytes
put w d k b d' k' = if d' == d && k' == k then b else w d' k'

-- A driver of such drives, which fails where a block number is 99, and a handler that answers FAIL.
served : (broken : Bool) → Command → (u k : ℕ) → Bytes → Blocks → ℕ × Bytes × Blocks
served true c u k b w = (0x8002, b, w)
served false c_input u k b w = (0x0100, w u k, w)
served false c_output u k b w = (0x0100, b, put w u k b)
served false c_outvfy u k b w = (0x0100, b, put w u k b)

abbrev disk_driver : Driver
disk_driver = record {
  World = Blocks;
  execrh = λ r b w. served (start_of r == 99) r.r_command r.r_unit (start_of r) b w;
  block_error = λ status m w. (fail, w);
}

abbrev disk_io : Blocks → Io disk_driver
disk_io w = record {
  buf = λ i. 0;
  deblock_buf = λ i. 0;
  io_req_hdr = record {
    r_unit = 0;
    r_command = c_input;
    r_meddesc = 0;
    r_count = 0;
    r_start = 0;
    r_huge = 0;
  };
  world = w;
}

put_self : (w : Blocks) (u k : ℕ) (b : Bytes) → put w u k b u k ≡ b
put_self w u k b = ground arith

put_other :
    (w : Blocks) (u k : ℕ) (b : Bytes) (u' k' : ℕ)
    → (u' == u && k' == k) ≡ false
    → put w u k b u' k' ≡ w u' k'
put_other w u k b u' k' off = rw off refl

served-reports :
    (x : Bool) (c : Command) (u k : ℕ) (b : Bytes) (w : Blocks)
    → is_done (served x c u k b w).0 ≡ false
    → (served x c u k b w).0 ≢ 0
unfolding served is_done
served-reports true c u k b w short e = omega (arith, e)
served-reports false c_input u k b w short e = omega (arith, e)
served-reports false c_output u k b w short e = omega (arith, e)
served-reports false c_outvfy u k b w short e = omega (arith, e)

served-reads :
    (x : Bool) (c : Command) (u k : ℕ) (b : Bytes) (w : Blocks)
    → c ≡ c_input
    → is_done (served x c u k b w).0 ≡ true
    → (served x c u k b w).1 ≡ w u k
unfolding served is_done
served-reads true c u k b w input done = absurd cc
served-reads false c_input u k b w input done = refl
served-reads false c_output u k b w input done = absurd cc
served-reads false c_outvfy u k b w input done = absurd cc

served-read_keeps :
    (x : Bool) (c : Command) (u k : ℕ) (b : Bytes) (w : Blocks)
    → c ≡ c_input
    → (served x c u k b w).2 ≡ w
unfolding served
served-read_keeps true c u k b w input = refl
served-read_keeps false c_input u k b w input = refl
served-read_keeps false c_output u k b w input = absurd cc
served-read_keeps false c_outvfy u k b w input = absurd cc

served-writes :
    (x : Bool) (c : Command) (u k : ℕ) (b : Bytes) (w : Blocks)
    → c ≢ c_input
    → is_done (served x c u k b w).0 ≡ true
    → (served x c u k b w).2 u k ≡ b
unfolding served is_done
served-writes true c u k b w out done = absurd cc
served-writes false c_input u k b w out done = absurd (out refl)
served-writes false c_output u k b w out done = put_self w u k b
served-writes false c_outvfy u k b w out done = put_self w u k b

served-others :
    (x : Bool) (c : Command) (u k : ℕ) (b : Bytes) (w : Blocks) (u' k' : ℕ)
    → (u' == u && k' == k) ≡ false
    → (served x c u k b w).2 u' k' ≡ w u' k'
unfolding served
served-others true c u k b w u' k' off = refl
served-others false c_input u k b w u' k' off = refl
served-others false c_output u k b w u' k' off = put_other w u k b u' k' off
served-others false c_outvfy u k b w u' k' off = put_other w u k b u' k' off

served-bytes :
    (x : Bool) (c : Command) (u k : ℕ) (b : Bytes) (w : Blocks)
    → c ≢ c_input
    → (served x c u k b w).1 ≡ b
unfolding served
served-bytes true c u k b w out = refl
served-bytes false c_input u k b w out = absurd (out refl)
served-bytes false c_output u k b w out = refl
served-bytes false c_outvfy u k b w out = refl

disk-Reliable : Reliable disk_driver (λ w. w)
disk-Reliable = record {
  reports =
      λ r b w short. served-reports (start_of r == 99) r.r_command r.r_unit (start_of r) b w short;
  reads = λ r b w one input done.
      served-reads (start_of r == 99) r.r_command r.r_unit (start_of r) b w input done;
  read_changes_none = λ r b w u k input.
      ap (λ x. x u k)
        (served-read_keeps (start_of r == 99) r.r_command r.r_unit (start_of r) b w input);
  writes = λ r b w one out done.
      served-writes (start_of r == 99) r.r_command r.r_unit (start_of r) b w out done;
  write_keeps_others = λ r b w u k one out off.
      served-others (start_of r == 99) r.r_command r.r_unit (start_of r) b w u k off;
  write_keeps_bytes =
      λ r b w out. served-bytes (start_of r == 99) r.r_command r.r_unit (start_of r) b w out;
  asking_changes_none = λ status m w u k. refl;
  no_ignore = λ status m w e. absurd cc;
}

disk-Patient : Patient disk_driver (λ w. 0)
disk-Patient = record { transfers = λ r b w. omega arith; settles = λ status m w. inr (inl refl) }

-- Drive number and unit are the same.
abbrev unit : ℕ → Dpb
unit d = record { dpb_subunit = d; dpb_mdb = 0xf0; attr_huge = false }

-- The drives behind `dskxfer`.
abbrev disks : Drives
disks =
    dskxfer_drives disk_driver (λ w. w) disk-Reliable (λ w. 0) disk-Patient unit (λ d d'. refl)
      false false

abbrev blank_blocks : Blocks
blank_blocks d k i = d + k

abbrev blank : Io disk_driver
blank = disk_io blank_blocks

-- A dirty FAT buffer with two copies nine blocks apart.
abbrev fat_buffer : Buffer
fat_buffer = record {
  b_unit = 2;
  b_blkno = 1;
  dirty = true;
  valid = true;
  is_data = false;
  is_dir = false;
  is_fat = true;
  uncache = false;
  b_copies = 2;
  b_offset = 9;
  fat_size = 9;
  b_buffer = λ i. 0xf8;
}

abbrev data_buffer : Buffer
data_buffer = record fat_buffer {
  b_blkno = 40;
  dirty = false;
  is_data = true;
  is_fat = false;
  b_buffer = blank_blocks 2 40;
}

abbrev ring : List Buffer
ring = fat_buffer ∷ data_buffer ∷ []

-- A drive that is never ready; the user asks to try again as often as the state says, and then aborts.
user_answers : ℕ → Answer × ℕ
user_answers zero = (abort, zero)
user_answers (suc n) = (retry, n)

abbrev idle_driver : Driver
idle_driver = record {
  World = ℕ;
  execrh = λ r b w. (0x8002, b, w);
  block_error = λ status m w. user_answers w;
}

user_settles :
    (w : ℕ)
    → ((user_answers w).0 ≡ abort)
      ⊎ ((user_answers w).0 ≡ fail)
      ⊎ ((user_answers w).0 ≡ continue)
      ⊎ ((user_answers w).1 < w)
unfolding user_answers
user_settles zero = inl refl
user_settles (suc n) = inr (inr (inr (omega arith)))

user-Patient : Patient idle_driver (λ w. w)
user-Patient = record { transfers = λ r b w. omega arith; settles = λ status m w. user_settles w }

abbrev idle_io : Io idle_driver
idle_io = record {
  buf = λ i. 0;
  deblock_buf = λ i. 0;
  io_req_hdr = record {
    r_unit = 0;
    r_command = c_input;
    r_meddesc = 0;
    r_count = 0;
    r_start = 0;
    r_huge = 0;
  };
  world = 3;
}

abbrev floppy : Dpb
floppy = record { dpb_subunit = 0; dpb_mdb = 0xf0; attr_huge = false }

dskxfer-returns_example :
    (r : ℕ × Io idle_driver) × (dskxfer idle_driver 4 (some floppy) false false dskread 19 1 idle_io
      ≡ some r)
dskxfer-returns_example =
    dskxfer-returns idle_driver (λ w. w) user-Patient 4 (some floppy) false false dskread 19 1
      idle_io (omega arith)
