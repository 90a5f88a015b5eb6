-- ===== src/Cache/Transfer/Reliable.antt =====
-- kernel/blockio.c: `dskxfer` as the `Drives` of the cache, over a driver that does what it reports and a
-- critical error handler that never answers CONTINUE, which `dskxfer` takes for a success.
use burdah_dos_system.Base.{
  ℕ, ◌≡◌, ◌≢◌, ◌⊎◌, inl, inr, refl, sym, ap, ◌∙◌, Bool, true, false, ◌&&◌, some, ◌==◌, ==→eq,
  if◌then◌else◌, Bool-cases, arith,
}
use burdah_dos_system.Cache.{Bytes}
use burdah_dos_system.Cache.Transfer.{
  continue, dskread, dskwrite, c_input, c_output, c_outvfy, Mode, Command, Request, Dpb, Driver, Io,
  command_of, is_direct, request, is_done, is_write, is_read, one_transfer, attempts,
}
use burdah_dos_system.Cache.Transfer.Loop.{attempts-Ends}

-- The block that a request is for.
unfoldable pub start_of : Request → ℕ
start_of r = if r.r_start == 0xffff then r.r_huge else r.r_start

start_of-request :
    (d : Dpb) (c : Command) (k n : ℕ) (old : Request) → start_of (request d c k n old) ≡ k
unfolding start_of request
start_of-request d c k n old = ground arith

-- A driver whose status is true of its units, which are `blocks`: it reports an error or that it is
-- done; a request for one block that is done has given the block or stored it; a write changes no other
-- block and not the caller's bytes, and a read no block at all. The handler changes no block and never
-- answers CONTINUE.
pub record Reliable (driver : Driver) (blocks : driver.World → ℕ → ℕ → Bytes) : Type 0 where
  pub reports :
      (r : Request) (b : Bytes) (w : driver.World)
      → is_done (driver.execrh r b w).0 ≡ false
      → (driver.execrh r b w).0 ≢ 0
  pub reads :
      (r : Request) (b : Bytes) (w : driver.World)
      → r.r_count ≡ 1
      → r.r_command ≡ c_input
      → is_done (driver.execrh r b w).0 ≡ true
      → (driver.execrh r b w).1 ≡ blocks w r.r_unit (start_of r)
  pub read_changes_none :
      (r : Request) (b : Bytes) (w : driver.World) (u k : ℕ)
      → r.r_command ≡ c_input
      → blocks (driver.execrh r b w).2 u k ≡ blocks w u k
  pub writes :
      (r : Request) (b : Bytes) (w : driver.World)
      → r.r_count ≡ 1
      → r.r_command ≢ c_input
      → is_done (driver.execrh r b w).0 ≡ true
      → blocks (driver.execrh r b w).2 r.r_unit (start_of r) ≡ b
  pub write_keeps_others :
      (r : Request) (b : Bytes) (w : driver.World) (u k : ℕ)
      → r.r_count ≡ 1
      → r.r_command ≢ c_input
      → (u == r.r_unit && k == start_of r) ≡ false
      → blocks (driver.execrh r b w).2 u k ≡ blocks w u k
  pub write_keeps_bytes :
      (r : Request) (b : Bytes) (w : driver.World)
      → r.r_command ≢ c_input
      → (driver.execrh r b w).1 ≡ b
  pub asking_changes_none :
      (status : ℕ) (m : Mode) (w : driver.World) (u k : ℕ)
      → blocks (driver.block_error status m w).1 u k ≡ blocks w u k
  pub no_ignore :
      (status : ℕ) (m : Mode) (w : driver.World) → (driver.block_error status m w).0 ≢ continue

module _ (driver : Driver) (blocks : driver.World → ℕ → ℕ → Bytes)
    (reliable : Reliable driver blocks) where
  open driver use {World, execrh, block_error}

  read_moves :
      (bounced : Bool) (r : Request) (s : Io driver)
      → (sent : Bytes) × (one_transfer driver bounced dskread r s).0 ≡ (execrh r sent s.world).0
        × ((one_transfer driver bounced dskread r s).1.buf ≡ (execrh r sent s.world).1)
        × ((one_transfer driver bounced dskread r s).1.world ≡ (execrh r sent s.world).2)
  unfolding one_transfer is_read
  read_moves true r s = (s.deblock_buf, refl, refl, refl)
  read_moves false r s = (s.buf, refl, refl, refl)

  write_moves :
      (bounced : Bool) (r : Request) (s : Io driver)
      → r.r_command ≢ c_input
      → ((one_transfer driver bounced dskwrite r s).0 ≡ (execrh r s.buf s.world).0)
        × ((one_transfer driver bounced dskwrite r s).1.buf ≡ s.buf)
        × ((one_transfer driver bounced dskwrite r s).1.world ≡ (execrh r s.buf s.world).2)
  unfolding one_transfer is_read is_write
  write_moves true r s out = (refl, refl, refl)
  write_moves false r s out = (refl, reliable.write_keeps_bytes r s.buf s.world out, refl)

  abbrev write_command : Bool → Command
  write_command verify = if verify then c_outvfy else c_output

  write_command-output : (verify : Bool) → write_command verify ≢ c_input
  write_command-output true e = absurd cc
  write_command-output false e = absurd cc

  module _ (d : Dpb) (verify bounced : Bool) (k : ℕ) (w0 : World) where
    -- The blocks are those of `w0`.
    abbrev pub Unchanged : Io driver → Type 0
    Unchanged s = (u q : ℕ) → blocks s.world u q ≡ blocks w0 u q

    -- The caller's bytes are `b`, and at most the block in question is not that of `w0`.
    abbrev pub Others : Bytes → Io driver → Type 0
    Others b s =
        (s.buf ≡ b)
        × ((u q : ℕ)
            → ((u == d.dpb_subunit && q == k) ≡ true) ⊎ (blocks s.world u q ≡ blocks w0 u q))

    abbrev read_request : Io driver → Request
    read_request s = request d c_input k 1 s.io_req_hdr

    abbrev write_request : Io driver → Request
    write_request s = request d (write_command verify) k 1 s.io_req_hdr

    -- A state from which the last transfer of a successful run was made.
    abbrev Last : Mode → (Io driver → Request) → (Io driver → Type 0) → ℕ × Io driver → Type 0
    Last m r Q x =
        Q x.1
        × ((x.0 ≢ 0)
            ⊎ ((s : Io driver) × Q s
                × (is_done (one_transfer driver bounced m (r s) s).0 ≡ true)
                × (x.1 ≡ (one_transfer driver bounced m (r s) s).1)))

    read_keeps :
        (s : Io driver)
        → Unchanged s
        → Unchanged (one_transfer driver bounced dskread (read_request s) s).1
    unfolding request
    read_keeps s same u q =
        let (sent, st, bf, wd) = read_moves bounced (read_request s) s in
        ap (λ w. blocks w u q) wd
        ∙ reliable.read_changes_none (read_request s) sent s.world u q refl
        ∙ same u q

    write_keeps :
        (b : Bytes) (s : Io driver)
        → Others b s
        → Others b (one_transfer driver bounced dskwrite (write_request s) s).1
    unfolding request
    write_keeps b s (bytes, others) =
        let r = write_request s in
        let out = write_command-output verify in
        let (st, bf, wd) = write_moves bounced r s out in
        (
          bf ∙ bytes,
          λ u q. elim (others u q) [
            | inl here ↦ inl here
            | inr same ↦ elim (Bool-cases (u == d.dpb_subunit && q == k)) [
              | inl here ↦ inl here
              | inr off ↦ inr (
                  ap (λ w. blocks w u q) wd
                  ∙ reliable.write_keeps_others r s.buf s.world u q refl out (
                      ap (λ x. u == d.dpb_subunit && q == x)
                        (start_of-request d (write_command verify) k 1 s.io_req_hdr)
                      ∙ off)
                  ∙ same)
            ]
          ],
        )

    pub attempts-reads :
        (f : ℕ) (s : Io driver) (x : ℕ × Io driver)
        → Unchanged s
        → attempts driver f d verify bounced dskread k 1 s ≡ some x
        → Last dskread read_request Unchanged x
    unfolding command_of is_direct
    attempts-reads f s x same e =
        attempts-Ends driver d verify bounced dskread k c_input refl refl
          (λ status w. reliable.no_ignore status dskread w) (λ t short. read_reports t short)
          Unchanged read_keeps
          (λ status t h u q. reliable.asking_changes_none status dskread t.world u q ∙ h u q) f s x
          same e
      where
        read_reports :
            (t : Io driver)
            → is_done (one_transfer driver bounced dskread (read_request t) t).0 ≡ false
            → (one_transfer driver bounced dskread (read_request t) t).0 ≢ 0
        read_reports t short =
            let (sent, st, bf, wd) = read_moves bounced (read_request t) t in
            λ z.
              reliable.reports (read_request t) sent t.world (ap is_done (sym st) ∙ short)
                (sym st ∙ z)

    pub attempts-writes :
        (f : ℕ) (b : Bytes) (s : Io driver) (x : ℕ × Io driver)
        → Others b s
        → attempts driver f d verify bounced dskwrite k 1 s ≡ some x
        → Last dskwrite write_request (Others b) x
    unfolding command_of is_direct request
    attempts-writes f b s x same e =
        attempts-Ends driver d verify bounced dskwrite k (write_command verify) refl refl
          (λ status w. reliable.no_ignore status dskwrite w) (λ t short. write_reports t short)
          (Others b) (write_keeps b)
          (λ status t h. (
            h.0,
            λ u q. elim (h.1 u q) [
              | inl here ↦ inl here
              | inr kept ↦ inr (reliable.asking_changes_none status dskwrite t.world u q ∙ kept)
            ],
          ))
          f s x same e
      where
        write_reports :
            (t : Io driver)
            → is_done (one_transfer driver bounced dskwrite (write_request t) t).0 ≡ false
            → (one_transfer driver bounced dskwrite (write_request t) t).0 ≢ 0
        write_reports t short =
            let (st, bf, wd) =
              write_moves bounced (write_request t) t (write_command-output verify) in
            λ z.
              reliable.reports (write_request t) t.buf t.world (ap is_done (sym st) ∙ short)
                (sym st ∙ z)

    -- A successful run has read the block, or written it.
    pub found_block :
        (x : ℕ × Io driver)
        → Last dskread read_request Unchanged x
        → (x.0 == 0) ≡ true
        → x.1.buf ≡ blocks w0 d.dpb_subunit k
    unfolding request
    found_block x (q, inl bad) ok = absurd (bad (==→eq x.0 0 ok))
    found_block x (q, inr (s, same, done, e)) ok =
        let r = read_request s in
        let (sent, st, bf, wd) = read_moves bounced r s in
        ap (λ (t : Io driver). t.buf) e
        ∙ bf
        ∙ reliable.reads r sent s.world refl refl (ap is_done (sym st) ∙ done)
        ∙ ap (blocks s.world d.dpb_subunit) (start_of-request d c_input k 1 s.io_req_hdr)
        ∙ same d.dpb_subunit k

    pub stored_block :
        (b : Bytes) (x : ℕ × Io driver)
        → Last dskwrite write_request (Others b) x
        → (x.0 == 0) ≡ true
        → blocks x.1.world d.dpb_subunit k ≡ b
    unfolding request
    stored_block b x (q, inl bad) ok = absurd (bad (==→eq x.0 0 ok))
    stored_block b x (q, inr (s, same, done, e)) ok =
        let r = write_request s in
        let out = write_command-output verify in
        let (st, bf, wd) = write_moves bounced r s out in
        ap (λ (t : Io driver). blocks t.world d.dpb_subunit k) e
        ∙ ap (λ w. blocks w d.dpb_subunit k) wd
        ∙ ap (blocks (execrh r s.buf s.world).2 d.dpb_subunit)
            (sym (start_of-request d (write_command verify) k 1 s.io_req_hdr))
        ∙ reliable.writes r s.buf s.world refl out (ap is_done (sym st) ∙ done)
        ∙ same.0
