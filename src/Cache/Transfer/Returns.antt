-- ===== src/Cache/Transfer/Returns.antt =====
-- kernel/blockio.c: the dialogue of `dskxfer` with the critical error handler ends, and what its result
-- says.
use burdah_dos_system.Base.{
  ℕ, zero, suc, ◌<◌, ◌≤◌, ◌≡◌, ◌⊎◌, inl, inr, refl, ap, ◌∙◌, Bool, Option, none, some, Bool-cases,
  Option-cases, arith,
}
use burdah_dos_system.Cache.Transfer.{
  abort, fail, retry, continue, other_answer, Mode, Answer, Request, Dpb, Driver, Io, command_of,
  request, is_direct, is_done, one_transfer, switch, ask, attempts, dskxfer,
}
use burdah_dos_system.Cache.{Bytes}

module _ (driver : Driver) where
  open driver use {World, execrh, block_error}

  -- The handler has a number of times it asks to try again, which a call of a driver does not raise.
  pub record Patient (rank : World → ℕ) : Type 0 where
    pub transfers : (r : Request) (b : Bytes) (w : World) → rank (execrh r b w).2 ≤ rank w
    pub settles :
        (status : ℕ) (m : Mode) (w : World)
        → ((block_error status m w).0 ≡ Answer.abort)
          ⊎ ((block_error status m w).0 ≡ Answer.fail)
          ⊎ ((block_error status m w).0 ≡ Answer.continue)
          ⊎ (rank (block_error status m w).1 < rank w)

  -- An answer that ends the switch: the handler asks for another transfer less often from then on.
  Settled : (rank : World → ℕ) → World → Answer × World → Type 0
  Settled rank w r =
      (r.0 ≡ Answer.abort)
      ⊎ (r.0 ≡ Answer.fail)
      ⊎ (r.0 ≡ Answer.continue)
      ⊎ ((r.0 ≡ Answer.retry) × (rank r.1 < rank w))

  Settled-lower :
      (rank : World → ℕ) (w v : World) (r : Answer × World)
      → rank v < rank w
      → Settled rank v r
      → Settled rank w r
  unfolding Settled
  Settled-lower rank w v r lower (inl e) = inl e
  Settled-lower rank w v r lower (inr (inl e)) = inr (inl e)
  Settled-lower rank w v r lower (inr (inr (inl e))) = inr (inr (inl e))
  Settled-lower rank w v r lower (inr (inr (inr (e, h)))) = inr (inr (inr (e, omega arith)))

  module _ (rank : World → ℕ) (patient : Patient rank) where
    ask-switch :
        (f status : ℕ) (m : Mode) (w : World) (a : Answer)
        → (block_error status m w).0 ≡ a
        → (let r = block_error status m w in
            ask driver (suc f) status m w ≡ switch driver a r (ask driver f status m r.1))
    unfolding ask
    ask-switch f status m w a e =
        let r = block_error status m w in ap (λ x. switch driver x r (ask driver f status m r.1)) e

    asked_again :
        (f status : ℕ) (m : Mode) (w : World) (a : Answer)
        → (block_error status m w).0 ≡ a
        → rank (block_error status m w).1 < rank w
        → ((r : Answer × World) × (ask driver f status m (block_error status m w).1 ≡ some r)
            × Settled rank (block_error status m w).1 r)
        → (r : Answer × World) × (ask driver (suc f) status m w ≡ some r) × Settled rank w r
    unfolding switch Settled
    asked_again f status m w abort e lower rest =
        (block_error status m w, ask-switch f status m w abort e, inl e)
    asked_again f status m w fail e lower rest =
        (block_error status m w, ask-switch f status m w fail e, inr (inl e))
    asked_again f status m w continue e lower rest =
        (block_error status m w, ask-switch f status m w continue e, inr (inr (inl e)))
    asked_again f status m w retry e lower rest =
        (block_error status m w, ask-switch f status m w retry e, inr (inr (inr (e, lower))))
    asked_again f status m w other_answer e lower (r, run, settled) = (
      r,
      ask-switch f status m w other_answer e ∙ run,
      Settled-lower rank w (block_error status m w).1 r lower settled,
    )

    ask-returns :
        (fuel status : ℕ) (m : Mode) (w : World)
        → rank w < fuel
        → (r : Answer × World) × (ask driver fuel status m w ≡ some r) × Settled rank w r
    unfolding switch Settled
    ask-returns zero status m w enough = absurd (omega arith)
    ask-returns (suc f) status m w enough =
        let r = block_error status m w in
        elim (patient.settles status m w) [
          | inl e ↦ (r, ask-switch f status m w abort e, inl e)
          | inr (inl e) ↦ (r, ask-switch f status m w fail e, inr (inl e))
          | inr (inr (inl e)) ↦ (r, ask-switch f status m w continue e, inr (inr (inl e)))
          | inr (inr (inr lower)) ↦
              asked_again f status m w r.0 refl lower (ask-returns f status m r.1 (omega arith))
        ]

    one_transfer-rank :
        (bounced : Bool) (m : Mode) (r : Request) (s : Io driver)
        → rank (one_transfer driver bounced m r s).1.world ≤ rank s.world
    unfolding one_transfer
    one_transfer-rank bounced m r s = patient.transfers r _ s.world

    attempts-returns :
        (fuel : ℕ) (d : Dpb) (verify bounced : Bool) (m : Mode) (blkno numblocks : ℕ)
        (s : Io driver)
        → rank s.world < fuel
        → (r : ℕ × Io driver) × (attempts driver fuel d verify bounced m blkno numblocks s ≡ some r)
    unfolding attempts one_transfer Settled
    attempts-returns zero d verify bounced m blkno numblocks s enough = absurd (omega arith)
    attempts-returns (suc f) d verify bounced m blkno numblocks s enough =
        elim (Option-cases (command_of verify m)) [
          | inl n ↦ ((0x0100, s), rw (n, attempts) refl)
          | inr (command, e) ↦
              let (status, s1) =
                one_transfer driver bounced m (request d command blkno numblocks s.io_req_hdr) s in
              elim (Bool-cases (is_done status)) [
                | inl done ↦ ((0, s1), rw (e, done, attempts) refl)
                | inr short ↦ elim (Bool-cases (is_direct m)) [
                  | inl direct ↦ ((status, s1), rw (e, short, direct, attempts) refl)
                  | inr asks ↦
                      let less : rank s1.world ≤ rank s.world =
                        one_transfer-rank bounced m (request d command blkno numblocks s.io_req_hdr)
                          s in
                      let (r, run, settled) = ask-returns (suc f) status m s1.world (omega arith) in
                      elim settled [
                        | inl a ↦ (
                          (status, record s1 { world = r.1 }),
                          rw (e, short, asks, run, a, attempts) refl,
                        )
                        | inr (inl a) ↦ (
                          (status, record s1 { world = r.1 }),
                          rw (e, short, asks, run, a, attempts) refl,
                        )
                        | inr (inr (inl a)) ↦ (
                          (0, record s1 { world = r.1 }),
                          rw (e, short, asks, run, a, attempts) refl,
                        )
                        | inr (inr (inr (a, lower))) ↦
                            let (x, again) =
                              attempts-returns f d verify bounced m blkno numblocks
                                (record s1 { world = r.1 }) (omega arith) in
                            (x, rw (e, short, asks, run, a, attempts) again)
                      ]
                ]
              ]
        ]

    -- With a handler that asks to try again at most as often as `rank` says, and fuel for that many
    -- transfers and one more, `dskxfer` returns, whatever the drive, the mode and the block.
    pub dskxfer-returns :
        (fuel : ℕ) (dpbp : Option Dpb) (verify bounced : Bool) (m : Mode) (blkno numblocks : ℕ)
        (s : Io driver)
        → rank s.world < fuel
        → (r : ℕ × Io driver) × (dskxfer driver fuel dpbp verify bounced m blkno numblocks s
            ≡ some r)
    unfolding dskxfer
    dskxfer-returns fuel none verify bounced m blkno numblocks s enough = ((0x0201, s), refl)
    dskxfer-returns fuel (some d) verify bounced m blkno numblocks s enough =
        attempts-returns fuel d verify bounced m blkno numblocks s enough
