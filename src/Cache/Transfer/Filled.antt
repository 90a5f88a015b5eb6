-- ===== src/Cache/Transfer/Filled.antt =====
-- kernel/blockio.c: the cache's interface to the drives, filled by `dskxfer`.
use burdah_dos_system.Base.{
  ℕ, suc, ◌≡◌, inl, inr, refl, ap, ◌∙◌, Bool, true, false, not, ◌&&◌, Option, some, ◌==◌, ==→eq,
  if◌then◌else◌, Bool-cases, arith,
}
use burdah_dos_system.Cache.{Bytes, Drives}
use burdah_dos_system.Cache.Transfer.{dskread, dskwrite, Mode, Dpb, Driver, Io, attempts, dskxfer}
use burdah_dos_system.Cache.Transfer.Returns.{Patient, dskxfer-returns}
use burdah_dos_system.Cache.Transfer.Reliable.{
  Reliable, attempts-reads, attempts-writes, found_block, stored_block,
}

-- A reliable driver and a handler that asks to try again at most `rank` times. Each drive number has its
-- parameters, with a unit of the driver that no other has; `verify` is VERIFY and `bounced` whether the
-- buffers are at a high address.
module _ (driver : Driver) (blocks : driver.World → ℕ → ℕ → Bytes)
    (reliable : Reliable driver blocks) (rank : driver.World → ℕ) (patient : Patient driver rank)
    (drive : ℕ → Dpb)
    (distinct : (d d' : ℕ) → ((drive d').dpb_subunit == (drive d).dpb_subunit) ≡ (d' == d))
    (verify bounced : Bool) where
  -- One block through `dskxfer`, which returns by `dskxfer-returns`.
  unfoldable pub transferred : Mode → (d k : ℕ) → Bytes → Io driver → Option (ℕ × Io driver)
  transferred m d k b s =
      dskxfer driver (suc (rank s.world)) (some (drive d)) verify bounced m k 1
        (record s { buf = b })

  pub transferred-returns :
      (m : Mode) (d k : ℕ) (b : Bytes) (s : Io driver)
      → (r : ℕ × Io driver) × (transferred m d k b s ≡ some r)
  unfolding transferred
  transferred-returns m d k b s =
      dskxfer-returns driver rank patient (suc (rank s.world)) (some (drive d)) verify bounced m k 1
        (record s { buf = b }) (omega arith)

  abbrev pub result : (m : Mode) (d k : ℕ) → Bytes → Io driver → ℕ × Io driver
  result m d k b s = (transferred-returns m d k b s).0

  abbrev pub contents : Io driver → (d k : ℕ) → Bytes
  contents s d k = blocks s.world (drive d).dpb_subunit k

  pub attempts_of :
      (m : Mode) (d k : ℕ) (b : Bytes) (s : Io driver)
      → attempts driver (suc (rank s.world)) (drive d) verify bounced m k 1 (record s { buf = b })
        ≡ some (result m d k b s)
  unfolding transferred dskxfer
  attempts_of m d k b s = (transferred-returns m d k b s).1

  pub zero_of : (n : ℕ) → not (n == 0) ≡ false → (n == 0) ≡ true
  zero_of n h = ground (arith, h)

  other_place :
      (d k d' k' : ℕ)
      → (d' == d && k' == k) ≡ false
      → ((drive d').dpb_subunit == (drive d).dpb_subunit && k' == k) ≡ false
  other_place d k d' k' h = rw (distinct d d') h

  same_place :
      (s : Io driver) (d k d' k' : ℕ)
      → (d' == d && k' == k) ≡ true
      → contents s d' k' ≡ contents s d k
  same_place s d k d' k' h =
      ap (λ x. contents s x k') (==→eq d' d (ground (arith, h)))
      ∙ ap (contents s d) (==→eq k' k (ground (arith, h)))

  pub written :
      (d k : ℕ) (b : Bytes) (s : Io driver) (d' k' : ℕ)
      → ((result dskwrite d k b s).0 == 0) ≡ true
      → contents (result dskwrite d k b s).1 d' k'
        ≡ (if d' == d && k' == k then b else contents s d' k')
  written d k b s d' k' ok =
      let x = result dskwrite d k b s in
      let start = record s { buf = b } in
      let ends =
        attempts-writes driver blocks reliable (drive d) verify bounced k s.world
          (suc (rank s.world)) b start x (refl, λ u q. inr refl) (attempts_of dskwrite d k b s) in
      elim (Bool-cases (d' == d && k' == k)) [
        | inl here ↦ rw here (
            same_place x.1 d k d' k' here
            ∙ stored_block driver blocks reliable (drive d) verify bounced k s.world b x ends ok)
        | inr off ↦ elim (ends.0.1 (drive d').dpb_subunit k') [
          | inl here ↦ absurd (ground (arith, here, other_place d k d' k' off))
          | inr same ↦ rw off same
        ]
      ]

  abbrev pub dskxfer_drives : Drives
  dskxfer_drives = record {
    World = Io driver;
    contents = contents;
    read = λ d k b s. let x = result dskread d k b s in (not (x.0 == 0), x.1.buf, x.1);
    write = λ d k b s. let x = result dskwrite d k b s in (not (x.0 == 0), x.1);
    read_keeps = λ d k b s d' k'.
        (attempts-reads driver blocks reliable (drive d) verify bounced k s.world
            (suc (rank s.world)) (record s { buf = b }) (result dskread d k b s) (λ u q. refl)
            (attempts_of dskread d k b s)).0
          (drive d').dpb_subunit k';
    read_finds = λ d k b s ok.
        let x = result dskread d k b s in
        found_block driver blocks reliable (drive d) verify bounced k s.world x
          (attempts-reads driver blocks reliable (drive d) verify bounced k s.world
            (suc (rank s.world)) (record s { buf = b }) x (λ u q. refl)
            (attempts_of dskread d k b s))
          (zero_of x.0 ok);
    write_puts = λ d k b s d' k' ok. written d k b s d' k' (zero_of (result dskwrite d k b s).0 ok);
  }
