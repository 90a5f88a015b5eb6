-- ===== src/Handles/Opening.antt =====
-- kernel/dosfns.c: what opening does to the counts of the system file table.
use burdah_dos_system.Base.{
  ℕ, ◌+◌, ◌*◌, ◌%◌, ◌<◌, true, Option, some, ◌==◌, if◌then◌else◌, ◌≡◌, ◌⊎◌, inl, inr, refl, ap, ◌∙◌,
  Bool-cases, Option-cases, bit_and, bit_or, arith,
}
use burdah_dos_system.Handles.{
  Result, ok, failed, Sft, Sfttbl, no_share, has_bit, idx_to_sft_, alter_sft,
}
use burdah_dos_system.Handles.Calls.{count_at, Services, State, raise, lower, is_shared, drop_use}
use burdah_dos_system.Handles.Open.{
  device_open_sft, raise_unused, open_remote, remote_command, undo_open, open_file,
}
use burdah_dos_system.Handles.Table.{some-count, count-alter_sft, count-alter_sft_other}
use burdah_dos_system.Handles.Closing.{Result-cases}

-- Stores through the pointer to entry `j` leave the count of any other.
pub elsewhere :
    (i j : ℕ) (f : Sft → Sft) (t : Sfttbl) → (i ≡ j) ⊎ (count_at i (alter_sft j f t) ≡ count_at i t)
elsewhere i j f t = elim (Bool-cases (i == j)) [
  | inl y ↦ inl (ground arith)
  | inr n ↦ inr (count-alter_sft_other j i f t (λ e. ground (arith, e, n)))
]

-- One store after another.
pub along : {i j : ℕ} {x y z : Option ℕ} → (i ≡ j) ⊎ (y ≡ x) → (i ≡ j) ⊎ (z ≡ y) → (i ≡ j) ⊎ (z ≡ x)
along (inl e) b = inl e
along (inr a) (inl e) = inl e
along (inr a) (inr b) = inr (b ∙ a)

pub altered :
    (j n : ℕ) (f : Sft → Sft) (t : Sfttbl)
    → count_at j t ≡ some n
    → (s : Sft) × (s.sft_count ≡ n) × (count_at j (alter_sft j f t) ≡ some (f s).sft_count)
altered j n f t c =
    let (s, at, count) = some-count j n t c in (s, count, count-alter_sft j f t s at)

module _ (services : Services) where
  open services use {
    World, Name, truename, is_device, char_open, pri_drive, remote_open, remote_open-counts,
    remote_open-entry, is_share_installed, share_open_check, share_close_file, dos_open,
    dos_open-counts,
  }

  -- What an open through the unused entry `j` does to entry `i` and says.
  pub record Opens (i j : ℕ) (s : State services) (r : Result × State services) : Type 0 where
    pub same_psp : r.1.psp ≡ s.psp
    pub same_waiting : r.1.waiting ≡ s.waiting
    pub others : (i ≡ j) ⊎ (count_at i r.1.sfthead ≡ count_at i s.sfthead)
    pub says :
        ((c : ℕ) × (r.0 ≡ failed c))
        ⊎ ((v : ℕ) × (n : ℕ) × (r.0 ≡ ok v)
            × (v % 0x10000 ≡ j)
            × (0 < n)
            × (count_at j r.1.sfthead ≡ some n))

  raised_use : (x : Sft) → 0 < (raise_unused services x).sft_count
  unfolding raise_unused raise
  raised_use x = ground arith

  pub Opens-failed :
      (i j c : ℕ) (s s1 : State services)
      → s1.psp ≡ s.psp
      → s1.waiting ≡ s.waiting
      → (i ≡ j) ⊎ (count_at i s1.sfthead ≡ count_at i s.sfthead)
      → Opens i j s (failed c, s1)
  Opens-failed i j c s s1 p q o = record {
    same_psp = p;
    same_waiting = q;
    others = o;
    says = inl (c, refl);
  }

  undo_open-others :
      (i j : ℕ) (s : State services)
      → (let s1 = undo_open services j s in
          (s1.psp ≡ s.psp)
          × (s1.waiting ≡ s.waiting)
          × ((i ≡ j) ⊎ (count_at i s1.sfthead ≡ count_at i s.sfthead)))
  unfolding undo_open drop_use
  undo_open-others i j s = elim (Option-cases (idx_to_sft_ j s.sfthead)) [
    | inl n ↦ rw (n, undo_open) (refl, refl, inr refl)
    | inr (f, e) ↦ elim (Bool-cases (is_shared f)) [
      | inr n ↦ rw (e, n, undo_open) (refl, refl, elsewhere i j lower s.sfthead)
      | inl y ↦
          let unshared = λ (x : Sft). record x { sft_shroff = no_share } in
          rw (e, y, undo_open)
            (
              refl,
              refl,
              along (elsewhere i j unshared s.sfthead)
                  (elsewhere i j lower (alter_sft j unshared s.sfthead)),
            )
    ]
  ]

  module _ (i j : ℕ) (small : j < 0xff) (s : State services)
      (unused : count_at j s.sfthead ≡ some 0) where
    pub device_open_sft-Opens : (dh_attr : ℕ) → Opens i j s (device_open_sft services j dh_attr s)
    unfolding device_open_sft raise
    device_open_sft-Opens dh_attr =
        let opened = λ (x : Sft). record (raise x) {
          sft_shroff = no_share;
          sft_flags = bit_or (bit_and dh_attr 0x7f9f) 0x00c0;
          sft_dev = dh_attr;
          sft_attrib = 0x40;
        } in
        let (x, count, after) = altered j 0 opened s.sfthead unused in
        let done =
          (if has_bit dh_attr 0x0800 then char_open dh_attr s.world else (true, s.world)).0 in
        record {
          same_psp = refl;
          same_waiting = refl;
          others = elsewhere i j opened s.sfthead;
          says = elim (Bool-cases done) [
            | inr bad ↦ inl (5, rw bad refl)
            | inl good ↦ inr (
              j,
              1,
              rw good refl,
              omega arith,
              omega arith,
              after ∙ ap some (ground (arith, count)),
            )
          ];
        }

    pub open_remote-Opens : (flags attrib : ℕ) → Opens i j s (open_remote services j flags attrib s)
    unfolding open_remote raise_unused raise
    open_remote-Opens flags attrib =
        let cmd = remote_command flags attrib in
        let r = remote_open cmd j s.sfthead s.world in
        let kept = remote_open-counts cmd j s.sfthead s.world i in
        elim (Result-cases r.0) [
          | inl (c, e) ↦
              rw (e, open_remote)
                (record {
                  same_psp = refl;
                  same_waiting = refl;
                  others = kept;
                  says = inl (c, refl);
                })
          | inr (v, e) ↦
              let (n, present) = remote_open-entry cmd j 0 s.sfthead s.world unused in
              let (x, count, after) = altered j n (raise_unused services) r.1 present in
              rw (e, open_remote)
                (record {
                  same_psp = refl;
                  same_waiting = refl;
                  others = along kept (elsewhere i j (raise_unused services) r.1);
                  says = inr (
                    j + v * 0x10000,
                    (raise_unused services x).sft_count,
                    refl,
                    omega arith,
                    raised_use x,
                    after,
                  );
                })
        ]

    pub open_file-Opens :
        (flags attrib shroff : ℕ) → Opens i j s (open_file services j flags attrib shroff s)
    unfolding open_file raise
    open_file-Opens flags attrib shroff =
        let opening =
          λ (x : Sft). record (raise x) { sft_shroff = shroff; sft_flags = pri_drive s.world } in
        let t = alter_sft j opening s.sfthead in
        let r = dos_open flags attrib j t s.world in
        let s1 = record s { sfthead = r.1; world = r.2 } in
        let (x, count, after) = altered j 0 opening s.sfthead unused in
        let kept =
          along (elsewhere i j opening s.sfthead)
            (inr (dos_open-counts flags attrib j t s.world i)) in
        elim (Result-cases r.0) [
          | inl (c, e) ↦
              let (p, q, o) = undo_open-others i j s1 in
              rw (e, open_file) (Opens-failed i j c s (undo_open services j s1) p q (along kept o))
          | inr (v, e) ↦
              rw (e, open_file)
                (record {
                  same_psp = refl;
                  same_waiting = refl;
                  others = kept;
                  says = inr (
                    j + v * 0x10000,
                    1,
                    refl,
                    omega arith,
                    omega arith,
                    dos_open-counts flags attrib j t s.world j
                        ∙ after
                        ∙ ap some (ground (arith, count)),
                  );
                })
        ]
