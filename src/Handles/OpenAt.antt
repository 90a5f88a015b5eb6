-- ===== src/Handles/OpenAt.antt =====
-- kernel/dosfns.c: an open through an unused entry of the system file table, on every branch.
use burdah_dos_system.Base.{
  ℕ, ◌+◌, ◌-◌, ◌/◌, ◌<◌, not, ◌&&◌, none, some, ltb, ◌==◌, if◌then◌else◌, ◌≡◌, ◌⊎◌, inl, inr, refl,
  sym, ap, ◌∙◌, Bool-cases, Option-cases, bit_and, bit_or, arith,
}
use burdah_dos_system.Handles.{
  Result, failed, Sft, Sfttbl, no_share, has_bit, alter_sft, get_free_sft,
}
use burdah_dos_system.Handles.Calls.{count_at, Services, State}
use burdah_dos_system.Handles.Open.{
  new_sft, device_open_sft, open_remote, open_file, open_local, open_at, dos_open_sft,
}
use burdah_dos_system.Handles.Table.{get_free_sft-free}
use burdah_dos_system.Handles.Closing.{Result-cases}
use burdah_dos_system.Handles.Opening.{
  elsewhere, along, altered, Opens, Opens-failed, device_open_sft-Opens, open_remote-Opens,
  open_file-Opens,
}

module _ (services : Services) where
  open services use {
    World, Name, truename, is_device, char_open, pri_drive, remote_open, remote_open-counts,
    remote_open-entry, is_share_installed, share_open_check, share_close_file, dos_open,
    dos_open-counts,
  }

  Opens-start :
      (i j : ℕ) (s s' : State services) (r : Result × State services)
      → s'.psp ≡ s.psp
      → s'.waiting ≡ s.waiting
      → (i ≡ j) ⊎ (count_at i s'.sfthead ≡ count_at i s.sfthead)
      → Opens services i j s' r
      → Opens services i j s r
  Opens-start i j s s' r p q o opens = record {
    same_psp = opens.same_psp ∙ p;
    same_waiting = opens.same_waiting ∙ q;
    others = along o opens.others;
    says = opens.says;
  }

  module _ (i j : ℕ) (small : j < 0xff) where
    open_file_in :
        (flags attrib shroff : ℕ) (w : World) (s : State services)
        → count_at j s.sfthead ≡ some 0
        → Opens services i j s (open_file services j flags attrib shroff (record s { world = w }))
    open_file_in flags attrib shroff w s unused =
        let s1 = record s { world = w } in
        Opens-start i j s s1 (open_file services j flags attrib shroff s1) refl refl (inr refl)
          (open_file-Opens services i j small s1 unused flags attrib shroff)

    open_local-Opens :
        (flags attrib : ℕ) (s : State services)
        → count_at j s.sfthead ≡ some 0
        → Opens services i j s (open_local services j flags attrib s)
    unfolding open_local
    open_local-Opens flags attrib s unused =
        let (installed, w) = is_share_installed s.world in
        let (r, w1) =
          share_open_check s.psp.ps_seg (bit_and flags 0x03) (bit_and (flags / 0x10) 0x07) w in
        elim (Bool-cases (ltb 2 (bit_and flags 0x0003))) [
          | inl y ↦ rw (y, open_local) (Opens-failed services i j 12 s s refl refl (inr refl))
          | inr n ↦
              elim (Bool-cases
                (not (has_bit flags 0x8000) && not (bit_and attrib 0x2f == attrib))) [
                  | inl y ↦
                      rw (n, y, open_local) (Opens-failed services i j 5 s s refl refl (inr refl))
                  | inr m ↦ elim (Bool-cases installed) [
                    | inr o ↦
                        rw (n, m, o, open_local) (open_file_in flags attrib no_share w s unused)
                    | inl y ↦ elim (Result-cases r) [
                      | inl (c, e) ↦
                          let refused = λ (x : Sft). record x { sft_shroff = 0x10000 - c } in
                          rw (n, m, y, e, open_local)
                            (Opens-failed services i j c s
                              (record s { sfthead = alter_sft j refused s.sfthead; world = w1 })
                              refl refl (elsewhere i j refused s.sfthead))
                      | inr (v, e) ↦
                          rw (n, m, y, e, open_local) (open_file_in flags attrib v w1 s unused)
                    ]
                  ]
                ]
        ]

    open_at-Opens :
        (result : ℕ) (fname : Name) (flags attrib : ℕ) (s : State services)
        → count_at j s.sfthead ≡ some 0
        → Opens services i j s (open_at services j result fname flags attrib s)
    unfolding open_at new_sft
    open_at-Opens result fname flags attrib s unused =
        let fill = new_sft s.psp.ps_seg flags attrib in
        let s1 = record s { sfthead = alter_sft j fill s.sfthead } in
        let (x, count, after) = altered j 0 fill s.sfthead unused in
        let from = λ (r : Result × State services).
          Opens-start i j s s1 r refl refl (elsewhere i j fill s.sfthead) in
        let rest : Opens services i j s (
            if has_bit result 0x40
            then open_remote services j flags attrib s1
            else open_local services j flags attrib s1) =
          elim (Bool-cases (has_bit result 0x40)) [
            | inl y ↦ rw y (
                from (open_remote services j flags attrib s1)
                  (open_remote-Opens services i j small s1 after flags attrib))
            | inr n ↦ rw n (
                from (open_local services j flags attrib s1)
                  (open_local-Opens flags attrib s1 after))
          ] in
        elim (Bool-cases (has_bit result 0x20 && not (has_bit result 0x40))) [
          | inr n ↦ rw (n, open_at) rest
          | inl y ↦ elim (Option-cases (is_device fname s.world)) [
            | inl n ↦ rw (y, n, open_at) rest
            | inr (dh_attr, e) ↦
                rw (y, e, open_at)
                  (from (device_open_sft services j dh_attr s1)
                    (device_open_sft-Opens services i j small s1 after dh_attr))
          ]
        ]

  -- No entry of the table has the number that stands for a handle that is not in use, or a larger one.
  abbrev pub Small : Sfttbl → Type 0
  Small t = (n : ℕ) → count_at (0xff + n) t ≡ none

  unused-Small : (j : ℕ) (t : Sfttbl) → Small t → count_at j t ≡ some 0 → j < 0xff
  unused-Small j t small unused = elim (Bool-cases (ltb j 0xff)) [
    | inl y ↦ ground arith
    | inr n ↦
        let same : 0xff + (j - 0xff) ≡ j = ground arith in
        absurd (ground (arith, sym (small (j - 0xff)) ∙ ap (λ k. count_at k t) same ∙ unused))
  ]

  -- `dos_open_sft` fails in front of the table, or opens through an unused entry of it.
  pub dos_open_sft-cases :
      (i : ℕ) (fname : Name) (flags attrib : ℕ) (s : State services)
      → Small s.sfthead
      → ((c : ℕ) × (w : World) × (dos_open_sft services fname flags attrib s
            ≡ (failed c, record s { world = w })))
        ⊎ ((j : ℕ) × (j < 0xff)
            × (count_at j s.sfthead ≡ some 0)
            × Opens services i j s (dos_open_sft services fname flags attrib s))
  unfolding dos_open_sft
  dos_open_sft-cases i fname flags attrib s small =
      let (r, w) = truename fname s.world in
      elim (Result-cases r) [
        | inl (c, e) ↦ inl (c, w, rw (e, dos_open_sft) refl)
        | inr (v, e) ↦ elim (Option-cases (get_free_sft s.sfthead)) [
          | inl n ↦ inl (4, w, rw (e, n, dos_open_sft) refl)
          | inr (j, found) ↦
              let unused = get_free_sft-free j s.sfthead found in
              let under = unused-Small j s.sfthead small unused in
              let s1 = record s { world = w } in
              inr (
                j,
                under,
                unused,
                rw (e, found, dos_open_sft)
                    (Opens-start i j s s1 (open_at services j v fname flags (bit_or attrib 0x20) s1)
                      refl refl (inr refl)
                      (open_at-Opens i j under v fname flags (bit_or attrib 0x20) s1 unused)),
              )
        ]
      ]
