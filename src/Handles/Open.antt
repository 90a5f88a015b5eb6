-- ===== src/Handles/Open.antt =====
-- kernel/dosfns.c: opening a file, a device or a file of the network.
use burdah_dos_system.Base.{
  ℕ, ◌+◌, ◌-◌, ◌*◌, ◌/◌, ◌%◌, true, not, ◌&&◌, none, some, ltb, ◌==◌, if◌then◌else◌, bit_and,
  bit_or,
}
use burdah_dos_system.Handles.{
  Result, ok, failed, de_toomany, de_access, de_invldacc, Sft, has_bit, no_share, idx_to_sft_,
  alter_sft, get_free_sft, get_free_hndl, store_handle,
}
use burdah_dos_system.Handles.Calls.{
  Services, RemoteOpen, rem_create, rem_open, rem_extoc, State, raise, is_shared, drop_use,
}

-- What `truename` says of a name.
abbrev is_a_device : ℕ
is_a_device = 0x20

abbrev is_network : ℕ
is_network = 0x40

-- The entry after `fmemset` and the assignments in front of the tests.
unfoldable pub new_sft : (cu_psp flags attrib : ℕ) → Sft → Sft
new_sft cu_psp flags attrib old = record {
  sft_count = 0;
  sft_mode = bit_and flags 0xf0ff;
  sft_attrib = attrib;
  sft_flags = 0;
  sft_dev = 0;
  sft_size = 0;
  sft_posit = 0;
  sft_psp = cu_psp;
  sft_shroff = no_share;
}

unfoldable pub remote_command : (flags attrib : ℕ) → RemoteOpen
unfolding has_bit
remote_command flags attrib =
    let attrib1 = if bit_and flags 0x0600 == 0x0400 then bit_or attrib 0x100 else attrib in
    if not (has_bit flags 0x0800)
    then rem_extoc attrib1 (bit_and flags 0x70ff) (bit_and attrib1 0xff)
        (bit_or (bit_and flags 0x0300 / 0x100) (bit_and flags 0x0400 / 0x40))
    else if not (has_bit flags 0x0400)
    then rem_open (flags % 0x100)
    else rem_create attrib1

module _ (services : Services) where
  open services use {
    World, Name, truename, is_device, char_open, pri_drive, remote_open, is_share_installed,
    share_open_check, share_close_file, dos_open,
  }

  unfoldable pub device_open_sft : (i dh_attr : ℕ) → State services → Result × State services
  unfolding raise has_bit
  device_open_sft i dh_attr s =
      let opened = λ (x : Sft). record (raise x) {
        sft_shroff = no_share;
        sft_flags = bit_or (bit_and dh_attr 0x7f9f) 0x00c0;
        sft_dev = dh_attr;
        sft_attrib = 0x40;
      } in
      let (done, w) =
        if has_bit dh_attr 0x0800 then char_open dh_attr s.world else (true, s.world) in
      (
        if done then ok i else failed de_access,
        record s { sfthead = alter_sft i opened s.sfthead; world = w },
      )

  -- `if (sftp->sft_count == 0) sftp->sft_count++`
  unfoldable pub raise_unused : Sft → Sft
  unfolding raise
  raise_unused x = if x.sft_count == 0 then raise x else x

  unfoldable pub open_remote : (i flags attrib : ℕ) → State services → Result × State services
  unfolding remote_command raise_unused
  open_remote i flags attrib s =
      let (r, t, w) = remote_open (remote_command flags attrib) i s.sfthead s.world in
      elim r [
        | failed c ↦ (failed c, record s { sfthead = t; world = w })
        | ok status ↦ (
          ok (i + status * 0x10000),
          record s { sfthead = alter_sft i raise_unused t; world = w },
        )
      ]

  -- A file that could not be opened: its entry of the share program and its use end.
  unfoldable pub undo_open : (i : ℕ) → State services → State services
  unfolding drop_use is_shared
  undo_open i s = elim (idx_to_sft_ i s.sfthead) [
    | none ↦ s
    | some f ↦ drop_use services i (
        if is_shared f
        then record s {
          sfthead = alter_sft i (λ x. record x { sft_shroff = no_share }) s.sfthead;
          world = share_close_file f.sft_shroff s.world;
        }
        else s)
  ]

  unfoldable pub open_file : (i flags attrib shroff : ℕ) → State services → Result × State services
  unfolding raise undo_open
  open_file i flags attrib shroff s =
      let opening =
        λ (x : Sft). record (raise x) { sft_shroff = shroff; sft_flags = pri_drive s.world } in
      let (r, t, w) = dos_open flags attrib i (alter_sft i opening s.sfthead) s.world in
      let s1 = record s { sfthead = t; world = w } in
      elim r [ failed c ↦ (failed c, undo_open i s1) | ok result ↦ (ok (i + result * 0x10000), s1) ]

  unfoldable pub open_local : (i flags attrib : ℕ) → State services → Result × State services
  unfolding has_bit open_file
  open_local i flags attrib s =
      let (installed, w) = is_share_installed s.world in
      let (r, w1) =
        share_open_check s.psp.ps_seg (bit_and flags 0x03) (bit_and (flags / 0x10) 0x07) w in
      let refused = λ (c : ℕ). λ (x : Sft). record x { sft_shroff = 0x10000 - c } in
      if ltb 2 (bit_and flags 0x0003)
      then (failed de_invldacc, s)
      else if not (has_bit flags 0x8000) && not (bit_and attrib 0x2f == attrib)
      then (failed de_access, s)
      else if not installed
      then open_file i flags attrib no_share (record s { world = w })
      else elim r [
        | failed c ↦
            (failed c, record s { sfthead = alter_sft i (refused c) s.sfthead; world = w1 })
        | ok shroff ↦ open_file i flags attrib shroff (record s { world = w1 })
      ]

  -- The entry found is filled, and the name is a device, a file of the network or a file of a disk.
  unfoldable pub open_at :
      (i result : ℕ) → Name → (flags attrib : ℕ) → State services → Result × State services
  unfolding has_bit new_sft device_open_sft open_remote open_local
  open_at i result fname flags attrib s =
      let s1 = record s { sfthead = alter_sft i (new_sft s.psp.ps_seg flags attrib) s.sfthead } in
      let rest =
        if has_bit result is_network
        then open_remote i flags attrib s1
        else open_local i flags attrib s1 in
      if has_bit result is_a_device && not (has_bit result is_network)
      then elim (is_device fname s.world) [
        | none ↦ rest
        | some dh_attr ↦ device_open_sft i dh_attr s1
      ]
      else rest

  unfoldable pub dos_open_sft : Name → (flags attrib : ℕ) → State services → Result × State services
  unfolding get_free_sft open_at
  dos_open_sft fname flags attrib s =
      let (r, w) = truename fname s.world in
      elim r [
        | failed c ↦ (failed c, record s { world = w })
        | ok result ↦ elim (get_free_sft s.sfthead) [
          | none ↦ (failed de_toomany, record s { world = w })
          | some i ↦ open_at i result fname flags (bit_or attrib 0x20) (record s { world = w })
        ]
      ]

  -- The handle of what was opened.
  unfoldable pub opened_as : (hndl : ℕ) → Result × State services → Result × State services
  unfolding store_handle
  opened_as hndl (failed c, s) = (failed c, s)
  opened_as hndl (ok result, s) = (
    ok (hndl + result / 0x10000 * 0x10000),
    record s { psp = store_handle hndl (result % 0x100) s.psp },
  )

  unfoldable pub dos_open_handle :
      Name → (mode attrib : ℕ) → State services → Result × State services
  unfolding get_free_hndl dos_open_sft opened_as
  dos_open_handle fname mode attrib s =
      if not (bit_and mode 0x000c == 0)
      then (failed de_invldacc, s)
      else elim (get_free_hndl s.psp) [
        | none ↦ (failed de_toomany, s)
        | some hndl ↦ opened_as hndl (dos_open_sft fname mode attrib s)
      ]
