-- ===== src/Handles/Tests.antt =====
-- A small table with one open file, and the theorems on handles at it.
use burdah_dos_system.Base.{
  ℕ, ◌+◌, ◌<◌, ◌≤◌, true, false, none, some, [], ◌∷◌, ◌==◌, if◌then◌else◌, ◌≡◌, ◌⊎◌, ◌≢◌, inl, inr,
  refl, arith,
}
use burdah_dos_system.Handles.{
  ok, failed, de_invldhndl, de_toomany, de_invldacc, Psp, Sft, idx_to_sft_, idx_to_sft, get_sft_idx,
  get_free_sft, has_bit,
}
use burdah_dos_system.Handles.Calls.{Services, State, dos_dup}
use burdah_dos_system.Handles.Open.{dos_open_handle}
use burdah_dos_system.Handles.OpenAt.{Small}
use burdah_dos_system.Handles.Closing.{uses}
use burdah_dos_system.Handles.Refs.{refs_under, refs, refs_all}
use burdah_dos_system.Handles.Uses.{IsHeld, handles_of}
use burdah_dos_system.Handles.Held.{force_dup, perform, perform-IsHeld, get_free_sft-unheld}
use burdah_dos_system.Handles.FirstFree.{AllTaken, FirstFree, NotInUse}
use burdah_dos_system.Handles.Refused.{Twin, dos_open_handle-refused, dos_dup-Twin}
use burdah_dos_system.Handles.Seek.{dos_seek, sft_seek2, new_position, dos_seek-tell}

-- A system with a file that is always found, and nothing else.
abbrev one_file : Services
one_file = record {
  World = ℕ;
  Name = ℕ;
  truename = λ n w. (ok 2, w);
  is_device = λ n w. none;
  char_open = λ d w. (true, w);
  char_close = λ d w. (true, w);
  pri_drive = λ w. 2;
  remote_open = λ c i t w. (failed 2, t, w);
  remote_close = λ c i t w. (failed 6, t, w);
  remote_lseek = λ i p w. (p, w);
  is_share_installed = λ w. (false, w);
  share_open_check = λ p m s w. (ok 0, w);
  share_close_file = λ i w. w;
  dos_open = λ f a i t w. (ok 1, t, w);
  dos_close = λ i t w. (ok 0, t, w);
  dos_open-counts = λ f a i t w j. refl;
  dos_close-counts = λ i t w j. refl;
  remote_open-counts = λ c i t w j. inr refl;
  remote_open-entry = λ c i m t w e. (m, e);
  remote_close-counts = λ c i t w j. inl refl;
}

abbrev no_use : Sft
no_use = record {
  sft_count = 0;
  sft_mode = 0;
  sft_attrib = 0;
  sft_flags = 0;
  sft_dev = 0;
  sft_size = 0;
  sft_posit = 0;
  sft_psp = 0;
  sft_shroff = 0xffff;
}

abbrev text_file : Sft
text_file = record no_use { sft_count = 2; sft_flags = 2; sft_size = 100 }

-- Handles 0 and 1 stand for entry 1.
abbrev program : Psp
program = record {
  ps_seg = 0x50;
  ps_maxfiles = 3;
  ps_filetab = λ h. if h == 0 then 1 else if h == 1 then 1 else 0xff;
}

abbrev running : State one_file
running = record {
  psp = program;
  waiting = [];
  sfthead = (no_use ∷ text_file ∷ []) ∷ [];
  world = 0;
}

running-IsHeld : IsHeld one_file 1 running
unfolding IsHeld handles_of refs refs_under refs_all idx_to_sft_
running-IsHeld = omega arith

running-Small : Small one_file running.sfthead
unfolding idx_to_sft_
running-Small n = ground arith

room : uses 1 running.sfthead + 20 ≤ 0xffff
unfolding idx_to_sft_
room = omega arith

perform-IsHeld_example : IsHeld one_file 1 (perform one_file (force_dup 0 1) running)
perform-IsHeld_example =
    perform-IsHeld one_file 1 (force_dup 0 1) running (λ e. omega arith) running-Small room
      running-IsHeld

some_handle : 0 < handles_of one_file 1 running
unfolding handles_of refs refs_under refs_all
some_handle = omega arith

get_free_sft-unheld_example : get_free_sft running.sfthead ≢ some 1
get_free_sft-unheld_example = get_free_sft-unheld one_file 1 running running-IsHeld some_handle

bad_mode : (dos_open_handle one_file 7 0x000c 0 running).0 ≡ failed de_invldacc
unfolding dos_open_handle
bad_mode = refl

dos_open_handle-refused_example :
    ((dos_open_handle one_file 7 0x000c 0 running).1.psp ≡ program)
    × ((dos_open_handle one_file 7 0x000c 0 running).1.waiting ≡ [])
dos_open_handle-refused_example =
    dos_open_handle-refused one_file 7 0x000c 0 12 running running-Small bad_mode

dos_dup-Twin_example :
    ((new : ℕ) × FirstFree new program
      × ((dos_dup one_file 0 running).0 ≡ ok new)
      × Twin one_file running 0 new (dos_dup one_file 0 running).1)
    ⊎ (AllTaken program.ps_maxfiles program.ps_filetab
        × (dos_dup one_file 0 running ≡ (failed de_toomany, running)))
    ⊎ (NotInUse 0 program running.sfthead
        × (dos_dup one_file 0 running ≡ (failed de_invldhndl, running)))
dos_dup-Twin_example = dos_dup-Twin one_file 0 running

-- 10 bytes in front of the end.
near_end : (dos_seek one_file 0 0xfffffff6 2 running).0 ≡ ok 90
unfolding dos_seek sft_seek2 new_position get_sft_idx idx_to_sft idx_to_sft_ has_bit
near_end = refl

dos_seek-tell_example :
    (dos_seek one_file 0 0 1 (dos_seek one_file 0 0xfffffff6 2 running).1).0 ≡ ok 90
dos_seek-tell_example = dos_seek-tell one_file 0 0xfffffff6 2 90 running near_end (omega arith)
