-- ===== src/Handles/Held.antt =====
-- kernel/dosfns.c, kernel/newstuff.c and kernel/task.c: no call leaves more handles of an entry of the
-- system file table than the entry counts.
use burdah_dos_system.Base.{
  ℕ, ◌+◌, ◌%◌, ◌<◌, ◌≤◌, not, Option, some, ◌==◌, if◌then◌else◌, ◌≡◌, ◌⊎◌, ◌≢◌, inl, inr, sym, ap,
  subst, ◌∙◌, Bool-cases, Option-cases, bit_and, arith,
}
use burdah_dos_system.Handles.{
  Result, ok, failed, get_free_sft, get_free_hndl, store_handle, set_jft_size,
}
use burdah_dos_system.Handles.Calls.{
  count_at, Services, State, dos_close_handle, dos_force_dup, dos_dup, child_psp, close_handles,
  to_parent,
}
use burdah_dos_system.Handles.Open.{dos_open_sft, opened_as, dos_open_handle}
use burdah_dos_system.Handles.Opening.{Opens}
use burdah_dos_system.Handles.OpenAt.{Small, dos_open_sft-cases}
use burdah_dos_system.Handles.Resize.{set_jft_size-refs}
use burdah_dos_system.Handles.Table.{get_free_sft-free}
use burdah_dos_system.Handles.Refs.{refs, refs_all}
use burdah_dos_system.Handles.Closing.{uses, uses-count, uses-same}
use burdah_dos_system.Handles.Uses.{refs-store_at_most, handles_of, IsHeld}
use burdah_dos_system.Handles.Dup.{dos_close_handle-Keeps, dos_force_dup-Keeps, dos_dup-Keeps}
use burdah_dos_system.Handles.Inherit.{child_psp-Keeps, close_handles-Keeps, to_parent-IsHeld}

module _ (services : Services) where
  open services use {World, Name}

  -- The calls of a process that change its handles, its start of a child, and of its end the loop that
  -- closes its handles and the return to its parent.
  pub data Call : Type 0 where
    open_handle : Name → (mode attrib : ℕ) → Call
    close : (hndl : ℕ) → Call
    dup : (handle : ℕ) → Call
    force_dup : (old_handle new_handle : ℕ) → Call
    resize : (n_handles : ℕ) → Option (ℕ → ℕ) → Call
    start : (para : ℕ) (behind : ℕ → ℕ) → Call
    close_all : Call
    return_to_parent : Call

  unfoldable pub perform : Call → State services → State services
  unfolding dos_open_handle dos_close_handle dos_dup dos_force_dup set_jft_size child_psp
      close_handles to_parent
  perform (open_handle fname mode attrib) s = (dos_open_handle services fname mode attrib s).1
  perform (close hndl) s = (dos_close_handle services hndl s).1
  perform (dup handle) s = (dos_dup services handle s).1
  perform (force_dup old new) s = (dos_force_dup services old new s).1
  perform (resize n mem) s = record s { psp = (set_jft_size n mem s.psp).1 }
  perform (start para behind) s = child_psp services para behind s
  perform close_all s = close_handles services 0 s.psp.ps_maxfiles s
  perform return_to_parent s = to_parent services s

  opened_held :
      (a b w u v i j value : ℕ)
      → b ≤ a + (if value == i then 1 else 0)
      → a + w ≤ u
      → value ≡ j
      → u + (if j == i then 1 else 0) ≤ v
      → b + w ≤ v
  opened_held a b w u v i j value more held same up = ground (arith, more, held, same, up)

  -- An entry in use after the open is one use more, and the others are as before.
  opened_uses :
      (i j n : ℕ) (s s1 : State services)
      → count_at j s.sfthead ≡ some 0
      → (i ≡ j) ⊎ (count_at i s1.sfthead ≡ count_at i s.sfthead)
      → 0 < n
      → count_at j s1.sfthead ≡ some n
      → uses i s.sfthead + (if j == i then 1 else 0) ≤ uses i s1.sfthead
  opened_uses i j n s s1 unused others some_use after = elim (Bool-cases (j == i)) [
    | inl y ↦
        let same : j ≡ i = ground arith in
        let a = ap (λ k. uses k s.sfthead) (sym same) ∙ uses-count j 0 s.sfthead unused in
        let b = ap (λ k. uses k s1.sfthead) (sym same) ∙ uses-count j n s1.sfthead after in
        ground (arith, y, a, b, some_use)
    | inr f ↦ elim others [
      | inl e ↦ absurd (ground (arith, f, e))
      | inr e ↦ ground (arith, f, uses-same i s1.sfthead s.sfthead e)
    ]
  ]

  never_less :
      (i j : ℕ) (s s1 : State services)
      → count_at j s.sfthead ≡ some 0
      → (i ≡ j) ⊎ (count_at i s1.sfthead ≡ count_at i s.sfthead)
      → uses i s.sfthead ≤ uses i s1.sfthead
  never_less i j s s1 unused (inl e) =
      ground (arith, ap (λ k. uses k s.sfthead) e ∙ uses-count j 0 s.sfthead unused)
  never_less i j s s1 unused (inr e) = ground (arith, uses-same i s1.sfthead s.sfthead e)

  elsewhere-IsHeld :
      (i : ℕ) (w : World) (s : State services)
      → IsHeld services i s
      → IsHeld services i (record s { world = w })
  unfolding IsHeld handles_of
  elsewhere-IsHeld i w s held = held

  opened_as-IsHeld :
      (i j h : ℕ) (s s1 : State services) (r : Result)
      → j < 0xff
      → count_at j s.sfthead ≡ some 0
      → Opens services i j s (r, s1)
      → IsHeld services i s
      → IsHeld services i (opened_as services h (r, s1)).1
  unfolding opened_as IsHeld handles_of
  opened_as-IsHeld i j h s s1 (failed c) under unused opens held =
      let a = ap (refs i) opens.same_psp in
      let b = ap (refs_all i) opens.same_waiting in
      let c = never_less i j s s1 unused opens.others in ground (arith, a, b, c, held)
  opened_as-IsHeld i j h s s1 (ok v) under unused opens held =
      let a = ap (refs i) opens.same_psp in
      let b = ap (refs_all i) opens.same_waiting in
      let more = refs-store_at_most i h (v % 0x100) s1.psp in
      elim opens.says [
        | inl (c, e) ↦ absurd (ground (arith, e))
        | inr (x, n, e, index, some_use, after) ↦
            let up = opened_uses i j n s s1 unused opens.others some_use after in
            let same : v ≡ x = ground (arith, e) in
            let byte : v % 0x100 ≡ j = omega arith in
            subst (λ y. refs i (store_handle h (v % 0x100) s1.psp) + y ≤ uses i s1.sfthead) (sym b)
              (opened_held (refs i s.psp) (refs i (store_handle h (v % 0x100) s1.psp))
                (refs_all i s.waiting) (uses i s.sfthead) (uses i s1.sfthead) i j (v % 0x100)
                (ground (arith, more, a)) held byte up)
      ]

  dos_open_handle-IsHeld :
      (i : ℕ) (fname : Name) (mode attrib : ℕ) (s : State services)
      → Small services s.sfthead
      → IsHeld services i s
      → IsHeld services i (dos_open_handle services fname mode attrib s).1
  unfolding dos_open_handle
  dos_open_handle-IsHeld i fname mode attrib s small held =
      elim (Bool-cases (not (bit_and mode 0x000c == 0))) [
        | inl y ↦ rw (y, dos_open_handle) held
        | inr n ↦ elim (Option-cases (get_free_hndl s.psp)) [
          | inl o ↦ rw (n, o, dos_open_handle) held
          | inr (h, e) ↦ elim (dos_open_sft-cases services i fname mode attrib s small) [
            | inl (c, w, run) ↦ rw (n, e, run, dos_open_handle) (elsewhere-IsHeld i w s held)
            | inr (j, under, unused, opens) ↦
                let r = dos_open_sft services fname mode attrib s in
                rw (n, e, dos_open_handle)
                  (opened_as-IsHeld i j h s r.1 r.0 under unused opens held)
          ]
        ]
      ]

  resize-IsHeld :
      (i n : ℕ) (mem : Option (ℕ → ℕ)) (s : State services)
      → i ≢ 0xff
      → IsHeld services i s
      → IsHeld services i (record s { psp = (set_jft_size n mem s.psp).1 })
  unfolding IsHeld handles_of
  resize-IsHeld i n mem s open_ held = ground (arith, set_jft_size-refs i n mem s.psp open_, held)

  -- Whichever of these calls a process makes, also where the call fails: when the current process and
  -- those that wait for it together have at most as many handles of an entry as the entry counts, they
  -- have no more after the call. The system file table has at most 255 entries, and the count of the
  -- entry is at least 20 away from its largest. A process that stays resident is none of these any more
  -- when its parent goes on.
  pub perform-IsHeld :
      (i : ℕ) (call : Call) (s : State services)
      → i ≢ 0xff
      → Small services s.sfthead
      → uses i s.sfthead + 20 ≤ 0xffff
      → IsHeld services i s
      → IsHeld services i (perform call s)
  unfolding perform
  perform-IsHeld i (open_handle fname mode attrib) s open_ small room held =
      dos_open_handle-IsHeld i fname mode attrib s small held
  perform-IsHeld i (close hndl) s open_ small room held =
      (dos_close_handle-Keeps services i open_ hndl s (omega arith) held).0
  perform-IsHeld i (dup handle) s open_ small room held =
      (dos_dup-Keeps services i open_ handle s (omega arith) held).0
  perform-IsHeld i (force_dup old new) s open_ small room held =
      (dos_force_dup-Keeps services i open_ old new s (omega arith) held).0
  perform-IsHeld i (resize n mem) s open_ small room held = resize-IsHeld i n mem s open_ held
  perform-IsHeld i (start para behind) s open_ small room held =
      (child_psp-Keeps services i open_ para behind s room held).0
  perform-IsHeld i close_all s open_ small room held =
      (close_handles-Keeps services i open_ 0 s.psp.ps_maxfiles s (omega arith) held).0
  perform-IsHeld i return_to_parent s open_ small room held =
      to_parent-IsHeld services i open_ s held

  -- An entry that a process has a handle of, held as often as it counts or less, is not the one that
  -- the next open takes.
  pub get_free_sft-unheld :
      (i : ℕ) (s : State services)
      → IsHeld services i s
      → 0 < handles_of services i s
      → get_free_sft s.sfthead ≢ some i
  unfolding IsHeld
  get_free_sft-unheld i s held some_handle found =
      let unused = uses-count i 0 s.sfthead (get_free_sft-free i s.sfthead found) in
      omega (arith, unused)
