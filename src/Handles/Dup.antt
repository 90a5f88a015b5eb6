-- ===== src/Handles/Dup.antt =====
-- kernel/dosfns.c and kernel/task.c: closing and duplicating handles keeps them held.
use burdah_dos_system.Base.{
  ℕ, ◌+◌, ◌<◌, ◌≤◌, false, none, some, List, ◌==◌, if◌then◌else◌, ◌≡◌, ◌⊎◌, ◌≢◌, inl, inr, refl,
  sym, ap, subst, ◌∙◌, Bool-cases, Option-cases, arith,
}
use burdah_dos_system.Handles.{
  Result, ok, failed, de_invldhndl, Psp, Sft, Sfttbl, alter_sft, get_sft, get_free_hndl,
  store_handle,
}
use burdah_dos_system.Handles.Calls.{
  Services, State, raise, dos_close_sft, dos_close_handle, copy_handle, after_close, dos_force_dup,
  dos_dup,
}
use burdah_dos_system.Handles.Refs.{refs, refs_all, refs-store, get_sft-found}
use burdah_dos_system.Handles.Closing.{uses, dos_close_sft-Closes}
use burdah_dos_system.Handles.Uses.{
  Lowered-uses, Present, found-Present, Lowered-Present, raise-uses, refs-store_at_most, handles_of,
  IsHeld,
}

module _ (services : Services) where
  handles_less :
      (i j : ℕ) (p : Psp) (ps : List Psp) (t : Sfttbl) (s' : State services) (h : ℕ)
      → h < p.ps_maxfiles
      → p.ps_filetab h ≡ j
      → i ≢ 0xff
      → s'.psp ≡ store_handle h 0xff p
      → s'.waiting ≡ ps
      → uses i t ≤ uses i s'.sfthead + (if j == i then 1 else 0)
      → refs i p + refs_all i ps ≤ uses i t
      → IsHeld services i s'
  unfolding IsHeld handles_of
  handles_less i j p ps t s' h under byte open_ e f low held =
      let a = ap (refs i) e in
      let b = ap (refs_all i) f in
      let c = refs-store i h 0xff p under in ground (arith, a, b, c, byte, low, held, open_)

  module _ (i : ℕ) (open_ : i ≢ 0xff) where
    -- What a call may do: it keeps the handles held, and raises the count of an entry by `n` at most.
    abbrev pub Keeps : (n : ℕ) → State services → State services → Type 0
    Keeps n s s' = IsHeld services i s' × (uses i s'.sfthead ≤ uses i s.sfthead + n)

    pub dos_close_handle-Keeps :
        (h : ℕ) (s : State services)
        → uses i s.sfthead < 0xffff
        → IsHeld services i s
        → Keeps 0 s (dos_close_handle services h s).1
    unfolding dos_close_handle IsHeld handles_of
    dos_close_handle-Keeps h s room held = elim (Option-cases (get_sft h s.psp s.sfthead)) [
      | inl n ↦ rw (n, dos_close_handle) (held, omega arith)
      | inr ((j, f), e) ↦
          let (under, byte, used, at, some_use) = get_sft-found h j f s.psp s.sfthead e in
          let s1 = record s { psp = store_handle h 0xff s.psp } in
          let (low, p, q) = dos_close_sft-Closes services i j false s1 (omega arith) in
          let less = refs-store i h 0xff s.psp under in
          let (x, y) =
            Lowered-uses i j s.sfthead (dos_close_sft services j false s1).1.sfthead low in
          rw (e, dos_close_handle)
            (
              handles_less i j s.psp s.waiting s.sfthead (dos_close_sft services j false s1).1 h
                  under byte open_ p q x held,
              omega arith,
            )
    ]

    copied_less :
        (r r' w u u' v j : ℕ)
        → r' ≤ r + (if v == i then 1 else 0)
        → u' ≡ u + (if j == i then 1 else 0)
        → (v ≡ j) ⊎ (v ≡ 0xff)
        → r + w ≤ u
        → r' + w ≤ u'
    copied_less r r' w u u' v j more count (inl e) held = ground (arith, more, count, e, held)
    copied_less r r' w u u' v j more count (inr e) held =
        ground (arith, more, count, e, held, open_)

    copy_handle-Keeps :
        (old new j : ℕ) (s : State services)
        → Present i j s.sfthead
        → (s.psp.ps_filetab old ≡ j) ⊎ (s.psp.ps_filetab old ≡ 0xff)
        → uses i s.sfthead < 0xffff
        → IsHeld services i s
        → Keeps 1 s (copy_handle services old new j s)
    unfolding copy_handle IsHeld handles_of
    copy_handle-Keeps old new j s present byte room held =
        let more = refs-store_at_most i new (s.psp.ps_filetab old) s.psp in
        let count = raise-uses i j s.sfthead present room in
        (
          copied_less (refs i s.psp) (refs i (store_handle new (s.psp.ps_filetab old) s.psp))
              (refs_all i s.waiting) (uses i s.sfthead) (uses i (alter_sft j raise s.sfthead))
              (s.psp.ps_filetab old) j more count byte held,
          ground (arith, count),
        )

    -- The table of a process after the handle `new` was closed, or was not a handle.
    closed_old :
        (old new j : ℕ) (s : State services)
        → uses i s.sfthead < 0xffff
        → s.psp.ps_filetab old ≡ j
        → Present i j s.sfthead
        → (let s1 = (dos_close_handle services new s).1 in
            Present i j s1.sfthead × ((s1.psp.ps_filetab old ≡ j) ⊎ (s1.psp.ps_filetab old ≡ 0xff)))
    unfolding dos_close_handle store_handle
    closed_old old new j s room byte present = elim (Option-cases (get_sft new s.psp s.sfthead)) [
      | inl n ↦ rw (n, dos_close_handle) (present, inl byte)
      | inr ((k, f), e) ↦
          let s0 = record s { psp = store_handle new 0xff s.psp } in
          let (low, p, q) = dos_close_sft-Closes services i k false s0 (omega arith) in
          rw (e, dos_close_handle)
            (
              Lowered-Present i j k s.sfthead (dos_close_sft services k false s0).1.sfthead low
                  present,
              elim (Bool-cases (old == new)) [
                | inl y ↦ inr (ap (λ x. x.ps_filetab old) p ∙ rw y refl)
                | inr n ↦ inl (ap (λ x. x.ps_filetab old) p ∙ rw n byte)
              ],
            )
    ]

    after_close-Keeps :
        (old new j : ℕ) (s : State services) (r : Result × State services)
        → uses i s.sfthead < 0xffff
        → Keeps 0 s r.1
        → Present i j r.1.sfthead
        → (r.1.psp.ps_filetab old ≡ j) ⊎ (r.1.psp.ps_filetab old ≡ 0xff)
        → Keeps 1 s (after_close services old new j r).1
    unfolding after_close
    after_close-Keeps old new j s (failed c, s1) room (held, less) present byte =
        (held, omega arith)
    after_close-Keeps old new j s (ok v, s1) room (held, less) present byte =
        let (held1, more) = copy_handle-Keeps old new j s1 present byte (omega arith) held in
        elim (Bool-cases (v == 0)) [
          | inl y ↦ rw (y, after_close) (held1, omega arith)
          | inr n ↦ rw (n, after_close) (held, omega arith)
        ]

    force_dup_taken :
        (old new j : ℕ) (f : Sft) (s : State services)
        → get_sft old s.psp s.sfthead ≡ some (j, f)
        → (s.psp.ps_filetab new == 0xff) ≡ false
        → dos_force_dup services old new s
          ≡ after_close services old new j (dos_close_handle services new s)
    unfolding dos_force_dup
    force_dup_taken old new j f s e taken =
        ap
          (λ o. elim o as (λ x. Result × State services) [
            | none ↦ (failed de_invldhndl, s)
            | some x ↦
                if s.psp.ps_filetab new == 0xff
                then (ok 0, copy_handle services old new x.0 s)
                else after_close services old new x.0 (dos_close_handle services new s)
          ])
          e
        ∙ ap
            (λ c.
              if c
              then (ok 0, copy_handle services old new j s)
              else after_close services old new j (dos_close_handle services new s))
            taken

    pub dos_force_dup-Keeps :
        (old new : ℕ) (s : State services)
        → uses i s.sfthead < 0xffff
        → IsHeld services i s
        → Keeps 1 s (dos_force_dup services old new s).1
    unfolding dos_force_dup
    dos_force_dup-Keeps old new s room held = elim (Option-cases (get_sft old s.psp s.sfthead)) [
      | inl n ↦ rw (n, dos_force_dup) (held, omega arith)
      | inr ((j, f), e) ↦
          let (under, byte, used, at, some_use) = get_sft-found old j f s.psp s.sfthead e in
          let present = found-Present i j s.sfthead f at in
          elim (Bool-cases (s.psp.ps_filetab new == 0xff)) [
            | inl free ↦
                rw (e, free, dos_force_dup)
                  (copy_handle-Keeps old new j s present (inl byte) room held)
            | inr taken ↦
                let r = dos_close_handle services new s in
                let (present1, byte1) = closed_old old new j s room byte present in
                subst (λ x. Keeps 1 s x.1) (sym (force_dup_taken old new j f s e taken))
                  (after_close-Keeps old new j s r room (dos_close_handle-Keeps new s room held)
                    present1 byte1)
          ]
    ]

    pub dos_dup-Keeps :
        (h : ℕ) (s : State services)
        → uses i s.sfthead < 0xffff
        → IsHeld services i s
        → Keeps 1 s (dos_dup services h s).1
    unfolding dos_dup
    dos_dup-Keeps h s room held = elim (Option-cases (get_free_hndl s.psp)) [
      | inl n ↦ rw (n, dos_dup) (held, omega arith)
      | inr (new, e) ↦ rw (e, dos_dup) (dos_force_dup-Keeps h new s room held)
    ]
