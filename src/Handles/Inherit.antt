-- ===== src/Handles/Inherit.antt =====
-- kernel/dosfns.c and kernel/task.c: a process that starts and one that ends keep the handles held.
use burdah_dos_system.Base.{
  ℕ, zero, suc, ◌+◌, ◌<◌, ◌≤◌, List, [], ◌∷◌, ltb, if◌then◌else◌, ◌≡◌, ◌⊎◌, ◌≢◌, inl, inr, refl, ap,
  Bool-cases, Option-cases, arith,
}
use burdah_dos_system.Handles.{ok, failed, Psp, has_bit, get_sft, store_handle}
use burdah_dos_system.Handles.Calls.{
  Services, State, dos_close_handle, clone_handle, clone_files, child_psp, close_handles, to_parent,
}
use burdah_dos_system.Handles.Refs.{refs_under, refs, refs_all, get_sft-found}
use burdah_dos_system.Handles.Closing.{uses}
use burdah_dos_system.Handles.Uses.{
  found-Present, raise-uses, refs-store_at_most, handles_of, IsHeld,
}
use burdah_dos_system.Handles.Dup.{Keeps, dos_close_handle-Keeps}

List-cases : (ps : List Psp) → (ps ≡ []) ⊎ ((p : Psp) × (rest : List Psp) × (ps ≡ p ∷ rest))
List-cases [] = inl refl
List-cases (p ∷ ps) = inr (p, ps, refl)

module _ (services : Services) where
  module _ (i : ℕ) (open_ : i ≢ 0xff) where
    -- The handles of a process and those of a child that is being made.
    abbrev Sharing : Psp → State services → Type 0
    Sharing child s = refs i child + handles_of services i s ≤ uses i s.sfthead

    clone_handle-Sharing :
        (h : ℕ) (child : Psp) (s : State services)
        → uses i s.sfthead < 0xffff
        → Sharing child s
        → (let r = clone_handle services h s in
            let next : Psp = elim r.0 [
              | ok v ↦ store_handle h (s.psp.ps_filetab h) child
              | failed c ↦ child
            ] in
            Sharing next r.1 × (uses i r.1.sfthead ≤ uses i s.sfthead + 1))
    unfolding clone_handle handles_of
    clone_handle-Sharing h child s room held = elim (Option-cases (get_sft h s.psp s.sfthead)) [
      | inl n ↦ rw (n, clone_handle) (held, omega arith)
      | inr ((j, f), e) ↦
          let (under, byte, used, at, some_use) = get_sft-found h j f s.psp s.sfthead e in
          elim (Bool-cases (has_bit f.sft_mode 0x0080)) [
            | inl y ↦ rw (e, y, clone_handle) (held, omega arith)
            | inr n ↦
                let count = raise-uses i j s.sfthead (found-Present i j s.sfthead f at) room in
                let more = refs-store_at_most i h (s.psp.ps_filetab h) child in
                rw (e, n, clone_handle)
                  (ground (arith, count, more, held, byte), ground (arith, count))
          ]
    ]

    clone_files-Sharing :
        (k n : ℕ) (child : Psp) (s : State services)
        → uses i s.sfthead + n ≤ 0xffff
        → Sharing child s
        → (let r = clone_files services k n child s in
            Sharing r.0 r.1 × (uses i r.1.sfthead ≤ uses i s.sfthead + n))
    unfolding clone_files
    clone_files-Sharing k zero child s room held = (held, omega arith)
    clone_files-Sharing k (suc n) child s room held =
        let r = clone_handle services k s in
        let next : Psp = elim r.0 [
          | ok v ↦ store_handle k (s.psp.ps_filetab k) child
          | failed c ↦ child
        ] in
        let (held1, more) = clone_handle-Sharing k child s (omega arith) held in
        let (held2, most) = clone_files-Sharing (suc k) n next r.1 (omega arith) held1 in
        (held2, omega arith)

    refs_no_files :
        (n : ℕ) (behind : ℕ → ℕ)
        → n ≤ 20
        → refs_under n i (λ h. if ltb h 20 then 0xff else behind h) ≡ 0
    unfolding refs_under
    refs_no_files zero behind b = refl
    refs_no_files (suc n) behind b = ground (arith, open_, refs_no_files n behind (omega arith))

    pub child_psp-Keeps :
        (para : ℕ) (behind : ℕ → ℕ) (s : State services)
        → uses i s.sfthead + 20 ≤ 0xffff
        → IsHeld services i s
        → Keeps services i open_ 20 s (child_psp services para behind s)
    unfolding child_psp IsHeld handles_of refs_all refs
    child_psp-Keeps para behind s room held =
        let files = λ (h : ℕ). if ltb h 20 then 0xff else behind h in
        let child : Psp = record { ps_seg = para; ps_maxfiles = 20; ps_filetab = files } in
        let none_yet : refs i child ≡ 0 = refs_no_files 20 behind (omega arith) in
        let (shared, most) =
          clone_files-Sharing 0 20 child s room (ground (arith, none_yet, held)) in
        (shared, most)

    pub close_handles-Keeps :
        (k n : ℕ) (s : State services)
        → uses i s.sfthead < 0xffff
        → IsHeld services i s
        → Keeps services i open_ 0 s (close_handles services k n s)
    unfolding close_handles
    close_handles-Keeps k zero s room held = (held, omega arith)
    close_handles-Keeps k (suc n) s room held =
        let (held1, less) = dos_close_handle-Keeps services i open_ k s room held in
        let (held2, least) =
          close_handles-Keeps (suc k) n (dos_close_handle services k s).1 (omega arith) held1 in
        (held2, omega arith)

    pub to_parent-IsHeld :
        (s : State services) → IsHeld services i s → IsHeld services i (to_parent services s)
    unfolding to_parent IsHeld handles_of refs_all
    to_parent-IsHeld s held = elim (List-cases s.waiting) [
      | inl n ↦ rw (n, to_parent) (ground (arith, held, n))
      | inr (parent, rest, e) ↦ rw (e, to_parent) (ground (arith, held, ap (refs_all i) e))
    ]
