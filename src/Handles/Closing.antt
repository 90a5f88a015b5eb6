-- ===== src/Handles/Closing.antt =====
-- kernel/dosfns.c: closing an entry of the system file table lowers its count by one at most.
use burdah_dos_system.Base.{
  ℕ, suc, ◌+◌, ◌-◌, ◌%◌, ◌<◌, Bool, true, not, ◌||◌, none, some, ◌==◌, if◌then◌else◌, ◌≡◌, ◌⊎◌, inl,
  inr, refl, sym, ap, ◌∙◌, Bool-cases, Option-cases, arith,
}
use burdah_dos_system.Handles.{
  Result, ok, failed, Sft, Sfttbl, no_share, has_bit, idx_to_sft_, idx_to_sft, alter_sft,
}
use burdah_dos_system.Handles.Calls.{
  count_at, Services, State, lower, unshare, drop_use, close_device, close_file, dos_close_sft,
}
use burdah_dos_system.Handles.Table.{
  idx_to_sft-use, count-some, some-count, count-alter_sft, count-alter_sft_other,
}

-- From one table to another the count of entry `i` stays, or `i` is `j` and it is one less.
abbrev pub Lowered : (i j : ℕ) → Sfttbl → Sfttbl → Type 0
Lowered i j a b =
    (count_at i b ≡ count_at i a)
    ⊎ ((i ≡ j) × (n : ℕ) × (count_at j a ≡ some (suc n)) × (count_at j b ≡ some n))

pub Result-cases : (r : Result) → ((c : ℕ) × (r ≡ failed c)) ⊎ ((v : ℕ) × (r ≡ ok v))
Result-cases (failed c) = inl (c, refl)
Result-cases (ok v) = inr (v, refl)

abbrev pub uses : ℕ → Sfttbl → ℕ
uses i t = elim (count_at i t) [ none ↦ 0 | some n ↦ n ]

pub uses-count : (i n : ℕ) (t : Sfttbl) → count_at i t ≡ some n → uses i t ≡ n
uses-count i n t h = ap (λ o. elim o as (λ x. ℕ) [ none ↦ 0 | some n ↦ n ]) h

pub uses-same : (i : ℕ) (a b : Sfttbl) → count_at i a ≡ count_at i b → uses i a ≡ uses i b
uses-same i a b h = ap (λ o. elim o as (λ x. ℕ) [ none ↦ 0 | some n ↦ n ]) h

lower_mod : (c n : ℕ) → c ≡ suc n → suc n < 0x10000 → (c + 0xffff) % 0x10000 ≡ n
lower_mod c n e small = omega arith

Lowered-start :
    (i j : ℕ) (a b c : Sfttbl)
    → count_at i b ≡ count_at i a
    → count_at j b ≡ count_at j a
    → Lowered i j b c
    → Lowered i j a c
Lowered-start i j a b c ei ej (inl e) = inl (e ∙ ei)
Lowered-start i j a b c ei ej (inr (same, n, before, after)) = inr (same, n, sym ej ∙ before, after)

same-alter_sft :
    (i j : ℕ) (f : Sft → Sft) (t : Sfttbl) (s : Sft)
    → idx_to_sft_ i t ≡ some s
    → (f s).sft_count ≡ s.sft_count
    → count_at j (alter_sft i f t) ≡ count_at j t
same-alter_sft i j f t s at keeps = elim (Bool-cases (j == i)) [
  | inr n ↦ count-alter_sft_other i j f t (λ e. ground (arith, e, n))
  | inl y ↦
      let same : i ≡ j = ground arith in
      ap (λ x. count_at x (alter_sft i f t)) (sym same)
      ∙ count-alter_sft i f t s at
      ∙ ap some keeps
      ∙ sym (count-some i t s at)
      ∙ ap (λ x. count_at x t) same
]

module _ (services : Services) where
  open services use {
    World, is_share_installed, share_close_file, char_close, dos_close, dos_close-counts,
    remote_close, remote_close-counts,
  }

  -- What closing entry `j` does to the table at `i`, and to nothing else.
  abbrev pub Closes : (i j : ℕ) → State services → State services → Type 0
  Closes i j s s' = Lowered i j s.sfthead s'.sfthead × (s'.psp ≡ s.psp) × (s'.waiting ≡ s.waiting)

  unshare-same :
      (i j : ℕ) (s : State services)
      → (count_at j (unshare services i s).sfthead ≡ count_at j s.sfthead)
        × ((unshare services i s).psp ≡ s.psp)
        × ((unshare services i s).waiting ≡ s.waiting)
  unfolding unshare
  unshare-same i j s = elim (Option-cases (idx_to_sft_ i s.sfthead)) [
    | inl n ↦ rw (n, unshare) (refl, refl, refl)
    | inr (f, e) ↦ elim (Bool-cases (f.sft_count == 1)) [
      | inr n ↦ rw (e, n, unshare) (refl, refl, refl)
      | inl y ↦ elim (Bool-cases (is_share_installed s.world).0) [
        | inr n ↦ rw (e, y, n, unshare) (refl, refl, refl)
        | inl z ↦
            rw (e, y, z, unshare)
              (
                same-alter_sft i j (λ x. record x { sft_shroff = no_share }) s.sfthead f e refl,
                refl,
                refl,
              )
      ]
    ]
  ]

  drop_use-Lowered :
      (i j : ℕ) (s : State services) (n : ℕ)
      → count_at j s.sfthead ≡ some (suc n)
      → uses i s.sfthead < 0x10000
      → Closes i j s (drop_use services j s)
  unfolding drop_use lower
  drop_use-Lowered i j s n c small =
      let (f, at, count) = some-count j (suc n) s.sfthead c in
      (
        elim (Bool-cases (i == j)) [
          | inr f ↦ inl (count-alter_sft_other j i lower s.sfthead (λ e. ground (arith, e, f)))
          | inl y ↦
              let same : i ≡ j = ground arith in
              let same_uses : uses i s.sfthead ≡ suc n =
                uses-count i (suc n) s.sfthead (ap (λ x. count_at x s.sfthead) same ∙ c) in
              inr (
                same,
                n,
                c,
                count-alter_sft j lower s.sfthead f at
                    ∙ ap some (lower_mod f.sft_count n count (ground (arith, small, same_uses))),
              )
        ],
        refl,
        refl,
      )

  close_device-Closes :
      (i j : ℕ) (commitonly : Bool) (f : Sft) (s : State services) (n : ℕ)
      → count_at j s.sfthead ≡ some (suc n)
      → uses i s.sfthead < 0x10000
      → Closes i j s (close_device services j commitonly f s).1
  unfolding close_device
  close_device-Closes i j commitonly f s n c small =
      let (done, w) =
        if has_bit f.sft_dev 0x0800 then char_close f.sft_dev s.world else (true, s.world) in
      elim (Bool-cases done) [
        | inr bad ↦ rw (bad, close_device) (inl refl, refl, refl)
        | inl good ↦ elim (Bool-cases commitonly) [
          | inl only ↦ rw (good, only, close_device) (inl refl, refl, refl)
          | inr all ↦
              rw (good, all, close_device) (drop_use-Lowered i j (record s { world = w }) n c small)
        ]
      ]

  close_file-Closes :
      (i j : ℕ) (commitonly : Bool) (s : State services) (n : ℕ)
      → count_at j s.sfthead ≡ some (suc n)
      → uses i s.sfthead < 0x10000
      → Closes i j s (close_file services j commitonly s).1
  unfolding close_file
  close_file-Closes i j commitonly s n c small =
      let r = dos_close j s.sfthead s.world in
      let s1 = record s { sfthead = r.1; world = r.2 } in
      let kept = dos_close-counts j s.sfthead s.world in
      elim (Result-cases r.0) [
        | inl (code, e) ↦ rw (e, close_file) (inl (kept i), refl, refl)
        | inr (v, e) ↦ elim (Bool-cases (commitonly || not (v == 0))) [
          | inl early ↦ rw (e, early, close_file) (inl (kept i), refl, refl)
          | inr on ↦
              let s2 = unshare services j s1 in
              let (same_j, same_psp, same_waiting) = unshare-same j j s1 in
              let at_j = same_j ∙ kept j in
              let at_i = (unshare-same j i s1).0 ∙ kept i in
              let (low, p, q) =
                drop_use-Lowered i j s2 n (at_j ∙ c)
                  (ground (arith, small, uses-same i s2.sfthead s.sfthead at_i)) in
              rw (e, on, close_file)
                (
                  Lowered-start i j s.sfthead s2.sfthead (drop_use services j s2).sfthead at_i at_j
                      low,
                  p ∙ same_psp,
                  q ∙ same_waiting,
                )
        ]
      ]

  pub dos_close_sft-Closes :
      (i j : ℕ) (commitonly : Bool) (s : State services)
      → uses i s.sfthead < 0x10000
      → Closes i j s (dos_close_sft services j commitonly s).1
  unfolding dos_close_sft
  dos_close_sft-Closes i j commitonly s small = elim (Option-cases (idx_to_sft j s.sfthead)) [
    | inl n ↦ rw (n, dos_close_sft) (inl refl, refl, refl)
    | inr (f, e) ↦
        let (at, used) = idx_to_sft-use j s.sfthead f e in
        let c : count_at j s.sfthead ≡ some (suc (f.sft_count - 1)) =
          count-some j s.sfthead f at ∙ ap some (omega arith) in
        elim (Bool-cases (has_bit f.sft_flags 0x8000)) [
          | inl far ↦
              rw (e, far, dos_close_sft)
                (remote_close-counts commitonly j s.sfthead s.world i, refl, refl)
          | inr near ↦ elim (Bool-cases (has_bit f.sft_flags 0x0080)) [
            | inl device ↦
                rw (e, near, device, dos_close_sft)
                  (close_device-Closes i j commitonly f s (f.sft_count - 1) c small)
            | inr disk ↦
                rw (e, near, disk, dos_close_sft)
                  (close_file-Closes i j commitonly s (f.sft_count - 1) c small)
          ]
        ]
  ]
