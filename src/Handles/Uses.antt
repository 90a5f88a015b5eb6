-- ===== src/Handles/Uses.antt =====
-- kernel/dosfns.c and kernel/task.c: how many handles stand for an entry of the system file
-- table, and how often the entry counts itself in use.
use burdah_dos_system.Base.{
  ℕ, suc, ◌+◌, ◌%◌, ◌<◌, ◌≤◌, false, some, ltb, ◌==◌, if◌then◌else◌, ◌≡◌, ◌⊎◌, ◌≢◌, inl, inr, sym,
  ap, ◌∙◌, Bool-cases, arith,
}
use burdah_dos_system.Handles.{Psp, Sft, Sfttbl, idx_to_sft_, alter_sft, store_handle}
use burdah_dos_system.Handles.Calls.{count_at, Services, State, raise}
use burdah_dos_system.Handles.Table.{some-count, count-some, count-alter_sft, count-alter_sft_other}
use burdah_dos_system.Handles.Refs.{refs, refs_all, refs-store, refs-store_beyond}
use burdah_dos_system.Handles.Closing.{Lowered, uses, uses-count, uses-same}

pub Lowered-uses :
    (i j : ℕ) (a b : Sfttbl)
    → Lowered i j a b
    → (uses i a ≤ uses i b + (if j == i then 1 else 0)) × (uses i b ≤ uses i a)
Lowered-uses i j a b (inl e) =
    (ground (arith, uses-same i b a e), ground (arith, uses-same i b a e))
Lowered-uses i j a b (inr (same, n, before, after)) =
    let x = uses-count i (suc n) a (ap (λ k. count_at k a) same ∙ before) in
    let y = uses-count i n b (ap (λ k. count_at k b) same ∙ after) in
    (ground (arith, same, x, y), ground (arith, x, y))

raised : (c n u : ℕ) → c ≡ n → u ≡ n → u < 0xffff → (c + 1) % 0x10000 ≡ u + 1
raised c n u e f room = omega arith

-- Where entry `j` is entry `i`, it is in the table.
abbrev pub Present : (i j : ℕ) → Sfttbl → Type 0
Present i j t = (j ≢ i) ⊎ ((n : ℕ) × (count_at i t ≡ some n))

pub found-Present : (i j : ℕ) (t : Sfttbl) (s : Sft) → idx_to_sft_ j t ≡ some s → Present i j t
found-Present i j t s at = elim (Bool-cases (j == i)) [
  | inr f ↦ inl (λ e. ground (arith, e, f))
  | inl y ↦
      let same : j ≡ i = ground arith in
      inr (s.sft_count, sym (ap (λ k. count_at k t) same) ∙ count-some j t s at)
]

pub Lowered-Present : (i j k : ℕ) (a b : Sfttbl) → Lowered i k a b → Present i j a → Present i j b
Lowered-Present i j k a b low (inl n) = inl n
Lowered-Present i j k a b (inl e) (inr (n, c)) = inr (n, e ∙ c)
Lowered-Present i j k a b (inr (same, m, before, after)) (inr (n, c)) =
    inr (m, ap (λ x. count_at x b) same ∙ after)

pub raise-uses :
    (i j : ℕ) (t : Sfttbl)
    → Present i j t
    → uses i t < 0xffff
    → uses i (alter_sft j raise t) ≡ uses i t + (if j == i then 1 else 0)
unfolding raise
raise-uses i j t (inl other) room =
    let f : (j == i) ≡ false = ground arith in
    rw f (
      ground (
        arith,
        uses-same i (alter_sft j raise t) t
            (count-alter_sft_other j i raise t (λ e. ground (arith, e, f))),
      ))
raise-uses i j t (inr (n, c)) room =
    let (s, at, count) = some-count i n t c in
    elim (Bool-cases (j == i)) [
      | inr f ↦ rw f (
          ground (
            arith,
            uses-same i (alter_sft j raise t) t
                (count-alter_sft_other j i raise t (λ e. ground (arith, e, f))),
          ))
      | inl y ↦
          let same : j ≡ i = ground arith in
          let after : uses i (alter_sft j raise t) ≡ (s.sft_count + 1) % 0x10000 =
            ap (λ k. uses i (alter_sft k raise t)) same
            ∙ uses-count i ((s.sft_count + 1) % 0x10000) (alter_sft i raise t)
                (count-alter_sft i raise t s at) in
          rw y (after ∙ raised s.sft_count n (uses i t) count (uses-count i n t c) room)
    ]

pub refs-store_at_most :
    (i h v : ℕ) (p : Psp) → refs i (store_handle h v p) ≤ refs i p + (if v == i then 1 else 0)
refs-store_at_most i h v p = elim (Bool-cases (ltb h p.ps_maxfiles)) [
  | inl under ↦ ground (arith, refs-store i h v p (ground arith))
  | inr beyond ↦ ground (arith, refs-store_beyond i h v p (ground arith))
]

module _ (services : Services) where
  -- The handles of the process and of those that wait for it that stand for entry `i`.
  unfoldable pub handles_of : (i : ℕ) → State services → ℕ
  unfolding refs refs_all
  handles_of i s = refs i s.psp + refs_all i s.waiting

  unfoldable pub IsHeld : (i : ℕ) → State services → Type 0
  unfolding handles_of
  IsHeld i s = handles_of i s ≤ uses i s.sfthead
