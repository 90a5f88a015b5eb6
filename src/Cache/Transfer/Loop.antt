-- ===== src/Cache/Transfer/Loop.antt =====
-- kernel/blockio.c: what holds along the transfers and questions of `dskxfer` when the critical error
-- handler never answers CONTINUE.
use burdah_dos_system.Base.{
  ℕ, zero, suc, ◌≡◌, ◌≢◌, ◌⊎◌, inl, inr, refl, sym, ap, ◌∙◌, subst, Bool, true, false, Option, none,
  some, Bool-cases, Option-cases,
}
use burdah_dos_system.Cache.Transfer.{
  abort, fail, retry, continue, other_answer, Mode, Answer, Command, Dpb, Driver, Io, command_of,
  request, is_direct, is_done, one_transfer, switch, ask, attempts,
}

some-same {ℓ} : {A : Type ℓ} {x y : A} → some x ≡ some y → x ≡ y
some-same e = cc

none-some {ℓ} : {A : Type ℓ} {x : A} → Option.none ≡ some x → ⊥
none-some e = absurd cc

module _ (driver : Driver) where
  open driver use {World, execrh, block_error}

  switch-cases :
      (a : Answer) (r x : Answer × World) (again : Option (Answer × World))
      → switch driver a r again ≡ some x
      → (r ≡ x) ⊎ (again ≡ some x)
  unfolding switch
  switch-cases abort r x again e = inl cc
  switch-cases fail r x again e = inl cc
  switch-cases retry r x again e = inl cc
  switch-cases continue r x again e = inl cc
  switch-cases other_answer r x again e = inr e

  ask-cases :
      (f status : ℕ) (m : Mode) (w : World) (x : Answer × World)
      → ask driver (suc f) status m w ≡ some x
      → (block_error status m w ≡ x) ⊎ (ask driver f status m (block_error status m w).1 ≡ some x)
  unfolding ask
  ask-cases f status m w x e =
      let r = block_error status m w in switch-cases r.0 r x (ask driver f status m r.1) e

  -- The state after a transfer that did not succeed and an answer to it.
  answered :
      (f : ℕ) (d : Dpb) (verify bounced : Bool) (m : Mode) (k n status : ℕ)
      → Io driver
      → Answer × World
      → Option (ℕ × Io driver)
  answered f d verify bounced m k n status s1 (abort, w) = some (status, record s1 { world = w })
  answered f d verify bounced m k n status s1 (fail, w) = some (status, record s1 { world = w })
  answered f d verify bounced m k n status s1 (retry, w) =
      attempts driver f d verify bounced m k n (record s1 { world = w })
  answered f d verify bounced m k n status s1 (continue, w) = some (0, record s1 { world = w })
  answered f d verify bounced m k n status s1 (other_answer, w) = none

  module _ (d : Dpb) (verify bounced : Bool) (m : Mode) (k : ℕ) (command : Command)
      (means : command_of verify m ≡ some command) (asks : is_direct m ≡ false) where
    -- The transfer that is made in a state.
    abbrev pub transfer : Io driver → ℕ × Io driver
    transfer s = one_transfer driver bounced m (request d command k 1 s.io_req_hdr) s

    attempts-done :
        (f : ℕ) (s : Io driver)
        → is_done (transfer s).0 ≡ true
        → attempts driver (suc f) d verify bounced m k 1 s ≡ some (0, (transfer s).1)
    unfolding attempts
    attempts-done f s e = rw (means, e, attempts) refl

    attempts-unasked :
        (f : ℕ) (s : Io driver)
        → is_done (transfer s).0 ≡ false
        → ask driver (suc f) (transfer s).0 m (transfer s).1.world ≡ none
        → attempts driver (suc f) d verify bounced m k 1 s ≡ none
    unfolding attempts
    attempts-unasked f s e a = rw (means, e, asks, a, attempts) refl

    attempts-asked :
        (f : ℕ) (s : Io driver) (r : Answer × World)
        → is_done (transfer s).0 ≡ false
        → ask driver (suc f) (transfer s).0 m (transfer s).1.world ≡ some r
        → attempts driver (suc f) d verify bounced m k 1 s
          ≡ answered f d verify bounced m k 1 (transfer s).0 (transfer s).1 r
    unfolding attempts answered
    attempts-asked f s (abort, w) e a = rw (means, e, asks, a, attempts) refl
    attempts-asked f s (fail, w) e a = rw (means, e, asks, a, attempts) refl
    attempts-asked f s (retry, w) e a = rw (means, e, asks, a, attempts) refl
    attempts-asked f s (continue, w) e a = rw (means, e, asks, a, attempts) refl
    attempts-asked f s (other_answer, w) e a = rw (means, e, asks, a, attempts) refl

    module _ (no_ignore : (status : ℕ) (w : World) → (block_error status m w).0 ≢ continue)
        (reports : (s : Io driver) → is_done (transfer s).0 ≡ false → (transfer s).0 ≢ 0)
        (Q : Io driver → Type 0) (moves : (s : Io driver) → Q s → Q (transfer s).1)
        (speaks : (status : ℕ) (s : Io driver)
          → Q s
          → Q (record s { world = (block_error status m s.world).1 })) where
      -- What a run that returns has come to: `Q` holds, and success is that of the last transfer.
      abbrev pub Ends : ℕ × Io driver → Type 0
      Ends x =
          Q x.1
          × ((x.0 ≢ 0)
              ⊎ ((s : Io driver) × Q s × (is_done (transfer s).0 ≡ true) × (x.1 ≡ (transfer s).1)))

      ask-keeps :
          (f status : ℕ) (s : Io driver) (x : Answer × World)
          → Q s
          → ask driver f status m s.world ≡ some x
          → Q (record s { world = x.1 }) × (x.0 ≢ continue)
      unfolding ask
      ask-keeps zero status s x q e = absurd cc
      ask-keeps (suc f) status s x q e =
          let r = block_error status m s.world in
          let q1 = speaks status s q in
          elim (ask-cases f status m s.world x e) [
            | inl same ↦ (
              subst (λ y. Q (record s { world = y.1 })) same q1,
              λ c. no_ignore status s.world (ap (λ y. y.0) same ∙ c),
            )
            | inr later ↦ ask-keeps f status (record s { world = r.1 }) x q1 later
          ]

      answered-Ends :
          (f : ℕ) (s : Io driver) (r : Answer × World) (x : ℕ × Io driver)
          → ((t : Io driver) → Q t → attempts driver f d verify bounced m k 1 t ≡ some x → Ends x)
          → Q (record (transfer s).1 { world = r.1 })
          → r.0 ≢ continue
          → (transfer s).0 ≢ 0
          → answered f d verify bounced m k 1 (transfer s).0 (transfer s).1 r ≡ some x
          → Ends x
      unfolding answered
      answered-Ends f s (abort, w) x again q go bad e = subst Ends (some-same e) (q, inl bad)
      answered-Ends f s (fail, w) x again q go bad e = subst Ends (some-same e) (q, inl bad)
      answered-Ends f s (retry, w) x again q go bad e = again _ q e
      answered-Ends f s (continue, w) x again q go bad e = absurd (go refl)
      answered-Ends f s (other_answer, w) x again q go bad e = absurd cc

      pub attempts-Ends :
          (f : ℕ) (s : Io driver) (x : ℕ × Io driver)
          → Q s
          → attempts driver f d verify bounced m k 1 s ≡ some x
          → Ends x
      unfolding attempts
      attempts-Ends zero s x q e = absurd cc
      attempts-Ends (suc f) s x q e = elim (Bool-cases (is_done (transfer s).0)) [
        | inl done ↦
            subst Ends (some-same (sym (attempts-done f s done) ∙ e))
              (moves s q, inr (s, q, done, refl))
        | inr short ↦
            elim (Option-cases (ask driver (suc f) (transfer s).0 m (transfer s).1.world)) [
              | inl n ↦ absurd (none-some (sym (attempts-unasked f s short n) ∙ e))
              | inr (r, run) ↦
                  let (q1, go) =
                    ask-keeps (suc f) (transfer s).0 (transfer s).1 r (moves s q) run in
                  answered-Ends f s r x (λ t qt et. attempts-Ends f t x qt et) q1 go
                    (reports s short) (sym (attempts-asked f s r short run) ∙ e)
            ]
      ]
