-- ===== src/Fcb/Plain.antt =====
-- kernel/fcbfns.c: a name and an extension, written with a dot between them, are parsed into the fields.
use burdah_dos_system.Base.{
  ℕ, zero, suc, ◌-◌, ◌≤◌, Bool, true, false, not, ◌&&◌, ◌||◌, List, [], ◌∷◌, ◌++◌, length,
  replicate, ◌==◌, if◌then◌else◌, ◌≡◌, inl, inr, refl, sym, ap, ◌∙◌, Bool-cases, bit_and, arith,
}
use burdah_dos_system.Fcb.{
  Fcb, one_of, test_cmn_seps, test_field_seps, skip_seps, parse_skip_wh, starts_with,
  get_name_field, parse_drive, blanked, extension, parse_fields, parse_behind, fcb_parse_fname,
}

module _ (up : ℕ → ℕ) (has_cds : ℕ → Bool) where
  -- A byte of a name as it is stored: no separator, no wildcard, and in upper case.
  abbrev pub is_plain : ℕ → Bool
  is_plain c = not (test_field_seps c) && not (c == 0x2a) && not (c == 0x3f) && up c == c

  abbrev pub are_plain : List ℕ → Bool
  are_plain [] = true
  are_plain (c ∷ cs) = is_plain c && are_plain cs

  -- A text that ends a field.
  abbrev pub ends : List ℕ → Bool
  ends [] = true
  ends (c ∷ cs) = test_field_seps c

  abbrev pub padded : (n : ℕ) → List ℕ → List ℕ
  padded n cs = cs ++ replicate (n - length cs) 0x20

  plain_facts :
      (c : ℕ)
      → is_plain c ≡ true
      → (test_field_seps c ≡ false) × ((c == 0x2a) ≡ false) × ((c == 0x3f) ≡ false) × (up c ≡ c)
  plain_facts c h = (ground arith, ground arith, ground arith, ground arith)

  get_name_field-ends :
      (n : ℕ) (rest : List ℕ)
      → ends rest ≡ true
      → get_name_field up has_cds n rest ≡ (rest, replicate n 0x20, false)
  unfolding get_name_field
  get_name_field-ends zero rest e = refl
  get_name_field-ends (suc n) [] e = refl
  get_name_field-ends (suc n) (c ∷ cs) e = rw (e, get_name_field) refl

  get_name_field-plain :
      (n : ℕ) (base rest : List ℕ)
      → are_plain base ≡ true
      → length base ≤ n
      → ends rest ≡ true
      → get_name_field up has_cds n (base ++ rest) ≡ (rest, padded n base, false)
  unfolding get_name_field
  get_name_field-plain n [] rest plain fits e =
      let all : n - 0 ≡ n = omega arith in
      get_name_field-ends n rest e ∙ ap (λ m. (rest, replicate m 0x20, false)) (sym all)
  get_name_field-plain zero (c ∷ cs) rest plain fits e = absurd (omega arith)
  get_name_field-plain (suc n) (c ∷ cs) rest plain fits e =
      let (no_sep, no_star, no_mark, upper) = plain_facts c (ground arith) in
      let more = get_name_field-plain n cs rest (ground arith) (omega arith) e in
      let back : suc n - suc (length cs) ≡ n - length cs = omega arith in
      rw (no_sep, no_star, more, no_mark, upper, get_name_field) (rw back refl)

  -- A plain byte is no separator in front of a name, no white space, and no dot.
  skip_seps-plain : (c : ℕ) (cs : List ℕ) → test_field_seps c ≡ false → skip_seps (c ∷ cs) ≡ c ∷ cs
  unfolding skip_seps test_cmn_seps test_field_seps one_of
  skip_seps-plain c cs h = let n : test_cmn_seps c ≡ false = ground arith in rw (n, skip_seps) refl

  parse_skip_wh-plain :
      (c : ℕ) (cs : List ℕ) → test_field_seps c ≡ false → parse_skip_wh (c ∷ cs) ≡ c ∷ cs
  unfolding parse_skip_wh test_field_seps one_of
  parse_skip_wh-plain c cs h =
      let n : (c == 0x20 || c == 0x09) ≡ false = ground arith in rw (n, parse_skip_wh) refl

  no_dot : (c : ℕ) → test_field_seps c ≡ false → (c == 0x2e) ≡ false
  unfolding test_field_seps one_of
  no_dot c h = ground arith

  no_colon : (c : ℕ) → test_field_seps c ≡ false → (c == 0x3a) ≡ false
  unfolding test_field_seps one_of
  no_colon c h = ground arith

  starts_with-plain :
      (cs tail : List ℕ) → are_plain cs ≡ true → starts_with 0x3a (cs ++ (0x2e ∷ tail)) ≡ false
  unfolding starts_with
  starts_with-plain [] tail plain = refl
  starts_with-plain (c ∷ cs) tail plain = no_colon c (plain_facts c (ground arith)).0

  abbrev pub kept_drive : (mode old : ℕ) → ℕ
  kept_drive mode old = if bit_and mode 0x02 == 0 then 0 else old

  parse_drive-plain :
      (mode old c : ℕ) (cs : List ℕ)
      → starts_with 0x3a cs ≡ false
      → parse_drive up has_cds mode old (c ∷ cs) ≡ (false, kept_drive mode old, c ∷ cs)
  unfolding parse_drive
  parse_drive-plain mode old c cs h =
      let both : (not (test_field_seps c) && starts_with 0x3a cs) ≡ false = ground (arith, h) in
      rw (both, parse_drive) refl

  dot_ends : (tail : List ℕ) → ends (0x2e ∷ tail) ≡ true
  unfolding test_field_seps one_of
  dot_ends tail = refl

  extension-plain :
      (old ext rest : List ℕ)
      → are_plain ext ≡ true
      → length ext ≤ 3
      → ends rest ≡ true
      → extension up has_cds old (0x2e ∷ (ext ++ rest)) ≡ (rest, padded 3 ext, false)
  unfolding extension
  extension-plain old ext rest plain fits e = get_name_field-plain 3 ext rest plain fits e

  -- What is left of a block that a name with an extension was parsed into.
  abbrev pub filled : (mode : ℕ) (base ext : List ℕ) → Fcb → Fcb
  filled mode base ext f = record f {
    fcb_drive = kept_drive mode f.fcb_drive;
    fcb_fname = padded 8 base;
    fcb_fext = padded 3 ext;
    fcb_cublock = 0;
    fcb_recsiz = 0;
  }

  parse_fields-found :
      (g : Fcb) (cs rest1 rest2 name ext : List ℕ)
      → get_name_field up has_cds 8 cs ≡ (rest1, name, false)
      → extension up has_cds g.fcb_fext rest1 ≡ (rest2, ext, false)
      → parse_fields up has_cds false g cs ≡ record {
        fcb = record g { fcb_fname = name; fcb_fext = ext };
        test_mode = 0;
        rest = rest2;
      }
  unfolding parse_fields
  parse_fields-found g cs rest1 rest2 name ext a b = rw (a, b, parse_fields) refl

  parse_behind-no_dot :
      (mode drive c : ℕ) (cs : List ℕ) (f : Fcb)
      → (c == 0x2e) ≡ false
      → parse_behind up has_cds mode f (false, drive, c ∷ cs)
        ≡ parse_fields up has_cds false
            (blanked up has_cds mode (record f { fcb_drive = drive }))
            (c ∷ cs)
  unfolding parse_behind
  parse_behind-no_dot mode drive c cs f n = rw (n, parse_behind) refl

  -- A name of up to 8 plain bytes, at least one, and an extension of up to 3, with a dot between them,
  -- whatever the request: the fields are the two padded with blanks, there is no wildcard, and the
  -- parse stops at what ends the extension.
  pub fcb_parse_fname-plain :
      (mode c : ℕ) (base ext rest : List ℕ) (f : Fcb)
      → are_plain (c ∷ base) ≡ true
      → length (c ∷ base) ≤ 8
      → are_plain ext ≡ true
      → length ext ≤ 3
      → ends rest ≡ true
      → fcb_parse_fname up has_cds mode (c ∷ (base ++ (0x2e ∷ (ext ++ rest)))) f
        ≡ record { fcb = filled mode (c ∷ base) ext f; test_mode = 0; rest = rest }
  unfolding fcb_parse_fname blanked
  fcb_parse_fname-plain mode c base ext rest f pb fb pe fe e =
      let tail = base ++ (0x2e ∷ (ext ++ rest)) in
      let (no_sep, no_star, no_mark, upper) = plain_facts c (ground arith) in
      let lead : (if bit_and mode 0x01 == 0 then c ∷ tail else skip_seps (c ∷ tail)) ≡ c ∷ tail =
        elim (Bool-cases (bit_and mode 0x01 == 0)) [
          | inl y ↦ rw y refl
          | inr n ↦ rw n (skip_seps-plain c tail no_sep)
        ] in
      let g = blanked up has_cds mode (record f { fcb_drive = kept_drive mode f.fcb_drive }) in
      let found =
        parse_fields-found g (c ∷ tail) (0x2e ∷ (ext ++ rest)) rest (padded 8 (c ∷ base))
          (padded 3 ext)
          (get_name_field-plain 8 (c ∷ base) (0x2e ∷ (ext ++ rest)) pb fb (dot_ends (ext ++ rest)))
          (extension-plain g.fcb_fext ext rest pe fe e) in
      let start =
        ap (λ t. parse_drive up has_cds mode f.fcb_drive (parse_skip_wh t)) lead
        ∙ ap (parse_drive up has_cds mode f.fcb_drive) (parse_skip_wh-plain c tail no_sep)
        ∙ parse_drive-plain mode f.fcb_drive c tail
            (starts_with-plain base (ext ++ rest) (ground arith)) in
      ap (parse_behind up has_cds mode f) start
      ∙ parse_behind-no_dot mode (kept_drive mode f.fcb_drive) c tail f (no_dot c no_sep)
      ∙ found
