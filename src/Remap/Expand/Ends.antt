-- ===== src/Remap/Expand/Ends.antt =====
-- When the loop of do_genmatchstring() over the pattern ends, and what it leaves of the string.
use network_tftp_tftp_hpa.Prelude.{
  ℕ, zero, suc, ◌+◌, ◌≤◌, ◌<◌, ◌≡◌, ◌≢◌, refl, sym, ap, ◌∙◌, subst, true, Option, none, some, List,
  [], ◌∷◌, arith, ◌==◌, length, length-drop, get_or, take, drop, Bool-cases, Option-cases, inl, inr,
}
use network_tftp_tftp_hpa.Remap.{Locale, RegMatch}
use network_tftp_tftp_hpa.Remap.Expand.{
  XformState, Generated, plain, put_wide, xform_loop, xform_out, put_macro, expand_step, expand,
  xform_init, xsmemcpy, ending, ended_with, replace_match, do_genmatchstring, genmatchstring,
}
use network_tftp_tftp_hpa.Remap.Expand.Passes.{expand_step-plain}

-- A locale in which every string that is not empty begins with a character, of at least a byte.
abbrev pub Converts : Locale → Type 0
Converts loc =
    (c : ℕ) (cs : List ℕ) (ps : loc.MbState)
    → (wc : ℕ) × (nb : ℕ) × (ps' : loc.MbState) × (loc.mbrtowc (c ∷ cs) ps ≡ some (wc, nb, ps'))
      × (0 < nb)

module _ (loc : Locale) where
  open loc use {MbState, mbrtowc, initial}

  xform_loop_shrinks :
      (rounds : ℕ) (ips : MbState) (p : List ℕ) (xs : XformState MbState)
      → length (xform_loop loc rounds ips p xs).0 ≤ length p
  unfolding xform_loop
  xform_loop_shrinks zero ips p xs = omega arith
  xform_loop_shrinks (suc rounds) ips p xs = elim (Bool-cases (plain loc p)) [
    | inr stop ↦ rw stop (omega arith)
    | inl go ↦ elim (Option-cases (mbrtowc p ips)) [
      | inl bad ↦ rw (go, bad) (omega arith)
      | inr ((wc, nb, ips'), good) ↦
          let shorter = xform_loop_shrinks rounds ips' (drop nb p) (put_wide loc wc xs) in
          let n = length-drop nb p in rw (go, good) (omega arith)
    ]
  ]

  -- On a string that does not begin with a backslash or a NUL it moves on.
  xform_out_moves :
      (convert : Converts loc) (c : ℕ) (cs : List ℕ) (xs : XformState MbState)
      → plain loc (c ∷ cs) ≡ true
      → length (xform_out loc (c ∷ cs) xs).0 < suc (length cs)
  unfolding xform_out xform_loop
  xform_out_moves convert c cs xs go =
      let (wc, nb, ips', good, some_byte) = convert c cs initial in
      let shorter = xform_loop_shrinks (length cs) ips' (drop nb (c ∷ cs)) (put_wide loc wc xs) in
      let n = length-drop nb (c ∷ cs) in rw (go, good) (omega arith)

  xform_out-stuck :
      (c : ℕ) (cs : List ℕ) (xs : XformState MbState)
      → plain loc (c ∷ cs) ≡ true
      → mbrtowc (c ∷ cs) initial ≡ none
      → xform_out loc (c ∷ cs) xs ≡ (c ∷ cs, record xs { err = true })
  unfolding xform_out xform_loop
  xform_out-stuck c cs xs go bad = rw (go, bad) refl

  module _ (macrosub : ℕ → Option (List ℕ)) (input : List ℕ) (pmatch : List RegMatch) where
    put_macro_shrinks :
        (macro : ℕ) (rest : List ℕ) (xs : XformState MbState)
        → length (put_macro loc macrosub input pmatch macro rest (macro ∷ rest) xs).0
          ≤ suc (length rest)
    unfolding put_macro
    put_macro_shrinks macro rest xs = ground arith

    escaped_moves :
        (c : ℕ) (cs : List ℕ) (xs : XformState MbState)
        → (c == b'\\') ≡ true
        → length (expand_step loc macrosub input pmatch c cs xs).0 < suc (length cs)
    unfolding expand_step
    escaped_moves c [] xs b = rw b (omega arith)
    escaped_moves c (macro ∷ rest) xs b =
        let shorter = put_macro_shrinks macro rest xs in rw b (omega arith)

    expand_step_moves :
        (convert : Converts loc) (c : ℕ) (cs : List ℕ) (xs : XformState MbState)
        → length (expand_step loc macrosub input pmatch c cs xs).0 < suc (length cs)
    expand_step_moves convert c cs xs = elim (Bool-cases (c == b'\\')) [
      | inl b ↦ escaped_moves c cs xs b
      | inr b ↦
          rw (expand_step-plain loc macrosub input pmatch c cs xs b)
            (xform_out_moves convert c cs xs (ground (arith, b)))
    ]

    expand_ends :
        (convert : Converts loc) (rounds : ℕ) (p : List ℕ) (xs : XformState MbState)
        → length p ≤ rounds
        → (ys : XformState MbState) × (expand loc macrosub input pmatch rounds p xs ≡ some ys)
    unfolding expand
    expand_ends convert rounds [] xs h = (xs, refl)
    expand_ends convert zero (c ∷ cs) xs h = absurd (omega arith)
    expand_ends convert (suc rounds) (c ∷ cs) xs h =
        let next = expand_step loc macrosub input pmatch c cs xs in
        let shorter = expand_step_moves convert c cs xs in
        expand_ends convert rounds next.0 next.1 (omega arith)

    -- A string at which the conversion fails is not left.
    expand-stuck :
        (rounds c : ℕ) (cs : List ℕ) (xs : XformState MbState)
        → plain loc (c ∷ cs) ≡ true
        → mbrtowc (c ∷ cs) initial ≡ none
        → expand loc macrosub input pmatch rounds (c ∷ cs) xs ≡ none
    unfolding expand
    expand-stuck zero c cs xs go bad = refl
    expand-stuck (suc rounds) c cs xs go bad =
        subst
          (λ (a : List ℕ × XformState MbState).
            expand loc macrosub input pmatch rounds a.0 a.1 ≡ none)
          (sym (
            expand_step-plain loc macrosub input pmatch c cs xs (ground (arith, go))
            ∙ xform_out-stuck c cs xs go bad))
          (expand-stuck rounds c cs (record xs { err = true }) go bad)

  replace_match_ends :
      (convert : Converts loc) (pattern ibuf : List ℕ) (string : Option (List ℕ))
      (pmatch : List RegMatch) (macrosub : ℕ → Option (List ℕ)) (start : ℕ) (m : RegMatch)
      → (g : Generated) × (replace_match loc
            (length pattern)
            string
            pattern
            ibuf
            pmatch
            macrosub
            start
            m
          ≡ some g)
  unfolding replace_match
  replace_match_ends convert pattern ibuf string pmatch macrosub start none = (_, refl)
  replace_match_ends convert pattern ibuf string pmatch macrosub start (some (so, eo)) =
      let (ys, e) =
        expand_ends macrosub (drop start ibuf) pmatch convert (length pattern) pattern
          (xsmemcpy loc (xform_init loc string) (take (start + so) ibuf)) (omega arith) in
      (ending loc (drop eo (drop start ibuf)) ys, ap (ended_with loc (drop eo (drop start ibuf))) e)

  -- In such a locale a round for each byte of the pattern is enough.
  pub do_genmatchstring_ends :
      (convert : Converts loc) (pattern ibuf : List ℕ) (string : Option (List ℕ))
      (pmatch : List RegMatch) (macrosub : ℕ → Option (List ℕ)) (start : Option ℕ)
      → (g : Generated) × (do_genmatchstring loc
            (length pattern)
            string
            pattern
            ibuf
            pmatch
            macrosub
            start
          ≡ some g)
  unfolding do_genmatchstring
  do_genmatchstring_ends convert pattern ibuf string pmatch macrosub none =
      let (ys, e) =
        expand_ends macrosub ibuf pmatch convert (length pattern) pattern (xform_init loc string)
          (omega arith) in
      (ending loc [] ys, ap (ended_with loc []) e)
  do_genmatchstring_ends convert pattern ibuf string pmatch macrosub (some start) =
      replace_match_ends convert pattern ibuf string pmatch macrosub start (get_or pmatch 0 none)

  replace_match-stuck :
      (rounds c : ℕ) (cs ibuf : List ℕ) (pmatch : List RegMatch) (macrosub : ℕ → Option (List ℕ))
      (start so eo : ℕ) (m : RegMatch)
      → m ≡ some (so, eo)
      → plain loc (c ∷ cs) ≡ true
      → mbrtowc (c ∷ cs) initial ≡ none
      → replace_match loc rounds none (c ∷ cs) ibuf pmatch macrosub start m ≡ none
  unfolding replace_match
  replace_match-stuck rounds c cs ibuf pmatch macrosub start so eo none e go bad =
      absurd (ground arith)
  replace_match-stuck rounds c cs ibuf pmatch macrosub start so eo (some (so', eo')) e go bad =
      ap (ended_with loc (drop eo' (drop start ibuf))) (
        expand-stuck macrosub (drop start ibuf) pmatch rounds c cs
          (xsmemcpy loc (xform_init loc none) (take (start + so') ibuf)) go bad)

  -- A replacement that begins with bytes that are no character of the locale, and not with a
  -- backslash, is never left: on a match, however many rounds of its loop do_genmatchstring is
  -- given, it does not return.
  pub genmatchstring_hangs :
      (rounds c : ℕ) (cs ibuf : List ℕ) (pmatch : List RegMatch) (macrosub : ℕ → Option (List ℕ))
      (start so eo : ℕ)
      → get_or pmatch 0 none ≡ some (so, eo)
      → c ≢ b'\\'
      → mbrtowc (c ∷ cs) initial ≡ none
      → genmatchstring loc rounds (c ∷ cs) ibuf pmatch macrosub (some start) ≡ none
  unfolding genmatchstring do_genmatchstring
  genmatchstring_hangs rounds c cs ibuf pmatch macrosub start so eo match text bad =
      let stuck =
        replace_match-stuck rounds c cs ibuf pmatch macrosub start so eo (get_or pmatch 0 none)
          match (ground arith) bad in
      ground (arith, stuck)
