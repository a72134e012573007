-- ===== src/Remap/Expand/Kept.antt =====
-- What do_genmatchstring() leaves of the string: all but the matched section.
use network_tftp_tftp_hpa.Prelude.{
  ℕ, zero, suc, ◌+◌, ◌-◌, ◌≡◌, refl, sym, ap, ◌∙◌, subst, true, Option, none, some, List, [], ◌∷◌,
  ◌++◌, append_assoc, append-nil, arith, ◌==◌, length, length-append, get_or, take, drop,
  Bool-cases, Option-cases, inl, inr,
}
use network_tftp_tftp_hpa.Remap.{Locale, RegMatch}
use network_tftp_tftp_hpa.Remap.Expand.{
  XformState, Generated, put_out, plain, put_wide, xform_loop, xform_out, digit, put_group,
  put_macro, expand_step, expand, xform_init, xsmemcpy, ending, ended_with, replace_match,
  do_genmatchstring,
}
use network_tftp_tftp_hpa.Remap.Expand.Passes.{expand_step-plain}

module _ (loc : Locale) where
  open loc use {MbState, mbrtowc, initial}

  -- What stands before the loop is kept.
  abbrev Begins : (before : List ℕ) → XformState MbState → Type 0
  Begins before xs =
      (mid : List ℕ) × (xs.out ≡ some (before ++ mid)) × (xs.len ≡ length before + length mid)

  xsmemcpy-Begins :
      (before bytes : List ℕ) (xs : XformState MbState)
      → Begins before xs
      → Begins before (xsmemcpy loc xs bytes)
  xsmemcpy-Begins before bytes xs (mid, e, n) =
      let k = length-append mid bytes in
      (mid ++ bytes, ap (put_out bytes) e ∙ ap some (append_assoc before mid bytes), omega arith)

  put_wide-Begins :
      (before : List ℕ) (wc : ℕ) (xs : XformState MbState)
      → Begins before xs
      → Begins before (put_wide loc wc xs)
  unfolding put_wide
  put_wide-Begins before wc xs h = xsmemcpy-Begins before _ xs h

  xform_loop-Begins :
      (before : List ℕ) (rounds : ℕ) (ips : MbState) (p : List ℕ) (xs : XformState MbState)
      → Begins before xs
      → Begins before (xform_loop loc rounds ips p xs).1
  unfolding xform_loop
  xform_loop-Begins before zero ips p xs h = h
  xform_loop-Begins before (suc rounds) ips p xs h = elim (Bool-cases (plain loc p)) [
    | inr stop ↦ rw stop h
    | inl go ↦ elim (Option-cases (mbrtowc p ips)) [
      | inl bad ↦ rw (go, bad) h
      | inr ((wc, nb, ips'), good) ↦
          rw (go, good)
            (xform_loop-Begins before rounds ips' (drop nb p) (put_wide loc wc xs)
              (put_wide-Begins before wc xs h))
    ]
  ]

  module _ (macrosub : ℕ → Option (List ℕ)) (input : List ℕ) (pmatch : List RegMatch)
      (before : List ℕ) where
    put_group-Begins :
        (m : RegMatch) (xs : XformState MbState)
        → Begins before xs
        → Begins before (put_group loc macrosub input pmatch m xs)
    unfolding put_group xform_out
    put_group-Begins none xs h = h
    put_group-Begins (some (so, eo)) xs h =
        xform_loop-Begins before _ initial (take (eo - so) (drop so input)) xs h

    xform_out-Begins :
        (p : List ℕ) (xs : XformState MbState)
        → Begins before xs
        → Begins before (xform_out loc p xs).1
    unfolding xform_out
    xform_out-Begins p xs h = xform_loop-Begins before (length p) initial p xs h

    put_macro-Begins :
        (macro : ℕ) (rest pattern : List ℕ) (xs : XformState MbState)
        → Begins before xs
        → Begins before (put_macro loc macrosub input pmatch macro rest pattern xs).1
    unfolding put_macro
    put_macro-Begins macro rest pattern xs h = elim (Bool-cases (digit loc macro)) [
      | inl d ↦ rw d (put_group-Begins (get_or pmatch (macro - b'0') none) xs h)
      | inr d ↦ elim (Bool-cases (macro == b'L')) [
        | inl l ↦ rw (d, l) h
        | inr l ↦ elim (Bool-cases (macro == b'U')) [
          | inl u ↦ rw (d, l, u) h
          | inr u ↦ elim (Bool-cases (macro == b'E')) [
            | inl e ↦ rw (d, l, u, e) h
            | inr e ↦ elim (Bool-cases (macro == b'\\')) [
              | inl b ↦ rw (d, l, u, e, b) (xsmemcpy-Begins before (b'\\' ∷ []) xs h)
              | inr b ↦ elim (Option-cases (macrosub macro)) [
                | inl m ↦ rw (d, l, u, e, b, m) h
                | inr (bytes, m) ↦ rw (d, l, u, e, b, m) (xform_out-Begins bytes xs h)
              ]
            ]
          ]
        ]
      ]
    ]

    escaped-Begins :
        (c : ℕ) (cs : List ℕ) (xs : XformState MbState)
        → (c == b'\\') ≡ true
        → Begins before xs
        → Begins before (expand_step loc macrosub input pmatch c cs xs).1
    unfolding expand_step
    escaped-Begins c [] xs b h = rw b (xsmemcpy-Begins before (b'\\' ∷ []) xs h)
    escaped-Begins c (macro ∷ rest) xs b h = rw b (put_macro-Begins macro rest (macro ∷ rest) xs h)

    expand_step-Begins :
        (c : ℕ) (cs : List ℕ) (xs : XformState MbState)
        → Begins before xs
        → Begins before (expand_step loc macrosub input pmatch c cs xs).1
    expand_step-Begins c cs xs h = elim (Bool-cases (c == b'\\')) [
      | inl b ↦ escaped-Begins c cs xs b h
      | inr b ↦
          rw (expand_step-plain loc macrosub input pmatch c cs xs b)
            (xform_out-Begins (c ∷ cs) xs h)
    ]

    expand-Begins :
        (rounds : ℕ) (p : List ℕ) (xs : XformState MbState) {ys : XformState MbState}
        → Begins before xs
        → expand loc macrosub input pmatch rounds p xs ≡ some ys
        → Begins before ys
    unfolding expand
    expand-Begins rounds [] xs {ys} h e =
        let same : xs ≡ ys = ground arith in subst (Begins before) same h
    expand-Begins zero (c ∷ cs) xs h e = absurd (ground arith)
    expand-Begins (suc rounds) (c ∷ cs) xs h e =
        let next = expand_step loc macrosub input pmatch c cs xs in
        expand-Begins rounds next.0 next.1 (expand_step-Begins c cs xs h) e

  ended_with-cases :
      (tail : List ℕ) (a : Option (XformState MbState)) {g : Generated}
      → ended_with loc tail a ≡ some g
      → (ys : XformState MbState) × (a ≡ some ys) × (g ≡ ending loc tail ys)
  ended_with-cases tail none e = absurd (ground arith)
  ended_with-cases tail (some ys) e = (ys, refl, ground arith)

  replace_match_keeps :
      (rounds : ℕ) (pattern ibuf : List ℕ) (pmatch : List RegMatch) (macrosub : ℕ → Option (List ℕ))
      (start so eo : ℕ) {g : Generated}
      → replace_match loc rounds (some []) pattern ibuf pmatch macrosub start (some (so, eo))
        ≡ some g
      → let before = take (start + so) ibuf in
        (mid : List ℕ) × (g.written ≡ some (before ++ mid ++ drop eo (drop start ibuf)))
        × (g.next ≡ some (length before + length mid))
  unfolding replace_match
  replace_match_keeps rounds pattern ibuf pmatch macrosub start so eo {g} e =
      let before = take (start + so) ibuf in
      let tail = drop eo (drop start ibuf) in
      let (ys, run, same) = ended_with-cases tail _ e in
      let (mid, w, n) =
        expand-Begins macrosub (drop start ibuf) pmatch before rounds pattern
          (xsmemcpy loc (xform_init loc (some [])) before)
          ([], ap some (sym (append-nil before)), omega arith) run in
      (
        mid,
        ap (λ (x : Generated). x.written) same ∙ ap (put_out tail) w,
        ap (λ (x : Generated). x.next) same ∙ ap some n,
      )

  -- On a match at `so` up to `eo` behind the first `start` bytes, what do_genmatchstring writes
  -- begins with all that stands before the match and ends with all that stands behind it, and
  -- *nextp is where the part in between ends: whatever the pattern, the macros and the locale are.
  pub do_genmatchstring_keeps :
      (rounds : ℕ) (pattern ibuf : List ℕ) (pmatch : List RegMatch) (macrosub : ℕ → Option (List ℕ))
      (start so eo : ℕ) {g : Generated}
      → get_or pmatch 0 none ≡ some (so, eo)
      → do_genmatchstring loc rounds (some []) pattern ibuf pmatch macrosub (some start) ≡ some g
      → let before = take (start + so) ibuf in
        (mid : List ℕ) × (g.written ≡ some (before ++ mid ++ drop eo (drop start ibuf)))
        × (g.next ≡ some (length before + length mid))
  unfolding do_genmatchstring
  do_genmatchstring_keeps rounds pattern ibuf pmatch macrosub start so eo {g} found e =
      replace_match_keeps rounds pattern ibuf pmatch macrosub start so eo (
        subst
          (λ m. replace_match loc rounds (some []) pattern ibuf pmatch macrosub start m ≡ some g)
          found e)
