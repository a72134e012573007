-- ===== src/Remap/Expand/Passes.antt =====
-- The two passes of genmatchstring() against each other: the buffer that the first one measures
-- holds what the second one writes.
use network_tftp_tftp_hpa.Prelude.{
  ℕ, zero, suc, ◌+◌, ◌-◌, ◌≡◌, ◌⊎◌, refl, sym, ap, ◌∙◌, subst, true, false, Option, none, some,
  List, [], ◌∷◌, ◌++◌, arith, ◌==◌, length, length-append, get_or, take, drop, Bool-cases,
  Option-cases, if◌then◌else◌, inl, inr,
}
use network_tftp_tftp_hpa.Remap.{Locale, RegMatch}
use network_tftp_tftp_hpa.Remap.Expand.{
  XformState, Generated, put_out, plain, put_wide, xform_loop, xform_out, digit, put_group,
  put_macro, expand_step, expand, xform_init, xsmemcpy, ended_with, replace_match,
  do_genmatchstring, genmatchstring,
}

module _ (loc : Locale) where
  open loc use {MbState, mbrtowc, initial}

  -- The state of a pass that only measures.
  abbrev measure : XformState MbState → XformState MbState
  measure ys = record ys { out = none }

  -- The length counts what is written.
  abbrev Fits : XformState MbState → Type 0
  Fits ys = (bs : List ℕ) × (ys.out ≡ some bs) × (length bs ≡ ys.len)

  -- What the two passes make of a string.
  abbrev Twin : List ℕ × XformState MbState → List ℕ × XformState MbState → Type 0
  Twin a b = (a ≡ (b.0, measure b.1)) × Fits b.1

  xsmemcpy-Fits :
      (ys : XformState MbState) (bytes : List ℕ) → Fits ys → Fits (xsmemcpy loc ys bytes)
  xsmemcpy-Fits ys bytes (bs, e, n) =
      (bs ++ bytes, ap (put_out bytes) e, length-append bs bytes ∙ ap (λ k. k + length bytes) n)

  put_wide-Fits : (wc : ℕ) (ys : XformState MbState) → Fits ys → Fits (put_wide loc wc ys)
  unfolding put_wide
  put_wide-Fits wc ys h = xsmemcpy-Fits ys _ h

  put_wide-measure :
      (wc : ℕ) (ys : XformState MbState)
      → put_wide loc wc (measure ys) ≡ measure (put_wide loc wc ys)
  unfolding put_wide
  put_wide-measure wc ys = refl

  xform_loop-Twin :
      (rounds : ℕ) (ips : MbState) (p : List ℕ) (ys : XformState MbState)
      → Fits ys
      → Twin (xform_loop loc rounds ips p (measure ys)) (xform_loop loc rounds ips p ys)
  unfolding xform_loop
  xform_loop-Twin zero ips p ys h = (refl, h)
  xform_loop-Twin (suc rounds) ips p ys h = elim (Bool-cases (plain loc p)) [
    | inr stop ↦ rw stop (refl, h)
    | inl go ↦ elim (Option-cases (mbrtowc p ips)) [
      | inl bad ↦ rw (go, bad) (refl, h)
      | inr ((wc, nb, ips'), good) ↦
          rw (go, good, put_wide-measure wc ys)
            (xform_loop-Twin rounds ips' (drop nb p) (put_wide loc wc ys) (put_wide-Fits wc ys h))
    ]
  ]

  xform_out-Twin :
      (p : List ℕ) (ys : XformState MbState)
      → Fits ys
      → Twin (xform_out loc p (measure ys)) (xform_out loc p ys)
  unfolding xform_out
  xform_out-Twin p ys h = xform_loop-Twin (length p) initial p ys h

  module _ (macrosub : ℕ → Option (List ℕ)) (input : List ℕ) (pmatch : List RegMatch) where
    -- A string of which only the state matters.
    with_rest :
        (rest : List ℕ) (a b : List ℕ × XformState MbState)
        → Twin a b
        → Twin (rest, a.1) (rest, b.1)
    with_rest rest a b (e, f) = (ap (λ x. (rest, x.1)) e, f)

    put_group-Twin :
        (rest : List ℕ) (m : RegMatch) (ys : XformState MbState)
        → Fits ys
        → Twin
            (rest, put_group loc macrosub input pmatch m (measure ys))
            (rest, put_group loc macrosub input pmatch m ys)
    unfolding put_group
    put_group-Twin rest none ys h = (refl, h)
    put_group-Twin rest (some (so, eo)) ys h =
        with_rest rest _ _ (xform_out-Twin (take (eo - so) (drop so input)) ys h)

    put_macro-Twin :
        (macro : ℕ) (rest pattern : List ℕ) (ys : XformState MbState)
        → Fits ys
        → Twin
            (put_macro loc macrosub input pmatch macro rest pattern (measure ys))
            (put_macro loc macrosub input pmatch macro rest pattern ys)
    unfolding put_macro
    put_macro-Twin macro rest pattern ys h = elim (Bool-cases (digit loc macro)) [
      | inl d ↦ rw d (put_group-Twin rest (get_or pmatch (macro - b'0') none) ys h)
      | inr d ↦ elim (Bool-cases (macro == b'L')) [
        | inl l ↦ rw (d, l) (refl, h)
        | inr l ↦ elim (Bool-cases (macro == b'U')) [
          | inl u ↦ rw (d, l, u) (refl, h)
          | inr u ↦ elim (Bool-cases (macro == b'E')) [
            | inl e ↦ rw (d, l, u, e) (refl, h)
            | inr e ↦ elim (Bool-cases (macro == b'\\')) [
              | inl b ↦ rw (d, l, u, e, b) (refl, xsmemcpy-Fits ys (b'\\' ∷ []) h)
              | inr b ↦ elim (Option-cases (macrosub macro)) [
                | inl m ↦ rw (d, l, u, e, b, m) (refl, h)
                | inr (macrodata, m) ↦
                    rw (d, l, u, e, b, m) (with_rest rest _ _ (xform_out-Twin macrodata ys h))
              ]
            ]
          ]
        ]
      ]
    ]

    pub expand_step-plain :
        (c : ℕ) (cs : List ℕ) (xs : XformState MbState)
        → (c == b'\\') ≡ false
        → expand_step loc macrosub input pmatch c cs xs ≡ xform_out loc (c ∷ cs) xs
    unfolding expand_step
    expand_step-plain c cs xs b = rw b refl

    escaped-Twin :
        (c : ℕ) (cs : List ℕ) (ys : XformState MbState)
        → (c == b'\\') ≡ true
        → Fits ys
        → Twin
            (expand_step loc macrosub input pmatch c cs (measure ys))
            (expand_step loc macrosub input pmatch c cs ys)
    unfolding expand_step
    escaped-Twin c [] ys b h = rw b (refl, xsmemcpy-Fits ys (b'\\' ∷ []) h)
    escaped-Twin c (macro ∷ rest) ys b h = rw b (put_macro-Twin macro rest (macro ∷ rest) ys h)

    expand_step-Twin :
        (c : ℕ) (cs : List ℕ) (ys : XformState MbState)
        → Fits ys
        → Twin
            (expand_step loc macrosub input pmatch c cs (measure ys))
            (expand_step loc macrosub input pmatch c cs ys)
    expand_step-Twin c cs ys h = elim (Bool-cases (c == b'\\')) [
      | inl b ↦ escaped-Twin c cs ys b h
      | inr b ↦
          rw (expand_step-plain c cs (measure ys) b, expand_step-plain c cs ys b)
            (xform_out-Twin (c ∷ cs) ys h)
    ]

    -- What the two passes come to.
    Twins : Option (XformState MbState) → Option (XformState MbState) → Type 0
    Twins a none = a ≡ none
    Twins a (some ys) = (a ≡ some (measure ys)) × Fits ys

    expand-Twins :
        (rounds : ℕ) (p : List ℕ) (ys : XformState MbState)
        → Fits ys
        → Twins
            (expand loc macrosub input pmatch rounds p (measure ys))
            (expand loc macrosub input pmatch rounds p ys)
    unfolding expand Twins
    expand-Twins rounds [] ys h = (refl, h)
    expand-Twins zero (c ∷ cs) ys h = refl
    expand-Twins (suc rounds) (c ∷ cs) ys h =
        let (same, fits) = expand_step-Twin c cs ys h in
        let next = expand_step loc macrosub input pmatch c cs ys in
        subst
          (λ a.
            Twins (expand loc macrosub input pmatch rounds a.0 a.1)
              (expand loc macrosub input pmatch rounds next.0 next.1))
          (sym same) (expand-Twins rounds next.0 next.1 fits)

  Measured : Option Generated → Option Generated → Type 0
  Measured a none = a ≡ none
  Measured a (some g) =
      (a ≡ some (record g { written = none }))
      × ((bs : List ℕ) × (g.written ≡ some bs) × ((n : ℕ) → g.size ≡ some n → length bs ≡ n))

  ended_with-Measured :
      (macrosub : ℕ → Option (List ℕ)) (input : List ℕ) (pmatch : List RegMatch) (tail : List ℕ)
      (a b : Option (XformState MbState))
      → Twins macrosub input pmatch a b
      → Measured (ended_with loc tail a) (ended_with loc tail b)
  unfolding Twins Measured
  ended_with-Measured macrosub input pmatch tail a none h = rw h refl
  ended_with-Measured macrosub input pmatch tail a (some ys) (e, h) =
      let (bs, w, n) = xsmemcpy-Fits ys tail h in
      (ap (ended_with loc tail) e, (bs, w, λ m k. n ∙ counted m (Bool-cases ys.err) k))
    where
      counted :
          (m : ℕ)
          → (ys.err ≡ true) ⊎ (ys.err ≡ false)
          → (if ys.err then none else some (ys.len + length tail)) ≡ some m
          → ys.len + length tail ≡ m
      counted m (inl bad) k = absurd (ground (arith, bad))
      counted m (inr good) k = ground (arith, good)

  replace_match-Measured :
      (rounds : ℕ) (pattern ibuf : List ℕ) (pmatch : List RegMatch) (macrosub : ℕ → Option (List ℕ))
      (start : ℕ) (m : RegMatch)
      → Measured
          (replace_match loc rounds none pattern ibuf pmatch macrosub start m)
          (replace_match loc rounds (some []) pattern ibuf pmatch macrosub start m)
  unfolding replace_match Measured
  replace_match-Measured rounds pattern ibuf pmatch macrosub start none =
      (refl, (ibuf ++ 0 ∷ [], refl, λ n e. ground arith))
  replace_match-Measured rounds pattern ibuf pmatch macrosub start (some (so, eo)) =
      let input = drop start ibuf in
      let before = take (start + so) ibuf in
      ended_with-Measured macrosub input pmatch (drop eo input) _ _ (
        expand-Twins macrosub input pmatch rounds pattern
          (xsmemcpy loc (xform_init loc (some [])) before) (before, refl, omega arith))

  do_genmatchstring-Measured :
      (rounds : ℕ) (pattern ibuf : List ℕ) (pmatch : List RegMatch) (macrosub : ℕ → Option (List ℕ))
      (start : Option ℕ)
      → Measured
          (do_genmatchstring loc rounds none pattern ibuf pmatch macrosub start)
          (do_genmatchstring loc rounds (some []) pattern ibuf pmatch macrosub start)
  unfolding do_genmatchstring
  do_genmatchstring-Measured rounds pattern ibuf pmatch macrosub none =
      ended_with-Measured macrosub ibuf pmatch [] _ _ (
        expand-Twins macrosub ibuf pmatch rounds pattern (xform_init loc (some []))
          ([], refl, refl))
  do_genmatchstring-Measured rounds pattern ibuf pmatch macrosub (some start) =
      replace_match-Measured rounds pattern ibuf pmatch macrosub start (get_or pmatch 0 none)

  -- If the first pass of genmatchstring measures `len`, the second one comes to an end too, with
  -- the same result and `len` bytes in the buffer, which so has room for them and the final NUL:
  -- whatever the locale, the pattern, the matches and the macros are.
  pub genmatchstring_fits :
      (rounds : ℕ) (pattern ibuf : List ℕ) (pmatch : List RegMatch) (macrosub : ℕ → Option (List ℕ))
      (start : Option ℕ) (len : ℕ) {g : Generated}
      → do_genmatchstring loc rounds none pattern ibuf pmatch macrosub start ≡ some g
      → g.size ≡ some len
      → (s : List ℕ) × (genmatchstring loc rounds pattern ibuf pmatch macrosub start
          ≡ some (record g { written = some s }))
        × (length s ≡ len)
  unfolding genmatchstring Measured
  genmatchstring_fits rounds pattern ibuf pmatch macrosub start len {g} e k =
      elim (Option-cases
        (do_genmatchstring loc rounds (some []) pattern ibuf pmatch macrosub start)) [
          | inl out ↦
              let m =
                rw out at (do_genmatchstring-Measured rounds pattern ibuf pmatch macrosub start) in
              absurd (ground (arith, m))
          | inr (g', got) ↦
              let (same, (bs, w, n)) =
                rw got at (do_genmatchstring-Measured rounds pattern ibuf pmatch macrosub start) in
              let g'' : record g' { written = none } ≡ g = ground (arith, same) in
              let second : genmatchstring loc rounds pattern ibuf pmatch macrosub start ≡ some g' =
                ground (arith, e, k, got) in
              (
                bs,
                second
                    ∙ ap (λ o. some (record g' { written = o })) w
                    ∙ ap (λ (x : Generated). some (record x { written = some bs })) g'',
                n len (ap (λ (x : Generated). x.size) g'' ∙ k),
              )
        ]
