-- ===== src/Remap/Parse/Rules.antt =====
-- The rules that parseline() and parserulefile() of tftpd/remap.c accept.
use network_tftp_tftp_hpa.Prelude.{
  ℕ, zero, suc, ◌+◌, ◌%◌, ◌^◌, ◌≡◌, ◌⊎◌, refl, sym, ◌∙◌, subst, Bool, true, false, ◌||◌, Option,
  none, some, List, [], ◌∷◌, All, arith, ◌==◌, length, Bool-cases, Option-cases, inl, inr,
}
use network_tftp_tftp_hpa.Text.{first_byte, rest_of}
use network_tftp_tftp_hpa.Remap.{Locale, Regex, Flags, Rule}
use network_tftp_tftp_hpa.Remap.Parse.{
  ParsedLine, no_rule, parse_error, parsed, Operation, no_flags, no_string, take_flag, take_flags,
  bad_combo, strip_global, readescstring, parse_rest, parseline, read_line, keep_rule, rule_lines,
  parserulefile,
}

-- What a rule may be: either a label, or a rule with an expression; a global one rewrites, and one
-- that rewrites is not inverse and neither aborts nor jumps; one that aborts neither jumps nor
-- restarts; and one with "e" or "E" has not the other one, and neither aborts nor jumps nor restarts.
-- These are the combinations of badcombos, after parseline has dropped "g" where there is no "r".
pub record IsValid {Rx : Type 0} (r : Rule Rx) : Type 0 where
  pub compiled :
      ((r.flags.label ≡ true) × (r.flags.noregex ≡ true) × (r.rx ≡ none))
      ⊎ ((r.flags.label ≡ false) × (r.flags.noregex ≡ false) × ((rx : Rx) × (r.rx ≡ some rx)))
  pub global_rewrites : r.flags.global ≡ true → r.flags.rewrite ≡ true
  pub sed_global : r.flags.sedg ≡ true → r.flags.global ≡ true
  pub rewrites :
      r.flags.rewrite ≡ true
      → (r.flags.inverse ≡ false) × (r.flags.abort ≡ false) × (r.flags.jump ≡ false)
  pub aborts : r.flags.abort ≡ true → (r.flags.jump ≡ false) × (r.flags.restart ≡ false)
  pub exits :
      (r.flags.exit || r.flags.hasfile) ≡ true
      → (r.flags.abort ≡ false) × (r.flags.jump ≡ false) × (r.flags.restart ≡ false)
  pub exits_once : r.flags.exit ≡ true → r.flags.hasfile ≡ false

-- The loop over the flags keeps these.
abbrev Plausible : Operation → Type 0
Plausible op = (op.flags.sedg ≡ true → op.flags.global ≡ true) × (op.flags.label ≡ op.flags.noregex)

take_flag-Plausible :
    (c : ℕ) (op op' : Operation) → Plausible op → take_flag c op ≡ some op' → Plausible op'
unfolding take_flag
take_flag-Plausible c op op' (g, l) e = ground arith

take_flags-Plausible :
    (cs : List ℕ) (op op' : Operation) → Plausible op → take_flags cs op ≡ some op' → Plausible op'
unfolding take_flags
take_flags-Plausible [] op op' h e = let same : op ≡ op' = ground arith in subst Plausible same h
take_flags-Plausible (c ∷ cs) op op' h e = elim (Option-cases (take_flag c op)) [
  | inl bad ↦ absurd (ground (arith, bad))
  | inr (next, good) ↦
      take_flags-Plausible cs next op' (take_flag-Plausible c op next h good)
        (rw (take_flags, good) at e)
]

-- What the flags are after the checks.
record Checked (f : Flags) : Type 0 where
  global_rewrites : f.global ≡ true → f.rewrite ≡ true
  sed_global : f.sedg ≡ true → f.global ≡ true
  rewrites : f.rewrite ≡ true → (f.inverse ≡ false) × (f.abort ≡ false) × (f.jump ≡ false)
  aborts : f.abort ≡ true → (f.jump ≡ false) × (f.restart ≡ false)
  exits : (f.exit || f.hasfile) ≡ true → (f.abort ≡ false) × (f.jump ≡ false) × (f.restart ≡ false)
  exits_once : f.exit ≡ true → f.hasfile ≡ false
  labelled : f.label ≡ f.noregex

strip_global-Checked :
    (op : Operation) → Plausible op → bad_combo op.flags ≡ false → Checked (strip_global op.flags)
unfolding bad_combo strip_global
strip_global-Checked op (g, l) good = record {
  global_rewrites = λ e. ground arith;
  sed_global = λ e. ground arith;
  rewrites = λ e. (ground arith, ground arith, ground arith);
  aborts = λ e. (ground arith, ground arith);
  exits = λ e. (ground arith, ground arith, ground arith);
  exits_once = λ e. ground arith;
  labelled = ground arith;
}

module _ (loc : Locale) (re : Regex) where
  open re use {Rx, regcomp}

  with_regex :
      (lineno : ℕ) (f : Flags) (rx : Option Rx) (pattern : List ℕ)
      → Checked f
      → ((f.noregex ≡ true) × (rx ≡ none)) ⊎ ((f.noregex ≡ false) × ((x : Rx) × (rx ≡ some x)))
      → IsValid (record { line = lineno; flags = f; rx = rx; pattern = pattern })
  with_regex lineno f rx pattern h c = record {
    compiled = elim c [
      | inl (n, e) ↦ inl (h.labelled ∙ n, n, e)
      | inr (n, e) ↦ inr (h.labelled ∙ n, n, e)
    ];
    global_rewrites = h.global_rewrites;
    sed_global = h.sed_global;
    rewrites = h.rewrites;
    aborts = h.aborts;
    exits = h.exits;
    exits_once = h.exits_once;
  }

  abbrev Fine : ParsedLine Rx → Type 0
  Fine no_rule = Unit
  Fine parse_error = Unit
  Fine (parsed r) = IsValid r

  parse_rest-IsValid :
      (lineno : ℕ) (op : Operation) (line : List ℕ)
      → Plausible op
      → Fine (parse_rest loc re lineno op line)
  unfolding parse_rest
  parse_rest-IsValid lineno op line h =
      let word = readescstring loc line in
      elim (Bool-cases (bad_combo op.flags)) [
        | inl bad ↦ rw bad tt
        | inr good ↦
            let flags = strip_global-Checked op h good in
            elim (Bool-cases (strip_global op.flags).noregex) [
              | inl label ↦
                  rw (good, label)
                    (with_regex lineno (strip_global op.flags) none word.0 flags
                      (inl (label, refl)))
              | inr rule ↦ elim (Bool-cases (no_string word.0)) [
                | inl missing ↦ rw (good, rule, missing) tt
                | inr there ↦ elim (Option-cases (regcomp word.0 op.icase op.nosub)) [
                  | inl bad ↦ rw (good, rule, there, bad) tt
                  | inr (rx, fine) ↦
                      rw (good, rule, there, fine)
                        (with_regex lineno (strip_global op.flags) (some rx)
                          (readescstring loc word.1).0 flags (inr (rule, (rx, refl))))
                ]
              ]
            ]
      ]

  parseline-Fine : (line : List ℕ) (lineno : ℕ) → Fine (parseline loc re line lineno)
  unfolding parseline
  parseline-Fine line lineno =
      let word = readescstring loc line in
      let labelled = record no_flags { label = true; noregex = true } in
      elim (Bool-cases (no_string word.0)) [
        | inl empty ↦ rw empty tt
        | inr there ↦ elim (Bool-cases (first_byte word.0 == b':')) [
          | inl colon ↦ elim (Bool-cases (no_string (rest_of word.0))) [
            | inl short ↦
                rw (there, colon, short)
                  (parse_rest-IsValid lineno
                    (record { flags = labelled; icase = false; nosub = false }) word.1
                    (λ e. absurd (ground arith), refl))
            | inr named ↦ rw (there, colon, named) label
          ]
          | inr rule ↦
              elim (Option-cases
                (take_flags word.0 (record { flags = no_flags; icase = false; nosub = false }))) [
                  | inl bad ↦ rw (there, rule, bad) tt
                  | inr (op, good) ↦
                      rw (there, rule, good)
                        (parse_rest-IsValid lineno op word.1 (
                          take_flags-Plausible word.0 _ op (λ e. absurd (ground arith), refl) good))
                ]
        ]
      ]
    where
      label : IsValid {Rx = Rx} (record {
        line = lineno;
        flags = record no_flags { label = true; noregex = true };
        rx = none;
        pattern = rest_of (readescstring loc line).0;
      })
      label = record {
        compiled = inl (refl, refl, refl);
        global_rewrites = λ e. absurd (ground arith);
        sed_global = λ e. absurd (ground arith);
        rewrites = λ e. absurd (ground arith);
        aborts = λ e. absurd (ground arith);
        exits = λ e. absurd (ground arith);
        exits_once = λ e. absurd (ground arith);
      }

  keep_rule-All :
      (p : ParsedLine Rx) (a : List (Rule Rx) × Bool)
      → Fine p
      → All IsValid a.0
      → All IsValid (keep_rule loc re p a).0
  keep_rule-All no_rule a f h = h
  keep_rule-All parse_error a f h = h
  keep_rule-All (parsed r) a f h = (f, h)

  rule_lines-All :
      (rounds lineno : ℕ) (f : List ℕ) → All IsValid (rule_lines loc re rounds lineno f).0
  unfolding rule_lines
  rule_lines-All zero lineno f = tt
  rule_lines-All (suc rounds) lineno f = elim (Option-cases (read_line loc re f)) [
    | inl end ↦
        let step : rule_lines loc re (suc rounds) lineno f ≡ ([], false) = ground (arith, end) in
        subst (λ (a : List (Rule Rx) × Bool). All IsValid a.0) (sym step) tt
    | inr ((line, rest), more) ↦
        let later = rule_lines loc re rounds ((lineno + 1) % 2 ^ 32) rest in
        let step : rule_lines loc re (suc rounds) lineno f
            ≡ keep_rule loc re (parseline loc re line lineno) later =
          ground (arith, more) in
        subst (λ (a : List (Rule Rx) × Bool). All IsValid a.0) (sym step)
          (keep_rule-All (parseline loc re line lineno) later (parseline-Fine line lineno)
            (rule_lines-All rounds ((lineno + 1) % 2 ^ 32) rest))
  ]

  -- Every rule of a file that parserulefile accepts is a label without an expression or has one
  -- that regcomp has compiled; "g" is there with "r" only and the second one with the first one
  -- only; "r" is there without "~", "a" and "j"; "a" without "j" and "s"; "e" and "E" without
  -- "a", "j" and "s"; and "e" without "E".
  pub parserulefile-IsValid :
      (f : List ℕ) {rules : List (Rule Rx)}
      → parserulefile loc re f ≡ some rules
      → All IsValid rules
  unfolding parserulefile
  parserulefile-IsValid f {rules} e =
      let got = rule_lines loc re (length f) 1 f in
      let same : got.0 ≡ rules = ground arith in
      subst (All IsValid) same (rule_lines-All (length f) 1 f)
