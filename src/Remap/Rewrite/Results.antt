-- ===== src/Remap/Rewrite/Results.antt =====
-- What rewrite_string() of tftpd/remap.c makes of a name.
use network_tftp_tftp_hpa.Prelude.{
  ℕ, zero, suc, ◌≤◌, ◌<◌, ◌≡◌, ◌⊎◌, refl, ap, ◌∙◌, Bool, true, false, ◌||◌, Option, none, some,
  List, [], ◌∷◌, All, arith, length, Bool-cases, Option-cases, inl, inr,
}
use network_tftp_tftp_hpa.Remap.{Locale, Regex, RegMatch, Rule}
use network_tftp_tftp_hpa.Remap.Expand.{genmatchstring}
use network_tftp_tftp_hpa.Remap.Rewrite.{
  name, Loop, rewritten, loop_dead, loop_failed, loop_hung, go, done, RequestMode, AddressFamily,
  match_rule, rewrite_loop, skipped, find_label, message_of, leave, after_rewrite, after_loop,
  apply_rule, rule_step, run_rules, rewrite_string,
}

module _ (loc : Locale) (re : Regex) (macrosub : ℕ → Option (List ℕ)) (rules : List (Rule re.Rx))
    (invalid : List ℕ → Bool) (mode : RequestMode) (af : AddressFamily) where
  open re use {Rx}

  -- A rule for other requests, or one that does not match.
  abbrev pub Passes : List ℕ → Rule Rx → Type 0
  Passes input r =
      (skipped loc re macrosub rules invalid mode af r.flags ≡ true)
      ⊎ (match_rule loc re macrosub r input 0 ≡ none)

  -- It leads to the next one, and costs a step at most.
  rule_step-Passes :
      (r : Rule Rx) (rest : List (Rule Rx)) (input : List ℕ) (d : ℕ)
      → Passes input r
      → (d' : ℕ) × (rule_step loc re macrosub rules invalid mode af r rest input (suc d)
          ≡ go rest input d')
        × (d ≤ d')
  unfolding rule_step apply_rule
  rule_step-Passes r rest input d (inl skip) = (suc d, ground (arith, skip), omega arith)
  rule_step-Passes r rest input d (inr other) =
      elim (Bool-cases (skipped loc re macrosub rules invalid mode af r.flags)) [
        | inl skip ↦ (suc d, ground (arith, skip), omega arith)
        | inr on ↦ (d, ground (arith, on, other), omega arith)
      ]

  run_rules-Passes :
      (rounds : ℕ) (rs : List (Rule Rx)) (input : List ℕ) (d : ℕ)
      → All (Passes input) rs
      → length rs < rounds
      → length rs ≤ d
      → run_rules loc re macrosub rules invalid mode af rounds rs input d ≡ name input
  unfolding run_rules
  run_rules-Passes zero rs input d h n k = absurd (omega arith)
  run_rules-Passes (suc rounds) [] input d h n k = refl
  run_rules-Passes (suc rounds) (r ∷ rs) input zero h n k = absurd (omega arith)
  run_rules-Passes (suc rounds) (r ∷ rs) input (suc d) h n k =
      let (d', step, le) = rule_step-Passes r rs input d h.0 in
      let round : run_rules loc re macrosub rules invalid mode af (suc rounds) (r ∷ rs) input
            (suc d)
          ≡ run_rules loc re macrosub rules invalid mode af rounds rs input d' =
        ground (arith, step) in
      round ∙ run_rules-Passes rounds rs input d' h.1 (omega arith) (omega arith)

  leave-name :
      (r : Rule Rx) (rest : List (Rule Rx)) (current s : List ℕ) (d : ℕ) (message : Option (List ℕ))
      → leave loc re macrosub rules invalid mode af r rest current d message ≡ done (name s)
      → s ≡ current
  unfolding leave
  leave-name r rest current s d none e = ground arith
  leave-name r rest current s d (some l) e =
      elim (Option-cases (find_label loc re macrosub rules invalid mode af l rules)) [
        | inl missing ↦ ground (arith, missing)
        | inr (target, found) ↦ ground (arith, found)
      ]

  after_rewrite-valid :
      (r : Rule Rx) (rest : List (Rule Rx)) (current newstr s : List ℕ) (d : ℕ)
      (pmatch : List RegMatch)
      → r.flags.hasfile ≡ true
      → after_rewrite loc re macrosub rules invalid mode af r rest current newstr d pmatch
        ≡ done (name s)
      → invalid s ≡ false
  unfolding after_rewrite
  after_rewrite-valid r rest current newstr s d pmatch file e = elim (Bool-cases (invalid newstr)) [
    | inl bad ↦ absurd (ground (arith, file, bad))
    | inr good ↦ elim (Bool-cases (r.flags.abort || r.flags.jump)) [
      | inr plain ↦
          let same = leave-name r rest newstr s d none (ground (arith, file, good, plain)) in
          ap invalid same ∙ good
      | inl special ↦
          elim (Option-cases
            (genmatchstring loc (length r.pattern) r.pattern newstr pmatch macrosub none)) [
              | inl out ↦ absurd (ground (arith, file, good, special, out))
              | inr (g, got) ↦
                  let same =
                    leave-name r rest newstr s d
                      (message_of loc re macrosub rules invalid mode af g)
                      (ground (arith, file, good, special, got)) in
                  ap invalid same ∙ good
            ]
    ]
  ]

  after_loop-valid :
      (r : Rule Rx) (rest : List (Rule Rx)) (current s : List ℕ) (l : Loop)
      → r.flags.hasfile ≡ true
      → after_loop loc re macrosub rules invalid mode af r rest current l ≡ done (name s)
      → invalid s ≡ false
  after_loop-valid r rest current s (rewritten newstr d pmatch) file e =
      after_rewrite-valid r rest current newstr s d pmatch file e
  after_loop-valid r rest current s loop_dead file e = absurd (ground arith)
  after_loop-valid r rest current s loop_failed file e = absurd (ground arith)
  after_loop-valid r rest current s loop_hung file e = absurd (ground arith)

  -- With a flag E, a rule ends the processing with no name but one with which f_validate finds no
  -- fault.
  pub rule_step-valid :
      (r : Rule Rx) (rest : List (Rule Rx)) (current s : List ℕ) (deadman : ℕ)
      → r.flags.hasfile ≡ true
      → rule_step loc re macrosub rules invalid mode af r rest current deadman ≡ done (name s)
      → invalid s ≡ false
  unfolding rule_step apply_rule
  rule_step-valid r rest current s zero file e = absurd (ground arith)
  rule_step-valid r rest current s (suc left) file e =
      elim (Bool-cases (skipped loc re macrosub rules invalid mode af r.flags)) [
        | inl skip ↦ absurd (ground (arith, skip))
        | inr on ↦ elim (Option-cases (match_rule loc re macrosub r current 0)) [
          | inl other ↦ absurd (ground (arith, on, other))
          | inr (pmatch, hit) ↦ elim (Bool-cases r.flags.rewrite) [
            | inl rewrites ↦
                after_loop-valid r rest current s
                  (rewrite_loop loc re macrosub left r current 0 pmatch) file
                  (ground (arith, on, hit, rewrites))
            | inr plain ↦
                after_rewrite-valid r rest current current s left pmatch file
                  (ground (arith, on, hit, plain))
          ]
        ]
      ]

-- If every rule is for other requests or does not match the name, rewrite_string returns it as it
-- is, with a step and a round for each rule.
rewrite_string-unmatched :
    (loc : Locale) (re : Regex) (macrosub : ℕ → Option (List ℕ)) (rules : List (Rule re.Rx))
    (invalid : List ℕ → Bool) (mode : RequestMode) (af : AddressFamily) (rounds map_steps : ℕ)
    (input : List ℕ)
    → All (Passes loc re macrosub rules invalid mode af input) rules
    → length rules < rounds
    → length rules ≤ map_steps
    → rewrite_string loc re macrosub rules invalid mode af rounds map_steps input ≡ name input
unfolding rewrite_string
rewrite_string-unmatched loc re macrosub [] invalid mode af rounds map_steps input h n k = refl
rewrite_string-unmatched loc re macrosub (r ∷ rest) invalid mode af rounds map_steps input h n k =
    run_rules-Passes loc re macrosub (r ∷ rest) invalid mode af rounds (r ∷ rest) input map_steps h
      n k
