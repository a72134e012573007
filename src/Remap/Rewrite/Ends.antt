-- ===== src/Remap/Rewrite/Ends.antt =====
-- The rounds that rewrite_string() of tftpd/remap.c takes.
use network_tftp_tftp_hpa.Prelude.{
  ℕ, zero, suc, ◌+◌, ◌*◌, ◌≤◌, ◌<◌, ◌≡◌, ◌≢◌, ◌⊎◌, refl, sym, ap, subst, Bool, ◌&&◌, ◌||◌, Option,
  none, some, List, [], ◌∷◌, arith, length, Bool-cases, Option-cases, inl, inr,
}
use native.Mathlib.Nat.{mul-le-mul_right}
use network_tftp_tftp_hpa.Remap.{Locale, Regex, RegMatch, Rule}
use network_tftp_tftp_hpa.Remap.Expand.{Generated, genmatchstring}
use network_tftp_tftp_hpa.Remap.Expand.Ends.{Converts, do_genmatchstring_ends}
use network_tftp_tftp_hpa.Remap.Rewrite.{
  Mapped, hung, Loop, rewritten, loop_dead, loop_failed, loop_hung, Step, go, done, RequestMode,
  AddressFamily, written_or, next_or, match_rule, after_round, loop_round, rewrite_loop, skipped,
  find_label, message_of, leave, after_rewrite, after_loop, apply_rule, rule_step, run_rules,
  rewrite_string,
}

module _ (loc : Locale) (convert : Converts loc) (macrosub : ℕ → Option (List ℕ)) where
  genmatchstring_ends :
      (pattern ibuf : List ℕ) (pmatch : List RegMatch) (start : Option ℕ)
      → (g : Generated) × (genmatchstring loc (length pattern) pattern ibuf pmatch macrosub start
          ≡ some g)
  unfolding genmatchstring
  genmatchstring_ends pattern ibuf pmatch start =
      let (g, first) = do_genmatchstring_ends loc convert pattern ibuf none pmatch macrosub start in
      let (g', second) =
        do_genmatchstring_ends loc convert pattern ibuf (some []) pmatch macrosub start in
      elim (Option-cases g.size) [
        | inl bad ↦
            (record { size = none; written = none; next = none }, ground (arith, first, bad))
        | inr (len, good) ↦ (g', ground (arith, first, second, good))
      ]

  module _ (re : Regex) where
    open re use {Rx}

    -- The rewriting of a rule comes to an end and does not add to the deadman.
    Ended : (deadman : ℕ) → Loop → Type 0
    Ended d (rewritten s d' pmatch) = d' ≤ d
    Ended d loop_dead = Unit
    Ended d loop_failed = Unit
    Ended d loop_hung = ⊥

    Ended-failed : (d : ℕ) → Ended d loop_failed
    unfolding Ended
    Ended-failed d = tt

    Ended-dead : (d : ℕ) → Ended d loop_dead
    unfolding Ended
    Ended-dead d = tt

    after_round-Ended :
        (r : Rule Rx) (newer : List ℕ) (len next d : ℕ) (pmatch : List RegMatch)
        (again : List ℕ → ℕ → List RegMatch → Loop)
        → ((s : List ℕ) (n : ℕ) (m : List RegMatch) → Ended d (again s n m))
        → Ended d (after_round loc re macrosub r newer len next d pmatch again)
    unfolding after_round Ended
    after_round-Ended r newer len next d pmatch again h = grind (arith, h)

    loop_round-Ended :
        (d : ℕ) (r : Rule Rx) (s : List ℕ) (gg : ℕ) (pmatch : List RegMatch)
        (again : List ℕ → ℕ → List RegMatch → Loop)
        → ((s : List ℕ) (n : ℕ) (m : List RegMatch) → Ended d (again s n m))
        → Ended d (loop_round loc re macrosub d r s gg pmatch again)
    unfolding loop_round
    loop_round-Ended d r s gg pmatch again h =
        let (g, e) = genmatchstring_ends r.pattern s pmatch (some gg) in
        elim (Option-cases g.size) [
          | inl bad ↦
              let step : loop_round loc re macrosub d r s gg pmatch again ≡ loop_failed =
                ground (arith, e, bad) in
              subst (Ended d) (sym step) (Ended-failed d)
          | inr (len, good) ↦
              let step : loop_round loc re macrosub d r s gg pmatch again
                  ≡ after_round loc re macrosub r (written_or g s) len (next_or g gg) d pmatch
                      again =
                ground (arith, e, good) in
              subst (Ended d) (sym step)
                (after_round-Ended r (written_or g s) len (next_or g gg) d pmatch again h)
        ]

    Ended-le : (d d' : ℕ) (l : Loop) → d' ≤ d → Ended d' l → Ended d l
    unfolding Ended
    Ended-le d d' (rewritten s d'' pmatch) h e = omega arith
    Ended-le d d' loop_dead h e = tt
    Ended-le d d' loop_failed h e = tt
    Ended-le d d' loop_hung h e = e

    rewrite_loop-Ended :
        (d : ℕ) (r : Rule Rx) (s : List ℕ) (gg : ℕ) (pmatch : List RegMatch)
        → Ended d (rewrite_loop loc re macrosub d r s gg pmatch)
    unfolding rewrite_loop
    rewrite_loop-Ended zero r s gg pmatch =
        loop_round-Ended zero r s gg pmatch _ (λ s n m. Ended-dead zero)
    rewrite_loop-Ended (suc d) r s gg pmatch =
        loop_round-Ended (suc d) r s gg pmatch _
          (λ s n m. Ended-le (suc d) d _ (omega arith) (rewrite_loop-Ended d r s n m))

    module _ (rules : List (Rule Rx)) (invalid : List ℕ → Bool) (mode : RequestMode)
        (af : AddressFamily) where
      -- A rule leads to the next one, or anywhere at the cost of a step, or to an end.
      Moves : (rest : List (Rule Rx)) → (deadman : ℕ) → Step Rx → Type 0
      Moves rest d (go next current d') =
          ((next ≡ rest) × (d' ≤ d)) ⊎ ((length next ≤ length rules) × (d' < d))
      Moves rest d (done o) = o ≢ hung

      find_label-length :
          (l : List ℕ) (rs target : List (Rule Rx))
          → find_label loc re macrosub rules invalid mode af l rs ≡ some target
          → length target ≤ length rs
      unfolding find_label
      find_label-length l [] target e = absurd (ground arith)
      find_label-length l (r ∷ rs) target e = ground (arith, find_label-length l rs target)

      leave-Moves :
          (r : Rule Rx) (rest : List (Rule Rx)) (current : List ℕ) (left d : ℕ)
          (message : Option (List ℕ))
          → left < d
          → Moves rest d (leave loc re macrosub rules invalid mode af r rest current left message)
      unfolding leave Moves
      leave-Moves r rest current left d none h = ground arith
      leave-Moves r rest current left d (some l) h =
          elim (Option-cases (find_label loc re macrosub rules invalid mode af l rules)) [
            | inl missing ↦ ground (arith, missing)
            | inr (target, found) ↦ ground (arith, found, find_label-length l rules target found)
          ]

      go-Moves :
          (rest : List (Rule Rx)) (current : List ℕ) (left d : ℕ)
          → left ≤ d
          → Moves rest d (go rest current left)
      unfolding Moves
      go-Moves rest current left d h = inl (refl, h)

      failed-Moves : (rest : List (Rule Rx)) (d : ℕ) (o : Mapped) → o ≢ hung → Moves rest d (done o)
      unfolding Moves
      failed-Moves rest d o h = h

      after_rewrite-Moves :
          (r : Rule Rx) (rest : List (Rule Rx)) (current newstr : List ℕ) (left d : ℕ)
          (pmatch : List RegMatch)
          → left < d
          → Moves rest d (
              after_rewrite loc re macrosub rules invalid mode af r rest current newstr left pmatch)
      unfolding after_rewrite
      after_rewrite-Moves r rest current newstr left d pmatch h =
          elim (Bool-cases (r.flags.hasfile && invalid newstr)) [
            | inl bad ↦ rw bad (go-Moves rest current left d (omega arith))
            | inr fine ↦ elim (Bool-cases (r.flags.abort || r.flags.jump)) [
              | inr plain ↦ rw (fine, plain) (leave-Moves r rest newstr left d none h)
              | inl special ↦
                  let (g, e) = genmatchstring_ends r.pattern newstr pmatch none in
                  let step : after_rewrite loc re macrosub rules invalid mode af r rest current
                        newstr left pmatch
                      ≡ leave loc re macrosub rules invalid mode af r rest newstr left
                          (message_of loc re macrosub rules invalid mode af g) =
                    ground (arith, fine, special, e) in
                  subst (Moves rest d) (sym step) (leave-Moves r rest newstr left d _ h)
            ]
          ]

      after_loop-Moves :
          (r : Rule Rx) (rest : List (Rule Rx)) (current : List ℕ) (left d : ℕ) (l : Loop)
          → left < d
          → Ended left l
          → Moves rest d (after_loop loc re macrosub rules invalid mode af r rest current l)
      unfolding Ended
      after_loop-Moves r rest current left d (rewritten s d' pmatch) h e =
          after_rewrite-Moves r rest current s d' d pmatch (omega arith)
      after_loop-Moves r rest current left d loop_dead h e =
          failed-Moves rest d _ (λ x. absurd (ground arith))
      after_loop-Moves r rest current left d loop_failed h e =
          failed-Moves rest d _ (λ x. absurd (ground arith))
      after_loop-Moves r rest current left d loop_hung h e = elim e [ ]

      apply_rule-Moves :
          (r : Rule Rx) (rest : List (Rule Rx)) (current : List ℕ) (left d : ℕ)
          → left < d
          → Moves rest d (apply_rule loc re macrosub rules invalid mode af r rest current left)
      unfolding apply_rule
      apply_rule-Moves r rest current left d h =
          elim (Option-cases (match_rule loc re macrosub r current 0)) [
            | inl other ↦
                let step : apply_rule loc re macrosub rules invalid mode af r rest current left
                    ≡ go rest current left =
                  ground (arith, other) in
                subst (Moves rest d) (sym step) (go-Moves rest current left d (omega arith))
            | inr (pmatch, hit) ↦
                let loop = rewrite_loop loc re macrosub left r current 0 pmatch in
                elim (Bool-cases r.flags.rewrite) [
                  | inl on ↦
                      let step : apply_rule loc re macrosub rules invalid mode af r rest current
                            left
                          ≡ after_loop loc re macrosub rules invalid mode af r rest current loop =
                        ground (arith, hit, on) in
                      subst (Moves rest d) (sym step) (
                        after_loop-Moves r rest current left d loop h
                          (rewrite_loop-Ended left r current 0 pmatch))
                  | inr off ↦
                      let step : apply_rule loc re macrosub rules invalid mode af r rest current
                            left
                          ≡ after_rewrite loc re macrosub rules invalid mode af r rest current
                              current left pmatch =
                        ground (arith, hit, off) in
                      subst (Moves rest d) (sym step)
                        (after_rewrite-Moves r rest current current left d pmatch h)
                ]
          ]

      rule_step-Moves :
          (r : Rule Rx) (rest : List (Rule Rx)) (current : List ℕ) (d : ℕ)
          → Moves rest d (rule_step loc re macrosub rules invalid mode af r rest current d)
      unfolding rule_step
      rule_step-Moves r rest current zero =
          elim (Bool-cases (skipped loc re macrosub rules invalid mode af r.flags)) [
            | inl skip ↦ rw skip (go-Moves rest current zero zero (omega arith))
            | inr hit ↦ rw hit (failed-Moves rest zero _ (λ x. absurd (ground arith)))
          ]
      rule_step-Moves r rest current (suc left) =
          elim (Bool-cases (skipped loc re macrosub rules invalid mode af r.flags)) [
            | inl skip ↦ rw skip (go-Moves rest current (suc left) (suc left) (omega arith))
            | inr hit ↦ rw hit (apply_rule-Moves r rest current left (suc left) (omega arith))
          ]

      -- What is left of the rounds after a step is enough.
      continue :
          (rounds : ℕ) (rest : List (Rule Rx)) (d : ℕ) (s : Step Rx)
          → Moves rest d s
          → d * (length rules + 1) + length rest < rounds
          → ((ptr : List (Rule Rx)) (current : List ℕ) (d' : ℕ)
              → d' * (length rules + 1) + length ptr < rounds
              → run_rules loc re macrosub rules invalid mode af rounds ptr current d' ≢ hung)
          → (elim s [
            | done o ↦ o
            | go next current' d' ↦
                run_rules loc re macrosub rules invalid mode af rounds next current' d'
          ])
            ≢ hung
      unfolding Moves
      continue rounds rest d (done o) m h later = m
      continue rounds rest d (go next current d') (inl (e, le)) h later =
          let n = ap length e in
          let less = mul-le-mul_right (length rules + 1) le in later next current d' (omega arith)
      continue rounds rest d (go next current d') (inr (short, lt)) h later =
          let le : suc d' ≤ d = omega arith in
          let less = mul-le-mul_right (length rules + 1) le in later next current d' (omega arith)

      run_rules-ne_hung :
          (rounds : ℕ) (ptr : List (Rule Rx)) (current : List ℕ) (d : ℕ)
          → d * (length rules + 1) + length ptr < rounds
          → run_rules loc re macrosub rules invalid mode af rounds ptr current d ≢ hung
      unfolding run_rules
      run_rules-ne_hung zero ptr current d h = absurd (omega arith)
      run_rules-ne_hung (suc rounds) [] current d h = λ x. absurd (ground arith)
      run_rules-ne_hung (suc rounds) (r ∷ rest) current d h =
          continue rounds rest d (rule_step loc re macrosub rules invalid mode af r rest current d)
            (rule_step-Moves r rest current d) (omega arith) (run_rules-ne_hung rounds)

  -- In a locale in which mbrtowc reads a character at the start of every string that is not empty
  -- (the C locale and those of one byte a character; not one for UTF-8, where genmatchstring can
  -- hang), rewrite_string comes to an end, whatever the rules, the regular expressions and the macros
  -- are: with map_steps steps, (map_steps + 1) * (n + 1) rounds of its loop over n rules are enough.
  pub rewrite_string-ne_hung :
      (re : Regex) (rules : List (Rule re.Rx)) (invalid : List ℕ → Bool) (mode : RequestMode)
      (af : AddressFamily) (map_steps : ℕ) (input : List ℕ)
      → rewrite_string loc re macrosub rules invalid mode af
          ((map_steps + 1) * (length rules + 1))
          map_steps
          input
        ≢ hung
  unfolding rewrite_string
  rewrite_string-ne_hung re [] invalid mode af map_steps input = λ x. absurd (ground arith)
  rewrite_string-ne_hung re (r ∷ rest) invalid mode af map_steps input =
      run_rules-ne_hung re (r ∷ rest) invalid mode af _ (r ∷ rest) input map_steps (omega arith)
