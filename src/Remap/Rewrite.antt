-- ===== src/Remap/Rewrite.antt =====
-- tftpd/remap.c: rewrite_string(), the application of the rules to a file name.
pub mod Ends
pub mod Results
use network_tftp_tftp_hpa.Prelude.{
  ℕ, zero, suc, ◌+◌, ◌*◌, Bool, true, false, not, ◌&&◌, ◌||◌, Option, none, some, List, [], ◌∷◌,
  length, leb, ltb, ◌==◌, get_or, drop, if◌then◌else◌,
}
use network_tftp_tftp_hpa.Remap.{
  Locale, Regex, RegMatch, Exec, matched, no_match, exec_error, Flags, Rule,
}
use network_tftp_tftp_hpa.Remap.Expand.{Generated, genmatchstring}

-- int mode and int af, as far as they are compared.
pub data RequestMode : Type 0 where
  rrq wrq other_mode : RequestMode

pub data AddressFamily : Type 0 where
  inet inet6 other_family : AddressFamily

-- *errmsg where NULL is returned: the default text, or what an abort rule gives, perhaps NULL.
pub data ErrMsg : Type 0 where
  table_failure : ErrMsg
  given : Option (List ℕ) → ErrMsg

-- What rewrite_string comes to: a name, NULL, or no end within the rounds.
pub data Mapped : Type 0 where
  name : List ℕ → Mapped
  failed : ErrMsg → Mapped
  hung : Mapped

-- What the rewriting of one rule comes to: newstr, deadman and pmatch[]; an expired deadman; a
-- failed conversion; or no end.
pub data Loop : Type 0 where
  rewritten : List ℕ → (deadman : ℕ) → List RegMatch → Loop
  loop_dead loop_failed loop_hung : Loop

-- Where one rule leaves the outer loop: the next rule, current and deadman, or a return.
pub data Step (Rx : Type 0) : Type 0 where
  go : List (Rule Rx) → (current : List ℕ) → (deadman : ℕ) → Step Rx
  done : Mapped → Step Rx

abbrev pub string_eq : List ℕ → List ℕ → Bool
string_eq [] [] = true
string_eq [] (y ∷ ys) = false
string_eq (x ∷ xs) [] = false
string_eq (x ∷ xs) (y ∷ ys) = x == y && string_eq xs ys

abbrev pub written_or : Generated → List ℕ → List ℕ
written_or g s = elim g.written [ none ↦ s | some w ↦ w ]

abbrev pub next_or : Generated → ℕ → ℕ
next_or g n = elim g.next [ none ↦ n | some k ↦ k ]

module _ (loc : Locale) (re : Regex) (macrosub : ℕ → Option (List ℕ)) where
  open re use {Rx, regexec}

  -- regexec() with the pmatches of the rule, on the string from `offset` on. What is not skipped has
  -- an expression.
  unfoldable pub execute : Rule Rx → List ℕ → (offset : ℕ) → Exec
  execute r string offset = elim r.rx [
    | none ↦ exec_error
    | some rx ↦ regexec rx (drop offset string) (if r.flags.inverse then 0 else 10) (ltb 0 offset)
  ]

  -- Whether the result is matchsense, and then pmatch[]: all -1 for an inverse rule.
  abbrev pub sensed : (inverse : Bool) → Exec → Option (List RegMatch)
  sensed false (matched pmatch) = some pmatch
  sensed false no_match = none
  sensed false exec_error = none
  sensed true (matched pmatch) = none
  sensed true no_match = some []
  sensed true exec_error = none

  unfoldable pub match_rule : Rule Rx → List ℕ → (offset : ℕ) → Option (List RegMatch)
  unfolding execute
  match_rule r string offset = sensed r.flags.inverse (execute r string offset)

  -- A round of the rewriting loop, after genmatchstring() has given `newer` of `len` bytes:
  -- `again` goes on with the next round.
  unfoldable pub after_round :
      Rule Rx
      → (newer : List ℕ) → (len next deadman : ℕ) → List RegMatch
      → (again : List ℕ → ℕ → List RegMatch → Loop) → Loop
  unfolding match_rule
  after_round r newer len next deadman pmatch again =
      let offset = if r.flags.sedg then next else 0 in
      if not r.flags.global || (r.flags.sedg && leb len next)
      then rewritten newer deadman pmatch
      else elim (match_rule r newer offset) [
        | none ↦ rewritten newer deadman []
        | some pmatch' ↦ again newer offset pmatch'
      ]

  -- genmatchstring() is given a round for each byte of the pattern.
  unfoldable pub loop_round :
      (deadman : ℕ)
      → Rule Rx
      → (newstr : List ℕ) → (ggoffset : ℕ) → List RegMatch
      → (again : List ℕ → ℕ → List RegMatch → Loop) → Loop
  unfolding after_round genmatchstring
  loop_round deadman r newstr ggoffset pmatch again =
      elim (genmatchstring loc (length r.pattern) r.pattern newstr pmatch macrosub
        (some ggoffset)) [
          | none ↦ loop_hung
          | some g ↦ elim g.size [
            | none ↦ loop_failed
            | some len ↦
                after_round r (written_or g newstr) len (next_or g ggoffset) deadman pmatch again
          ]
        ]

  -- The rewriting loop: each round but the first takes a step off the deadman.
  unfoldable pub rewrite_loop :
      (deadman : ℕ) → Rule Rx → (newstr : List ℕ) → (ggoffset : ℕ) → List RegMatch → Loop
  unfolding loop_round
  rewrite_loop zero r newstr ggoffset pmatch =
      loop_round zero r newstr ggoffset pmatch (λ newer offset pmatch'. loop_dead)
  rewrite_loop (suc left) r newstr ggoffset pmatch =
      loop_round (suc left) r newstr ggoffset pmatch
        (λ newer offset pmatch'. rewrite_loop left r newer offset pmatch')

  -- The rules as a whole, and pf->f_validate(): whether it finds fault with a name.
  module _ (rules : List (Rule Rx)) (invalid : List ℕ → Bool) (mode : RequestMode)
      (af : AddressFamily) where
    -- rule_flags & bad_flags
    unfoldable pub skipped : Flags → Bool
    skipped f =
        let is_rrq : Bool = elim mode [ rrq ↦ true | wrq ↦ false | other_mode ↦ false ] in
        let is_wrq : Bool = elim mode [ rrq ↦ false | wrq ↦ true | other_mode ↦ false ] in
        let is_inet : Bool = elim af [ inet ↦ true | inet6 ↦ false | other_family ↦ false ] in
        let is_inet6 : Bool = elim af [ inet ↦ false | inet6 ↦ true | other_family ↦ false ] in
        f.label
        || f.noregex
        || (f.rrq && not is_rrq)
        || (f.wrq && not is_wrq)
        || (f.ipv4 && not is_inet)
        || (f.ipv6 && not is_inet6)

    -- The rules from the label on.
    unfoldable pub find_label : List ℕ → List (Rule Rx) → Option (List (Rule Rx))
    find_label l [] = none
    find_label l (r ∷ rest) =
        let later = find_label l rest in
        if r.flags.label && string_eq l r.pattern then some (r ∷ rest) else later

    -- The new string of an abort or a jump; none for NULL.
    abbrev pub message_of : Generated → Option (List ℕ)
    message_of g = elim g.size [ none ↦ none | some len ↦ if len == 0 then none else g.written ]

    -- What a rule does at last, with the string that it has made for an abort or a jump.
    unfoldable pub leave :
        Rule Rx
        → (rest : List (Rule Rx)) → (current : List ℕ) → (deadman : ℕ) → Option (List ℕ)
        → Step Rx
    unfolding find_label
    leave r rest current deadman message =
        if r.flags.abort
        then done (failed (given message))
        else if r.flags.exit || r.flags.hasfile
        then done (name current)
        else if r.flags.restart
        then go rules current deadman
        else if r.flags.jump
        then elim message [
          | none ↦ done (failed table_failure)
          | some l ↦ elim (find_label l rules) [
            | none ↦ done (failed table_failure)
            | some target ↦ go target current deadman
          ]
        ]
        else go rest current deadman

    -- From the check of the new string to the next rule.
    unfoldable pub after_rewrite :
        Rule Rx
        → (rest : List (Rule Rx)) → (current newstr : List ℕ) → (deadman : ℕ) → List RegMatch
        → Step Rx
    unfolding leave genmatchstring
    after_rewrite r rest current newstr deadman pmatch =
        if r.flags.hasfile && invalid newstr
        then go rest current deadman
        else if r.flags.abort || r.flags.jump
        then elim (genmatchstring loc (length r.pattern) r.pattern newstr pmatch macrosub none) [
          | none ↦ done hung
          | some g ↦ leave r rest newstr deadman (message_of g)
        ]
        else leave r rest newstr deadman none

    -- What the rewriting comes to.
    abbrev pub after_loop : Rule Rx → (rest : List (Rule Rx)) → (current : List ℕ) → Loop → Step Rx
    after_loop r rest current loop_dead = done (failed table_failure)
    after_loop r rest current loop_failed = done (failed table_failure)
    after_loop r rest current loop_hung = done hung
    after_loop r rest current (rewritten newstr deadman pmatch) =
        after_rewrite r rest current newstr deadman pmatch

    -- A rule that is not skipped, with `left` steps left after it.
    unfoldable pub apply_rule :
        Rule Rx → (rest : List (Rule Rx)) → (current : List ℕ) → (left : ℕ) → Step Rx
    unfolding match_rule rewrite_loop after_rewrite
    apply_rule r rest current left = elim (match_rule r current 0) [
      | none ↦ go rest current left
      | some pmatch ↦
          let loop = rewrite_loop left r current 0 pmatch in
          if r.flags.rewrite
          then after_loop r rest current loop
          else after_rewrite r rest current current left pmatch
    ]

    -- A round of the loop over the rules.
    unfoldable pub rule_step :
        Rule Rx → (rest : List (Rule Rx)) → (current : List ℕ) → (deadman : ℕ) → Step Rx
    unfolding skipped apply_rule
    rule_step r rest current deadman =
        if skipped r.flags then go rest current deadman else elim deadman [
          | zero ↦ done (failed table_failure)
          | suc left ↦ apply_rule r rest current left
        ]

    -- The loop over the rules, with at most `rounds` rounds.
    unfoldable pub run_rules :
        (rounds : ℕ) → List (Rule Rx) → (current : List ℕ) → (deadman : ℕ) → Mapped
    unfolding rule_step
    run_rules zero ruleptr current deadman = hung
    run_rules (suc rounds) [] current deadman = name current
    run_rules (suc rounds) (r ∷ rest) current deadman = elim (rule_step r rest current deadman) [
      | done o ↦ o
      | go next current' deadman' ↦ run_rules rounds next current' deadman'
    ]

    -- rewrite_string; without rules the input stays as it is.
    unfoldable pub rewrite_string : (rounds map_steps : ℕ) → (input : List ℕ) → Mapped
    unfolding run_rules
    rewrite_string rounds map_steps input = elim rules [
      | [] ↦ name input
      | r ∷ rest ↦ run_rules rounds (r ∷ rest) input map_steps
    ]
