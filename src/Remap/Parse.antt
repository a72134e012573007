-- ===== src/Remap/Parse.antt =====
-- tftpd/remap.c: readescstring(), parseline(), read_line() and parserulefile().
pub mod Words
pub mod Rules
use network_tftp_tftp_hpa.Prelude.{
  ℕ, zero, suc, ◌+◌, ◌%◌, ◌^◌, Bool, true, false, not, ◌&&◌, ◌||◌, Option, none, some, List, [],
  ◌∷◌, length, ◌==◌, if◌then◌else◌,
}
use network_tftp_tftp_hpa.Text.{first_byte, rest_of}
use network_tftp_tftp_hpa.Remap.{Locale, Regex, Flags, Rule}

abbrev pub no_string : List ℕ → Bool
no_string [] = true
no_string (c ∷ cs) = false

-- What parseline returns: 0, -1, or 1 and the rule.
pub data ParsedLine (Rx : Type 0) : Type 0 where
  no_rule parse_error : ParsedLine Rx
  parsed : Rule Rx → ParsedLine Rx

abbrev pub no_flags : Flags
no_flags = record {
  rewrite = false;
  global = false;
  exit = false;
  restart = false;
  abort = false;
  inverse = false;
  ipv4 = false;
  ipv6 = false;
  hasfile = false;
  rrq = false;
  wrq = false;
  sedg = false;
  jump = false;
  label = false;
  noregex = false;
}

-- r->rule_flags, and REG_ICASE and REG_NOSUB of rxflags
pub record Operation : Type 0 where
  pub flags : Flags
  pub icase : Bool
  pub nosub : Bool

-- The switch on one flag character; none for the invalid ones.
unfoldable pub take_flag : ℕ → Operation → Option Operation
take_flag c op =
    let f = op.flags in
    if c == b'r'
    then some (record op { flags = record f { rewrite = true } })
    else if c == b'g'
    then (if f.global
        then some (record op { flags = record f { sedg = true } })
        else some (record op { flags = record f { global = true } }))
    else if c == b'e'
    then some (record op { flags = record f { exit = true } })
    else if c == b'E'
    then some (record op { flags = record f { hasfile = true } })
    else if c == b's'
    then some (record op { flags = record f { restart = true } })
    else if c == b'a'
    then some (record op { flags = record f { abort = true } })
    else if c == b'j'
    then some (record op { flags = record f { jump = true } })
    else if c == b'i'
    then some (record op { icase = true })
    else if c == b'~'
    then some (record op { flags = record f { inverse = true }; nosub = true })
    else if c == b'4'
    then some (record op { flags = record f { ipv4 = true } })
    else if c == b'6'
    then some (record op { flags = record f { ipv6 = true } })
    else if c == b'G'
    then some (record op { flags = record f { rrq = true } })
    else if c == b'P'
    then some (record op { flags = record f { wrq = true } })
    else none

-- The loop over the flag characters.
unfoldable pub take_flags : List ℕ → Operation → Option Operation
unfolding take_flag
take_flags [] op = some op
take_flags (c ∷ cs) op = elim (take_flag c op) [ none ↦ none | some op' ↦ take_flags cs op' ]

-- Whether an entry of badcombos[] is there.
unfoldable pub bad_combo : Flags → Bool
bad_combo f =
    (f.rewrite && f.inverse)
    || (f.rewrite && f.abort)
    || (f.rewrite && f.jump)
    || (f.abort && f.jump)
    || (f.abort && f.restart)
    || (f.exit && f.jump)
    || (f.exit && f.abort)
    || (f.exit && f.restart)
    || (f.exit && f.hasfile)
    || (f.hasfile && f.jump)
    || (f.hasfile && f.abort)
    || (f.hasfile && f.restart)

-- RULE_GLOBAL and RULE_SEDG are taken off without RULE_REWRITE.
unfoldable pub strip_global : Flags → Flags
strip_global f = if f.rewrite then f else record f { global = false; sedg = false }

module _ (loc : Locale) where
  open loc use {isspace}

  unfoldable pub skip_blanks : List ℕ → List ℕ
  skip_blanks [] = []
  skip_blanks (c ∷ cs) = let later = skip_blanks cs in if isspace c then later else c ∷ cs

  -- An unescaped separator ends a string.
  abbrev pub separator : (wasbs : Bool) → ℕ → Bool
  separator wasbs c = not wasbs && (isspace c || c == b'#')

  abbrev pub prepend_word : ℕ → List ℕ × List ℕ → List ℕ × List ℕ
  prepend_word c (word, rest) = (c ∷ word, rest)

  -- The second loop of readescstring: what it copies, and where it stops.
  unfoldable pub scan_word : (wasbs : Bool) → List ℕ → List ℕ × List ℕ
  scan_word wasbs [] = ([], [])
  scan_word wasbs (c ∷ cs) =
      let later = prepend_word c (scan_word (not wasbs && c == b'\\') cs) in
      if separator wasbs c then ([], c ∷ cs) else later

  -- readescstring: the string, of which the function returns the length, and the new *str.
  unfoldable pub readescstring : List ℕ → List ℕ × List ℕ
  unfolding skip_blanks scan_word
  readescstring str = scan_word false (skip_blanks str)

  module _ (re : Regex) where
    open re use {Rx, regcomp}

    -- parseline from the check of the flags on; `line` is what follows them.
    unfoldable pub parse_rest : (lineno : ℕ) → Operation → (line : List ℕ) → ParsedLine Rx
    unfolding readescstring bad_combo strip_global
    parse_rest lineno op line =
        let flags = strip_global op.flags in
        let word = readescstring line in
        if bad_combo op.flags
        then parse_error
        else if flags.noregex
        then parsed (record { line = lineno; flags = flags; rx = none; pattern = word.0 })
        else if no_string word.0
        then parse_error
        else elim (regcomp word.0 op.icase op.nosub) [
          | none ↦ parse_error
          | some rx ↦ parsed (record {
            line = lineno;
            flags = flags;
            rx = some rx;
            pattern = (readescstring word.1).0;
          })
        ]

    unfoldable pub parseline : (line : List ℕ) → (lineno : ℕ) → ParsedLine Rx
    unfolding readescstring take_flags parse_rest
    parseline line lineno =
        let word = readescstring line in
        let labelled = record no_flags { label = true; noregex = true } in
        if no_string word.0
        then no_rule
        else if first_byte word.0 == b':'
        then (if no_string (rest_of word.0)
            then parse_rest lineno (record { flags = labelled; icase = false; nosub = false })
                word.1
            else parsed
                (record { line = lineno; flags = labelled; rx = none; pattern = rest_of word.0 }))
        else elim (take_flags word.0 (record { flags = no_flags; icase = false; nosub = false })) [
          | none ↦ parse_error
          | some op ↦ parse_rest lineno op word.1
        ]

    -- The loop of read_line over getc(): the line, what follows it, and whether EOF ends it.
    unfoldable pub collect : List ℕ → (List ℕ × List ℕ × Bool)
    collect [] = ([], [], true)
    collect (c ∷ cs) =
        let (line, rest, eof) = collect cs in
        if c == b'\n'
        then ([], cs, false)
        else if c == 0 || c == b'\r'
        then (line, rest, eof)
        else (c ∷ line, rest, eof)

    -- read_line; none for (size_t)-1.
    unfoldable pub read_line : List ℕ → Option (List ℕ × List ℕ)
    unfolding collect
    read_line f =
        let (line, rest, eof) = collect f in
        if eof && no_string line then none else some (line, rest)

    -- The rules read so far, and err.
    abbrev pub keep_rule : ParsedLine Rx → List (Rule Rx) × Bool → List (Rule Rx) × Bool
    keep_rule no_rule a = a
    keep_rule parse_error (rules, err) = (rules, true)
    keep_rule (parsed r) (rules, err) = (r ∷ rules, err)

    -- The loop of parserulefile. Every line takes at least a byte: as many rounds as the file has
    -- bytes are enough.
    unfoldable pub rule_lines : (rounds lineno : ℕ) → List ℕ → List (Rule Rx) × Bool
    unfolding read_line parseline
    rule_lines zero lineno f = ([], false)
    rule_lines (suc rounds) lineno f = elim (read_line f) [
      | none ↦ ([], false)
      | some (line, rest) ↦
          keep_rule (parseline line lineno) (rule_lines rounds ((lineno + 1) % 2 ^ 32) rest)
    ]

    -- parserulefile; none for exit(EX_CONFIG).
    unfoldable pub parserulefile : List ℕ → Option (List (Rule Rx))
    unfolding rule_lines
    parserulefile f =
        let (rules, err) = rule_lines (length f) 1 f in if err then none else some rules
