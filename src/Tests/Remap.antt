-- ===== src/Tests/Remap.antt =====
-- Mapping rules over a locale of single bytes and an expression that is a literal prefix.
use network_tftp_tftp_hpa.Prelude.{
  ℕ, ◌+◌, ◌-◌, ◌≡◌, ◌≢◌, refl, true, false, ◌&&◌, Option, none, some, List, [], ◌∷◌, ◌++◌, All,
  arith, length, take, ltb, ◌==◌, if◌then◌else◌,
}
use network_tftp_tftp_hpa.Remap.{Locale, Regex, matched, no_match, Rule}
use network_tftp_tftp_hpa.Remap.Expand.{Generated, do_genmatchstring, genmatchstring}
use network_tftp_tftp_hpa.Remap.Expand.Passes.{genmatchstring_fits}
use network_tftp_tftp_hpa.Remap.Expand.Ends.{Converts, genmatchstring_hangs}
use network_tftp_tftp_hpa.Remap.Expand.Kept.{do_genmatchstring_keeps}
use network_tftp_tftp_hpa.Remap.Parse.{no_flags, readescstring, parserulefile}
use network_tftp_tftp_hpa.Remap.Parse.Words.{IsWord, AtSeparator, readescstring_splits}
use network_tftp_tftp_hpa.Remap.Parse.Rules.{IsValid, parserulefile-IsValid}
use network_tftp_tftp_hpa.Remap.Rewrite.{hung, rrq, inet, string_eq, rule_step, rewrite_string}
use network_tftp_tftp_hpa.Remap.Rewrite.Ends.{rewrite_string-ne_hung}
use network_tftp_tftp_hpa.Remap.Rewrite.Results.{rule_step-valid}

-- toupper() in ASCII
abbrev upper : ℕ → ℕ
upper c = if ltb 96 c && ltb c 123 then c - 32 else c

abbrev lower : ℕ → ℕ
lower c = if ltb 64 c && ltb c 91 then c + 32 else c

abbrev first_char : List ℕ → Unit {0} → Option (ℕ × ℕ × Unit {0})
first_char [] ps = none
first_char (c ∷ cs) ps = some (c, 1, ps)

abbrev bytes : Locale
bytes = record {
  MbState = Unit {0};
  initial = tt;
  mbrtowc = first_char;
  wcrtomb = λ wc ps. (wc ∷ [], ps);
  towupper = upper;
  towlower = lower;
  isspace = λ c. c == b' ';
}

abbrev ascii_char : List ℕ → Unit {0} → Option (ℕ × ℕ × Unit {0})
ascii_char [] ps = none
ascii_char (c ∷ cs) ps = if ltb c 128 then some (c, 1, ps) else none

-- Bytes from 128 on are no characters.
abbrev ascii : Locale
ascii = record {
  MbState = Unit {0};
  initial = tt;
  mbrtowc = ascii_char;
  wcrtomb = λ wc ps. (wc ∷ [], ps);
  towupper = upper;
  towlower = lower;
  isspace = λ c. c == b' ';
}

-- An expression matches at the beginning of a string only.
abbrev prefixes : Regex
prefixes = record {
  Rx = List ℕ;
  regcomp = λ s icase nosub. some s;
  regexec = λ rx s nmatch notbol.
      if string_eq rx (take (length rx) s) then matched (some (0, length rx) ∷ []) else no_match;
}

abbrev no_macros : ℕ → Option (List ℕ)
no_macros c = none

-- "ab" in "abc", replaced by "\U\0x"
abbrev upper_pattern : List ℕ
upper_pattern = b'\\' ∷ b'U' ∷ b'\\' ∷ b'0' ∷ b'x' ∷ []

abbrev made : Generated
made = record { size = some 4; written = some (65 ∷ 66 ∷ 88 ∷ 99 ∷ []); next = some 3 }

genmatchstring_fits_example :
    (s : List ℕ) × (genmatchstring bytes 5 upper_pattern
        (97 ∷ 98 ∷ 99 ∷ [])
        (some (0, 2) ∷ [])
        no_macros
        (some 0)
      ≡ some (record made { written = some s }))
    × (length s ≡ 4)
unfolding do_genmatchstring
genmatchstring_fits_example =
    genmatchstring_fits bytes 5 upper_pattern (97 ∷ 98 ∷ 99 ∷ []) (some (0, 2) ∷ []) no_macros
      (some 0) 4 {g = record made { written = none }} refl refl

do_genmatchstring_keeps_example :
    let before : List ℕ = take {A = ℕ} 0 (97 ∷ 98 ∷ 99 ∷ []) in
    (mid : List ℕ) × (made.written ≡ some (before ++ mid ++ 99 ∷ []))
    × (made.next ≡ some (length before + length mid))
unfolding do_genmatchstring
do_genmatchstring_keeps_example =
    do_genmatchstring_keeps bytes 5 upper_pattern (97 ∷ 98 ∷ 99 ∷ []) (some (0, 2) ∷ []) no_macros 0
      0 2 {g = made} refl refl

genmatchstring_hangs_example :
    genmatchstring ascii 1000 (233 ∷ []) (97 ∷ 98 ∷ []) (some (0, 1) ∷ []) no_macros (some 0) ≡ none
genmatchstring_hangs_example =
    genmatchstring_hangs ascii 1000 233 [] (97 ∷ 98 ∷ []) (some (0, 1) ∷ []) no_macros 0 0 1 refl
      (λ e. absurd (omega arith)) refl

-- The line "re a\#b  x # c"
abbrev line_text : List ℕ
line_text = b' ' ∷ b'a' ∷ b'\\' ∷ b'#' ∷ b'b' ∷ b' ' ∷ b'x' ∷ []

readescstring_splits_example :
    let (word, rest) = readescstring bytes line_text in
    (spaces : List ℕ) × (line_text ≡ spaces ++ (word ++ rest))
    × All (λ c. (c == b' ') ≡ true) spaces
    × IsWord bytes false word
    × AtSeparator bytes rest
readescstring_splits_example = readescstring_splits bytes line_text

-- "r a b"
abbrev rule_text : List ℕ
rule_text = b'r' ∷ b'E' ∷ b' ' ∷ b'a' ∷ b' ' ∷ b'b' ∷ b'\n' ∷ b'#' ∷ b'\n' ∷ []

abbrev one_rule : Rule (List ℕ)
one_rule = record {
  line = 1;
  flags = record no_flags { rewrite = true; hasfile = true };
  rx = some (b'a' ∷ []);
  pattern = b'b' ∷ [];
}

parserulefile-IsValid_example : All IsValid (one_rule ∷ [])
unfolding parserulefile
parserulefile-IsValid_example =
    parserulefile-IsValid bytes prefixes rule_text {rules = one_rule ∷ []} refl

bytes-Converts : Converts bytes
bytes-Converts c cs ps = (c, 1, ps, refl, omega arith)

-- A rule that matches its own result and restarts: the deadman ends it.
abbrev endless : Rule (List ℕ)
endless = record {
  line = 1;
  flags = record no_flags { rewrite = true; restart = true };
  rx = some (b'a' ∷ []);
  pattern = b'a' ∷ [];
}

rewrite_string-ne_hung_example :
    rewrite_string bytes prefixes no_macros
      (endless ∷ [])
      (λ s. false)
      rrq
      inet
      8
      3
      (b'a' ∷ b'x' ∷ [])
    ≢ hung
rewrite_string-ne_hung_example =
    rewrite_string-ne_hung bytes bytes-Converts no_macros prefixes (endless ∷ []) (λ s. false) rrq
      inet 3 (b'a' ∷ b'x' ∷ [])

rule_step-valid_example : string_eq (b'b' ∷ b'x' ∷ []) (b'y' ∷ []) ≡ false
unfolding rule_step
rule_step-valid_example =
    rule_step-valid bytes prefixes no_macros (one_rule ∷ []) (λ s. string_eq s (b'y' ∷ [])) rrq inet
      one_rule [] (b'a' ∷ b'x' ∷ []) (b'b' ∷ b'x' ∷ []) 5 refl refl
