-- ===== src/Remap/Expand.antt =====
-- tftpd/remap.c: the \-substitution of do_genmatchstring() and genmatchstring(), with multibyte
-- characters.
pub mod Passes
pub mod Ends
pub mod Kept
use network_tftp_tftp_hpa.Prelude.{
  ℕ, zero, suc, ◌+◌, ◌-◌, Bool, true, false, ◌&&◌, ◌||◌, Option, none, some, List, [], ◌∷◌, ◌++◌,
  leb, ◌==◌, length, get_or, take, drop, if◌then◌else◌,
}
use network_tftp_tftp_hpa.Remap.{Locale, RegMatch}

-- xs->xform
pub data Xform : Type 0 where
  xform_null xform_toupper xform_tolower : Xform

-- struct xform_state: `out` is what was written to the buffer, none for NULL.
pub record XformState (MbState : Type 0) : Type 0 where
  pub xform : Xform
  pub out : Option (List ℕ)
  pub len : ℕ
  pub err : Bool
  pub ps : MbState

abbrev pub put_out : List ℕ → Option (List ℕ) → Option (List ℕ)
put_out bytes none = none
put_out bytes (some written) = some (written ++ bytes)

-- What do_genmatchstring returns: the length, or none for (size_t)-1; what it wrote, without the
-- final NUL; and *nextp, none where it is not set.
pub record Generated : Type 0 where
  pub size : Option ℕ
  pub written : Option (List ℕ)
  pub next : Option ℕ

module _ (loc : Locale) where
  open loc use {MbState, initial, mbrtowc, wcrtomb, towupper, towlower}

  -- *p && *p != '\\': the list ends where *p is NUL.
  abbrev pub plain : List ℕ → Bool
  plain [] = false
  plain (c ∷ cs) = if c == b'\\' then false else true

  abbrev pub apply_xform : Xform → ℕ → ℕ
  apply_xform xform_null wc = wc
  apply_xform xform_toupper wc = towupper wc
  apply_xform xform_tolower wc = towlower wc

  -- xsmemcpy
  abbrev pub xsmemcpy : XformState MbState → List ℕ → XformState MbState
  xsmemcpy xs bytes = record xs { out = put_out bytes xs.out; len = xs.len + length bytes }

  -- One wide character through the transformation and to the buffer. The bytes are counted and
  -- written if there are any.
  unfoldable pub put_wide : ℕ → XformState MbState → XformState MbState
  put_wide wc xs =
      let bytes = (wcrtomb (apply_xform xs.xform wc) xs.ps).0 in
      record (xsmemcpy xs bytes) { ps = (wcrtomb (apply_xform xs.xform wc) xs.ps).1 }

  -- The loop of xform_out on the `len` bytes from p on. It leaves the bytes from its final p on.
  -- Every round takes at least a byte: as many rounds as there are bytes are enough.
  unfoldable pub xform_loop :
      (rounds : ℕ) → MbState → List ℕ → XformState MbState → List ℕ × XformState MbState
  unfolding put_wide
  xform_loop zero ips p xs = (p, xs)
  xform_loop (suc rounds) ips p xs =
      if plain p
      then elim (mbrtowc p ips) [
        | none ↦ (p, record xs { err = true })
        | some (wc, nb, ips') ↦ xform_loop rounds ips' (drop nb p) (put_wide wc xs)
      ]
      else (p, xs)

  -- xform_out on the bytes `p`
  unfoldable pub xform_out : List ℕ → XformState MbState → List ℕ × XformState MbState
  unfolding xform_loop
  xform_out p xs = xform_loop (length p) initial p xs

  abbrev pub digit : ℕ → Bool
  digit c = leb b'0' c && leb c b'9'

  module _ (macrosub : ℕ → Option (List ℕ)) (input : List ℕ) (pmatch : List RegMatch) where
    -- "\0" to "\9"
    unfoldable pub put_group : RegMatch → XformState MbState → XformState MbState
    unfolding xform_out
    put_group none xs = xs
    put_group (some (so, eo)) xs = (xform_out (take (eo - so) (drop so input)) xs).1

    -- The switch on the character behind a backslash: what is left of the pattern is `pattern`, and
    -- `rest` what stands behind the character.
    unfoldable pub put_macro :
        (macro : ℕ) → (rest pattern : List ℕ) → XformState MbState → List ℕ × XformState MbState
    unfolding put_group xform_out
    put_macro macro rest pattern xs =
        if digit macro
        then (rest, put_group (get_or pmatch (macro - b'0') none) xs)
        else if macro == b'L'
        then (rest, record xs { xform = xform_tolower })
        else if macro == b'U'
        then (rest, record xs { xform = xform_toupper })
        else if macro == b'E'
        then (rest, record xs { xform = xform_null })
        else if macro == b'\\'
        then (rest, xsmemcpy xs (b'\\' ∷ []))
        else elim (macrosub macro) [
          | some macrodata ↦ (rest, (xform_out macrodata xs).1)
          | none ↦ (pattern, xs)
        ]

    -- A round of the loop over the pattern, which is not at its end.
    unfoldable pub expand_step : ℕ → List ℕ → XformState MbState → List ℕ × XformState MbState
    unfolding put_macro xform_out
    expand_step c cs xs =
        if c == b'\\'
        then elim cs [
          | [] ↦ ([], xsmemcpy xs (b'\\' ∷ []))
          | macro ∷ rest ↦ put_macro macro rest (macro ∷ rest) xs
        ]
        else xform_out (c ∷ cs) xs

    -- The loop over the pattern; none if `rounds` rounds do not reach its end.
    unfoldable pub expand : (rounds : ℕ) → List ℕ → XformState MbState → Option (XformState MbState)
    unfolding expand_step
    expand rounds [] xs = some xs
    expand zero (c ∷ cs) xs = none
    expand (suc rounds) (c ∷ cs) xs =
        let (pattern, xs') = expand_step c cs xs in expand rounds pattern xs'

  -- xform_init
  abbrev pub xform_init : Option (List ℕ) → XformState MbState
  xform_init string = record {
    xform = xform_null;
    out = string;
    len = 0;
    err = false;
    ps = initial;
  }

  -- From the loop over the pattern to the return.
  abbrev pub ending : (tail : List ℕ) → XformState MbState → Generated
  ending tail xs =
      let ys = xsmemcpy xs tail in
      record { size = if ys.err then none else some ys.len; written = ys.out; next = some xs.len }

  abbrev pub ended_with : (tail : List ℕ) → Option (XformState MbState) → Option Generated
  ended_with tail none = none
  ended_with tail (some xs) = some (ending tail xs)

  -- The match is pmatch[0], and stands behind `start` bytes.
  unfoldable pub replace_match :
      (rounds : ℕ)
      → (string : Option (List ℕ)) → (pattern ibuf : List ℕ) → List RegMatch
      → (ℕ → Option (List ℕ))
      → (start : ℕ) → RegMatch
      → Option Generated
  unfolding expand
  replace_match rounds string pattern ibuf pmatch macrosub start none =
      let xs = xsmemcpy (xform_init string) (ibuf ++ 0 ∷ []) in
      some (record { size = some xs.len; written = xs.out; next = none })
  replace_match rounds string pattern ibuf pmatch macrosub start (some (so, eo)) =
      let input = drop start ibuf in
      ended_with (drop eo input) (
        expand macrosub input pmatch rounds pattern
          (xsmemcpy (xform_init string) (take (start + so) ibuf)))

  -- do_genmatchstring; `start` is none for MATCHONLY, and `string` is none for NULL and `some []` for
  -- an empty buffer. None if `rounds` rounds of the loop are not enough.
  unfoldable pub do_genmatchstring :
      (rounds : ℕ)
      → (string : Option (List ℕ)) → (pattern ibuf : List ℕ) → List RegMatch
      → (ℕ → Option (List ℕ))
      → (start : Option ℕ) → Option Generated
  unfolding expand replace_match
  do_genmatchstring rounds string pattern ibuf pmatch macrosub none =
      ended_with [] (expand macrosub ibuf pmatch rounds pattern (xform_init string))
  do_genmatchstring rounds string pattern ibuf pmatch macrosub (some start) =
      replace_match rounds string pattern ibuf pmatch macrosub start (get_or pmatch 0 none)

  -- genmatchstring: the length of the string from a first pass, and the string from a second one.
  -- *string is NULL if the first pass fails.
  unfoldable pub genmatchstring :
      (rounds : ℕ)
      → (pattern ibuf : List ℕ) → List RegMatch
      → (ℕ → Option (List ℕ))
      → (start : Option ℕ) → Option Generated
  unfolding do_genmatchstring
  genmatchstring rounds pattern ibuf pmatch macrosub start =
      elim (do_genmatchstring rounds none pattern ibuf pmatch macrosub start) [
        | none ↦ none
        | some g ↦ elim g.size [
          | none ↦ some (record { size = none; written = none; next = none })
          | some len ↦ do_genmatchstring rounds (some []) pattern ibuf pmatch macrosub start
        ]
      ]
