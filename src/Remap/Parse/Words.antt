-- ===== src/Remap/Parse/Words.antt =====
-- The strings that readescstring() of tftpd/remap.c takes off a line.
use network_tftp_tftp_hpa.Prelude.{
  ℕ, ◌≡◌, refl, ap, ◌∙◌, Bool, true, false, not, ◌&&◌, List, [], ◌∷◌, ◌++◌, All, arith, ◌==◌,
  Bool-cases, inl, inr,
}
use network_tftp_tftp_hpa.Remap.{Locale}
use network_tftp_tftp_hpa.Remap.Parse.{
  skip_blanks, separator, prepend_word, scan_word, readescstring,
}

module _ (loc : Locale) where
  open loc use {isspace}

  -- No separator, but behind a backslash that is not itself behind one.
  abbrev pub IsWord : (wasbs : Bool) → List ℕ → Type 0
  IsWord wasbs [] = Unit
  IsWord wasbs (c ∷ cs) = (separator loc wasbs c ≡ false) × IsWord (not wasbs && c == b'\\') cs

  -- Nothing, or a separator.
  abbrev pub AtSeparator : List ℕ → Type 0
  AtSeparator [] = Unit
  AtSeparator (c ∷ cs) = separator loc false c ≡ true

  abbrev Scanned : (wasbs : Bool) → List ℕ → List ℕ × List ℕ → Type 0
  Scanned wasbs str (word, rest) = (str ≡ word ++ rest) × IsWord wasbs word × AtSeparator rest

  at_separator :
      (wasbs : Bool) (c : ℕ) (cs : List ℕ) → separator loc wasbs c ≡ true → AtSeparator (c ∷ cs)
  at_separator true c cs e = absurd (ground arith)
  at_separator false c cs e = e

  prepend_word-Scanned :
      (wasbs : Bool) (c : ℕ) (cs : List ℕ) (w : List ℕ × List ℕ)
      → separator loc wasbs c ≡ false
      → Scanned (not wasbs && c == b'\\') cs w
      → Scanned wasbs (c ∷ cs) (prepend_word loc c w)
  prepend_word-Scanned wasbs c cs (word, rest) e (whole, is_word, at) =
      (ap (λ l. c ∷ l) whole, (e, is_word), at)

  scan_word-Scanned : (wasbs : Bool) (str : List ℕ) → Scanned wasbs str (scan_word loc wasbs str)
  unfolding scan_word
  scan_word-Scanned wasbs [] = (refl, tt, tt)
  scan_word-Scanned wasbs (c ∷ cs) = elim (Bool-cases (separator loc wasbs c)) [
    | inl end ↦ rw end (refl, tt, at_separator wasbs c cs end)
    | inr inside ↦ rw inside (
        prepend_word-Scanned wasbs c cs (scan_word loc (not wasbs && c == b'\\') cs) inside
          (scan_word-Scanned (not wasbs && c == b'\\') cs))
  ]

  skip_blanks-split :
      (str : List ℕ)
      → (spaces : List ℕ) × (str ≡ spaces ++ skip_blanks loc str)
        × All (λ c. isspace c ≡ true) spaces
  unfolding skip_blanks
  skip_blanks-split [] = ([], refl, tt)
  skip_blanks-split (c ∷ cs) = elim (Bool-cases (isspace c)) [
    | inr other ↦ rw other ([], refl, tt)
    | inl space ↦
        let (spaces, e, all) = skip_blanks-split cs in
        rw space (c ∷ spaces, ap (λ l. c ∷ l) e, (space, all))
  ]

  -- readescstring splits a line into white space, a string in which every white space and every #
  -- is escaped by a backslash that is not escaped itself, and the rest, which begins with white
  -- space or a # or is empty; nothing is lost.
  pub readescstring_splits :
      (str : List ℕ)
      → let (word, rest) = readescstring loc str in
        (spaces : List ℕ) × (str ≡ spaces ++ (word ++ rest))
        × All (λ c. isspace c ≡ true) spaces
        × IsWord false word
        × AtSeparator rest
  unfolding readescstring
  readescstring_splits str =
      let (spaces, e, all) = skip_blanks-split str in
      let (whole, is_word, at) = scan_word-Scanned false (skip_blanks loc str) in
      (spaces, e ∙ ap (λ l. spaces ++ l) whole, all, is_word, at)
