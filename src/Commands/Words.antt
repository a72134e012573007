-- ===== src/Commands/Words.antt =====
-- makeargv: the words of a line.
use network_tftp_tftp_hpa.Prelude.{
  ℕ, zero, suc, ◌≡◌, ◌≢◌, refl, ap, ◌∙◌, sym, true, false, none, some, List, [], ◌∷◌, ◌++◌,
  append_assoc, append-nil, All, take,
}
use network_tftp_tftp_hpa.Arguments.{is_space}
use network_tftp_tftp_hpa.Commands.{words_from, makeargv}

abbrev pub AreSpaces : List ℕ → Type 0
AreSpaces = All (λ c. is_space c ≡ true)

-- A word has a byte and no white space.
abbrev pub IsWord : List ℕ → Type 0
IsWord w = (w ≢ []) × All (λ c. is_space c ≡ false) w

-- More words, each behind a white space `c` and perhaps more of them; `end` is what stands behind
-- the last one.
abbrev pub spaced : List (ℕ × List ℕ × List ℕ) → (end : List ℕ) → List ℕ
spaced [] end = end
spaced ((c, gap, w) ∷ more) end = c ∷ (gap ++ (w ++ spaced more end))

abbrev pub words_of : List (ℕ × List ℕ × List ℕ) → List (List ℕ)
words_of [] = []
words_of ((c, gap, w) ∷ more) = w ∷ words_of more

abbrev pub AreSpaced : List (ℕ × List ℕ × List ℕ) → Type 0
AreSpaced = All (λ e. (is_space e.0 ≡ true) × AreSpaces e.1 × IsWord e.2)

words_from-gap :
    (left : ℕ) (gap rest : List ℕ)
    → AreSpaces gap
    → words_from left none (gap ++ rest) ≡ words_from left none rest
unfolding words_from
words_from-gap left [] rest h = refl
words_from-gap zero (c ∷ gap) rest h = rw h.0 (words_from-gap zero gap rest h.1)
words_from-gap (suc left) (c ∷ gap) rest h = rw h.0 (words_from-gap (suc left) gap rest h.1)

words_from-word :
    (left : ℕ) (w u rest : List ℕ)
    → All (λ c. is_space c ≡ false) u
    → words_from left (some w) (u ++ rest) ≡ words_from left (some (w ++ u)) rest
unfolding words_from
words_from-word left w [] rest h = ap (λ v. words_from left (some v) rest) (sym (append-nil w))
words_from-word left w (c ∷ u) rest h = rw h.0 (
    words_from-word left (w ++ c ∷ []) u rest h.1
    ∙ ap (λ v. words_from left (some v) rest) (append_assoc w (c ∷ []) u))

words_from-spaces : (left : ℕ) (end : List ℕ) → AreSpaces end → words_from left none end ≡ []
unfolding words_from
words_from-spaces left [] h = refl
words_from-spaces zero (c ∷ end) h = rw h.0 (words_from-spaces zero end h.1)
words_from-spaces (suc left) (c ∷ end) h = rw h.0 (words_from-spaces (suc left) end h.1)

-- No room: a word is not taken.
words_from-full : (w rest : List ℕ) → IsWord w → words_from zero none (w ++ rest) ≡ []
unfolding words_from
words_from-full [] rest h = absurd (h.0 refl)
words_from-full (c ∷ w) rest h = rw h.1.0 refl

words_from-start :
    (left : ℕ) (w rest : List ℕ)
    → IsWord w
    → words_from (suc left) none (w ++ rest) ≡ words_from left (some w) rest
unfolding words_from
words_from-start left [] rest h = absurd (h.0 refl)
words_from-start left (c ∷ w) rest h = rw h.1.0 (words_from-word left (c ∷ []) w rest h.1.1)

words_from-end :
    (left : ℕ) (w : List ℕ) (c : ℕ) (rest : List ℕ)
    → is_space c ≡ true
    → words_from left (some w) (c ∷ rest) ≡ w ∷ words_from left none rest
unfolding words_from
words_from-end left w c rest h = rw h refl

words_from-spaced :
    (left : ℕ) (w : List ℕ) (more : List (ℕ × List ℕ × List ℕ)) (end : List ℕ)
    → AreSpaced more
    → AreSpaces end
    → words_from left (some w) (spaced more end) ≡ w ∷ take left (words_of more)
words_from-spaced zero w [] [] h k = unfold words_from in refl
words_from-spaced (suc left) w [] [] h k = unfold words_from in refl
words_from-spaced zero w [] (c ∷ end) h k =
    words_from-end zero w c end k.0 ∙ ap (λ l. w ∷ l) (words_from-spaces zero end k.1)
words_from-spaced (suc left) w [] (c ∷ end) h k =
    words_from-end (suc left) w c end k.0 ∙ ap (λ l. w ∷ l) (words_from-spaces (suc left) end k.1)
words_from-spaced zero w ((c, gap, v) ∷ more) end h k =
    words_from-end zero w c (gap ++ (v ++ spaced more end)) h.0.0
    ∙ ap (λ l. w ∷ l)
        (words_from-gap zero gap (v ++ spaced more end) h.0.1
          ∙ words_from-full v (spaced more end) h.0.2)
words_from-spaced (suc left) w ((c, gap, v) ∷ more) end h k =
    words_from-end (suc left) w c (gap ++ (v ++ spaced more end)) h.0.0
    ∙ ap (λ l. w ∷ l)
        (words_from-gap (suc left) gap (v ++ spaced more end) h.0.1
          ∙ words_from-start left v (spaced more end) h.0.2
          ∙ words_from-spaced left v more end h.1 k)

-- A line of words, with white space between them, before the first, and behind the last:
-- makeargv gives the words in their order, the first 19 of them if there are more.
pub makeargv-words :
    (gap w : List ℕ) (more : List (ℕ × List ℕ × List ℕ)) (end : List ℕ)
    → AreSpaces gap
    → IsWord w
    → AreSpaced more
    → AreSpaces end
    → makeargv (gap ++ (w ++ spaced more end)) ≡ take 19 (w ∷ words_of more)
unfolding makeargv
makeargv-words gap w more end g h m k =
    words_from-gap 19 gap (w ++ spaced more end) g
    ∙ words_from-start 18 w (spaced more end) h
    ∙ words_from-spaced 18 w more end m k
