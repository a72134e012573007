-- ===== src/Commands/Names.antt =====
-- match_name, the inner loop of getcmd: which abbreviations of one command's name it takes.
use network_tftp_tftp_hpa.Prelude.{
  ℕ, ◌+◌, ◌≡◌, ◌≢◌, ◌↔◌, refl, ap, ◌∙◌, sym, Bool, true, false, List, [], ◌∷◌, ◌++◌, map, All,
  arith, if◌then◌else◌, ◌==◌, Bool-cases, inl, inr, ==_iff,
}
use network_tftp_tftp_hpa.Text.{ascii_tolower}
use network_tftp_tftp_hpa.Commands.{match_name}

-- A byte of a command's name.
abbrev pub IsLetter : ℕ → Type 0
IsLetter c = (c ≢ b'[') × (c ≢ b']')

-- The optional part of a name: any prefix of it will do.
abbrev pub Abbreviates : (name front optional : List ℕ) → Type 0
Abbreviates name front optional =
    (taken left : List ℕ) × (optional ≡ taken ++ left) × (map ascii_tolower name ≡ front ++ taken)

-- A step of match_name on a letter of the pattern.
pub match_name-letter :
    (ok : Bool) (m c q : ℕ) (ps qs : List ℕ)
    → IsLetter q
    → (match_name ok m (c ∷ ps) (q ∷ qs)).0
      ≡ (if ascii_tolower c == q then (match_name ok (m + 1) ps qs).0 else false)
unfolding match_name
match_name-letter ok m c q ps qs h = ground arith

pub match_name-letter_end :
    (ok : Bool) (m q : ℕ) (qs : List ℕ) → IsLetter q → (match_name ok m [] (q ∷ qs)).0 ≡ ok
unfolding match_name
match_name-letter_end ok m q qs h = ground arith

match_name-open :
    (ok : Bool) (m : ℕ) (p qs : List ℕ) → match_name ok m p (b'[' ∷ qs) ≡ match_name true m p qs
unfolding match_name
match_name-open ok m [] qs = refl
match_name-open ok m (c ∷ p) qs = refl

-- A letter of the pattern: the next byte of the name must be that letter.
module _ (c q : ℕ) (same : ascii_tolower c ≡ q) where
  Abbreviates-cons :
      (ps front b : List ℕ) → Abbreviates ps front b → Abbreviates (c ∷ ps) (q ∷ front) b
  Abbreviates-cons ps front b (taken, left, e, f) = (taken, left, e, cc)

inside_sound :
    (m : ℕ) (p b : List ℕ)
    → All IsLetter b
    → (match_name true m p (b ++ b']' ∷ [])).0 ≡ true
    → Abbreviates p [] b
inside_sound m [] b h e = ([], b, refl, refl)
inside_sound m (c ∷ p) [] h e = absurd (unfold match_name in cc)
inside_sound m (c ∷ p) (q ∷ b) h e = elim (Bool-cases (ascii_tolower c == q)) [
  | inl same ↦
      let step = match_name-letter true m c q p (b ++ b']' ∷ []) h.0 in
      let (taken, left, eb, ep) = inside_sound (m + 1) p b h.1 (ground (arith, step)) in
      let letter = (==_iff (ascii_tolower c) q).0 same in (q ∷ taken, left, ap (λ l. q ∷ l) eb, cc)
  | inr other ↦
      let step = match_name-letter true m c q p (b ++ b']' ∷ []) h.0 in
      absurd (ground (arith, step))
]

inside_complete :
    (m : ℕ) (p b : List ℕ)
    → All IsLetter b
    → Abbreviates p [] b
    → (match_name true m p (b ++ b']' ∷ [])).0 ≡ true
inside_complete m [] [] h a = unfold match_name in refl
inside_complete m [] (q ∷ b) h a = match_name-letter_end true m q (b ++ b']' ∷ []) h.0
inside_complete m (c ∷ p) [] h ([], left, eb, ep) = absurd (cc)
inside_complete m (c ∷ p) [] h (t ∷ taken, left, eb, ep) = absurd (cc)
inside_complete m (c ∷ p) (q ∷ b) h ([], left, eb, ep) = absurd (cc)
inside_complete m (c ∷ p) (q ∷ b) h (t ∷ taken, left, eb, ep) =
    let letter : ascii_tolower c ≡ q = cc in
    let same : (ascii_tolower c == q) ≡ true = (==_iff (ascii_tolower c) q).1 letter in
    let rest = inside_complete (m + 1) p b h.1 (taken, left, cc, cc) in
    match_name-letter true m c q p (b ++ b']' ∷ []) h.0 ∙ rw same rest

front_sound :
    (m : ℕ) (p a b : List ℕ)
    → All IsLetter a
    → All IsLetter b
    → (match_name false m p (a ++ b'[' ∷ (b ++ b']' ∷ []))).0 ≡ true
    → Abbreviates p a b
front_sound m p [] b ha hb e =
    inside_sound m p b hb (ap (λ x. x.0) (sym (match_name-open false m p (b ++ b']' ∷ []))) ∙ e)
front_sound m [] (q ∷ a) b ha hb e =
    let step = match_name-letter_end false m q (a ++ b'[' ∷ (b ++ b']' ∷ [])) ha.0 in
    absurd (ground (arith, step))
front_sound m (c ∷ p) (q ∷ a) b ha hb e = elim (Bool-cases (ascii_tolower c == q)) [
  | inl same ↦
      let step = match_name-letter false m c q p (a ++ b'[' ∷ (b ++ b']' ∷ [])) ha.0 in
      Abbreviates-cons c q ((==_iff (ascii_tolower c) q).0 same) p a b
        (front_sound (m + 1) p a b ha.1 hb (ground (arith, step)))
  | inr other ↦
      let step = match_name-letter false m c q p (a ++ b'[' ∷ (b ++ b']' ∷ [])) ha.0 in
      absurd (ground (arith, step))
]

front_complete :
    (m : ℕ) (p a b : List ℕ)
    → All IsLetter a
    → All IsLetter b
    → Abbreviates p a b
    → (match_name false m p (a ++ b'[' ∷ (b ++ b']' ∷ []))).0 ≡ true
front_complete m p [] b ha hb h =
    ap (λ x. x.0) (match_name-open false m p (b ++ b']' ∷ [])) ∙ inside_complete m p b hb h
front_complete m [] (q ∷ a) b ha hb (taken, left, eb, ep) = absurd (cc)
front_complete m (c ∷ p) (q ∷ a) b ha hb (taken, left, eb, ep) =
    let letter : ascii_tolower c ≡ q = cc in
    let same : (ascii_tolower c == q) ≡ true = (==_iff (ascii_tolower c) q).1 letter in
    let rest = front_complete (m + 1) p a b ha.1 hb (taken, left, eb, cc) in
    match_name-letter false m c q p (a ++ b'[' ∷ (b ++ b']' ∷ [])) ha.0 ∙ rw same rest

-- A name `front[optional]`, both parts without brackets, against what was typed.
pub match_name_iff :
    (name front optional : List ℕ)
    → All IsLetter front
    → All IsLetter optional
    → ((match_name false 0 name (front ++ b'[' ∷ (optional ++ b']' ∷ []))).0 ≡ true)
      ↔ Abbreviates name front optional
match_name_iff name front optional h k =
    (front_sound 0 name front optional h k, front_complete 0 name front optional h k)
