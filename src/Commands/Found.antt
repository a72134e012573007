-- ===== src/Commands/Found.antt =====
-- getcmd: which command of cmdtab a name is taken for.
use network_tftp_tftp_hpa.Prelude.{
  ℕ, ◌+◌, ◌≡◌, ◌⊎◌, ◌↔◌, inl, inr, refl, ap, sym, ◌∙◌, subst, Bool, true, false, List, [], ◌∷◌,
  ◌++◌, map, All, arith, if◌then◌else◌, ◌==◌, Bool-cases, ==_iff,
}
use network_tftp_tftp_hpa.Text.{ascii_tolower}
use network_tftp_tftp_hpa.Commands.{
  no_bytes, match_name, Cmd, cmdtab, first_cmd, known, getcmd_from, getcmd,
}
use network_tftp_tftp_hpa.Commands.Names.{
  IsLetter, Abbreviates, match_name_iff, match_name-letter, match_name-letter_end,
}

-- The two forms of a name in the table: letters alone, or `front[optional]`.
abbrev pub Bracketed : (pattern front optional : List ℕ) → Type 0
Bracketed pattern front optional =
    All IsLetter front × All IsLetter optional × (pattern ≡ front ++ b'[' ∷ (optional ++ b']' ∷ []))

-- What a user may type for a command: its name if that has no optional part, or all of the part in
-- front with a prefix of the optional part; capitals count as small letters.
abbrev pub Means : (name : List ℕ) → Cmd → Type 0
Means name c =
    (All IsLetter c.name × (map ascii_tolower name ≡ c.name))
    ⊎ ((front optional : List ℕ) × Bracketed c.name front optional
        × Abbreviates name front optional)

-- `c` is the first entry of the table that the name means.
abbrev pub FirstMeant : (name : List ℕ) → List Cmd → Cmd → Type 0
FirstMeant name [] c = ⊥
FirstMeant name (d ∷ ds) c = (Means name d × (d ≡ c)) ⊎ ((Means name d → ⊥) × FirstMeant name ds c)

-- A test for the two forms.
unfoldable is_letter : ℕ → Bool
is_letter c = if c == b'[' then false else if c == b']' then false else true

unfoldable closes : List ℕ → Bool
unfolding is_letter
closes [] = false
closes (c ∷ q) =
    let later = closes q in if is_letter c then later else if c == b']' then no_bytes q else false

unfoldable well_formed : List ℕ → Bool
unfolding is_letter closes
well_formed [] = true
well_formed (c ∷ q) =
    let later = well_formed q in
    let inside = closes q in if is_letter c then later else if c == b'[' then inside else false

abbrev Form : List ℕ → Type 0
Form q = All IsLetter q ⊎ ((front optional : List ℕ) × Bracketed q front optional)

is_letter-IsLetter : (c : ℕ) → is_letter c ≡ true → IsLetter c
unfolding is_letter
is_letter-IsLetter c e = ((λ x. ground arith), (λ x. ground arith))

no_bytes-nil : (q : List ℕ) → no_bytes q ≡ true → q ≡ []
no_bytes-nil [] e = refl
no_bytes-nil (c ∷ q) e = cc

closes-Form :
    (q : List ℕ)
    → closes q ≡ true
    → (optional : List ℕ) × All IsLetter optional × (q ≡ optional ++ b']' ∷ [])
unfolding closes
closes-Form [] e = cc
closes-Form (c ∷ q) e = elim (Bool-cases (is_letter c)) [
  | inl letter ↦
      let (optional, letters, whole) = closes-Form q (ground (arith, letter)) in
      (c ∷ optional, (is_letter-IsLetter c letter, letters), ap (λ l. c ∷ l) whole)
  | inr other ↦ elim (Bool-cases (c == b']')) [
    | inl close ↦
        let nothing = no_bytes-nil q (ground (arith, other, close)) in
        let bracket = (==_iff c b']').0 close in ([], tt, cc)
    | inr bad ↦ absurd (ground (arith, other, bad))
  ]
]

well_formed-Form : (q : List ℕ) → well_formed q ≡ true → Form q
unfolding well_formed
well_formed-Form [] e = inl tt
well_formed-Form (c ∷ q) e = elim (Bool-cases (is_letter c)) [
  | inl letter ↦ elim (well_formed-Form q (ground (arith, letter))) [
    | inl plain ↦ inl (is_letter-IsLetter c letter, plain)
    | inr (front, optional, (h, k, whole)) ↦
        inr (c ∷ front, optional, ((is_letter-IsLetter c letter, h), k, ap (λ l. c ∷ l) whole))
  ]
  | inr other ↦ elim (Bool-cases (c == b'[')) [
    | inl opened ↦
        let (optional, letters, whole) = closes-Form q (ground (arith, other, opened)) in
        let bracket = (==_iff c b'[').0 opened in inr ([], optional, (tt, letters, cc))
    | inr bad ↦ absurd (ground (arith, other, bad))
  ]
]

-- A name without an optional part is matched whole.
plain_sound :
    (m : ℕ) (p q : List ℕ)
    → All IsLetter q
    → (match_name false m p q).0 ≡ true
    → map ascii_tolower p ≡ q
unfolding match_name
plain_sound m [] [] h e = refl
plain_sound m (c ∷ p) [] h e = cc
plain_sound m [] (d ∷ q) h e =
    let step = match_name-letter_end false m d q h.0 in absurd (ground (arith, step))
plain_sound m (c ∷ p) (d ∷ q) h e = elim (Bool-cases (ascii_tolower c == d)) [
  | inl same ↦
      let step = match_name-letter false m c d p q h.0 in
      let rest = plain_sound (m + 1) p q h.1 (ground (arith, step)) in
      let letter = (==_iff (ascii_tolower c) d).0 same in cc
  | inr other ↦ let step = match_name-letter false m c d p q h.0 in absurd (ground (arith, step))
]

plain_complete :
    (m : ℕ) (p q : List ℕ)
    → All IsLetter q
    → map ascii_tolower p ≡ q
    → (match_name false m p q).0 ≡ true
unfolding match_name
plain_complete m [] [] h e = refl
plain_complete m (c ∷ p) [] h e = cc
plain_complete m [] (d ∷ q) h e = cc
plain_complete m (c ∷ p) (d ∷ q) h e =
    let letter : ascii_tolower c ≡ d = cc in
    let same = (==_iff (ascii_tolower c) d).1 letter in
    let rest = plain_complete (m + 1) p q h.1 cc in
    match_name-letter false m c d p q h.0 ∙ rw same rest

match_name-Means :
    (name : List ℕ) (c : Cmd)
    → Form c.name
    → (match_name false 0 name c.name).0 ≡ true
    → Means name c
match_name-Means name c (inl plain) e = inl (plain, plain_sound 0 name c.name plain e)
match_name-Means name c (inr (front, optional, b)) e = inr (
  front,
  optional,
  b,
  (match_name_iff name front optional b.0 b.1).0
      (subst (λ q. (match_name false 0 name q).0 ≡ true) b.2 e),
)

Means-match_name :
    (name : List ℕ) (c : Cmd) → Means name c → (match_name false 0 name c.name).0 ≡ true
Means-match_name name c (inl (plain, e)) = plain_complete 0 name c.name plain e
Means-match_name name c (inr (front, optional, b, a)) =
    subst (λ q. (match_name false 0 name q).0 ≡ true) (sym b.2)
      ((match_name_iff name front optional b.0 b.1).1 a)

-- The outer loop, whatever it would suggest.
getcmd_from_sound :
    (name : List ℕ) (cs : List Cmd) (best : Cmd) (metric : ℕ) (c : Cmd)
    → All (λ d. Form d.name) cs
    → getcmd_from name cs best metric ≡ known c
    → FirstMeant name cs c
unfolding getcmd_from
getcmd_from_sound name [] best metric c h e = cc
getcmd_from_sound name (d ∷ cs) best metric c h e =
    elim (Bool-cases (match_name false 0 name d.name).0) [
      | inl hit ↦ inl (match_name-Means name d h.0 hit, (ground (arith, hit)))
      | inr miss ↦ inr (
        (λ m. let hit = Means-match_name name d m in ground arith),
        getcmd_from_sound name cs _ _ c h.1 (rw miss at e),
      )
    ]

getcmd_from_complete :
    (name : List ℕ) (cs : List Cmd) (best : Cmd) (metric : ℕ) (c : Cmd)
    → All (λ d. Form d.name) cs
    → FirstMeant name cs c
    → getcmd_from name cs best metric ≡ known c
unfolding getcmd_from
getcmd_from_complete name [] best metric c h f = absurd f
getcmd_from_complete name (d ∷ cs) best metric c h (inl (m, same)) =
    let hit = Means-match_name name d m in rw hit (ap known same)
getcmd_from_complete name (d ∷ cs) best metric c h (inr (not_this, f)) =
    elim (Bool-cases (match_name false 0 name d.name).0) [
      | inl hit ↦ absurd (not_this (match_name-Means name d h.0 hit))
      | inr miss ↦ rw miss (getcmd_from_complete name cs _ _ c h.1 f)
    ]

All-well_formed :
    (cs : List Cmd) → All (λ c. well_formed c.name ≡ true) cs → All (λ c. Form c.name) cs
All-well_formed [] h = tt
All-well_formed (c ∷ cs) h = (well_formed-Form c.name h.0, All-well_formed cs h.1)

table_formed : All (λ c. well_formed c.name ≡ true) cmdtab
unfolding well_formed
table_formed = (
  refl,
  (
    refl,
    (
      refl,
      (
        refl,
        (
          refl,
          (
            refl,
            (
              refl,
              (
                refl,
                (
                  refl,
                  (
                    refl,
                    (
                      refl,
                      (
                        refl,
                        (refl, (refl, (refl, (refl, (refl, (refl, (refl, (refl, (refl, tt))))))))),
                      ),
                    ),
                  ),
                ),
              ),
            ),
          ),
        ),
      ),
    ),
  ),
)

-- getcmd finds a command exactly if it is the first entry of cmdtab that the name means: the
-- entry's whole name, or for an entry `front[optional]` all of `front` with a prefix of `optional`
-- behind it, capitals counting as small letters.
pub getcmd_iff : (name : List ℕ) (c : Cmd) → (getcmd name ≡ known c) ↔ FirstMeant name cmdtab c
unfolding getcmd
getcmd_iff name c =
    let formed = All-well_formed cmdtab table_formed in
    (
      getcmd_from_sound name cmdtab first_cmd 0 c formed,
      getcmd_from_complete name cmdtab first_cmd 0 c formed,
    )
