-- ===== src/Text/Digits.antt =====
-- The decimal numbers of Text/Decimal as strings of digits.
use network_tftp_tftp_hpa.Prelude.{
  ℕ, zero, suc, ◌+◌, ◌/◌, ◌%◌, ◌≡◌, ◌≢◌, subst, true, List, [], ◌∷◌, All, arith, ltb, Bool-cases,
  inl, inr,
}
use network_tftp_tftp_hpa.Text.{ascii_digitval, ascii_isdigit}
use network_tftp_tftp_hpa.Text.Decimal.{decimal_on, decimal}

abbrev pub IsDigits : List ℕ → Type 0
IsDigits = All (λ c. ascii_isdigit c ≡ true)

decimal_on-IsDigits :
    (places n : ℕ) (later : List ℕ) → IsDigits later → IsDigits (decimal_on places n later)
unfolding decimal_on
decimal_on-IsDigits zero n later h = h
decimal_on-IsDigits (suc places) n later h =
    let digit : ascii_isdigit (b'0' + n % 10) ≡ true =
      unfold ascii_isdigit ascii_digitval in ground arith in
    elim (Bool-cases (ltb n 10)) [
      | inl small ↦ rw small (digit, h)
      | inr large ↦ rw large (decimal_on-IsDigits places (n / 10) _ (digit, h))
    ]

-- The first digit stands before what follows.
decimal_on-cons :
    (places n : ℕ) (later : List ℕ)
    → (c : ℕ) × (cs : List ℕ) × (decimal_on (suc places) n later ≡ c ∷ cs)
unfolding decimal_on
decimal_on-cons zero n later = elim (Bool-cases (ltb n 10)) [
  | inl small ↦ (b'0' + n % 10, later, ground (arith, small))
  | inr large ↦ (b'0' + n % 10, later, ground (arith, large))
]
decimal_on-cons (suc places) n later = elim (Bool-cases (ltb n 10)) [
  | inl small ↦ (b'0' + n % 10, later, ground (arith, small))
  | inr large ↦
      let (c, cs, e) = decimal_on-cons places (n / 10) ((b'0' + n % 10) ∷ later) in
      (c, cs, rw large e)
]

-- A number is printed as a digit and more digits.
pub decimal-IsDigits :
    (n : ℕ)
    → (c : ℕ) × (cs : List ℕ) × (decimal n ≡ c ∷ cs) × (ascii_isdigit c ≡ true) × IsDigits cs
unfolding decimal
decimal-IsDigits n =
    let (c, cs, e) = decimal_on-cons 19 n [] in
    let (d, ds) : IsDigits (c ∷ cs) = subst IsDigits e (decimal_on-IsDigits 20 n [] tt) in
    (c, cs, e, d, ds)

pub isdigit-ne_zero : (c : ℕ) → ascii_isdigit c ≡ true → c ≢ 0
unfolding ascii_isdigit ascii_digitval
isdigit-ne_zero c d e = ground arith

pub IsDigits-ne_zero : (cs : List ℕ) → IsDigits cs → All (λ c. c ≢ 0) cs
IsDigits-ne_zero [] h = tt
IsDigits-ne_zero (c ∷ cs) h = (isdigit-ne_zero c h.0, IsDigits-ne_zero cs h.1)
