-- ===== src/Text/Decimal.antt =====
-- Decimal numbers: printf's "%PRIuMAX" and the digits of strtoumax(..., 10).
use network_tftp_tftp_hpa.Prelude.{
  ℕ, zero, suc, ◌+◌, ◌-◌, ◌*◌, ◌/◌, ◌%◌, ◌^◌, ◌<◌, ◌≡◌, true, List, [], ◌∷◌, arith, ltb,
  if◌then◌else◌, Bool-cases, inl, inr,
}
use network_tftp_tftp_hpa.Text.{ascii_digitval, ascii_isdigit}

-- At most `places` digits before `later`.
unfoldable pub decimal_on : (places n : ℕ) → List ℕ → List ℕ
decimal_on zero n later = later
decimal_on (suc places) n later =
    let digits = (b'0' + n % 10) ∷ later in
    let more = decimal_on places (n / 10) digits in if ltb n 10 then digits else more

-- Twenty digits hold a uintmax_t of 64 bits.
unfoldable pub decimal : ℕ → List ℕ
unfolding decimal_on
decimal n = decimal_on 20 n []

-- The value of the digits in front and what follows them; the caller tests for overflow.
unfoldable pub scan_digits : ℕ → List ℕ → ℕ × List ℕ
scan_digits value [] = (value, [])
scan_digits value (c ∷ cs) =
    let later = scan_digits (value * 10 + (c - b'0')) cs in
    if ascii_isdigit c then later else (value, c ∷ cs)

isdigit-digit : (d : ℕ) → d < 10 → ascii_isdigit (b'0' + d) ≡ true
unfolding ascii_isdigit ascii_digitval
isdigit-digit d lt = ground arith

scan_digits-digit :
    (value d : ℕ) (later : List ℕ)
    → d < 10
    → scan_digits value ((b'0' + d) ∷ later) ≡ scan_digits (value * 10 + d) later
unfolding scan_digits
scan_digits-digit value d later lt =
    let digit : ascii_isdigit (b'0' + d) ≡ true = isdigit-digit d lt in
    let back : b'0' + d - b'0' ≡ d = omega arith in (rw (digit, back))

scan_digits-decimal_on :
    (places n : ℕ) (later : List ℕ)
    → n < 10 ^ suc places
    → scan_digits 0 (decimal_on (suc places) n later) ≡ scan_digits n later
unfolding decimal_on
scan_digits-decimal_on zero n later lt = ground (arith, scan_digits-digit 0 n later lt)
scan_digits-decimal_on (suc places) n later lt = elim (Bool-cases (ltb n 10)) [
  | inl small ↦ ground (arith, scan_digits-digit 0 n later)
  | inr large ↦ ground (
    arith,
    scan_digits-decimal_on places (n / 10) ((b'0' + n % 10) ∷ later),
    scan_digits-digit (n / 10) (n % 10) later,
  )
]

-- A 64-bit number that is printed is read back, and no digit is left.
pub scan_digits-decimal : (n : ℕ) → n < 2 ^ 64 → scan_digits 0 (decimal n) ≡ (n, [])
unfolding decimal scan_digits
scan_digits-decimal n lt = scan_digits-decimal_on 19 n [] (omega arith)
