-- ===== src/Negotiation/Answered.antt =====
-- What the client reads in an OACK of options with numbers.
use network_tftp_tftp_hpa.Prelude.{
  ℕ, zero, suc, ◌^◌, ◌≤◌, ◌<◌, ◌≡◌, ◌≢◌, refl, sym, ap, ◌∙◌, true, Option, none, some, List, [],
  ◌∷◌, inl, inr, Option-cases, length-append, ◌++◌, length, ◌==◌, false, All, arith, ltb,
}
use network_tftp_tftp_hpa.Text.Decimal.{decimal, scan_digits, scan_digits-decimal}
use network_tftp_tftp_hpa.Text.Digits.{decimal-IsDigits}
use network_tftp_tftp_hpa.Text.{ascii_isdigit, ascii_digitval}
use network_tftp_tftp_hpa.Arguments.{strtoumax, skip_spaces}
use network_tftp_tftp_hpa.Daemon.Request.Split.{IsPlain, packed}
use network_tftp_tftp_hpa.Client.{Optreq, split_nul, field, whole_number, take_ack, next_ack, acks}
use network_tftp_tftp_hpa.Negotiation.Asked.{decimal-IsPlain}

split_nul-string :
    (s rest : List ℕ) → All (λ c. c ≢ 0) s → split_nul (s ++ 0 ∷ rest) ≡ some (s, rest)
unfolding split_nul
split_nul-string [] rest h = refl
split_nul-string (c ∷ s) rest h = ground (arith, split_nul-string s rest h.1)

field-string : (s rest : List ℕ) → IsPlain s → field (s ++ 0 ∷ rest) ≡ some (s, rest)
unfolding field
field-string [] rest h = absurd (h.0 refl)
field-string (c ∷ s) rest h = ground (arith, split_nul-string (c ∷ s) rest h.1)

-- A digit is no space and no sign.
strtoumax-digits :
    (c : ℕ) (cs : List ℕ) (n : ℕ)
    → ascii_isdigit c ≡ true
    → scan_digits 0 (c ∷ cs) ≡ (n, [])
    → n < 2 ^ 64
    → strtoumax (c ∷ cs) ≡ some (n, [])
unfolding strtoumax
strtoumax-digits c cs n d e lt =
    let space : skip_spaces (c ∷ cs) ≡ c ∷ cs =
      unfold skip_spaces ascii_isdigit ascii_digitval in ground arith in
    let minus : (c == b'-') ≡ false = unfold ascii_isdigit ascii_digitval in ground arith in
    let plus : (c == b'+') ≡ false = unfold ascii_isdigit ascii_digitval in ground arith in
    let small : ltb n (2 ^ 64) ≡ true = ground arith in rw (space, minus, plus, e, d, small) refl

whole_number-eq_some : (s : List ℕ) (n : ℕ) → strtoumax s ≡ some (n, []) → whole_number s ≡ some n
unfolding whole_number
whole_number-eq_some s n e = rw (e, whole_number) refl

whole_number-decimal : (n : ℕ) → n < 2 ^ 64 → whole_number (decimal n) ≡ some n
whole_number-decimal n lt =
    let (c, cs, e, d, ds) = decimal-IsDigits n in
    let read =
      strtoumax-digits c cs n d (ap (scan_digits 0) (sym e) ∙ scan_digits-decimal n lt) lt in
    whole_number-eq_some (decimal n) n (ap strtoumax e ∙ read)

-- The strings of options with numbers, and what the loop makes of them.
abbrev pub numbered : List (List ℕ × ℕ) → List (List ℕ)
numbered [] = []
numbered ((name, n) ∷ more) = name ∷ decimal n ∷ numbered more

abbrev pub take_acks : Optreq → List (List ℕ × ℕ) → Optreq → Option Optreq
take_acks req [] ack = some ack
take_acks req ((name, n) ∷ more) ack = elim (take_ack req name n ack) [
  | none ↦ none
  | some ack' ↦ take_acks req more ack'
]

abbrev pub AreNumbers : List (List ℕ × ℕ) → Type 0
AreNumbers = All (λ e. IsPlain e.0 × (e.1 < 2 ^ 64))

next_ack-entry :
    (req : Optreq) (name : List ℕ) (n : ℕ) (rest : List ℕ) (ack ack' : Optreq)
    → IsPlain name
    → n < 2 ^ 64
    → take_ack req name n ack ≡ some ack'
    → next_ack req (name ++ 0 ∷ (decimal n ++ 0 ∷ rest)) ack ≡ some (ack', rest)
unfolding next_ack
next_ack-entry req name n rest ack ack' plain lt e =
    let one = field-string name (decimal n ++ 0 ∷ rest) plain in
    let two = field-string (decimal n) rest (decimal-IsPlain n) in
    let three = whole_number-decimal n lt in ground (arith, one, two, three, e)

acks-entry :
    (rounds : ℕ) (req : Optreq) (name : List ℕ) (n : ℕ) (rest : List ℕ) (ack ack' : Optreq)
    → IsPlain name
    → n < 2 ^ 64
    → take_ack req name n ack ≡ some ack'
    → acks (suc rounds) req (name ++ 0 ∷ (decimal n ++ 0 ∷ rest)) ack ≡ acks rounds req rest ack'
unfolding acks
acks-entry rounds req [] n rest ack ack' plain lt e = absurd (plain.0 refl)
acks-entry rounds req (c ∷ cs) n rest ack ack' plain lt e =
    ground (arith, next_ack-entry req (c ∷ cs) n rest ack ack' plain lt e)

-- The loop of parse_oack reads options with numbers one by one, if each of them is acceptable.
pub acks-numbered :
    (rounds : ℕ) (req : Optreq) (entries : List (List ℕ × ℕ)) (ack ack' : Optreq)
    → length entries ≤ rounds
    → AreNumbers entries
    → take_acks req entries ack ≡ some ack'
    → acks rounds req (packed (numbered entries)) ack ≡ some ack'
unfolding acks
acks-numbered zero req [] ack ack' enough h e = e
acks-numbered (suc rounds) req [] ack ack' enough h e = e
acks-numbered zero req (p ∷ more) ack ack' enough h e = absurd (omega arith)
acks-numbered (suc rounds) req ((name, n) ∷ more) ack ack' enough h e =
    elim (Option-cases (take_ack req name n ack)) [
      | inl bad ↦ absurd (ground arith)
      | inr (a, t) ↦
          acks-entry rounds req name n (packed (numbered more)) ack a h.0.0 h.0.1 t
          ∙ acks-numbered rounds req more a ack' (omega arith) h.1 (ground (arith, t))
    ]

-- Each entry takes at least a byte.
pub length-numbered :
    (entries : List (List ℕ × ℕ)) → length entries ≤ length (packed (numbered entries))
length-numbered [] = omega arith
length-numbered ((name, n) ∷ more) =
    let value = decimal n ++ 0 ∷ packed (numbered more) in
    omega (
      arith,
      length-append name (0 ∷ value),
      length-append (decimal n) (0 ∷ packed (numbered more)),
      length-numbered more,
    )
