-- ===== src/Errors/Controls.antt =====
-- What errpkt_to_string tells of a message with a control character in it.
use network_tftp_tftp_hpa.Prelude.{
  ℕ, suc, ◌+◌, ◌-◌, ◌*◌, ◌≤◌, ◌<◌, ◌≡◌, ◌≢◌, refl, ap, ◌∙◌, Bool, true, false, List, [], ◌∷◌, ◌++◌,
  append_assoc, length, length-append, get_or, All, leb, ◌==◌, arith, ◌/◌, ◌%◌,
}
use network_tftp_tftp_hpa.Text.Codes.{codes}
use network_tftp_tftp_hpa.Errors.{
  errmsgs, error_packet, is_control, printable, c_string, at_least, explained, errpkt_to_string,
}
use network_tftp_tftp_hpa.Errors.RoundTrip.{IsPrintable}

printable-control :
    (signed_char : Bool) (front : List ℕ) (c : ℕ) (rest : List ℕ)
    → IsPrintable signed_char front
    → is_control signed_char c ≡ true
    → printable signed_char (front ++ c ∷ rest) ≡ length front
unfolding printable
printable-control signed_char [] c rest h ctl = rw ctl refl
printable-control signed_char (x ∷ front) c rest h ctl =
    rw h.0 (ap suc (printable-control signed_char front c rest h.1 ctl))

c_string-plain : (msg rest : List ℕ) → All (λ c. c ≢ 0) msg → c_string (msg ++ 0 ∷ rest) ≡ msg
unfolding c_string
c_string-plain [] rest h = refl
c_string-plain (c ∷ msg) rest h = ground (arith, c_string-plain msg rest h.1)

get_or-middle :
    (front : List ℕ) (c : ℕ) (rest : List ℕ) → get_or (front ++ c ∷ rest) (length front) 0 ≡ c
get_or-middle [] c rest = refl
get_or-middle (x ∷ front) c rest = get_or-middle front c rest

at_least-longer : (n : ℕ) (s : List ℕ) → n ≤ length s → at_least n s ≡ s
unfolding at_least
at_least-longer n s le = let e : n - length s ≡ 0 = omega arith in rw e refl

explained-control :
    (signed_char : Bool) (nerr : ℕ) (front : List ℕ) (c : ℕ) (back beyond : List ℕ)
    → front ≢ []
    → IsPrintable signed_char front
    → is_control signed_char c ≡ true
    → All (λ x. x ≢ 0) (front ++ c ∷ back)
    → nerr < 9
    → explained signed_char nerr ((front ++ c ∷ back) ++ 0 ∷ []) beyond
      ≡ get_or errmsgs nerr [] ++ codes ": " ++ (front ++ c ∷ back) ++ codes "..."
unfolding explained
explained-control signed_char nerr [] c back beyond some_text h ctl plain lt =
    absurd (some_text refl)
explained-control signed_char nerr (x ∷ front) c back beyond some_text h ctl plain lt =
    let text = (x ∷ front) ++ c ∷ back in
    let n : printable signed_char (text ++ 0 ∷ []) ≡ suc (length front) =
      ap (printable signed_char) (append_assoc (x ∷ front) (c ∷ back) (0 ∷ []))
      ∙ printable-control signed_char (x ∷ front) c (back ++ 0 ∷ []) h ctl in
    let shorter : (suc (suc (length front)) == length (text ++ 0 ∷ [])) ≡ false =
      ground (arith, length-append text (0 ∷ []), length-append (x ∷ front) (c ∷ back)) in
    let told =
      ap (at_least (suc (length front)))
        (ap c_string (append_assoc text (0 ∷ []) beyond) ∙ c_string-plain text beyond plain)
      ∙ at_least-longer (suc (length front)) text
          (omega (arith, length-append (x ∷ front) (c ∷ back))) in
    let known : leb 9 nerr ≡ false = ground arith in
    let some_bytes : (suc (length front) == 0) ≡ false = ground arith in
    rw (n, shorter, told, known, some_bytes) refl

-- A message with a control character that is not its first: errpkt_to_string adds the ellipsis but
-- tells the message whole, the control character and what follows it included. The message must
-- have no NUL inside and the code must be one of the table.
pub errpkt_to_string-control :
    (signed_char : Bool) (nerr : ℕ) (front : List ℕ) (c : ℕ) (back beyond : List ℕ)
    → front ≢ []
    → IsPrintable signed_char front
    → is_control signed_char c ≡ true
    → All (λ x. x ≢ 0) (front ++ c ∷ back)
    → nerr < 9
    → errpkt_to_string signed_char (error_packet nerr (front ++ c ∷ back)) beyond
      ≡ get_or errmsgs nerr [] ++ codes ": " ++ (front ++ c ∷ back) ++ codes "..."
unfolding errpkt_to_string
errpkt_to_string-control signed_char nerr front c back beyond some_text h ctl plain lt =
    let number : nerr / 256 % 256 * 256 + nerr % 256 ≡ nerr = omega arith in
    rw number (explained-control signed_char nerr front c back beyond some_text h ctl plain lt)
