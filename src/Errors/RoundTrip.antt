-- ===== src/Errors/RoundTrip.antt =====
-- What errpkt_to_string tells of a packet that make_errpacket has made.
use network_tftp_tftp_hpa.Prelude.{
  ℕ, suc, ◌+◌, ◌-◌, ◌*◌, ◌/◌, ◌%◌, ◌<◌, ◌≡◌, ◌≢◌, refl, ap, ◌∙◌, Bool, true, false, some, List, [],
  ◌∷◌, ◌++◌, append_assoc, append-nil, length, length-append, get_or, All, leb, ◌==◌, arith,
}
use network_tftp_tftp_hpa.Packet.{segsize}
use network_tftp_tftp_hpa.Text.Codes.{codes}
use network_tftp_tftp_hpa.Download.{take_short}
use network_tftp_tftp_hpa.Errors.{
  Failure, protocol, system, errmsgs, error_code, make_errpacket, is_control, printable, c_string,
  at_least, explained, errpkt_to_string,
}

-- A message without control characters.
abbrev pub IsPrintable : (signed_char : Bool) → List ℕ → Type 0
IsPrintable signed_char = All (λ c. is_control signed_char c ≡ false)

printable-IsPrintable :
    (signed_char : Bool) (msg rest : List ℕ)
    → IsPrintable signed_char msg
    → printable signed_char (msg ++ 0 ∷ rest) ≡ length msg
unfolding printable
printable-IsPrintable signed_char [] rest h = refl
printable-IsPrintable signed_char (c ∷ msg) rest h =
    ground (arith, printable-IsPrintable signed_char msg rest h.1)

c_string_nul :
    (signed_char : Bool) (msg rest : List ℕ)
    → IsPrintable signed_char msg
    → c_string (msg ++ 0 ∷ rest) ≡ msg
unfolding c_string
c_string_nul signed_char [] rest h = refl
c_string_nul signed_char (c ∷ msg) rest h =
    let no_nul : (c == 0) ≡ false = ground arith in
    rw no_nul (ap (λ s. c ∷ s) (c_string_nul signed_char msg rest h.1))

at_least_self : (s : List ℕ) → at_least (length s) s ≡ s
unfolding at_least
at_least_self s = let e : length s - length s ≡ 0 = omega arith in rw e refl

get_or_nul : (msg rest : List ℕ) → get_or (msg ++ 0 ∷ rest) (length msg) 0 ≡ 0
get_or_nul [] rest = refl
get_or_nul (c ∷ msg) rest = get_or_nul msg rest

-- A printable message with its NUL is told as it is.
explained-IsPrintable :
    (signed_char : Bool) (nerr : ℕ) (msg beyond : List ℕ)
    → msg ≢ []
    → IsPrintable signed_char msg
    → nerr < 9
    → explained signed_char nerr (msg ++ 0 ∷ []) beyond
      ≡ get_or errmsgs nerr [] ++ codes ": " ++ msg
unfolding explained
explained-IsPrintable signed_char nerr [] beyond some_text h lt = absurd (some_text refl)
explained-IsPrintable signed_char nerr (c ∷ msg) beyond some_text h lt =
    let n = printable-IsPrintable signed_char (c ∷ msg) [] h in
    let size : (suc (suc (length msg)) == length ((c ∷ msg) ++ 0 ∷ [])) ≡ true =
      ground (arith, length-append msg (0 ∷ [])) in
    let nul = get_or_nul (c ∷ msg) [] in
    let text =
      ap (at_least (suc (length msg))) (
        ap c_string (append_assoc (c ∷ msg) (0 ∷ []) beyond)
        ∙ c_string_nul signed_char (c ∷ msg) beyond h)
      ∙ at_least_self (c ∷ msg) in
    let known : leb 9 nerr ≡ false = ground arith in
    let some_bytes : (suc (length msg) == 0) ≡ false = ground arith in
    rw (n, size, nul, text, known, some_bytes)
      (append-nil (get_or errmsgs nerr [] ++ codes ": " ++ c ∷ msg))

error_code-lt :
    (e : Failure) (msg : List ℕ) → ((n : ℕ) → e ≡ protocol n → n < 9) → error_code e msg < 9
unfolding error_code
error_code-lt (protocol n) msg h = ground (arith, h n refl)
error_code-lt (system e) msg h = ground arith

-- A message that is not empty, has no control character and is shorter than SEGSIZE: the packet
-- that make_errpacket makes of it is told by errpkt_to_string as the text of the error code, a
-- colon, and the message, whole and with nothing behind it, whatever stands in memory behind the
-- packet. A code of the protocol must be one of the table.
pub make_errpacket-errpkt_to_string :
    (strerror : ℕ → List ℕ) (signed_char : Bool) (e : Failure) (msg beyond : List ℕ)
    → msg ≢ []
    → IsPrintable signed_char msg
    → length msg < segsize
    → ((n : ℕ) → e ≡ protocol n → n < 9)
    → errpkt_to_string signed_char (make_errpacket strerror e (some msg)) beyond
      ≡ get_or errmsgs (error_code e msg) [] ++ codes ": " ++ msg
unfolding make_errpacket errpkt_to_string
make_errpacket-errpkt_to_string strerror signed_char e msg beyond some_text h short known =
    let code = error_code-lt e msg known in
    let whole = take_short (segsize - 1) msg (omega arith) in
    let number : error_code e msg / 256 % 256 * 256 + error_code e msg % 256 ≡ error_code e msg =
      omega arith in
    rw (whole, number)
      (explained-IsPrintable signed_char (error_code e msg) msg beyond some_text h code)
