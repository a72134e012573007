-- ===== src/Errors.antt =====
-- common/error.c: error packets and what is told of them. A text is its bytes before the NUL.
pub mod RoundTrip
pub mod Controls
use network_tftp_tftp_hpa.Prelude.{
  ℕ, zero, suc, ◌+◌, ◌-◌, ◌*◌, ◌/◌, ◌%◌, ◌≤◌, ◌<◌, ◌≡◌, Bool, true, false, not, ◌&&◌, ◌||◌, Option,
  none, some, List, [], ◌∷◌, ◌++◌, ltb, leb, ◌==◌, if◌then◌else◌, length, get_or, take, replicate,
}
use network_tftp_tftp_hpa.Packet.{segsize}
use network_tftp_tftp_hpa.Packet.Opcode
use network_tftp_tftp_hpa.Text.Codes.{codes}
use network_tftp_tftp_hpa.Text.Decimal.{decimal}

-- The argument `error`: a code of the protocol, or a negative errno.
pub data Failure : Type 0 where
  protocol : ℕ → Failure
  system : ℕ → Failure

abbrev pub packet_types : List (List ℕ)
packet_types =
    codes "null"
    ∷ codes "RRQ"
    ∷ codes "WRQ"
    ∷ codes "DATA"
    ∷ codes "ACK"
    ∷ codes "ERROR"
    ∷ codes "OACK"
    ∷ []

abbrev pub errmsgs : List (List ℕ)
errmsgs =
    codes "unspecified error"
    ∷ codes "file not found"
    ∷ codes "access denied"
    ∷ codes "insufficient space for upload"
    ∷ codes "invalid TFTP operation"
    ∷ codes "unknown transfer ID"
    ∷ codes "file already exists"
    ∷ codes "no such user"
    ∷ codes "options negotiation failure"
    ∷ []

-- error_msg; past the table it is "".
unfoldable pub error_msg : (strerror : ℕ → List ℕ) → Failure → List ℕ
error_msg strerror (protocol n) = get_or errmsgs n []
error_msg strerror (system e) = strerror e

abbrev pub none_left : List ℕ → Bool
none_left [] = true
none_left (c ∷ cs) = false

-- The switch of make_errpacket and of nak() in tftpd/tftpd.c, with the errnos of Linux.
unfoldable pub error_code : Failure → (msg : List ℕ) → ℕ
error_code (protocol n) msg = if none_left msg then 0 else n
error_code (system e) msg =
    if e == 2 || (e == 20 || e == 1) then 1 else if e == 28 then 3 else if e == 17 then 6 else 0

-- htons()
abbrev pub be16 : ℕ → List ℕ
be16 n = n / 256 % 256 ∷ n % 256 ∷ []

-- An ERROR packet with its NUL.
abbrev pub error_packet : (code : ℕ) → (msg : List ℕ) → List ℕ
error_packet n msg = be16 Opcode.error ++ be16 n ++ msg ++ 0 ∷ []

-- make_errpacket; msg is none for NULL.
unfoldable pub make_errpacket : (strerror : ℕ → List ℕ) → Failure → Option (List ℕ) → List ℕ
unfolding error_msg error_code
make_errpacket strerror error maybe =
    let msg : List ℕ = elim maybe [ none ↦ error_msg strerror error | some m ↦ m ] in
    error_packet (error_code error msg) (take (segsize - 1) msg)

-- The 16-bit field at an even place.
abbrev pub ntohs_at : ℕ → List ℕ → ℕ
ntohs_at i bytes = get_or bytes i 0 * 256 + get_or bytes (suc i) 0

-- A byte at which a message is cut: *p < ' ' holds for the upper half if char is signed.
abbrev pub is_control : (signed_char : Bool) → ℕ → Bool
is_control signed_char c = ltb c b' ' || (c == 127 || (signed_char && leb 128 c))

-- The loop over the message: how many bytes are in front of the first control character.
unfoldable pub printable : (signed_char : Bool) → List ℕ → ℕ
printable signed_char [] = 0
printable signed_char (c ∷ cs) =
    let later = printable signed_char cs in if is_control signed_char c then 0 else suc later

-- What %s prints: the bytes up to the NUL.
unfoldable pub c_string : List ℕ → List ℕ
c_string [] = []
c_string (c ∷ cs) = let later = c_string cs in if c == 0 then [] else c ∷ later

-- What %*s prints: at least n characters.
unfoldable pub at_least : ℕ → List ℕ → List ℕ
at_least n s = replicate (n - length s) b' ' ++ s

-- The part of errpkt_to_string from the loop on: `msg` is the message in the packet, and `beyond`
-- what stands in memory behind the packet.
unfoldable pub explained : (signed_char : Bool) → (nerr : ℕ) → (msg beyond : List ℕ) → List ℕ
unfolding printable c_string at_least
explained signed_char nerr msg beyond =
    let n = printable signed_char msg in
    let whole = suc n == length msg && get_or msg n 0 == 0 in
    let ep : List ℕ = if whole then [] else codes "..." in
    let text : List ℕ =
      if n == 0
      then at_least 13 (codes "(no message)")
      else at_least n (c_string (msg ++ beyond)) in
    let front : List ℕ =
      if leb 9 nerr then codes "unknown error " ++ decimal nerr else get_or errmsgs nerr [] in
    front ++ codes ": " ++ text ++ ep

-- errpkt_to_string on the bytes of a packet; the caller has received at least two.
unfoldable pub errpkt_to_string : (signed_char : Bool) → (packet beyond : List ℕ) → List ℕ
unfolding explained
errpkt_to_string signed_char [] beyond = codes "packet too short"
errpkt_to_string signed_char (a ∷ []) beyond = codes "packet too short"
errpkt_to_string signed_char (a ∷ b ∷ rest) beyond =
    let opcode = a * 256 + b in
    let other : List ℕ =
      if leb 7 opcode
      then codes "invalid packet type " ++ decimal opcode
      else codes "unexpected " ++ get_or packet_types opcode [] ++ codes " packet" in
    let told : List ℕ = elim rest [
      | [] ↦ codes "error packet too short"
      | c ∷ [] ↦ codes "error packet too short"
      | c ∷ d ∷ msg ↦ explained signed_char (c * 256 + d) msg beyond
    ] in
    if opcode == Opcode.error then told else other
